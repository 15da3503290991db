-- ===== src/Examples/Auth.antt =====
-- The theorems on accounts and access, at concrete inputs, and runs of the access rules.
use open_synapse.Auth.Access.{
  Service, middleware, Principal, is_administration, is_public, pass, forbidden, is_own_account,
  authenticate, is_read_only_post, rank, required_role,
}
use open_synapse.Auth.Users.{
  delete, User, UserStore, count_admins, create_session, user_for_token, delete_user, with_id,
}
use open_synapse.Prelude.{String, ◌≡◌, refl, true, false, none, some, List, [], ◌∷◌, arith}
use open_synapse.Prelude.Int.{pos}
use open_synapse.Prelude.Assoc.{lookup, string_eq}
use open_synapse.Auth.Users.Admins.{
  change_all-HasAdmin, HasAdmin, change_all, update_call, delete_call, Change,
}

-- a stand-in for the hash of a token
abbrev same_text : String → String
same_text s = s

abbrev ada : User
ada = record {
  email = "ada@example.com";
  display_name = "Ada";
  role = "admin";
  password_hash = "1$2";
}

abbrev vic : User
vic = record {
  email = "vic@example.com";
  display_name = "Vic";
  role = "viewer";
  password_hash = "3$4";
}

abbrev two_users : UserStore
two_users = record {
  users = ("u1", ada) ∷ ("u2", vic) ∷ [];
  sessions =
      ("oss_1", record { user_id = "u1"; expires_at = pos 500 })
      ∷ ("oss_2", record { user_id = "u2"; expires_at = pos 500 })
      ∷ [];
  api_tokens = [];
}

-- the only admin cannot be demoted or deleted
abbrev lock_out : List Change
lock_out = update_call "u1" "Ada" "viewer" ∷ delete_call "u1" ∷ delete_call "u2" ∷ []

two_users-HasAdmin : HasAdmin two_users
unfolding count_admins lookup
two_users-HasAdmin = ((refl, (refl, tt)), omega arith)

change_all-HasAdmin_example : HasAdmin (change_all same_text lock_out two_users)
change_all-HasAdmin_example = change_all-HasAdmin same_text lock_out two_users two_users-HasAdmin

issued : (create_session same_text "u1" "oss_9" (pos 900) two_users).0 ≡ none
unfolding create_session lookup
issued = refl

deleted : (delete_user "u2" two_users).0 ≡ none
unfolding delete_user delete lookup
deleted = refl

abbrev team : Service
team = record { team_mode = true; local_token = "" }

abbrev local_install : Service
local_install = record { team_mode = false; local_token = "osl_7" }

abbrev vic_principal : Principal
vic_principal = record {
  user_id = "u2";
  email = "vic@example.com";
  display_name = "Vic";
  role = "viewer";
}

vic_reads :
    (middleware same_text team (pos 100) "GET" "/api/v1/plans" "oss_2" two_users).0
    ≡ pass (some vic_principal)
unfolding middleware is_public authenticate user_for_token lookup with_id rank required_role
    is_administration is_own_account
vic_reads = refl

-- the same viewer may not start a run
vic_cannot_start :
    (middleware same_text team (pos 100) "POST" "/api/v1/runs" "oss_2" two_users).0
    ≡ forbidden "viewer" "editor"
unfolding middleware is_public authenticate user_for_token lookup with_id rank required_role
    is_administration is_own_account is_read_only_post
vic_cannot_start = refl

abbrev get_method : String
get_method = "GET"
