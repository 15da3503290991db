-- ===== src/Auth/Users/Admins.antt =====
-- The changes of the account tables as steps, and the admin that every sequence of them leaves.
use open_synapse.Prelude.{
  ◌<◌, String, ◌≡◌, ◌≢◌, refl, inl, inr, true, none, some, List, [], ◌∷◌, arith, if◌then◌else◌,
  Option-cases, eq_iff,
}
use open_synapse.Prelude.Int.{ℤ}
use open_synapse.Prelude.Assoc.{
  string_eq, lookup, remove, lookup-remove, Unique, Unique-insert, Unique-remove, sum_by-insert,
  sum_by-remove,
}
use text.Mathlib.Text.{◌==◌ as str_eq}
use open_synapse.Auth.Users.{
  User, UserStore, delete, is_admin, admin_count, count_admins, create, update, set_password,
  delete_user, delete_api_token, create_session, delete_session, create_api_token, user_for_token,
}

-- A call of the store, with its arguments: every method that changes it but Delete, which has no check of
-- its own and which only DeleteUser calls.
pub data Change : Type 0 where
  create_call : String → String → String → String → String → Change
  update_call : String → String → String → Change
  password_call : String → String → Change
  delete_call : String → Change
  session_call : String → String → ℤ → Change
  sign_out_call : String → Change
  token_call : String → String → String → String → Change
  revoke_call : String → String → Change
  resolve_call : ℤ → String → Change

module _ (hash : String → String) where
  unfoldable pub change : Change → UserStore → UserStore
  change (create_call id email name password role) s = (create id email name password role s).1
  change (update_call id name role) s = (update id name role s).2
  change (password_call id password) s = set_password id password s
  change (delete_call id) s = (delete_user id s).1
  change (session_call id token expires) s = (create_session hash id token expires s).1
  change (sign_out_call token) s = delete_session hash token s
  change (token_call user id name token) s = (create_api_token hash user id name token s).1
  change (revoke_call user id) s = (delete_api_token user id s).1
  change (resolve_call now token) s = (user_for_token hash now token s).1

  unfoldable pub change_all : List Change → UserStore → UserStore
  change_all [] s = s
  change_all (c ∷ cs) s = change_all cs (change c s)

-- Each id names one user, and some user is an admin.
abbrev pub HasAdmin : UserStore → Type 0
HasAdmin s = Unique s.users × (0 < count_admins s)

create-HasAdmin :
    (id email name password role : String) (s : UserStore)
    → HasAdmin s
    → HasAdmin (create id email name password role s).1
unfolding create count_admins
create-HasAdmin id email name password role s h =
    let role' = if str_eq role "" then "editor" else role in
    let u : User = record {
      email = email;
      display_name = name;
      role = role';
      password_hash = password;
    } in
    elim (Option-cases (lookup id s.users)) [
      | inl fresh ↦
          ground (arith, Unique-insert id u s.users h.0, sum_by-insert admin_count id u s.users)
      | inr (old, taken) ↦ ground arith
    ]

update-HasAdmin :
    (id name role : String) (s : UserStore) → HasAdmin s → HasAdmin (update id name role s).2
unfolding update count_admins
update-HasAdmin id name role s h = elim (Option-cases (lookup id s.users)) [
  | inl absent ↦ ground arith
  | inr (u, found) ↦
      let u' : User = record u { display_name = name; role = role } in
      ground (arith, Unique-insert id u' s.users h.0, sum_by-insert admin_count id u' s.users)
]

set_password-HasAdmin :
    (id password : String) (s : UserStore) → HasAdmin s → HasAdmin (set_password id password s)
unfolding set_password count_admins
set_password-HasAdmin id password s h = elim (Option-cases (lookup id s.users)) [
  | inl absent ↦ ground arith
  | inr (u, found) ↦
      let u' : User = record u { password_hash = password } in
      ground (arith, Unique-insert id u' s.users h.0, sum_by-insert admin_count id u' s.users)
]

delete_user-HasAdmin : (id : String) (s : UserStore) → HasAdmin s → HasAdmin (delete_user id s).1
unfolding delete_user delete count_admins
delete_user-HasAdmin id s h = elim (Option-cases (lookup id s.users)) [
  | inl absent ↦ ground arith
  | inr (u, found) ↦
      ground (arith, Unique-remove id s.users h.0, sum_by-remove admin_count id s.users h.0)
]

-- A change other than these four leaves the users alone.
abbrev SameUsers : UserStore → UserStore → Type 0
SameUsers s s' = s'.users ≡ s.users

SameUsers-HasAdmin : (s s' : UserStore) → SameUsers s s' → HasAdmin s → HasAdmin s'
unfolding count_admins
SameUsers-HasAdmin s s' e h = rw e h

module _ (hash : String → String) where
  change-HasAdmin : (c : Change) (s : UserStore) → HasAdmin s → HasAdmin (change hash c s)
  unfolding change create_session delete_session create_api_token delete_api_token user_for_token
  change-HasAdmin (create_call id email name password role) s h =
      create-HasAdmin id email name password role s h
  change-HasAdmin (update_call id name role) s h = update-HasAdmin id name role s h
  change-HasAdmin (password_call id password) s h = set_password-HasAdmin id password s h
  change-HasAdmin (delete_call id) s h = delete_user-HasAdmin id s h
  change-HasAdmin (session_call id token expires) s h =
      SameUsers-HasAdmin s (create_session hash id token expires s).1 (ground arith) h
  change-HasAdmin (sign_out_call token) s h =
      SameUsers-HasAdmin s (delete_session hash token s) refl h
  change-HasAdmin (token_call user id name token) s h =
      SameUsers-HasAdmin s (create_api_token hash user id name token s).1 (ground arith) h
  change-HasAdmin (revoke_call user id) s h =
      SameUsers-HasAdmin s (delete_api_token user id s).1 (ground arith) h
  change-HasAdmin (resolve_call now token) s h =
      SameUsers-HasAdmin s (user_for_token hash now token s).1 (ground arith) h

  -- Once there is an admin, every sequence of the calls that a `Change` names, refused ones included, leaves
  -- an admin, as long as each of them ends before the next one begins. Among them is DeleteUser; Delete,
  -- which it calls after its check and nothing else calls, is none of them.
  pub change_all-HasAdmin :
      (cs : List Change) (s : UserStore) → HasAdmin s → HasAdmin (change_all hash cs s)
  unfolding change_all
  change_all-HasAdmin [] s h = h
  change_all-HasAdmin (c ∷ cs) s h =
      change_all-HasAdmin cs (change hash c s) (change-HasAdmin c s h)

-- Two deletions at once remove the last admins: of exactly two admins, either may be deleted as the users
-- stand, so both calls pass the check of DeleteUser when it counts before the other one writes; and once
-- both have called Delete there is no admin.
pub delete_both :
    (a b : String) (u v : User) (s : UserStore)
    → Unique s.users
    → a ≢ b
    → (lookup a s.users ≡ some u) × (is_admin u ≡ true)
    → (lookup b s.users ≡ some v) × (is_admin v ≡ true)
    → count_admins s ≡ 2
    → ((delete_user a s).0 ≡ none)
      × ((delete_user b s).0 ≡ none)
      × (count_admins (delete b (delete a s).1).1 ≡ 0)
unfolding delete_user delete count_admins
delete_both a b u v s keyed ne ha hb two = ground (
  arith,
  sum_by-remove admin_count a s.users keyed,
  Unique-remove a s.users keyed,
  sum_by-remove admin_count b (remove a s.users) (Unique-remove a s.users keyed),
  lookup-remove a b s.users,
  eq_iff a b,
)
