-- ===== src/Auth/Users.antt =====
-- apps/control-plane/internal/db/users.go and auth.go: the tables of users, sessions and API tokens.
-- A table is a map from its key: users by their id, sessions by the hash of their token. Deleting a
-- user deletes what belongs to the user (ON DELETE CASCADE in the schema). Times are in seconds.
-- hashToken, the hexadecimal form of a SHA-256 hash, is the parameter `hash`; ids, secrets and the
-- hash of a password come as arguments.
pub mod Admins
pub mod Tokens
use open_synapse.Prelude.{
  ℕ, zero, suc, ◌+◌, ◌-◌, ◌≤◌, ◌<◌, String, eq_iff, ◌≡◌, refl, ◌≢◌, ◌↔◌, ◌⊎◌, inl, inr, Bool, true,
  false, not, ◌&&◌, ◌||◌, Option, none, some, List, [], ◌∷◌, arith, ltb, leb, if◌then◌else◌,
  Bool-cases, Option-cases,
}
use open_synapse.Prelude.Int.{ℤ, pos, ◌+ℤ◌, ◌≤ℤ◌, ◌<ℤ◌, ltb_ℤ, leb_ℤ}
use open_synapse.Prelude.Assoc.{
  Eq, string_eq, Map, lookup, insert, remove, Unique, sum_by, weigh, lookup-insert, lookup-remove,
  Unique-insert, Unique-remove, sum_by-insert, sum_by-remove,
}
use text.Mathlib.Text.{◌==◌ as str_eq, starts_with}

-- User, without its id
pub record User : Type 0 where
  pub email : String
  pub display_name : String
  pub role : String
  pub password_hash : String

pub record Session : Type 0 where
  pub user_id : String
  pub expires_at : ℤ

-- APIToken
pub record ApiToken : Type 0 where
  pub id : String
  pub user_id : String
  pub name : String
  pub token_hash : String
  pub last_used_at : Option ℤ

-- UserStore
pub record UserStore : Type 0 where
  pub users : Map String User
  pub sessions : Map String Session
  pub api_tokens : List ApiToken

pub data UserError : Type 0 where
  invalid_role last_admin insert_failed user_not_found token_not_found : UserError

abbrev pub is_admin : User → Bool
is_admin u = str_eq u.role "admin"

-- one for an admin
abbrev pub admin_count : User → ℕ
admin_count u = if is_admin u then 1 else 0

-- countAdmins
unfoldable pub count_admins : UserStore → ℕ
count_admins s = sum_by admin_count s.users

-- the check of a role in Create and Update
unfoldable pub is_valid_role : String → Bool
is_valid_role role = str_eq role "admin" || str_eq role "editor" || str_eq role "viewer"

-- whether a row has this email, which the schema makes unique
unfoldable pub has_email : String → Map String User → Bool
has_email email [] = false
has_email email ((id, u) ∷ m) = str_eq u.email email || has_email email m

-- Create; the insertion fails where the id or the email is taken
unfoldable pub create :
    String → String → String → String → String → UserStore → Option UserError × UserStore
create id email display_name password_hash role s =
    let role' = if str_eq role "" then "editor" else role in
    let u : User = record {
      email = email;
      display_name = display_name;
      role = role';
      password_hash = password_hash;
    } in
    if not (is_valid_role role')
    then (some invalid_role, s)
    else if has_email email s.users
    then (some insert_failed, s)
    else elim (lookup id s.users) [
      | some _ ↦ (some insert_failed, s)
      | none ↦ (none, record s { users = insert id u s.users })
    ]

-- Update; no user and no error where there is no such user
unfoldable pub update :
    String → String → String → UserStore → Option UserError × Option User × UserStore
update id display_name role s = elim (lookup id s.users) [
  | none ↦ (none, none, s)
  | some u ↦
      let u' : User = record u { display_name = display_name; role = role } in
      if not (is_valid_role role)
      then (some invalid_role, none, s)
      else if is_admin u && not (str_eq role "admin") && leb (count_admins s) 1
      then (some last_admin, none, s)
      else (none, some u', record s { users = insert id u' s.users })
]

-- the sessions, and the API tokens, of everyone else
unfoldable pub sessions_of_others : String → Map String Session → Map String Session
sessions_of_others id [] = []
sessions_of_others id ((h, ses) ∷ m) =
    let rest = sessions_of_others id m in if str_eq ses.user_id id then rest else (h, ses) ∷ rest

unfoldable pub tokens_of_others : String → List ApiToken → List ApiToken
tokens_of_others id [] = []
tokens_of_others id (t ∷ ts) =
    let rest = tokens_of_others id ts in if str_eq t.user_id id then rest else t ∷ rest

-- SetPassword
unfoldable pub set_password : String → String → UserStore → UserStore
set_password id password_hash s =
    let users' : Map String User = elim (lookup id s.users) [
      | none ↦ s.users
      | some u ↦ insert id (record u { password_hash = password_hash }) s.users
    ] in
    record s { users = users'; sessions = sessions_of_others id s.sessions }

-- Delete; the schema deletes the user's sessions and tokens along
unfoldable pub delete : String → UserStore → Option UserError × UserStore
delete id s = elim (lookup id s.users) [
  | none ↦ (some user_not_found, s)
  | some u ↦ (
    none,
    record s {
      users = remove id s.users;
      sessions = sessions_of_others id s.sessions;
      api_tokens = tokens_of_others id s.api_tokens;
    },
  )
]

-- DeleteUser
unfoldable pub delete_user : String → UserStore → Option UserError × UserStore
delete_user id s = elim (lookup id s.users) [
  | none ↦ (some user_not_found, s)
  | some u ↦ if is_admin u && leb (count_admins s) 1 then (some last_admin, s) else delete id s
]

-- a row of api_tokens by its hash; and the rows with this one's time of last use set
unfoldable pub find_token : String → List ApiToken → Option ApiToken
find_token h [] = none
find_token h (t ∷ ts) = if str_eq t.token_hash h then some t else find_token h ts

unfoldable pub touch_token : ℤ → String → List ApiToken → List ApiToken
touch_token now h [] = []
touch_token now h (t ∷ ts) =
    (if str_eq t.token_hash h then record t { last_used_at = some now } else t)
    ∷ touch_token now h ts

-- the tokens without one token of one user
unfoldable pub drop_token : String → String → List ApiToken → List ApiToken
drop_token user_id id [] = []
drop_token user_id id (t ∷ ts) =
    let rest = drop_token user_id id ts in
    if str_eq t.id id && str_eq t.user_id user_id then rest else t ∷ rest

-- whether a user has a token of this id
unfoldable pub has_token : String → String → List ApiToken → Bool
has_token user_id id [] = false
has_token user_id id (t ∷ ts) =
    (str_eq t.id id && str_eq t.user_id user_id) || has_token user_id id ts

-- DeleteAPIToken
unfoldable pub delete_api_token : String → String → UserStore → Option UserError × UserStore
delete_api_token user_id id s =
    if has_token user_id id s.api_tokens
    then (none, record s { api_tokens = drop_token user_id id s.api_tokens })
    else (some token_not_found, s)

-- a user with the id, as the queries for a token join them
unfoldable pub with_id : String → Map String User → Option (String × User)
with_id id m = elim (lookup id m) [ none ↦ none | some u ↦ some (id, u) ]

module _ (hash : String → String) where
  -- CreateSession, for a secret that was not issued before; a session needs its user
  unfoldable pub create_session : String → String → ℤ → UserStore → Option UserError × UserStore
  create_session user_id token expires s =
      let ses : Session = record { user_id = user_id; expires_at = expires } in
      elim (lookup user_id s.users) [
        | none ↦ (some insert_failed, s)
        | some _ ↦ elim (lookup (hash token) s.sessions) [
          | some _ ↦ (some insert_failed, s)
          | none ↦ (none, record s { sessions = insert (hash token) ses s.sessions })
        ]
      ]

  -- DeleteSession
  unfoldable pub delete_session : String → UserStore → UserStore
  delete_session token s = record s { sessions = remove (hash token) s.sessions }

  -- CreateAPIToken
  unfoldable pub create_api_token :
      String → String → String → String → UserStore → Option UserError × UserStore
  create_api_token user_id id name token s =
      let t : ApiToken = record {
        id = id;
        user_id = user_id;
        name = name;
        token_hash = hash token;
        last_used_at = none;
      } in
      elim (lookup user_id s.users) [
        | none ↦ (some insert_failed, s)
        | some _ ↦ elim (find_token (hash token) s.api_tokens) [
          | some _ ↦ (some insert_failed, s)
          | none ↦ (none, record s { api_tokens = t ∷ s.api_tokens })
        ]
      ]

  -- UserForToken
  unfoldable pub user_for_token : ℤ → String → UserStore → Option (String × User) × UserStore
  user_for_token now token s =
      let found : Option (String × User) = elim (find_token (hash token) s.api_tokens) [
        | none ↦ none
        | some t ↦ with_id t.user_id s.users
      ] in
      let used : UserStore = elim found [
        | none ↦ s
        | some _ ↦ record s { api_tokens = touch_token now (hash token) s.api_tokens }
      ] in
      if starts_with token "oss_"
      then (
        elim (lookup (hash token) s.sessions) [
          | none ↦ none
          | some ses ↦ if ltb_ℤ now ses.expires_at then with_id ses.user_id s.users else none
        ],
        s,
      )
      else if starts_with token "osk_"
      then (found, used)
      else (none, s)
