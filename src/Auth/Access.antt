-- ===== src/Auth/Access.antt =====
-- apps/control-plane/internal/auth/auth.go: who is calling, and what the caller may do. A request is
-- its method, its path and the token of its Authorization header.
pub mod Guard
use open_synapse.Prelude.{
  ℕ, ◌-◌, ◌≤◌, ◌<◌, String, eq_iff, ◌≡◌, refl, ◌≢◌, ◌↔◌, ◌⊎◌, inl, inr, Bool, true, false, not,
  ◌&&◌, ◌||◌, Option, none, some, List, [], ◌∷◌, arith, ltb, leb, if◌then◌else◌, Bool-cases,
  Option-cases,
}
use open_synapse.Prelude.Int.{ℤ}
use text.Mathlib.Text.{◌==◌ as str_eq, starts_with}
use Prim.Native.String.{len, slice}
use open_synapse.Auth.Users.{User, UserStore, user_for_token}

-- Principal
pub record Principal : Type 0 where
  pub user_id : String
  pub email : String
  pub display_name : String
  pub role : String

-- LocalPrincipal
abbrev pub local_principal : Principal
local_principal = record { user_id = ""; email = ""; display_name = "Local user"; role = "admin" }

-- `rank`, 0 for a role that the map does not hold
unfoldable pub rank : String → ℕ
rank role =
    if str_eq role "viewer"
    then 1
    else if str_eq role "editor"
    then 2
    else if str_eq role "admin"
    then 3
    else 0

-- Service; the users are passed along, since a resolved token changes its time of last use
pub record Service : Type 0 where
  pub team_mode : Bool
  pub local_token : String

-- Authenticate
unfoldable pub authenticate :
    (String → String) → Service → ℤ → String → UserStore → Option Principal × UserStore
authenticate hash svc now token users =
    let local : Option Principal =
      if not (str_eq svc.local_token "") && str_eq token svc.local_token
      then some local_principal
      else none in
    let resolved = user_for_token hash now token users in
    let member : Option Principal = elim resolved.0 [
      | none ↦ none
      | some (id, u) ↦
          some
            (record { user_id = id; email = u.email; display_name = u.display_name; role = u.role })
    ] in
    if str_eq token ""
    then (none, users)
    else if not svc.team_mode
    then (local, users)
    else (member, resolved.1)

-- strings.HasSuffix
abbrev pub ends_with : String → String → Bool
ends_with s t = leb (len t) (len s) && str_eq (slice s (len s - len t) (len s)) t

-- isPublic
unfoldable pub is_public : String → Bool
is_public p =
    str_eq p "/health"
    || str_eq p "/ready"
    || str_eq p "/version"
    || str_eq p "/metrics"
    || str_eq p "/openapi.json"
    || (str_eq p "/api/v1/auth/session"
        || str_eq p "/api/v1/auth/login"
        || str_eq p "/api/v1/auth/setup")
    || str_eq p "/api/v1/ws"
    || (starts_with p "/api/v1/runs/" && (ends_with p "/control-state" || ends_with p "/ingest"))
    || str_eq p "/api/v1/playground/oauth/callback"
    || not (starts_with p "/api/")

-- the first case of RequiredRole
unfoldable pub is_administration : String → String → Bool
is_administration method p =
    starts_with p "/api/v1/users"
    || (str_eq p "/api/v1/settings" && not (str_eq method "GET"))
    || starts_with p "/api/v1/storage/"
    || str_eq p "/api/v1/diagnostics"
    || str_eq p "/api/v1/system/logs"
    || (starts_with p "/api/v1/ai/config" && not (str_eq method "GET"))

-- its second case: everyone's own session, password and tokens
unfoldable pub is_own_account : String → Bool
is_own_account p = str_eq p "/api/v1/auth/logout" || starts_with p "/api/v1/auth/"

-- readOnlyPOSTs, and the suffixes of POST requests that change nothing
unfoldable pub is_read_only_post : String → Bool
is_read_only_post p =
    (str_eq p "/api/v1/compare" || str_eq p "/api/v1/ai/preview")
    || (ends_with p "/export" || ends_with p "/compile" || ends_with p "/validate")

-- RequiredRole
unfoldable pub required_role : String → String → String
required_role method p =
    if is_administration method p
    then "admin"
    else if is_own_account p
    then "viewer"
    else if str_eq method "GET" || str_eq method "HEAD"
    then "viewer"
    else if str_eq method "POST" && is_read_only_post p
    then "viewer"
    else "editor"

-- what Middleware does with a request: it goes to the handler, with a principal or without, or is denied
pub data Verdict : Type 0 where
  pass : Option Principal → Verdict
  unauthorized : Verdict
  forbidden : String → String → Verdict

-- Middleware
unfoldable pub middleware :
    (String → String) → Service → ℤ → String → String → String → UserStore → Verdict × UserStore
middleware hash svc now method p token users =
    let (who, users') = authenticate hash svc now token users in
    if str_eq method "OPTIONS" || is_public p then (pass who, users') else elim who [
      | none ↦ (unauthorized, users')
      | some caller ↦
          let need = required_role method p in
          if ltb (rank caller.role) (rank need)
          then (forbidden caller.role need, users')
          else (pass (some caller), users')
    ]
