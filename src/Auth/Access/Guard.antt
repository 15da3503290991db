-- ===== src/Auth/Access/Guard.antt =====
-- What a request that reaches a handler shows about its caller.
use open_synapse.Prelude.{
  ◌≤◌, String, eq_iff, ◌≡◌, refl, ◌≢◌, ◌↔◌, ◌⊎◌, inl, inr, true, false, not, ◌&&◌, Option, some,
  arith, if◌then◌else◌, Option-cases, ap, ◌∙◌,
}
use open_synapse.Prelude.Int.{ℤ}
use text.Mathlib.Text.{◌==◌ as str_eq}
use open_synapse.Auth.Users.{UserStore, user_for_token, User}
use open_synapse.Auth.Access.{
  Principal, local_principal, rank, Service, authenticate, is_public, is_administration,
  is_own_account, is_read_only_post, required_role, pass, unauthorized, middleware,
}

-- The request needs a role.
abbrev pub IsProtected : String → String → Type 0
IsProtected method p = (str_eq method "OPTIONS" ≡ false) × (is_public p ≡ false)

rank_viewer : rank "viewer" ≡ 1
unfolding rank
rank_viewer = refl

rank_editor : rank "editor" ≡ 2
unfolding rank
rank_editor = refl

rank_admin : rank "admin" ≡ 3
unfolding rank
rank_admin = refl

rank_le : (role : String) → rank role ≤ 3
unfolding rank
rank_le role = ground arith

required_role-cases :
    (method p : String)
    → (required_role method p ≡ "admin")
      ⊎ (required_role method p ≡ "viewer")
      ⊎ (required_role method p ≡ "editor")
unfolding required_role
required_role-cases method p = ground arith

-- The route only reads: it is GET or HEAD, or the caller's own account, or a POST request that changes
-- nothing.
abbrev pub IsReading : String → String → Type 0
IsReading method p =
    (is_own_account p ≡ true)
    ⊎ (method ≡ "GET")
    ⊎ (method ≡ "HEAD")
    ⊎ ((method ≡ "POST") × (is_read_only_post p ≡ true))

-- What the roles may do: an admin everything, an editor all but administration, a viewer what only reads
-- and is no administration. No other role may do anything.
abbrev pub MayUse : String → String → String → Type 0
MayUse role method p =
    (role ≡ "admin")
    ⊎ ((role ≡ "editor") × (is_administration method p ≡ false))
    ⊎ ((role ≡ "viewer") × (is_administration method p ≡ false) × IsReading method p)

-- Whom a token belongs to: in local mode the installation's token to the local user, and in team mode that
-- of a session or an API token to its user.
abbrev pub IsCaller : (String → String) → Service → ℤ → String → UserStore → Principal → Type 0
IsCaller hash svc now token users caller =
    ((svc.team_mode ≡ false)
      × (token ≢ "")
      × (token ≡ svc.local_token)
      × (caller ≡ local_principal))
    ⊎ ((svc.team_mode ≡ true)
        × (token ≢ "")
        × ((id : String) × (u : User) × ((user_for_token hash now token users).0 ≡ some (id, u))
            × (caller ≡ record {
              user_id = id;
              email = u.email;
              display_name = u.display_name;
              role = u.role;
            })))

required_role-rank : (method p : String) → 1 ≤ rank (required_role method p)
required_role-rank method p = elim (required_role-cases method p) [
  | inl admin ↦ omega (arith, rank_admin, ap rank admin)
  | inr (inl viewer) ↦ omega (arith, rank_viewer, ap rank viewer)
  | inr (inr editor) ↦ omega (arith, rank_editor, ap rank editor)
]

viewer_route :
    (method p : String)
    → required_role method p ≡ "viewer"
    → (is_administration method p ≡ false)
      × ((is_own_account p ≡ true)
          ⊎ (method ≡ "GET")
          ⊎ (method ≡ "HEAD")
          ⊎ ((method ≡ "POST") × (is_read_only_post p ≡ true)))
unfolding required_role
viewer_route method p reads = ground (
  arith,
  eq_iff method "GET",
  eq_iff method "HEAD",
  eq_iff method "POST",
  eq_iff "admin" "viewer",
  eq_iff "editor" "viewer",
)

rank-cases :
    (role : String)
    → ((role ≡ "admin") × (rank role ≡ 3))
      ⊎ ((role ≡ "editor") × (rank role ≡ 2))
      ⊎ ((role ≡ "viewer") × (rank role ≡ 1))
      ⊎ ((role ≢ "admin") × (role ≢ "editor") × (role ≢ "viewer") × (rank role ≡ 0))
unfolding rank
rank-cases role = ground (arith, eq_iff role "admin", eq_iff role "editor", eq_iff role "viewer")

need-cases :
    (method p : String)
    → ((is_administration method p ≡ true) × (rank (required_role method p) ≡ 3))
      ⊎ ((is_administration method p ≡ false)
          × IsReading method p
          × (rank (required_role method p) ≡ 1))
      ⊎ ((is_administration method p ≡ false)
          × ¬ IsReading method p
          × (rank (required_role method p) ≡ 2))
unfolding required_role
need-cases method p = ground (
  arith,
  rank_viewer,
  rank_editor,
  rank_admin,
  eq_iff method "GET",
  eq_iff method "HEAD",
  eq_iff method "POST",
)

-- The ranks say what the roles may do.
rank_enough :
    (role method p : String)
    → (1 ≤ rank role) × (rank (required_role method p) ≤ rank role) ↔ MayUse role method p
rank_enough role method p = ground (
  arith,
  rank-cases role,
  need-cases method p,
  eq_iff "admin" "editor",
  eq_iff "admin" "viewer",
  eq_iff "editor" "viewer",
)

authenticate_lem :
    (hash : String → String) (svc : Service) (now : ℤ) (token : String) (users : UserStore)
    (caller : Principal)
    → (authenticate hash svc now token users).0 ≡ some caller
      ↔ IsCaller hash svc now token users caller
unfolding authenticate
authenticate_lem hash svc now token users caller =
    elim (Option-cases (user_for_token hash now token users).0) [
      | inl nobody ↦
          ground (arith, eq_iff token svc.local_token, eq_iff token "", eq_iff svc.local_token "")
      | inr ((id, u), found) ↦
          ground (arith, eq_iff token svc.local_token, eq_iff token "", eq_iff svc.local_token "")
    ]

module _ (hash : String → String) (svc : Service) (now : ℤ) where
  pub middleware_pass :
      (method p token : String) (users : UserStore) (who : Option Principal)
      → IsProtected method p
      → (middleware hash svc now method p token users).0 ≡ pass who
        ↔ (caller : Principal) × (who ≡ some caller)
          × IsCaller hash svc now token users caller
          × MayUse caller.role method p
  unfolding middleware
  middleware_pass method p token users who guarded =
      elim (Option-cases (authenticate hash svc now token users).0) [
        | inl nobody ↦ (
          (λ passed. absurd (ground arith)),
          (λ (caller, same, known, may).
              absurd (ground (arith, (authenticate_lem hash svc now token users caller).1 known))),
        )
        | inr (caller, found) ↦
            let least = required_role-rank method p in
            let enough = rank_enough caller.role method p in
            (
              (λ passed. (
                caller,
                ground arith,
                (authenticate_lem hash svc now token users caller).0 found,
                enough.0 (ground (arith, least), ground (arith, least)),
              )),
              (λ (other, same, known, may).
                  let found' = (authenticate_lem hash svc now token users other).1 known in
                  ground (arith, same, found', (rank_enough other.role method p).1 may)),
            )
      ]

  -- In local mode only the installation's token opens a protected route, if there is one, and it opens
  -- every one.
  pub middleware_local :
      (method p token : String) (users : UserStore)
      → svc.team_mode ≡ false
      → IsProtected method p
      → (middleware hash svc now method p token users).0 ≡ (
          if not (str_eq token "") && str_eq token svc.local_token
          then pass (some local_principal)
          else unauthorized)
  unfolding middleware authenticate
  middleware_local method p token users local guarded = ground (
    arith,
    rank_admin,
    rank_le (required_role method p),
    eq_iff token svc.local_token,
    eq_iff svc.local_token "",
    eq_iff token "",
  )

  pass_rank :
      (method p token : String) (users : UserStore) (caller : Principal)
      → IsProtected method p
      → (middleware hash svc now method p token users).0 ≡ pass (some caller)
      → rank (required_role method p) ≤ rank caller.role
  pass_rank method p token users caller guarded passed =
      let (one, same, known, may) =
        (middleware_pass method p token users (some caller) guarded).0 passed in
      ground (arith, same, (rank_enough one.role method p).1 may)

  -- A viewer who reaches the handler of a protected route reads (GET or HEAD), or manages the own account,
  -- or sends one of the POST requests that change nothing; and the route is not one of the
  -- administration.
  pub middleware_viewer :
      (method p token : String) (users : UserStore) (caller : Principal)
      → IsProtected method p
      → (middleware hash svc now method p token users).0 ≡ pass (some caller)
      → caller.role ≡ "viewer"
      → (is_administration method p ≡ false) × IsReading method p
  middleware_viewer method p token users caller guarded passed viewer =
      let weak : rank caller.role ≡ 1 = ap rank viewer ∙ rank_viewer in
      let least : rank (required_role method p) ≤ rank caller.role =
        pass_rank method p token users caller guarded passed in
      elim (required_role-cases method p) [
        | inl admin ↦ absurd (omega (arith, rank_admin, ap rank admin))
        | inr (inl reads) ↦ viewer_route method p reads
        | inr (inr editor) ↦ absurd (omega (arith, rank_editor, ap rank editor))
      ]
