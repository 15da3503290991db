-- ===== src/Httpx.antt =====
-- apps/control-plane/internal/httpx/security.go: which hosts and origins may send requests.
use open_synapse.Prelude.{
  ◌≡◌, ◌≢◌, ◌↔◌, ◌⊎◌, inl, inr, String, eq_iff, Bool, true, false, not, ◌&&◌, ◌||◌, Option, none,
  some, List, [], ◌∷◌, if◌then◌else◌, Bool-cases, Option-cases, arith, Any,
}
use text.Mathlib.Text.{◌==◌ as str_eq}

-- What the code calls of Go's packages net, net/url and strings: the host of a host and port, or of a
-- name alone, without brackets; the host of a URL, if it has one; strings.ToLower, strings.EqualFold,
-- and strings.TrimRight of slashes.
pub record NetText : Type 0 where
  pub host_only : String → String
  pub url_host : String → Option String
  pub to_lower : String → String
  pub equal_fold : String → String → Bool
  pub trim_slashes : String → String

-- SecurityConfig
pub record SecurityConfig : Type 0 where
  pub allowed_hosts : List String
  pub allowed_origins : List String

-- what Middleware reads of a request; the origin is "" where there is no such header
pub record Request : Type 0 where
  pub method : String
  pub path : String
  pub host : String
  pub origin : String

-- what Middleware does: it denies the request, answers a preflight, or hands the request on; the
-- origin is that of the headers for other origins, if they are set
pub data Outcome : Type 0 where
  host_not_allowed origin_not_allowed : Outcome
  preflight handed_on : Option String → Outcome

-- loopback
unfoldable pub is_loopback : String → Bool
is_loopback h = str_eq h "localhost" || str_eq h "127.0.0.1" || str_eq h "::1"

-- a health check
unfoldable pub is_probe : Request → Bool
is_probe r = str_eq r.method "GET" && (str_eq r.path "/health" || str_eq r.path "/ready")

-- the end of Middleware, after its checks
unfoldable pub answer : Request → Option String → Outcome
answer r origin = if str_eq r.method "OPTIONS" then preflight origin else handed_on origin

abbrev pub is_handed_on : Outcome → Bool
is_handed_on (handed_on origin) = true
is_handed_on _ = false

module _ (nt : NetText) where
  -- the loop of hostAllowed
  unfoldable pub matches_host : String → List String → Bool
  matches_host h [] = false
  matches_host h (a ∷ rest) =
      let later = matches_host h rest in if str_eq a "*" || nt.equal_fold a h then true else later

  -- hostAllowed
  unfoldable pub host_allowed : SecurityConfig → String → Bool
  host_allowed c host =
      let h = nt.to_lower (nt.host_only host) in
      if is_loopback h then true else matches_host h c.allowed_hosts

  -- the loop of originAllowed
  unfoldable pub matches_origin : String → List String → Bool
  matches_origin origin [] = false
  matches_origin origin (a ∷ rest) =
      let later = matches_origin origin rest in
      if nt.equal_fold (nt.trim_slashes a) origin then true else later

  -- originAllowed
  unfoldable pub origin_allowed : SecurityConfig → String → String → Bool
  origin_allowed c origin host = elim (nt.url_host origin) [
    | none ↦ false
    | some h ↦
        if str_eq h ""
        then false
        else if nt.equal_fold h host
        then true
        else matches_origin origin c.allowed_origins
  ]

  -- Middleware
  unfoldable pub middleware : SecurityConfig → Request → Outcome
  middleware c r =
      if not (is_probe r) && not (host_allowed c r.host)
      then host_not_allowed
      else if str_eq r.origin ""
      then answer r none
      else if origin_allowed c r.origin r.host
      then answer r (some r.origin)
      else origin_not_allowed

  -- A host that is the machine itself, or that the configuration names, or any host where it names "*".
  abbrev pub IsKnownHost : SecurityConfig → String → Type 0
  IsKnownHost c host =
      let h = nt.to_lower (nt.host_only host) in
      (is_loopback h ≡ true) ⊎ Any (λ a. (a ≡ "*") ⊎ (nt.equal_fold a h ≡ true)) c.allowed_hosts

  -- An origin with a host, which is the host of the request or one that the configuration names.
  abbrev pub IsKnownOrigin : SecurityConfig → String → String → Type 0
  IsKnownOrigin c origin host =
      (h : String) × ((nt.url_host origin ≡ some h)
        × ((h ≢ "")
            × ((nt.equal_fold h host ≡ true)
                ⊎ Any (λ a. nt.equal_fold (nt.trim_slashes a) origin ≡ true) c.allowed_origins)))

  matches_host-Any :
      (h : String) (hosts : List String)
      → matches_host h hosts ≡ true ↔ Any (λ a. (a ≡ "*") ⊎ (nt.equal_fold a h ≡ true)) hosts
  unfolding matches_host
  matches_host-Any h [] = ground arith
  matches_host-Any h (a ∷ rest) = ground (arith, matches_host-Any h rest, eq_iff a "*")

  matches_origin-Any :
      (origin : String) (origins : List String)
      → matches_origin origin origins ≡ true
        ↔ Any (λ a. nt.equal_fold (nt.trim_slashes a) origin ≡ true) origins
  unfolding matches_origin
  matches_origin-Any origin [] = ground arith
  matches_origin-Any origin (a ∷ rest) = ground (arith, matches_origin-Any origin rest)

  host_allowed-IsKnownHost :
      (c : SecurityConfig) (host : String) → host_allowed c host ≡ true ↔ IsKnownHost c host
  unfolding host_allowed
  host_allowed-IsKnownHost c host =
      ground (arith, matches_host-Any (nt.to_lower (nt.host_only host)) c.allowed_hosts)

  origin_allowed-IsKnownOrigin :
      (c : SecurityConfig) (origin host : String)
      → origin_allowed c origin host ≡ true ↔ IsKnownOrigin c origin host
  unfolding origin_allowed
  origin_allowed-IsKnownOrigin c origin host = elim (Option-cases (nt.url_host origin)) [
    | inl bad ↦ (
      λ allowed. absurd (ground (arith, bad, allowed)),
      λ known. absurd (ground (arith, bad, known.1.0)),
    )
    | inr (h, good) ↦
        let listed = matches_origin-Any origin c.allowed_origins in
        (
          λ allowed. (h, (good, ground (arith, good, allowed, listed, eq_iff h ""))),
          λ known.
              let same : h ≡ known.0 = ground (arith, good, known.1.0) in
              let (named, way) = known.1.1 in
              elim way [
                | inl own ↦ ground (arith, good, same, named, own, eq_iff h "")
                | inr other ↦ ground (arith, good, same, named, listed.1 other, eq_iff h "")
              ],
        )
  ]

  -- A request is handed on exactly if it is no OPTIONS request, its host is the machine itself or
  -- allowed by the configuration (a health check may have any), and its origin, if it has one, is the
  -- host itself or allowed by the configuration.
  pub middleware-is_handed_on :
      (c : SecurityConfig) (r : Request)
      → is_handed_on (middleware c r) ≡ true
        ↔ (r.method ≢ "OPTIONS")
          × ((is_probe r ≡ true) ⊎ IsKnownHost c r.host)
          × ((r.origin ≡ "") ⊎ IsKnownOrigin c r.origin r.host)
  unfolding middleware answer
  middleware-is_handed_on c r =
      let host = host_allowed-IsKnownHost c r.host in
      let origin = origin_allowed-IsKnownOrigin c r.origin r.host in
      (
        λ on. (
          ground (arith, on, eq_iff r.method "OPTIONS"),
          elim (Bool-cases (is_probe r)) [
            | inl probe ↦ inl probe
            | inr asked ↦ inr (host.0 (ground (arith, on, asked)))
          ],
          elim (Bool-cases (str_eq r.origin "")) [
            | inl bare ↦ inl (ground (arith, bare, eq_iff r.origin ""))
            | inr named ↦ inr (origin.0 (ground (arith, on, named)))
          ],
        ),
        λ given.
            let (method, from, by) = given in
            let host_ok : is_probe r || host_allowed c r.host ≡ true = elim from [
              | inl probe ↦ ground (arith, probe)
              | inr known ↦ ground (arith, host.1 known)
            ] in
            let origin_ok : str_eq r.origin "" || origin_allowed c r.origin r.host ≡ true =
              elim by [
                | inl bare ↦ ground (arith, bare, eq_iff r.origin "")
                | inr known ↦ ground (arith, origin.1 known)
              ] in
            ground (arith, method, host_ok, origin_ok, eq_iff r.method "OPTIONS"),
      )
