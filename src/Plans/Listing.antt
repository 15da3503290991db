-- ===== src/Plans/Listing.antt =====
-- apps/control-plane/internal/db/plans.go: List, which pages through the plans by their time of change.
-- A row is what decides its place; a time is in seconds, as the text of the column is.
use open_synapse.Prelude.{
  ℕ, ◌+◌, ◌≤◌, ◌≡◌, String, Bool, true, false, ◌||◌, Option, none, some, List, [], ◌∷◌, ltb, leb,
  ◌==◌, if◌then◌else◌, arith, take, length,
}

-- a row of plans, as List orders it
pub record ListedPlan : Type 0 where
  pub id : String
  pub built_in : Bool
  pub updated_at : ℕ

-- ORDER BY built_in DESC, updated_at DESC
abbrev comes_first : ListedPlan → ListedPlan → Bool
comes_first p q =
    if p.built_in
    then (if q.built_in then leb q.updated_at p.updated_at else true)
    else (if q.built_in then false else leb q.updated_at p.updated_at)

unfoldable pub put : ListedPlan → List ListedPlan → List ListedPlan
put p [] = p ∷ []
put p (q ∷ qs) = let rest = put p qs in if comes_first p q then p ∷ q ∷ qs else q ∷ rest

unfoldable pub in_order : List ListedPlan → List ListedPlan
in_order [] = []
in_order (p ∷ ps) = put p (in_order ps)

-- WHERE updated_at < ?, if there is a cursor
unfoldable pub before_cursor : Option ℕ → List ListedPlan → List ListedPlan
before_cursor none ps = ps
before_cursor (some c) [] = []
before_cursor (some c) (p ∷ ps) =
    let rest = before_cursor (some c) ps in if ltb p.updated_at c then p ∷ rest else rest

-- ListResult
pub record Page : Type 0 where
  pub items : List ListedPlan
  pub next_cursor : Option ℕ

-- the limit, which a request may leave out
unfoldable pub page_limit : ℕ → ℕ
page_limit limit = if limit == 0 || ltb 500 limit then 50 else limit

-- the time of the last of some rows
unfoldable pub last_time : List ListedPlan → Option ℕ
last_time [] = none
last_time (p ∷ []) = some p.updated_at
last_time (p ∷ q ∷ ps) = last_time (q ∷ ps)

-- List
unfoldable pub list_plans : Option ℕ → ℕ → List ListedPlan → Page
list_plans cursor limit ps =
    let n = page_limit limit in
    let rows = take (n + 1) (in_order (before_cursor cursor ps)) in
    if ltb n (length rows)
    then record { items = take n rows; next_cursor = last_time (take n rows) }
    else record { items = rows; next_cursor = none }

-- Paging loses plans: of a built-in plan and one that is none and was changed no earlier, the first page
-- of one plan shows the first and has a cursor, and the page at that cursor is empty and the last one.
pub list_plans_loses :
    (own fixed : ListedPlan)
    → own.built_in ≡ false
    → fixed.built_in ≡ true
    → fixed.updated_at ≤ own.updated_at
    → let ps = own ∷ fixed ∷ [] in
      (list_plans none 1 ps ≡ record { items = fixed ∷ []; next_cursor = some fixed.updated_at })
      × (list_plans (some fixed.updated_at) 1 ps ≡ record { items = []; next_cursor = none })
unfolding list_plans in_order put before_cursor page_limit last_time
list_plans_loses own fixed mine built newer = (ground (arith, mine, built), ground (arith, newer))
