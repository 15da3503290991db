-- ===== src/Compiler/Scenarios/Managed.antt =====
-- Which scenario the engine drives.
use open_synapse.Prelude.{
  ℕ, zero, suc, ◌+◌, ◌≡◌, ◌↔◌, ◌≤◌, inl, inr, refl, Bool, true, false, Option, none, some, List, [],
  ◌∷◌, if◌then◌else◌, Bool-cases, Option-cases, arith,
}
use open_synapse.Compiler.Profiles.{ScenarioProps, is_vu_based}
use open_synapse.Compiler.Scenarios.{count_vu_based, managed_index}

-- how many scenarios are VU-based, and whether the one at an index is
abbrev pub vu_based_count : List (Option ScenarioProps) → ℕ
vu_based_count [] = 0
vu_based_count (none ∷ ss) = vu_based_count ss
vu_based_count (some p ∷ ss) =
    if is_vu_based p.executor then suc (vu_based_count ss) else vu_based_count ss

abbrev pub is_vu_based_at : ℕ → List (Option ScenarioProps) → Bool
is_vu_based_at i [] = false
is_vu_based_at i (none ∷ ss) = false
is_vu_based_at zero (some p ∷ ss) = is_vu_based p.executor
is_vu_based_at (suc i) (some p ∷ ss) = is_vu_based_at i ss

abbrev pub all_valid : List (Option ScenarioProps) → Bool
all_valid [] = true
all_valid (none ∷ ss) = false
all_valid (some p ∷ ss) = all_valid ss

-- the first one, counted from an index
first_from : ℕ → List (Option ScenarioProps) → Option ℕ
first_from i [] = none
first_from i (none ∷ ss) = first_from (i + 1) ss
first_from i (some p ∷ ss) = if is_vu_based p.executor then some i else first_from (i + 1) ss

or_else : Option ℕ → Option ℕ → Option ℕ
or_else none o = o
or_else (some i) o = some i

count_vu_based_valid :
    (i n : ℕ) (first : Option ℕ) (ss : List (Option ScenarioProps))
    → all_valid ss ≡ true
    → count_vu_based i n first ss ≡ some (n + vu_based_count ss, or_else first (first_from i ss))
unfolding count_vu_based or_else first_from
count_vu_based_valid i n none [] h = ground arith
count_vu_based_valid i n (some j) [] h = ground arith
count_vu_based_valid i n first (none ∷ ss) h = ground (arith, h)
count_vu_based_valid i n none (some p ∷ ss) h = elim (Bool-cases (is_vu_based p.executor)) [
  | inl vu ↦ ground (arith, vu, count_vu_based_valid (i + 1) (n + 1) (some i) ss h)
  | inr other ↦ ground (arith, other, count_vu_based_valid (i + 1) n none ss h)
]
count_vu_based_valid i n (some j) (some p ∷ ss) h = elim (Bool-cases (is_vu_based p.executor)) [
  | inl vu ↦ ground (arith, vu, count_vu_based_valid (i + 1) (n + 1) (some j) ss h)
  | inr other ↦ ground (arith, other, count_vu_based_valid (i + 1) n (some j) ss h)
]

count_vu_based_invalid :
    (ss : List (Option ScenarioProps)) (i n : ℕ) (first : Option ℕ)
    → all_valid ss ≡ false
    → count_vu_based i n first ss ≡ none
unfolding count_vu_based
count_vu_based_invalid [] i n first h = ground (arith, h)
count_vu_based_invalid (none ∷ ss) i n first h = refl
count_vu_based_invalid (some p ∷ ss) i n first h = count_vu_based_invalid ss _ _ _ h

-- Where none is VU-based, there is no first one, and no index has one.
first_from-none :
    (i j : ℕ) (ss : List (Option ScenarioProps))
    → vu_based_count ss ≡ 0
    → (first_from i ss ≡ none) × (is_vu_based_at j ss ≡ false)
unfolding first_from
first_from-none i j [] h = (refl, refl)
first_from-none i j (none ∷ ss) h = ground (arith, first_from-none (i + 1) j ss h)
first_from-none i zero (some p ∷ ss) h = ground (arith, h, first_from-none (i + 1) 0 ss)
first_from-none i (suc j) (some p ∷ ss) h = ground (arith, h, first_from-none (i + 1) j ss)

first_from-ge : (i m : ℕ) (ss : List (Option ScenarioProps)) → first_from i ss ≡ some m → i ≤ m
unfolding first_from
first_from-ge i m [] h = ground (arith, h)
first_from-ge i m (none ∷ ss) h = ground (arith, first_from-ge (i + 1) m ss h)
first_from-ge i m (some p ∷ ss) h = ground (arith, h, first_from-ge (i + 1) m ss)

first_from_only :
    (i j : ℕ) (ss : List (Option ScenarioProps))
    → all_valid ss ≡ true
    → vu_based_count ss ≡ 1
    → first_from i ss ≡ some (i + j) ↔ (is_vu_based_at j ss ≡ true)
unfolding first_from
first_from_only i j [] v h = ground (arith, h)
first_from_only i j (none ∷ ss) v h = ground (arith, v)
first_from_only i zero (some p ∷ ss) v h = elim (Bool-cases (is_vu_based p.executor)) [
  | inl vu ↦ ground (arith, vu)
  | inr other ↦ ground (arith, other, first_from-ge (i + 1) i ss)
]
first_from_only i (suc j) (some p ∷ ss) v h = elim (Bool-cases (is_vu_based p.executor)) [
  | inl vu ↦ ground (arith, vu, h, first_from-none (i + 1) j ss)
  | inr other ↦ ground (arith, other, h, first_from_only (i + 1) j ss v)
]

-- Of the scenarios that a plan has, the engine drives one exactly where the properties of every scenario
-- are valid and that one alone is VU-based.
pub managed_index_lem :
    (ss : List (Option ScenarioProps)) (i : ℕ)
    → managed_index ss ≡ some (some i)
      ↔ (all_valid ss ≡ true) × (vu_based_count ss ≡ 1) × (is_vu_based_at i ss ≡ true)
unfolding managed_index or_else
managed_index_lem ss i = elim (Bool-cases (all_valid ss)) [
  | inr invalid ↦ ground (arith, invalid, count_vu_based_invalid ss 0 0 none invalid)
  | inl valid ↦
      let counted = count_vu_based_valid 0 0 none ss valid in
      let only = first_from_only 0 i ss valid in
      elim (Option-cases (first_from 0 ss)) [
        | inl nothing ↦ ground (arith, valid, counted, only, nothing, first_from-none 0 i ss)
        | inr (j, first) ↦ ground (arith, valid, counted, only, first, first_from-none 0 i ss)
      ]
]
