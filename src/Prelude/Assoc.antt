-- ===== src/Prelude/Assoc.antt =====
-- Go maps as association lists that hold each key once. The order of the entries carries no
-- meaning: what is proved of them goes through `lookup`, sums and lengths.
use text.Mathlib.Text.{◌==◌ as str_eq}
use open_synapse.Prelude.Int.{ℤ, eqb_ℤ}
use open_synapse.Prelude.{
  ℕ, ◌+◌, ◌≤◌, String, ◌≡◌, refl, ◌↔◌, Bool, true, Option, none, some, List, [], ◌∷◌, arith, eq_iff,
  if◌then◌else◌, length,
}

-- Keys that can be compared.
pub record Eq (K : Type 0) : Type 0 where
  pub beq : K → K → Bool
  pub beq_iff : (a b : K) → (beq a b ≡ true) ↔ (a ≡ b)

instance abbrev pub string_eq : Eq String
string_eq = record { beq = str_eq; beq_iff = eq_iff }

pub eqb_ℤ_iff : (a b : ℤ) → (eqb_ℤ a b ≡ true) ↔ (a ≡ b)
eqb_ℤ_iff a b = ground arith

instance abbrev pub int_eq : Eq ℤ
int_eq = record { beq = eqb_ℤ; beq_iff = eqb_ℤ_iff }

abbrev pub Map : Type 0 → Type 0 → Type 0
Map K V = List (K × V)

abbrev pub weigh : {V : Type 0} → (V → ℕ) → Option V → ℕ
weigh f none = 0
weigh f (some v) = f v

abbrev pub sum_by : {K V : Type 0} → (V → ℕ) → Map K V → ℕ
sum_by f [] = 0
sum_by f ((k, v) ∷ m) = f v + sum_by f m

module _ {K V : Type 0} ⦃e : Eq K⦄ where
  -- m[k], with the presence flag
  unfoldable pub lookup : K → Map K V → Option V
  lookup k [] = none
  lookup k ((j, v) ∷ m) = if e.beq j k then some v else lookup k m

  -- m[k] = v
  unfoldable pub insert : K → V → Map K V → Map K V
  insert k v [] = (k, v) ∷ []
  insert k v ((j, w) ∷ m) = if e.beq j k then (k, v) ∷ m else (j, w) ∷ insert k v m

  -- delete(m, k)
  unfoldable pub remove : K → Map K V → Map K V
  remove k [] = []
  remove k ((j, w) ∷ m) = let rest = remove k m in if e.beq j k then rest else (j, w) ∷ rest

  -- Each key stands once.
  abbrev pub Unique : Map K V → Type 0
  Unique [] = Unit
  Unique ((k, v) ∷ m) = (lookup k m ≡ none) × Unique m

  pub lookup-insert :
      (k j : K) (v : V) (m : Map K V)
      → lookup j (insert k v m) ≡ (if e.beq k j then some v else lookup j m)
  unfolding lookup insert
  lookup-insert k j v [] = refl
  lookup-insert k j v ((i, w) ∷ m) =
      ground (arith, e.beq_iff k j, e.beq_iff i k, e.beq_iff i j, lookup-insert k j v m)

  pub lookup-remove :
      (k j : K) (m : Map K V) → lookup j (remove k m) ≡ (if e.beq k j then none else lookup j m)
  unfolding lookup remove
  lookup-remove k j [] = ground arith
  lookup-remove k j ((i, w) ∷ m) =
      ground (arith, e.beq_iff k j, e.beq_iff i k, e.beq_iff i j, lookup-remove k j m)

  pub Unique-insert : (k : K) (v : V) (m : Map K V) → Unique m → Unique (insert k v m)
  unfolding insert lookup
  Unique-insert k v [] u = (refl, tt)
  Unique-insert k v ((j, w) ∷ m) u =
      ground (arith, e.beq_iff j k, e.beq_iff k j, lookup-insert k j v m, Unique-insert k v m u.1)

  pub Unique-remove : (k : K) (m : Map K V) → Unique m → Unique (remove k m)
  unfolding remove
  Unique-remove k [] u = tt
  Unique-remove k ((j, w) ∷ m) u = ground (arith, lookup-remove k j m, Unique-remove k m u.1)

  pub sum_by-insert :
      (f : V → ℕ) (k : K) (v : V) (m : Map K V)
      → sum_by f (insert k v m) + weigh f (lookup k m) ≡ sum_by f m + f v
  unfolding insert lookup
  sum_by-insert f k v [] = omega arith
  sum_by-insert f k v ((j, w) ∷ m) = ground (arith, sum_by-insert f k v m)

  remove_fresh : (k : K) (m : Map K V) → lookup k m ≡ none → remove k m ≡ m
  unfolding remove lookup
  remove_fresh k [] h = refl
  remove_fresh k ((j, w) ∷ m) h = ground (arith, remove_fresh k m)

  pub sum_by-remove :
      (f : V → ℕ) (k : K) (m : Map K V)
      → Unique m
      → sum_by f (remove k m) + weigh f (lookup k m) ≡ sum_by f m
  unfolding remove lookup
  sum_by-remove f k [] u = omega arith
  sum_by-remove f k ((j, w) ∷ m) u =
      ground (arith, e.beq_iff j k, remove_fresh j m u.0, sum_by-remove f k m u.1)

  pub length-remove : (k : K) (m : Map K V) → length (remove k m) ≤ length m
  unfolding remove
  length-remove k [] = omega arith
  length-remove k ((j, w) ∷ m) = ground (arith, length-remove k m)

  -- A write of a new key adds one entry, a write of a present key none.
  pub length-insert :
      (k : K) (v : V) (m : Map K V)
      → length (insert k v m) ≡ length m + (elim (lookup k m) [ none ↦ 1 | some _ ↦ 0 ])
  unfolding insert lookup
  length-insert k v [] = omega arith
  length-insert k v ((j, w) ∷ m) = ground (arith, length-insert k v m)
