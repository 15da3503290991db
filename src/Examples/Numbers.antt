-- ===== src/Examples/Numbers.antt =====
-- A concrete instance of the floating-point numbers and of the sorting routines of the standard
-- library that the engine's calculations take as parameters: arithmetic on whole numbers.
use open_synapse.Prelude.{
  zero, suc, ◌*◌, ◌/◌, ◌^◌, ◌≡◌, refl, List, [], ◌∷◌, arith, if◌then◌else◌, length, true, false,
}
use open_synapse.Prelude.Int.{ℤ, pos, negsuc, sub_ℕ, ◌+ℤ◌, ◌≤ℤ◌, ◌<ℤ◌, ltb_ℤ, leb_ℤ, int_laws}
use open_synapse.Float64.{Float64}
use open_synapse.Engine.Histogram.{Sorting}
use native.Mathlib.Nat.{div-lt_iff_lt-mul}

-- a product of whole numbers
unfoldable pub times : ℤ → ℤ → ℤ
times (pos a) (pos b) = pos (a * b)
times (pos a) (negsuc b) = sub_ℕ 0 (a * suc b)
times (negsuc a) (pos b) = sub_ℕ 0 (suc a * b)
times (negsuc a) (negsuc b) = pos (suc a * suc b)

-- a quotient of whole numbers, rounded towards zero; 0 for a division by zero or a negative number
unfoldable pub over : ℤ → ℤ → ℤ
over (pos a) (pos zero) = pos 0
over (pos a) (pos (suc b)) = pos (a / suc b)
over (negsuc a) (pos zero) = pos 0
over (negsuc a) (pos (suc b)) = sub_ℕ 0 (suc a / suc b)
over a (negsuc b) = pos 0

pub over_unit :
    (a b : ℤ) → pos 0 ≤ℤ a → a ≤ℤ b → pos 0 <ℤ b → (pos 0 ≤ℤ over a b) × (over a b ≤ℤ pos 1)
unfolding over
over_unit (pos a) (pos zero) na le nb = (omega arith, omega arith)
over_unit (pos a) (pos (suc b)) na le nb = (
  omega arith,
  omega (arith, (div-lt_iff_lt-mul {k = suc b} {x = a} {y = 2} (omega arith)).1 (omega arith)),
)
over_unit (pos a) (negsuc b) na le nb = (omega arith, omega arith)
over_unit (negsuc a) (pos b) na le nb = absurd (omega arith)
over_unit (negsuc a) (negsuc b) na le nb = absurd (omega arith)

pub times_nonneg :
    (f d : ℤ) → pos 0 ≤ℤ f → f ≤ℤ pos 1 → pos 0 ≤ℤ d → (pos 0 ≤ℤ times f d) × (times f d ≤ℤ d)
unfolding times
times_nonneg (pos zero) (pos d) a b c = (omega arith, omega arith)
times_nonneg (pos (suc zero)) (pos d) a b c = (omega arith, omega arith)
times_nonneg (pos (suc (suc n))) (pos d) a b c = absurd (omega arith)
times_nonneg (pos n) (negsuc d) a b c = absurd (omega arith)
times_nonneg (negsuc n) d a b c = absurd (omega arith)

pub times_nonpos :
    (f d : ℤ) → pos 0 ≤ℤ f → f ≤ℤ pos 1 → d ≤ℤ pos 0 → (d ≤ℤ times f d) × (times f d ≤ℤ pos 0)
unfolding times
times_nonpos (pos zero) (pos d) a b c = (omega arith, omega arith)
times_nonpos (pos zero) (negsuc d) a b c = (ground arith, ground arith)
times_nonpos (pos (suc zero)) (pos d) a b c = (omega arith, omega arith)
times_nonpos (pos (suc zero)) (negsuc d) a b c = (ground arith, ground arith)
times_nonpos (pos (suc (suc n))) d a b c = absurd (omega arith)
times_nonpos (negsuc n) d a b c = absurd (omega arith)

pub lt_true_lem : (a b : ℤ) → ltb_ℤ a b ≡ true → a ≤ℤ b
lt_true_lem a b h = ground arith

pub lt_false_lem : (a b : ℤ) → ltb_ℤ a b ≡ false → b ≤ℤ a
lt_false_lem a b h = ground arith

abbrev pub whole_numbers : Float64
whole_numbers = record {
  F = ℤ;
  of_int = λ n. n;
  add = λ a b. a +ℤ b;
  mul = times;
  div = over;
  round = λ n. n;
  ceil = λ n. n;
  truncate = λ n. n;
  log = λ n. n;
  exp = λ n. n;
  inf = pos (2 ^ 63);
  decimal = λ m k. pos (m / 10 ^ k);
  lt = ltb_ℤ;
  Le = λ a b. a ≤ℤ b;
  lt_true = lt_true_lem;
  lt_false = lt_false_lem;
  Le-refl = λ a. omega arith;
  Le-trans = λ a b c h k. omega arith;
  div_unit = over_unit;
  mul_nonneg = times_nonneg;
  mul_nonpos = times_nonpos;
  add_upper = λ a d x ea ed h le. omega int_laws;
  add_lower = λ a d x ea ed h le. omega int_laws;
  round_bounds = λ x m n em en ge le. (ge, le);
  ceil_bounds = λ x m n em en ge le. (ge, le);
}

-- insertion sort
unfoldable pub insert_sorted : ℤ → List ℤ → List ℤ
insert_sorted x [] = x ∷ []
insert_sorted x (y ∷ ys) = if leb_ℤ x y then x ∷ y ∷ ys else y ∷ insert_sorted x ys

unfoldable pub sort_whole : List ℤ → List ℤ
sort_whole [] = []
sort_whole (x ∷ xs) = insert_sorted x (sort_whole xs)

length-insert_sorted : (x : ℤ) (xs : List ℤ) → length (insert_sorted x xs) ≡ suc (length xs)
unfolding insert_sorted
length-insert_sorted x [] = refl
length-insert_sorted x (y ∷ ys) = ground (arith, length-insert_sorted x ys)

pub length-sort_whole : (xs : List ℤ) → length (sort_whole xs) ≡ length xs
unfolding sort_whole
length-sort_whole [] = refl
length-sort_whole (x ∷ xs) =
    ground (arith, length-sort_whole xs, length-insert_sorted x (sort_whole xs))

abbrev pub whole_sorting : Sorting whole_numbers
whole_sorting = record {
  sort_floats = sort_whole;
  sort_keys = sort_whole;
  length-sort_floats = length-sort_whole;
}
