-- ===== src/Float64.antt =====
-- Go's `float64`, as the program's calculations use it: a type with operations that are parameters
-- of the model, and the IEEE 754 facts that the proofs need. Every operation is correctly rounded,
-- so it is monotone, and it is exact on integers of magnitude at most 2 ^ 53.
use open_synapse.Prelude.{◌≤◌, ◌^◌, ℕ, if◌then◌else◌, Bool, ◌≡◌, true, false}
use open_synapse.Prelude.Int.{ℤ, pos, pos_part, neg_part, ◌+ℤ◌, ◌≤ℤ◌, ◌<ℤ◌}

-- |n| ≤ 2 ^ 53
abbrev pub IsExact : ℤ → Type 0
IsExact n = (pos_part n ≤ 2 ^ 53) × (neg_part n ≤ 2 ^ 53)

-- |n| ≤ 2 ^ 52, so that a float64 also holds the difference of two such numbers
abbrev pub IsCount : ℤ → Type 0
IsCount n = (pos_part n ≤ 2 ^ 52) × (neg_part n ≤ 2 ^ 52)

pub record Float64 : Type 1 where
  pub F : Type 0
  -- float64(n), and the arithmetic operators
  pub of_int : ℤ → F
  pub add : F → F → F
  pub mul : F → F → F
  pub div : F → F → F
  -- int(math.Round(x))
  pub round : F → ℤ
  -- int(math.Ceil(x)) and int64(x)
  pub ceil : F → ℤ
  pub truncate : F → ℤ
  -- math.Log, math.Exp, math.Inf(1), and the constant m / 10 ^ k
  pub log : F → F
  pub exp : F → F
  pub inf : F
  pub decimal : ℕ → ℕ → F
  -- a < b and the order a ≤ b that it decides: no value of the program is NaN
  pub lt : F → F → Bool
  pub Le : F → F → Type 0
  pub lt_true : (a b : F) → lt a b ≡ true → Le a b
  pub lt_false : (a b : F) → lt a b ≡ false → Le b a
  pub Le-refl : (a : F) → Le a a
  pub Le-trans : (a b c : F) → Le a b → Le b c → Le a c
  -- The quotient of two converted integers 0 ≤ a ≤ b, 0 < b, lies between 0 and 1.
  pub div_unit :
      (a b : ℤ)
      → pos 0 ≤ℤ a
      → a ≤ℤ b
      → pos 0 <ℤ b
      → Le (of_int (pos 0)) (div (of_int a) (of_int b))
        × Le (div (of_int a) (of_int b)) (of_int (pos 1))
  -- A fraction of a nonnegative number lies between 0 and that number.
  pub mul_nonneg :
      (f : F) (d : ℤ)
      → Le (of_int (pos 0)) f
      → Le f (of_int (pos 1))
      → pos 0 ≤ℤ d
      → Le (of_int (pos 0)) (mul f (of_int d)) × Le (mul f (of_int d)) (of_int d)
  -- A fraction of a negative number lies between that number and 0.
  pub mul_nonpos :
      (f : F) (d : ℤ)
      → Le (of_int (pos 0)) f
      → Le f (of_int (pos 1))
      → d ≤ℤ pos 0
      → Le (of_int d) (mul f (of_int d)) × Le (mul f (of_int d)) (of_int (pos 0))
  -- Adding an integer keeps an upper and a lower bound, where the integers and their sum are exact.
  pub add_upper :
      (a d : ℤ) (x : F)
      → IsExact a
      → IsExact d
      → IsExact (a +ℤ d)
      → Le x (of_int d)
      → Le (add (of_int a) x) (of_int (a +ℤ d))
  pub add_lower :
      (a d : ℤ) (x : F)
      → IsExact a
      → IsExact d
      → IsExact (a +ℤ d)
      → Le (of_int d) x
      → Le (of_int (a +ℤ d)) (add (of_int a) x)
  -- Rounding a number between two exact integers stays between them. Beyond the int64, the conversion to
  -- an int depends on the machine.
  pub round_bounds :
      (x : F) (m n : ℤ)
      → IsExact m
      → IsExact n
      → Le (of_int m) x
      → Le x (of_int n)
      → (m ≤ℤ round x) × (round x ≤ℤ n)
  pub ceil_bounds :
      (x : F) (m n : ℤ)
      → IsExact m
      → IsExact n
      → Le (of_int m) x
      → Le x (of_int n)
      → (m ≤ℤ ceil x) × (ceil x ≤ℤ n)

-- math.Min and math.Max
unfoldable pub fmin : (fl : Float64) → fl.F → fl.F → fl.F
fmin fl a b = if fl.lt b a then b else a

unfoldable pub fmax : (fl : Float64) → fl.F → fl.F → fl.F
fmax fl a b = if fl.lt a b then b else a
