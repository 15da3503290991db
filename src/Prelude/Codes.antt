-- ===== src/Prelude/Codes.antt =====
-- Text that the program walks character by character: the list of its code points, and the functions
-- of Go's package strings that the program calls on it.
use Prim.Native.Char.{code}
use Prim.Native.String.{String}
use Prim.Native.Nat.{ℕ}
use mathlib.Core.List.{List, [], ◌∷◌, ◌++◌}
use mathlib.Core.Bool.{Bool, true, false, ◌&&◌}
use open_synapse.Prelude.Tests.{◌==◌, if◌then◌else◌}

abbrev pub Text : Type 0
Text = List ℕ

abbrev pub codes : String → Text
codes String.[] = []
codes (String.◌∷◌ c s) = code c ∷ codes s

-- strings.ReplaceAll for a text of one character, and of two different ones
unfoldable pub replace_char : ℕ → Text → Text → Text
replace_char c new [] = []
replace_char c new (x ∷ s) = (if x == c then new else x ∷ []) ++ replace_char c new s

unfoldable pub replace_pair : ℕ → ℕ → Text → Text → Text
replace_pair c d new [] = []
replace_pair c d new (x ∷ []) = x ∷ []
replace_pair c d new (x ∷ y ∷ s) =
    let after = replace_pair c d new s in
    let next = replace_pair c d new (y ∷ s) in if x == c && y == d then new ++ after else x ∷ next

abbrev pub eqb_text : Text → Text → Bool
eqb_text [] [] = true
eqb_text (x ∷ s) (y ∷ t) = x == y && eqb_text s t
eqb_text [] (y ∷ t) = false
eqb_text (x ∷ s) [] = false
