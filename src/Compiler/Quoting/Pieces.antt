-- ===== src/Compiler/Quoting/Pieces.antt =====
-- How resolveVarRefs cuts a text at its references: nothing is lost, and the names are words.
use mathlib.Core.List.{append_assoc}
use open_synapse.Prelude.{
  ℕ, zero, suc, ◌+◌, ◌≡◌, ◌⊎◌, inl, inr, refl, ap, true, false, ◌&&◌, none, some, List, [], ◌∷◌,
  ◌++◌, ◌==◌, Bool-cases, Option-cases, arith, All, length, ◌≤◌,
}
use open_synapse.Prelude.Codes.{Text}
use open_synapse.Compiler.Quoting.{
  Piece, char, ref, pieces, pieces_from, match_ref, word_to_brace, is_word, is_word_start,
}

-- the text that a match of varRefRe with some name spans
abbrev pub spelled_ref : Text → Text
spelled_ref name = b'$' ∷ b'{' ∷ name ++ b'}' ∷ []

abbrev pub spelled : List Piece → Text
spelled [] = []
spelled (char c ∷ ps) = c ∷ spelled ps
spelled (ref name ∷ ps) = spelled_ref name ++ spelled ps

abbrev pub IsWords : Text → Type 0
IsWords name = All (λ c. is_word c ≡ true) name

abbrev pub HasNames : List Piece → Type 0
HasNames [] = Unit
HasNames (char c ∷ ps) = HasNames ps
HasNames (ref name ∷ ps) = IsWords name × HasNames ps

drop_text : ℕ → Text → Text
drop_text zero s = s
drop_text (suc k) [] = []
drop_text (suc k) (c ∷ s) = drop_text k s

-- a found name stands before its brace, and is made of word characters
word_to_brace-spelled :
    (s name : Text)
    → word_to_brace s ≡ some name
    → (s ≡ name ++ b'}' ∷ drop_text (length name + 1) s) × IsWords name
unfolding word_to_brace drop_text
word_to_brace-spelled [] name h = ground (arith, h)
word_to_brace-spelled (c ∷ s) [] h = elim (Option-cases (word_to_brace s)) [
  | inl stuck ↦ ground (arith, h, stuck)
  | inr (rest, found) ↦ ground (arith, h, found)
]
word_to_brace-spelled (c ∷ s) (n ∷ name) h = elim (Option-cases (word_to_brace s)) [
  | inl stuck ↦ ground (arith, h, stuck)
  | inr (rest, found) ↦ ground (arith, h, found, word_to_brace-spelled s rest found)
]

pieces_from-drop : (k : ℕ) (s : Text) → pieces_from k s ≡ pieces (drop_text k s)
unfolding pieces_from drop_text
pieces_from-drop zero s = refl
pieces_from-drop (suc k) [] = refl
pieces_from-drop (suc k) (c ∷ s) = pieces_from-drop k s

drop_text_skip : (n d b : ℕ) (s : Text) → drop_text (n + 3) (d ∷ b ∷ s) ≡ drop_text (n + 1) s
unfolding drop_text
drop_text_skip n d b s =
    let same : n + 3 ≡ suc (suc (n + 1)) = omega arith in ap (λ k. drop_text k (d ∷ b ∷ s)) same

drop_text_cons : (n d : ℕ) (s : Text) → drop_text (n + 3) (d ∷ s) ≡ drop_text (n + 2) s
unfolding drop_text
drop_text_cons n d s =
    let same : n + 3 ≡ suc (n + 2) = omega arith in ap (λ k. drop_text k (d ∷ s)) same

match_ref-spelled :
    (s name : Text)
    → match_ref s ≡ some name
    → (s ≡ spelled_ref name ++ drop_text (length name + 3) s) × IsWords name
unfolding match_ref drop_text
match_ref-spelled [] name h = ground (arith, h)
match_ref-spelled (d ∷ []) name h = ground (arith, h)
match_ref-spelled (d ∷ b ∷ []) name h = ground (arith, h)
match_ref-spelled (d ∷ b ∷ r ∷ s) name h =
    elim (Bool-cases (d == b'$' && b == b'{' && is_word_start r)) [
      | inl begins ↦
          let found : word_to_brace (r ∷ s) ≡ some name = ground (arith, h, begins) in
          ground (
            arith,
            begins,
            word_to_brace-spelled (r ∷ s) name found,
            drop_text_skip (length name) d b (r ∷ s),
            append_assoc name (b'}' ∷ []) (drop_text (length name + 1) (r ∷ s)),
          )
      | inr other ↦ ground (arith, h, other)
    ]

-- what is left of a text after the match at its start
abbrev rest_of : Text → Text → Text
rest_of name s = drop_text (length name + 3) s

pieces_cons :
    (c : ℕ) (s : Text)
    → ((match_ref (c ∷ s) ≡ none) × (pieces (c ∷ s) ≡ char c ∷ pieces s))
      ⊎ ((name : Text) × ((match_ref (c ∷ s) ≡ some name)
            × (pieces (c ∷ s) ≡ ref name ∷ pieces (rest_of name (c ∷ s)))))
unfolding pieces_from
pieces_cons c s = elim (Option-cases (match_ref (c ∷ s))) [
  | inl plain_char ↦ inl (plain_char, ground (arith, plain_char))
  | inr (name, found) ↦ inr (
    name,
    (
      found,
      ground (arith, found, pieces_from-drop (length name + 2) s, drop_text_cons (length name) c s),
    ),
  )
]

length-drop_text : (k : ℕ) (s : Text) → length (drop_text k s) ≤ length s
unfolding drop_text
length-drop_text zero s = omega arith
length-drop_text (suc k) [] = omega arith
length-drop_text (suc k) (c ∷ s) = omega (arith, length-drop_text k s)

pub pieces-within :
    (n : ℕ) (s : Text) → length s ≤ n → (spelled (pieces s) ≡ s) × HasNames (pieces s)
unfolding pieces_from
pieces-within n [] h = (refl, tt)
pieces-within zero (c ∷ s) h = absurd (omega (arith, h))
pieces-within (suc n) (c ∷ s) h = elim (pieces_cons c s) [
  | inl (plain_char, cut) ↦ ground (arith, cut, pieces-within n s (omega (arith, h)))
  | inr (name, (found, cut)) ↦
      let left = rest_of name (c ∷ s) in
      let shorter : length left ≤ n = omega (
        arith,
        h,
        ap length (drop_text_cons (length name) c s),
        length-drop_text (length name + 2) s,
      ) in
      ground (arith, cut, pieces-within n left shorter, match_ref-spelled (c ∷ s) name found)
]

-- Cutting a text into characters and references loses nothing: spelled out again they are the text.
pub spelled-pieces : (s : Text) → spelled (pieces s) ≡ s
spelled-pieces s = (pieces-within (length s) s (omega arith)).0

match_ref_other : (c : ℕ) (s : Text) → (c == b'$') ≡ false → match_ref (c ∷ s) ≡ none
unfolding match_ref
match_ref_other c [] h = refl
match_ref_other c (b ∷ []) h = refl
match_ref_other c (b ∷ r ∷ s) h = ground (arith, h)

-- A character that is no dollar stands for itself.
pub pieces_other : (c : ℕ) (s : Text) → (c == b'$') ≡ false → pieces (c ∷ s) ≡ char c ∷ pieces s
unfolding pieces_from
pieces_other c s h = ground (arith, match_ref_other c s h)
