-- ===== src/Compiler/Quoting/Literals.antt =====
-- The single-quoted string literals that sanitizeJSString writes, as JavaScript reads them.
use mathlib.Core.List.{append_assoc}
use mathlib.Core.Path.{subst}
use open_synapse.Prelude.{
  ℕ, zero, suc, ◌+◌, ◌*◌, ◌-◌, ◌≡◌, refl, ◌&&◌, ◌||◌, Option, none, some, [], ◌∷◌, ◌++◌, leb, ◌==◌,
  if◌then◌else◌, arith, sym, ap, ◌∙◌,
}
use open_synapse.Prelude.Codes.{Text, codes, replace_char}
use open_synapse.Compiler.Quoting.{sanitize_js_string, is_digit}

-- How ECMA-262 reads a single-quoted string literal in a module, one character at a time: inside an
-- escape it is after the backslash, or has some hexadecimal digits left to read.
pub data Mode : Type 0 where
  plain escaped : Mode
  hex : ℕ → ℕ → Mode

-- what a character does: it ends the literal, breaks it, adds a character to its value, or adds none
pub data Effect : Type 0 where
  close broken : Effect
  emit : ℕ → Effect
  enter : Mode → Effect

abbrev hex_digit : ℕ → Option ℕ
hex_digit c =
    if is_digit c
    then some (c - b'0')
    else if leb b'a' c && leb c b'f'
    then some (c - b'a' + 10)
    else if leb b'A' c && leb c b'F'
    then some (c - b'A' + 10)
    else none

abbrev read_hex : ℕ → ℕ → Option ℕ → Effect
read_hex n acc none = broken
read_hex zero acc (some d) = emit (acc * 16 + d)
read_hex (suc n) acc (some d) = enter (hex n (acc * 16 + d))

-- After a backslash; the digits make octal escapes, which a module may not have.
abbrev read_escape : ℕ → Effect
read_escape c =
    if c == b'n'
    then emit b'\n'
    else if c == b'r'
    then emit b'\r'
    else if c == b't'
    then emit b'\t'
    else if c == b'b'
    then emit 8
    else if c == b'v'
    then emit 11
    else if c == b'f'
    then emit 12
    else if c == b'u'
    then enter (hex 3 0)
    else if c == b'x'
    then enter (hex 1 0)
    else if is_digit c
    then broken
    else if c == b'\n' || c == b'\r' || c == 0x2028 || c == 0x2029
    then enter plain
    else emit c

abbrev pub read_char : Mode → ℕ → Effect
read_char plain c =
    if c == b'\''
    then close
    else if c == b'\\'
    then enter escaped
    else if c == b'\n' || c == b'\r'
    then broken
    else emit c
read_char escaped c = read_escape c
read_char (hex n acc) c = read_hex n acc (hex_digit c)

abbrev before : ℕ → Option (Text × Text) → Option (Text × Text)
before c none = none
before c (some (value, rest)) = some (c ∷ value, rest)

-- The value of the literal whose opening quote has been read, and the text after its closing quote.
unfoldable pub read_literal : Mode → Text → Option (Text × Text)
read_literal m [] = none
read_literal m (c ∷ s) =
    let emitted = read_literal plain s in
    elim (read_char m c) [
      | close ↦ some ([], s)
      | broken ↦ none
      | emit d ↦ before d emitted
      | enter m' ↦ read_literal m' s
    ]

-- what sanitizeJSString makes of one character
abbrev escaped_char : ℕ → Text
escaped_char c =
    if c == b'\\'
    then b'\\' ∷ b'\\' ∷ []
    else if c == b'\''
    then b'\\' ∷ b'\'' ∷ []
    else if c == b'\r'
    then b'\\' ∷ b'r' ∷ []
    else if c == b'\n'
    then b'\\' ∷ b'n' ∷ []
    else if c == 0x2028
    then b'\\' ∷ codes "u2028"
    else if c == 0x2029
    then b'\\' ∷ codes "u2029"
    else c ∷ []

sanitize_js_string_cons :
    (c : ℕ) (s : Text) → sanitize_js_string (c ∷ s) ≡ escaped_char c ++ sanitize_js_string s
unfolding sanitize_js_string replace_char
sanitize_js_string_cons c s = ground arith

read_literal-escaped_char :
    (c : ℕ) (t : Text) → read_literal plain (escaped_char c ++ t) ≡ before c (read_literal plain t)
unfolding read_literal
read_literal-escaped_char c t = ground arith

-- JavaScript reads the sanitized text, whatever it is, back as the text itself: with the closing quote
-- that the compiler writes behind it, the literal ends exactly there and its value is the text.
pub read_literal-sanitize_js_string :
    (s rest : Text) → read_literal plain (sanitize_js_string s ++ b'\'' ∷ rest) ≡ some (s, rest)
unfolding sanitize_js_string replace_char read_literal
read_literal-sanitize_js_string [] rest = refl
read_literal-sanitize_js_string (c ∷ s) rest =
    let tail = sanitize_js_string s ++ b'\'' ∷ rest in
    subst (λ t. read_literal plain t ≡ some (c ∷ s, rest))
      (sym (
        ap (λ t. t ++ b'\'' ∷ rest) (sanitize_js_string_cons c s)
        ∙ append_assoc (escaped_char c) (sanitize_js_string s) (b'\'' ∷ rest)))
      (read_literal-escaped_char c tail ∙ ap (before c) (read_literal-sanitize_js_string s rest))
