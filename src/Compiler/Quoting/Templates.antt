-- ===== src/Compiler/Quoting/Templates.antt =====
-- The template literals that resolveVarRefs writes, as JavaScript reads them.
use mathlib.Core.List.{append_assoc}
use open_synapse.Prelude.{
  ℕ, ◌≡◌, inl, inr, refl, sym, ap, ◌∙◌, false, ◌||◌, Option, none, some, List, [], ◌∷◌, ◌++◌, ◌==◌,
  if◌then◌else◌, Bool-cases, arith, All,
}
use open_synapse.Prelude.Codes.{Text, replace_char, replace_pair}
use open_synapse.Compiler.Quoting.{escape_template}

-- a template literal: characters of its text, and the expressions in it
pub data Part : Type 0 where
  text : ℕ → Part
  expression : Text → Part

-- How ECMA-262 reads a template literal: after a dollar, after a backslash, after a carriage return
-- (which reads as a line feed, as does the pair of both), or inside an expression, of which some text
-- is read. The expressions here hold no braces.
pub data Mode : Type 0 where
  plain dollar escaped returned : Mode
  inside : Text → Mode

-- what a character does: it adds parts and goes on in a mode, or ends the literal, or breaks it
pub data Effect : Type 0 where
  go : List Part → Mode → Effect
  close : List Part → Effect
  broken : Effect

abbrev read_plain : ℕ → Effect
read_plain c =
    if c == b'`'
    then close []
    else if c == b'\\'
    then go [] escaped
    else if c == b'$'
    then go [] dollar
    else if c == b'\r'
    then go (text b'\n' ∷ []) returned
    else go (text c ∷ []) plain

abbrev more : List Part → Effect → Effect
more ps (go qs m) = go (ps ++ qs) m
more ps (close qs) = close (ps ++ qs)
more ps broken = broken

-- the escapes that the compiler writes, and those of line feed and carriage return
abbrev read_escape : ℕ → Effect
read_escape c =
    if c == b'\\' || c == b'`' || c == b'$'
    then go (text c ∷ []) plain
    else if c == b'n'
    then go (text b'\n' ∷ []) plain
    else if c == b'r'
    then go (text b'\r' ∷ []) plain
    else broken

abbrev pub read_char : Mode → ℕ → Effect
read_char plain c = read_plain c
read_char dollar c = if c == b'{' then go [] (inside []) else more (text b'$' ∷ []) (read_plain c)
read_char escaped c = read_escape c
read_char returned c = if c == b'\n' then go [] plain else read_plain c
read_char (inside e) c =
    if c == b'}'
    then go (expression e ∷ []) plain
    else if c == b'{'
    then broken
    else go [] (inside (e ++ c ∷ []))

abbrev pub before : List Part → Option (List Part × Text) → Option (List Part × Text)
before ps none = none
before ps (some (qs, rest)) = some (ps ++ qs, rest)

-- The parts of the literal whose opening backquote has been read, and the text after its closing one.
unfoldable pub read_template : Mode → Text → Option (List Part × Text)
read_template m [] = none
read_template m (c ∷ s) = elim (read_char m c) [
  | go ps m' ↦ before ps (read_template m' s)
  | close ps ↦ some (ps, s)
  | broken ↦ none
]

-- The text begins with no opening brace, and it holds no carriage return.
abbrev pub IsUnbraced : Text → Type 0
IsUnbraced [] = Unit
IsUnbraced (c ∷ s) = (c == b'{') ≡ false

abbrev pub HasNoReturn : Text → Type 0
HasNoReturn s = All (λ c. (c == b'\r') ≡ false) s

abbrev pub texts : Text → List Part
texts [] = []
texts (c ∷ s) = text c ∷ texts s

-- what the first two replacements of escapeTemplate make of a character
abbrev pub escaped_char : ℕ → Text
escaped_char c =
    if c == b'\\' then b'\\' ∷ b'\\' ∷ [] else if c == b'`' then b'\\' ∷ b'`' ∷ [] else c ∷ []

abbrev quoted : Text → Text
quoted s = replace_char b'`' (b'\\' ∷ b'`' ∷ []) (replace_char b'\\' (b'\\' ∷ b'\\' ∷ []) s)

abbrev guarded : Text → Text
guarded s = replace_pair b'$' b'{' (b'\\' ∷ b'$' ∷ b'{' ∷ []) s

quoted_cons : (c : ℕ) (s : Text) → quoted (c ∷ s) ≡ escaped_char c ++ quoted s
unfolding replace_char
quoted_cons c s = ground arith

guarded_cons : (c : ℕ) (s : Text) → (c == b'$') ≡ false → guarded (c ∷ s) ≡ c ∷ guarded s
unfolding replace_pair
guarded_cons c [] h = refl
guarded_cons c (d ∷ s) h = ground (arith, h)

guarded_dollar : (s : Text) → IsUnbraced s → guarded (b'$' ∷ s) ≡ b'$' ∷ guarded s
unfolding replace_pair
guarded_dollar [] h = refl
guarded_dollar (d ∷ s) h = ground (arith, h)

-- after a character that is no dollar
pub escape_template_cons :
    (c : ℕ) (s : Text)
    → (c == b'$') ≡ false
    → escape_template (c ∷ s) ≡ escaped_char c ++ escape_template s
unfolding escape_template
escape_template_cons c s h =
    let rest = quoted s in
    ground (
      arith,
      h,
      quoted_cons c s,
      guarded_cons c rest h,
      guarded_cons b'\\' rest refl,
      guarded_cons b'\\' (b'\\' ∷ rest) refl,
      guarded_cons b'\\' (b'`' ∷ rest) refl,
      guarded_cons b'`' rest refl,
    )

IsUnbraced-quoted : (s : Text) → IsUnbraced s → IsUnbraced (quoted s)
unfolding replace_char
IsUnbraced-quoted [] h = tt
IsUnbraced-quoted (c ∷ s) h = ground (arith, h, quoted_cons c s)

escape_template_dollar :
    (s : Text) → IsUnbraced s → escape_template (b'$' ∷ s) ≡ b'$' ∷ escape_template s
unfolding escape_template
escape_template_dollar s h =
    ground (arith, quoted_cons b'$' s, guarded_dollar (quoted s) (IsUnbraced-quoted s h))

escape_template_brace :
    (s : Text) → escape_template (b'$' ∷ b'{' ∷ s) ≡ b'\\' ∷ b'$' ∷ b'{' ∷ escape_template s
unfolding escape_template replace_pair replace_char
escape_template_brace s = refl

IsUnbraced-escape_template :
    (s t : Text) → IsUnbraced s → IsUnbraced t → IsUnbraced (escape_template s ++ t)
unfolding escape_template replace_pair replace_char
IsUnbraced-escape_template [] t h k = k
IsUnbraced-escape_template (c ∷ []) t h k = ground (arith, h)
IsUnbraced-escape_template (c ∷ d ∷ s) t h k = elim (Bool-cases (c == b'$')) [
  | inl dollar_first ↦ ground (arith, h)
  | inr other ↦ ground (arith, h, escape_template_cons c (d ∷ s) other)
]

read_template-dollar :
    (t : Text)
    → IsUnbraced t
    → read_template dollar t ≡ before (text b'$' ∷ []) (read_template plain t)
unfolding read_template
read_template-dollar [] h = refl
read_template-dollar (c ∷ t) h = ground (arith, h)

pub before_nil : (o : Option (List Part × Text)) → before [] o ≡ o
before_nil none = refl
before_nil (some (ps, rest)) = refl

pub before-before :
    (ps qs : List Part) (o : Option (List Part × Text))
    → before ps (before qs o) ≡ before (ps ++ qs) o
before-before ps qs none = refl
before-before ps qs (some (rs, rest)) = ap (λ l. some (l, rest)) (sym (append_assoc ps qs rs))

read_template-escaped_char :
    (c : ℕ) (t : Text)
    → (c == b'$') ≡ false
    → (c == b'\r') ≡ false
    → read_template plain (escaped_char c ++ t) ≡ before (text c ∷ []) (read_template plain t)
unfolding read_template
read_template-escaped_char c t h k = ground (arith, h, k)

read_template_cons :
    (c : ℕ) (s t : Text)
    → (c == b'$') ≡ false
    → (c == b'\r') ≡ false
    → read_template plain (escape_template (c ∷ s) ++ t)
      ≡ before (text c ∷ []) (read_template plain (escape_template s ++ t))
read_template_cons c s t h k =
    ap (λ u. read_template plain (u ++ t)) (escape_template_cons c s h)
    ∙ ap (read_template plain) (append_assoc (escaped_char c) (escape_template s) t)
    ∙ read_template-escaped_char c (escape_template s ++ t) h k

read_template_dollar :
    (s t : Text)
    → IsUnbraced s
    → IsUnbraced t
    → read_template plain (escape_template (b'$' ∷ s) ++ t)
      ≡ before (text b'$' ∷ []) (read_template plain (escape_template s ++ t))
unfolding read_template
read_template_dollar s t h k =
    let u = escape_template s ++ t in
    ap (λ v. read_template plain (v ++ t)) (escape_template_dollar s h)
    ∙ before_nil (read_template dollar u)
    ∙ read_template-dollar u (IsUnbraced-escape_template s t h k)

read_template_brace :
    (s t : Text)
    → read_template plain (escape_template (b'$' ∷ b'{' ∷ s) ++ t)
      ≡ before (text b'$' ∷ text b'{' ∷ []) (read_template plain (escape_template s ++ t))
unfolding read_template
read_template_brace s t =
    let rest = read_template plain (escape_template s ++ t) in
    ap (λ v. read_template plain (v ++ t)) (escape_template_brace s)
    ∙ before_nil (before (text b'$' ∷ []) (before (text b'{' ∷ []) rest))
    ∙ before-before (text b'$' ∷ []) (text b'{' ∷ []) rest

-- The escaped text reads as the text, where no opening brace follows.
pub read_template-escape_template :
    (s t : Text)
    → IsUnbraced t
    → HasNoReturn s
    → read_template plain (escape_template s ++ t) ≡ before (texts s) (read_template plain t)
unfolding escape_template replace_char replace_pair
read_template-escape_template [] t h k = sym (before_nil (read_template plain t))
read_template-escape_template (c ∷ []) t h k = elim (Bool-cases (c == b'$')) [
  | inl is_dollar ↦
      let same : c ≡ b'$' = ground (arith, is_dollar) in rw same (read_template_dollar [] t tt h)
  | inr other ↦ read_template_cons c [] t other k.0
]
read_template-escape_template (c ∷ d ∷ s) t h k =
    let rest = read_template plain t in
    let step : read_template plain (escape_template (d ∷ s) ++ t) ≡ before (texts (d ∷ s)) rest =
      read_template-escape_template (d ∷ s) t h k.1 in
    let skip : read_template plain (escape_template s ++ t) ≡ before (texts s) rest =
      read_template-escape_template s t h k.1.1 in
    elim (Bool-cases (c == b'$')) [
      | inr other ↦
          read_template_cons c (d ∷ s) t other k.0
          ∙ ap (before (text c ∷ [])) step
          ∙ before-before (text c ∷ []) (texts (d ∷ s)) rest
      | inl is_dollar ↦
          let same : c ≡ b'$' = ground (arith, is_dollar) in
          elim (Bool-cases (d == b'{')) [
            | inr unbraced ↦ rw same (
                read_template_dollar (d ∷ s) t unbraced h
                ∙ ap (before (text b'$' ∷ [])) step
                ∙ before-before (text b'$' ∷ []) (texts (d ∷ s)) rest)
            | inl is_brace ↦
                let braced : d ≡ b'{' = ground (arith, is_brace) in
                rw (same, braced)
                  (read_template_brace s t
                    ∙ ap (before (text b'$' ∷ text b'{' ∷ [])) skip
                    ∙ before-before (text b'$' ∷ text b'{' ∷ []) (texts s) rest)
          ]
    ]
