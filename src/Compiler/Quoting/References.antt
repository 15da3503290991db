-- ===== src/Compiler/Quoting/References.antt =====
-- The expressions that resolveVarRefs writes, and what they evaluate to.
use open_synapse.Compiler.Quoting.Pieces.{
  IsWords, spelled, pieces-within, HasNames, spelled_ref, pieces_other,
}
use mathlib.Core.Path.{subst}
use mathlib.Core.List.{append_assoc, append-nil}
use open_synapse.Prelude.{
  ◌≡◌, inl, inr, refl, sym, ap, ◌∙◌, true, false, ◌||◌, Option, none, some, List, [], ◌∷◌, ◌++◌,
  ◌==◌, if◌then◌else◌, Bool-cases, arith, All, length,
}
use open_synapse.Prelude.Codes.{Text, codes}
use open_synapse.Compiler.Quoting.{
  escape_template, Piece, char, ref, pieces, has_refs, is_k6_global, ref_expression, template_from,
  resolve_var_refs,
}
use open_synapse.Compiler.Quoting.Literals.{
  read_literal, read_literal-sanitize_js_string, Mode as LiteralMode,
}
use open_synapse.Compiler.Quoting.Templates.{
  Part, text, expression, read_template, plain, inside, HasNoReturn, texts, before, before_nil,
  read_template-escape_template, escape_template_cons,
}

-- the parts of the template that is written for some pieces
abbrev parts : List Piece → List Part
parts [] = []
parts (char c ∷ ps) = text c ∷ parts ps
parts (ref name ∷ ps) = expression (ref_expression name) ∷ parts ps

abbrev IsBraceFree : Text → Type 0
IsBraceFree w = All (λ c. (c == b'{' || c == b'}') ≡ false) w

read_template-inside :
    (e w u : Text)
    → IsBraceFree w
    → read_template (inside e) (w ++ b'}' ∷ u)
      ≡ before (expression (e ++ w) ∷ []) (read_template plain u)
unfolding read_template
read_template-inside e [] u h =
    ap (λ t. before (expression t ∷ []) (read_template plain u)) (sym (append-nil e))
read_template-inside e (c ∷ w) u h =
    let grown = e ++ c ∷ [] in
    ground (
      arith,
      h.0,
      before_nil (read_template (inside grown) (w ++ b'}' ∷ u)),
      read_template-inside grown w u h.1,
      append_assoc e (c ∷ []) w,
    )

IsBraceFree-append : (v w : Text) → IsBraceFree v → IsBraceFree w → IsBraceFree (v ++ w)
IsBraceFree-append [] w h k = k
IsBraceFree-append (c ∷ v) w h k = (h.0, IsBraceFree-append v w h.1 k)

IsBraceFree-word : (w : Text) → IsWords w → IsBraceFree w
IsBraceFree-word [] h = tt
IsBraceFree-word (c ∷ w) h = (ground (arith, h.0), IsBraceFree-word w h.1)

IsBraceFree-ref_expression : (name : Text) → IsWords name → IsBraceFree (ref_expression name)
unfolding ref_expression
IsBraceFree-ref_expression name h = elim (Bool-cases (is_k6_global name)) [
  | inl global ↦ rw global (IsBraceFree-word name h)
  | inr variable ↦ rw variable (
      IsBraceFree-append (codes "__v('" ++ name) (codes "')")
        (IsBraceFree-append (codes "__v('") name (ground arith) (IsBraceFree-word name h))
        (ground arith))
]

HasNoReturn-append : (v w : Text) → HasNoReturn (v ++ w) → HasNoReturn v × HasNoReturn w
HasNoReturn-append [] w h = (tt, h)
HasNoReturn-append (c ∷ v) w h =
    let (left, right) = HasNoReturn-append v w h.1 in ((h.0, left), right)

texts-append : (v w : Text) → texts (v ++ w) ≡ texts v ++ texts w
texts-append [] w = refl
texts-append (c ∷ v) w = ap (λ ps. text c ∷ ps) (texts-append v w)

HasNoReturn-both : (v w : Text) → HasNoReturn v → HasNoReturn w → HasNoReturn (v ++ w)
HasNoReturn-both [] w h k = k
HasNoReturn-both (c ∷ v) w h k = (h.0, HasNoReturn-both v w h.1 k)

-- The template that is written for some pieces reads as their parts.
template_from-reads :
    (lit : Text) (ps : List Piece) (rest : Text)
    → HasNoReturn lit
    → HasNoReturn (spelled ps)
    → HasNames ps
    → read_template plain (template_from lit ps ++ b'`' ∷ rest) ≡ some (texts lit ++ parts ps, rest)
unfolding template_from read_template
template_from-reads lit [] rest h k named = read_template-escape_template lit (b'`' ∷ rest) refl h
template_from-reads lit (char c ∷ ps) rest h k named =
    template_from-reads (lit ++ c ∷ []) ps rest (HasNoReturn-both lit (c ∷ []) h (k.0, tt)) k.1
      named
    ∙ ap (λ qs. some (qs, rest))
        (ap (λ qs. qs ++ parts ps) (texts-append lit (c ∷ []))
          ∙ append_assoc (texts lit) (text c ∷ []) (parts ps))
template_from-reads lit (ref name ∷ ps) rest h k named =
    let e = ref_expression name in
    let tail = template_from [] ps in
    let after = HasNoReturn-append (spelled_ref name) (spelled ps) k in
    let body = b'$' ∷ b'{' ∷ (e ++ b'}' ∷ tail) in
    let braced = (e ++ b'}' ∷ tail) ++ b'`' ∷ rest in
    let read = read_template (inside []) braced in
    ap (read_template plain) (append_assoc (escape_template lit) body (b'`' ∷ rest))
    ∙ read_template-escape_template lit (body ++ b'`' ∷ rest) refl h
    ∙ ap (before (texts lit)) (
        before_nil (before [] read)
        ∙ before_nil read
        ∙ ap (read_template (inside [])) (append_assoc e (b'}' ∷ tail) (b'`' ∷ rest))
        ∙ read_template-inside [] e (tail ++ b'`' ∷ rest) (IsBraceFree-ref_expression name named.0)
        ∙ ap (before (expression e ∷ [])) (template_from-reads [] ps rest tt after.1 named.1))

-- The value of the expression that a plan's text becomes, `run` being that of the expressions inside a
-- template: JavaScript reads one literal, up to the end of the text.
abbrev value_of_parts : (Text → Text) → List Part → Text
value_of_parts run [] = []
value_of_parts run (text c ∷ ps) = c ∷ value_of_parts run ps
value_of_parts run (expression e ∷ ps) = run e ++ value_of_parts run ps

abbrev whole : {A : Type 0} → Option (A × Text) → Option A
whole none = none
whole (some (value, [])) = some value
whole (some (value, c ∷ rest)) = none

abbrev run_parts : (Text → Text) → Option (List Part) → Option Text
run_parts run none = none
run_parts run (some ps) = some (value_of_parts run ps)

unfoldable pub evaluate : (Text → Text) → Text → Option Text
evaluate run [] = none
evaluate run (c ∷ s) =
    if c == b'\''
    then whole (read_literal LiteralMode.plain s)
    else if c == b'`'
    then run_parts run (whole (read_template plain s))
    else none

-- What a text with references stands for: each reference gives what its expression runs to.
abbrev pub expand : (Text → Text) → List Piece → Text
expand run [] = []
expand run (char c ∷ ps) = c ∷ expand run ps
expand run (ref name ∷ ps) = run (ref_expression name) ++ expand run ps

value_of_parts-parts :
    (run : Text → Text) (ps : List Piece) → value_of_parts run (parts ps) ≡ expand run ps
value_of_parts-parts run [] = refl
value_of_parts-parts run (char c ∷ ps) = ap (λ s. c ∷ s) (value_of_parts-parts run ps)
value_of_parts-parts run (ref name ∷ ps) =
    ap (λ s. run (ref_expression name) ++ s) (value_of_parts-parts run ps)

expand_plain :
    (run : Text → Text) (ps : List Piece) → has_refs ps ≡ false → expand run ps ≡ spelled ps
expand_plain run [] h = refl
expand_plain run (char c ∷ ps) h = ap (λ s. c ∷ s) (expand_plain run ps h)
expand_plain run (ref name ∷ ps) h = ground (arith, h)

-- For a text without carriage returns: the expression that resolveVarRefs writes for it is read by
-- JavaScript as one literal, and its value is the text with every reference replaced by the value of
-- the variable.
pub evaluate-resolve_var_refs :
    (run : Text → Text) (s : Text)
    → HasNoReturn s
    → evaluate run (resolve_var_refs s) ≡ some (expand run (pieces s))
unfolding evaluate resolve_var_refs
evaluate-resolve_var_refs run s h =
    let (same, named) = pieces-within (length s) s (omega arith) in
    elim (Bool-cases (has_refs (pieces s))) [
      | inl with_refs ↦
          let kept : HasNoReturn (spelled (pieces s)) = subst HasNoReturn (sym same) h in
          rw with_refs (
            ap (λ o. run_parts run (whole o)) (template_from-reads [] (pieces s) [] tt kept named)
            ∙ ap some (value_of_parts-parts run (pieces s)))
      | inr without ↦ rw without (
          ap whole (read_literal-sanitize_js_string s [])
          ∙ ap some (sym (expand_plain run (pieces s) without ∙ same)))
    ]

line_break : Text → Text
line_break s = b'\r' ∷ b'\n' ∷ s

escape_template-line_break :
    (s : Text) → escape_template (line_break s) ≡ line_break (escape_template s)
unfolding line_break
escape_template-line_break s =
    escape_template_cons b'\r' (b'\n' ∷ s) refl
    ∙ ap (λ t. b'\r' ∷ t) (escape_template_cons b'\n' s refl)

template_from-line_break :
    (lit : Text) (ps : List Piece)
    → template_from (line_break lit) ps ≡ line_break (template_from lit ps)
unfolding template_from line_break
template_from-line_break lit [] = escape_template-line_break lit
template_from-line_break lit (char c ∷ ps) = template_from-line_break (lit ++ c ∷ []) ps
template_from-line_break lit (ref name ∷ ps) =
    ap (λ t. t ++ (b'$' ∷ b'{' ∷ (ref_expression name ++ b'}' ∷ template_from [] ps)))
      (escape_template-line_break lit)

-- A carriage return is lost: where a text with a reference, and with no carriage return of its own, is
-- put behind a line break of carriage return and line feed, the value of the expression that is
-- written for it begins with the line feed alone.
pub evaluate_line_break :
    (run : Text → Text) (s : Text)
    → HasNoReturn s
    → has_refs (pieces s) ≡ true
    → evaluate run (resolve_var_refs (b'\r' ∷ b'\n' ∷ s)) ≡ some (b'\n' ∷ expand run (pieces s))
unfolding evaluate resolve_var_refs read_template template_from line_break
evaluate_line_break run s h with_refs =
    let (same, named) = pieces-within (length s) s (omega arith) in
    let kept : HasNoReturn (spelled (pieces s)) = subst HasNoReturn (sym same) h in
    let cut : pieces (b'\r' ∷ b'\n' ∷ s) ≡ char b'\r' ∷ char b'\n' ∷ pieces s =
      pieces_other b'\r' (b'\n' ∷ s) refl
      ∙ ap (λ ps. char b'\r' ∷ ps) (pieces_other b'\n' s refl) in
    rw (cut, with_refs)
      (ap (λ t. run_parts run (whole (read_template plain (t ++ b'`' ∷ []))))
          (template_from-line_break [] (pieces s))
        ∙ ap (λ o. run_parts run (whole (before (text b'\n' ∷ []) (before [] o))))
            (template_from-reads [] (pieces s) [] tt kept named)
        ∙ ap (λ t. some (b'\n' ∷ t)) (value_of_parts-parts run (pieces s)))
