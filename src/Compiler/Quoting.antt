-- ===== src/Compiler/Quoting.antt =====
-- apps/control-plane/internal/compiler/compiler.go: how text of a plan gets into the script. Text is
-- the list of its code points; the texts that a plan holds come from JSON and are valid UTF-8.
pub mod Literals
pub mod Names
pub mod Templates
pub mod Pieces
pub mod References
use open_synapse.Prelude.{
  ℕ, zero, suc, ◌+◌, ◌≡◌, Bool, true, false, not, ◌&&◌, ◌||◌, Option, none, some, List, [], ◌∷◌,
  ◌++◌, leb, ◌==◌, if◌then◌else◌, length, map, String,
}
use text.Mathlib.Text.{◌==◌ as str_eq}
use open_synapse.Prelude.Codes.{Text, codes, replace_char, replace_pair, eqb_text}

-- sanitizeJSString
unfoldable pub sanitize_js_string : Text → Text
sanitize_js_string s =
    let s1 = replace_char b'\\' (b'\\' ∷ b'\\' ∷ []) s in
    let s2 = replace_char b'\'' (b'\\' ∷ b'\'' ∷ []) s1 in
    let s3 = replace_char b'\r' (b'\\' ∷ b'r' ∷ []) s2 in
    let s4 = replace_char b'\n' (b'\\' ∷ b'n' ∷ []) s3 in
    let s5 = replace_char 0x2028 (b'\\' ∷ codes "u2028") s4 in
    replace_char 0x2029 (b'\\' ∷ codes "u2029") s5

-- sanitizeComment
unfoldable pub sanitize_comment : Text → Text
sanitize_comment s = replace_char b'\n' (b' ' ∷ []) (replace_char b'\r' (b' ' ∷ []) s)

abbrev pub is_letter : ℕ → Bool
is_letter r = (leb b'A' r && leb r b'Z') || (leb b'a' r && leb r b'z')

abbrev pub is_digit : ℕ → Bool
is_digit r = leb b'0' r && leb r b'9'

-- the loop of sanitizeVarName; the test says whether the character is the first one
unfoldable pub var_name_from : Bool → Text → Text
var_name_from first [] = []
var_name_from first (r ∷ s) =
    (if is_letter r || r == b'_' || r == b'$'
      then r ∷ []
      else if is_digit r
      then (if first then b'_' ∷ r ∷ [] else r ∷ [])
      else b'_' ∷ [])
    ++ var_name_from false s

-- sanitizeVarName
unfoldable pub sanitize_var_name : Text → Text
sanitize_var_name [] = b'_' ∷ []
sanitize_var_name (r ∷ s) = var_name_from true (r ∷ s)

-- the loop of sanitizeScenarioName
unfoldable pub scenario_name_from : Text → Text
scenario_name_from [] = []
scenario_name_from (r ∷ s) =
    (if is_letter r || is_digit r || r == b'_' || r == b'-' then r else b'-') ∷ scenario_name_from s

-- sanitizeScenarioName
unfoldable pub sanitize_scenario_name : Text → Text
sanitize_scenario_name [] = codes "default"
sanitize_scenario_name (r ∷ s) = scenario_name_from (r ∷ s)

-- escapeTemplate
unfoldable pub escape_template : Text → Text
escape_template s =
    let s1 = replace_char b'\\' (b'\\' ∷ b'\\' ∷ []) s in
    let s2 = replace_char b'`' (b'\\' ∷ b'`' ∷ []) s1 in
    replace_pair b'$' b'{' (b'\\' ∷ b'$' ∷ b'{' ∷ []) s2

-- the characters that varRefRe takes into a name, and those that it lets begin one
abbrev pub is_word_start : ℕ → Bool
is_word_start r = is_letter r || r == b'_'

abbrev pub is_word : ℕ → Bool
is_word r = is_letter r || r == b'_' || is_digit r

-- the longest run of word characters, if a closing brace follows it
unfoldable pub word_to_brace : Text → Option Text
word_to_brace [] = none
word_to_brace (r ∷ s) =
    let rest = word_to_brace s in
    if r == b'}'
    then some []
    else if is_word r
    then elim rest [ none ↦ none | some name ↦ some (r ∷ name) ]
    else none

-- the name of the reference that a text begins with: a match of varRefRe at its start
unfoldable pub match_ref : Text → Option Text
match_ref (d ∷ b ∷ r ∷ s) =
    if d == b'$' && b == b'{' && is_word_start r then word_to_brace (r ∷ s) else none
match_ref _ = none

-- a text as varRefRe sees it: characters, and references by their names
pub data Piece : Type 0 where
  char : ℕ → Piece
  ref : Text → Piece

-- varRefRe.FindAllStringSubmatchIndex: the leftmost matches, none of which begins inside another; the
-- number says how many characters of a match are left
unfoldable pub pieces_from : ℕ → Text → List Piece
pieces_from k [] = []
pieces_from (suc k) (r ∷ s) = pieces_from k s
pieces_from zero (r ∷ s) = elim (match_ref (r ∷ s)) [
  | none ↦ char r ∷ pieces_from 0 s
  | some name ↦ ref name ∷ pieces_from (length name + 2) s
]

abbrev pub pieces : Text → List Piece
pieces = pieces_from 0

abbrev pub is_ref : Piece → Bool
is_ref (char c) = false
is_ref (ref name) = true

abbrev pub has_refs : List Piece → Bool
has_refs [] = false
has_refs (p ∷ ps) = is_ref p || has_refs ps

-- k6Globals
abbrev pub is_k6_global : Text → Bool
is_k6_global name = eqb_text name (codes "__VU") || eqb_text name (codes "__ITER")

-- the expression that a reference becomes, without its braces
unfoldable pub ref_expression : Text → Text
ref_expression name = if is_k6_global name then name else codes "__v('" ++ name ++ codes "')"

-- the loop over the matches: the literal text so far, and what follows it
unfoldable pub template_from : Text → List Piece → Text
template_from lit [] = escape_template lit
template_from lit (char c ∷ ps) = template_from (lit ++ c ∷ []) ps
template_from lit (ref name ∷ ps) =
    escape_template lit ++ (b'$' ∷ b'{' ∷ (ref_expression name ++ b'}' ∷ template_from [] ps))

-- resolveVarRefs; that it sets needsVars is `needs_vars`
unfoldable pub resolve_var_refs : Text → Text
resolve_var_refs s =
    if has_refs (pieces s)
    then b'`' ∷ template_from [] (pieces s) ++ b'`' ∷ []
    else b'\'' ∷ sanitize_js_string s ++ b'\'' ∷ []

unfoldable pub needs_vars : List Piece → Bool
needs_vars [] = false
needs_vars (char c ∷ ps) = needs_vars ps
needs_vars (ref name ∷ ps) = not (is_k6_global name) || needs_vars ps

-- httpBody; the fields of a form are pairs of a key and a value
pub record HttpBody : Type 0 where
  pub kind : String
  pub content : Text
  pub form_fields : List (Text × Text)

-- strings.Join
unfoldable pub join : Text → List Text → Text
join sep [] = []
join sep (s ∷ []) = s
join sep (s ∷ t ∷ ss) = s ++ sep ++ join sep (t ∷ ss)

unfoldable pub form_field : Text × Text → Text
form_field (key, value) = b'\'' ∷ sanitize_js_string key ++ codes "': " ++ resolve_var_refs value

-- resolveHTTPBody
unfoldable pub resolve_http_body : HttpBody → Text
resolve_http_body body =
    if str_eq body.kind "none" || str_eq body.kind ""
    then codes "null"
    else if str_eq body.kind "json" || str_eq body.kind "raw"
    then resolve_var_refs body.content
    else if str_eq body.kind "form"
    then (if length body.form_fields == 0
        then (if length body.content == 0 then codes "{}" else resolve_var_refs body.content)
        else codes "{ " ++ join (codes ", ") (map form_field body.form_fields) ++ codes " }")
    else codes "null"

-- jsonPathToJS
unfoldable pub json_path_to_js : Text → Text
json_path_to_js [] = b'.' ∷ []
json_path_to_js (c ∷ path) = if c == b'$' then path else b'.' ∷ c ∷ path

abbrev pub elem_text : Text → List Text → Bool
elem_text s [] = false
elem_text s (t ∷ ts) = eqb_text t s || elem_text s ts

-- the loop of dedup, with what it has seen
unfoldable pub dedup_from : List Text → List Text → List Text
dedup_from seen [] = []
dedup_from seen (s ∷ ss) =
    let rest = dedup_from (s ∷ seen) ss in
    let same = dedup_from seen ss in if elem_text s seen then same else s ∷ rest

-- dedup
unfoldable pub dedup : List Text → List Text
dedup ss = dedup_from [] ss
