-- ===== src/Engine/Template/Rewrite.antt =====
-- pkg/engine/template.go: preprocessTemplate, rewriteAction and rewriteCode.
pub mod Pieces
use chitchat.Base.{
  ℕ, zero, suc, Str, codes, ◌==◌, if◌then◌else◌, Bool, true, false, not, ◌&&◌, ◌||◌, Option, none,
  some, is_some, [], ◌∷◌, ◌++◌, length, drop, has_prefix,
}
use chitchat.Engine.Template.Regex.{is_separator, is_word}

-- (?:trigger|system|headers)\.
unfoldable pub is_context : Str → Bool
is_context s =
    has_prefix s (codes "trigger.")
    || has_prefix s (codes "system.")
    || has_prefix s (codes "headers.")

-- \b after a word
at_boundary : Str → Bool
at_boundary [] = true
at_boundary (c ∷ s) = not (is_word c)

-- (queue|routing_key)\b
unfoldable pub is_bare : Str → Bool
unfolding at_boundary
is_bare s =
    (has_prefix s (codes "queue") && at_boundary (drop 5 s))
    || (has_prefix s (codes "routing_key") && at_boundary (drop 11 s))

-- ReplaceAllString of `(^|[\s(|,])(word)` by `${1}.${2}`, for words in which there is no separator:
-- a dot comes before each word that stands at the start or after a separator. The flag tells
-- whether the place is such a one.
unfoldable pub add_dots : (Str → Bool) → Bool → Str → Str
add_dots word free [] = []
add_dots word free (c ∷ s) =
    let rest = c ∷ add_dots word (is_separator c) s in
    if free && word (c ∷ s) then b'.' ∷ rest else rest

unfoldable pub rewrite_code : Str → Str
unfolding is_context is_bare add_dots
rewrite_code code = add_dots is_bare true (add_dots is_context true code)

abbrev pub is_quote : ℕ → Bool
is_quote c = c == b'"' || c == b'`'

-- A literal after its opening quote `c`, up to and with the closing one, and what follows. `escaped`
-- tells that the next character comes after a backslash.
unfoldable pub scan_literal : ℕ → Bool → Str → Str × Str
scan_literal c escaped [] = ([], [])
scan_literal c escaped (d ∷ s) =
    let (taken, rest) = scan_literal c (not escaped && c == b'"' && d == b'\\') s in
    if not escaped && d == c then (d ∷ [], s) else (d ∷ taken, rest)

-- The code up to the next quote.
unfoldable pub scan_code : Str → Str × Str
scan_code [] = ([], [])
scan_code (d ∷ s) =
    let (taken, rest) = scan_code s in if is_quote d then ([], d ∷ s) else (d ∷ taken, rest)

-- One turn of the loop of rewriteAction: what it writes, and what is left.
unfoldable pub segment : ℕ → Str → Str × Str
unfolding scan_literal scan_code rewrite_code
segment c s =
    let (literal, after) = scan_literal c false s in
    let (code, rest) = scan_code (c ∷ s) in
    if is_quote c then (c ∷ literal, after) else (rewrite_code code, rest)

unfoldable pub rewrite_from : ℕ → Str → Str
unfolding segment
rewrite_from zero s = []
rewrite_from (suc n) [] = []
rewrite_from (suc n) (c ∷ s) = let (out, rest) = segment c s in out ++ rewrite_from n rest

-- Each turn takes at least one character.
unfoldable pub rewrite_action : Str → Str
unfolding rewrite_from
rewrite_action content = rewrite_from (length content) content

-- The text before the first `cc`, and after it.
unfoldable pub cut : ℕ → Str → Option (Str × Str)
cut c [] = none
cut c (d ∷ s) =
    let rest = cut c s in
    if d == c && has_prefix s (c ∷ [])
    then some ([], drop 1 s)
    else elim rest [ none ↦ none | some p ↦ some (d ∷ p.0, p.1) ]

-- actionRegex.ReplaceAllStringFunc; a match takes at least four characters.
unfoldable pub preprocess_from : ℕ → Str → Str
unfolding rewrite_action cut
preprocess_from zero s = s
preprocess_from (suc n) s = elim (cut b'{' s) [
  | none ↦ s
  | some p ↦ elim (cut b'}' p.1) [
    | none ↦ s
    | some q ↦ p.0 ++ codes "{{" ++ rewrite_action q.0 ++ codes "}}" ++ preprocess_from n q.1
  ]
]

unfoldable pub preprocess_template : Str → Str
unfolding preprocess_from
preprocess_template s = preprocess_from (length s) s

-- strings.Contains(s, "{{")
unfoldable pub has_action : Str → Bool
unfolding cut
has_action s = is_some (cut b'{' s)

-- strings.Count(s, "{{") == 1
unfoldable pub has_one_action : Str → Bool
unfolding has_action cut
has_one_action s = elim (cut b'{' s) [ none ↦ false | some p ↦ not (has_action p.1) ]
