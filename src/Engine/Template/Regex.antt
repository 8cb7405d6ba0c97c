-- ===== src/Engine/Template/Regex.antt =====
-- The parts of package regexp that the expressions of pkg/engine/template.go need. A matcher gives
-- what is left of the text after each of its matches at the start.
use chitchat.Base.{
  ℕ, Str, codes, leb, ◌==◌, if◌then◌else◌, is_empty, any, Bool, not, ◌&&◌, ◌||◌, List, [], ◌∷◌,
  ◌++◌, drop, length, has_prefix,
}

-- \s
abbrev pub is_blank : ℕ → Bool
is_blank c = c == 9 || c == 10 || c == 12 || c == 13 || c == 32

-- [\s(|,]
abbrev pub is_separator : ℕ → Bool
is_separator c = is_blank c || c == b'(' || c == b'|' || c == b','

-- [0-9A-Za-z_]
abbrev pub is_word : ℕ → Bool
is_word c =
    (leb b'0' c && leb c b'9')
    || (leb b'A' c && leb c b'Z')
    || (leb b'a' c && leb c b'z')
    || c == b'_'

abbrev Matcher : Type 0
Matcher = Str → List Str

-- one character of a class
abbrev one : (ℕ → Bool) → Matcher
one p [] = []
one p (c ∷ s) = if p c then s ∷ [] else []

-- p*
abbrev many : (ℕ → Bool) → Matcher
many p [] = [] ∷ []
many p (c ∷ s) = let rest = many p s in (c ∷ s) ∷ (if p c then rest else [])

abbrev text : Str → Matcher
text w s = if has_prefix s w then drop (length w) s ∷ [] else []

-- p?
abbrev maybe : Matcher → Matcher
maybe p s = p s ++ s ∷ []

abbrev either : Matcher → Matcher → Matcher
either p q s = p s ++ q s

abbrev each : Matcher → List Str → List Str
each q [] = []
each q (s ∷ ss) = q s ++ each q ss

infixr 40 ◌then◌
abbrev ◌then◌ : Matcher → Matcher → Matcher
(p then q) s = each q (p s)

-- p+
abbrev some_of : (ℕ → Bool) → Matcher
some_of p = one p then many p

-- the character `.`
abbrev no_newline : ℕ → Bool
no_newline c = not (c == 10)

-- typedJSONRegex.MatchString
unfoldable pub typed_json : Str → Bool
typed_json s = any is_empty (
    (many is_blank
        then text (codes "{{")
        then maybe (text (codes "-"))
        then many is_blank
        then either (text (codes "json") then some_of is_blank then some_of no_newline)
            (some_of no_newline then text (codes "|") then many is_blank then text (codes "json"))
        then many is_blank
        then maybe (text (codes "-"))
        then text (codes "}}")
        then many is_blank)
      s)
