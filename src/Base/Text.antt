-- ===== src/Base/Text.antt =====
-- Go strings as lists of characters (code points), with the parts of package strings that the
-- program calls: ==, TrimSpace, ToLower, HasPrefix, Index, Split.
use Prim.Native.Nat.{ℕ, ◌+◌}
use Prim.Native.Char.{code}
use Prim.Native.String.{String}
use mathlib.Core.Path.{◌≡◌, refl, sym}
use mathlib.Core.Logic.{◌↔◌, ◌≢◌, ◌⊎◌, inl, inr}
use mathlib.Core.Bool.{Bool, true, false, ◌&&◌, ◌||◌, not, false≢true}
use mathlib.Core.List.{List, [], ◌∷◌, ◌++◌, reverse}
use native.Mathlib.Omega.{arith}
use chitchat.Base.Tests.{Bool-cases, leb, ◌==◌, if◌then◌else◌}
use chitchat.Base.Lists.{In}

abbrev pub Str : Type 0
Str = List ℕ

-- A literal of the source.
abbrev pub codes : String → Str
codes String.[] = []
codes (String.◌∷◌ c s) = code c ∷ codes s

-- s == t
unfoldable pub str_eq : Str → Str → Bool
str_eq [] [] = true
str_eq [] (d ∷ t) = false
str_eq (c ∷ s) [] = false
str_eq (c ∷ s) (d ∷ t) = c == d && str_eq s t

pub str_eq_refl : (s : Str) → str_eq s s ≡ true
unfolding str_eq
str_eq_refl [] = refl
str_eq_refl (c ∷ s) = ground (arith, str_eq_refl s)

pub str_eq_sound : (s t : Str) → str_eq s t ≡ true → s ≡ t
unfolding str_eq
str_eq_sound [] [] h = refl
str_eq_sound [] (d ∷ t) h = absurd (false≢true h)
str_eq_sound (c ∷ s) [] h = absurd (false≢true h)
str_eq_sound (c ∷ s) (d ∷ t) h = ground (arith, str_eq_sound s t)

pub str_eq_iff : (s t : Str) → (str_eq s t ≡ true) ↔ (s ≡ t)
str_eq_iff s t = (str_eq_sound s t, λ e. rw e (str_eq_refl t))

pub ne_of_str_eq : {s t : Str} → str_eq s t ≡ false → s ≢ t
ne_of_str_eq {s} {t} h e = ground (arith, str_eq_iff s t)

-- s == ""
abbrev pub is_empty : Str → Bool
is_empty [] = true
is_empty (c ∷ s) = false

pub is_empty_iff : (s : Str) → (is_empty s ≡ true) ↔ (s ≡ [])
is_empty_iff [] = (λ _. refl, λ _. refl)
is_empty_iff (c ∷ s) = (λ h. absurd (false≢true h), λ e. cc)

-- s != ""
pub ne_iff : (s : Str) → (is_empty s ≡ false) ↔ (s ≢ [])
ne_iff [] = (λ h. absurd (false≢true (sym h)), λ n. absurd (n refl))
ne_iff (c ∷ s) = (λ h e. cc, λ n. refl)

-- want != "" && want != have: an empty text asks for nothing.
abbrev pub differs : Str → Str → Bool
differs want have = not (is_empty want) && not (str_eq have want)

abbrev pub Wants : Str → Str → Type 0
Wants want have = (want ≡ []) ⊎ (have ≡ want)

pub differs_iff : (want have : Str) → (differs want have ≡ false) ↔ Wants want have
differs_iff [] have = (λ h. inl refl, λ w. refl)
differs_iff (c ∷ s) have = ground (arith, str_eq_iff have (c ∷ s))

-- The membership test of a set of strings.
abbrev pub elem : Str → List Str → Bool
elem s [] = false
elem s (t ∷ ts) = str_eq s t || elem s ts

pub elem_iff : (s : Str) (ts : List Str) → (elem s ts ≡ true) ↔ In s ts
elem_iff s [] = (λ h. false≢true h, λ h. absurd h)
elem_iff s (t ∷ ts) = ground (arith, str_eq_iff s t, elem_iff s ts)

-- unicode.IsSpace
unfoldable pub is_space : ℕ → Bool
is_space c =
    (leb 9 c && leb c 13)
    || c == 32
    || c == 0x85
    || c == 0xA0
    || c == 0x1680
    || (leb 0x2000 c && leb c 0x200A)
    || c == 0x2028
    || c == 0x2029
    || c == 0x202F
    || c == 0x205F
    || c == 0x3000

abbrev drop_spaces : Str → Str
drop_spaces [] = []
drop_spaces (c ∷ s) = let rest = drop_spaces s in if is_space c then rest else c ∷ s

-- strings.TrimSpace
unfoldable pub trim_space : Str → Str
unfolding is_space
trim_space s = reverse (drop_spaces (reverse (drop_spaces s)))

-- unicode.ToLower on the letters A to Z and on the two other characters whose lower case is an
-- ASCII letter (the Kelvin sign and the dotted capital I). Any other character stays as it is: the
-- program only compares the result with ASCII words, which no other character can help to spell.
unfoldable pub to_lower : ℕ → ℕ
to_lower c =
    if leb b'A' c && leb c b'Z'
    then c + 32
    else if c == 0x212A
    then b'k'
    else if c == 0x130
    then b'i'
    else c

-- strings.HasPrefix
abbrev pub has_prefix : Str → Str → Bool
has_prefix s [] = true
has_prefix [] (d ∷ p) = false
has_prefix (c ∷ s) (d ∷ p) = c == d && has_prefix s p

abbrev push : ℕ → List Str → List Str
push c [] = (c ∷ []) ∷ []
push c (w ∷ ws) = (c ∷ w) ∷ ws

-- strings.Split(s, sep) for a separator of one character: never empty.
unfoldable pub split : ℕ → Str → List Str
split sep [] = [] ∷ []
split sep (c ∷ s) = let rest = split sep s in if c == sep then [] ∷ rest else push c rest

push-Some : (c : ℕ) (ws : List Str) → push c ws ≢ []
push-Some c [] = λ h. cc
push-Some c (w ∷ ws) = λ h. cc

push_word : (c : ℕ) (ws : List Str) → push c ws ≢ [] ∷ []
push_word c [] = λ h. cc
push_word c (w ∷ ws) = λ h. cc

pub split_some : (sep : ℕ) (s : Str) → split sep s ≢ []
unfolding split
split_some sep [] = λ h. cc
split_some sep (c ∷ s) = elim (Bool-cases (c == sep)) [
  | inl a ↦ rw (split, a) (λ h. cc)
  | inr a ↦ rw (split, a) (push-Some c (split sep s))
]

-- Only the empty text is one empty word.
pub split_word : (sep c : ℕ) (s : Str) → split sep (c ∷ s) ≢ [] ∷ []
unfolding split
split_word sep c s = elim (Bool-cases (c == sep)) [
  | inl a ↦ rw (split, a) (λ h. split_some sep s (cc))
  | inr a ↦ rw (split, a) (push_word c (split sep s))
]

-- strings.Join(words, sep) for a separator of one character.
abbrev pub join : ℕ → List Str → Str
join sep [] = []
join sep (w ∷ []) = w
join sep (w ∷ v ∷ ws) = w ++ sep ∷ join sep (v ∷ ws)
