-- ===== src/Engine/Template/Rewrite/Pieces.antt =====
-- pkg/engine/template.go: the pieces of an action, and what rewriteAction makes of each.
use mathlib.Core.List.{append-nil}
use chitchat.Base.{
  ℕ, zero, suc, ◌≤◌, Str, ◌==◌, Bool, true, false, ◌&&◌, [], ◌∷◌, ◌++◌, length, length-append, All,
  Bool-cases, ◌≡◌, ◌≢◌, refl, sym, ap, ◌∙◌, subst, ◌⊎◌, inl, inr, arith,
}
use chitchat.Engine.Template.Rewrite.{
  is_quote, scan_literal, scan_code, segment, rewrite_code, rewrite_from, rewrite_action,
}

-- A backslash in a literal between double quotes; there is no escape between back quotes.
abbrev pub IsEscape : ℕ → ℕ → Type 0
IsEscape c d = (c ≡ b'"') × (d ≡ b'\\')

-- What follows the opening quote `c` of a literal, up to and with the closing one.
pub data Closed (c : ℕ) : Str → Type 0 where
  close : (d : ℕ) → d ≡ c → Closed c (d ∷ [])
  plain : {s : Str} (d : ℕ) → d ≢ c → ¬ IsEscape c d → Closed c s → Closed c (d ∷ s)
  escape : {s : Str} (b d : ℕ) → b ≢ c → IsEscape c b → Closed c s → Closed c (b ∷ d ∷ s)

-- What follows the opening quote of a literal that the action does not close.
pub data Unclosed (c : ℕ) : Str → Type 0 where
  end : Unclosed c []
  dangling : (b : ℕ) → b ≢ c → IsEscape c b → Unclosed c (b ∷ [])
  plain : {s : Str} (d : ℕ) → d ≢ c → ¬ IsEscape c d → Unclosed c s → Unclosed c (d ∷ s)
  escape : {s : Str} (b d : ℕ) → b ≢ c → IsEscape c b → Unclosed c s → Unclosed c (b ∷ d ∷ s)

abbrev pub StartsQuoted : Str → Type 0
StartsQuoted [] = Unit
StartsQuoted (c ∷ s) = is_quote c ≡ true

-- The first text falls into pieces of code and literals; in the second one each piece of code is
-- rewritten, and all else is as it was. A piece of code ends at a quote or at the end.
pub data Rewrites : Str → Str → Type 0 where
  done : Rewrites [] []
  code :
      {rest out : Str} (c : ℕ) (s : Str)
      → All (λ d. is_quote d ≡ false) (c ∷ s)
      → StartsQuoted rest
      → Rewrites rest out
      → Rewrites ((c ∷ s) ++ rest) (rewrite_code (c ∷ s) ++ out)
  literal :
      {rest out : Str} (c : ℕ) (s : Str)
      → is_quote c ≡ true
      → Closed c s
      → Rewrites rest out
      → Rewrites ((c ∷ s) ++ rest) ((c ∷ s) ++ out)
  unfinished : (c : ℕ) (s : Str) → is_quote c ≡ true → Unclosed c s → Rewrites (c ∷ s) (c ∷ s)

-- What scanLiteral does: it takes a closed literal, or all of an unclosed one.
abbrev Taken : ℕ → Str → Str × Str → Type 0
Taken c s (taken, rest) =
    (Closed c taken × (taken ++ rest ≡ s)) ⊎ (Unclosed c s × (taken ≡ s) × (rest ≡ []))

abbrev is_escape : ℕ → ℕ → Bool
is_escape c d = c == b'"' && d == b'\\'

IsEscape-cases :
    (c d : ℕ) → ((is_escape c d ≡ true) × IsEscape c d) ⊎ ((is_escape c d ≡ false) × ¬ IsEscape c d)
IsEscape-cases c d = elim (Bool-cases (is_escape c d)) [
  | inl a ↦ inl (a, ground arith)
  | inr a ↦ inr (a, λ h. ground arith)
]

equal_cases : (d c : ℕ) → (((d == c) ≡ true) × (d ≡ c)) ⊎ (((d == c) ≡ false) × (d ≢ c))
equal_cases d c = elim (Bool-cases (d == c)) [
  | inl a ↦ inl (a, ground arith)
  | inr a ↦ inr (a, λ h. ground arith)
]

plain-Taken :
    (c d : ℕ) (s : Str) (r : Str × Str)
    → d ≢ c
    → ¬ IsEscape c d
    → Taken c s r
    → Taken c (d ∷ s) (d ∷ r.0, r.1)
plain-Taken c d s (taken, rest) n e (inl (k, h)) = inl (plain d n e k, ap (λ x. d ∷ x) h)
plain-Taken c d s (taken, rest) n e (inr (k, h, l)) = inr (plain d n e k, ap (λ x. d ∷ x) h, l)

escape-Taken :
    (c b d : ℕ) (s : Str) (r : Str × Str)
    → b ≢ c
    → IsEscape c b
    → Taken c s r
    → Taken c (b ∷ d ∷ s) (b ∷ d ∷ r.0, r.1)
escape-Taken c b d s (taken, rest) n e (inl (k, h)) = inl (escape b d n e k, ap (λ x. b ∷ d ∷ x) h)
escape-Taken c b d s (taken, rest) n e (inr (k, h, l)) =
    inr (escape b d n e k, ap (λ x. b ∷ d ∷ x) h, l)

scan_literal-Taken : (c : ℕ) (s : Str) → Taken c s (scan_literal c false s)
unfolding scan_literal
scan_literal-Taken c [] = inr (end, refl, refl)
scan_literal-Taken c (d ∷ []) = elim (equal_cases d c) [
  | inl (a, e) ↦ rw (scan_literal, a) (inl (close d e, refl))
  | inr (a, n) ↦ elim (IsEscape-cases c d) [
    | inl (b, e) ↦ rw (scan_literal, a) (inr (dangling d n e, refl, refl))
    | inr (b, e) ↦ rw (scan_literal, a) (inr (plain d n e end, refl, refl))
  ]
]
scan_literal-Taken c (d ∷ d' ∷ s) = elim (equal_cases d c) [
  | inl (a, e) ↦ rw (scan_literal, a) (inl (close d e, refl))
  | inr (a, n) ↦ elim (IsEscape-cases c d) [
    | inl (b, e) ↦ rw (scan_literal, a, b) (escape-Taken c d d' s _ n e (scan_literal-Taken c s))
    | inr (b, e) ↦
        rw (scan_literal, a, b) (plain-Taken c d (d' ∷ s) _ n e (scan_literal-Taken c (d' ∷ s)))
  ]
]

-- The text in front is code, up to a quote or to the end.
abbrev Scanned : Str → Str × Str → Type 0
Scanned s (taken, rest) =
    All (λ d. is_quote d ≡ false) taken × StartsQuoted rest × (taken ++ rest ≡ s)

scan_code-Scanned : (s : Str) → Scanned s (scan_code s)
unfolding scan_code
scan_code-Scanned [] = (tt, tt, refl)
scan_code-Scanned (d ∷ s) =
    let (all, quoted, h) = scan_code-Scanned s in
    elim (Bool-cases (is_quote d)) [
      | inl a ↦ rw (scan_code, a) (tt, a, refl)
      | inr a ↦ rw (scan_code, a) ((a, all), quoted, ap (λ x. d ∷ x) h)
    ]

length-rest : (taken rest s : Str) → taken ++ rest ≡ s → length rest ≤ length s
length-rest taken rest s h = omega (arith, length-append taken rest, ap length h)

-- What a turn of the loop makes of a text: the start of it is rewritten, or all of it is kept.
abbrev Turned : ℕ → Str → Str × Str → Type 0
Turned c s (out, rest) =
    (((tail : Str) → Rewrites rest tail → Rewrites (c ∷ s) (out ++ tail))
      × (length rest ≤ length s))
    ⊎ (Rewrites (c ∷ s) out × (rest ≡ []))

literal-Turned :
    (c : ℕ) (s : Str) (r : Str × Str) → is_quote c ≡ true → Taken c s r → Turned c s (c ∷ r.0, r.1)
literal-Turned c s (taken, rest) q (inl (closed, h)) = inl (
  λ tail w. subst (λ x. Rewrites (c ∷ x) ((c ∷ taken) ++ tail)) h (literal c taken q closed w),
  length-rest taken rest s h,
)
literal-Turned c s (taken, rest) q (inr (unclosed, h, e)) =
    inr (subst (λ x. Rewrites (c ∷ s) (c ∷ x)) (sym h) (unfinished c s q unclosed), e)

code-Turned :
    (c : ℕ) (s : Str) (r : Str × Str)
    → is_quote c ≡ false
    → Scanned s r
    → Turned c s (rewrite_code (c ∷ r.0), r.1)
code-Turned c s (taken, rest) q (all, quoted, h) = inl (
  λ tail w.
      subst (λ x. Rewrites (c ∷ x) (rewrite_code (c ∷ taken) ++ tail)) h
        (code c taken (q, all) quoted w),
  length-rest taken rest s h,
)

segment-Turned : (c : ℕ) (s : Str) → Turned c s (segment c s)
unfolding segment scan_code
segment-Turned c s = elim (Bool-cases (is_quote c)) [
  | inl a ↦ rw (segment, a) (literal-Turned c s (scan_literal c false s) a (scan_literal-Taken c s))
  | inr a ↦ rw (segment, scan_code, a) (code-Turned c s (scan_code s) a (scan_code-Scanned s))
]

rewrite_from_nothing : (n : ℕ) → rewrite_from n [] ≡ []
unfolding rewrite_from
rewrite_from_nothing zero = refl
rewrite_from_nothing (suc n) = refl

rewrite_from-Rewrites : (n : ℕ) (s : Str) → length s ≤ n → Rewrites s (rewrite_from n s)
unfolding rewrite_from
rewrite_from-Rewrites zero [] h = done
rewrite_from-Rewrites (suc n) [] h = done
rewrite_from-Rewrites zero (c ∷ s) h = absurd (omega (arith, h))
rewrite_from-Rewrites (suc n) (c ∷ s) h =
    let (out, rest) = segment c s in
    elim (segment-Turned c s) [
      | inl (w, le) ↦ w (rewrite_from n rest) (rewrite_from-Rewrites n rest (omega (arith, h, le)))
      | inr (w, e) ↦
          subst (Rewrites (c ∷ s))
            (sym (
              ap (λ x. out ++ rewrite_from n x) e
              ∙ (ap (λ x. out ++ x) (rewrite_from_nothing n) ∙ append-nil out)))
            w
    ]

-- rewriteAction runs to the end of every action: the action falls into pieces of code, each of
-- which is rewritten by rewriteCode, and literals between quotes, which are left as they are; a
-- backslash escapes in double quotes only, and a literal that is not closed runs to the end.
pub rewrite_action-Rewrites : (content : Str) → Rewrites content (rewrite_action content)
unfolding rewrite_action
rewrite_action-Rewrites content = rewrite_from-Rewrites (length content) content (omega arith)
