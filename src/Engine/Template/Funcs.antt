-- ===== src/Engine/Template/Funcs.antt =====
-- pkg/engine/template.go: the functions of TemplateFuncs that compute something. The others read the
-- clock or the source of uuids.
use chitchat.Base.{
  branch_lem, ℕ, ◌+◌, ◌-◌, ◌%◌, ◌^◌, ◌≤◌, ◌<◌, ltb, leb, if◌then◌else◌, ◌&&◌, Option, none, some,
  Str, Result, ok, err, ◌≡◌, refl, ◌⊎◌, inl, inr, arith,
}
use chitchat.Value.{Value}
use chitchat.Libraries.{Libraries}

-- An int is kept as its distance from the least one, -2^63. `draw n` is rand.N of n, which panics
-- unless the int n is above 0; text/template makes an error of a panic, here `none`.
unfoldable pub draw_below : (ℕ → ℕ) → ℕ → Option ℕ
draw_below draw n = if ltb 0 n && ltb n (2 ^ 63) then some (draw n) else none

add_int : ℕ → Option ℕ → Option ℕ
add_int min none = none
add_int min (some k) = some ((k + min) % 2 ^ 64)

-- max - min + 1 wraps around at 64 bits.
unfoldable pub random_int : (ℕ → ℕ) → ℕ → ℕ → Option ℕ
unfolding draw_below add_int
random_int draw min max =
    if leb max min
    then some min
    else add_int min (draw_below draw ((max + 2 ^ 64 - min + 1) % 2 ^ 64))

-- json
unfoldable pub json_text : Libraries → Value → Result Str Str
json_text lib v = elim (lib.marshal v) [ ok b ↦ ok (lib.to_text b) | err e ↦ err e ]

-- The result for the range from `min` to `max`: a number of the range, if there are fewer than 2^63
-- in it, and a panic else.
abbrev pub InRange : ℕ → ℕ → Option ℕ → Type 0
InRange min max none = (min < max) × (2 ^ 63 ≤ max - min + 1)
InRange min max (some r) =
    (max ≤ min) × (r ≡ min) ⊎ (min ≤ r) × (r ≤ max) × (max - min + 1 < 2 ^ 63)

drawn-InRange :
    (draw : ℕ → ℕ) (min max n : ℕ)
    → ((n : ℕ) → 0 < n → draw n < n)
    → min < max
    → max < 2 ^ 64
    → n ≡ (max + 2 ^ 64 - min + 1) % 2 ^ 64
    → InRange min max (add_int min (draw_below draw n))
unfolding draw_below add_int
drawn-InRange draw min max n h lt b e =
    branch_lem (λ o. InRange min max (add_int min o)) (ltb 0 n && ltb n (2 ^ 63)) _ _
      (λ t.
        let pos : 0 < n = ground arith in
        let small : n < 2 ^ 63 = ground arith in
        let count : max - min + 1 ≡ n = omega (arith, pos, small, lt, b, e) in
        let below = h n pos in
        inr (
          omega (arith, count, below, b, lt),
          omega (arith, count, below, b, lt),
          omega (arith, count, small),
        ))
      (λ f.
        let big : (n ≡ 0) ⊎ (2 ^ 63 ≤ n) = ground arith in
        (lt, elim big [ inl z ↦ omega (arith, z, lt, b, e) | inr g ↦ omega (arith, g, lt, b, e) ]))

-- random_int gives `min` for an empty range; else a number from `min` to `max`, both included, if
-- there are fewer than 2^63 of these, and a panic of rand.N if there are more, whose number does
-- not fit an int; rand.N is taken to give a number below its argument.
pub random_int-InRange :
    (draw : ℕ → ℕ) (min max : ℕ)
    → ((n : ℕ) → 0 < n → draw n < n)
    → min < 2 ^ 64
    → max < 2 ^ 64
    → InRange min max (random_int draw min max)
unfolding random_int
random_int-InRange draw min max h a b =
    branch_lem (InRange min max) (leb max min) _ _ (λ t. inl (ground arith, refl))
      (λ f. drawn-InRange draw min max _ h (ground arith) b refl)
