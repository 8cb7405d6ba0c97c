-- ===== src/Base/Decimal.antt =====
-- Decimal numbers: strconv.Itoa, strconv.Atoi and strconv.ParseUint.
use Prim.Native.Nat.{ℕ, zero, suc, ◌+◌, ◌-◌, ◌*◌, ◌/◌, ◌%◌, ◌^◌, ◌<◌}
use mathlib.Core.Path.{◌≡◌, refl}
use mathlib.Core.Logic.{inl, inr}
use mathlib.Core.Bool.{◌&&◌, false}
use mathlib.Core.List.{[], ◌∷◌}
use mathlib.Core.Option.{Option, none, some}
use native.Mathlib.Omega.{arith}
use chitchat.Base.Tests.{ltb, leb, ◌==◌, if◌then◌else◌, Bool-cases}
use chitchat.Base.Text.{Str, is_empty}
use chitchat.Base.Int.{ℤ, pos, negsuc}

-- One digit less in each round; the fuel stands above the number.
digits : ℕ → ℕ → Str → Str
digits zero n acc = acc
digits (suc f) n acc =
    let more = digits f (n / 10) ((48 + n % 10) ∷ acc) in if ltb n 10 then (48 + n) ∷ acc else more

-- strconv.Itoa of a number that is not negative
unfoldable pub itoa : ℕ → Str
unfolding digits
itoa n = digits (suc n) n []

-- strconv.Itoa, the verb %d
unfoldable pub itoa_int : ℤ → Str
unfolding itoa
itoa_int (pos n) = itoa n
itoa_int (negsuc n) = b'-' ∷ itoa (suc n)

read_digits : ℕ → Str → Option ℕ
read_digits n [] = some n
read_digits n (c ∷ s) =
    let more = read_digits (n * 10 + (c - 48)) s in if leb 48 c && leb c 57 then more else none

unsigned : Str → Option ℕ
unsigned [] = none
unsigned (c ∷ s) = read_digits 0 (c ∷ s)

below : ℕ → Option ℕ → Option ℕ
below bound none = none
below bound (some n) = if ltb n bound then some n else none

negate : Option ℕ → Option ℤ
negate none = none
negate (some zero) = some (pos 0)
negate (some (suc n)) = some (negsuc n)

positive : Option ℕ → Option ℤ
positive none = none
positive (some n) = some (pos n)

-- strconv.ParseUint(s, 10, 64); `none` is the error
unfoldable pub parse_uint : Str → Option ℕ
unfolding unsigned read_digits below
parse_uint s = below (2 ^ 64) (unsigned s)

-- strconv.Atoi, on a machine whose int has 64 bits; `none` is the error
unfoldable pub atoi : Str → Option ℤ
unfolding unsigned read_digits below negate positive
atoi [] = none
atoi (c ∷ s) =
    if c == b'-'
    then negate (below (2 ^ 63 + 1) (unsigned s))
    else if c == b'+'
    then positive (below (2 ^ 63) (unsigned s))
    else positive (below (2 ^ 63) (read_digits 0 (c ∷ s)))

digits_ne : (f n c : ℕ) (acc : Str) → is_empty (digits f n (c ∷ acc)) ≡ false
unfolding digits
digits_ne zero n c acc = refl
digits_ne (suc f) n c acc = elim (Bool-cases (ltb n 10)) [
  | inl a ↦ rw (digits, a) refl
  | inr a ↦ rw (digits, a) (digits_ne f (n / 10) (48 + n % 10) (c ∷ acc))
]

-- Itoa writes at least one digit.
pub itoa_ne : (n : ℕ) → is_empty (itoa n) ≡ false
unfolding itoa digits
itoa_ne n = elim (Bool-cases (ltb n 10)) [
  | inl a ↦ rw (itoa, digits, a) refl
  | inr a ↦ rw (itoa, digits, a) (digits_ne n (n / 10) (48 + n % 10) [])
]

unsigned-digits : (f n : ℕ) (acc : Str) → n < f → unsigned (digits f n acc) ≡ read_digits n acc
unfolding unsigned read_digits digits
unsigned-digits zero n acc h = absurd (omega arith)
unsigned-digits (suc f) n acc h = ground (arith, unsigned-digits f (n / 10) ((48 + n % 10) ∷ acc))

-- A number that fits in a uint64 is read back from its decimal text.
pub parse_uint-itoa : (n : ℕ) → n < 2 ^ 64 → parse_uint (itoa n) ≡ some n
unfolding parse_uint itoa
parse_uint-itoa n h = rw (unsigned-digits (suc n) n [] (omega arith)) (ground arith)

atoi-digits :
    (f n : ℕ) (acc : Str)
    → n < f
    → atoi (digits f n acc) ≡ positive (below (2 ^ 63) (read_digits n acc))
unfolding atoi digits
atoi-digits zero n acc h = absurd (omega arith)
atoi-digits (suc f) n acc h = ground (arith, atoi-digits f (n / 10) ((48 + n % 10) ∷ acc))

-- A number that fits in an int is read back from its decimal text.
pub atoi-itoa : (n : ℕ) → n < 2 ^ 63 → atoi (itoa n) ≡ some (pos n)
unfolding itoa positive below read_digits
atoi-itoa n h = rw (atoi-digits (suc n) n [] (omega arith)) (ground arith)
