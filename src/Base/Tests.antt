-- ===== src/Base/Tests.antt =====
-- Boolean tests on the native numbers, the conditional, and the result of a fallible call.
use Prim.Native.Nat.{ℕ, ◌<◌, compare, Ordering}
use mathlib.Core.Path.{◌≡◌, refl}
use mathlib.Core.Logic.{◌↔◌, ◌⊎◌, inl, inr}
use mathlib.Core.Bool.{Bool, true, false, ◌&&◌, ◌||◌, false≢true}
use mathlib.Core.Option.{Option, none, some}
use native.Mathlib.Omega.{arith}

abbrev pub ltb : ℕ → ℕ → Bool
ltb a b = elim (compare a b) [ Ordering.lt ↦ true | _ ↦ false ]

abbrev pub leb : ℕ → ℕ → Bool
leb a b = elim (compare a b) [ Ordering.gt ↦ false | _ ↦ true ]

infix 50 ◌==◌
abbrev pub ◌==◌ : ℕ → ℕ → Bool
a == b = elim (compare a b) [ Ordering.eq ↦ true | _ ↦ false ]

infix 1 if◌then◌else◌
abbrev pub if◌then◌else◌ {ℓ} : {A : Type ℓ} → Bool → A → A → A
if true then x else y = x
if false then x else y = y

pub ltb→lt : (a b : ℕ) → ltb a b ≡ true → a < b
ltb→lt a b h = ground arith

pub lt→ltb : (a b : ℕ) → a < b → ltb a b ≡ true
lt→ltb a b h = ground arith

pub ==_iff : (a b : ℕ) → ((a == b) ≡ true) ↔ (a ≡ b)
==_iff a b = ground arith

pub Bool-cases : (b : Bool) → (b ≡ true) ⊎ (b ≡ false)
Bool-cases true = inl refl
Bool-cases false = inr refl

pub Option-cases {ℓ} : {A : Type ℓ} (o : Option A) → (o ≡ none) ⊎ ((a : A) × (o ≡ some a))
Option-cases none = inl refl
Option-cases (some a) = inr (a, refl)

-- Two tests that hold together are one test.
pub Bool-eq_of_iff : (a b : Bool) → ((a ≡ true) ↔ (b ≡ true)) → a ≡ b
Bool-eq_of_iff true true h = refl
Bool-eq_of_iff true false h = ground (arith, h.0 refl)
Bool-eq_of_iff false true h = ground (arith, h.1 refl)
Bool-eq_of_iff false false h = refl

-- A call that returns `(value, nil)`, or an error.
pub data Result {ℓ} (E A : Type ℓ) : Type ℓ where
  ok : A → Result E A
  err : E → Result E A

infixl 5 ◌>>=◌
abbrev pub ◌>>=◌ {ℓ} : {E A B : Type ℓ} → Result E A → (A → Result E B) → Result E B
ok a >>= f = f a
err e >>= f = err e

pub Result-cases {ℓ} :
    {E A : Type ℓ} (r : Result E A) → ((a : A) × (r ≡ ok a)) ⊎ ((e : E) × (r ≡ err e))
Result-cases (ok a) = inl (a, refl)
Result-cases (err e) = inr (e, refl)

pub or_elim {ℓ} : {a b : Bool} {P : Type ℓ} → (a || b) ≡ true → (a ≡ true → P) → (b ≡ true → P) → P
or_elim {a = true} h f g = f refl
or_elim {a = false} h f g = g h

pub or_left : {a : Bool} (b : Bool) → a ≡ true → (a || b) ≡ true
or_left b h = rw h

pub or_right : (a : Bool) {b : Bool} → b ≡ true → (a || b) ≡ true
or_right true h = refl
or_right false h = h

pub and_elim : (a : Bool) {b : Bool} → (a && b) ≡ true → (a ≡ true) × (b ≡ true)
and_elim true h = (refl, h)
and_elim false h = ground arith

pub and_intro : {a b : Bool} → a ≡ true → b ≡ true → (a && b) ≡ true
and_intro h k = rw (h, k)

-- `if b { return false }; return rest`
pub guard_iff {ℓ κ} :
    {b rest : Bool} {P : Type ℓ} {Q : Type κ}
    → (b ≡ false) ↔ P
    → (rest ≡ true) ↔ Q
    → ((if b then false else rest) ≡ true) ↔ (P × Q)
guard_iff {b = true} p q = (λ h. absurd (false≢true h), λ w. cc (p.1 w.0))
guard_iff {b = false} p q = (λ h. (p.0 refl, q.0 h), λ w. q.1 w.1)

-- `if !b { return false }; return rest`
pub need_iff {ℓ κ} :
    {b rest : Bool} {P : Type ℓ} {Q : Type κ}
    → (b ≡ true) ↔ P
    → (rest ≡ true) ↔ Q
    → ((if b then rest else false) ≡ true) ↔ (P × Q)
need_iff {b = true} p q = (λ h. (p.0 refl, q.0 h), λ w. q.1 w.1)
need_iff {b = false} p q = (λ h. absurd (false≢true h), λ w. cc (p.1 w.0))

pub ok-injective {ℓ} : {E A : Type ℓ} {a b : A} → ◌≡◌ {A = Result E A} (ok a) (ok b) → a ≡ b
ok-injective h = cc

pub some≢none {ℓ} : {A : Type ℓ} {a : A} → ◌≡◌ {A = Option A} (some a) none → ⊥
some≢none h = cc

pub err-injective {ℓ} : {E A : Type ℓ} {a b : E} → ◌≡◌ {A = Result E A} (err a) (err b) → a ≡ b
err-injective h = cc

-- What holds of both branches.
pub branch_lem :
    {A : Type 0} (P : A → Type 0) (b : Bool) (x y : A)
    → (b ≡ true → P x)
    → (b ≡ false → P y)
    → P (if b then x else y)
branch_lem P true x y f g = f refl
branch_lem P false x y f g = g refl
