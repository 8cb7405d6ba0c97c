-- ===== src/Base/Int.antt =====
-- Go's signed int: `negsuc n` is -(n + 1). The values of the program's configuration are ints.
use Prim.Native.Nat.{ℕ}
use mathlib.Core.Bool.{Bool, true, false}
use chitchat.Base.Tests.{ltb, ◌==◌}

pub data ℤ : Type 0 where
  pos : ℕ → ℤ
  negsuc : ℕ → ℤ

-- i < n, for a constant n that is not negative.
abbrev pub lt_nat : ℤ → ℕ → Bool
lt_nat (pos m) n = ltb m n
lt_nat (negsuc m) n = true

-- n < i
abbrev pub gt_nat : ℤ → ℕ → Bool
gt_nat (pos m) n = ltb n m
gt_nat (negsuc m) n = false

-- i == j
abbrev pub int_eq : ℤ → ℤ → Bool
int_eq (pos m) (pos n) = m == n
int_eq (pos m) (negsuc n) = false
int_eq (negsuc m) (pos n) = false
int_eq (negsuc m) (negsuc n) = m == n

-- The number of elements that an int stands for where it is used as a length.
abbrev pub to_nat : ℤ → ℕ
to_nat (pos n) = n
to_nat (negsuc n) = 0
