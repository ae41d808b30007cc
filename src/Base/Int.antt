-- ===== src/Base/Int.antt =====
-- Signed `int` values, as far as the code reads them: return codes and file descriptors.
use Prim.Native.Nat.{ℕ, suc}
use mathlib.Core.Path.{◌≡◌}
use mathlib.Core.Logic.{◌↔◌}
use mathlib.Core.Bool.{Bool, true, false, not, ◌&&◌}
use native.Mathlib.Omega.{arith}
use hy_can.Base.Tests.{if◌then◌else◌, ◌==◌}

-- `negsuc n` is -(n + 1).
pub data ℤ : Type 0 where
  pos : ℕ → ℤ
  negsuc : ℕ → ℤ

-- `x < 0`
abbrev pub is_negative : ℤ → Bool
is_negative (pos n) = false
is_negative (negsuc n) = true

-- `x == -1`, the error return of the system calls.
abbrev pub is_minus_one : ℤ → Bool
is_minus_one (pos n) = false
is_minus_one (negsuc n) = n == 0

-- `x == 0`
abbrev pub is_zero : ℤ → Bool
is_zero (pos n) = n == 0
is_zero (negsuc n) = false

-- `x <= 0`
abbrev pub is_nonpositive : ℤ → Bool
is_nonpositive (pos n) = n == 0
is_nonpositive (negsuc n) = true

abbrev pub minus_one : ℤ
minus_one = negsuc 0

pub is_zero_iff : (x : ℤ) → (is_zero x ≡ true) ↔ (x ≡ pos 0)
is_zero_iff x = ground arith

pub is_minus_one_iff : (x : ℤ) → (is_minus_one x ≡ true) ↔ (x ≡ minus_one)
is_minus_one_iff x = ground arith

-- The value of a number that is not negative.
abbrev pub to_nat : ℤ → ℕ
to_nat (pos n) = n
to_nat (negsuc n) = 0

-- Equality of integers.
abbrev pub int_eq : ℤ → ℤ → Bool
int_eq (pos m) (pos n) = m == n
int_eq (pos m) (negsuc n) = false
int_eq (negsuc m) (pos n) = false
int_eq (negsuc m) (negsuc n) = m == n

pub int_eq_iff : (x y : ℤ) → (int_eq x y ≡ true) ↔ (x ≡ y)
int_eq_iff x y = ground arith

-- A count for each descriptor, with `fd` counted once more.
abbrev pub count_fd : ℤ → (ℤ → ℕ) → ℤ → ℕ
count_fd fd counts d = if int_eq fd d then suc (counts d) else counts d

-- What is in hand of `d`: one, if it is what `fd` says, and -1 is none.
abbrev pub in_hand : ℤ → ℤ → ℕ
in_hand fd d = if not (is_minus_one fd) && int_eq fd d then 1 else 0
