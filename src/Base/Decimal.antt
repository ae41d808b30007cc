-- ===== src/Base/Decimal.antt =====
-- `std::format("{}", n)` of an integer, and the reading that shows it to be injective.

use Prim.Native.Nat.{ℕ, zero, suc, ◌+◌, ◌-◌, ◌*◌, ◌/◌, ◌%◌, ◌≤◌, ◌<◌}
use mathlib.Core.Path.{◌≡◌, sym, ap, ◌∙◌}
use mathlib.Core.List.{[], ◌∷◌}
use native.Mathlib.Omega.{arith}
use mathlib.Core.Logic.{◌≢◌, inl, inr}
use hy_can.Base.Tests.{Bool-cases, ltb, if◌then◌else◌}
use hy_can.Base.Lists.{length, All}
use hy_can.Base.Int.{ℤ, pos, negsuc}
use hy_can.Base.Bytes.{Text, NulFree}

-- The digits of `n` in front of `rest`. The fuel `n + 1` is enough: each round divides by ten.
digits_before : ℕ → ℕ → Text → Text
digits_before zero n rest = rest
digits_before (suc f) n rest =
    let more = digits_before f (n / 10) ((48 + n % 10) ∷ rest) in
    if ltb n 10 then (48 + n) ∷ rest else more

unfoldable pub show_nat : ℕ → Text
unfolding digits_before
show_nat n = digits_before (suc n) n []

unfoldable pub show_int : ℤ → Text
unfolding show_nat
show_int (pos n) = show_nat n
show_int (negsuc n) = 45 ∷ show_nat (suc n)

read_digits : ℕ → Text → ℕ
read_digits acc [] = acc
read_digits acc (c ∷ cs) = read_digits (acc * 10 + (c - 48)) cs

read-digits_before :
    (f n : ℕ) (rest : Text) → n < f → read_digits 0 (digits_before f n rest) ≡ read_digits n rest
unfolding digits_before read_digits
read-digits_before zero n rest h = absurd (omega arith)
read-digits_before (suc f) n rest h = elim (Bool-cases (ltb n 10)) [
  | inl small ↦ rw small (ap (λ k. read_digits k rest) (ground arith))
  | inr large ↦ rw large (
      read-digits_before f (n / 10) ((48 + n % 10) ∷ rest) (ground arith)
      ∙ ap (λ k. read_digits k rest) (omega arith))
]

digits_before-digits :
    (f n : ℕ) (rest : Text) → All (λ c. 48 ≤ c) rest → All (λ c. 48 ≤ c) (digits_before f n rest)
unfolding digits_before
digits_before-digits zero n rest h = h
digits_before-digits (suc f) n rest h = elim (Bool-cases (ltb n 10)) [
  | inl small ↦ rw small (omega arith, h)
  | inr large ↦ rw large (digits_before-digits f (n / 10) ((48 + n % 10) ∷ rest) (omega arith, h))
]

-- Ten to the power `k + 1`.
abbrev power_of_ten : ℕ → ℕ
power_of_ten zero = 10
power_of_ten (suc k) = 10 * power_of_ten k

length-digits_before :
    (f k n : ℕ) (rest : Text)
    → n < power_of_ten k
    → length (digits_before f n rest) ≤ suc k + length rest
unfolding digits_before
length-digits_before zero k n rest h = omega arith
length-digits_before (suc f) zero n rest h = ground arith
length-digits_before (suc f) (suc k) n rest h = elim (Bool-cases (ltb n 10)) [
  | inl small ↦ rw small (omega arith)
  | inr large ↦
      rw large
        (omega (arith, length-digits_before f k (n / 10) ((48 + n % 10) ∷ rest) (omega arith)))
]

show_nat-digits : (n : ℕ) → All (λ c. 48 ≤ c) (show_nat n)
unfolding show_nat
show_nat-digits n = digits_before-digits (suc n) n [] tt

digits-NulFree : (s : Text) → All (λ c. 48 ≤ c) s → NulFree s
digits-NulFree [] h = tt
digits-NulFree (c ∷ s) h = (omega arith, digits-NulFree s h.1)

pub show_int-NulFree : (x : ℤ) → NulFree (show_int x)
unfolding show_int
show_int-NulFree (pos n) = digits-NulFree _ (show_nat-digits n)
show_int-NulFree (negsuc n) = (omega arith, digits-NulFree _ (show_nat-digits (suc n)))

pub show_nat-injective : (m n : ℕ) → show_nat m ≡ show_nat n → m ≡ n
unfolding show_nat read_digits
show_nat-injective m n e =
    sym (read-digits_before (suc m) m [] (omega arith))
    ∙ ap (read_digits 0) e
    ∙ read-digits_before (suc n) n [] (omega arith)

-- No number is printed with a leading minus sign.
minus-show_nat : (n : ℕ) (s : Text) → show_nat n ≢ 45 ∷ s
minus-show_nat n s e =
    let d : All (λ c. 48 ≤ c) (45 ∷ s) = rw e at (show_nat-digits n) in absurd (omega arith)

-- Different integers print differently.
pub show_int-injective : (x y : ℤ) → show_int x ≡ show_int y → x ≡ y
unfolding show_int
show_int-injective (pos m) (pos n) e = ap pos (show_nat-injective m n e)
show_int-injective (pos m) (negsuc n) e = absurd (minus-show_nat m _ e)
show_int-injective (negsuc m) (pos n) e = absurd (minus-show_nat n _ (sym e))
show_int-injective (negsuc m) (negsuc n) e =
    let p : suc m ≡ suc n = show_nat-injective (suc m) (suc n) (cc) in ap negsuc (omega arith)

abbrev pub IsInt32 : ℤ → Type 0
IsInt32 (pos n) = n < 2147483648
IsInt32 (negsuc n) = n < 2147483648

-- An `int` takes eleven characters at most.
pub length-show_int : (x : ℤ) → IsInt32 x → length (show_int x) ≤ 11
unfolding show_int show_nat
length-show_int (pos n) h = omega (arith, length-digits_before (suc n) 9 n [] (omega arith))
length-show_int (negsuc n) h =
    omega (arith, length-digits_before (suc (suc n)) 9 (suc n) [] (omega arith))
