-- ===== src/Message/Wire.antt =====
-- What a receiver reads from the fixed buffers of Message.hpp.
use hy_can.Base.{
  ℕ, zero, suc, [], ◌∷◌, Text, ◌≡◌, refl, ap, replicate, length, take, c_str, NulFree, arith,
  length-append, length-replicate,
}
use hy_can.Message.{strncpy, fill, fill_if_any}

length-strncpy : (n : ℕ) (s : Text) → length (strncpy n s) ≡ n
unfolding strncpy
length-strncpy zero s = refl
length-strncpy (suc n) [] = ap suc (length-strncpy n [])
length-strncpy (suc n) (c ∷ s) = ground (arith, length-strncpy n s, length-replicate {A = ℕ} n 0)

pub length-fill : (n : ℕ) (s : Text) → length (fill n s) ≡ suc n
unfolding fill
length-fill n s = omega (arith, length-append (strncpy n s) (0 ∷ []), length-strncpy n s)

pub length-fill_if_any : (n : ℕ) (s : Text) → length (fill_if_any n s) ≡ suc n
unfolding fill_if_any
length-fill_if_any n [] = length-replicate (suc n) 0
length-fill_if_any n (c ∷ s) = length-fill n (c ∷ s)

strncpy-nil : (n : ℕ) → strncpy n [] ≡ replicate n 0
unfolding strncpy
strncpy-nil zero = refl
strncpy-nil (suc n) = ap (◌∷◌ 0) (strncpy-nil n)

-- A filled buffer reads back as the C string, cut to the bytes in front of the last one.
pub c_str-fill : (n : ℕ) (s : Text) → c_str (fill n s) ≡ take n (c_str s)
unfolding fill strncpy c_str
c_str-fill zero s = refl
c_str-fill (suc n) [] = refl
c_str-fill (suc n) (c ∷ s) = ground (arith, c_str-fill n s)

pub c_str-fill_if_any : (n : ℕ) (s : Text) → c_str (fill_if_any n s) ≡ take n (c_str s)
unfolding fill_if_any c_str
c_str-fill_if_any zero [] = refl
c_str-fill_if_any (suc n) [] = refl
c_str-fill_if_any n (c ∷ s) = c_str-fill n (c ∷ s)

pub c_str_of_NulFree : (s : Text) → NulFree s → c_str s ≡ s
unfolding c_str
c_str_of_NulFree [] h = refl
c_str_of_NulFree (c ∷ s) h = ground (arith, c_str_of_NulFree s h.1, h.0)
