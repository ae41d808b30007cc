-- ===== src/Base/Bytes.antt =====
-- Texts as lists of bytes: `std::string`, the C strings behind it, and decimal numbers.
use Prim.Native.Nat.{ℕ}
use Prim.Native.Char.{code}
use Prim.Native.String.{String}
use mathlib.Core.Path.{◌≡◌, refl}
use mathlib.Core.Logic.{◌≢◌, ◌↔◌}
use mathlib.Core.Bool.{Bool, true, false, ◌&&◌}
use mathlib.Core.List.{List, [], ◌∷◌, ◌++◌}
use native.Mathlib.Omega.{arith}
use hy_can.Base.Tests.{◌==◌, if◌then◌else◌}
use hy_can.Base.Lists.{All}

abbrev pub Text : Type 0
Text = List ℕ

-- The bytes of an ASCII literal.
unfoldable pub text : String → Text
text String.[] = []
text (String.◌∷◌ c s) = code c ∷ text s

-- No byte of the text is the terminator.
abbrev pub NulFree : Text → Type 0
NulFree = All (λ c. c ≢ 0)

-- The C string that starts a buffer: what stands before the first NUL.
unfoldable pub c_str : Text → Text
c_str [] = []
c_str (c ∷ cs) = if c == 0 then [] else c ∷ c_str cs

-- `std::string_view::starts_with`
unfoldable pub starts_with : Text → Text → Bool
starts_with cs [] = true
starts_with [] (p ∷ ps) = false
starts_with (c ∷ cs) (p ∷ ps) = c == p && starts_with cs ps

-- Equality of texts.
unfoldable pub text_eq : Text → Text → Bool
text_eq [] [] = true
text_eq [] (b ∷ bs) = false
text_eq (a ∷ r) [] = false
text_eq (a ∷ r) (b ∷ bs) = a == b && text_eq r bs

pub text_eq_refl : (s : Text) → text_eq s s ≡ true
unfolding text_eq
text_eq_refl [] = refl
text_eq_refl (a ∷ s) = ground (arith, text_eq_refl s)

pub text_eq_sound : (s t : Text) → text_eq s t ≡ true → s ≡ t
unfolding text_eq
text_eq_sound [] [] h = refl
text_eq_sound [] (b ∷ t) h = cc
text_eq_sound (a ∷ s) [] h = cc
text_eq_sound (a ∷ s) (b ∷ t) h = ground (arith, text_eq_sound s t)

pub text_eq_iff : (s t : Text) → (text_eq s t ≡ true) ↔ (s ≡ t)
text_eq_iff s t = (text_eq_sound s t, λ e. rw e (text_eq_refl t))

-- A buffer that holds a text and then a NUL reads back as the text.
pub c_str-append_nul : (s t : Text) → NulFree s → c_str (s ++ 0 ∷ t) ≡ s
unfolding c_str
c_str-append_nul [] t h = refl
c_str-append_nul (c ∷ s) t h = ground (arith, c_str-append_nul s t h.1, h.0)
