-- ===== src/Common/Texts.antt =====
-- Texts of C, as the lists of their bytes without the NUL.
use Prim.Native.Char.{code}
use Prim.Native.Nat.{ℕ, zero, suc, ◌≤◌}
use Prim.Native.String.{String}
use mathlib.Core.Bool.{Bool, true, false, ◌&&◌}
use mathlib.Core.Path.{◌≡◌, refl, ap}
use mathlib.Core.List.{List, [], ◌∷◌}
use mathlib.Core.Logic.{◌≢◌}
use native.Mathlib.Omega.{arith}
use zstreamer.Common.Tests.{◌==◌}
use zstreamer.Common.Lists.{length}

abbrev pub Text : Type 0
Text = List ℕ

abbrev pub codes : String → Text
codes String.[] = []
codes (String.◌∷◌ c s) = code c ∷ codes s

-- `strcmp(a, b) == 0`.
unfoldable pub text_eq : Text → Text → Bool
text_eq [] [] = true
text_eq [] (y ∷ ys) = false
text_eq (x ∷ xs) [] = false
text_eq (x ∷ xs) (y ∷ ys) = (x == y) && text_eq xs ys

unfoldable pub is_empty : Text → Bool
is_empty [] = true
is_empty (x ∷ xs) = false

-- The first bytes: what `strncpy` leaves in an array of zeros that has room for one more.
unfoldable pub take : ℕ → Text → Text
take zero xs = []
take (suc n) [] = []
take (suc n) (x ∷ xs) = x ∷ take n xs

pub text_eq_refl : (xs : Text) → text_eq xs xs ≡ true
unfolding text_eq
text_eq_refl [] = refl
text_eq_refl (x ∷ xs) = ground (arith, text_eq_refl xs)

pub text_eq_sound : (xs ys : Text) → text_eq xs ys ≡ true → xs ≡ ys
unfolding text_eq
text_eq_sound [] [] e = refl
text_eq_sound [] (y ∷ ys) e = absurd (ground arith)
text_eq_sound (x ∷ xs) [] e = absurd (ground arith)
text_eq_sound (x ∷ xs) (y ∷ ys) e = ground (arith, text_eq_sound xs ys)

pub text_eq-ne : (xs ys : Text) → xs ≢ ys → text_eq xs ys ≡ false
unfolding text_eq
text_eq-ne [] [] ne = absurd (ne refl)
text_eq-ne [] (y ∷ ys) ne = refl
text_eq-ne (x ∷ xs) [] ne = refl
text_eq-ne (x ∷ xs) (y ∷ ys) ne = ground (arith, text_eq_sound xs ys)

pub length-take : (n : ℕ) (xs : Text) → length (take n xs) ≤ n
unfolding take
length-take zero xs = omega arith
length-take (suc n) [] = omega arith
length-take (suc n) (x ∷ xs) = omega (arith, length-take n xs)

pub take_short : (n : ℕ) (xs : Text) → length xs ≤ n → take n xs ≡ xs
unfolding take
take_short zero [] h = refl
take_short zero (x ∷ xs) h = absurd (omega arith)
take_short (suc n) [] h = refl
take_short (suc n) (x ∷ xs) h = ap (λ ys. x ∷ ys) (take_short n xs (omega arith))
