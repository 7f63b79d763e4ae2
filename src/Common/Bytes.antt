-- ===== src/Common/Bytes.antt =====
-- Messages as lists of bytes: their first bytes, the others, and the bytes of a concatenation.
use Prim.Native.Nat.{ℕ, zero, suc, ◌+◌, ◌-◌, ◌≤◌, ◌<◌, min}
use mathlib.Core.Path.{◌≡◌, refl, ap, sym, ◌∙◌}
use mathlib.Core.List.{List, [], ◌∷◌, ◌++◌}
use native.Mathlib.Omega.{arith}
use zstreamer.Common.Lists.{length, get_or}

-- The first bytes of a message, and the others.
unfoldable pub take_bytes : ℕ → List ℕ → List ℕ
take_bytes zero bs = []
take_bytes (suc n) [] = []
take_bytes (suc n) (b ∷ bs) = b ∷ take_bytes n bs

unfoldable pub drop_bytes : ℕ → List ℕ → List ℕ
drop_bytes zero bs = bs
drop_bytes (suc n) [] = []
drop_bytes (suc n) (b ∷ bs) = drop_bytes n bs

pub get_or-append_left :
    (xs ys : List ℕ) (i : ℕ) → i < length xs → get_or (xs ++ ys) i 0 ≡ get_or xs i 0
get_or-append_left [] ys i h = absurd (omega arith)
get_or-append_left (x ∷ xs) ys zero h = refl
get_or-append_left (x ∷ xs) ys (suc i) h = get_or-append_left xs ys i (omega arith)

pub get_or-append_right :
    (xs ys : List ℕ) (n i : ℕ) → length xs ≡ n → get_or (xs ++ ys) (n + i) 0 ≡ get_or ys i 0
get_or-append_right [] ys n i e = ap (λ k. get_or ys k 0) (omega arith)
get_or-append_right (x ∷ xs) ys zero i e = absurd (omega arith)
get_or-append_right (x ∷ xs) ys (suc n) i e =
    let step : suc n + i ≡ suc (n + i) = omega arith in
    ap (λ k. get_or (x ∷ (xs ++ ys)) k 0) step ∙ get_or-append_right xs ys n i (omega arith)

pub length-take_bytes : (n : ℕ) (bs : List ℕ) → n ≤ length bs → length (take_bytes n bs) ≡ n
unfolding take_bytes
length-take_bytes zero bs h = refl
length-take_bytes (suc n) [] h = absurd (omega arith)
length-take_bytes (suc n) (b ∷ bs) h = ap suc (length-take_bytes n bs (omega arith))

pub take-drop : (n : ℕ) (bs : List ℕ) → take_bytes n bs ++ drop_bytes n bs ≡ bs
unfolding take_bytes drop_bytes
take-drop zero bs = refl
take-drop (suc n) [] = refl
take-drop (suc n) (b ∷ bs) = ap (λ r. b ∷ r) (take-drop n bs)

pub take-append : (n : ℕ) (xs ys : List ℕ) → length xs ≡ n → take_bytes n (xs ++ ys) ≡ xs
unfolding take_bytes
take-append zero [] ys e = refl
take-append zero (x ∷ xs) ys e = absurd (omega arith)
take-append (suc n) [] ys e = absurd (omega arith)
take-append (suc n) (x ∷ xs) ys e = ap (λ r. x ∷ r) (take-append n xs ys (omega arith))

pub drop-append : (n : ℕ) (xs ys : List ℕ) → length xs ≡ n → drop_bytes n (xs ++ ys) ≡ ys
unfolding drop_bytes
drop-append zero [] ys e = refl
drop-append zero (x ∷ xs) ys e = absurd (omega arith)
drop-append (suc n) [] ys e = absurd (omega arith)
drop-append (suc n) (x ∷ xs) ys e = drop-append n xs ys (omega arith)

pub drop-append_more :
    (n j : ℕ) (xs ys : List ℕ) → length xs ≡ n → drop_bytes (n + j) (xs ++ ys) ≡ drop_bytes j ys
unfolding drop_bytes
drop-append_more n j [] ys e =
    let none_more : n + j ≡ j = omega arith in ap (λ k. drop_bytes k ys) none_more
drop-append_more zero j (x ∷ xs) ys e = absurd (omega arith)
drop-append_more (suc n) j (x ∷ xs) ys e =
    let step : suc n + j ≡ suc (n + j) = omega arith in
    ap (λ k. drop_bytes k (x ∷ (xs ++ ys))) step ∙ drop-append_more n j xs ys (omega arith)

pub length-drop_bytes : (n : ℕ) (bs : List ℕ) → length (drop_bytes n bs) ≡ length bs - n
unfolding drop_bytes
length-drop_bytes zero bs = omega arith
length-drop_bytes (suc n) [] = omega arith
length-drop_bytes (suc n) (b ∷ bs) = omega (arith, length-drop_bytes n bs)

pub length-take_min : (n : ℕ) (bs : List ℕ) → length (take_bytes n bs) ≡ min n (length bs)
unfolding take_bytes
length-take_min zero bs = omega arith
length-take_min (suc n) [] = omega arith
length-take_min (suc n) (b ∷ bs) = omega (arith, length-take_min n bs)

pub drop-drop : (n m : ℕ) (bs : List ℕ) → drop_bytes m (drop_bytes n bs) ≡ drop_bytes (n + m) bs
unfolding drop_bytes
drop-drop zero m bs = ap (λ k. drop_bytes k bs) (omega arith)
drop-drop (suc n) m [] = none_left m ∙ sym (none_left (suc n + m))
  where
    none_left : (k : ℕ) → drop_bytes k [] ≡ []
    none_left zero = refl
    none_left (suc k) = refl
drop-drop (suc n) m (b ∷ bs) =
    let step : suc n + m ≡ suc (n + m) = omega arith in
    drop-drop n m bs ∙ ap (λ k. drop_bytes k (b ∷ bs)) (sym step)
