-- ===== src/Common/Bits.antt =====
-- Masks: `x & (2^k - 1)` is `x % 2^k`, for every k. Also remainders of numbers that lie close.
use Prim.Native.Nat.{
  ℕ, zero, suc, ◌+◌, ◌-◌, ◌*◌, ◌/◌, ◌%◌, ◌^◌, ◌≤◌, ◌<◌, min, max, bit_and, bit_or, digits,
  bit_and-bitwise, bit_or-bitwise,
}
use Prim.Native.Nat.add
use mathlib.Core.Path.{◌≡◌, refl, ap, ◌∙◌}
use mathlib.Core.Logic.{◌≢◌}
use native.Mathlib.Nat.{
  le_refl, div-one, mul-le-mul_left, div-add-mod, mod-lt, div-div-eq-div-mul, two-pow-succ,
  one-le-pow,
}
use native.Mathlib.Decide.{dec_lt}
use native.Mathlib.Omega.{arith}

-- The digits that stand for a bit operation do not depend on the fuel, once it suffices.
module _ (z : ℕ → ℕ) (f : ℕ → ℕ → ℕ) where
  digits_same : (n m a b : ℕ) → a ≤ n → a ≤ m → digits z f n a b ≡ digits z f m a b
  digits_same zero zero zero b p q = refl
  digits_same zero (suc m) zero b p q = refl
  digits_same (suc n) zero zero b p q = refl
  digits_same (suc n) (suc m) zero b p q = refl
  digits_same zero m (suc a) b p q = absurd (omega arith)
  digits_same (suc n) zero (suc a) b p q = absurd (omega arith)
  digits_same (suc n) (suc m) (suc a) b p q =
      ap (λ t. t * 2 + f (suc a % 2) (b % 2))
        (digits_same n m (suc a / 2) (b / 2) (omega arith) (omega arith))

-- The lowest bit of a conjunction and of a disjunction.
pub bit_and_low : (a b : ℕ) → bit_and a b ≡ 2 * bit_and (a / 2) (b / 2) + min (a % 2) (b % 2)
bit_and_low zero b = omega (arith, bit_and-bitwise 0 b, bit_and-bitwise 0 (b / 2))
bit_and_low (suc a) b = omega (
  arith,
  bit_and-bitwise (suc a) b,
  bit_and-bitwise (suc a / 2) (b / 2),
  digits_same (λ y. 0) min a (suc a / 2) (suc a / 2) (b / 2) (omega arith) (omega arith),
)

pub bit_or_low : (a b : ℕ) → bit_or a b ≡ 2 * bit_or (a / 2) (b / 2) + max (a % 2) (b % 2)
bit_or_low zero b = omega (arith, bit_or-bitwise 0 b, bit_or-bitwise 0 (b / 2))
bit_or_low (suc a) b = omega (
  arith,
  bit_or-bitwise (suc a) b,
  bit_or-bitwise (suc a / 2) (b / 2),
  digits_same (λ y. y) max a (suc a / 2) (suc a / 2) (b / 2) (omega arith) (omega arith),
)

mod-double : (a m : ℕ) → 0 < m → a % (2 * m) ≡ 2 * (a / 2 % m) + a % 2
mod-double a m h = omega (
  arith,
  div-add-mod a (2 * m),
  div-add-mod (a / 2) m,
  ap (λ t. m * t) (div-div-eq-div-mul a 2 m),
)

nothing_in_common : (n a : ℕ) → a ≤ n → bit_and a 0 ≡ 0
nothing_in_common n zero h = refl
nothing_in_common zero (suc a) h = absurd (omega arith)
nothing_in_common (suc n) (suc a) h =
    omega (arith, bit_and_low (suc a) 0, nothing_in_common n (suc a / 2) (omega arith))

pub bit_and_mask : (k a : ℕ) → bit_and a (2 ^ k - 1) ≡ a % 2 ^ k
bit_and_mask zero a = omega (arith, nothing_in_common a a (le_refl a))
bit_and_mask (suc k) a = omega (
  arith,
  two-pow-succ k,
  one-le-pow k 2 (omega arith),
  bit_and_low a (2 ^ suc k - 1),
  ap (bit_and (a / 2)) (half k),
  bit_and_mask k (a / 2),
  mod-double a (2 ^ k) (one-le-pow k 2 (omega arith)),
  ap (λ t. a % t) (double k),
)
  where
    half : (j : ℕ) → (2 ^ suc j - 1) / 2 ≡ 2 ^ j - 1
    half j = omega (arith, two-pow-succ j, one-le-pow j 2 (omega arith))

    double : (j : ℕ) → 2 ^ suc j ≡ 2 * 2 ^ j
    double j = omega (arith, two-pow-succ j)

-- Two numbers less than `c` apart have different remainders.
pub mod-ne_of_near : (a b c : ℕ) → a < b → b < a + c → a % c ≢ b % c
mod-ne_of_near a b c h k e = elim (dec_lt (a / c) (b / c)) [
  | yes q ↦
      omega
        (arith, div-add-mod a c, div-add-mod b c, mul-le-mul_left {m = suc (a / c)} {n = b / c} c q)
  | no q ↦ omega (
    arith,
    div-add-mod a c,
    div-add-mod b c,
    mul-le-mul_left {m = b / c} {n = a / c} c (omega arith),
  )
]

pub two_pow_add : (a b : ℕ) → 2 ^ (a + b) ≡ 2 ^ a * 2 ^ b
two_pow_add zero b = ap (λ t. 2 ^ t) (add.zero b) ∙ omega arith
two_pow_add (suc a) b =
    ap (λ t. 2 ^ t) (add.suc a b)
    ∙ omega (arith, two-pow-succ (a + b), ap (λ t. t * 2 ^ b) (two-pow-succ a), two_pow_add a b)

pub two_pow_pos : (a : ℕ) → 0 < 2 ^ a
two_pow_pos a = one-le-pow a 2 (omega arith)

-- A quotient from below.
pub le-div : (k x j : ℕ) → 0 < j → j * k ≤ x → k ≤ x / j
le-div k x j h l = elim (dec_lt (x / j) k) [
  | yes q ↦ absurd (
      omega
        (arith, div-add-mod x j, mod-lt x {m = j} h, mul-le-mul_left {m = suc (x / j)} {n = k} j q))
  | no q ↦ omega arith
]

nothing_added : (n a : ℕ) → a ≤ n → bit_or a 0 ≡ a
nothing_added n zero h = refl
nothing_added zero (suc a) h = absurd (omega arith)
nothing_added (suc n) (suc a) h =
    omega (arith, bit_or_low (suc a) 0, nothing_added n (suc a / 2) (omega arith))

-- A disjunction of numbers below 2^n lies below 2^n.
pub bit_or-lt : (n a b : ℕ) → a < 2 ^ n → b < 2 ^ n → bit_or a b < 2 ^ n
bit_or-lt zero a b h k = omega (arith, ap (λ t. bit_or t b) none_set, bit_or-bitwise 0 b)
  where
    none_set : a ≡ 0
    none_set = omega arith
bit_or-lt (suc n) a b h k =
    omega (arith, bit_or_low a b, two-pow-succ n, bit_or-lt n (a / 2) (b / 2))

twice_product : (q m : ℕ) → q * (2 * m) ≡ 2 * (q * m)
twice_product q m = omega arith

-- It keeps the bits of `a` from the m-th on, and adds the lower ones of `b`.
pub le-bit_or : (m a b : ℕ) → b < 2 ^ m → a / 2 ^ m * 2 ^ m + b ≤ bit_or a b
le-bit_or zero a b h =
    omega (arith, ap (bit_or a) none_set, nothing_added a a (le_refl a), div-one a)
  where
    none_set : b ≡ 0
    none_set = omega arith
le-bit_or (suc m) a b h =
    rw (double, ← div-div-eq-div-mul a 2 (2 ^ m), twice_product)
      (omega (arith, double, bit_or_low a b, le-bit_or m (a / 2) (b / 2) (omega (arith, double))))
  where
    double : 2 ^ suc m ≡ 2 * 2 ^ m
    double = omega (arith, two-pow-succ m)

pub bit_or-zero : (a : ℕ) → bit_or a 0 ≡ a
bit_or-zero a = nothing_added a a (le_refl a)
