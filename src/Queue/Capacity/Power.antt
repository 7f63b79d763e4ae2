-- ===== src/Queue/Capacity/Power.antt =====
-- `next_power_of_two` rounds up to a power of two, by setting every bit below the highest.
use zstreamer.Common.{
  ℕ, zero, suc, ◌+◌, ◌-◌, ◌*◌, ◌/◌, ◌^◌, ◌≤◌, ◌<◌, ◌≡◌, refl, ap, subst, ◌∙◌, ◌⊎◌, inl, inr, arith,
}
use zstreamer.Common.Bits.{two_pow_add, two_pow_pos, le-div, bit_or-lt, le-bit_or}
use zstreamer.Types.{sub32}
use zstreamer.Queue.Capacity.{smear, next_power_of_two}
use native.Mathlib.Decide.{dec_lt}
use native.Mathlib.Nat.{
  two-pow-succ, div-add-mod, div-one, div-le_self, div-eq_of_lt, pow-le-pow_right, mul-le-mul_left,
}

-- A number of n bits whose top j bits are set.
abbrev Ones : ℕ → ℕ → ℕ → Type 0
Ones n j x = (x < 2 ^ n) × (2 ^ n ≤ x + 2 ^ (n - j))

power_zero : (k : ℕ) → k ≡ 0 → 2 ^ k ≡ 1
power_zero k e = ap (λ t. 2 ^ t) e

-- 2^n is 2^j * 2^(n - j).
split_power : (n j : ℕ) → j ≤ n → 2 ^ n ≡ 2 ^ j * 2 ^ (n - j)
split_power n j h = ap (λ t. 2 ^ t) (omega arith) ∙ two_pow_add j (n - j)

div-lt-power : (n j x : ℕ) → j ≤ n → x < 2 ^ n → x / 2 ^ j < 2 ^ (n - j)
div-lt-power n j x h hi = elim (dec_lt (x / 2 ^ j) (2 ^ (n - j))) [
  | yes l ↦ l
  | no l ↦ absurd (
      omega (
        arith,
        split_power n j h,
        div-add-mod x (2 ^ j),
        mul-le-mul_left {m = 2 ^ (n - j)} {n = x / 2 ^ j} (2 ^ j) (omega arith),
      ))
]

-- Its top bits, shifted down by j.
top_bits : (j M L x : ℕ) → L ≤ M → 2 ^ j * M ≤ x + 2 ^ j * L → M ≤ x / 2 ^ j + L
top_bits j M L x h lo =
    omega
      (arith, le-div (M - L) x (2 ^ j) (two_pow_pos j) (omega (arith, ap (λ t. 2 ^ j * t) split)))
  where
    split : M ≡ (M - L) + L
    split = omega arith

shifted_down : (n j x : ℕ) → j ≤ n → Ones n j x → 2 ^ (n - j) ≤ x / 2 ^ j + 2 ^ (n - (j + j))
shifted_down n j x h (hi, lo) = elim (dec_lt n (j + j)) [
  | no l ↦
      top_bits j (2 ^ (n - j)) (2 ^ (n - (j + j))) x
        (pow-le-pow_right {n = 2} (omega arith) {i = n - (j + j)} {j = n - j} (omega arith))
        (omega (arith, split_power n j h, inner (omega arith)))
  | yes l ↦
      let one_left = power_zero (n - (j + j)) (omega arith) in
      omega (
        arith,
        one_left,
        top_bits j (2 ^ (n - j)) 1 x (two_pow_pos (n - j)) (
            omega (
              arith,
              split_power n j h,
              pow-le-pow_right {n = 2} (omega arith) {i = n - j} {j = j} (omega arith),
            )),
      )
]
  where
    inner : j + j ≤ n → 2 ^ (n - j) ≡ 2 ^ j * 2 ^ (n - (j + j))
    inner k = split_power (n - j) j (omega arith) ∙ ap (λ t. 2 ^ j * 2 ^ t) (omega arith)

smear-Ones : (n j x : ℕ) → Ones n j x → Ones n (j + j) (smear j x)
unfolding smear
smear-Ones n j x (hi, lo) = (
  bit_or-lt n x (x / 2 ^ j) hi (omega (arith, div-le_self x (2 ^ j))),
  elim (dec_lt n j) [
    | yes l ↦ omega (
      arith,
      all_set l,
      nothing_left l,
      le-bit_or 0 x (x / 2 ^ j) (omega (arith, div-eq_of_lt {n = x} {m = 2 ^ j} (small l))),
      div-one x,
      ap (λ t. 2 ^ t) (gone l),
    )
    | no l ↦ omega (
      arith,
      le-bit_or (n - j) x (x / 2 ^ j) (div-lt-power n j x (omega arith) hi),
      shifted_down n j x (omega arith) (hi, lo),
      high_part (omega arith),
    )
  ],
)
  where
    gone : n < j → n - (j + j) ≡ 0
    gone l = omega arith

    nothing_left : n < j → 2 ^ (n - (j + j)) ≡ 1
    nothing_left l = power_zero (n - (j + j)) (gone l)

    all_set : n < j → 2 ^ n ≤ x + 1
    all_set l = omega (arith, power_zero (n - j) (omega arith))

    small : n < j → x < 2 ^ j
    small l = omega (arith, pow-le-pow_right {n = 2} (omega arith) {i = n} {j = j} (omega arith))

    less : (a b : ℕ) → 0 < a → b * (a - 1) + b ≡ a * b
    less (suc a) b h = let e : suc a - 1 ≡ a = omega arith in rw e (omega arith)
    less zero b h = absurd (omega arith)

    high_part : j ≤ n → 2 ^ n ≤ x / 2 ^ (n - j) * 2 ^ (n - j) + 2 ^ (n - j)
    high_part h =
        let J : ℕ = 2 ^ j in
        let M : ℕ = 2 ^ (n - j) in
        let pos : 0 < J = two_pow_pos j in
        let q : J - 1 ≤ x / M =
          le-div (J - 1) x M (two_pow_pos (n - j))
            (omega (arith, split_power n j h, less J M pos)) in
        omega (arith, split_power n j h, mul-le-mul_left {m = J - 1} {n = x / M} M q, less J M pos)

-- The highest set bit.
top_bit : (n w : ℕ) → 0 < w → w < 2 ^ n → (k : ℕ) × (k < n) × (2 ^ k ≤ w) × (w < 2 ^ suc k)
top_bit zero w h l = absurd (omega arith)
top_bit (suc n) w h l = elim (dec_lt w (2 ^ n)) [
  | yes s ↦ let (k, a, b, c) = top_bit n w h s in (k, omega arith, b, c)
  | no g ↦ (n, omega arith, omega arith, l)
]

filled :
    (n w : ℕ) → n ≤ 32 → Ones n 1 w → smear 16 (smear 8 (smear 4 (smear 2 (smear 1 w)))) + 1 ≡ 2 ^ n
filled n w h o =
    let all =
      smear-Ones n 16 _
        (smear-Ones n 8 _ (smear-Ones n 4 _ (smear-Ones n 2 _ (smear-Ones n 1 w o)))) in
    omega (arith, all.0, all.1, power_zero (n - 32) (omega arith))

two_for_one : next_power_of_two 1 ≡ 2
unfolding next_power_of_two smear
two_for_one = refl

pub next_power_of_two_least :
    (v : ℕ)
    → 0 < v
    → v ≤ 2 ^ 31
    → (k : ℕ) × (next_power_of_two v ≡ 2 ^ k)
      × (0 < k)
      × (k ≤ 31)
      × (v ≤ 2 ^ k)
      × ((v ≡ 1) ⊎ (2 ^ k < 2 * v))
unfolding next_power_of_two
next_power_of_two_least v h l = elim (dec_lt 1 v) [
  | no one ↦ (
    1,
    let e : 1 ≡ v = omega arith in subst (λ t. next_power_of_two t ≡ 2) e two_for_one,
    omega arith,
    omega arith,
    omega arith,
    inl (omega arith),
  )
  | yes more ↦
      let (k, below, lo, hi) = top_bit 31 (v - 1) (omega arith) (omega arith) in
      let minus_one : sub32 v 1 ≡ v - 1 = omega arith in
      let all =
        filled (suc k) (v - 1) (omega arith)
          (hi, omega (arith, two-pow-succ k, ap (λ t. 2 ^ t) (less_one k))) in
      (
        suc k,
        rw minus_one (
            ground (
              arith,
              all,
              two-pow-succ k,
              two_pow_pos k,
              pow-le-pow_right {n = 2} (omega arith) {i = suc k} {j = 31} (omega arith),
            )),
        omega arith,
        omega arith,
        omega (arith, two-pow-succ k),
        inr (omega (arith, two-pow-succ k)),
      )
]
  where
    less_one : (k : ℕ) → suc k - 1 ≡ k
    less_one k = omega arith

-- Above 2^31 the 32-bit increment wraps to 0, and the result is 2.
pub next_power_of_two_wraps : (v : ℕ) → 2 ^ 31 < v → v < 2 ^ 32 → next_power_of_two v ≡ 2
unfolding next_power_of_two
next_power_of_two_wraps v h l =
    let minus_one : sub32 v 1 ≡ v - 1 = omega arith in
    let all = filled 32 (v - 1) (omega arith) (omega arith, omega arith) in
    rw minus_one (ground (arith, all))
