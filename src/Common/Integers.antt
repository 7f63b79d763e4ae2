-- ===== src/Common/Integers.antt =====
-- The signed `int` of C, for numbers that stay below 2^31.
use zstreamer.Common.{ℕ, ◌+◌, ◌-◌, Bool, true, ltb, leb, if◌then◌else◌}

-- `negsuc n` is `-(n + 1)`.
pub data ℤ : Type 0 where
  pos negsuc : ℕ → ℤ

-- `a - n`
unfoldable pub lower : ℤ → ℕ → ℤ
lower (pos a) n = if leb n a then pos (a - n) else negsuc (n - a - 1)
lower (negsuc a) n = negsuc (a + n)

-- `a < n`
unfoldable pub is_below : ℤ → ℕ → Bool
is_below (pos a) n = ltb a n
is_below (negsuc a) n = true
