-- ===== src/Types.antt =====
-- include/zst_types.h: the result codes, and the widths of the integers that the C code uses.
use zstreamer.Common.{ℕ, ◌+◌, ◌-◌, ◌%◌, ◌^◌}

-- `zst_result_t`, an `int32_t` that takes one of the values of the macros `ZST_OK` and below.
pub data ZstResult : Type 0 where
  ok error timeout again eof error_invalid_argument error_not_implemented : ZstResult

abbrev pub u32_mod : ℕ
u32_mod = 2 ^ 32

abbrev pub u64_mod : ℕ
u64_mod = 2 ^ 64

abbrev pub uint64_max : ℕ
uint64_max = 2 ^ 64 - 1

-- `a + b` and `a - b` on `uint64_t` and `uint32_t`.
abbrev pub add64 : ℕ → ℕ → ℕ
add64 a b = (a + b) % u64_mod

abbrev pub sub64 : ℕ → ℕ → ℕ
sub64 a b = (a + u64_mod - b) % u64_mod

abbrev pub add32 : ℕ → ℕ → ℕ
add32 a b = (a + b) % u32_mod

abbrev pub sub32 : ℕ → ℕ → ℕ
sub32 a b = (a + u32_mod - b) % u32_mod
