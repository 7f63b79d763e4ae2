-- ===== src/Queue/Capacity.antt =====
-- `next_power_of_two` of src/zst_queue.c.
pub mod Power
use Prim.Native.Nat.{bit_or}
use zstreamer.Common.{ℕ, ◌+◌, ◌/◌, ◌%◌, ◌^◌, ltb, if◌then◌else◌}
use zstreamer.Types.{sub32, add32}

-- `v |= v >> k`
unfoldable pub smear : ℕ → ℕ → ℕ
smear k v = bit_or v (v / 2 ^ k)

unfoldable pub next_power_of_two : ℕ → ℕ
next_power_of_two v =
    let w = add32 (smear 16 (smear 8 (smear 4 (smear 2 (smear 1 (sub32 v 1)))))) 1 in
    if ltb w 2 then 2 else w
