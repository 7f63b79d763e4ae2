-- ===== src/Queue.antt =====
-- src/zst_queue.c: the bounded ring queue between pipeline stages, lock-free over sequence numbers.
-- Each function here is what a thread does between two points where others may run, so that the
-- threads of a queue are sequences of these actions (Queue/Threads). The mutex and the condition
-- variables only put waiting threads to sleep: a thread that wakes looks again from the top.
pub mod Capacity
pub mod Slots
pub mod Threads
pub mod Invariant
pub mod Stores
pub mod Preserve
pub mod Claims
pub mod Runs
pub mod Order
pub mod Looks
pub mod Calls
mod Tests
use Prim.Native.Nat.{bit_and}
use zstreamer.Common.{
  ℕ, zero, suc, ◌+◌, ◌-◌, ◌%◌, ◌^◌, Bool, true, false, not, ◌&&◌, ◌||◌, Option, none, some, List,
  [], ◌∷◌, ltb, leb, ◌==◌, if◌then◌else◌, get_or, set,
}
use zstreamer.Types.{ZstResult, ok, error, timeout, u64_mod, add64, sub64}
use Capacity.{next_power_of_two}

-- The part of a `zst_buffer_t` that the queue reads, with its address.
pub record Buffer : Type 0 where
  pub address : ℕ
  pub pts : ℕ
  pub duration : ℕ
  pub size : ℕ

pub record Slot : Type 0 where
  pub buf : Option Buffer
  pub sequence : ℕ
  pub pts : ℕ
  pub duration : ℕ

pub data QueueMode : Type 0 where
  sync async : QueueMode

pub record QueueConfig : Type 0 where
  pub mode : QueueMode
  pub max_buffers : ℕ
  pub max_bytes : ℕ
  pub max_duration : ℕ

pub record Queue : Type 0 where
  pub cfg : QueueConfig
  pub capacity : ℕ
  pub has_extra_limits : Bool
  pub ring : List Slot
  pub head : ℕ
  pub tail : ℕ
  pub approx_bytes : ℕ

abbrev pub empty_slot : ℕ → Slot
empty_slot sequence = record { buf = none; sequence = sequence; pts = 0; duration = 0 }

-- The slots from index `i` on, each with its index for a sequence number.
pub init_ring : ℕ → ℕ → List Slot
init_ring zero i = []
init_ring (suc n) i = empty_slot i ∷ init_ring n (suc i)

pub default_config : QueueConfig
default_config = record { mode = sync; max_buffers = 16; max_bytes = 0; max_duration = 0 }

pub create_with : QueueConfig → Queue
create_with cfg = record {
  cfg = cfg;
  capacity = capacity;
  has_extra_limits =
      ltb 0 cfg.max_bytes
      || ltb 0 cfg.max_duration
      || (ltb 0 cfg.max_buffers && ltb cfg.max_buffers capacity);
  ring = init_ring capacity 0;
  head = 0;
  tail = 0;
  approx_bytes = 0;
}
  where
    capacity : ℕ
    capacity = next_power_of_two (if ltb 0 cfg.max_buffers then cfg.max_buffers else 16)

-- `none` as a configuration is NULL, which means the default; the last two arguments say whether
-- the two allocations succeed.
pub create : Option QueueConfig → Bool → Bool → Option Queue
create cfg queue_served ring_served =
    if queue_served && ring_served
    then some (create_with (elim cfg [ none ↦ default_config | some c ↦ c ]))
    else none

-- `RING_MASK`
pub ring_mask : ℕ → ℕ → ℕ
ring_mask capacity idx = bit_and idx (capacity - 1)

pub slot : Queue → ℕ → Slot
slot q pos = get_or q.ring (ring_mask q.capacity pos) (empty_slot 0)

pub with_slot : Queue → ℕ → Slot → Queue
with_slot q pos s = record q { ring = set q.ring (ring_mask q.capacity pos) s }

-- `(int64_t)a < (int64_t)b`
abbrev pub lt64 : ℕ → ℕ → Bool
lt64 a b = ltb ((a + 2 ^ 63) % u64_mod) ((b + 2 ^ 63) % u64_mod)

-- The sign of `diff`, the slot's sequence number less the one that the thread waits for.
pub data Diff : Type 0 where
  equal behind ahead : Diff

pub compare_sequence : ℕ → ℕ → Diff
compare_sequence seq wanted =
    if seq == wanted then equal else if lt64 seq wanted then behind else ahead

-- A producer looks at the slot of the position that it read from `tail`.
pub push_look : Queue → ℕ → Diff
push_look q pos = compare_sequence (slot q pos).sequence pos

-- A consumer looks at the slot of the position that it read from `head`.
pub pop_look : Queue → ℕ → Diff
pop_look q pos = compare_sequence (slot q pos).sequence (add64 pos 1)

-- The compare-and-swap of `tail` and of `head` (a weak one may also fail for no reason).
pub cas_tail : Queue → ℕ → Option Queue
cas_tail q pos = if q.tail == pos then some (record q { tail = add64 pos 1 }) else none

pub cas_head : Queue → ℕ → Option Queue
cas_head q pos = if q.head == pos then some (record q { head = add64 pos 1 }) else none

-- The stores of a producer that has claimed `pos`, the release of the slot last.
pub publish : Queue → ℕ → Buffer → Queue
publish q pos b = record (with_slot q pos s) { approx_bytes = add64 q.approx_bytes b.size }
  where
    s : Slot
    s = record { buf = some b; sequence = add64 pos 1; pts = b.pts; duration = b.duration }

-- What a consumer that has claimed `pos` takes from the slot.
pub taken : Queue → ℕ → Option Buffer
taken q pos = (slot q pos).buf

-- Its stores, the release of the slot last.
pub vacate : Queue → ℕ → Queue
vacate q pos = record (with_slot q pos (empty_slot (add64 pos q.capacity))) {
  approx_bytes = elim (taken q pos) [
    | none ↦ q.approx_bytes
    | some b ↦ sub64 q.approx_bytes b.size
  ];
}

-- `tail - head` as an `int64_t`, cut off at 0 and to 32 bits.
pub size : Queue → ℕ
size q = if lt64 q.tail q.head then 0 else sub64 q.tail q.head % 2 ^ 32
