-- ===== src/Queue/Slots.antt =====
-- The ring as an array of slots: which slot a position has, and what a store to it changes.
use zstreamer.Common.{
  ℕ, ◌+◌, ◌%◌, ◌^◌, ◌≤◌, ◌<◌, ◌≡◌, ◌≢◌, sym, ap, ◌∙◌, Option, arith, length, set, get_or,
  length-set, get_or-set_self, get_or-set_ne,
}
use zstreamer.Common.Bits.{bit_and_mask}
use zstreamer.Queue.{
  Queue, Slot, Buffer, slot, with_slot, ring_mask, empty_slot, equal, behind, compare_sequence,
}
use native.Mathlib.Nat.{mod-lt, mod-eq-sub-mod}

-- The capacity is a power of two, at least 2, and the ring has that many slots.
pub record Shape (q : Queue) : Type 0 where
  pub exponent : ℕ
  pub power : q.capacity ≡ 2 ^ exponent
  pub two : 2 ≤ q.capacity
  pub word : q.capacity ≤ 2 ^ 31
  pub slots : length q.ring ≡ q.capacity

abbrev pub sequence_at : Queue → ℕ → ℕ
sequence_at q p = (slot q p).sequence

abbrev pub buffer_at : Queue → ℕ → Option Buffer
buffer_at q p = (slot q p).buf

-- `RING_MASK` is the remainder by the capacity.
pub ring_mask-eq-mod : {q : Queue} → Shape q → (p : ℕ) → ring_mask q.capacity p ≡ p % q.capacity
unfolding ring_mask
ring_mask-eq-mod {q} v p = rw v.power (bit_and_mask v.exponent p)

mask_in_range : {q : Queue} → Shape q → (p : ℕ) → ring_mask q.capacity p < length q.ring
mask_in_range {q} v p =
    omega (arith, ring_mask-eq-mod v p, mod-lt p {m = q.capacity} (omega arith), v.slots)

pub with_slot-Shape : {q : Queue} (p : ℕ) (s : Slot) → Shape q → Shape (with_slot q p s)
unfolding with_slot
with_slot-Shape p s v = record {
  exponent = v.exponent;
  power = v.power;
  two = v.two;
  word = v.word;
  slots = length-set _ _ s ∙ v.slots;
}

-- Positions that differ by a multiple of the capacity share a slot, and no others do.
pub slot-with_slot_same :
    {q : Queue} (p r : ℕ) (s : Slot)
    → Shape q
    → p % q.capacity ≡ r % q.capacity
    → slot (with_slot q p s) r ≡ s
unfolding slot with_slot
slot-with_slot_same {q} p r s v e =
    ap (λ i. get_or (set q.ring (ring_mask q.capacity p) s) i (empty_slot 0))
      (ring_mask-eq-mod v r ∙ sym e ∙ sym (ring_mask-eq-mod v p))
    ∙ get_or-set_self q.ring (ring_mask q.capacity p) s (empty_slot 0) (mask_in_range v p)

pub slot-with_slot_ne :
    {q : Queue} (p r : ℕ) (s : Slot)
    → Shape q
    → p % q.capacity ≢ r % q.capacity
    → slot (with_slot q p s) r ≡ slot q r
unfolding slot with_slot
slot-with_slot_ne {q} p r s v ne =
    get_or-set_ne q.ring s (empty_slot 0)
      (λ e. ne (sym (ring_mask-eq-mod v p) ∙ e ∙ ring_mask-eq-mod v r))

-- A position and the one a whole turn later share a slot.
pub slot_turn : {q : Queue} (p : ℕ) → Shape q → slot q (p + q.capacity) ≡ slot q p
unfolding slot
slot_turn {q} p v =
    ap (λ i. get_or q.ring i (empty_slot 0))
      (ring_mask-eq-mod v (p + q.capacity) ∙ mod_turn ∙ sym (ring_mask-eq-mod v p))
  where
    mod_turn : (p + q.capacity) % q.capacity ≡ p % q.capacity
    mod_turn = mod-eq-sub-mod (omega arith) ∙ ap (λ t. t % q.capacity) (omega arith)

-- Below 2^63 the signed difference has the sign of the plain one.
pub compare_equal : (a b : ℕ) → compare_sequence a b ≡ equal → a ≡ b
unfolding compare_sequence
compare_equal a b h = ground arith

pub compare_behind : (a b : ℕ) → a < 2 ^ 63 → b < 2 ^ 63 → a < b → compare_sequence a b ≡ behind
unfolding compare_sequence
compare_behind a b p q h = ground arith
