-- ===== src/Queue/Stores.antt =====
-- A store to the slot of one position leaves what the invariant says of all others.
use zstreamer.Common.{ℕ, ◌+◌, ◌%◌, ◌≤◌, ◌<◌, ◌≡◌, ◌≢◌, refl, sym, ap, ◌∙◌, arith}
use zstreamer.Common.Bits.{mod-ne_of_near}
use zstreamer.Queue.{Queue, Slot, Buffer, slot, with_slot}
use zstreamer.Queue.Slots.{Shape, with_slot-Shape, slot-with_slot_same, slot-with_slot_ne}
use zstreamer.Queue.Threads.{Phase, fresh, writing, full, reading, done}
use zstreamer.Queue.Invariant.{At}
use native.Mathlib.Decide.{dec_lt}

unfoldable pub stored : Queue → ℕ → Slot → ℕ → Queue
unfolding with_slot
stored q p s bytes = record (with_slot q p s) { approx_bytes = bytes }

-- The position whose turn it is in its slot.
abbrev pub IsLive : Queue → ℕ → Type 0
IsLive q p = (p < q.tail) × (q.tail ≤ p + q.capacity)

near_apart : (a b c : ℕ) → a ≢ b → a < b + c → b < a + c → a % c ≢ b % c
near_apart a b c ne h k = elim (dec_lt a b) [
  | yes l ↦ mod-ne_of_near a b c l k
  | no g ↦ λ e. mod-ne_of_near b a c (omega arith) h (sym e)
]

module _ (q : Queue) (p : ℕ) (s : Slot) (bytes : ℕ) (shape : Shape q) where
  pub slot-stored_self : slot (stored q p s bytes) p ≡ s
  unfolding stored slot
  slot-stored_self = slot-with_slot_same p p s shape refl

  pub slot-stored_ne :
      (r : ℕ)
      → r ≢ p
      → r < p + q.capacity
      → p < r + q.capacity
      → slot (stored q p s bytes) r ≡ slot q r
  unfolding stored slot
  slot-stored_ne r ne h k =
      slot-with_slot_ne p r s shape (near_apart p r q.capacity (λ e. ne (sym e)) k h)

  pub stored-Shape : Shape (stored q p s bytes)
  unfolding stored
  stored-Shape =
      let w = with_slot-Shape p s shape in
      record { exponent = w.exponent; power = w.power; two = w.two; word = w.word; slots = w.slots }

  -- Of every position but `p`.
  pub stored-At :
      (ph : Phase) (b : Buffer) (r : ℕ)
      → q.head ≤ q.tail
      → q.tail ≤ q.head + q.capacity
      → IsLive q p
      → r ≢ p
      → At ph q b r
      → At ph (stored q p s bytes) b r
  unfolding stored with_slot
  stored-At fresh b r o w l ne (lo, f) = (
    lo,
    λ lt. ap (λ (x : Slot). x.sequence) (slot-stored_ne r ne (omega arith) (omega arith)) ∙ f lt,
  )
  stored-At writing b r o w l ne (lo, hi, f) =
      let kept = slot-stored_ne r ne (omega arith) (omega arith) in
      (lo, hi, ap (λ (x : Slot). x.sequence) kept ∙ f)
  stored-At full b r o w l ne (lo, hi, f, g) =
      let kept = slot-stored_ne r ne (omega arith) (omega arith) in
      (lo, hi, ap (λ (x : Slot). x.sequence) kept ∙ f, ap (λ (x : Slot). x.buf) kept ∙ g)
  stored-At reading b r o w l ne (lo, hi, f, g) =
      let kept = slot-stored_ne r ne (omega arith) (omega arith) in
      (lo, hi, ap (λ (x : Slot). x.sequence) kept ∙ f, ap (λ (x : Slot). x.buf) kept ∙ g)
  stored-At done b r o w l ne (lo, f) = (
    lo,
    λ hi. ap (λ (x : Slot). x.sequence) (slot-stored_ne r ne (omega arith) (omega arith)) ∙ f hi,
  )
