-- ===== src/Queue/Invariant.antt =====
-- The invariant of the ring: what the phase of a position says of its slot.
use zstreamer.Common.{ℕ, ◌+◌, ◌≤◌, ◌<◌, ◌≡◌, some, count}
use zstreamer.Queue.{Queue, Buffer}
use zstreamer.Queue.Slots.{Shape, sequence_at, buffer_at}
use zstreamer.Queue.Threads.{Phase, fresh, writing, full, reading, done, System, position_limit}

abbrev pub At : Phase → Queue → Buffer → ℕ → Type 0
At fresh q b p = (q.tail ≤ p) × (p < q.capacity → sequence_at q p ≡ p)
At writing q b p = (q.head ≤ p) × (p < q.tail) × (sequence_at q p ≡ p)
At full q b p = (q.head ≤ p) × (p < q.tail) × (sequence_at q p ≡ p + 1) × (buffer_at q p ≡ some b)
At reading q b p =
    (p < q.head) × (q.tail ≤ p + q.capacity) × (sequence_at q p ≡ p + 1) × (buffer_at q p ≡ some b)
At done q b p = (p < q.head) × (q.tail ≤ p + q.capacity → sequence_at q p ≡ p + q.capacity)

-- No more positions are claimed by producers than the ring has slots beyond those that consumers
-- have claimed. A slot that was seen free, or published, is so still if its position is next.
pub record IsSound (s : System) : Type 0 where
  pub shape : Shape s.queue
  pub order : s.queue.head ≤ s.queue.tail
  pub window : s.queue.tail ≤ s.queue.head + s.queue.capacity
  pub bound : s.queue.tail ≤ position_limit
  pub at : (p : ℕ) → At (s.phase p) s.queue (s.value p) p
  pub free :
      (p : ℕ)
      → 0 < count p s.seen_free
      → (p ≤ s.queue.tail) × (s.queue.tail ≤ p → sequence_at s.queue p ≡ p)
  pub published :
      (p : ℕ)
      → 0 < count p s.seen_full
      → (p ≤ s.queue.head) × (s.queue.head ≤ p → sequence_at s.queue p ≡ p + 1)
