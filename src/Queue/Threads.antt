-- ===== src/Queue/Threads.antt =====
-- Any number of producers and consumers at one queue, as interleavings of their actions.
use zstreamer.Common.{ℕ, ◌-◌, ◌^◌, ◌≤◌, ◌<◌, ◌≡◌, some, List, ◌∷◌, ◌==◌, if◌then◌else◌, count}
use zstreamer.Queue.{Queue, Buffer, equal, push_look, pop_look, cas_tail, cas_head, publish, vacate}

-- How far the buffer of a position has come: its position is not claimed, claimed by a producer,
-- published, claimed by a consumer, or given back.
pub data Phase : Type 0 where
  fresh writing full reading done : Phase

-- The queue; for each position its phase and the buffer that its producer pushes; the positions at
-- which a producer has seen a free slot, and a consumer a published one, at some time.
pub record System : Type 0 where
  pub queue : Queue
  pub phase : ℕ → Phase
  pub value : ℕ → Buffer
  pub seen_free : List ℕ
  pub seen_full : List ℕ

abbrev pub update {ℓ} : {A : Type ℓ} → (ℕ → A) → ℕ → A → ℕ → A
update f p a r = if r == p then a else f r

-- The positions stay below this, so that neither they nor the sequence numbers reach 2^63: a
-- billion pushes each second take almost 300 years to get there.
abbrev pub position_limit : ℕ
position_limit = 2 ^ 63 - 2 ^ 33

-- A thread looks at the slot of a position that it has read from `tail` or `head` before, swaps, and
-- then completes its operation. Other threads act between any two of these.
pub data Step (s : System) : System → Type 0 where
  looks_free :
      (p : ℕ)
      → p ≤ s.queue.tail
      → push_look s.queue p ≡ equal
      → Step s (record s { seen_free = p ∷ s.seen_free })
  looks_full :
      (p : ℕ)
      → p ≤ s.queue.head
      → pop_look s.queue p ≡ equal
      → Step s (record s { seen_full = p ∷ s.seen_full })
  claims_tail :
      (p : ℕ) (b : Buffer) (q : Queue)
      → 0 < count p s.seen_free
      → p < position_limit
      → cas_tail s.queue p ≡ some q
      → Step s
          (record s { queue = q; phase = update s.phase p writing; value = update s.value p b })
  publishes :
      (p : ℕ)
      → s.phase p ≡ writing
      → Step s (record s { queue = publish s.queue p (s.value p); phase = update s.phase p full })
  claims_head :
      (p : ℕ) (q : Queue)
      → 0 < count p s.seen_full
      → cas_head s.queue p ≡ some q
      → Step s (record s { queue = q; phase = update s.phase p reading })
  vacates :
      (p : ℕ)
      → s.phase p ≡ reading
      → Step s (record s { queue = vacate s.queue p; phase = update s.phase p done })

pub data Reach (s : System) : System → Type 0 where
  here : Reach s s
  next : {t u : System} → Reach s t → Step t u → Reach s u
