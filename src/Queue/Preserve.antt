-- ===== src/Queue/Preserve.antt =====
-- The stores of producers and consumers keep the invariant of the ring.
use zstreamer.Common.{
  ℕ, ◌+◌, ◌≤◌, ◌<◌, ◌≡◌, ◌≢◌, sym, ap, subst, ◌∙◌, ◌⊎◌, inl, inr, arith, ◌==◌, if_intro,
}
use zstreamer.Queue.{Queue, Slot, Buffer, slot, with_slot, publish, vacate}
use zstreamer.Queue.Slots.{Shape, sequence_at, slot_turn}
use zstreamer.Queue.Threads.{Phase, fresh, writing, full, reading, done, System, update}
use zstreamer.Queue.Invariant.{At, IsSound}
use zstreamer.Queue.Stores.{
  stored, IsLive, slot-stored_self, slot-stored_ne, stored-Shape, stored-At,
}
use native.Mathlib.Decide.{ℕ_discrete, dec_lt}

-- After a store at `p` a slot that was seen free, or published, at the next position is so still.
next_free :
    (q : Queue) (p : ℕ) (s : Slot) (bytes r : ℕ)
    → Shape q
    → IsLive q p
    → sequence_at q p ≤ p + 1
    → (r ≤ q.tail) × (q.tail ≤ r → sequence_at q r ≡ r)
    → (r ≤ q.tail) × (q.tail ≤ r → sequence_at (stored q p s bytes) r ≡ r)
next_free q p s bytes r v l old (le, f) = (
  le,
  λ at_tail. elim (ℕ_discrete r (p + q.capacity)) [
    | yes e ↦ absurd (
        omega
          (arith, f at_tail, ap (sequence_at q) e, ap (λ (x : Slot). x.sequence) (slot_turn p v)))
    | no ne ↦
        ap (λ (x : Slot). x.sequence)
          (slot-stored_ne q p s bytes v r (λ e. absurd (omega arith)) (omega arith) (omega arith))
        ∙ f at_tail
  ],
)

next_full :
    (q : Queue) (p : ℕ) (s : Slot) (bytes r : ℕ)
    → Shape q
    → q.head ≤ q.tail
    → q.tail ≤ q.head + q.capacity
    → IsLive q p
    → ((q.head ≤ p) × (sequence_at q p ≡ p)) ⊎ ((p < q.head) × (sequence_at q p ≡ p + 1))
    → (r ≤ q.head) × (q.head ≤ r → sequence_at q r ≡ r + 1)
    → (r ≤ q.head) × (q.head ≤ r → sequence_at (stored q p s bytes) r ≡ r + 1)
next_full q p s bytes r v o w l (inl (lo, e)) (le, f) = (
  le,
  λ at_head. elim (ℕ_discrete r p) [
    | yes same ↦ absurd (omega (arith, f at_head, ap (sequence_at q) same))
    | no ne ↦
        ap (λ (x : Slot). x.sequence)
          (slot-stored_ne q p s bytes v r ne (omega arith) (omega arith))
        ∙ f at_head
  ],
)
next_full q p s bytes r v o w l (inr (lo, e)) (le, f) = (
  le,
  λ at_head. elim (ℕ_discrete r (p + q.capacity)) [
    | yes same ↦ absurd (
        omega (
          arith,
          f at_head,
          ap (sequence_at q) same,
          ap (λ (x : Slot). x.sequence) (slot_turn p v),
        ))
    | no ne ↦
        ap (λ (x : Slot). x.sequence)
          (slot-stored_ne q p s bytes v r (λ e. absurd (omega arith)) (omega arith) (omega arith))
        ∙ f at_head
  ],
)

-- What holds of all positions after a store that ends the phase `writing` or `reading` of `p`.
store-IsSound :
    (s : System) (p : ℕ) (new : Phase) (x : Slot) (bytes : ℕ)
    → IsSound s
    → IsLive s.queue p
    → ((s.queue.head ≤ p) × (sequence_at s.queue p ≡ p))
      ⊎ ((p < s.queue.head) × (sequence_at s.queue p ≡ p + 1))
    → At new (stored s.queue p x bytes) (s.value p) p
    → IsSound (record s { queue = stored s.queue p x bytes; phase = update s.phase p new })
unfolding stored with_slot
store-IsSound s p new x bytes v l old a = record {
  shape = stored-Shape s.queue p x bytes v.shape;
  order = v.order;
  window = v.window;
  bound = v.bound;
  at = λ r. elim (ℕ_discrete r p) [
    | yes e ↦
        subst (λ i. At (update s.phase p new i) (stored s.queue p x bytes) (s.value i) i) (sym e)
          (if_intro (λ ph. At ph (stored s.queue p x bytes) (s.value p) p) (p == p) (λ _. a)
            (λ ne. absurd (ground arith)))
    | no ne ↦
        if_intro (λ ph. At ph (stored s.queue p x bytes) (s.value r) r) (r == p)
          (λ e. absurd (ground arith))
          (λ _.
            stored-At s.queue p x bytes v.shape (s.phase r) (s.value r) r v.order v.window l ne
              (v.at r))
  ];
  free = λ r h. next_free s.queue p x bytes r v.shape l (omega arith) (v.free r h);
  published = λ r h. next_full s.queue p x bytes r v.shape v.order v.window l old (v.published r h);
}

-- What the phase of `p` says.
pub phase-At :
    (s : System) (p : ℕ) {ph : Phase} → IsSound s → s.phase p ≡ ph → At ph s.queue (s.value p) p
phase-At s p v e = subst (λ ph. At ph s.queue (s.value p) p) e (v.at p)

pub publish-IsSound :
    (s : System) (p : ℕ)
    → IsSound s
    → s.phase p ≡ writing
    → IsSound (record s { queue = publish s.queue p (s.value p); phase = update s.phase p full })
unfolding publish stored
publish-IsSound s p v e =
    let a = phase-At s p v e in
    store-IsSound s p full _ _ v (a.1, omega (arith, v.window)) (inl (a.0, a.2))
      (
        a.0,
        a.1,
        ap (λ (x : Slot). x.sequence) (slot-stored_self s.queue p _ _ v.shape)
            ∙ omega (arith, v.bound),
        ap (λ (x : Slot). x.buf) (slot-stored_self s.queue p _ _ v.shape),
      )

pub vacate-IsSound :
    (s : System) (p : ℕ)
    → IsSound s
    → s.phase p ≡ reading
    → IsSound (record s { queue = vacate s.queue p; phase = update s.phase p done })
unfolding vacate stored
vacate-IsSound s p v e =
    let a = phase-At s p v e in
    store-IsSound s p done _ _ v (omega (arith, v.order), a.1) (inr (a.0, a.2))
      (
        a.0,
        λ _.
            ap (λ (x : Slot). x.sequence) (slot-stored_self s.queue p _ _ v.shape)
            ∙ omega (arith, v.bound, v.shape.word, v.order),
      )

-- A position that has no buffer yet, and whose slot is as its producer wants it, is free to claim:
-- no consumer is in the slot, and the ring is not a full turn ahead.
pub claimed_window :
    (s : System) (ph : Phase)
    → IsSound s
    → At ph s.queue (s.value s.queue.head) s.queue.head
    → sequence_at s.queue s.queue.tail ≡ s.queue.tail
    → s.queue.tail < s.queue.head + s.queue.capacity
claimed_window s ph v a free = elim (dec_lt s.queue.tail (s.queue.head + s.queue.capacity)) [
  | yes h ↦ h
  | no h ↦ absurd (stuck ph a (omega (arith, v.window)))
]
  where
    stuck :
        (ph : Phase)
        → At ph s.queue (s.value s.queue.head) s.queue.head
        → s.queue.tail ≡ s.queue.head + s.queue.capacity
        → ⊥
    stuck fresh b e = omega (arith, b.0, v.shape.two)
    stuck writing b e = omega (
      arith,
      b.2,
      free,
      ap (sequence_at s.queue) e,
      ap (λ (x : Slot). x.sequence) (slot_turn s.queue.head v.shape),
      v.shape.two,
    )
    stuck full b e = omega (
      arith,
      b.2,
      free,
      ap (sequence_at s.queue) e,
      ap (λ (x : Slot). x.sequence) (slot_turn s.queue.head v.shape),
      v.shape.two,
    )
    stuck reading b e = omega (arith, b.0)
    stuck done b e = omega (arith, b.0)

-- After the claim of the tail, of every other position.
pub claimed_tail-At :
    (q : Queue) (ph : Phase) (b : Buffer) (r : ℕ)
    → Shape q
    → sequence_at q q.tail ≡ q.tail
    → r ≢ q.tail
    → At ph q b r
    → At ph (record q { tail = q.tail + 1 }) b r
unfolding slot
claimed_tail-At q fresh b r v free ne (lo, f) = (omega arith, f)
claimed_tail-At q writing b r v free ne (lo, hi, f) = (lo, omega arith, f)
claimed_tail-At q full b r v free ne (lo, hi, f, g) = (lo, omega arith, f, g)
claimed_tail-At q reading b r v free ne (lo, hi, f, g) = (
  lo,
  elim (ℕ_discrete q.tail (r + q.capacity)) [
    | yes e ↦ absurd (
        omega (
          arith,
          v.two,
          f,
          free,
          ap (sequence_at q) e,
          ap (λ (x : Slot). x.sequence) (slot_turn r v),
        ))
    | no n ↦ omega arith
  ],
  f,
  g,
)
claimed_tail-At q done b r v free ne (lo, f) = (lo, λ hi. f (omega arith))
