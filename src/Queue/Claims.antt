-- ===== src/Queue/Claims.antt =====
-- The claims of positions, and that they keep the invariant of the ring.
use zstreamer.Common.{
  ℕ, ◌+◌, ◌-◌, ◌≤◌, ◌<◌, ◌≡◌, ◌≢◌, sym, ap, subst, inl, inr, some, arith, ◌==◌, if_intro, count,
  Bool-cases,
}
use zstreamer.Queue.{Queue, Slot, Buffer, slot, cas_tail, cas_head}
use zstreamer.Queue.Slots.{Shape, sequence_at, slot_turn}
use zstreamer.Queue.Threads.{
  Phase, fresh, writing, full, reading, done, System, update, position_limit,
}
use zstreamer.Queue.Invariant.{At, IsSound}
use zstreamer.Queue.Preserve.{claimed_window, claimed_tail-At}
use native.Mathlib.Decide.{ℕ_discrete, dec_lt}

abbrev sequence : Slot → ℕ
sequence x = x.sequence

-- If the slot of the next position to consume is published, so is the position.
pub published_head :
    (s : System)
    → IsSound s
    → sequence_at s.queue s.queue.head ≡ s.queue.head + 1
    → At full s.queue (s.value s.queue.head) s.queue.head
published_head s v e = now (s.phase h) (v.at h)
  where
    h : ℕ
    h = s.queue.head

    c : ℕ
    c = s.queue.capacity

    back : (g : ℕ) → g + c ≡ h → s.queue.tail ≡ h → (ph : Phase) → At ph s.queue (s.value g) g → ⊥
    back g i t fresh a = omega (arith, v.shape.two, a.0)
    back g i t writing a = omega (arith, v.shape.two, a.0)
    back g i t full a = omega (arith, v.shape.two, a.0)
    back g i t reading a =
        omega (
          arith,
          v.shape.two,
          a.2,
          e,
          ap (sequence_at s.queue) i,
          ap sequence (slot_turn g v.shape),
        )
    back g i t done a =
        omega (arith, a.1, e, ap (sequence_at s.queue) i, ap sequence (slot_turn g v.shape))

    now : (ph : Phase) → At ph s.queue (s.value h) h → At full s.queue (s.value h) h
    now fresh a = elim (dec_lt h c) [
      | yes l ↦ absurd (omega (arith, a.1 l))
      | no l ↦ absurd (
          back (h - c) (omega arith) (omega (arith, a.0, v.order)) (s.phase (h - c)) (v.at (h - c)))
    ]
    now writing a = absurd (omega (arith, a.2))
    now full a = a
    now reading a = absurd (omega (arith, a.0))
    now done a = absurd (omega (arith, a.0))

-- After the claim of the head, of every other position.
claimed_head-At :
    (q : Queue) (ph : Phase) (b : Buffer) (r : ℕ)
    → r ≢ q.head
    → At ph q b r
    → At ph (record q { head = q.head + 1 }) b r
unfolding slot
claimed_head-At q fresh b r ne a = a
claimed_head-At q writing b r ne (lo, hi, f) = (omega arith, hi, f)
claimed_head-At q full b r ne (lo, hi, f, g) = (omega arith, hi, f, g)
claimed_head-At q reading b r ne (lo, hi, f, g) = (omega arith, hi, f, g)
claimed_head-At q done b r ne (lo, f) = (omega arith, f)

same-Shape : (q : Queue) (head tail : ℕ) → Shape q → Shape (record q { head = head; tail = tail })
same-Shape q head tail v = record {
  exponent = v.exponent;
  power = v.power;
  two = v.two;
  word = v.word;
  slots = v.slots;
}

-- The phases after the claim of `p`: that of `p` is new, the others are as they were.
updated-At :
    (s : System) (p : ℕ) (new : Phase) (q : Queue)
    → At new q (s.value p) p
    → ((r : ℕ) → r ≢ p → At (s.phase r) q (s.value r) r)
    → (r : ℕ) → At (update s.phase p new r) q (s.value r) r
updated-At s p new q a others r = elim (ℕ_discrete r p) [
  | yes e ↦
      subst (λ i. At (update s.phase p new i) q (s.value i) i) (sym e)
        (if_intro (λ ph. At ph q (s.value p) p) (p == p) (λ _. a) (λ ne. absurd (ground arith)))
  | no ne ↦
      if_intro (λ ph. At ph q (s.value r) r) (r == p) (λ e. absurd (ground arith))
        (λ _. others r ne)
]

head_claimed :
    (s : System)
    → IsSound s
    → sequence_at s.queue s.queue.head ≡ s.queue.head + 1
    → IsSound (record s {
      queue = record (s.queue) { head = s.queue.head + 1 };
      phase = update s.phase s.queue.head reading;
    })
unfolding slot
head_claimed s v e =
    let a = published_head s v e in
    record {
      shape = same-Shape s.queue _ _ v.shape;
      order = omega (arith, a.1);
      window = omega (arith, v.window);
      bound = v.bound;
      at =
          updated-At s s.queue.head reading _ (omega arith, v.window, a.2, a.3)
            (λ r ne. claimed_head-At s.queue (s.phase r) (s.value r) r ne (v.at r));
      free = v.free;
      published =
          λ r h. let o = v.published r h in (omega (arith, o.0), λ k. absurd (omega (arith, o.0)));
    }

pub cas_head_lem :
    (q q' : Queue) (p : ℕ)
    → q.head ≤ position_limit
    → cas_head q p ≡ some q'
    → (q.head ≡ p) × (record q { head = q.head + 1 } ≡ q')
unfolding cas_head
cas_head_lem q q' p lim e = elim (Bool-cases (q.head == p)) [
  | inl t ↦ (ground arith, ground arith)
  | inr f ↦ absurd (ground arith)
]

pub claims_head-IsSound :
    (s : System) (p : ℕ) (q : Queue)
    → IsSound s
    → 0 < count p s.seen_full
    → cas_head s.queue p ≡ some q
    → IsSound (record s { queue = q; phase = update s.phase p reading })
claims_head-IsSound s p q v seen e =
    let (at_head, moved) = cas_head_lem s.queue q p (omega (arith, v.order, v.bound)) e in
    let o = v.published p seen in
    let seen_head : sequence_at s.queue s.queue.head ≡ s.queue.head + 1 =
      subst (λ r. sequence_at s.queue r ≡ r + 1) (sym at_head) (o.1 (omega arith)) in
    subst (λ r. IsSound (record s { queue = q; phase = update s.phase r reading })) at_head
      (subst (λ x. IsSound (record s { queue = x; phase = update s.phase s.queue.head reading }))
        moved (head_claimed s v seen_head))

tail_claimed :
    (s : System) (b : Buffer)
    → IsSound s
    → s.queue.tail < position_limit
    → sequence_at s.queue s.queue.tail ≡ s.queue.tail
    → IsSound (record s {
      queue = record (s.queue) { tail = s.queue.tail + 1 };
      phase = update s.phase s.queue.tail writing;
      value = update s.value s.queue.tail b;
    })
unfolding slot
tail_claimed s b v lim e = record {
  shape = same-Shape s.queue _ _ v.shape;
  order = omega (arith, v.order);
  window = omega (arith, claimed_window s (s.phase s.queue.head) v (v.at s.queue.head) e);
  bound = omega arith;
  at =
      updated-At (record s { value = update s.value s.queue.tail b }) s.queue.tail writing _
        (v.order, omega arith, e)
        (λ r ne.
          if_intro (λ x. At (s.phase r) (record (s.queue) { tail = s.queue.tail + 1 }) x r)
            (r == s.queue.tail) (λ k. absurd (ground arith))
            (λ _. claimed_tail-At s.queue (s.phase r) (s.value r) r v.shape e ne (v.at r)));
  free = λ r h. let o = v.free r h in (omega (arith, o.0), λ k. absurd (omega (arith, o.0)));
  published = v.published;
}

pub cas_tail_lem :
    (q q' : Queue) (p : ℕ)
    → q.tail ≤ position_limit
    → cas_tail q p ≡ some q'
    → (q.tail ≡ p) × (record q { tail = q.tail + 1 } ≡ q')
unfolding cas_tail
cas_tail_lem q q' p lim e = elim (Bool-cases (q.tail == p)) [
  | inl t ↦ (ground arith, ground arith)
  | inr f ↦ absurd (ground arith)
]

pub claims_tail-IsSound :
    (s : System) (p : ℕ) (b : Buffer) (q : Queue)
    → IsSound s
    → 0 < count p s.seen_free
    → p < position_limit
    → cas_tail s.queue p ≡ some q
    → IsSound (record s { queue = q; phase = update s.phase p writing; value = update s.value p b })
claims_tail-IsSound s p b q v seen lim e =
    let (at_tail, moved) = cas_tail_lem s.queue q p v.bound e in
    let o = v.free p seen in
    let seen_tail : sequence_at s.queue s.queue.tail ≡ s.queue.tail =
      subst (λ r. sequence_at s.queue r ≡ r) (sym at_tail) (o.1 (omega arith)) in
    subst
      (λ r.
        IsSound
          (record s { queue = q; phase = update s.phase r writing; value = update s.value r b }))
      at_tail
      (subst
        (λ x. IsSound (record s {
          queue = x;
          phase = update s.phase s.queue.tail writing;
          value = update s.value s.queue.tail b;
        }))
        moved (tail_claimed s b v (omega arith) seen_tail))
