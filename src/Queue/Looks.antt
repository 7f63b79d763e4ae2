-- ===== src/Queue/Looks.antt =====
-- When a producer or a consumer is held up, in a run from a new queue.
use zstreamer.Common.{
  ℕ, ◌+◌, ◌-◌, ◌^◌, ◌≤◌, ◌<◌, ◌≡◌, ◌≢◌, refl, sym, ap, subst, ◌∙◌, ◌⊎◌, inl, inr, arith, ◌==◌,
  if_intro,
}
use zstreamer.Queue.{QueueConfig, Slot, equal, behind, push_look, pop_look, compare_sequence}
use zstreamer.Queue.Slots.{sequence_at, slot_turn, compare_behind}
use zstreamer.Queue.Threads.{Phase, fresh, writing, full, reading, done, System, Reach}
use zstreamer.Queue.Invariant.{At, IsSound}
use zstreamer.Queue.Runs.{opened, opened-IsSound, Reach-IsSound}
use zstreamer.Types.{add64}
use native.Mathlib.Decide.{dec_lt}
use zstreamer.Queue.Order.{fresh_tail}

pub compare_self : (a : ℕ) → compare_sequence a a ≡ equal
unfolding compare_sequence
compare_self a = if_intro (λ d. d ≡ equal) (a == a) (λ t. refl) (λ f. absurd (ground arith))

-- The position a whole turn before `p` that is not yet given back, if there is one.
abbrev pub IsHeld : System → ℕ → Type 0
IsHeld s p = (g : ℕ) × (g + s.queue.capacity ≡ p) × (s.phase g ≢ done)

pub tail_sequence :
    (s : System)
    → IsSound s
    → (sequence_at s.queue s.queue.tail ≡ s.queue.tail)
      ⊎ ((sequence_at s.queue s.queue.tail < s.queue.tail) × IsHeld s s.queue.tail)
tail_sequence s v = elim (dec_lt t c) [
  | yes l ↦ inl (first (s.phase t) (v.at t) (fresh_tail s (s.phase t) v (v.at t)) l)
  | no g ↦ turn (t - c) (s.phase (t - c)) (omega arith) refl (v.at (t - c))
]
  where
    t : ℕ
    t = s.queue.tail

    c : ℕ
    c = s.queue.capacity

    first :
        (ph : Phase) → At ph s.queue (s.value t) t → ph ≡ fresh → t < c → sequence_at s.queue t ≡ t
    first fresh a e l = a.1 l
    first writing a e l = absurd (cc (e))
    first full a e l = absurd (cc (e))
    first reading a e l = absurd (cc (e))
    first done a e l = absurd (cc (e))

    held :
        (g : ℕ)
        → g + c ≡ t
        → sequence_at s.queue g < t
        → s.phase g ≢ done
        → (sequence_at s.queue t < t) × IsHeld s t
    held g e l ne = (
      omega
          (arith, ap (sequence_at s.queue) e, ap (λ (x : Slot). x.sequence) (slot_turn g v.shape)),
      (g, e, ne),
    )

    turn :
        (g : ℕ) (ph : Phase)
        → g + c ≡ t
        → s.phase g ≡ ph
        → At ph s.queue (s.value g) g
        → (sequence_at s.queue t ≡ t) ⊎ ((sequence_at s.queue t < t) × IsHeld s t)
    turn g fresh e k a = absurd (omega (arith, a.0, v.shape.two))
    turn g writing e k a = inr (held g e (omega (arith, a.2, v.shape.two)) (λ d. cc (k, d)))
    turn g full e k a = inr (held g e (omega (arith, a.2, v.shape.two)) (λ d. cc (k, d)))
    turn g reading e k a = inr (held g e (omega (arith, a.2, v.shape.two)) (λ d. cc (k, d)))
    turn g done e k a = inl (
        omega (
          arith,
          a.1 (omega arith),
          ap (sequence_at s.queue) e,
          ap (λ (x : Slot). x.sequence) (slot_turn g v.shape),
        ))

pub head_sequence :
    (s : System)
    → IsSound s
    → ((sequence_at s.queue s.queue.head ≡ s.queue.head + 1) × (s.phase s.queue.head ≡ full))
      ⊎ ((sequence_at s.queue s.queue.head < s.queue.head + 1)
          × ((s.phase s.queue.head ≡ fresh) ⊎ (s.phase s.queue.head ≡ writing)))
head_sequence s v = now (s.phase h) refl (v.at h)
  where
    h : ℕ
    h = s.queue.head

    c : ℕ
    c = s.queue.capacity

    back :
        (g : ℕ) (ph : Phase)
        → g + c ≡ h
        → s.queue.tail ≡ h
        → At ph s.queue (s.value g) g
        → sequence_at s.queue h < h + 1
    back g fresh i t a = absurd (omega (arith, v.shape.two, a.0))
    back g writing i t a = absurd (omega (arith, v.shape.two, a.0))
    back g full i t a = absurd (omega (arith, v.shape.two, a.0))
    back g reading i t a = omega (
      arith,
      v.shape.two,
      a.2,
      ap (sequence_at s.queue) i,
      ap (λ (x : Slot). x.sequence) (slot_turn g v.shape),
    )
    back g done i t a = omega (
      arith,
      a.1,
      ap (sequence_at s.queue) i,
      ap (λ (x : Slot). x.sequence) (slot_turn g v.shape),
    )

    now :
        (ph : Phase)
        → s.phase h ≡ ph
        → At ph s.queue (s.value h) h
        → ((sequence_at s.queue h ≡ h + 1) × (s.phase h ≡ full))
          ⊎ ((sequence_at s.queue h < h + 1) × ((s.phase h ≡ fresh) ⊎ (s.phase h ≡ writing)))
    now fresh k a = inr (
      elim (dec_lt h c) [
        | yes l ↦ omega (arith, a.1 l)
        | no l ↦
            back (h - c) (s.phase (h - c)) (omega arith) (omega (arith, a.0, v.order))
              (v.at (h - c))
      ],
      inl k,
    )
    now writing k a = inr (omega (arith, a.2), inr k)
    now full k a = inl (a.2, k)
    now reading k a = absurd (omega (arith, a.0))
    now done k a = absurd (omega (arith, a.0))

-- In every state of a run from a new queue of at most 2^31 buffers, a producer that looks at the
-- position `tail` finds its slot free, or finds it behind; never ahead. It is behind, which is when
-- `push` waits, fails or times out, only if the position a whole turn before is not yet given
-- back by its consumer.
pub push_looks :
    (cfg : QueueConfig) (s : System)
    → cfg.max_buffers ≤ 2 ^ 31
    → Reach (opened cfg) s
    → (push_look s.queue s.queue.tail ≡ equal)
      ⊎ ((push_look s.queue s.queue.tail ≡ behind) × IsHeld s s.queue.tail)
unfolding push_look
push_looks cfg s m r =
    let v = Reach-IsSound (opened-IsSound cfg m) r in
    elim (tail_sequence s v) [
      | inl e ↦
          inl (
            subst (λ a. compare_sequence a s.queue.tail ≡ equal) (sym e)
              (compare_self s.queue.tail))
      | inr (l, held) ↦
          inr (
            compare_behind _ s.queue.tail (omega (arith, v.bound)) (omega (arith, v.bound)) l,
            held,
          )
    ]

-- In every state of a run from a new queue of at most 2^31 buffers, a consumer that looks at the
-- position `head` finds it published exactly if its producer has published it, and else behind, never
-- ahead: then the position is not claimed by any producer, or its producer is still storing.
pub pop_looks :
    (cfg : QueueConfig) (s : System)
    → cfg.max_buffers ≤ 2 ^ 31
    → Reach (opened cfg) s
    → ((pop_look s.queue s.queue.head ≡ equal) × (s.phase s.queue.head ≡ full))
      ⊎ ((pop_look s.queue s.queue.head ≡ behind)
          × ((s.phase s.queue.head ≡ fresh) ⊎ (s.phase s.queue.head ≡ writing)))
unfolding pop_look
pop_looks cfg s m r =
    let v = Reach-IsSound (opened-IsSound cfg m) r in
    let no_wrap : add64 s.queue.head 1 ≡ s.queue.head + 1 = omega (arith, v.order, v.bound) in
    elim (head_sequence s v) [
      | inl (e, k) ↦ inl (
        subst (λ a. compare_sequence a (add64 s.queue.head 1) ≡ equal) (no_wrap ∙ sym e)
            (compare_self (add64 s.queue.head 1)),
        k,
      )
      | inr (l, k) ↦ inr (
        compare_behind _ (add64 s.queue.head 1) (omega (arith, v.order, v.bound))
            (omega (arith, v.order, v.bound)) (omega (arith, no_wrap)),
        k,
      )
    ]
