-- ===== src/Queue/Order.antt =====
-- What producers and consumers can rely on at every moment of a run from a new queue.
use zstreamer.Common.{
  ℕ, ◌+◌, ◌^◌, ◌≤◌, ◌<◌, ◌≡◌, refl, sym, ap, subst, ◌∙◌, some, arith, ◌==◌, if_intro, count,
}
use zstreamer.Queue.{
  Queue, QueueConfig, Slot, Buffer, Diff, equal, behind, ahead, slot, create_with, push_look,
  pop_look, cas_tail, cas_head, publish, vacate, taken, size, compare_sequence,
}
use zstreamer.Queue.Slots.{sequence_at}
use zstreamer.Queue.Threads.{
  Phase, fresh, writing, full, reading, done, System, position_limit, Step, looks_free, looks_full,
  claims_tail, publishes, claims_head, vacates, Reach, here, next,
}
use zstreamer.Queue.Invariant.{At, IsSound}
use zstreamer.Queue.Preserve.{phase-At}
use zstreamer.Queue.Claims.{published_head, cas_head_lem, cas_tail_lem}
use zstreamer.Queue.Runs.{opened, opened-IsSound, Step-IsSound, Reach-IsSound}

-- In every state of a run from a new queue of at most 2^31 buffers, the number that `size` reports
-- is `tail` less `head`, and it does not exceed the capacity.
pub size_bounded :
    (cfg : QueueConfig) (s : System)
    → cfg.max_buffers ≤ 2 ^ 31
    → Reach (opened cfg) s
    → (size s.queue + s.queue.head ≡ s.queue.tail) × (size s.queue ≤ s.queue.capacity)
unfolding size
size_bounded cfg s m r =
    let v = Reach-IsSound (opened-IsSound cfg m) r in
    (
      ground (arith, v.order, v.window, v.bound, v.shape.word),
      ground (arith, v.order, v.window, v.bound, v.shape.word),
    )

Step-kept :
    {s t : System} (p : ℕ)
    → Step s t
    → IsSound s
    → p < s.queue.tail
    → (p < t.queue.tail) × (t.value p ≡ s.value p)
unfolding publish vacate zstreamer.Queue.with_slot
Step-kept p (looks_free r le e) v l = (l, refl)
Step-kept p (looks_full r le e) v l = (l, refl)
Step-kept {s} p (claims_tail r b q seen lim e) v l =
    let (at_tail, moved) = cas_tail_lem s.queue q r v.bound e in
    (
      omega (arith, ap (λ (x : Queue). x.tail) moved),
      if_intro (λ x. x ≡ s.value p) (p == r) (λ k. absurd (ground arith)) (λ _. refl),
    )
Step-kept p (publishes r e) v l = (l, refl)
Step-kept {s} p (claims_head r q seen e) v l =
    let (at_head, moved) = cas_head_lem s.queue q r (omega (arith, v.order, v.bound)) e in
    (omega (arith, ap (λ (x : Queue). x.tail) moved), refl)
Step-kept p (vacates r e) v l = (l, refl)

Reach-kept :
    {s t : System} (p : ℕ)
    → Reach s t
    → IsSound s
    → p < s.queue.tail
    → (p < t.queue.tail) × (t.value p ≡ s.value p)
Reach-kept p here v l = (l, refl)
Reach-kept p (next r st) v l =
    let (k, e) = Reach-kept p r v l in
    let (k', e') = Step-kept p st (Reach-IsSound v r) k in (k', e' ∙ e)

-- The buffer that a producer gives for a position when it claims it is the one that the consumer
-- of that position takes, whatever the other threads have done in between: for a run from a new
-- queue of at most 2^31 buffers through a state in which the position `p` is claimed.
pub delivers :
    (cfg : QueueConfig) (s t : System) (p : ℕ)
    → cfg.max_buffers ≤ 2 ^ 31
    → Reach (opened cfg) s
    → p < s.queue.tail
    → Reach s t
    → t.phase p ≡ reading
    → taken t.queue p ≡ some (s.value p)
unfolding taken
delivers cfg s t p m r claimed r' e =
    let v = Reach-IsSound (opened-IsSound cfg m) r in
    let a = phase-At t p (Reach-IsSound v r') e in
    a.3 ∙ ap (λ x. some x) ((Reach-kept p r' v claimed).1)

pub fresh_tail :
    (s : System)
    → (ph : Phase) → IsSound s
    → At ph s.queue (s.value s.queue.tail) s.queue.tail
    → ph ≡ fresh
fresh_tail s fresh v a = refl
fresh_tail s writing v a = absurd (omega (arith, a.1))
fresh_tail s full v a = absurd (omega (arith, a.1))
fresh_tail s reading v a = absurd (omega (arith, a.0, v.order))
fresh_tail s done v a = absurd (omega (arith, a.0, v.order))

full-At :
    (s : System) (p : ℕ) (ph : Phase)
    → s.queue.head ≤ p
    → sequence_at s.queue p ≡ p + 1
    → (p < s.queue.tail)
    → At ph s.queue (s.value p) p
    → ph ≡ full
full-At s p fresh lo e hi a = absurd (omega (arith, a.0))
full-At s p writing lo e hi a = absurd (omega (arith, a.2))
full-At s p full lo e hi a = refl
full-At s p reading lo e hi a = absurd (omega (arith, a.0))
full-At s p done lo e hi a = absurd (omega (arith, a.0))

-- In every state of a run from a new queue of at most 2^31 buffers, below the limit of positions: a
-- producer that swaps `tail` after it saw its slot free gets the position `tail`, which no
-- thread has had, and the ring is not a whole turn ahead of `head`.
pub tail_claims :
    (cfg : QueueConfig) (s : System) (p : ℕ) (b : Buffer) (q : Queue)
    → cfg.max_buffers ≤ 2 ^ 31
    → Reach (opened cfg) s
    → 0 < count p s.seen_free
    → p < position_limit
    → cas_tail s.queue p ≡ some q
    → (p ≡ s.queue.tail)
      × (s.phase p ≡ fresh)
      × (p < s.queue.head + s.queue.capacity)
      × (q.tail ≡ p + 1)
tail_claims cfg s p b q m r seen lim e =
    let v = Reach-IsSound (opened-IsSound cfg m) r in
    let (at_tail, moved) = cas_tail_lem s.queue q p v.bound e in
    let w = (Step-IsSound (claims_tail p b q seen lim e) v).window in
    let t : q.tail ≡ p + 1 = sym (ap (λ (x : Queue). x.tail) moved) ∙ ap (λ i. i + 1) at_tail in
    let h : q.head ≡ s.queue.head = sym (ap (λ (x : Queue). x.head) moved) in
    let c : q.capacity ≡ s.queue.capacity = sym (ap (λ (x : Queue). x.capacity) moved) in
    (
      sym at_tail,
      subst (λ i. s.phase i ≡ fresh) at_tail
          (fresh_tail s (s.phase s.queue.tail) v (v.at s.queue.tail)),
      omega arith,
      t,
    )

-- In every state of a run from a new queue of at most 2^31 buffers: a consumer that swaps `head` after
-- it saw its slot published gets the position `head`, which is published and which no consumer has
-- had; so positions are consumed in the order in which producers claimed them, each once.
pub head_claims :
    (cfg : QueueConfig) (s : System) (p : ℕ) (q : Queue)
    → cfg.max_buffers ≤ 2 ^ 31
    → Reach (opened cfg) s
    → 0 < count p s.seen_full
    → cas_head s.queue p ≡ some q
    → (p ≡ s.queue.head) × (s.phase p ≡ full) × (q.head ≡ p + 1)
head_claims cfg s p q m r seen e =
    let v = Reach-IsSound (opened-IsSound cfg m) r in
    let (at_head, moved) = cas_head_lem s.queue q p (omega (arith, v.order, v.bound)) e in
    let x : sequence_at s.queue p ≡ p + 1 = (v.published p seen).1 (omega arith) in
    let a = published_head s v (subst (λ i. sequence_at s.queue i ≡ i + 1) (sym at_head) x) in
    (
      sym at_head,
      full-At s p (s.phase p) (omega arith) x (omega (arith, a.1)) (v.at p),
      sym (ap (λ (y : Queue). y.head) moved) ∙ ap (λ i. i + 1) at_head,
    )
