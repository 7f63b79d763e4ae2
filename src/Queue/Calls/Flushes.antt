-- ===== src/Queue/Calls/Flushes.antt =====
-- One thread that empties the queue.
use zstreamer.Common.{
  ℕ, zero, suc, ◌+◌, ◌-◌, ◌≤◌, ◌<◌, ◌≡◌, refl, sym, ap, ◌∙◌, inl, inr, Option, some, [], ◌∷◌, arith,
}
use zstreamer.Types.{timeout, add64}
use zstreamer.Queue.{Queue, Buffer, behind, pop_look}
use zstreamer.Queue.Slots.{compare_behind}
use zstreamer.Queue.Threads.{System, Reach, here, next}
use zstreamer.Queue.Invariant.{IsSound}
use zstreamer.Queue.Preserve.{phase-At}
use zstreamer.Queue.Looks.{head_sequence}
use zstreamer.Queue.Calls.{popped, empty, pop_round, flush}
use zstreamer.Queue.Calls.Alone.{
  IsQuiet, contents, values, after_pop, after_pop-ends, after_pop-Reach, after_pop-IsQuiet,
  pop_first_lem, contents-after_pop,
}

-- The look at the slot of `head` when nothing is claimed.
look_drained :
    (s : System) → IsSound s → s.queue.head ≡ s.queue.tail → pop_look s.queue s.queue.head ≡ behind
unfolding pop_look
look_drained s v e =
    let no_wrap : add64 s.queue.head 1 ≡ s.queue.head + 1 = omega (arith, v.order, v.bound) in
    elim (head_sequence s v) [
      | inl (_, k) ↦ absurd (omega (arith, e, (phase-At s s.queue.head v k).1))
      | inr (l, _) ↦
          compare_behind _ (add64 s.queue.head 1) (omega (arith, v.order, v.bound))
            (omega (arith, v.order, v.bound)) (omega (arith, no_wrap))
    ]

flush_stop : (fuel : ℕ) (q : Queue) → pop_round q q.head 0 ≡ empty timeout → flush fuel q ≡ ([], q)
unfolding flush
flush_stop zero q e = refl
flush_stop (suc fuel) q e = rw (e, flush) refl

flush_next :
    (fuel : ℕ) (q : Queue) (b : Option Buffer) (r : Queue)
    → pop_round q q.head 0 ≡ popped b r
    → flush (suc fuel) q ≡ (b ∷ (flush fuel r).0, (flush fuel r).1)
unfolding flush
flush_next fuel q b r e = rw (e, flush) refl

pop_drained :
    (s : System)
    → IsSound s
    → s.queue.head ≡ s.queue.tail
    → pop_round s.queue s.queue.head 0 ≡ empty timeout
unfolding pop_round
pop_drained s v e = rw (look_drained s v e, pop_round) refl

pub Reach-trans : {s t u : System} → Reach s t → Reach t u → Reach s u
Reach-trans r here = r
Reach-trans r (next r' st) = next (Reach-trans r r') st

contents_none : (s : System) → s.queue.head ≡ s.queue.tail → contents s ≡ []
unfolding values
contents_none s e =
    let none_left : s.queue.tail - s.queue.head ≡ 0 = omega arith in rw none_left refl

-- When only one thread uses the queue, `flush` pops all its buffers, in their order, and stops: it
-- needs no more rounds than there are claimed positions, and leaves no position claimed.
pub flush_empties :
    (s : System) (n fuel : ℕ)
    → IsQuiet s
    → s.queue.tail ≡ s.queue.head + n
    → n ≤ fuel
    → (t : System) × Reach s t
      × (flush fuel s.queue ≡ (contents s, t.queue))
      × (t.queue.head ≡ t.queue.tail)
flush_empties s zero fuel v e l =
    let ends : s.queue.head ≡ s.queue.tail = omega arith in
    (
      s,
      here,
      flush_stop fuel s.queue (pop_drained s v.sound ends)
          ∙ ap (λ bs. (bs, s.queue)) (sym (contents_none s ends)),
      ends,
    )
flush_empties s (suc n) zero v e l = absurd (omega arith)
flush_empties s (suc n) (suc fuel) v e l =
    let some_left : s.queue.head < s.queue.tail = omega arith in
    let (h, t) = after_pop-ends s v.sound some_left in
    let (u, r, f, z) =
      flush_empties (after_pop s) n fuel (after_pop-IsQuiet s v some_left) (omega (arith, h, t))
        (omega arith) in
    let r' = after_pop-Reach s v.sound (v.all_full s.queue.head (omega arith) some_left) in
    let p = pop_first_lem s 0 v some_left in
    let c = contents-after_pop s v some_left in
    (
      u,
      Reach-trans r' r,
      flush_next fuel s.queue _ _ p
          ∙ ap (λ x. (some (s.value s.queue.head) ∷ x.0, x.1)) f
          ∙ ap (λ bs. (bs, u.queue)) (sym c),
      z,
    )
