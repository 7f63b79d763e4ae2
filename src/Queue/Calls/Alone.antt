-- ===== src/Queue/Calls/Alone.antt =====
-- One thread at the queue: it is a list of buffers, with pushes at its end and pops at its front.
use zstreamer.Common.{
  ℕ, zero, suc, ◌+◌, ◌-◌, ◌≤◌, ◌<◌, ◌≡◌, ◌≢◌, refl, sym, ap, subst, ◌∙◌, Option, some, List, [],
  ◌∷◌, arith, ◌==◌, if_intro,
}
use zstreamer.Types.{add64}
use zstreamer.Queue.{
  Queue, QueueConfig, Slot, Buffer, Diff, equal, behind, ahead, slot, create_with, push_look,
  pop_look, cas_tail, cas_head, publish, vacate, taken, size, compare_sequence,
}
use zstreamer.Queue.Threads.{
  full, reading, done, System, update, looks_full, claims_head, vacates, Reach, here, next,
}
use zstreamer.Queue.Invariant.{IsSound}
use zstreamer.Queue.Preserve.{phase-At}
use zstreamer.Queue.Looks.{compare_self}
use zstreamer.Queue.Calls.{popped, pop_round}
use zstreamer.Queue.Runs.{Reach-IsSound}
use native.Mathlib.Decide.{ℕ_discrete}

-- Between two calls of the only thread: every claimed position is published, or popped and given back.
pub record IsQuiet (s : System) : Type 0 where
  pub sound : IsSound s
  pub all_full : (p : ℕ) → s.queue.head ≤ p → p < s.queue.tail → s.phase p ≡ full
  pub all_done : (p : ℕ) → p < s.queue.head → s.phase p ≡ done

-- The buffers of the `n` positions from `i` on.
unfoldable pub values : (ℕ → Buffer) → ℕ → ℕ → List (Option Buffer)
values f zero i = []
values f (suc n) i = some (f i) ∷ values f n (suc i)

abbrev pub contents : System → List (Option Buffer)
contents s = values s.value (s.queue.tail - s.queue.head) s.queue.head

cas_head_self : (q : Queue) → cas_head q q.head ≡ some (record q { head = add64 q.head 1 })
unfolding cas_head
cas_head_self q =
    if_intro (λ x. x ≡ some (record q { head = add64 q.head 1 })) (q.head == q.head) (λ _. refl)
      (λ f. absurd (ground arith))

-- The state after the only thread has popped.
unfoldable pub after_pop : System → System
after_pop s = record {
  queue = vacate (record (s.queue) { head = add64 s.queue.head 1 }) s.queue.head;
  phase = update (update s.phase s.queue.head reading) s.queue.head done;
  value = s.value;
  seen_free = s.seen_free;
  seen_full = s.queue.head ∷ s.seen_full;
}

look_full :
    (s : System) → IsSound s → s.phase s.queue.head ≡ full → pop_look s.queue s.queue.head ≡ equal
unfolding pop_look
look_full s v e =
    let a = phase-At s s.queue.head v e in
    let no_wrap : add64 s.queue.head 1 ≡ s.queue.head + 1 = omega (arith, v.order, v.bound) in
    subst (λ n. compare_sequence n (add64 s.queue.head 1) ≡ equal) (no_wrap ∙ sym (a.2))
      (compare_self (add64 s.queue.head 1))

pub after_pop-Reach : (s : System) → IsSound s → s.phase s.queue.head ≡ full → Reach s (after_pop s)
unfolding after_pop
after_pop-Reach s v e =
    next
      (next (next here (looks_full s.queue.head (omega arith) (look_full s v e)))
        (claims_head s.queue.head _ (ground arith) (cas_head_self s.queue)))
      (vacates s.queue.head (
        if_intro (λ x. x ≡ reading) (s.queue.head == s.queue.head) (λ _. refl)
          (λ f. absurd (ground arith))))

pub after_pop-ends :
    (s : System)
    → IsSound s
    → s.queue.head < s.queue.tail
    → ((after_pop s).queue.head ≡ s.queue.head + 1) × ((after_pop s).queue.tail ≡ s.queue.tail)
unfolding after_pop vacate zstreamer.Queue.with_slot
after_pop-ends s v l = (omega (arith, v.order, v.bound), refl)

after_pop-phase : (s : System) (p : ℕ) → p ≢ s.queue.head → (after_pop s).phase p ≡ s.phase p
unfolding after_pop
after_pop-phase s p ne =
    if_intro (λ x. x ≡ s.phase p) (p == s.queue.head) (λ t. absurd (ground arith))
      (λ f.
        if_intro (λ x. x ≡ s.phase p) (p == s.queue.head) (λ t. absurd (ground arith)) (λ _. refl))

after_pop-phase_self : (s : System) → (after_pop s).phase s.queue.head ≡ done
unfolding after_pop
after_pop-phase_self s =
    if_intro (λ x. x ≡ done) (s.queue.head == s.queue.head) (λ _. refl) (λ f. absurd (ground arith))

pub after_pop-IsQuiet :
    (s : System) → IsQuiet s → s.queue.head < s.queue.tail → IsQuiet (after_pop s)
after_pop-IsQuiet s v l =
    let (h, t) = after_pop-ends s v.sound l in
    record {
      sound =
          Reach-IsSound v.sound
            (after_pop-Reach s v.sound (v.all_full s.queue.head (omega arith) l));
      all_done = λ p lo. elim (ℕ_discrete p s.queue.head) [
        | yes e ↦ subst (λ i. (after_pop s).phase i ≡ done) (sym e) (after_pop-phase_self s)
        | no ne ↦ after_pop-phase s p ne ∙ v.all_done p (omega (arith, h))
      ];
      all_full = λ p lo hi.
          after_pop-phase s p (omega (arith, h))
          ∙ v.all_full p (omega (arith, h)) (omega (arith, t));
    }

after_pop-value : (s : System) → s.value ≡ (after_pop s).value
unfolding after_pop
after_pop-value s = refl

pub pop_answer :
    (s : System)
    → IsSound s
    → s.phase s.queue.head ≡ full
    → taken (record (s.queue) { head = add64 s.queue.head 1 }) s.queue.head
      ≡ some (s.value s.queue.head)
unfolding taken slot
pop_answer s v e = (phase-At s s.queue.head v e).3

values-split :
    (f : ℕ → Buffer) (n i j k : ℕ)
    → n ≡ suc k
    → j ≡ i + 1
    → values f n i ≡ some (f i) ∷ values f k j
unfolding values
values-split f n i j k a b = rw a (rw b (ap (λ t. some (f i) ∷ values f k t) (omega arith)))

pub contents-after_pop :
    (s : System)
    → IsQuiet s
    → s.queue.head < s.queue.tail
    → contents s ≡ some (s.value s.queue.head) ∷ contents (after_pop s)
contents-after_pop s v l =
    let (h, t) = after_pop-ends s v.sound l in
    values-split s.value _ _ _ ((after_pop s).queue.tail - (after_pop s).queue.head)
      (omega (arith, h, t)) h
    ∙ ap
        (λ f.
          some (s.value s.queue.head)
          ∷ values f ((after_pop s).queue.tail - (after_pop s).queue.head) (after_pop s).queue.head)
        (after_pop-value s)

pub pop_first_lem :
    (s : System) (timeout_ms : ℕ)
    → IsQuiet s
    → s.queue.head < s.queue.tail
    → pop_round s.queue s.queue.head timeout_ms
      ≡ popped (some (s.value s.queue.head)) (after_pop s).queue
unfolding pop_round after_pop
pop_first_lem s timeout_ms v l =
    let e = v.all_full s.queue.head (omega arith) l in
    rw (look_full s v.sound e, pop_round)
      (rw (cas_head_self s.queue, pop_round)
        (ap (λ b. popped b (vacate (record (s.queue) { head = add64 s.queue.head 1 }) s.queue.head))
          (pop_answer s v.sound e)))

-- When only one thread uses the queue and a position is claimed, a pop succeeds with the first buffer
-- of the contents, and the others are left, in their order.
pub pop_first :
    (s : System) (timeout_ms : ℕ)
    → IsQuiet s
    → s.queue.head < s.queue.tail
    → (t : System) × Reach s t
      × IsQuiet t
      × (pop_round s.queue s.queue.head timeout_ms ≡ popped (some (s.value s.queue.head)) t.queue)
      × (contents s ≡ some (s.value s.queue.head) ∷ contents t)
pop_first s timeout_ms v l = (
  after_pop s,
  after_pop-Reach s v.sound (v.all_full s.queue.head (omega arith) l),
  after_pop-IsQuiet s v l,
  pop_first_lem s timeout_ms v l,
  contents-after_pop s v l,
)
