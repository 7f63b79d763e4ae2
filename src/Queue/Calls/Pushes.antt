-- ===== src/Queue/Calls/Pushes.antt =====
-- One thread that pushes: the buffer is added at the end, or the push is refused.
use zstreamer.Common.{
  ℕ, zero, suc, ◌+◌, ◌-◌, ◌<◌, ◌≡◌, ◌≢◌, refl, sym, ap, subst, ◌∙◌, inl, inr, false, some, [], ◌∷◌,
  ◌++◌, arith, ◌==◌, if◌then◌else◌, if_intro, ◌&&◌,
}
use zstreamer.Types.{error, timeout, add64}
use zstreamer.Queue.{
  Queue, QueueConfig, QueueMode, sync, async, Slot, Buffer, Diff, equal, behind, ahead, slot,
  create_with, push_look, pop_look, cas_tail, cas_head, publish, vacate, taken, size,
  compare_sequence,
}
use zstreamer.Queue.Slots.{slot_turn, sequence_at, compare_behind}
use zstreamer.Queue.Threads.{
  writing, full, System, update, position_limit, looks_free, claims_tail, publishes, Reach, here,
  next,
}
use zstreamer.Queue.Invariant.{At}
use zstreamer.Queue.Preserve.{phase-At}
use zstreamer.Queue.Looks.{compare_self, tail_sequence}
use zstreamer.Queue.Calls.{push_round, stored, refused, waits, refuse_push, is_full}
use zstreamer.Queue.Runs.{Reach-IsSound}
use native.Mathlib.Decide.{ℕ_discrete}
use zstreamer.Queue.Calls.Alone.{IsQuiet, values, contents}

cas_tail_self : (q : Queue) → cas_tail q q.tail ≡ some (record q { tail = add64 q.tail 1 })
unfolding cas_tail
cas_tail_self q =
    if_intro (λ x. x ≡ some (record q { tail = add64 q.tail 1 })) (q.tail == q.tail) (λ _. refl)
      (λ f. absurd (ground arith))

-- The state after the only thread has pushed `b`.
unfoldable pub after_push : System → Buffer → System
after_push s b = record {
  queue =
      publish (record (s.queue) { tail = add64 s.queue.tail 1 }) s.queue.tail
        (update s.value s.queue.tail b s.queue.tail);
  phase = update (update s.phase s.queue.tail writing) s.queue.tail full;
  value = update s.value s.queue.tail b;
  seen_free = s.queue.tail ∷ s.seen_free;
  seen_full = s.seen_full;
}

pub update_self : {A : Type 0} (f : ℕ → A) (p : ℕ) (a : A) → update f p a p ≡ a
update_self f p a = if_intro (λ x. x ≡ a) (p == p) (λ _. refl) (λ e. absurd (ground arith))

update_ne : {A : Type 0} (f : ℕ → A) (p r : ℕ) (a : A) → r ≢ p → update f p a r ≡ f r
update_ne f p r a ne = if_intro (λ x. x ≡ f r) (r == p) (λ e. absurd (ground arith)) (λ _. refl)

-- The slot of `tail` is free when the ring is less than a whole turn ahead.
look_free :
    (s : System)
    → IsQuiet s
    → s.queue.tail < s.queue.head + s.queue.capacity
    → push_look s.queue s.queue.tail ≡ equal
unfolding push_look
look_free s v l = elim (tail_sequence s v.sound) [
  | inl e ↦ subst (λ a. compare_sequence a s.queue.tail ≡ equal) (sym e) (compare_self s.queue.tail)
  | inr (_, (g, e, ne)) ↦ absurd (ne (v.all_done g (omega arith)))
]

pub look_taken :
    (s : System)
    → IsQuiet s
    → s.queue.tail ≡ s.queue.head + s.queue.capacity
    → push_look s.queue s.queue.tail ≡ behind
unfolding push_look
look_taken s v e =
    let a =
      phase-At s s.queue.head v.sound
        (v.all_full s.queue.head (omega arith) (omega (arith, v.sound.shape.two))) in
    compare_behind _ s.queue.tail (omega (arith, below a, v.sound.bound))
      (omega (arith, v.sound.bound)) (below a)
  where
    below :
        At full s.queue (s.value s.queue.head) s.queue.head
        → sequence_at s.queue s.queue.tail < s.queue.tail
    below a = omega (
      arith,
      a.2,
      ap (sequence_at s.queue) e,
      ap (λ (x : Slot). x.sequence) (slot_turn s.queue.head v.sound.shape),
      v.sound.shape.two,
    )

-- When only one thread uses the queue and every slot of the ring holds a buffer, a push is refused: at
-- once with an error in asynchronous mode, with a timeout if that is 0, and else it waits.
pub push_refused :
    (s : System) (b : Buffer) (timeout_ms : ℕ)
    → IsQuiet s
    → s.queue.tail ≡ s.queue.head + s.queue.capacity
    → push_round s.queue s.queue.tail b timeout_ms ≡ elim s.queue.cfg.mode [
      | async ↦ refused error
      | sync ↦ if timeout_ms == 0 then refused timeout else waits
    ]
unfolding push_round refuse_push
push_refused s b timeout_ms v e = rw (look_taken s v e, push_round) refl

after_push-Reach :
    (s : System) (b : Buffer)
    → IsQuiet s
    → s.queue.tail < s.queue.head + s.queue.capacity
    → s.queue.tail < position_limit
    → Reach s (after_push s b)
unfolding after_push
after_push-Reach s b v l lim =
    next
      (next (next here (looks_free s.queue.tail (omega arith) (look_free s v l)))
        (claims_tail s.queue.tail b _ (ground arith) lim (cas_tail_self s.queue)))
      (publishes s.queue.tail (update_self s.phase s.queue.tail writing))

pub after_push-ends :
    (s : System) (b : Buffer)
    → s.queue.tail < position_limit
    → ((after_push s b).queue.head ≡ s.queue.head)
      × ((after_push s b).queue.tail ≡ s.queue.tail + 1)
unfolding after_push publish zstreamer.Queue.with_slot
after_push-ends s b l = (refl, omega arith)

after_push-phase :
    (s : System) (b : Buffer) (p : ℕ) → p ≢ s.queue.tail → (after_push s b).phase p ≡ s.phase p
unfolding after_push
after_push-phase s b p ne =
    update_ne (update s.phase s.queue.tail writing) s.queue.tail p full ne
    ∙ update_ne s.phase s.queue.tail p writing ne

after_push-phase_self : (s : System) (b : Buffer) → (after_push s b).phase s.queue.tail ≡ full
unfolding after_push
after_push-phase_self s b = update_self (update s.phase s.queue.tail writing) s.queue.tail full

pub after_push-IsQuiet :
    (s : System) (b : Buffer)
    → IsQuiet s
    → s.queue.tail < s.queue.head + s.queue.capacity
    → s.queue.tail < position_limit
    → IsQuiet (after_push s b)
after_push-IsQuiet s b v l lim =
    let (h, t) = after_push-ends s b lim in
    record {
      sound = Reach-IsSound v.sound (after_push-Reach s b v l lim);
      all_done = λ p lo.
          after_push-phase s b p (omega (arith, h, v.sound.order))
          ∙ v.all_done p (omega (arith, h));
      all_full = λ p lo hi. elim (ℕ_discrete p s.queue.tail) [
        | yes e ↦ subst (λ i. (after_push s b).phase i ≡ full) (sym e) (after_push-phase_self s b)
        | no ne ↦ after_push-phase s b p ne ∙ v.all_full p (omega (arith, h)) (omega (arith, t))
      ];
    }

values-append :
    (f : ℕ → Buffer) (n i : ℕ) → values f (suc n) i ≡ values f n i ++ (some (f (i + n)) ∷ [])
unfolding values
values-append f zero i = ap (λ r. some (f r) ∷ []) (omega arith)
values-append f (suc n) i =
    ap (λ bs. some (f i) ∷ bs)
      (values-append f n (suc i) ∙ ap (λ r. values f n (suc i) ++ (some (f r) ∷ [])) (omega arith))

values-agree :
    (f g : ℕ → Buffer) (n i : ℕ) → ((r : ℕ) → r < i + n → f r ≡ g r) → values f n i ≡ values g n i
unfolding values
values-agree f g zero i e = refl
values-agree f g (suc n) i e =
    ap (λ b. some b ∷ values f n (suc i)) (e i (omega arith))
    ∙ ap (λ bs. some (g i) ∷ bs) (values-agree f g n (suc i) (λ r l. e r (omega arith)))

after_push-value :
    (s : System) (b : Buffer) → update s.value s.queue.tail b ≡ (after_push s b).value
unfolding after_push
after_push-value s b = refl

pub contents-after_push :
    (s : System) (b : Buffer)
    → IsQuiet s
    → s.queue.tail < position_limit
    → contents (after_push s b) ≡ contents s ++ (some b ∷ [])
contents-after_push s b v lim =
    let (h, t) = after_push-ends s b lim in
    let n : ℕ = s.queue.tail - s.queue.head in
    let grown : (after_push s b).queue.tail - (after_push s b).queue.head ≡ suc n =
      omega (arith, h, t, v.sound.order) in
    let at_end : s.queue.head + n ≡ s.queue.tail = omega (arith, v.sound.order) in
    ap
      (λ f.
        values f ((after_push s b).queue.tail - (after_push s b).queue.head)
          (after_push s b).queue.head)
      (sym (after_push-value s b))
    ∙ ap (λ k. values (update s.value s.queue.tail b) k (after_push s b).queue.head) grown
    ∙ ap (λ k. values (update s.value s.queue.tail b) (suc n) k) h
    ∙ values-append (update s.value s.queue.tail b) n s.queue.head
    ∙ ap (λ bs. bs ++ (some (update s.value s.queue.tail b (s.queue.head + n)) ∷ []))
        (values-agree (update s.value s.queue.tail b) s.value n s.queue.head
          (λ r l. update_ne s.value s.queue.tail r b (omega arith)))
    ∙ ap (λ x. contents s ++ (some x ∷ []))
        (ap (update s.value s.queue.tail b) at_end ∙ update_self s.value s.queue.tail b)

push_stored :
    (s : System) (b : Buffer) (timeout_ms : ℕ)
    → IsQuiet s
    → s.queue.tail < s.queue.head + s.queue.capacity
    → (s.queue.has_extra_limits && is_full s.queue) ≡ false
    → push_round s.queue s.queue.tail b timeout_ms ≡ stored (after_push s b).queue
unfolding push_round after_push
push_stored s b timeout_ms v l room =
    rw (look_free s v l, push_round)
      (rw room (
        rw (cas_tail_self s.queue) (
          ap
            (λ x.
              stored (publish (record (s.queue) { tail = add64 s.queue.tail 1 }) s.queue.tail x))
            (sym (update_self s.value s.queue.tail b)))))

-- When only one thread uses the queue, a slot is free, no other limit is reached, and the tail is below
-- the limit of positions, a push succeeds and adds its buffer at the end of the contents.
pub push_last :
    (s : System) (b : Buffer) (timeout_ms : ℕ)
    → IsQuiet s
    → s.queue.tail < s.queue.head + s.queue.capacity
    → (s.queue.has_extra_limits && is_full s.queue) ≡ false
    → s.queue.tail < position_limit
    → (t : System) × Reach s t
      × IsQuiet t
      × (push_round s.queue s.queue.tail b timeout_ms ≡ stored t.queue)
      × (contents t ≡ contents s ++ (some b ∷ []))
push_last s b timeout_ms v l room lim = (
  after_push s b,
  after_push-Reach s b v l lim,
  after_push-IsQuiet s b v l lim,
  push_stored s b timeout_ms v l room,
  contents-after_push s b v lim,
)
