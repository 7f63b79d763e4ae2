-- ===== src/BufferPool/Calls.antt =====
-- `zst_buffer_pool_acquire` as a whole, with its waits, among other threads.
use zstreamer.Common.{
  sym, subst, ◌+◌, ◌≤◌, ◌<◌, ◌≡◌, ◌≢◌, refl, ap, ◌⊎◌, inl, inr, Bool, true, false, not, List, [],
  ◌∷◌, arith, length, ltb, if_intro, Bool-cases, if◌then◌else◌,
}
use zstreamer.Types.{error, timeout}
use zstreamer.BufferPool.{
  Pool, Buffer, Timeout, now, forever, limited, Acquired, got, failed, blocked, acquire,
  acquire_from, acquire_empty, no_buffer, take_top, create_buffer, create_with_allocator,
  count_created, Wake, woken, expired, gives_up, acquire_call,
}
use zstreamer.BufferPool.System.{System, IsSound}

-- A buffer is idle, or fewer buffers than the configured maximum are held by threads or about to be
-- destroyed, and the heap serves the creation of another.
abbrev pub HasRoom : System → Type 0
HasRoom s =
    (s.pool.buffers ≢ [])
    ⊎ ((length s.out + length s.doomed < s.pool.config.max_buffers)
        × (s.pool.heap.serves s.pool.heap.attempts ≡ true))

-- No buffer is idle, and the maximum is reached or the heap refuses the creation of another.
abbrev pub IsExhausted : System → Type 0
IsExhausted s =
    (s.pool.active ≡ true)
    × (s.pool.buffers ≡ [])
    × ((s.pool.config.max_buffers ≤ length s.out + length s.doomed)
        ⊎ (s.pool.heap.serves s.pool.heap.attempts ≡ false))

abbrev pub Somewhere : (System → Type 0) → List System → Type 0
Somewhere P [] = ⊥
Somewhere P (s ∷ ss) = P s ⊎ Somewhere P ss

abbrev pub Everywhere : (System → Type 0) → List System → Type 0
Everywhere P [] = Unit {0}
Everywhere P (s ∷ ss) = P s × Everywhere P ss

-- The waits of a call, each with the state that it ends in.
abbrev pub Waits : Type 0
Waits = List (Wake × System)

abbrev pub states : Waits → List System
states [] = []
states ((w, s) ∷ ws) = s ∷ states ws

abbrev pub pools : Waits → List (Wake × Pool)
pools [] = []
pools ((w, s) ∷ ws) = (w, s.pool) ∷ pools ws

abbrev pub SomeExpired : Waits → Type 0
SomeExpired [] = ⊥
SomeExpired ((w, s) ∷ ws) = (w ≡ expired) ⊎ SomeExpired ws

-- The states that a call looks at: with a time limit, those before a wait that ends with an error.
abbrev pub seen : Timeout → Waits → List System
seen t [] = []
seen limited ((expired, s) ∷ ws) = []
seen t ((w, s) ∷ ws) = s ∷ seen t ws

-- How a call ends that looks at the states `ss`, where `Late` says that a wait has ended with an error,
-- and `Through` that the call has looked at all states.
abbrev AnswersIn : Bool → Timeout → List System → Type 0 → Type 0 → Acquired → Type 0
AnswersIn nonblock t ss Late Through (got b l q) =
    Somewhere (λ s. (s.pool.active ≡ true) × HasRoom s) ss
AnswersIn nonblock t ss Late Through (failed r q) =
    ((r ≡ error) × Somewhere (λ s. s.pool.active ≡ false) ss)
    ⊎ ((r ≡ timeout)
        × Somewhere IsExhausted ss
        × ((nonblock ≡ true) ⊎ ((t ≡ now) ⊎ ((t ≡ limited) × Late))))
AnswersIn nonblock t ss Late Through (blocked q) =
    Everywhere IsExhausted ss × Through × (nonblock ≡ false) × (t ≢ now)

-- How a call ends that starts in the state `s`.
abbrev pub Answers : Bool → Timeout → System → Waits → Acquired → Type 0
Answers nonblock t s ws =
    AnswersIn nonblock t (s ∷ seen t ws) (SomeExpired ws) (seen t ws ≡ states ws)

no_buffer-Answers :
    (nonblock : Bool) (t : Timeout) (s : System) (q : Pool)
    → IsExhausted s
    → Answers nonblock t s [] (no_buffer nonblock t q)
unfolding no_buffer
no_buffer-Answers true t s q e = inr (refl, inl e, inl refl)
no_buffer-Answers false now s q e = inr (refl, inl e, inr (inl refl))
no_buffer-Answers false forever s q e = ((e, tt), refl, refl, λ x. cc)
no_buffer-Answers false limited s q e = ((e, tt), refl, refl, λ x. cc)

-- With no idle buffer, the count of buffers is of those held and about to be destroyed.
held :
    (s : System)
    → IsSound s
    → s.pool.buffers ≡ []
    → s.pool.total_allocated ≡ length s.out + length s.doomed
held s v e = omega (arith, v.total, ap length e)

acquire_from-Answers :
    (bs : List Buffer) (nonblock : Bool) (t : Timeout) (s : System)
    → IsSound s
    → s.pool.active ≡ true
    → s.pool.buffers ≡ bs
    → Answers nonblock t s [] (acquire_from bs nonblock t s.pool)
unfolding acquire_from acquire_empty take_top create_buffer create_with_allocator count_created
acquire_from-Answers (b ∷ rest) nonblock t s v a e = inl (a, inl λ f. cc)
acquire_from-Answers [] nonblock t s v a e =
    let n = held s v e in
    if_intro (Answers nonblock t s []) (ltb s.pool.total_allocated s.pool.config.max_buffers)
      (λ l. elim (Bool-cases (s.pool.heap.serves s.pool.heap.attempts)) [
        | inl f ↦ rw f (inl (a, inr (ground (arith, n), f)))
        | inr f ↦ rw f (no_buffer-Answers nonblock t s _ (a, e, inr f))
      ])
      (λ l. no_buffer-Answers nonblock t s s.pool (a, e, inl (ground (arith, n))))

acquire-Answers :
    (nonblock : Bool) (t : Timeout) (s : System)
    → IsSound s
    → Answers nonblock t s [] (acquire nonblock t s.pool)
unfolding acquire
acquire-Answers nonblock t s v =
    if_intro (Answers nonblock t s []) (not s.pool.active) (λ e. inl (refl, inl (ground arith)))
      (λ e. acquire_from-Answers s.pool.buffers nonblock t s v (ground arith) refl)

gives_up_lem : (t : Timeout) (w : Wake) → gives_up t w ≡ true → (t ≡ limited) × (w ≡ expired)
unfolding gives_up
gives_up_lem limited expired e = (refl, refl)
gives_up_lem limited woken e = absurd (cc)
gives_up_lem now w e = absurd (cc)
gives_up_lem forever w e = absurd (cc)

seen_on :
    (t : Timeout) (w : Wake) (s : System) (ws : Waits)
    → gives_up t w ≡ false
    → seen t ((w, s) ∷ ws) ≡ s ∷ seen t ws
unfolding gives_up
seen_on limited expired s ws e = absurd (cc)
seen_on limited woken s ws e = refl
seen_on now w s ws e = refl
seen_on forever w s ws e = refl

-- What the rest of a call answers is what the call answers that found the pool exhausted before.
later_in :
    (nonblock : Bool) (t : Timeout) (s s' : System) (w : Wake) (ws : Waits) (r : Acquired)
    → IsExhausted s
    → Answers nonblock t s' ws r
    → AnswersIn nonblock t
        (s ∷ s' ∷ seen t ws)
        (SomeExpired ((w, s') ∷ ws))
        (s' ∷ seen t ws ≡ s' ∷ states ws)
        r
later_in nonblock t s s' w ws (got b l q) x a = inr a
later_in nonblock t s s' w ws (failed r q) x (inl (e, closed)) = inl (e, inr closed)
later_in nonblock t s s' w ws (failed r q) x (inr (e, full, inl nb)) = inr (e, inr full, inl nb)
later_in nonblock t s s' w ws (failed r q) x (inr (e, full, inr (inl n))) =
    inr (e, inr full, inr (inl n))
later_in nonblock t s s' w ws (failed r q) x (inr (e, full, inr (inr (l, late)))) =
    inr (e, inr full, inr (inr (l, inr late)))
later_in nonblock t s s' w ws (blocked q) x (all, through, nb, tn) =
    ((x, all), ap (λ ss. s' ∷ ss) through, nb, tn)

later :
    (nonblock : Bool) (t : Timeout) (s s' : System) (w : Wake) (ws : Waits) (r : Acquired)
    → gives_up t w ≡ false
    → IsExhausted s
    → Answers nonblock t s' ws r
    → Answers nonblock t s ((w, s') ∷ ws) r
later nonblock t s s' w ws r on x a =
    subst (λ ss. AnswersIn nonblock t (s ∷ ss) (SomeExpired ((w, s') ∷ ws)) (ss ≡ s' ∷ states ws) r)
      (sym (seen_on t w s' ws on)) (later_in nonblock t s s' w ws r x a)

-- One round with the wait after it.
round-Answers :
    (nonblock : Bool) (t : Timeout) (s s' : System) (w : Wake) (ws : Waits) (r rest : Acquired)
    → Answers nonblock t s [] r
    → Answers nonblock t s' ws rest
    → Answers nonblock t s ((w, s') ∷ ws) (elim r [
      | got b l q ↦ got b l q
      | failed e q ↦ failed e q
      | blocked q ↦ if gives_up t w then failed timeout s'.pool else rest
    ])
round-Answers nonblock t s s' w ws (got b l q) rest (inl a) later_on = inl a
round-Answers nonblock t s s' w ws (got b l q) rest (inr none_left) later_on = elim none_left [ ]
round-Answers nonblock t s s' w ws (failed r q) rest (inl (e, inl c)) later_on = inl (e, inl c)
round-Answers nonblock t s s' w ws (failed r q) rest (inr (e, inl x, inl nb)) later_on =
    inr (e, inl x, inl nb)
round-Answers nonblock t s s' w ws (failed r q) rest (inr (e, inl x, inr (inl n))) later_on =
    inr (e, inl x, inr (inl n))
round-Answers nonblock t s s' w ws (failed r q) rest (inl (e, inr none_left)) later_on =
    elim none_left [ ]
round-Answers nonblock t s s' w ws (failed r q) rest (inr (e, inr none_left, _)) later_on =
    elim none_left [ ]
round-Answers nonblock t s s' w ws (failed r q) rest (inr (e, inl x, inr (inr (_, no_wait))))
      later_on =
    elim no_wait [ ]
round-Answers nonblock t s s' w ws (blocked q) rest ((x, _), _, nb, tn) later_on =
    if_intro (Answers nonblock t s ((w, s') ∷ ws)) (gives_up t w)
      (λ e. let (l, late) = gives_up_lem t w e in inr (refl, inl x, inr (inr (l, inl late))))
      (λ on. later nonblock t s s' w ws rest on x later_on)

-- A call of `acquire` that waits any number of times, in states of the pool and the threads that are
-- sound, looks at one after the other, and with a time limit at none behind a wait that ends with an
-- error. It returns a buffer only if in one of them the pool was open and had room: an idle buffer, or
-- fewer buffers held and about to be destroyed than the maximum, with a creation that the heap
-- serves. It returns `ZST_ERROR` only if the pool was closed, and `ZST_TIMEOUT` only if the pool was
-- open and had no room, and the call is non-blocking, has a zero timeout, or has a limited one and a
-- wait that ended with an error. If it still waits, it has looked at all states, and in all of
-- them the pool was open and had no room.
pub acquire_call-Answers :
    (nonblock : Bool) (t : Timeout) (s : System) (ws : Waits)
    → Everywhere IsSound (s ∷ states ws)
    → Answers nonblock t s ws (acquire_call nonblock t (pools ws) s.pool)
unfolding acquire_call
acquire_call-Answers nonblock t s [] (v, _) = acquire-Answers nonblock t s v
acquire_call-Answers nonblock t s ((w, s') ∷ ws) (v, vs) =
    round-Answers nonblock t s s' w ws (acquire nonblock t s.pool)
      (acquire_call nonblock t (pools ws) s'.pool) (acquire-Answers nonblock t s v)
      (acquire_call-Answers nonblock t s' ws vs)
