-- ===== src/Pacer/Schedule.antt =====
-- The schedule that the pacer keeps for the timestamps that continue its timeline.
use zstreamer.Common.{
  ℕ, zero, suc, ◌+◌, ◌-◌, ◌*◌, ◌≤◌, ◌<◌, min, ◌≡◌, refl, ◌⊎◌, inl, inr, Bool, true, false, ◌&&◌,
  Option, none, some, arith, ltb, Bool-cases, ◌∙◌, sym, ap, subst,
}
use zstreamer.Types.{ZstResult, ok, again, add64}
use zstreamer.Pacer.{
  Pacer, ClockEnv, ClockLaws, Round, finish, sleep, should_reset, due, quantum, count_paced,
  on_timeline, selected, has_clock, round, wait_loop, get_now, sleep_for,
}
use zstreamer.Pacer.Invariant.{IsValid}

-- `ts` moves the running pacer forward by no more than the reset threshold, where one is set.
pub record OnTimeline (p : Pacer) (ts : ℕ) : Type 0 where
  pub enabled : p.enabled ≡ true
  pub started : p.started ≡ true
  pub forward : p.last_ts < ts
  pub near : (p.reset_threshold_ns ≡ 0) ⊎ (ts ≤ p.last_ts + p.reset_threshold_ns)

round-on_timeline :
    (p : Pacer) (clock : Option ℕ) (ts now k : ℕ)
    → selected p clock ≡ some k
    → IsValid p
    → OnTimeline p ts
    → round p clock ts now ≡ on_timeline p ts now
unfolding round has_clock should_reset
round-on_timeline p clock ts now k s v o = ground (arith, v o.started)

-- What the caller is told and what is left in the pacer, when the call ends at the time `end`.
pub record Emitted (p : Pacer) (ts end : ℕ) (r : ZstResult) (dropped : Bool) (q : Pacer)
    : Type 0 where
  pub verdict :
      ((r ≡ ok)
        × (dropped ≡ false)
        × (due p ts ≤ end + p.tolerance_ns)
        × (q.paced_count ≡ add64 p.paced_count 1)
        × (q.dropped_count ≡ p.dropped_count))
      ⊎ ((r ≡ again)
          × (dropped ≡ true)
          × (0 < p.max_lateness_ns)
          × (due p ts + p.max_lateness_ns < end)
          × (q.paced_count ≡ p.paced_count)
          × (q.dropped_count ≡ add64 p.dropped_count 1))
  pub moved : q.last_ts ≡ ts
  pub same_base : (q.base_ts ≡ p.base_ts) × (q.base_clock ≡ p.base_clock)
  pub same_resets : q.reset_count ≡ p.reset_count

slept : Pacer → ℕ → Pacer
slept p ns = record p { total_wait_ns = add64 p.total_wait_ns ns }

data RoundCases (p : Pacer) (ts now : ℕ) (o : Round) : Type 0 where
  sleeps :
      (ns : ℕ)
      → o ≡ sleep (slept p ns) ns
      → ns ≡ min (due p ts - now) (quantum p)
      → now < due p ts
      → RoundCases p ts now o
  ends :
      (r : ZstResult) (d : Bool) (q : Pacer)
      → o ≡ finish r d q
      → Emitted p ts now r d q
      → RoundCases p ts now o

late : Pacer → ℕ → ℕ → Bool
late p ts now =
    ltb (due p ts) now && ltb 0 p.max_lateness_ns && ltb p.max_lateness_ns (now - due p ts)

early : Pacer → ℕ → ℕ → Bool
early p ts now = ltb now (due p ts) && ltb p.tolerance_ns (due p ts - now)

on_timeline-cases : (p : Pacer) (ts now : ℕ) → RoundCases p ts now (on_timeline p ts now)
unfolding on_timeline late early slept count_paced
on_timeline-cases p ts now = elim (Bool-cases (late p ts now)) [
  | inl e ↦
      ends again true (record p { last_ts = ts; dropped_count = add64 p.dropped_count 1 })
        (ground arith)
        (record {
          verdict = inr (ground arith);
          moved = refl;
          same_base = (refl, refl);
          same_resets = refl;
        })
  | inr e ↦ elim (Bool-cases (early p ts now)) [
    | inl s ↦ sleeps (min (due p ts - now) (quantum p)) (ground arith) refl (ground arith)
    | inr s ↦ ends ok false (count_paced (record p { last_ts = ts })) (ground arith) (record {
      verdict = inl (ground arith);
      moved = refl;
      same_base = (refl, refl);
      same_resets = refl;
    })
  ]
]

finished_early :
    (p : Pacer) (ts now end : ℕ) (r : ZstResult) (d : Bool) (q : Pacer)
    → now ≤ end
    → Emitted p ts now r d q
    → Emitted p ts end r d q
finished_early p ts now end r d q h e = record {
  verdict = elim e.verdict [
    | inl v ↦ inl (v.0, v.1, omega arith, v.3, v.4)
    | inr v ↦ inr (v.0, v.1, v.2, omega arith, v.4, v.5)
  ];
  moved = e.moved;
  same_base = e.same_base;
  same_resets = e.same_resets;
}

selected-slept :
    (p : Pacer) (clock : Option ℕ) (ns : ℕ) → selected (slept p ns) clock ≡ selected p clock
unfolding selected slept
selected-slept p (some c) ns = refl
selected-slept p none ns = refl

-- A sleep changes nothing that the schedule depends on.
same_schedule :
    (p : Pacer) (ts ns : ℕ) → (due (slept p ns) ts ≡ due p ts) × (quantum (slept p ns) ≡ quantum p)
unfolding slept due quantum
same_schedule p ts ns = (refl, refl)

slept-IsValid : (p : Pacer) (ns : ℕ) → IsValid p → IsValid (slept p ns)
unfolding slept
slept-IsValid p ns v = v

slept-OnTimeline : (p : Pacer) (ts ns : ℕ) → OnTimeline p ts → OnTimeline (slept p ns) ts
unfolding slept
slept-OnTimeline p ts ns o = record {
  enabled = o.enabled;
  started = o.started;
  forward = o.forward;
  near = o.near;
}

module _ (env : ClockEnv) (laws : ClockLaws env) where
  open env use {World}
  open laws use {time}

  -- The call returns, and with the verdict that the schedule demands.
  abbrev pub Returns : Pacer → ℕ → ℕ → Option (ZstResult × Bool × Pacer × World) → Type 0
  Returns p ts k o =
      (r : ZstResult) × (d : Bool) × (q : Pacer) × (w : World) × (o ≡ some (r, d, q, w))
      × Emitted p ts (time k w) r d q

  Returns-slept :
      (p : Pacer) (ns ts k : ℕ) {o : Option (ZstResult × Bool × Pacer × World)}
      → Returns (slept p ns) ts k o
      → Returns p ts k o
  unfolding slept due
  Returns-slept p ns ts k (r, d, q, w, e, m) = (
    r,
    d,
    q,
    w,
    e,
    record {
      verdict = m.verdict;
      moved = m.moved;
      same_base = m.same_base;
      same_resets = m.same_resets;
    },
  )

  get_now-selected :
      (p : Pacer) (clock : Option ℕ) (k : ℕ) (w : World)
      → selected p clock ≡ some k
      → get_now env p clock w ≡ env.get_time k w
  unfolding get_now
  get_now-selected p clock k w s = rw (s, get_now)

  sleep_for-slept :
      (p : Pacer) (clock : Option ℕ) (k n ns : ℕ) (w : World)
      → selected p clock ≡ some k
      → sleep_for env (slept p n) clock ns w ≡ env.wait k ns w
  unfolding sleep_for slept selected
  sleep_for-slept p (some c) k n ns w s = ground arith
  sleep_for-slept p none k n ns w s = rw (s, sleep_for)

  wait_loop-finish :
      (fuel : ℕ) (p : Pacer) (clock : Option ℕ) (ts : ℕ) (w : World) (r : ZstResult) (d : Bool)
      (q : Pacer)
      → round p clock ts (get_now env p clock w).0 ≡ finish r d q
      → wait_loop env (suc fuel) p clock ts w ≡ some (r, d, q, (get_now env p clock w).1)
  unfolding wait_loop
  wait_loop-finish fuel p clock ts w r d q e = rw (e, wait_loop)

  wait_loop-sleep :
      (fuel : ℕ) (p : Pacer) (clock : Option ℕ) (ts : ℕ) (w : World) (q : Pacer) (ns : ℕ)
      → round p clock ts (get_now env p clock w).0 ≡ sleep q ns
      → wait_loop env (suc fuel) p clock ts w
        ≡ wait_loop env fuel q clock ts (sleep_for env q clock ns (get_now env p clock w).1)
  unfolding wait_loop
  wait_loop-sleep fuel p clock ts w q ns e = rw (e, wait_loop)

  one_round :
      (fuel : ℕ) (p : Pacer) (clock : Option ℕ) (ts k : ℕ) (w : World)
      → selected p clock ≡ some k
      → IsValid p
      → OnTimeline p ts
      → ((ns : ℕ)
          → ns ≡ min (due p ts - (env.get_time k w).0) (quantum p)
          → (env.get_time k w).0 < due p ts
          → Returns
              (slept p ns)
              ts
              k
              (wait_loop env fuel (slept p ns) clock ts (env.wait k ns (env.get_time k w).1)))
      → Returns p ts k (wait_loop env (suc fuel) p clock ts w)
  one_round fuel p clock ts k w s v o next =
      let now = (env.get_time k w).0 in
      let read = get_now-selected p clock k w s in
      let step = round-on_timeline p clock ts now k s v o in
      elim (on_timeline-cases p ts now) [
        | ends r d q e m ↦ (
          r,
          d,
          q,
          (env.get_time k w).1,
          wait_loop-finish fuel p clock ts w r d q (rw read (step ∙ e))
              ∙ ap (λ (x : ℕ × World). some (r, d, q, x.1)) read,
          finished_early p ts now (time k (env.get_time k w).1) r d q (laws.get_time_before k w) m,
        )
        | sleeps ns e eq lt ↦ Returns-slept p ns ts k (
            subst (Returns (slept p ns) ts k)
              (sym (
                wait_loop-sleep fuel p clock ts w (slept p ns) ns (rw read (step ∙ e))
                ∙ ap (wait_loop env fuel (slept p ns) clock ts) (
                    sleep_for-slept p clock k ns ns _ s
                    ∙ ap (λ (x : ℕ × World). env.wait k ns x.1) read)))
              (next ns eq lt))
      ]

  -- Let `clock` or else the fallback clock be `k`, let `ts` continue the timeline of a valid
  -- pacer, and let `fuel` sleep quanta reach from now to the time when `ts` is due. Then the
  -- call returns within `fuel + 1` rounds. Either it returns `ZST_OK`, no earlier than the
  -- tolerance before the due time, and counts one paced buffer; or a lateness limit is set, more
  -- than that has passed since the due time, it returns `ZST_AGAIN` with `*dropped_out` set, and
  -- counts one dropped buffer. The timestamp is remembered, and the baseline and the reset count
  -- stay.
  pub wait_loop-Returns :
      (fuel : ℕ) (p : Pacer) (clock : Option ℕ) (ts k : ℕ) (w : World)
      → selected p clock ≡ some k
      → IsValid p
      → OnTimeline p ts
      → due p ts ≤ time k w + fuel * quantum p
      → Returns p ts k (wait_loop env (suc fuel) p clock ts w)
  wait_loop-Returns zero p clock ts k w s v o h =
      one_round zero p clock ts k w s v o λ ns e lt. absurd (omega (arith, laws.get_time_after k w))
  wait_loop-Returns (suc fuel) p clock ts k w s v o h =
      one_round (suc fuel) p clock ts k w s v o λ ns e lt.
        wait_loop-Returns fuel (slept p ns) clock ts k _ (selected-slept p clock ns ∙ s)
          (slept-IsValid p ns v) (slept-OnTimeline p ts ns o)
          (omega (
            arith,
            (same_schedule p ts ns).0,
            ap (λ (t : ℕ). fuel * t) (same_schedule p ts ns).1,
            laws.get_time_after k w,
            laws.get_time_before k w,
            laws.wait_at_least k ns (env.get_time k w).1,
          ))
