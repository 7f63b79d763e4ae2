-- ===== src/Pacer/Counts.antt =====
-- What one round does to the counters and the baseline on every branch.
use zstreamer.Common.{
  ℕ, ◌+◌, ◌≤◌, ◌<◌, ◌≡◌, ◌⊎◌, inl, inr, true, false, Option, arith, Bool-cases, if◌then◌else◌,
}
use zstreamer.Types.{ok, again, add64}
use zstreamer.Pacer.{
  Pacer, Round, finish, sleep, should_reset, start, quantum, count_paced, count_reset, on_timeline,
  has_clock, round,
}
use zstreamer.Pacer.Invariant.{IsValid}

-- One buffer more is counted, paced if it is to be sent and dropped if it is late.
abbrev pub CountsOne : Pacer → Round → Type 0
CountsOne p (finish r d q) =
    ((r ≡ ok)
      × (d ≡ false)
      × (q.paced_count ≡ add64 p.paced_count 1)
      × (q.dropped_count ≡ p.dropped_count))
    ⊎ ((r ≡ again)
        × (d ≡ true)
        × (q.paced_count ≡ p.paced_count)
        × (q.dropped_count ≡ add64 p.dropped_count 1))
CountsOne p (sleep q ns) =
    (0 < ns)
    × (ns ≤ quantum p)
    × (q.paced_count ≡ p.paced_count)
    × (q.dropped_count ≡ p.dropped_count)
    × (q.total_wait_ns ≡ add64 p.total_wait_ns ns)

quantum_pos : (p : Pacer) → 0 < quantum p
unfolding quantum
quantum_pos p = ground arith

on_timeline-CountsOne : (p : Pacer) (ts now : ℕ) → CountsOne p (on_timeline p ts now)
unfolding on_timeline count_paced
on_timeline-CountsOne p ts now = ground (arith, quantum_pos p)

-- A round of an enabled pacer that has a clock ends the call and counts exactly one buffer, as
-- paced with `ZST_OK` or as dropped with `ZST_AGAIN` and `*dropped_out` set, or it sleeps for at
-- least 1 ns and at most a quantum, adds that to the waiting time and counts no buffer.
pub round-CountsOne :
    (p : Pacer) (clock : Option ℕ) (ts now : ℕ)
    → p.enabled ≡ true
    → has_clock p clock ≡ true
    → CountsOne p (round p clock ts now)
unfolding round start count_paced count_reset
round-CountsOne p clock ts now e c = ground (arith, on_timeline-CountsOne p ts now)

-- A discontinuity: the first timestamp, one before the last, or a jump past the threshold.
abbrev pub Jumps : Pacer → ℕ → Type 0
Jumps p ts =
    (p.started ≡ false)
    ⊎ (ts < p.last_ts)
    ⊎ ((0 < p.reset_threshold_ns) × (p.last_ts + p.reset_threshold_ns < ts))

Jumps-should_reset : (p : Pacer) (ts : ℕ) → should_reset p ts ≡ true → Jumps p ts
unfolding should_reset
Jumps-should_reset p ts h = ground arith

should_reset-Jumps : (p : Pacer) (ts : ℕ) → should_reset p ts ≡ false → ¬ Jumps p ts
unfolding should_reset
should_reset-Jumps p ts h j = ground arith

abbrev pub Rebased : Pacer → ℕ → ℕ → Round → Type 0
Rebased p ts now (finish r d q) =
    (r ≡ ok)
    × (d ≡ false)
    × (q.started ≡ true)
    × (q.base_ts ≡ ts)
    × (q.base_clock ≡ now)
    × (q.last_ts ≡ ts)
    × (q.reset_count ≡ (if p.started then add64 p.reset_count 1 else p.reset_count))
Rebased p ts now (sleep q ns) = ⊥

abbrev pub SameBase : Pacer → Pacer → Type 0
SameBase p q =
    (q.started ≡ true)
    × (q.base_ts ≡ p.base_ts)
    × (q.base_clock ≡ p.base_clock)
    × (q.reset_count ≡ p.reset_count)

abbrev pub KeepsBase : Pacer → Round → Type 0
KeepsBase p (finish r d q) = SameBase p q
KeepsBase p (sleep q ns) = SameBase p q

on_timeline-KeepsBase :
    (p : Pacer) (ts now : ℕ) → p.started ≡ true → KeepsBase p (on_timeline p ts now)
unfolding on_timeline count_paced
on_timeline-KeepsBase p ts now h = ground arith

started_of_no_reset :
    (p : Pacer) (ts : ℕ) → should_reset p ts ≡ false → (p.started ≡ true) × (p.last_ts ≤ ts)
unfolding should_reset
started_of_no_reset p ts h = ground arith

round-KeepsBase :
    (p : Pacer) (clock : Option ℕ) (ts now : ℕ)
    → IsValid p
    → p.enabled ≡ true
    → has_clock p clock ≡ true
    → should_reset p ts ≡ false
    → KeepsBase p (round p clock ts now)
unfolding round start count_paced count_reset
round-KeepsBase p clock ts now v e c h =
    let s = started_of_no_reset p ts h in ground (arith, v s.0, on_timeline-KeepsBase p ts now s.0)

-- On a discontinuity an enabled pacer with a clock takes the timestamp at once and starts a new
-- timeline at this clock reading; a pacer that was running counts a reset then. On any other
-- timestamp a valid pacer keeps running on its baseline and counts no reset.
pub round_rebases :
    (p : Pacer) (clock : Option ℕ) (ts now : ℕ)
    → IsValid p
    → p.enabled ≡ true
    → has_clock p clock ≡ true
    → (Jumps p ts × Rebased p ts now (round p clock ts now))
      ⊎ ((¬ Jumps p ts) × KeepsBase p (round p clock ts now))
unfolding round start count_paced count_reset
round_rebases p clock ts now v e c = elim (Bool-cases (should_reset p ts)) [
  | inl j ↦ inl (Jumps-should_reset p ts j, ground arith)
  | inr n ↦ inr (should_reset-Jumps p ts n, round-KeepsBase p clock ts now v e c n)
]
