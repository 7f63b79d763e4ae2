-- ===== src/Pacer/Invariant.antt =====
-- The invariant of a pacer: while it runs, its baseline lies at or before the last timestamp.
use zstreamer.Common.{ℕ, ◌≤◌, ◌≡◌, Bool, true, Option, arith}
use zstreamer.Pacer.{
  Pacer, Round, finish, sleep, init, reset, deinit, set_enabled, configure, should_reset, start,
  count_paced, count_reset, on_timeline, round,
}

abbrev pub IsValid : Pacer → Type 0
IsValid p = p.started ≡ true → p.base_ts ≤ p.last_ts

-- What every round of the loop leaves behind is valid.
abbrev pub IsValidRound : Round → Type 0
IsValidRound (finish r d q) = IsValid q
IsValidRound (sleep q ns) = IsValid q

-- The management operations keep the invariant, from any arguments.
pub operations-IsValid :
    (p : Pacer) (clock : Option ℕ) (on : Bool) (tolerance threshold lateness : ℕ)
    → IsValid p
    → IsValid (init clock)
      × IsValid (reset p)
      × IsValid (deinit p).0
      × IsValid (set_enabled p on)
      × IsValid (configure p tolerance threshold lateness)
unfolding init reset deinit set_enabled configure
operations-IsValid p clock on tolerance threshold lateness v =
    (ground arith, ground arith, ground arith, ground arith, ground arith)

on_timeline-IsValid :
    (p : Pacer) (ts now : ℕ) → p.base_ts ≤ ts → IsValid p → IsValidRound (on_timeline p ts now)
unfolding on_timeline count_paced
on_timeline-IsValid p ts now h v = ground arith

-- A round that starts from a valid pacer leaves a valid one, whether it ends the call or sleeps.
pub round-IsValid :
    (p : Pacer) (clock : Option ℕ) (ts now : ℕ) → IsValid p → IsValidRound (round p clock ts now)
unfolding round start count_paced count_reset should_reset
round-IsValid p clock ts now v = ground (arith, on_timeline-IsValid p ts now)
