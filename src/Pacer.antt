-- ===== src/Pacer.antt =====
-- src/zst_timestamp_pacer.c: holding a buffer back until its timestamp is due.
-- A call runs under the pacer's lock but for the clock reads and the sleeps, which belong to the
-- clock (`ClockEnv`). `int` flags are Booleans, since the code stores 0 and 1 in them only.
pub mod Invariant
pub mod Schedule
pub mod Counts
mod Tests
use zstreamer.Common.{
  ℕ, zero, suc, ◌+◌, ◌-◌, ◌*◌, ◌≤◌, min, Bool, true, false, not, ◌&&◌, Option, none, some, ltb,
  ◌==◌, if◌then◌else◌,
}
use zstreamer.Types.{ZstResult, ok, again, uint64_max, add64}

-- What the pacer sees of the clocks of zst_clock.h, by handle: `get_time` reads one, and `wait`
-- blocks for a duration. Both may let time pass.
pub record ClockEnv : Type 1 where
  pub World : Type 0
  pub get_time : ℕ → World → ℕ × World
  pub wait : ℕ → ℕ → World → World

pub record Pacer : Type 0 where
  pub enabled : Bool
  pub started : Bool
  pub base_ts : ℕ
  pub base_clock : ℕ
  pub last_ts : ℕ
  pub tolerance_ns : ℕ
  pub reset_threshold_ns : ℕ
  pub max_lateness_ns : ℕ
  pub sleep_quantum_ns : ℕ
  pub paced_count : ℕ
  pub dropped_count : ℕ
  pub reset_count : ℕ
  pub total_wait_ns : ℕ
  pub fallback_clock : Option ℕ

abbrev pub default_tolerance_ns : ℕ
default_tolerance_ns = 5 * 1000 * 1000

abbrev pub default_reset_threshold_ns : ℕ
default_reset_threshold_ns = 2 * 1000 * 1000 * 1000

abbrev pub default_sleep_quantum_ns : ℕ
default_sleep_quantum_ns = 10 * 1000 * 1000

-- `zst_clock_system_create` may return NULL, `none` here.
pub init : Option ℕ → Pacer
init system_clock = record {
  enabled = false;
  started = false;
  base_ts = 0;
  base_clock = 0;
  last_ts = 0;
  tolerance_ns = default_tolerance_ns;
  reset_threshold_ns = default_reset_threshold_ns;
  max_lateness_ns = 0;
  sleep_quantum_ns = default_sleep_quantum_ns;
  paced_count = 0;
  dropped_count = 0;
  reset_count = 0;
  total_wait_ns = 0;
  fallback_clock = system_clock;
}

pub reset : Pacer → Pacer
reset p = record p {
  started = false;
  base_ts = 0;
  base_clock = 0;
  last_ts = 0;
  reset_count = add64 p.reset_count 1;
}

-- With the clock that is to be unreferenced.
pub deinit : Pacer → Pacer × Option ℕ
deinit p = (record p { fallback_clock = none; started = false }, p.fallback_clock)

pub set_enabled : Pacer → Bool → Pacer
set_enabled p enabled = record p { enabled = enabled; started = enabled && p.started }

pub configure : Pacer → ℕ → ℕ → ℕ → Pacer
configure p tolerance reset_threshold max_lateness = record p {
  tolerance_ns = tolerance;
  reset_threshold_ns = reset_threshold;
  max_lateness_ns = max_lateness;
}

pub should_reset : Pacer → ℕ → Bool
should_reset p ts =
    if not p.started
    then true
    else if ltb ts p.last_ts
    then true
    else ltb 0 p.reset_threshold_ns && ltb p.last_ts ts && ltb p.reset_threshold_ns (ts - p.last_ts)

pub start : Pacer → ℕ → ℕ → Pacer
start p ts now = record p { started = true; base_ts = ts; base_clock = now; last_ts = ts }

-- When `ts` is due, with the sum saturated at `UINT64_MAX`.
pub due : Pacer → ℕ → ℕ
due p ts =
    if ltb (uint64_max - p.base_clock) (ts - p.base_ts)
    then uint64_max
    else p.base_clock + (ts - p.base_ts)

pub quantum : Pacer → ℕ
quantum p = if ltb 0 p.sleep_quantum_ns then p.sleep_quantum_ns else default_sleep_quantum_ns

-- How one round of the loop of `zst_timestamp_pacer_wait` ends: a return, with the value of
-- `*dropped_out`, or a sleep and another round.
pub data Round : Type 0 where
  finish : ZstResult → Bool → Pacer → Round
  sleep : Pacer → ℕ → Round

pub count_paced : Pacer → Pacer
count_paced p = record p { paced_count = add64 p.paced_count 1 }

pub count_reset : Pacer → Pacer
count_reset p = record p { reset_count = add64 p.reset_count 1 }

-- The end of a round, from `if (now > target && …)` on.
pub on_timeline : Pacer → ℕ → ℕ → Round
on_timeline p ts now =
    if ltb (due p ts) now && ltb 0 p.max_lateness_ns && ltb p.max_lateness_ns (now - due p ts)
    then finish again true (record p { last_ts = ts; dropped_count = add64 p.dropped_count 1 })
    else if ltb now (due p ts) && ltb p.tolerance_ns (due p ts - now)
    then sleep
        (record p { total_wait_ns = add64 p.total_wait_ns (min (due p ts - now) (quantum p)) })
        (min (due p ts - now) (quantum p))
    else finish ok false (count_paced (record p { last_ts = ts }))

pub selected : Pacer → Option ℕ → Option ℕ
selected p (some clock) = some clock
selected p none = p.fallback_clock

pub has_clock : Pacer → Option ℕ → Bool
has_clock p clock = elim (selected p clock) [ none ↦ false | some _ ↦ true ]

-- One round, at the clock reading `now`.
pub round : Pacer → Option ℕ → ℕ → ℕ → Round
round p clock ts now =
    if not p.enabled
    then finish ok false p
    else if not (has_clock p clock)
    then finish ok false p
    else if should_reset p ts
    then finish ok false (count_paced (start (if p.started then count_reset p else p) ts now))
    else if ts == p.last_ts
    then finish ok false (count_paced p)
    else if ltb ts p.base_ts
    then finish ok false (count_paced (count_reset (start p ts now)))
    else on_timeline p ts now

module _ (env : ClockEnv) where
  open env use {World, get_time, wait as clock_wait}

  -- `zst_timestamp_pacer_get_now`
  pub get_now : Pacer → Option ℕ → World → ℕ × World
  get_now p clock w = elim (selected p clock) [ none ↦ (0, w) | some k ↦ get_time k w ]

  pub sleep_for : Pacer → Option ℕ → ℕ → World → World
  sleep_for p clock ns w = elim (selected p clock) [ none ↦ w | some k ↦ clock_wait k ns w ]

  -- The loop on fuel: `none` is a loop that still runs when the fuel is spent.
  pub wait_loop : ℕ → Pacer → Option ℕ → ℕ → World → Option (ZstResult × Bool × Pacer × World)
  wait_loop zero p clock ts w = none
  wait_loop (suc fuel) p clock ts w =
      let (now, w') = get_now p clock w in
      elim (round p clock ts now) [
        | finish r dropped q ↦ some (r, dropped, q, w')
        | sleep q ns ↦ wait_loop fuel q clock ts (sleep_for q clock ns w')
      ]

-- The readings of a clock between which the calls run: `get_time` returns a time of the call, and
-- `wait` takes at least its duration.
pub record ClockLaws (env : ClockEnv) : Type 1 where
  pub time : ℕ → env.World → ℕ
  pub get_time_after : (k : ℕ) (w : env.World) → time k w ≤ (env.get_time k w).0
  pub get_time_before : (k : ℕ) (w : env.World) → (env.get_time k w).0 ≤ time k (env.get_time k w).1
  pub wait_at_least : (k ns : ℕ) (w : env.World) → time k w + ns ≤ time k (env.wait k ns w)
