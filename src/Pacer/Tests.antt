-- ===== src/Pacer/Tests.antt =====
-- Runs of the pacer against a clock that advances by 1 ns with each reading.
use zstreamer.Common.{ℕ, ◌+◌, ◌≡◌, refl, inr, true, false, none, some, arith}
use zstreamer.Types.{ok, again}
use zstreamer.Pacer.{
  Pacer, ClockEnv, ClockLaws, finish, due, quantum, round, wait_loop, on_timeline, should_reset,
  get_now, sleep_for, selected, has_clock, count_paced,
}
use zstreamer.Pacer.Invariant.{IsValid}
use zstreamer.Pacer.Schedule.{Returns, wait_loop-Returns}

abbrev ticking : ClockEnv
ticking = record { World = ℕ; get_time = λ k w. (w, w + 1); wait = λ k ns w. w + ns }

ticking_laws : ClockLaws ticking
ticking_laws = record {
  time = λ k w. w;
  get_time_after = λ k w. omega arith;
  get_time_before = λ k w. omega arith;
  wait_at_least = λ k ns w. omega arith;
}

-- Started at the timestamp 0 and the clock reading 1000, with a lateness limit of 20 ms.
abbrev running : Pacer
running = record {
  enabled = true;
  started = true;
  base_ts = 0;
  base_clock = 1000;
  last_ts = 0;
  tolerance_ns = 5_000_000;
  reset_threshold_ns = 2_000_000_000;
  max_lateness_ns = 20_000_000;
  sleep_quantum_ns = 10_000_000;
  paced_count = 1;
  dropped_count = 0;
  reset_count = 0;
  total_wait_ns = 0;
  fallback_clock = some 7;
}

running-IsValid : IsValid running
running-IsValid h = omega arith

-- 25 ms ahead: two sleeps, and the buffer goes out 5 ms early.
two_sleeps :
    wait_loop ticking 4 running none 25_000_000 1000
    ≡ some (
      ok,
      false,
      record running { last_ts = 25_000_000; paced_count = 2; total_wait_ns = 20_000_000 },
      20_001_003,
    )
unfolding wait_loop get_now sleep_for round on_timeline selected has_clock should_reset due quantum
    count_paced
two_sleeps = refl

too_late :
    round running none 25_000_000 50_000_000
    ≡ finish again true (record running { last_ts = 25_000_000; dropped_count = 1 })
unfolding round on_timeline selected has_clock should_reset due
too_late = refl

wait_loop-Returns_example :
    Returns ticking ticking_laws running 25_000_000 7
      (wait_loop ticking 4 running none 25_000_000 1000)
unfolding due quantum selected
wait_loop-Returns_example =
    wait_loop-Returns ticking ticking_laws 3 running none 25_000_000 7 1000 refl running-IsValid
      (record { enabled = refl; started = refl; forward = omega arith; near = inr (omega arith) })
      (omega arith)
