-- ===== src/Twcc/Estimator.antt =====
-- The estimators of src/zst_webrtc_twcc.c, over any arithmetic of the C type `float`.
pub mod Bitrates
use zstreamer.Common.{
  ℕ, zero, suc, ◌+◌, ◌*◌, ◌/◌, ◌%◌, ◌-◌, ◌^◌, ◌≤◌, ◌<◌, ◌≡◌, refl, Bool, true, false, not, ◌&&◌,
  ◌||◌, Option, none, some, List, [], ◌∷◌, ltb, leb, ◌==◌, if◌then◌else◌, if_intro, arith,
}
use zstreamer.Types.{u64_mod, add64, sub64}

-- The operations of `float` that the code uses; `decimal n d` is the constant n / d, `of_int64` takes
-- a two's complement number, and `to_uint64` cuts off the fraction.
pub record Floats : Type 1 where
  pub F : Type 0
  pub add : F → F → F
  pub sub : F → F → F
  pub mul : F → F → F
  pub div : F → F → F
  pub neg : F → F
  pub abs : F → F
  pub gt : F → F → Bool
  pub decimal : ℕ → ℕ → F
  pub of_int64 : ℕ → F
  pub of_uint64 : ℕ → F
  pub to_uint64 : F → ℕ

pub min_bitrate : ℕ
min_bitrate = 100_000

pub max_bitrate : ℕ
max_bitrate = 8_000_000

pub init_bitrate : ℕ
init_bitrate = 2_000_000

pub update_interval_us : ℕ
update_interval_us = 100_000

-- `twcc_bw_state_t`
pub data BwState : Type 0 where
  normal underuse overuse : BwState

pub clamp_bps : ℕ → ℕ
clamp_bps bps =
    if ltb bps min_bitrate then min_bitrate else if ltb max_bitrate bps then max_bitrate else bps

-- The fields of `zst_webrtc_twcc` that feedback uses.
pub record Estimator (fl : Floats) : Type 0 where
  pub delay_gradient : fl.F
  pub delay_threshold : fl.F
  pub bw_state : BwState
  pub loss_rate : fl.F
  pub delay_estimate_bps : ℕ
  pub loss_estimate_bps : ℕ
  pub current_bitrate_bps : ℕ
  pub last_update_us : ℕ
  pub last_emitted_bps : ℕ

module _ (fl : Floats) where
  open fl use {F, add, sub, mul, div, neg, abs, gt, decimal, of_int64, of_uint64, to_uint64}

  pub create_estimator : ℕ → Estimator fl
  create_estimator now_us = record {
    delay_gradient = decimal 0 1;
    delay_threshold = decimal 125 10;
    bw_state = normal;
    loss_rate = decimal 0 1;
    delay_estimate_bps = init_bitrate;
    loss_estimate_bps = init_bitrate;
    current_bitrate_bps = init_bitrate;
    last_update_us = now_us;
    last_emitted_bps = 0;
  }

  pub smoothed : F → F → F
  smoothed gradient delta =
      add (mul (decimal 9 10) gradient) (mul (sub (decimal 1 1) (decimal 9 10)) delta)

  pub tracked : F → F → F
  tracked gradient threshold =
      if gt (abs gradient) threshold
      then add threshold (mul (decimal 1 100) (sub (abs gradient) threshold))
      else sub threshold (mul (mul (decimal 1 100) (decimal 1 10)) threshold)

  pub limited : F → F
  limited t = at_most (if gt (decimal 6 1) t then decimal 6 1 else t)
    where
      at_most : F → F
      at_most u = if gt u (decimal 600 1) then decimal 600 1 else u

  pub classified : F → F → BwState
  classified gradient threshold =
      if gt gradient threshold
      then overuse
      else if gt (neg threshold) gradient
      then underuse
      else normal

  pub delay_update : Estimator fl → F → Estimator fl
  delay_update e delta = record e {
    delay_gradient = gradient;
    delay_threshold = threshold;
    bw_state = classified gradient threshold;
  }
    where
      gradient : F
      gradient = smoothed e.delay_gradient delta

      threshold : F
      threshold = limited (tracked gradient e.delay_threshold)

  pub delay_adapted : BwState → ℕ → ℕ
  delay_adapted overuse bps = to_uint64 (mul (of_uint64 bps) (decimal 85 100))
  delay_adapted normal bps = add64 bps (to_uint64 (mul (of_uint64 bps) (decimal 8 100)))
  delay_adapted underuse bps = bps

  pub delay_adapt : Estimator fl → Estimator fl
  delay_adapt e = record e {
    delay_estimate_bps = clamp_bps (delay_adapted e.bw_state e.delay_estimate_bps);
  }

  pub loss_adapted : F → ℕ → ℕ
  loss_adapted rate bps =
      if gt rate (decimal 10 100)
      then to_uint64 (mul (of_uint64 bps) (decimal 80 100))
      else if gt rate (decimal 2 100)
      then bps
      else to_uint64 (mul (of_uint64 bps) (decimal 105 100))

  pub loss_adapt : Estimator fl → F → Estimator fl
  loss_adapt e rate = record e {
    loss_rate = smooth;
    loss_estimate_bps = clamp_bps (loss_adapted smooth e.loss_estimate_bps);
  }
    where
      smooth : F
      smooth = add (mul (decimal 5 10) e.loss_rate) (mul (decimal 5 10) rate)

  pub update_all : Estimator fl → List F → Estimator fl
  update_all e [] = e
  update_all e (d ∷ ds) = update_all (delay_update e d) ds

  pub loss_fraction : ℕ → ℕ → F
  loss_fraction lost received =
      if ltb 0 (lost + received)
      then div (of_uint64 lost) (of_uint64 (lost + received))
      else decimal 0 1

  -- The difference is more than 3 percent, in whole percents.
  pub is_significant : ℕ → ℕ → Bool
  is_significant prev combined =
      (prev == 0)
      || ltb 3
          ((if ltb prev combined then combined - prev else prev - combined) * 100 % u64_mod / prev)

  pub emit : Estimator fl → ℕ → Estimator fl × Option ℕ
  emit e combined =
      if is_significant e.last_emitted_bps combined
      then (record e { current_bitrate_bps = combined; last_emitted_bps = combined }, some combined)
      else (record e { current_bitrate_bps = combined }, none)

  pub combine : Estimator fl → Estimator fl × Option ℕ
  combine e = emit e (
      if ltb e.delay_estimate_bps e.loss_estimate_bps
      then e.delay_estimate_bps
      else e.loss_estimate_bps)

  -- What a feedback message does to the estimates, given its counts and its differences of delay. The
  -- result names the bitrate of the event that is posted.
  pub feed : Estimator fl → ℕ → ℕ → List F → ℕ → Estimator fl × Option ℕ
  feed e lost received deltas now_us =
      if ltb (sub64 now_us u.last_update_us) update_interval_us
      then (u, none)
      else combine (
          delay_adapt
            (loss_adapt (record u { last_update_us = now_us }) (loss_fraction lost received)))
    where
      u : Estimator fl
      u = update_all e deltas
