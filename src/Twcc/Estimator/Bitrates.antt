-- ===== src/Twcc/Estimator/Bitrates.antt =====
-- The bounds of the estimates, whatever the arithmetic of `float` does.
use zstreamer.Common.{
  ℕ, ◌≤◌, ◌≡◌, refl, none, some, List, [], ◌∷◌, ltb, if◌then◌else◌, arith, ◌⊎◌, inl, inr,
  Bool-cases,
}
use zstreamer.Types.{sub64}
use zstreamer.Twcc.Estimator.{
  update_interval_us, Floats, Estimator, clamp_bps, min_bitrate, max_bitrate, init_bitrate,
  create_estimator, update_all, delay_update, delay_adapt, loss_adapt, combine, emit, feed,
  is_significant,
}

abbrev pub IsRate : ℕ → Type 0
IsRate bps = (100_000 ≤ bps) × (bps ≤ 8_000_000)

clamp_bps-IsRate : (bps : ℕ) → IsRate (clamp_bps bps)
unfolding clamp_bps min_bitrate max_bitrate
clamp_bps-IsRate bps = ground arith

-- The estimates are rates, and the result is not above either of them.
pub record IsBounded {fl : Floats} (e : Estimator fl) : Type 0 where
  pub delay : IsRate e.delay_estimate_bps
  pub loss : IsRate e.loss_estimate_bps
  pub current : IsRate e.current_bitrate_bps
  pub below_delay : e.current_bitrate_bps ≤ e.delay_estimate_bps
  pub below_loss : e.current_bitrate_bps ≤ e.loss_estimate_bps

module _ (fl : Floats) where
  update_all-IsBounded :
      (e : Estimator fl) (ds : List fl.F) → IsBounded e → IsBounded (update_all fl e ds)
  unfolding update_all delay_update
  update_all-IsBounded e [] v = v
  update_all-IsBounded e (d ∷ ds) v = update_all-IsBounded (delay_update fl e d) ds (record {
    delay = v.delay;
    loss = v.loss;
    current = v.current;
    below_delay = v.below_delay;
    below_loss = v.below_loss;
  })

  combine-IsBounded :
      (e : Estimator fl)
      → IsRate e.delay_estimate_bps
      → IsRate e.loss_estimate_bps
      → IsBounded (combine fl e).0
  unfolding combine emit
  combine-IsBounded e d l =
      let c : ℕ =
        if ltb e.delay_estimate_bps e.loss_estimate_bps
        then e.delay_estimate_bps
        else e.loss_estimate_bps in
      elim (Bool-cases (is_significant fl e.last_emitted_bps c)) [
        | inl t ↦ rw t (record {
          delay = d;
          loss = l;
          current = ground arith;
          below_delay = ground arith;
          below_loss = ground arith;
        })
        | inr f ↦ rw f (record {
          delay = d;
          loss = l;
          current = ground arith;
          below_delay = ground arith;
          below_loss = ground arith;
        })
      ]

  create-IsBounded : (now_us : ℕ) → IsBounded (create_estimator fl now_us)
  unfolding create_estimator init_bitrate
  create-IsBounded now_us = record {
    delay = (omega arith, omega arith);
    loss = (omega arith, omega arith);
    current = (omega arith, omega arith);
    below_delay = omega arith;
    below_loss = omega arith;
  }

  adapted-IsBounded :
      (e : Estimator fl) (rate : fl.F)
      → IsBounded (combine fl (delay_adapt fl (loss_adapt fl e rate))).0
  unfolding delay_adapt loss_adapt
  adapted-IsBounded e rate = combine-IsBounded _ (clamp_bps-IsRate _) (clamp_bps-IsRate _)

  combine-emitted :
      (e : Estimator fl)
      → ((combine fl e).1 ≡ none) ⊎ ((combine fl e).1 ≡ some (combine fl e).0.current_bitrate_bps)
  unfolding combine emit
  combine-emitted e =
      let c : ℕ =
        if ltb e.delay_estimate_bps e.loss_estimate_bps
        then e.delay_estimate_bps
        else e.loss_estimate_bps in
      elim (Bool-cases (is_significant fl e.last_emitted_bps c)) [
        | inl t ↦ rw t (inr refl)
        | inr f ↦ rw f (inl refl)
      ]

  -- Whatever `float` computes: a feedback message, with any counts, any differences of delay and at any
  -- time, keeps both estimates and the resulting bitrate between 100 kbit/s and 8 Mbit/s and the result at
  -- or below both estimates, and an event that is posted carries the resulting bitrate. A new
  -- estimator is within these bounds.
  pub feed-IsBounded :
      (e : Estimator fl) (lost received : ℕ) (deltas : List fl.F) (now_us : ℕ)
      → IsBounded e
      → IsBounded (feed fl e lost received deltas now_us).0
        × (((feed fl e lost received deltas now_us).1 ≡ none)
            ⊎ ((feed fl e lost received deltas now_us).1
                ≡ some (feed fl e lost received deltas now_us).0.current_bitrate_bps))
        × IsBounded (create_estimator fl now_us)
  unfolding feed
  feed-IsBounded e lost received deltas now_us v =
      let u = update_all fl e deltas in
      let w = update_all-IsBounded e deltas v in
      elim (Bool-cases (ltb (sub64 now_us u.last_update_us) update_interval_us)) [
        | inl t ↦ rw t (w, inl refl, create-IsBounded now_us)
        | inr f ↦ rw f (adapted-IsBounded _ _, combine-emitted _, create-IsBounded now_us)
      ]
