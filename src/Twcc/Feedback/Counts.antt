-- ===== src/Twcc/Feedback/Counts.antt =====
-- The counts that a feedback message yields.
use zstreamer.Common.{
  ℕ, suc, ◌+◌, ◌*◌, ◌≤◌, ◌≡◌, refl, List, [], ◌∷◌, arith, length, get_or, ◌==◌, if_intro, min,
}
use zstreamer.Common.Bytes.{drop_bytes}
use zstreamer.Twcc.{Sent}
use zstreamer.Twcc.Feedback.{
  Walk, WalkStep, goes_on, breaks, Reference, note_arrival, small_delta, large_delta, status_step,
  walk, parsed, parsed_statuses, field16,
}
use zstreamer.Twcc.Feedback.Chunks.{length-parse_chunks}

-- One packet more is counted, and there are still at most 64 differences.
abbrev Counted : Walk → WalkStep → Type 0
Counted w (goes_on w') =
    (w'.lost + w'.received ≡ w.lost + w.received + 1) × (length w'.deltas_us ≤ 64)
Counted w (breaks w') =
    (w'.lost + w'.received ≡ w.lost + w.received + 1) × (length w'.deltas_us ≤ 64)

note_arrival-Counted :
    (h : ℕ → Sent) (w : Walk) (bytes : List ℕ) (d : ℕ)
    → length w.deltas_us ≤ 64
    → length (note_arrival h w bytes d).deltas_us ≤ 64
unfolding note_arrival
note_arrival-Counted h w bytes d l = ground arith

note_arrival-kept :
    (h : ℕ → Sent) (w : Walk) (bytes : List ℕ) (d : ℕ)
    → ((note_arrival h w bytes d).lost ≡ w.lost)
      × ((note_arrival h w bytes d).received ≡ w.received)
unfolding note_arrival
note_arrival-kept h w bytes d = (refl, refl)

received-Counted :
    (h : ℕ → Sent) (w : Walk) (bytes : List ℕ) (d : ℕ)
    → length w.deltas_us ≤ 64
    → Counted w (goes_on (note_arrival h (record w { received = w.received + 1 }) bytes d))
received-Counted h w bytes d l =
    let v = record w { received = w.received + 1 } in
    let k = note_arrival-kept h v bytes d in
    (omega (arith, k.0, k.1), note_arrival-Counted h v bytes d l)

small_delta-Counted :
    (h : ℕ → Sent) (w : Walk) (bytes : List ℕ)
    → length w.deltas_us ≤ 64
    → Counted w (small_delta h (record w { received = w.received + 1 }) bytes)
unfolding small_delta
small_delta-Counted h w [] l = (omega arith, l)
small_delta-Counted h w (a ∷ bytes) l = received-Counted h w bytes a l

large_delta-Counted :
    (h : ℕ → Sent) (w : Walk) (bytes : List ℕ)
    → length w.deltas_us ≤ 64
    → Counted w (large_delta h (record w { received = w.received + 1 }) bytes)
unfolding large_delta
large_delta-Counted h w [] l = (omega arith, l)
large_delta-Counted h w (a ∷ []) l = (omega arith, l)
large_delta-Counted h w (a ∷ b ∷ bytes) l = received-Counted h w bytes _ l

status_step-Counted :
    (h : ℕ → Sent) (st : ℕ) (w : Walk) → length w.deltas_us ≤ 64 → Counted w (status_step h st w)
unfolding status_step
status_step-Counted h st w l =
    if_intro (Counted w) (st == 0) (λ _. (omega arith, l))
      (λ _.
        if_intro (Counted w) (st == 1) (λ _. small_delta-Counted h w w.bytes l)
          (λ _. large_delta-Counted h w w.bytes l))

-- From the walk `w` with `n` statuses ahead, a walk `v` at its end.
abbrev Ends : Walk → ℕ → Walk → Type 0
Ends w n v = (v.lost + v.received ≤ w.lost + w.received + n) × (length v.deltas_us ≤ 64)

step-Ends :
    (h : ℕ → Sent) (sts : List ℕ) (w : Walk) (o : WalkStep)
    → Counted w o
    → ((w' : Walk) → length w'.deltas_us ≤ 64 → Ends w' (length sts) (walk h sts w'))
    → Ends w (suc (length sts)) (elim o [ goes_on w' ↦ walk h sts w' | breaks w' ↦ w' ])
step-Ends h sts w (goes_on w') (e, k) rest = let (a, b) = rest w' k in (omega (arith, a, e), b)
step-Ends h sts w (breaks w') (e, k) rest = (omega (arith, e), k)

walk-Ends :
    (h : ℕ → Sent) (sts : List ℕ) (w : Walk)
    → length w.deltas_us ≤ 64
    → Ends w (length sts) (walk h sts w)
unfolding walk
walk-Ends h [] w l = (omega arith, l)
walk-Ends h (st ∷ sts) w l =
    step-Ends h sts w (status_step h st w) (status_step-Counted h st w l)
      (λ w' k. walk-Ends h sts w' k)

-- From a message of any bytes: the packets counted as lost and as received are together no more than
-- the message announces, and no more than 1024, and at most 64 differences of delay are collected.
pub parsed_bounded :
    (h : ℕ → Sent) (r : Reference) (msg : List ℕ)
    → ((parsed h r msg).lost + (parsed h r msg).received ≤ field16 msg 14)
      × ((parsed h r msg).lost + (parsed h r msg).received ≤ 1024)
      × (length (parsed h r msg).deltas_us ≤ 64)
unfolding parsed parsed_statuses
parsed_bounded h r msg =
    let c = length-parse_chunks (drop_bytes 20 msg) (min (field16 msg 14) 1024) in
    let e =
      walk-Ends h (parsed_statuses msg).0
        (record {
          bytes = (parsed_statuses msg).1;
          seq = field16 msg 12;
          recv_time_us = (field16 msg 16 * 256 + get_or msg 18 0) * 64_000;
          lost = 0;
          received = 0;
          last_send_time_us = r.last_send_time_us;
          last_recv_time_us = r.last_recv_time_us;
          have_prev_ref = r.have_prev_ref;
          deltas_us = [];
        })
        (omega arith) in
    (omega (arith, e.0, c.0), omega (arith, e.0, c.0), e.1)
