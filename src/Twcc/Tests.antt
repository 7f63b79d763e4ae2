-- ===== src/Twcc/Tests.antt =====
-- A packet out, feedback in.
use zstreamer.Common.{
  ℕ, ◌+◌, ◌-◌, ◌*◌, ◌/◌, ◌≤◌, ◌≡◌, refl, ◌⊎◌, true, false, none, some, List, [], ◌∷◌, ◌++◌, arith,
  length, ltb,
}
use zstreamer.Twcc.{Sender, creates, process_outgoing, is_extensible, header_length}
use zstreamer.Twcc.Injection.{read_extension, remove_extension, process_outgoing-Read}
use zstreamer.Twcc.History.{nothing, one_more, sent_by, history_remembers}
use zstreamer.Twcc.Estimator.{Floats, Estimator, create_estimator, feed, normal}
use zstreamer.Twcc.Estimator.Bitrates.{IsBounded, feed-IsBounded}
use zstreamer.Twcc.Feedback.{Reference, parse_chunks, parsed, field16}
use zstreamer.Twcc.Feedback.Chunks.{encode_runs, parse_chunks-encode_runs}
use zstreamer.Twcc.Feedback.Counts.{parsed_bounded}

abbrev sender : Sender
sender = record {
  extmap_id = some 3;
  seq_num = 65535;
  history = λ i. record { seq_num = 0; send_time_us = 0; packet_size = 0 };
}

-- A header of 12 bytes and two bytes of payload.
abbrev packet : List ℕ
packet = 0x80 ∷ 96 ∷ 0 ∷ 1 ∷ 0 ∷ 0 ∷ 0 ∷ 9 ∷ 0 ∷ 0 ∷ 0 ∷ 7 ∷ 42 ∷ 43 ∷ []

packet_extensible : is_extensible packet ≡ true
unfolding is_extensible header_length
packet_extensible = refl

process_outgoing-Read_example :
    (out : List ℕ) × ((process_outgoing sender packet 5000).1 ≡ creates out)
    × (read_extension out ≡ some (3, 65535))
    × (remove_extension out ≡ packet)
    × (length out ≡ 22)
process_outgoing-Read_example =
    process_outgoing-Read sender packet 5000 3 refl (omega arith) (omega arith) packet_extensible

abbrev later : Sender
later = (process_outgoing (process_outgoing sender packet 5000).0 packet 6000).0

history_remembers_example : later.history 8191 ≡ sent_by sender packet 5000
history_remembers_example =
    history_remembers sender later packet 5000 3 1 refl (omega arith) packet_extensible
      (omega arith) (one_more packet 6000 nothing)

-- Numbers in thousandths, with no negative ones.
abbrev thousandths : Floats
thousandths = record {
  F = ℕ;
  add = λ a b. a + b;
  sub = λ a b. a - b;
  mul = λ a b. a * b / 1000;
  div = λ a b. a * 1000 / b;
  neg = λ a. 0;
  abs = λ a. a;
  gt = λ a b. ltb b a;
  decimal = λ n d. n * 1000 / d;
  of_int64 = λ n. n * 1000;
  of_uint64 = λ n. n * 1000;
  to_uint64 = λ a. a / 1000;
}

abbrev estimator : Estimator thousandths
estimator = record {
  delay_gradient = 0;
  delay_threshold = 12_500;
  bw_state = normal;
  loss_rate = 0;
  delay_estimate_bps = 2_000_000;
  loss_estimate_bps = 2_000_000;
  current_bitrate_bps = 2_000_000;
  last_update_us = 0;
  last_emitted_bps = 0;
}

estimator-IsBounded : IsBounded estimator
estimator-IsBounded = record {
  delay = (omega arith, omega arith);
  loss = (omega arith, omega arith);
  current = (omega arith, omega arith);
  below_delay = omega arith;
  below_loss = omega arith;
}

feed-IsBounded_example :
    IsBounded (feed thousandths estimator 1 3 (2000 ∷ []) 200_000).0
    × (((feed thousandths estimator 1 3 (2000 ∷ []) 200_000).1 ≡ none)
        ⊎ ((feed thousandths estimator 1 3 (2000 ∷ []) 200_000).1
            ≡ some (feed thousandths estimator 1 3 (2000 ∷ []) 200_000).0.current_bitrate_bps))
    × IsBounded (create_estimator thousandths 200_000)
feed-IsBounded_example =
    feed-IsBounded thousandths estimator 1 3 (2000 ∷ []) 200_000 estimator-IsBounded

parse_chunks-encode_runs_example :
    parse_chunks (encode_runs ((1, 2) ∷ (0, 1) ∷ []) ++ (7 ∷ [])) 3 ≡ (1 ∷ 1 ∷ 0 ∷ [], 7 ∷ [])
parse_chunks-encode_runs_example =
    parse_chunks-encode_runs ((1, 2) ∷ (0, 1) ∷ []) (7 ∷ []) 3
      (omega arith, omega arith, omega arith, (omega arith, omega arith, omega arith, tt)) refl

abbrev no_reference : Reference
no_reference = record { last_send_time_us = 0; last_recv_time_us = 0; have_prev_ref = false }

parsed_bounded_example :
    ((parsed sender.history no_reference packet).lost
        + (parsed sender.history no_reference packet).received
      ≤ field16 packet 14)
    × ((parsed sender.history no_reference packet).lost
          + (parsed sender.history no_reference packet).received
        ≤ 1024)
    × (length (parsed sender.history no_reference packet).deltas_us ≤ 64)
parsed_bounded_example = parsed_bounded sender.history no_reference packet
