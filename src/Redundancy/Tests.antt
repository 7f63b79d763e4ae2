-- ===== src/Redundancy/Tests.antt =====
-- Packets around the wrap of the sequence number, over both links.
use zstreamer.Common.{ℕ, ◌≡◌, ◌<◌, refl, true, false, none, some, List, [], ◌∷◌, arith, count, ◌^◌}
use zstreamer.Types.{add64}
use zstreamer.Redundancy.{
  Link, primary, backup, failover, recovery, Arrival, Demux, Effect, create, open_demux, push,
  mux_push,
}
use zstreamer.Redundancy.Reference.{Received, Within, fresh, referred, forwarded}
use zstreamer.Redundancy.Merge.{merges_links}
use zstreamer.Redundancy.Delivery.{passes_each_once}
use zstreamer.Redundancy.Links.{notices, Alternates, notices_alternate}
use zstreamer.Redundancy.Silence.{after, heard, failover_after_silence}

abbrev packet : Link → ℕ → ℕ → ℕ → Arrival
packet pad high low now = record {
  pad = pad;
  data_bytes = 128 ∷ 96 ∷ high ∷ low ∷ 0 ∷ 0 ∷ 0 ∷ 0 ∷ 0 ∷ 0 ∷ 0 ∷ 1 ∷ [];
  is_eos = false;
  now = now;
}

-- Over the wrap: the backup link brings a lost packet, and a copy of one that came.
abbrev stream : List Received
stream =
    record { arrival = packet primary 255 254 10; position = 65534 }
    ∷ record { arrival = packet primary 0 0 20; position = 65536 }
    ∷ record { arrival = packet backup 255 255 30; position = 65535 }
    ∷ record { arrival = packet backup 0 0 40; position = 65536 }
    ∷ []

stream-Within : Within 2048 none stream
unfolding zstreamer.Redundancy.sequence_number
stream-Within = (
  (omega arith, refl),
  tt,
  (
    (omega arith, refl),
    (omega arith, omega arith),
    (
      (omega arith, refl),
      (omega arith, omega arith),
      ((omega arith, refl), (omega arith, omega arith), tt),
    ),
  ),
)

stream-Near : Within (2 ^ 15) none stream
unfolding zstreamer.Redundancy.sequence_number
stream-Near = (
  (omega arith, refl),
  tt,
  (
    (omega arith, refl),
    (omega arith, omega arith),
    (
      (omega arith, refl),
      (omega arith, omega arith),
      ((omega arith, refl), (omega arith, omega arith), tt),
    ),
  ),
)

-- The order in which the packets leave.
leaves : forwarded true (open_demux create 0) stream ≡ 65534 ∷ 65536 ∷ 65535 ∷ []
unfolding forwarded open_demux create push zstreamer.Redundancy.admit zstreamer.Redundancy.advanced
    zstreamer.Redundancy.difference zstreamer.Redundancy.mark zstreamer.Redundancy.history_size
    zstreamer.Redundancy.nothing_seen zstreamer.Redundancy.clear_from zstreamer.Redundancy.follow
    zstreamer.Redundancy.switch zstreamer.Redundancy.sequence_number
leaves = refl

merges_links_example :
    forwarded true (open_demux create 0) stream
    ≡ referred fresh (65534 ∷ 65536 ∷ 65535 ∷ 65536 ∷ [])
merges_links_example = merges_links true create 0 stream stream-Near

passes_each_once_example : count 65536 (forwarded true (open_demux create 0) stream) ≡ 1
passes_each_once_example = passes_each_once true create 0 stream 65536 stream-Within

-- The primary link falls silent and comes back.
abbrev outage : List Arrival
outage =
    packet primary 0 1 100
    ∷ packet backup 0 2 700
    ∷ packet backup 0 3 710
    ∷ packet primary 0 4 900
    ∷ []

fails_over : notices true create outage ≡ failover ∷ recovery ∷ []
unfolding notices create push zstreamer.Redundancy.admit zstreamer.Redundancy.advanced
    zstreamer.Redundancy.difference zstreamer.Redundancy.mark zstreamer.Redundancy.history_size
    zstreamer.Redundancy.nothing_seen zstreamer.Redundancy.clear_from zstreamer.Redundancy.follow
    zstreamer.Redundancy.switch zstreamer.Redundancy.sequence_number
fails_over = refl

notices_alternate_example : Alternates primary (notices true create outage)
unfolding create
notices_alternate_example = notices_alternate true create outage

silent :
    (push true true
      (after true (open_demux create 0) (packet primary 0 1 100 ∷ []))
      (packet backup 0 2 700)).1.posts
    ≡ some failover
unfolding after open_demux create push zstreamer.Redundancy.admit zstreamer.Redundancy.advanced
    zstreamer.Redundancy.difference zstreamer.Redundancy.mark zstreamer.Redundancy.history_size
    zstreamer.Redundancy.nothing_seen zstreamer.Redundancy.clear_from zstreamer.Redundancy.follow
    zstreamer.Redundancy.switch zstreamer.Redundancy.sequence_number
silent = refl

failover_after_silence_example :
    (backup ≡ backup)
    × (add64
          (heard true (open_demux create 0) 0 (packet primary 0 1 100 ∷ []))
          create.failover_detection_ms
        < 700)
    × ((push true true
          (after true (open_demux create 0) (packet primary 0 1 100 ∷ []))
          (packet backup 0 2 700)).1.forwards
        ≡ true)
failover_after_silence_example =
    failover_after_silence true create 0 (packet primary 0 1 100 ∷ []) (packet backup 0 2 700)
      silent

mux_sends_both : mux_push true true ≡ primary ∷ backup ∷ []
unfolding mux_push
mux_sends_both = refl
