-- ===== src/Rtp/Tests.antt =====
-- Runs of the RTP elements on small buffers: units that are sent whole and in fragments, samples in
-- pieces, an AAC access unit, and a packet after a gap.
use zstreamer.Common.{
  ℕ, ◌+◌, ◌*◌, ◌/◌, ◌≤◌, ◌≡◌, ◌≢◌, refl, sym, ◌∙◌, Bool, true, false, ◌&&◌, some, List, [], ◌∷◌,
  ◌++◌, ltb, length, arith,
}
use zstreamer.Common.Bytes.{drop_bytes}
use zstreamer.Types.{ok, error, add32}
use zstreamer.Rtp.{Codec, h264, h265, aac, pcm, Downstream, Packet, Frame, pts_to_rtp_ts, ts_to_pts}
use zstreamer.Rtp.StartCodes.{code_at}
use zstreamer.Rtp.Payloader.{
  Payloader, create, rtp_header, make_packet, is_refused, advance, max_payload_bytes, push_packet,
  default_seq,
}
use zstreamer.Rtp.Payloader.Access.{packetize_pcm, packetize_aac}
use zstreamer.Rtp.Depayloader.{Depayloader, filled, parse_rtp}
use zstreamer.Rtp.Depayloader.Codecs.{depayloader_push}
use zstreamer.Rtp.Header.{sent_view, make_packet-Read}
use zstreamer.Rtp.Expects.{Expects, behind}
use zstreamer.Rtp.Nals.{setting}
use zstreamer.Rtp.AnnexB.{NalUnit, HasNoCode}
use zstreamer.Rtp.RoundTrip.{Through, payloader_push-h264, payloader_push-h265}
use zstreamer.Rtp.Pcm.{LastOut, packetize_pcm-refused, packetize_pcm-LastOut}
use zstreamer.Rtp.Aac.{packetize_aac-Frame}
use zstreamer.Rtp.Loss.{collect, run, Flagged, depayloader_push-Flagged}
use zstreamer.Rtp.Capacity.{depayloader_push-Fits}

-- A new payloader that is linked, with a small MTU.
abbrev sender : Codec → ℕ → Payloader
sender c m = record create { codec = c; mtu = m; linked = true }

abbrev receiver : Codec → ℕ → Depayloader
receiver c rate = record {
  codec = c;
  payload_type = 96;
  clock_rate = rate;
  channels = 1;
  sample_size = 2;
  expected_ssrc = 0;
  filter_ssrc = false;
  have_seq = false;
  next_seq = 0;
  au_data = [];
  au_cap = 0;
  au_ts = 0;
  au_pts = 0;
  au_active = false;
  h264_discontinuity_pending = false;
  packets = 0;
  bytes = 0;
  out_buffers = 0;
  out_bytes = 0;
  in_packets = 0;
  parse_errors = 0;
  dropped_packets = 0;
  linked = true;
}

abbrev always : ℕ → Bool
always n = true

served : (n : ℕ) → always n ≡ true
served n = refl

abbrev keep_packet : Downstream Packet (List Packet)
keep_packet p ps = (ok, ps ++ (p ∷ []))

agree : (c : Codec) (m rate : ℕ) → Expects (setting m c rate) (sender c m) (receiver c rate)
unfolding create default_seq
agree c m rate = record {
  sends = refl;
  pushes = refl;
  same_mtu = refl;
  same_codec = refl;
  same_rate = refl;
  same_type = refl;
  same_source = refl;
  in_sequence = refl;
  seq_fits = omega arith;
  ssrc_fits = omega arith;
  undisturbed = refl;
}

nonzero : List ℕ → Bool
nonzero [] = true
nonzero (b ∷ bs) = ltb 0 b && nonzero bs

nonzero-HasNoCode : (bs : List ℕ) → nonzero bs ≡ true → HasNoCode bs
unfolding nonzero code_at
nonzero-HasNoCode [] h = tt
nonzero-HasNoCode (b ∷ bs) h = (ground arith, nonzero-HasNoCode bs (ground arith))

-- A unit that fits one packet, with two zeros in it, and one that is sent in fragments at an MTU of 20.
abbrev short_unit : NalUnit
short_unit = record { long = true; nal = 65 ∷ 0 ∷ 0 ∷ 3 ∷ [] }

abbrev long_unit : NalUnit
long_unit = record { long = false; nal = 97 ∷ 2 ∷ 3 ∷ 4 ∷ 5 ∷ 6 ∷ 7 ∷ 8 ∷ 9 ∷ 10 ∷ [] }

payloader_push-h264_example :
    Through always collect h264 20 90000 0
      (short_unit ∷ long_unit ∷ [])
      (sender h264 20)
      (receiver h264 90000)
      []
unfolding nonzero code_at
payloader_push-h264_example =
    payloader_push-h264 always collect served 20 90000 0 short_unit (long_unit ∷ [])
      (sender h264 20) (receiver h264 90000) [] (omega arith) (omega arith) refl
      (agree h264 20 90000) refl
      (
        (
          (refl, (refl, (refl, (refl, tt)))),
          omega arith,
          (omega arith, ground arith, ground arith),
        ),
        (
          (
            nonzero-HasNoCode long_unit.nal refl,
            omega arith,
            (omega arith, ground arith, ground arith),
          ),
          tt,
        ),
      )
      (omega arith)

abbrev hevc_unit : NalUnit
hevc_unit = record { long = false; nal = 38 ∷ 2 ∷ 3 ∷ 4 ∷ 5 ∷ 6 ∷ 7 ∷ 8 ∷ 9 ∷ 10 ∷ [] }

payloader_push-h265_example :
    Through always collect h265 20 90000 0
      (hevc_unit ∷ [])
      (sender h265 20)
      (receiver h265 90000)
      []
unfolding nonzero
payloader_push-h265_example =
    payloader_push-h265 always collect served 20 90000 0 hevc_unit [] (sender h265 20)
      (receiver h265 90000) [] (omega arith) (omega arith) refl (agree h265 20 90000) refl
      (
        (
          nonzero-HasNoCode hevc_unit.nal refl,
          omega arith,
          (omega arith, ground arith, ground arith),
        ),
        tt,
      )
      (omega arith)

abbrev small_packet : Packet
small_packet = record { bytes = rtp_header (sender pcm 20) 7 true ++ (1 ∷ 2 ∷ 3 ∷ []); pts = 100 }

make_packet-Read_example :
    (parse_rtp small_packet.bytes ≡ some (sent_view (sender pcm 20) (1 ∷ 2 ∷ 3 ∷ []) 7 true))
    × (length small_packet.bytes ≤ 65507 + 128)
    × (true ≡ true → length small_packet.bytes ≤ 20)
    × ((advance (sender pcm 20) 15).seq ≡ 0x7001)
unfolding make_packet is_refused max_payload_bytes create default_seq
make_packet-Read_example =
    make_packet-Read (sender pcm 20) (1 ∷ []) (2 ∷ 3 ∷ []) 7 true 100 small_packet
      (advance (sender pcm 20) 15) (omega arith) (omega arith) (omega arith) refl

-- Six bytes of samples in strict mode at an MTU of 4: the first four are refused, the packet of the last
-- two is refused too, since it has 14 bytes.
packetize_pcm-refused_example :
    packetize_pcm keep_packet (1 ∷ 2 ∷ 3 ∷ 4 ∷ 5 ∷ 6 ∷ []) 0 (sender pcm 4) []
    ≡ some (error, sender pcm 4, [])
unfolding push_packet make_packet is_refused create max_payload_bytes default_seq
packetize_pcm-refused_example =
    packetize_pcm-refused keep_packet 1 0 (1 ∷ 2 ∷ 3 ∷ 4 ∷ []) (5 ∷ 6 ∷ []) (sender pcm 4) [] refl
      (omega arith) (refl, omega arith, omega arith)

abbrev loose : Payloader
loose = record (sender pcm 4) { strict_mtu = false }

loose-Expects : Expects (setting 4 pcm 48000) loose (receiver pcm 48000)
unfolding create default_seq
loose-Expects = record {
  sends = refl;
  pushes = refl;
  same_mtu = refl;
  same_codec = refl;
  same_rate = refl;
  same_type = refl;
  same_source = refl;
  in_sequence = refl;
  seq_fits = omega arith;
  ssrc_fits = omega arith;
  undisturbed = refl;
}

packetize_pcm-LastOut_example :
    LastOut always collect
      (setting 4 pcm 48000)
      (add32 (pts_to_rtp_ts 0 90000) (4 / 4))
      (5 ∷ 6 ∷ [])
      []
      (packetize_pcm
        (behind always collect)
        (1 ∷ 2 ∷ 3 ∷ 4 ∷ 5 ∷ 6 ∷ [])
        0
        loose
        (receiver pcm 48000, []))
unfolding create
packetize_pcm-LastOut_example =
    packetize_pcm-LastOut always collect served 4 48000 1 0 (1 ∷ 2 ∷ 3 ∷ 4 ∷ []) (5 ∷ 6 ∷ []) loose
      (receiver pcm 48000) [] loose-Expects refl (omega arith) (omega arith) refl
      (refl, omega arith, omega arith) (omega arith)

packetize_aac-Frame_example :
    (s' : Payloader) × (d' : Depayloader) × (packetize_aac
        (behind always collect)
        (1 ∷ 2 ∷ 3 ∷ [])
        0
        (sender aac 20)
        (receiver aac 48000, [])
      ≡ (
        ok,
        s',
        (
          d',
          record {
            content = 1 ∷ 2 ∷ 3 ∷ [];
            pts = ts_to_pts (pts_to_rtp_ts 0 90000) 48000;
            duration = 1024 * 1000000000 / 48000;
            discontinuity = false;
          }
              ∷ [],
        ),
      ))
    × Expects (setting 20 aac 48000) s' d'
unfolding create
packetize_aac-Frame_example =
    packetize_aac-Frame always collect served 20 48000 0 (1 ∷ 2 ∷ 3 ∷ []) (sender aac 20)
      (receiver aac 48000) [] (agree aac 20 48000) (omega arith) (omega arith) (omega arith)
      (omega arith)

-- The packet after a gap, with the marker, is a frame with the flag.
abbrev late : Depayloader
late = record (receiver h264 90000) { have_seq = true; next_seq = 5 }

abbrev late_packet : List ℕ
late_packet = 128 ∷ 224 ∷ 0 ∷ 9 ∷ 0 ∷ 0 ∷ 0 ∷ 7 ∷ 0 ∷ 0 ∷ 0 ∷ 1 ∷ 65 ∷ 66 ∷ []

late_frame :
    (run always ((false, late_packet) ∷ []) late []).1
    ≡ record {
      content = 0 ∷ 0 ∷ 0 ∷ 1 ∷ 65 ∷ 66 ∷ [];
      pts = ts_to_pts 7 90000;
      duration = 0;
      discontinuity = true;
    }
      ∷ []
unfolding depayloader_push parse_rtp drop_bytes ts_to_pts filled
late_frame = refl

cons_ne : (f : Frame) (fs : List Frame) → (f ∷ fs) ≢ []
cons_ne f fs = cc

depayloader_push-Flagged_example : Flagged (run always ((false, late_packet) ∷ []) late []).1
unfolding parse_rtp drop_bytes
depayloader_push-Flagged_example =
    depayloader_push-Flagged always late_packet
      (record {
        payload = 65 ∷ 66 ∷ [];
        payload_type = 96;
        marker = true;
        seq = 9;
        timestamp = 7;
        ssrc = 1;
      })
      [] late refl refl refl refl (ground arith) refl refl (λ e. cons_ne _ _ (sym late_frame ∙ e))

depayloader_push-Fits_example :
    length (depayloader_push always collect false late_packet (receiver pcm 48000) []).1.au_data
    ≤ (depayloader_push always collect false late_packet (receiver pcm 48000) []).1.au_cap
depayloader_push-Fits_example =
    depayloader_push-Fits always collect false late_packet (receiver pcm 48000) [] (omega arith)
