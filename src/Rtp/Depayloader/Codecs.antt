-- ===== src/Rtp/Depayloader/Codecs.antt =====
-- src/rtp_depayloader.c: what a packet does to the access unit, for each codec, and the sink pad.
use zstreamer.Common.{
  ℕ, zero, suc, ◌+◌, ◌*◌, ◌/◌, ◌%◌, ◌^◌, Bool, true, false, not, ◌&&◌, ◌||◌, Option, none, some,
  List, [], ◌∷◌, ltb, leb, ◌==◌, if◌then◌else◌, get_or, length,
}
use zstreamer.Common.Bytes.{take_bytes, drop_bytes}
use zstreamer.Types.{ZstResult, ok, error, add64, u64_mod}
use zstreamer.Rtp.{Codec, h264, h265, aac, pcm, Downstream, Frame, read16, ts_to_pts, keep}
use zstreamer.Rtp.Depayloader.{
  Depayloader, View, is_h264, reset_au, begin_au, append_au, append_unit, push_bytes, push_au,
  finish, parse_rtp,
}

-- `s->dropped_packets++`.
abbrev pub drop_packet : Depayloader → Depayloader
drop_packet s = record s { dropped_packets = add64 s.dropped_packets 1 }

module _ (serves : ℕ → Bool) where
  -- The units of an aggregation packet from `off` on, each after its 16-bit length. Each round goes
  -- forward by three bytes at least, so that as many rounds as there are bytes are enough. `none` is
  -- an append that failed.
  unfoldable pub append_units : ℕ → List ℕ → ℕ → Depayloader → Option Depayloader
  append_units zero p off s = some s
  append_units (suc rounds) p off s =
      let nal_len = read16 p off in
      let further : Option Depayloader =
        elim (append_unit serves s (take_bytes nal_len (drop_bytes (off + 2) p))) [
          | none ↦ none
          | some s' ↦ append_units rounds p (off + 2 + nal_len) s'
        ] in
      if leb (off + 2) (length p) && not ((nal_len == 0) || ltb (length p) (off + 2 + nal_len))
      then further
      else some s

  -- A fragment: `nal_header` stands before the first one, `body` is what follows the FU header.
  unfoldable pub append_fragment : Bool → List ℕ → List ℕ → Depayloader → ℕ → Option Depayloader
  unfolding begin_au append_unit append_au
  append_fragment start nal_header body s ts =
      if start
      then elim (append_unit serves (begin_au s ts) nal_header) [
        | none ↦ none
        | some s' ↦ append_au serves s' body
      ]
      else append_au serves s body

  module _ {W : Type 0} (push : Downstream Frame W) where
    -- `rtp_depayloader_depay_h264` and the one of H.265 on a fragment with its header parsed: one that
    -- is not the first is dropped unless it continues the current unit.
    unfoldable pub depay_fragment :
        Bool → List ℕ → List ℕ → View → Depayloader → W → ZstResult × Depayloader × W
    unfolding append_fragment finish
    depay_fragment start nal_header body rtp s w =
        if not start && (not s.au_active || not (s.au_ts == rtp.timestamp))
        then (ok, drop_packet s, w)
        else finish push s (append_fragment start nal_header body s rtp.timestamp) rtp.marker w

    unfoldable pub depay_h264 : View → Depayloader → W → ZstResult × Depayloader × W
    unfolding begin_au append_unit append_units depay_fragment finish
    depay_h264 rtp s w =
        let p = rtp.payload in
        let begun = begin_au s rtp.timestamp in
        let nal_type = get_or p 0 0 % 32 in
        let fu_header = get_or p 1 0 in
        if length p == 0
        then (error, s, w)
        else (if nal_type == 24
            then finish push begun (append_units (length p) p 1 begun) rtp.marker w
            else (if nal_type == 28
                then (if ltb (length p) 2
                    then (error, s, w)
                    else depay_fragment (leb 128 fu_header)
                        ((get_or p 0 0 / 32 * 32 + fu_header % 32) ∷ []) (drop_bytes 2 p) rtp s w)
                else finish push begun (append_unit serves begun p) rtp.marker w))

    unfoldable pub depay_h265 : View → Depayloader → W → ZstResult × Depayloader × W
    unfolding begin_au append_unit append_units depay_fragment finish
    depay_h265 rtp s w =
        let p = rtp.payload in
        let begun = begin_au s rtp.timestamp in
        let nal_type = get_or p 0 0 / 2 % 64 in
        let fu_header = get_or p 2 0 in
        if ltb (length p) 2
        then (error, s, w)
        else (if not (nal_type == 48) && not (nal_type == 49)
            then finish push begun (append_unit serves begun p) rtp.marker w
            else (if nal_type == 48
                then finish push begun (append_units (length p) p 2 begun) rtp.marker w
                else (if ltb (length p) 3
                    then (error, s, w)
                    else depay_fragment (leb 128 fu_header)
                        ((get_or p 0 0 / 128 * 128 + get_or p 0 0 % 2 + fu_header % 64 * 2)
                          ∷ get_or p 1 0
                          ∷ [])
                        (drop_bytes 3 p) rtp s w)))

    -- The loop over the access units of a packet; `left` of them are to come, and `i` have been.
    unfoldable pub push_aac_units :
        ℕ → List ℕ → ℕ → ℕ → ℕ → ZstResult × Depayloader × W → ZstResult × Depayloader × W
    unfolding push_bytes
    push_aac_units zero p i cursor base_pts r = r
    push_aac_units (suc left) p i cursor base_pts (ret, s, w) =
        let au_size = read16 p (2 + i * 2) / 8 in
        let pts = add64 base_pts (i * 1024 * 1000000000 % u64_mod / s.clock_rate) in
        let one =
          push_bytes push (take_bytes au_size (drop_bytes cursor p)) pts
            (1024 * 1000000000 / s.clock_rate) false s w in
        let further =
          push_aac_units left p (i + 1) (cursor + au_size) base_pts
            (keep ret one.0, one.1, one.2) in
        if (au_size == 0) || ltb (length p) (cursor + au_size)
        then (keep error ret, drop_packet s, w)
        else (if serves au_size then further else (error, s, w))

    unfoldable pub depay_aac : View → Depayloader → W → ZstResult × Depayloader × W
    unfolding push_aac_units
    depay_aac rtp s w =
        let p = rtp.payload in
        let au_bits = read16 p 0 in
        let data_off = 2 + (au_bits + 7) / 8 in
        if ltb (length p) 4 || (au_bits == 0) || not (au_bits % 16 == 0) || ltb (length p) data_off
        then (error, s, w)
        else push_aac_units (au_bits / 16) p 0 data_off (ts_to_pts rtp.timestamp s.clock_rate)
            (ok, s, w)

    -- The duration of the bytes that have been collected.
    unfoldable pub pcm_duration : Depayloader → ℕ
    pcm_duration s =
        if ltb 0 (s.channels * s.sample_size) && ltb 0 s.clock_rate
        then length s.au_data / (s.channels * s.sample_size) * 1000000000 % u64_mod / s.clock_rate
        else 0

    unfoldable pub depay_pcm : View → Depayloader → W → ZstResult × Depayloader × W
    unfolding begin_au append_au push_bytes reset_au pcm_duration
    depay_pcm rtp s w =
        let begun = begin_au s rtp.timestamp in
        if length rtp.payload == 0
        then (error, s, w)
        else elim (append_au serves begun rtp.payload) [
          | none ↦ (error, reset_au begun, w)
          | some s' ↦
              if rtp.marker
              then push_bytes push s'.au_data s'.au_pts (pcm_duration s') false
                  (record s' { au_data = []; au_cap = 0; au_active = false }) w
              else (ok, s', w)
        ]

    unfoldable pub depay : Codec → View → Depayloader → W → ZstResult × Depayloader × W
    unfolding depay_h264 depay_h265 depay_aac depay_pcm
    depay h264 = depay_h264
    depay h265 = depay_h265
    depay aac = depay_aac
    depay pcm = depay_pcm

    -- The order of the packets: one that is not the expected one drops the access unit.
    unfoldable pub in_order : View → Depayloader → Depayloader
    unfolding reset_au
    in_order rtp s =
        let gone : Depayloader = record (drop_packet (reset_au s)) {
          h264_discontinuity_pending = is_h264 s.codec || s.h264_discontinuity_pending;
        } in
        let seen : Depayloader = if s.have_seq && not (rtp.seq == s.next_seq) then gone else s in
        record seen { have_seq = true; next_seq = (rtp.seq + 1) % 2 ^ 16 }

    -- A packet that has been read, from its counters on.
    unfoldable pub accept : View → ℕ → Depayloader → W → ZstResult × Depayloader × W
    unfolding depay in_order
    accept rtp size s w =
        let counted : Depayloader = record s {
          packets = add64 s.packets 1;
          bytes = add64 s.bytes size;
        } in
        if not (rtp.payload_type == s.payload_type)
          || (s.filter_ssrc && not (rtp.ssrc == s.expected_ssrc))
        then (ok, drop_packet counted, w)
        else depay s.codec rtp (in_order rtp counted) w

    -- `rtp_depayloader_pad_push`: the end of the stream pushes what has been collected.
    unfoldable pub depayloader_push : Bool → List ℕ → Depayloader → W → ZstResult × Depayloader × W
    unfolding parse_rtp accept push_au
    depayloader_push eos p s w =
        let arrived : Depayloader = record s { in_packets = add64 s.in_packets 1 } in
        if eos then push_au push s w else elim (parse_rtp p) [
          | none ↦ (ok, record (drop_packet arrived) { parse_errors = add64 s.parse_errors 1 }, w)
          | some rtp ↦ accept rtp (length p) arrived w
        ]

-- `rtp_depayloader_open`: two of the counters, `in_packets` and `parse_errors`, are not reset.
unfoldable pub open_depayloader : Depayloader → Depayloader
unfolding reset_au
open_depayloader s = record (reset_au s) {
  have_seq = false;
  h264_discontinuity_pending = false;
  next_seq = 0;
  packets = 0;
  bytes = 0;
  out_buffers = 0;
  out_bytes = 0;
  dropped_packets = 0;
}

unfoldable pub close_depayloader : Depayloader → Depayloader
unfolding reset_au
close_depayloader s = record (reset_au s) { have_seq = false }
