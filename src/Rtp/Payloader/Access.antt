-- ===== src/Rtp/Payloader/Access.antt =====
-- src/rtp_payloader.c: how a whole buffer becomes packets, for each codec, and what the sink pad does.
use zstreamer.Common.{
  ℕ, zero, suc, ◌+◌, ◌-◌, ◌*◌, ◌/◌, min, Bool, true, false, ◌&&◌, ◌||◌, Option, none, some, List,
  [], ◌∷◌, ltb, leb, ◌==◌, if◌then◌else◌, get_or, length,
}
use zstreamer.Common.Bytes.{take_bytes, drop_bytes}
use zstreamer.Types.{ZstResult, ok, error, add32}
use zstreamer.Rtp.{Codec, h264, h265, aac, pcm, Downstream, Packet, be16, keep, pts_to_rtp_ts}
use zstreamer.Rtp.StartCodes.{find_start_code}
use zstreamer.Rtp.Payloader.{Payloader, Stamp, push_packet, send_h264_nal, send_h265_nal}

-- `while (nal_end > nal_start && data[nal_end - 1] == 0) nal_end--;`
unfoldable pub without_zeros : List ℕ → ℕ → ℕ → ℕ
without_zeros media nal_start zero = zero
without_zeros media nal_start (suc e) =
    let shorter = without_zeros media nal_start e in
    if ltb nal_start (suc e) && (get_or media e 0 == 0) then shorter else suc e

-- `data + nal_start` with `nal_len`.
unfoldable pub nal_between : List ℕ → ℕ → ℕ → List ℕ
unfolding without_zeros
nal_between media nal_start nal_end =
    take_bytes (without_zeros media nal_start nal_end - nal_start) (drop_bytes nal_start media)

-- What sends a unit: `rtp_payloader_send_h264_nal` or the one of H.265.
abbrev pub Send : Type 0 → Type 0
Send W = List ℕ → Stamp → Payloader → W → Option (ZstResult × Payloader × W)

module _ {W : Type 0} where
  -- A unit that is not empty is sent, and its result kept.
  unfoldable pub send_between :
      Send W → List ℕ → Stamp → ZstResult × Payloader × W → Option (ZstResult × Payloader × W)
  send_between send nal t (ret, s, w) =
      if length nal == 0
      then some (ret, s, w)
      else elim (send nal t s w) [ none ↦ none | some (one, s', w') ↦ some (keep ret one, s', w') ]

  -- The loop over the units of a buffer, which begins at a start code of the size `code` at `pos`. Each
  -- round goes forward by a start code at least; `none` says that the rounds did not suffice, or that
  -- a unit is sent forever.
  unfoldable pub send_nals :
      ℕ
      → Send W
      → List ℕ
      → Stamp
      → ℕ
      → ℕ
      → ZstResult × Payloader × W
      → Option (ZstResult × Payloader × W)
  unfolding send_between
  send_nals zero send media t pos code r = none
  send_nals (suc rounds) send media t pos code r = elim (find_start_code media (pos + code)) [
    | none ↦
        send_between send (nal_between media (pos + code) (length media))
          (record t { marker = true }) r
    | some (next, next_code) ↦
        elim (send_between send (nal_between media (pos + code) next) (record t { marker = false })
          r) [ none ↦ none | some r' ↦ send_nals rounds send media t next next_code r' ]
  ]

  -- `rtp_payloader_packetize_h264` and the one of H.265, which differ in what sends a unit only.
  unfoldable pub packetize_nals :
      Send W → List ℕ → ℕ → Payloader → W → Option (ZstResult × Payloader × W)
  unfolding send_nals
  packetize_nals send media pts_ns s w =
      let t : Stamp = record { ts = pts_to_rtp_ts pts_ns 90000; marker = true; pts_ns = pts_ns } in
      if length media == 0 then some (error, s, w) else elim (find_start_code media 0) [
        | none ↦ send media t s w
        | some (pos, code) ↦ send_nals (length media) send media t pos code (ok, s, w)
      ]

-- `channels * sample_size`, or 1. The product of two `int`s is taken not to overflow.
abbrev pub bytes_per_sample_frame : Payloader → ℕ
bytes_per_sample_frame s = if s.channels * s.sample_size == 0 then 1 else s.channels * s.sample_size

module _ {W : Type 0} (push : Downstream Packet W) where
  -- The AU headers section: its length in bits, and one header of 13 bits of size and 3 of index.
  unfoldable pub packetize_aac : List ℕ → ℕ → Payloader → W → ZstResult × Payloader × W
  packetize_aac media pts_ns s w =
      if (length media == 0) || ltb 0x1fff (length media) || ltb s.mtu (length media + 4)
      then (error, s, w)
      else push_packet push (0 ∷ 16 ∷ be16 (length media * 8)) media
          (record { ts = pts_to_rtp_ts pts_ns s.clock_rate; marker = true; pts_ns = pts_ns }) s w

  -- The loop over the pieces of a buffer of samples; `frame` is the size of a sample frame.
  unfoldable pub send_pieces :
      ℕ → List ℕ → ℕ → ℕ → ℕ → ℕ → ZstResult × Payloader × W → Option (ZstResult × Payloader × W)
  send_pieces zero media base_ts pts_ns frame off (ret, s, w) =
      if ltb off (length media) then none else some (ret, s, w)
  send_pieces (suc rounds) media base_ts pts_ns frame off (ret, s, w) =
      let chunk = min (length media - off) s.mtu in
      let sent =
        push_packet push [] (take_bytes chunk (drop_bytes off media))
          (record {
            ts = add32 base_ts (off / frame);
            marker = leb (length media) (off + chunk);
            pts_ns = pts_ns;
          })
          s w in
      let further =
        send_pieces rounds media base_ts pts_ns frame (off + chunk)
          (keep ret sent.0, sent.1, sent.2) in
      if ltb off (length media) then further else some (ret, s, w)

  unfoldable pub packetize_pcm : List ℕ → ℕ → Payloader → W → Option (ZstResult × Payloader × W)
  unfolding send_pieces
  packetize_pcm media pts_ns s w =
      if length media == 0
      then some (error, s, w)
      else send_pieces (length media) media (pts_to_rtp_ts pts_ns s.clock_rate) pts_ns
          (bytes_per_sample_frame s) 0 (ok, s, w)

  unfoldable pub packetize : Codec → List ℕ → ℕ → Payloader → W → Option (ZstResult × Payloader × W)
  unfolding packetize_nals packetize_aac packetize_pcm
  packetize h264 media pts_ns s w = packetize_nals (send_h264_nal push) media pts_ns s w
  packetize h265 media pts_ns s w = packetize_nals (send_h265_nal push) media pts_ns s w
  packetize aac media pts_ns s w = some (packetize_aac media pts_ns s w)
  packetize pcm media pts_ns s w = packetize_pcm media pts_ns s w

  -- `rtp_payloader_pad_push`: a buffer with the EOS flag or without bytes is passed over.
  unfoldable pub payloader_push :
      Bool → List ℕ → ℕ → Payloader → W → Option (ZstResult × Payloader × W)
  unfolding packetize
  payloader_push eos media pts_ns s w =
      if eos || (length media == 0)
      then some (ok, s, w)
      else (if ltb 0x7fffffff (length media)
          then some (error, s, w)
          else packetize s.codec media pts_ns s w)
