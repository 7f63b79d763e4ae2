-- ===== src/Rtp/Expects.antt =====
-- A depayloader behind a payloader that it is set for: a packet that is sent comes to the function of
-- its codec. `V` is the state behind the depayloader.
use zstreamer.Common.{
  ℕ, ◌+◌, ◌%◌, ◌^◌, ◌≤◌, ◌<◌, ◌≡◌, ap, ◌∙◌, Bool, true, false, not, ◌&&◌, List, ◌++◌, ◌==◌, length,
  length-append, arith,
}
use zstreamer.Types.{ZstResult, add64}
use zstreamer.Rtp.{Codec, Downstream, Packet, Frame, ts_to_pts}
use zstreamer.Rtp.Payloader.{
  Payloader, Stamp, is_refused, make_packet, rtp_header, advance, push_packet, max_payload_bytes,
}
use zstreamer.Rtp.Depayloader.{Depayloader}
use zstreamer.Rtp.Depayloader.Codecs.{in_order, depay, accept, depayloader_push}
use zstreamer.Rtp.Header.{sent_view, parse_rtp-rtp_header, length-rtp_header}

-- What stays the same on both sides.
pub record Setting : Type 0 where
  pub mtu : ℕ
  pub codec : Codec
  pub rate : ℕ

-- The depayloader is set for what the payloader sends next, and has lost nothing.
pub record Expects (g : Setting) (s : Payloader) (d : Depayloader) : Type 0 where
  pub sends : s.linked ≡ true
  pub pushes : d.linked ≡ true
  pub same_mtu : s.mtu ≡ g.mtu
  pub same_codec : d.codec ≡ g.codec
  pub same_rate : d.clock_rate ≡ g.rate
  pub same_type : d.payload_type ≡ s.payload_type % 128
  pub same_source : (d.filter_ssrc && not (s.ssrc == d.expected_ssrc)) ≡ false
  pub in_sequence : (d.have_seq && not (s.seq == d.next_seq)) ≡ false
  pub seq_fits : s.seq < 2 ^ 16
  pub ssrc_fits : s.ssrc < 2 ^ 32
  pub undisturbed : d.h264_discontinuity_pending ≡ false

-- The access unit of this time stamp has these bytes.
pub record Collects (d : Depayloader) (ts : ℕ) (au : List ℕ) : Type 0 where
  pub active : d.au_active ≡ true
  pub same_ts : d.au_ts ≡ ts
  pub same_bytes : d.au_data ≡ au
  pub same_pts : d.au_pts ≡ ts_to_pts ts d.clock_rate

-- The depayloader when it has read the header of the packet that the payloader makes next.
abbrev pub received : Payloader → ℕ → Depayloader → Depayloader
received s size d = record d {
  in_packets = add64 d.in_packets 1;
  packets = add64 d.packets 1;
  bytes = add64 d.bytes size;
  have_seq = true;
  next_seq = (s.seq + 1) % 2 ^ 16;
}

module _ {V : Type 0} (serves : ℕ → Bool) (push : Downstream Frame V) where
  -- The depayloader, with what is behind it, as what is behind a payloader.
  abbrev pub behind : Downstream Packet (Depayloader × V)
  behind p (d, v) = let r = depayloader_push serves push false p.bytes d v in (r.0, (r.1, r.2))

  abbrev pub depayed :
      Codec → Payloader → List ℕ → Stamp → ℕ → Depayloader → V → ZstResult × Depayloader × V
  depayed c s payload t size d v =
      depay serves push c (sent_view s payload t.ts t.marker) (received s size d) v

  accept-Expects :
      (g : Setting) (s : Payloader) (d : Depayloader) (payload : List ℕ) (t : Stamp) (v : V)
      (size : ℕ)
      → Expects g s d
      → accept serves push
          (sent_view s payload t.ts t.marker)
          size
          (record d { in_packets = add64 d.in_packets 1 })
          v
        ≡ depayed g.codec s payload t size d v
  unfolding accept in_order
  accept-Expects g s d payload t v size x = ground arith

  arrived :
      (g : Setting) (s : Payloader) (d : Depayloader) (payload : List ℕ) (t : Stamp) (v : V)
      (size : ℕ)
      → Expects g s d
      → t.ts < 2 ^ 32
      → length payload + 12 ≤ 65535
      → length payload + 12 ≡ size
      → depayloader_push serves push false (rtp_header s t.ts t.marker ++ payload) d v
        ≡ depayed g.codec s payload t size d v
  unfolding depayloader_push
  arrived g s d payload t v size x h l e =
      let read = parse_rtp-rtp_header s payload t.ts t.marker l x.seq_fits h x.ssrc_fits in
      rw (read) (
        ap
          (λ n.
            accept serves push (sent_view s payload t.ts t.marker) n
              (record d { in_packets = add64 d.in_packets 1 }) v)
          (length-rtp_header s t.ts t.marker payload ∙ e)
        ∙ accept-Expects g s d payload t v size x)

  not_refused :
      (s : Payloader) (n m : ℕ) → s.mtu ≡ m → m ≤ 65507 → n + 12 ≤ m → is_refused s n ≡ false
  unfolding is_refused max_payload_bytes
  not_refused s n m e h l = ground arith

  pushed :
      (s : Payloader) (header payload : List ℕ) (t : Stamp) (d : Depayloader) (v : V)
      → is_refused s (length payload + length header) ≡ false
      → s.linked ≡ true
      → let r =
          depayloader_push serves push false
            (rtp_header s t.ts t.marker ++ (header ++ payload))
            d
            v in
        push_packet behind header payload t s (d, v)
        ≡ (r.0, advance s (length payload + length header + 12), (r.1, r.2))
  unfolding push_packet make_packet
  pushed s header payload t d v e l = ground (arith, e, l)

  -- A packet that is not refused comes to the function of its codec.
  pub push_packet-accepted :
      (g : Setting) (s : Payloader) (d : Depayloader) (header payload : List ℕ) (t : Stamp) (v : V)
      → Expects g s d
      → t.ts < 2 ^ 32
      → is_refused s (length payload + length header) ≡ false
      → length payload + length header + 12 ≤ 65535
      → let size = length payload + length header + 12 in
        let r = depayed g.codec s (header ++ payload) t size d v in
        push_packet behind header payload t s (d, v) ≡ (r.0, advance s size, (r.1, r.2))
  push_packet-accepted g s d header payload t v x h k l =
      pushed s header payload t d v k x.sends
      ∙ ap (λ r. (r.0, advance s (length payload + length header + 12), (r.1, r.2)))
          (arrived g s d (header ++ payload) t v _ x h (omega (arith, length-append header payload))
            (omega (arith, length-append header payload)))

  pub push_packet-Expects :
      (g : Setting) (s : Payloader) (d : Depayloader) (header payload : List ℕ) (t : Stamp) (v : V)
      → Expects g s d
      → t.ts < 2 ^ 32
      → g.mtu ≤ 65507
      → length payload + length header + 12 ≤ g.mtu
      → let size = length payload + length header + 12 in
        let r = depayed g.codec s (header ++ payload) t size d v in
        push_packet behind header payload t s (d, v) ≡ (r.0, advance s size, (r.1, r.2))
  push_packet-Expects g s d header payload t v x h k l =
      push_packet-accepted g s d header payload t v x h (not_refused s _ g.mtu x.same_mtu k l)
        (omega arith)
