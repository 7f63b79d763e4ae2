-- ===== src/Rtp/Payloader.antt =====
-- src/rtp_payloader.c: the state of a payloader, its packets, and how a NAL unit is cut into fragments.
-- A buffer comes from the element's pool or from `malloc`; both are served here, and the bytes that
-- are written are the same. The caps and the text properties are left out.
pub mod Access
use zstreamer.Common.{
  ℕ, zero, suc, ◌+◌, ◌-◌, ◌*◌, ◌/◌, ◌%◌, ◌^◌, min, Bool, true, false, ◌&&◌, ◌||◌, Option, none,
  some, List, [], ◌∷◌, ◌++◌, ltb, leb, ◌==◌, if◌then◌else◌, get_or, length,
}
use zstreamer.Common.Bytes.{take_bytes, drop_bytes}
use zstreamer.Common.Integers.{ℤ, pos, negsuc, lower, is_below}
use zstreamer.Types.{ZstResult, ok, error, add32, add64}
use zstreamer.Rtp.{Codec, h264, Downstream, Packet, be16, be32, keep}

unfoldable pub max_payload_bytes : ℕ
max_payload_bytes = 65507

unfoldable pub default_seq : ℕ
default_seq = 0x7000

-- `rtp_payloader_t`. `linked` is `src_pad && src_pad->peer`.
pub record Payloader : Type 0 where
  pub codec : Codec
  pub payload_type : ℕ
  pub ssrc : ℕ
  pub seq : ℕ
  pub clock_rate : ℕ
  pub mtu : ℕ
  pub channels : ℕ
  pub sample_size : ℕ
  pub packets : ℕ
  pub bytes : ℕ
  pub ext_seq_num : ℕ
  pub st2110_mode : Bool
  pub ext_seq : Bool
  pub strict_mtu : Bool
  pub linked : Bool

unfoldable pub create : Payloader
unfolding default_seq
create = record {
  codec = h264;
  payload_type = 96;
  ssrc = 0x53545250;
  seq = default_seq;
  clock_rate = 90000;
  mtu = 1200;
  channels = 2;
  sample_size = 2;
  packets = 0;
  bytes = 0;
  ext_seq_num = 0;
  st2110_mode = false;
  ext_seq = true;
  strict_mtu = true;
  linked = false;
}

-- `rtp_payloader_open`; the extended sequence number is not reset.
unfoldable pub open_payloader : Payloader → Payloader
unfolding default_seq
open_payloader s = record s { seq = default_seq; packets = 0; bytes = 0 }

unfoldable pub rtp_header : Payloader → ℕ → Bool → List ℕ
rtp_header s rtp_ts marker =
    0x80
    ∷ (s.payload_type % 128 + (if marker then 128 else 0))
    ∷ (be16 s.seq ++ (be32 rtp_ts ++ be32 s.ssrc))

unfoldable pub advance : Payloader → ℕ → Payloader
advance s packet_len = record s {
  seq = (s.seq + 1) % 2 ^ 16;
  ext_seq_num = if (s.seq + 1) % 2 ^ 16 == 0 then add32 s.ext_seq_num 0x10000 else s.ext_seq_num;
  packets = add64 s.packets 1;
  bytes = add64 s.bytes packet_len;
}

-- Whether `rtp_payloader_make_packet` refuses a packet with so many bytes after the RTP header.
unfoldable pub is_refused : Payloader → ℕ → Bool
unfolding max_payload_bytes
is_refused s n = ltb max_payload_bytes n || (s.strict_mtu && ltb s.mtu (n + 12))

unfoldable pub make_packet :
    Payloader → List ℕ → List ℕ → ℕ → Bool → ℕ → Option (Packet × Payloader)
unfolding is_refused
make_packet s header payload rtp_ts marker pts_ns =
    if is_refused s (length payload + length header)
    then none
    else some (
      record { bytes = rtp_header s rtp_ts marker ++ (header ++ payload); pts = pts_ns },
      advance s (length payload + length header + 12),
    )

-- 1 before the fragment's type bits where it is the first, and where it is the last.
abbrev fu_bits : Bool → Bool → ℕ
fu_bits first last = (if first then 128 else 0) + (if last then 64 else 0)

-- The two bytes before a fragment of H.264, from the first byte of the unit: FU indicator, FU header.
unfoldable pub fu_a : ℕ → Bool → Bool → List ℕ
fu_a nal0 first last = (nal0 / 32 * 32 + 28) ∷ (nal0 % 32 + fu_bits first last) ∷ []

-- The three bytes before a fragment of H.265: the payload header of type 49, and the FU header. A byte
-- `& 0x81` keeps its top bit and its lowest one.
unfoldable pub fu_49 : ℕ → ℕ → Bool → Bool → List ℕ
fu_49 nal0 nal1 first last =
    (nal0 / 128 * 128 + nal0 % 2 + 98) ∷ nal1 ∷ (nal0 / 2 % 64 + fu_bits first last) ∷ []

-- What the functions below are given with the bytes: `ts`, `marker` and `pts_ns`.
pub record Stamp : Type 0 where
  pub ts : ℕ
  pub marker : Bool
  pub pts_ns : ℕ

module _ {W : Type 0} (push : Downstream Packet W) where
  unfoldable pub push_packet : List ℕ → List ℕ → Stamp → Payloader → W → ZstResult × Payloader × W
  unfolding make_packet
  push_packet header payload t s w = elim (make_packet s header payload t.ts t.marker t.pts_ns) [
    | none ↦ (error, s, w)
    | some (p, s') ↦ if s.linked then ((push p w).0, s', (push p w).1) else (ok, s', w)
  ]

  -- The loop over the fragments of a unit, at the offset `off`, with at most `limit` bytes in each. It
  -- ends when `off` has reached the end, and `none` says that so many rounds did not get there. With a
  -- limit of 0, `off` does not go forward, and no number of rounds is enough.
  unfoldable pub send_fragments :
      ℕ
      → (Bool → Bool → List ℕ)
      → ℕ
      → List ℕ
      → Stamp
      → ℕ
      → Bool
      → ZstResult × Payloader × W
      → Option (ZstResult × Payloader × W)
  unfolding push_packet
  send_fragments zero fu limit nal t off first (ret, s, w) =
      if ltb off (length nal) then none else some (ret, s, w)
  send_fragments (suc rounds) fu limit nal t off first (ret, s, w) =
      let chunk = min (length nal - off) limit in
      let last = leb (length nal) (off + chunk) in
      let sent =
        push_packet (fu first last) (take_bytes chunk (drop_bytes off nal))
          (record t { marker = t.marker && last }) s w in
      let further =
        send_fragments rounds fu limit nal t (off + chunk) false
          (keep ret sent.0, sent.1, sent.2) in
      if ltb off (length nal) then further else some (ret, s, w)

  -- The same loop where the limit is below 0, namely `-short`: `chunk` is then `-short` in every round,
  -- `rtp_payloader_make_packet` refuses a length below 0, and `off`, which may get below 0, goes back.
  unfoldable pub send_short :
      ℕ → ℕ → ℕ → ℤ → ZstResult × Payloader × W → Option (ZstResult × Payloader × W)
  send_short zero short nal_len off r = if is_below off nal_len then none else some r
  send_short (suc rounds) short nal_len off (ret, s, w) =
      let further = send_short rounds short nal_len (lower off short) (error, s, w) in
      if is_below off nal_len then further else some (ret, s, w)

  -- The loop from its start, with `max_payload` bytes for a fragment and the `k` bytes before it.
  unfoldable pub send_cut :
      ℕ
      → ℕ
      → (Bool → Bool → List ℕ)
      → List ℕ
      → Stamp
      → ℕ
      → ZstResult × Payloader × W
      → Option (ZstResult × Payloader × W)
  unfolding send_fragments send_short
  send_cut max_payload k fu nal t off r =
      if ltb max_payload k
      then send_short (length nal) (k - max_payload) (length nal) (pos off) r
      else send_fragments (length nal) fu (max_payload - k) nal t off true r

  -- The guards and the two ways to send a unit. The rounds are as many as the unit has bytes.
  unfoldable pub send_h264_nal : List ℕ → Stamp → Payloader → W → Option (ZstResult × Payloader × W)
  unfolding send_cut
  send_h264_nal nal t s w =
      if (length nal == 0) || ltb (s.mtu - 12) 1
      then some (error, s, w)
      else (if leb (length nal) (s.mtu - 12)
          then some (push_packet [] nal t s w)
          else send_cut (s.mtu - 12) 2 (fu_a (get_or nal 0 0)) nal t 1 (ok, s, w))

  unfoldable pub send_h265_nal : List ℕ → Stamp → Payloader → W → Option (ZstResult × Payloader × W)
  unfolding send_cut
  send_h265_nal nal t s w =
      if ltb (length nal) 2 || ltb (s.mtu - 12) 1
      then some (error, s, w)
      else (if leb (length nal) (s.mtu - 12)
          then some (push_packet [] nal t s w)
          else send_cut (s.mtu - 12) 3 (fu_49 (get_or nal 0 0) (get_or nal 1 0)) nal t 2 (ok, s, w))
