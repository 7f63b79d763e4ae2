-- ===== src/Rtp/Header.antt =====
-- The RTP header that src/rtp_payloader.c writes is the one that src/rtp_depayloader.c reads.
use zstreamer.Common.{
  ℕ, ◌+◌, ◌*◌, ◌/◌, ◌%◌, ◌^◌, ◌≤◌, ◌<◌, ◌≡◌, Bool, true, false, some, List, ◌++◌, if◌then◌else◌,
  leb, length, length-append, arith,
}
use zstreamer.Common.Bytes.{drop_bytes}
use zstreamer.Rtp.{Packet}
use zstreamer.Rtp.Payloader.{
  Payloader, rtp_header, is_refused, make_packet, advance, max_payload_bytes,
}
use zstreamer.Rtp.Depayloader.{View, hlen_of, header_end, parse_rtp}

-- What a receiver should see of a packet: the fields that the sender had when it made it.
abbrev pub sent_view : Payloader → List ℕ → ℕ → Bool → View
sent_view s payload rtp_ts marker = record {
  payload = payload;
  payload_type = s.payload_type % 128;
  marker = marker;
  seq = s.seq;
  timestamp = rtp_ts;
  ssrc = s.ssrc;
}

read-be16 : (n : ℕ) → n < 2 ^ 16 → n / 256 % 256 * 256 + n % 256 ≡ n
read-be16 n h = omega arith

read-be32 :
    (n : ℕ)
    → n < 2 ^ 32
    → n / 2 ^ 24 % 256 * 2 ^ 24 + n / 2 ^ 16 % 256 * 2 ^ 16 + n / 2 ^ 8 % 256 * 2 ^ 8 + n % 256 ≡ n
read-be32 n h = omega arith

marked : (n : ℕ) (m : Bool) → leb 128 (n % 128 + (if m then 128 else 0)) ≡ m
marked n true = ground arith
marked n false = ground arith

typed : (n : ℕ) (m : Bool) → (n % 128 + (if m then 128 else 0)) % 128 ≡ n % 128
typed n true = omega arith
typed n false = omega arith

pub parse_rtp-rtp_header :
    (s : Payloader) (payload : List ℕ) (rtp_ts : ℕ) (marker : Bool)
    → length payload + 12 ≤ 65535
    → s.seq < 2 ^ 16
    → rtp_ts < 2 ^ 32
    → s.ssrc < 2 ^ 32
    → parse_rtp (rtp_header s rtp_ts marker ++ payload) ≡ some (sent_view s payload rtp_ts marker)
unfolding parse_rtp rtp_header header_end hlen_of drop_bytes
parse_rtp-rtp_header s payload rtp_ts marker h q t c = ground (
  arith,
  read-be16 s.seq q,
  read-be32 rtp_ts t,
  read-be32 s.ssrc c,
  marked s.payload_type marker,
  typed s.payload_type marker,
)

pub length-rtp_header :
    (s : Payloader) (ts : ℕ) (m : Bool) (body : List ℕ)
    → length (rtp_header s ts m ++ body) ≡ length body + 12
unfolding rtp_header
length-rtp_header s ts m body = omega arith

-- A packet that is made reads back as the fields that its payloader had, followed by the header of the
-- format and the payload; it fits a buffer of the payloader's pool, which has 65507 + 128 bytes, and
-- in strict mode the MTU; and the payloader's sequence number goes up by one, modulo 2^16.
pub make_packet-Read :
    (s : Payloader) (header payload : List ℕ) (rtp_ts : ℕ) (marker : Bool) (pts_ns : ℕ) (p : Packet)
    (s' : Payloader)
    → s.seq < 2 ^ 16
    → rtp_ts < 2 ^ 32
    → s.ssrc < 2 ^ 32
    → make_packet s header payload rtp_ts marker pts_ns ≡ some (p, s')
    → (parse_rtp p.bytes ≡ some (sent_view s (header ++ payload) rtp_ts marker))
      × (length p.bytes ≤ 65507 + 128)
      × (s.strict_mtu ≡ true → length p.bytes ≤ s.mtu)
      × (s'.seq ≡ (s.seq + 1) % 2 ^ 16)
unfolding make_packet is_refused advance max_payload_bytes
make_packet-Read s header payload rtp_ts marker pts_ns p s' q t c e = ground (
  arith,
  length-append header payload,
  length-rtp_header s rtp_ts marker (header ++ payload),
  parse_rtp-rtp_header s (header ++ payload) rtp_ts marker,
)
