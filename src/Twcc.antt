-- ===== src/Twcc.antt =====
-- src/zst_webrtc_twcc.c: transport-wide congestion control of a WebRTC sender. A message is the list of
-- its bytes. Here is the sending side: the header extension that each outgoing RTP packet gets, and
-- the history of what was sent when.
pub mod Injection
pub mod Estimator
pub mod Feedback
pub mod History
mod Tests
use Prim.Native.Nat.{bit_or}
use zstreamer.Common.{
  ℕ, zero, suc, ◌+◌, ◌*◌, ◌/◌, ◌%◌, ◌^◌, Bool, true, false, not, ◌&&◌, ◌||◌, Option, none, some,
  List, [], ◌∷◌, ◌++◌, ltb, leb, ◌==◌, if◌then◌else◌, get_or, length,
}
use zstreamer.Common.Bytes.{take_bytes, drop_bytes}

pub history_size : ℕ
history_size = 8192

pub record Sent : Type 0 where
  pub seq_num : ℕ
  pub send_time_us : ℕ
  pub packet_size : ℕ

-- The fields of `zst_webrtc_twcc` that sending uses. `none` is an `extmap_id` below 0.
pub record Sender : Type 0 where
  pub extmap_id : Option ℕ
  pub seq_num : ℕ
  pub history : ℕ → Sent

pub create_sender : Sender
create_sender = record {
  extmap_id = none;
  seq_num = 1;
  history = λ i. record { seq_num = 0; send_time_us = 0; packet_size = 0 };
}

pub stamp : Sender → ℕ → ℕ → Sender
stamp s size now_us = record s {
  seq_num = (s.seq_num + 1) % 2 ^ 16;
  history = λ i.
      if i == s.seq_num % history_size
      then record { seq_num = s.seq_num; send_time_us = now_us; packet_size = size }
      else s.history i;
}

-- The header extension: 0xBEDE, one word, the identifier with a length, the number, a padding byte.
pub extension : ℕ → ℕ → List ℕ
extension id seq = 0xBE ∷ 0xDE ∷ 0 ∷ 1 ∷ (id * 16 + 1) % 256 ∷ seq / 256 % 256 ∷ seq % 256 ∷ 0 ∷ []

pub set_x : List ℕ → List ℕ
set_x [] = []
set_x (b ∷ bs) = bit_or b 0x10 ∷ bs

pub header_length : List ℕ → ℕ
header_length msg = 12 + get_or msg 0 0 % 16 * 4

-- Whether the guards of `zst_webrtc_twcc_process_outgoing` let a message through to be changed: an RTP
-- packet (not RTCP) of version 2, whole header, without an extension, that has room for one.
pub is_extensible : List ℕ → Bool
is_extensible msg =
    leb 12 (length msg)
    && (get_or msg 0 0 / 64 % 4 == 2)
    && not (leb 64 (get_or msg 1 0 % 128) && leb (get_or msg 1 0 % 128) 95)
    && leb (header_length msg) (length msg)
    && (get_or msg 0 0 / 16 % 2 == 0)
    && leb (length msg + 8) 2048

-- The message itself, or a new one with these bytes.
pub data Outgoing : Type 0 where
  passes : Outgoing
  creates : List ℕ → Outgoing

pub inject : ℕ → ℕ → List ℕ → List ℕ
inject id seq msg =
    set_x (take_bytes (header_length msg) msg)
    ++ (extension id seq ++ drop_bytes (header_length msg) msg)

pub process_outgoing : Sender → List ℕ → ℕ → Sender × Outgoing
process_outgoing s msg now_us = elim s.extmap_id [
  | none ↦ (s, passes)
  | some id ↦
      if is_extensible msg
      then (stamp s (length msg) now_us, creates (inject id s.seq_num msg))
      else (s, passes)
]
