-- ===== src/Redundancy.antt =====
-- src/st2110_redundancy_mux.c and src/st2110_redundancy_demux.c: a stream that is sent over two links, and
-- the element that merges the copies by their RTP sequence numbers (SMPTE ST 2022-7).
pub mod Reference
pub mod Window
pub mod Steps
pub mod Merge
pub mod Delivery
pub mod Links
pub mod Silence
mod Tests
use zstreamer.Common.{
  ℕ, zero, suc, ◌+◌, ◌-◌, ◌*◌, ◌%◌, ◌^◌, Bool, true, false, not, ◌&&◌, ◌||◌, Option, none, some,
  List, [], ◌∷◌, ltb, leb, ◌==◌, if◌then◌else◌, get_or, length,
}
use zstreamer.Types.{add64}

-- The two sink pads; for `current_link`, `primary` is 0 and `backup` is 1.
pub data Link : Type 0 where
  primary backup : Link

-- `zst_event_new_redundancy_failover` and `_recovery`.
pub data Notice : Type 0 where
  failover recovery : Notice

pub history_size : ℕ
history_size = 4096

-- `st2110_redundancy_demux_t` without its pads and its lock. `failover_detection_ms` is the `uint64_t` to
-- which the `int` is converted in the sum that it is used in.
pub record Demux : Type 0 where
  pub failover_detection_ms : ℕ
  pub initialized : Bool
  pub highest_seq : ℕ
  pub seen_history : ℕ → Bool
  pub current_link : Link
  pub last_primary_time : ℕ

-- What a push does besides: whether it hands the buffer to `src_pad`, and what it posts on the bus.
pub record Effect : Type 0 where
  pub forwards : Bool
  pub posts : Option Notice

-- A buffer, with the sink pad that it comes in by and the reading of the clock during the push.
pub record Arrival : Type 0 where
  pub pad : Link
  pub data_bytes : List ℕ
  pub is_eos : Bool
  pub now : ℕ

pub sequence_number : List ℕ → ℕ
sequence_number bytes = get_or bytes 2 0 * 256 + get_or bytes 3 0

pub mark : (ℕ → Bool) → ℕ → Bool → ℕ → Bool
mark seen i b j = if j == i % history_size then b else seen j

pub nothing_seen : ℕ → Bool
nothing_seen j = false

-- `for (uint16_t i = from; i != seq; i++)`, on fuel.
pub clear_from : ℕ → ℕ → ℕ → (ℕ → Bool) → ℕ → Bool
clear_from zero i seq seen = seen
clear_from (suc fuel) i seq seen =
    let rest = clear_from fuel ((i + 1) % 2 ^ 16) seq (mark seen i false) in
    if i == seq then seen else rest

-- The 16 bits of `seq - s->highest_seq`; `diff` is this number, less 2^16 from 2^15 on.
pub difference : ℕ → ℕ → ℕ
difference seq highest = (seq + 2 ^ 16 - highest) % 2 ^ 16

-- The history of a newer packet: at most 4094 numbers lie between it and the highest one.
pub advanced : Demux → ℕ → ℕ → Bool
advanced s seq =
    mark
      (if leb history_size (difference seq s.highest_seq)
        then nothing_seen
        else clear_from history_size ((s.highest_seq + 1) % 2 ^ 16) seq s.seen_history)
      seq true

-- `none` where the packet is dropped, else the new history.
pub admit : Demux → ℕ → Option Demux
admit s seq =
    if not s.initialized
    then some (record s {
      initialized = true;
      highest_seq = seq;
      seen_history = mark nothing_seen seq true;
    })
    else if ltb 0 (difference seq s.highest_seq) && ltb (difference seq s.highest_seq) (2 ^ 15)
    then some (record s { highest_seq = seq; seen_history = advanced s seq })
    else if (difference seq s.highest_seq == 0)
        || ltb (2 ^ 16 - 2048) (difference seq s.highest_seq)
    then if s.seen_history (seq % history_size)
      then none
      else some (record s { seen_history = mark s.seen_history seq true })
    else none

-- Which link the stream comes by: from `current_link` and the pad. The first argument says whether the
-- element has a bus.
pub switch : Bool → Demux → Link → Link → ℕ → Demux × Option Notice
switch has_bus s primary primary now = (record s { last_primary_time = now }, none)
switch has_bus s backup primary now = (
  record s { last_primary_time = now; current_link = primary },
  if has_bus then some recovery else none,
)
switch has_bus s primary backup now =
    if ltb (add64 s.last_primary_time s.failover_detection_ms) now
    then (record s { current_link = backup }, if has_bus then some failover else none)
    else (s, none)
switch has_bus s backup backup now = (s, none)

pub follow : Bool → Demux → Link → ℕ → Demux × Option Notice
follow has_bus s pad now = switch has_bus s s.current_link pad now

-- The first argument says whether `src_pad` has a peer. Every branch returns `ZST_OK`.
pub push : Bool → Bool → Demux → Arrival → Demux × Effect
push has_peer has_bus s a =
    if ltb (length a.data_bytes) 12
    then (s, record { forwards = a.is_eos && has_peer; posts = none })
    else elim (admit s (sequence_number a.data_bytes)) [
      | none ↦ (s, record { forwards = false; posts = none })
      | some s' ↦
          let (s'', notice) = follow has_bus s' a.pad a.now in
          (s'', record { forwards = has_peer; posts = notice })
    ]

-- `zst_st2110_redundancy_demux_create`; `calloc` clears the other fields.
pub create : Demux
create = record {
  failover_detection_ms = 500;
  initialized = false;
  highest_seq = 0;
  seen_history = nothing_seen;
  current_link = primary;
  last_primary_time = 0;
}

pub open_demux : Demux → ℕ → Demux
open_demux s now = record s {
  initialized = false;
  highest_seq = 0;
  current_link = primary;
  last_primary_time = now;
  seen_history = nothing_seen;
}

-- `failover-detection-ms`, with what `atoi` made of the text.
pub set_failover_detection : Demux → ℕ → Demux
set_failover_detection s ms = record s { failover_detection_ms = ms }

-- The pads of the mux that get a buffer, in order; the arguments say which of its source pads have a peer.
pub mux_push : Bool → Bool → List Link
mux_push primary_linked backup_linked =
    if primary_linked
    then primary ∷ (if backup_linked then backup ∷ [] else [])
    else if backup_linked
    then backup ∷ []
    else []
