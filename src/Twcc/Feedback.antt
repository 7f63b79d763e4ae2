-- ===== src/Twcc/Feedback.antt =====
-- `twcc_parse_ccfb` of src/zst_webrtc_twcc.c: the status chunks of a feedback message, the arrival times of
-- the packets that it reports, and what they do to the estimates. The offset into the message is
-- the list of the bytes that are left.
pub mod Chunks
pub mod Counts
use zstreamer.Common.{
  ℕ, zero, suc, ◌+◌, ◌*◌, ◌/◌, ◌%◌, ◌-◌, ◌^◌, Bool, true, false, not, ◌&&◌, ◌||◌, Option, none,
  some, List, [], ◌∷◌, ◌++◌, ltb, leb, ◌==◌, if◌then◌else◌, get_or, length, min, map,
}
use zstreamer.Types.{u64_mod, add64, sub64}
use zstreamer.Common.Bytes.{drop_bytes}
use zstreamer.Twcc.{Sender, Sent, history_size}
use zstreamer.Twcc.Estimator.{Floats, Estimator, feed}

-- A run of `run` equal statuses. `room` is how many statuses are still wanted and fit in the array.
pub run_statuses : ℕ → ℕ → ℕ → List ℕ
run_statuses zero st room = []
run_statuses (suc run) st zero = []
run_statuses (suc run) st (suc room) = st ∷ run_statuses run st room

-- The last `n` symbols of `bits` bits each: the highest first, so the shift is that of `n - 1` symbols.
pub vector_statuses : ℕ → ℕ → ℕ → ℕ → List ℕ
vector_statuses zero bits chunk room = []
vector_statuses (suc n) bits chunk zero = []
vector_statuses (suc n) bits chunk (suc room) =
    chunk / 2 ^ (n * bits) % 2 ^ bits ∷ vector_statuses n bits chunk room

pub chunk_statuses : ℕ → ℕ → List ℕ
chunk_statuses chunk room =
    if chunk / 2 ^ 15 % 2 == 0
    then run_statuses (chunk % 2 ^ 13) (chunk / 2 ^ 13 % 4) room
    else if chunk / 2 ^ 14 % 2 == 0
    then vector_statuses 14 1 chunk room
    else vector_statuses 7 2 chunk room

pub parse_chunks : List ℕ → ℕ → List ℕ × List ℕ
parse_chunks [] room = ([], [])
parse_chunks (a ∷ []) room = ([], a ∷ [])
parse_chunks (a ∷ b ∷ bytes) zero = ([], a ∷ b ∷ bytes)
parse_chunks (a ∷ b ∷ bytes) (suc room) =
    let now = chunk_statuses (a * 256 + b) (suc room) in
    let (more, left) = parse_chunks bytes (suc room - length now) in (now ++ more, left)

-- The state of the loop over the statuses. Times and their differences are 64-bit numbers, the latter in
-- two's complement; `deltas_us` has the last difference first.
pub record Walk : Type 0 where
  pub bytes : List ℕ
  pub seq : ℕ
  pub recv_time_us : ℕ
  pub lost : ℕ
  pub received : ℕ
  pub last_send_time_us : ℕ
  pub last_recv_time_us : ℕ
  pub have_prev_ref : Bool
  pub deltas_us : List ℕ

pub data WalkStep : Type 0 where
  goes_on : Walk → WalkStep
  breaks : Walk → WalkStep

-- `(uint64_t)(int32_t)(int16_t)` of a 16-bit number.
pub extend16 : ℕ → ℕ
extend16 v = if ltb v (2 ^ 15) then v else v + (u64_mod - 2 ^ 16)

-- The received packet, its arrival moved on by `delta` units of 250 microseconds.
pub note_arrival : (ℕ → Sent) → Walk → List ℕ → ℕ → Walk
note_arrival history w bytes delta = record w {
  bytes = bytes;
  seq = (w.seq + 1) % 2 ^ 16;
  recv_time_us = recv;
  last_send_time_us = if have then sent.send_time_us else w.last_send_time_us;
  last_recv_time_us = if have then recv else w.last_recv_time_us;
  have_prev_ref = have || w.have_prev_ref;
  deltas_us =
      if have && w.have_prev_ref && ltb (length w.deltas_us) 64
      then sub64 (sub64 recv w.last_recv_time_us) (sub64 sent.send_time_us w.last_send_time_us)
        ∷ w.deltas_us
      else w.deltas_us;
}
  where
    recv : ℕ
    recv = add64 w.recv_time_us (delta * 250 % u64_mod)

    sent : Sent
    sent = history (w.seq % history_size)

    have : Bool
    have = (sent.seq_num == w.seq) && not (sent.send_time_us == 0)

pub small_delta : (ℕ → Sent) → Walk → List ℕ → WalkStep
small_delta history w [] = breaks w
small_delta history w (a ∷ bytes) = goes_on (note_arrival history w bytes a)

pub large_delta : (ℕ → Sent) → Walk → List ℕ → WalkStep
large_delta history w [] = breaks w
large_delta history w (a ∷ []) = breaks w
large_delta history w (a ∷ b ∷ bytes) =
    goes_on (note_arrival history w bytes (extend16 (a * 256 + b)))

pub status_step : (ℕ → Sent) → ℕ → Walk → WalkStep
status_step history st w =
    if st == 0
    then goes_on (record w { lost = w.lost + 1; seq = (w.seq + 1) % 2 ^ 16 })
    else if st == 1
    then small_delta history (record w { received = w.received + 1 }) w.bytes
    else large_delta history (record w { received = w.received + 1 }) w.bytes

pub walk : (ℕ → Sent) → List ℕ → Walk → Walk
walk history [] w = w
walk history (st ∷ sts) w = elim (status_step history st w) [
  | goes_on w' ↦ walk history sts w'
  | breaks w' ↦ w'
]

-- The references to the last packet that feedback reported.
pub record Reference : Type 0 where
  pub last_send_time_us : ℕ
  pub last_recv_time_us : ℕ
  pub have_prev_ref : Bool

abbrev pub field16 : List ℕ → ℕ → ℕ
field16 msg i = get_or msg i 0 * 256 + get_or msg (i + 1) 0

pub parsed_statuses : List ℕ → List ℕ × List ℕ
parsed_statuses msg = parse_chunks (drop_bytes 20 msg) (min (field16 msg 14) 1024)

pub parsed : (ℕ → Sent) → Reference → List ℕ → Walk
parsed history r msg = walk history (parsed_statuses msg).0 (record {
  bytes = (parsed_statuses msg).1;
  seq = field16 msg 12;
  recv_time_us = (field16 msg 16 * 256 + get_or msg 18 0) * 64_000;
  lost = 0;
  received = 0;
  last_send_time_us = r.last_send_time_us;
  last_recv_time_us = r.last_recv_time_us;
  have_prev_ref = r.have_prev_ref;
  deltas_us = [];
})

pub reverse_onto : {A : Type 0} → List A → List A → List A
reverse_onto [] ys = ys
reverse_onto (x ∷ xs) ys = reverse_onto xs (x ∷ ys)

module _ (fl : Floats) where
  open fl use {F, div, decimal, of_int64}

  pub parse_ccfb :
      Sender → Reference → Estimator fl → List ℕ → ℕ → Reference × Estimator fl × Option ℕ
  parse_ccfb s r e msg now_us =
      if ltb (length msg) 20 || (field16 msg 14 == 0) then (r, e, none) else (
        record {
          last_send_time_us = w.last_send_time_us;
          last_recv_time_us = w.last_recv_time_us;
          have_prev_ref = w.have_prev_ref;
        },
        fed.0,
        fed.1,
      )
    where
      w : Walk
      w = parsed s.history r msg

      delay_ms : ℕ → F
      delay_ms d = div (of_int64 d) (decimal 1000 1)

      fed : Estimator fl × Option ℕ
      fed = feed fl e w.lost w.received (map delay_ms (reverse_onto w.deltas_us [])) now_us

  -- Feedback is an RTCP message of type 205 and format 15; everything else is let through unread.
  pub process_incoming :
      Sender → Reference → Estimator fl → List ℕ → ℕ → Reference × Estimator fl × Option ℕ
  process_incoming s r e msg now_us =
      if leb 4 (length msg) && (get_or msg 1 0 == 205) && (get_or msg 0 0 % 32 == 15)
      then parse_ccfb s r e msg now_us
      else (r, e, none)
