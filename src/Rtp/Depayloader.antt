-- ===== src/Rtp/Depayloader.antt =====
-- src/rtp_depayloader.c: the state of a depayloader, the packet it reads, and the access unit that it
-- collects. Whether `realloc` and `malloc` serve a size is a parameter. The caps, the text properties
-- and the log are left out.
pub mod Codecs
use Prim.Native.Nat.{bit_or}
use zstreamer.Common.{
  ℕ, zero, suc, ◌+◌, ◌-◌, ◌*◌, ◌/◌, ◌%◌, ◌^◌, Bool, true, false, not, ◌&&◌, ◌||◌, Option, none,
  some, List, [], ◌∷◌, ◌++◌, ltb, leb, ◌==◌, if◌then◌else◌, get_or, length,
}
use zstreamer.Common.Bytes.{drop_bytes}
use zstreamer.Types.{ZstResult, ok, error, add64, u64_mod}
use zstreamer.Rtp.{Codec, h264, h265, aac, pcm, Downstream, Frame, read16, read32, ts_to_pts}

unfoldable pub max_packet : ℕ
max_packet = 65535

-- `rtp_depayloader_t`. The access unit's bytes are a list with `au_len` as its length, and `au_data` is
-- NULL where `au_cap` is 0. `linked` is `src_pad && src_pad->peer`.
pub record Depayloader : Type 0 where
  pub codec : Codec
  pub payload_type : ℕ
  pub clock_rate : ℕ
  pub channels : ℕ
  pub sample_size : ℕ
  pub expected_ssrc : ℕ
  pub filter_ssrc : Bool
  pub have_seq : Bool
  pub next_seq : ℕ
  pub au_data : List ℕ
  pub au_cap : ℕ
  pub au_ts : ℕ
  pub au_pts : ℕ
  pub au_active : Bool
  pub h264_discontinuity_pending : Bool
  pub packets : ℕ
  pub bytes : ℕ
  pub out_buffers : ℕ
  pub out_bytes : ℕ
  pub in_packets : ℕ
  pub parse_errors : ℕ
  pub dropped_packets : ℕ
  pub linked : Bool

-- `rtp_packet_view_t`.
pub record View : Type 0 where
  pub payload : List ℕ
  pub payload_type : ℕ
  pub marker : Bool
  pub seq : ℕ
  pub timestamp : ℕ
  pub ssrc : ℕ

abbrev pub is_h264 : Codec → Bool
is_h264 h264 = true
is_h264 _ = false

unfoldable pub reset_au : Depayloader → Depayloader
reset_au s = record s { au_data = []; au_cap = 0; au_ts = 0; au_pts = 0; au_active = false }

unfoldable pub begin_au : Depayloader → ℕ → Depayloader
unfolding reset_au
begin_au s ts =
    if s.au_active && (s.au_ts == ts)
    then s
    else record (reset_au s) { au_ts = ts; au_pts = ts_to_pts ts s.clock_rate; au_active = true }

-- `cap |= cap >> k`.
abbrev pub fill : ℕ → ℕ → ℕ
fill k cap = bit_or cap (cap / 2 ^ k)

-- Every bit below the highest one is set.
unfoldable pub filled : ℕ → ℕ
filled cap = fill 32 (fill 16 (fill 8 (fill 4 (fill 2 (fill 1 cap)))))

-- The capacity for `need` bytes: a power of two from 256 on, or the number itself where it is large.
unfoldable pub grown : ℕ → ℕ
grown need =
    if ltb ((u64_mod - 1) / 2) need
    then need
    else (let cap = (filled (need - 1) + 1) % u64_mod in if ltb cap 256 then 256 else cap)

unfoldable pub hlen_of : List ℕ → ℕ
hlen_of p = 12 + get_or p 0 0 % 16 * 4

-- The length of the whole header with its extension, where the packet has room for it.
unfoldable pub header_end : List ℕ → Option ℕ
unfolding hlen_of
header_end p =
    let ext = hlen_of p + (4 + read16 p (hlen_of p + 2) * 4) in
    if ltb (length p) (hlen_of p)
    then none
    else (if get_or p 0 0 / 16 % 2 == 1
        then (if ltb (length p) (hlen_of p + 4)
            then none
            else (if ltb (length p) ext then none else some ext))
        else some (hlen_of p))

unfoldable pub parse_rtp : List ℕ → Option View
unfolding max_packet header_end
parse_rtp p =
    if ltb (length p) 12 || ltb max_packet (length p) || not (get_or p 0 0 / 64 == 2)
    then none
    else elim (header_end p) [
      | none ↦ none
      | some hlen ↦ some (record {
        payload = drop_bytes hlen p;
        payload_type = get_or p 1 0 % 128;
        marker = leb 128 (get_or p 1 0);
        seq = read16 p 2;
        timestamp = read32 p 4;
        ssrc = read32 p 8;
      })
    ]

module _ (serves : ℕ → Bool) where
  -- `none` is the result 0, after which the caller resets the access unit.
  unfoldable pub reserve_au : Depayloader → ℕ → Option Depayloader
  unfolding grown
  reserve_au s extra =
      if ltb (u64_mod - 1 - length s.au_data) extra
      then none
      else (if leb (length s.au_data + extra) s.au_cap
          then some s
          else (if serves (grown (length s.au_data + extra))
              then some (record s { au_cap = grown (length s.au_data + extra) })
              else none))

  unfoldable pub append_au : Depayloader → List ℕ → Option Depayloader
  unfolding reserve_au
  append_au s bs = if length bs == 0 then some s else elim (reserve_au s (length bs)) [
    | none ↦ none
    | some s' ↦ some (record s' { au_data = s'.au_data ++ bs })
  ]

  -- `rtp_depayloader_append_start_code(s) && rtp_depayloader_append_au(s, nal, len)`.
  unfoldable pub append_unit : Depayloader → List ℕ → Option Depayloader
  unfolding append_au
  append_unit s nal = elim (append_au s (0 ∷ 0 ∷ 0 ∷ 1 ∷ [])) [
    | none ↦ none
    | some s' ↦ append_au s' nal
  ]

module _ {W : Type 0} (push : Downstream Frame W) where
  unfoldable pub push_bytes : List ℕ → ℕ → ℕ → Bool → Depayloader → W → ZstResult × Depayloader × W
  push_bytes bs pts duration discontinuity s w =
      let frame : Frame = record {
        content = bs;
        pts = pts;
        duration = duration;
        discontinuity = discontinuity;
      } in
      let counted : Depayloader = record s {
        out_buffers = add64 s.out_buffers 1;
        out_bytes = add64 s.out_bytes (length bs);
      } in
      if length bs == 0
      then (error, s, w)
      else (if s.linked then ((push frame w).0, counted, (push frame w).1) else (ok, counted, w))

  -- The access unit is taken out of the state before it is pushed; `au_ts` and `au_pts` stay.
  unfoldable pub push_au : Depayloader → W → ZstResult × Depayloader × W
  unfolding push_bytes reset_au
  push_au s w =
      let flagged = (is_h264 s.codec) && s.h264_discontinuity_pending in
      if not s.au_active || (length s.au_data == 0)
      then (ok, reset_au s, w)
      else push_bytes s.au_data s.au_pts 0 flagged
          (record s {
            au_data = [];
            au_cap = 0;
            au_active = false;
            h264_discontinuity_pending =
                if is_h264 s.codec then false else s.h264_discontinuity_pending;
          })
          w

  -- What a handler does after its calls of append: a failed one resets the access unit, and the
  -- marker pushes it.
  unfoldable pub finish : Depayloader → Option Depayloader → Bool → W → ZstResult × Depayloader × W
  unfolding push_au
  finish s appended marker w = elim appended [
    | none ↦ (error, reset_au s, w)
    | some s' ↦ if marker then push_au s' w else (ok, s', w)
  ]
