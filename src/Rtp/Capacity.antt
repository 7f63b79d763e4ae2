-- ===== src/Rtp/Capacity.antt =====
-- The bytes of an access unit that src/rtp_depayloader.c collects stay inside what it has allocated.
use Prim.Native.Nat.{bit_or}
use zstreamer.Common.{
  ℕ, zero, suc, ◌+◌, ◌-◌, ◌*◌, ◌/◌, ◌%◌, ◌^◌, ◌≤◌, ◌<◌, subst, Bool, true, false, not, ◌&&◌, ◌||◌,
  some, List, ◌++◌, ltb, leb, ◌==◌, length, length-append, arith, if_intro, option_intro,
}
use zstreamer.Common.Bits.{bit_or_low, bit_or-lt}
use native.Mathlib.Nat.{div-le_self, le_trans}
use zstreamer.Types.{ZstResult, ok, u64_mod}
use zstreamer.Rtp.{Codec, h264, h265, aac, pcm, Downstream, Frame, read16, ts_to_pts}
use zstreamer.Rtp.Depayloader.{
  Depayloader, View, reset_au, begin_au, grown, fill, filled, reserve_au, append_au, push_bytes,
  push_au, parse_rtp,
}
use zstreamer.Rtp.Depayloader.Codecs.{
  push_aac_units, depay_aac, depay_pcm, depay, in_order, accept, depayloader_push,
}
use zstreamer.Rtp.Preserve.{OnSome, OnSome-bind, Steps, depay_h264-After, depay_h265-After}

le-bit_or_left : (n a b : ℕ) → a ≤ n → a ≤ bit_or a b
le-bit_or_left zero a b h = omega arith
le-bit_or_left (suc n) zero b h = omega arith
le-bit_or_left (suc n) (suc a) b h =
    omega (arith, bit_or_low (suc a) b, le-bit_or_left n (suc a / 2) (b / 2) (omega arith))

le-fill : (k x : ℕ) → x ≤ fill k x
le-fill k x = le-bit_or_left x x (x / 2 ^ k) (omega arith)

fill-lt : (k x : ℕ) → x < 2 ^ 63 → fill k x < 2 ^ 63
fill-lt k x h = bit_or-lt 63 x (x / 2 ^ k) h (omega (arith, div-le_self x (2 ^ k)))

le-filled : (x : ℕ) → x ≤ filled x
unfolding filled
le-filled x = le_trans (le-fill 1 x) (
    le_trans (le-fill 2 _)
      (le_trans (le-fill 4 _) (le_trans (le-fill 8 _) (le_trans (le-fill 16 _) (le-fill 32 _)))))

filled-lt : (x : ℕ) → x < 2 ^ 63 → filled x < 2 ^ 63
unfolding filled
filled-lt x h =
    fill-lt 32 _ (fill-lt 16 _ (fill-lt 8 _ (fill-lt 4 _ (fill-lt 2 _ (fill-lt 1 x h)))))

pub le-grown : (need : ℕ) → need ≤ grown need
unfolding grown
le-grown need = ground (arith, le-filled (need - 1), filled-lt (need - 1))

-- `au_len <= au_cap`.
abbrev pub Fits : Depayloader → Type 0
Fits d = length d.au_data ≤ d.au_cap

module _ {W : Type 0} (serves : ℕ → Bool) (push : Downstream Frame W) where
  append_au-Fits : (d : Depayloader) (bs : List ℕ) → Fits d → OnSome Fits (append_au serves d bs)
  unfolding append_au reserve_au
  append_au-Fits d bs f =
      if_intro (OnSome Fits) (length bs == 0) (λ _. f)
        (λ _.
          OnSome-bind (λ s. (length s.au_data + length bs ≤ s.au_cap)) Fits
            (reserve_au serves d (length bs)) (λ s. some (record s { au_data = s.au_data ++ bs }))
            room (λ s h. omega (arith, length-append s.au_data bs)))
    where
      need : ℕ
      need = length d.au_data + length bs

      room : OnSome (λ s. length s.au_data + length bs ≤ s.au_cap) (reserve_au serves d (length bs))
      room =
          if_intro (OnSome (λ s. length s.au_data + length bs ≤ s.au_cap))
            (ltb (u64_mod - 1 - length d.au_data) (length bs)) (λ _. tt)
            (λ _.
              if_intro (OnSome (λ s. length s.au_data + length bs ≤ s.au_cap))
                (leb (length d.au_data + length bs) d.au_cap) (λ e. ground arith)
                (λ _.
                  if_intro (OnSome (λ s. length s.au_data + length bs ≤ s.au_cap))
                    (serves (grown (length d.au_data + length bs)))
                    (λ _. le-grown (length d.au_data + length bs)) (λ _. tt)))

  -- A property of a result, whatever is behind the depayloader.
  abbrev IsFit : ZstResult × Depayloader × W → Type 0
  IsFit r = Fits r.1

  push_bytes-Fits :
      (w : W) (bs : List ℕ) (pts duration : ℕ) (flag : Bool) (d : Depayloader)
      → Fits d
      → IsFit (push_bytes push bs pts duration flag d w)
  unfolding push_bytes
  push_bytes-Fits w bs pts duration flag d f =
      if_intro IsFit (length bs == 0) (λ _. f) (λ _. if_intro IsFit d.linked (λ _. f) (λ _. f))

  push_au-Fits : (w : W) (d : Depayloader) → Fits d → IsFit (push_au push d w)
  unfolding push_au reset_au
  push_au-Fits w d f =
      if_intro IsFit (not d.au_active || (length d.au_data == 0)) (λ _. omega arith)
        (λ _. push_bytes-Fits w d.au_data d.au_pts 0 _ _ (omega arith))

  reset_au-Fits : (d : Depayloader) → Fits (reset_au d)
  unfolding reset_au
  reset_au-Fits d = omega arith

  begin_au-Fits : (d : Depayloader) (ts : ℕ) → Fits d → Fits (begin_au d ts)
  unfolding begin_au reset_au
  begin_au-Fits d ts f = if_intro Fits (d.au_active && (d.au_ts == ts)) (λ _. f) (λ _. omega arith)

  fit_steps : Steps serves push (λ _. Fits)
  fit_steps = record {
    resets = λ w d f. reset_au-Fits d;
    begins = λ w d ts f. begin_au-Fits d ts f;
    appends = λ w d bs f. append_au-Fits d bs f;
    pushes = push_au-Fits;
    drops = λ w d f. f;
  }

  push_aac_units-Fits :
      (left : ℕ) (p : List ℕ) (i cursor base_pts : ℕ) (r : ZstResult × Depayloader × W)
      → IsFit r
      → IsFit (push_aac_units serves push left p i cursor base_pts r)
  unfolding push_aac_units
  push_aac_units-Fits zero p i cursor base_pts r f = f
  push_aac_units-Fits (suc left) p i cursor base_pts (ret, s, w) f =
      if_intro IsFit
        ((read16 p (2 + i * 2) / 8 == 0) || ltb (length p) (cursor + read16 p (2 + i * 2) / 8))
        (λ _. f)
        (λ _.
          if_intro IsFit (serves (read16 p (2 + i * 2) / 8))
            (λ _.
              push_aac_units-Fits left p (i + 1) _ base_pts _ (push_bytes-Fits w _ _ _ false s f))
            (λ _. f))

  depay_aac-Fits :
      (w : W) (rtp : View) (d : Depayloader) → Fits d → IsFit (depay_aac serves push rtp d w)
  unfolding depay_aac
  depay_aac-Fits w rtp d f =
      let p = rtp.payload in
      if_intro IsFit
        (ltb (length p) 4
          || (read16 p 0 == 0)
          || not (read16 p 0 % 16 == 0)
          || ltb (length p) (2 + (read16 p 0 + 7) / 8))
        (λ _. f)
        (λ _.
          push_aac_units-Fits (read16 p 0 / 16) p 0 (2 + (read16 p 0 + 7) / 8)
            (ts_to_pts rtp.timestamp d.clock_rate) (ok, d, w) f)

  depay_pcm-Fits :
      (w : W) (rtp : View) (d : Depayloader) → Fits d → IsFit (depay_pcm serves push rtp d w)
  unfolding depay_pcm reset_au
  depay_pcm-Fits w rtp d f =
      let begun = begin_au-Fits d rtp.timestamp f in
      if_intro IsFit (length rtp.payload == 0) (λ _. f)
        (λ _.
          option_intro IsFit (append_au serves (begin_au d rtp.timestamp) rtp.payload) _ _
            (λ _. omega arith)
            (λ s e.
              if_intro IsFit rtp.marker
                (λ _. push_bytes-Fits w s.au_data s.au_pts _ false _ (omega arith))
                (λ _.
                  subst (OnSome Fits) e
                    (append_au-Fits (begin_au d rtp.timestamp) rtp.payload begun))))

  depay-Fits :
      (c : Codec) (w : W) (rtp : View) (d : Depayloader)
      → Fits d
      → IsFit (depay serves push c rtp d w)
  unfolding depay
  depay-Fits h264 w rtp d f = depay_h264-After serves push (λ _. Fits) fit_steps w rtp d f
  depay-Fits h265 w rtp d f = depay_h265-After serves push (λ _. Fits) fit_steps w rtp d f
  depay-Fits aac w rtp d f = depay_aac-Fits w rtp d f
  depay-Fits pcm w rtp d f = depay_pcm-Fits w rtp d f

  in_order-Fits : (rtp : View) (d : Depayloader) → Fits d → Fits (in_order serves push rtp d)
  unfolding in_order reset_au
  in_order-Fits rtp d f =
      if_intro (λ s. Fits (record s { have_seq = true; next_seq = (rtp.seq + 1) % 2 ^ 16 }))
        (d.have_seq && not (rtp.seq == d.next_seq)) (λ _. omega arith) (λ _. f)

  accept-Fits :
      (w : W) (rtp : View) (size : ℕ) (d : Depayloader)
      → Fits d
      → IsFit (accept serves push rtp size d w)
  unfolding accept
  accept-Fits w rtp size d f =
      if_intro IsFit
        (not (rtp.payload_type == d.payload_type)
          || (d.filter_ssrc && not (rtp.ssrc == d.expected_ssrc)))
        (λ _. f) (λ _. depay-Fits d.codec w rtp _ (in_order-Fits rtp _ f))

  -- Whatever buffer comes, for every codec, whichever allocations are served: if the bytes of the access
  -- unit that have been collected fit what is allocated for them, they do so after the push. (The
  -- copies of an append go to the end of them, so they stay inside the allocation.)
  pub depayloader_push-Fits :
      (eos : Bool) (p : List ℕ) (d : Depayloader) (w : W)
      → length d.au_data ≤ d.au_cap
      → let d' = (depayloader_push serves push eos p d w).1 in length d'.au_data ≤ d'.au_cap
  unfolding depayloader_push
  depayloader_push-Fits true p d w f = push_au-Fits w d f
  depayloader_push-Fits false p d w f =
      option_intro IsFit (parse_rtp p) _ _ (λ _. f) (λ rtp _. accept-Fits w rtp (length p) _ f)
