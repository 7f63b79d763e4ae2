-- ===== src/Rtp/RoundTrip.antt =====
-- What goes into a payloader comes out of the depayloader behind it: video.
use zstreamer.Common.{
  ℕ, ◌^◌, ◌≤◌, ◌<◌, ◌≡◌, subst, ◌∙◌, ap, true, false, some, List, ◌∷◌, length, arith, Bool,
  if_intro, refl, ltb, ◌==◌, sym, ◌++◌,
}
use zstreamer.Rtp.{Codec, h264, h265, Downstream, Frame, pts_to_rtp_ts, ts_to_pts}
use zstreamer.Rtp.Payloader.{Payloader, send_h264_nal, send_h265_nal}
use zstreamer.Rtp.Payloader.Access.{packetize, payloader_push}
use zstreamer.Rtp.Depayloader.{Depayloader}
use zstreamer.Rtp.Expects.{Setting, Expects, behind}
use zstreamer.Rtp.Nals.{setting, send_h264_nal-Delivered, send_h265_nal-Delivered}
use zstreamer.Rtp.AnnexB.{NalUnit, annex_b, with_codes, units-le-bytes}
use zstreamer.Rtp.Fragments.{Begun}
use zstreamer.Rtp.Units.{Delivered}
use zstreamer.Rtp.Buffers.{AreUnits, SendsWell, packetize_nals-Delivered}

pub pts_to_rtp_ts-lt : (pts rate : ℕ) → pts_to_rtp_ts pts rate < 2 ^ 32
unfolding pts_to_rtp_ts
pts_to_rtp_ts-lt pts rate = omega arith

module _ {V : Type 0} (serves : ℕ → Bool) (push : Downstream Frame V) where
  -- The frame of an access unit, with its time stamp at the depayloader's clock rate.
  abbrev pub whole_frame : ℕ → ℕ → List NalUnit → Frame
  whole_frame q pts_ns us = record {
    content = with_codes us;
    pts = ts_to_pts (pts_to_rtp_ts pts_ns 90000) q;
    duration = 0;
    discontinuity = false;
  }

  opened :
      (media : List ℕ) (pts_ns : ℕ) (s : Payloader) (w : Depayloader × V)
      → 0 < length media
      → length media ≤ 0x7fffffff
      → payloader_push (behind serves push) false media pts_ns s w
        ≡ packetize (behind serves push) s.codec media pts_ns s w
  unfolding payloader_push
  opened media pts_ns s w n l =
      let way = packetize (behind serves push) s.codec media pts_ns s w in
      if_intro (λ o. o ≡ way) (length media == 0) (λ e. absurd (ground arith))
        (λ _.
          if_intro (λ o. o ≡ way) (ltb 0x7fffffff (length media)) (λ e. absurd (ground arith))
            (λ _. refl))

  way_in :
      (c : Codec) (media : List ℕ) (pts_ns : ℕ) (s : Payloader) (w : Depayloader × V)
      → s.codec ≡ c
      → 0 < length media
      → length media ≤ 0x7fffffff
      → payloader_push (behind serves push) false media pts_ns s w
        ≡ packetize (behind serves push) c media pts_ns s w
  way_in c media pts_ns s w e n l =
      opened media pts_ns s w n l ∙ ap (λ k. packetize (behind serves push) k media pts_ns s w) e

  abbrev pub Through : Codec → ℕ → ℕ → ℕ → List NalUnit → Payloader → Depayloader → V → Type 0
  Through c m q pts_ns us s d v =
      (s' : Payloader) × (d' : Depayloader) × (payloader_push (behind serves push) false
          (annex_b us) pts_ns s (d, v)
        ≡ some
            ((push (whole_frame q pts_ns us) v).0, s', (d', (push (whole_frame q pts_ns us) v).1)))
      × Expects (setting m c q) s' d'
      × (d'.au_active ≡ false)

  -- From what the loop over the units gives.
  through :
      (c : Codec) (m q pts_ns : ℕ) (us : List NalUnit) (s : Payloader) (d : Depayloader) (v : V)
      → Delivered serves push
          (setting m c q)
          true
          (pts_to_rtp_ts pts_ns 90000)
          (with_codes us)
          v
          (payloader_push (behind serves push) false (annex_b us) pts_ns s (d, v))
      → Through c m q pts_ns us s d v
  through c m q pts_ns us s d v (s', r, d', v', e, (x, (er, ev, n))) = (
    s',
    d',
    e
        ∙ ap (λ r'. some (r', s', (d', v'))) er
        ∙ ap (λ w. some ((push (whole_frame q pts_ns us) v).0, s', (d', w))) ev,
    x,
    n,
  )

  module _ (served : (n : ℕ) → serves n ≡ true) where
    -- A buffer of H.264 units, each behind a start code of three or four bytes, goes into a payloader
    -- that is linked to a depayloader, with a codec, a payload type, a source and a sequence number
    -- that agree, an MTU from 15 to 65507, and nothing left open; every allocation is served. Then the
    -- push ends, the depayloader pushes one frame, the same units each behind a start code of four
    -- bytes, and the result is the one of that push; and the two agree again. A unit has a type other
    -- than 24 and 28, no start code in it, and does not end in a byte of 0.
    pub payloader_push-h264 :
        (m q pts_ns : ℕ) (u : NalUnit) (us : List NalUnit) (s : Payloader) (d : Depayloader) (v : V)
        → 15 ≤ m
        → m ≤ 65507
        → s.codec ≡ h264
        → Expects (setting m h264 q) s d
        → d.au_active ≡ false
        → AreUnits h264 (u ∷ us)
        → length (annex_b (u ∷ us)) ≤ 0x7fffffff
        → Through h264 m q pts_ns (u ∷ us) s d v
    unfolding packetize
    payloader_push-h264 m q pts_ns u us s d v lo hi e x n a l =
        let media = annex_b (u ∷ us) in
        through h264 m q pts_ns (u ∷ us) s d v (
          subst (Delivered serves push g true (pts_to_rtp_ts pts_ns 90000) (with_codes (u ∷ us)) v)
            (sym (way_in h264 media pts_ns s (d, v) e (omega (arith, units-le-bytes (u ∷ us))) l))
            (packetize_nals-Delivered serves push g (send_h264_nal (behind serves push)) u us pts_ns
              s d v well a l x n))
      where
        g : Setting
        g = setting m h264 q

        well :
            SendsWell serves push g
              (pts_to_rtp_ts pts_ns 90000)
              (send_h264_nal (behind serves push))
        well nal t acc s1 d1 v1 et plain x1 b c =
            subst
              (λ ts.
                Begun d1 ts acc
                → Delivered serves push g t.marker ts (acc ++ (0 ∷ 0 ∷ 0 ∷ 1 ∷ nal)) v1
                    (send_h264_nal (behind serves push) nal t s1 (d1, v1)))
              et
              (λ b'.
                send_h264_nal-Delivered serves push served m q hi nal t acc s1 d1 v1 lo plain x1 b'
                  (rw (et) (pts_to_rtp_ts-lt pts_ns 90000)) c)
              b

    -- The same for H.265, with an MTU from 16 to 65507 and units of two bytes at least, whose type is
    -- neither 48 nor 49.
    pub payloader_push-h265 :
        (m q pts_ns : ℕ) (u : NalUnit) (us : List NalUnit) (s : Payloader) (d : Depayloader) (v : V)
        → 16 ≤ m
        → m ≤ 65507
        → s.codec ≡ h265
        → Expects (setting m h265 q) s d
        → d.au_active ≡ false
        → AreUnits h265 (u ∷ us)
        → length (annex_b (u ∷ us)) ≤ 0x7fffffff
        → Through h265 m q pts_ns (u ∷ us) s d v
    unfolding packetize
    payloader_push-h265 m q pts_ns u us s d v lo hi e x n a l =
        let media = annex_b (u ∷ us) in
        through h265 m q pts_ns (u ∷ us) s d v (
          subst (Delivered serves push g true (pts_to_rtp_ts pts_ns 90000) (with_codes (u ∷ us)) v)
            (sym (way_in h265 media pts_ns s (d, v) e (omega (arith, units-le-bytes (u ∷ us))) l))
            (packetize_nals-Delivered serves push g (send_h265_nal (behind serves push)) u us pts_ns
              s d v well a l x n))
      where
        g : Setting
        g = setting m h265 q

        well :
            SendsWell serves push g
              (pts_to_rtp_ts pts_ns 90000)
              (send_h265_nal (behind serves push))
        well nal t acc s1 d1 v1 et plain x1 b c =
            subst
              (λ ts.
                Begun d1 ts acc
                → Delivered serves push g t.marker ts (acc ++ (0 ∷ 0 ∷ 0 ∷ 1 ∷ nal)) v1
                    (send_h265_nal (behind serves push) nal t s1 (d1, v1)))
              et
              (λ b'.
                send_h265_nal-Delivered serves push served m q hi nal t acc s1 d1 v1 lo plain x1 b'
                  (rw (et) (pts_to_rtp_ts-lt pts_ns 90000)) c)
              b
