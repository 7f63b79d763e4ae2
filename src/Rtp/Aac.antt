-- ===== src/Rtp/Aac.antt =====
-- An AAC access unit through src/rtp_payloader.c and the depayloader behind it.
use zstreamer.Common.{
  ℕ, ◌+◌, ◌*◌, ◌/◌, ◌%◌, ◌^◌, ◌≤◌, ◌<◌, ◌≡◌, refl, ap, ◌∙◌, Bool, true, false, not, ◌||◌, List, ◌∷◌,
  ◌++◌, ltb, ◌==◌, length, arith, if_intro,
}
use native.Mathlib.Nat.{div-le_self}
use zstreamer.Common.Bytes.{take_bytes, drop_bytes}
use zstreamer.Types.{ZstResult, ok, add64, u64_mod}
use zstreamer.Rtp.{aac, be16, read16, Downstream, Packet, Frame, keep, pts_to_rtp_ts, ts_to_pts}
use zstreamer.Rtp.Payloader.{Payloader, push_packet, advance}
use zstreamer.Rtp.Payloader.Access.{packetize_aac}
use zstreamer.Rtp.Depayloader.{Depayloader, push_bytes}
use zstreamer.Rtp.Depayloader.Codecs.{depay, depay_aac, push_aac_units}
use zstreamer.Rtp.Header.{sent_view}
use zstreamer.Rtp.Expects.{Setting, Expects, behind, received, push_packet-Expects}
use zstreamer.Rtp.Fragments.{advance-Expects}
use zstreamer.Rtp.Nals.{setting}
use zstreamer.Rtp.RoundTrip.{pts_to_rtp_ts-lt}
use zstreamer.Rtp.Rounds.{keep_ok, take_all}
use zstreamer.Rtp.Samples.{pushed_frame, counted_out}

ts_to_pts-lt : (ts rate : ℕ) → ts_to_pts ts rate < 2 ^ 64
unfolding ts_to_pts
ts_to_pts-lt ts rate =
    if_intro (λ t. t < 2 ^ 64) (rate == 0) (λ _. omega arith)
      (λ _. omega (arith, div-le_self (ts * 1000000000 % u64_mod) rate))

behind_header : (a b : ℕ) (media : List ℕ) → drop_bytes 4 (0 ∷ 16 ∷ a ∷ b ∷ media) ≡ media
unfolding drop_bytes
behind_header a b media = refl

aac_way :
    {W : Type 0} (push : Downstream Packet W) (media : List ℕ) (pts_ns : ℕ) (s : Payloader) (w : W)
    → 0 < length media
    → length media ≤ 0x1fff
    → length media + 4 ≤ s.mtu
    → packetize_aac push media pts_ns s w
      ≡ push_packet push
          (0 ∷ 16 ∷ be16 (length media * 8))
          media
          (record { ts = pts_to_rtp_ts pts_ns s.clock_rate; marker = true; pts_ns = pts_ns })
          s
          w
unfolding packetize_aac
aac_way push media pts_ns s w n h l = ground arith

counted_out-Expects :
    (g : Setting) (s : Payloader) (d : Depayloader) (n : ℕ)
    → Expects g s d
    → Expects g s (counted_out d n)
counted_out-Expects g s d n x = ground arith

module _ {V : Type 0} (serves : ℕ → Bool) (push : Downstream Frame V)
    (served : (n : ℕ) → serves n ≡ true) where
  one_unit :
      (p media : List ℕ) (base_pts : ℕ) (d : Depayloader) (v : V)
      → drop_bytes 4 p ≡ media
      → read16 p 2 / 8 ≡ length media
      → length p ≡ 4 + length media
      → 0 < length media
      → base_pts < 2 ^ 64
      → push_aac_units serves push 1 p 0 4 base_pts (ok, d, v)
        ≡ push_bytes push media base_pts (1024 * 1000000000 / d.clock_rate) false d v
  unfolding push_aac_units
  one_unit p media base_pts d v e a l n b =
      let duration = 1024 * 1000000000 / d.clock_rate in
      let unit = read16 p 2 / 8 in
      let bytes : take_bytes unit (drop_bytes 4 p) ≡ media =
        ap (take_bytes unit) e ∙ take_all unit media (omega arith) in
      let pts : add64 base_pts (0 / d.clock_rate) ≡ base_pts =
        omega (arith, div-le_self 0 d.clock_rate) in
      let given : ZstResult × Depayloader × V = push_bytes push media base_pts duration false d v in
      if_intro (λ r. r ≡ given) ((unit == 0) || ltb (length p) (4 + unit))
        (λ g. absurd (ground (arith, g)))
        (λ _.
          if_intro (λ r. r ≡ given) (serves unit)
            (λ _.
              ap (λ r. (keep ok r.0, r.1, r.2))
                (ap
                    (λ bs.
                      push_bytes push bs (add64 base_pts (0 / d.clock_rate)) duration false d v)
                    bytes
                  ∙ ap (λ t. push_bytes push media t duration false d v) pts)
              ∙ ap (λ r. (r, given.1, given.2)) (keep_ok given.0))
            (λ g. absurd (ground (arith, g, served unit))))

  -- The payload that `rtp_payloader_packetize_aac` makes.
  abbrev aac_payload : List ℕ → List ℕ
  aac_payload media = 0 ∷ 16 ∷ (be16 (length media * 8) ++ media)

  depay_aac_lem :
      (s : Payloader) (media : List ℕ) (ts : ℕ) (d : Depayloader) (v : V)
      → 0 < length media
      → length media ≤ 0x1fff
      → depay serves push aac (sent_view s (aac_payload media) ts true) d v
        ≡ push_bytes push media
            (ts_to_pts ts d.clock_rate)
            (1024 * 1000000000 / d.clock_rate)
            false
            d
            v
  unfolding depay depay_aac
  depay_aac_lem s media ts d v n h =
      let p = aac_payload media in
      let given : ZstResult × Depayloader × V =
        push_bytes push media (ts_to_pts ts d.clock_rate) (1024 * 1000000000 / d.clock_rate) false d
          v in
      if_intro (λ r. r ≡ given)
        (ltb (length p) 4 || (16 == 0) || not (16 % 16 == 0) || ltb (length p) 4)
        (λ g. absurd (ground (arith, g)))
        (λ _.
          one_unit p media (ts_to_pts ts d.clock_rate) d v dropped (omega arith) (omega arith) n
            (ts_to_pts-lt ts d.clock_rate))
    where
      dropped : drop_bytes 4 (aac_payload media) ≡ media
      dropped = behind_header (length media * 8 / 256 % 256) (length media * 8 % 256) media

  -- An AAC access unit of at most 8191 bytes, for which the MTU has room with the 16 bytes of the two
  -- headers, goes into a payloader that is linked to a depayloader of AAC that agrees with it. One frame
  -- comes out, with the same bytes, the time of the packet and the duration of 1024 samples, and the
  -- two agree again.
  pub packetize_aac-Frame :
      (m q pts_ns : ℕ) (media : List ℕ) (s : Payloader) (d : Depayloader) (v : V)
      → Expects (setting m aac q) s d
      → m ≤ 65507
      → 0 < length media
      → length media ≤ 0x1fff
      → length media + 16 ≤ m
      → let frame : Frame = record {
        content = media;
        pts = ts_to_pts (pts_to_rtp_ts pts_ns s.clock_rate) q;
        duration = 1024 * 1000000000 / q;
        discontinuity = false;
      } in
        (s' : Payloader) × (d' : Depayloader) × (packetize_aac
            (behind serves push)
            media
            pts_ns
            s
            (d, v)
          ≡ ((push frame v).0, s', (d', (push frame v).1)))
        × Expects (setting m aac q) s' d'
  packetize_aac-Frame m q pts_ns media s d v x hm n h l =
      let ts = pts_to_rtp_ts pts_ns s.clock_rate in
      let size = length media + 4 + 12 in
      let ready = received s size d in
      let s' = advance s size in
      let mtu : s.mtu ≡ m = x.same_mtu in
      let duration = 1024 * 1000000000 / q in
      (
        s',
        counted_out ready (length media),
        aac_way (behind serves push) media pts_ns s (d, v) n h (omega (arith, mtu))
            ∙ push_packet-Expects serves push (setting m aac q) s d
                (0 ∷ 16 ∷ be16 (length media * 8)) media _ v x
                (pts_to_rtp_ts-lt pts_ns s.clock_rate) hm (omega arith)
            ∙ ap (λ r. (r.0, s', (r.1, r.2)))
                (depay_aac_lem s media ts ready v n h
                  ∙ ap
                      (λ rate.
                        push_bytes push media (ts_to_pts ts rate) (1024 * 1000000000 / rate) false
                          ready v)
                      x.same_rate
                  ∙ pushed_frame serves push media (ts_to_pts ts q) duration ready v n x.pushes),
        counted_out-Expects (setting m aac q) s' ready (length media)
            (advance-Expects (setting m aac q) s d size size x),
      )
