-- ===== src/Rtp/Pcm.antt =====
-- Buffers of samples (PCM) through src/rtp_payloader.c and the depayloader behind it.
use zstreamer.Common.{
  ℕ, zero, suc, ◌+◌, ◌*◌, ◌/◌, ◌^◌, ◌≤◌, ◌<◌, ◌≡◌, ◌≢◌, refl, ap, sym, subst, ◌∙◌, inl, Bool, true,
  false, ◌&&◌, Option, some, List, [], ◌++◌, ◌==◌, length, length-append, arith,
}
use zstreamer.Common.Bits.{mod-ne_of_near, le-div}
use native.Mathlib.Nat.{div-le_self, div-add-mod}
use zstreamer.Common.Bytes.{take_bytes, drop_bytes, drop-append, length-take_min, length-drop_bytes}
use zstreamer.Types.{ZstResult, ok, error, add32}
use zstreamer.Rtp.{pcm, Downstream, Packet, Frame, keep, pts_to_rtp_ts, ts_to_pts}
use zstreamer.Rtp.Payloader.{Payloader, Stamp, push_packet}
use zstreamer.Rtp.Payloader.Access.{send_pieces, packetize_pcm, bytes_per_sample_frame}
use zstreamer.Rtp.Depayloader.{Depayloader}
use zstreamer.Rtp.Expects.{Setting, Expects, behind}
use zstreamer.Rtp.Rounds.{keep_ok}
use zstreamer.Rtp.Nals.{setting}
use zstreamer.Rtp.Pieces.{inner_piece, from_last, full_pieces_refused}
use zstreamer.Rtp.Samples.{samples, piece_done}

-- A buffer of samples: `n` pieces of an MTU each, and a last piece that is not empty.
abbrev pub PieceAfter : Payloader → ℕ → List ℕ → List ℕ → Type 0
PieceAfter s n front last = (length front ≡ n * s.mtu) × (0 < length last) × (length last ≤ s.mtu)

enough : (s : Payloader) (n : ℕ) → 0 < s.mtu → n ≤ n * s.mtu
enough s zero h = omega arith
enough s (suc n) h = omega (arith, enough s n h)

pcm_way :
    {W : Type 0} (push : Downstream Packet W) (media : List ℕ) (pts_ns : ℕ) (s : Payloader) (w : W)
    → 0 < length media
    → packetize_pcm push media pts_ns s w
      ≡ send_pieces push
          (length media)
          media
          (pts_to_rtp_ts pts_ns s.clock_rate)
          pts_ns
          (bytes_per_sample_frame s)
          0
          (ok, s, w)
unfolding packetize_pcm
pcm_way push media pts_ns s w h = ground arith

-- In strict mode, which a new payloader is in, a buffer of samples that is longer than the MTU has all
-- its pieces of full length refused: the state, the sequence number with it, and what is behind the
-- payloader stay as they were until the last piece, and the result is an error. That is since a piece
-- may have as many bytes as the MTU, and a packet in strict mode twelve fewer.
pub packetize_pcm-refused :
    {W : Type 0} (push : Downstream Packet W) (n pts_ns : ℕ) (front last : List ℕ) (s : Payloader)
    (w : W)
    → s.strict_mtu ≡ true
    → 0 < n
    → PieceAfter s n front last
    → let t : Stamp = record {
      ts = add32 (pts_to_rtp_ts pts_ns s.clock_rate) (length front / bytes_per_sample_frame s);
      marker = true;
      pts_ns = pts_ns;
    } in
      let r = push_packet push [] last t s w in
      packetize_pcm push (front ++ last) pts_ns s w ≡ some (keep error r.0, r.1, r.2)
packetize_pcm-refused push n pts_ns front last s w strict k (f, p, l) =
    let media = front ++ last in
    let length-media = length-append front last in
    pcm_way push media pts_ns s w (omega (arith, length-media))
    ∙ full_pieces_refused push media (pts_to_rtp_ts pts_ns s.clock_rate) pts_ns
        (bytes_per_sample_frame s) n (length media) 0 (length front) ok last s w strict p l
        (omega arith) length-media (drop-append (length front) front last refl)
        (omega (arith, length-media, enough s n (omega arith))) (inl k)

-- Pieces of an MTU, which holds a sample frame, have time stamps that differ.
stamps_differ :
    (base frame off m : ℕ)
    → 0 < frame
    → frame ≤ m
    → off + m < 2 ^ 31
    → add32 base (off / frame) ≢ add32 base ((off + m) / frame)
stamps_differ base frame off m p l h =
    mod-ne_of_near (base + off / frame) (base + (off + m) / frame) (2 ^ 32)
      (omega (
        arith,
        le-div (suc (off / frame)) (off + m) frame p (omega (arith, div-add-mod off frame)),
      ))
      (omega (arith, div-le_self (off + m) frame))

next_fresh :
    (d : Depayloader) (base frame off m : ℕ)
    → 0 < frame
    → frame ≤ m
    → off + m < 2 ^ 31
    → d.au_ts ≡ add32 base (off / frame)
    → (d.au_active && (d.au_ts == add32 base ((off + m) / frame))) ≡ false
next_fresh d base frame off m p l h e = ground (arith, stamps_differ base frame off m p l h)

frame_pos : (s : Payloader) → 0 < bytes_per_sample_frame s
frame_pos s = ground arith

module _ {V : Type 0} (serves : ℕ → Bool) (push : Downstream Frame V) where
  -- The loop ends, and one frame has come out, with these bytes.
  abbrev pub LastOut :
      Setting → ℕ → List ℕ → V → Option (ZstResult × Payloader × (Depayloader × V)) → Type 0
  LastOut g ts bs v o =
      (s' : Payloader) × (d' : Depayloader) × (duration : ℕ) × (o
        ≡ some (
          (push (samples serves push bs (ts_to_pts ts g.rate) duration) v).0,
          s',
          (d', (push (samples serves push bs (ts_to_pts ts g.rate) duration) v).1),
        ))
      × Expects g s' d'
      × (d'.au_active ≡ false)

  module _ (served : (n : ℕ) → serves n ≡ true) where
    pieces_done :
        (m q n rounds off at : ℕ) (media last : List ℕ) (base pts_ns frame : ℕ) (s : Payloader)
        (d : Depayloader) (v : V)
        → Expects (setting m pcm q) s d
        → s.strict_mtu ≡ false
        → m ≤ 65507
        → 0 < frame
        → frame ≤ m
        → length media ≤ 0x7fffffff
        → (d.au_active && (d.au_ts == add32 base (off / frame))) ≡ false
        → at ≡ off + n * s.mtu
        → length media ≡ at + length last
        → drop_bytes at media ≡ last
        → 0 < length last
        → length last ≤ s.mtu
        → n < rounds
        → LastOut
            (setting m pcm q)
            (add32 base (at / frame))
            last
            v
            (send_pieces (behind serves push) rounds media base pts_ns frame off (ok, s, (d, v)))
    pieces_done m q n zero off at media last base pts_ns frame s d v x st hm p l b h e c dr k r nr =
        absurd (omega arith)
    pieces_done m q zero (suc rounds) off at media last base pts_ns frame s d v x st hm p l b h e c
          dr k r nr =
        let mtu : s.mtu ≡ m = x.same_mtu in
        let here : at ≡ off = omega arith in
        let (s', d', duration, o, x', i) =
          piece_done serves push served m q true last (add32 base (at / frame)) pts_ns s d v x
            (ap (λ a. d.au_active && (d.au_ts == add32 base (a / frame))) here ∙ h) st k
            (omega (arith, mtu)) (omega arith) in
        let fr = samples serves push last (ts_to_pts (add32 base (at / frame)) q) duration in
        (
          s',
          d',
          duration,
          from_last (behind serves push) media base pts_ns frame rounds off at ok last s (d, v) here
                k r c dr
              ∙ ap (λ z. some (keep ok z.0, z.1, z.2)) o
              ∙ ap (λ z. some (z, s', (d', (push fr v).1))) (keep_ok (push fr v).0),
          x',
          i,
        )
    pieces_done m q (suc n) (suc rounds) off at media last base pts_ns frame s d v x st hm p l b h e
          c dr k r nr =
        let mtu : s.mtu ≡ m = x.same_mtu in
        let piece = take_bytes s.mtu (drop_bytes off media) in
        let long : length piece ≡ s.mtu =
          omega
            (arith, length-take_min s.mtu (drop_bytes off media), length-drop_bytes off media) in
        let (s', d', o, x', st', at_ts) =
          piece_done serves push served m q false piece (add32 base (off / frame)) pts_ns s d v x h
            st (omega (arith, mtu, long)) (omega (arith, mtu, long)) (omega arith) in
        let mtu' : s'.mtu ≡ s.mtu = x'.same_mtu ∙ sym mtu in
        let (s2, d2, duration, o2, x2, i) =
          pieces_done m q n rounds (off + s.mtu) at media last base pts_ns frame s' d' v x'
            (st' ∙ st) hm p l b
            (next_fresh d' base frame off s.mtu p (omega (arith, mtu)) (omega arith) at_ts)
            (omega (arith, ap (λ z. n * z) mtu')) c dr k (omega (arith, mtu')) (omega arith) in
        (
          s2,
          d2,
          duration,
          inner_piece (behind serves push) media base pts_ns frame rounds off ok s (d, v) _
                (omega arith) o
              ∙ o2,
          x2,
          i,
        )

    -- A buffer of samples goes into a payloader that is not in strict mode and is linked to a depayloader
    -- that agrees with it and has nothing open: its pieces of an MTU, if it is longer than that, and a
    -- last piece. One frame comes out, with the last piece only: each piece has a time stamp of its own,
    -- at which the depayloader discards what it has. A buffer that fits the MTU comes out whole. A
    -- sample frame is not longer than the MTU, and the buffer not longer than 2^31 - 1.
    pub packetize_pcm-LastOut :
        (m q n pts_ns : ℕ) (front last : List ℕ) (s : Payloader) (d : Depayloader) (v : V)
        → Expects (setting m pcm q) s d
        → s.strict_mtu ≡ false
        → m ≤ 65507
        → bytes_per_sample_frame s ≤ m
        → d.au_active ≡ false
        → PieceAfter s n front last
        → length (front ++ last) ≤ 0x7fffffff
        → LastOut
            (setting m pcm q)
            (add32 (pts_to_rtp_ts pts_ns s.clock_rate) (length front / bytes_per_sample_frame s))
            last
            v
            (packetize_pcm (behind serves push) (front ++ last) pts_ns s (d, v))
    packetize_pcm-LastOut m q n pts_ns front last s d v x st hm fr i (f, p, l) b =
        let media = front ++ last in
        let n' = length-append front last in
        let base = pts_to_rtp_ts pts_ns s.clock_rate in
        let at = length front in
        subst (LastOut (setting m pcm q) (add32 base (at / bytes_per_sample_frame s)) last v)
          (sym (pcm_way (behind serves push) media pts_ns s (d, v) (omega (arith, n'))))
          (pieces_done m q n (length media) 0 at media last base pts_ns (bytes_per_sample_frame s) s
            d v x st hm (frame_pos s) fr b (ground arith) (omega arith) n'
            (drop-append at front last refl) p l (omega (arith, n', enough s n (omega arith))))
