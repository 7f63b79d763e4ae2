-- ===== src/Rtp/Loss.antt =====
-- What src/rtp_depayloader.c does about lost packets of H.264: the flag on the next frame.
use zstreamer.Common.{
  ℕ, ◌+◌, ◌-◌, ◌%◌, ◌^◌, ◌≡◌, ◌≢◌, refl, sym, subst, ◌⊎◌, inl, inr, Bool, true, false, not, ◌&&◌,
  ◌||◌, some, List, [], ◌∷◌, ◌++◌, ltb, leb, ◌==◌, length, arith, if_intro, option_intro,
}
use zstreamer.Types.{ZstResult, ok, u64_mod, add64}
use zstreamer.Rtp.{Codec, h264, Downstream, Frame}
use zstreamer.Rtp.Preserve.{OnSome, OnSome-bind, Steps, depay_h264-After}
use zstreamer.Rtp.Depayloader.{
  Depayloader, View, grown, reset_au, begin_au, reserve_au, append_au, push_bytes, push_au,
  parse_rtp,
}
use zstreamer.Rtp.Depayloader.Codecs.{depay, in_order, accept, depayloader_push}

-- Behind the depayloader, a list of the frames that have come out.
abbrev pub collect : Downstream Frame (List Frame)
collect f fs = (ok, fs ++ (f ∷ []))

-- The first frame has the flag.
abbrev pub Flagged : List Frame → Type 0
Flagged [] = ⊥
Flagged (f ∷ fs) = f.discontinuity ≡ true

still-Flagged : (fs gs : List Frame) → Flagged fs → Flagged (fs ++ gs)
still-Flagged [] gs h = absurd h
still-Flagged (f ∷ fs) gs h = h

-- Either the flag is still to be set, or it was.
pub record Marked (fs : List Frame) (d : Depayloader) : Type 0 where
  pub is_video : d.codec ≡ h264
  pub is_linked : d.linked ≡ true
  pub marked : ((d.h264_discontinuity_pending ≡ true) × (fs ≡ [])) ⊎ Flagged fs

module _ (serves : ℕ → Bool) where
  reserve_au-Marked :
      (fs : List Frame) (d : Depayloader) (n : ℕ)
      → Marked fs d
      → OnSome (Marked fs) (reserve_au serves d n)
  unfolding reserve_au
  reserve_au-Marked fs d n m =
      if_intro (OnSome (Marked fs)) (ltb (u64_mod - 1 - length d.au_data) n) (λ _. tt)
        (λ _.
          if_intro (OnSome (Marked fs)) (leb (length d.au_data + n) d.au_cap) (λ _. m)
            (λ _.
              if_intro (OnSome (Marked fs)) (serves (grown (length d.au_data + n)))
                (λ _. ground arith) (λ _. tt)))

  append_au-Marked :
      (fs : List Frame) (d : Depayloader) (bs : List ℕ)
      → Marked fs d
      → OnSome (Marked fs) (append_au serves d bs)
  unfolding append_au
  append_au-Marked fs d bs m =
      if_intro (OnSome (Marked fs)) (length bs == 0) (λ _. m)
        (λ _.
          OnSome-bind (Marked fs) (Marked fs) (reserve_au serves d (length bs))
            (λ s. some (record s { au_data = s.au_data ++ bs }))
            (reserve_au-Marked fs d (length bs) m) (λ s h. ground arith))

  push_au-Marked :
      (fs : List Frame) (d : Depayloader)
      → Marked fs d
      → Marked (push_au collect d fs).2 (push_au collect d fs).1
  unfolding push_au push_bytes reset_au
  push_au-Marked fs d m = elim m.marked [
    | inl (p, e) ↦ ground (arith, p, e)
    | inr f ↦ ground (arith, still-Flagged fs)
  ]

  reset_au-Marked : (fs : List Frame) (d : Depayloader) → Marked fs d → Marked fs (reset_au d)
  unfolding reset_au
  reset_au-Marked fs d m = ground arith

  begin_au-Marked :
      (fs : List Frame) (d : Depayloader) (ts : ℕ) → Marked fs d → Marked fs (begin_au d ts)
  unfolding begin_au reset_au
  begin_au-Marked fs d ts m =
      if_intro (Marked fs) (d.au_active && (d.au_ts == ts)) (λ _. m) (λ _. ground arith)

  Marked-steps : Steps serves collect Marked
  Marked-steps = record {
    resets = reset_au-Marked;
    begins = begin_au-Marked;
    appends = append_au-Marked;
    pushes = push_au-Marked;
    drops = λ fs d m. ground arith;
  }

  in_order-Marked :
      (fs : List Frame) (rtp : View) (d : Depayloader)
      → Marked fs d
      → Marked fs (in_order serves collect rtp d)
  unfolding in_order reset_au
  in_order-Marked fs rtp d m =
      if_intro (λ s. Marked fs (record s { have_seq = true; next_seq = (rtp.seq + 1) % 2 ^ 16 }))
        (d.have_seq && not (rtp.seq == d.next_seq)) (λ _. ground arith) (λ _. ground arith)

  -- A property of a result: its state and the frames behind it are marked.
  abbrev IsMarked : ZstResult × Depayloader × List Frame → Type 0
  IsMarked r = Marked r.2 r.1

  depay-Marked :
      (fs : List Frame) (c : Codec) (rtp : View) (d : Depayloader)
      → c ≡ h264
      → Marked fs d
      → IsMarked (depay serves collect c rtp d fs)
  unfolding depay
  depay-Marked fs c rtp d e m =
      subst (λ k. IsMarked (depay serves collect k rtp d fs)) (sym e)
        (depay_h264-After serves collect Marked Marked-steps fs rtp d m)

  accept-Marked :
      (fs : List Frame) (rtp : View) (size : ℕ) (d : Depayloader)
      → Marked fs d
      → IsMarked (accept serves collect rtp size d fs)
  unfolding accept
  accept-Marked fs rtp size d m =
      let counted : Depayloader = record d {
        packets = add64 d.packets 1;
        bytes = add64 d.bytes size;
      } in
      if_intro IsMarked
        (not (rtp.payload_type == d.payload_type)
          || (d.filter_ssrc && not (rtp.ssrc == d.expected_ssrc)))
        (λ _. ground arith)
        (λ _.
          depay-Marked fs d.codec rtp _ m.is_video (in_order-Marked fs rtp counted (ground arith)))

  depayloader_push-Marked :
      (fs : List Frame) (eos : Bool) (p : List ℕ) (d : Depayloader)
      → Marked fs d
      → IsMarked (depayloader_push serves collect eos p d fs)
  unfolding depayloader_push
  depayloader_push-Marked fs true p d m = push_au-Marked fs d m
  depayloader_push-Marked fs false p d m =
      option_intro IsMarked (parse_rtp p) _ _ (λ _. ground arith)
        (λ rtp _.
          accept-Marked fs rtp (length p) (record d { in_packets = add64 d.in_packets 1 })
            (ground arith))

  -- A run of the depayloader over buffers, each with its EOS flag.
  abbrev pub run : List (Bool × List ℕ) → Depayloader → List Frame → Depayloader × List Frame
  run [] d fs = (d, fs)
  run ((eos, p) ∷ ps) d fs = let r = depayloader_push serves collect eos p d fs in run ps r.1 r.2

  run-Marked :
      (ps : List (Bool × List ℕ)) (d : Depayloader) (fs : List Frame)
      → Marked fs d
      → (run ps d fs).1 ≢ []
      → Flagged (run ps d fs).1
  run-Marked [] d [] m n = absurd (n refl)
  run-Marked [] d (f ∷ fs) m n = elim m.marked [ inl (p, e) ↦ absurd (ground arith) | inr h ↦ h ]
  run-Marked ((eos, p) ∷ ps) d fs m n =
      let r = depayloader_push serves collect eos p d fs in
      run-Marked ps r.1 r.2 (depayloader_push-Marked fs eos p d m) n

  -- The packet after a gap.
  gap-Marked :
      (rtp : View) (d : Depayloader)
      → d.have_seq ≡ true
      → rtp.seq ≢ d.next_seq
      → d.codec ≡ h264
      → d.linked ≡ true
      → Marked [] (in_order serves collect rtp d)
  unfolding in_order reset_au
  gap-Marked rtp d h n c l =
      if_intro (λ s. Marked [] (record s { have_seq = true; next_seq = (rtp.seq + 1) % 2 ^ 16 }))
        (d.have_seq && not (rtp.seq == d.next_seq)) (λ _. ground arith)
        (λ e. absurd (ground (arith, e)))

  accept-gap :
      (rtp : View) (size : ℕ) (d : Depayloader)
      → rtp.payload_type ≡ d.payload_type
      → (d.filter_ssrc && not (rtp.ssrc == d.expected_ssrc)) ≡ false
      → d.have_seq ≡ true
      → rtp.seq ≢ d.next_seq
      → d.codec ≡ h264
      → d.linked ≡ true
      → IsMarked (accept serves collect rtp size d [])
  unfolding accept
  accept-gap rtp size d t f h n c l =
      let counted : Depayloader = record d {
        packets = add64 d.packets 1;
        bytes = add64 d.bytes size;
      } in
      if_intro IsMarked
        (not (rtp.payload_type == d.payload_type)
          || (d.filter_ssrc && not (rtp.ssrc == d.expected_ssrc)))
        (λ e. absurd (ground (arith, e)))
        (λ _. depay-Marked [] d.codec rtp _ c (gap-Marked rtp counted h n c l))

  arrived-gap :
      (p : List ℕ) (rtp : View) (d : Depayloader)
      → parse_rtp p ≡ some rtp
      → rtp.payload_type ≡ d.payload_type
      → (d.filter_ssrc && not (rtp.ssrc == d.expected_ssrc)) ≡ false
      → d.have_seq ≡ true
      → rtp.seq ≢ d.next_seq
      → d.codec ≡ h264
      → d.linked ≡ true
      → IsMarked (depayloader_push serves collect false p d [])
  unfolding depayloader_push
  arrived-gap p rtp d e t f h n c l =
      rw (e)
        (accept-gap rtp (length p) (record d { in_packets = add64 d.in_packets 1 }) t f h n c l)

  -- An H.264 depayloader that is linked gets a packet that it reads, of its payload type and source,
  -- whose sequence number is not the one that follows the last packet's. Then, whatever it gets
  -- afterwards, the first frame that comes out, if one does, has the flag of a discontinuity.
  pub depayloader_push-Flagged :
      (p : List ℕ) (rtp : View) (ps : List (Bool × List ℕ)) (d : Depayloader)
      → parse_rtp p ≡ some rtp
      → rtp.payload_type ≡ d.payload_type
      → (d.filter_ssrc && not (rtp.ssrc == d.expected_ssrc)) ≡ false
      → d.have_seq ≡ true
      → rtp.seq ≢ d.next_seq
      → d.codec ≡ h264
      → d.linked ≡ true
      → (run ((false, p) ∷ ps) d []).1 ≢ []
      → Flagged (run ((false, p) ∷ ps) d []).1
  depayloader_push-Flagged p rtp ps d e t f h n c l some_frame =
      let r = depayloader_push serves collect false p d [] in
      run-Marked ps r.1 r.2 (arrived-gap p rtp d e t f h n c l) some_frame
