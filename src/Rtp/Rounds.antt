-- ===== src/Rtp/Rounds.antt =====
-- The rounds of the loop over fragments of src/rtp_payloader.c, whatever is behind the payloader.
use zstreamer.Common.{
  ℕ, zero, suc, ◌+◌, ◌-◌, ◌<◌, min, ◌≡◌, refl, ap, Bool, true, false, ◌&&◌, some, List, [], ◌∷◌,
  leb, ltb, length, arith, ◌≤◌, if_intro,
}
use zstreamer.Common.Bytes.{take_bytes, drop_bytes}
use zstreamer.Types.{ZstResult, ok}
use zstreamer.Rtp.{Downstream, Packet, keep}
use zstreamer.Rtp.Payloader.{Payloader, Stamp, push_packet, send_fragments, send_cut}

pub marker_last : (b : Bool) → (b && true) ≡ b
marker_last true = refl
marker_last false = refl

pub marker_inside : (b : Bool) → (b && false) ≡ false
marker_inside true = refl
marker_inside false = refl

pub keep_ok : (r : ZstResult) → keep ok r ≡ r
keep_ok r = ground arith

pub take_all : (n : ℕ) (bs : List ℕ) → length bs ≤ n → take_bytes n bs ≡ bs
unfolding take_bytes
take_all zero [] h = refl
take_all zero (b ∷ bs) h = absurd (omega arith)
take_all (suc n) [] h = refl
take_all (suc n) (b ∷ bs) h = ap (λ r. b ∷ r) (take_all n bs (omega arith))

module _ {W : Type 0} (push : Downstream Packet W) (fu : Bool → Bool → List ℕ) (limit : ℕ) where
  -- One round of the loop.
  pub loop_step :
      (rounds : ℕ) (nal : List ℕ) (t : Stamp) (off : ℕ) (first : Bool) (ret one : ZstResult)
      (s s' : Payloader) (w w' : W) (chunk : ℕ) (last : Bool)
      → off < length nal
      → min (length nal - off) limit ≡ chunk
      → leb (length nal) (off + chunk) ≡ last
      → push_packet push
          (fu first last)
          (take_bytes chunk (drop_bytes off nal))
          (record t { marker = t.marker && last })
          s
          w
        ≡ (one, s', w')
      → send_fragments push (suc rounds) fu limit nal t off first (ret, s, w)
        ≡ send_fragments push rounds fu limit nal t (off + chunk) false (keep ret one, s', w')
  unfolding send_fragments
  loop_step rounds nal t off first ret one s s' w w' chunk last h c l e = ground arith

  pub loop_over :
      (rounds : ℕ) (nal : List ℕ) (t : Stamp) (off : ℕ) (first : Bool)
      (r : ZstResult × Payloader × W)
      → length nal ≤ off
      → send_fragments push rounds fu limit nal t off first r ≡ some r
  unfolding send_fragments
  loop_over zero nal t off first (ret, s, w) h = ground arith
  loop_over (suc rounds) nal t off first (ret, s, w) h = ground arith

module _ {W : Type 0} (push : Downstream Packet W) where
  -- Where a fragment has room for its header bytes, the loop is the one with offsets that go forward.
  pub send_cut_lem :
      (m k : ℕ) (fu : Bool → Bool → List ℕ) (nal : List ℕ) (t : Stamp) (off : ℕ)
      (r : ZstResult × Payloader × W)
      → k ≤ m
      → send_cut push m k fu nal t off r
        ≡ send_fragments push (length nal) fu (m - k) nal t off true r
  unfolding send_cut
  send_cut_lem m k fu nal t off r h =
      if_intro (λ o. o ≡ send_fragments push (length nal) fu (m - k) nal t off true r) (ltb m k)
        (λ e. absurd (ground arith)) (λ _. refl)
