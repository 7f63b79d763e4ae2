-- ===== src/Rtp/Cuts.antt =====
-- What src/rtp_depayloader.c does with the packets of src/rtp_payloader.c: one for a fragment, whose
-- header it parses again, and one for a whole unit.
use zstreamer.Common.{
  ℕ, ◌+◌, ◌*◌, ◌/◌, ◌%◌, ◌≤◌, ◌<◌, ◌≡◌, ◌≢◌, refl, ap, ◌∙◌, Bool, true, false, not, ◌&&◌, List, [],
  ◌∷◌, if◌then◌else◌, ltb, leb, ◌==◌, length, get_or, arith, if_intro,
}
use zstreamer.Common.Bytes.{drop_bytes}
use zstreamer.Types.{ZstResult}
use zstreamer.Rtp.{h264, h265, Downstream, Frame}
use zstreamer.Rtp.Payloader.{fu_a, fu_49}
use zstreamer.Rtp.Depayloader.{Depayloader, View, begin_au, append_unit, finish}
use zstreamer.Rtp.Depayloader.Codecs.{depay, depay_h264, depay_h265, depay_fragment}
use zstreamer.Rtp.Fragments.{CutsAs}

-- The FU header of a type below `m`, with the bits of `fu_bits`.
fu_start :
    (n m : ℕ) (first last : Bool)
    → n < 64
    → leb 128 (n + ((if first then 128 else 0) + (if last then 64 else 0))) ≡ first
fu_start n m true last h = ground arith
fu_start n m false last h = ground arith

fu_type :
    (n m : ℕ) (first last : Bool)
    → n < 32
    → (n + ((if first then 128 else 0) + (if last then 64 else 0))) % 32 ≡ n
fu_type n m true last h = ground arith
fu_type n m false last h = ground arith

fu_type6 :
    (n : ℕ) (first last : Bool)
    → n < 64
    → (n + ((if first then 128 else 0) + (if last then 64 else 0))) % 64 ≡ n
fu_type6 n true last h = ground arith
fu_type6 n false last h = ground arith

module _ {V : Type 0} (serves : ℕ → Bool) (push : Downstream Frame V) where
  h264_fragment :
      (first : Bool) (a b n0 : ℕ) (body : List ℕ) (rtp : View) (d : Depayloader) (v : V)
      → a % 32 ≡ 28
      → leb 128 b ≡ first
      → a / 32 * 32 + b % 32 ≡ n0
      → let r : View = record rtp { payload = a ∷ b ∷ body } in
        depay_h264 serves push r d v ≡ depay_fragment serves push first (n0 ∷ []) body r d v
  unfolding depay_h264 drop_bytes
  h264_fragment first a b n0 body rtp d v t l n =
      let r : View = record rtp { payload = a ∷ b ∷ body } in
      let fragment : ℕ → Bool → ZstResult × Depayloader × V =
        λ q first'. depay_fragment serves push first' (q ∷ []) body r d v in
      let same : fragment (a / 32 * 32 + b % 32) (leb 128 b) ≡ fragment n0 first =
        ap (fragment _) l ∙ ap (λ q. fragment q first) n in
      if_intro (λ q. q ≡ fragment n0 first) (length (a ∷ b ∷ body) == 0)
        (λ e. absurd (ground arith))
        (λ _.
          if_intro (λ q. q ≡ fragment n0 first) (a % 32 == 24) (λ e. absurd (ground arith))
            (λ _.
              if_intro (λ q. q ≡ fragment n0 first) (a % 32 == 28)
                (λ _.
                  if_intro (λ q. q ≡ fragment n0 first) (ltb (length (a ∷ b ∷ body)) 2)
                    (λ e. absurd (ground arith)) (λ _. same))
                (λ e. absurd (ground arith))))

  pub fu_a-CutsAs : (n0 : ℕ) → CutsAs serves push h264 (fu_a n0) 2 (n0 ∷ [])
  unfolding fu_a depay
  fu_a-CutsAs n0 first last body rtp d v b = (
    h264_fragment first (n0 / 32 * 32 + 28) _ n0 body rtp d v (omega arith)
        (fu_start (n0 % 32) 32 first last (omega arith))
        (omega (arith, fu_type (n0 % 32) 32 first last (omega arith))),
    refl,
  )

  h265_fragment :
      (first : Bool) (a b c n0 : ℕ) (body : List ℕ) (rtp : View) (d : Depayloader) (v : V)
      → a / 2 % 64 ≡ 49
      → leb 128 c ≡ first
      → a / 128 * 128 + a % 2 + c % 64 * 2 ≡ n0
      → let r : View = record rtp { payload = a ∷ b ∷ c ∷ body } in
        depay_h265 serves push r d v ≡ depay_fragment serves push first (n0 ∷ b ∷ []) body r d v
  unfolding depay_h265 drop_bytes
  h265_fragment first a b c n0 body rtp d v t l n =
      let r : View = record rtp { payload = a ∷ b ∷ c ∷ body } in
      let fragment : ℕ → Bool → ZstResult × Depayloader × V =
        λ q first'. depay_fragment serves push first' (q ∷ b ∷ []) body r d v in
      let same : fragment (a / 128 * 128 + a % 2 + c % 64 * 2) (leb 128 c) ≡ fragment n0 first =
        ap (fragment _) l ∙ ap (λ q. fragment q first) n in
      if_intro (λ q. q ≡ fragment n0 first) (ltb (length (a ∷ b ∷ c ∷ body)) 2)
        (λ e. absurd (ground arith))
        (λ _.
          if_intro (λ q. q ≡ fragment n0 first) (not (a / 2 % 64 == 48) && not (a / 2 % 64 == 49))
            (λ e. absurd (ground arith))
            (λ _.
              if_intro (λ q. q ≡ fragment n0 first) (a / 2 % 64 == 48) (λ e. absurd (ground arith))
                (λ _.
                  if_intro (λ q. q ≡ fragment n0 first) (ltb (length (a ∷ b ∷ c ∷ body)) 3)
                    (λ e. absurd (ground arith)) (λ _. same))))

  pub fu_49-CutsAs : (n0 n1 : ℕ) → CutsAs serves push h265 (fu_49 n0 n1) 3 (n0 ∷ n1 ∷ [])
  unfolding fu_49 depay
  fu_49-CutsAs n0 n1 first last body rtp d v b = (
    h265_fragment first (n0 / 128 * 128 + n0 % 2 + 98) n1 _ n0 body rtp d v (omega arith)
        (fu_start (n0 / 2 % 64) 64 first last (omega arith))
        (omega (arith, fu_type6 (n0 / 2 % 64) first last (omega arith))),
    refl,
  )

  -- A unit whose type is neither of the two that stand for aggregation and fragments.
  pub h264_single :
      (rtp : View) (d : Depayloader) (v : V)
      → 0 < length rtp.payload
      → get_or rtp.payload 0 0 % 32 ≢ 24
      → get_or rtp.payload 0 0 % 32 ≢ 28
      → let begun = begin_au d rtp.timestamp in
        depay serves push h264 rtp d v
        ≡ finish push begun (append_unit serves begun rtp.payload) rtp.marker v
  unfolding depay depay_h264
  h264_single rtp d v n p q =
      let begun = begin_au d rtp.timestamp in
      let whole = finish push begun (append_unit serves begun rtp.payload) rtp.marker v in
      if_intro (λ r. r ≡ whole) (length rtp.payload == 0) (λ e. absurd (ground arith))
        (λ _.
          if_intro (λ r. r ≡ whole) (get_or rtp.payload 0 0 % 32 == 24)
            (λ e. absurd (p (ground arith)))
            (λ _.
              if_intro (λ r. r ≡ whole) (get_or rtp.payload 0 0 % 32 == 28)
                (λ e. absurd (q (ground arith))) (λ _. refl)))

  pub h265_single :
      (rtp : View) (d : Depayloader) (v : V)
      → 2 ≤ length rtp.payload
      → get_or rtp.payload 0 0 / 2 % 64 ≢ 48
      → get_or rtp.payload 0 0 / 2 % 64 ≢ 49
      → let begun = begin_au d rtp.timestamp in
        depay serves push h265 rtp d v
        ≡ finish push begun (append_unit serves begun rtp.payload) rtp.marker v
  unfolding depay depay_h265
  h265_single rtp d v n p q =
      let begun = begin_au d rtp.timestamp in
      let whole = finish push begun (append_unit serves begun rtp.payload) rtp.marker v in
      let type = get_or rtp.payload 0 0 / 2 % 64 in
      if_intro (λ r. r ≡ whole) (ltb (length rtp.payload) 2) (λ e. absurd (ground arith))
        (λ _.
          if_intro (λ r. r ≡ whole) (not (type == 48) && not (type == 49)) (λ _. refl)
            (λ e. absurd (ground arith)))
