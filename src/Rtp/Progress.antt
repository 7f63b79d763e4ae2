-- ===== src/Rtp/Progress.antt =====
-- The loops of src/rtp_payloader.c over the fragments of a unit: when they end, whatever is behind the
-- payloader does with the packets.
use zstreamer.Common.{
  ℕ, zero, suc, ◌+◌, ◌-◌, ◌≤◌, ◌<◌, min, ◌≡◌, refl, ap, ◌∙◌, ◌⊎◌, inl, inr, Bool, true, false, ◌||◌,
  Option, none, some, List, ltb, leb, length, arith, if_intro,
}
use native.Mathlib.Decide.{dec_lt}
use zstreamer.Types.{ZstResult}
use zstreamer.Rtp.{Downstream, Packet}
use zstreamer.Common.Integers.{ℤ, pos, negsuc, lower, is_below}
use zstreamer.Rtp.Rounds.{loop_over, send_cut_lem}
use zstreamer.Rtp.Payloader.{Payloader, Stamp, send_fragments, send_short, send_cut, send_h265_nal}

lower-below : (off : ℤ) (short n : ℕ) → is_below off n ≡ true → is_below (lower off short) n ≡ true
unfolding is_below lower
lower-below (pos a) short n h =
    if_intro (λ b. is_below b n ≡ true) (leb short a) (λ _. ground arith) (λ _. refl)
lower-below (negsuc a) short n h = refl

module _ {W : Type 0} (push : Downstream Packet W) where
  -- With no room for a byte in a fragment, the loop has not ended after any number of rounds.
  pub send_fragments_stalls :
      (rounds : ℕ) (fu : Bool → Bool → List ℕ) (nal : List ℕ) (t : Stamp) (off : ℕ) (first : Bool)
      (r : ZstResult × Payloader × W)
      → off < length nal
      → send_fragments push rounds fu 0 nal t off first r ≡ none
  unfolding send_fragments
  send_fragments_stalls zero fu nal t off first (ret, s, w) h = ground arith
  send_fragments_stalls (suc rounds) fu nal t off first (ret, s, w) h =
      if_intro (λ o. o ≡ none) (ltb off (length nal))
        (λ _.
          send_fragments_stalls rounds fu nal t (off + min (length nal - off) 0) false _
            (omega arith))
        (λ e. absurd (ground arith))

  send_fragments_ends :
      (rounds : ℕ) (fu : Bool → Bool → List ℕ) (limit : ℕ) (nal : List ℕ) (t : Stamp) (off : ℕ)
      (first : Bool) (r : ZstResult × Payloader × W)
      → 0 < limit
      → length nal ≤ off + rounds
      → (r' : ZstResult × Payloader × W) × (send_fragments push rounds fu limit nal t off first r
          ≡ some r')
  unfolding send_fragments
  send_fragments_ends zero fu limit nal t off first (ret, s, w) p h = ((ret, s, w), ground arith)
  send_fragments_ends (suc rounds) fu limit nal t off first (ret, s, w) p h =
      if_intro (λ o. (r' : ZstResult × Payloader × W) × (o ≡ some r')) (ltb off (length nal))
        (λ e.
          send_fragments_ends rounds fu limit nal t (off + min (length nal - off) limit) false _ p
            (forward e))
        (λ _. ((ret, s, w), refl))
    where
      forward :
          ltb off (length nal) ≡ true → length nal ≤ off + min (length nal - off) limit + rounds
      forward e = ground arith

  send_fragments_over :
      (rounds : ℕ) (fu : Bool → Bool → List ℕ) (limit : ℕ) (nal : List ℕ) (t : Stamp) (off : ℕ)
      (first : Bool) (r : ZstResult × Payloader × W)
      → length nal ≤ off
      → (r' : ZstResult × Payloader × W) × (send_fragments push rounds fu limit nal t off first r
          ≡ some r')
  send_fragments_over rounds fu limit nal t off first r h =
      (r, loop_over push fu limit rounds nal t off first r h)

  abbrev pub Ends : Option (ZstResult × Payloader × W) → Type 0
  Ends o = (r : ZstResult × Payloader × W) × (o ≡ some r)

  send_short_over :
      (rounds short nal_len off : ℕ) (r : ZstResult × Payloader × W)
      → nal_len ≤ off
      → send_short push rounds short nal_len (pos off) r ≡ some r
  unfolding send_short is_below
  send_short_over zero short nal_len off r h = ground arith
  send_short_over (suc rounds) short nal_len off (ret, s, w) h =
      if_intro (λ o. o ≡ some (ret, s, w)) (ltb off nal_len) (λ e. absurd (ground arith))
        (λ _. refl)

  -- With less than no room, the offset goes back, and the loop has not ended either.
  send_short_stalls :
      (rounds short nal_len : ℕ) (off : ℤ) (r : ZstResult × Payloader × W)
      → is_below off nal_len ≡ true
      → send_short push rounds short nal_len off r ≡ none
  unfolding send_short
  send_short_stalls zero short nal_len off r h = rw h refl
  send_short_stalls (suc rounds) short nal_len off (ret, s, w) h =
      rw h (
        send_short_stalls rounds short nal_len (lower off short) _
          (lower-below off short nal_len h))

  -- Whether there is room for a byte and the `k` bytes before it decides on the loop.
  send_cut-Ends :
      (m k : ℕ) (fu : Bool → Bool → List ℕ) (nal : List ℕ) (t : Stamp) (off : ℕ)
      (r : ZstResult × Payloader × W)
      → k < m
      → Ends (send_cut push m k fu nal t off r)
  send_cut-Ends m k fu nal t off r h =
      rw (send_cut_lem push m k fu nal t off r (omega arith))
        (send_fragments_ends (length nal) fu (m - k) nal t off true r (omega arith) (omega arith))

  send_cut_stalls :
      (m k : ℕ) (fu : Bool → Bool → List ℕ) (nal : List ℕ) (t : Stamp) (off : ℕ)
      (r : ZstResult × Payloader × W)
      → m ≤ k
      → off < length nal
      → send_cut push m k fu nal t off r ≡ none
  unfolding send_cut is_below
  send_cut_stalls m k fu nal t off r h l =
      if_intro (λ o. o ≡ none) (ltb m k)
        (λ _. send_short_stalls (length nal) (k - m) (length nal) (pos off) r (ground arith))
        (λ e.
          ap (λ limit. send_fragments push (length nal) fu limit nal t off true r) (no_room e)
          ∙ send_fragments_stalls (length nal) fu nal t off true r l)
    where
      no_room : ltb m k ≡ false → m - k ≡ 0
      no_room e = omega arith

  -- Where the loop starts at the end, it is over.
  send_cut_over :
      (m k : ℕ) (fu : Bool → Bool → List ℕ) (nal : List ℕ) (t : Stamp) (off : ℕ)
      (r : ZstResult × Payloader × W)
      → length nal ≤ off
      → Ends (send_cut push m k fu nal t off r)
  unfolding send_cut
  send_cut_over m k fu nal t off r h =
      if_intro Ends (ltb m k) (λ _. (r, send_short_over (length nal) (k - m) (length nal) off r h))
        (λ _. send_fragments_over (length nal) fu (m - k) nal t off true r h)

  h265-Ends :
      (nal : List ℕ) (t : Stamp) (s : Payloader) (w : W)
      → (length nal + 12 ≤ s.mtu) ⊎ ((s.mtu ≤ 12) ⊎ ((16 ≤ s.mtu) ⊎ (length nal ≤ 2)))
      → Ends (send_h265_nal push nal t s w)
  unfolding send_h265_nal
  h265-Ends nal t s w h =
      if_intro Ends (ltb (length nal) 2 || ltb (s.mtu - 12) 1) (λ _. (_, refl))
        (λ e.
          if_intro Ends (leb (length nal) (s.mtu - 12)) (λ _. (_, refl))
            (λ f. elim (dec_lt 2 (length nal)) [
              | yes n ↦ send_cut-Ends (s.mtu - 12) 3 _ nal t 2 _ (ground arith)
              | no n ↦ send_cut_over (s.mtu - 12) 3 _ nal t 2 _ (omega arith)
            ]))

  h265_stalls :
      (nal : List ℕ) (t : Stamp) (s : Payloader) (w : W)
      → s.mtu < length nal + 12
      → 12 < s.mtu
      → 2 < length nal
      → s.mtu < 16
      → send_h265_nal push nal t s w ≡ none
  unfolding send_h265_nal
  h265_stalls nal t s w h lo n hi =
      if_intro (λ o. o ≡ none) (ltb (length nal) 2 || ltb (s.mtu - 12) 1)
        (λ e. absurd (ground arith))
        (λ e.
          if_intro (λ o. o ≡ none) (leb (length nal) (s.mtu - 12)) (λ f. absurd (ground arith))
            (λ f. send_cut_stalls (s.mtu - 12) 3 _ nal t 2 _ (omega arith) (omega arith)))

  -- The same for H.265, with an MTU of 13 to 15 and a unit of more than the two bytes of its header.
  pub send_h265_nal-Ends :
      (nal : List ℕ) (t : Stamp) (s : Payloader) (w : W)
      → Ends (send_h265_nal push nal t s w)
        ⊎ ((12 < s.mtu)
            × (s.mtu < 16)
            × (s.mtu < length nal + 12)
            × (2 < length nal)
            × (send_h265_nal push nal t s w ≡ none))
  send_h265_nal-Ends nal t s w = elim (dec_lt s.mtu (length nal + 12)) [
    | no l ↦ inl (h265-Ends nal t s w (inl (omega arith)))
    | yes l ↦ elim (dec_lt 12 s.mtu) [
      | no lo ↦ inl (h265-Ends nal t s w (inr (inl (omega arith))))
      | yes lo ↦ elim (dec_lt s.mtu 16) [
        | no hi ↦ inl (h265-Ends nal t s w (inr (inr (inl (omega arith)))))
        | yes hi ↦ elim (dec_lt 2 (length nal)) [
          | yes n ↦ inr (lo, hi, l, n, h265_stalls nal t s w l lo n hi)
          | no n ↦ inl (h265-Ends nal t s w (inr (inr (inr (omega arith)))))
        ]
      ]
    ]
  ]
