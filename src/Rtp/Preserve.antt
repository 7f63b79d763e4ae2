-- ===== src/Rtp/Preserve.antt =====
-- What every packet of H.264 and H.265 preserves, from what the steps of src/rtp_depayloader.c on its
-- access unit do.
use zstreamer.Common.{
  ℕ, zero, suc, ◌+◌, ◌*◌, ◌/◌, ◌%◌, Bool, true, false, not, ◌&&◌, ◌||◌, Option, none, some, List,
  [], ◌∷◌, ltb, leb, ◌==◌, length, get_or, if_intro,
}
use zstreamer.Common.Bytes.{take_bytes, drop_bytes}
use zstreamer.Types.{ZstResult}
use zstreamer.Rtp.{Downstream, Frame, read16}
use zstreamer.Rtp.Depayloader.{
  Depayloader, View, reset_au, begin_au, append_au, append_unit, push_au, finish,
}
use zstreamer.Rtp.Depayloader.Codecs.{
  append_units, append_fragment, depay_fragment, depay_h264, depay_h265, drop_packet,
}

abbrev pub OnSome : (Depayloader → Type 0) → Option Depayloader → Type 0
OnSome P none = Unit
OnSome P (some d) = P d

pub OnSome-bind :
    (P Q : Depayloader → Type 0) (o : Option Depayloader) (f : Depayloader → Option Depayloader)
    → OnSome P o
    → ((d : Depayloader) → P d → OnSome Q (f d))
    → OnSome Q (elim o [ none ↦ none | some d ↦ f d ])
OnSome-bind P Q none f h g = tt
OnSome-bind P Q (some d) f h g = g d h

-- The steps: each gives back what it is given.
pub record Steps {W : Type 0} (serves : ℕ → Bool) (push : Downstream Frame W)
    (P : W → Depayloader → Type 0) : Type 0 where
  pub resets : (w : W) (d : Depayloader) → P w d → P w (reset_au d)
  pub begins : (w : W) (d : Depayloader) (ts : ℕ) → P w d → P w (begin_au d ts)
  pub appends :
      (w : W) (d : Depayloader) (bs : List ℕ) → P w d → OnSome (P w) (append_au serves d bs)
  pub pushes : (w : W) (d : Depayloader) → P w d → P (push_au push d w).2 (push_au push d w).1
  pub drops : (w : W) (d : Depayloader) → P w d → P w (drop_packet d)

module _ {W : Type 0} (serves : ℕ → Bool) (push : Downstream Frame W) (P : W → Depayloader → Type 0)
    (steps : Steps serves push P) where
  -- A result of which the state and what is behind it have the property.
  abbrev pub After : ZstResult × Depayloader × W → Type 0
  After r = P r.2 r.1

  append_unit-OnSome :
      (w : W) (d : Depayloader) (nal : List ℕ) → P w d → OnSome (P w) (append_unit serves d nal)
  unfolding append_unit
  append_unit-OnSome w d nal h =
      OnSome-bind (P w) (P w) (append_au serves d (0 ∷ 0 ∷ 0 ∷ 1 ∷ []))
        (λ s. append_au serves s nal) (steps.appends w d (0 ∷ 0 ∷ 0 ∷ 1 ∷ []) h)
        (λ s h'. steps.appends w s nal h')

  append_units-OnSome :
      (rounds : ℕ) (w : W) (p : List ℕ) (off : ℕ) (d : Depayloader)
      → P w d
      → OnSome (P w) (append_units serves rounds p off d)
  unfolding append_units
  append_units-OnSome zero w p off d h = h
  append_units-OnSome (suc rounds) w p off d h =
      if_intro (OnSome (P w))
        (leb (off + 2) (length p)
          && not ((read16 p off == 0) || ltb (length p) (off + 2 + read16 p off)))
        (λ _.
          OnSome-bind (P w) (P w)
            (append_unit serves d (take_bytes (read16 p off) (drop_bytes (off + 2) p)))
            (λ s. append_units serves rounds p (off + 2 + read16 p off) s)
            (append_unit-OnSome w d _ h) (λ s h'. append_units-OnSome rounds w p _ s h'))
        (λ _. h)

  append_fragment-OnSome :
      (w : W) (start : Bool) (hdr body : List ℕ) (d : Depayloader) (ts : ℕ)
      → P w d
      → OnSome (P w) (append_fragment serves start hdr body d ts)
  unfolding append_fragment
  append_fragment-OnSome w true hdr body d ts h =
      OnSome-bind (P w) (P w) (append_unit serves (begin_au d ts) hdr)
        (λ s. append_au serves s body)
        (append_unit-OnSome w (begin_au d ts) hdr (steps.begins w d ts h))
        (λ s h'. steps.appends w s body h')
  append_fragment-OnSome w false hdr body d ts h = steps.appends w d body h

  finish-After :
      (w : W) (d : Depayloader) (o : Option Depayloader) (marker : Bool)
      → P w d
      → OnSome (P w) o
      → After (finish push d o marker w)
  unfolding finish
  finish-After w d none marker h g = steps.resets w d h
  finish-After w d (some s) true h g = steps.pushes w s g
  finish-After w d (some s) false h g = g

  depay_fragment-After :
      (w : W) (start : Bool) (hdr body : List ℕ) (rtp : View) (d : Depayloader)
      → P w d
      → After (depay_fragment serves push start hdr body rtp d w)
  unfolding depay_fragment
  depay_fragment-After w start hdr body rtp d h =
      if_intro After (not start && (not d.au_active || not (d.au_ts == rtp.timestamp)))
        (λ _. steps.drops w d h)
        (λ _.
          finish-After w d _ rtp.marker h
            (append_fragment-OnSome w start hdr body d rtp.timestamp h))

  pub depay_h264-After :
      (w : W) (rtp : View) (d : Depayloader) → P w d → After (depay_h264 serves push rtp d w)
  unfolding depay_h264
  depay_h264-After w rtp d h =
      let p = rtp.payload in
      let begun = steps.begins w d rtp.timestamp h in
      if_intro After (length p == 0) (λ _. h)
        (λ _.
          if_intro After (get_or p 0 0 % 32 == 24)
            (λ _.
              finish-After w (begin_au d rtp.timestamp) _ rtp.marker begun
                (append_units-OnSome (length p) w p 1 _ begun))
            (λ _.
              if_intro After (get_or p 0 0 % 32 == 28)
                (λ _.
                  if_intro After (ltb (length p) 2) (λ _. h)
                    (λ _.
                      depay_fragment-After w (leb 128 (get_or p 1 0))
                        ((get_or p 0 0 / 32 * 32 + get_or p 1 0 % 32) ∷ []) (drop_bytes 2 p) rtp d
                        h))
                (λ _.
                  finish-After w (begin_au d rtp.timestamp) _ rtp.marker begun
                    (append_unit-OnSome w _ p begun))))

  pub depay_h265-After :
      (w : W) (rtp : View) (d : Depayloader) → P w d → After (depay_h265 serves push rtp d w)
  unfolding depay_h265
  depay_h265-After w rtp d h =
      let p = rtp.payload in
      let begun = steps.begins w d rtp.timestamp h in
      if_intro After (ltb (length p) 2) (λ _. h)
        (λ _.
          if_intro After (not (get_or p 0 0 / 2 % 64 == 48) && not (get_or p 0 0 / 2 % 64 == 49))
            (λ _.
              finish-After w (begin_au d rtp.timestamp) _ rtp.marker begun
                (append_unit-OnSome w _ p begun))
            (λ _.
              if_intro After (get_or p 0 0 / 2 % 64 == 48)
                (λ _.
                  finish-After w (begin_au d rtp.timestamp) _ rtp.marker begun
                    (append_units-OnSome (length p) w p 2 _ begun))
                (λ _.
                  if_intro After (ltb (length p) 3) (λ _. h)
                    (λ _.
                      depay_fragment-After w (leb 128 (get_or p 2 0))
                        ((get_or p 0 0 / 128 * 128 + get_or p 0 0 % 2 + get_or p 2 0 % 64 * 2)
                          ∷ get_or p 1 0
                          ∷ [])
                        (drop_bytes 3 p) rtp d h))))
