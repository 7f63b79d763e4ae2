-- ===== src/Rtp/Fragments.antt =====
-- A NAL unit in fragments, on its way through a payloader and the depayloader behind it.
use zstreamer.Common.{
  ℕ, ◌+◌, ◌^◌, ◌≤◌, ◌<◌, ◌≡◌, sym, subst, ◌⊎◌, inl, inr, Bool, true, false, not, ◌||◌, List, [],
  ◌∷◌, ◌++◌, ◌==◌, length, length-append, arith,
}
use mathlib.Core.List.{append_assoc}
use zstreamer.Types.{ZstResult}
use zstreamer.Rtp.{Codec, Downstream, Frame}
use zstreamer.Rtp.Payloader.{Payloader, Stamp, advance, push_packet}
use zstreamer.Rtp.Depayloader.{Depayloader, View, begin_au, reset_au}
use zstreamer.Rtp.Depayloader.Codecs.{append_fragment, depay_fragment, depay}
use zstreamer.Rtp.Header.{sent_view}
use zstreamer.Rtp.Expects.{Setting, Expects, Collects, behind, received, push_packet-Expects}
use zstreamer.Rtp.Collect.{append_au-Collects, append_unit-Collects, Ended, finish-Ended}

-- Nothing is open, or this access unit is.
abbrev pub Begun : Depayloader → ℕ → List ℕ → Type 0
Begun d ts au = ((d.au_active ≡ false) × (au ≡ [])) ⊎ Collects d ts au

pub begin_au-Begun :
    (g : Setting) (s : Payloader) (d : Depayloader) (ts : ℕ) (au : List ℕ)
    → Expects g s d
    → Begun d ts au
    → Expects g s (begin_au d ts) × Collects (begin_au d ts) ts au
unfolding begin_au reset_au
begin_au-Begun g s d ts au x (inl (a, e)) = ground (arith, a)
begin_au-Begun g s d ts au x (inr k) = ground arith

-- The next packet is expected when this one has been received.
pub advance-Expects :
    (g : Setting) (s : Payloader) (d : Depayloader) (n size : ℕ)
    → Expects g s d
    → Expects g (advance s n) (received s size d)
unfolding advance
advance-Expects g s d n size x = ground arith

pub received-Collects :
    (s : Payloader) (d : Depayloader) (size ts : ℕ) (au : List ℕ)
    → Collects d ts au
    → Collects (received s size d) ts au
received-Collects s d size ts au k = ground arith

pub received-Begun :
    (s : Payloader) (d : Depayloader) (size ts : ℕ) (au : List ℕ)
    → Begun d ts au
    → Begun (received s size d) ts au
received-Begun s d size ts au (inl h) = inl h
received-Begun s d size ts au (inr k) = inr (received-Collects s d size ts au k)

module _ {V : Type 0} (serves : ℕ → Bool) (push : Downstream Frame V) where
  -- The result of a handler, as a function of the unit that is then collected.
  abbrev pub Gives :
      Setting → Payloader → Bool → ℕ → List ℕ → V → ZstResult × Depayloader × V → Type 0
  Gives g s marker ts au v r = Expects g s r.1 × Ended serves push g marker r.1 ts au v r.0 r.2

  -- The result of sending a unit to the depayloader.
  abbrev pub Sent :
      Setting → Bool → ℕ → List ℕ → V → ZstResult × Payloader × (Depayloader × V) → Type 0
  Sent g marker ts au v o =
      (s' : Payloader) × (r : ZstResult) × (d' : Depayloader) × (v' : V) × (o ≡ (r, s', (d', v')))
      × Gives g s' marker ts au v (r, d', v')

  module _ (served : (n : ℕ) → serves n ≡ true) where
    first_fragment :
        (g : Setting) (s : Payloader) (d : Depayloader) (rtp : View) (acc hdr body : List ℕ) (v : V)
        → Expects g s d
        → Begun d rtp.timestamp acc
        → length acc + length hdr + length body + 4 < 2 ^ 63
        → Gives g s rtp.marker rtp.timestamp
            (acc ++ (0 ∷ 0 ∷ 0 ∷ 1 ∷ (hdr ++ body)))
            v
            (depay_fragment serves push true hdr body rtp d v)
    unfolding depay_fragment append_fragment
    first_fragment g s d rtp acc hdr body v x k h =
        let ts = rtp.timestamp in
        let (x0, k0) = begin_au-Begun g s d ts acc x k in
        let (d1, e1, x1, k1) =
          append_unit-Collects serves push served g s (begin_au d ts) ts acc hdr x0 k0
            (omega arith) in
        let (d2, e2, x2, k2) =
          append_au-Collects serves push served g s d1 ts (acc ++ (0 ∷ 0 ∷ 0 ∷ 1 ∷ hdr)) body x1 k1
            (omega (arith, length-append acc (0 ∷ 0 ∷ 0 ∷ 1 ∷ hdr))) in
        rw (e1, e2)
          (finish-Ended serves push g s d d2 ts _ rtp.marker v x2
            (subst (Collects d2 ts) (append_assoc acc (0 ∷ 0 ∷ 0 ∷ 1 ∷ hdr) body) k2)
            (omega (arith, length-append acc (0 ∷ 0 ∷ 0 ∷ 1 ∷ (hdr ++ body)))))

    next_fragment :
        (g : Setting) (s : Payloader) (d : Depayloader) (rtp : View) (cur hdr body : List ℕ) (v : V)
        → Expects g s d
        → Collects d rtp.timestamp cur
        → 0 < length body
        → length cur + length body < 2 ^ 63
        → Gives g s rtp.marker rtp.timestamp
            (cur ++ body)
            v
            (depay_fragment serves push false hdr body rtp d v)
    unfolding depay_fragment append_fragment
    next_fragment g s d rtp cur hdr body v x k h l =
        let ts = rtp.timestamp in
        let (d2, e2, x2, k2) =
          append_au-Collects serves push served g s d ts cur body x k (omega arith) in
        let going_on : (not d.au_active || not (d.au_ts == ts)) ≡ false = ground arith in
        rw (going_on, e2)
          (finish-Ended serves push g s d d2 ts _ rtp.marker v x2 k2
            (omega (arith, length-append cur body)))

  -- How a format cuts units: what a receiver does with the packet of a fragment, and the length of what
  -- stands before its bytes.
  abbrev pub CutsAs : Codec → (Bool → Bool → List ℕ) → ℕ → List ℕ → Type 0
  CutsAs c fu k hdr =
      (first last : Bool) (body : List ℕ) (rtp : View) (d : Depayloader) (v : V)
      → 0 < length body
      → let r : View = record rtp { payload = fu first last ++ body } in
        (depay serves push c r d v ≡ depay_fragment serves push first hdr body r d v)
        × (length (fu first last) ≡ k)

  module _ (served : (n : ℕ) → serves n ≡ true) (g : Setting) (fu : Bool → Bool → List ℕ) (k : ℕ)
      (hdr : List ℕ) (cuts : CutsAs g.codec fu k hdr) (fits : g.mtu ≤ 65507) where
    -- A packet of a fragment, from what its handler gives.
    sent_fragment :
        (first last : Bool) (body au : List ℕ) (t : Stamp) (s : Payloader) (d : Depayloader) (v : V)
        → Expects g s d
        → t.ts < 2 ^ 32
        → 0 < length body
        → length body + k + 12 ≤ g.mtu
        → ((size : ℕ)
            → Gives g (advance s size) t.marker t.ts au v (
                depay_fragment serves push first hdr body
                  (sent_view s (fu first last ++ body) t.ts t.marker)
                  (received s size d)
                  v))
        → Sent g t.marker t.ts au v
            (push_packet (behind serves push) (fu first last) body t s (d, v))
    sent_fragment first last body au t s d v x h b l given =
        let payload = fu first last ++ body in
        let size = length body + length (fu first last) + 12 in
        let (e, n) =
          cuts first last body (sent_view s payload t.ts t.marker) (received s size d) v b in
        let e' =
          push_packet-Expects serves push g s d (fu first last) body t v x h fits
            (omega (arith, n)) in
        (_, _, _, _, e', subst (Gives g (advance s size) t.marker t.ts au v) (sym e) (given size))

    pub sent_first :
        (last : Bool) (body acc : List ℕ) (t : Stamp) (s : Payloader) (d : Depayloader) (v : V)
        → Expects g s d
        → Begun d t.ts acc
        → t.ts < 2 ^ 32
        → 0 < length body
        → length body + k + 12 ≤ g.mtu
        → length acc + length hdr + length body + 4 < 2 ^ 63
        → Sent g t.marker t.ts
            (acc ++ (0 ∷ 0 ∷ 0 ∷ 1 ∷ (hdr ++ body)))
            v
            (push_packet (behind serves push) (fu true last) body t s (d, v))
    sent_first last body acc t s d v x q h b l n =
        sent_fragment true last body _ t s d v x h b l (λ size.
          first_fragment served g (advance s size) (received s size d)
            (sent_view s (fu true last ++ body) t.ts t.marker) acc hdr body v
            (advance-Expects g s d size size x) (received-Begun s d size t.ts acc q) n)

    pub sent_next :
        (last : Bool) (body cur : List ℕ) (t : Stamp) (s : Payloader) (d : Depayloader) (v : V)
        → Expects g s d
        → Collects d t.ts cur
        → t.ts < 2 ^ 32
        → 0 < length body
        → length body + k + 12 ≤ g.mtu
        → length cur + length body < 2 ^ 63
        → Sent g t.marker t.ts
            (cur ++ body)
            v
            (push_packet (behind serves push) (fu false last) body t s (d, v))
    sent_next last body cur t s d v x c h b l n =
        sent_fragment false last body _ t s d v x h b l (λ size.
          next_fragment served g (advance s size) (received s size d)
            (sent_view s (fu false last ++ body) t.ts t.marker) cur hdr body v
            (advance-Expects g s d size size x) (received-Collects s d size t.ts cur c) b n)
