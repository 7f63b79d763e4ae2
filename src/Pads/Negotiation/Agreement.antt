-- ===== src/Pads/Negotiation/Agreement.antt =====
-- What both pads have after a negotiation.
use zstreamer.Common.{
  ◌≡◌, refl, ap, true, ◌&&◌, some, [], ◌∷◌, arith, ◌⊎◌, inl, inr, if_intro, if◌then◌else◌,
}
use zstreamer.Types.{ZstResult, ok, error}
use zstreamer.Caps.{Struct, Caps, copy, copy_struct}
use zstreamer.Caps.Negotiation.{intersect, is_fixed, fixate}
use zstreamer.Caps.Negotiation.Meaning.{Format, admits, admits_struct}
use zstreamer.Caps.Negotiation.Intersecting.{AllFit, NoClashes, intersect_meets}
use zstreamer.Caps.Negotiation.Fixed.{format_of, fixate_fixes, own_format_admitted}
use zstreamer.Caps.Negotiation.Sane.{IsSane, AllSane, intersect-AllSane}
use zstreamer.Pads.{is_ok}
use zstreamer.Pads.Negotiation.{PadCaps, get_caps, set_caps, set_both, settle, negotiate}

AllSane-AllFit : (caps : Caps) → AllSane caps → AllFit caps
AllSane-AllFit [] h = tt
AllSane-AllFit (s ∷ ss) (h, hs) = (h.fits, AllSane-AllFit ss hs)

-- Both pads have one structure, the same one, whose format both sides admit.
abbrev pub Agrees : Caps → Caps → PadCaps → PadCaps → PadCaps × PadCaps × ZstResult → Type 0
Agrees c1 c2 source sink (source', sink', result) =
    (r : Struct) × (source'.caps ≡ some (r ∷ []))
    × (sink'.caps ≡ some (r ∷ []))
    × (result ≡ ok)
    × (admits c1 (format_of r) ≡ true)
    × (admits c2 (format_of r) ≡ true)

-- What is known of the intersection.
abbrev Meets : Caps → Caps → Caps → Type 0
Meets common c1 c2 = (f : Format) → admits common f ≡ (admits c1 f && admits c2 f)

admitted_both :
    (s : Struct) (ss c1 c2 : Caps) (f : Format)
    → Meets (s ∷ ss) c1 c2
    → admits_struct s f ≡ true
    → (admits c1 f ≡ true) × (admits c2 f ≡ true)
unfolding admits
admitted_both s ss c1 c2 f meet e = (ground (arith, meet f, e), ground (arith, meet f, e))

both-Agrees :
    (r s : Struct) (ss c1 c2 common : Caps) (source sink : PadCaps)
    → Meets (s ∷ ss) c1 c2
    → common ≡ r ∷ []
    → admits_struct s (format_of r) ≡ true
    → Agrees c1 c2 source sink (set_both source sink common)
unfolding set_both set_caps copy copy_struct
both-Agrees r s ss c1 c2 common source sink meet e admitted =
    let (first, second) = admitted_both s ss c1 c2 (format_of r) meet admitted in
    (copy_struct r, ap (λ c. some (copy c)) e, ap (λ c. some (copy c)) e, refl, first, second)

fixated-Agrees :
    (s : Struct) (ss c1 c2 : Caps) (source sink : PadCaps)
    → IsSane s
    → Meets (s ∷ ss) c1 c2
    → Agrees c1 c2 source sink (
        if is_ok (fixate (s ∷ ss)).1
        then set_both source sink (fixate (s ∷ ss)).0
        else (source, sink, error))
unfolding is_ok
fixated-Agrees s ss c1 c2 source sink h meet =
    let (r, e, success, _, admitted) = fixate_fixes s ss h.fits h.a_number in
    rw success (both-Agrees r s ss c1 c2 _ source sink meet e admitted)

settle-Agrees :
    (common c1 c2 : Caps) (source sink : PadCaps)
    → AllSane common
    → Meets common c1 c2
    → ((common ≡ []) × (settle source sink common ≡ (source, sink, error)))
      ⊎ Agrees c1 c2 source sink (settle source sink common)
unfolding settle is_fixed fixate is_ok
settle-Agrees [] c1 c2 source sink h meet = inl (refl, refl)
settle-Agrees (s ∷ []) c1 c2 source sink (h, _) meet = inr (
    if_intro (Agrees c1 c2 source sink) (is_fixed (s ∷ []))
      (λ _.
        both-Agrees s s [] c1 c2 (s ∷ []) source sink meet refl (own_format_admitted s h.a_number))
      (λ _. fixated-Agrees s [] c1 c2 source sink h meet))
settle-Agrees (s ∷ t ∷ ss) c1 c2 source sink (h, _) meet =
    inr (fixated-Agrees s (t ∷ ss) c1 c2 source sink h meet)

negotiates :
    (source sink : PadCaps) (c1 c2 : Caps)
    → get_caps source ≡ some c1
    → get_caps sink ≡ some c2
    → negotiate source sink ≡ settle source sink (intersect c1 c2)
unfolding negotiate
negotiates source sink c1 c2 e1 e2 = rw (e1, negotiate) (rw e2 refl)

-- Two pads that have capabilities to offer, whose generic fields do not clash and whose frame rates are
-- numbers: either these have no structure in common, and the negotiation fails and changes nothing,
-- or it succeeds and leaves both pads the same single structure, with a format that both sides
-- admit.
pub negotiate_settles :
    (source sink : PadCaps) (c1 c2 : Caps)
    → get_caps source ≡ some c1
    → get_caps sink ≡ some c2
    → AllSane c1
    → AllSane c2
    → NoClashes c1 c2
    → ((intersect c1 c2 ≡ []) × (negotiate source sink ≡ (source, sink, error)))
      ⊎ Agrees c1 c2 source sink (negotiate source sink)
negotiate_settles source sink c1 c2 e1 e2 h1 h2 n = rw (negotiates source sink c1 c2 e1 e2) (
    settle-Agrees (intersect c1 c2) c1 c2 source sink (intersect-AllSane c1 c2 h1 h2)
      (λ f. intersect_meets c1 c2 f (AllSane-AllFit c1 h1) (AllSane-AllFit c2 h2) n))
