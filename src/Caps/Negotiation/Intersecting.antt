-- ===== src/Caps/Negotiation/Intersecting.antt =====
-- The intersection of whole capabilities.
use zstreamer.Common.{◌≡◌, ◌∙◌, Bool, false, ◌&&◌, ◌||◌, Option, none, some, [], ◌∷◌, arith}
use zstreamer.Caps.{Struct, Caps, append}
use zstreamer.Caps.Negotiation.{intersect_struct, intersect_with, intersect_from, intersect}
use zstreamer.Caps.Negotiation.Meaning.{Format, admits_struct, admits, allowed}
use zstreamer.Caps.Negotiation.Keeping.{clash}
use zstreamer.Caps.Negotiation.Meeting.{FitsArrays, intersect_struct_meets}

-- The texts of all structures fit their arrays.
abbrev pub AllFit : Caps → Type 0
AllFit [] = Unit {0}
AllFit (s ∷ ss) = FitsArrays s × AllFit ss

-- No two structures of the same media type have different values for a generic field.
abbrev pub NoneClashes : Struct → Caps → Type 0
NoneClashes s1 [] = Unit {0}
NoneClashes s1 (s2 ∷ ss) = (clash s1 s2 ≡ false) × NoneClashes s1 ss

abbrev pub NoClashes : Caps → Caps → Type 0
NoClashes [] caps2 = Unit {0}
NoClashes (s1 ∷ ss) caps2 = NoneClashes s1 caps2 × NoClashes ss caps2

admits-append :
    (caps : Caps) (s : Struct) (f : Format)
    → admits (append caps s) f ≡ (admits caps f || admits_struct s f)
unfolding admits append
admits-append [] s f = ground arith
admits-append (t ∷ ts) s f = ground (arith, admits-append ts s f)

-- One intersection, and then the rest, which adds what `more` says.
collected :
    (rest : Caps → Caps) (result : Caps) (o : Option Struct) (f : Format) (both more : Bool)
    → allowed admits_struct o f ≡ both
    → ((caps : Caps) → admits (rest caps) f ≡ (admits caps f || more))
    → admits (elim o [ none ↦ rest result | some s ↦ rest (append result s) ]) f
      ≡ (admits result f || (both || more))
collected rest result none f both more e h = ground (arith, e, h result)
collected rest result (some s) f both more e h =
    ground (arith, e, h (append result s), admits-append result s f)

with_meets :
    (s1 : Struct) (caps2 result : Caps) (f : Format)
    → FitsArrays s1
    → AllFit caps2
    → NoneClashes s1 caps2
    → admits (intersect_with s1 caps2 result) f
      ≡ (admits result f || (admits_struct s1 f && admits caps2 f))
unfolding intersect_with admits
with_meets s1 [] result f h1 h2 c = ground arith
with_meets s1 (s2 ∷ ss) result f h1 (h2, hs) (c, cs) =
    collected (intersect_with s1 ss) result (intersect_struct s1 s2) f
      (admits_struct s1 f && admits_struct s2 f) (admits_struct s1 f && admits ss f)
      (intersect_struct_meets s1 s2 f h1 h2 c) (λ caps. with_meets s1 ss caps f h1 hs cs)
    ∙ ground arith

from_meets :
    (caps1 caps2 result : Caps) (f : Format)
    → AllFit caps1
    → AllFit caps2
    → NoClashes caps1 caps2
    → admits (intersect_from caps1 caps2 result) f
      ≡ (admits result f || (admits caps1 f && admits caps2 f))
unfolding intersect_from admits
from_meets [] caps2 result f h1 h2 c = ground arith
from_meets (s1 ∷ ss) caps2 result f (h1, hs) h2 (c, cs) =
    from_meets ss caps2 (intersect_with s1 caps2 result) f hs h2 cs
    ∙ ground (arith, with_meets s1 caps2 result f h1 h2 c)

-- Where no generic fields clash, the intersection of two capabilities admits exactly the formats that
-- both admit, whichever structures they are made of.
pub intersect_meets :
    (caps1 caps2 : Caps) (f : Format)
    → AllFit caps1
    → AllFit caps2
    → NoClashes caps1 caps2
    → admits (intersect caps1 caps2) f ≡ (admits caps1 f && admits caps2 f)
unfolding intersect admits
intersect_meets caps1 caps2 f h1 h2 c = from_meets caps1 caps2 [] f h1 h2 c
