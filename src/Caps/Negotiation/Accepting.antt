-- ===== src/Caps/Negotiation/Accepting.antt =====
-- The intersection of whole capabilities with their generic fields.
use zstreamer.Common.{◌⊎◌, ◌↔◌, inl, inr, Option, none, some, [], ◌∷◌}
use zstreamer.Caps.{Struct, Caps, append}
use zstreamer.Caps.Negotiation.{intersect_struct, intersect_with, intersect_from, intersect}
use zstreamer.Caps.Negotiation.Meeting.{FitsArrays}
use zstreamer.Caps.Negotiation.Generic.{IsKeyed}
use zstreamer.Caps.Negotiation.Streams.{Stream, Takes, Accepts, AllKept}
use zstreamer.Caps.Negotiation.Structures.{TakesIf, struct_takes}

Accepts-append :
    (caps : Caps) (s : Struct) (x : Stream)
    → Accepts (append caps s) x ↔ (Accepts caps x ⊎ Takes s x)
unfolding append
Accepts-append [] s x = (
  λ h. elim h [ inl a ↦ inr a | inr b ↦ elim b [ ] ],
  λ h. elim h [ inl a ↦ elim a [ ] | inr b ↦ inl b ],
)
Accepts-append (c ∷ cs) s x =
    let (to, from) = Accepts-append cs s x in
    (
      λ h. elim h [
        | inl a ↦ inl (inl a)
        | inr b ↦ elim (to b) [ inl p ↦ inl (inr p) | inr q ↦ inr q ]
      ],
      λ h. elim h [
        | inl a ↦ elim a [ inl p ↦ inl p | inr q ↦ inr (from (inl q)) ]
        | inr b ↦ inr (from (inr b))
      ],
    )

-- One intersection, and then the rest, which adds what `More` says.
collected :
    (rest : Caps → Caps) (result : Caps) (o : Option Struct) (x : Stream) {Both More : Type 0}
    → TakesIf o x ↔ Both
    → ((caps : Caps) → Accepts (rest caps) x ↔ (Accepts caps x ⊎ More))
    → Accepts (elim o [ none ↦ rest result | some s ↦ rest (append result s) ]) x
      ↔ (Accepts result x ⊎ (Both ⊎ More))
collected rest result none x (to, from) h =
    let (into, back) = h result in
    (
      λ a. elim (into a) [ inl p ↦ inl p | inr q ↦ inr (inr q) ],
      λ a. elim a [
        | inl p ↦ back (inl p)
        | inr q ↦ elim q [ inl b ↦ elim (from b) [ ] | inr r ↦ back (inr r) ]
      ],
    )
collected rest result (some s) x (to, from) h =
    let (into, back) = h (append result s) in
    let (split, join) = Accepts-append result s x in
    (
      λ a. elim (into a) [
        | inl p ↦ elim (split p) [ inl b ↦ inl b | inr c ↦ inr (inl (to c)) ]
        | inr q ↦ inr (inr q)
      ],
      λ a. elim a [
        | inl p ↦ back (inl (join (inl p)))
        | inr q ↦ elim q [ inl b ↦ back (inl (join (inr (from b)))) | inr r ↦ back (inr r) ]
      ],
    )

with-Accepts :
    (s1 : Struct) (caps2 result : Caps) (x : Stream)
    → FitsArrays s1 × IsKeyed s1.fields
    → AllKept caps2
    → Accepts (intersect_with s1 caps2 result) x
      ↔ (Accepts result x ⊎ (Takes s1 x × Accepts caps2 x))
unfolding intersect_with
with-Accepts s1 [] result x k1 k2 = (λ a. inl a, λ a. elim a [ inl p ↦ p | inr q ↦ elim q.1 [ ] ])
with-Accepts s1 (s2 ∷ ss) result x k1 (k2, ks) =
    let (into, back) =
      collected (intersect_with s1 ss) result (intersect_struct s1 s2) x
        (struct_takes s1 s2 x k1.0 k2.0 k1.1 k2.1) (λ caps. with-Accepts s1 ss caps x k1 ks) in
    (
      λ a. elim (into a) [
        | inl p ↦ inl p
        | inr q ↦ elim q [ inl b ↦ inr (b.0, inl b.1) | inr r ↦ inr (r.0, inr r.1) ]
      ],
      λ a. elim a [
        | inl p ↦ back (inl p)
        | inr q ↦ elim q.1 [ inl b ↦ back (inr (inl (q.0, b))) | inr r ↦ back (inr (inr (q.0, r))) ]
      ],
    )

from-Accepts :
    (caps1 caps2 result : Caps) (x : Stream)
    → AllKept caps1
    → AllKept caps2
    → Accepts (intersect_from caps1 caps2 result) x
      ↔ (Accepts result x ⊎ (Accepts caps1 x × Accepts caps2 x))
unfolding intersect_from
from-Accepts [] caps2 result x k1 k2 =
    (λ a. inl a, λ a. elim a [ inl p ↦ p | inr q ↦ elim q.0 [ ] ])
from-Accepts (s1 ∷ ss) caps2 result x (k1, ks) k2 =
    let (into, back) = from-Accepts ss caps2 (intersect_with s1 caps2 result) x ks k2 in
    let (split, join) = with-Accepts s1 caps2 result x k1 k2 in
    (
      λ a. elim (into a) [
        | inl p ↦ elim (split p) [ inl b ↦ inl b | inr c ↦ inr (inl c.0, c.1) ]
        | inr q ↦ inr (inr q.0, q.1)
      ],
      λ a. elim a [
        | inl p ↦ back (inl (join (inl p)))
        | inr q ↦ elim q.0 [
          | inl b ↦ back (inl (join (inr (b, q.1))))
          | inr r ↦ back (inr (r, q.1))
        ]
      ],
    )

-- A stream is accepted by the intersection of two capabilities exactly if it is accepted by both: its
-- format, and its values under the keys of the generic fields. The texts of the structures fit their
-- arrays, and no structure has two fields of one key.
pub intersect-Accepts :
    (caps1 caps2 : Caps) (x : Stream)
    → AllKept caps1
    → AllKept caps2
    → Accepts (intersect caps1 caps2) x ↔ (Accepts caps1 x × Accepts caps2 x)
unfolding intersect
intersect-Accepts caps1 caps2 x k1 k2 =
    let (into, back) = from-Accepts caps1 caps2 [] x k1 k2 in
    (λ a. elim (into a) [ inl p ↦ elim p [ ] | inr q ↦ q ], λ q. back (inr q))
