-- ===== src/Caps/Negotiation/Structures.antt =====
-- The intersection of two structures admits the streams that both admit.
use zstreamer.Common.{
  ◌≡◌, refl, sym, ap, subst, ◌∙◌, ◌↔◌, inl, inr, true, false, ◌&&◌, Option, none, some, arith,
  Bool-cases, option_intro,
}
use zstreamer.Common.Texts.{text_eq, text_eq_sound}
use zstreamer.Caps.{Struct}
use zstreamer.Caps.Negotiation.{
  type_eq, add_first, add_second, intersect_properties, intersect_struct,
}
use zstreamer.Caps.Negotiation.Meaning.{admits_struct, allowed}
use zstreamer.Caps.Negotiation.Keeping.{clash, clashes}
use zstreamer.Caps.Negotiation.Meeting.{
  FitsArrays, media_differ, types_differ, properties_met, intersect_struct_meets, type_eq_sound,
}
use zstreamer.Caps.Negotiation.Generic.{IsKeyed}
use zstreamer.Caps.Negotiation.Started.{properties-Starts}
use zstreamer.Caps.Negotiation.Clashes.{clash_refused}
use zstreamer.Caps.Negotiation.Streams.{
  Stream, Carries, Takes, MetIf, fields-Met, Met-Carries, clash-Carries,
}

abbrev pub TakesIf : Option Struct → Stream → Type 0
TakesIf none x = ⊥
TakesIf (some r) x = Takes r x

-- From the formats and the fields.
combine :
    (s1 s2 : Struct) (x : Stream) (o : Option Struct)
    → allowed admits_struct o x.format ≡ (admits_struct s1 x.format && admits_struct s2 x.format)
    → ((r : Struct) → o ≡ some r → Carries r x ↔ (Carries s1 x × Carries s2 x))
    → TakesIf o x ↔ (Takes s1 x × Takes s2 x)
combine s1 s2 x none e h =
    (λ bad. elim bad [ ], λ both. absurd (ground (arith, e, both.0.0, both.1.0)))
combine s1 s2 x (some r) e h =
    let (to, from) = h r refl in
    (
      λ taken.
          let c = to taken.1 in
          ((ground (arith, e, taken.0), c.0), (ground (arith, e, taken.0), c.1)),
      λ both. (ground (arith, e, both.0.0, both.1.0), from (both.0.1, both.1.1)),
    )

-- The intersection of structures of the same media type and kind.
meet : Struct → Struct → Option Struct
meet s1 s2 = elim (intersect_properties s1 s2) [
  | none ↦ none
  | some res ↦ elim (add_first s1 s2 s1.fields res) [
    | none ↦ none
    | some r ↦ some (add_second s1 s2 s2.fields r)
  ]
]

meet_lem :
    (s1 s2 : Struct)
    → text_eq s1.media_type s2.media_type ≡ true
    → type_eq s1.type s2.type ≡ true
    → intersect_struct s1 s2 ≡ meet s1 s2
unfolding intersect_struct meet
meet_lem s1 s2 e f = rw e (rw f refl)

meet-clashes : (s1 s2 : Struct) → clashes s1 s2 s1.fields ≡ true → meet s1 s2 ≡ none
unfolding meet
meet-clashes s1 s2 c =
    option_intro (λ o. o ≡ none) (intersect_properties s1 s2) _ _ (λ _. refl)
      (λ res _. rw (clash_refused s1 s2 s1.fields res c) refl)

meet_takes :
    (s1 s2 : Struct) (x : Stream)
    → FitsArrays s1
    → FitsArrays s2
    → IsKeyed s1.fields
    → IsKeyed s2.fields
    → text_eq s1.media_type s2.media_type ≡ true
    → type_eq s1.type s2.type ≡ true
    → TakesIf (meet s1 s2) x ↔ (Takes s1 x × Takes s2 x)
unfolding meet clash
meet_takes s1 s2 x h1 h2 k1 k2 e f =
    let m = sym (text_eq_sound s1.media_type s2.media_type e) in
    let t = sym (type_eq_sound s1.type s2.type f) in
    elim (Bool-cases (clashes s1 s2 s1.fields)) [
      | inl c ↦
          subst (λ o. TakesIf o x ↔ (Takes s1 x × Takes s2 x)) (sym (meet-clashes s1 s2 c))
            (
              λ bad. elim bad [ ],
              λ both. absurd (clash-Carries s1 s2 k1 k2 m t x c both.0.1 both.1.1),
            )
      | inr c ↦
          combine s1 s2 x (meet s1 s2)
            (sym (ap (λ o. allowed admits_struct o x.format) (meet_lem s1 s2 e f))
              ∙ intersect_struct_meets s1 s2 x.format h1 h2 (ground (arith, c)))
            (λ r given. Met-Carries s1 s2 k1 k2 m t r x c (
              subst (MetIf s1 s2) given (
                fields-Met s1 s2 k1 k2 m t _ x.format (intersect_properties s1 s2) c
                  (properties_met s1 s2 x.format h1 h2 m t)
                  (λ key g. properties-Starts s1 s2 key k1 g))))
    ]

nothing_takes :
    (s1 s2 : Struct) (x : Stream)
    → false ≡ (admits_struct s1 x.format && admits_struct s2 x.format)
    → TakesIf none x ↔ (Takes s1 x × Takes s2 x)
nothing_takes s1 s2 x e = combine s1 s2 x none e (λ r bad. absurd (cc))

-- A stream is one of the intersection of two structures exactly if it is one of both.
pub struct_takes :
    (s1 s2 : Struct) (x : Stream)
    → FitsArrays s1
    → FitsArrays s2
    → IsKeyed s1.fields
    → IsKeyed s2.fields
    → TakesIf (intersect_struct s1 s2) x ↔ (Takes s1 x × Takes s2 x)
unfolding intersect_struct
struct_takes s1 s2 x h1 h2 k1 k2 =
    let P : Option Struct → Type 0 = λ o. TakesIf o x ↔ (Takes s1 x × Takes s2 x) in
    elim (Bool-cases (text_eq s1.media_type s2.media_type)) [
      | inr other ↦ rw other (nothing_takes s1 s2 x (media_differ s1 s2 x.format other))
      | inl e ↦ elim (Bool-cases (type_eq s1.type s2.type)) [
        | inr other ↦ rw e (rw other (nothing_takes s1 s2 x (types_differ s1 s2 x.format other)))
        | inl f ↦ subst P (sym (meet_lem s1 s2 e f)) (meet_takes s1 s2 x h1 h2 k1 k2 e f)
      ]
    ]
