-- ===== src/Caps/Negotiation/Streams.antt =====
-- The intersection of capabilities with their generic fields, as the streams that they admit.
use zstreamer.Common.{
  ◌≡◌, refl, sym, ap, subst, ◌∙◌, ◌⊎◌, ◌↔◌, inl, inr, Bool, true, false, Option, none, some, [],
  ◌∷◌, Option-cases,
}
use zstreamer.Common.Texts.{Text}
use zstreamer.Caps.{Value, Struct, Caps, find_field, is_legacy_field}
use zstreamer.Caps.Negotiation.{value_eq, add_first, add_second}
use zstreamer.Caps.Negotiation.Meaning.{Format, admits_struct}
use zstreamer.Caps.Negotiation.Keeping.{
  SameHead-trans, clashes, add_first-SameHead, add_second-SameHead,
}
use zstreamer.Caps.Negotiation.Meeting.{FitsArrays, StructMet, same_raw}
use zstreamer.Caps.Negotiation.Generic.{
  IsKeyed, first_of, first_of-none, Finds, add_first-Finds, add_second-find, add_second-keeps,
}
use zstreamer.Caps.Negotiation.Started.{Starts}
use zstreamer.Caps.Negotiation.Clashes.{value_eq_same, value_eq_both, clash_found, no_clash}

-- A stream has a format, and values under generic keys.
pub record Stream : Type 0 where
  pub format : Format
  pub generic : Text → Option Value

abbrev pub has : Option Value → Value → Bool
has none v = false
has (some u) v = value_eq v u

-- A stream has every generic field of the structure; a key that the structure lacks may have any value.
abbrev pub Carries : Struct → Stream → Type 0
Carries s x =
    (key : Text) (v : Value)
    → is_legacy_field s key ≡ false
    → find_field s.fields key ≡ some v
    → has (x.generic key) v ≡ true

abbrev pub Takes : Struct → Stream → Type 0
Takes s x = (admits_struct s x.format ≡ true) × Carries s x

-- Some structure of the capabilities admits the stream.
abbrev pub Accepts : Caps → Stream → Type 0
Accepts [] x = ⊥
Accepts (s ∷ ss) x = Takes s x ⊎ Accepts ss x

-- The texts of all structures fit their arrays, and no structure has two fields of one key.
abbrev pub AllKept : Caps → Type 0
AllKept [] = Unit {0}
AllKept (s ∷ ss) = (FitsArrays s × IsKeyed s.fields) × AllKept ss

has_both : (o : Option Value) (v w : Value) → has o v ≡ true → has o w ≡ true → value_eq v w ≡ true
has_both none v w e f = absurd (cc)
has_both (some u) v w e f = value_eq_both v w u e f

has_same : (o : Option Value) (v w : Value) → value_eq v w ≡ true → has o v ≡ true → has o w ≡ true
has_same none v w e f = absurd (cc)
has_same (some u) v w e f = sym (value_eq_same v w u e) ∙ f

legacy_same :
    (r s : Struct) (key : Text)
    → r.media_type ≡ s.media_type
    → r.type ≡ s.type
    → is_legacy_field r key ≡ is_legacy_field s key
unfolding is_legacy_field
legacy_same r s key m t = let (v, a) = same_raw r s m t in rw v (rw a refl)

-- The intersection has, under a generic key, what the first structure has, or else the second one.
pub record Met (s1 s2 r : Struct) : Type 0 where
  pub same_media : r.media_type ≡ s1.media_type
  pub same_type : r.type ≡ s1.type
  pub found :
      (key : Text)
      → is_legacy_field s1 key ≡ false
      → find_field r.fields key ≡ first_of (find_field s1.fields key) (find_field s2.fields key)

abbrev pub MetIf : Struct → Struct → Option Struct → Type 0
MetIf s1 s2 none = Unit {0}
MetIf s1 s2 (some r) = Met s1 s2 r

module _ (s1 s2 : Struct) (k1 : IsKeyed s1.fields) (k2 : IsKeyed s2.fields)
    (m : s2.media_type ≡ s1.media_type) (t : s2.type ≡ s1.type) where
  added-found :
      (key : Text) (res r : Struct)
      → is_legacy_field s1 key ≡ false
      → (find_field res.fields key ≡ none) ⊎ (find_field res.fields key ≡ find_field s1.fields key)
      → find_field r.fields key ≡ first_of (find_field s1.fields key) (find_field res.fields key)
      → find_field (add_second s1 s2 s2.fields r).fields key
        ≡ first_of (find_field s1.fields key) (find_field s2.fields key)
  added-found key res r g start f = elim (Option-cases (find_field s1.fields key)) [
    | inl missing ↦
        add_second-find s1 s2 s2.fields r key k2 (legacy_same s2 s1 key m t ∙ g) missing
        ∙ ap (first_of (find_field s2.fields key)) (nothing missing)
        ∙ first_of-none (find_field s2.fields key)
        ∙ sym (ap (λ o. first_of o (find_field s2.fields key)) missing)
    | inr (v, here) ↦
        add_second-keeps s1 s2 s2.fields r key v k2 here
        ∙ f
        ∙ ap (λ o. first_of o (find_field res.fields key)) here
        ∙ sym (ap (λ o. first_of o (find_field s2.fields key)) here)
  ]
    where
      nothing : find_field s1.fields key ≡ none → find_field r.fields key ≡ none
      nothing missing =
          f
          ∙ ap (λ o. first_of o (find_field res.fields key)) missing
          ∙ elim start [ inl e ↦ e | inr e ↦ e ∙ missing ]

  pub fields-Met :
      (both : Bool) (f : Format) (o : Option Struct)
      → clashes s1 s2 s1.fields ≡ false
      → StructMet both f s1 o
      → ((key : Text) → is_legacy_field s1 key ≡ false → Starts key (find_field s1.fields key) o)
      → MetIf s1 s2 (elim o [
        | none ↦ none
        | some res ↦ elim (add_first s1 s2 s1.fields res) [
          | none ↦ none
          | some r ↦ some (add_second s1 s2 s2.fields r)
        ]
      ])
  fields-Met both f none c met start = tt
  fields-Met both f (some res) c (media, type, _) start =
      let (r, given, head) = add_first-SameHead s1 s2 s1.fields res c in
      let last = add_second s1 s2 s2.fields r in
      let head' = SameHead-trans last r res (add_second-SameHead s1 s2 s2.fields r) head in
      rw given (record {
        same_media = head'.same_media ∙ media;
        same_type = head'.same_type ∙ type;
        found = λ key g. added-found key res r g (start key g) (
            subst (Finds key (first_of (find_field s1.fields key) (find_field res.fields key)))
              given (add_first-Finds s1 s2 s1.fields res key k1 g));
      })

  -- Where no fields clash, streams of the intersection are those of both.
  pub Met-Carries :
      (r : Struct) (x : Stream)
      → clashes s1 s2 s1.fields ≡ false
      → Met s1 s2 r
      → Carries r x ↔ (Carries s1 x × Carries s2 x)
  Met-Carries r x c met = (
    λ h. (
      λ key v g here.
          h key v (legacy_same r s1 key met.same_media met.same_type ∙ g)
            (met.found key g ∙ ap (λ o. first_of o (find_field s2.fields key)) here),
      λ key w g there.
          let g1 : is_legacy_field s1 key ≡ false = sym (legacy_same s2 s1 key m t) ∙ g in
          let g' = legacy_same r s1 key met.same_media met.same_type ∙ g1 in
          elim (Option-cases (find_field s1.fields key)) [
            | inl missing ↦
                h key w g' (
                  met.found key g1
                  ∙ ap (λ o. first_of o (find_field s2.fields key)) missing
                  ∙ there)
            | inr (v, here) ↦
                has_same (x.generic key) v w (no_clash s1 s2 s1.fields key v w c g1 here there) (
                  h key v g'
                    (met.found key g1 ∙ ap (λ o. first_of o (find_field s2.fields key)) here))
          ],
    ),
    λ h key u g found.
        let g1 : is_legacy_field s1 key ≡ false =
          sym (legacy_same r s1 key met.same_media met.same_type) ∙ g in
        elim (Option-cases (find_field s1.fields key)) [
          | inl missing ↦ h.1 key u (legacy_same s2 s1 key m t ∙ g1) (
              sym (ap (λ o. first_of o (find_field s2.fields key)) missing)
              ∙ sym (met.found key g1)
              ∙ found)
          | inr (v, here) ↦ h.0 key u g1 (
              here
              ∙ sym (ap (λ o. first_of o (find_field s2.fields key)) here)
              ∙ sym (met.found key g1)
              ∙ found)
        ],
  )

  -- Where fields clash, no stream has them both.
  pub clash-Carries :
      (x : Stream) → clashes s1 s2 s1.fields ≡ true → Carries s1 x → Carries s2 x → ⊥
  clash-Carries x c h1 h2 =
      let (key, v, w, g, here, there, ne) = clash_found s1 s2 s1.fields k1 c in
      let same =
        has_both (x.generic key) v w (h1 key v g here)
          (h2 key w (legacy_same s2 s1 key m t ∙ g) there) in
      absurd (cc (same, ne))
