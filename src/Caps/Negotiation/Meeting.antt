-- ===== src/Caps/Negotiation/Meeting.antt =====
-- Intersection is the intersection of the admitted formats.
use zstreamer.Common.{
  ◌≤◌, ◌≡◌, refl, sym, ap, ◌∙◌, Bool, true, false, ◌&&◌, Option, none, some, arith, length,
  Bool-cases, inl, inr,
}
use zstreamer.Common.Texts.{codes, text_eq, take, take_short, text_eq_sound}
use zstreamer.Caps.{CapsType, video, audio, Struct, is_raw_video, is_raw_audio, copy_struct}
use zstreamer.Caps.Negotiation.{
  type_eq, intersect_properties, intersect_struct, add_first, add_second,
}
use zstreamer.Caps.Negotiation.Meaning.{
  Format, admits_properties, admits_struct, allowed, text_eq_both,
}
use zstreamer.Caps.Negotiation.Merging.{VideoMet, AudioMet, video_met, audio_met}
use zstreamer.Caps.Negotiation.Keeping.{
  SameHead, SameHead-trans, clash, clashes, add_first-SameHead, add_second-SameHead,
}

pub head_eq : (r s : Struct) → SameHead r s → r ≡ record s { fields = r.fields }
head_eq r s h = ground (arith, h.same_media, h.same_type, h.same_video, h.same_audio)

pub head_admits : (r s : Struct) (f : Format) → SameHead r s → admits_struct r f ≡ admits_struct s f
unfolding admits_struct admits_properties is_raw_video is_raw_audio
head_admits r s f h = ap (λ q. admits_struct q f) (head_eq r s h)

-- The texts of a structure fit their arrays.
pub record FitsArrays (s : Struct) : Type 0 where
  pub pixel_format_fits : length s.video.pixel_format ≤ 31
  pub format_fits : length s.audio.format ≤ 31

-- A merged structure has the kind of the first one and admits what both admit.
abbrev pub StructMet : Bool → Format → Struct → Option Struct → Type 0
StructMet both f s none = both ≡ false
StructMet both f s (some r) =
    (r.media_type ≡ s.media_type) × (r.type ≡ s.type) × (admits_properties r f ≡ both)

pub raw_video_lem :
    (s : Struct) → is_raw_video s ≡ true → (s.type ≡ video) × (s.media_type ≡ codes "video/x-raw")
unfolding is_raw_video
raw_video_lem s e = (ground arith, text_eq_sound s.media_type (codes "video/x-raw") (ground arith))

pub raw_audio_lem :
    (s : Struct) → is_raw_audio s ≡ true → (s.type ≡ audio) × (s.media_type ≡ codes "audio/x-raw")
unfolding is_raw_audio
raw_audio_lem s e = (ground arith, text_eq_sound s.media_type (codes "audio/x-raw") (ground arith))

pub same_raw :
    (r s : Struct)
    → r.media_type ≡ s.media_type
    → r.type ≡ s.type
    → (is_raw_video r ≡ is_raw_video s) × (is_raw_audio r ≡ is_raw_audio s)
unfolding is_raw_video is_raw_audio
same_raw r s m t = ground (arith, m, t)

pub not_both_raw : (s : Struct) → is_raw_audio s ≡ true → is_raw_video s ≡ false
unfolding is_raw_video is_raw_audio
not_both_raw s e = ground arith

from_video :
    (both : Bool) (f : Format) (s : Struct) (o : Option Struct)
    → is_raw_video s ≡ true
    → VideoMet s.media_type both f.video o
    → StructMet both f s o
unfolding admits_properties
from_video both f s none e met = met
from_video both f s (some r) e (media, type, made) =
    let (t, m) = raw_video_lem s e in
    let short = take_short 63 (codes "video/x-raw") (omega arith) in
    let media' : r.media_type ≡ s.media_type = media ∙ ap (take 63) m ∙ short ∙ sym m in
    (media', type ∙ sym t, rw ((same_raw r s media' (type ∙ sym t)).0 ∙ e) made)

from_audio :
    (both : Bool) (f : Format) (s : Struct) (o : Option Struct)
    → is_raw_audio s ≡ true
    → AudioMet s.media_type both f.audio o
    → StructMet both f s o
unfolding admits_properties
from_audio both f s none e met = met
from_audio both f s (some r) e (media, type, made) =
    let (t, m) = raw_audio_lem s e in
    let short = take_short 63 (codes "audio/x-raw") (omega arith) in
    let media' : r.media_type ≡ s.media_type = media ∙ ap (take 63) m ∙ short ∙ sym m in
    let (same_video, same_audio) = same_raw r s media' (type ∙ sym t) in
    (media', type ∙ sym t, rw (same_video ∙ not_both_raw s e) (rw (same_audio ∙ e) made))

pub properties_met :
    (s1 s2 : Struct) (f : Format)
    → FitsArrays s1
    → FitsArrays s2
    → s2.media_type ≡ s1.media_type
    → s2.type ≡ s1.type
    → StructMet (admits_properties s1 f && admits_properties s2 f) f s1 (intersect_properties s1 s2)
unfolding intersect_properties admits_properties copy_struct
properties_met s1 s2 f h1 h2 m t =
    let (same_video, same_audio) = same_raw s2 s1 m t in
    let copied = same_raw (copy_struct s1) s1 refl refl in
    rw same_video (
      rw same_audio (elim (Bool-cases (is_raw_video s1)) [
        | inl v ↦ rw v (
            from_video _ f s1 _ v (
              video_met s1.media_type s1.video s2.video f.video h1.pixel_format_fits
                h2.pixel_format_fits))
        | inr no_v ↦ rw no_v (elim (Bool-cases (is_raw_audio s1)) [
          | inl a ↦ rw a (
              from_audio _ f s1 _ a
                (audio_met s1.media_type s1.audio s2.audio f.audio h1.format_fits h2.format_fits))
          | inr no_a ↦ rw no_a (refl, refl, rw (copied.0 ∙ no_v) (rw (copied.1 ∙ no_a) refl))
        ])
      ]))

type_eq_both : (a b x : CapsType) → type_eq a x ≡ true → type_eq b x ≡ true → type_eq a b ≡ true
unfolding type_eq
type_eq_both a b x e e' = ground arith

pub type_eq_sound : (a b : CapsType) → type_eq a b ≡ true → a ≡ b
unfolding type_eq
type_eq_sound a b e = ground arith

with_fields :
    (s1 s2 : Struct) (f : Format) (o : Option Struct)
    → clashes s1 s2 s1.fields ≡ false
    → s2.media_type ≡ s1.media_type
    → s2.type ≡ s1.type
    → StructMet (admits_properties s1 f && admits_properties s2 f) f s1 o
    → allowed admits_struct
        (elim o [
          | none ↦ none
          | some res ↦ elim (add_first s1 s2 s1.fields res) [
            | none ↦ none
            | some res' ↦ some (add_second s1 s2 s2.fields res')
          ]
        ])
        f
      ≡ (admits_struct s1 f && admits_struct s2 f)
unfolding admits_struct
with_fields s1 s2 f none c m t met = ground (arith, met)
with_fields s1 s2 f (some res) c m t (media, type, met) =
    let (r, found, head) = add_first-SameHead s1 s2 s1.fields res c in
    let last = add_second s1 s2 s2.fields r in
    rw found (
      head_admits last res f
        (SameHead-trans last r res (add_second-SameHead s1 s2 s2.fields r) head)
      ∙ ground (
        arith,
        met,
        ap (λ k. text_eq k f.media_type) media,
        ap (λ k. type_eq k f.type) type,
        ap (λ k. text_eq k f.media_type) m,
        ap (λ k. type_eq k f.type) t,
      ))

-- Structures of different media types or kinds admit nothing in common.
pub media_differ :
    (s1 s2 : Struct) (f : Format)
    → text_eq s1.media_type s2.media_type ≡ false
    → false ≡ (admits_struct s1 f && admits_struct s2 f)
unfolding admits_struct
media_differ s1 s2 f e = ground (arith, text_eq_both s1.media_type s2.media_type f.media_type)

pub types_differ :
    (s1 s2 : Struct) (f : Format)
    → type_eq s1.type s2.type ≡ false
    → false ≡ (admits_struct s1 f && admits_struct s2 f)
unfolding admits_struct
types_differ s1 s2 f e = ground (arith, type_eq_both s1.type s2.type f.type)

-- The intersection of two structures whose generic fields do not clash admits exactly the formats that
-- both admit; where it fails there is no such format.
pub intersect_struct_meets :
    (s1 s2 : Struct) (f : Format)
    → FitsArrays s1
    → FitsArrays s2
    → clash s1 s2 ≡ false
    → allowed admits_struct (intersect_struct s1 s2) f ≡ (admits_struct s1 f && admits_struct s2 f)
unfolding intersect_struct clash
intersect_struct_meets s1 s2 f h1 h2 c = elim (Bool-cases (text_eq s1.media_type s2.media_type)) [
  | inr other ↦ rw other (media_differ s1 s2 f other)
  | inl media ↦ rw media (elim (Bool-cases (type_eq s1.type s2.type)) [
    | inr other ↦ rw other (types_differ s1 s2 f other)
    | inl type ↦
        let m = sym (text_eq_sound s1.media_type s2.media_type media) in
        let t = sym (type_eq_sound s1.type s2.type type) in
        let c' : clashes s1 s2 s1.fields ≡ false = ground (arith, media, type, c) in
        rw type (
          with_fields s1 s2 f (intersect_properties s1 s2) c' m t
            (properties_met s1 s2 f h1 h2 m t))
  ])
]
