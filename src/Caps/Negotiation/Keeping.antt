-- ===== src/Caps/Negotiation/Keeping.antt =====
-- The generic fields leave the properties alone.
use zstreamer.Common.{
  ℕ, ◌≡◌, refl, ◌∙◌, Bool, true, false, not, ◌&&◌, ◌||◌, none, some, List, [], ◌∷◌, arith,
  Bool-cases, inl, inr, Option-cases,
}
use zstreamer.Common.Texts.{Text, codes, text_eq, take}
use zstreamer.Caps.{
  video, audio, Value, Field, Struct, find_field, set_field, set_if, field, is_legacy_field,
  create_video, create_audio, or_empty, no_video, no_audio,
}
use zstreamer.Caps.Negotiation.{type_eq, value_eq, add_first, add_second}

-- Two structures that are the same but for their fields.
pub record SameHead (r s : Struct) : Type 0 where
  pub same_media : r.media_type ≡ s.media_type
  pub same_type : r.type ≡ s.type
  pub same_video : r.video ≡ s.video
  pub same_audio : r.audio ≡ s.audio

pub same_head : (s : Struct) → SameHead s s
same_head s = record { same_media = refl; same_type = refl; same_video = refl; same_audio = refl }

pub SameHead-trans : (a b c : Struct) → SameHead a b → SameHead b c → SameHead a c
SameHead-trans a b c p q = record {
  same_media = p.same_media ∙ q.same_media;
  same_type = p.same_type ∙ q.same_type;
  same_video = p.same_video ∙ q.same_video;
  same_audio = p.same_audio ∙ q.same_audio;
}

pub set_field-SameHead : (s : Struct) (f : Field) → SameHead (set_field s f) s
unfolding set_field
set_field-SameHead s f = record {
  same_media = refl;
  same_type = refl;
  same_video = refl;
  same_audio = refl;
}

set_if-SameHead : (b : Bool) (s : Struct) (k : Text) (v : Value) → SameHead (set_if b s k v) s
unfolding set_if
set_if-SameHead true s k v = set_field-SameHead s (field k v)
set_if-SameHead false s k v = same_head s

-- A structure with these properties and no fields.
unfoldable pub video_head : Text → ℕ → ℕ → ℕ → Text → Struct
video_head media w h fr fmt = record {
  media_type = take 63 media;
  type = video;
  fields = [];
  video = record { width = w; height = h; framerate = fr; pixel_format = take 31 fmt };
  audio = no_audio;
}

unfoldable pub audio_head : Text → ℕ → ℕ → Text → Struct
audio_head media ch rate fmt = record {
  media_type = take 63 media;
  type = audio;
  fields = [];
  video = no_video;
  audio = record { channels = ch; sample_rate = rate; format = take 31 fmt };
}

module _ (a b c d : Bool) (s : Struct) (k l m n : Text) (v w x y : Value) where
  three-SameHead : SameHead (set_if c (set_if b (set_if a s k v) l w) m x) s
  three-SameHead =
      SameHead-trans _ _ s (set_if-SameHead c _ m x)
        (SameHead-trans _ _ s (set_if-SameHead b _ l w) (set_if-SameHead a s k v))

  four-SameHead : SameHead (set_if d (set_if c (set_if b (set_if a s k v) l w) m x) n y) s
  four-SameHead = SameHead-trans _ _ s (set_if-SameHead d _ n y) three-SameHead

pub create_video-SameHead :
    (media : Text) (w h fr : ℕ) (fmt : Text)
    → SameHead (create_video (some media) w h fr (some fmt)) (video_head media w h fr fmt)
unfolding create_video video_head or_empty
create_video-SameHead media w h fr fmt =
    four-SameHead _ _ _ _ (video_head media w h fr fmt) _ _ _ _ _ _ _ _

pub create_audio-SameHead :
    (media : Text) (ch rate : ℕ) (fmt : Text)
    → SameHead (create_audio (some media) ch rate (some fmt)) (audio_head media ch rate fmt)
unfolding create_audio audio_head or_empty
create_audio-SameHead media ch rate fmt =
    three-SameHead _ _ _ false (audio_head media ch rate fmt) _ _ _ (codes "") _ _ _
      (Value.int_value 0)

-- Whether some of the fields stands in both structures with different values.
unfoldable pub clashes : Struct → Struct → List Field → Bool
clashes s1 s2 [] = false
clashes s1 s2 (f ∷ fs) =
    (not (is_legacy_field s1 f.key)
      && elim (find_field s2.fields f.key) [ none ↦ false | some v ↦ not (value_eq f.value v) ])
    || clashes s1 s2 fs

-- Whether two structures of the same media type and kind clash.
unfoldable pub clash : Struct → Struct → Bool
clash s1 s2 =
    text_eq s1.media_type s2.media_type && (type_eq s1.type s2.type && clashes s1 s2 s1.fields)

pub add_first-SameHead :
    (s1 s2 : Struct) (fs : List Field) (res : Struct)
    → clashes s1 s2 fs ≡ false
    → (r : Struct) × (add_first s1 s2 fs res ≡ some r) × SameHead r res
unfolding clashes add_first
add_first-SameHead s1 s2 [] res e = (res, refl, same_head res)
add_first-SameHead s1 s2 (f ∷ fs) res e =
    let others : clashes s1 s2 fs ≡ false = ground arith in
    let (r, found, head) = add_first-SameHead s1 s2 fs (set_field res f) others in
    let head' = SameHead-trans r (set_field res f) res head (set_field-SameHead res f) in
    elim (Bool-cases (is_legacy_field s1 f.key)) [
      | inl legacy ↦ rw legacy (add_first-SameHead s1 s2 fs res others)
      | inr generic ↦ rw generic (elim (Option-cases (find_field s2.fields f.key)) [
        | inl missing ↦ rw missing (r, found, head')
        | inr (v, there) ↦ rw there (elim (Bool-cases (value_eq f.value v)) [
          | inl same ↦ rw same (r, found, head')
          | inr other ↦ absurd (ground arith)
        ])
      ])
    ]

pub add_second-SameHead :
    (s1 s2 : Struct) (fs : List Field) (res : Struct) → SameHead (add_second s1 s2 fs res) res
unfolding add_second
add_second-SameHead s1 s2 [] res = same_head res
add_second-SameHead s1 s2 (f ∷ fs) res =
    let head = add_second-SameHead s1 s2 fs (set_field res f) in
    let head' = SameHead-trans _ (set_field res f) res head (set_field-SameHead res f) in
    elim (Bool-cases (is_legacy_field s2 f.key)) [
      | inl legacy ↦ rw legacy (add_second-SameHead s1 s2 fs res)
      | inr generic ↦ rw generic (elim (Option-cases (find_field s1.fields f.key)) [
        | inl missing ↦ rw missing head'
        | inr (v, there) ↦ rw there (add_second-SameHead s1 s2 fs res)
      ])
    ]
