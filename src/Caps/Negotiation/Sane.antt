-- ===== src/Caps/Negotiation/Sane.antt =====
-- The intersection of capabilities whose texts fit and whose frame rates are numbers has these too.
use zstreamer.Common.{
  ℕ, ◌≡◌, refl, ap, ◌∙◌, false, not, ◌&&◌, Option, none, some, List, [], ◌∷◌, arith, length, inl,
  inr, if_intro, Option-cases,
}
use zstreamer.Common.Texts.{Text, text_eq, length-take}
use zstreamer.Caps.{
  Field, set_field, find_field, is_legacy_field, is_raw_video, is_raw_audio, no_audio, no_video,
  copy_fields, Struct, Caps, double_eq, is_nan, append, copy_struct, create_video, create_audio,
}
use zstreamer.Caps.Negotiation.{
  value_eq, type_eq, add_first, add_second, merge_number, merge_text, merge_double, intersect_video,
  intersect_audio, intersect_properties, intersect_struct, intersect_with, intersect_from,
  intersect,
}
use zstreamer.Caps.Negotiation.Keeping.{
  SameHead, set_field-SameHead, add_second-SameHead, create_video-SameHead, create_audio-SameHead,
  video_head, audio_head,
}
use zstreamer.Caps.Negotiation.Meeting.{FitsArrays}

-- The texts fit their arrays, and the frame rate is not a NaN.
pub record IsSane (s : Struct) : Type 0 where
  pub fits : FitsArrays s
  pub a_number : is_nan s.video.framerate ≡ false

abbrev pub AllSane : Caps → Type 0
AllSane [] = Unit {0}
AllSane (s ∷ ss) = IsSane s × AllSane ss

abbrev SaneIfAny : Option Struct → Type 0
SaneIfAny none = Unit {0}
SaneIfAny (some s) = IsSane s

SameHead-IsSane : (r s : Struct) → SameHead r s → IsSane s → IsSane r
SameHead-IsSane r s h k = record {
  fits = record {
    pixel_format_fits =
        ground (arith, ap (λ v. length v.pixel_format) h.same_video, k.fits.pixel_format_fits);
    format_fits = ground (arith, ap (λ v. length v.format) h.same_audio, k.fits.format_fits);
  };
  a_number = ap (λ v. is_nan v.framerate) h.same_video ∙ k.a_number;
}

made_video-IsSane :
    (media : Text) (w h fr : ℕ) (fmt : Text)
    → is_nan fr ≡ false
    → IsSane (create_video (some media) w h fr (some fmt))
unfolding video_head no_audio
made_video-IsSane media w h fr fmt n =
    SameHead-IsSane _ (video_head media w h fr fmt) (create_video-SameHead media w h fr fmt)
      (record {
        fits = record { pixel_format_fits = length-take 31 fmt; format_fits = omega arith };
        a_number = n;
      })

made_audio-IsSane :
    (media : Text) (ch rate : ℕ) (fmt : Text)
    → IsSane (create_audio (some media) ch rate (some fmt))
unfolding audio_head no_video is_nan
made_audio-IsSane media ch rate fmt =
    SameHead-IsSane _ (audio_head media ch rate fmt) (create_audio-SameHead media ch rate fmt)
      (record {
        fits = record { pixel_format_fits = omega arith; format_fits = length-take 31 fmt };
        a_number = refl;
      })

abbrev NumberIfAny : Option ℕ → Type 0
NumberIfAny none = Unit {0}
NumberIfAny (some a) = is_nan a ≡ false

merge_double-NumberIfAny :
    (a b : ℕ) → is_nan a ≡ false → is_nan b ≡ false → NumberIfAny (merge_double a b)
unfolding merge_double
merge_double-NumberIfAny a b h k =
    if_intro NumberIfAny (not (double_eq a 0) && not (double_eq b 0))
      (λ _. if_intro NumberIfAny (double_eq a b) (λ _. h) (λ _. tt))
      (λ _. if_intro (λ (c : ℕ). is_nan c ≡ false) (not (double_eq a 0)) (λ _. h) (λ _. k))

video_steps-SaneIfAny :
    (media : Text) (ow oh ofr : Option ℕ) (ofmt : Option Text)
    → NumberIfAny ofr
    → SaneIfAny (elim ow [
      | none ↦ none
      | some w ↦ elim oh [
        | none ↦ none
        | some h ↦ elim ofr [
          | none ↦ none
          | some fr ↦ elim ofmt [
            | none ↦ none
            | some fmt ↦ some (create_video (some media) w h fr (some fmt))
          ]
        ]
      ]
    ])
video_steps-SaneIfAny media none oh ofr ofmt n = tt
video_steps-SaneIfAny media (some w) none ofr ofmt n = tt
video_steps-SaneIfAny media (some w) (some h) none ofmt n = tt
video_steps-SaneIfAny media (some w) (some h) (some fr) none n = tt
video_steps-SaneIfAny media (some w) (some h) (some fr) (some fmt) n =
    made_video-IsSane media w h fr fmt n

audio_steps-SaneIfAny :
    (media : Text) (och orate : Option ℕ) (ofmt : Option Text)
    → SaneIfAny (elim och [
      | none ↦ none
      | some ch ↦ elim orate [
        | none ↦ none
        | some rate ↦ elim ofmt [
          | none ↦ none
          | some fmt ↦ some (create_audio (some media) ch rate (some fmt))
        ]
      ]
    ])
audio_steps-SaneIfAny media none orate ofmt = tt
audio_steps-SaneIfAny media (some ch) none ofmt = tt
audio_steps-SaneIfAny media (some ch) (some rate) none = tt
audio_steps-SaneIfAny media (some ch) (some rate) (some fmt) = made_audio-IsSane media ch rate fmt

properties-SaneIfAny :
    (s1 s2 : Struct) → IsSane s1 → IsSane s2 → SaneIfAny (intersect_properties s1 s2)
unfolding intersect_properties intersect_video intersect_audio copy_struct
properties-SaneIfAny s1 s2 h k =
    if_intro SaneIfAny (is_raw_video s1)
      (λ _.
        video_steps-SaneIfAny s1.media_type (merge_number s1.video.width s2.video.width)
          (merge_number s1.video.height s2.video.height)
          (merge_double s1.video.framerate s2.video.framerate)
          (merge_text s1.video.pixel_format s2.video.pixel_format)
          (merge_double-NumberIfAny s1.video.framerate s2.video.framerate h.a_number k.a_number))
      (λ _.
        if_intro SaneIfAny (is_raw_audio s1)
          (λ _.
            audio_steps-SaneIfAny s1.media_type (merge_number s1.audio.channels s2.audio.channels)
              (merge_number s1.audio.sample_rate s2.audio.sample_rate)
              (merge_text s1.audio.format s2.audio.format))
          (λ _. SameHead-IsSane _ s1 (same_copy s1) h))
  where
    same_copy : (s : Struct) → SameHead (record s { fields = copy_fields s.fields }) s
    same_copy s = record {
      same_media = refl;
      same_type = refl;
      same_video = refl;
      same_audio = refl;
    }

add_first-SaneIfAny :
    (s1 s2 : Struct) (fs : List Field) (res : Struct)
    → IsSane res
    → SaneIfAny (add_first s1 s2 fs res)
unfolding add_first
add_first-SaneIfAny s1 s2 [] res k = k
add_first-SaneIfAny s1 s2 (f ∷ fs) res k =
    let added =
      add_first-SaneIfAny s1 s2 fs (set_field res f)
        (SameHead-IsSane _ res (set_field-SameHead res f) k) in
    if_intro SaneIfAny (is_legacy_field s1 f.key) (λ _. add_first-SaneIfAny s1 s2 fs res k)
      (λ _. elim (Option-cases (find_field s2.fields f.key)) [
        | inl missing ↦ rw missing added
        | inr (v, there) ↦ rw there (if_intro SaneIfAny (value_eq f.value v) (λ _. added) (λ _. tt))
      ])

with_fields-SaneIfAny :
    (s1 s2 : Struct) (o : Option Struct)
    → SaneIfAny o
    → SaneIfAny (elim o [
      | none ↦ none
      | some res ↦ elim (add_first s1 s2 s1.fields res) [
        | none ↦ none
        | some res' ↦ some (add_second s1 s2 s2.fields res')
      ]
    ])
with_fields-SaneIfAny s1 s2 none k = tt
with_fields-SaneIfAny s1 s2 (some res) k =
    second (add_first s1 s2 s1.fields res) (add_first-SaneIfAny s1 s2 s1.fields res k)
  where
    second :
        (o : Option Struct)
        → SaneIfAny o
        → SaneIfAny (elim o [ none ↦ none | some res' ↦ some (add_second s1 s2 s2.fields res') ])
    second none h = tt
    second (some r) h = SameHead-IsSane _ r (add_second-SameHead s1 s2 s2.fields r) h

intersect_struct-SaneIfAny :
    (s1 s2 : Struct) → IsSane s1 → IsSane s2 → SaneIfAny (intersect_struct s1 s2)
unfolding intersect_struct
intersect_struct-SaneIfAny s1 s2 h k =
    if_intro SaneIfAny (not (text_eq s1.media_type s2.media_type)) (λ _. tt)
      λ _.
        if_intro SaneIfAny (not (type_eq s1.type s2.type)) (λ _. tt)
          λ _.
            with_fields-SaneIfAny s1 s2 (intersect_properties s1 s2)
              (properties-SaneIfAny s1 s2 h k)

append-AllSane : (caps : Caps) (s : Struct) → AllSane caps → IsSane s → AllSane (append caps s)
unfolding append
append-AllSane [] s h k = (k, tt)
append-AllSane (t ∷ ts) s (h, hs) k = (h, append-AllSane ts s hs k)

step-AllSane :
    (rest : Caps → Caps) (result : Caps) (o : Option Struct)
    → SaneIfAny o
    → AllSane result
    → ((caps : Caps) → AllSane caps → AllSane (rest caps))
    → AllSane (elim o [ none ↦ rest result | some s ↦ rest (append result s) ])
step-AllSane rest result none k h go = go result h
step-AllSane rest result (some s) k h go = go (append result s) (append-AllSane result s h k)

with-AllSane :
    (s1 : Struct) (caps2 result : Caps)
    → IsSane s1
    → AllSane caps2
    → AllSane result
    → AllSane (intersect_with s1 caps2 result)
unfolding intersect_with
with-AllSane s1 [] result h hs k = k
with-AllSane s1 (s2 ∷ ss) result h (h2, hs) k =
    step-AllSane (intersect_with s1 ss) result (intersect_struct s1 s2)
      (intersect_struct-SaneIfAny s1 s2 h h2) k (λ caps q. with-AllSane s1 ss caps h hs q)

from-AllSane :
    (caps1 caps2 result : Caps)
    → AllSane caps1
    → AllSane caps2
    → AllSane result
    → AllSane (intersect_from caps1 caps2 result)
unfolding intersect_from
from-AllSane [] caps2 result h hs k = k
from-AllSane (s1 ∷ ss) caps2 result (h1, h) hs k =
    from-AllSane ss caps2 (intersect_with s1 caps2 result) h hs
      (with-AllSane s1 caps2 result h1 hs k)

pub intersect-AllSane :
    (caps1 caps2 : Caps) → AllSane caps1 → AllSane caps2 → AllSane (intersect caps1 caps2)
unfolding intersect
intersect-AllSane caps1 caps2 h k = from-AllSane caps1 caps2 [] h k tt
