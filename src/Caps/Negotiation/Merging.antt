-- ===== src/Caps/Negotiation/Merging.antt =====
-- The properties of two raw structures, merged.
use zstreamer.Common.{
  ℕ, ◌≤◌, ◌≡◌, ap, ◌∙◌, Bool, false, not, ◌&&◌, Option, none, some, if◌then◌else◌, arith, length,
  if_intro,
}
use zstreamer.Common.Texts.{Text, text_eq, is_empty, take, length-take, take_short}
use zstreamer.Caps.{video, audio, Struct, Video, Audio, create_video, create_audio}
use zstreamer.Caps.Negotiation.{merge_text, intersect_video, intersect_audio}
use zstreamer.Caps.Negotiation.Meaning.{
  admits_number, admits_double, admits_text, admits_video, admits_audio, allowed,
  merge_number_meets, merge_double_meets, merge_text_meets,
}
use zstreamer.Caps.Negotiation.Keeping.{
  create_video-SameHead, create_audio-SameHead, video_head, audio_head,
}

abbrev ShortResult : Option Text → Type 0
ShortResult none = Unit {0}
ShortResult (some t) = length t ≤ 31

merge_text_short : (a b : Text) → ShortResult (merge_text a b)
unfolding merge_text
merge_text_short a b =
    if_intro ShortResult (not (is_empty a) && not (is_empty b))
      (λ _. if_intro ShortResult (text_eq a b) (λ _. length-take 31 a) (λ _. tt))
      (λ _. length-take 31 (if not (is_empty a) then a else b))

-- What a merged structure must be.
abbrev pub VideoMet : Text → Bool → Video → Option Struct → Type 0
VideoMet media both f none = both ≡ false
VideoMet media both f (some r) =
    (r.media_type ≡ take 63 media) × (r.type ≡ video) × (admits_video r.video f ≡ both)

video_made :
    (media : Text) (w h fr : ℕ) (fmt : Text) (f : Video)
    → length fmt ≤ 31
    → VideoMet media
        (admits_number w f.width
          && admits_number h f.height
          && admits_double fr f.framerate
          && admits_text fmt f.pixel_format)
        f
        (some (create_video (some media) w h fr (some fmt)))
unfolding admits_video video_head
video_made media w h fr fmt f l =
    let head = create_video-SameHead media w h fr fmt in
    (
      head.same_media,
      head.same_type,
      ap (λ v. admits_video v f) head.same_video
          ∙ ap
              (λ t.
                admits_number w f.width
                && admits_number h f.height
                && admits_double fr f.framerate
                && admits_text t f.pixel_format)
              (take_short 31 fmt l),
    )

-- The four properties in turn: `a` and `a'` say whether each side admits the first one, and so on.
video_steps :
    (media : Text) (f : Video) (ow oh ofr : Option ℕ) (ofmt : Option Text)
    (a a' b b' c c' d d' : Bool)
    → allowed admits_number ow f.width ≡ (a && a')
    → allowed admits_number oh f.height ≡ (b && b')
    → allowed admits_double ofr f.framerate ≡ (c && c')
    → allowed admits_text ofmt f.pixel_format ≡ (d && d')
    → ShortResult ofmt
    → VideoMet media ((a && b && c && d) && (a' && b' && c' && d')) f (elim ow [
      | none ↦ none
      | some w ↦ elim oh [
        | none ↦ none
        | some h ↦ elim ofr [
          | none ↦ none
          | some fr ↦ elim ofmt [
            | none ↦ none
            | some fmt ↦ some (create_video (some media) w h fr (some fmt))
          ]
        ]
      ]
    ])
video_steps media f none oh ofr ofmt a a' b b' c c' d d' e1 e2 e3 e4 l = ground arith
video_steps media f (some w) none ofr ofmt a a' b b' c c' d d' e1 e2 e3 e4 l = ground arith
video_steps media f (some w) (some h) none ofmt a a' b b' c c' d d' e1 e2 e3 e4 l = ground arith
video_steps media f (some w) (some h) (some fr) none a a' b b' c c' d d' e1 e2 e3 e4 l =
    ground arith
video_steps media f (some w) (some h) (some fr) (some fmt) a a' b b' c c' d d' e1 e2 e3 e4 l =
    let (media_type, type, made) = video_made media w h fr fmt f l in
    (media_type, type, made ∙ ground (arith, e1, e2, e3, e4))

pub video_met :
    (media : Text) (v1 v2 f : Video)
    → length v1.pixel_format ≤ 31
    → length v2.pixel_format ≤ 31
    → VideoMet media (admits_video v1 f && admits_video v2 f) f (intersect_video media v1 v2)
unfolding intersect_video admits_video
video_met media v1 v2 f l1 l2 =
    video_steps media f _ _ _ _ (admits_number v1.width f.width) (admits_number v2.width f.width)
      (admits_number v1.height f.height) (admits_number v2.height f.height)
      (admits_double v1.framerate f.framerate) (admits_double v2.framerate f.framerate)
      (admits_text v1.pixel_format f.pixel_format) (admits_text v2.pixel_format f.pixel_format)
      (merge_number_meets v1.width v2.width f.width)
      (merge_number_meets v1.height v2.height f.height)
      (merge_double_meets v1.framerate v2.framerate f.framerate)
      (merge_text_meets v1.pixel_format v2.pixel_format f.pixel_format l1 l2)
      (merge_text_short v1.pixel_format v2.pixel_format)

abbrev pub AudioMet : Text → Bool → Audio → Option Struct → Type 0
AudioMet media both f none = both ≡ false
AudioMet media both f (some r) =
    (r.media_type ≡ take 63 media) × (r.type ≡ audio) × (admits_audio r.audio f ≡ both)

audio_made :
    (media : Text) (ch rate : ℕ) (fmt : Text) (f : Audio)
    → length fmt ≤ 31
    → AudioMet media
        (admits_number ch f.channels
          && admits_number rate f.sample_rate
          && admits_text fmt f.format)
        f
        (some (create_audio (some media) ch rate (some fmt)))
unfolding admits_audio audio_head
audio_made media ch rate fmt f l =
    let head = create_audio-SameHead media ch rate fmt in
    (
      head.same_media,
      head.same_type,
      ap (λ v. admits_audio v f) head.same_audio
          ∙ ap
              (λ t.
                admits_number ch f.channels
                && admits_number rate f.sample_rate
                && admits_text t f.format)
              (take_short 31 fmt l),
    )

audio_steps :
    (media : Text) (f : Audio) (och orate : Option ℕ) (ofmt : Option Text) (a a' b b' c c' : Bool)
    → allowed admits_number och f.channels ≡ (a && a')
    → allowed admits_number orate f.sample_rate ≡ (b && b')
    → allowed admits_text ofmt f.format ≡ (c && c')
    → ShortResult ofmt
    → AudioMet media ((a && b && c) && (a' && b' && c')) f (elim och [
      | none ↦ none
      | some ch ↦ elim orate [
        | none ↦ none
        | some rate ↦ elim ofmt [
          | none ↦ none
          | some fmt ↦ some (create_audio (some media) ch rate (some fmt))
        ]
      ]
    ])
audio_steps media f none orate ofmt a a' b b' c c' e1 e2 e3 l = ground arith
audio_steps media f (some ch) none ofmt a a' b b' c c' e1 e2 e3 l = ground arith
audio_steps media f (some ch) (some rate) none a a' b b' c c' e1 e2 e3 l = ground arith
audio_steps media f (some ch) (some rate) (some fmt) a a' b b' c c' e1 e2 e3 l =
    let (media_type, type, made) = audio_made media ch rate fmt f l in
    (media_type, type, made ∙ ground (arith, e1, e2, e3))

pub audio_met :
    (media : Text) (a1 a2 f : Audio)
    → length a1.format ≤ 31
    → length a2.format ≤ 31
    → AudioMet media (admits_audio a1 f && admits_audio a2 f) f (intersect_audio media a1 a2)
unfolding intersect_audio admits_audio
audio_met media a1 a2 f l1 l2 =
    audio_steps media f _ _ _ (admits_number a1.channels f.channels)
      (admits_number a2.channels f.channels) (admits_number a1.sample_rate f.sample_rate)
      (admits_number a2.sample_rate f.sample_rate) (admits_text a1.format f.format)
      (admits_text a2.format f.format) (merge_number_meets a1.channels a2.channels f.channels)
      (merge_number_meets a1.sample_rate a2.sample_rate f.sample_rate)
      (merge_text_meets a1.format a2.format f.format l1 l2) (merge_text_short a1.format a2.format)
