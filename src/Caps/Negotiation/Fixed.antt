-- ===== src/Caps/Negotiation/Fixed.antt =====
-- Fixation gives one fixed structure, which the first one admitted.
use zstreamer.Common.{
  ◌≤◌, ◌≡◌, refl, sym, ap, ◌∙◌, true, false, not, ◌&&◌, [], ◌∷◌, ◌==◌, arith, length, if_intro,
}
use zstreamer.Common.Texts.{Text, codes, is_empty, text_eq_refl}
use zstreamer.Types.{ok}
use zstreamer.Caps.{
  CapsType, video, audio, Struct, Video, Audio, Caps, is_raw_video, is_raw_audio, double_eq, is_nan,
}
use zstreamer.Caps.Negotiation.{
  type_eq, struct_is_fixed, is_fixed, fixate_video, fixate_audio, set_video, set_audio,
  fixate_struct, fixate, number_or, text_or, default_framerate,
}
use zstreamer.Caps.Negotiation.Meaning.{
  Format, admits_number, admits_double, admits_text, admits_video, admits_audio, admits_properties,
  admits_struct,
}
use zstreamer.Caps.Negotiation.Keeping.{SameHead}
use zstreamer.Caps.Negotiation.Meeting.{
  FitsArrays, raw_video_lem, raw_audio_lem, same_raw, not_both_raw, head_eq,
}
use zstreamer.Caps.Negotiation.Fixing.{One, One-video, One-audio}

abbrev pub format_of : Struct → Format
format_of s = record { media_type = s.media_type; type = s.type; video = s.video; audio = s.audio }

head_fixed : (r s : Struct) → SameHead r s → struct_is_fixed r ≡ struct_is_fixed s
unfolding struct_is_fixed is_raw_video is_raw_audio
head_fixed r s h = ap struct_is_fixed (head_eq r s h)

pub head_format : (r s : Struct) → SameHead r s → format_of r ≡ format_of s
head_format r s h = ap format_of (head_eq r s h)

pub type_eq_refl : (t : CapsType) → type_eq t t ≡ true
unfolding type_eq
type_eq_refl t = ground arith

text_or_admitted : (d a : Text) → admits_text a (text_or d a) ≡ true
unfolding admits_text text_or
text_or_admitted d a = ground (arith, text_eq_refl a)

video_admitted : (v : Video) → is_nan v.framerate ≡ false → admits_video v (fixate_video v) ≡ true
unfolding admits_video fixate_video admits_number number_or admits_double double_eq
video_admitted v n = ground (arith, text_or_admitted (codes "YUV420P") v.pixel_format)

audio_admitted : (a : Audio) → admits_audio a (fixate_audio a) ≡ true
unfolding admits_audio fixate_audio admits_number number_or
audio_admitted a = ground (arith, text_or_admitted (codes "S16LE") a.format)

video_resolved :
    (v : Video)
    → (not ((fixate_video v).width == 0)
        && not ((fixate_video v).height == 0)
        && not (double_eq (fixate_video v).framerate 0)
        && not (is_empty (fixate_video v).pixel_format))
      ≡ true
unfolding fixate_video number_or text_or default_framerate double_eq is_nan is_empty
video_resolved v = ground arith

audio_resolved :
    (a : Audio)
    → (not ((fixate_audio a).channels == 0)
        && not ((fixate_audio a).sample_rate == 0)
        && not (is_empty (fixate_audio a).format))
      ≡ true
unfolding fixate_audio number_or text_or is_empty
audio_resolved a = ground arith

text_or_short : (d a : Text) → length d ≤ 31 → length a ≤ 31 → length (text_or d a) ≤ 31
unfolding text_or
text_or_short d a h k = ground arith

-- One structure, fixed if the media type is not empty, with a format that `s` admits.
abbrev Fixes : Caps → Struct → Type 0
Fixes caps s =
    (r : Struct) × (caps ≡ r ∷ [])
    × (struct_is_fixed r ≡ not (is_empty s.media_type))
    × (admits_struct s (format_of r) ≡ true)

-- The same, seen from the structure whose fields the setters change.
Fixes-head :
    (caps : Caps) (s s' : Struct)
    → One caps s'
    → struct_is_fixed s' ≡ not (is_empty s.media_type)
    → admits_struct s (format_of s') ≡ true
    → Fixes caps s
Fixes-head caps s s' (r, e, h) fixed admitted =
    (r, e, head_fixed r s' h ∙ fixed, ap (admits_struct s) (head_format r s' h) ∙ admitted)

pub same_kind_admitted :
    (s : Struct) (v : Video) (a : Audio)
    → admits_properties s
        (record { media_type = s.media_type; type = s.type; video = v; audio = a })
      ≡ true
    → admits_struct s (record { media_type = s.media_type; type = s.type; video = v; audio = a })
      ≡ true
unfolding admits_struct
same_kind_admitted s v a e = ground (arith, e, text_eq_refl s.media_type, type_eq_refl s.type)

video_is_fixed :
    (s : Struct)
    → s.type ≡ video
    → is_raw_video s ≡ true
    → (not (s.video.width == 0)
        && not (s.video.height == 0)
        && not (double_eq s.video.framerate 0)
        && not (is_empty s.video.pixel_format))
      ≡ true
    → struct_is_fixed s ≡ true
unfolding struct_is_fixed
video_is_fixed s t raw e = ground (arith, t, raw, e)

audio_is_fixed :
    (s : Struct)
    → s.type ≡ audio
    → is_raw_audio s ≡ true
    → (not (s.audio.channels == 0)
        && not (s.audio.sample_rate == 0)
        && not (is_empty s.audio.format))
      ≡ true
    → struct_is_fixed s ≡ true
unfolding struct_is_fixed
audio_is_fixed s t raw e = ground (arith, t, raw, e)

video-Fixes :
    (s : Struct)
    → FitsArrays s
    → is_nan s.video.framerate ≡ false
    → is_raw_video s ≡ true
    → Fixes (set_video (record s { video = fixate_video s.video } ∷ []) (fixate_video s.video)) s
unfolding fixate_video is_empty admits_properties
video-Fixes s h n raw =
    let (t, m) = raw_video_lem s raw in
    let s' : Struct = record s { video = fixate_video s.video } in
    let raw' : is_raw_video s' ≡ true = (same_raw s' s refl refl).0 ∙ raw in
    let short : length s'.video.pixel_format ≤ 31 =
      text_or_short (codes "YUV420P") s.video.pixel_format (omega arith) h.pixel_format_fits in
    let admitted = same_kind_admitted s s'.video s.audio (rw raw (video_admitted s.video n)) in
    Fixes-head _ s s' (One-video s' t short)
      (video_is_fixed s' t raw' (video_resolved s.video) ∙ sym (ap (λ k. not (is_empty k)) m))
      admitted

audio-Fixes :
    (s : Struct)
    → FitsArrays s
    → is_raw_audio s ≡ true
    → Fixes (set_audio (record s { audio = fixate_audio s.audio } ∷ []) (fixate_audio s.audio)) s
unfolding fixate_audio is_empty admits_properties
audio-Fixes s h raw =
    let (t, m) = raw_audio_lem s raw in
    let s' : Struct = record s { audio = fixate_audio s.audio } in
    let raw' : is_raw_audio s' ≡ true = (same_raw s' s refl refl).1 ∙ raw in
    let short : length s'.audio.format ≤ 31 =
      text_or_short (codes "S16LE") s.audio.format (omega arith) h.format_fits in
    let admitted =
      same_kind_admitted s s.video s'.audio
        (rw (not_both_raw s raw) (rw raw (audio_admitted s.audio))) in
    Fixes-head _ s s' (One-audio s' t short)
      (audio_is_fixed s' t raw' (audio_resolved s.audio) ∙ sym (ap (λ k. not (is_empty k)) m))
      admitted

other-Fixes : (s : Struct) → is_raw_video s ≡ false → is_raw_audio s ≡ false → Fixes (s ∷ []) s
unfolding struct_is_fixed admits_properties
other-Fixes s v a =
    (s, refl, ground (arith, v, a), same_kind_admitted s s.video s.audio (rw v (rw a refl)))

-- Fixation of capabilities with some structure reports success and leaves one structure. Its format is
-- one that the first structure admitted, and it is fixed exactly if it has a media type. The
-- frame rate that is given is a number.
pub fixate_fixes :
    (s : Struct) (ss : Caps)
    → FitsArrays s
    → is_nan s.video.framerate ≡ false
    → (r : Struct) × ((fixate (s ∷ ss)).0 ≡ r ∷ [])
      × ((fixate (s ∷ ss)).1 ≡ ok)
      × (is_fixed (r ∷ []) ≡ not (is_empty s.media_type))
      × (admits_struct s (format_of r) ≡ true)
unfolding fixate fixate_struct is_fixed
fixate_fixes s ss h n =
    let (r, e, fixed, admitted) =
      if_intro (λ (caps : Caps). Fixes caps s) (is_raw_video s) (video-Fixes s h n)
        λ v.
          if_intro (λ (caps : Caps). Fixes caps s) (is_raw_audio s) (audio-Fixes s h)
            (other-Fixes s v) in
    (r, e, refl, fixed, admitted)

own_properties :
    (s : Struct) → is_nan s.video.framerate ≡ false → admits_properties s (format_of s) ≡ true
unfolding admits_properties admits_video admits_audio admits_number admits_double admits_text
    double_eq
own_properties s n = ground (arith, text_eq_refl s.video.pixel_format, text_eq_refl s.audio.format)

-- A structure admits its own properties.
pub own_format_admitted :
    (s : Struct) → is_nan s.video.framerate ≡ false → admits_struct s (format_of s) ≡ true
own_format_admitted s n = same_kind_admitted s s.video s.audio (own_properties s n)
