-- ===== src/Caps/Negotiation.antt =====
-- Intersection and fixation of capabilities.
pub mod Meaning
pub mod Keeping
pub mod Generic
pub mod Started
pub mod Clashes
pub mod Streams
pub mod Structures
pub mod Accepting
pub mod Merging
pub mod Meeting
pub mod Intersecting
pub mod Fixing
pub mod Fixed
pub mod Sane
use zstreamer.Common.{
  ℕ, Bool, true, false, not, ◌&&◌, Option, none, some, List, [], ◌∷◌, ◌==◌, if◌then◌else◌,
}
use zstreamer.Common.Texts.{Text, codes, text_eq, is_empty, take}
use zstreamer.Types.{ZstResult, ok, error}
use zstreamer.Caps.{
  CapsType, video, audio, any, Value, int_value, uint_value, double_value, string_value,
  fraction_value, buffer_value, Field, Struct, Video, Audio, Caps, double_eq, is_raw_video,
  is_raw_audio, is_legacy_field, find_field, set_field, create_video, create_audio, copy_struct,
  append,
}
use zstreamer.Caps.Settings.{set_int, set_double, set_string}

pub string_eq : Option Text → Option Text → Bool
string_eq none none = true
string_eq none (some b) = false
string_eq (some a) none = false
string_eq (some a) (some b) = text_eq a b

pub value_eq : Value → Value → Bool
value_eq (int_value a) (int_value b) = a == b
value_eq (uint_value a) (uint_value b) = a == b
value_eq (double_value a) (double_value b) = double_eq a b
value_eq (string_value a) (string_value b) = string_eq a b
value_eq (fraction_value a n) (fraction_value b m) = (a == b) && (n == m)
value_eq (buffer_value a) (buffer_value b) = text_eq a b
value_eq _ _ = false

unfoldable pub type_eq : CapsType → CapsType → Bool
type_eq video video = true
type_eq audio audio = true
type_eq any any = true
type_eq _ _ = false

-- A property of a raw structure, where 0 stands for any; `none` is a conflict.
pub merge_number : ℕ → ℕ → Option ℕ
merge_number a b =
    if not (a == 0) && not (b == 0)
    then if a == b then some a else none
    else some (if not (a == 0) then a else b)

pub merge_double : ℕ → ℕ → Option ℕ
merge_double a b =
    if not (double_eq a 0) && not (double_eq b 0)
    then if double_eq a b then some a else none
    else some (if not (double_eq a 0) then a else b)

-- `fmt` has 32 bytes with its NUL.
pub merge_text : Text → Text → Option Text
merge_text a b =
    if not (is_empty a) && not (is_empty b)
    then if text_eq a b then some (take 31 a) else none
    else some (take 31 (if not (is_empty a) then a else b))

pub intersect_video : Text → Video → Video → Option Struct
intersect_video media v1 v2 = elim (merge_number v1.width v2.width) [
  | none ↦ none
  | some w ↦ elim (merge_number v1.height v2.height) [
    | none ↦ none
    | some h ↦ elim (merge_double v1.framerate v2.framerate) [
      | none ↦ none
      | some fr ↦ elim (merge_text v1.pixel_format v2.pixel_format) [
        | none ↦ none
        | some fmt ↦ some (create_video (some media) w h fr (some fmt))
      ]
    ]
  ]
]

pub intersect_audio : Text → Audio → Audio → Option Struct
intersect_audio media a1 a2 = elim (merge_number a1.channels a2.channels) [
  | none ↦ none
  | some ch ↦ elim (merge_number a1.sample_rate a2.sample_rate) [
    | none ↦ none
    | some rate ↦ elim (merge_text a1.format a2.format) [
      | none ↦ none
      | some fmt ↦ some (create_audio (some media) ch rate (some fmt))
    ]
  ]
]

-- The fields of the first structure: a field that both have must be the same.
pub add_first : Struct → Struct → List Field → Struct → Option Struct
add_first s1 s2 [] res = some res
add_first s1 s2 (f ∷ fs) res =
    let rest = add_first s1 s2 fs res in
    let added = add_first s1 s2 fs (set_field res f) in
    if is_legacy_field s1 f.key then rest else elim (find_field s2.fields f.key) [
      | none ↦ added
      | some v ↦ if value_eq f.value v then added else none
    ]

-- The fields that only the second structure has.
pub add_second : Struct → Struct → List Field → Struct → Struct
add_second s1 s2 [] res = res
add_second s1 s2 (f ∷ fs) res =
    let rest = add_second s1 s2 fs res in
    let added = add_second s1 s2 fs (set_field res f) in
    if is_legacy_field s2 f.key
    then rest
    else elim (find_field s1.fields f.key) [ none ↦ added | some v ↦ rest ]

-- What the generic fields are added to.
pub intersect_properties : Struct → Struct → Option Struct
intersect_properties s1 s2 =
    if is_raw_video s1
    then intersect_video s1.media_type s1.video s2.video
    else if is_raw_audio s1
    then intersect_audio s1.media_type s1.audio s2.audio
    else some (copy_struct s1)

pub intersect_struct : Struct → Struct → Option Struct
intersect_struct s1 s2 =
    if not (text_eq s1.media_type s2.media_type)
    then none
    else if not (type_eq s1.type s2.type)
    then none
    else elim (intersect_properties s1 s2) [
      | none ↦ none
      | some res ↦ elim (add_first s1 s2 s1.fields res) [
        | none ↦ none
        | some res' ↦ some (add_second s1 s2 s2.fields res')
      ]
    ]

pub intersect_with : Struct → Caps → Caps → Caps
intersect_with s1 [] result = result
intersect_with s1 (s2 ∷ ss) result = elim (intersect_struct s1 s2) [
  | none ↦ intersect_with s1 ss result
  | some s ↦ intersect_with s1 ss (append result s)
]

pub intersect_from : Caps → Caps → Caps → Caps
intersect_from [] caps2 result = result
intersect_from (s1 ∷ ss) caps2 result = intersect_from ss caps2 (intersect_with s1 caps2 result)

pub intersect : Caps → Caps → Caps
intersect caps1 caps2 = intersect_from caps1 caps2 []

pub struct_is_fixed : Struct → Bool
struct_is_fixed s = elim s.type [
  | video ↦
      if is_raw_video s
      then not (s.video.width == 0)
        && not (s.video.height == 0)
        && not (double_eq s.video.framerate 0)
        && not (is_empty s.video.pixel_format)
      else not (is_empty s.media_type)
  | audio ↦
      if is_raw_audio s
      then not (s.audio.channels == 0)
        && not (s.audio.sample_rate == 0)
        && not (is_empty s.audio.format)
      else not (is_empty s.media_type)
  | any ↦ not (is_empty s.media_type)
]

unfoldable pub is_fixed : Caps → Bool
is_fixed [] = false
is_fixed (s ∷ []) = struct_is_fixed s
is_fixed (s ∷ t ∷ ss) = false

-- The bits of 30.0.
pub default_framerate : ℕ
default_framerate = 0x403E000000000000

pub number_or : ℕ → ℕ → ℕ
number_or default a = if a == 0 then default else a

pub text_or : Text → Text → Text
text_or default a = if is_empty a then default else a

pub fixate_video : Video → Video
fixate_video v = record {
  width = number_or 640 v.width;
  height = number_or 480 v.height;
  framerate = if double_eq v.framerate 0 then default_framerate else v.framerate;
  pixel_format = text_or (codes "YUV420P") v.pixel_format;
}

pub fixate_audio : Audio → Audio
fixate_audio a = record {
  channels = number_or 2 a.channels;
  sample_rate = number_or 44100 a.sample_rate;
  format = text_or (codes "S16LE") a.format;
}

-- The calls of the setters once the wildcards are resolved.
pub set_video : Caps → Video → Caps
set_video caps v =
    let with_width = (set_int caps (codes "width") v.width).0 in
    let with_height = (set_int with_width (codes "height") v.height).0 in
    let with_rate = (set_double with_height (codes "framerate") v.framerate).0 in
    (set_string with_rate (codes "pixel-format") (some v.pixel_format)).0

pub set_audio : Caps → Audio → Caps
set_audio caps a =
    let with_channels = (set_int caps (codes "channels") a.channels).0 in
    let with_rate = (set_int with_channels (codes "sample-rate") a.sample_rate).0 in
    (set_string with_rate (codes "format") (some a.format)).0

-- Only the first structure is kept.
pub fixate_struct : Struct → Caps
fixate_struct s =
    if is_raw_video s
    then set_video (record s { video = fixate_video s.video } ∷ []) (fixate_video s.video)
    else if is_raw_audio s
    then set_audio (record s { audio = fixate_audio s.audio } ∷ []) (fixate_audio s.audio)
    else s ∷ []

unfoldable pub fixate : Caps → Caps × ZstResult
fixate [] = ([], error)
fixate (s ∷ ss) = (fixate_struct s, ok)
