-- ===== src/Caps/Settings.antt =====
-- The generic fields of the first structure: the functions zst_caps_set_* and zst_caps_get_*.
pub mod Fields
use zstreamer.Common.{ℕ, ◌||◌, Option, none, some, List, [], ◌∷◌, if◌then◌else◌}
use zstreamer.Common.Texts.{Text, codes, text_eq, take}
use zstreamer.Types.{ZstResult, ok, error}
use zstreamer.Caps.{
  CapsType, video, audio, any, Value, int_value, uint_value, double_value, string_value,
  fraction_value, buffer_value, Struct, Caps, no_video, no_audio, or_empty, find_field, set_field,
  field, append,
}

-- `strncmp(media_type, "video/", 6)`, and the same for audio.
unfoldable pub type_of_media : Option Text → CapsType
type_of_media none = any
type_of_media (some media) =
    if text_eq (take 6 media) (codes "video/")
    then video
    else if text_eq (take 6 media) (codes "audio/")
    then audio
    else any

unfoldable pub new_simple : Option Text → Caps
new_simple media = append [] (record {
  media_type = take 63 (or_empty media);
  type = type_of_media media;
  fields = [];
  video = no_video;
  audio = no_audio;
})

-- What a setter changes besides the field: the properties of the structure with the same name.
unfoldable pub int_property : Struct → Text → ℕ → Struct
int_property s key value = elim s.type [
  | video ↦
      if text_eq key (codes "width")
      then record s { video = record s.video { width = value } }
      else if text_eq key (codes "height")
      then record s { video = record s.video { height = value } }
      else s
  | audio ↦
      if text_eq key (codes "channels")
      then record s { audio = record s.audio { channels = value } }
      else if text_eq key (codes "sample-rate") || text_eq key (codes "sample_rate")
      then record s { audio = record s.audio { sample_rate = value } }
      else s
  | any ↦ s
]

unfoldable pub double_property : Struct → Text → ℕ → Struct
double_property s key value = elim s.type [
  | video ↦
      if text_eq key (codes "framerate")
      then record s { video = record s.video { framerate = value } }
      else s
  | audio ↦ s
  | any ↦ s
]

unfoldable pub string_property : Struct → Text → Option Text → Struct
string_property s key value = elim s.type [
  | video ↦
      if text_eq key (codes "pixel-format") || text_eq key (codes "pixel_format")
      then record s { video = record s.video { pixel_format = take 31 (or_empty value) } }
      else s
  | audio ↦
      if text_eq key (codes "format")
      then record s { audio = record s.audio { format = take 31 (or_empty value) } }
      else s
  | any ↦ s
]

-- The local field is given the first 63 bytes of the key.
unfoldable pub set_int : Caps → Text → ℕ → Caps × ZstResult
set_int [] key value = ([], error)
set_int (s ∷ ss) key value =
    (set_field (int_property s key value) (field (take 63 key) (int_value value)) ∷ ss, ok)

pub set_uint : Caps → Text → ℕ → Caps × ZstResult
set_uint [] key value = ([], error)
set_uint (s ∷ ss) key value = (set_field s (field (take 63 key) (uint_value value)) ∷ ss, ok)

unfoldable pub set_double : Caps → Text → ℕ → Caps × ZstResult
set_double [] key value = ([], error)
set_double (s ∷ ss) key value =
    (set_field (double_property s key value) (field (take 63 key) (double_value value)) ∷ ss, ok)

unfoldable pub set_string : Caps → Text → Option Text → Caps × ZstResult
set_string [] key value = ([], error)
set_string (s ∷ ss) key value =
    (set_field (string_property s key value) (field (take 63 key) (string_value value)) ∷ ss, ok)

pub set_fraction : Caps → Text → ℕ → ℕ → Caps × ZstResult
set_fraction [] key num denom = ([], error)
set_fraction (s ∷ ss) key num denom =
    (set_field s (field (take 63 key) (fraction_value num denom)) ∷ ss, ok)

pub set_buffer : Caps → Text → List ℕ → Caps × ZstResult
set_buffer [] key bytes = ([], error)
set_buffer (s ∷ ss) key bytes = (set_field s (field (take 63 key) (buffer_value bytes)) ∷ ss, ok)

unfoldable pub find_first : Caps → Text → Option Value
find_first [] key = none
find_first (s ∷ ss) key = find_field s.fields key

-- Each getter: `none` is `ZST_ERROR`, for a field that is missing or of another type.
unfoldable pub get_int : Caps → Text → Option ℕ
get_int caps key = elim (find_first caps key) [ some (int_value v) ↦ some v | _ ↦ none ]

pub get_uint : Caps → Text → Option ℕ
get_uint caps key = elim (find_first caps key) [ some (uint_value v) ↦ some v | _ ↦ none ]

pub get_double : Caps → Text → Option ℕ
get_double caps key = elim (find_first caps key) [ some (double_value v) ↦ some v | _ ↦ none ]

pub get_string : Caps → Text → Option (Option Text)
get_string caps key = elim (find_first caps key) [ some (string_value v) ↦ some v | _ ↦ none ]

pub get_fraction : Caps → Text → Option (ℕ × ℕ)
get_fraction caps key = elim (find_first caps key) [
  | some (fraction_value num denom) ↦ some (num, denom)
  | _ ↦ none
]

pub get_buffer : Caps → Text → Option (List ℕ)
get_buffer caps key = elim (find_first caps key) [
  | some (buffer_value bytes) ↦ some bytes
  | _ ↦ none
]
