-- ===== src/Caps.antt =====
-- src/zst_caps.c: capabilities, the descriptions of media that two pads negotiate about.
pub mod Settings
pub mod Negotiation
mod Tests
use zstreamer.Common.{
  ℕ, ◌+◌, ◌%◌, ◌^◌, ◌/◌, Bool, true, false, not, ◌&&◌, ◌||◌, Option, none, some, List, [], ◌∷◌,
  ◌++◌, ltb, leb, ◌==◌, if◌then◌else◌,
}
use zstreamer.Common.Texts.{Text, codes, text_eq, is_empty, take}
use zstreamer.Types.{ZstResult, ok, error}

-- `zst_caps_type_t`.
pub data CapsType : Type 0 where
  video audio any : CapsType

-- The value of a field and its type. An `int` is known by its 32 bits and a `double` by its 64 bits; a
-- buffer by its bytes, of which there are none where the data is NULL or the size is 0.
pub data Value : Type 0 where
  int_value : ℕ → Value
  uint_value : ℕ → Value
  double_value : ℕ → Value
  string_value : Option Text → Value
  fraction_value : ℕ → ℕ → Value
  buffer_value : List ℕ → Value

pub record Field : Type 0 where
  pub key : Text
  pub value : Value

pub record Video : Type 0 where
  pub width : ℕ
  pub height : ℕ
  pub framerate : ℕ
  pub pixel_format : Text

pub record Audio : Type 0 where
  pub channels : ℕ
  pub sample_rate : ℕ
  pub format : Text

-- `zst_caps_struct_t`; `structs` of the capabilities is the list of them.
pub record Struct : Type 0 where
  pub media_type : Text
  pub type : CapsType
  pub fields : List Field
  pub video : Video
  pub audio : Audio

abbrev pub Caps : Type 0
Caps = List Struct

-- `==` on doubles, by their bits: a NaN equals nothing, and the two zeros are equal.
unfoldable pub is_nan : ℕ → Bool
is_nan a = ltb 0x7FF0000000000000 (a % 2 ^ 63)

pub double_eq : ℕ → ℕ → Bool
double_eq a b =
    not (is_nan a) && not (is_nan b) && ((a == b) || ((a % 2 ^ 63 == 0) && (b % 2 ^ 63 == 0)))

pub is_raw_video : Struct → Bool
is_raw_video s = elim s.type [
  | video ↦ text_eq s.media_type (codes "video/x-raw")
  | audio ↦ false
  | any ↦ false
]

pub is_raw_audio : Struct → Bool
is_raw_audio s = elim s.type [
  | video ↦ false
  | audio ↦ text_eq s.media_type (codes "audio/x-raw")
  | any ↦ false
]

-- The fields of a raw structure that mirror its properties.
pub is_legacy_field : Struct → Text → Bool
is_legacy_field s key =
    if is_raw_video s
    then text_eq key (codes "width")
      || text_eq key (codes "height")
      || text_eq key (codes "framerate")
      || text_eq key (codes "pixel-format")
    else is_raw_audio s
      && (text_eq key (codes "channels")
          || text_eq key (codes "sample-rate")
          || text_eq key (codes "format"))

pub find_field : List Field → Text → Option Value
find_field [] key = none
find_field (f ∷ fs) key = if text_eq f.key key then some f.value else find_field fs key

-- `caps_field_copy`: the key has 64 bytes with its NUL.
pub copy_field : Field → Field
copy_field f = record f { key = take 63 f.key }

-- `caps_struct_set_field`: in place of the field with this key, or at the end.
pub put_field : List Field → Field → List Field
put_field [] f = copy_field f ∷ []
put_field (g ∷ gs) f = if text_eq g.key f.key then copy_field f ∷ gs else g ∷ put_field gs f

pub set_field : Struct → Field → Struct
set_field s f = record s { fields = put_field s.fields f }

-- A local `zst_caps_field_t` with a key that fits.
pub field : Text → Value → Field
field key value = record { key = key; value = value }

pub set_if : Bool → Struct → Text → Value → Struct
set_if true s key value = set_field s (field key value)
set_if false s key value = s

pub no_video : Video
no_video = record { width = 0; height = 0; framerate = 0; pixel_format = [] }

pub no_audio : Audio
no_audio = record { channels = 0; sample_rate = 0; format = [] }

pub or_empty : Option Text → Text
or_empty none = []
or_empty (some t) = t

pub create_video : Option Text → ℕ → ℕ → ℕ → Option Text → Struct
create_video media width height framerate pixel_format =
    let empty : Struct = record {
      media_type = take 63 (or_empty media);
      type = video;
      fields = [];
      video = record {
        width = width;
        height = height;
        framerate = framerate;
        pixel_format = take 31 (or_empty pixel_format);
      };
      audio = no_audio;
    } in
    let raw = text_eq empty.media_type (codes "video/x-raw") in
    let with_width = set_if (raw || not (width == 0)) empty (codes "width") (int_value width) in
    let with_height =
      set_if (raw || not (height == 0)) with_width (codes "height") (int_value height) in
    let with_rate =
      set_if (raw || not (double_eq framerate 0)) with_height (codes "framerate")
        (double_value framerate) in
    elim pixel_format [
      | none ↦ with_rate
      | some t ↦ set_if raw with_rate (codes "pixel-format") (string_value (some t))
    ]

pub create_audio : Option Text → ℕ → ℕ → Option Text → Struct
create_audio media channels sample_rate format =
    let empty : Struct = record {
      media_type = take 63 (or_empty media);
      type = audio;
      fields = [];
      video = no_video;
      audio = record {
        channels = channels;
        sample_rate = sample_rate;
        format = take 31 (or_empty format);
      };
    } in
    let raw = text_eq empty.media_type (codes "audio/x-raw") in
    let with_channels =
      set_if (raw || not (channels == 0)) empty (codes "channels") (int_value channels) in
    let with_rate =
      set_if (raw || not (sample_rate == 0)) with_channels (codes "sample-rate")
        (int_value sample_rate) in
    elim format [
      | none ↦ with_rate
      | some t ↦ set_if raw with_rate (codes "format") (string_value (some t))
    ]

pub copy_fields : List Field → List Field
copy_fields [] = []
copy_fields (f ∷ fs) = copy_field f ∷ copy_fields fs

unfoldable pub copy_struct : Struct → Struct
copy_struct s = record s { fields = copy_fields s.fields }

unfoldable pub copy : Caps → Caps
copy [] = []
copy (s ∷ ss) = copy_struct s ∷ copy ss

pub append : Caps → Struct → Caps
append caps s = caps ++ s ∷ []
