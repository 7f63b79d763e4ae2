-- ===== src/Caps/Tests.antt =====
-- A camera and a display that agree on a format.
use zstreamer.Common.{
  ◌↔◌, ℕ, ◌≡◌, refl, true, not, none, some, List, [], ◌∷◌, arith, ◌&&◌, if◌then◌else◌,
}
use zstreamer.Common.Texts.{codes, text_eq, take, is_empty}
use zstreamer.Types.{ok}
use zstreamer.Caps.{
  no_video, Value, int_value, string_value, Struct, Caps, create_video, create_audio, Video,
  no_audio, video, CapsType,
}
use zstreamer.Caps.Settings.{new_simple, find_first, set_int, get_int}
use zstreamer.Caps.Settings.Fields.{assign, obtain, assign-obtain}
use zstreamer.Caps.Negotiation.{intersect, fixate, is_fixed}
use zstreamer.Caps.Negotiation.Meaning.{Format, admits, admits_struct}
use zstreamer.Caps.Negotiation.Meeting.{FitsArrays}
use zstreamer.Caps.Negotiation.Streams.{Stream, Accepts, AllKept}
use zstreamer.Caps.Negotiation.Accepting.{intersect-Accepts}
use zstreamer.Caps.Negotiation.Fixed.{format_of, fixate_fixes}

abbrev camera : Caps
camera =
    create_video (some (codes "video/x-raw")) 1280 0 0 (some (codes "NV12"))
    ∷ create_video (some (codes "video/x-h264")) 1920 1080 0 none
    ∷ []

abbrev display : Caps
display = create_video (some (codes "video/x-raw")) 0 720 0 (some []) ∷ []

abbrev picture : Format
picture = record {
  media_type = codes "video/x-raw";
  type = video;
  video = record {
    width = 1280;
    height = 720;
    framerate = 0x403E000000000000;
    pixel_format = codes "NV12";
  };
  audio = no_audio;
}

-- An encoder that says what it makes, and a decoder that wants a width.
abbrev encoder : Caps
encoder = create_video (some (codes "video/x-h264")) 1920 1080 0 none ∷ []

abbrev decoder : Caps
decoder = create_video (some (codes "video/x-h264")) 1920 0 0 none ∷ []

abbrev coded : Stream
coded = record {
  format = record {
    media_type = codes "video/x-h264";
    type = video;
    video = no_video;
    audio = no_audio;
  };
  generic = λ key. some (Value.int_value (if text_eq key (codes "width") then 1920 else 1080));
}

encoder-AllKept : AllKept encoder
unfolding create_video zstreamer.Caps.set_if zstreamer.Caps.set_field zstreamer.Caps.field take
    text_eq zstreamer.Caps.or_empty zstreamer.Caps.double_eq zstreamer.Caps.is_nan
    zstreamer.Caps.no_audio zstreamer.Caps.put_field zstreamer.Caps.copy_field
    zstreamer.Caps.find_field
encoder-AllKept =
    let fits : FitsArrays (create_video (some (codes "video/x-h264")) 1920 1080 0 none) = record {
      pixel_format_fits = omega arith;
      format_fits = omega arith;
    } in
    ((fits, (omega arith, refl, (omega arith, refl, tt))), tt)

decoder-AllKept : AllKept decoder
unfolding create_video zstreamer.Caps.set_if zstreamer.Caps.set_field zstreamer.Caps.field take
    text_eq zstreamer.Caps.or_empty zstreamer.Caps.double_eq zstreamer.Caps.is_nan
    zstreamer.Caps.no_audio zstreamer.Caps.put_field zstreamer.Caps.copy_field
    zstreamer.Caps.find_field
decoder-AllKept =
    let fits : FitsArrays (create_video (some (codes "video/x-h264")) 1920 0 0 none) = record {
      pixel_format_fits = omega arith;
      format_fits = omega arith;
    } in
    ((fits, (omega arith, refl, tt)), tt)

intersect-Accepts_example :
    Accepts (intersect encoder decoder) coded ↔ (Accepts encoder coded × Accepts decoder coded)
intersect-Accepts_example = intersect-Accepts encoder decoder coded encoder-AllKept decoder-AllKept

-- They agree on the picture.
agreed : (admits camera picture && admits display picture) ≡ true
unfolding create_video zstreamer.Caps.set_if zstreamer.Caps.set_field zstreamer.Caps.field take
    text_eq zstreamer.Caps.or_empty zstreamer.Caps.double_eq zstreamer.Caps.is_nan
    zstreamer.Caps.no_audio zstreamer.Caps.put_field zstreamer.Caps.copy_field admits admits_struct
    zstreamer.Caps.Negotiation.type_eq zstreamer.Caps.Negotiation.Meaning.admits_properties
    zstreamer.Caps.is_raw_video zstreamer.Caps.Negotiation.Meaning.admits_video
    zstreamer.Caps.Negotiation.Meaning.admits_number
    zstreamer.Caps.Negotiation.Meaning.admits_double zstreamer.Caps.Negotiation.Meaning.admits_text
    is_empty
agreed = refl

abbrev screen : Struct
screen = create_video (some (codes "video/x-raw")) 0 720 0 (some [])

screen_fits : FitsArrays screen
unfolding create_video zstreamer.Caps.set_if zstreamer.Caps.set_field zstreamer.Caps.field take
    text_eq zstreamer.Caps.or_empty zstreamer.Caps.double_eq zstreamer.Caps.is_nan
    zstreamer.Caps.no_audio zstreamer.Caps.put_field zstreamer.Caps.copy_field
screen_fits = record { pixel_format_fits = omega arith; format_fits = omega arith }

fixate_fixes_example :
    (r : Struct) × ((fixate (screen ∷ [])).0 ≡ r ∷ [])
    × ((fixate (screen ∷ [])).1 ≡ ok)
    × (is_fixed (r ∷ []) ≡ not (is_empty screen.media_type))
    × (admits_struct screen (format_of r) ≡ true)
unfolding create_video zstreamer.Caps.set_if zstreamer.Caps.set_field zstreamer.Caps.field take
    text_eq zstreamer.Caps.or_empty zstreamer.Caps.double_eq zstreamer.Caps.is_nan
    zstreamer.Caps.no_audio zstreamer.Caps.put_field zstreamer.Caps.copy_field
fixate_fixes_example = fixate_fixes screen [] screen_fits refl

assign-obtain_example :
    ((assign (int_value 8) camera (codes "bit-depth")).1 ≡ ok)
    × (find_first (assign (int_value 8) camera (codes "bit-depth")).0 (codes "bit-depth") ≡ (
        if text_eq (take 63 (codes "bit-depth")) (codes "bit-depth")
        then some (int_value 8)
        else find_first camera (codes "bit-depth")))
    × (obtain
          (int_value 8)
          (assign (int_value 8) camera (codes "bit-depth")).0
          (take 63 (codes "bit-depth"))
        ≡ some (int_value 8))
assign-obtain_example =
    assign-obtain (int_value 8)
      (create_video (some (codes "video/x-raw")) 1280 0 0 (some (codes "NV12")))
      (create_video (some (codes "video/x-h264")) 1920 1080 0 none ∷ []) (codes "bit-depth")
      (codes "bit-depth")

-- A key of 64 bytes is cut, and its value is not found under it.
abbrev long_key : List ℕ
long_key = codes "a-key-of-sixty-four-bytes-which-does-not-fit-the-array-of-a-fiel"

cut_key : get_int (set_int (new_simple (some (codes "a/b"))) long_key 7).0 long_key ≡ none
unfolding get_int set_int new_simple find_first take text_eq zstreamer.Caps.find_field
    zstreamer.Caps.put_field zstreamer.Caps.copy_field zstreamer.Caps.set_field zstreamer.Caps.field
    zstreamer.Caps.append zstreamer.Caps.or_empty zstreamer.Caps.Settings.int_property
    zstreamer.Caps.Settings.type_of_media
cut_key = refl
