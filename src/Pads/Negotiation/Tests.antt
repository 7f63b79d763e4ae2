-- ===== src/Pads/Negotiation/Tests.antt =====
-- A camera with a width, and a display with a height.
use zstreamer.Common.{ℕ, ◌≡◌, ◌⊎◌, refl, none, some, [], ◌∷◌, arith}
use zstreamer.Common.Texts.{Text, codes}
use zstreamer.Types.{error}
use zstreamer.Caps.{Struct, Caps, video}
use zstreamer.Caps.Negotiation.{intersect}
use zstreamer.Caps.Negotiation.Intersecting.{NoClashes}
use zstreamer.Caps.Negotiation.Sane.{IsSane}
use zstreamer.Pads.Negotiation.{PadCaps, negotiate}
use zstreamer.Pads.Negotiation.Agreement.{Agrees, negotiate_settles}

abbrev raw : ℕ → ℕ → Text → Struct
raw width height format = record {
  media_type = codes "video/x-raw";
  type = video;
  fields = [];
  video = record { width = width; height = height; framerate = 0; pixel_format = format };
  audio = record { channels = 0; sample_rate = 0; format = [] };
}

abbrev camera : PadCaps
camera = record {
  caps = none;
  template_caps = none;
  offered = some (raw 1280 0 (codes "NV12") ∷ []);
}

abbrev display : PadCaps
display = record { caps = none; template_caps = none; offered = some (raw 0 720 [] ∷ []) }

camera-IsSane : IsSane (raw 1280 0 (codes "NV12"))
unfolding zstreamer.Caps.is_nan
camera-IsSane = record {
  fits = record { pixel_format_fits = omega arith; format_fits = omega arith };
  a_number = refl;
}

display-IsSane : IsSane (raw 0 720 [])
unfolding zstreamer.Caps.is_nan
display-IsSane = record {
  fits = record { pixel_format_fits = omega arith; format_fits = omega arith };
  a_number = refl;
}

nothing_clashes : NoClashes (raw 1280 0 (codes "NV12") ∷ []) (raw 0 720 [] ∷ [])
unfolding zstreamer.Caps.Negotiation.Keeping.clash zstreamer.Caps.Negotiation.Keeping.clashes
    zstreamer.Common.Texts.text_eq zstreamer.Caps.Negotiation.type_eq
nothing_clashes = ((refl, tt), tt)

negotiate_settles_example :
    ((intersect (raw 1280 0 (codes "NV12") ∷ []) (raw 0 720 [] ∷ []) ≡ [])
      × (negotiate camera display ≡ (camera, display, error)))
    ⊎ Agrees
        (raw 1280 0 (codes "NV12") ∷ [])
        (raw 0 720 [] ∷ [])
        camera
        display
        (negotiate camera display)
unfolding zstreamer.Pads.Negotiation.get_caps zstreamer.Pads.Negotiation.get_offered
negotiate_settles_example =
    negotiate_settles camera display (raw 1280 0 (codes "NV12") ∷ []) (raw 0 720 [] ∷ []) refl refl
      (camera-IsSane, tt) (display-IsSane, tt) nothing_clashes
