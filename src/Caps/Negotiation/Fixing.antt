-- ===== src/Caps/Negotiation/Fixing.antt =====
-- The setters that fixation calls leave the properties as they are.
use zstreamer.Common.{ℕ, ◌≤◌, ◌≡◌, refl, ap, ◌∙◌, Option, some, [], ◌∷◌, arith, length}
use zstreamer.Common.Texts.{Text, codes, text_eq, take_short}
use zstreamer.Caps.{video, audio, Struct, Caps, or_empty}
use zstreamer.Caps.Settings.{
  set_int, set_double, set_string, int_property, double_property, string_property,
}
use zstreamer.Caps.Negotiation.{set_video, set_audio}
use zstreamer.Caps.Negotiation.Keeping.{SameHead, same_head, SameHead-trans, set_field-SameHead}

-- A setter that is given what the property is leaves it.
keeps_width :
    (s : Struct) (a : ℕ)
    → s.type ≡ video
    → s.video.width ≡ a
    → SameHead (int_property s (codes "width") a) s
unfolding int_property text_eq
keeps_width s a t e = ground (arith, t, e)

keeps_height :
    (s : Struct) (a : ℕ)
    → s.type ≡ video
    → s.video.height ≡ a
    → SameHead (int_property s (codes "height") a) s
unfolding int_property text_eq
keeps_height s a t e = ground (arith, t, e)

keeps_framerate :
    (s : Struct) (a : ℕ)
    → s.type ≡ video
    → s.video.framerate ≡ a
    → SameHead (double_property s (codes "framerate") a) s
unfolding double_property text_eq
keeps_framerate s a t e = ground (arith, t, e)

keeps_pixel_format :
    (s : Struct) (a : Text)
    → s.type ≡ video
    → s.video.pixel_format ≡ a
    → length a ≤ 31
    → SameHead (string_property s (codes "pixel-format") (some a)) s
unfolding string_property text_eq or_empty
keeps_pixel_format s a t e l = ground (arith, t, e, take_short 31 a l)

keeps_channels :
    (s : Struct) (a : ℕ)
    → s.type ≡ audio
    → s.audio.channels ≡ a
    → SameHead (int_property s (codes "channels") a) s
unfolding int_property text_eq
keeps_channels s a t e = ground (arith, t, e)

keeps_sample_rate :
    (s : Struct) (a : ℕ)
    → s.type ≡ audio
    → s.audio.sample_rate ≡ a
    → SameHead (int_property s (codes "sample-rate") a) s
unfolding int_property text_eq
keeps_sample_rate s a t e = ground (arith, t, e)

keeps_format :
    (s : Struct) (a : Text)
    → s.type ≡ audio
    → s.audio.format ≡ a
    → length a ≤ 31
    → SameHead (string_property s (codes "format") (some a)) s
unfolding string_property text_eq or_empty
keeps_format s a t e l = ground (arith, t, e, take_short 31 a l)

-- One structure, which is another but for its fields.
abbrev pub One : Caps → Struct → Type 0
One caps s = (r : Struct) × (caps ≡ r ∷ []) × SameHead r s

One-int :
    (caps : Caps) (s : Struct) (key : Text) (a : ℕ)
    → One caps s
    → ((r : Struct) → SameHead r s → SameHead (int_property r key a) r)
    → One (set_int caps key a).0 s
unfolding set_int
One-int caps s key a (r, e, h) keep = rw e (
  _,
  refl,
  SameHead-trans _ r s
      (SameHead-trans _ (int_property r key a) r (set_field-SameHead _ _) (keep r h)) h,
)

One-double :
    (caps : Caps) (s : Struct) (key : Text) (a : ℕ)
    → One caps s
    → ((r : Struct) → SameHead r s → SameHead (double_property r key a) r)
    → One (set_double caps key a).0 s
unfolding set_double
One-double caps s key a (r, e, h) keep = rw e (
  _,
  refl,
  SameHead-trans _ r s
      (SameHead-trans _ (double_property r key a) r (set_field-SameHead _ _) (keep r h)) h,
)

One-string :
    (caps : Caps) (s : Struct) (key : Text) (a : Option Text)
    → One caps s
    → ((r : Struct) → SameHead r s → SameHead (string_property r key a) r)
    → One (set_string caps key a).0 s
unfolding set_string
One-string caps s key a (r, e, h) keep = rw e (
  _,
  refl,
  SameHead-trans _ r s
      (SameHead-trans _ (string_property r key a) r (set_field-SameHead _ _) (keep r h)) h,
)

pub One-video :
    (s : Struct)
    → s.type ≡ video
    → length s.video.pixel_format ≤ 31
    → One (set_video (s ∷ []) s.video) s
unfolding set_video
One-video s t l =
    let start : One (s ∷ []) s = (s, refl, same_head s) in
    let w =
      One-int _ s _ _ start
        λ r h. keeps_width r s.video.width (h.same_type ∙ t) (ap (λ v. v.width) h.same_video) in
    let h =
      One-int _ s _ _ w
        λ r h. keeps_height r s.video.height (h.same_type ∙ t) (ap (λ v. v.height) h.same_video) in
    let d = One-double _ s _ _ h λ r h.
      keeps_framerate r s.video.framerate (h.same_type ∙ t) (ap (λ v. v.framerate) h.same_video) in
    One-string _ s _ _ d λ r h.
      keeps_pixel_format r s.video.pixel_format (h.same_type ∙ t)
        (ap (λ v. v.pixel_format) h.same_video) l

pub One-audio :
    (s : Struct) → s.type ≡ audio → length s.audio.format ≤ 31 → One (set_audio (s ∷ []) s.audio) s
unfolding set_audio
One-audio s t l =
    let start : One (s ∷ []) s = (s, refl, same_head s) in
    let c = One-int _ s _ _ start λ r h.
      keeps_channels r s.audio.channels (h.same_type ∙ t) (ap (λ v. v.channels) h.same_audio) in
    let d = One-int _ s _ _ c λ r h.
      keeps_sample_rate r s.audio.sample_rate (h.same_type ∙ t)
        (ap (λ v. v.sample_rate) h.same_audio) in
    One-string _ s _ _ d
      λ r h. keeps_format r s.audio.format (h.same_type ∙ t) (ap (λ v. v.format) h.same_audio) l
