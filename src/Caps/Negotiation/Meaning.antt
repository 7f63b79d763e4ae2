-- ===== src/Caps/Negotiation/Meaning.antt =====
-- What capabilities stand for: the formats that they admit.
use zstreamer.Common.{
  ℕ, ◌≤◌, ◌≡◌, sym, ap, ◌∙◌, Bool, true, false, ◌&&◌, ◌||◌, Option, none, some, [], ◌∷◌, ◌==◌,
  if◌then◌else◌, arith, length,
}
use zstreamer.Common.Texts.{Text, text_eq, is_empty, text_eq_refl, text_eq_sound, take_short}
use zstreamer.Caps.{
  CapsType, Struct, Video, Audio, Caps, double_eq, is_nan, is_raw_video, is_raw_audio,
}
use zstreamer.Caps.Negotiation.{type_eq, merge_number, merge_double, merge_text}

-- A concrete format; a stream that is not raw has only a media type.
pub record Format : Type 0 where
  pub media_type : Text
  pub type : CapsType
  pub video : Video
  pub audio : Audio

unfoldable pub admits_number : ℕ → ℕ → Bool
admits_number a x = (a == 0) || (a == x)

unfoldable pub admits_double : ℕ → ℕ → Bool
admits_double a x = double_eq a 0 || double_eq a x

unfoldable pub admits_text : Text → Text → Bool
admits_text a x = is_empty a || text_eq a x

unfoldable pub admits_video : Video → Video → Bool
admits_video v f =
    admits_number v.width f.width
    && admits_number v.height f.height
    && admits_double v.framerate f.framerate
    && admits_text v.pixel_format f.pixel_format

unfoldable pub admits_audio : Audio → Audio → Bool
admits_audio a f =
    admits_number a.channels f.channels
    && admits_number a.sample_rate f.sample_rate
    && admits_text a.format f.format

unfoldable pub admits_properties : Struct → Format → Bool
admits_properties s f =
    if is_raw_video s
    then admits_video s.video f.video
    else if is_raw_audio s
    then admits_audio s.audio f.audio
    else true

unfoldable pub admits_struct : Struct → Format → Bool
admits_struct s f =
    text_eq s.media_type f.media_type && (type_eq s.type f.type && admits_properties s f)

-- Some structure of the capabilities admits the format.
unfoldable pub admits : Caps → Format → Bool
admits [] f = false
admits (s ∷ ss) f = admits_struct s f || admits ss f

-- A merged property admits what both admit, and a conflict nothing.
abbrev pub allowed : {A X : Type 0} → (A → X → Bool) → Option A → X → Bool
allowed test none x = false
allowed test (some a) x = test a x

pub merge_number_meets :
    (a b x : ℕ)
    → allowed admits_number (merge_number a b) x ≡ (admits_number a x && admits_number b x)
unfolding merge_number admits_number
merge_number_meets a b x = ground arith

pub double_eq_same : (a b x : ℕ) → double_eq a b ≡ true → double_eq a x ≡ double_eq b x
unfolding double_eq is_nan
double_eq_same a b x e = ground arith

pub double_eq_both :
    (a b x : ℕ) → double_eq a x ≡ true → double_eq b x ≡ true → double_eq a b ≡ true
unfolding double_eq is_nan
double_eq_both a b x e e' = ground arith

pub merge_double_meets :
    (a b x : ℕ)
    → allowed admits_double (merge_double a b) x ≡ (admits_double a x && admits_double b x)
unfolding merge_double admits_double
merge_double_meets a b x = ground (arith, double_eq_same a b x, double_eq_both a b x)

pub text_eq_same : (a b x : Text) → text_eq a b ≡ true → text_eq a x ≡ text_eq b x
text_eq_same a b x e = ap (λ c. text_eq c x) (text_eq_sound a b e)

pub text_eq_both : (a b x : Text) → text_eq a x ≡ true → text_eq b x ≡ true → text_eq a b ≡ true
text_eq_both a b x e e' =
    ap (text_eq a) (text_eq_sound b x e' ∙ sym (text_eq_sound a x e)) ∙ text_eq_refl a

pub merge_text_meets :
    (a b x : Text)
    → length a ≤ 31
    → length b ≤ 31
    → allowed admits_text (merge_text a b) x ≡ (admits_text a x && admits_text b x)
unfolding merge_text admits_text
merge_text_meets a b x h k =
    ground (arith, take_short 31 a h, take_short 31 b k, text_eq_same a b x, text_eq_both a b x)
