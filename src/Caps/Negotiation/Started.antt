-- ===== src/Caps/Negotiation/Started.antt =====
-- What the intersection of two structures starts from has no generic fields but those of the first.
use zstreamer.Common.{
  ℕ, ◌≤◌, ◌≡◌, ◌≢◌, refl, ap, ◌∙◌, ◌⊎◌, inl, inr, Bool, true, false, Option, none, some, List, [],
  ◌∷◌, arith, length, option_intro, if_intro,
}
use zstreamer.Common.Texts.{Text, codes, text_eq, text_eq_refl, take_short}
use zstreamer.Caps.{
  Value, Field, Struct, Video, Audio, find_field, set_if, field, is_legacy_field, create_video,
  create_audio, copy_struct, copy_fields, copy_field, is_raw_video, is_raw_audio,
}
use zstreamer.Caps.Negotiation.{
  intersect_video, intersect_audio, intersect_properties, merge_number, merge_double, merge_text,
}
use zstreamer.Caps.Negotiation.Generic.{IsKeyed, find_set}

find_set_if :
    (b : Bool) (s : Struct) (k : Text) (v : Value) (key : Text)
    → length k ≤ 63
    → k ≢ key
    → find_field (set_if b s k v).fields key ≡ find_field s.fields key
unfolding set_if field
find_set_if true s k v key h ne = find_set s (field k v) key h ne
find_set_if false s k v key h ne = refl

-- A structure has under the key nothing, or what is given.
abbrev pub Starts : Text → Option Value → Option Struct → Type 0
Starts key o none = Unit {0}
Starts key o (some r) = (find_field r.fields key ≡ none) ⊎ (find_field r.fields key ≡ o)

abbrev IsFree : Text → Option Struct → Type 0
IsFree key none = Unit {0}
IsFree key (some r) = find_field r.fields key ≡ none

create_video-find :
    (media : Text) (w h fr : ℕ) (fmt key : Text)
    → codes "width" ≢ key
    → codes "height" ≢ key
    → codes "framerate" ≢ key
    → codes "pixel-format" ≢ key
    → find_field (create_video (some media) w h fr (some fmt)).fields key ≡ none
unfolding create_video find_field
create_video-find media w h fr fmt key a b c d =
    find_set_if _ _ (codes "pixel-format") _ key (omega arith) d
    ∙ find_set_if _ _ (codes "framerate") _ key (omega arith) c
    ∙ find_set_if _ _ (codes "height") _ key (omega arith) b
    ∙ find_set_if _ _ (codes "width") _ key (omega arith) a

create_audio-find :
    (media : Text) (ch rate : ℕ) (fmt key : Text)
    → codes "channels" ≢ key
    → codes "sample-rate" ≢ key
    → codes "format" ≢ key
    → find_field (create_audio (some media) ch rate (some fmt)).fields key ≡ none
unfolding create_audio find_field
create_audio-find media ch rate fmt key a b c =
    find_set_if _ _ (codes "format") _ key (omega arith) c
    ∙ find_set_if _ _ (codes "sample-rate") _ key (omega arith) b
    ∙ find_set_if _ _ (codes "channels") _ key (omega arith) a

not_key : (k key : Text) → text_eq key k ≡ false → k ≢ key
not_key k key e same = absurd (cc (e, ap (text_eq key) same, text_eq_refl key))

intersect_video-IsFree :
    (media : Text) (v1 v2 : Video) (key : Text)
    → ((w h fr : ℕ) (fmt : Text) → IsFree key (some (create_video (some media) w h fr (some fmt))))
    → IsFree key (intersect_video media v1 v2)
unfolding intersect_video
intersect_video-IsFree media v1 v2 key free =
    option_intro (IsFree key) (merge_number v1.width v2.width) _ _ (λ _. tt)
      (λ w _.
        option_intro (IsFree key) (merge_number v1.height v2.height) _ _ (λ _. tt)
          (λ h _.
            option_intro (IsFree key) (merge_double v1.framerate v2.framerate) _ _ (λ _. tt)
              (λ fr _.
                option_intro (IsFree key) (merge_text v1.pixel_format v2.pixel_format) _ _ (λ _. tt)
                  (λ fmt _. free w h fr fmt))))

intersect_audio-IsFree :
    (media : Text) (a1 a2 : Audio) (key : Text)
    → ((ch rate : ℕ) (fmt : Text)
        → IsFree key (some (create_audio (some media) ch rate (some fmt))))
    → IsFree key (intersect_audio media a1 a2)
unfolding intersect_audio
intersect_audio-IsFree media a1 a2 key free =
    option_intro (IsFree key) (merge_number a1.channels a2.channels) _ _ (λ _. tt)
      (λ ch _.
        option_intro (IsFree key) (merge_number a1.sample_rate a2.sample_rate) _ _ (λ _. tt)
          (λ rate _.
            option_intro (IsFree key) (merge_text a1.format a2.format) _ _ (λ _. tt)
              (λ fmt _. free ch rate fmt)))

Starts-free : (key : Text) (o : Option Value) (r : Option Struct) → IsFree key r → Starts key o r
Starts-free key o none h = tt
Starts-free key o (some r) h = inl h

copy_fields-find :
    (fs : List Field) (key : Text)
    → IsKeyed fs
    → find_field (copy_fields fs) key ≡ find_field fs key
unfolding copy_fields copy_field find_field
copy_fields-find [] key k = refl
copy_fields-find (f ∷ fs) key (short, _, k) =
    rw (take_short 63 f.key short) (rw (copy_fields-find fs key k) refl)

-- What the generic fields are added to has no other generic field.
pub properties-Starts :
    (s1 s2 : Struct) (key : Text)
    → IsKeyed s1.fields
    → is_legacy_field s1 key ≡ false
    → Starts key (find_field s1.fields key) (intersect_properties s1 s2)
unfolding intersect_properties is_legacy_field copy_struct
properties-Starts s1 s2 key k g =
    let P : Option Struct → Type 0 = Starts key (find_field s1.fields key) in
    if_intro P (is_raw_video s1)
      (λ raw. Starts-free key _ _ (
        intersect_video-IsFree s1.media_type s1.video s2.video key (λ w h fr fmt.
          create_video-find s1.media_type w h fr fmt key
            (not_key (codes "width") key (ground arith))
            (not_key (codes "height") key (ground arith))
            (not_key (codes "framerate") key (ground arith))
            (not_key (codes "pixel-format") key (ground arith)))))
      (λ not_video.
        if_intro P (is_raw_audio s1)
          (λ raw. Starts-free key _ _ (
            intersect_audio-IsFree s1.media_type s1.audio s2.audio key (λ ch rate fmt.
              create_audio-find s1.media_type ch rate fmt key
                (not_key (codes "channels") key (ground arith))
                (not_key (codes "sample-rate") key (ground arith))
                (not_key (codes "format") key (ground arith)))))
          (λ _. inr (copy_fields-find s1.fields key k)))
