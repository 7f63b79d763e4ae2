-- ===== src/Caps/Settings/Fields.antt =====
-- What is set is read again.
use zstreamer.Common.{
  ℕ, ◌≤◌, ◌≡◌, ◌≢◌, refl, sym, ap, ◌∙◌, Option, none, some, List, [], ◌∷◌, if◌then◌else◌, arith,
  length, Bool-cases, inl, inr,
}
use zstreamer.Common.Texts.{
  Text, text_eq, take, text_eq_refl, text_eq_sound, text_eq-ne, length-take, take_short,
}
use zstreamer.Types.{ZstResult, ok}
use zstreamer.Caps.{
  Value, int_value, uint_value, double_value, string_value, fraction_value, buffer_value, Field,
  Struct, Caps, find_field, copy_field, put_field, set_field, field,
}
use zstreamer.Caps.Settings.{
  set_int, set_uint, set_double, set_string, set_fraction, set_buffer, find_first, get_int,
  get_uint, get_double, get_string, get_fraction, get_buffer, int_property, double_property,
  string_property,
}

pub find-put_self :
    (fs : List Field) (f : Field)
    → length f.key ≤ 63
    → find_field (put_field fs f) f.key ≡ some f.value
unfolding find_field put_field copy_field
find-put_self [] f h = rw (take_short 63 f.key h) (rw (text_eq_refl f.key) refl)
find-put_self (g ∷ gs) f h = elim (Bool-cases (text_eq g.key f.key)) [
  | inl same ↦ rw same (rw (take_short 63 f.key h) (rw (text_eq_refl f.key) refl))
  | inr other ↦ rw other (rw other (find-put_self gs f h))
]

pub find-put_other :
    (fs : List Field) (f : Field) (key : Text)
    → length f.key ≤ 63
    → f.key ≢ key
    → find_field (put_field fs f) key ≡ find_field fs key
unfolding find_field put_field copy_field
find-put_other [] f key h ne = rw (take_short 63 f.key h) (rw (text_eq-ne f.key key ne) refl)
find-put_other (g ∷ gs) f key h ne = elim (Bool-cases (text_eq g.key f.key)) [
  | inl same ↦ rw same (
      rw (take_short 63 f.key h) (
        rw (text_eq-ne f.key key ne)
          (rw (text_eq-ne g.key key (λ e. ne (sym (text_eq_sound g.key f.key same) ∙ e))) refl)))
  | inr other ↦
      rw other
        (ap (λ r. if text_eq g.key key then some g.value else r) (find-put_other gs f key h ne))
]

-- The setter of the value's type, and the getter.
pub assign : Value → Caps → Text → Caps × ZstResult
assign (int_value a) caps key = set_int caps key a
assign (uint_value a) caps key = set_uint caps key a
assign (double_value a) caps key = set_double caps key a
assign (string_value t) caps key = set_string caps key t
assign (fraction_value a b) caps key = set_fraction caps key a b
assign (buffer_value bytes) caps key = set_buffer caps key bytes

abbrev wrap {ℓ} : {A : Type ℓ} → (A → Value) → Option A → Option Value
wrap f none = none
wrap f (some a) = some (f a)

pub obtain : Value → Caps → Text → Option Value
obtain (int_value _) caps key = wrap int_value (get_int caps key)
obtain (uint_value _) caps key = wrap uint_value (get_uint caps key)
obtain (double_value _) caps key = wrap double_value (get_double caps key)
obtain (string_value _) caps key = wrap string_value (get_string caps key)
obtain (fraction_value _ _) caps key =
    wrap (λ (p : ℕ × ℕ). fraction_value p.0 p.1) (get_fraction caps key)
obtain (buffer_value _) caps key = wrap buffer_value (get_buffer caps key)

put_lem :
    (fs : List Field) (key key' : Text) (v : Value)
    → find_field (put_field fs (field (take 63 key) v)) key'
      ≡ (if text_eq (take 63 key) key' then some v else find_field fs key')
unfolding field
put_lem fs key key' v = elim (Bool-cases (text_eq (take 63 key) key')) [
  | inl same ↦ rw same (
      ap (find_field (put_field fs (field (take 63 key) v)))
        (sym (text_eq_sound (take 63 key) key' same))
      ∙ find-put_self fs (field (take 63 key) v) (length-take 63 key))
  | inr other ↦ rw other (
      find-put_other fs (field (take 63 key) v) key' (length-take 63 key)
        λ e. absurd (ground (arith, ap (λ k. text_eq k key') e, text_eq_refl key')))
]

int_keeps : (s : Struct) (key : Text) (a : ℕ) → (int_property s key a).fields ≡ s.fields
unfolding int_property
int_keeps s key a = ground arith

double_keeps : (s : Struct) (key : Text) (a : ℕ) → (double_property s key a).fields ≡ s.fields
unfolding double_property
double_keeps s key a = ground arith

string_keeps :
    (s : Struct) (key : Text) (t : Option Text) → (string_property s key t).fields ≡ s.fields
unfolding string_property
string_keeps s key t = ground arith

assigned :
    (v : Value) (s : Struct) (ss : Caps) (key : Text)
    → ((assign v (s ∷ ss) key).1 ≡ ok)
      × ((key' : Text)
          → find_first (assign v (s ∷ ss) key).0 key'
            ≡ find_field (put_field s.fields (field (take 63 key) v)) key')
unfolding assign set_int set_uint set_double set_string set_fraction set_buffer find_first set_field
assigned (int_value a) s ss key = (refl, λ key'. rw (int_keeps s key a) refl)
assigned (uint_value a) s ss key = (refl, λ key'. refl)
assigned (double_value a) s ss key = (refl, λ key'. rw (double_keeps s key a) refl)
assigned (string_value t) s ss key = (refl, λ key'. rw (string_keeps s key t) refl)
assigned (fraction_value a b) s ss key = (refl, λ key'. refl)
assigned (buffer_value bytes) s ss key = (refl, λ key'. refl)

obtained :
    (v : Value) (caps : Caps) (key : Text)
    → find_first caps key ≡ some v
    → obtain v caps key ≡ some v
unfolding obtain get_int get_uint get_double get_string get_fraction get_buffer
obtained (int_value a) caps key e = ground arith
obtained (uint_value a) caps key e = ground arith
obtained (double_value a) caps key e = ground arith
obtained (string_value t) caps key e = ground arith
obtained (fraction_value a b) caps key e = ground arith
obtained (buffer_value bytes) caps key e = ground arith

-- A value of any type that is set under a key is found again, and read by the getter of its type, under
-- the first 63 bytes of that key; under every other key there is what was there before, so also
-- under the key itself if it is longer. The setter reports success in each case.
pub assign-obtain :
    (v : Value) (s : Struct) (ss : Caps) (key key' : Text)
    → ((assign v (s ∷ ss) key).1 ≡ ok)
      × (find_first (assign v (s ∷ ss) key).0 key'
          ≡ (if text_eq (take 63 key) key' then some v else find_first (s ∷ ss) key'))
      × (obtain v (assign v (s ∷ ss) key).0 (take 63 key) ≡ some v)
unfolding find_first
assign-obtain v s ss key key' =
    let (success, found) = assigned v s ss key in
    (
      success,
      found key' ∙ put_lem s.fields key key' v,
      obtained v _ (take 63 key) (
          found (take 63 key)
          ∙ put_lem s.fields key (take 63 key) v
          ∙ rw (text_eq_refl (take 63 key)) refl),
    )
