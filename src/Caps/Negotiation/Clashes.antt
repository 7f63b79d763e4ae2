-- ===== src/Caps/Negotiation/Clashes.antt =====
-- The equality of values, and structures that have none in common.
use zstreamer.Common.{
  ℕ, ◌≡◌, refl, sym, ap, ◌∙◌, ◌⊎◌, inl, inr, true, false, Option, none, some, List, [], ◌∷◌, arith,
  Bool-cases, Option-cases,
}
use zstreamer.Common.Texts.{Text, text_eq, text_eq_sound}
use zstreamer.Caps.{
  Value, int_value, uint_value, double_value, string_value, fraction_value, buffer_value, double_eq,
  Field, Struct, find_field, set_field, is_legacy_field,
}
use zstreamer.Caps.Negotiation.{value_eq, string_eq, add_first}
use zstreamer.Caps.Negotiation.Keeping.{clashes}
use zstreamer.Caps.Negotiation.Generic.{IsKeyed, find_head, find_tail}
use zstreamer.Caps.Negotiation.Meaning.{double_eq_both, double_eq_same}

string_eq_sound : (a b : Option Text) → string_eq a b ≡ true → a ≡ b
unfolding string_eq
string_eq_sound none none e = refl
string_eq_sound none (some b) e = absurd (cc)
string_eq_sound (some a) none e = absurd (cc)
string_eq_sound (some a) (some b) e = ap some (text_eq_sound a b e)

value_eq_cases :
    (a b : Value)
    → value_eq a b ≡ true
    → (a ≡ b)
      ⊎ ((m : ℕ) × (n : ℕ) × (a ≡ double_value m) × (b ≡ double_value n) × (double_eq m n ≡ true))
unfolding value_eq
value_eq_cases (int_value a) (int_value b) e = inl (ap int_value (ground arith))
value_eq_cases (uint_value a) (uint_value b) e = inl (ap uint_value (ground arith))
value_eq_cases (double_value a) (double_value b) e = inr (a, b, refl, refl, e)
value_eq_cases (string_value a) (string_value b) e = inl (ap string_value (string_eq_sound a b e))
value_eq_cases (fraction_value a n) (fraction_value b m) e = inl (ground arith)
value_eq_cases (buffer_value a) (buffer_value b) e = inl (ap buffer_value (text_eq_sound a b e))
value_eq_cases a b e = absurd (ground arith)

double_same :
    (m n : ℕ) (x : Value)
    → double_eq m n ≡ true
    → value_eq (double_value m) x ≡ value_eq (double_value n) x
unfolding value_eq
double_same m n (double_value k) e = double_eq_same m n k e
double_same m n x e = refl

-- Values that are equal are equal to the same values.
pub value_eq_same : (a b x : Value) → value_eq a b ≡ true → value_eq a x ≡ value_eq b x
value_eq_same a b x e = elim (value_eq_cases a b e) [
  | inl same ↦ ap (λ c. value_eq c x) same
  | inr (m, n, p, q, d) ↦
      ap (λ c. value_eq c x) p ∙ double_same m n x d ∙ sym (ap (λ c. value_eq c x) q)
]

-- Values that are equal to the same value are equal.
pub value_eq_both :
    (a b x : Value) → value_eq a x ≡ true → value_eq b x ≡ true → value_eq a b ≡ true
unfolding value_eq
value_eq_both a b x e f = elim (value_eq_cases b x f) [
  | inl same ↦ ap (value_eq a) same ∙ e
  | inr (m, n, p, q, d) ↦ elim (value_eq_cases a x e) [
    | inl same ↦
        ap (λ c. value_eq c b) (same ∙ q)
        ∙ ap (value_eq (double_value n)) p
        ∙ double_eq_both n m n
            (sym (ap (λ c. value_eq c (double_value n)) (same ∙ q)) ∙ sym (ap (value_eq a) q) ∙ e) d
    | inr (k, l, p', q', d') ↦
        ap (λ c. value_eq c b) p'
        ∙ ap (value_eq (double_value k)) p
        ∙ double_eq_both k m n (ap (double_eq k) (same_double n l (sym q ∙ q')) ∙ d') d
  ]
]
  where
    same_double : (n l : ℕ) → double_value n ≡ double_value l → n ≡ l
    same_double n l e = cc

module _ (s1 s2 : Struct) where
  -- Where fields clash, the structures have no intersection.
  pub clash_refused :
      (fs : List Field) (res : Struct) → clashes s1 s2 fs ≡ true → add_first s1 s2 fs res ≡ none
  unfolding clashes add_first
  clash_refused [] res e = absurd (cc)
  clash_refused (f ∷ fs) res e =
      ground (arith, clash_refused fs res, clash_refused fs (set_field res f))

  pub clash_found :
      (fs : List Field)
      → IsKeyed fs
      → clashes s1 s2 fs ≡ true
      → (key : Text) × (v : Value) × (w : Value) × (is_legacy_field s1 key ≡ false)
        × (find_field fs key ≡ some v)
        × (find_field s2.fields key ≡ some w)
        × (value_eq v w ≡ false)
  unfolding clashes
  clash_found [] k e = absurd (cc)
  clash_found (f ∷ fs) (short, fresh, k) e = elim (Bool-cases (clashes s1 s2 fs)) [
    | inl more ↦
        let (key, v, w, g, here, there, ne) = clash_found fs k more in
        (
          key,
          v,
          w,
          g,
          find_tail f fs key (λ same. absurd (cc (fresh, here, ap (find_field fs) same))) ∙ here,
          there,
          ne,
        )
    | inr no_more ↦ elim (Option-cases (find_field s2.fields f.key)) [
      | inl missing ↦ absurd (ground arith)
      | inr (w, there) ↦ (f.key, f.value, w, ground arith, find_head f fs, there, ground arith)
    ]
  ]

  pub no_clash :
      (fs : List Field) (key : Text) (v w : Value)
      → clashes s1 s2 fs ≡ false
      → is_legacy_field s1 key ≡ false
      → find_field fs key ≡ some v
      → find_field s2.fields key ≡ some w
      → value_eq v w ≡ true
  unfolding clashes find_field
  no_clash [] key v w e g here there = absurd (cc)
  no_clash (f ∷ fs) key v w e g here there = elim (Bool-cases (text_eq f.key key)) [
    | inl same ↦
        let k : f.key ≡ key = text_eq_sound f.key key same in
        ground (arith, ap (is_legacy_field s1) k, ap (find_field s2.fields) k)
    | inr other ↦ no_clash fs key v w (ground arith) g (ground arith) there
  ]
