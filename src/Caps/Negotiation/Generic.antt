-- ===== src/Caps/Negotiation/Generic.antt =====
-- The generic fields of an intersection, as they are looked up.
use zstreamer.Common.{
  ◌≤◌, ◌≡◌, ◌≢◌, refl, sym, ap, subst, ◌∙◌, inl, inr, true, false, Option, none, some, List, [],
  ◌∷◌, length, Bool-cases, option_intro, if_intro,
}
use zstreamer.Common.Texts.{Text, text_eq, text_eq_sound, text_eq_refl, text_eq-ne}
use zstreamer.Caps.{Value, Field, Struct, find_field, set_field, is_legacy_field}
use zstreamer.Caps.Settings.Fields.{find-put_self, find-put_other}
use zstreamer.Caps.Negotiation.{value_eq, add_first, add_second}

-- The keys of the fields differ, and fit their arrays.
abbrev pub IsKeyed : List Field → Type 0
IsKeyed [] = Unit {0}
IsKeyed (f ∷ fs) = (length f.key ≤ 63) × (find_field fs f.key ≡ none) × IsKeyed fs

abbrev pub first_of : Option Value → Option Value → Option Value
first_of none o = o
first_of (some v) o = some v

pub first_of-none : (o : Option Value) → first_of o none ≡ o
first_of-none none = refl
first_of-none (some v) = refl

-- A generic key is not that of a field that mirrors a property.
generic_ne :
    (s : Struct) (key key' : Text)
    → is_legacy_field s key ≡ true
    → is_legacy_field s key' ≡ false
    → key ≢ key'
generic_ne s key key' l g e = absurd (cc (l, g, ap (is_legacy_field s) e))

pub find_head : (f : Field) (fs : List Field) → find_field (f ∷ fs) f.key ≡ some f.value
unfolding find_field
find_head f fs = rw (text_eq_refl f.key) refl

pub find_tail :
    (f : Field) (fs : List Field) (key : Text)
    → f.key ≢ key
    → find_field (f ∷ fs) key ≡ find_field fs key
unfolding find_field
find_tail f fs key ne = rw (text_eq-ne f.key key ne) refl

pub find_set :
    (s : Struct) (f : Field) (key : Text)
    → length f.key ≤ 63
    → f.key ≢ key
    → find_field (set_field s f).fields key ≡ find_field s.fields key
unfolding set_field
find_set s f key h ne = find-put_other s.fields f key h ne

find_set_self :
    (s : Struct) (f : Field)
    → length f.key ≤ 63
    → find_field (set_field s f).fields f.key ≡ some f.value
unfolding set_field
find_set_self s f h = find-put_self s.fields f h

-- A field that is set before the others are is found where they do not have its key.
set_first :
    (f : Field) (fs : List Field) (res : Struct) (key : Text)
    → length f.key ≤ 63
    → find_field fs f.key ≡ none
    → first_of (find_field fs key) (find_field (set_field res f).fields key)
      ≡ first_of (find_field (f ∷ fs) key) (find_field res.fields key)
set_first f fs res key short fresh = elim (Bool-cases (text_eq f.key key)) [
  | inl same ↦
      subst
        (λ k.
          first_of (find_field fs k) (find_field (set_field res f).fields k)
          ≡ first_of (find_field (f ∷ fs) k) (find_field res.fields k))
        (text_eq_sound f.key key same)
        (ap (λ o. first_of o (find_field (set_field res f).fields f.key)) fresh
          ∙ find_set_self res f short
          ∙ sym (ap (λ o. first_of o (find_field res.fields f.key)) (find_head f fs)))
  | inr other ↦
      ap (first_of (find_field fs key)) (find_set res f key short (ne other))
      ∙ sym (ap (λ o. first_of o (find_field res.fields key)) (find_tail f fs key (ne other)))
]
  where
    ne : text_eq f.key key ≡ false → f.key ≢ key
    ne other e = absurd (cc (other, ap (λ k. text_eq k key) e, text_eq_refl key))

skip_first :
    (s : Struct) (f : Field) (fs : List Field) (key : Text) (o : Option Value)
    → is_legacy_field s f.key ≡ true
    → is_legacy_field s key ≡ false
    → first_of (find_field fs key) o ≡ first_of (find_field (f ∷ fs) key) o
skip_first s f fs key o l g =
    sym (ap (λ x. first_of x o) (find_tail f fs key (generic_ne s f.key key l g)))

-- A structure, if there is one, has under the key what the fields have, or else what is given.
abbrev pub Finds : Text → Option Value → Option Struct → Type 0
Finds key o none = Unit {0}
Finds key o (some r) = find_field r.fields key ≡ o

Finds-same :
    (key : Text) (o o' : Option Value) (r : Option Struct) → o ≡ o' → Finds key o r → Finds key o' r
Finds-same key o o' r e h = subst (λ x. Finds key x r) e h

module _ (s1 s2 : Struct) where
  -- Each field of the first structure is found, and what was there before under the other keys.
  pub add_first-Finds :
      (fs : List Field) (res : Struct) (key : Text)
      → IsKeyed fs
      → is_legacy_field s1 key ≡ false
      → Finds key
          (first_of (find_field fs key) (find_field res.fields key))
          (add_first s1 s2 fs res)
  unfolding add_first find_field
  add_first-Finds [] res key k g = refl
  add_first-Finds (f ∷ fs) res key (short, fresh, k) g =
      let P : Option Struct → Type 0 =
        Finds key (first_of (find_field (f ∷ fs) key) (find_field res.fields key)) in
      let added : P (add_first s1 s2 fs (set_field res f)) =
        Finds-same key _ _ _ (set_first f fs res key short fresh)
          (add_first-Finds fs (set_field res f) key k g) in
      if_intro P (is_legacy_field s1 f.key)
        (λ l. Finds-same key _ _ _ (skip_first s1 f fs key _ l g) (add_first-Finds fs res key k g))
        (λ _.
          option_intro P (find_field s2.fields f.key) _ _ (λ _. added)
            (λ v _. if_intro P (value_eq f.value v) (λ _. added) (λ _. tt)))

  -- Then those of the second structure, under the keys that the first one does not have.
  pub add_second-find :
      (fs : List Field) (res : Struct) (key : Text)
      → IsKeyed fs
      → is_legacy_field s2 key ≡ false
      → find_field s1.fields key ≡ none
      → find_field (add_second s1 s2 fs res).fields key
        ≡ first_of (find_field fs key) (find_field res.fields key)
  unfolding add_second find_field
  add_second-find [] res key k g m = refl
  add_second-find (f ∷ fs) res key (short, fresh, k) g m =
      let P : Struct → Type 0 = λ r.
        find_field r.fields key ≡ first_of (find_field (f ∷ fs) key) (find_field res.fields key) in
      if_intro P (is_legacy_field s2 f.key)
        (λ l. add_second-find fs res key k g m ∙ skip_first s2 f fs key _ l g)
        (λ _.
          option_intro P (find_field s1.fields f.key) _ _
            (λ _.
              add_second-find fs (set_field res f) key k g m ∙ set_first f fs res key short fresh)
            (λ v there.
              add_second-find fs res key k g m
              ∙ sym (
                  ap (λ x. first_of x (find_field res.fields key))
                    (find_tail f fs key
                      (λ e. absurd (cc (there, m, ap (find_field s1.fields) e)))))))

  pub add_second-keeps :
      (fs : List Field) (res : Struct) (key : Text) (v : Value)
      → IsKeyed fs
      → find_field s1.fields key ≡ some v
      → find_field (add_second s1 s2 fs res).fields key ≡ find_field res.fields key
  unfolding add_second
  add_second-keeps [] res key v k m = refl
  add_second-keeps (f ∷ fs) res key v (short, fresh, k) m =
      let P : Struct → Type 0 = λ r. find_field r.fields key ≡ find_field res.fields key in
      if_intro P (is_legacy_field s2 f.key) (λ _. add_second-keeps fs res key v k m)
        (λ _.
          option_intro P (find_field s1.fields f.key) _ _
            (λ missing.
              add_second-keeps fs (set_field res f) key v k m
              ∙ find_set res f key short
                  (λ e. absurd (cc (missing, m, ap (find_field s1.fields) e))))
            (λ _ _. add_second-keeps fs res key v k m))
