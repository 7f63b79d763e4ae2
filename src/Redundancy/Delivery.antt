-- ===== src/Redundancy/Delivery.antt =====
-- Every packet that arrives over some link is passed on once.
use native.Mathlib.Decide.{dec_lt, ℕ_discrete}
use zstreamer.Common.{
  ℕ, suc, ◌+◌, ◌^◌, ◌<◌, ◌≡◌, refl, ap, ◌∙◌, Bool, true, false, not, Option, none, some, List, [],
  ◌∷◌, ltb, ◌==◌, if◌then◌else◌, min, count, Bool-cases, inl, inr, arith, lt→ltb, le→ltb, subst,
  if_intro,
}
use zstreamer.Redundancy.{Demux, open_demux}
use zstreamer.Redundancy.Reference.{
  Reference, Received, fresh, note, refer, referred, forwarded, positions, InReach, Within, higher,
}
use zstreamer.Redundancy.Window.{note_other}
use zstreamer.Redundancy.Steps.{at, note-above}
use zstreamer.Redundancy.Merge.{merges_links}

-- No position above the highest is marked as passed on.
abbrev PassedBelow : Option ℕ → (ℕ → Bool) → Type 0
PassedBelow none passed = (q : ℕ) → passed q ≡ false
PassedBelow (some h) passed = (q : ℕ) → h < q → passed q ≡ false

refer_recent :
    (top : Option ℕ) (passed : ℕ → Bool) (p : ℕ)
    → PassedBelow top passed
    → InReach top 2048 p
    → refer (at top passed) p
      ≡ (if passed p then none else some (at (higher top p) (note passed p)))
unfolding refer
refer_recent none passed p below w = rw (below p) refl
refer_recent (some h) passed p below w = elim (dec_lt h p) [
  | yes l ↦ rw (lt→ltb h p l) (rw (below p l) refl)
  | no l ↦ rw (le→ltb h p (omega (arith, l))) (rw (lt→ltb h (p + 2048) w.0) (known (passed p)))
]
  where
    known :
        (b : Bool)
        → (if not b then some (at (some h) (note passed p)) else none)
          ≡ (if b then none else some (at (some h) (note passed p)))
    known true = refl
    known false = refl

noted-PassedBelow :
    (top : Option ℕ) (passed : ℕ → Bool) (p : ℕ)
    → PassedBelow top passed
    → PassedBelow (higher top p) (note passed p)
noted-PassedBelow none passed p below =
    λ q l. note-above passed p p q (λ k _. below k) (omega arith) l
noted-PassedBelow (some h) passed p below = elim (dec_lt h p) [
  | yes l ↦ rw (lt→ltb h p l) (λ q k. note-above passed h p q below (omega arith) k)
  | no l ↦
      rw (le→ltb h p (omega (arith, l)))
        (λ q k. note_other passed p q (λ e. omega (arith, e, l)) ∙ below q k)
]

weaken : (top : Option ℕ) (xs : List Received) → Within 2048 top xs → Within (2 ^ 15) top xs
weaken top [] w = tt
weaken none (x ∷ xs) (c, near, w) = (c, tt, weaken (some x.position) xs w)
weaken (some h) (x ∷ xs) (c, near, w) =
    (c, (omega (arith, near.0), near.1), weaken (higher (some h) x.position) xs w)

abbrev continued : Option ℕ → (ℕ → Bool) → ℕ → List ℕ → Option Reference → List ℕ
continued top passed p ps o = elim o [
  | none ↦ referred (at top passed) ps
  | some r ↦ p ∷ referred r ps
]

count-continued :
    (passed : ℕ → Bool) (p q n : ℕ) (rest : List ℕ)
    → passed p ≡ false
    → count q rest ≡ (if note passed p q then 0 else min 1 n)
    → count q (p ∷ rest) ≡ (if passed q then 0 else min 1 (if q == p then suc n else n))
unfolding note
count-continued passed p q n rest new e = elim (ℕ_discrete q p) [
  | yes same ↦ let there : passed q ≡ false = ap passed same ∙ new in ground arith
  | no ne ↦ ground arith
]

old_counts :
    (passed : ℕ → Bool) (p q n c : ℕ)
    → passed p ≡ true
    → c ≡ (if passed q then 0 else min 1 n)
    → c ≡ (if passed q then 0 else min 1 (if q == p then suc n else n))
old_counts passed p q n c old e = elim (ℕ_discrete q p) [
  | yes same ↦ let there : passed q ≡ true = ap passed same ∙ old in ground arith
  | no ne ↦ ground arith
]

higher_same :
    (top : Option ℕ) (passed : ℕ → Bool) (p : ℕ)
    → PassedBelow top passed
    → passed p ≡ true
    → higher top p ≡ top
higher_same none passed p below old = absurd (ground (arith, below p))
higher_same (some h) passed p below old =
    if_intro (λ (t : Option ℕ). t ≡ some h) (ltb h p) (λ l. absurd (ground (arith, below p)))
      (λ _. refl)

-- A position that was passed on is not passed on again, and any other exactly if it arrives.
count-referred :
    (top : Option ℕ) (passed : ℕ → Bool) (xs : List Received) (q : ℕ)
    → PassedBelow top passed
    → Within 2048 top xs
    → count q (referred (at top passed) (positions xs))
      ≡ (if passed q then 0 else min 1 (count q (positions xs)))
unfolding referred
count-referred top passed [] q below w = ground (arith, Bool-cases (passed q))
count-referred top passed (x ∷ xs) q below (c, near, w) =
    ap (λ o. count q (continued top passed x.position (positions xs) o))
      (refer_recent top passed x.position below near)
    ∙ elim (Bool-cases (passed x.position)) [
      | inl old ↦ rw old (
          old_counts passed x.position q (count q (positions xs)) _ old (
            count-referred top passed xs q below
              (subst (λ t. Within 2048 t xs) (higher_same top passed x.position below old) w)))
      | inr new ↦ rw new (
          count-continued passed x.position q (count q (positions xs)) _ new (
            count-referred (higher top x.position) (note passed x.position) xs q
              (noted-PassedBelow top passed x.position below) w))
    ]

-- From the opening on, where each packet is less than 2048 places behind the highest before it and less
-- than 2^15 ahead: a position is passed on once if a packet of it arrives over either link, however
-- often, and else never.
pub passes_each_once :
    (has_bus : Bool) (s : Demux) (now : ℕ) (xs : List Received) (q : ℕ)
    → Within 2048 none xs
    → count q (forwarded has_bus (open_demux s now) xs) ≡ min 1 (count q (positions xs))
unfolding fresh
passes_each_once has_bus s now xs q w =
    ap (count q) (merges_links has_bus s now xs (weaken none xs w))
    ∙ count-referred none (λ _. false) xs q (λ _. refl) w
