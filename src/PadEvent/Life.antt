-- ===== src/PadEvent/Life.antt =====
-- The life of an event, under the references that any number of threads take and give back.
use zstreamer.Common.{
  ℕ, zero, suc, ◌+◌, ◌^◌, ◌<◌, ◌≡◌, refl, ap, ◌∙◌, Option, none, some, List, [], ◌∷◌, arith, length,
  ◌==◌, if_intro,
}
use zstreamer.Types.{add32, sub32}
use zstreamer.PadEvent.{Event, ref_event, unref_event, Unreffed, lives, frees, owned_by}

-- One atomic operation of some thread.
pub data Action : Type 0 where
  takes gives_back : Action

pub data Life : Type 0 where
  live : Event → Life
  freed : Option ℕ → Life
  used_after_free : Life

pub after_free : List Action → Option ℕ → Life
after_free [] c = freed c
after_free (a ∷ acts) c = used_after_free

pub run : List Action → Event → Life
run [] e = live e
run (takes ∷ acts) e = run acts (ref_event e)
run (gives_back ∷ acts) e = elim (unref_event e) [
  | lives e' ↦ run acts e'
  | frees c ↦ after_free acts c
]

-- How many references are held after the actions, from `n` of them; `none` where some thread acts
-- when there is none to act on.
unfoldable pub held : ℕ → List Action → Option ℕ
held n [] = some n
held zero (a ∷ acts) = none
held (suc n) (takes ∷ acts) = held (suc (suc n)) acts
held (suc n) (gives_back ∷ acts) = held n acts

-- With `m` references: freed, with its capabilities, if there is none left.
abbrev pub settled : Event → ℕ → Life
settled e zero = freed (owned_by e.type e.payload)
settled e (suc m) = live (record e { refcount = suc m })

held-after_free :
    (acts : List Action) (m : ℕ) (e : Event)
    → held 0 acts ≡ some m
    → after_free acts (owned_by e.type e.payload) ≡ settled e m
unfolding held after_free
held-after_free [] zero e h = refl
held-after_free [] (suc m) e h = absurd (ground arith)
held-after_free (a ∷ acts) m e h = absurd (ground arith)

settled_now : (e : Event) (n m : ℕ) → e.refcount ≡ suc n → suc n ≡ m → live e ≡ settled e m
settled_now e n zero c h = absurd (omega arith)
settled_now e n (suc m) c h = ap (λ r. live (record e { refcount = r })) (c ∙ h)

settled_same : (e : Event) (r m : ℕ) → settled (record e { refcount = r }) m ≡ settled e m
settled_same e r zero = refl
settled_same e r (suc m) = refl

-- An event with as many references as are held, fewer than 2^31 in all, on which threads act only while
-- they hold one: it is freed exactly when no reference is left, its capabilities with it and once,
-- its count is else the number of references, and it is never used after it is freed.
pub run_settles :
    (acts : List Action) (e : Event) (n m : ℕ)
    → e.refcount ≡ suc n
    → n + length acts < 2 ^ 31
    → held (suc n) acts ≡ some m
    → run acts e ≡ settled e m
unfolding run held ref_event unref_event
run_settles [] e n m c l h = settled_now e n m c (ground arith)
run_settles (takes ∷ acts) e n m c l h =
    run_settles acts (ref_event e) (suc n) m (omega arith) (omega arith) h
    ∙ settled_same e (add32 e.refcount 1) m
run_settles (gives_back ∷ acts) e zero m c l h =
    if_intro
      (λ (u : Unreffed).
        elim u [ lives e' ↦ run acts e' | frees x ↦ after_free acts x ] ≡ settled e m)
      (e.refcount == 1) (λ _. held-after_free acts m e h) (λ f. absurd (ground arith))
run_settles (gives_back ∷ acts) e (suc n) m c l h =
    if_intro
      (λ (u : Unreffed).
        elim u [ lives e' ↦ run acts e' | frees x ↦ after_free acts x ] ≡ settled e m)
      (e.refcount == 1) (λ t. absurd (ground arith))
      (λ _.
        run_settles acts (record e { refcount = sub32 e.refcount 1 }) n m (omega arith)
          (omega arith) h
        ∙ settled_same e (sub32 e.refcount 1) m)
