-- ===== src/Redundancy/Merge.antt =====
-- The element passes on what the reference passes on.
use zstreamer.Common.{
  ℕ, ◌%◌, ◌^◌, ◌≡◌, refl, sym, ap, subst, ◌∙◌, Bool, true, false, Option, none, some, ltb,
  if◌then◌else◌, if_intro, List, [], ◌∷◌, le→ltb, List, [], ◌∷◌,
}
use zstreamer.Types.{add64}
use zstreamer.Redundancy.{
  Demux, admit, Link, Arrival, Effect, primary, backup, follow, switch, push, open_demux, Notice,
}
use zstreamer.Redundancy.Reference.{
  fresh, Received, Within, forwarded, referred, positions, Reference, refer, higher,
}
use zstreamer.Redundancy.Steps.{Follows, Agree, at, admit-Agree}

moved :
    (s s' : Demux) (top : Option ℕ) (passed : ℕ → Bool)
    → s'.initialized ≡ s.initialized
    → s'.highest_seq ≡ s.highest_seq
    → s'.seen_history ≡ s.seen_history
    → Follows s top passed
    → Follows s' top passed
moved s s' none passed i h e f = (i ∙ f.0, f.1)
moved s s' (some k) passed i h e f = record {
  started = i ∙ f.started;
  top = h ∙ f.top;
  window = λ p l w. ap (λ seen. seen (p % 4096)) e ∙ f.window p l w;
  above = f.above;
}

switch-Follows :
    (has_bus : Bool) (s : Demux) (from link : Link) (now : ℕ) (top : Option ℕ) (passed : ℕ → Bool)
    → Follows s top passed
    → Follows (switch has_bus s from link now).0 top passed
unfolding switch
switch-Follows has_bus s primary primary now top passed f = moved s _ top passed refl refl refl f
switch-Follows has_bus s backup primary now top passed f = moved s _ top passed refl refl refl f
switch-Follows has_bus s primary backup now top passed f =
    if_intro (λ (r : Demux × Option Notice). Follows r.0 top passed)
      (ltb (add64 s.last_primary_time s.failover_detection_ms) now)
      (λ _. moved s _ top passed refl refl refl f) (λ _. f)
switch-Follows has_bus s backup backup now top passed f = f

-- What the element does after it has looked the packet up.
abbrev outcome : Bool → Demux → Arrival → Option Demux → Demux × Effect
outcome has_bus s a o = elim o [
  | none ↦ (s, record { forwards = false; posts = none })
  | some s' ↦
      let (s'', notice) = follow has_bus s' a.pad a.now in
      (s'', record { forwards = true; posts = notice })
]

abbrev emitted : Bool → Received → List Received → Demux × Effect → List ℕ
emitted has_bus x xs r =
    if r.1.forwards then x.position ∷ forwarded has_bus r.0 xs else forwarded has_bus r.0 xs

abbrev expected : Option ℕ → (ℕ → Bool) → ℕ → List ℕ → Option Reference → List ℕ
expected top passed p ps o = elim o [
  | none ↦ referred (at top passed) ps
  | some r ↦ p ∷ referred r ps
]

emitted-eq-expected :
    (has_bus : Bool) (s : Demux) (top : Option ℕ) (passed : ℕ → Bool) (x : Received)
    (xs : List Received) (o : Option Demux) (o' : Option Reference) (new : Option ℕ)
    → Agree o o' top new
    → Follows s top passed
    → Within (2 ^ 15) new xs
    → ((s' : Demux) (top' : Option ℕ) (passed' : ℕ → Bool)
        → Follows s' top' passed'
        → Within (2 ^ 15) top' xs
        → forwarded has_bus s' xs ≡ referred (at top' passed') (positions xs))
    → emitted has_bus x xs (outcome has_bus s x.arrival o)
      ≡ expected top passed x.position (positions xs) o'
unfolding follow
emitted-eq-expected has_bus s top passed x xs none none new a f w rest =
    rest s top passed f (subst (λ t. Within (2 ^ 15) t xs) a w)
emitted-eq-expected has_bus s top passed x xs none (some r) new a f w rest = absurd a
emitted-eq-expected has_bus s top passed x xs (some s') none new a f w rest = absurd a
emitted-eq-expected has_bus s top passed x xs (some s') (some r) new (f', e) f w rest =
    ap (λ ps. x.position ∷ ps)
      (rest _ r.highest r.passed
        (switch-Follows has_bus s' s'.current_link x.arrival.pad x.arrival.now r.highest r.passed
          f')
        (subst (λ t. Within (2 ^ 15) t xs) (sym e) w))

-- What a list of buffers gives, from states that agree.
pub forwarded-eq-referred :
    (has_bus : Bool) (s : Demux) (top : Option ℕ) (passed : ℕ → Bool) (xs : List Received)
    → Follows s top passed
    → Within (2 ^ 15) top xs
    → forwarded has_bus s xs ≡ referred (at top passed) (positions xs)
unfolding forwarded referred push
forwarded-eq-referred has_bus s top passed [] f w = refl
forwarded-eq-referred has_bus s top passed (x ∷ xs) f ((size, e), near, w) = rw (le→ltb _ _ size) (
    rw e (
      emitted-eq-expected has_bus s top passed x xs (admit s (x.position % 2 ^ 16))
        (refer (at top passed) x.position) (higher top x.position)
        (admit-Agree s top passed x.position f near) f w
        (λ s' top' passed' f' w'. forwarded-eq-referred has_bus s' top' passed' xs f' w')))

-- From the opening on, packets that arrive in any order over either link, each less than 2^15 places
-- behind the highest before it and less than 2^15 ahead, are passed on exactly as the reference
-- passes on their positions: it has no wrap-around and remembers every position.
pub merges_links :
    (has_bus : Bool) (s : Demux) (now : ℕ) (xs : List Received)
    → Within (2 ^ 15) none xs
    → forwarded has_bus (open_demux s now) xs ≡ referred fresh (positions xs)
unfolding open_demux fresh
merges_links has_bus s now xs w =
    forwarded-eq-referred has_bus (open_demux s now) none (λ q. false) xs (refl, λ q. refl) w
