-- ===== src/Queue/Runs.antt =====
-- What holds along every run of producers and consumers from a new queue.
use zstreamer.Common.{
  ℕ, zero, suc, ◌+◌, ◌^◌, ◌≤◌, ◌<◌, ◌≡◌, refl, sym, ap, subst, ◌∙◌, [], ◌∷◌, arith, ltb,
  if◌then◌else◌, length, get_or,
}
use zstreamer.Types.{add64}
use zstreamer.Queue.{
  QueueConfig, Slot, equal, slot, empty_slot, init_ring, create_with, push_look, pop_look,
}
use zstreamer.Queue.Capacity.{next_power_of_two}
use zstreamer.Queue.Capacity.Power.{next_power_of_two_least}
use zstreamer.Queue.Slots.{Shape, sequence_at, compare_equal, ring_mask-eq-mod}
use zstreamer.Queue.Threads.{
  fresh, System, Step, looks_free, looks_full, claims_tail, publishes, claims_head, vacates, Reach,
  here, next,
}
use zstreamer.Queue.Invariant.{IsSound}
use zstreamer.Queue.Preserve.{publish-IsSound, vacate-IsSound}
use zstreamer.Queue.Claims.{claims_head-IsSound, claims_tail-IsSound}
use native.Mathlib.Nat.{mod-eq_of_lt, pow-le-pow_right}
use native.Mathlib.Decide.{ℕ_discrete}

looks_free-IsSound :
    (s : System) (p : ℕ)
    → IsSound s
    → p ≤ s.queue.tail
    → push_look s.queue p ≡ equal
    → IsSound (record s { seen_free = p ∷ s.seen_free })
unfolding push_look
looks_free-IsSound s p v le e = record {
  shape = v.shape;
  order = v.order;
  window = v.window;
  bound = v.bound;
  at = v.at;
  free = λ r h. elim (ℕ_discrete r p) [
    | yes same ↦
        subst (λ i. (i ≤ s.queue.tail) × (s.queue.tail ≤ i → sequence_at s.queue i ≡ i)) (sym same)
          (le, λ _. compare_equal _ p e)
    | no ne ↦ v.free r (ground arith)
  ];
  published = v.published;
}

looks_full-IsSound :
    (s : System) (p : ℕ)
    → IsSound s
    → p ≤ s.queue.head
    → pop_look s.queue p ≡ equal
    → IsSound (record s { seen_full = p ∷ s.seen_full })
unfolding pop_look
looks_full-IsSound s p v le e = record {
  shape = v.shape;
  order = v.order;
  window = v.window;
  bound = v.bound;
  at = v.at;
  free = v.free;
  published = λ r h. elim (ℕ_discrete r p) [
    | yes same ↦
        subst (λ i. (i ≤ s.queue.head) × (s.queue.head ≤ i → sequence_at s.queue i ≡ i + 1))
          (sym same) (le, λ _. omega (arith, compare_equal _ (add64 p 1) e, v.order, v.bound))
    | no ne ↦ v.published r (ground arith)
  ];
}

pub Step-IsSound : {s t : System} → Step s t → IsSound s → IsSound t
Step-IsSound {s} (looks_free p le e) v = looks_free-IsSound s p v le e
Step-IsSound {s} (looks_full p le e) v = looks_full-IsSound s p v le e
Step-IsSound {s} (claims_tail p b q seen lim e) v = claims_tail-IsSound s p b q v seen lim e
Step-IsSound {s} (publishes p e) v = publish-IsSound s p v e
Step-IsSound {s} (claims_head p q seen e) v = claims_head-IsSound s p q v seen e
Step-IsSound {s} (vacates p e) v = vacate-IsSound s p v e

pub Reach-IsSound : {s t : System} → IsSound s → Reach s t → IsSound t
Reach-IsSound v here = v
Reach-IsSound v (next r st) = Step-IsSound st (Reach-IsSound v r)

-- A new queue, with no position claimed.
abbrev pub opened : QueueConfig → System
opened cfg = record {
  queue = create_with cfg;
  phase = λ p. fresh;
  value = λ p. record { address = 0; pts = 0; duration = 0; size = 0 };
  seen_free = [];
  seen_full = [];
}

length-init_ring : (n i : ℕ) → length (init_ring n i) ≡ n
unfolding init_ring
length-init_ring zero i = refl
length-init_ring (suc n) i = ap suc (length-init_ring n (suc i))

get_or-init_ring :
    (n i p : ℕ) → p < n → get_or (init_ring n i) p (empty_slot 0) ≡ empty_slot (i + p)
unfolding init_ring
get_or-init_ring zero i p h = absurd (omega arith)
get_or-init_ring (suc n) i zero h = ap (λ t. empty_slot t) (omega arith)
get_or-init_ring (suc n) i (suc p) h =
    get_or-init_ring n (suc i) p (omega arith) ∙ ap (λ t. empty_slot t) (omega arith)

abbrev pub wanted : QueueConfig → ℕ
wanted cfg = if ltb 0 cfg.max_buffers then cfg.max_buffers else 16

create-Shape : (cfg : QueueConfig) → cfg.max_buffers ≤ 2 ^ 31 → Shape (create_with cfg)
unfolding create_with
create-Shape cfg h =
    let (k, e, pos, le, fits, least) =
      next_power_of_two_least (wanted cfg) (ground arith) (ground arith) in
    record {
      exponent = k;
      power = e;
      two = two k e pos;
      word =
          omega (arith, e, pow-le-pow_right {n = 2} (omega arith) {i = k} {j = 31} (omega arith));
      slots = length-init_ring _ 0;
    }
  where
    two :
        (k : ℕ)
        → next_power_of_two (wanted cfg) ≡ 2 ^ k
        → 0 < k
        → 2 ≤ next_power_of_two (wanted cfg)
    two k e pos =
        omega (arith, e, pow-le-pow_right {n = 2} (omega arith) {i = 1} {j = k} (omega arith))

pub opened-IsSound : (cfg : QueueConfig) → cfg.max_buffers ≤ 2 ^ 31 → IsSound (opened cfg)
unfolding create_with slot
opened-IsSound cfg h =
    let v = create-Shape cfg h in
    record {
      shape = v;
      order = omega arith;
      window = omega arith;
      bound = omega arith;
      at = λ p. (
        omega arith,
        λ l.
            ap (λ (x : Slot). x.sequence)
              (ap (λ i. get_or (create_with cfg).ring i (empty_slot 0))
                  (ring_mask-eq-mod v p ∙ mod-eq_of_lt l)
                ∙ get_or-init_ring _ 0 p l)
            ∙ omega arith,
      );
      free = λ r c. absurd (omega arith);
      published = λ r c. absurd (omega arith);
    }
