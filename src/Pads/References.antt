-- ===== src/Pads/References.antt =====
-- Creating a pad, taking a reference and giving one back keep the state sound.
use zstreamer.Common.{
  ℕ, ◌+◌, ◌-◌, ◌<◌, ◌≡◌, sym, ap, ◌∙◌, false, not, ◌&&◌, Bool-cases, inl, inr, none, List, ◌==◌,
  if◌then◌else◌, count, erase, count-erase, arith,
}
use zstreamer.Pads.{
  Pads, Direction, is_src, is_some, set_at, create_pad, ref_pad, unref_pad, clear_peer, finalize,
}
use zstreamer.Pads.System.{World, callers, IsSound}

pub creates-IsSound :
    (w : World) (a : ℕ) (d : Direction)
    → w.pads.alive a ≡ false
    → IsSound w
    → IsSound (record w { pads = create_pad w.pads a d; held = set_at w.held a 1 })
unfolding create_pad set_at is_some
creates-IsSound w a d free s = record {
  counted = λ i. ground (arith, s.counted i, s.allocated a);
  allocated = λ i. ground (arith, s.allocated i);
  mutual_peers = λ i j e. ground (arith, e, s.mutual_peers i j, s.counted a, s.allocated a);
  opposite = λ i j e o.
      ground (arith, e, o, s.opposite i j, s.mutual_peers i j, s.counted a, s.allocated a);
  flagged = λ i. ground (arith, s.flagged i);
  kept = λ i h. ground (arith, h, s.kept i);
}

pub takes-IsSound :
    (w : World) (a : ℕ)
    → 0 < w.held a
    → IsSound w
    → IsSound (record w { pads = ref_pad w.pads a; held = set_at w.held a (w.held a + 1) })
unfolding ref_pad set_at
takes-IsSound w a h s = record {
  counted = λ i. ground (arith, s.counted i);
  allocated = λ i. ground (arith, s.allocated i, s.counted i);
  mutual_peers = s.mutual_peers;
  opposite = s.opposite;
  flagged = s.flagged;
  kept = λ i k. ground (arith, s.kept i k);
}

-- What giving back a reference does to a pad that has no peer left when the last one goes: it is freed,
-- and the peers of all pads stay as they are.
unref_lem :
    (p : Pads) (a : ℕ)
    → p.alive a ≡ not (p.refcount a == 0)
    → (p.refcount a ≡ 1 → p.peer a ≡ none)
    → p.linked a ≡ is_some (p.peer a)
    → (i : ℕ)
    → ((unref_pad p a).refcount i ≡ (if i == a then p.refcount a - 1 else p.refcount i))
      × ((unref_pad p a).alive i
          ≡ (if i == a then p.alive a && not (p.refcount a == 1) else p.alive i))
      × ((unref_pad p a).peer i ≡ p.peer i)
      × ((unref_pad p a).linked i ≡ p.linked i)
      × ((unref_pad p a).direction i ≡ p.direction i)
unfolding unref_pad finalize clear_peer set_at is_some
unref_lem p a v n l i = elim (Bool-cases (p.refcount a == 1)) [
  | inl one ↦ let free : p.peer a ≡ none = n (ground arith) in rw one (ground (arith, free, l))
  | inr more ↦ rw more (ground (arith, l))
]

-- With a reference fewer on some side of the sum, the state stays sound.
unref-IsSound :
    (w : World) (a : ℕ) (held : ℕ → ℕ) (unrefs : List ℕ)
    → IsSound w
    → ((i : ℕ)
        → w.held i + count i w.unrefs ≡ (if i == a then 1 else 0) + (held i + count i unrefs))
    → ((i : ℕ) → 0 < count i (callers w.calls) → 0 < held i)
    → IsSound (record w { pads = unref_pad w.pads a; held = held; unrefs = unrefs })
unref-IsSound w a held unrefs s fewer kept = record {
  counted = λ i. ground (arith, same i, s.counted i, fewer i);
  allocated = λ i. ground (arith, same i, s.allocated i);
  mutual_peers = λ i j e. (same j).2 ∙ s.mutual_peers i j (sym (same i).2 ∙ e);
  opposite = λ i j e o.
      s.opposite i j (sym (same i).2 ∙ e) (sym (ap is_src (same i).4) ∙ o ∙ ap is_src (same j).4);
  flagged = λ i. (same i).3 ∙ s.flagged i ∙ sym (ap is_some (same i).2);
  kept = kept;
}
  where
    no_peer : w.pads.refcount a ≡ 1 → w.pads.peer a ≡ none
    no_peer one = ground (arith, one, s.counted a, fewer a)

    same :
        (i : ℕ)
        → ((unref_pad w.pads a).refcount i
            ≡ (if i == a then w.pads.refcount a - 1 else w.pads.refcount i))
          × ((unref_pad w.pads a).alive i
              ≡ (if i == a then w.pads.alive a && not (w.pads.refcount a == 1) else w.pads.alive i))
          × ((unref_pad w.pads a).peer i ≡ w.pads.peer i)
          × ((unref_pad w.pads a).linked i ≡ w.pads.linked i)
          × ((unref_pad w.pads a).direction i ≡ w.pads.direction i)
    same = unref_lem w.pads a (s.allocated a) no_peer (s.flagged a)

pub gives_back-IsSound :
    (w : World) (a : ℕ)
    → count a (callers w.calls) < w.held a
    → IsSound w
    → IsSound (record w { pads = unref_pad w.pads a; held = set_at w.held a (w.held a - 1) })
unfolding set_at
gives_back-IsSound w a h s =
    unref-IsSound w a (set_at w.held a (w.held a - 1)) w.unrefs s (λ i. ground arith)
      (λ i k. ground (arith, k, s.kept i))

pub unrefs_one-IsSound :
    (w : World) (a : ℕ)
    → 0 < count a w.unrefs
    → IsSound w
    → IsSound (record w { pads = unref_pad w.pads a; unrefs = erase a w.unrefs })
unrefs_one-IsSound w a h s =
    unref-IsSound w a w.held (erase a w.unrefs) s (λ i. ground (arith, count-erase i a w.unrefs h))
      s.kept
