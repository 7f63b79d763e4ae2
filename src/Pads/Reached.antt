-- ===== src/Pads/Reached.antt =====
-- What holds of the pads at any time.
use zstreamer.Common.{ℕ, ◌≡◌, ◌≢◌, refl, false, none, some, [], count, arith}
use zstreamer.Pads.{Pads, Direction, src}
use zstreamer.Pads.System.{World, Step, callers, looked_at, IsSound}
use zstreamer.Pads.Preserve.{Step-IsSound}

-- Before any pad is created.
unfoldable pub no_pads : World
no_pads = record {
  pads = record {
    alive = λ a. false;
    direction = λ a. src;
    peer = λ a. none;
    linked = λ a. false;
    refcount = λ a. 0;
  };
  held = λ a. 0;
  calls = [];
  unrefs = [];
}

pub data Reach : World → World → Type 0 where
  stays : (w : World) → Reach w w
  goes_on : {w w' w'' : World} → Reach w w' → Step w' w'' → Reach w w''

Reach-IsSound : {w w' : World} → Reach w w' → IsSound w → IsSound w'
Reach-IsSound (stays w) s = s
Reach-IsSound (goes_on r t) s = Step-IsSound t (Reach-IsSound r s)

no_pads-IsSound : IsSound no_pads
unfolding no_pads zstreamer.Pads.is_some
no_pads-IsSound = record {
  counted = λ a. refl;
  allocated = λ a. refl;
  mutual_peers = λ a b e. absurd (ground (arith, e));
  opposite = λ a b e. absurd (ground (arith, e));
  flagged = λ a. refl;
  kept = λ a h. absurd (omega arith);
}

-- Whatever threads create, link, unlink, reference and release pads, and however their steps mix, where
-- each holds a reference to the pads it works on: two pads are each other's peer or neither is,
-- they have opposite directions, the flag for lock-free readers says whether there is a peer, and
-- the count of a pad is the number of references that are held, that its link keeps, and that
-- running calls have taken; it is allocated exactly while this number is not zero.
pub no_pads-Reach-IsSound : (w : World) → Reach no_pads w → IsSound w
no_pads-Reach-IsSound w r = Reach-IsSound r no_pads-IsSound

-- A pad that is freed is out of use: nobody holds a reference to it, no pad has it as its peer, no call
-- of `zst_pad_unlink` works on it or has yet to give back a reference to it.
pub freed_unused :
    (w : World) (a b : ℕ)
    → Reach no_pads w
    → w.pads.alive a ≡ false
    → (w.held a ≡ 0)
      × (w.pads.peer b ≢ some a)
      × (count a (callers w.calls) ≡ 0)
      × (count a (looked_at w.calls) ≡ 0)
      × (count a w.unrefs ≡ 0)
freed_unused w a b r freed =
    let s = no_pads-Reach-IsSound w r in
    let none_left : w.pads.refcount a ≡ 0 = ground (arith, s.allocated a, freed) in
    (
      omega (arith, s.counted a, none_left),
      λ e. ground (arith, s.mutual_peers b a e, s.counted a, none_left),
      ground (arith, s.kept a, s.counted a, none_left),
      omega (arith, s.counted a, none_left),
      omega (arith, s.counted a, none_left),
    )
