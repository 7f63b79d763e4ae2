-- ===== src/Pads/System.antt =====
-- Threads that create, link, unlink, reference and release pads: the steps between which others may run.
use zstreamer.Common.{
  ℕ, ◌+◌, ◌-◌, ◌<◌, ◌≡◌, ◌≢◌, false, not, Option, none, some, List, [], ◌∷◌, ◌++◌, ◌==◌, count,
  erase,
}
use zstreamer.Types.{ZstResult}
use zstreamer.Pads.{
  Pads, Direction, is_src, is_some, set_at, create_pad, ref_pad, unref_pad, link, get_peer,
  unlink_look, unlink_pair, unlink_unrefs,
}

-- A call of `zst_pad_unlink` between its two locks.
pub record Call : Type 0 where
  pub pad : ℕ
  pub peer : ℕ

-- `held` counts the references that elements and applications hold, `unrefs` lists those that calls of
-- `zst_pad_unlink` have yet to give back.
pub record World : Type 0 where
  pub pads : Pads
  pub held : ℕ → ℕ
  pub calls : List Call
  pub unrefs : List ℕ

abbrev pub callers : List Call → List ℕ
callers [] = []
callers (c ∷ cs) = c.pad ∷ callers cs

abbrev pub looked_at : List Call → List ℕ
looked_at [] = []
looked_at (c ∷ cs) = c.peer ∷ looked_at cs

-- A thread works on a pad only while a reference to it is held, and such a reference is not given back
-- during the call.
pub data Step : World → World → Type 0 where
  creates :
      (w : World) (a : ℕ) (d : Direction)
      → w.pads.alive a ≡ false
      → Step w (record w { pads = create_pad w.pads a d; held = set_at w.held a 1 })
  takes :
      (w : World) (a : ℕ)
      → 0 < w.held a
      → Step w (record w { pads = ref_pad w.pads a; held = set_at w.held a (w.held a + 1) })
  gives_back :
      (w : World) (a : ℕ)
      → count a (callers w.calls) < w.held a
      → Step w (record w { pads = unref_pad w.pads a; held = set_at w.held a (w.held a - 1) })
  links :
      (w : World) (a b : ℕ) (negotiated : ZstResult)
      → 0 < w.held a
      → 0 < w.held b
      → Step w (record w { pads = (link w.pads a b negotiated).0 })
  gets_peer :
      (w : World) (a b : ℕ) (p : Pads)
      → 0 < w.held a
      → get_peer w.pads a ≡ some (b, p)
      → Step w (record w { pads = p; held = set_at w.held b (w.held b + 1) })
  looks :
      (w : World) (a b : ℕ) (p : Pads)
      → 0 < w.held a
      → unlink_look w.pads a ≡ some (b, p)
      → Step w (record w { pads = p; calls = record { pad = a; peer = b } ∷ w.calls })
  unlinks :
      (w : World) (c : Call) (cs ds : List Call)
      → w.calls ≡ cs ++ c ∷ ds
      → Step w (record w {
        pads = (unlink_pair w.pads c.pad c.peer).0;
        calls = cs ++ ds;
        unrefs = unlink_unrefs (unlink_pair w.pads c.pad c.peer).1 c.pad c.peer ++ w.unrefs;
      })
  unrefs_one :
      (w : World) (a : ℕ)
      → 0 < count a w.unrefs
      → Step w (record w { pads = unref_pad w.pads a; unrefs = erase a w.unrefs })

abbrev pub link_count : Option ℕ → ℕ
link_count none = 0
link_count (some b) = 1

-- The state of all pads at any time.
pub record IsSound (w : World) : Type 0 where
  pub counted :
      (a : ℕ)
      → w.pads.refcount a
        ≡ w.held a + link_count (w.pads.peer a) + count a (looked_at w.calls) + count a w.unrefs
  pub allocated : (a : ℕ) → w.pads.alive a ≡ not (w.pads.refcount a == 0)
  pub mutual_peers : (a b : ℕ) → w.pads.peer a ≡ some b → w.pads.peer b ≡ some a
  pub opposite :
      (a b : ℕ) → w.pads.peer a ≡ some b → is_src (w.pads.direction a) ≢ is_src (w.pads.direction b)
  pub flagged : (a : ℕ) → w.pads.linked a ≡ is_some (w.pads.peer a)
  pub kept : (a : ℕ) → 0 < count a (callers w.calls) → 0 < w.held a
