-- ===== src/Pads/Tests.antt =====
-- Two pads are linked, and one thread unlinks them while another releases one.
use zstreamer.Common.{ℕ, ◌≡◌, ◌≢◌, refl, false, some, ◌-◌, arith, count}
use zstreamer.Types.{ok}
use zstreamer.Pads.{
  Pads, src, sink, set_at, create_pad, link, ref_pad, unref_pad, unlink_pair, unlink_unrefs,
}
use zstreamer.Pads.System.{World, creates, links, gives_back, callers, looked_at, IsSound}
use zstreamer.Pads.Reached.{no_pads, Reach, stays, goes_on, no_pads-Reach-IsSound, freed_unused}

abbrev camera : World
camera = record no_pads { pads = create_pad no_pads.pads 1 src; held = set_at no_pads.held 1 1 }

abbrev both : World
both = record camera { pads = create_pad camera.pads 2 sink; held = set_at camera.held 2 1 }

abbrev linked_pads : World
linked_pads = record both { pads = (link both.pads 1 2 ok).0 }

Reach-linked : Reach no_pads linked_pads
unfolding no_pads create_pad set_at
Reach-linked =
    goes_on
      (goes_on (goes_on (stays no_pads) (creates no_pads 1 src refl)) (creates camera 2 sink refl))
      (links both 1 2 ok (omega arith) (omega arith))

no_pads-Reach-IsSound_example : IsSound linked_pads
no_pads-Reach-IsSound_example = no_pads-Reach-IsSound linked_pads Reach-linked

-- The camera's pad is released again, which frees it.
abbrev released : World
released = record camera {
  pads = unref_pad camera.pads 1;
  held = set_at camera.held 1 (camera.held 1 - 1);
}

Reach-released : Reach no_pads released
unfolding no_pads create_pad set_at
Reach-released =
    goes_on (goes_on (stays no_pads) (creates no_pads 1 src refl))
      (gives_back camera 1 (omega arith))

is_freed : released.pads.alive 1 ≡ false
unfolding unref_pad no_pads create_pad set_at zstreamer.Pads.finalize zstreamer.Pads.clear_peer
is_freed = refl

-- A whole call: the link is undone and each pad has its holder's reference left.
abbrev unlinked : Pads
unlinked = (unlink_pair (ref_pad linked_pads.pads 2) 1 2).0

abbrev one_left : ℕ
one_left = 1

counts_after : (unref_pad (unref_pad (unref_pad unlinked 2) 1) 2).refcount 2 ≡ one_left
unfolding unref_pad no_pads create_pad set_at link ref_pad unlink_pair zstreamer.Pads.finalize
    zstreamer.Pads.clear_peer zstreamer.Pads.link_pair zstreamer.Pads.is_peer zstreamer.Pads.is_src
    zstreamer.Pads.is_ok zstreamer.Pads.is_some
counts_after = refl

freed_unused_example :
    (released.held 1 ≡ 0)
    × (released.pads.peer 2 ≢ some 1)
    × (count 1 (callers released.calls) ≡ 0)
    × (count 1 (looked_at released.calls) ≡ 0)
    × (count 1 released.unrefs ≡ 0)
freed_unused_example = freed_unused released 1 2 Reach-released is_freed
