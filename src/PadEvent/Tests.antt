-- ===== src/PadEvent/Tests.antt =====
-- An event that two threads hold.
use zstreamer.Common.{◌≡◌, refl, true, some, [], ◌∷◌, arith}
use zstreamer.PadEvent.{Event, caps, caps_at, allocate, new_caps}
use zstreamer.PadEvent.Life.{takes, gives_back, freed, run, held, run_settles}

abbrev made : Event
made = record { type = caps; refcount = 1; payload = caps_at (some 40) }

made_event : new_caps true (some 40) ≡ some made
unfolding new_caps allocate
made_event = refl

shared : held 1 (takes ∷ gives_back ∷ gives_back ∷ []) ≡ some 0
unfolding held
shared = refl

run_settles_example : run (takes ∷ gives_back ∷ gives_back ∷ []) made ≡ freed (some 40)
unfolding zstreamer.PadEvent.owned_by
run_settles_example =
    run_settles (takes ∷ gives_back ∷ gives_back ∷ []) made 0 0 refl (omega arith) shared
