-- ===== src/Redundancy/Silence.antt =====
-- A failover follows a silence of the primary link.
use zstreamer.Common.{
  ℕ, ◌<◌, ◌≡◌, refl, ap, ◌∙◌, Bool, true, false, ◌&&◌, some, List, [], ◌∷◌, leb, if◌then◌else◌,
  arith, length,
}
use zstreamer.Types.{add64}
use zstreamer.Redundancy.{
  Demux, Arrival, Link, primary, backup, failover, push, admit, follow, switch, open_demux,
}

abbrev is_primary : Link → Bool
is_primary primary = true
is_primary backup = false

-- The state after the buffers, with `src_pad` linked.
unfoldable pub after : Bool → Demux → List Arrival → Demux
after has_bus s [] = s
after has_bus s (a ∷ arrivals) = after has_bus (push true has_bus s a).0 arrivals

-- When the last packet came over the primary link that was passed on, or `time` if none did.
unfoldable pub heard : Bool → Demux → ℕ → List Arrival → ℕ
heard has_bus s time [] = time
heard has_bus s time (a ∷ arrivals) =
    let (s', effect) = push true has_bus s a in
    heard has_bus s'
      (if leb 12 (length a.data_bytes) && effect.forwards && is_primary a.pad then a.now else time)
      arrivals

-- What a push does to the two fields.
push_times :
    (has_bus : Bool) (s : Demux) (a : Arrival)
    → ((push true has_bus s a).0.last_primary_time ≡ (
        if leb 12 (length a.data_bytes) && (push true has_bus s a).1.forwards && is_primary a.pad
        then a.now
        else s.last_primary_time))
      × ((push true has_bus s a).0.failover_detection_ms ≡ s.failover_detection_ms)
unfolding push follow switch admit
push_times has_bus s a = ground arith

after_times :
    (has_bus : Bool) (s : Demux) (arrivals : List Arrival)
    → ((after has_bus s arrivals).last_primary_time ≡ heard has_bus s s.last_primary_time arrivals)
      × ((after has_bus s arrivals).failover_detection_ms ≡ s.failover_detection_ms)
unfolding after heard
after_times has_bus s [] = (refl, refl)
after_times has_bus s (a ∷ arrivals) =
    let (time, ms) = push_times has_bus s a in
    let (times, same) = after_times has_bus (push true has_bus s a).0 arrivals in
    (times ∙ ap (λ t. heard has_bus (push true has_bus s a).0 t arrivals) time, same ∙ ms)

push_fails_over :
    (has_bus : Bool) (s : Demux) (a : Arrival)
    → (push true has_bus s a).1.posts ≡ some failover
    → (a.pad ≡ backup)
      × (add64 s.last_primary_time s.failover_detection_ms < a.now)
      × ((push true has_bus s a).1.forwards ≡ true)
unfolding push follow switch admit
push_fails_over has_bus s a e = ground arith

-- Whatever came since the opening, a failover is posted only for a packet of the backup link that is passed
-- on, and later than `failover_detection_ms` after the last packet that came over the primary link
-- and was passed on, or after the opening if there was none. The sum is one of 64 bits.
pub failover_after_silence :
    (has_bus : Bool) (s : Demux) (opened : ℕ) (arrivals : List Arrival) (a : Arrival)
    → (push true has_bus (after has_bus (open_demux s opened) arrivals) a).1.posts ≡ some failover
    → (a.pad ≡ backup)
      × (add64 (heard has_bus (open_demux s opened) opened arrivals) s.failover_detection_ms
          < a.now)
      × ((push true has_bus (after has_bus (open_demux s opened) arrivals) a).1.forwards ≡ true)
unfolding open_demux
failover_after_silence has_bus s opened arrivals a e =
    let (pad, late, passed) = push_fails_over has_bus _ a e in
    let (time, ms) = after_times has_bus (open_demux s opened) arrivals in
    (pad, omega (arith, late, time, ms), passed)
