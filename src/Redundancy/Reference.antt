-- ===== src/Redundancy/Reference.antt =====
-- What merging two links should do, on positions in the stream that never wrap around.
use zstreamer.Common.{
  ℕ, ◌+◌, ◌%◌, ◌^◌, ◌≤◌, ◌<◌, ◌≡◌, Bool, true, false, not, ◌&&◌, Option, none, some, List, [], ◌∷◌,
  ltb, ◌==◌, if◌then◌else◌, length,
}
use zstreamer.Redundancy.{Arrival, Demux, sequence_number, push}

-- The highest position so far and all positions that were passed on.
pub record Reference : Type 0 where
  pub highest : Option ℕ
  pub passed : ℕ → Bool

unfoldable pub fresh : Reference
fresh = record { highest = none; passed = λ q. false }

unfoldable pub note : (ℕ → Bool) → ℕ → ℕ → Bool
note passed p q = if q == p then true else passed q

-- A newer position is passed on, and one less than 2048 back that was not passed on before.
unfoldable pub refer : Reference → ℕ → Option Reference
refer r p = elim r.highest [
  | none ↦ some (record { highest = some p; passed = note r.passed p })
  | some h ↦
      if ltb h p
      then some (record { highest = some p; passed = note r.passed p })
      else if ltb h (p + 2048) && not (r.passed p)
      then some (record { highest = some h; passed = note r.passed p })
      else none
]

-- A buffer and its place in the stream.
pub record Received : Type 0 where
  pub arrival : Arrival
  pub position : ℕ

abbrev pub positions : List Received → List ℕ
positions [] = []
positions (x ∷ xs) = x.position ∷ positions xs

-- The positions that are passed on, in order.
unfoldable pub referred : Reference → List ℕ → List ℕ
referred r [] = []
referred r (p ∷ ps) = elim (refer r p) [ none ↦ referred r ps | some r' ↦ p ∷ referred r' ps ]

-- The positions of the buffers that the element hands on, in order.
unfoldable pub forwarded : Bool → Demux → List Received → List ℕ
forwarded has_bus s [] = []
forwarded has_bus s (x ∷ xs) =
    let (s', effect) = push true has_bus s x.arrival in
    let rest = forwarded has_bus s' xs in if effect.forwards then x.position ∷ rest else rest

-- The buffer is an RTP packet with the lower 16 bits of its position.
abbrev pub Carries : Received → Type 0
Carries x =
    (12 ≤ length x.arrival.data_bytes)
    × (sequence_number x.arrival.data_bytes ≡ x.position % 2 ^ 16)

abbrev pub InReach : Option ℕ → ℕ → ℕ → Type 0
InReach none back p = Unit {0}
InReach (some h) back p = (h < p + back) × (p < h + 2 ^ 15)

abbrev pub higher : Option ℕ → ℕ → Option ℕ
higher none p = some p
higher (some h) p = if ltb h p then some p else some h

-- Every position is less than `back` behind the highest before it, and less than 2^15 ahead.
abbrev pub Within : ℕ → Option ℕ → List Received → Type 0
Within back top [] = Unit {0}
Within back top (x ∷ xs) =
    Carries x × InReach top back x.position × Within back (higher top x.position) xs
