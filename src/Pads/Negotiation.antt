-- ===== src/Pads/Negotiation.antt =====
-- zst_pad_negotiate of src/zst_pad.c: the capabilities that two pads settle on when they are linked.

pub mod Agreement
mod Tests
use zstreamer.Common.{Option, none, some, ◌∷◌, if◌then◌else◌}
use zstreamer.Types.{ZstResult, ok, error}
use zstreamer.Caps.{Caps, copy}
use zstreamer.Caps.Negotiation.{intersect, is_fixed, fixate}
use zstreamer.Pads.{is_ok}

-- The capabilities of a pad; `offered` is what `get_caps` of its element returns, if it has one.
pub record PadCaps : Type 0 where
  pub caps : Option Caps
  pub template_caps : Option Caps
  pub offered : Option Caps

pub get_template : Option Caps → Option Caps
get_template none = none
get_template (some c) = some (copy c)

pub get_offered : PadCaps → Option Caps
get_offered p = elim p.offered [ some c ↦ some c | none ↦ get_template p.template_caps ]

pub get_caps : PadCaps → Option Caps
get_caps p = elim p.caps [ some c ↦ some (copy c) | none ↦ get_offered p ]

pub set_caps : PadCaps → Caps → PadCaps
set_caps p c = record p { caps = some (copy c) }

-- Both pads get the capabilities.
pub set_both : PadCaps → PadCaps → Caps → PadCaps × PadCaps × ZstResult
set_both source sink c = (set_caps source c, set_caps sink c, ok)

pub settle : PadCaps → PadCaps → Caps → PadCaps × PadCaps × ZstResult
settle source sink common =
    if is_fixed common
    then set_both source sink common
    else if is_ok (fixate common).1
    then set_both source sink (fixate common).0
    else (source, sink, error)

pub negotiate : PadCaps → PadCaps → PadCaps × PadCaps × ZstResult
negotiate source sink = elim (get_caps source) [
  | none ↦ (source, sink, ok)
  | some c1 ↦ elim (get_caps sink) [
    | none ↦ (source, sink, ok)
    | some c2 ↦ settle source sink (intersect c1 c2)
  ]
]
