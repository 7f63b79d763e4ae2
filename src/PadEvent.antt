-- ===== src/PadEvent.antt =====
-- src/zst_pad_event.c: the in-band events of pads and their reference counts.
pub mod Life
mod Tests
use zstreamer.Common.{
  ℕ, ◌+◌, ◌-◌, ◌%◌, Bool, true, false, Option, none, some, List, [], ◌∷◌, ◌==◌, if◌then◌else◌,
}
use zstreamer.Types.{add32, sub32}

pub data EventType : Type 0 where
  stream_start caps segment eos flush_start flush_stop gap discont force_keyframe : EventType

-- `zst_segment_t`; `rate` stands for the bits of the `double`.
pub record Segment : Type 0 where
  pub start : ℕ
  pub stop : ℕ
  pub rate : ℕ
  pub base : ℕ
  pub position : ℕ

-- The union `as`; capabilities are known by their address, and `none` is NULL.
pub data Payload : Type 0 where
  nothing : Payload
  stream_id : ℕ → Payload
  caps_at : Option ℕ → Payload
  segment_of : Segment → Payload

pub record Event : Type 0 where
  pub type : EventType
  pub refcount : ℕ
  pub payload : Payload

-- `calloc` and the fields that all constructors set; the first argument says whether it is served.
pub allocate : Bool → EventType → Payload → Option Event
allocate served type payload =
    if served then some (record { type = type; refcount = 1; payload = payload }) else none

pub new_stream_start : Bool → ℕ → Option Event
new_stream_start served id = allocate served stream_start (stream_id id)

-- The second argument is what `zst_caps_copy` returned for the capabilities, or NULL for none.
pub new_caps : Bool → Option ℕ → Option Event
new_caps served copied = allocate served caps (caps_at copied)

pub zero_segment : Segment
zero_segment = record { start = 0; stop = 0; rate = 0; base = 0; position = 0 }

pub new_segment : Bool → Option Segment → Option Event
new_segment served given =
    allocate served segment (segment_of (elim given [ none ↦ zero_segment | some s ↦ s ]))

pub new_eos : Bool → Option Event
new_eos served = allocate served eos nothing

pub new_flush_start : Bool → Option Event
new_flush_start served = allocate served flush_start nothing

pub new_flush_stop : Bool → Option Event
new_flush_stop served = allocate served flush_stop nothing

pub new_discont : Bool → Option Event
new_discont served = allocate served discont nothing

pub new_force_keyframe : Bool → Option Event
new_force_keyframe served = allocate served force_keyframe nothing

pub ref_event : Event → Event
ref_event e = record e { refcount = add32 e.refcount 1 }

-- The capabilities that go with the event: an event of another type has none to destroy.
pub owned_by : EventType → Payload → Option ℕ
owned_by caps (caps_at c) = c
owned_by caps nothing = none
owned_by caps (stream_id i) = none
owned_by caps (segment_of s) = none
owned_by stream_start p = none
owned_by segment p = none
owned_by eos p = none
owned_by flush_start p = none
owned_by flush_stop p = none
owned_by gap p = none
owned_by discont p = none
owned_by force_keyframe p = none

-- The event lives on, or it is freed and these capabilities with it.
pub data Unreffed : Type 0 where
  lives : Event → Unreffed
  frees : Option ℕ → Unreffed

pub unref_event : Event → Unreffed
unref_event e =
    if e.refcount == 1
    then frees (owned_by e.type e.payload)
    else lives (record e { refcount = sub32 e.refcount 1 })
