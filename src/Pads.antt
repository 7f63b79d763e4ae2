-- ===== src/Pads.antt =====
-- src/zst_pad.c: how pads are created, linked and unlinked, and how references to them are counted.
pub mod System
pub mod References
pub mod Linking
pub mod Preserve
pub mod Reached
pub mod Negotiation
mod Tests
use zstreamer.Common.{
  ℕ, zero, suc, ◌+◌, ◌-◌, Bool, true, false, not, ◌&&◌, ◌||◌, Option, none, some, List, [], ◌∷◌,
  ◌==◌, if◌then◌else◌,
}
use zstreamer.Types.{ZstResult, ok, error}

pub data Direction : Type 0 where
  src sink : Direction

-- The fields of all pads that linking uses, by the address of the pad. `alive` says that it is allocated.
pub record Pads : Type 0 where
  pub alive : ℕ → Bool
  pub direction : ℕ → Direction
  pub peer : ℕ → Option ℕ
  pub linked : ℕ → Bool
  pub refcount : ℕ → ℕ

pub set_at {ℓ} : {A : Type ℓ} → (ℕ → A) → ℕ → A → ℕ → A
set_at f a v i = if i == a then v else f i

pub is_src : Direction → Bool
is_src src = true
is_src sink = false

pub is_ok : ZstResult → Bool
is_ok ok = true
is_ok _ = false

pub is_some : Option ℕ → Bool
is_some none = false
is_some (some a) = true

pub is_peer : Option ℕ → ℕ → Bool
is_peer none b = false
is_peer (some a) b = a == b

-- `zst_pad_create` at a free address.
pub create_pad : Pads → ℕ → Direction → Pads
create_pad p a direction = record {
  alive = set_at p.alive a true;
  direction = set_at p.direction a direction;
  peer = set_at p.peer a none;
  linked = set_at p.linked a false;
  refcount = set_at p.refcount a 1;
}

pub ref_pad : Pads → ℕ → Pads
ref_pad p a = record p { refcount = set_at p.refcount a (p.refcount a + 1) }

pub clear_peer : Pads → ℕ → Pads
clear_peer p a = record p { peer = set_at p.peer a none; linked = set_at p.linked a false }

-- A peer that is left over is detached too, if it points back.
pub finalize : Pads → ℕ → Pads
finalize p a =
    let detached = clear_peer p a in
    let cleared : Pads = elim (p.peer a) [
      | none ↦ detached
      | some b ↦ if is_peer (detached.peer b) a then clear_peer detached b else detached
    ] in
    record cleared { alive = set_at cleared.alive a false }

pub unref_pad : Pads → ℕ → Pads
unref_pad p a =
    let lowered = record p { refcount = set_at p.refcount a (p.refcount a - 1) } in
    if p.refcount a == 1 then finalize lowered a else lowered

pub link_pair : Pads → ℕ → ℕ → Pads
link_pair p a b =
    let reffed = ref_pad (ref_pad p b) a in
    record reffed {
      peer = set_at (set_at reffed.peer a (some b)) b (some a);
      linked = set_at (set_at reffed.linked a true) b true;
    }

-- `zst_pad_link`, with the result of `zst_pad_negotiate`.
pub link : Pads → ℕ → ℕ → ZstResult → Pads × ZstResult
link p a b negotiated =
    if not (is_src (p.direction a))
    then (p, error)
    else if is_src (p.direction b)
    then (p, error)
    else if not (is_ok negotiated)
    then (p, negotiated)
    else if is_some (p.peer a) || is_some (p.peer b)
    then (p, error)
    else (link_pair p a b, ok)

-- `zst_pad_get_peer`: the peer, with a reference to it.
pub get_peer : Pads → ℕ → Option (ℕ × Pads)
get_peer p a = elim (p.peer a) [ none ↦ none | some b ↦ some (b, ref_pad p b) ]

-- `zst_pad_unlink` under its first lock, which gets the peer in the same way.
pub unlink_look : Pads → ℕ → Option (ℕ × Pads)
unlink_look = get_peer

-- Under both locks: whether the pads were unlinked.
pub unlink_pair : Pads → ℕ → ℕ → Pads × Bool
unlink_pair p a b =
    if is_peer (p.peer a) b
    then (if is_peer (p.peer b) a then clear_peer (clear_peer p a) b else clear_peer p a, true)
    else (p, false)

-- The references that it gives back at its end, in order.
pub unlink_unrefs : Bool → ℕ → ℕ → List ℕ
unlink_unrefs true a b = b ∷ a ∷ b ∷ []
unlink_unrefs false a b = b ∷ []
