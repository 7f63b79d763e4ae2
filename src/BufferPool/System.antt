-- ===== src/BufferPool/System.antt =====
-- Threads that share a pool, as interleavings of its critical sections.
use zstreamer.Common.{
  ℕ, ◌<◌, ◌≡◌, Bool, true, false, Option, none, some, List, [], ◌∷◌, arith, length, count, erase,
  subst, ap, ◌+◌, ◌↔◌, nil_of_length, count-le-length, singleton_of_length,
}
use zstreamer.Types.{ZstResult, u32_mod}
use zstreamer.BufferPool.{
  Pool, Buffer, Heap, Watermark, Timeout, got, failed, blocked, acquire, release, release_destroyed,
  create, destroy, set_config, prefill, drain, should_free, free_buffer,
}
use zstreamer.BufferPool.Config.{PoolConfig}
use zstreamer.BufferPool.Bounds.{Inv, ids, erase-Inv, erase_doomed-Inv, doom-Inv}
use zstreamer.BufferPool.Operations.{
  AcquiredInv, acquire-Inv, release-Inv, set_config-Inv, prefill-Inv, drain-Inv, destroy-Inv,
  release_destroyed-Inv, create-Inv, destroy-active,
}

-- The pool, the buffers that threads hold, and those that a `release` is about to destroy.
pub record System : Type 0 where
  pub pool : Pool
  pub out : List ℕ
  pub doomed : List ℕ

-- A thread acquires, releases a buffer that is out, or manages the pool. A thread that waits in
-- `acquire` takes one of the first three steps again whenever it is woken, or gives up and changes
-- nothing.
pub data Step (s : System) : System → Type 0 where
  acquires :
      (nonblock : Bool) (t : Timeout) (b : Buffer) (l : Option Watermark) (q : Pool)
      → acquire nonblock t s.pool ≡ got b l q
      → Step s (record s { pool = q; out = b.id ∷ s.out })
  fails :
      (nonblock : Bool) (t : Timeout) (r : ZstResult) (q : Pool)
      → acquire nonblock t s.pool ≡ failed r q
      → Step s (record s { pool = q })
  waits :
      (nonblock : Bool) (t : Timeout) (q : Pool)
      → acquire nonblock t s.pool ≡ blocked q
      → Step s (record s { pool = q })
  releases :
      (b : Buffer) (l : Option Watermark) (q : Pool)
      → 0 < count b.id s.out
      → release b s.pool ≡ some (q, l)
      → Step s (record s { pool = q; out = erase b.id s.out })
  dooms :
      (b : Buffer)
      → 0 < count b.id s.out
      → release b s.pool ≡ none
      → Step s (record s { out = erase b.id s.out; doomed = b.id ∷ s.doomed })
  discards :
      (i : ℕ)
      → 0 < count i s.doomed
      → Step s (record s { pool = (release_destroyed i s.pool).0; doomed = erase i s.doomed })
  reconfigures :
      (c : PoolConfig) (served : Bool)
      → c.max_buffers < u32_mod
      → Step s (record s { pool = (set_config (some c) served s.pool).1 })
  prefills : Step s (record s { pool = prefill s.pool })
  drains : Step s (record s { pool = drain s.pool })
  closes : Step s (record s { pool = (destroy s.pool).0 })

pub data Reach (s : System) : System → Type 0 where
  here : Reach s s
  next : {t u : System} → Reach s t → Step t u → Reach s u

abbrev pub IsSound : System → Type 0
IsSound s = Inv s.pool s.out s.doomed

Step-IsSound : {s t : System} → Step s t → IsSound s → IsSound t
Step-IsSound {s} (acquires nb t b l q e) v =
    subst (AcquiredInv s.out s.doomed) e (acquire-Inv s.out s.doomed nb t s.pool v)
Step-IsSound {s} (fails nb t r q e) v =
    subst (AcquiredInv s.out s.doomed) e (acquire-Inv s.out s.doomed nb t s.pool v)
Step-IsSound {s} (waits nb t q e) v =
    subst (AcquiredInv s.out s.doomed) e (acquire-Inv s.out s.doomed nb t s.pool v)
Step-IsSound {s} (releases b l q h e) v =
    release-Inv (erase b.id s.out) s.doomed b s.pool q l (erase-Inv b.id s.pool s.out s.doomed h v)
      e
Step-IsSound {s} (dooms b h e) v =
    doom-Inv b.id s.pool (erase b.id s.out) s.doomed (erase-Inv b.id s.pool s.out s.doomed h v)
Step-IsSound {s} (discards i h) v =
    release_destroyed-Inv s.out (erase i s.doomed) i s.pool
      (erase_doomed-Inv i s.pool s.out s.doomed h v)
Step-IsSound {s} (reconfigures c served h) v =
    set_config-Inv s.out s.doomed (some c) served s.pool (λ d e. ground arith) v
Step-IsSound {s} prefills v = prefill-Inv s.out s.doomed s.pool v
Step-IsSound {s} drains v = drain-Inv s.out s.doomed s.pool v
Step-IsSound {s} closes v = destroy-Inv s.out s.doomed s.pool v

Reach-IsSound : {s t : System} → IsSound s → Reach s t → IsSound t
Reach-IsSound v here = v
Reach-IsSound v (next r st) = Step-IsSound st (Reach-IsSound v r)

abbrev pub opened : Pool → System
opened p = record { pool = p; out = []; doomed = [] }

-- In every state that threads reach from a new pool, each buffer ever made is in exactly one place
-- (idle, checked out, about to be destroyed or freed) and no other address is anywhere;
-- `total_allocated` counts the first three; the idle buffers fit the array, whose length is the
-- configured maximum; and an inactive pool has no idle buffer.
pub create-Reach-IsSound :
    (has_allocator : Bool) (c : PoolConfig) (h : Heap) {p : Pool} {s : System}
    → c.max_buffers < u32_mod
    → h.next_id ≡ 0
    → h.freed ≡ []
    → create has_allocator (some c) true true h ≡ some p
    → Reach (opened p) s
    → IsSound s
create-Reach-IsSound has_allocator c h word n f e r =
    Reach-IsSound (create-Inv has_allocator c h word n f e) r

-- A buffer that a thread acquires is held by no other thread, is not idle, is not about to be
-- destroyed and has not been freed.
pub acquire_exclusive :
    (s : System) (nonblock : Bool) (t : Timeout) (b : Buffer) (l : Option Watermark) (q : Pool)
    → IsSound s
    → acquire nonblock t s.pool ≡ got b l q
    → (count b.id s.out ≡ 0)
      × (count b.id (ids q.buffers) ≡ 0)
      × (count b.id s.doomed ≡ 0)
      × (count b.id q.heap.freed ≡ 0)
acquire_exclusive s nonblock t b l q v e =
    let w : Inv q (b.id ∷ s.out) s.doomed = Step-IsSound (acquires nonblock t b l q e) v in
    ground (arith, w.one_place b.id)

-- The pool itself is freed by the release that destroys the last buffer of a closed pool: exactly
-- when no buffer is checked out and no other is about to be destroyed.
pub release_destroyed_last :
    (s : System) (i : ℕ)
    → IsSound s
    → 0 < count i s.doomed
    → s.pool.active ≡ false
    → ((release_destroyed i s.pool).1 ≡ true) ↔ ((s.out ≡ []) × (s.doomed ≡ i ∷ []))
unfolding release_destroyed should_free free_buffer
release_destroyed_last s i v h a = (
  λ e. (
    nil_of_length s.out (ground (arith, held, some_doomed)),
    singleton_of_length i s.doomed h (ground (arith, held, some_doomed)),
  ),
  λ e. ground (arith, held, ap length e.0, ap length e.1),
)
  where
    held : s.pool.total_allocated ≡ length s.out + length s.doomed
    held = omega (arith, v.total, ap length (v.closed a))

    some_doomed : 0 < length s.doomed
    some_doomed = omega (arith, count-le-length i s.doomed)

-- Closing the pool frees it at once exactly when no buffer is checked out or about to be
-- destroyed.
pub destroy_frees :
    (s : System) → IsSound s → ((destroy s.pool).1 ≡ true) ↔ ((s.out ≡ []) × (s.doomed ≡ []))
unfolding destroy
destroy_frees s v = (
  λ e. (nil_of_length s.out (ground (arith, held)), nil_of_length s.doomed (ground (arith, held))),
  λ e. ground (arith, held, ap length e.0, ap length e.1),
)
  where
    closed : Inv (destroy s.pool).0 s.out s.doomed
    closed = destroy-Inv s.out s.doomed s.pool v

    held : (destroy s.pool).0.total_allocated ≡ length s.out + length s.doomed
    held = omega (arith, closed.total, ap length (closed.closed (destroy-active s.pool)))
