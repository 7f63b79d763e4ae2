-- ===== src/BufferPool.antt =====
-- src/zst_buffer_pool.c, with the buffers of src/zst_buffer.c that it makes.
-- Each function here is what one critical section of the C function does under `pool->lock`, so
-- that threads are sequences of these steps (BufferPool/System). The array `pool->buffers` is the
-- list of its used part, the slot `count - 1` first, beside the length that it was allocated with.
pub mod Config
pub mod Bounds
pub mod Loops
pub mod Operations
pub mod System
pub mod Reuse
pub mod Calls
mod Tests
use zstreamer.Common.{
  ℕ, zero, suc, ◌+◌, ◌-◌, Bool, true, false, not, ◌&&◌, Option, none, some, List, [], ◌∷◌, ltb, leb,
  ◌==◌, if◌then◌else◌, length,
}
use zstreamer.Types.{ZstResult, ok, error, timeout, add32, sub32, add64}
use Config.{PoolConfig, normalise}

-- `zst_buffer_t`, as far as the pool reads or writes it. `id` is its address; `allocated` is the
-- number of bytes behind `memory.data`, which `size` promises.
pub record Buffer : Type 0 where
  pub id : ℕ
  pub kind : ℕ
  pub flags : ℕ
  pub refcount : ℕ
  pub pts : ℕ
  pub dts : ℕ
  pub duration : ℕ
  pub size : ℕ
  pub allocated : ℕ

-- The C heap as the pool sees it: whether it serves the n-th creation, the address that the next
-- buffer gets, and the addresses of the buffers that were freed.
pub record Heap : Type 0 where
  pub serves : ℕ → Bool
  pub attempts : ℕ
  pub next_id : ℕ
  pub freed : List ℕ

pub record Pool : Type 0 where
  pub has_allocator : Bool
  pub config : PoolConfig
  pub buffers : List Buffer
  pub capacity : ℕ
  pub total_allocated : ℕ
  pub generation : ℕ
  pub active : Bool
  pub heap : Heap

pub new_buffer : ℕ → Bool → ℕ → ℕ → Buffer
new_buffer kind has_allocator size id = record {
  id = id;
  kind = kind;
  flags = 0;
  refcount = 1;
  pts = 0;
  dts = 0;
  duration = 0;
  size = if has_allocator then size else 0;
  allocated = if has_allocator then size else 0;
}

-- `zst_buffer_create_with_allocator`. Its allocations succeed or fail together: on a failure it
-- frees what it has and returns NULL.
pub create_with_allocator : ℕ → Bool → ℕ → Heap → Option Buffer × Heap
create_with_allocator kind has_allocator size h =
    if h.serves h.attempts
    then (
      some (new_buffer kind has_allocator size h.next_id),
      record h { attempts = suc h.attempts; next_id = suc h.next_id },
    )
    else (none, record h { attempts = suc h.attempts })

count_created : Option Buffer × Heap → Pool → Option Buffer × Pool
count_created (none, h) p = (none, record p { heap = h })
count_created (some b, h) p =
    (some b, record p { heap = h; total_allocated = add32 p.total_allocated 1 })

-- A new buffer for the pool, with `total_allocated` counted up.
pub create_buffer : Pool → Option Buffer × Pool
unfolding count_created
create_buffer p =
    count_created
      (create_with_allocator p.config.buffer_type p.has_allocator p.config.buffer_size p.heap) p

pub store : Buffer → Pool → Pool
store b p = record p { buffers = b ∷ p.buffers }

-- The destruction of a buffer: release of its memory, `destroy` and `free`.
pub free_buffer : ℕ → Pool → Pool
free_buffer id p = record p {
  total_allocated = sub32 p.total_allocated 1;
  heap = record h { freed = id ∷ h.freed };
}
  where
    h : Heap
    h = p.heap

-- The loop of `zst_buffer_pool_create`: a creation that fails is skipped.
pub preallocate : ℕ → Pool → Pool
preallocate zero p = p
preallocate (suc n) p =
    let (b, q) = create_buffer p in
    elim b [ none ↦ preallocate n q | some buf ↦ preallocate n (store buf q) ]

-- `none` is NULL: no configuration, or no memory for the pool or for its array.
pub create : Bool → Option PoolConfig → Bool → Bool → Heap → Option Pool
create has_allocator none pool_served array_served h = none
create has_allocator (some config) pool_served array_served h =
    if pool_served && array_served then some (preallocate c.min_buffers fresh) else none
  where
    c : PoolConfig
    c = normalise config

    fresh : Pool
    fresh = record {
      has_allocator = has_allocator;
      config = c;
      buffers = [];
      capacity = c.max_buffers;
      total_allocated = 0;
      generation = 1;
      active = true;
      heap = h;
    }

pub data Watermark : Type 0 where
  low high : Watermark

-- The argument `timeout_ms`: negative, zero, positive.
pub data Timeout : Type 0 where
  forever now limited : Timeout

-- How one round of the loop of `zst_buffer_pool_acquire` ends: with a buffer and the watermark
-- that is to be reported, with an error, or blocked on the condition variable.
pub data Acquired : Type 0 where
  got : Buffer → Option Watermark → Pool → Acquired
  failed : ZstResult → Pool → Acquired
  blocked : Pool → Acquired

-- The watermark callbacks, after the count of idle buffers has become `n`.
pub low_mark : PoolConfig → ℕ → Option Watermark
low_mark c n = if c.has_watermark_cb && (n == c.low_watermark) then some low else none

pub high_mark : PoolConfig → ℕ → Option Watermark
high_mark c n = if c.has_watermark_cb && (n == c.high_watermark) then some high else none

-- `pool->buffers[--pool->count]` and the rest of the function.
pub take_top : Buffer → List Buffer → Pool → Acquired
take_top b rest p =
    got (record b { size = p.config.buffer_size; refcount = 1 }) (low_mark p.config (length rest))
      (record p { buffers = rest })

-- What a thread that finds the active pool empty and could not create a buffer does.
pub no_buffer : Bool → Timeout → Pool → Acquired
no_buffer true t p = failed timeout p
no_buffer false now p = failed timeout p
no_buffer false t p = blocked p

pub acquire_empty : Bool → Timeout → Pool → Acquired
acquire_empty nonblock t p =
    if ltb p.total_allocated p.config.max_buffers
    then (let (b, q) = create_buffer p in
        elim b [ none ↦ no_buffer nonblock t q | some buf ↦ got buf none q ])
    else no_buffer nonblock t p

pub acquire_from : List Buffer → Bool → Timeout → Pool → Acquired
acquire_from [] nonblock t p = acquire_empty nonblock t p
acquire_from (b ∷ rest) nonblock t p = take_top b rest p

-- One round of the call.
pub acquire : Bool → Timeout → Pool → Acquired
acquire nonblock t p = if not p.active then failed error p else acquire_from p.buffers nonblock t p

-- How a wait on the condition variable ends: `expired` is an error of `pthread_cond_timedwait`.
pub data Wake : Type 0 where
  woken expired : Wake

-- `pthread_cond_wait` is not asked for an error.
pub gives_up : Timeout → Wake → Bool
gives_up limited expired = true
gives_up _ _ = false

-- A whole call: each wait in it ends in some way, with the pool that other threads have left by then.
-- It is still `blocked` where the list of the waits ends.
unfoldable pub acquire_call : Bool → Timeout → List (Wake × Pool) → Pool → Acquired
acquire_call nonblock t [] p = acquire nonblock t p
acquire_call nonblock t ((w, p') ∷ waits) p =
    let rest = acquire_call nonblock t waits p' in
    elim (acquire nonblock t p) [
      | got b l q ↦ got b l q
      | failed r q ↦ failed r q
      | blocked q ↦ if gives_up t w then failed timeout p' else rest
    ]

pub clear : Buffer → Buffer
clear b = record b { pts = 0; dts = 0; duration = 0; flags = 0 }

-- The first critical section of `zst_buffer_pool_release`: the buffer is stored, or is to be
-- destroyed (`none`).
pub release : Buffer → Pool → Option (Pool × Option Watermark)
release b p =
    if p.active && ltb (length p.buffers) p.config.max_buffers
    then some (store (clear b) p, high_mark p.config (suc (length p.buffers)))
    else none

-- `!pool->active && pool->total_allocated == 0`: the pool itself is freed.
pub should_free : Pool → Bool
should_free p = not p.active && (p.total_allocated == 0)

-- The second one, after the destruction of a buffer that was not stored.
pub release_destroyed : ℕ → Pool → Pool × Bool
release_destroyed id p = let q = free_buffer id p in (q, should_free q)

-- Frees idle buffers from the top while more than `keep` are idle.
pub shrink : ℕ → List Buffer → Pool → Pool
shrink keep [] p = record p { buffers = [] }
shrink keep (b ∷ rest) p =
    let smaller = shrink keep rest (free_buffer b.id p) in
    if ltb keep (suc (length rest)) then smaller else record p { buffers = b ∷ rest }

-- Frees every idle buffer.
pub destroy : Pool → Pool × Bool
destroy p = let q = shrink 0 p.buffers (record p { active = false }) in (q, q.total_allocated == 0)

-- Creates and stores buffers, `n` at most, until one creation fails; `false` says that it did.
pub fill : ℕ → Pool → Pool × Bool
fill zero p = (p, true)
fill (suc n) p =
    let (b, q) = create_buffer p in elim b [ none ↦ (q, false) | some buf ↦ fill n (store buf q) ]

-- `while (pool->total_allocated < limit)`.
abbrev pub fill_up_to : ℕ → Pool → Pool × Bool
fill_up_to limit p = fill (limit - p.total_allocated) p

pub set_config_filled : Pool → ZstResult × Pool
set_config_filled p =
    if p.active
    then (
      if (fill_up_to p.config.min_buffers p).1 then ok else error,
      (fill_up_to p.config.min_buffers p).0,
    )
    else (ok, p)

-- The pool after the array is resized and the new configuration stored.
pub adopt : PoolConfig → Pool → Pool
adopt c p = record p {
  capacity = if c.max_buffers == p.config.max_buffers then p.capacity else c.max_buffers;
  config = c;
  generation = add64 p.generation 1;
}

pub set_config_resized : PoolConfig → Bool → Pool → ZstResult × Pool
set_config_resized c realloc_served p =
    if not (c.max_buffers == p.config.max_buffers) && not realloc_served
    then (error, p)
    else set_config_filled (adopt c p)

-- `realloc` may fail, and is called only where the maximum changes.
pub set_config : Option PoolConfig → Bool → Pool → ZstResult × Pool
set_config none realloc_served p = (error, p)
set_config (some config) realloc_served p =
    let c = normalise config in
    set_config_resized c realloc_served (shrink c.max_buffers p.buffers p)

pub prefill : Pool → Pool
prefill p = if p.active then (fill_up_to p.config.max_buffers p).0 else p

-- `while (pool->count > 0 && pool->total_allocated > target_allocated)`.
pub drain_idle : List Buffer → Pool → Pool
drain_idle [] p = record p { buffers = [] }
drain_idle (b ∷ rest) p =
    let smaller = drain_idle rest (free_buffer b.id p) in
    if ltb p.config.min_buffers p.total_allocated then smaller else record p { buffers = b ∷ rest }

pub drain : Pool → Pool
drain p = if p.active then drain_idle p.buffers p else p

pub get_config : Pool → PoolConfig
get_config p = p.config

pub get_generation : Pool → ℕ
get_generation p = p.generation
