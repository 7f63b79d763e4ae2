-- ===== src/BufferPool/Tests.antt =====
-- A pool of one or two buffers in use.
use zstreamer.Common.{ℕ, ◌≡◌, refl, true, false, none, some, [], ◌∷◌, arith, count}
use zstreamer.BufferPool.{
  Pool, Buffer, Heap, Watermark, low, high, Timeout, now, forever, Acquired, got, acquire,
  acquire_from, take_top, release, release_destroyed, create, destroy, set_config, preallocate,
  create_buffer, count_created, create_with_allocator, new_buffer, store, clear, low_mark,
  high_mark,
}
use zstreamer.BufferPool.Config.{PoolConfig, IsUsable, normalise}
use zstreamer.BufferPool.Bounds.{ids}
use zstreamer.BufferPool.Operations.{create-Inv}
use zstreamer.BufferPool.System.{
  System, Reach, here, next, IsSound, opened, acquires, dooms, closes, create-Reach-IsSound,
  acquire_exclusive,
}
use zstreamer.Types.{timeout}
use zstreamer.BufferPool.{
  limited, expired, failed, acquire_call, acquire_empty, no_buffer, gives_up,
}
use zstreamer.BufferPool.Calls.{Answers, acquire_call-Answers}
use zstreamer.BufferPool.Reuse.{acquire-release}

-- One buffer of 64 bytes at first, two at most.
abbrev small : PoolConfig
small = record {
  min_buffers = 1;
  max_buffers = 2;
  buffer_size = 64;
  buffer_type = 1;
  low_watermark = 0;
  high_watermark = 1;
  has_watermark_cb = true;
}

abbrev heap : Heap
heap = record { serves = λ n. true; attempts = 0; next_id = 0; freed = [] }

abbrev made : ℕ → Buffer
made i = new_buffer 1 true 64 i

abbrev pool : Pool
pool = record {
  has_allocator = true;
  config = small;
  buffers = made 0 ∷ [];
  capacity = 2;
  total_allocated = 1;
  generation = 1;
  active = true;
  heap = record heap { attempts = 1; next_id = 1 };
}

pool_created : create true (some small) true true heap ≡ some pool
unfolding create preallocate create_buffer count_created create_with_allocator store normalise
    new_buffer
pool_created = refl

abbrev taken : Buffer
taken = record {
  id = 0;
  kind = 1;
  flags = 0;
  refcount = 1;
  pts = 0;
  dts = 0;
  duration = 0;
  size = 64;
  allocated = 64;
}

abbrev drained : Pool
drained = record pool { buffers = [] }

acquired : acquire false forever pool ≡ got taken (some low) drained
unfolding acquire acquire_from take_top new_buffer low_mark
acquired = refl

-- The only buffer is out, the pool is closed, and the buffer is about to be destroyed.
abbrev closed : System
closed = record { pool = (destroy drained).0; out = 0 ∷ []; doomed = [] }

abbrev ending : System
ending = record { pool = (destroy drained).0; out = []; doomed = 0 ∷ [] }

held-Reach : Reach (opened pool) (record { pool = drained; out = 0 ∷ []; doomed = [] })
held-Reach = next here (acquires false forever taken (some low) drained acquired)

ending-Reach : Reach (opened pool) ending
unfolding destroy release zstreamer.BufferPool.shrink
ending-Reach = next (next held-Reach closes) (dooms taken (omega arith) refl)

create-Reach-IsSound_example : IsSound ending
create-Reach-IsSound_example =
    create-Reach-IsSound true small heap (omega arith) refl refl pool_created ending-Reach

pool-IsSound : IsSound (opened pool)
pool-IsSound = create-Inv true small heap (omega arith) refl refl pool_created

acquire_exclusive_example :
    (count 0 (opened pool).out ≡ 0)
    × (count 0 (ids drained.buffers) ≡ 0)
    × (count 0 (opened pool).doomed ≡ 0)
    × (count 0 drained.heap.freed ≡ 0)
acquire_exclusive_example =
    acquire_exclusive (opened pool) false forever taken (some low) drained pool-IsSound acquired

-- Both buffers are out.
abbrev full : System
full = record {
  pool = record drained { total_allocated = 2; heap = record heap { attempts = 2; next_id = 2 } };
  out = 1 ∷ 0 ∷ [];
  doomed = [];
}

full-IsSound : IsSound full
unfolding acquire acquire_from acquire_empty create_buffer count_created create_with_allocator
    new_buffer
full-IsSound =
    create-Reach-IsSound true small heap (omega arith) refl refl pool_created
      (next held-Reach (acquires false forever (made 1) none full.pool refl))

-- A wait with a time limit that ends with an error.
acquire_call-Answers_example :
    Answers false limited full
      ((expired, full) ∷ [])
      (acquire_call false limited ((expired, full.pool) ∷ []) full.pool)
acquire_call-Answers_example =
    acquire_call-Answers false limited full ((expired, full) ∷ [])
      (full-IsSound, (full-IsSound, tt))

timed_out :
    acquire_call false limited ((expired, full.pool) ∷ []) full.pool ≡ failed timeout full.pool
unfolding acquire_call acquire acquire_from acquire_empty no_buffer gives_up
timed_out = refl

acquire-release_example :
    (some high ≡ high_mark small 1)
    × (acquire true now (record pool { buffers = taken ∷ [] })
        ≡ got taken (low_mark small 0) drained)
unfolding release clear store high_mark
acquire-release_example =
    acquire-release taken drained (record pool { buffers = taken ∷ [] }) (some high) true now refl

small-IsUsable : IsUsable small
small-IsUsable = record { positive = omega arith; within = omega arith; word = omega arith }

abbrev queues : ℕ
queues = 3
