-- ===== src/Queue/Calls.antt =====
-- The limits of a queue, and one round of `zst_queue_push` and of `zst_queue_pop` by a thread that no
-- other thread interrupts. `waits` is where the caller sleeps on a condition variable: if its deadline
-- passes there it returns `timeout`, else it takes another round at the current `tail` or `head`.
pub mod Alone
pub mod Flushes
pub mod Pushes
pub mod Limits
use zstreamer.Common.{
  ℕ, zero, suc, ◌+◌, ◌-◌, Bool, true, false, not, ◌&&◌, ◌||◌, Option, none, some, List, [], ◌∷◌,
  ltb, leb, ◌==◌, if◌then◌else◌,
}
use zstreamer.Types.{ZstResult, error, timeout, add64}
use zstreamer.Queue.{
  Queue, QueueConfig, QueueMode, sync, async, Buffer, Slot, Diff, equal, behind, ahead, slot,
  push_look, pop_look, cas_tail, cas_head, publish, taken, vacate, size,
}

-- The slot of a position is fully written.
pub is_written : Queue → ℕ → Bool
is_written q i = (slot q i).sequence == add64 i 1

-- The first of the `n` positions from `i` on that is written.
pub find_first : Queue → ℕ → ℕ → Option ℕ
find_first q zero i = none
find_first q (suc n) i =
    let rest = find_first q n (suc i) in if is_written q i then some i else rest

-- The last of the `n` positions from `head` on that is written, and is not before `first`.
pub find_last : Queue → ℕ → ℕ → ℕ → Option ℕ
find_last q head first zero = none
find_last q head first (suc n) =
    let rest = find_last q head first n in
    if ltb (head + n) first then none else if is_written q (head + n) then some (head + n) else rest

pub sum_durations : Queue → ℕ → ℕ → ℕ → ℕ
sum_durations q zero i sum = sum
sum_durations q (suc n) i sum =
    sum_durations q n (suc i) (if is_written q i then add64 sum (slot q i).duration else sum)

pub get_duration : Queue → ℕ
get_duration q = if leb q.tail q.head then 0 else elim (find_first q waiting q.head) [
  | none ↦ sum
  | some first ↦ elim (find_last q q.head first waiting) [
    | none ↦ sum
    | some last ↦ between (slot q first).pts (slot q last).pts
  ]
]
  where
    waiting : ℕ
    waiting = q.tail - q.head

    sum : ℕ
    sum = sum_durations q waiting q.head 0

    between : ℕ → ℕ → ℕ
    between head_pts tail_pts =
        if leb head_pts tail_pts && not (head_pts == 0) then tail_pts - head_pts else sum

unfoldable pub is_full : Queue → Bool
is_full q =
    (ltb 0 q.cfg.max_buffers && leb q.cfg.max_buffers (size q))
    || (ltb 0 q.cfg.max_bytes && leb q.cfg.max_bytes q.approx_bytes)
    || (ltb 0 q.cfg.max_duration && leb q.cfg.max_duration (get_duration q))

pub data PushRound : Type 0 where
  stored : Queue → PushRound
  refused : ZstResult → PushRound
  waits reloads : PushRound

pub refuse_push : Queue → ℕ → PushRound
refuse_push q timeout_ms = elim q.cfg.mode [
  | async ↦ refused error
  | sync ↦ if timeout_ms == 0 then refused timeout else waits
]

unfoldable pub push_round : Queue → ℕ → Buffer → ℕ → PushRound
push_round q pos b timeout_ms = elim (push_look q pos) [
  | equal ↦
      if q.has_extra_limits && is_full q
      then refuse_push q timeout_ms
      else elim (cas_tail q pos) [ none ↦ reloads | some claimed ↦ stored (publish claimed pos b) ]
  | behind ↦ refuse_push q timeout_ms
  | ahead ↦ reloads
]

pub data PopRound : Type 0 where
  popped : Option Buffer → Queue → PopRound
  empty : ZstResult → PopRound
  sleeps retries : PopRound

pub pop_round : Queue → ℕ → ℕ → PopRound
pop_round q pos timeout_ms = elim (pop_look q pos) [
  | equal ↦ elim (cas_head q pos) [
    | none ↦ retries
    | some claimed ↦ popped (taken claimed pos) (vacate claimed pos)
  ]
  | behind ↦ if timeout_ms == 0 then empty timeout else sleeps
  | ahead ↦ retries
]

-- What is popped, in order, and the queue that is left.
pub flush : ℕ → Queue → List (Option Buffer) × Queue
flush zero q = ([], q)
flush (suc fuel) q = elim (pop_round q q.head 0) [
  | popped b q' ↦ let (bs, left) = flush fuel q' in (b ∷ bs, left)
  | empty e ↦ ([], q)
  | sleeps ↦ ([], q)
  | retries ↦ ([], q)
]

-- The buffers that are unreferenced before the ring and the queue are freed.
pub destroy : ℕ → Queue → List (Option Buffer)
destroy fuel q = (flush fuel q).0
