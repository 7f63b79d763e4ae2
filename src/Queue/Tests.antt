-- ===== src/Queue/Tests.antt =====
-- Runs of a queue of two buffers, alone and with a producer and a consumer interleaved.
use zstreamer.Common.{length, ℕ, ◌+◌, ◌^◌, ◌≤◌, ◌<◌, ◌≡◌, refl, ◌⊎◌, some, [], ◌∷◌, ◌++◌, arith}
use zstreamer.Types.{error}
use zstreamer.Queue.{
  QueueConfig, sync, async, Buffer, equal, behind, create_with, init_ring, push_look, pop_look,
  compare_sequence, slot, with_slot, ring_mask, cas_tail, cas_head, publish, taken, size,
}
use zstreamer.Queue.Capacity.{next_power_of_two, smear}
use zstreamer.Queue.Threads.{
  fresh, writing, full, reading, System, update, looks_free, looks_full, claims_tail, publishes,
  claims_head, Reach, here, next,
}
use zstreamer.Queue.Runs.{opened, opened-IsSound}
use zstreamer.Queue.Order.{delivers, tail_claims, head_claims}
use zstreamer.Queue.Looks.{pop_looks}
use zstreamer.Queue.Calls.{push_round, pop_round, flush, stored, popped, refused, is_full}
use zstreamer.Queue.Calls.Alone.{IsQuiet, values, contents, pop_first}
use zstreamer.Queue.Calls.Flushes.{flush_empties, Reach-trans}
use zstreamer.Queue.Calls.Limits.{Uses, opens, pushes, bytes, push_within}
use zstreamer.Queue.Calls.Pushes.{after_push, after_push-IsQuiet, push_last, push_refused}

abbrev two_slots : QueueConfig
two_slots = record { mode = async; max_buffers = 2; max_bytes = 0; max_duration = 0 }

abbrev item : Buffer
item = record { address = 77; pts = 5; duration = 1; size = 100 }

abbrev start : System
start = opened two_slots

abbrev seen : System
seen = record start { seen_free = 0 ∷ [] }

abbrev claimed : System
claimed = record seen {
  queue = record (start.queue) { tail = 1 };
  phase = update start.phase 0 writing;
  value = update start.value 0 item;
}

abbrev published : System
published = record claimed {
  queue = publish claimed.queue 0 item;
  phase = update claimed.phase 0 full;
}

abbrev found : System
found = record published { seen_full = 0 ∷ [] }

abbrev consuming : System
consuming = record found {
  queue = record (found.queue) { head = 1 };
  phase = update found.phase 0 reading;
}

seen-Reach : Reach start seen
unfolding create_with init_ring push_look compare_sequence slot ring_mask next_power_of_two smear
seen-Reach = next here (looks_free 0 (omega arith) refl)

claimed-Reach : Reach start claimed
unfolding create_with init_ring cas_tail next_power_of_two smear
claimed-Reach = next seen-Reach (claims_tail 0 item _ (omega arith) (omega arith) refl)

found-Reach : Reach claimed found
unfolding create_with init_ring publish with_slot pop_look compare_sequence slot ring_mask
    next_power_of_two smear
found-Reach = next (next here (publishes 0 refl)) (looks_full 0 (omega arith) refl)

consuming-Reach : Reach claimed consuming
unfolding create_with init_ring publish with_slot cas_head next_power_of_two smear
consuming-Reach = next found-Reach (claims_head 0 _ (omega arith) refl)

small : two_slots.max_buffers ≤ 2 ^ 31
small = omega arith

delivers_example : taken consuming.queue 0 ≡ some item
delivers_example =
    delivers two_slots claimed consuming 0 small claimed-Reach (omega arith) consuming-Reach refl

tail_claims_example :
    (0 ≡ seen.queue.tail)
    × (seen.phase 0 ≡ fresh)
    × (0 < seen.queue.head + seen.queue.capacity)
    × (1 ≡ 0 + 1)
unfolding create_with cas_tail
tail_claims_example =
    tail_claims two_slots seen 0 item (record (create_with two_slots) { tail = 1 }) small seen-Reach
      (omega arith) (omega arith) refl

head_claims_example : (0 ≡ found.queue.head) × (found.phase 0 ≡ full) × (1 ≡ 0 + 1)
unfolding create_with publish with_slot cas_head
head_claims_example =
    head_claims two_slots found 0 (record (found.queue) { head = 1 }) small
      (Reach-trans claimed-Reach found-Reach) (omega arith) refl

pop_looks_example :
    ((pop_look claimed.queue claimed.queue.head ≡ equal)
      × (claimed.phase claimed.queue.head ≡ full))
    ⊎ ((pop_look claimed.queue claimed.queue.head ≡ behind)
        × ((claimed.phase claimed.queue.head ≡ fresh)
            ⊎ (claimed.phase claimed.queue.head ≡ writing)))
pop_looks_example = pop_looks two_slots claimed small claimed-Reach

start-IsQuiet : IsQuiet start
unfolding create_with
start-IsQuiet = record {
  sound = opened-IsSound two_slots small;
  all_full = λ p lo hi. absurd (omega arith);
  all_done = λ p lo. absurd (omega arith);
}

-- One buffer pushed, and two.
abbrev pushed : System
pushed = after_push start item

abbrev filled : System
filled = after_push pushed item

pushed-IsQuiet : IsQuiet pushed
unfolding create_with next_power_of_two smear
pushed-IsQuiet = after_push-IsQuiet start item start-IsQuiet (omega arith) (omega arith)

filled-IsQuiet : IsQuiet filled
unfolding create_with next_power_of_two smear after_push publish with_slot
filled-IsQuiet = after_push-IsQuiet pushed item pushed-IsQuiet (omega arith) (omega arith)

push_last_example :
    (t : System) × Reach start t
    × IsQuiet t
    × (push_round start.queue start.queue.tail item 0 ≡ stored t.queue)
    × (contents t ≡ contents start ++ (some item ∷ []))
unfolding create_with next_power_of_two smear
push_last_example = push_last start item 0 start-IsQuiet (omega arith) refl (omega arith)

push_refused_example : push_round filled.queue filled.queue.tail item 5 ≡ refused error
unfolding create_with next_power_of_two smear after_push publish with_slot
push_refused_example = push_refused filled item 5 filled-IsQuiet refl

pop_first_example :
    (t : System) × Reach pushed t
    × IsQuiet t
    × (pop_round pushed.queue pushed.queue.head 5
        ≡ popped (some (pushed.value pushed.queue.head)) t.queue)
    × (contents pushed ≡ some (pushed.value pushed.queue.head) ∷ contents t)
unfolding create_with next_power_of_two smear after_push publish with_slot
pop_first_example = pop_first pushed 5 pushed-IsQuiet (omega arith)

flush_empties_example :
    (t : System) × Reach filled t
    × (flush 4 filled.queue ≡ (contents filled, t.queue))
    × (t.queue.head ≡ t.queue.tail)
unfolding create_with next_power_of_two smear after_push publish with_slot
flush_empties_example = flush_empties filled 2 4 filled-IsQuiet refl (omega arith)

abbrev five : ℕ
five = 5

-- Three buffers and fewer than 1000 bytes, in a ring of four.
abbrev three : QueueConfig
three = record { mode = sync; max_buffers = 3; max_bytes = 1000; max_duration = 0 }

abbrev one_of_three : System
one_of_three = after_push (opened three) item

first_stored : push_round (opened three).queue 0 item 0 ≡ stored one_of_three.queue
unfolding create_with next_power_of_two smear init_ring push_round push_look compare_sequence slot
    ring_mask cas_tail is_full size after_push
first_stored = refl

three-Uses : Uses three one_of_three
unfolding create_with next_power_of_two smear values bytes
three-Uses =
    pushes (opened three) item 0 one_of_three.queue opens (omega arith) (omega arith) first_stored

second_stored :
    push_round one_of_three.queue one_of_three.queue.tail item 0
    ≡ stored (after_push one_of_three item).queue
unfolding create_with next_power_of_two smear init_ring push_round push_look compare_sequence slot
    ring_mask cas_tail is_full size after_push publish with_slot
second_stored = refl

push_within_example :
    ((three.max_buffers ≡ 0) ⊎ (length (contents one_of_three) < three.max_buffers))
    × ((three.max_bytes ≡ 0) ⊎ (bytes (contents one_of_three) < three.max_bytes))
push_within_example =
    push_within three one_of_three item 0 (after_push one_of_three item).queue (omega arith)
      three-Uses second_stored
