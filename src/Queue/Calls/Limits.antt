-- ===== src/Queue/Calls/Limits.antt =====
-- The limits on buffers and bytes that the pushes of one thread respect.
use native.Mathlib.Decide.{dec_lt}
use zstreamer.Common.{
  ℕ, zero, suc, ◌==◌, refl, ap, ◌+◌, ◌-◌, ◌^◌, ◌≤◌, ◌<◌, ◌≡◌, ◌⊎◌, inl, inr, true, false, ◌&&◌,
  Option, none, some, List, [], ◌∷◌, ◌++◌, length, arith, Bool-cases, if◌then◌else◌, ◌∙◌, sym,
}
use zstreamer.Types.{error, timeout, u64_mod, add64, sub64}
use zstreamer.Queue.{
  Queue, QueueConfig, Buffer, size, push_look, Diff, equal, behind, ahead, cas_tail, publish,
  vacate, with_slot, QueueMode, sync, async, create_with,
}
use zstreamer.Queue.Threads.{System, position_limit}
use zstreamer.Queue.Runs.{opened, opened-IsSound}
use zstreamer.Queue.Calls.{
  is_full, get_duration, push_round, stored, refused, waits, reloads, refuse_push,
}
use zstreamer.Queue.Calls.Alone.{
  IsQuiet, values, contents, after_pop, after_pop-IsQuiet, contents-after_pop, pop_answer,
}
use zstreamer.Queue.Calls.Pushes.{
  after_push, after_push-IsQuiet, contents-after_push, update_self, look_taken,
}

within_limits :
    (q : Queue)
    → is_full q ≡ false
    → ((q.cfg.max_buffers ≡ 0) ⊎ (size q < q.cfg.max_buffers))
      × ((q.cfg.max_bytes ≡ 0) ⊎ (q.approx_bytes < q.cfg.max_bytes))
      × ((q.cfg.max_duration ≡ 0) ⊎ (get_duration q < q.cfg.max_duration))
unfolding is_full
within_limits q e = ground arith

refuse_push-not_stored : (q r : Queue) (timeout_ms : ℕ) → refuse_push q timeout_ms ≡ stored r → ⊥
unfolding refuse_push
refuse_push-not_stored q r timeout_ms e = go q.cfg.mode e
  where
    go :
        (m : QueueMode)
        → (elim m [
          | async ↦ refused error
          | sync ↦ if timeout_ms == 0 then refused timeout else waits
        ])
          ≡ stored r
        → ⊥
    go async h = absurd (cc (h))
    go sync h = ground arith

-- What a call does not change.
record SameShape (q p : Queue) : Type 0 where
  same_cfg : q.cfg ≡ p.cfg
  same_capacity : q.capacity ≡ p.capacity
  same_flag : q.has_extra_limits ≡ p.has_extra_limits

further : {a b c : Queue} → SameShape a b → SameShape b c → SameShape a c
further x y = record {
  same_cfg = x.same_cfg ∙ y.same_cfg;
  same_capacity = x.same_capacity ∙ y.same_capacity;
  same_flag = x.same_flag ∙ y.same_flag;
}

stored-room :
    (q r : Queue) (pos : ℕ) (b : Buffer) (timeout_ms : ℕ)
    → push_round q pos b timeout_ms ≡ stored r
    → (q.has_extra_limits && is_full q) ≡ false
unfolding push_round
stored-room q r pos b timeout_ms e = elim (Bool-cases (q.has_extra_limits && is_full q)) [
  | inr f ↦ f
  | inl t ↦ absurd (go (push_look q pos) e t)
]
  where
    go :
        (d : Diff)
        → (elim d [
          | equal ↦
              if q.has_extra_limits && is_full q
              then refuse_push q timeout_ms
              else elim (cas_tail q pos) [
                | none ↦ reloads
                | some claimed ↦ stored (publish claimed pos b)
              ]
          | behind ↦ refuse_push q timeout_ms
          | ahead ↦ reloads
        ])
          ≡ stored r
        → (q.has_extra_limits && is_full q) ≡ true
        → ⊥
    go equal h t = refuse_push-not_stored q r timeout_ms (sym (rw t refl) ∙ h)
    go behind h t = refuse_push-not_stored q r timeout_ms h
    go ahead h t = absurd (cc (h))

-- The bytes of the buffers in a list.
unfoldable pub bytes : List (Option Buffer) → ℕ
bytes [] = 0
bytes (none ∷ bs) = bytes bs
bytes (some b ∷ bs) = b.size + bytes bs

bytes-append :
    (bs : List (Option Buffer)) (b : Buffer) → bytes (bs ++ (some b ∷ [])) ≡ bytes bs + b.size
unfolding bytes
bytes-append [] b = omega arith
bytes-append (none ∷ bs) b = bytes-append bs b
bytes-append (some a ∷ bs) b = omega (arith, bytes-append bs b)

-- A queue that one thread makes from a configuration and uses: the states between its calls, where
-- the buffers in the queue have fewer than 2^64 bytes together.
pub data Uses (cfg : QueueConfig) : System → Type 0 where
  opens : Uses cfg (opened cfg)
  pushes :
      (s : System) (b : Buffer) (timeout_ms : ℕ) (r : Queue)
      → Uses cfg s
      → s.queue.tail < position_limit
      → bytes (contents s) + b.size < u64_mod
      → push_round s.queue s.queue.tail b timeout_ms ≡ stored r
      → Uses cfg (after_push s b)
  pops : (s : System) → Uses cfg s → s.queue.head < s.queue.tail → Uses cfg (after_pop s)

-- A push that stores its buffer found a free slot.
stored-free :
    (s : System) (b : Buffer) (timeout_ms : ℕ) (r : Queue)
    → IsQuiet s
    → push_round s.queue s.queue.tail b timeout_ms ≡ stored r
    → s.queue.tail < s.queue.head + s.queue.capacity
unfolding push_round
stored-free s b timeout_ms r v e = elim (dec_lt s.queue.tail (s.queue.head + s.queue.capacity)) [
  | yes l ↦ l
  | no l ↦ absurd (go (look_taken s v (omega (arith, v.sound.window))) e)
]
  where
    go :
        push_look s.queue s.queue.tail ≡ behind
        → push_round s.queue s.queue.tail b timeout_ms ≡ stored r
        → ⊥
    go look h = refuse_push-not_stored s.queue r timeout_ms (sym (rw (look, push_round) refl) ∙ h)

opened-IsQuiet : (cfg : QueueConfig) → cfg.max_buffers ≤ 2 ^ 31 → IsQuiet (opened cfg)
unfolding create_with
opened-IsQuiet cfg m = record {
  sound = opened-IsSound cfg m;
  all_full = λ p lo hi. absurd (omega arith);
  all_done = λ p lo. absurd (omega arith);
}

Uses-IsQuiet : {cfg : QueueConfig} {s : System} → cfg.max_buffers ≤ 2 ^ 31 → Uses cfg s → IsQuiet s
Uses-IsQuiet {cfg} m opens = opened-IsQuiet cfg m
Uses-IsQuiet m (pushes s b timeout_ms r u l few e) =
    let v = Uses-IsQuiet m u in after_push-IsQuiet s b v (stored-free s b timeout_ms r v e) l
Uses-IsQuiet m (pops s u l) = after_pop-IsQuiet s (Uses-IsQuiet m u) l

after_push-SameShape : (s : System) (b : Buffer) → SameShape (after_push s b).queue s.queue
unfolding after_push publish with_slot
after_push-SameShape s b = record { same_cfg = refl; same_capacity = refl; same_flag = refl }

after_pop-SameShape : (s : System) → SameShape (after_pop s).queue s.queue
unfolding after_pop vacate with_slot
after_pop-SameShape s = record { same_cfg = refl; same_capacity = refl; same_flag = refl }

Uses-SameShape : {cfg : QueueConfig} {s : System} → Uses cfg s → SameShape s.queue (create_with cfg)
Uses-SameShape opens = record { same_cfg = refl; same_capacity = refl; same_flag = refl }
Uses-SameShape (pushes s b timeout_ms r u l few e) =
    further (after_push-SameShape s b) (Uses-SameShape u)
Uses-SameShape (pops s u l) = further (after_pop-SameShape s) (Uses-SameShape u)

Uses-cfg : {cfg : QueueConfig} {s : System} → Uses cfg s → s.queue.cfg ≡ cfg
unfolding create_with
Uses-cfg u = (Uses-SameShape u).same_cfg

length-values : (f : ℕ → Buffer) (n i : ℕ) → length (values f n i) ≡ n
unfolding values
length-values f zero i = refl
length-values f (suc n) i = ap suc (length-values f n (suc i))

after_push-bytes :
    (s : System) (b : Buffer)
    → (after_push s b).queue.approx_bytes ≡ add64 s.queue.approx_bytes b.size
unfolding after_push publish with_slot
after_push-bytes s b =
    ap (λ (x : Buffer). add64 s.queue.approx_bytes x.size) (update_self s.value s.queue.tail b)

after_pop-bytes :
    (s : System)
    → IsQuiet s
    → s.queue.head < s.queue.tail
    → (after_pop s).queue.approx_bytes ≡ sub64 s.queue.approx_bytes (s.value s.queue.head).size
unfolding after_pop vacate
after_pop-bytes s v l =
    ap
      (λ (o : Option Buffer). elim o [
        | none ↦ s.queue.approx_bytes
        | some b ↦ sub64 s.queue.approx_bytes b.size
      ])
      (pop_answer s v.sound (v.all_full s.queue.head (omega arith) l))

-- The counter of bytes is their number in the contents.
Uses-bytes :
    {cfg : QueueConfig} {s : System}
    → cfg.max_buffers ≤ 2 ^ 31
    → Uses cfg s
    → (s.queue.approx_bytes ≡ bytes (contents s)) × (bytes (contents s) < u64_mod)
unfolding create_with values bytes
Uses-bytes {cfg} m opens = (refl, omega arith)
Uses-bytes m (pushes s b timeout_ms r u l few e) =
    let now = bytes-append (contents s) b in
    let grown = ap bytes (contents-after_push s b (Uses-IsQuiet m u) l) in
    let (same, _) = Uses-bytes m u in
    (after_push-bytes s b ∙ omega (arith, same, now, grown), omega (arith, now, grown))
Uses-bytes m (pops s u l) =
    let v = Uses-IsQuiet m u in
    let split = ap bytes (contents-after_pop s v l) in
    let (same, few) = Uses-bytes m u in
    (after_pop-bytes s v l ∙ omega (arith, same, few, split), omega (arith, few, split))

-- Without extra limits the ring is no larger than the limit on buffers, and the others are not set.
no_extra :
    (cfg : QueueConfig)
    → (create_with cfg).has_extra_limits ≡ false
    → ((cfg.max_buffers ≡ 0) ⊎ ((create_with cfg).capacity ≤ cfg.max_buffers)) × (cfg.max_bytes ≡ 0)
unfolding create_with
no_extra cfg e = ground arith

-- The reported size is the number of claimed positions.
size_lem : (s : System) → IsQuiet s → size s.queue ≡ s.queue.tail - s.queue.head
unfolding size
size_lem s v = ground (arith, v.sound.order, v.sound.window, v.sound.bound, v.sound.shape)

-- In a queue that one thread makes and uses, a push stores a buffer only while the contents have fewer
-- buffers and fewer bytes than the configuration allows, where it sets these limits. At most 2^31
-- buffers are configured, and the buffers in the queue have fewer than 2^64 bytes together.
pub push_within :
    (cfg : QueueConfig) (s : System) (b : Buffer) (timeout_ms : ℕ) (r : Queue)
    → cfg.max_buffers ≤ 2 ^ 31
    → Uses cfg s
    → push_round s.queue s.queue.tail b timeout_ms ≡ stored r
    → ((cfg.max_buffers ≡ 0) ⊎ (length (contents s) < cfg.max_buffers))
      × ((cfg.max_bytes ≡ 0) ⊎ (bytes (contents s) < cfg.max_bytes))
push_within cfg s b timeout_ms r m u e =
    let v = Uses-IsQuiet m u in
    let shape = Uses-SameShape u in
    let free = stored-free s b timeout_ms r v e in
    let n = length-values s.value (s.queue.tail - s.queue.head) s.queue.head in
    let (same, _) = Uses-bytes m u in
    elim (Bool-cases s.queue.has_extra_limits) [
      | inl on ↦
          let w =
            within_limits s.queue
              (ground (arith, stored-room s.queue r s.queue.tail b timeout_ms e)) in
          let c = Uses-cfg u in
          let k = size_lem s v in
          ground (
            arith,
            w,
            k,
            n,
            same,
            ap (λ (x : QueueConfig). x.max_buffers) c,
            ap (λ (x : QueueConfig). x.max_bytes) c,
          )
      | inr off ↦
          let w = no_extra cfg (sym shape.same_flag ∙ off) in
          ground (arith, w, n, free, shape.same_capacity, v.sound.order)
    ]
