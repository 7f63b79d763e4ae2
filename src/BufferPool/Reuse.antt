-- ===== src/BufferPool/Reuse.antt =====
-- What a thread gets from `acquire`, and the memory behind it.
use zstreamer.Common.{
  ℕ, suc, ◌-◌, ◌≤◌, ◌<◌, ◌≡◌, refl, inl, inr, Bool, true, not, ◌&&◌, Option, some, List, [], ◌∷◌,
  arith, length, ltb, ◌==◌, if_intro, Bool-cases, sym, subst, ap, ◌∙◌,
}
use zstreamer.Types.{ZstResult}
use zstreamer.BufferPool.{
  Pool, Buffer, Watermark, low_mark, high_mark, Timeout, got, acquire, acquire_from, take_top,
  release, clear, store, shrink, adopt, set_config, set_config_resized, set_config_filled, fill,
}
use zstreamer.BufferPool.Config.{PoolConfig, normalise}

acquire_open :
    (p : Pool) (nonblock : Bool) (t : Timeout)
    → p.active ≡ true
    → acquire nonblock t p ≡ acquire_from p.buffers nonblock t p
unfolding acquire
acquire_open p nonblock t a =
    if_intro (λ x. x ≡ acquire_from p.buffers nonblock t p) (not p.active)
      (λ e. absurd (ground arith)) (λ _. refl)

acquire-store :
    (b : Buffer) (p : Pool) (nonblock : Bool) (t : Timeout)
    → p.active ≡ true
    → acquire nonblock t (store b p)
      ≡ got
          (record b { size = p.config.buffer_size; refcount = 1 })
          (low_mark p.config (length p.buffers))
          p
unfolding acquire_from take_top store
acquire-store b p nonblock t a = acquire_open (store b p) nonblock t a

-- A buffer that is released into an open pool with room is the next one to be acquired, with its
-- timestamps and flags cleared, one reference and the configured size, and the pool is then as it
-- was before. Each way the callback hears of the watermark that the count of idle buffers reaches.
pub acquire-release :
    (b : Buffer) (p q : Pool) (l : Option Watermark) (nonblock : Bool) (t : Timeout)
    → release b p ≡ some (q, l)
    → (l ≡ high_mark p.config (suc (length p.buffers)))
      × (acquire nonblock t q
          ≡ got
              (record b {
                pts = 0;
                dts = 0;
                duration = 0;
                flags = 0;
                size = p.config.buffer_size;
                refcount = 1;
              })
              (low_mark p.config (length p.buffers))
              p)
unfolding release clear
acquire-release b p q l nonblock t e =
    elim (Bool-cases (p.active && ltb (length p.buffers) p.config.max_buffers)) [
      | inl h ↦ (
        ground arith,
        subst
            (λ x.
              acquire nonblock t x
              ≡ got
                  (record b {
                    pts = 0;
                    dts = 0;
                    duration = 0;
                    flags = 0;
                    size = p.config.buffer_size;
                    refcount = 1;
                  })
                  (low_mark p.config (length p.buffers)) p)
            (ground arith) (acquire-store (clear b) p nonblock t (ground arith)),
      )
      | inr h ↦ absurd (ground arith)
    ]

shrink_nothing :
    (keep : ℕ) (bs : List Buffer) (p : Pool)
    → p.buffers ≡ bs
    → length bs ≤ keep
    → shrink keep bs p ≡ p
unfolding shrink
shrink_nothing keep [] p e h = λ i. record p { buffers = sym e i }
shrink_nothing keep (b ∷ rest) p e h =
    if_intro (λ (q : Pool). q ≡ p) (ltb keep (suc (length rest))) (λ f. absurd (ground arith))
      (λ _ i. record p { buffers = sym e i })

normalise_positive :
    (c : PoolConfig)
    → 0 < c.max_buffers
    → ((normalise c).max_buffers ≡ c.max_buffers)
      × ((normalise c).min_buffers ≤ c.min_buffers)
      × ((normalise c).buffer_size ≡ c.buffer_size)
unfolding normalise
normalise_positive c h = ground arith

set_config_resized_stores :
    (c : PoolConfig) (p : Pool)
    → c.min_buffers - p.total_allocated ≡ 0
    → (set_config_resized c true p).1 ≡ adopt c p
unfolding set_config_resized set_config_filled fill adopt
set_config_resized_stores c p none_missing =
    if_intro (λ (r : ZstResult × Pool). r.1 ≡ adopt c p)
      (not (c.max_buffers == p.config.max_buffers) && not true) (λ e. absurd (ground arith))
      (λ _.
        if_intro (λ (r : ZstResult × Pool). r.1 ≡ adopt c p) p.active (λ _. rw none_missing)
          (λ _. refl))

-- A configuration that frees nothing and wants no further buffer is only stored.
set_config_stores :
    (p : Pool) (c : PoolConfig)
    → 0 < c.max_buffers
    → length p.buffers ≤ c.max_buffers
    → c.min_buffers ≤ p.total_allocated
    → (set_config (some c) true p).1 ≡ adopt (normalise c) p
unfolding set_config
set_config_stores p c pos room few =
    let n = normalise_positive c pos in
    rw (shrink_nothing (normalise c).max_buffers p.buffers p refl (omega (arith, n.0)))
      (set_config_resized_stores (normalise c) p (omega (arith, n.1)))

acquire_top :
    (b : Buffer) (rest : List Buffer) (p : Pool) (nonblock : Bool) (t : Timeout)
    → p.active ≡ true
    → p.buffers ≡ b ∷ rest
    → acquire nonblock t p ≡ take_top b rest p
unfolding acquire_from
acquire_top b rest p nonblock t a e =
    acquire_open p nonblock t a ∙ ap (λ bs. acquire_from bs nonblock t p) e

-- Where a new configuration promises more bytes than the idle buffer on top was allocated with, and
-- changes nothing else that would free it or hide it, the next `acquire` hands out that buffer with
-- a size beyond its memory.
pub set_config_overruns :
    (p : Pool) (b : Buffer) (rest : List Buffer) (c : PoolConfig) (nonblock : Bool) (t : Timeout)
    → p.active ≡ true
    → p.buffers ≡ b ∷ rest
    → b.allocated < c.buffer_size
    → 0 < c.max_buffers
    → length p.buffers ≤ c.max_buffers
    → c.min_buffers ≤ p.total_allocated
    → (b' : Buffer) × (l : Option Watermark) × (q : Pool) × (acquire nonblock t
          (set_config (some c) true p).1
        ≡ got b' l q)
      × (b'.id ≡ b.id)
      × (b'.allocated < b'.size)
unfolding take_top adopt
set_config_overruns p b rest c nonblock t a e lt pos room few =
    let q = adopt (normalise c) p in
    (
      record b { size = (normalise c).buffer_size; refcount = 1 },
      low_mark (normalise c) (length rest),
      record q { buffers = rest },
      ap (acquire nonblock t) (set_config_stores p c pos room few)
          ∙ acquire_top b rest q nonblock t a e,
      refl,
      omega (arith, (normalise_positive c pos).2),
    )
