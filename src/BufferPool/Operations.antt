-- ===== src/BufferPool/Operations.antt =====
-- Every operation of the pool keeps its invariant.
use zstreamer.Common.{
  ℕ, ◌-◌, ◌≤◌, ◌<◌, ◌≡◌, refl, subst, inl, inr, Bool, true, false, not, Option, none, some, List,
  [], ◌∷◌, arith, ltb, ◌==◌, length, nil_of_length, Bool-cases, if_intro, ◌&&◌,
}
use zstreamer.Types.{u32_mod, ZstResult}
use zstreamer.BufferPool.{
  Pool, Buffer, Heap, preallocate, create, Watermark, Timeout, now, forever, limited, Acquired, got,
  failed, blocked, take_top, no_buffer, acquire_empty, acquire_from, acquire, adopt,
  set_config_resized, clear, release, release_destroyed, shrink, destroy, set_config,
  set_config_filled, prefill, drain,
}
use zstreamer.BufferPool.Config.{PoolConfig, IsUsable, normalise, normalise-IsUsable}
use zstreamer.BufferPool.Bounds.{Inv, store-Inv, free_buffer-Inv, pop-Inv, create_buffer-cases}
use zstreamer.BufferPool.Loops.{
  length-shrink, shrink-active, fill-Inv, preallocate-Inv, shrink-Inv, drain_idle-Inv,
}

pub destroy-active : (p : Pool) → (destroy p).0.active ≡ false
unfolding destroy
destroy-active p = rw (shrink-active 0 p.buffers p false)

module _ (out doomed : List ℕ) where
  -- What an acquisition leaves: the buffer that it got is checked out.
  abbrev pub AcquiredInv : Acquired → Type 0
  AcquiredInv (got b l q) = Inv q (b.id ∷ out) doomed
  AcquiredInv (failed r q) = Inv q out doomed
  AcquiredInv (blocked q) = Inv q out doomed

  no_buffer-Inv :
      (nonblock : Bool) (t : Timeout) (p : Pool)
      → Inv p out doomed
      → AcquiredInv (no_buffer nonblock t p)
  unfolding no_buffer
  no_buffer-Inv true t p v = v
  no_buffer-Inv false now p v = v
  no_buffer-Inv false forever p v = v
  no_buffer-Inv false limited p v = v

  acquire_empty-Inv :
      (nonblock : Bool) (t : Timeout) (p : Pool)
      → Inv p out doomed
      → AcquiredInv (acquire_empty nonblock t p)
  unfolding acquire_empty
  acquire_empty-Inv nonblock t p v =
      if_intro AcquiredInv (ltb p.total_allocated p.config.max_buffers)
        (λ e. elim (create_buffer-cases p out doomed v (ground arith)) [
          | inl (f, i, s, g, n) ↦ rw f (no_buffer-Inv nonblock t _ i)
          | inr (b, f, i, s, g, n) ↦ rw f i
        ])
        (λ e. no_buffer-Inv nonblock t p v)

  take_top-Inv :
      (b : Buffer) (rest : List Buffer) (p : Pool)
      → p.buffers ≡ b ∷ rest
      → Inv p out doomed
      → AcquiredInv (take_top b rest p)
  unfolding take_top
  take_top-Inv b rest p e v = pop-Inv b rest p out doomed e v

  acquire_from-Inv :
      (bs : List Buffer) (nonblock : Bool) (t : Timeout) (p : Pool)
      → p.buffers ≡ bs
      → Inv p out doomed
      → AcquiredInv (acquire_from bs nonblock t p)
  unfolding acquire_from
  acquire_from-Inv [] nonblock t p e v = acquire_empty-Inv nonblock t p v
  acquire_from-Inv (b ∷ rest) nonblock t p e v = take_top-Inv b rest p e v

  pub acquire-Inv :
      (nonblock : Bool) (t : Timeout) (p : Pool)
      → Inv p out doomed
      → AcquiredInv (acquire nonblock t p)
  unfolding acquire
  acquire-Inv nonblock t p v =
      if_intro AcquiredInv (not p.active) (λ _. v)
        (λ _. acquire_from-Inv p.buffers nonblock t p refl v)

  pub release-Inv :
      (b : Buffer) (p q : Pool) (l : Option Watermark)
      → Inv p (b.id ∷ out) doomed
      → release b p ≡ some (q, l)
      → Inv q out doomed
  unfolding release clear
  release-Inv b p q l v e =
      elim (Bool-cases (p.active && ltb (length p.buffers) p.config.max_buffers)) [
        | inl h ↦
            subst (λ x. Inv x out doomed) (ground arith)
              (store-Inv (clear b) p out doomed v (ground arith) (ground arith))
        | inr h ↦ absurd (ground arith)
      ]

  set_config_filled-Inv : (p : Pool) → Inv p out doomed → Inv (set_config_filled p).1 out doomed
  unfolding set_config_filled
  set_config_filled-Inv p v =
      if_intro (λ (r : ZstResult × Pool). Inv r.1 out doomed) p.active
        (λ a.
          fill-Inv out doomed (p.config.min_buffers - p.total_allocated) p v a
            (omega (arith, v.usable.within)))
        (λ _. v)

  adopt-Inv :
      (c : PoolConfig) (p : Pool)
      → Inv p out doomed
      → IsUsable c
      → length p.buffers ≤ c.max_buffers
      → Inv (adopt c p) out doomed
  unfolding adopt
  adopt-Inv c p v u h = record {
    one_place = v.one_place;
    total = v.total;
    word = v.word;
    room = ground arith;
    limit = ground (arith, v.limit);
    usable = u;
    closed = v.closed;
  }

  set_config_resized-Inv :
      (c : PoolConfig) (served : Bool) (p : Pool)
      → Inv p out doomed
      → IsUsable c
      → length p.buffers ≤ c.max_buffers
      → Inv (set_config_resized c served p).1 out doomed
  unfolding set_config_resized
  set_config_resized-Inv c served p v u h =
      if_intro (λ (r : ZstResult × Pool). Inv r.1 out doomed)
        (not (c.max_buffers == p.config.max_buffers) && not served) (λ _. v)
        (λ _. set_config_filled-Inv (adopt c p) (adopt-Inv c p v u h))

  pub set_config-Inv :
      (config : Option PoolConfig) (served : Bool) (p : Pool)
      → ((c : PoolConfig) → config ≡ some c → c.max_buffers < u32_mod)
      → Inv p out doomed
      → Inv (set_config config served p).1 out doomed
  unfolding set_config
  set_config-Inv none served p word v = v
  set_config-Inv (some c) served p word v =
      set_config_resized-Inv (normalise c) served _ (shrink-Inv out doomed _ p.buffers p v)
        (normalise-IsUsable c (word c refl)) (length-shrink (normalise c).max_buffers p.buffers p)

  pub prefill-Inv : (p : Pool) → Inv p out doomed → Inv (prefill p) out doomed
  unfolding prefill
  prefill-Inv p v =
      if_intro (λ q. Inv q out doomed) p.active
        (λ a. fill-Inv out doomed (p.config.max_buffers - p.total_allocated) p v a (omega arith))
        (λ _. v)

  pub drain-Inv : (p : Pool) → Inv p out doomed → Inv (drain p) out doomed
  unfolding drain
  drain-Inv p v =
      if_intro (λ q. Inv q out doomed) p.active (λ _. drain_idle-Inv out doomed p.buffers p v)
        (λ _. v)

  pub destroy-Inv : (p : Pool) → Inv p out doomed → Inv (destroy p).0 out doomed
  unfolding destroy
  destroy-Inv p v = rw (shrink-active 0 p.buffers p false) (
      closed-Inv (shrink 0 p.buffers p) (shrink-Inv out doomed 0 p.buffers p v)
        (length-shrink 0 p.buffers p))
    where
      closed-Inv :
          (q : Pool)
          → Inv q out doomed
          → length q.buffers ≤ 0
          → Inv (record q { active = false }) out doomed
      closed-Inv q i h = record {
        one_place = i.one_place;
        total = i.total;
        word = i.word;
        room = i.room;
        limit = i.limit;
        usable = i.usable;
        closed = λ _. nil_of_length q.buffers h;
      }

  pub release_destroyed-Inv :
      (i : ℕ) (p : Pool) → Inv p out (i ∷ doomed) → Inv (release_destroyed i p).0 out doomed
  unfolding release_destroyed
  release_destroyed-Inv i p v = free_buffer-Inv i p out doomed v

pub create-Inv :
    (has_allocator : Bool) (c : PoolConfig) (h : Heap) {p : Pool}
    → c.max_buffers < u32_mod
    → h.next_id ≡ 0
    → h.freed ≡ []
    → create has_allocator (some c) true true h ≡ some p
    → Inv p [] []
unfolding create
create-Inv has_allocator c h {p} word n f e = subst (λ q. Inv q [] []) (ground arith) filled
  where
    d : PoolConfig
    d = normalise c

    usable : IsUsable d
    usable = normalise-IsUsable c word

    empty : Pool
    empty = record {
      has_allocator = has_allocator;
      config = d;
      buffers = [];
      capacity = d.max_buffers;
      total_allocated = 0;
      generation = 1;
      active = true;
      heap = h;
    }

    filled : Inv (preallocate d.min_buffers empty) [] []
    filled =
        preallocate-Inv [] [] d.min_buffers empty
          (record {
            one_place = λ i. ground (arith, f);
            total = refl;
            word = omega arith;
            room = omega arith;
            limit = refl;
            usable = usable;
            closed = λ _. refl;
          })
          refl (omega (arith, usable.within))
