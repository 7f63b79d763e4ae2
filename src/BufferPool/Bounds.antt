-- ===== src/BufferPool/Bounds.antt =====
-- The invariant of a pool, and how the steps that the operations are made of keep it.
use zstreamer.Common.{
  ℕ, suc, ◌+◌, ◌≤◌, ◌<◌, ◌≡◌, refl, ◌⊎◌, inl, inr, true, false, Option, none, some, List, [], ◌∷◌,
  arith, ltb, if◌then◌else◌, length, count, erase, count-erase, length-erase, Bool-cases,
}
use zstreamer.Types.{u32_mod}
use zstreamer.BufferPool.{
  Pool, Buffer, create_with_allocator, create_buffer, new_buffer, store, free_buffer,
}
use zstreamer.BufferPool.Config.{IsUsable}

abbrev pub ids : List Buffer → List ℕ
ids [] = []
ids (b ∷ bs) = b.id ∷ ids bs

-- Where the buffer at the address `i` is: how often it is idle, checked out, about to be
-- destroyed, and freed.
abbrev pub places : ℕ → Pool → List ℕ → List ℕ → ℕ
places i p out doomed =
    count i (ids p.buffers) + count i out + count i doomed + count i p.heap.freed

-- `out` lists the buffers that are checked out, and `doomed` those that `release` found no place
-- for and has not yet destroyed.
pub record Inv (p : Pool) (out doomed : List ℕ) : Type 0 where
  pub one_place : (i : ℕ) → places i p out doomed ≡ (if ltb i p.heap.next_id then 1 else 0)
  pub total : p.total_allocated ≡ length p.buffers + length out + length doomed
  pub word : p.total_allocated < u32_mod
  pub room : length p.buffers ≤ p.capacity
  pub limit : p.capacity ≡ p.config.max_buffers
  pub usable : IsUsable p.config
  pub closed : p.active ≡ false → p.buffers ≡ []

-- What an operation on the buffers leaves alone.
pub record Same (p q : Pool) : Type 0 where
  pub config : q.config ≡ p.config
  pub capacity : q.capacity ≡ p.capacity
  pub active : q.active ≡ p.active

-- A creation makes a buffer that is nowhere yet, or nothing.
pub data Created (p : Pool) (out doomed : List ℕ) : Option Buffer × Pool → Type 0 where
  none_made :
      (q : Pool)
      → Inv q out doomed
      → Same p q
      → q.buffers ≡ p.buffers
      → q.total_allocated ≡ p.total_allocated
      → Created p out doomed (none, q)
  made :
      (b : Buffer) (q : Pool)
      → Inv q (b.id ∷ out) doomed
      → Same p q
      → q.buffers ≡ p.buffers
      → q.total_allocated ≡ suc p.total_allocated
      → Created p out doomed (some b, q)

create_buffer-Created :
    (p : Pool) (out doomed : List ℕ)
    → Inv p out doomed
    → p.total_allocated < p.config.max_buffers
    → Created p out doomed (create_buffer p)
unfolding create_buffer create_with_allocator new_buffer
create_buffer-Created p out doomed v h = elim (Bool-cases (p.heap.serves p.heap.attempts)) [
  | inl e ↦ rw e (
      made _ _
        (record {
          one_place = λ i. ground (arith, v.one_place i);
          total = omega (arith, v.total);
          word = omega arith;
          room = v.room;
          limit = v.limit;
          usable = v.usable;
          closed = v.closed;
        })
        (record { config = refl; capacity = refl; active = refl }) refl (omega arith))
  | inr e ↦ rw e (
      none_made _
        (record {
          one_place = v.one_place;
          total = v.total;
          word = v.word;
          room = v.room;
          limit = v.limit;
          usable = v.usable;
          closed = v.closed;
        })
        (record { config = refl; capacity = refl; active = refl }) refl refl)
]

pub store-Inv :
    (b : Buffer) (p : Pool) (out doomed : List ℕ)
    → Inv p (b.id ∷ out) doomed
    → length p.buffers < p.config.max_buffers
    → p.active ≡ true
    → Inv (store b p) out doomed
unfolding store
store-Inv b p out doomed v h a = record {
  one_place = λ i. ground (arith, v.one_place i);
  total = omega (arith, v.total);
  word = v.word;
  room = omega arith;
  limit = v.limit;
  usable = v.usable;
  closed = λ c. cc;
}

pub free_buffer-Inv :
    (i : ℕ) (p : Pool) (out doomed : List ℕ)
    → Inv p out (i ∷ doomed)
    → Inv (free_buffer i p) out doomed
unfolding free_buffer
free_buffer-Inv i p out doomed v = record {
  one_place = λ j. ground (arith, v.one_place j);
  total = omega (arith, v.total, v.word);
  word = omega arith;
  room = v.room;
  limit = v.limit;
  usable = v.usable;
  closed = v.closed;
}

-- The top buffer is taken, to be handed out or to be destroyed.
pub pop-Inv :
    (b : Buffer) (rest : List Buffer) (p : Pool) (out doomed : List ℕ)
    → p.buffers ≡ b ∷ rest
    → Inv p out doomed
    → Inv (record p { buffers = rest }) (b.id ∷ out) doomed
pop-Inv b rest p out doomed e v = record {
  one_place = λ i. ground (arith, v.one_place i);
  total = ground (arith, v.total);
  word = v.word;
  room = ground (arith, v.room);
  limit = v.limit;
  usable = v.usable;
  closed = λ c. ground (arith, v.closed c);
}

-- A buffer that is checked out is doomed, if `release` finds no place for it.
pub doom-Inv :
    (i : ℕ) (p : Pool) (out doomed : List ℕ) → Inv p (i ∷ out) doomed → Inv p out (i ∷ doomed)
doom-Inv i p out doomed v = record {
  one_place = λ j. ground (arith, v.one_place j);
  total = omega (arith, v.total);
  word = v.word;
  room = v.room;
  limit = v.limit;
  usable = v.usable;
  closed = v.closed;
}

-- The order of the lists does not matter.
pub erase-Inv :
    (i : ℕ) (p : Pool) (out doomed : List ℕ)
    → 0 < count i out
    → Inv p out doomed
    → Inv p (i ∷ erase i out) doomed
erase-Inv i p out doomed h v = record {
  one_place = λ j. ground (arith, v.one_place j, count-erase j i out);
  total = omega (arith, v.total, length-erase i out);
  word = v.word;
  room = v.room;
  limit = v.limit;
  usable = v.usable;
  closed = v.closed;
}

pub erase_doomed-Inv :
    (i : ℕ) (p : Pool) (out doomed : List ℕ)
    → 0 < count i doomed
    → Inv p out doomed
    → Inv p out (i ∷ erase i doomed)
erase_doomed-Inv i p out doomed h v = record {
  one_place = λ j. ground (arith, v.one_place j, count-erase j i doomed);
  total = omega (arith, v.total, length-erase i doomed);
  word = v.word;
  room = v.room;
  limit = v.limit;
  usable = v.usable;
  closed = v.closed;
}

-- The two outcomes of a creation.
pub create_buffer-cases :
    (p : Pool) (out doomed : List ℕ)
    → Inv p out doomed
    → p.total_allocated < p.config.max_buffers
    → (((create_buffer p).0 ≡ none)
        × Inv (create_buffer p).1 out doomed
        × Same p (create_buffer p).1
        × ((create_buffer p).1.buffers ≡ p.buffers)
        × ((create_buffer p).1.total_allocated ≡ p.total_allocated))
      ⊎ ((b : Buffer) × ((create_buffer p).0 ≡ some b)
          × Inv (create_buffer p).1 (b.id ∷ out) doomed
          × Same p (create_buffer p).1
          × ((create_buffer p).1.buffers ≡ p.buffers)
          × ((create_buffer p).1.total_allocated ≡ suc p.total_allocated))
create_buffer-cases p out doomed v h = go (create_buffer p) (create_buffer-Created p out doomed v h)
  where
    go :
        (o : Option Buffer × Pool)
        → Created p out doomed o
        → ((o.0 ≡ none)
            × Inv o.1 out doomed
            × Same p o.1
            × (o.1.buffers ≡ p.buffers)
            × (o.1.total_allocated ≡ p.total_allocated))
          ⊎ ((b : Buffer) × (o.0 ≡ some b)
              × Inv o.1 (b.id ∷ out) doomed
              × Same p o.1
              × (o.1.buffers ≡ p.buffers)
              × (o.1.total_allocated ≡ suc p.total_allocated))
    go o (none_made q i s e t) = inl (refl, i, s, e, t)
    go o (made b q i s e t) = inr (b, refl, i, s, e, t)
