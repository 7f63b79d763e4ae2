-- ===== src/BufferPool/Loops.antt =====
-- The loops of the pool, which create or free buffers, keep its invariant.
use zstreamer.Common.{
  ℕ, zero, suc, ◌-◌, ◌≤◌, ◌<◌, ◌≡◌, refl, ap, ◌∙◌, inl, inr, Bool, true, List, [], ◌∷◌, arith, ltb,
  length, Bool-cases,
}
use zstreamer.BufferPool.{
  Pool, Buffer, create_buffer, store, free_buffer, preallocate, shrink, fill, drain_idle,
}
use zstreamer.BufferPool.Config.{PoolConfig}
use zstreamer.BufferPool.Bounds.{
  Inv, Same, store-Inv, free_buffer-Inv, pop-Inv, doom-Inv, create_buffer-cases,
}

-- A field of the configuration that a creation left alone.
Same-max : (p q : Pool) → Same p q → q.config.max_buffers ≡ p.config.max_buffers
Same-max p q s = ap (λ (c : PoolConfig). c.max_buffers) s.config

pub length-shrink :
    (keep : ℕ) (bs : List Buffer) (p : Pool) → length (shrink keep bs p).buffers ≤ keep
unfolding shrink
length-shrink keep [] p = omega arith
length-shrink keep (b ∷ rest) p = ground (arith, length-shrink keep rest (free_buffer b.id p))

pub shrink-active :
    (keep : ℕ) (bs : List Buffer) (p : Pool) (a : Bool)
    → shrink keep bs (record p { active = a }) ≡ record (shrink keep bs p) { active = a }
unfolding shrink free_buffer
shrink-active keep [] p a = refl
shrink-active keep (b ∷ rest) p a = elim (Bool-cases (ltb keep (suc (length rest)))) [
  | inl e ↦ rw e (shrink-active keep rest (free_buffer b.id p) a)
  | inr e ↦ rw e
]

module _ (out doomed : List ℕ) where
  stored-Inv :
      (b : Buffer) (p q : Pool)
      → Inv q (b.id ∷ out) doomed
      → Same p q
      → q.total_allocated ≡ suc p.total_allocated
      → p.active ≡ true
      → p.total_allocated < p.config.max_buffers
      → Inv (store b q) out doomed
  stored-Inv b p q i s t a h =
      store-Inv b q out doomed i (omega (arith, i.total, Same-max p q s)) (s.active ∙ a)

  pub fill-Inv :
      (n : ℕ) (p : Pool)
      → Inv p out doomed
      → p.active ≡ true
      → n ≤ p.config.max_buffers - p.total_allocated
      → Inv (fill n p).0 out doomed
  unfolding fill store
  fill-Inv zero p v a h = v
  fill-Inv (suc n) p v a h = elim (create_buffer-cases p out doomed v (omega arith)) [
    | inl (e, i, s, f, t) ↦ rw (e, fill) i
    | inr (b, e, i, s, f, t) ↦
        let q = (create_buffer p).1 in
        rw (e, fill)
          (fill-Inv n (store b q) (stored-Inv b p q i s t a (omega arith)) (s.active ∙ a)
            (omega (arith, Same-max p q s, t)))
  ]

  pub preallocate-Inv :
      (n : ℕ) (p : Pool)
      → Inv p out doomed
      → p.active ≡ true
      → n ≤ p.config.max_buffers - p.total_allocated
      → Inv (preallocate n p) out doomed
  unfolding preallocate store
  preallocate-Inv zero p v a h = v
  preallocate-Inv (suc n) p v a h = elim (create_buffer-cases p out doomed v (omega arith)) [
    | inl (e, i, s, f, t) ↦
        let q = (create_buffer p).1 in
        rw (e, preallocate)
          (preallocate-Inv n q i (s.active ∙ a) (omega (arith, Same-max p q s, t)))
    | inr (b, e, i, s, f, t) ↦
        let q = (create_buffer p).1 in
        rw (e, preallocate)
          (preallocate-Inv n (store b q) (stored-Inv b p q i s t a (omega arith)) (s.active ∙ a)
            (omega (arith, Same-max p q s, t)))
  ]

  pub shrink-Inv :
      (keep : ℕ) (bs : List Buffer) (p : Pool)
      → Inv (record p { buffers = bs }) out doomed
      → Inv (shrink keep bs p) out doomed
  unfolding shrink free_buffer
  shrink-Inv keep [] p v = v
  shrink-Inv keep (b ∷ rest) p v = elim (Bool-cases (ltb keep (suc (length rest)))) [
    | inl e ↦ rw e (
        shrink-Inv keep rest (free_buffer b.id p) (
          free_buffer-Inv b.id _ out doomed
            (doom-Inv b.id _ out doomed (pop-Inv b rest _ out doomed refl v))))
    | inr e ↦ rw e v
  ]

  pub drain_idle-Inv :
      (bs : List Buffer) (p : Pool)
      → Inv (record p { buffers = bs }) out doomed
      → Inv (drain_idle bs p) out doomed
  unfolding drain_idle free_buffer
  drain_idle-Inv [] p v = v
  drain_idle-Inv (b ∷ rest) p v = elim (Bool-cases (ltb p.config.min_buffers p.total_allocated)) [
    | inl e ↦ rw e (
        drain_idle-Inv rest (free_buffer b.id p) (
          free_buffer-Inv b.id _ out doomed
            (doom-Inv b.id _ out doomed (pop-Inv b rest _ out doomed refl v))))
    | inr e ↦ rw e v
  ]
