-- ===== src/Redundancy/Window.antt =====
-- The history of 4096 flags is a window on all positions that were passed on.
use native.Mathlib.Decide.{dec_lt, ℕ_discrete}
use zstreamer.Common.{
  ℕ, zero, suc, ◌+◌, ◌%◌, ◌^◌, ◌≤◌, ◌<◌, ◌≡◌, refl, sym, ap, ◌∙◌, Bool, true, false, ◌==◌,
  Bool-cases, arith, inl, inr, if_intro,
}
use zstreamer.Redundancy.{Demux, history_size, mark, clear_from}
use zstreamer.Redundancy.Reference.{note}

pub mark_self : (seen : ℕ → Bool) (i j : ℕ) (b : Bool) → j ≡ i % 4096 → mark seen i b j ≡ b
unfolding mark history_size
mark_self seen i j b e = ground arith

mark_other : (seen : ℕ → Bool) (i j : ℕ) (b : Bool) → (j ≡ i % 4096 → ⊥) → mark seen i b j ≡ seen j
unfolding mark history_size
mark_other seen i j b ne =
    if_intro (λ (r : Bool). r ≡ seen j) (j == i % 4096) (λ e. absurd (ne (ground arith)))
      (λ _. refl)

pub clear_kept :
    (fuel n q p : ℕ) (seen : ℕ → Bool)
    → p < q
    → q + n ≤ p + 4096
    → clear_from fuel (q % 2 ^ 16) ((q + n) % 2 ^ 16) seen (p % 4096) ≡ seen (p % 4096)
unfolding clear_from
clear_kept zero n q p seen h k = refl
clear_kept (suc fuel) zero q p seen h k =
    let e : (q + 0) % 2 ^ 16 ≡ q % 2 ^ 16 = omega arith in ground arith
clear_kept (suc fuel) (suc n) q p seen h k =
    elim (Bool-cases (q % 2 ^ 16 == (q + suc n) % 2 ^ 16)) [
      | inl t ↦ rw t refl
      | inr f ↦
          let next : (q % 2 ^ 16 + 1) % 2 ^ 16 ≡ (q + 1) % 2 ^ 16 = omega arith in
          let end : (q + suc n) % 2 ^ 16 ≡ (q + 1 + n) % 2 ^ 16 = omega arith in
          rw f (
            rw next (
              rw end (
                clear_kept fuel n (q + 1) p (mark seen (q % 2 ^ 16) false) (omega arith)
                  (omega arith)
                ∙ mark_other seen (q % 2 ^ 16) (p % 4096) false (λ e. omega arith))))
    ]

pub clear_cleared :
    (fuel n q p : ℕ) (seen : ℕ → Bool)
    → n < fuel
    → n < 4096
    → q ≤ p
    → p < q + n
    → clear_from fuel (q % 2 ^ 16) ((q + n) % 2 ^ 16) seen (p % 4096) ≡ false
unfolding clear_from
clear_cleared zero n q p seen f w h k = absurd (omega arith)
clear_cleared (suc fuel) zero q p seen f w h k = absurd (omega arith)
clear_cleared (suc fuel) (suc n) q p seen f w h k =
    let marked : ℕ → Bool = mark seen (q % 2 ^ 16) false in
    let differs : (q % 2 ^ 16 == (q + suc n) % 2 ^ 16) ≡ false = ground arith in
    let next : (q % 2 ^ 16 + 1) % 2 ^ 16 ≡ (q + 1) % 2 ^ 16 = omega arith in
    let end : (q + suc n) % 2 ^ 16 ≡ (q + 1 + n) % 2 ^ 16 = omega arith in
    rw differs (
      rw next (
        rw end (elim (dec_lt q p) [
          | yes b ↦
              clear_cleared fuel n (q + 1) p marked (omega arith) (omega arith) (omega arith)
                (omega arith)
          | no b ↦
              clear_kept fuel n (q + 1) p marked (omega arith) (omega arith)
              ∙ mark_self seen (q % 2 ^ 16) (p % 4096) false (omega (arith, b))
        ])))

-- The element has got a packet, and `h` is the highest position so far.
pub record Tracks (s : Demux) (h : ℕ) (passed : ℕ → Bool) : Type 0 where
  pub started : s.initialized ≡ true
  pub top : s.highest_seq ≡ h % 2 ^ 16
  pub window : (p : ℕ) → p ≤ h → h < p + 4096 → s.seen_history (p % 4096) ≡ passed p
  pub above : (p : ℕ) → h < p → passed p ≡ false

pub note_self : (passed : ℕ → Bool) (p : ℕ) → note passed p p ≡ true
unfolding note
note_self passed p = ground arith

pub note_other : (passed : ℕ → Bool) (p q : ℕ) → (q ≡ p → ⊥) → note passed p q ≡ passed q
unfolding note
note_other passed p q ne =
    if_intro (λ (r : Bool). r ≡ passed q) (q == p) (λ e. absurd (ne (ground arith))) (λ _. refl)

-- The history and the positions agree at `q` after both have got `p`, if they did before.
pub mark-note :
    (seen passed : ℕ → Bool) (p q : ℕ)
    → q < p + 4096
    → p < q + 4096
    → ((q ≡ p → ⊥) → seen (q % 4096) ≡ passed q)
    → mark seen (p % 2 ^ 16) true (q % 4096) ≡ note passed p q
mark-note seen passed p q a b agree = elim (ℕ_discrete q p) [
  | yes e ↦
      mark_self seen (p % 2 ^ 16) (q % 4096) true (omega (arith, e))
      ∙ sym (ap (note passed p) e ∙ note_self passed p)
  | no ne ↦
      mark_other seen (p % 2 ^ 16) (q % 4096) true (λ e. ne (omega (arith, e)))
      ∙ agree ne
      ∙ sym (note_other passed p q ne)
]
