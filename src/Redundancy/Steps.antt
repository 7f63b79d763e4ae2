-- ===== src/Redundancy/Steps.antt =====
-- The element and the reference treat one packet alike.
use native.Mathlib.Decide.{dec_lt, ℕ_discrete}
use zstreamer.Common.{
  ℕ, ◌+◌, ◌-◌, ◌%◌, ◌^◌, ◌≤◌, ◌<◌, ◌≡◌, ◌⊎◌, refl, sym, ap, ◌∙◌, Bool, true, false, not, ◌&&◌, ◌||◌,
  Option, none, some, ltb, leb, ◌==◌, if◌then◌else◌, arith, inl, inr, if_intro, lt→ltb, le→ltb,
}
use zstreamer.Redundancy.{
  Demux, history_size, mark, nothing_seen, clear_from, difference, advanced, admit,
}
use zstreamer.Redundancy.Reference.{Reference, note, refer, InReach, higher}
use zstreamer.Redundancy.Window.{Tracks, mark-note, note_other, clear_kept, clear_cleared}

pub note-above :
    (passed : ℕ → Bool) (h p q : ℕ)
    → ((q : ℕ) → h < q → passed q ≡ false)
    → h ≤ p
    → p < q
    → note passed p q ≡ false
note-above passed h p q above a b =
    note_other passed p q (λ e. omega (arith, e)) ∙ above q (omega arith)

difference_ahead : (h p : ℕ) → h ≤ p → p < h + 2 ^ 16 → h + difference (p % 2 ^ 16) (h % 2 ^ 16) ≡ p
unfolding difference
difference_ahead h p a b = omega arith

difference_recent :
    (h p : ℕ)
    → p ≤ h
    → h < p + 2 ^ 16
    → ((difference (p % 2 ^ 16) (h % 2 ^ 16) ≡ 0) × (p ≡ h))
      ⊎ (p + 2 ^ 16 ≡ h + difference (p % 2 ^ 16) (h % 2 ^ 16))
unfolding difference
difference_recent h p a b = elim (ℕ_discrete p h) [
  | yes e ↦ inl (rw e (omega arith), e)
  | no ne ↦ inr (omega (arith, ne))
]

-- The flags between two positions are cleared, and the others are kept.
swept :
    (h p q : ℕ) (seen passed : ℕ → Bool)
    → h < p
    → p < h + 4096
    → q < p
    → p < q + 4096
    → (q ≤ h → seen (q % 4096) ≡ passed q)
    → (h < q → passed q ≡ false)
    → clear_from 4096 ((h % 2 ^ 16 + 1) % 2 ^ 16) (p % 2 ^ 16) seen (q % 4096) ≡ passed q
swept h p q seen passed a b c d old new =
    let n : ℕ = p - h - 1 in
    let first : (h % 2 ^ 16 + 1) % 2 ^ 16 ≡ (h + 1) % 2 ^ 16 = omega arith in
    let last : p % 2 ^ 16 ≡ (h + 1 + n) % 2 ^ 16 = ap (λ k. k % 2 ^ 16) (omega arith) in
    rw first (
      rw last (elim (dec_lt h q) [
        | yes l ↦
            clear_cleared 4096 n (h + 1) q seen (omega arith) (omega arith) (omega arith)
              (omega arith)
            ∙ sym (new l)
        | no l ↦
            clear_kept 4096 n (h + 1) q seen (omega (arith, l)) (omega arith)
            ∙ old (omega (arith, l))
      ]))

-- The flags after a packet ahead.
advanced-note :
    (s : Demux) (h : ℕ) (passed : ℕ → Bool) (p q : ℕ)
    → Tracks s h passed
    → h < p
    → p < h + 2 ^ 15
    → q ≤ p
    → p < q + 4096
    → advanced s (p % 2 ^ 16) (q % 4096) ≡ note passed p q
unfolding advanced nothing_seen history_size
advanced-note s h passed p q t a b c d =
    let gap = difference_ahead h p (omega arith) (omega arith) in
    mark-note _ passed p q (omega arith) (omega arith) λ ne. rw t.top (
      if_intro (λ (f : ℕ → Bool). f (q % 4096) ≡ passed q)
        (leb 4096 (difference (p % 2 ^ 16) (h % 2 ^ 16)))
        (λ jump. sym (t.above q (ground (arith, gap))))
        (λ stays.
          swept h p q s.seen_history passed a (ground (arith, gap)) (omega (arith, ne)) d
            (λ k. t.window q k (omega arith)) (t.above q)))

abbrev pub Follows : Demux → Option ℕ → (ℕ → Bool) → Type 0
Follows s none passed = (s.initialized ≡ false) × ((q : ℕ) → passed q ≡ false)
Follows s (some h) passed = Tracks s h passed

-- Both drop a packet and the highest position stays, or both pass it on and agree again.
abbrev pub Agree : Option Demux → Option Reference → Option ℕ → Option ℕ → Type 0
Agree none none old new = new ≡ old
Agree none (some r) old new = ⊥
Agree (some s) none old new = ⊥
Agree (some s) (some r) old new = Follows s r.highest r.passed × (r.highest ≡ new)

abbrev pub at : Option ℕ → (ℕ → Bool) → Reference
at top passed = record { highest = top; passed = passed }

Agree-first :
    (s : Demux) (passed : ℕ → Bool) (p : ℕ)
    → Follows s none passed
    → Agree (admit s (p % 2 ^ 16)) (refer (at none passed) p) none (some p)
unfolding admit refer nothing_seen
Agree-first s passed p f = rw f.0 (
  record {
    started = refl;
    top = refl;
    window =
        λ q l w. mark-note nothing_seen passed p q (omega arith) (omega arith) (λ _. sym (f.1 q));
    above = λ q l. note-above passed p p q (λ k _. f.1 k) (omega arith) l;
  },
  refl,
)

Agree-ahead :
    (s : Demux) (h : ℕ) (passed : ℕ → Bool) (p : ℕ)
    → Tracks s h passed
    → h < p
    → p < h + 2 ^ 15
    → Agree (admit s (p % 2 ^ 16)) (refer (at (some h) passed) p) (some h) (some p)
unfolding admit refer
Agree-ahead s h passed p t a b =
    let d = difference (p % 2 ^ 16) s.highest_seq in
    let gap : h + d ≡ p = rw t.top (difference_ahead h p (omega arith) (omega arith)) in
    let newer : (ltb 0 d && ltb d (2 ^ 15)) ≡ true = ground arith in
    let going : not s.initialized ≡ false = ap not t.started in
    rw going (
      rw newer (
        rw (lt→ltb h p a) (
          record {
            started = t.started;
            top = refl;
            window = λ q l w. advanced-note s h passed p q t a b l w;
            above = λ q l. note-above passed h p q t.above (omega arith) l;
          },
          refl,
        )))

Agree-behind :
    (s : Demux) (h : ℕ) (passed : ℕ → Bool) (p : ℕ)
    → Tracks s h passed
    → p ≤ h
    → h < p + 2048
    → Agree (admit s (p % 2 ^ 16)) (refer (at (some h) passed) p) (some h) (some h)
unfolding admit refer history_size
Agree-behind s h passed p t a b =
    let d = difference (p % 2 ^ 16) s.highest_seq in
    let gap : ((d ≡ 0) × (p ≡ h)) ⊎ (p + 2 ^ 16 ≡ h + d) =
      rw t.top (difference_recent h p a (omega arith)) in
    let newer : (ltb 0 d && ltb d (2 ^ 15)) ≡ false = ground arith in
    let recent : ((d == 0) || ltb (2 ^ 16 - 2048) d) ≡ true = ground arith in
    let going : not s.initialized ≡ false = ap not t.started in
    let index : p % 2 ^ 16 % 4096 ≡ p % 4096 = omega arith in
    rw going (
      rw newer (
        rw recent (
          rw index (
            rw (t.window p a (omega arith))
              (rw (le→ltb h p a) (rw (lt→ltb h (p + 2048) b) (known (passed p) refl)))))))
  where
    known :
        (b : Bool)
        → passed p ≡ b
        → Agree
            (if b
              then none
              else some (record s { seen_history = mark s.seen_history (p % 2 ^ 16) true }))
            (if not b then some (at (some h) (note passed p)) else none)
            (some h)
            (some h)
    known true e = refl
    known false e = (
      record {
        started = t.started;
        top = t.top;
        window = λ q l w.
            mark-note s.seen_history passed p q (omega arith) (omega arith) (λ _. t.window q l w);
        above = λ q l. note_other passed p q (λ e. omega (arith, e)) ∙ t.above q l;
      },
      refl,
    )

Agree-old :
    (s : Demux) (h : ℕ) (passed : ℕ → Bool) (p : ℕ)
    → Tracks s h passed
    → p + 2048 ≤ h
    → h < p + 2 ^ 15
    → Agree (admit s (p % 2 ^ 16)) (refer (at (some h) passed) p) (some h) (some h)
unfolding admit refer
Agree-old s h passed p t a b =
    let d = difference (p % 2 ^ 16) s.highest_seq in
    let gap : ((d ≡ 0) × (p ≡ h)) ⊎ (p + 2 ^ 16 ≡ h + d) =
      rw t.top (difference_recent h p (omega arith) (omega arith)) in
    let going : not s.initialized ≡ false = ap not t.started in
    let newer : (ltb 0 d && ltb d (2 ^ 15)) ≡ false = ground arith in
    let recent : ((d == 0) || ltb (2 ^ 16 - 2048) d) ≡ false = ground arith in
    rw going
      (rw newer (rw recent (rw (le→ltb h p (omega arith)) (rw (le→ltb h (p + 2048) a) refl))))

pub admit-Agree :
    (s : Demux) (top : Option ℕ) (passed : ℕ → Bool) (p : ℕ)
    → Follows s top passed
    → InReach top (2 ^ 15) p
    → Agree (admit s (p % 2 ^ 16)) (refer (at top passed) p) top (higher top p)
admit-Agree s none passed p f w = Agree-first s passed p f
admit-Agree s (some h) passed p f w = elim (dec_lt h p) [
  | yes l ↦ rw (lt→ltb h p l) (Agree-ahead s h passed p f l w.1)
  | no l ↦ rw (le→ltb h p (omega (arith, l))) (elim (dec_lt h (p + 2048)) [
    | yes k ↦ Agree-behind s h passed p f (omega (arith, l)) k
    | no k ↦ Agree-old s h passed p f (omega (arith, k)) w.0
  ])
]
