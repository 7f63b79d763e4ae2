-- ===== src/Redundancy/Links.antt =====
-- Copies over the other link, and the notices of failover and recovery.
use zstreamer.Common.{
  ℕ, ◌-◌, ◌%◌, ◌^◌, ◌≤◌, ◌≡◌, refl, ap, subst, ◌∙◌, Bool, true, false, not, ◌&&◌, ◌||◌, Option,
  none, some, List, [], ◌∷◌, ltb, ◌==◌, arith, le→ltb, length, if_intro,
}
use zstreamer.Types.{add64}
use zstreamer.Redundancy.{
  Demux, Arrival, Effect, Link, primary, backup, Notice, failover, recovery, push, admit, follow,
  switch, mark, history_size, difference, sequence_number, advanced, nothing_seen,
}

-- The history has the flag of the highest number's place.
difference_self : (seq : ℕ) → difference seq seq ≡ 0
unfolding difference
difference_self seq = omega arith

marked : (seen : ℕ → Bool) (seq : ℕ) → mark seen seq true (seq % history_size) ≡ true
unfolding mark history_size
marked seen seq = ground arith

-- A demux that has the flag of a number which is not newer drops it.
drops :
    (s : Demux) (seq : ℕ)
    → s.initialized ≡ true
    → s.seen_history (seq % history_size) ≡ true
    → (ltb 0 (difference seq s.highest_seq) && ltb (difference seq s.highest_seq) (2 ^ 15)) ≡ false
    → admit s seq ≡ none
unfolding admit
drops s seq i seen older =
    let going : not s.initialized ≡ false = ap not i in
    rw going (
      rw older (
        rw seen (
          if_intro (λ (r : Option Demux). r ≡ none)
            ((difference seq s.highest_seq == 0)
              || ltb (2 ^ 16 - 2048) (difference seq s.highest_seq))
            (λ _. refl) (λ _. refl))))

-- After an admission a number is dropped.
abbrev Drops : ℕ → Option Demux → Type 0
Drops seq none = Unit {0}
Drops seq (some s') = admit s' seq ≡ none

not_newer : (seq : ℕ) → (ltb 0 (difference seq seq) && ltb (difference seq seq) (2 ^ 15)) ≡ false
not_newer seq = rw (difference_self seq) refl

-- A number that was admitted is not admitted again.
admit-Drops : (s : Demux) (seq : ℕ) → Drops seq (admit s seq)
unfolding admit advanced
admit-Drops s seq =
    if_intro (Drops seq) (not s.initialized)
      (λ _. drops _ seq refl (marked nothing_seen seq) (not_newer seq))
      (λ going.
        let started : s.initialized ≡ true = ground arith in
        if_intro (Drops seq)
          (ltb 0 (difference seq s.highest_seq) && ltb (difference seq s.highest_seq) (2 ^ 15))
          (λ _. drops _ seq started (marked _ seq) (not_newer seq))
          (λ older.
            if_intro (Drops seq)
              ((difference seq s.highest_seq == 0)
                || ltb (2 ^ 16 - 2048) (difference seq s.highest_seq))
              (λ _.
                if_intro (Drops seq) (s.seen_history (seq % history_size)) (λ _. tt)
                  (λ _. drops _ seq started (marked s.seen_history seq) older))
              (λ _. tt)))

still_dropped :
    (s : Demux) (link : Link) (time seq : ℕ)
    → admit s seq ≡ none
    → admit (record s { current_link = link; last_primary_time = time }) seq ≡ none
unfolding admit
still_dropped s link time seq e = ground arith

-- Following a link leaves the history alone.
switch_keeps :
    (has_bus : Bool) (s : Demux) (from pad : Link) (now seq : ℕ)
    → admit s seq ≡ none
    → admit (switch has_bus s from pad now).0 seq ≡ none
unfolding switch
switch_keeps has_bus s primary primary now seq e = still_dropped s s.current_link now seq e
switch_keeps has_bus s backup primary now seq e = still_dropped s primary now seq e
switch_keeps has_bus s primary backup now seq e =
    if_intro (λ (r : Demux × Option Notice). admit r.0 seq ≡ none)
      (ltb (add64 s.last_primary_time s.failover_detection_ms) now)
      (λ _. still_dropped s backup s.last_primary_time seq e) (λ _. e)
switch_keeps has_bus s backup backup now seq e = e

abbrev pub pushed : Bool → Bool → Demux → Arrival → Option Demux → Demux × Effect
pushed has_peer has_bus s a o = elim o [
  | none ↦ (s, record { forwards = false; posts = none })
  | some s' ↦
      let (s'', notice) = follow has_bus s' a.pad a.now in
      (s'', record { forwards = has_peer; posts = notice })
]

dropped_after :
    (has_peer has_bus : Bool) (s : Demux) (a : Arrival) (seq : ℕ) (o : Option Demux)
    → admit s seq ≡ o
    → Drops seq o
    → admit (pushed has_peer has_bus s a o).0 seq ≡ none
unfolding follow
dropped_after has_peer has_bus s a seq none e d = e
dropped_after has_peer has_bus s a seq (some s') e d =
    switch_keeps has_bus s' s'.current_link a.pad a.now seq d

pub push_long :
    (has_peer has_bus : Bool) (s : Demux) (a : Arrival)
    → 12 ≤ length a.data_bytes
    → push has_peer has_bus s a
      ≡ pushed has_peer has_bus s a (admit s (sequence_number a.data_bytes))
unfolding push
push_long has_peer has_bus s a l = rw (le→ltb _ _ l) refl

-- A packet with the number of the one just before, over whichever link and at whatever time, changes
-- nothing and is not passed on: a copy over the primary link does not count as a sign that this
-- link is alive.
pub copy_ignored :
    (has_peer has_bus : Bool) (s : Demux) (a b : Arrival)
    → 12 ≤ length a.data_bytes
    → 12 ≤ length b.data_bytes
    → sequence_number b.data_bytes ≡ sequence_number a.data_bytes
    → push has_peer has_bus (push has_peer has_bus s a).0 b
      ≡ ((push has_peer has_bus s a).0, record { forwards = false; posts = none })
copy_ignored has_peer has_bus s a b la lb same =
    let s' : Demux = (push has_peer has_bus s a).0 in
    let seq : ℕ = sequence_number a.data_bytes in
    push_long has_peer has_bus s' b lb
    ∙ ap (pushed has_peer has_bus s' b) (
        ap (admit s') same
        ∙ ap (λ (r : Demux × Effect). admit r.0 seq) (push_long has_peer has_bus s a la)
        ∙ dropped_after has_peer has_bus s a seq (admit s seq) refl (admit-Drops s seq))

-- The notices that a list of buffers makes the element post.
unfoldable pub notices : Bool → Demux → List Arrival → List Notice
notices has_peer s [] = []
notices has_peer s (a ∷ arrivals) =
    let (s', effect) = push has_peer true s a in
    let rest = notices has_peer s' arrivals in elim effect.posts [ none ↦ rest | some n ↦ n ∷ rest ]

-- Failover and recovery in turn, beginning with what can follow on the link.
abbrev pub Alternates : Link → List Notice → Type 0
Alternates link [] = Unit {0}
Alternates primary (failover ∷ ns) = Alternates backup ns
Alternates primary (recovery ∷ ns) = ⊥
Alternates backup (failover ∷ ns) = ⊥
Alternates backup (recovery ∷ ns) = Alternates primary ns

abbrev reported : (Demux → List Notice) → Demux → Option Notice → List Notice
reported rest s o = elim o [ none ↦ rest s | some n ↦ n ∷ rest s ]

switch-Alternates :
    (s : Demux) (from pad : Link) (now : ℕ) (rest : Demux → List Notice)
    → s.current_link ≡ from
    → ((s' : Demux) → Alternates s'.current_link (rest s'))
    → Alternates from (reported rest (switch true s from pad now).0 (switch true s from pad now).1)
unfolding switch
switch-Alternates s primary primary now rest e h =
    let s' : Demux = record s { last_primary_time = now } in
    subst (λ link. Alternates link (rest s')) e (h s')
switch-Alternates s backup primary now rest e h = h _
switch-Alternates s primary backup now rest e h =
    if_intro (λ (r : Demux × Option Notice). Alternates primary (reported rest r.0 r.1))
      (ltb (add64 s.last_primary_time s.failover_detection_ms) now) (λ _. h _)
      (λ _. subst (λ link. Alternates link (rest s)) e (h s))
switch-Alternates s backup backup now rest e h = subst (λ link. Alternates link (rest s)) e (h s)

-- An admission leaves the link alone.
abbrev pub SameLink : Link → Option Demux → Type 0
SameLink link none = Unit {0}
SameLink link (some s') = s'.current_link ≡ link

admit-SameLink : (s : Demux) (seq : ℕ) → SameLink s.current_link (admit s seq)
unfolding admit
admit-SameLink s seq =
    if_intro P (not s.initialized) (λ _. refl)
      (λ _.
        if_intro P
          (ltb 0 (difference seq s.highest_seq) && ltb (difference seq s.highest_seq) (2 ^ 15))
          (λ _. refl)
          (λ _.
            if_intro P
              ((difference seq s.highest_seq == 0)
                || ltb (2 ^ 16 - 2048) (difference seq s.highest_seq))
              (λ _. if_intro P (s.seen_history (seq % history_size)) (λ _. tt) (λ _. refl))
              (λ _. tt)))
  where
    P : Option Demux → Type 0
    P = SameLink s.current_link

pushed-Alternates :
    (has_peer : Bool) (s : Demux) (a : Arrival) (rest : Demux → List Notice) (o : Option Demux)
    → SameLink s.current_link o
    → ((s' : Demux) → Alternates s'.current_link (rest s'))
    → Alternates s.current_link
        (reported rest (pushed has_peer true s a o).0 (pushed has_peer true s a o).1.posts)
unfolding follow
pushed-Alternates has_peer s a rest none same h = h s
pushed-Alternates has_peer s a rest (some s') same h =
    let r : Demux × Option Notice = switch true s' s'.current_link a.pad a.now in
    subst (λ link. Alternates link (reported rest r.0 r.1)) same
      (switch-Alternates s' s'.current_link a.pad a.now rest refl h)

-- Whatever buffers come over the two links, and whenever: the notices on the bus are failover and
-- recovery in turn, and the first one, if any, is a failover exactly if the primary link was followed before.
pub notices_alternate :
    (has_peer : Bool) (s : Demux) (arrivals : List Arrival)
    → Alternates s.current_link (notices has_peer s arrivals)
unfolding notices push
notices_alternate has_peer s [] = tt
notices_alternate has_peer s (a ∷ arrivals) =
    if_intro
      (λ (r : Demux × Effect).
        Alternates s.current_link (reported (λ s'. notices has_peer s' arrivals) r.0 r.1.posts))
      (ltb (length a.data_bytes) 12) (λ _. notices_alternate has_peer s arrivals)
      (λ _.
        pushed-Alternates has_peer s a (λ s'. notices has_peer s' arrivals)
          (admit s (sequence_number a.data_bytes)) (admit-SameLink s (sequence_number a.data_bytes))
          (λ s'. notices_alternate has_peer s' arrivals))
