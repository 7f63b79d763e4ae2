-- ===== src/Twcc/History.antt =====
-- How long the history remembers a packet.
use zstreamer.Common.{
  ℕ, suc, ◌+◌, ◌%◌, ◌^◌, ◌≤◌, ◌<◌, ◌≡◌, refl, sym, subst, true, some, List, arith, length, ◌==◌,
  if_intro, Bool-cases, Option-cases, inl, inr, ◌⊎◌,
}
use zstreamer.Twcc.{Sender, Sent, stamp, history_size, process_outgoing, is_extensible}

-- `n` messages, of any kind, are processed one after the other.
pub data Sends (s : Sender) : ℕ → Sender → Type 0 where
  nothing : Sends s 0 s
  one_more :
      {n : ℕ} {t : Sender} (msg : List ℕ) (now_us : ℕ)
      → Sends s n t
      → Sends s (suc n) (process_outgoing t msg now_us).0

-- Each message stamps the sender or leaves it.
process_outgoing-cases :
    (s : Sender) (msg : List ℕ) (now_us : ℕ)
    → ((process_outgoing s msg now_us).0 ≡ s)
      ⊎ ((process_outgoing s msg now_us).0 ≡ stamp s (length msg) now_us)
unfolding process_outgoing
process_outgoing-cases s msg now_us = elim (Option-cases s.extmap_id) [
  | inl e ↦ rw e (inl refl)
  | inr (id, e) ↦
      rw e (elim (Bool-cases (is_extensible msg)) [
        | inl t ↦ rw t (inr refl)
        | inr f ↦ rw f (inl refl)
      ])
]

-- The next number is `k` after that of the remembered packet, and its entry is there.
record Remembers (x : Sent) (n : ℕ) (t : Sender) : Type 0 where
  ago : ℕ
  few : ago ≤ n
  number : t.seq_num ≡ (x.seq_num + 1 + ago) % 2 ^ 16
  entry : t.history (x.seq_num % 8192) ≡ x

stamp-Remembers :
    (x : Sent) (n : ℕ) (t : Sender) (size now_us : ℕ)
    → suc n < 8192
    → Remembers x n t
    → Remembers x (suc n) (stamp t size now_us)
unfolding stamp history_size
stamp-Remembers x n t size now_us l v = record {
  ago = suc v.ago;
  few = omega (arith, v.few);
  number = omega (arith, v.number);
  entry =
      if_intro (λ y. y ≡ x) (x.seq_num % 8192 == t.seq_num % 8192)
        (λ e. absurd (ground (arith, v.number, v.few))) (λ _. v.entry);
}

Sends-Remembers :
    (x : Sent) (s t : Sender) (n : ℕ) → n < 8192 → Remembers x 0 s → Sends s n t → Remembers x n t
Sends-Remembers x s t n l v nothing = v
Sends-Remembers x s t (suc n) l v (one_more {t = u} msg now_us r) =
    let w = Sends-Remembers x s u n (omega arith) v r in
    elim (process_outgoing-cases u msg now_us) [
      | inl e ↦
          subst (Remembers x (suc n)) (sym e)
            (record { ago = w.ago; few = omega (arith, w.few); number = w.number; entry = w.entry })
      | inr e ↦ subst (Remembers x (suc n)) (sym e) (stamp-Remembers x n u (length msg) now_us l w)
    ]

stamped :
    (s : Sender) (msg : List ℕ) (now_us id : ℕ)
    → s.extmap_id ≡ some id
    → is_extensible msg ≡ true
    → (process_outgoing s msg now_us).0 ≡ stamp s (length msg) now_us
unfolding process_outgoing
stamped s msg now_us id e x = rw e (rw x refl)

abbrev pub sent_by : Sender → List ℕ → ℕ → Sent
sent_by s msg now_us = record {
  seq_num = s.seq_num;
  send_time_us = now_us;
  packet_size = length msg;
}

just_sent :
    (s : Sender) (msg : List ℕ) (now_us : ℕ)
    → s.seq_num < 2 ^ 16
    → Remembers (sent_by s msg now_us) 0 (stamp s (length msg) now_us)
unfolding stamp history_size
just_sent s msg now_us q = record {
  ago = 0;
  few = omega arith;
  number = omega arith;
  entry =
      if_intro (λ y. y ≡ sent_by s msg now_us) (s.seq_num % 8192 == s.seq_num % 8192) (λ _. refl)
        (λ f. absurd (ground arith));
}

-- A packet that gets a sequence number is found in the history, under that number and with its time and
-- size, after any further messages, fewer than 8192 of them.
pub history_remembers :
    (s t : Sender) (msg : List ℕ) (now_us id n : ℕ)
    → s.extmap_id ≡ some id
    → s.seq_num < 2 ^ 16
    → is_extensible msg ≡ true
    → n < 8192
    → Sends (process_outgoing s msg now_us).0 n t
    → t.history (s.seq_num % 8192) ≡ sent_by s msg now_us
history_remembers s t msg now_us id n e q x l r =
    let start =
      subst (Remembers (sent_by s msg now_us) 0) (sym (stamped s msg now_us id e x))
        (just_sent s msg now_us q) in
    (Sends-Remembers (sent_by s msg now_us) _ t n l start r).entry
