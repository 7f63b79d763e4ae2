-- ===== src/Twcc/Injection.antt =====
-- What a receiver reads from an outgoing packet.
use Prim.Native.Nat.{bit_or}
use zstreamer.Common.{
  ℕ, suc, ◌+◌, ◌*◌, ◌/◌, ◌%◌, ◌^◌, ◌-◌, ◌≤◌, ◌<◌, ◌≡◌, refl, ap, ◌∙◌, true, ◌&&◌, Option, none,
  some, List, [], ◌∷◌, ◌++◌, ◌==◌, if◌then◌else◌, get_or, length, length-append, arith,
}
use zstreamer.Common.Bits.{bit_or_low, bit_or-zero}
use zstreamer.Common.Bytes.{
  take_bytes, drop_bytes, get_or-append_right, length-take_bytes, take-drop, take-append,
  drop-append_more,
}
use zstreamer.Twcc.{
  Sender, extension, set_x, header_length, is_extensible, creates, inject, process_outgoing,
}

-- A receiver, by RFC 8285: where the X bit is set, the extension stands after the contributing sources,
-- in the one-byte form under the profile 0xBEDE. The result is the identifier and the 16-bit value
-- of its first element, if that has two bytes.
pub read_extension : List ℕ → Option (ℕ × ℕ)
read_extension msg =
    if (get_or msg 0 0 / 16 % 2 == 1)
      && (byte 0 == 0xBE)
      && (byte 1 == 0xDE)
      && (byte 2 * 256 + byte 3 == 1)
      && (byte 4 % 16 == 1)
    then some (byte 4 / 16, byte 5 * 256 + byte 6)
    else none
  where
    byte : ℕ → ℕ
    byte i = get_or msg (header_length msg + i) 0

-- The packet without its extension: the X bit is cleared and the eight bytes are left out.
pub remove_extension : List ℕ → List ℕ
remove_extension [] = []
remove_extension (b ∷ bs) =
    let n = header_length (b ∷ bs) - 1 in (b - 0x10) ∷ (take_bytes n bs ++ drop_bytes (n + 8) bs)

set_bit : (b : ℕ) → b / 16 % 2 ≡ 0 → bit_or b 0x10 ≡ b + 16
set_bit b e = omega (
  arith,
  bit_or_low b 16,
  bit_or_low (b / 2) 8,
  bit_or_low (b / 2 / 2) 4,
  bit_or_low (b / 2 / 2 / 2) 2,
  bit_or_low (b / 2 / 2 / 2 / 2) 1,
  bit_or-zero (b / 2 / 2 / 2 / 2 / 2),
)

dropped_extension : (id seq : ℕ) (ys : List ℕ) → drop_bytes 8 (extension id seq ++ ys) ≡ ys
unfolding drop_bytes extension
dropped_extension id seq ys = refl

-- The rest of the header after the first byte, whose length is `m`.
abbrev changed : ℕ → ℕ → ℕ → List ℕ → ℕ → List ℕ
changed id seq b bs m = (b + 16) ∷ (take_bytes m bs ++ (extension id seq ++ drop_bytes m bs))

inject-cons :
    (id seq b : ℕ) (bs : List ℕ) (m : ℕ)
    → m ≡ 11 + b % 16 * 4
    → b / 16 % 2 ≡ 0
    → inject id seq (b ∷ bs) ≡ changed id seq b bs m
unfolding inject header_length take_bytes drop_bytes set_x
inject-cons id seq b bs m e x =
    let h : 12 + b % 16 * 4 ≡ suc m = omega arith in
    rw h (ap (λ c. c ∷ (take_bytes m bs ++ (extension id seq ++ drop_bytes m bs))) (set_bit b x))

changed-byte :
    (id seq b : ℕ) (bs : List ℕ) (m i : ℕ)
    → m ≤ length bs
    → get_or (changed id seq b bs m) (suc m + i) 0
      ≡ get_or (extension id seq ++ drop_bytes m bs) i 0
changed-byte id seq b bs m i h =
    let step : suc m + i ≡ suc (m + i) = omega arith in
    ap (λ k. get_or (changed id seq b bs m) k 0) step
    ∙ get_or-append_right (take_bytes m bs) _ m i (length-take_bytes m bs h)

changed-read :
    (id seq b : ℕ) (bs : List ℕ) (m : ℕ)
    → m ≡ 11 + b % 16 * 4
    → b / 16 % 2 ≡ 0
    → m ≤ length bs
    → id < 16
    → seq < 2 ^ 16
    → read_extension (changed id seq b bs m) ≡ some (id, seq)
unfolding read_extension header_length extension
changed-read id seq b bs m e x h i q =
    let n : 12 + (b + 16) % 16 * 4 ≡ suc m = omega arith in
    let byte = changed-byte id seq b bs m in
    rw n (
      rw (byte 0 h) (
        rw (byte 1 h) (
          rw (byte 2 h)
            (rw (byte 3 h) (rw (byte 4 h) (rw (byte 5 h) (rw (byte 6 h) (ground arith))))))))

changed-removed :
    (id seq b : ℕ) (bs : List ℕ) (m : ℕ)
    → m ≡ 11 + b % 16 * 4
    → m ≤ length bs
    → remove_extension (changed id seq b bs m) ≡ b ∷ bs
unfolding remove_extension header_length
changed-removed id seq b bs m e h =
    let n : 12 + (b + 16) % 16 * 4 - 1 ≡ m = omega arith in
    let front = length-take_bytes m bs h in
    rw n (
      ap
        (λ r.
          r
          ∷ (take_bytes m (take_bytes m bs ++ (extension id seq ++ drop_bytes m bs))
              ++ drop_bytes (m + 8) (take_bytes m bs ++ (extension id seq ++ drop_bytes m bs))))
        same
      ∙ ap
          (λ r.
            b
            ∷ (r ++ drop_bytes (m + 8) (take_bytes m bs ++ (extension id seq ++ drop_bytes m bs))))
          (take-append m (take_bytes m bs) _ front)
      ∙ ap (λ r. b ∷ (take_bytes m bs ++ r))
          (drop-append_more m 8 (take_bytes m bs) (extension id seq ++ drop_bytes m bs) front
            ∙ dropped_extension id seq (drop_bytes m bs))
      ∙ ap (λ r. b ∷ r) (take-drop m bs))
  where
    same : b + 16 - 16 ≡ b
    same = omega arith

length-changed :
    (id seq b : ℕ) (bs : List ℕ) (m : ℕ) → length (changed id seq b bs m) ≡ length (b ∷ bs) + 8
unfolding extension
length-changed id seq b bs m = omega (
  arith,
  length-append (take_bytes m bs) (extension id seq ++ drop_bytes m bs),
  length-append (take_bytes m bs) (drop_bytes m bs),
  ap length (take-drop m bs),
)

extensible_lem :
    (b : ℕ) (bs : List ℕ)
    → is_extensible (b ∷ bs) ≡ true
    → (b / 16 % 2 ≡ 0) × (12 + b % 16 * 4 ≤ suc (length bs)) × (length bs ≤ 2040)
unfolding is_extensible header_length
extensible_lem b bs x = ground arith

too_short : is_extensible [] ≡ true → ⊥
unfolding is_extensible
too_short x = ground arith

processed :
    (s : Sender) (msg : List ℕ) (now_us id : ℕ)
    → s.extmap_id ≡ some id
    → is_extensible msg ≡ true
    → (process_outgoing s msg now_us).1 ≡ creates (inject id s.seq_num msg)
unfolding process_outgoing
processed s msg now_us id e x = ground (arith, e, x)

-- A message that passes the guards, from a sender with an identifier that fits its four bits, becomes
-- a packet from which a receiver reads that identifier and the sender's sequence number, from
-- which the message is got back, and which is eight bytes longer.
pub process_outgoing-Read :
    (s : Sender) (msg : List ℕ) (now_us id : ℕ)
    → s.extmap_id ≡ some id
    → id < 16
    → s.seq_num < 2 ^ 16
    → is_extensible msg ≡ true
    → (out : List ℕ) × ((process_outgoing s msg now_us).1 ≡ creates out)
      × (read_extension out ≡ some (id, s.seq_num))
      × (remove_extension out ≡ msg)
      × (length out ≡ length msg + 8)
process_outgoing-Read s [] now_us id e i q x = absurd (too_short x)
process_outgoing-Read s (b ∷ bs) now_us id e i q x =
    let (h, c, l) = extensible_lem b bs x in
    let m : ℕ = 11 + b % 16 * 4 in
    let into = inject-cons id s.seq_num b bs m refl h in
    (
      inject id s.seq_num (b ∷ bs),
      processed s (b ∷ bs) now_us id e x,
      ap read_extension into ∙ changed-read id s.seq_num b bs m refl h (omega (arith, c)) i q,
      ap remove_extension into ∙ changed-removed id s.seq_num b bs m refl (omega (arith, c)),
      ap length into ∙ length-changed id s.seq_num b bs m,
    )
