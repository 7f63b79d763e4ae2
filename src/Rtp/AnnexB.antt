-- ===== src/Rtp/AnnexB.antt =====
-- Buffers of NAL units behind start codes: what an encoder writes, and how src/rtp_payloader.c finds
-- the units in it again.
use zstreamer.Common.{
  ℕ, suc, ◌+◌, ◌-◌, ◌*◌, ◌≤◌, ◌<◌, ◌≡◌, refl, ap, ◌∙◌, Bool, true, false, some, List, [], ◌∷◌, ◌++◌,
  length, length-append, get_or, arith,
}
use zstreamer.Common.Bytes.{take_bytes, drop_bytes, take-append, drop-append, get_or-append_right}
use zstreamer.Rtp.StartCodes.{code_at, find_from}
use zstreamer.Rtp.Payloader.Access.{without_zeros, nal_between}

-- A unit with the form of its start code.
pub record NalUnit : Type 0 where
  pub long : Bool
  pub nal : List ℕ

abbrev pub start_code : Bool → List ℕ
start_code true = 0 ∷ 0 ∷ 0 ∷ 1 ∷ []
start_code false = 0 ∷ 0 ∷ 1 ∷ []

-- What an encoder writes.
abbrev pub annex_b : List NalUnit → List ℕ
annex_b [] = []
annex_b (u ∷ us) = start_code u.long ++ (u.nal ++ annex_b us)

-- The same units, each behind a start code of four bytes.
abbrev pub with_codes : List NalUnit → List ℕ
with_codes [] = []
with_codes (u ∷ us) = 0 ∷ 0 ∷ 0 ∷ 1 ∷ (u.nal ++ with_codes us)

-- No start code begins in these bytes, which emulation prevention sees to.
abbrev pub HasNoCode : List ℕ → Type 0
HasNoCode [] = Unit
HasNoCode (b ∷ bs) = (code_at (b ∷ bs) ≡ 0) × HasNoCode bs

-- The last byte is not 0; in a unit it holds the stop bit.
abbrev pub EndsInBit : List ℕ → Type 0
EndsInBit [] = ⊥
EndsInBit (b ∷ []) = 0 < b
EndsInBit (b ∷ c ∷ bs) = EndsInBit (c ∷ bs)

still_no_code :
    (b : ℕ) (bs rest : List ℕ)
    → EndsInBit (b ∷ bs)
    → code_at (b ∷ bs) ≡ 0
    → code_at (b ∷ (bs ++ rest)) ≡ 0
unfolding code_at
still_no_code b [] rest e h = ground arith
still_no_code b (c ∷ []) rest e h = ground arith
still_no_code b (c ∷ x ∷ []) rest e h = ground arith
still_no_code b (c ∷ x ∷ y ∷ more) rest e h = ground arith

pub find_from-nal :
    (nal rest : List ℕ) (pos : ℕ)
    → HasNoCode nal
    → EndsInBit nal
    → find_from (nal ++ rest) pos ≡ find_from rest (pos + length nal)
unfolding find_from
find_from-nal [] rest pos h e = absurd e
find_from-nal (b ∷ []) rest pos (h, hs) e = rw (still_no_code b [] rest e h) refl
find_from-nal (b ∷ c ∷ bs) rest pos (h, hs) e =
    rw (still_no_code b (c ∷ bs) rest e h)
      (find_from-nal (c ∷ bs) rest (pos + 1) hs e ∙ ap (find_from rest) (omega arith))

pub find_from-code :
    (long : Bool) (more : List ℕ) (pos : ℕ)
    → 0 < length more
    → find_from (start_code long ++ more) pos ≡ some (pos, length (start_code long))
unfolding find_from code_at
find_from-code true more pos h = ground arith
find_from-code false more pos h = ground arith

last_byte :
    (nal rest : List ℕ)
    → EndsInBit nal
    → (e : ℕ) × (length nal ≡ suc e) × (0 < get_or (nal ++ rest) e 0)
last_byte [] rest h = absurd h
last_byte (b ∷ []) rest h = (0, refl, h)
last_byte (b ∷ c ∷ bs) rest h = let (e, l, p) = last_byte (c ∷ bs) rest h in (suc e, ap suc l, p)

-- The unit at an offset is got back, with no zeros taken off it.
pub nal_between-nal :
    (pre nal rest : List ℕ) (start : ℕ)
    → length pre ≡ start
    → EndsInBit nal
    → nal_between (pre ++ (nal ++ rest)) start (start + length nal) ≡ nal
unfolding nal_between without_zeros
nal_between-nal pre nal rest start l h =
    let (e, n, p) = last_byte nal rest h in
    let byte = get_or-append_right pre (nal ++ rest) start e l in
    let kept : without_zeros (pre ++ (nal ++ rest)) start (suc (start + e)) ≡ suc (start + e) =
      ground (arith, byte) in
    let end : start + length nal ≡ suc (start + e) = omega (arith, n) in
    ap
      (λ x.
        take_bytes (without_zeros (pre ++ (nal ++ rest)) start x - start)
          (drop_bytes start (pre ++ (nal ++ rest))))
      end
    ∙ ap (λ x. take_bytes (x - start) (drop_bytes start (pre ++ (nal ++ rest)))) kept
    ∙ ap (take_bytes (suc (start + e) - start)) (drop-append start pre (nal ++ rest) l)
    ∙ take-append (suc (start + e) - start) nal rest (omega (arith, n))

pub length-start_code : (long : Bool) → 3 ≤ length (start_code long)
length-start_code true = omega arith
length-start_code false = omega arith

pub length-with_codes : (us : List NalUnit) → length (with_codes us) ≤ 2 * length (annex_b us)
length-with_codes [] = omega arith
length-with_codes (u ∷ us) = omega (
  arith,
  length-with_codes us,
  length-start_code u.long,
  length-append (start_code u.long) (u.nal ++ annex_b us),
  length-append u.nal (annex_b us),
  length-append u.nal (with_codes us),
)

-- Each unit has bytes, so there are no more units than bytes.
pub units-le-bytes : (us : List NalUnit) → 3 * length us ≤ length (annex_b us)
units-le-bytes [] = omega arith
units-le-bytes (u ∷ us) = omega (
  arith,
  units-le-bytes us,
  length-start_code u.long,
  length-append (start_code u.long) (u.nal ++ annex_b us),
  length-append u.nal (annex_b us),
)
