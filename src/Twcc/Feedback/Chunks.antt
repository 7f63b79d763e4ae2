-- ===== src/Twcc/Feedback/Chunks.antt =====
-- What the status chunks of a feedback message decode to.
use zstreamer.Common.{
  ℕ, zero, suc, ◌+◌, ◌*◌, ◌/◌, ◌%◌, ◌-◌, ◌^◌, ◌≤◌, ◌<◌, ◌≡◌, refl, ap, List, [], ◌∷◌, ◌++◌, arith,
  length, length-append, ◌==◌, if_intro,
}
use zstreamer.Twcc.Feedback.{run_statuses, vector_statuses, chunk_statuses, parse_chunks}

length-run_statuses : (run st room : ℕ) → length (run_statuses run st room) ≤ room
unfolding run_statuses
length-run_statuses zero st room = omega arith
length-run_statuses (suc run) st zero = omega arith
length-run_statuses (suc run) st (suc room) = omega (arith, length-run_statuses run st room)

length-vector_statuses : (n bits chunk room : ℕ) → length (vector_statuses n bits chunk room) ≤ room
unfolding vector_statuses
length-vector_statuses zero bits chunk room = omega arith
length-vector_statuses (suc n) bits chunk zero = omega arith
length-vector_statuses (suc n) bits chunk (suc room) =
    omega (arith, length-vector_statuses n bits chunk room)

length-chunk_statuses : (chunk room : ℕ) → length (chunk_statuses chunk room) ≤ room
unfolding chunk_statuses
length-chunk_statuses chunk room =
    if_intro (λ (sts : List ℕ). length sts ≤ room) (chunk / 2 ^ 15 % 2 == 0)
      (λ _. length-run_statuses _ _ room)
      (λ _.
        if_intro (λ (sts : List ℕ). length sts ≤ room) (chunk / 2 ^ 14 % 2 == 0)
          (λ _. length-vector_statuses 14 1 chunk room)
          (λ _. length-vector_statuses 7 2 chunk room))

pub length-parse_chunks :
    (bytes : List ℕ) (room : ℕ)
    → (length (parse_chunks bytes room).0 ≤ room)
      × (length (parse_chunks bytes room).1 ≤ length bytes)
unfolding parse_chunks
length-parse_chunks [] room = (omega arith, omega arith)
length-parse_chunks (a ∷ []) room = (omega arith, omega arith)
length-parse_chunks (a ∷ b ∷ bytes) zero = (omega arith, omega arith)
length-parse_chunks (a ∷ b ∷ bytes) (suc room) =
    let now = chunk_statuses (a * 256 + b) (suc room) in
    let (p, q) = length-parse_chunks bytes (suc room - length now) in
    (
      omega (
        arith,
        length-append now (parse_chunks bytes (suc room - length now)).0,
        length-chunk_statuses (a * 256 + b) (suc room),
        p,
      ),
      omega (arith, q),
    )

-- A list of runs, each a status and a length, as a sender of feedback writes it, and its meaning.
abbrev pub encode_runs : List (ℕ × ℕ) → List ℕ
encode_runs [] = []
encode_runs ((st, run) ∷ rs) = (st * 32 + run / 256) ∷ run % 256 ∷ encode_runs rs

abbrev pub repeat : ℕ → ℕ → List ℕ
repeat zero st = []
repeat (suc run) st = st ∷ repeat run st

abbrev pub meaning : List (ℕ × ℕ) → List ℕ
meaning [] = []
meaning ((st, run) ∷ rs) = repeat run st ++ meaning rs

abbrev pub AreRuns : List (ℕ × ℕ) → Type 0
AreRuns [] = Unit
AreRuns ((st, run) ∷ rs) = (st < 4) × (0 < run) × (run < 2 ^ 13) × AreRuns rs

run_statuses_lem : (run st room : ℕ) → run ≤ room → run_statuses run st room ≡ repeat run st
unfolding run_statuses
run_statuses_lem zero st room h = refl
run_statuses_lem (suc run) st zero h = absurd (omega arith)
run_statuses_lem (suc run) st (suc room) h =
    ap (λ r. st ∷ r) (run_statuses_lem run st room (omega arith))

length-repeat : (run st : ℕ) → length (repeat run st) ≡ run
length-repeat zero st = refl
length-repeat (suc run) st = ap suc (length-repeat run st)

chunk-run :
    (st run room : ℕ)
    → st < 4
    → run < 2 ^ 13
    → run ≤ room
    → chunk_statuses ((st * 32 + run / 256) * 256 + run % 256) room ≡ repeat run st
unfolding chunk_statuses
chunk-run st run room s r h =
    let first : ((st * 32 + run / 256) * 256 + run % 256) / 2 ^ 15 % 2 ≡ 0 = omega arith in
    let symbol : ((st * 32 + run / 256) * 256 + run % 256) / 2 ^ 13 % 4 ≡ st = omega arith in
    let count : ((st * 32 + run / 256) * 256 + run % 256) % 2 ^ 13 ≡ run = omega arith in
    rw first (rw symbol (rw count (run_statuses_lem run st room h)))

-- Status chunks that are written as runs, each of a status below 4 and of 1 to 2^13 - 1 packets, decode
-- to the statuses that the runs mean, when that many are wanted; the bytes after them are left.
pub parse_chunks-encode_runs :
    (rs : List (ℕ × ℕ)) (rest : List ℕ) (room : ℕ)
    → AreRuns rs
    → room ≡ length (meaning rs)
    → parse_chunks (encode_runs rs ++ rest) room ≡ (meaning rs, rest)
unfolding parse_chunks
parse_chunks-encode_runs [] [] room v e = refl
parse_chunks-encode_runs [] (a ∷ []) room v e = refl
parse_chunks-encode_runs [] (a ∷ b ∷ rest) zero v e = refl
parse_chunks-encode_runs [] (a ∷ b ∷ rest) (suc room) v e = absurd (omega arith)
parse_chunks-encode_runs ((st, run) ∷ rs) rest zero (s, pos, r, v) e =
    absurd (omega (arith, length-append (repeat run st) (meaning rs), length-repeat run st))
parse_chunks-encode_runs ((st, run) ∷ rs) rest (suc room) (s, pos, r, v) e =
    let fits : run ≤ suc room =
      omega (arith, length-append (repeat run st) (meaning rs), length-repeat run st) in
    let left : suc room - length (repeat run st) ≡ length (meaning rs) =
      omega (arith, length-append (repeat run st) (meaning rs), length-repeat run st) in
    rw (chunk-run st run (suc room) s r fits) (
      ap (λ (x : List ℕ × List ℕ). (repeat run st ++ x.0, x.1))
        (parse_chunks-encode_runs rs rest (suc room - length (repeat run st)) v left))
