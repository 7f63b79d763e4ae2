-- ===== src/Rtp/StartCodes.antt =====
-- `zst_find_start_code` of src/zst_media_utils.h: the next start code 00 00 01 or 00 00 00 01.
use zstreamer.Common.{
  ℕ, ◌+◌, ◌&&◌, Option, none, some, List, [], ◌∷◌, ltb, ◌==◌, if◌then◌else◌, get_or, length,
}
use zstreamer.Common.Bytes.{drop_bytes}

-- The size of the start code that a list of bytes begins with, or 0.
unfoldable pub code_at : List ℕ → ℕ
code_at p =
    if ltb 2 (length p) && (get_or p 0 0 == 0) && (get_or p 1 0 == 0)
    then (if get_or p 2 0 == 1
        then 3
        else (if (get_or p 2 0 == 0) && ltb 3 (length p) && (get_or p 3 0 == 1) then 4 else 0))
    else 0

-- The walk of `ptr`: `memchr` skips what cannot begin a code, and this looks at each position.
unfoldable pub find_from : List ℕ → ℕ → Option (ℕ × ℕ)
find_from [] pos = none
find_from (b ∷ bs) pos =
    let further = find_from bs (pos + 1) in
    if ltb 0 (code_at (b ∷ bs)) then some (pos, code_at (b ∷ bs)) else further

-- The position and the size of the first code at or after the offset.
unfoldable pub find_start_code : List ℕ → ℕ → Option (ℕ × ℕ)
find_start_code media offset = find_from (drop_bytes offset media) offset
