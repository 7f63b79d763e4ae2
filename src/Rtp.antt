-- ===== src/Rtp.antt =====
-- The generic RTP elements: src/rtp_payloader.c cuts media into packets, src/rtp_depayloader.c puts
-- them together again. Here is what both use: the codecs, big-endian fields and time stamps. What is
-- linked behind an element is a function that takes what it pushes and has a state of its own.
pub mod StartCodes
mod Tests
pub mod Payloader
pub mod Depayloader
pub mod Header
pub mod Expects
pub mod Collect
pub mod Fragments
pub mod Rounds
pub mod Units
pub mod Cuts
pub mod Nals
pub mod AnnexB
pub mod Buffers
pub mod RoundTrip
pub mod Pieces
pub mod Samples
pub mod Pcm
pub mod Aac
pub mod Progress
pub mod Preserve
pub mod Loss
pub mod Capacity
use zstreamer.Common.{
  ℕ, zero, suc, ◌+◌, ◌*◌, ◌/◌, ◌%◌, ◌^◌, List, [], ◌∷◌, Bool, get_or, if◌then◌else◌, ◌==◌,
}
use zstreamer.Types.{ZstResult, u32_mod, u64_mod}

pub data Codec : Type 0 where
  h264 h265 aac pcm : Codec

-- What is behind a pad: the result of a push, and the state that it leaves there.
abbrev pub Downstream : Type 0 → Type 0 → Type 0
Downstream P W = P → W → ZstResult × W

-- `out->memory.data` with the packet's size, and `out->pts`, which is `out->dts` too.
pub record Packet : Type 0 where
  pub bytes : List ℕ
  pub pts : ℕ

-- A buffer of a depayloader; `content` is `memory.data` with its size, and `discontinuity` is the flag `ZST_BUFFER_FLAG_DROP`.
pub record Frame : Type 0 where
  pub content : List ℕ
  pub pts : ℕ
  pub duration : ℕ
  pub discontinuity : Bool

abbrev pub be16 : ℕ → List ℕ
be16 n = n / 256 % 256 ∷ n % 256 ∷ []

abbrev pub be32 : ℕ → List ℕ
be32 n = n / 2 ^ 24 % 256 ∷ n / 2 ^ 16 % 256 ∷ n / 2 ^ 8 % 256 ∷ n % 256 ∷ []

abbrev pub read16 : List ℕ → ℕ → ℕ
read16 p i = get_or p i 0 * 256 + get_or p (i + 1) 0

abbrev pub read32 : List ℕ → ℕ → ℕ
read32 p i =
    get_or p i 0 * 2 ^ 24
    + get_or p (i + 1) 0 * 2 ^ 16
    + get_or p (i + 2) 0 * 2 ^ 8
    + get_or p (i + 3) 0

unfoldable pub pts_to_rtp_ts : ℕ → ℕ → ℕ
pts_to_rtp_ts pts_ns clock_rate = pts_ns * clock_rate % u64_mod / 1000000000 % u32_mod

unfoldable pub ts_to_pts : ℕ → ℕ → ℕ
ts_to_pts ts clock_rate = if clock_rate == 0 then 0 else ts * 1000000000 % u64_mod / clock_rate

-- `if (one != ZST_OK) ret = one;`
abbrev pub keep : ZstResult → ZstResult → ZstResult
keep ret ZstResult.ok = ret
keep ret one = one
