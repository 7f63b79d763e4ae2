-- ===== src/BufferPool/Config.antt =====
-- The configuration of a pool, and how `create` and `set_config` of src/zst_buffer_pool.c mend it.
use zstreamer.Common.{
  ℕ, ◌^◌, ◌⊎◌, ◌+◌, ◌*◌, ◌≤◌, ◌<◌, ◌≡◌, Bool, ltb, ◌==◌, if◌then◌else◌, arith, ◌&&◌, ◌%◌,
}
use zstreamer.Types.{u32_mod}

pub record PoolConfig : Type 0 where
  pub min_buffers : ℕ
  pub max_buffers : ℕ
  pub buffer_size : ℕ
  pub buffer_type : ℕ
  pub low_watermark : ℕ
  pub high_watermark : ℕ
  pub has_watermark_cb : Bool

with_default_max : PoolConfig → PoolConfig
with_default_max c = if c.max_buffers == 0 then record c { max_buffers = 32 } else c

with_clamped_min : PoolConfig → PoolConfig
with_clamped_min c =
    if ltb c.max_buffers c.min_buffers then record c { min_buffers = c.max_buffers } else c

unfoldable pub normalise : PoolConfig → PoolConfig
unfolding with_default_max with_clamped_min
normalise c = with_clamped_min (with_default_max c)

-- `zst_pool_config_default_size`, given the number of queue elements of the pipeline. The sums
-- wrap at 32 bits.
pub default_size : ℕ → PoolConfig → PoolConfig
default_size n_queues c =
    if ltb 0 n_queues && ltb c.min_buffers ((n_queues + 2) % u32_mod)
    then (if ltb c.max_buffers ((n_queues + 2) % u32_mod)
        then record c {
          min_buffers = (n_queues + 2) % u32_mod;
          max_buffers = ((n_queues + 2) % u32_mod * 2) % u32_mod;
        }
        else record c { min_buffers = (n_queues + 2) % u32_mod })
    else c

-- `uint32_t` fields, a positive limit and a minimum within it.
pub record IsUsable (c : PoolConfig) : Type 0 where
  pub positive : 0 < c.max_buffers
  pub within : c.min_buffers ≤ c.max_buffers
  pub word : c.max_buffers < u32_mod

pub normalise-IsUsable : (c : PoolConfig) → c.max_buffers < u32_mod → IsUsable (normalise c)
unfolding normalise
normalise-IsUsable c h = ground arith

-- From a usable configuration, and with fewer than 2^30 queues, the default is usable, keeps the size and
-- lowers neither limit; with at least one queue it asks for two more buffers than there are queues.
pub default_size-IsUsable :
    (n : ℕ) (c : PoolConfig)
    → IsUsable c
    → n < 2 ^ 30
    → IsUsable (default_size n c)
      × (c.min_buffers ≤ (default_size n c).min_buffers)
      × (c.max_buffers ≤ (default_size n c).max_buffers)
      × ((default_size n c).buffer_size ≡ c.buffer_size)
      × ((n ≡ 0) ⊎ (n + 2 ≤ (default_size n c).min_buffers))
unfolding default_size
default_size-IsUsable n c v h = ground (arith, v.positive, v.within, v.word)
