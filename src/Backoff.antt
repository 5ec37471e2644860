-- ===== src/Backoff.antt =====
-- src/payment/backoff.ts. `Math.random()` is an argument, the fraction `num / den` below 1; the
-- product with it is exact. Attempts count from 1, as the source says.
pub mod Jitter
use payment_queue_system_bul.Prelude.{ℕ, ◌+◌, ◌-◌, ◌*◌, ◌/◌, ◌^◌, ◌<◌, min}

-- A draw of `Math.random()`, in [0, 1).
pub record Draw : Type 0 where
  pub num : ℕ
  pub den : ℕ
  pub below_one : num < den

abbrev pub default_base_ms : ℕ
default_base_ms = 500

abbrev pub default_cap_ms : ℕ
default_cap_ms = 60_000

-- `Math.min(capMs, baseMs * 2 ** (attempt - 1))`
unfoldable pub exponential : ℕ → ℕ → ℕ → ℕ
exponential attempt base_ms cap_ms = min cap_ms (base_ms * 2 ^ (attempt - 1))

unfoldable pub compute_backoff_ms : Draw → ℕ → ℕ → ℕ → ℕ
compute_backoff_ms random attempt base_ms cap_ms =
    random.num * exponential attempt base_ms cap_ms / random.den
