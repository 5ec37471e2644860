-- ===== src/TokenBucket.antt =====
-- src/queue/token-bucket.ts. The source computes in doubles; the model computes the same values
-- exactly, in scaled integers, and leaves rounding errors out. Tokens are counted in billionths,
-- a refill rate in millionths of a token per second (so rate × milliseconds is billionths of a
-- token), and fractions such as a severity in thousandths. Each `Date.now()` is an argument.
pub mod Refill
pub mod Adapt
pub mod Limit
use payment_queue_system_bul.Prelude.{
  ℕ, ◌+◌, ◌-◌, ◌*◌, ◌/◌, Bool, true, false, Option, none, some, min, max, leb, ltb, ◌==◌,
  if◌then◌else◌,
}
use payment_queue_system_bul.Prelude.Int.{ℤ, pos, negsuc}

abbrev pub token : ℕ
token = 1_000_000_000

abbrev pub per_second : ℕ
per_second = 1_000_000

pub record TokenBucket : Type 0 where
  pub base_capacity : ℕ  -- tokens
  pub base_refill_per_sec : ℕ  -- tokens per second
  pub min_capacity_fraction : ℕ  -- thousandths
  pub tokens : ℕ  -- billionths of a token
  pub last_refill_ms : ℕ
  pub current_capacity : ℕ  -- tokens
  pub current_refill_per_sec : ℕ  -- millionths of a token per second

abbrev pub default_min_capacity_fraction : ℕ
default_min_capacity_fraction = 200

-- The constructor.
unfoldable pub new : ℕ → ℕ → ℕ → ℕ → TokenBucket
new base_capacity base_refill_per_sec min_capacity_fraction now = record {
  base_capacity = base_capacity;
  base_refill_per_sec = base_refill_per_sec;
  min_capacity_fraction = min_capacity_fraction;
  tokens = base_capacity * token;
  last_refill_ms = now;
  current_capacity = base_capacity;
  current_refill_per_sec = base_refill_per_sec * per_second;
}

-- A clock that has not moved on, or has stepped back, refills nothing.
unfoldable pub refill : ℕ → TokenBucket → TokenBucket
refill now b = if leb now b.last_refill_ms then b else record b {
  tokens =
      min (b.current_capacity * token)
        (b.tokens + (now - b.last_refill_ms) * b.current_refill_per_sec);
  last_refill_ms = now;
}

unfoldable pub try_consume : ℕ → ℕ → TokenBucket → TokenBucket × Bool
unfolding refill
try_consume now cost b =
    let b' = refill now b in
    if leb (cost * token) b'.tokens
    then (record b' { tokens = b'.tokens - cost * token }, true)
    else (b', false)

-- `Math.ceil(deficit / rate * 1000)`; `none` is the Infinity of a rate of 0.
unfoldable pub wait_ms : ℕ → ℕ → Option ℕ
wait_ms deficit rate = if rate == 0 then none else some ((deficit + rate - 1) / rate)

unfoldable pub ms_until_available : ℕ → ℕ → TokenBucket → TokenBucket × Option ℕ
unfolding refill wait_ms
ms_until_available now cost b =
    let b' = refill now b in
    if leb (cost * token) b'.tokens
    then (b', some 0)
    else (b', wait_ms (cost * token - b'.tokens) b'.current_refill_per_sec)

-- `Math.max(0, Math.min(1, severity))`, in thousandths.
abbrev pub clamp : ℤ → ℕ
clamp (pos s) = min 1000 s
clamp (negsuc s) = 0

-- `1 - clamped * (1 - floor)`, in millionths. The fraction is at most 1, so it is not negative.
unfoldable pub throttle_factor : ℤ → ℕ → ℕ
throttle_factor severity floor = 1_000_000 - clamp severity * (1000 - floor)

-- `Math.max(1, Math.round(...))`, `Math.max(0.5, ...)`, and the tokens cut to the new capacity.
unfoldable pub adapt : ℤ → TokenBucket → TokenBucket
unfolding throttle_factor
adapt severity b =
    let factor = throttle_factor severity b.min_capacity_fraction in
    let capacity = max 1 ((b.base_capacity * factor + 500_000) / 1_000_000) in
    record b {
      current_capacity = capacity;
      current_refill_per_sec = max 500_000 (b.base_refill_per_sec * factor);
      tokens = min b.tokens (capacity * token);
    }

unfoldable pub reset : TokenBucket → TokenBucket
reset b = record b {
  current_capacity = b.base_capacity;
  current_refill_per_sec = b.base_refill_per_sec * per_second;
}

pub record Snapshot : Type 0 where
  pub tokens : ℕ
  pub capacity : ℕ
  pub refill_per_sec : ℕ
  pub throttled : Bool

unfoldable pub snapshot : ℕ → TokenBucket → TokenBucket × Snapshot
unfolding refill
snapshot now b =
    let b' = refill now b in
    (
      b',
      record {
        tokens = b'.tokens / token;
        capacity = b'.current_capacity;
        refill_per_sec = b'.current_refill_per_sec;
        throttled = ltb b'.current_capacity b'.base_capacity;
      },
    )
