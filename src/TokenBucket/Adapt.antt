-- ===== src/TokenBucket/Adapt.antt =====
-- Throttling by `adapt` and its end by `reset`, and the state that every operation keeps.
use native.Mathlib.Nat.{mul-le-mul_left, mul-le-mul_right}
use payment_queue_system_bul.Prelude.{ℕ, ◌+◌, ◌-◌, ◌*◌, ◌≤◌, min, arith}
use payment_queue_system_bul.Prelude.Int.{ℤ, pos, negsuc}
use payment_queue_system_bul.TokenBucket.{
  TokenBucket, token, per_second, clamp, throttle_factor, new, refill, try_consume,
  ms_until_available, adapt, reset, snapshot,
}

-- The parameters make sense, the tokens fit the capacity in force, the capacity in force is
-- between one token and the base, and the rate in force between half a token a second and the base.
pub record IsValid (b : TokenBucket) : Type 0 where
  pub base_positive : 1 ≤ b.base_capacity
  pub base_refills : 1 ≤ b.base_refill_per_sec
  pub fraction_in_range : b.min_capacity_fraction ≤ 1000
  pub tokens_fit : b.tokens ≤ b.current_capacity * token
  pub capacity_positive : 1 ≤ b.current_capacity
  pub capacity_below_base : b.current_capacity ≤ b.base_capacity
  pub rate_positive : 500_000 ≤ b.current_refill_per_sec
  pub rate_below_base : b.current_refill_per_sec ≤ b.base_refill_per_sec * per_second

pub clamp-le : (severity : ℤ) → clamp severity ≤ 1000
clamp-le (pos s) = omega arith
clamp-le (negsuc s) = omega arith

-- The factor lies between the floor and 1, whatever the severity.
pub throttle_factor-bounds :
    (severity : ℤ) (floor : ℕ)
    → floor ≤ 1000
    → (floor * 1000 ≤ throttle_factor severity floor) × (throttle_factor severity floor ≤ 1_000_000)
unfolding throttle_factor
throttle_factor-bounds severity floor h =
    (omega (arith, mul-le-mul_right (1000 - floor) (clamp-le severity)), omega arith)

pub new-IsValid :
    (capacity rate fraction now : ℕ)
    → 1 ≤ capacity
    → 1 ≤ rate
    → fraction ≤ 1000
    → IsValid (new capacity rate fraction now)
unfolding new
new-IsValid capacity rate fraction now h k f = ground arith

pub refill-IsValid : (now : ℕ) (b : TokenBucket) → IsValid b → IsValid (refill now b)
unfolding refill
refill-IsValid now b v = ground arith

pub try_consume-IsValid :
    (now cost : ℕ) (b : TokenBucket) → IsValid b → IsValid (try_consume now cost b).0
unfolding try_consume
try_consume-IsValid now cost b v = ground (arith, refill-IsValid now b v)

pub ms_until_available-IsValid :
    (now cost : ℕ) (b : TokenBucket) → IsValid b → IsValid (ms_until_available now cost b).0
unfolding ms_until_available
ms_until_available-IsValid now cost b v = ground (arith, refill-IsValid now b v)

pub snapshot-IsValid : (now : ℕ) (b : TokenBucket) → IsValid b → IsValid (snapshot now b).0
unfolding snapshot
snapshot-IsValid now b v = refill-IsValid now b v

pub reset-IsValid : (b : TokenBucket) → IsValid b → IsValid (reset b)
unfolding reset
reset-IsValid b v = ground arith

pub adapt-IsValid : (severity : ℤ) (b : TokenBucket) → IsValid b → IsValid (adapt severity b)
unfolding adapt
adapt-IsValid severity b v = ground (
  arith,
  throttle_factor-bounds severity b.min_capacity_fraction v.fraction_in_range,
  mul-le-mul_left b.base_capacity
      (throttle_factor-bounds severity b.min_capacity_fraction v.fraction_in_range).1,
  mul-le-mul_left b.base_refill_per_sec
      (throttle_factor-bounds severity b.min_capacity_fraction v.fraction_in_range).1,
)

-- With a minimal fraction of at most 1, however hard the throttling, the capacity is at least the
-- given fraction of the base, up to the rounding by half a token, and the rate at least that
-- fraction of the base rate.
pub adapt-floor :
    (severity : ℤ) (b : TokenBucket)
    → b.min_capacity_fraction ≤ 1000
    → (b.base_capacity * b.min_capacity_fraction ≤ (adapt severity b).current_capacity * 1000 + 500)
      × (b.base_refill_per_sec * b.min_capacity_fraction * 1000
          ≤ (adapt severity b).current_refill_per_sec)
unfolding adapt
adapt-floor severity b v = (
  omega (
    arith,
    mul-le-mul_left b.base_capacity (throttle_factor-bounds severity b.min_capacity_fraction v).0,
  ),
  omega (
    arith,
    mul-le-mul_left b.base_refill_per_sec
        (throttle_factor-bounds severity b.min_capacity_fraction v).0,
  ),
)

throttle_factor-antitone :
    (s t floor : ℕ) → s ≤ t → throttle_factor (pos t) floor ≤ throttle_factor (pos s) floor
unfolding throttle_factor
throttle_factor-antitone s t floor h =
    omega (arith, mul-le-mul_right {m = min 1000 s} {n = min 1000 t} (1000 - floor) (omega arith))

-- A worse severity, both not negative, never leaves a larger capacity, a higher rate or more
-- tokens.
pub adapt-antitone :
    (s t : ℕ) (b : TokenBucket)
    → s ≤ t
    → ((adapt (pos t) b).current_capacity ≤ (adapt (pos s) b).current_capacity)
      × ((adapt (pos t) b).current_refill_per_sec ≤ (adapt (pos s) b).current_refill_per_sec)
      × ((adapt (pos t) b).tokens ≤ (adapt (pos s) b).tokens)
unfolding adapt
adapt-antitone s t b h =
    let less = throttle_factor-antitone s t b.min_capacity_fraction h in
    let fewer = mul-le-mul_left b.base_capacity less in
    let slower = mul-le-mul_left b.base_refill_per_sec less in
    (omega arith, omega arith, omega arith)
