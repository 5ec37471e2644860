-- ===== src/Backoff/Jitter.antt =====
-- Full jitter: the range of the delays of an attempt.
use native.Mathlib.Nat.{
  div-lt_iff_lt-mul, mul-lt-mul_of_pos_right, mul-div_cancel, one-le-pow, pow-suc, mul-le-mul,
}
use payment_queue_system_bul.Prelude.{subst, ◌↔◌, ℕ, suc, ◌-◌, ◌*◌, ◌≤◌, ◌<◌, ◌≡◌, min, arith}
use payment_queue_system_bul.Backoff.{Draw, exponential, compute_backoff_ms}

exponential_pos :
    (attempt base_ms cap_ms : ℕ) → 1 ≤ base_ms → 1 ≤ cap_ms → 1 ≤ exponential attempt base_ms cap_ms
unfolding exponential
exponential_pos attempt base_ms cap_ms h k =
    omega (arith, mul-le-mul h (one-le-pow (attempt - 1) 2 (omega arith)))

exponential-le_cap : (attempt base_ms cap_ms : ℕ) → exponential attempt base_ms cap_ms ≤ cap_ms
unfolding exponential
exponential-le_cap attempt base_ms cap_ms = omega arith

compute_backoff_ms-lt_exponential :
    (random : Draw) (attempt base_ms cap_ms : ℕ)
    → 1 ≤ exponential attempt base_ms cap_ms
    → compute_backoff_ms random attempt base_ms cap_ms < exponential attempt base_ms cap_ms
unfolding compute_backoff_ms
compute_backoff_ms-lt_exponential random attempt base_ms cap_ms pos =
    (div-lt_iff_lt-mul {k = random.den} (omega (arith, random.below_one))).1
      (omega (arith, mul-lt-mul_of_pos_right random.below_one pos))

-- With a base and a cap of at least 1 ms, whatever is drawn, the delay stays below the exponential,
-- and so below the cap.
compute_backoff_ms-lt :
    (random : Draw) (attempt base_ms cap_ms : ℕ)
    → 1 ≤ base_ms
    → 1 ≤ cap_ms
    → (compute_backoff_ms random attempt base_ms cap_ms < exponential attempt base_ms cap_ms)
      × (compute_backoff_ms random attempt base_ms cap_ms < cap_ms)
compute_backoff_ms-lt random attempt base_ms cap_ms h k =
    let below =
      compute_backoff_ms-lt_exponential random attempt base_ms cap_ms
        (exponential_pos attempt base_ms cap_ms h k) in
    (below, omega (arith, exponential-le_cap attempt base_ms cap_ms))

-- Every delay below the exponential is drawn by some random number: the jitter covers the range.
compute_backoff_ms-onto :
    (attempt base_ms cap_ms delay : ℕ)
    → delay < exponential attempt base_ms cap_ms
    → (random : Draw) × (compute_backoff_ms random attempt base_ms cap_ms ≡ delay)
unfolding compute_backoff_ms
compute_backoff_ms-onto attempt base_ms cap_ms delay h = (
  record { num = delay; den = exponential attempt base_ms cap_ms; below_one = h },
  mul-div_cancel delay (omega arith),
)

-- The range doubles with each attempt until it reaches the cap, and stays there.
exponential-suc :
    (n base_ms cap_ms : ℕ)
    → exponential (suc (suc n)) base_ms cap_ms ≡ min cap_ms (2 * exponential (suc n) base_ms cap_ms)
unfolding exponential
exponential-suc n base_ms cap_ms =
    let e : suc n - 1 ≡ n = omega arith in
    let e' : suc (suc n) - 1 ≡ suc n = omega arith in rw (e, e', pow-suc) (omega arith)

-- With a base and a cap of at least 1 ms, the delays that can be drawn for an attempt are exactly
-- those below its capped exponential.
pub compute_backoff_ms_iff :
    (attempt base_ms cap_ms delay : ℕ)
    → 1 ≤ base_ms
    → 1 ≤ cap_ms
    → ((random : Draw) × (compute_backoff_ms random attempt base_ms cap_ms ≡ delay))
      ↔ (delay < exponential attempt base_ms cap_ms)
compute_backoff_ms_iff attempt base_ms cap_ms delay h k = (
  λ drawn.
      subst (λ d. d < exponential attempt base_ms cap_ms) drawn.1
        (compute_backoff_ms-lt drawn.0 attempt base_ms cap_ms h k).0,
  λ below. compute_backoff_ms-onto attempt base_ms cap_ms delay below,
)
