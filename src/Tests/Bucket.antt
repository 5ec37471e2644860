-- ===== src/Tests/Bucket.antt =====
-- src/queue/token-bucket.ts and src/payment/backoff.ts at concrete inputs; some are those of
-- src/__tests__/token-bucket.spec.ts.
use payment_queue_system_bul.Prelude.{
  ◌↔◌, ◌+◌, ◌-◌, ◌*◌, ◌≤◌, ◌<◌, ◌≡◌, refl, true, List, [], ◌∷◌, some, arith, leb,
}
use payment_queue_system_bul.Prelude.Int.{pos}
use payment_queue_system_bul.TokenBucket.{
  TokenBucket, token, new, try_consume, ms_until_available, adapt, snapshot,
}
use payment_queue_system_bul.TokenBucket.Refill.{ms_until_available_exact}
use payment_queue_system_bul.TokenBucket.Adapt.{IsValid}
use payment_queue_system_bul.TokenBucket.Limit.{
  Call, consumes, waits, adapts, resets, snapshots, run, run-limit,
}
use payment_queue_system_bul.Backoff.{Draw, exponential, compute_backoff_ms}
use payment_queue_system_bul.Backoff.Jitter.{compute_backoff_ms_iff}

-- Ten tokens, five a second.
abbrev ten : TokenBucket
ten = record {
  base_capacity = 10;
  base_refill_per_sec = 5;
  min_capacity_fraction = 200;
  tokens = 10 * token;
  last_refill_ms = 0;
  current_capacity = 10;
  current_refill_per_sec = 5_000_000;
}

abbrev drained : TokenBucket
drained = record ten { tokens = 0 }

new-ten : new 10 5 200 0 ≡ ten
unfolding new
new-ten = refl

consume_all : try_consume 0 10 ten ≡ (drained, true)
unfolding try_consume
consume_all = refl

-- `adapt(1)` cuts a bucket of 10 to the floor of 2.
adapt_hard : (adapt (pos 1000) ten).current_capacity ≡ 2
unfolding adapt
adapt_hard = refl

wait_for_one : (ms_until_available 0 1 drained).1 ≡ some 200
unfolding ms_until_available
wait_for_one = refl

throttled_snapshot : (snapshot 0 (adapt (pos 1000) ten)).1.throttled ≡ true
unfolding snapshot adapt
throttled_snapshot = refl

ten-IsValid : IsValid ten
ten-IsValid = omega arith

abbrev calls : List Call
calls =
    consumes 0 4 ∷ adapts (pos 600) ∷ waits 100 3 ∷ consumes 900 5 ∷ resets ∷ snapshots 2_000 ∷ []

run-limit_example :
    (run ten calls).1 * token + (run ten calls).0.tokens
    ≤ 10 * token + ((run ten calls).0.last_refill_ms - 0) * (5 * 1_000_000)
run-limit_example = run-limit ten calls ten-IsValid

ms_until_available_exact_example :
    (try_consume 150 1 (ms_until_available 0 1 drained).0).1 ≡ leb (0 + 200) 150
ms_until_available_exact_example =
    ms_until_available_exact 0 1 150 drained (omega arith) (omega arith) wait_for_one (omega arith)

abbrev half : Draw
half = record { num = 1; den = 2; below_one = omega arith }

backoff_third : compute_backoff_ms half 3 500 60_000 ≡ 1000
unfolding compute_backoff_ms exponential
backoff_third = refl

compute_backoff_ms_iff_example :
    ((random : Draw) × (compute_backoff_ms random 3 500 60_000 ≡ 1234))
    ↔ (1234 < exponential 3 500 60_000)
compute_backoff_ms_iff_example =
    compute_backoff_ms_iff 3 500 60_000 1234 (omega arith) (omega arith)
