-- ===== src/TokenBucket/Refill.antt =====
-- The rate limit itself: when tokens come back, and how long a caller is told to wait.
use native.Mathlib.Nat.{lt-div-mul-add, div-mul-le_self, mul-le-mul_right}
use payment_queue_system_bul.Prelude.{
  ℕ, zero, suc, ◌+◌, ◌-◌, ◌*◌, ◌/◌, ◌≤◌, ◌<◌, ◌≡◌, ap, true, false, some, arith, leb, ◌⊎◌, inl, inr,
  Bool-cases, leb→le, not_leb→lt, le→leb, leb-cases, sym, ◌∙◌,
}
use payment_queue_system_bul.TokenBucket.{
  TokenBucket, token, refill, try_consume, wait_ms, ms_until_available,
}

pub elapsed-mul_add : (l s t r : ℕ) → l ≤ s → s ≤ t → (t - l) * r ≡ (s - l) * r + (t - s) * r
elapsed-mul_add l s t r h k =
    let e : t - l ≡ (s - l) + (t - s) = omega arith in omega (arith, ap (λ (n : ℕ). n * r) e)

-- Refilling at two times, in their order, leaves what the later refill alone leaves.
refill-refill : (s t : ℕ) (b : TokenBucket) → s ≤ t → refill t (refill s b) ≡ refill t b
unfolding refill
refill-refill s t b h =
    ground (arith, elapsed-mul_add b.last_refill_ms s t b.current_refill_per_sec)

-- What the wait covers: its product with the rate reaches the deficit, and one less does not.
pub wait_ms_lem :
    (deficit rate : ℕ) {w : ℕ}
    → wait_ms deficit rate ≡ some w
    → (deficit ≤ w * rate) × ((v : ℕ) → v < w → v * rate < deficit)
unfolding wait_ms
wait_ms_lem deficit zero h = cc
wait_ms_lem deficit (suc r) {w} h = (
  omega (
    arith,
    lt-div-mul-add {a = deficit + suc r - 1} {b = suc r} (omega arith),
    ap (λ n. n * suc r) e,
  ),
  λ v less. omega (
    arith,
    div-mul-le_self (deficit + suc r - 1) (suc r),
    ap (λ n. n * suc r) e,
    mul-le-mul_right {m = suc v} {n = w} (suc r) less,
  ),
)
  where
    e : (deficit + suc r - 1) / suc r ≡ w
    e = ground arith

refill_last :
    (now : ℕ) (b : TokenBucket) → b.last_refill_ms ≤ now → (refill now b).last_refill_ms ≡ now
unfolding refill
refill_last now b h = ground arith

refill_keeps :
    (now : ℕ) (b : TokenBucket)
    → ((refill now b).current_capacity ≡ b.current_capacity)
      × ((refill now b).current_refill_per_sec ≡ b.current_refill_per_sec)
unfolding refill
refill_keeps now b = (ground arith, ground arith)

-- A request within the capacity is met as soon as the rate has covered what is missing.
try_consume_late :
    (cost t : ℕ) (b : TokenBucket)
    → cost ≤ b.current_capacity
    → b.last_refill_ms ≤ t
    → cost * token ≤ b.tokens + (t - b.last_refill_ms) * b.current_refill_per_sec
    → (try_consume t cost b).1 ≡ true
unfolding try_consume refill
try_consume_late cost t b fits order covered = ground arith

try_consume_early :
    (cost t : ℕ) (b : TokenBucket)
    → b.last_refill_ms ≤ t
    → b.tokens + (t - b.last_refill_ms) * b.current_refill_per_sec < cost * token
    → (try_consume t cost b).1 ≡ false
unfolding try_consume refill
try_consume_early cost t b order short = ground arith

-- What the answer says of the bucket that is left.
ms_until_available_cases :
    (now cost : ℕ) (b : TokenBucket) {w : ℕ}
    → (ms_until_available now cost b).1 ≡ some w
    → ((ms_until_available now cost b).0 ≡ refill now b)
      × (((cost * token ≤ (refill now b).tokens) × (w ≡ 0))
          ⊎ (((refill now b).tokens < cost * token)
              × (wait_ms
                    (cost * token - (refill now b).tokens)
                    (refill now b).current_refill_per_sec
                  ≡ some w)))
unfolding ms_until_available
ms_until_available_cases now cost b told =
    elim (Bool-cases (leb (cost * token) (refill now b).tokens)) [
      | inl e ↦ (ground arith, inl (leb→le _ _ e, ground arith))
      | inr e ↦ (ground arith, inr (not_leb→lt _ _ e, ground arith))
    ]

-- A caller that asks for no more than the capacity, and waits at least as long as it is told,
-- while nobody else draws on the bucket, gets its tokens; before that time it does not. The
-- clock has not stepped back behind the last refill.
pub ms_until_available_exact :
    (now cost t : ℕ) (b : TokenBucket) {w : ℕ}
    → b.last_refill_ms ≤ now
    → cost ≤ b.current_capacity
    → (ms_until_available now cost b).1 ≡ some w
    → now ≤ t
    → (try_consume t cost (ms_until_available now cost b).0).1 ≡ leb (now + w) t
ms_until_available_exact now cost t b {w} old fits told later =
    let (same, how) = ms_until_available_cases now cost b told in
    rw same (elim how [
      | inl (enough, e) ↦
          try_consume_late cost t b' fits' order (omega arith)
          ∙ sym (le→leb (now + w) t (omega arith))
      | inr (short, waits) ↦ timed short (wait_ms_lem _ _ waits) (leb-cases (now + w) t)
    ])
  where
    b' : TokenBucket
    b' = refill now b

    fits' : cost ≤ b'.current_capacity
    fits' = omega (arith, (refill_keeps now b).0)

    order : b'.last_refill_ms ≤ t
    order = omega (arith, refill_last now b old)

    timed :
        b'.tokens < cost * token
        → (cost * token - b'.tokens ≤ w * b'.current_refill_per_sec)
          × ((v : ℕ) → v < w → v * b'.current_refill_per_sec < cost * token - b'.tokens)
        → ((leb (now + w) t ≡ true) × (now + w ≤ t)) ⊎ ((leb (now + w) t ≡ false) × (t < now + w))
        → (try_consume t cost b').1 ≡ leb (now + w) t
    timed short (reach, early) (inl (e, le)) =
        try_consume_late cost t b' fits' order (
          omega (
            arith,
            mul-le-mul_right {m = w} {n = t - b'.last_refill_ms} b'.current_refill_per_sec
                (omega (arith, refill_last now b old)),
          ))
        ∙ sym e
    timed short (reach, early) (inr (e, lt)) =
        try_consume_early cost t b' order
          (omega (arith, early (t - b'.last_refill_ms) (omega (arith, refill_last now b old))))
        ∙ sym e
