-- ===== src/CircuitBreaker/Recovery.antt =====
-- The way back to closed.
use native.Mathlib.Nat.{add-zero}
use payment_queue_system_bul.Prelude.{
  ℕ, zero, suc, ◌+◌, ◌≤◌, ◌<◌, ◌≡◌, refl, true, List, [], ◌∷◌, ◌++◌, map, arith, if◌then◌else◌,
  length, replicate, leb, ap, ◌∙◌,
}
use payment_queue_system_bul.CircuitBreaker.{
  closed, open_, half_open, CircuitBreaker, can_attempt, record_success,
}
use payment_queue_system_bul.CircuitBreaker.Machine.{
  Call, attempts, succeeds, step, allows, granted, run,
}

run-append :
    (b : CircuitBreaker) (cs ds : List Call)
    → (run b (cs ++ ds) ≡ run (run b cs) ds)
      × (granted b (cs ++ ds) ≡ granted b cs + granted (run b cs) ds)
unfolding run granted
run-append b [] ds = (refl, omega arith)
run-append b (c ∷ cs) ds = let (e, g) = run-append (step b c).0 cs ds in (e, omega arith)

-- A half-open breaker after `n` more trials.
abbrev trying : ℕ → CircuitBreaker → CircuitBreaker
trying n b = record b { half_open_in_flight = b.half_open_in_flight + n }

attempt_free :
    (b : CircuitBreaker) (now : ℕ)
    → b.state ≡ half_open
    → b.half_open_in_flight < b.half_open_trial_count
    → ((step b (attempts now)).0 ≡ trying 1 b) × (allows b (attempts now) ≡ true)
unfolding step allows can_attempt
attempt_free b now h free = (ground arith, ground arith)

attempts_free :
    (b : CircuitBreaker) (times : List ℕ)
    → b.state ≡ half_open
    → b.half_open_in_flight + length times ≤ b.half_open_trial_count
    → (run b (map attempts times) ≡ trying (length times) b)
      × (granted b (map attempts times) ≡ length times)
unfolding run granted
attempts_free b [] h free = (rw add-zero, refl)
attempts_free b (now ∷ times) h free =
    let (e, allowed) = attempt_free b now h (omega arith) in
    let (after, all) = attempts_free (trying 1 b) times h (omega arith) in
    (
      ap (λ x. run x (map attempts times)) e
          ∙ after
          ∙ ap (λ n. record b { half_open_in_flight = n }) (omega arith),
      ground (arith, allowed, all, ap (λ x. granted x (map attempts times)) e),
    )

success_half_open :
    (b : CircuitBreaker)
    → b.state ≡ half_open
    → let b' = (record_success b).0 in
      (b'.opts ≡ b.opts)
      × (b'.half_open_successes ≡ b.half_open_successes + 1)
      × (b'.state
          ≡ (if leb b.half_open_trial_count (b.half_open_successes + 1) then closed else half_open))
unfolding record_success
success_half_open b h = (ground arith, ground arith, ground arith)

successes_close :
    (n : ℕ) (b : CircuitBreaker)
    → b.state ≡ half_open
    → b.half_open_successes + suc n ≡ b.half_open_trial_count
    → (run b (replicate (suc n) succeeds)).state ≡ closed
unfolding run step
successes_close zero b h e = ground (arith, success_half_open b h)
successes_close (suc n) b h e =
    successes_close n (record_success b).0 (ground (arith, success_half_open b h))
      (ground (arith, success_half_open b h))

granted-succeeds : (n : ℕ) (b : CircuitBreaker) → granted b (replicate n succeeds) ≡ 0
unfolding granted allows
granted-succeeds zero b = refl
granted-succeeds (suc n) b = rw (granted-succeeds n (step b succeeds).0)

-- The breaker behind the first trial.
abbrev probed : CircuitBreaker → CircuitBreaker
probed b = record b { state = half_open; half_open_in_flight = 1; half_open_successes = 0 }

probe :
    (b : CircuitBreaker) (now : ℕ)
    → b.state ≡ open_
    → b.opened_at + b.open_duration_ms ≤ now
    → 1 ≤ b.half_open_trial_count
    → ((step b (attempts now)).0 ≡ probed b) × (allows b (attempts now) ≡ true)
unfolding step allows can_attempt
probe b now o late k = (ground arith, ground arith)

-- Once `openDurationMs` has passed, the next `halfOpenTrialCount` requests are all let through,
-- at whatever times the later ones come, and if as many successes are then recorded the breaker
-- is closed. The number of trials is at least one.
pub recovery :
    (b : CircuitBreaker) (now : ℕ) (times : List ℕ)
    → b.state ≡ open_
    → b.opened_at + b.open_duration_ms ≤ now
    → b.half_open_trial_count ≡ suc (length times)
    → let trials = map attempts (now ∷ times) in
      let successes = replicate (suc (length times)) succeeds in
      (granted b trials ≡ b.half_open_trial_count) × ((run b (trials ++ successes)).state ≡ closed)
unfolding granted run
recovery b now times o late k =
    let (first, allowed) = probe b now o late (omega arith) in
    let (rest, all) = attempts_free (probed b) times refl (omega arith) in
    let trials : run b (map attempts (now ∷ times)) ≡ trying (length times) (probed b) =
      ap (λ x. run x (map attempts times)) first ∙ rest in
    (
      ground (arith, allowed, all, ap (λ x. granted x (map attempts times)) first),
      rw (run-append b (map attempts (now ∷ times)) (replicate (suc (length times)) succeeds)).0 (
          rw trials
            (successes_close (length times) (trying (length times) (probed b)) refl (omega arith))),
    )
