-- ===== src/Tests/Breaker.antt =====
-- src/payment/circuit-breaker.ts at concrete inputs; some are those of
-- src/__tests__/circuit-breaker.spec.ts.
use payment_queue_system_bul.Prelude.{
  ◌+◌, ◌≤◌, ◌≡◌, ◌↔◌, refl, false, List, [], ◌∷◌, ◌++◌, map, arith, codes, replicate,
}
use payment_queue_system_bul.CircuitBreaker.{
  CircuitBreaker, closed, open_, half_open, defaults, new, can_attempt, record_failure,
  record_success,
}
use payment_queue_system_bul.CircuitBreaker.Machine.{
  Call, attempts, fails, succeeds, step, run, granted, IsValid,
}
use payment_queue_system_bul.CircuitBreaker.History.{recorded, Trips, record_failure-Trips_iff}
use payment_queue_system_bul.CircuitBreaker.Refusal.{open_fails_fast, half_open_trials}
use payment_queue_system_bul.CircuitBreaker.Recovery.{recovery}

abbrev fresh : CircuitBreaker
fresh = new (codes "stripe") defaults

abbrev four_failures : List Call
four_failures = fails 1 ∷ fails 2 ∷ fails 3 ∷ fails 4 ∷ []

abbrev outage : List Call
outage = four_failures ++ (fails 5 ∷ attempts 6 ∷ attempts 40_000 ∷ succeeds ∷ fails 40_001 ∷ [])

outage_reopens : (run fresh outage).state ≡ open_
unfolding run step can_attempt record_failure record_success
outage_reopens = refl

still_closed : (run fresh four_failures).state ≡ closed
unfolding run step record_failure
still_closed = refl

record_failure-Trips_iff_example :
    ((record_failure 5 (run fresh four_failures)).0.state ≡ open_)
    ↔ Trips defaults (recorded four_failures ++ false ∷ [])
record_failure-Trips_iff_example =
    record_failure-Trips_iff (codes "stripe") defaults four_failures 5 (omega arith) still_closed

-- Opened at time 100.
abbrev opened : CircuitBreaker
opened = record fresh { state = open_; consecutive_failures = 5; opened_at = 100 }

open_fails_fast_example :
    let cs = attempts 200 ∷ succeeds ∷ fails 300 ∷ attempts 30_000 ∷ [] in
    (granted opened cs ≡ 0) × ((run opened cs).state ≡ open_)
open_fails_fast_example =
    open_fails_fast opened (attempts 200 ∷ succeeds ∷ fails 300 ∷ attempts 30_000 ∷ []) refl
      (omega arith)

recovery_example :
    (granted opened (map attempts (30_100 ∷ 30_200 ∷ 30_300 ∷ [])) ≡ 3)
    × ((run opened (map attempts (30_100 ∷ 30_200 ∷ 30_300 ∷ []) ++ replicate 3 succeeds)).state
        ≡ closed)
recovery_example = recovery opened 30_100 (30_200 ∷ 30_300 ∷ []) refl (omega arith) refl

-- One trial is under way.
abbrev probing : CircuitBreaker
probing = record opened { state = half_open; half_open_in_flight = 1 }

probing-IsValid : IsValid defaults probing
probing-IsValid = ground arith

half_open_trials_example :
    let cs = attempts 1 ∷ succeeds ∷ attempts 2 ∷ attempts 3 ∷ [] in
    ((run probing cs).half_open_in_flight ≡ 1 + granted probing cs) × (1 + granted probing cs ≤ 3)
unfolding step can_attempt record_success
half_open_trials_example =
    half_open_trials defaults probing (attempts 1 ∷ succeeds ∷ attempts 2 ∷ attempts 3 ∷ [])
      probing-IsValid (refl, (refl, (refl, (refl, refl))))

abbrev spent : CircuitBreaker
spent = record probing { half_open_in_flight = 3 }
