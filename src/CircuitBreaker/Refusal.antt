-- ===== src/CircuitBreaker/Refusal.antt =====
-- Failing fast while open, and the trials of a half-open breaker.
use payment_queue_system_bul.Prelude.{
  ℕ, ◌+◌, ◌≤◌, ◌<◌, ◌≡◌, refl, false, List, [], ◌∷◌, map, arith, All, if◌then◌else◌, ap, ◌∙◌,
}
use payment_queue_system_bul.CircuitBreaker.{
  open_, half_open, CircuitBreaker, CircuitBreakerOptions, can_attempt, record_success,
  record_failure,
}
use payment_queue_system_bul.CircuitBreaker.Machine.{
  Call, attempts, fails, succeeds, step, allows, granted, run, IsValid, run-IsValid,
}

-- The call reads the clock within the given span, or not at all.
abbrev pub Within : ℕ → ℕ → Call → Type 0
Within from until (attempts now) = (from ≤ now) × (now < until)
Within from until (fails now) = (from ≤ now) × (now < until)
Within from until succeeds = Unit {0}

-- Open since no earlier than `from`.
abbrev OpenSince : ℕ → CircuitBreakerOptions → CircuitBreaker → Type 0
OpenSince from opts b = (b.state ≡ open_) × (from ≤ b.opened_at) × (b.opts ≡ opts)

step-OpenSince :
    (from : ℕ) (opts : CircuitBreakerOptions) (b : CircuitBreaker) (c : Call)
    → OpenSince from opts b
    → Within from (from + opts.open_duration_ms) c
    → OpenSince from opts (step b c).0 × (allows b c ≡ false)
unfolding step allows can_attempt record_success record_failure
step-OpenSince from opts b (attempts now) o w = (ground arith, ground arith)
step-OpenSince from opts b (fails now) o w = (ground arith, refl)
step-OpenSince from opts b succeeds o w = (ground arith, refl)

granted-open :
    (from : ℕ) (opts : CircuitBreakerOptions) (b : CircuitBreaker) (cs : List Call)
    → OpenSince from opts b
    → All (Within from (from + opts.open_duration_ms)) cs
    → (granted b cs ≡ 0) × ((run b cs).state ≡ open_)
unfolding granted run
granted-open from opts b [] o w = (refl, o.0)
granted-open from opts b (c ∷ cs) o w =
    let (o', refused) = step-OpenSince from opts b c o w.0 in
    let (none_granted, still) = granted-open from opts (step b c).0 cs o' w.1 in
    (rw (refused, none_granted), still)

-- A breaker that opened at `openedAt` lets no request through, and stays open, during any calls
-- (late successes and failures of earlier requests included) whose clock readings lie from
-- `openedAt` to before `openedAt + openDurationMs`.
pub open_fails_fast :
    (b : CircuitBreaker) (cs : List Call)
    → b.state ≡ open_
    → All (Within b.opened_at (b.opened_at + b.open_duration_ms)) cs
    → (granted b cs ≡ 0) × ((run b cs).state ≡ open_)
open_fails_fast b cs o w = granted-open b.opened_at b.opts b cs (o, omega arith, refl) w

-- The breaker is half open before the calls and after each of them.
abbrev pub StaysHalfOpen : CircuitBreaker → List Call → Type 0
StaysHalfOpen b [] = b.state ≡ half_open
StaysHalfOpen b (c ∷ cs) = (b.state ≡ half_open) × StaysHalfOpen (step b c).0 cs

step_half_open :
    (b : CircuitBreaker) (c : Call)
    → b.state ≡ half_open
    → (step b c).0.state ≡ half_open
    → (step b c).0.half_open_in_flight ≡ b.half_open_in_flight + (if allows b c then 1 else 0)
unfolding step allows can_attempt record_success record_failure
step_half_open b (attempts now) h k = ground arith
step_half_open b (fails now) h k = ground arith
step_half_open b succeeds h k = ground arith

StaysHalfOpen-head :
    (b : CircuitBreaker) (cs : List Call) → StaysHalfOpen b cs → b.state ≡ half_open
StaysHalfOpen-head b [] h = h
StaysHalfOpen-head b (c ∷ cs) h = h.0

in_flight-granted :
    (b : CircuitBreaker) (cs : List Call)
    → StaysHalfOpen b cs
    → (run b cs).half_open_in_flight ≡ b.half_open_in_flight + granted b cs
unfolding granted run
in_flight-granted b [] h = omega arith
in_flight-granted b (c ∷ cs) h = omega (
  arith,
  step_half_open b c h.0 (StaysHalfOpen-head (step b c).0 cs h.1),
  in_flight-granted (step b c).0 cs h.1,
)

-- For as long as a well-formed breaker stays half open, `halfOpenInFlight` is the number of trials
-- let through since it became so: it never comes down, however many of them have ended. So at most
-- `halfOpenTrialCount` requests get through in one half-open period.
pub half_open_trials :
    (opts : CircuitBreakerOptions) (b : CircuitBreaker) (cs : List Call)
    → IsValid opts b
    → StaysHalfOpen b cs
    → ((run b cs).half_open_in_flight ≡ b.half_open_in_flight + granted b cs)
      × (b.half_open_in_flight + granted b cs ≤ opts.half_open_trial_count)
half_open_trials opts b cs v h = (
  in_flight-granted b cs h,
  omega (arith, in_flight-granted b cs h, (run-IsValid opts b cs v).trials_bounded),
)

attempt_full :
    (b : CircuitBreaker) (now : ℕ)
    → b.state ≡ half_open
    → b.half_open_trial_count ≤ b.half_open_in_flight
    → ((step b (attempts now)).0 ≡ b) × (allows b (attempts now) ≡ false)
unfolding step allows can_attempt
attempt_full b now h full = (ground arith, ground arith)

-- A half-open breaker whose trials have all been handed out refuses every further request at
-- whatever time, and is left as it was: only an outcome of an earlier request can move it, so
-- trials that never report one leave it refusing for good.
pub half_open_stuck :
    (b : CircuitBreaker) (times : List ℕ)
    → b.state ≡ half_open
    → b.half_open_trial_count ≤ b.half_open_in_flight
    → (granted b (map attempts times) ≡ 0) × (run b (map attempts times) ≡ b)
unfolding granted run
half_open_stuck b [] h full = (refl, refl)
half_open_stuck b (now ∷ times) h full =
    let (same, refused) = attempt_full b now h full in
    let (g, r) = half_open_stuck b times h full in
    (
      ground (arith, refused, g, ap (λ x. granted x (map attempts times)) same),
      ap (λ x. run x (map attempts times)) same ∙ r,
    )
