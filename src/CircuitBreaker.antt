-- ===== src/CircuitBreaker.antt =====
-- src/payment/circuit-breaker.ts. Rates are exact fractions, thresholds thousandths. A call that
-- reads `Date.now()` takes the reading as its argument. `onStateChange` is called by `transition`
-- alone, at most once in a call: an operation returns the change that the callback is given.
pub mod History
pub mod Machine
pub mod Recovery
pub mod Refusal
use payment_queue_system_bul.Prelude.{
  ℕ, ◌+◌, ◌*◌, Bool, true, false, ◌&&◌, ◌||◌, List, [], ◌∷◌, ◌++◌, Option, none, some, Text, leb,
  ltb, ◌==◌, length, shift, if◌then◌else◌,
}

pub data CircuitState : Type 0 where
  closed open_ half_open : CircuitState

pub CircuitState-discrete : Discrete CircuitState
CircuitState-discrete = hlevel

-- `===` on states.
abbrev pub same_state : CircuitState → CircuitState → Bool
same_state closed closed = true
same_state open_ open_ = true
same_state half_open half_open = true
same_state _ _ = false

pub record CircuitBreakerOptions : Type 0 where
  pub failure_threshold : ℕ
  pub failure_rate_threshold : ℕ  -- thousandths
  pub window_size : ℕ
  pub open_duration_ms : ℕ
  pub half_open_trial_count : ℕ

abbrev pub defaults : CircuitBreakerOptions
defaults = record {
  failure_threshold = 5;
  failure_rate_threshold = 500;
  window_size = 20;
  open_duration_ms = 30_000;
  half_open_trial_count = 3;
}

pub record CircuitBreaker : Type 0 where
  pub gateway_id : Text
  pub opts : CircuitBreakerOptions
  pub open opts use *
  pub state : CircuitState
  pub consecutive_failures : ℕ
  pub outcomes : List Bool  -- oldest first, true = success
  pub opened_at : ℕ
  pub half_open_in_flight : ℕ
  pub half_open_successes : ℕ

abbrev pub new : Text → CircuitBreakerOptions → CircuitBreaker
new gateway_id opts = record {
  gateway_id = gateway_id;
  opts = opts;
  state = closed;
  consecutive_failures = 0;
  outcomes = [];
  opened_at = 0;
  half_open_in_flight = 0;
  half_open_successes = 0;
}

-- The arguments `from` and `to` of the callback.
pub record Change : Type 0 where
  pub from : CircuitState
  pub to : CircuitState

unfoldable pub transition : CircuitState → CircuitBreaker → CircuitBreaker × Option Change
transition to b =
    if same_state b.state to
    then (b, none)
    else (record b { state = to }, some (record { from = b.state; to = to }))

unfoldable pub push_outcome : Bool → CircuitBreaker → CircuitBreaker
push_outcome success b =
    let pushed = b.outcomes ++ success ∷ [] in
    record b { outcomes = if ltb b.window_size (length pushed) then shift pushed else pushed }

abbrev pub count_failures : List Bool → ℕ
count_failures [] = 0
count_failures (true ∷ os) = count_failures os
count_failures (false ∷ os) = count_failures os + 1

-- A quotient of two numbers.
pub record Ratio : Type 0 where
  pub num : ℕ
  pub den : ℕ

unfoldable pub failure_rate : CircuitBreaker → Ratio
failure_rate b =
    if length b.outcomes == 0
    then record { num = 0; den = 1 }
    else record { num = count_failures b.outcomes; den = length b.outcomes }

-- `rate >= threshold`
abbrev pub reaches : Ratio → ℕ → Bool
reaches rate threshold = leb (threshold * rate.den) (rate.num * 1000)

-- The trial gate of the last `if` of `canAttempt`.
unfoldable pub trial_gate : CircuitBreaker → CircuitBreaker × Bool
trial_gate b =
    if leb b.half_open_trial_count b.half_open_in_flight
    then (b, false)
    else (record b { half_open_in_flight = b.half_open_in_flight + 1 }, true)

can_attempt_in : CircuitState → ℕ → CircuitBreaker → CircuitBreaker × Bool × Option Change
unfolding trial_gate transition
can_attempt_in closed now b = (b, true, none)
can_attempt_in open_ now b =
    if leb (b.opened_at + b.open_duration_ms) now
    then (let (b', change) = transition half_open b in
        let (b'', allowed) =
          trial_gate (record b' { half_open_in_flight = 0; half_open_successes = 0 }) in
        (b'', allowed, change))
    else (b, false, none)
can_attempt_in half_open now b = let (b', allowed) = trial_gate b in (b', allowed, none)

unfoldable pub can_attempt : ℕ → CircuitBreaker → CircuitBreaker × Bool × Option Change
unfolding can_attempt_in
can_attempt now b = can_attempt_in b.state now b

unfoldable pub record_success : CircuitBreaker → CircuitBreaker × Option Change
unfolding push_outcome transition
record_success b =
    let b' = push_outcome true (record b { consecutive_failures = 0 }) in
    if same_state b'.state half_open
    then (let b'' = record b' { half_open_successes = b'.half_open_successes + 1 } in
        if leb b''.half_open_trial_count b''.half_open_successes
        then transition closed b''
        else (b'', none))
    else (b', none)

-- `transition(OPEN); openedAt = Date.now()`
unfoldable pub trip : ℕ → CircuitBreaker → CircuitBreaker × Option Change
unfolding transition
trip now b = let (b', change) = transition open_ b in (record b' { opened_at = now }, change)

-- The condition of the last `if` of `recordFailure`.
unfoldable pub should_trip : CircuitBreaker → Bool
unfolding failure_rate
should_trip b =
    leb b.failure_threshold b.consecutive_failures
    || leb b.window_size (length b.outcomes) && reaches (failure_rate b) b.failure_rate_threshold

unfoldable pub record_failure : ℕ → CircuitBreaker → CircuitBreaker × Option Change
unfolding push_outcome trip should_trip
record_failure now b =
    let b' = push_outcome false (record b { consecutive_failures = b.consecutive_failures + 1 }) in
    if same_state b'.state half_open
    then trip now b'
    else if should_trip b'
    then trip now b'
    else (b', none)

severity_in : CircuitState → CircuitBreaker → Ratio
unfolding failure_rate
severity_in open_ b = record { num = 1; den = 1 }
severity_in half_open b = record { num = 6; den = 10 }
severity_in closed b =
    let rate = failure_rate b in
    if leb (rate.den * 2) (rate.num * 3)
    then record { num = 1; den = 1 }
    else record { num = rate.num * 3; den = rate.den * 2 }

-- `Math.min(1, failureRate * 1.5)` while closed.
unfoldable pub severity : CircuitBreaker → Ratio
unfolding severity_in
severity b = severity_in b.state b
