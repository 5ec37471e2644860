-- ===== src/CircuitBreaker/Machine.antt =====
-- The state machine: which changes there are, that each is reported, and what bounds its counters.
use payment_queue_system_bul.Prelude.{
  ℕ, ◌+◌, ◌≤◌, ◌<◌, if◌then◌else◌, Text, ◌≡◌, refl, Bool, true, false, List, [], ◌∷◌, Option, none,
  some, arith, length, length-append, length-shift, ◌++◌,
}
use payment_queue_system_bul.CircuitBreaker.{
  CircuitState, closed, open_, half_open, CircuitBreaker, Change, CircuitBreakerOptions, new,
  can_attempt, record_success, record_failure,
}

-- The calls that a client makes, with the reading of the clock where the code takes one.
pub data Call : Type 0 where
  attempts fails : ℕ → Call
  succeeds : Call

unfoldable pub step : CircuitBreaker → Call → CircuitBreaker × Option Change
step b (attempts now) = let (b', allowed, change) = can_attempt now b in (b', change)
step b (fails now) = record_failure now b
step b succeeds = record_success b

-- The four arrows of the diagram.
infix 40 ◌⟶◌
pub data ◌⟶◌ : CircuitState → CircuitState → Type 0 where
  trips : closed ⟶ open_
  probes : open_ ⟶ half_open
  recovers : half_open ⟶ closed
  relapses : half_open ⟶ open_

-- What a call reports is what happened: no change, or an arrow of the diagram from the old state
-- to the new one.
abbrev pub Reports : CircuitState → CircuitState → Option Change → Type 0
Reports s t none = t ≡ s
Reports s t (some change) = (change.from ≡ s) × (change.to ≡ t) × (s ⟶ t)

step-Reports : (b : CircuitBreaker) (c : Call) → Reports b.state (step b c).0.state (step b c).1
unfolding step can_attempt record_success record_failure
step-Reports b (attempts now) = grind (arith, trips, probes, recovers, relapses)
step-Reports b (fails now) = grind (arith, trips, probes, recovers, relapses)
step-Reports b succeeds = grind (arith, trips, probes, recovers, relapses)

unfoldable pub run : CircuitBreaker → List Call → CircuitBreaker
run b [] = b
run b (c ∷ cs) = run (step b c).0 cs

-- Whether the call is an attempt that is let through.
unfoldable pub allows : CircuitBreaker → Call → Bool
allows b (attempts now) = (can_attempt now b).1
allows b (fails now) = false
allows b succeeds = false

-- The requests that are let through along the way.
unfoldable pub granted : CircuitBreaker → List Call → ℕ
granted b [] = 0
granted b (c ∷ cs) = (if allows b c then 1 else 0) + granted (step b c).0 cs

-- No call changes the options; the window and the trials stay within their sizes, and a breaker
-- that is half open still lacks a success.
pub record IsValid (opts : CircuitBreakerOptions) (b : CircuitBreaker) : Type 0 where
  pub opts_kept : b.opts ≡ opts
  pub window_bounded : length b.outcomes ≤ opts.window_size
  pub trials_bounded : b.half_open_in_flight ≤ opts.half_open_trial_count
  pub success_missing :
      b.state ≡ half_open
      → 1 ≤ opts.half_open_trial_count
      → b.half_open_successes < opts.half_open_trial_count

pub new-IsValid : (id : Text) (opts : CircuitBreakerOptions) → IsValid opts (new id opts)
new-IsValid id opts = ground arith

-- Whatever is called, in whatever order and at whatever times.
step-IsValid :
    (opts : CircuitBreakerOptions) (b : CircuitBreaker) (c : Call)
    → IsValid opts b
    → IsValid opts (step b c).0
unfolding step can_attempt record_success record_failure
step-IsValid opts b (attempts now) v = ground arith
step-IsValid opts b (fails now) v =
    ground (arith, length-append b.outcomes (false ∷ []), length-shift (b.outcomes ++ false ∷ []))
step-IsValid opts b succeeds v =
    ground (arith, length-append b.outcomes (true ∷ []), length-shift (b.outcomes ++ true ∷ []))

pub run-IsValid :
    (opts : CircuitBreakerOptions) (b : CircuitBreaker) (cs : List Call)
    → IsValid opts b
    → IsValid opts (run b cs)
unfolding run
run-IsValid opts b [] v = v
run-IsValid opts b (c ∷ cs) v = run-IsValid opts (step b c).0 cs (step-IsValid opts b c v)

-- After any calls on a new breaker its options are those it was made with, its window holds at
-- most the given number of outcomes, no more than the given number of trials are counted, and
-- while it is half open it lacks at least one of the successes that would close it.
pub run-new-IsValid :
    (id : Text) (opts : CircuitBreakerOptions) (cs : List Call)
    → IsValid opts (run (new id opts) cs)
run-new-IsValid id opts cs = run-IsValid opts (new id opts) cs (new-IsValid id opts)

abbrev prepend : Option Change → List Change → List Change
prepend none rest = rest
prepend (some change) rest = change ∷ rest

-- The changes that the callback is told of, in order.
unfoldable pub changes : CircuitBreaker → List Call → List Change
changes b [] = []
changes b (c ∷ cs) = prepend (step b c).1 (changes (step b c).0 cs)

-- A chain of arrows of the diagram that leads from the first state to the last.
abbrev pub Chain : CircuitState → List Change → CircuitState → Type 0
Chain s [] t = t ≡ s
Chain s (c ∷ cs) t = (c.from ≡ s) × (s ⟶ c.to) × Chain c.to cs t

prepend-Chain :
    (o : Option Change) (s t u : CircuitState) (rest : List Change)
    → Reports s t o
    → Chain t rest u
    → Chain s (prepend o rest) u
prepend-Chain none s t u rest same h = rw same at h
prepend-Chain (some change) s t u rest rep h = (rep.0, rw rep.1 rep.2, rw rep.1 h)

-- What the callback is told over any history is a path through the diagram (closed to open, open
-- to half open, half open to closed or open) from the breaker's first state to its last.
pub changes-Chain :
    (b : CircuitBreaker) (cs : List Call) → Chain b.state (changes b cs) (run b cs).state
unfolding changes run
changes-Chain b [] = refl
changes-Chain b (c ∷ cs) =
    prepend-Chain (step b c).1 b.state (step b c).0.state _ (changes (step b c).0 cs)
      (step-Reports b c) (changes-Chain (step b c).0 cs)
