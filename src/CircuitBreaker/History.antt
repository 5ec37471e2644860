-- ===== src/CircuitBreaker/History.antt =====
-- The window and the failure counter against the history of outcomes.
use mathlib.Core.List.{append-nil, append_assoc}
use payment_queue_system_bul.Prelude.{
  shift-drop, leb-cases, ap, sym, drop-nil, ◌∙◌, ℕ, suc, ◌+◌, ◌-◌, ◌*◌, ◌≤◌, ◌≡◌, ◌↔◌, ◌⊎◌, refl,
  Bool, true, false, List, [], ◌∷◌, ◌++◌, arith, Text, length, shift, drop, drop-append,
  length-drop, length-append, inl, inr, ltb, if◌then◌else◌,
}
use payment_queue_system_bul.CircuitBreaker.{
  closed, open_, CircuitBreaker, CircuitBreakerOptions, new, can_attempt, record_success,
  record_failure, push_outcome, should_trip, count_failures,
}
use payment_queue_system_bul.CircuitBreaker.Machine.{Call, attempts, fails, succeeds, step, run}

-- The outcomes that a history of calls records, oldest first.
abbrev pub recorded : List Call → List Bool
recorded [] = []
recorded (attempts now ∷ cs) = recorded cs
recorded (fails now ∷ cs) = false ∷ recorded cs
recorded (succeeds ∷ cs) = true ∷ recorded cs

-- The last `n` entries.
abbrev pub last_n : ℕ → List Bool → List Bool
last_n n l = drop (length l - n) l

-- The failures since the last success, with `n` before the list.
abbrev pub streak_from : ℕ → List Bool → ℕ
streak_from n [] = n
streak_from n (true ∷ l) = streak_from 0 l
streak_from n (false ∷ l) = streak_from (n + 1) l

abbrev pub streak : List Bool → ℕ
streak = streak_from 0

streak_from-snoc :
    (n : ℕ) (l : List Bool) (o : Bool)
    → streak_from n (l ++ o ∷ []) ≡ (if o then 0 else streak_from n l + 1)
streak_from-snoc n [] true = refl
streak_from-snoc n [] false = refl
streak_from-snoc n (true ∷ l) o = streak_from-snoc 0 l o
streak_from-snoc n (false ∷ l) o = streak_from-snoc (n + 1) l o

-- One push keeps the window at the last `windowSize` outcomes.
last_n-push :
    (w : ℕ) (l : List Bool) (o : Bool)
    → (if ltb w (length (last_n w l ++ o ∷ []))
        then shift (last_n w l ++ o ∷ [])
        else last_n w l ++ o ∷ [])
      ≡ last_n w (l ++ o ∷ [])
last_n-push w l o = elim (leb-cases w (length l)) [
  | inl (_, le) ↦
      let e : length (l ++ o ∷ []) - w ≡ suc (length l - w) =
        omega (arith, length-append l (o ∷ [])) in
      rw (e, ← drop-append (length l - w) l (o ∷ []) (omega arith))
        (ground (
          arith,
          shift-drop (length l - w) (l ++ o ∷ []),
          length-drop (length l - w) (l ++ o ∷ []),
          length-append l (o ∷ []),
        ))
  | inr (_, lt) ↦
      let e : length (l ++ o ∷ []) - w ≡ 0 = omega (arith, length-append l (o ∷ [])) in
      let e' : length l - w ≡ 0 = omega arith in
      rw (e, e') (ground (arith, length-append l (o ∷ [])))
]

-- The state of the window and of the counter after a history.
abbrev pub Remembers : CircuitBreakerOptions → List Bool → CircuitBreaker → Type 0
Remembers opts l b =
    (b.opts ≡ opts) × (b.outcomes ≡ last_n opts.window_size l) × (b.consecutive_failures ≡ streak l)

record_success-Remembers :
    (opts : CircuitBreakerOptions) (l : List Bool) (b : CircuitBreaker)
    → Remembers opts l b
    → Remembers opts (l ++ true ∷ []) (record_success b).0
unfolding record_success
record_success-Remembers opts l b r =
    ground (arith, last_n-push opts.window_size l true, streak_from-snoc 0 l true)

record_failure-Remembers :
    (opts : CircuitBreakerOptions) (l : List Bool) (now : ℕ) (b : CircuitBreaker)
    → Remembers opts l b
    → Remembers opts (l ++ false ∷ []) (record_failure now b).0
unfolding record_failure
record_failure-Remembers opts l now b r =
    ground (arith, last_n-push opts.window_size l false, streak_from-snoc 0 l false)

can_attempt-Remembers :
    (opts : CircuitBreakerOptions) (l : List Bool) (now : ℕ) (b : CircuitBreaker)
    → Remembers opts l b
    → Remembers opts l (can_attempt now b).0
unfolding can_attempt
can_attempt-Remembers opts l now b r = ground arith

run-Remembers :
    (opts : CircuitBreakerOptions) (l : List Bool) (b : CircuitBreaker) (cs : List Call)
    → Remembers opts l b
    → Remembers opts (l ++ recorded cs) (run b cs)
unfolding run step
run-Remembers opts l b [] r = rw append-nil r
run-Remembers opts l b (attempts now ∷ cs) r =
    run-Remembers opts l (can_attempt now b).0 cs (can_attempt-Remembers opts l now b r)
run-Remembers opts l b (fails now ∷ cs) r = rw (← append_assoc l (false ∷ []) (recorded cs)) (
    run-Remembers opts (l ++ false ∷ []) (record_failure now b).0 cs
      (record_failure-Remembers opts l now b r))
run-Remembers opts l b (succeeds ∷ cs) r = rw (← append_assoc l (true ∷ []) (recorded cs)) (
    run-Remembers opts (l ++ true ∷ []) (record_success b).0 cs
      (record_success-Remembers opts l b r))

-- However calls follow one another on a new breaker, across all its states, its window holds the
-- last `windowSize` outcomes recorded and its counter the length of the last run of failures.
pub run-new-Remembers :
    (id : Text) (opts : CircuitBreakerOptions) (cs : List Call)
    → Remembers opts (recorded cs) (run (new id opts) cs)
run-new-Remembers id opts cs =
    run-Remembers opts [] (new id opts) cs (refl, sym (drop-nil (0 - opts.window_size)), refl)

-- The history that trips a closed breaker: enough failures in a row, or a full window in which
-- the failures reach the threshold (in thousandths).
abbrev pub Trips : CircuitBreakerOptions → List Bool → Type 0
Trips opts l =
    (opts.failure_threshold ≤ streak l)
    ⊎ ((opts.window_size ≤ length l)
        × (opts.failure_rate_threshold * opts.window_size
            ≤ count_failures (last_n opts.window_size l) * 1000))

should_trip_iff :
    (opts : CircuitBreakerOptions) (l : List Bool) (b : CircuitBreaker)
    → 1 ≤ opts.window_size
    → Remembers opts l b
    → (should_trip b ≡ true) ↔ Trips opts l
unfolding should_trip
should_trip_iff opts l b w r = (forward, backward)
  where
    size : length b.outcomes ≡ length l - (length l - opts.window_size)
    size = ap length r.1 ∙ length-drop (length l - opts.window_size) l

    forward : should_trip b ≡ true → Trips opts l
    forward h = ground (arith, size)

    backward : Trips opts l → should_trip b ≡ true
    backward (inl h) = ground (arith, size)
    backward (inr h) = ground (arith, size)

-- The breaker once a failure is counted, before it is decided whether to trip.
abbrev after_failure : CircuitBreaker → CircuitBreaker
after_failure b =
    push_outcome false (record b { consecutive_failures = b.consecutive_failures + 1 })

after_failure-Remembers :
    (opts : CircuitBreakerOptions) (l : List Bool) (b : CircuitBreaker)
    → Remembers opts l b
    → Remembers opts (l ++ false ∷ []) (after_failure b)
unfolding push_outcome
after_failure-Remembers opts l b r =
    ground (arith, last_n-push opts.window_size l false, streak_from-snoc 0 l false)

record_failure-closed :
    (now : ℕ) (b : CircuitBreaker)
    → b.state ≡ closed
    → ((record_failure now b).0.state ≡ open_) ↔ (should_trip (after_failure b) ≡ true)
unfolding record_failure
record_failure-closed now b c = (λ h. ground arith, λ h. ground arith)

-- On a closed breaker with any history of calls behind it, and with a window of at least one
-- outcome, one more failure opens the circuit exactly if the failures since the last success,
-- this one included, reach the threshold, or the last `windowSize` outcomes are all recorded and
-- the failures among them, this one included, reach the rate threshold.
pub record_failure-Trips_iff :
    (id : Text) (opts : CircuitBreakerOptions) (cs : List Call) (now : ℕ)
    → 1 ≤ opts.window_size
    → (run (new id opts) cs).state ≡ closed
    → ((record_failure now (run (new id opts) cs)).0.state ≡ open_)
      ↔ Trips opts (recorded cs ++ false ∷ [])
record_failure-Trips_iff id opts cs now w c =
    let b = run (new id opts) cs in
    let e = record_failure-closed now b c in
    let r = after_failure-Remembers opts (recorded cs) b (run-new-Remembers id opts cs) in
    let both = should_trip_iff opts (recorded cs ++ false ∷ []) (after_failure b) w r in
    (λ h. both.0 (e.0 h), λ h. e.1 (both.1 h))
