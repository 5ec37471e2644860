-- ===== src/Processor/Process/LastAttempt.antt =====
-- The last attempt that `process` of src/payment/payment-processor.service.ts grants a payment.
use payment_queue_system_bul.Prelude.{
  ◌+◌, ◌≤◌, ◌≡◌, refl, ap, sym, subst, ◌⊎◌, inl, inr, Bool-cases, true, false, none, some, Option,
  arith, le→leb,
}
use payment_queue_system_bul.Types.{GatewayResponse, Thrown}
use payment_queue_system_bul.Effects.{Outcome, ok, throw, Outcome-cases}
use payment_queue_system_bul.Types.Classify.{classify_failure}
use payment_queue_system_bul.CircuitBreaker as Breaker
use payment_queue_system_bul.TokenBucket as Bucket
use payment_queue_system_bul.Semaphore as Semaphore
use payment_queue_system_bul.Idempotency as Idempotency
use payment_queue_system_bul.Repository.{Row}
use payment_queue_system_bul.Processor.{Env, Session, Job, DeadLetter}
use payment_queue_system_bul.Processor.Parts.{can_attempt, try_consume}
use payment_queue_system_bul.Processor.Charge.{run_saga}
use payment_queue_system_bul.Processor.Process.{
  is_permanent, Fate, done, waiting, settle, charge, by_row, by_cache, admitted, attempt,
}
use payment_queue_system_bul.Processor.Process.Terminal.{buried, answer, verdict, settle-Settles}
use payment_queue_system_bul.Processor.Process.Duplicates.{cache, charge-refused}

abbrev pub Ends : Outcome Fate → Type 0
Ends r = (fate : Fate) × (r ≡ ok fate)

abbrev IsLast : Job → Type 0
IsLast job = job.payment.max_retries ≤ job.attempts_made + 1

module _ (env : Env) where
  -- What the dead letter queue may throw.
  abbrev pub IsRefusal : Thrown → Type 0
  IsRefusal err = (l : DeadLetter) × ((o : env.Outside) × (env.add_dead_letter l o ≡ throw err))

  -- The job ends or waits, or the dead letter queue rejects it.
  abbrev pub EndsOrRefused : Outcome Fate → Type 0
  EndsOrRefused r = Ends r ⊎ ((err : Thrown) × (r ≡ throw err) × IsRefusal err)

  -- Done, unless the dead letter queue rejects the payment.
  buried-cases :
      (l : DeadLetter) (o : env.Outside)
      → ((buried l (env.add_dead_letter l o)).0 ≡ ok done)
        ⊎ ((err : Thrown) × ((buried l (env.add_dead_letter l o)).0 ≡ throw err) × IsRefusal err)
  buried-cases l o = elim (Outcome-cases (env.add_dead_letter l o)) [
    | inl (_, taken) ↦ inl (rw taken refl)
    | inr (err, refused) ↦ inr (err, rw refused refl, (l, (o, refused)))
  ]

  -- Done, or rejected.
  abbrev pub DoneOrRefused : Outcome Fate → Type 0
  DoneOrRefused r = (r ≡ ok done) ⊎ ((err : Thrown) × (r ≡ throw err) × IsRefusal err)

  verdict-last :
      (job : Job) (saga : Outcome Unit) (o : env.Outside)
      → IsLast job
      → DoneOrRefused (verdict job saga (answer env o)).0
  verdict-last job (ok _) o last = inl refl
  verdict-last job (throw err) o last = elim (Bool-cases (is_permanent (classify_failure err))) [
    | inl final ↦ rw final (buried-cases _ o)
    | inr other ↦ rw (other, le→leb _ _ last) (buried-cases _ o)
  ]

  settle-last : (job : Job) (s : Session env) → IsLast job → DoneOrRefused (settle env job s).0
  settle-last job s last =
      let (saga, s₁) = run_saga env job.payment s in
      subst DoneOrRefused (sym (settle-Settles env job s).0) (verdict-last job saga s₁.outside last)

  DoneOrRefused-Ends : {r : Outcome Fate} → DoneOrRefused r → EndsOrRefused r
  DoneOrRefused-Ends (inl e) = inl (done, e)
  DoneOrRefused-Ends (inr x) = inr x

  charge-last : (job : Job) (s : Session env) → IsLast job → EndsOrRefused (charge env job s).0
  unfolding charge
  charge-last job s last =
      let key = job.payment.idempotency_key in
      let now = env.time s.reads in
      elim (Bool-cases (Idempotency.acquire_lock env.redis env.json now key s.store).1) [
        | inl taken ↦ elim (Bool-cases (Semaphore.acquire job.id s.semaphore).1) [
          | inl slot ↦ rw (taken, slot) (DoneOrRefused-Ends (settle-last job _ last))
          | inr full ↦ inl (waiting, rw (taken, full) refl)
        ]
        | inr held ↦ inl (done, ap (λ o. o.0) (charge-refused env job s held))
      ]

  by_row-last :
      (job : Job) (row : Option Row) (s : Session env)
      → IsLast job
      → EndsOrRefused (by_row env job row s).0
  unfolding by_row
  by_row-last job none s last = charge-last job s last
  by_row-last job (some row) s last = inl (done, refl)

  by_cache-last :
      (job : Job) (cached : Option GatewayResponse) (s : Session env)
      → IsLast job
      → EndsOrRefused (by_cache env job cached s).0
  unfolding by_cache
  by_cache-last job (some cached) s last = inl (done, refl)
  by_cache-last job none s last = by_row-last job _ s last

  -- What keeps an attempt from the gateway and from the end of its job: an open circuit, an empty
  -- bucket, or a cached result that cannot be read.
  pub data IsTurnedAway (job : Job) (s : Session env) : Type 0 where
    circuit_open : (can_attempt env s).0 ≡ ok false → IsTurnedAway job s
    out_of_tokens :
        (can_attempt env s).0 ≡ ok true
        → (try_consume env (can_attempt env s).1).0 ≡ ok false
        → IsTurnedAway job s
    unreadable :
        {err : Thrown}
        → (can_attempt env s).0 ≡ ok true
        → (try_consume env (can_attempt env s).1).0 ≡ ok true
        → cache env job (try_consume env (can_attempt env s).1).1 ≡ throw err
        → IsTurnedAway job s

  abbrev pub IsThrown : Outcome Fate → Type 0
  IsThrown (ok fate) = ⊥
  IsThrown (throw err) = Unit

  admitted-last :
      (job : Job) (s : Session env)
      → IsLast job
      → EndsOrRefused (admitted env job s).0 ⊎ ((err : Thrown) × (cache env job s ≡ throw err))
  unfolding admitted
  admitted-last job s last = elim (Outcome-cases (cache env job s)) [
    | inl (cached, e) ↦ inl (rw e (by_cache-last job cached _ last))
    | inr fails ↦ inr fails
  ]

  attempt-passed :
      (job : Job) (s : Session env)
      → (can_attempt env s).0 ≡ ok true
      → (try_consume env (can_attempt env s).1).0 ≡ ok true
      → attempt env job s ≡ admitted env job (try_consume env (can_attempt env s).1).1
  unfolding attempt
  attempt-passed job s passed granted = ground arith

  can_attempt-cases :
      (s : Session env) → ((can_attempt env s).0 ≡ ok true) ⊎ ((can_attempt env s).0 ≡ ok false)
  unfolding can_attempt
  can_attempt-cases s = elim (Bool-cases (Breaker.can_attempt (env.time s.reads) s.breaker).1) [
    | inl yes_ ↦ inl (ap ok yes_)
    | inr no_ ↦ inr (ap ok no_)
  ]

  try_consume-cases :
      (s : Session env) → ((try_consume env s).0 ≡ ok true) ⊎ ((try_consume env s).0 ≡ ok false)
  unfolding try_consume
  try_consume-cases s = elim (Bool-cases (Bucket.try_consume (env.time s.reads) 1 s.bucket).1) [
    | inl yes_ ↦ inl (ap ok yes_)
    | inr no_ ↦ inr (ap ok no_)
  ]

  attempt-last :
      (job : Job) (s : Session env)
      → IsLast job
      → EndsOrRefused (attempt env job s).0 ⊎ IsTurnedAway job s
  attempt-last job s last = elim (can_attempt-cases s) [
    | inr shut ↦ inr (circuit_open shut)
    | inl passed ↦ elim (try_consume-cases (can_attempt env s).1) [
      | inr empty ↦ inr (out_of_tokens passed empty)
      | inl granted ↦ elim (admitted-last job (try_consume env (can_attempt env s).1).1 last) [
        | inl ends ↦
            inl
              (subst EndsOrRefused (sym (ap (λ o. o.0) (attempt-passed job s passed granted))) ends)
        | inr (err, fails) ↦ inr (unreadable passed granted fails)
      ]
    ]
  ]

  turned_away-IsThrown :
      (job : Job) (s : Session env)
      → IsTurnedAway job s
      → IsThrown (attempt env job s).0
        × ((attempt env job s).1.dead_letters ≡ s.dead_letters)
        × ((attempt env job s).1.outside ≡ s.outside)
  unfolding attempt admitted
  turned_away-IsThrown job s (circuit_open shut) = (ground arith, ground arith, ground arith)
  turned_away-IsThrown job s (out_of_tokens passed empty) =
      (ground arith, ground arith, ground arith)
  turned_away-IsThrown job s (unreadable passed granted fails) =
      (ground arith, ground arith, ground arith)

  -- The last attempt that a payment is granted (`attemptsMade + 1 >= maxRetries`) throws when it is
  -- turned away: the circuit is open, or the bucket is empty, or the cached result cannot be read. It
  -- then leaves no dead letter, and the gateway untouched. Else it ends: the job is done, or it waits
  -- for a slot; or it throws what the dead letter queue threw. Once it has got a slot it is done, or
  -- throws what the dead letter queue threw. The calls of Redis are taken to resolve.
  pub last_attempt :
      (job : Job) (s : Session env)
      → job.payment.max_retries ≤ job.attempts_made + 1
      → (IsTurnedAway job s
          → IsThrown (attempt env job s).0
            × ((attempt env job s).1.dead_letters ≡ s.dead_letters)
            × ((attempt env job s).1.outside ≡ s.outside))
        × (EndsOrRefused (attempt env job s).0 ⊎ IsTurnedAway job s)
        × ((t : Session env) → DoneOrRefused (settle env job t).0)
  last_attempt job s last =
      (turned_away-IsThrown job s, attempt-last job s last, λ t. settle-last job t last)
