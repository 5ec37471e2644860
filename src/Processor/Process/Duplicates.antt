-- ===== src/Processor/Process/Duplicates.antt =====
-- When the customer is not charged: duplicates, and the two gates.
use payment_queue_system_bul.Prelude.{
  ℕ, ◌+◌, ◌≡◌, refl, ◌∙◌, ◌⊎◌, inl, inr, ◌≢◌, Bool-cases, Bool, true, false, [], ◌∷◌, ◌++◌, Option,
  none, some, Text, arith,
}
use payment_queue_system_bul.Types.{
  GatewayResponse, GatewayStatus, settled, transient, rate_limited,
}
use payment_queue_system_bul.Types.Classify.{classify_failure}
use payment_queue_system_bul.Effects.{Outcome, ok, throw, Outcome-cases}
use payment_queue_system_bul.Idempotency as Idempotency
use payment_queue_system_bul.Idempotency.View.{acquire_lock-Sees}
use payment_queue_system_bul.Repository as Repository
use payment_queue_system_bul.Repository.{Row}
use payment_queue_system_bul.Processor.{Env, Session, Job, payment_started}
use payment_queue_system_bul.Processor.Parts.{can_attempt, try_consume}
use payment_queue_system_bul.Processor.Charge.{reconcile}
use payment_queue_system_bul.Processor.Charge.Frame.{reconcile-Keeps}
use payment_queue_system_bul.Processor.Process.{
  Fate, done, admitted, attempt, charge, completed_row,
}

module _ (env : Env) where
  abbrev pub cache : Job → Session env → Outcome (Option GatewayResponse)
  cache job s =
      Idempotency.get_result env.redis env.json (env.time s.reads) job.payment.idempotency_key
        s.store

  abbrev pub stored_row : Job → Session env → Option Row
  stored_row job s = completed_row (Repository.get_status job.payment.id s.rows)

  abbrev is_locked : Job → Session env → Bool
  is_locked job s =
      Idempotency.has_lock env.redis env.json (env.time (s.reads + 1)) job.payment.idempotency_key
        s.store

  -- The payment is known to have been taken up before: its result is cached, or it is not but
  -- the database has it completed, or neither but somebody holds its lock.
  pub data IsDuplicate (job : Job) (s : Session env) : Type 0 where
    cached : (r : GatewayResponse) → cache job s ≡ ok (some r) → IsDuplicate job s
    recorded : (row : Row) → cache job s ≡ ok none → stored_row job s ≡ some row → IsDuplicate job s
    in_flight :
        cache job s ≡ ok none → stored_row job s ≡ none → is_locked job s ≡ true → IsDuplicate job s

  -- What is left of the gateway: untouched, or asked for a status once.
  abbrev pub OnlyAsked : Job → Session env → Session env → Type 0
  OnlyAsked job s s' =
      (s'.outside ≡ s.outside)
      ⊎ (s'.outside ≡ (env.gateway.get_status job.payment.idempotency_key s.outside).1)

  pub lock_refused :
      (now : ℕ) (key : Text) (store : env.redis.Store)
      → Idempotency.has_lock env.redis env.json now key store ≡ true
      → (Idempotency.acquire_lock env.redis env.json now key store).1 ≡ false
  lock_refused now key store h =
      (acquire_lock-Sees env.redis env.json now now key key store (omega arith)).0
      ∙ ground (arith, h)

  reconcile-OnlyAsked :
      (job : Job) (s : Session env)
      → ((reconcile env job.payment s).0 ≡ ok tt) × OnlyAsked job s (reconcile env job.payment s).1
  unfolding reconcile
  reconcile-OnlyAsked job s =
      elim (Bool-cases (
        Idempotency.has_lock env.redis env.json (env.time s.reads) job.payment.idempotency_key
          s.store)) [
            | inl held ↦ (ground arith, inr (ground arith))
            | inr free ↦ (ground arith, inl (ground arith))
          ]

  -- The session behind the two lookups, and behind the refused lock.
  abbrev begun : Job → Session env → Session env
  begun job s = record s {
    events = s.events ++ payment_started job.id job.payment.gateway_id ∷ [];
    reads = s.reads + 1;
  }

  abbrev pub refused : Job → Session env → Session env
  refused job s = record s {
    store =
        (Idempotency.acquire_lock env.redis env.json (env.time s.reads) job.payment.idempotency_key
          s.store).0;
    reads = s.reads + 1;
  }

  admitted-charge :
      (job : Job) (s : Session env)
      → cache job s ≡ ok none
      → stored_row job s ≡ none
      → admitted env job s ≡ charge env job (begun job s)
  unfolding admitted
  admitted-charge job s miss absent = ground arith

  pub charge-refused :
      (job : Job) (s : Session env)
      → (Idempotency.acquire_lock env.redis env.json
          (env.time s.reads)
          job.payment.idempotency_key
          s.store).1
        ≡ false
      → charge env job s ≡ (ok done, (reconcile env job.payment (refused job s)).1)
  unfolding charge
  charge-refused job s h = ground (arith, reconcile-OnlyAsked job (refused job s))

  admitted-in_flight :
      (job : Job) (s : Session env)
      → cache job s ≡ ok none
      → stored_row job s ≡ none
      → is_locked job s ≡ true
      → admitted env job s ≡ (ok done, (reconcile env job.payment (refused job (begun job s))).1)
  admitted-in_flight job s miss absent held =
      admitted-charge job s miss absent
      ∙ charge-refused job (begun job s)
          (lock_refused (env.time (s.reads + 1)) job.payment.idempotency_key s.store held)

  -- A job past the gates whose payment has a cached result, or else a completed row in the
  -- database, or else a lock that is held, is not charged: it is done, with no slot taken, no dead
  -- letter, and nothing asked of the gateway but, at most, the status of the payment.
  pub duplicate_not_charged :
      (job : Job) (s : Session env)
      → IsDuplicate job s
      → let (result, s') = admitted env job s in
        (result ≡ ok done)
        × OnlyAsked job s s'
        × (s'.semaphore ≡ s.semaphore)
        × (s'.dead_letters ≡ s.dead_letters)
  unfolding admitted
  duplicate_not_charged job s (cached r hit) =
      (ground arith, inl (ground arith), ground arith, ground arith)
  duplicate_not_charged job s (recorded row miss hit) =
      (ground arith, inl (ground arith), ground arith, ground arith)
  duplicate_not_charged job s (in_flight miss absent held) =
      let s₁ = refused job (begun job s) in
      let k = reconcile-Keeps env job.payment s₁ in
      rw (admitted-in_flight job s miss absent held)
        (refl, (reconcile-OnlyAsked job s₁).1, k.semaphore, k.dead_letters)

  -- The gateway does not report the payment as settled: it says otherwise, or the lookup throws.
  abbrev pub Unsettled : Outcome GatewayStatus → Type 0
  Unsettled r = (status : GatewayStatus) → r ≡ ok status → status.status ≢ settled

  reconcile-Unsettled :
      (job : Job) (s : Session env)
      → Unsettled (env.gateway.get_status job.payment.idempotency_key s.outside).0
      → let s' = (reconcile env job.payment s).1 in
        (s'.events ≡ s.events) × (s'.rows ≡ s.rows) × (s'.store ≡ s.store)
  unfolding reconcile
  reconcile-Unsettled job s u =
      elim (Outcome-cases (env.gateway.get_status job.payment.idempotency_key s.outside).0) [
        | inl (status, e) ↦ let other = u status e in (ground arith, ground arith, ground arith)
        | inr (err, e) ↦ (ground arith, ground arith, ground arith)
      ]

  -- A job that finds its payment locked by another attempt, and whose gateway does not report
  -- the payment as settled (it is pending, failed or unknown, or the lookup fails), ends as done
  -- all the same, so the queue has nothing to retry: it has announced its start and no more, and
  -- has left the database as it was and no dead letter.
  pub in_flight_dropped :
      (job : Job) (s : Session env)
      → cache job s ≡ ok none
      → stored_row job s ≡ none
      → is_locked job s ≡ true
      → Unsettled (env.gateway.get_status job.payment.idempotency_key s.outside).0
      → let (result, s') = admitted env job s in
        (result ≡ ok done)
        × (s'.events ≡ s.events ++ payment_started job.id job.payment.gateway_id ∷ [])
        × (s'.rows ≡ s.rows)
        × (s'.dead_letters ≡ s.dead_letters)
  in_flight_dropped job s miss absent held u =
      let s₁ = refused job (begun job s) in
      let same = reconcile-Unsettled job s₁ u in
      rw (admitted-in_flight job s miss absent held)
        (refl, same.0, same.1, (reconcile-Keeps env job.payment s₁).dead_letters)

  abbrev ThrowsRetryable : Outcome Fate → Type 0
  ThrowsRetryable (ok fate) = ⊥
  ThrowsRetryable (throw err) =
      (classify_failure err ≡ transient) ⊎ (classify_failure err ≡ rate_limited)

  -- A job that the breaker or the rate limiter turns away is thrown back to the queue with a
  -- failure that is not permanent, whichever attempt it was: the gateway, the stores, the
  -- semaphore and the dead letters are left as they were, also when no retry is left.
  gates_throw :
      (job : Job) (s : Session env)
      → ((can_attempt env s).0 ≡ ok false)
        ⊎ (((can_attempt env s).0 ≡ ok true)
            × ((try_consume env (can_attempt env s).1).0 ≡ ok false))
      → let (result, s') = attempt env job s in
        ThrowsRetryable result
        × (s'.outside ≡ s.outside)
        × (s'.store ≡ s.store)
        × (s'.rows ≡ s.rows)
        × (s'.semaphore ≡ s.semaphore)
        × (s'.dead_letters ≡ s.dead_letters)
  unfolding attempt classify_failure
  gates_throw job s (inl shut) =
      (ground arith, ground arith, ground arith, ground arith, ground arith, ground arith)
  gates_throw job s (inr (passed, empty)) =
      (ground arith, ground arith, ground arith, ground arith, ground arith, ground arith)
