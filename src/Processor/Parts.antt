-- ===== src/Processor/Parts.antt =====
-- The services as the processor calls them: each call is an action on the session.
use payment_queue_system_bul.Prelude.{
  ℕ, ◌+◌, Bool, List, [], ◌∷◌, ◌++◌, Option, none, some, Text, codes,
}
use payment_queue_system_bul.Prelude.Int.{pos}
use payment_queue_system_bul.Types.{Payment, PaymentStatus, GatewayResponse, GatewayStatus, shown}
use payment_queue_system_bul.Effects.{ok, throw, Action, modify, ◌>>=◌}
use payment_queue_system_bul.CircuitBreaker as Breaker
use payment_queue_system_bul.CircuitBreaker.{Change, closed, open_, half_open, CircuitState}
use payment_queue_system_bul.TokenBucket as Bucket
use payment_queue_system_bul.Semaphore as Semaphore
use payment_queue_system_bul.Idempotency as Idempotency
use payment_queue_system_bul.Repository as Repository
use payment_queue_system_bul.Repository.{Row}
use payment_queue_system_bul.Processor.{
  Env, Event, payment_status_changed, payment_dead_letter, circuit_breaker_state_change, Session,
  DeadLetter,
}

-- `{ ...payment, failureReason }` under `dlq:${key}`.
abbrev pub letter : Payment → Option Text → DeadLetter
letter payment reason = record {
  payment = record payment { failure_reason = reason };
  job_id = codes "dlq:" ++ payment.idempotency_key;
}

module _ (env : Env) where
  -- `Date.now()`
  unfoldable pub now : Action (Session env) ℕ
  now s = (ok (env.time s.reads), record s { reads = s.reads + 1 })

  unfoldable pub emit : Event → Session env → Session env
  emit e s = record s { events = s.events ++ e ∷ [] }

  -- The rate limiter's part in a change of the breaker.
  abbrev pub feed_back : CircuitState → Bucket.TokenBucket → Bucket.TokenBucket
  feed_back open_ b = Bucket.adapt (pos 1000) b
  feed_back closed b = Bucket.reset b
  feed_back half_open b = b

  -- The callback that `registerGateway` gives the breaker. The breaker of a gateway is created with
  -- the id under which it is stored, and keeps it, so `getRateLimiter(id)` is the session's bucket.
  unfoldable pub on_state_change : Text → Option Change → Session env → Session env
  unfolding emit
  on_state_change gateway_id none s = s
  on_state_change gateway_id (some change) s =
      emit (circuit_breaker_state_change gateway_id change.from change.to)
        (record s { bucket = feed_back change.to s.bucket })

  unfoldable pub can_attempt : Action (Session env) Bool
  unfolding now on_state_change
  can_attempt = do
    t ← now
    λ s.
        let (b, allowed, change) = Breaker.can_attempt t s.breaker in
        (ok allowed, on_state_change b.gateway_id change (record s { breaker = b }))

  unfoldable pub record_success : Session env → Session env
  unfolding on_state_change
  record_success s =
      let (b, change) = Breaker.record_success s.breaker in
      on_state_change b.gateway_id change (record s { breaker = b })

  unfoldable pub record_failure : Action (Session env) Unit
  unfolding now on_state_change
  record_failure = do
    t ← now
    λ s.
        let (b, change) = Breaker.record_failure t s.breaker in
        (ok tt, on_state_change b.gateway_id change (record s { breaker = b }))

  unfoldable pub try_consume : Action (Session env) Bool
  unfolding now
  try_consume = do
    t ← now
    λ s. let (b, granted) = Bucket.try_consume t 1 s.bucket in (ok granted, record s { bucket = b })

  unfoldable pub ms_until_available : Action (Session env) (Option ℕ)
  unfolding now
  ms_until_available = do
    t ← now
    λ s.
        let (b, wait) = Bucket.ms_until_available t 1 s.bucket in (ok wait, record s { bucket = b })

  unfoldable pub get_result : Text → Action (Session env) (Option GatewayResponse)
  unfolding now
  get_result key = do t ← now; λ s. (Idempotency.get_result env.redis env.json t key s.store, s)

  unfoldable pub store_result : Text → GatewayResponse → Action (Session env) Unit
  unfolding now
  store_result key r = do
    t ← now
    modify λ s. record s { store = Idempotency.store_result env.redis env.json t key r s.store }

  unfoldable pub acquire_lock : Text → Action (Session env) Bool
  unfolding now
  acquire_lock key = do
    t ← now
    λ s.
        let (store, granted) = Idempotency.acquire_lock env.redis env.json t key s.store in
        (ok granted, record s { store = store })

  unfoldable pub release_lock : Text → Action (Session env) Unit
  unfolding now
  release_lock key = do
    t ← now
    modify λ s. record s { store = Idempotency.release_lock env.redis env.json t key s.store }

  unfoldable pub has_lock : Text → Action (Session env) Bool
  unfolding now
  has_lock key = do t ← now; λ s. (ok (Idempotency.has_lock env.redis env.json t key s.store), s)

  unfoldable pub upsert_status : Text → PaymentStatus → Option Text → Session env → Session env
  upsert_status id status transaction s = record s {
    rows = Repository.upsert_status id status transaction s.rows;
  }

  unfoldable pub gateway_process : Payment → Action (Session env) GatewayResponse
  gateway_process payment s =
      let (r, outside) = env.gateway.process payment s.outside in
      (r, record s { outside = outside })

  unfoldable pub gateway_status : Text → Action (Session env) GatewayStatus
  gateway_status id s =
      let (r, outside) = env.gateway.get_status id s.outside in (r, record s { outside = outside })

  -- The semaphore, with the job that asks; and the job whose wait a release ends.
  unfoldable pub acquire_slot : Text → Action (Session env) Bool
  acquire_slot job_id s =
      let (semaphore, granted) = Semaphore.acquire job_id s.semaphore in
      (ok granted, record s { semaphore = semaphore })

  abbrev pub listed : Option Text → List Text
  listed none = []
  listed (some id) = id ∷ []

  unfoldable pub release_slot : Session env → Session env
  release_slot s =
      let (semaphore, woken) = Semaphore.release s.semaphore in
      record s { semaphore = semaphore; resumed = s.resumed ++ listed woken }

  -- `finalize`
  unfoldable pub finalize : Payment → PaymentStatus → Option Text → Session env → Session env
  unfolding emit
  finalize payment status reason =
      emit (payment_status_changed payment.id status reason payment.correlation_id)

  -- QueueManagerService.moveToDeadLetter. If the queue rejects the job there is no event, and the
  -- error goes on to the caller.
  unfoldable pub move_to_dead_letter : Payment → Option Text → Action (Session env) Unit
  unfolding emit
  move_to_dead_letter payment reason s =
      elim (env.add_dead_letter (letter payment reason) s.outside) [
        | throw err ↦ (throw err, s)
        | ok _ ↦ (
          ok tt,
          emit (payment_dead_letter payment.id (shown reason))
              (record s { dead_letters = s.dead_letters ++ letter payment reason ∷ [] }),
        )
      ]
