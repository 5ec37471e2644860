-- ===== src/Processor/Process.antt =====
-- `process` of src/payment/payment-processor.service.ts. `semaphore.acquire()` may leave the job
-- waiting; `settle` is what runs once the job has its slot, at once or when it is resumed. The
-- readings of the clock may differ by any amount, so time passes at each step; other jobs of the
-- gateway act between calls of `attempt` and `settle`, not within them.
pub mod Terminal
pub mod Duplicates
pub mod Notify
pub mod Races
pub mod LostLock
pub mod LastAttempt
pub mod Forgotten
use payment_queue_system_bul.Prelude.{
  ℕ, ◌+◌, Bool, true, false, not, List, [], ◌∷◌, ◌++◌, Option, none, some, Text, codes, leb,
  if◌then◌else◌,
}
use payment_queue_system_bul.Types.{
  Payment, PaymentStatus, completed, failed, is_completed, GatewayResponse, FailureCategory,
  transient, rate_limited, permanent, Thrown, classified, message_of, shown,
}
use payment_queue_system_bul.Types.Classify.{classify_failure}
use payment_queue_system_bul.Effects.{
  Outcome, ok, throw, Action, pure, raise, modify, gets, ◌>>=◌, ◌>>◌,
}
use payment_queue_system_bul.Repository as Repository
use payment_queue_system_bul.Repository.{Row}
use payment_queue_system_bul.Processor.{Env, Session, Job, payment_started}
use payment_queue_system_bul.Processor.Parts.{
  emit, can_attempt, record_success, record_failure, try_consume, ms_until_available, get_result,
  store_result, acquire_lock, release_lock, acquire_slot, release_slot, finalize,
  move_to_dead_letter,
}
use payment_queue_system_bul.Processor.Charge.{success_response, run_saga, reconcile}

-- How a call of `process` leaves the job, unless it throws: done, or waiting for a slot.
pub data Fate : Type 0 where
  done waiting : Fate

abbrev pub is_permanent : FailureCategory → Bool
is_permanent permanent = true
is_permanent _ = false

-- `dbRecord?.status === PaymentStatus.COMPLETED`, with the record.
abbrev pub completed_row : Option Row → Option Row
completed_row none = none
completed_row (some row) = if is_completed row.status then some row else none

-- `dbRecord.gatewayTransactionId ?? 'unknown'`
abbrev pub transaction_or_unknown : Option Text → Text
transaction_or_unknown none = codes "unknown"
transaction_or_unknown (some id) = id

module _ (env : Env) where
  -- The failure is final: the payment is marked and moved to the dead letter queue.
  unfoldable pub bury : Payment → Option Text → Option Text → Action (Session env) Unit
  unfolding finalize move_to_dead_letter
  bury payment message reason s =
      move_to_dead_letter env payment reason (finalize env payment failed message s)

  -- The `catch` of `process`.
  unfoldable pub handle_failure : Job → Thrown → Action (Session env) Fate
  unfolding bury record_failure release_lock
  handle_failure job err = do
    record_failure env
    if is_permanent (classify_failure err)
        then (do
          bury job.payment (message_of err) (message_of err)
          release_lock env job.payment.idempotency_key
          pure done)
        else (do
          release_lock env job.payment.idempotency_key
          if leb job.payment.max_retries (job.attempts_made + 1)
              then (do
                bury job.payment (message_of err)
                    (some (codes "exhausted retries: " ++ shown (message_of err)))
                pure done)
              else raise err)

  -- The rest of `settle`, once the saga has ended: the inner `try`, its `finally`, and the `catch`.
  unfoldable pub after_saga : Job → Outcome (Unit {0}) → Action (Session env) Fate
  unfolding record_success release_slot handle_failure
  after_saga job (ok _) s = (ok done, release_slot env (record_success env s))
  after_saga job (throw err) s = handle_failure job err (release_slot env s)

  unfoldable pub settle : Job → Action (Session env) Fate
  unfolding run_saga after_saga
  settle job s = let (r, s') = run_saga env job.payment s in after_saga job r s'

  -- Completed before: only the event and the breaker's success.
  unfoldable pub finish_again : Job → Action (Session env) Fate
  unfolding finalize record_success
  finish_again job = do
    modify (finalize env job.payment completed none)
    modify (record_success env)
    pure done

  -- From the lock on.
  unfoldable pub charge : Job → Action (Session env) Fate
  unfolding settle reconcile acquire_lock acquire_slot
  charge job = do
    locked ← acquire_lock env job.payment.idempotency_key
    if not locked
        then (do reconcile env job.payment; pure done)
        else (do granted ← acquire_slot env job.id; if granted then settle job else pure waiting)

  -- What the database says on a miss in Redis.
  unfoldable pub by_row : Job → Option Row → Action (Session env) Fate
  unfolding finish_again charge store_result
  by_row job none = charge job
  by_row job (some row) = do
    store_result env job.payment.idempotency_key (
        success_response (transaction_or_unknown row.gateway_transaction_id) job.payment.gateway_id)
    finish_again job

  unfoldable pub by_cache : Job → Option GatewayResponse → Action (Session env) Fate
  unfolding finish_again by_row
  by_cache job (some cached) s = finish_again job s
  by_cache job none s = by_row job (completed_row (Repository.get_status job.payment.id s.rows)) s

  -- Past the two gates.
  unfoldable pub admitted : Job → Action (Session env) Fate
  unfolding by_cache emit get_result
  admitted job = do
    modify (emit env (payment_started job.id job.payment.gateway_id))
    cached ← get_result env job.payment.idempotency_key
    by_cache job cached

  -- The span of `process`, for a registered gateway.
  unfoldable pub attempt : Job → Action (Session env) Fate
  unfolding admitted can_attempt try_consume ms_until_available
  attempt job = do
    allowed ← can_attempt env
    if not allowed
        then raise (
            classified (codes "Circuit open for gateway " ++ job.payment.gateway_id) transient none)
        else (do
          consumed ← try_consume env
          if not consumed
              then (do
                wait ← ms_until_available env
                raise (
                    classified
                      (codes "Rate limited on gateway "
                        ++ (job.payment.gateway_id
                            ++ (codes ", retry in " ++ (env.show_ms wait ++ codes "ms"))))
                      rate_limited none))
              else admitted job)
