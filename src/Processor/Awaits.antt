-- ===== src/Processor/Awaits.antt =====
-- `process` of src/payment/payment-processor.service.ts in pieces: what a job does from one await on
-- Redis, the repository, the gateway, the semaphore or the dead letter queue to the next. A call
-- takes effect, and its reply is taken up, at the begin of the piece that follows it; awaits of
-- functions that reach nothing outside the process (`finalize`, the compensations that only log)
-- are no ends of a piece.
pub mod Endings
pub mod Slots
pub mod Locks
pub mod Places
pub mod Rows
pub mod Guards
pub mod Granting
pub mod Guarding
pub mod Waits
pub mod Tokens
pub mod Spending
use payment_queue_system_bul.Prelude.{
  ◌+◌, Bool, true, false, not, ◌++◌, Option, none, some, Text, codes, leb, if◌then◌else◌,
}
use payment_queue_system_bul.Types.{
  Payment, completed, compensated, failed, GatewayResponse, GatewayStatus, Settlement, settled,
  transient, rate_limited, Thrown, classified, value, message_of, shown,
}
use payment_queue_system_bul.Types.Classify.{classify_failure}
use payment_queue_system_bul.Effects.{Outcome, ok, throw, Action, pure, raise, ◌>>=◌, ◌>>◌}
use payment_queue_system_bul.Repository as Repository
use payment_queue_system_bul.Repository.{Row}
use payment_queue_system_bul.Processor.{Env, Session, Job, payment_started, payment_notify}
use payment_queue_system_bul.Processor.Parts.{
  emit, can_attempt, record_success, record_failure, try_consume, ms_until_available, get_result,
  store_result, acquire_lock, release_lock, has_lock, upsert_status, gateway_process,
  gateway_status, acquire_slot, release_slot, finalize, move_to_dead_letter,
}
use payment_queue_system_bul.Processor.Charge.{
  is_settled, message_or_default, success_response, injects,
}
use payment_queue_system_bul.Processor.Process.{
  Fate, done, is_permanent, completed_row, transaction_or_unknown,
}

-- Where a job stands: at the begin, before the reply to one of its calls, or at its end. In the
-- saga the transaction id is kept, and after a failure the error.
pub data Pc : Type 0 where
  begin at_cache at_row at_lock at_reconcile at_status waiting charging at_unlock : Pc
  at_backfill : (transaction_id : Option Text) → Pc
  at_settled at_ledger at_result : (transaction_id : Text) → Pc
  at_reversal at_burial at_release at_dead_letter : (err : Thrown) → Pc
  ended : (result : Outcome Fate) → Pc

-- A job that has a next piece of its own.
abbrev pub is_running : Pc → Bool
is_running waiting = false
is_running (ended _) = false
is_running _ = true

module _ (env : Env) where
  -- A piece: where the job stands after it, and the session.
  abbrev Piece : Type 0
  Piece = Session env → Pc × Session env

  -- What follows a call, by its outcome.
  abbrev by_outcome : {A : Type 0} → (Thrown → Piece) → (A → Piece) → Outcome A → Piece
  by_outcome caught next (ok a) s = next a s
  by_outcome caught next (throw err) s = caught err s

  abbrev call : {A : Type 0} → Action (Session env) A → (Thrown → Piece) → (A → Piece) → Piece
  call act caught next s = let (r, s') = act s in by_outcome caught next r s'

  -- An error outside the two `try`.
  abbrev uncaught : Thrown → Piece
  uncaught err s = (ended (throw err), s)

  abbrev finished : Piece
  finished s = (ended (ok done), s)

  -- The two gates.
  unfoldable pub gates : Job → Action (Session env) Unit
  unfolding can_attempt try_consume ms_until_available
  gates job = do
    allowed ← can_attempt env
    if not allowed
        then raise (
            classified (codes "Circuit open for gateway " ++ job.payment.gateway_id) transient none)
        else (do
          consumed ← try_consume env
          if not consumed
              then (do
                wait ← ms_until_available env
                raise (
                    classified
                      (codes "Rate limited on gateway "
                        ++ (job.payment.gateway_id
                            ++ (codes ", retry in " ++ (env.show_ms wait ++ codes "ms"))))
                      rate_limited none))
              else pure tt)

  abbrev ask_cache : Job → Piece
  ask_cache job s = (at_cache, emit env (payment_started job.id job.payment.gateway_id) s)

  -- Completed before.
  abbrev finish : Job → Piece
  finish job s = (ended (ok done), record_success env (finalize env job.payment completed none s))

  abbrev by_cached : Job → Option GatewayResponse → Piece
  by_cached job (some cached) s = finish job s
  by_cached job none s = (at_row, s)

  abbrev by_stored : Option Row → Piece
  by_stored (some row) s = (at_backfill row.gateway_transaction_id, s)
  by_stored none s = (at_lock, s)

  abbrev ask_slot : Job → Piece
  ask_slot job =
      call (acquire_slot env job.id) uncaught
        λ granted s. (if granted then charging else waiting, s)

  -- The saga has failed and is compensated: `finally`, and the `catch` of `process`.
  unfoldable pub fail : Job → Thrown → Piece
  unfolding release_slot record_failure finalize
  fail job err s =
      let s' = (record_failure env (release_slot env s)).1 in
      if is_permanent (classify_failure err)
      then (at_burial err, finalize env job.payment failed (message_of err) s')
      else (at_release err, s')

  -- A step of the saga that SAGA_FAIL_STEP names.
  abbrev injected_failure : Text → Thrown
  injected_failure step =
      classified (codes "Injected saga failure at " ++ (step ++ codes " step")) transient none

  abbrev unless_injected : Text → (Thrown → Piece) → Piece → Piece
  unless_injected step caught next =
      if injects env.saga_fail_step step then caught (injected_failure step) else next

  -- The gateway has answered `authorize`: its refusal, or the steps up to the ledger's row.
  unfoldable pub by_response : Job → GatewayResponse → Piece
  unfolding fail
  by_response job res =
      if res.success
      then unless_injected (codes "capture") (fail job)
          (unless_injected (codes "ledger") (fail job) λ s. (at_ledger res.transaction_id, s))
      else fail job (
          classified (message_or_default res.message) (classify_failure (value (shown res.message)))
            none)

  -- From the notification on.
  unfoldable pub notify : Job → Piece
  unfolding emit finalize record_success release_slot
  notify job =
      unless_injected (codes "notify") (λ err s. (at_reversal err, s))
        λ s.
          let s' =
            finalize env job.payment completed none (emit env (payment_notify job.payment.id) s) in
          (ended (ok done), release_slot env (record_success env s'))

  -- The lock is free again: the retries.
  unfoldable pub retry_or_bury : Job → Thrown → Piece
  unfolding finalize
  retry_or_bury job err s =
      if leb job.payment.max_retries (job.attempts_made + 1)
      then (at_dead_letter err, finalize env job.payment failed (message_of err) s)
      else (ended (throw err), s)

  -- The next piece of a job; a job that waits for its slot or has ended has none.
  unfoldable pub advance : Job → Pc → Piece
  unfolding gates fail by_response notify retry_or_bury emit get_result store_result acquire_lock
      release_lock has_lock upsert_status gateway_process gateway_status acquire_slot finalize
      record_success move_to_dead_letter
  advance job begin s = call (gates job) uncaught (λ _. ask_cache job) s
  advance job at_cache s =
      call (get_result env job.payment.idempotency_key) uncaught (by_cached job) s
  advance job at_row s = by_stored (completed_row (Repository.get_status job.payment.id s.rows)) s
  advance job (at_backfill transaction_id) s =
      call
        (store_result env job.payment.idempotency_key
          (success_response (transaction_or_unknown transaction_id) job.payment.gateway_id))
        uncaught (λ _. finish job) s
  advance job at_lock s =
      call (acquire_lock env job.payment.idempotency_key) uncaught
        (λ locked. if locked then ask_slot job else (λ s'. (at_reconcile, s'))) s
  advance job at_reconcile s =
      call (has_lock env job.payment.idempotency_key) uncaught
        (λ held s'. (if held then at_status else ended (ok done), s')) s
  advance job at_status s =
      call (gateway_status env job.payment.idempotency_key) (λ _. finished)
        (λ status s'. (
          if is_settled status.status then at_settled status.transaction_id else ended (ok done),
          s',
        ))
        s
  advance job (at_settled transaction_id) s =
      call
        (store_result env job.payment.idempotency_key
          (success_response transaction_id job.payment.gateway_id))
        (λ _. finished) (λ _ s'. (ended (ok done), finalize env job.payment completed none s')) s
  advance job charging s = call (gateway_process env job.payment) (fail job) (by_response job) s
  advance job (at_ledger transaction_id) s =
      (at_result transaction_id, upsert_status env job.payment.id completed (some transaction_id) s)
  advance job (at_result transaction_id) s =
      call
        (store_result env job.payment.idempotency_key
          (success_response transaction_id job.payment.gateway_id))
        (fail job) (λ _. notify job) s
  advance job (at_reversal err) s =
      fail job err (upsert_status env job.payment.id compensated none s)
  advance job (at_burial err) s =
      call (move_to_dead_letter env job.payment (message_of err)) uncaught (λ _ s'. (at_unlock, s'))
        s
  advance job at_unlock s =
      call (release_lock env job.payment.idempotency_key) uncaught (λ _. finished) s
  advance job (at_release err) s =
      call (release_lock env job.payment.idempotency_key) uncaught (λ _. retry_or_bury job err) s
  advance job (at_dead_letter err) s =
      call
        (move_to_dead_letter env job.payment
          (some (codes "exhausted retries: " ++ shown (message_of err))))
        uncaught (λ _. finished) s
  advance job waiting s = (waiting, s)
  advance job (ended result) s = (ended result, s)
