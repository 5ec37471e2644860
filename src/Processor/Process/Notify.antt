-- ===== src/Processor/Process/Notify.antt =====
-- A notification that fails: the row in the database and the cached result after it.
use payment_queue_system_bul.Prelude.{
  false, refl, ℕ, ◌+◌, ◌*◌, ◌≤◌, ◌<◌, ◌≡◌, ap, ◌∙◌, true, ◌++◌, none, some, codes, arith, text_eq,
  text_eq_refl, lookup-insert_self, lt→ltb,
}
use payment_queue_system_bul.Types.{
  Payment, completed, compensated, GatewayResponse, Thrown, classified, transient,
}
use payment_queue_system_bul.Effects.{Outcome, ok, throw}
use payment_queue_system_bul.Saga.{run}
use payment_queue_system_bul.Saga.Steps.{build_payment_saga_steps}
use payment_queue_system_bul.Idempotency as Idempotency
use payment_queue_system_bul.Idempotency.{result_ttl_sec}
use payment_queue_system_bul.Idempotency.View.{store_result-Sees, release_lock-Sees}
use payment_queue_system_bul.Repository as Repository
use payment_queue_system_bul.Processor.{Env, Session, Job}
use payment_queue_system_bul.Processor.Parts.{release_slot}
use payment_queue_system_bul.Processor.Charge.{run_saga, success_response}
use payment_queue_system_bul.Processor.Process.{after_saga, handle_failure, settle}
use payment_queue_system_bul.Processor.Process.Terminal.{
  handle_failure-store, handle_failure-rows, skips_unlock,
}
use payment_queue_system_bul.Types.Classify.{classify_failure}

abbrev pub notify_error : Thrown
notify_error =
    classified (codes "Injected saga failure at " ++ (codes "notify" ++ codes " step")) transient
      none

module _ (env : Env) where
  -- The stores once the failed saga has been compensated.
  abbrev after_notify : Payment → GatewayResponse → Session env → Session env
  after_notify payment res s = record s {
    outside = (env.gateway.process payment s.outside).1;
    rows =
        Repository.upsert_status payment.id compensated none
          (Repository.upsert_status payment.id completed (some res.transaction_id) s.rows);
    store =
        Idempotency.store_result env.redis env.json (env.time s.reads) payment.idempotency_key
          (success_response res.transaction_id payment.gateway_id) s.store;
    reads = s.reads + 1;
  }

  run_saga-notify :
      (payment : Payment) (s : Session env) {res : GatewayResponse}
      → env.saga_fail_step ≡ some (codes "notify")
      → (env.gateway.process payment s.outside).0 ≡ ok res
      → res.success ≡ true
      → run_saga env payment s ≡ (throw notify_error, after_notify payment res s)
  unfolding run_saga run build_payment_saga_steps text_eq
  run_saga-notify payment s fails charged success = ground arith

  settle-throw :
      (job : Job) (s : Session env) {err : Thrown} {s₁ : Session env}
      → run_saga env job.payment s ≡ (throw err, s₁)
      → settle env job s ≡ handle_failure env job err (release_slot env s₁)
  unfolding settle after_saga
  settle-throw job s e = ap (λ (x : Outcome (Unit {0}) × Session env). after_saga env job x.0 x.1) e

  -- The failure is not a permanent one.
  not_skipped : (job : Job) (o : env.Outside) → skips_unlock env job notify_error o ≡ false
  unfolding classify_failure
  not_skipped job o = refl

  row_compensated :
      (payment : Payment) (res : GatewayResponse) (s : Session env)
      → Repository.get_status payment.id (after_notify payment res s).rows
        ≡ some (record { status = compensated; gateway_transaction_id = none })
  unfolding Repository.get_status Repository.upsert_status
  row_compensated payment res s = lookup-insert_self payment.id _ _

  -- If the gateway has charged the customer and the notification then fails, the attempt leaves
  -- the payment COMPENSATED in the database, with no transaction id; yet for 24 hours from the
  -- time at which the result was stored its idempotency key still yields a successful result, so
  -- that every retry in that time is taken for a payment that was completed. Every reading of the
  -- clock lies before the time of the retry.
  pub notify_failure_contradicts :
      (job : Job) (t : ℕ) (s : Session env) {res : GatewayResponse}
      → env.saga_fail_step ≡ some (codes "notify")
      → (env.gateway.process job.payment s.outside).0 ≡ ok res
      → res.success ≡ true
      → ((n : ℕ) → env.time n ≤ t)
      → t < env.time s.reads + result_ttl_sec * 1000
      → let s' = (settle env job s).1 in
        (Repository.get_status job.payment.id s'.rows
          ≡ some (record { status = compensated; gateway_transaction_id = none }))
        × (Idempotency.get_result env.redis env.json t job.payment.idempotency_key s'.store
            ≡ ok (some (success_response res.transaction_id job.payment.gateway_id)))
  unfolding release_slot
  notify_failure_contradicts job t s {res} fails charged success early fresh =
      let s₁ = release_slot env (after_notify job.payment res s) in
      let key = job.payment.idempotency_key in
      let r = success_response res.transaction_id job.payment.gateway_id in
      let e = settle-throw job s (run_saga-notify job.payment s fails charged success) in
      rw e (
        rw (handle_failure-rows env job notify_error s₁) (row_compensated job.payment res s),
        rw (handle_failure-store env job notify_error s₁, not_skipped job s₁.outside)
            ((release_lock-Sees env.redis env.json (env.time (s₁.reads + 1)) t key key s₁.store
                (early (s₁.reads + 1))).1
              ∙ (store_result-Sees env.redis env.json (env.time s.reads) t key key r s.store
                  (early s.reads)).1
              ∙ ground (arith, text_eq_refl key, lt→ltb t _ fresh)),
      )
