-- ===== src/Processor/Charge.antt =====
-- runSaga, throwInjectedSagaFailure and reconcile of src/payment/payment-processor.service.ts.
pub mod Frame
use payment_queue_system_bul.Prelude.{
  Bool, true, false, List, [], ◌∷◌, ◌++◌, Option, none, some, Text, codes, text_eq, if◌then◌else◌,
}
use payment_queue_system_bul.Types.{
  Payment, completed, compensated, GatewayResponse, Settlement, settled, pending, failed, Thrown,
  classified, value, transient, shown,
}
use payment_queue_system_bul.Types.Classify.{classify_failure}
use payment_queue_system_bul.Effects.{Outcome, ok, throw, Action, pure, raise, modify, ◌>>=◌, ◌>>◌}
use payment_queue_system_bul.Saga.{PaymentSagaContext, run}
use payment_queue_system_bul.Saga.Steps.{SagaDeps, build_payment_saga_steps}
use payment_queue_system_bul.Processor.{Env, Session, payment_notify}
use payment_queue_system_bul.Processor.Parts.{
  emit, gateway_process, gateway_status, store_result, has_lock, upsert_status, finalize,
}

-- `res.message ?? 'authorization failed'`
abbrev pub message_or_default : Option Text → Text
message_or_default none = codes "authorization failed"
message_or_default (some m) = m

abbrev pub text_or_empty : Option Text → Text
text_or_empty none = []
text_or_empty (some t) = t

abbrev pub success_response : Text → Text → GatewayResponse
success_response transaction_id gateway_id = record {
  success = true;
  transaction_id = transaction_id;
  gateway_id = gateway_id;
  raw_code = none;
  message = none;
}

abbrev pub injects : Option Text → Text → Bool
injects none step = false
injects (some named) step = text_eq named step

abbrev pub is_settled : Settlement → Bool
is_settled settled = true
is_settled _ = false

module _ (env : Env) where
  unfoldable pub throw_injected_saga_failure : Text → Action (Session env) Unit
  throw_injected_saga_failure step =
      if injects env.saga_fail_step step
      then raise
          (classified (codes "Injected saga failure at " ++ (step ++ codes " step")) transient none)
      else pure tt

  abbrev pub log_failure : Text → Thrown → PaymentSagaContext → Session env → Session env
  log_failure name e ctx s = record s { failed_compensations = s.failed_compensations ++ name ∷ [] }

  unfoldable pub authorize : Payment → Action (Session env) Text
  unfolding gateway_process
  authorize payment = do
    res ← gateway_process env payment
    if res.success
        then pure res.transaction_id
        else raise (
            classified (message_or_default res.message)
              (classify_failure (value (shown res.message))) none)

  unfoldable pub write_ledger_entry : Payment → PaymentSagaContext → Action (Session env) Text
  unfolding throw_injected_saga_failure upsert_status store_result
  write_ledger_entry payment ctx = do
    throw_injected_saga_failure (codes "ledger")
    modify (upsert_status env payment.id completed ctx.gateway_transaction_id)
    store_result env payment.idempotency_key
        (success_response (text_or_empty ctx.gateway_transaction_id) payment.gateway_id)
    pure (codes "ledger_" ++ ctx.payment_id)

  -- The two compensations that only log do nothing here.
  unfoldable pub saga_deps : Payment → SagaDeps (Session env)
  unfolding authorize throw_injected_saga_failure write_ledger_entry upsert_status emit
  saga_deps payment = record {
    authorize = λ ctx. authorize payment;
    void_authorization = λ ctx. pure tt;
    capture = λ ctx. throw_injected_saga_failure (codes "capture");
    refund = λ ctx. pure tt;
    write_ledger_entry = write_ledger_entry payment;
    reverse_ledger_entry = λ ctx. modify (upsert_status env payment.id compensated none);
    notify_customer = λ ctx. (do
      throw_injected_saga_failure (codes "notify")
      modify (emit env (payment_notify ctx.payment_id)));
  }

  abbrev pub initial_context : Payment → PaymentSagaContext
  initial_context payment = record {
    payment_id = payment.id;
    correlation_id = payment.correlation_id;
    reserved = none;
    gateway_transaction_id = none;
    captured = none;
    ledger_entry_id = none;
    notified = none;
  }

  unfoldable pub run_saga : Payment → Action (Session env) Unit
  unfolding saga_deps finalize run build_payment_saga_steps
  run_saga payment = do
    run log_failure (build_payment_saga_steps (saga_deps payment)) (initial_context payment)
    modify (finalize env payment completed none)

  -- The `try` of `reconcile`: whatever the lookup throws is dropped.
  unfoldable pub settle_by_status : Payment → Action (Session env) Unit
  unfolding gateway_status store_result finalize
  settle_by_status payment = do
    status ← gateway_status env payment.idempotency_key
    if is_settled status.status
        then (do
          store_result env payment.idempotency_key
              (success_response status.transaction_id payment.gateway_id)
          modify (finalize env payment completed none))
        else pure tt

  unfoldable pub reconcile : Payment → Action (Session env) Unit
  unfolding has_lock settle_by_status
  reconcile payment = do
    still_locked ← has_lock env payment.idempotency_key
    if still_locked then (λ s. (ok tt, (settle_by_status payment s).1)) else pure tt
