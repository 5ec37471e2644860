-- ===== src/Saga/Steps/Outcomes.antt =====
-- What the four steps do when they are run as a saga, written out.
use payment_queue_system_bul.Prelude.{◌≡◌, true, some, Text, codes, arith, if◌then◌else◌}
use payment_queue_system_bul.Types.{Thrown}
use payment_queue_system_bul.Effects.{ok, throw, Action}
use payment_queue_system_bul.Saga.{PaymentSagaContext, run, undo}
use payment_queue_system_bul.Saga.Steps.{SagaDeps, build_payment_saga_steps, is_text}

module _ {W : Type 0} (log_failure : Text → Thrown → PaymentSagaContext → W → W)
    (deps : SagaDeps W) where
  -- A compensation by a dependency: its failure is logged under the step's name.
  abbrev pub attempt : Text → (PaymentSagaContext → Action W Unit) → PaymentSagaContext → W → W
  attempt name action ctx w =
      let (r, w') = action ctx w in elim r [ ok _ ↦ w' | throw e ↦ log_failure name e ctx w' ]

  abbrev pub void : PaymentSagaContext → W → W
  void = attempt (codes "authorize") deps.void_authorization

  abbrev pub refund : PaymentSagaContext → W → W
  refund = attempt (codes "capture") deps.refund

  abbrev pub reverse_ledger : PaymentSagaContext → W → W
  reverse_ledger ctx w =
      if is_text ctx.ledger_entry_id
      then attempt (codes "write_ledger") deps.reverse_ledger_entry ctx w
      else w

  abbrev pub after_authorize : PaymentSagaContext → Text → PaymentSagaContext
  after_authorize ctx id = record ctx { reserved = some true; gateway_transaction_id = some id }

  abbrev pub after_capture : PaymentSagaContext → PaymentSagaContext
  after_capture ctx = record ctx { captured = some true }

  abbrev pub after_ledger : PaymentSagaContext → Text → PaymentSagaContext
  after_ledger ctx id = record ctx { ledger_entry_id = some id }

  pub notified : PaymentSagaContext → Action W PaymentSagaContext
  notified ctx w =
      let (r, w') = deps.notify_customer ctx w in
      elim r [
        | ok _ ↦ (ok (record ctx { notified = some true }), w')
        | throw e ↦ (throw e, void ctx (refund ctx (reverse_ledger ctx w')))
      ]

  pub recorded : PaymentSagaContext → Action W PaymentSagaContext
  unfolding notified
  recorded ctx w =
      let (r, w') = deps.write_ledger_entry ctx w in
      elim r [
        | ok id ↦ notified (after_ledger ctx id) w'
        | throw e ↦ (throw e, void ctx (refund ctx w'))
      ]

  pub captured : PaymentSagaContext → Action W PaymentSagaContext
  unfolding recorded
  captured ctx w =
      let (r, w') = deps.capture ctx w in
      elim r [ ok _ ↦ recorded (after_capture ctx) w' | throw e ↦ (throw e, void ctx w') ]

  pub payment_saga : PaymentSagaContext → Action W PaymentSagaContext
  unfolding captured
  payment_saga ctx w =
      let (r, w') = deps.authorize ctx w in
      elim r [ ok id ↦ captured (after_authorize ctx id) w' | throw e ↦ (throw e, w') ]

  -- The saga over the four steps authorizes, captures, writes the ledger and notifies in this
  -- order, and ends with the first failure: a failed authorization undoes nothing, a failed
  -- capture voids, a failed ledger entry refunds and voids, and a failed notification reverses
  -- the ledger entry (unless its id is empty), refunds and voids, each with the context that the
  -- failed step was given; a compensation that fails is logged and the next one still runs.
  pub run-payment_saga :
      (ctx : PaymentSagaContext) (w : W)
      → run log_failure (build_payment_saga_steps deps) ctx w ≡ payment_saga ctx w
  unfolding run build_payment_saga_steps undo payment_saga
  run-payment_saga ctx w = ground arith
