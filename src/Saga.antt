-- ===== src/Saga.antt =====
-- src/payment/saga.ts. A step's functions act on a world `W`. The log line of a failed
-- compensation, which asks for manual reconciliation, is the parameter `log_failure`, given the
-- step's name, the error and the context; the other log lines are left out.
pub mod Order
pub mod Steps
use payment_queue_system_bul.Prelude.{
  ◌≡◌, Bool, true, false, List, [], ◌∷◌, ◌++◌, Option, none, some, Text, codes, reverse,
}
use payment_queue_system_bul.Types.{Thrown}
use payment_queue_system_bul.Effects.{Outcome, ok, throw, Action}

pub record PaymentSagaContext : Type 0 where
  pub payment_id : Text
  pub correlation_id : Text
  pub reserved : Option Bool
  pub gateway_transaction_id : Option Text
  pub captured : Option Bool
  pub ledger_entry_id : Option Text
  pub notified : Option Bool

-- `Partial<PaymentSagaContext>`, of the fields that the steps return.
pub record Patch : Type 0 where
  pub reserved : Option Bool
  pub gateway_transaction_id : Option Text
  pub captured : Option Bool
  pub ledger_entry_id : Option Text
  pub notified : Option Bool

abbrev pub no_patch : Patch
no_patch = record {
  reserved = none;
  gateway_transaction_id = none;
  captured = none;
  ledger_entry_id = none;
  notified = none;
}

abbrev pub or_else {ℓ} : {A : Type ℓ} → Option A → Option A → Option A
or_else none old = old
or_else (some a) old = some a

-- `{ ...ctx, ...patch }`
abbrev pub merge : PaymentSagaContext → Patch → PaymentSagaContext
merge ctx patch = record ctx {
  reserved = or_else patch.reserved ctx.reserved;
  gateway_transaction_id = or_else patch.gateway_transaction_id ctx.gateway_transaction_id;
  captured = or_else patch.captured ctx.captured;
  ledger_entry_id = or_else patch.ledger_entry_id ctx.ledger_entry_id;
  notified = or_else patch.notified ctx.notified;
}

pub record SagaStep (W : Type 0) : Type 0 where
  pub name : Text
  pub execute : PaymentSagaContext → Action W Patch
  pub compensate : PaymentSagaContext → Action W Unit

module _ {W : Type 0} (log_failure : Text → Thrown → PaymentSagaContext → W → W) where
  -- The `try` of one compensation: a failure is logged and goes no further.
  unfoldable pub undo : SagaStep W → PaymentSagaContext → W → W
  undo step ctx w =
      let (r, w') = step.compensate ctx w in
      elim r [ ok _ ↦ w' | throw e ↦ log_failure step.name e ctx w' ]

  unfoldable pub undo_all : List (SagaStep W) → PaymentSagaContext → W → W
  undo_all [] ctx w = w
  undo_all (step ∷ steps) ctx w = undo_all steps ctx (undo step ctx w)

  unfoldable pub compensate : List (SagaStep W) → PaymentSagaContext → W → W
  unfolding undo_all undo
  compensate completed_steps ctx w = undo_all (reverse completed_steps) ctx w

  -- The loop of `run`, with the steps completed so far.
  unfoldable pub run_from :
      List (SagaStep W) → List (SagaStep W) → PaymentSagaContext → Action W PaymentSagaContext
  unfolding compensate
  run_from completed_steps [] ctx w = (ok ctx, w)
  run_from completed_steps (step ∷ steps) ctx w =
      let (r, w') = step.execute ctx w in
      elim r [
        | ok patch ↦ run_from (completed_steps ++ step ∷ []) steps (merge ctx patch) w'
        | throw e ↦ (throw e, compensate completed_steps ctx w')
      ]

  unfoldable pub run : List (SagaStep W) → PaymentSagaContext → Action W PaymentSagaContext
  unfolding run_from
  run steps ctx w = run_from [] steps ctx w
