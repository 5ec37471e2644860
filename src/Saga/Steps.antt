-- ===== src/Saga/Steps.antt =====
-- buildPaymentSagaSteps of src/payment/saga.ts, and the payment saga as one program.
pub mod Outcomes
use payment_queue_system_bul.Prelude.{
  ◌≡◌, refl, Bool, true, false, List, [], ◌∷◌, Option, none, some, Text, codes, if◌then◌else◌,
}
use payment_queue_system_bul.Types.{Thrown}
use payment_queue_system_bul.Effects.{ok, throw, Action, pure, ◌>>=◌, ◌>>◌}
use payment_queue_system_bul.Saga.{PaymentSagaContext, Patch, no_patch, SagaStep}

-- The argument `deps`. `authorize` and `writeLedgerEntry` return the one field of their result.
pub record SagaDeps (W : Type 0) : Type 0 where
  pub authorize : PaymentSagaContext → Action W Text
  pub void_authorization : PaymentSagaContext → Action W Unit
  pub capture : PaymentSagaContext → Action W Unit
  pub refund : PaymentSagaContext → Action W Unit
  pub write_ledger_entry : PaymentSagaContext → Action W Text
  pub reverse_ledger_entry : PaymentSagaContext → Action W Unit
  pub notify_customer : PaymentSagaContext → Action W Unit

-- A flag or a text under `if`: `undefined` and the empty text count as false.
abbrev pub is_set : Option Bool → Bool
is_set none = false
is_set (some b) = b

abbrev pub is_text : Option Text → Bool
is_text none = false
is_text (some []) = false
is_text (some (c ∷ t)) = true

module _ {W : Type 0} (deps : SagaDeps W) where
  unfoldable pub authorize_step : SagaStep W
  authorize_step = record {
    name = codes "authorize";
    execute = λ ctx. do
      id ← deps.authorize ctx
      pure (record no_patch { reserved = some true; gateway_transaction_id = some id });
    compensate = λ ctx. if is_set ctx.reserved then deps.void_authorization ctx else pure tt;
  }

  unfoldable pub capture_step : SagaStep W
  capture_step = record {
    name = codes "capture";
    execute = λ ctx. (do deps.capture ctx; pure (record no_patch { captured = some true }));
    compensate = λ ctx. if is_set ctx.captured then deps.refund ctx else pure tt;
  }

  unfoldable pub write_ledger_step : SagaStep W
  write_ledger_step = record {
    name = codes "write_ledger";
    execute = λ ctx. do
      id ← deps.write_ledger_entry ctx
      pure (record no_patch { ledger_entry_id = some id });
    compensate =
        λ ctx. if is_text ctx.ledger_entry_id then deps.reverse_ledger_entry ctx else pure tt;
  }

  unfoldable pub notify_customer_step : SagaStep W
  notify_customer_step = record {
    name = codes "notify_customer";
    execute = λ ctx. (do deps.notify_customer ctx; pure (record no_patch { notified = some true }));
    compensate = λ ctx. pure tt;
  }

  unfoldable pub build_payment_saga_steps : List (SagaStep W)
  unfolding authorize_step capture_step write_ledger_step notify_customer_step
  build_payment_saga_steps =
      authorize_step ∷ capture_step ∷ write_ledger_step ∷ notify_customer_step ∷ []
