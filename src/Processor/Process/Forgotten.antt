-- ===== src/Processor/Process/Forgotten.antt =====
-- A payment that was taken and whose cached result is gone: what `process` makes of the row in the
-- database.
use payment_queue_system_bul.Prelude.{some}
use payment_queue_system_bul.Types.{completed, GatewayResponse}
use payment_queue_system_bul.Idempotency as Idempotency
use payment_queue_system_bul.Repository as Repository
use payment_queue_system_bul.Repository.{Row}
use payment_queue_system_bul.Processor.{Env}

module _ (env : Env) where
  abbrev paid_row : GatewayResponse → Row
  paid_row res = record { status = completed; gateway_transaction_id = some res.transaction_id }
