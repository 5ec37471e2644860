-- ===== src/Repository.antt =====
-- src/payment/payment.repository.ts: the in-memory repository. `upsertStatus` replaces the row, so
-- a transaction id that is not given again is forgotten. `extra` is used for that id alone.
use payment_queue_system_bul.Prelude.{Option, Text, Dict, lookup, insert}
use payment_queue_system_bul.Types.{PaymentStatus}

pub record Row : Type 0 where
  pub status : PaymentStatus
  pub gateway_transaction_id : Option Text

unfoldable pub get_status : Text → Dict Row → Option Row
unfolding lookup
get_status payment_id store = lookup payment_id store

unfoldable pub upsert_status : Text → PaymentStatus → Option Text → Dict Row → Dict Row
unfolding insert
upsert_status payment_id status gateway_transaction_id store =
    insert payment_id (record { status = status; gateway_transaction_id = gateway_transaction_id })
      store
