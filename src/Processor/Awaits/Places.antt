-- ===== src/Processor/Awaits/Places.antt =====
-- Where a job of one payment can stand, by its row.
use payment_queue_system_bul.Prelude.{◌≡◌, Bool, true, false, Text, text_eq}
use payment_queue_system_bul.Processor.{Job}
use payment_queue_system_bul.Processor.Awaits.{
  Pc, begin, at_cache, at_row, at_lock, at_reconcile, at_status, waiting, charging, at_unlock,
  at_backfill, at_settled, at_ledger, at_result, at_reversal, at_burial, at_release, at_dead_letter,
  ended,
}

-- Where a job of the payment cannot stand unless its row is completed, and where no job can stand
-- as long as no notification fails and no status is settled.
abbrev pub Fits : Text → Job → Bool → Pc → Type 0
Fits key job paid (at_backfill _) = text_eq job.payment.idempotency_key key ≡ true → paid ≡ true
Fits key job paid (at_result _) = text_eq job.payment.idempotency_key key ≡ true → paid ≡ true
Fits key job paid (at_settled _) = ⊥
Fits key job paid (at_reversal _) = ⊥
Fits key job paid _ = Unit

abbrev pub plain : Pc → Bool
plain (at_backfill _) = false
plain (at_result _) = false
plain (at_settled _) = false
plain (at_reversal _) = false
plain _ = true

module _ (key : Text) (job : Job) where
  pub Fits-plain : (paid : Bool) (p : Pc) → plain p ≡ true → Fits key job paid p
  Fits-plain paid begin h = tt
  Fits-plain paid at_cache h = tt
  Fits-plain paid at_row h = tt
  Fits-plain paid at_lock h = tt
  Fits-plain paid at_reconcile h = tt
  Fits-plain paid at_status h = tt
  Fits-plain paid waiting h = tt
  Fits-plain paid charging h = tt
  Fits-plain paid at_unlock h = tt
  Fits-plain paid (at_ledger id) h = tt
  Fits-plain paid (at_burial err) h = tt
  Fits-plain paid (at_release err) h = tt
  Fits-plain paid (at_dead_letter err) h = tt
  Fits-plain paid (ended r) h = tt
  Fits-plain paid (at_backfill id) h = cc
  Fits-plain paid (at_result id) h = cc
  Fits-plain paid (at_settled id) h = cc
  Fits-plain paid (at_reversal err) h = cc

  pub Fits-mono :
      {paid paid' : Bool}
      → (paid ≡ true → paid' ≡ true)
      → (p : Pc) → Fits key job paid p
      → Fits key job paid' p
  Fits-mono m begin h = tt
  Fits-mono m at_cache h = tt
  Fits-mono m at_row h = tt
  Fits-mono m at_lock h = tt
  Fits-mono m at_reconcile h = tt
  Fits-mono m at_status h = tt
  Fits-mono m waiting h = tt
  Fits-mono m charging h = tt
  Fits-mono m at_unlock h = tt
  Fits-mono m (at_ledger id) h = tt
  Fits-mono m (at_burial err) h = tt
  Fits-mono m (at_release err) h = tt
  Fits-mono m (at_dead_letter err) h = tt
  Fits-mono m (ended r) h = tt
  Fits-mono m (at_backfill id) h = λ own. m (h own)
  Fits-mono m (at_result id) h = λ own. m (h own)
  Fits-mono m (at_settled id) h = h
  Fits-mono m (at_reversal err) h = h
