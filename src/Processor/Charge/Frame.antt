-- ===== src/Processor/Charge/Frame.antt =====
-- What the saga of a payment leaves alone, and when it succeeds.
use payment_queue_system_bul.Prelude.{◌≡◌, arith}
use payment_queue_system_bul.Types.{Payment}
use payment_queue_system_bul.Saga.{run}
use payment_queue_system_bul.Saga.Steps.{build_payment_saga_steps}
use payment_queue_system_bul.Processor.{Env, Session}
use payment_queue_system_bul.Processor.Charge.{run_saga, reconcile}

-- The parts of the session that belong to the processor's own control.
pub record Keeps {env : Env} (s s' : Session env) : Type 0 where
  pub breaker : s'.breaker ≡ s.breaker
  pub semaphore : s'.semaphore ≡ s.semaphore
  pub bucket : s'.bucket ≡ s.bucket
  pub dead_letters : s'.dead_letters ≡ s.dead_letters
  pub resumed : s'.resumed ≡ s.resumed

module _ (env : Env) where
  pub run_saga-Keeps : (payment : Payment) (s : Session env) → Keeps s (run_saga env payment s).1
  unfolding run_saga run build_payment_saga_steps
  run_saga-Keeps payment s = ground arith

  pub reconcile-Keeps : (payment : Payment) (s : Session env) → Keeps s (reconcile env payment s).1
  unfolding reconcile
  reconcile-Keeps payment s = ground arith
