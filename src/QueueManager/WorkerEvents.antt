-- ===== src/QueueManager/WorkerEvents.antt =====
-- What `attachWorker` of src/queue/queue-manager.service.ts listens to. A BullMQ worker emits
-- 'completed' for a job whose function resolves, and 'failed' for one whose function throws.
use payment_queue_system_bul.Prelude.{Option, Text}
use payment_queue_system_bul.Types.{Priority, message_of}
use payment_queue_system_bul.Effects.{Outcome, ok, throw}

pub data WorkerEvent : Type 0 where
  payment_completed : (job_id gateway_id : Text) (priority : Priority) → WorkerEvent
  payment_failed :
      (job_id gateway_id : Text) (priority : Priority) (error : Option Text) → WorkerEvent

-- The two handlers, at the end of a job's function.
unfoldable pub job_ended {ℓ} : {A : Type ℓ} → Text → Text → Priority → Outcome A → WorkerEvent
job_ended job_id gateway_id priority (ok _) = payment_completed job_id gateway_id priority
job_ended job_id gateway_id priority (throw err) =
    payment_failed job_id gateway_id priority (message_of err)
