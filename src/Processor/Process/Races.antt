-- ===== src/Processor/Process/Races.antt =====
-- Two attempts on one payment: `process` looks for an earlier result before it takes the lock, and
-- does not look again once it has it.
use payment_queue_system_bul.Prelude.{◌+◌, ◌≡◌}
use payment_queue_system_bul.Types.{GatewayResponse}
use payment_queue_system_bul.Semaphore as Semaphore
use payment_queue_system_bul.Idempotency as Idempotency
use payment_queue_system_bul.Processor.{Env, Session, Job}
use payment_queue_system_bul.Processor.Charge.{success_response}

module _ (env : Env) where
  -- The store and the semaphore of a job that has taken the lock and a slot.
  abbrev taken : Job → Session env → Session env
  taken job s = record s {
    store =
        (Idempotency.acquire_lock env.redis env.json (env.time s.reads) job.payment.idempotency_key
          s.store).0;
    semaphore = record s.semaphore { in_flight = s.semaphore.in_flight + 1 };
    reads = s.reads + 1;
  }

  -- The session after a job that has charged the customer.
  record Completes (job : Job) (res : GatewayResponse) (s s' : Session env) : Type 0 where
    store :
        s'.store
        ≡ Idempotency.store_result env.redis env.json
            (env.time s.reads)
            job.payment.idempotency_key
            (success_response res.transaction_id job.payment.gateway_id)
            s.store
    reads : s'.reads ≡ s.reads + 1
    semaphore : s'.semaphore ≡ (Semaphore.release s.semaphore).0
