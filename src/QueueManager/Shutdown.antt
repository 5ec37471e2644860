-- ===== src/QueueManager/Shutdown.antt =====
-- `shutdown` of src/queue/queue-manager.service.ts: what it asks of BullMQ, in its order. The
-- requests of one `Promise.all` are made one after another and then waited for together; they are
-- taken to succeed.
use payment_queue_system_bul.Prelude.{ℕ, true, List, [], ◌∷◌, ◌++◌, Text, Dict, map, if◌then◌else◌}
use payment_queue_system_bul.QueueManager.{QueueManager, ManagedQueue}

pub data Request : Type 0 where
  pause : (queue : Text) → Request
  close_worker : (queue : Text) (concurrency : ℕ) → Request
  wait_at_most : (ms : ℕ) → Request
  close : (queue : Text) → Request

abbrev pub default_grace_period_ms : ℕ
default_grace_period_ms = 30_000

abbrev pub close_workers : Dict ManagedQueue → List Request
close_workers [] = []
close_workers ((name, q) ∷ queues) = map (close_worker name) q.workers ++ close_workers queues

-- A second call does nothing. `onModuleDestroy` is the call with the default grace period.
unfoldable pub shutdown : ℕ → QueueManager → QueueManager × List Request
shutdown grace_period_ms m = if m.shutting_down then (m, []) else (
  record m { shutting_down = true; closed = m.closed ++ map (λ entry. entry.0) m.queues },
  map (λ entry. pause entry.0) m.queues
      ++ (close_workers m.queues
          ++ wait_at_most grace_period_ms ∷ map (λ entry. close entry.0) m.queues),
)
