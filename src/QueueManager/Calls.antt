-- ===== src/QueueManager/Calls.antt =====
-- Histories of calls of the queue manager.
use payment_queue_system_bul.Prelude.{
  ℕ, ◌≡◌, List, [], ◌∷◌, Option, none, some, zero, suc, inl, inr, Text, arith,
}
use payment_queue_system_bul.Effects.{Outcome-cases}
use payment_queue_system_bul.Prelude.Int.{ℤ, pos, negsuc}
use payment_queue_system_bul.Types.{Payment, Priority}
use payment_queue_system_bul.QueueManager.Shutdown.{shutdown}
use payment_queue_system_bul.QueueManager.{
  Bull, Added, is_closed, QueueManager, register_gateway, attach_worker, enqueue, add_found, add,
}

add_found-queues :
    (bull : Bull) (missing : Text) (a : Added) (m : QueueManager)
    → (add_found bull missing a m).1.queues ≡ m.queues
unfolding add_found add
add_found-queues bull missing a m =
    elim (Outcome-cases (bull.add (is_closed a.queue m.closed) m.added a)) [
      | inl (_, e) ↦ ground (arith, e)
      | inr (err, e) ↦ ground (arith, e)
    ]

pub enqueue-queues :
    (bull : Bull) (payment : Payment) (delay : Option ℤ) (m : QueueManager)
    → (enqueue bull payment delay m).1.queues ≡ m.queues
unfolding enqueue
enqueue-queues bull payment none m = add_found-queues bull _ _ m
enqueue-queues bull payment (some (negsuc n)) m = add_found-queues bull _ _ m
enqueue-queues bull payment (some (pos zero)) m = add_found-queues bull _ _ m
enqueue-queues bull payment (some (pos (suc n))) m = add_found-queues bull _ _ m

pub shutdown-queues : (ms : ℕ) (m : QueueManager) → (shutdown ms m).0.queues ≡ m.queues
unfolding shutdown
shutdown-queues ms m = ground arith

-- The calls that a queue manager is given, and what they do, whether or not they throw.
pub data Call : Type 0 where
  registers : (now : ℕ) (gateway_id : Text) (rate_limit : Option (ℕ × ℕ)) → Call
  attaches : (gateway_id : Text) (priority : Priority) (concurrency : ℕ) → Call
  enqueues : (payment : Payment) (delay_ms : Option ℤ) → Call
  shuts_down : (grace_period_ms : ℕ) → Call

module _ (bull : Bull) where
  unfoldable pub step : Call → QueueManager → QueueManager
  step (registers now g limit) m = (register_gateway bull now g limit m).1
  step (attaches g p c) m = (attach_worker bull g p c m).1
  step (enqueues payment delay) m = (enqueue bull payment delay m).1
  step (shuts_down ms) m = (shutdown ms m).0

  unfoldable pub run : List Call → QueueManager → QueueManager
  unfolding step
  run [] m = m
  run (c ∷ cs) m = run cs (step c m)
