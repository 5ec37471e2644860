-- ===== src/Tests/Queues.antt =====
-- src/queue/queue-manager.service.ts at concrete inputs.
use payment_queue_system_bul.Prelude.{
  ap, arith, ◌++◌, ◌≡◌, ◌==◌, ◌||◌, Bool, true, false, Text, refl, List, [], ◌∷◌, none, some, codes,
  lookup, insert, text_eq,
}
use payment_queue_system_bul.Prelude.Int.{pos}
use payment_queue_system_bul.Types.{Priority, high, normal, low, error}
use payment_queue_system_bul.Effects.{Outcome, ok, throw}
use payment_queue_system_bul.QueueManager.{
  priority_text, Bull, add, QueueManager, ManagedQueue, new, register_gateway, enqueue,
  attach_worker, scheduled_name, queue_name, dlq_name, scheduled,
}
use payment_queue_system_bul.QueueManager.Calls.{Call, registers, attaches, enqueues, run}
use payment_queue_system_bul.QueueManager.Registered.{Opens}
use payment_queue_system_bul.QueueManager.Routing.{served, managed, lookup-run}
use payment_queue_system_bul.QueueManager.Scheduled.{scheduled_unworked}
use payment_queue_system_bul.Tests.Payments.{payment}

abbrev pub has_colon : Text → Bool
has_colon [] = false
has_colon (c ∷ t) = c == 58 || has_colon t

abbrev pub refused : Bool → Text → Outcome (Unit {0})
refused true why = throw (error why)
refused false why = ok tt

-- No colon in a name or an id, at least one job at a time, and nothing on a closed queue.
abbrev pub refusing : Bull
refusing = record {
  new_queue = λ name. refused (has_colon name) (codes "colon");
  new_worker = λ name concurrency. refused (concurrency == 0) (codes "concurrency");
  add = λ closed before a. refused (closed || has_colon a.opts.job_id) (codes "add");
}

-- A worker on the gateway's queue, one that is asked for too early, and a delayed payment.
abbrev early : List Call
early = attaches (codes "stripe") normal 10 ∷ registers 0 (codes "paypal") none ∷ []

abbrev late : List Call
late = attaches (codes "stripe") normal 10 ∷ enqueues payment (some (pos 500)) ∷ []

abbrev manager : QueueManager
manager =
    run refusing late
      (register_gateway refusing 5 (codes "stripe") (some (10, 5)) (run refusing early new)).1

has_colon-append :
    (g t : Text) → has_colon g ≡ false → has_colon t ≡ false → has_colon (g ++ t) ≡ false
has_colon-append [] t h k = k
has_colon-append (c ∷ g) t h k = ground (arith, h, has_colon-append g t)

suffix : (p : Priority) → has_colon (codes "-" ++ priority_text p) ≡ false
suffix high = refl
suffix normal = refl
suffix low = refl

pub colonless-Opens : (g : Text) → has_colon g ≡ false → Opens refusing g
unfolding queue_name
colonless-Opens g h = record {
  own = λ p.
      ap (λ b. refused b (codes "colon"))
        (has_colon-append g (codes "-" ++ priority_text p) h (suffix p));
  dlq = refl;
  scheduled = refl;
}

stripe : Opens refusing (codes "stripe")
stripe = colonless-Opens (codes "stripe") refl

scheduled_unworked_example :
    (q : ManagedQueue) × (lookup scheduled_name manager.queues ≡ some q) × (q.workers ≡ [])
scheduled_unworked_example =
    scheduled_unworked refusing early late 5 (codes "stripe") (some (10, 5)) stripe

-- The dead letter queue is tagged as the scheduled one.
dlq_tag :
    lookup dlq_name manager.queues
    ≡ some (record { workers = []; gateway_id = codes "*"; priority = scheduled })
unfolding run register_gateway lookup enqueue attach_worker insert text_eq
dlq_tag = refl

-- The first worker comes too early, one is for another gateway and one for another priority, and
-- the gateway is registered twice.
abbrev busy_day : List Call
busy_day =
    attaches (codes "stripe") normal 1
    ∷ registers 0 (codes "stripe") none
    ∷ registers 1 (codes "paypal") none
    ∷ attaches (codes "stripe") normal 2
    ∷ attaches (codes "paypal") normal 3
    ∷ attaches (codes "stripe") high 4
    ∷ registers 2 (codes "stripe") none
    ∷ attaches (codes "stripe") normal 5
    ∷ []

lookup-run_example :
    lookup (queue_name (codes "stripe") normal) (run refusing busy_day new).queues
    ≡ managed (codes "stripe") normal (served refusing (codes "stripe") normal busy_day none)
lookup-run_example =
    lookup-run refusing (codes "stripe") normal busy_day
      (tt, (stripe, (colonless-Opens (codes "paypal") refl, (tt, (tt, (tt, (stripe, (tt, tt))))))))

second_and_last : served refusing (codes "stripe") normal busy_day none ≡ some (2 ∷ 5 ∷ [])
unfolding text_eq
second_and_last = refl
