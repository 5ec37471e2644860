-- ===== src/QueueManager.antt =====
-- src/queue/queue-manager.service.ts: registering gateways, attaching workers and enqueueing. The
-- queues themselves are BullMQ's: each `Queue.add` that it takes is logged with its arguments, and a
-- worker is known by its concurrency. A reading of `Date.now()` is an argument.
pub mod Counts
pub mod Shutdown
pub mod WorkerEvents
pub mod Calls
pub mod Registered
pub mod Limiters
pub mod Scheduled
pub mod Names
pub mod Routing
use payment_queue_system_bul.Prelude.{
  ℕ, zero, suc, ◌+◌, Bool, true, false, List, [], ◌∷◌, ◌++◌, ◌||◌, Option, none, some, Text, codes,
  text_eq, Dict, lookup, insert, if◌then◌else◌,
}
use payment_queue_system_bul.Prelude.Int.{ℤ, pos, negsuc}
use payment_queue_system_bul.Types.{Payment, Priority, high, normal, low, error}
use payment_queue_system_bul.Effects.{Outcome, ok, throw, Action, pure, modify, ◌>>◌}
use payment_queue_system_bul.TokenBucket as Bucket

pub data QueueTag : Type 0 where
  of_priority : Priority → QueueTag
  scheduled dlq : QueueTag

pub record ManagedQueue : Type 0 where
  pub workers : List ℕ
  pub gateway_id : Text
  pub priority : QueueTag

-- The options of a job; `none` where the code leaves one out.
pub record JobsOptions : Type 0 where
  pub delay : Option ℕ
  pub job_id : Text
  pub priority : Option ℕ
  pub attempts : Option ℕ
  pub backoff : Option (Text × ℕ)
  pub remove_on_complete : Option (ℕ × ℕ)
  pub remove_on_fail : Option Bool

-- A call of `Queue.add` on the queue of this name.
pub record Added : Type 0 where
  pub queue : Text
  pub name : Text
  pub payment : Payment
  pub opts : JobsOptions

-- What BullMQ makes of `new Queue(name)`, of `new Worker(name, ..)` with a concurrency, and of
-- `Queue.add` on a queue that is closed or not, after what was added before. Each may throw.
pub record Bull : Type 0 where
  pub new_queue : Text → Outcome (Unit {0})
  pub new_worker : Text → ℕ → Outcome (Unit {0})
  pub add : Bool → List Added → Added → Outcome (Unit {0})

-- `closed` has the names of the queues that `shutdown` has closed.
pub record QueueManager : Type 0 where
  pub queues : Dict ManagedQueue
  pub rate_limiters : Dict Bucket.TokenBucket
  pub added : List Added
  pub shutting_down : Bool
  pub closed : List Text

abbrev pub new : QueueManager
new = record { queues = []; rate_limiters = []; added = []; shutting_down = false; closed = [] }

abbrev pub priority_text : Priority → Text
priority_text high = codes "high"
priority_text normal = codes "normal"
priority_text low = codes "low"

abbrev pub priority_weight : Priority → ℕ
priority_weight high = 1
priority_weight normal = 5
priority_weight low = 10

unfoldable pub queue_name : Text → Priority → Text
queue_name gateway_id priority =
    codes "payments-" ++ (gateway_id ++ (codes "-" ++ priority_text priority))

abbrev pub dlq_name : Text
dlq_name = codes "payments-dlq"

abbrev pub scheduled_name : Text
scheduled_name = codes "payments-scheduled"

abbrev pub empty_queue : Text → QueueTag → ManagedQueue
empty_queue gateway_id tag = record { workers = []; gateway_id = gateway_id; priority = tag }

abbrev pub is_closed : Text → List Text → Bool
is_closed name [] = false
is_closed name (n ∷ ns) = text_eq n name || is_closed name ns

abbrev pub special_tag : Text → QueueTag
special_tag name = if text_eq name (codes "payments:dlq") then dlq else scheduled

-- `opts.rateLimit ?? { capacity: 50, perSecond: 20 }`
abbrev pub or_default_limit : Option (ℕ × ℕ) → ℕ × ℕ
or_default_limit none = (50, 20)
or_default_limit (some limit) = limit

unfoldable pub ensure_limiter : ℕ → Text → ℕ × ℕ → Dict Bucket.TokenBucket → Dict Bucket.TokenBucket
ensure_limiter now gateway_id limit limiters = elim (lookup gateway_id limiters) [
  | none ↦
      insert gateway_id (Bucket.new limit.0 limit.1 Bucket.default_min_capacity_fraction now)
        limiters
  | some found ↦ limiters
]

module _ (bull : Bull) where
  -- `if (queues.has(name)) continue`, else a new queue without workers.
  unfoldable pub open_queue : Text → Text → QueueTag → Action (Dict ManagedQueue) Unit
  open_queue name gateway_id tag queues = elim (lookup name queues) [
    | some found ↦ (ok tt, queues)
    | none ↦ elim (bull.new_queue name) [
      | throw err ↦ (throw err, queues)
      | ok _ ↦ (ok tt, insert name (empty_queue gateway_id tag) queues)
    ]
  ]

  unfoldable pub ensure_special_queues : Action (Dict ManagedQueue) Unit
  unfolding open_queue
  ensure_special_queues = do
    open_queue dlq_name (codes "*") (special_tag dlq_name)
    open_queue scheduled_name (codes "*") (special_tag scheduled_name)

  unfoldable pub open_priorities : Text → List Priority → Action (Dict ManagedQueue) Unit
  unfolding open_queue queue_name
  open_priorities gateway_id [] = pure tt
  open_priorities gateway_id (p ∷ ps) = do
    open_queue (queue_name gateway_id p) gateway_id (of_priority p)
    open_priorities gateway_id ps

  abbrev pub on_queues : Action (Dict ManagedQueue) Unit → Action QueueManager Unit
  on_queues act m = let (r, queues) = act m.queues in (r, record m { queues = queues })

  unfoldable pub register_gateway : ℕ → Text → Option (ℕ × ℕ) → Action QueueManager Unit
  unfolding ensure_special_queues open_priorities ensure_limiter
  register_gateway now gateway_id rate_limit = do
    on_queues (open_priorities gateway_id (high ∷ normal ∷ low ∷ []))
    modify λ m. record m {
      rate_limiters = ensure_limiter now gateway_id (or_default_limit rate_limit) m.rate_limiters;
    }
    on_queues ensure_special_queues

  -- A queue that is not there throws; else the worker, if there is one, joins those of the queue.
  unfoldable pub attach_found : Text → ℕ → Option ManagedQueue → Action QueueManager Unit
  attach_found name concurrency none m = (
    throw
        (error (codes "Queue " ++ (name ++ codes " not registered — call registerGateway first"))),
    m,
  )
  attach_found name concurrency (some managed) m = elim (bull.new_worker name concurrency) [
    | throw err ↦ (throw err, m)
    | ok _ ↦ (
      ok tt,
      record m {
        queues =
            insert name (record managed { workers = managed.workers ++ concurrency ∷ [] }) m.queues;
      },
    )
  ]

  unfoldable pub attach_worker : Text → Priority → ℕ → Action QueueManager Unit
  unfolding queue_name attach_found
  attach_worker gateway_id priority concurrency m =
      let name = queue_name gateway_id priority in
      attach_found name concurrency (lookup name m.queues) m

-- `opts.delayMs && opts.delayMs > 0`, with the delay.
abbrev pub positive_delay : Option ℤ → Option ℕ
positive_delay none = none
positive_delay (some (negsuc n)) = none
positive_delay (some (pos zero)) = none
positive_delay (some (pos (suc n))) = some (suc n)

abbrev pub scheduled_options : Payment → ℕ → JobsOptions
scheduled_options payment delay = record {
  delay = some delay;
  job_id = payment.idempotency_key;
  priority = none;
  attempts = none;
  backoff = none;
  remove_on_complete = none;
  remove_on_fail = none;
}

abbrev pub job_options : Payment → JobsOptions
job_options payment = record {
  delay = none;
  job_id = payment.idempotency_key;
  priority = some (priority_weight payment.priority);
  attempts = some (payment.max_retries + 1);
  backoff = some (codes "exponentialWithJitter", 500);
  remove_on_complete = some (3_600, 10_000);
  remove_on_fail = some false;
}

module _ (bull : Bull) where
  -- `Queue.add`
  unfoldable pub add : Added → Action QueueManager Unit
  add a m = elim (bull.add (is_closed a.queue m.closed) m.added a) [
    | throw err ↦ (throw err, m)
    | ok _ ↦ (ok tt, record m { added = m.added ++ a ∷ [] })
  ]

  -- `queues.get(name)`, and `Queue.add` on it; a missing queue throws the given message.
  unfoldable pub add_found : Text → Added → Action QueueManager Unit
  unfolding add
  add_found missing a m = elim (lookup a.queue m.queues) [
    | none ↦ (throw (error missing), m)
    | some managed ↦ add a m
  ]

  unfoldable pub enqueue : Payment → Option ℤ → Action QueueManager Unit
  unfolding add_found queue_name
  enqueue payment delay_ms = elim (positive_delay delay_ms) [
    | some delay ↦
        add_found (codes "Cannot read properties of undefined (reading 'queue')") (record {
          queue = scheduled_name;
          name = codes "scheduled-payment";
          payment = payment;
          opts = scheduled_options payment delay;
        })
    | none ↦
        add_found
          (codes "No queue registered for gateway \""
            ++ (payment.gateway_id ++ codes "\" — call registerGateway first"))
          (record {
            queue = queue_name payment.gateway_id payment.priority;
            name = codes "process-payment";
            payment = payment;
            opts = job_options payment;
          })
  ]
