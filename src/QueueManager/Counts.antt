-- ===== src/QueueManager/Counts.antt =====
-- getRateLimiter and collectMetrics of src/queue/queue-manager.service.ts. What `getJobCounts`
-- answers for a queue is a parameter; a count that it leaves out is `none`.
use payment_queue_system_bul.Prelude.{ℕ, List, ◌++◌, Option, none, some, Text, codes, lookup, map}
use payment_queue_system_bul.Types.{error}
use payment_queue_system_bul.Effects.{Outcome, ok, throw}
use payment_queue_system_bul.TokenBucket.{TokenBucket}
use payment_queue_system_bul.QueueManager.{QueueManager}

pub record JobCounts : Type 0 where
  pub waiting : Option ℕ
  pub active : Option ℕ
  pub delayed : Option ℕ
  pub failed : Option ℕ
  pub completed : Option ℕ

pub record QueueMetricsSnapshot : Type 0 where
  pub queue_name : Text
  pub waiting : ℕ
  pub active : ℕ
  pub delayed : ℕ
  pub failed : ℕ
  pub completed : ℕ
  pub avg_latency_ms : ℕ

-- `?? 0`
abbrev pub or_none : Option ℕ → ℕ
or_none none = 0
or_none (some n) = n

abbrev pub queue_snapshot : Text → JobCounts → QueueMetricsSnapshot
queue_snapshot name counts = record {
  queue_name = name;
  waiting = or_none counts.waiting;
  active = or_none counts.active;
  delayed = or_none counts.delayed;
  failed = or_none counts.failed;
  completed = or_none counts.completed;
  avg_latency_ms = 0;
}

unfoldable pub collect_metrics : (Text → JobCounts) → QueueManager → List QueueMetricsSnapshot
collect_metrics job_counts m = map (λ entry. queue_snapshot entry.0 (job_counts entry.0)) m.queues

unfoldable pub get_rate_limiter : Text → QueueManager → Outcome TokenBucket
get_rate_limiter gateway_id m = elim (lookup gateway_id m.rate_limiters) [
  | none ↦ throw (error (codes "No rate limiter for gateway \"" ++ (gateway_id ++ codes "\"")))
  | some bucket ↦ ok bucket
]
