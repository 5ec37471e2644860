-- ===== src/Metrics.antt =====
-- src/monitoring/metrics-collector.service.ts. A reading of `Date.now()` is an argument. An alert
-- is logged with what its line is made of; a rate is an exact fraction. The counters of a gateway
-- are one object in the source's map: an update puts the new counters in their place.
pub mod Window
pub mod Rank
pub mod History
pub mod Payload
pub mod DeadLetters
use payment_queue_system_bul.Prelude.{
  ℕ, zero, suc, ◌+◌, ◌*◌, Bool, true, false, List, [], ◌∷◌, ◌++◌, Option, none, some, Text, Dict,
  lookup, insert, erase, ltb, ◌==◌, if◌then◌else◌, length,
}
use payment_queue_system_bul.Prelude.Int.{ℤ, pos, sub_ℕ, ltb_ℤ}
use payment_queue_system_bul.QueueManager.WorkerEvents.{
  WorkerEvent, payment_completed, payment_failed,
}
use payment_queue_system_bul.Metrics.Window as Window
use payment_queue_system_bul.Metrics.Window.{LatencyWindow, record_sample, percentile}

pub record GatewayCounters : Type 0 where
  pub succeeded : ℕ
  pub failed : ℕ
  pub latency : LatencyWindow
  pub recent_timestamps : List ℕ

pub record Rate : Type 0 where
  pub num : ℕ
  pub den : ℕ

pub record MetricsSnapshot : Type 0 where
  pub gateway_id : Text
  pub tps : Rate
  pub success_rate : Rate
  pub p95_latency_ms : ℤ
  pub p99_latency_ms : ℤ
  pub total_processed : ℕ

pub data Alert : Type 0 where
  low_success_rate : (gateway_id : Text) (rate : Rate) → Alert
  slow : (gateway_id : Text) (p99 : ℤ) → Alert

pub record MetricsCollector : Type 0 where
  pub counters : Dict GatewayCounters
  pub start_times : Dict ℕ
  pub alerts : List Alert

abbrev pub new : MetricsCollector
new = record { counters = []; start_times = []; alerts = [] }

abbrev pub no_counters : GatewayCounters
no_counters = record { succeeded = 0; failed = 0; latency = Window.new; recent_timestamps = [] }

abbrev pub or_create : Option GatewayCounters → GatewayCounters
or_create none = no_counters
or_create (some c) = c

-- `getOrCreate`: the counters; `created` puts new ones into the map.
unfoldable pub counters_of : Text → MetricsCollector → GatewayCounters
counters_of gateway_id m = or_create (lookup gateway_id m.counters)

unfoldable pub created : Text → MetricsCollector → MetricsCollector
created gateway_id m = elim (lookup gateway_id m.counters) [
  | none ↦ record m { counters = insert gateway_id no_counters m.counters }
  | some c ↦ m
]

-- `markStart`, the handler of 'payment.started'.
unfoldable pub on_started : ℕ → Text → MetricsCollector → MetricsCollector
on_started now job_id m = record m { start_times = insert job_id now m.start_times }

-- `if (startedAt)`: a start at 0 counts as none.
abbrev pub measure : ℕ → Option ℕ → LatencyWindow → LatencyWindow
measure now (some (suc t)) w = record_sample (sub_ℕ now (suc t)) w
measure now _ w = w

abbrev pub forget : Text → Option ℕ → Dict ℕ → Dict ℕ
forget job_id (some (suc t)) starts = erase job_id starts
forget job_id _ starts = starts

-- The `while`: entries at the front that are older than 60 s are dropped.
unfoldable pub prune : ℕ → List ℕ → List ℕ
prune now [] = []
prune now (t ∷ ts) = if ltb (t + 60_000) now then prune now ts else t ∷ ts

abbrev pub count_outcome : Bool → GatewayCounters → GatewayCounters
count_outcome true c = record c { succeeded = c.succeeded + 1 }
count_outcome false c = record c { failed = c.failed + 1 }

-- `successRate < 0.9` and `p99 > 5000`, from 20 payments on.
unfoldable pub check_alerts : Text → GatewayCounters → List Alert
check_alerts gateway_id c =
    let total = c.succeeded + c.failed in
    let p99 = percentile 99 c.latency in
    if ltb total 20
    then []
    else (if ltb (c.succeeded * 10) (total * 9)
        then low_success_rate gateway_id (record { num = c.succeeded; den = total }) ∷ []
        else [])
      ++ (if ltb_ℤ (pos 5_000) p99 then slow gateway_id p99 ∷ [] else [])

-- The counters after an outcome; `measured` is the clock when the latency is taken.
unfoldable pub tally : ℕ → ℕ → Option ℕ → Bool → GatewayCounters → GatewayCounters
unfolding prune
tally measured now started success c =
    let c' = count_outcome success (record c { latency = measure measured started c.latency }) in
    record c' { recent_timestamps = prune now (c'.recent_timestamps ++ now ∷ []) }

-- `recordOutcome`
unfoldable pub record_outcome : ℕ → ℕ → Text → Text → Bool → MetricsCollector → MetricsCollector
unfolding check_alerts
record_outcome measured now gateway_id job_id success m =
    let started = lookup job_id m.start_times in
    let c = tally measured now started success (counters_of gateway_id m) in
    record {
      counters = insert gateway_id c m.counters;
      start_times = forget job_id started m.start_times;
      alerts = m.alerts ++ check_alerts gateway_id c;
    }

-- The handlers of 'payment.completed' and 'payment.failed'.
unfoldable pub on_worker_event : ℕ → ℕ → WorkerEvent → MetricsCollector → MetricsCollector
on_worker_event measured now (payment_completed job_id gateway_id priority) m =
    record_outcome measured now gateway_id job_id true m
on_worker_event measured now (payment_failed job_id gateway_id priority error) m =
    record_outcome measured now gateway_id job_id false m

abbrev pub success_rate : ℕ → ℕ → Rate
success_rate succeeded total =
    if total == 0 then record { num = 1; den = 1 } else record { num = succeeded; den = total }

unfoldable pub snapshot : Text → MetricsCollector → MetricsCollector × MetricsSnapshot
unfolding created counters_of
snapshot gateway_id m =
    let c = counters_of gateway_id m in
    let total = c.succeeded + c.failed in
    (
      created gateway_id m,
      record {
        gateway_id = gateway_id;
        tps = record { num = length c.recent_timestamps; den = 60 };
        success_rate = success_rate c.succeeded total;
        p95_latency_ms = percentile 95 c.latency;
        p99_latency_ms = percentile 99 c.latency;
        total_processed = total;
      },
    )

unfoldable pub snapshots : List Text → MetricsCollector → MetricsCollector × List MetricsSnapshot
unfolding snapshot
snapshots [] m = (m, [])
snapshots (id ∷ ids) m =
    let (m', first) = snapshot id m in let (m'', rest) = snapshots ids m' in (m'', first ∷ rest)

-- `counters.keys()`
abbrev pub keys : Dict GatewayCounters → List Text
keys [] = []
keys ((id, c) ∷ entries) = id ∷ keys entries

unfoldable pub all_snapshots : MetricsCollector → MetricsCollector × List MetricsSnapshot
unfolding snapshots
all_snapshots m = snapshots (keys m.counters) m
