-- ===== src/Metrics/Payload.antt =====
-- fullDashboardPayload of src/monitoring/metrics-collector.service.ts. The queues' counts are
-- waited for first; then the clock is read and the snapshots are taken.
use payment_queue_system_bul.Prelude.{ℕ, List, Text}
use payment_queue_system_bul.QueueManager.{QueueManager}
use payment_queue_system_bul.QueueManager.Counts.{JobCounts, QueueMetricsSnapshot, collect_metrics}
use payment_queue_system_bul.Metrics.{MetricsCollector, MetricsSnapshot, all_snapshots}

pub record DashboardPayload : Type 0 where
  pub timestamp : ℕ
  pub gateways : List MetricsSnapshot
  pub queues : List QueueMetricsSnapshot

unfoldable pub full_dashboard_payload :
    ℕ → (Text → JobCounts) → QueueManager → MetricsCollector → MetricsCollector × DashboardPayload
unfolding all_snapshots collect_metrics
full_dashboard_payload now job_counts queues m =
    let (m', gateways) = all_snapshots m in
    (
      m',
      record { timestamp = now; gateways = gateways; queues = collect_metrics job_counts queues },
    )
