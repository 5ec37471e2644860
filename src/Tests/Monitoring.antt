-- ===== src/Tests/Monitoring.antt =====
-- src/monitoring, src/tracing and src/scripts at concrete inputs.
use payment_queue_system_bul.Prelude.{
  ℕ, ◌+◌, ◌*◌, ◌/◌, ◌≤◌, ◌<◌, ◌≡◌, refl, true, false, List, [], ◌∷◌, some, codes, arith, length,
  All, show_base, text_eq,
}
use payment_queue_system_bul.Prelude.Int.{pos, negsuc, leb_ℤ, ltb_ℤ}
use payment_queue_system_bul.Metrics as Metrics
use payment_queue_system_bul.Metrics.Window.{LatencyWindow, percentile}
use payment_queue_system_bul.Metrics.Rank.{count_if, percentile_rank}
use payment_queue_system_bul.Metrics.History.{
  Call, starts, ends, run, outcomes, successes, times, recent, last_or,
}
use payment_queue_system_bul.Metrics.History.Snapshots.{snapshot-counts}
use payment_queue_system_bul.Dashboard as Dashboard
use payment_queue_system_bul.Dashboard.Heartbeat.{
  Reach, here, next, connects, disconnects, IsBeating, Reach-IsBeating,
}
use payment_queue_system_bul.LoadTest as LoadTest
use payment_queue_system_bul.LoadTest.{Progress}
use payment_queue_system_bul.LoadTest.Ending.{Moves, IsCovered, main-ends}
use payment_queue_system_bul.Tracing.{generate_correlation_id}

-- One reading was taken after the clock had been set back.
abbrev window : LatencyWindow
window = record { max_size = 5_000; samples = pos 30 ∷ negsuc 4 ∷ pos 10 ∷ pos 900 ∷ [] }

window_p50 : percentile 50 window ≡ pos 30
unfolding percentile
window_p50 = refl

percentile_rank_example :
    (count_if (λ y. ltb_ℤ y (percentile 50 window)) window.samples ≤ 50 * 4 / 100)
    × (50 * 4 / 100 < count_if (λ y. leb_ℤ y (percentile 50 window)) window.samples)
percentile_rank_example = percentile_rank 50 window (omega arith) (omega arith)

abbrev told : List Call
told =
    starts 100 (codes "j1")
    ∷ ends 150 151 (codes "stripe") (codes "j1") true
    ∷ ends 160 160 (codes "adyen") (codes "j2") false
    ∷ ends 90_000 90_000 (codes "stripe") (codes "j3") false
    ∷ []

snapshot-counts_example :
    let shown = (Metrics.snapshot (codes "stripe") (run told Metrics.new)).1 in
    (shown.total_processed ≡ length (outcomes (codes "stripe") told))
    × (shown.success_rate
        ≡ Metrics.success_rate
            (successes (outcomes (codes "stripe") told))
            (length (outcomes (codes "stripe") told)))
    × (shown.tps ≡ record {
      num = length (
          recent
            (last_or 0 (times (outcomes (codes "stripe") told)))
            (times (outcomes (codes "stripe") told)));
      den = 60;
    })
unfolding text_eq
snapshot-counts_example = snapshot-counts (codes "stripe") told (omega arith)

come_and_go : Reach Dashboard.new (
    Dashboard.handle_disconnect
      (record (Dashboard.handle_connection (record Dashboard.new { clients = 1 })) { clients = 0 }))
unfolding Dashboard.handle_connection
come_and_go = next (next here connects) (disconnects (omega arith))

Reach-IsBeating_example : IsBeating (
    Dashboard.handle_disconnect
      (record (Dashboard.handle_connection (record Dashboard.new { clients = 1 })) { clients = 0 }))
Reach-IsBeating_example = Reach-IsBeating come_and_go

abbrev seconds : ℕ → ℕ
seconds n = n * 1_000

seconds-Moves : Moves seconds (λ n. [])
seconds-Moves = record { keeps = λ n. omega arith; moves = λ n. omega arith }

main-ends_example :
    (p : Progress) × (LoadTest.main seconds (λ n. []) (2 * 1_000 * 5 + 1) 2 ≡ some p)
    × All IsCovered p.jobs
main-ends_example = main-ends seconds (λ n. []) 2 seconds-Moves

first_queue :
    (LoadTest.job_of (LoadTest.create_payment 0 [] 0)).queue ≡ codes "payments-stripe-high"
unfolding LoadTest.job_of LoadTest.create_payment
first_queue = refl

first_id : generate_correlation_id 36 (codes "x1") ≡ codes "corr_10_x1"
unfolding generate_correlation_id show_base
first_id = refl
