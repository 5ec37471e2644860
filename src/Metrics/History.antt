-- ===== src/Metrics/History.antt =====
-- The counters of a gateway against the history of its outcomes.
pub mod Recent
pub mod Snapshots
use payment_queue_system_bul.Prelude.{
  ℕ, zero, suc, ◌+◌, ◌≤◌, ◌≡◌, refl, sym, ap, ◌∙◌, Bool, true, false, List, [], ◌∷◌, ◌++◌, map,
  Option, none, some, Text, arith, ltb, if◌then◌else◌, length, shift, length-append, length-shift,
  All, All-append, text_eq, lookup, insert, lookup-insert,
}
use payment_queue_system_bul.Metrics.Window.{record_sample}
use payment_queue_system_bul.Metrics.{
  GatewayCounters, MetricsCollector, Rate, new, no_counters, or_create, counters_of, created,
  on_started, prune, tally, record_outcome, success_rate, snapshot,
}

-- What the collector is told. An outcome carries the two readings of the clock.
pub data Call : Type 0 where
  starts : (now : ℕ) (job_id : Text) → Call
  ends : (measured now : ℕ) (gateway_id job_id : Text) (success : Bool) → Call

unfoldable pub step : Call → MetricsCollector → MetricsCollector
step (starts now job) m = on_started now job m
step (ends measured now g job success) m = record_outcome measured now g job success m

unfoldable pub run : List Call → MetricsCollector → MetricsCollector
unfolding step
run [] m = m
run (c ∷ cs) m = run cs (step c m)

-- The outcomes of one gateway, with their times.
abbrev pub outcomes : Text → List Call → List (ℕ × Bool)
outcomes g [] = []
outcomes g (starts now job ∷ cs) = outcomes g cs
outcomes g (ends measured now g' job success ∷ cs) =
    if text_eq g' g then (now, success) ∷ outcomes g cs else outcomes g cs

abbrev pub successes : List (ℕ × Bool) → ℕ
successes [] = 0
successes ((t, b) ∷ h) = (if b then 1 else 0) + successes h

abbrev pub failures : List (ℕ × Bool) → ℕ
failures [] = 0
failures ((t, b) ∷ h) = (if b then 0 else 1) + failures h

abbrev pub times : List (ℕ × Bool) → List ℕ
times [] = []
times ((t, b) ∷ h) = t ∷ times h

abbrev pub last_or : ℕ → List ℕ → ℕ
last_or t [] = t
last_or t (u ∷ us) = last_or u us

-- The times that lie at most 60 s before `now`.
abbrev pub recent : ℕ → List ℕ → List ℕ
recent now [] = []
recent now (t ∷ ts) = if ltb (t + 60_000) now then recent now ts else t ∷ recent now ts

abbrev pub IsNondecreasing : List ℕ → Type 0
IsNondecreasing [] = Unit
IsNondecreasing (t ∷ ts) = All (λ u. t ≤ u) ts × IsNondecreasing ts

-- The counters after a history of outcomes of their gateway.
pub record Tallies (h : List (ℕ × Bool)) (c : GatewayCounters) : Type 0 where
  pub succeeded : c.succeeded ≡ successes h
  pub failed : c.failed ≡ failures h
  pub recently : c.recent_timestamps ≡ recent (last_or 0 (times h)) (times h)
  pub max_size : c.latency.max_size ≡ 5_000
  pub bounded : length c.latency.samples ≤ 5_000
