-- ===== src/Metrics/History/Snapshots.antt =====
-- What a snapshot shows, from the outcomes that the collector was told.
use payment_queue_system_bul.Prelude.{
  ℕ, zero, suc, ◌+◌, ◌≤◌, ◌≡◌, refl, sym, ap, subst, ◌∙◌, Bool, true, false, List, [], ◌∷◌, ◌++◌,
  Option, none, some, Text, arith, if◌then◌else◌, length, length-append, length-shift, text_eq,
  lookup, lookup-insert, text_eq_sound, append-nil, append_assoc, All, inl, inr, Bool-cases,
}
use payment_queue_system_bul.Prelude.Int.{sub_ℕ}
use payment_queue_system_bul.Metrics.Window.{LatencyWindow, record_sample}
use payment_queue_system_bul.Metrics.{
  GatewayCounters, MetricsCollector, new, measure, counters_of, on_started, count_outcome,
  or_create, tally, record_outcome, success_rate, snapshot,
}
use payment_queue_system_bul.Metrics.History.{
  Call, starts, ends, run, outcomes, successes, failures, times, last_or, recent, IsNondecreasing,
  Tallies,
}
use payment_queue_system_bul.Metrics.History.Recent.{prune-append, last_or-le}

successes-append : (h k : List (ℕ × Bool)) → successes (h ++ k) ≡ successes h + successes k
successes-append [] k = omega arith
successes-append ((t, b) ∷ h) k = omega (arith, successes-append h k)

failures-append : (h k : List (ℕ × Bool)) → failures (h ++ k) ≡ failures h + failures k
failures-append [] k = omega arith
failures-append ((t, b) ∷ h) k = omega (arith, failures-append h k)

times-append : (h k : List (ℕ × Bool)) → times (h ++ k) ≡ times h ++ times k
times-append [] k = refl
times-append ((t, b) ∷ h) k = ap (λ ts. t ∷ ts) (times-append h k)

last_or-append : (d t : ℕ) (ts : List ℕ) → last_or d (ts ++ t ∷ []) ≡ t
last_or-append d t [] = refl
last_or-append d t (u ∷ us) = last_or-append u t us

abbrev Bounded : LatencyWindow → Type 0
Bounded w = (w.max_size ≡ 5_000) × (length w.samples ≤ 5_000)

measure-Bounded :
    (now : ℕ) (o : Option ℕ) (w : LatencyWindow) → Bounded w → Bounded (measure now o w)
unfolding record_sample
measure-Bounded now none w v = v
measure-Bounded now (some zero) w v = v
measure-Bounded now (some (suc t)) w v =
    let longer = w.samples ++ sub_ℕ now (suc t) ∷ [] in
    ground (arith, v.0, v.1, length-append w.samples (sub_ℕ now (suc t) ∷ []), length-shift longer)

pub count_outcome-fields :
    (success : Bool) (c : GatewayCounters)
    → ((count_outcome success c).succeeded ≡ c.succeeded + (if success then 1 else 0))
      × ((count_outcome success c).failed ≡ c.failed + (if success then 0 else 1))
      × ((count_outcome success c).recent_timestamps ≡ c.recent_timestamps)
      × ((count_outcome success c).latency ≡ c.latency)
count_outcome-fields true c = (refl, omega arith, refl, refl)
count_outcome-fields false c = (omega arith, refl, refl, refl)

tally-Tallies :
    (measured now : ℕ) (started : Option ℕ) (success : Bool) (h : List (ℕ × Bool))
    (c : GatewayCounters)
    → Tallies h c
    → IsNondecreasing (times h ++ now ∷ [])
    → Tallies (h ++ (now, success) ∷ []) (tally measured now started success c)
unfolding tally
tally-Tallies measured now started success h c v s =
    let w = measure measured started c.latency in
    let (good, bad, same, kept) = count_outcome-fields success (record c { latency = w }) in
    let bound = measure-Bounded measured started c.latency (v.max_size, v.bounded) in
    let last =
      ap (last_or 0) (times-append h ((now, success) ∷ [])) ∙ last_or-append 0 now (times h) in
    record {
      succeeded = omega (arith, good, successes-append h ((now, success) ∷ []));
      failed = omega (arith, bad, failures-append h ((now, success) ∷ []));
      recently =
          rw (same, last, times-append h ((now, success) ∷ []), v.recently)
            (prune-append (last_or 0 (times h)) now (times h)
              (last_or-le 0 now (times h) (omega arith) s) s);
      max_size = ap (λ x. x.max_size) kept ∙ bound.0;
      bounded = rw kept bound.1;
    }

-- The counters of one gateway after a call.
step-counters :
    (g : Text) (m : MetricsCollector) (now : ℕ) (job : Text)
    → counters_of g (on_started now job m) ≡ counters_of g m
unfolding counters_of on_started
step-counters g m now job = refl

pub record_outcome-counters :
    (g : Text) (measured now : ℕ) (g' job : Text) (success : Bool) (m : MetricsCollector)
    → counters_of g (record_outcome measured now g' job success m) ≡ (
        if text_eq g' g
        then tally measured now (lookup job m.start_times) success (counters_of g m)
        else counters_of g m)
unfolding counters_of record_outcome
record_outcome-counters g measured now g' job success m =
    let started = lookup job m.start_times in
    let c = tally measured now started success (counters_of g' m) in
    let found = lookup-insert g' g c m.counters in
    elim (Bool-cases (text_eq g' g)) [
      | inl same ↦
          rw (found, same)
            (ap (λ k. tally measured now started success (or_create (lookup k m.counters)))
              (text_eq_sound g' g same))
      | inr other ↦ rw (found, other)
    ]

IsNondecreasing-prefix : (ts us : List ℕ) → IsNondecreasing (ts ++ us) → IsNondecreasing ts
IsNondecreasing-prefix [] us s = tt
IsNondecreasing-prefix (t ∷ ts) us s = (All-prefix ts s.0, IsNondecreasing-prefix ts us s.1)
  where
    All-prefix : (ts : List ℕ) → All (λ u. t ≤ u) (ts ++ us) → All (λ u. t ≤ u) ts
    All-prefix [] a = tt
    All-prefix (v ∷ vs) a = (a.0, All-prefix vs a.1)

run-Tallies :
    (g : Text) (cs : List Call) (h : List (ℕ × Bool)) (m : MetricsCollector)
    → Tallies h (counters_of g m)
    → IsNondecreasing (times (h ++ outcomes g cs))
    → Tallies (h ++ outcomes g cs) (counters_of g (run cs m))
unfolding run
run-Tallies g [] h m v s = rw (append-nil h) v
run-Tallies g (starts now job ∷ cs) h m v s =
    run-Tallies g cs h (on_started now job m) (rw (step-counters g m now job) v) s
run-Tallies g (ends measured now g' job success ∷ cs) h m v s =
    let m' = record_outcome measured now g' job success m in
    let started = lookup job m.start_times in
    let after = record_outcome-counters g measured now g' job success m in
    let later = outcomes g cs in
    let shape = λ (b : Bool). h ++ (if b then (now, success) ∷ later else later) in
    elim (Bool-cases (text_eq g' g)) [
      | inl same ↦
          let h' = h ++ (now, success) ∷ [] in
          let whole : shape true ≡ h' ++ later = sym (append_assoc h ((now, success) ∷ []) later) in
          let s' : IsNondecreasing (times (h' ++ later)) =
            subst (λ k. IsNondecreasing (times k)) (ap shape same ∙ whole) s in
          let s'' : IsNondecreasing (times h' ++ times later) =
            subst IsNondecreasing (times-append h' later) s' in
          let first : IsNondecreasing (times h ++ now ∷ []) =
            subst IsNondecreasing (times-append h ((now, success) ∷ []))
              (IsNondecreasing-prefix (times h') (times later) s'') in
          let v' : Tallies h' (counters_of g m') =
            rw (after, same) (tally-Tallies measured now started success h _ v first) in
          subst (λ k. Tallies k (counters_of g (run cs m'))) (sym (ap shape same ∙ whole))
            (run-Tallies g cs h' m' v' s')
      | inr other ↦
          let v' : Tallies h (counters_of g m') = rw (after, other) v in
          let s' : IsNondecreasing (times (h ++ later)) =
            subst (λ k. IsNondecreasing (times k)) (ap shape other) s in
          subst (λ k. Tallies k (counters_of g (run cs m'))) (sym (ap shape other))
            (run-Tallies g cs h m' v' s')
    ]

Tallies-new : (g : Text) → Tallies [] (counters_of g new)
unfolding counters_of lookup
Tallies-new g = record {
  succeeded = refl;
  failed = refl;
  recently = refl;
  max_size = refl;
  bounded = omega arith;
}

successes-failures : (h : List (ℕ × Bool)) → successes h + failures h ≡ length h
successes-failures [] = omega arith
successes-failures ((t, true) ∷ h) = omega (arith, successes-failures h)
successes-failures ((t, false) ∷ h) = omega (arith, successes-failures h)

-- After any calls of the handlers, whatever other gateways and jobs they name, if the outcomes of
-- a gateway came in the order of the clock: its snapshot counts them all, its success rate is the
-- share of the successes among them (1 if there are none), and its rate per second counts those
-- that lie within the 60 seconds before the last of them, which need not be the last 60 seconds:
-- a snapshot does not read the clock, so the rate stays when payments stop.
pub snapshot-counts :
    (g : Text) (cs : List Call)
    → IsNondecreasing (times (outcomes g cs))
    → let h = outcomes g cs in
      let shown = (snapshot g (run cs new)).1 in
      (shown.total_processed ≡ length h)
      × (shown.success_rate ≡ success_rate (successes h) (length h))
      × (shown.tps ≡ record { num = length (recent (last_or 0 (times h)) (times h)); den = 60 })
unfolding snapshot
snapshot-counts g cs s =
    let v = run-Tallies g cs [] new (Tallies-new g) s in
    let all = successes-failures (outcomes g cs) in
    (
      ground (arith, v.succeeded, v.failed, all),
      rw (v.succeeded, v.failed, all),
      ap (λ ts. record { num = length ts; den = 60 }) v.recently,
    )
