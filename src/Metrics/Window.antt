-- ===== src/Metrics/Window.antt =====
-- LatencyWindow of src/monitoring/metrics-collector.service.ts. A latency is a difference of two
-- readings of the clock, so it may be negative. The share p / 100 of the samples is exact.
use payment_queue_system_bul.Prelude.{
  ℕ, ◌-◌, ◌*◌, ◌/◌, min, List, [], ◌∷◌, ◌++◌, Option, none, some, ltb, ◌==◌, if◌then◌else◌, length,
  shift, get_elem?,
}
use payment_queue_system_bul.Prelude.Int.{ℤ, pos, leb_ℤ}

pub record LatencyWindow : Type 0 where
  pub max_size : ℕ
  pub samples : List ℤ

abbrev pub new : LatencyWindow
new = record { max_size = 5_000; samples = [] }

-- `record`
unfoldable pub record_sample : ℤ → LatencyWindow → LatencyWindow
record_sample ms w =
    let samples = w.samples ++ ms ∷ [] in
    record w { samples = if ltb w.max_size (length samples) then shift samples else samples }

-- `count`
abbrev pub count : LatencyWindow → ℕ
count w = length w.samples

unfoldable pub insert_sorted : ℤ → List ℤ → List ℤ
insert_sorted x [] = x ∷ []
insert_sorted x (y ∷ ys) = if leb_ℤ x y then x ∷ y ∷ ys else y ∷ insert_sorted x ys

-- `[...samples].sort((a, b) => a - b)`
unfoldable pub sort : List ℤ → List ℤ
unfolding insert_sorted
sort [] = []
sort (x ∷ xs) = insert_sorted x (sort xs)

-- `undefined` is never read: the index lies within the samples.
abbrev pub or_zero : Option ℤ → ℤ
or_zero none = pos 0
or_zero (some x) = x

unfoldable pub percentile : ℕ → LatencyWindow → ℤ
unfolding sort
percentile p w =
    let n = length w.samples in
    if n == 0 then pos 0 else or_zero (get_elem? (sort w.samples) (min (n - 1) (p * n / 100)))
