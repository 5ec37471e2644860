-- ===== src/LoadTest.antt =====
-- src/scripts/load-test.js: the payments that it makes and its loop. `crypto.randomUUID()`, one for
-- each payment, and the readings of `Date.now()` are parameters. The rate is at least 1 and a
-- whole number. `Queue.add` is BullMQ's: each call is logged. The lines of the report are counted.
pub mod Ending
use payment_queue_system_bul.Prelude.{
  ℕ, zero, suc, ◌+◌, ◌*◌, ◌/◌, ◌%◌, max, Bool, true, false, List, [], ◌∷◌, ◌++◌, Option, none, some,
  Text, codes, show_base, ltb, leb, if◌then◌else◌, get_elem?,
}
use payment_queue_system_bul.Types.{Priority, high, normal, low}
use payment_queue_system_bul.QueueManager.{queue_name}

abbrev pub gateways : List Text
gateways = codes "stripe" ∷ codes "adyen" ∷ codes "razorpay" ∷ []

abbrev pub priorities : List Priority
priorities = high ∷ normal ∷ low ∷ []

-- The keys of the map `queues`, each with the name of its queue.
abbrev pub queues_of : Text → List Priority → List (Text × Priority)
queues_of gateway [] = []
queues_of gateway (p ∷ ps) = (gateway, p) ∷ queues_of gateway ps

abbrev pub queues : List Text → List (Text × Priority)
queues [] = []
queues (g ∷ gs) = queues_of g priorities ++ queues gs

-- `Math.max(1, Math.floor(1000 / ratePerSecond))`
abbrev pub interval_ms : ℕ → ℕ
interval_ms rate_per_second = max 1 (1_000 / rate_per_second)

abbrev pub or_first {ℓ} : {A : Type ℓ} → A → Option A → A
or_first a none = a
or_first a (some b) = b

-- `gateways[i % 3]` and `priorities[i % 3]`, which are never out of range.
abbrev pub gateway_at : ℕ → Text
gateway_at index = or_first [] (get_elem? gateways (index % 3))

abbrev pub priority_at : ℕ → Priority
priority_at index = or_first low (get_elem? priorities (index % 3))

pub record LoadPayment : Type 0 where
  pub id : Text
  pub amount : ℕ
  pub currency : Text
  pub customer_id : Text
  pub gateway_id : Text
  pub priority : Priority
  pub retry_count : ℕ
  pub max_retries : ℕ
  pub status : Text
  pub source : Text
  pub sequence : ℕ
  pub created_at : ℕ
  pub idempotency_key : Text
  pub correlation_id : Text

unfoldable pub create_payment : ℕ → Text → ℕ → LoadPayment
create_payment index id now = record {
  id = id;
  amount = 1_000 + index % 100 * 100;
  currency = codes "USD";
  customer_id = codes "load-test-customer-" ++ show_base 10 (index % 100);
  gateway_id = gateway_at index;
  priority = priority_at index;
  retry_count = 0;
  max_retries = 3;
  status = codes "queued";
  source = codes "load-test";
  sequence = index;
  created_at = now;
  idempotency_key = codes "load-test-" ++ id;
  correlation_id = codes "load-test-correlation-" ++ id;
}

abbrev pub weight : Priority → ℕ
weight high = 1
weight normal = 5
weight low = 10

-- A call of `Queue.add`.
pub record LoadJob : Type 0 where
  pub queue : Text
  pub payment : LoadPayment
  pub job_id : Text
  pub priority : ℕ
  pub attempts : ℕ
  pub remove_on_complete : ℕ × ℕ
  pub remove_on_fail : Bool

unfoldable pub job_of : LoadPayment → LoadJob
unfolding queue_name
job_of payment = record {
  queue = queue_name payment.gateway_id payment.priority;
  payment = payment;
  job_id = payment.idempotency_key;
  priority = weight payment.priority;
  attempts = payment.max_retries + 1;
  remove_on_complete = (3_600, 10_000);
  remove_on_fail = false;
}

-- The variables of the loop, with the number of clock readings and the jobs added so far.
pub record Progress : Type 0 where
  pub index : ℕ
  pub reads : ℕ
  pub last_report_at : ℕ
  pub reports : ℕ
  pub jobs : List LoadJob

module _ (time : ℕ → ℕ) (uuid : ℕ → Text) where
  -- `if (Date.now() - lastReportAt >= 5000)`, which reads the clock two times more if it holds.
  unfoldable pub report : Progress → Progress
  report p =
      if leb (p.last_report_at + 5_000) (time p.reads)
      then record p {
        reads = p.reads + 3;
        last_report_at = time (p.reads + 2);
        reports = p.reports + 1;
      }
      else record p { reads = p.reads + 1 }

  -- One round of the loop, after its test. `createdAt` reads the clock too.
  unfoldable pub round : Progress → Progress
  unfolding report
  round p =
      let payment = create_payment p.index (uuid p.index) (time p.reads) in
      report (record p {
        index = p.index + 1;
        reads = p.reads + 1;
        jobs = p.jobs ++ job_of payment ∷ [];
      })

  -- The `while`, with fuel; `none` means that the fuel ran out.
  unfoldable pub send_until : ℕ → ℕ → Progress → Option Progress
  unfolding round
  send_until zero deadline p = none
  send_until (suc fuel) deadline p =
      let p' = record p { reads = p.reads + 1 } in
      elim (ltb (time p.reads) deadline) [
        | true ↦ send_until fuel deadline (round p')
        | false ↦ some p'
      ]

  -- `main`, up to the end of its loop.
  unfoldable pub main : ℕ → ℕ → Option Progress
  unfolding send_until
  main fuel duration_seconds =
      send_until fuel (time 0 + duration_seconds * 1_000)
        (record { index = 0; reads = 1; last_report_at = time 0; reports = 0; jobs = [] })
