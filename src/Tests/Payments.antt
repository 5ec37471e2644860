-- ===== src/Tests/Payments.antt =====
-- Jobs of the processor at concrete inputs. The gateway counts what it is asked to charge.
use payment_queue_system_bul.Prelude.{
  ℕ, ◌+◌, ◌≡◌, ◌≢◌, refl, false, [], ◌∷◌, Option, none, some, Text, codes, arith, text_eq,
}
use payment_queue_system_bul.Types.{
  Payment, normal, queued, compensated, GatewayStatus, settled, pending, Settlement,
}
use payment_queue_system_bul.Effects.{ok, throw}
use payment_queue_system_bul.CircuitBreaker as Breaker
use payment_queue_system_bul.Redis.Memory.{memory, no_cells}
use payment_queue_system_bul.Idempotency as Idempotency
use payment_queue_system_bul.Idempotency.Plain.{plain}
use payment_queue_system_bul.Idempotency.View.{store_result-Sees}
use payment_queue_system_bul.Repository as Repository
use payment_queue_system_bul.Processor.{Env, PaymentGateway, Session, Job, payment_started}
use payment_queue_system_bul.Processor.Parts.{can_attempt}
use payment_queue_system_bul.Processor.Charge.{run_saga, success_response}
use payment_queue_system_bul.Processor.Process.{done, admitted, attempt, settle}
use payment_queue_system_bul.Processor.Process.Terminal.{verdict, settle-Settles, failed_lock}
use payment_queue_system_bul.Types.Classify.{classify_failure}
use payment_queue_system_bul.Processor.Process.Duplicates.{
  IsDuplicate, cached, OnlyAsked, duplicate_not_charged, in_flight_dropped,
}
use payment_queue_system_bul.Processor.Process.LastAttempt.{
  IsThrown, DoneOrRefused, circuit_open, last_attempt,
}
use payment_queue_system_bul.Processor.Process.Notify.{notify_error, notify_failure_contradicts}

abbrev pub payment : Payment
payment = record {
  id = codes "p1";
  amount = 1_000;
  currency = codes "USD";
  customer_id = codes "c9";
  gateway_id = codes "stripe";
  priority = normal;
  retry_count = 0;
  max_retries = 3;
  status = queued;
  metadata = [];
  created_at = 0;
  processed_at = none;
  failure_reason = none;
  idempotency_key = codes "k1";
  correlation_id = codes "corr";
}

abbrev pub gateway : Settlement → PaymentGateway ℕ
gateway settlement = record {
  process = λ p n. (ok (success_response (codes "txn_p1") p.gateway_id), n + 1);
  get_status = λ id n. (ok (record { transaction_id = id; status = settlement }), n);
}

-- The clock stands at 1000; `failing` is SAGA_FAIL_STEP.
abbrev pub env : Option Text → Settlement → Env
env failing settlement = record {
  redis = memory;
  json = plain;
  Outside = ℕ;
  gateway = gateway settlement;
  add_dead_letter = λ l n. ok tt;
  time = λ n. 1_000;
  show_ms = λ wait. codes "200";
  saga_fail_step = failing;
}

abbrev pub calm : Env
calm = env none pending

abbrev pub mute : Env
mute = env (some (codes "notify")) pending

abbrev pub session : (e : Env) → e.redis.Store → e.Outside → Session e
session e store outside = record {
  breaker = Breaker.new (codes "stripe") Breaker.defaults;
  semaphore = record { max = 1; in_flight = 1; waiters = codes "j2" ∷ [] };
  bucket = record {
    base_capacity = 10;
    base_refill_per_sec = 5;
    min_capacity_fraction = 200;
    tokens = 10_000_000_000;
    last_refill_ms = 0;
    current_capacity = 10;
    current_refill_per_sec = 5_000_000;
  };
  store = store;
  rows = [];
  outside = outside;
  reads = 0;
  events = [];
  dead_letters = [];
  resumed = [];
  failed_compensations = [];
}

abbrev pub begin : Session calm
begin = session calm no_cells 0

abbrev pub job : Job
job = record { id = codes "j1"; payment = payment; attempts_made = 0 }

-- The gateway is charged once.
settle_charges : (settle calm job begin).1.outside ≡ 1
unfolding settle Breaker.record_success
settle_charges = refl

settle-Settles_example :
    (settle calm job begin).0 ≡ (verdict job (run_saga calm payment begin).0 (λ l. ok tt)).0
settle-Settles_example = (settle-Settles calm job begin).0

abbrev pub silent : Session mute
silent = session mute no_cells 0

pub notify_fails : (run_saga mute payment silent).0 ≡ throw notify_error
unfolding run_saga text_eq
notify_fails = refl

failed_lock_example :
    Idempotency.has_lock memory plain 1_000 (codes "k1") (settle mute job silent).1.store ≡ false
unfolding classify_failure
failed_lock_example = failed_lock mute job 1_000 silent (λ n. omega arith) notify_fails

notify_failure_contradicts_example :
    (Repository.get_status (codes "p1") (settle mute job silent).1.rows
      ≡ some (record { status = compensated; gateway_transaction_id = none }))
    × (Idempotency.get_result memory plain 1_000 (codes "k1") (settle mute job silent).1.store
        ≡ ok (some (success_response (codes "txn_p1") (codes "stripe"))))
notify_failure_contradicts_example =
    notify_failure_contradicts mute job 1_000 silent refl refl refl (λ n. omega arith) (omega arith)

-- The result of an earlier attempt is cached.
abbrev paid : Session calm
paid =
    session calm
      (Idempotency.store_result memory plain 500 (codes "k1")
        (success_response (codes "txn_p1") (codes "stripe")) no_cells)
      1

paid-IsDuplicate : IsDuplicate calm job paid
unfolding text_eq
paid-IsDuplicate =
    cached (success_response (codes "txn_p1") (codes "stripe"))
      (store_result-Sees memory plain 500 1_000 (codes "k1") (codes "k1")
        (success_response (codes "txn_p1") (codes "stripe")) no_cells (omega arith)).1

duplicate_not_charged_example :
    ((admitted calm job paid).0 ≡ ok done)
    × OnlyAsked calm job paid (admitted calm job paid).1
    × ((admitted calm job paid).1.semaphore ≡ paid.semaphore)
    × ((admitted calm job paid).1.dead_letters ≡ [])
duplicate_not_charged_example = duplicate_not_charged calm job paid paid-IsDuplicate

-- Another attempt took the lock half a second ago.
abbrev pub contested : Session calm
contested = session calm (Idempotency.acquire_lock memory plain 500 (codes "k1") no_cells).0 1

still_pending :
    (status : GatewayStatus)
    → (calm.gateway.get_status (codes "k1") 1).0 ≡ ok status
    → status.status ≢ settled
still_pending status e = ground arith

in_flight_dropped_example :
    ((admitted calm job contested).0 ≡ ok done)
    × ((admitted calm job contested).1.events ≡ payment_started (codes "j1") (codes "stripe") ∷ [])
    × ((admitted calm job contested).1.rows ≡ [])
    × ((admitted calm job contested).1.dead_letters ≡ [])
unfolding Idempotency.acquire_lock Idempotency.get_result Idempotency.has_lock text_eq
    Repository.get_status
in_flight_dropped_example = in_flight_dropped calm job contested refl refl refl still_pending

-- The last attempt of a job meets an open circuit.
abbrev shut : Session calm
shut = record begin {
  breaker = record (Breaker.new (codes "stripe") Breaker.defaults) {
    state = Breaker.CircuitState.open_;
    opened_at = 900;
  };
}

abbrev last_job : Job
last_job = record job { attempts_made = 3 }

last_attempt_example :
    IsThrown calm (attempt calm last_job shut).0 × DoneOrRefused calm (settle calm last_job begin).0
unfolding can_attempt Breaker.can_attempt
last_attempt_example =
    let last = last_attempt calm last_job shut (omega arith) in
    ((last.0 (circuit_open refl)).0, last.2 begin)

-- Redis has lost everything since the payment was taken.
abbrev flushed : Session calm
flushed = record (settle calm job begin).1 { store = no_cells }
