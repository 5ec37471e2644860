-- ===== src/Tests/Services.antt =====
-- The semaphore, the failure classes, the saga and the idempotency service at concrete inputs.
use payment_queue_system_bul.Prelude.{
  ℕ, ◌≤◌, leb, ℕ, ◌+◌, ◌≡◌, refl, true, false, not, List, [], ◌∷◌, ◌++◌, none, some, Text, codes,
  arith, text_eq, ltb, if◌then◌else◌,
}
use payment_queue_system_bul.Types.{GatewayResponse, permanent, rate_limited, Thrown, error}
use payment_queue_system_bul.Types.Classify.{classify_failure}
use payment_queue_system_bul.Types.Classify.Meaning.{Classifies, classify_failure-Classifies}
use payment_queue_system_bul.Semaphore.Gate.{
  Gate, empty, arrive, arrives, Reach, here, next, IsValid, Reach-empty-IsValid,
}
use payment_queue_system_bul.Effects.{ok, throw}
use payment_queue_system_bul.Saga.{PaymentSagaContext, run}
use payment_queue_system_bul.Saga.Order.{nested, outcome, run-nested}
use payment_queue_system_bul.Saga.Steps.{SagaDeps, build_payment_saga_steps}
use payment_queue_system_bul.Saga.Steps.Outcomes.{payment_saga, run-payment_saga}
use payment_queue_system_bul.Redis.Memory.{memory, no_cells}
use payment_queue_system_bul.Idempotency.{acquire_lock, has_lock, get_result, store_result}
use payment_queue_system_bul.Idempotency.Plain.{plain}
use payment_queue_system_bul.Idempotency.Exclusion as Exclusion
use payment_queue_system_bul.Idempotency.Exclusion.{
  Command, acquires, releases, grants, lock_exclusive,
}
use payment_queue_system_bul.Idempotency.View.{Sees, acquire_lock-Sees, store_result-Sees}

declined : classify_failure (error (codes "Card DECLINED after timeout")) ≡ permanent
unfolding classify_failure
declined = refl

rate_limit_gap : classify_failure (error (codes "Rate-Limit hit")) ≡ rate_limited
unfolding classify_failure
rate_limit_gap = refl

classify_failure-Classifies_example :
    Classifies (error (codes "ETIMEDOUT")) (classify_failure (error (codes "ETIMEDOUT")))
classify_failure-Classifies_example = classify_failure-Classifies (error (codes "ETIMEDOUT"))

-- One slot, three callers.
abbrev crowd : Gate ℕ
crowd = arrive 3 (arrive 2 (arrive 1 (empty 1)))

crowd-Reach : Reach (empty 1) crowd
crowd-Reach = next (next (next here (arrives 1 refl)) (arrives 2 refl)) (arrives 3 refl)

Reach-empty-IsValid_example : IsValid 1 crowd
Reach-empty-IsValid_example = Reach-empty-IsValid 1 crowd-Reach

crowd_waiters : crowd.sem.waiters ≡ 2 ∷ 3 ∷ []
unfolding arrive
crowd_waiters = refl

-- A saga over a journal of what was done, in which the notification fails.
abbrev Journal : Type 0
Journal = List Text

abbrev note : Text → Journal → Journal
note t w = w ++ t ∷ []

abbrev log_failure : Text → Thrown → PaymentSagaContext → Journal → Journal
log_failure name e ctx = note name

abbrev journal_deps : SagaDeps Journal
journal_deps = record {
  authorize = λ ctx w. (ok (codes "txn"), note (codes "authorize") w);
  void_authorization = λ ctx w. (ok tt, note (codes "void") w);
  capture = λ ctx w. (ok tt, note (codes "capture") w);
  refund = λ ctx w. (throw (error (codes "timeout")), w);
  write_ledger_entry = λ ctx w. (ok (codes "ledger_1"), note (codes "ledger") w);
  reverse_ledger_entry = λ ctx w. (ok tt, note (codes "reverse") w);
  notify_customer = λ ctx w. (throw (error (codes "down")), w);
}

abbrev start : PaymentSagaContext
start = record {
  payment_id = codes "p1";
  correlation_id = codes "c1";
  reserved = none;
  gateway_transaction_id = none;
  captured = none;
  ledger_entry_id = none;
  notified = none;
}

-- The refund fails and is logged, and the authorization is voided all the same.
journal_run : run log_failure (build_payment_saga_steps journal_deps) start [] ≡ (
  throw (error (codes "down")),
  codes "authorize"
      ∷ codes "capture"
      ∷ codes "ledger"
      ∷ codes "reverse"
      ∷ codes "capture"
      ∷ codes "void"
      ∷ [],
)
unfolding run build_payment_saga_steps
journal_run = refl

run-nested_example :
    run log_failure (build_payment_saga_steps journal_deps) start []
    ≡ outcome log_failure (nested log_failure (build_payment_saga_steps journal_deps) start [])
run-nested_example = run-nested log_failure (build_payment_saga_steps journal_deps) start []

run-payment_saga_example :
    run log_failure (build_payment_saga_steps journal_deps) start []
    ≡ payment_saga log_failure journal_deps start []
run-payment_saga_example = run-payment_saga log_failure journal_deps start []

abbrev key : Text
key = codes "k"

abbrev settled_response : GatewayResponse
settled_response = record {
  success = true;
  transaction_id = codes "txn";
  gateway_id = codes "stripe";
  raw_code = none;
  message = none;
}

second_lock_refused :
    (acquire_lock memory plain 5 key (acquire_lock memory plain 0 key no_cells).0).1 ≡ false
unfolding acquire_lock text_eq
second_lock_refused = refl

acquire_lock-Sees_example :
    (acquire_lock memory plain 0 key no_cells).1 ≡ not (has_lock memory plain 0 key no_cells)
acquire_lock-Sees_example = (acquire_lock-Sees memory plain 0 5 key key no_cells (omega arith)).0

store_result-Sees_example :
    Sees memory plain 5 key
      (if text_eq key key then false else has_lock memory plain 5 key no_cells)
      (if text_eq key key
        then ok (if ltb 5 (0 + 86_400_000) then some settled_response else none)
        else get_result memory plain 5 key no_cells)
      (store_result memory plain 0 key settled_response no_cells)
store_result-Sees_example =
    store_result-Sees memory plain 0 5 key key settled_response no_cells (omega arith)

-- Half a minute on, another payment is locked and given back.
abbrev meanwhile : List Command
meanwhile =
    acquires 30_000 (codes "other") ∷ acquires 30_000 key ∷ releases 40_000 (codes "other") ∷ []

lock_exclusive_example :
    (grants memory plain key meanwhile (acquire_lock memory plain 0 key no_cells).0 ≡ 0)
    × ((t : ℕ)
        → 40_000 ≤ t
        → (acquire_lock memory plain t key
            (Exclusion.run memory plain meanwhile (acquire_lock memory plain 0 key no_cells).0)).1
          ≡ leb 120_000 t)
unfolding acquire_lock text_eq
lock_exclusive_example = lock_exclusive memory plain key 0 meanwhile no_cells refl (
  omega arith,
  omega arith,
  refl,
  (omega arith, omega arith, refl, (omega arith, omega arith, refl, tt)),
)
