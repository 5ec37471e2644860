-- ===== src/Tests/Workers.antt =====
-- Two jobs on one payment, interleaved, at concrete inputs.
use payment_queue_system_bul.Prelude.{
  ℕ, ◌+◌, ◌-◌, ◌*◌, ◌≤◌, ◌≡◌, refl, false, true, [], ◌∷◌, ◌++◌, List, Text, codes, arith, text_eq,
  length, ◌⊎◌, All,
}
use payment_queue_system_bul.Types.{GatewayStatus}
use payment_queue_system_bul.Effects.{ok}
use payment_queue_system_bul.Redis.Memory.{no_cells}
use payment_queue_system_bul.Idempotency as Idempotency
use payment_queue_system_bul.CircuitBreaker as Breaker
use payment_queue_system_bul.TokenBucket as Bucket
use payment_queue_system_bul.Semaphore as Semaphore
use payment_queue_system_bul.Repository as Repository
use payment_queue_system_bul.Processor.{Env, Session, Job}
use payment_queue_system_bul.Processor.Charge.{is_settled}
use payment_queue_system_bul.Processor.Awaits.{
  is_running, Pc, begin, at_cache, at_row, at_lock, waiting, charging, advance,
}
use payment_queue_system_bul.Processor.Awaits.Locks.{is_paid}
use payment_queue_system_bul.Processor.Awaits.Guards.{IsLocked}
use payment_queue_system_bul.Processor.Workers.{
  Task, at_pc, total, System, Step, arrive, run, Reach, here, next,
}
use payment_queue_system_bul.Processor.Workers.Progress.{piece_of}
use payment_queue_system_bul.Processor.Workers.Search.{IsEnded}
use payment_queue_system_bul.Processor.Workers.Limit.{has_token, charged, rate_limited}
use payment_queue_system_bul.TokenBucket.{token, per_second}
use payment_queue_system_bul.TokenBucket.Adapt.{IsValid}
use payment_queue_system_bul.Processor.Workers.Deadlock.{no_deadlock}
use payment_queue_system_bul.Processor.Workers.Slots.{slot, slots_bounded}
use payment_queue_system_bul.Processor.Workers.Exclusive.{holder, OwnRow, charged_by_one}
use payment_queue_system_bul.Processor.Workers.Expiry.{expired_while_waiting}
use payment_queue_system_bul.Tests.Payments.{calm, session, job}

abbrev begun : Session calm
begun = record (session calm no_cells 0) {
  semaphore = record { max = 1; in_flight = 0; waiters = [] };
}

abbrev copy : Job
copy = record job { id = codes "j2" }

abbrev start : System calm
start = record { session = begun; tasks = [] }

abbrev Arrives : Job → Type 0
Arrives = OwnRow (codes "k1") (codes "p1")

abbrev Nobody : System calm → Session calm → Type 0
Nobody x t = ⊥

-- A run so far, and one more piece of the job between `before` and `after`.
abbrev Run : Type 0
Run = (y : System calm) × Reach calm Arrives Nobody start y

abbrev piece :
    (before after : List Task) (j : Job) (p : Pc) (r : Run)
    → is_running p ≡ true
    → r.0.tasks ≡ before ++ at_pc j p ∷ after
    → Run
piece before after j p r runs e = (_, next r.1 (run before after j p _ _ runs e refl refl))

abbrev arrival : (j : Job) → Arrives j → Run → Run
arrival j a r = (_, next r.1 (arrive j a refl))

own : Arrives job
own e = refl

-- Both have looked for an earlier result in vain; the first has taken the lock and a slot.
contended : Run
unfolding advance text_eq Idempotency.get_result Idempotency.acquire_lock Repository.get_status
    Breaker.can_attempt Bucket.try_consume Semaphore.acquire
contended =
    let both = arrival copy own (arrival job own (start, here)) in
    let rest = at_pc copy begin ∷ [] in
    let r₁ = piece [] rest job begin both refl refl in
    let r₂ = piece [] rest job at_cache r₁ refl refl in
    let r₃ = piece [] rest job at_row r₂ refl refl in
    let r₄ = piece [] rest job at_lock r₃ refl refl in
    let done = at_pc job charging ∷ [] in
    let r₅ = piece done [] copy begin r₄ refl refl in
    let r₆ = piece done [] copy at_cache r₅ refl refl in piece done [] copy at_row r₆ refl refl

contended_places : contended.0.tasks ≡ at_pc job charging ∷ at_pc copy at_lock ∷ []
unfolding contended
contended_places = refl

still_pending :
    (k : Text) (o : ℕ) (status : GatewayStatus)
    → (calm.gateway.get_status k o).0 ≡ ok status
    → is_settled status.status ≡ false
still_pending k o status e = ground arith

unpaid : is_paid (codes "p1") contended.0.session.rows ≡ false
unfolding contended Repository.get_status
unpaid = refl

charged_by_one_example :
    (total (holder (codes "k1")) contended.0.tasks ≤ 1)
    × (1 ≤ total (holder (codes "k1")) contended.0.tasks
        → IsLocked calm (codes "k1") contended.0.session)
charged_by_one_example =
    charged_by_one calm (codes "k1") (codes "p1") Nobody (λ n m h. omega arith) (λ n m. omega arith)
      refl still_pending (λ x t o. absurd o) {x = start} {y = contended.0} refl contended.1 unpaid

slots_bounded_example :
    (total slot contended.0.tasks ≤ 1)
    × (contended.0.session.semaphore.in_flight
        ≡ total slot contended.0.tasks + length contended.0.session.resumed)
slots_bounded_example =
    slots_bounded calm Arrives Nobody {x = start} {y = contended.0} (λ x t o. absurd o) refl refl
      refl contended.1

begun_bucket-IsValid : IsValid begun.bucket
begun_bucket-IsValid = record {
  base_positive = omega arith;
  base_refills = omega arith;
  fraction_in_range = omega arith;
  tokens_fit = omega arith;
  capacity_positive = omega arith;
  capacity_below_base = omega arith;
  rate_positive = omega arith;
  rate_below_base = omega arith;
}

rate_limited_example :
    (charged calm Arrives Nobody contended.1 + total has_token contended.0.tasks) * token
      + contended.0.session.bucket.tokens
    ≤ start.session.bucket.tokens
      + (contended.0.session.bucket.last_refill_ms - start.session.bucket.last_refill_ms)
        * (start.session.bucket.base_refill_per_sec * per_second)
rate_limited_example =
    rate_limited calm Arrives Nobody {x = start} {y = contended.0} (λ x t o. absurd o) refl
      begun_bucket-IsValid contended.1

no_deadlock_example :
    All (λ task. IsEnded task.pc) contended.0.tasks
    ⊎ ((z : System calm) × ((step : Step calm Arrives Nobody contended.0 z) × (piece_of calm Arrives
              Nobody step
            ≡ 1)))
no_deadlock_example =
    no_deadlock calm Arrives Nobody {x = start} {y = contended.0} (λ x t o. absurd o) refl refl refl
      refl (omega arith) contended.1

-- The clock goes by 200 seconds at each reading.
abbrev slow : Env
slow = record calm { time = λ n. n * 200_000 }

abbrev full : Session slow
full = record (session slow no_cells 0) {
  semaphore = record { max = 1; in_flight = 1; waiters = [] };
}

expired_while_waiting_example :
    ((advance slow job at_lock full).0 ≡ waiting)
    × ((advance slow copy at_lock (advance slow job at_lock full).1).0 ≡ waiting)
unfolding advance Idempotency.acquire_lock Idempotency.has_lock text_eq Semaphore.acquire
expired_while_waiting_example =
    expired_while_waiting slow job copy full (advance slow job at_lock full).1 refl refl
      (omega arith) refl (omega arith)
