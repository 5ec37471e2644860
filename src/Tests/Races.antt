-- ===== src/Tests/Races.antt =====
-- Two attempts on one payment, and one gateway beside another, at concrete inputs.
use payment_queue_system_bul.Prelude.{
  ◌∷◌, ap, Text, ◌/◌, ◌==◌, ℕ, ◌+◌, ◌≡◌, refl, inr, false, [], none, some, codes, arith, text_eq,
  lookup,
}
use payment_queue_system_bul.Types.{Priority, high, low, normal, settled, Thrown}
use payment_queue_system_bul.Effects.{ok, throw}
use payment_queue_system_bul.Redis.Memory.{memory, no_cells}
use payment_queue_system_bul.Idempotency as Idempotency
use payment_queue_system_bul.Idempotency.Plain.{plain}
use payment_queue_system_bul.QueueManager as QueueManager
use payment_queue_system_bul.QueueManager.WorkerEvents.{job_ended}
use payment_queue_system_bul.Metrics as Metrics
use payment_queue_system_bul.Processor.Process.Notify.{notify_error}
use payment_queue_system_bul.Metrics.DeadLetters.{final_letter, dead_letter_counted}
use payment_queue_system_bul.Processor.{Env, Session, Job}
use payment_queue_system_bul.Processor.Charge.{success_response}
use payment_queue_system_bul.Processor.Process.{done, charge, settle}
use payment_queue_system_bul.Processor.Process.LostLock.{reconcile_frees_lock}
use payment_queue_system_bul.Processor.Service as Service
use payment_queue_system_bul.Processor.Service.{Service}
use payment_queue_system_bul.Backoff.{Draw}
use payment_queue_system_bul.PaymentModule.{
  GatewayConfig, worker_concurrency, gateway_configs, start_gateways,
}
use payment_queue_system_bul.PaymentModule.Init.{Takes, start_gateways-IsReady}
use payment_queue_system_bul.QueueManager.{queue_name}
use payment_queue_system_bul.Tests.Queues.{refusing, refused, has_colon, colonless-Opens}
use payment_queue_system_bul.Tests.Payments.{
  payment, env, calm, mute, session, job, silent, notify_fails,
}

abbrev idle : Session calm
idle = record (session calm no_cells 0) {
  semaphore = record { max = 1; in_flight = 0; waiters = [] };
}

abbrev copy : Job
copy = record job { id = codes "j2" }

abbrev paid_env : Env
paid_env = env none settled

-- Another attempt took the lock half a second ago and runs.
abbrev running : Session paid_env
running = session paid_env (Idempotency.acquire_lock memory plain 500 (codes "k1") no_cells).0 1

reconcile_frees_lock_example :
    ((charge paid_env copy running).0 ≡ ok done)
    × ((charge paid_env copy running).1.semaphore ≡ running.semaphore)
    × (Idempotency.has_lock memory plain 2_000 (codes "k1") (charge paid_env copy running).1.store
        ≡ false)
    × (Idempotency.get_result memory plain 2_000 (codes "k1") (charge paid_env copy running).1.store
        ≡ ok (some (success_response (codes "k1") (codes "stripe"))))
unfolding Idempotency.acquire_lock Idempotency.has_lock text_eq
reconcile_frees_lock_example =
    reconcile_frees_lock paid_env copy 2_000 running (omega arith) refl refl refl refl
      (λ n. omega arith) (omega arith)

-- The last attempt fails at the notification.
abbrev last_try : Job
last_try = record job { attempts_made = 2 }

dead_letter_counted_example :
    let c' = Metrics.counters_of (codes "stripe") (
      Metrics.on_worker_event 9 9
        (job_ended (codes "j1") (codes "stripe") normal (settle mute last_try silent).0)
        Metrics.new) in
    ((settle mute last_try silent).1.dead_letters ≡ final_letter last_try notify_error ∷ [])
    × (c'.succeeded ≡ (Metrics.counters_of (codes "stripe") Metrics.new).succeeded + 1)
    × (c'.failed ≡ (Metrics.counters_of (codes "stripe") Metrics.new).failed + 0)
dead_letter_counted_example =
    dead_letter_counted mute last_try silent 9 9 Metrics.new notify_fails (inr refl)

abbrev fresh : Service calm
fresh = record {
  gateways = [];
  semaphores = [];
  breakers = [];
  manager = QueueManager.new;
  store = no_cells;
  rows = [];
  outside = 0;
  reads = 0;
  events = [];
  dead_letters = [];
  resumed = [];
  failed_compensations = [];
}

abbrev always : ℕ → Draw × ℕ
always n = (record { num = 1; den = 2; below_one = omega arith }, n)

starts_of :
    (name : Text) (n : ℕ) (p : Priority)
    → (n == 0) ≡ false
    → ((n + 1) / 2 == 0) ≡ false
    → refusing.new_worker name (worker_concurrency n p) ≡ ok tt
starts_of name n high h k = ap (λ b. refused b (codes "concurrency")) h
starts_of name n normal h k = ap (λ b. refused b (codes "concurrency")) k
starts_of name n low h k = ap (λ b. refused b (codes "concurrency")) k

takes :
    (cfg : GatewayConfig)
    → has_colon cfg.id ≡ false
    → (cfg.concurrency == 0) ≡ false
    → ((cfg.concurrency + 1) / 2 == 0) ≡ false
    → Takes refusing cfg
takes cfg h k l = record {
  opens = colonless-Opens cfg.id h;
  starts = λ p. starts_of (queue_name cfg.id p) cfg.concurrency p k l;
}

start_gateways-IsReady_example :
    (start_gateways calm refusing always 0 gateway_configs fresh).0 ≡ ok tt
start_gateways-IsReady_example =
    (start_gateways-IsReady calm refusing always 0 gateway_configs fresh
      (takes _ refl refl refl, (takes _ refl refl refl, (takes _ refl refl refl, tt)))).0

abbrev started : Service calm
started = (start_gateways calm refusing always 0 gateway_configs fresh).1

-- A payment of a gateway that was never registered.
unknown_refused :
    (Service.process calm
      (record job { payment = record payment { gateway_id = codes "x" } })
      fresh).0
    ≡ throw (Thrown.error (codes "No rate limiter for gateway \"x\""))
unfolding Service.process lookup
unknown_refused = refl
