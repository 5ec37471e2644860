-- ===== src/Processor.antt =====
-- src/payment/payment-processor.service.ts: the state that processing a job reads and writes for
-- the gateway of its payment, and what the code calls outside itself.
pub mod Parts
pub mod Charge
pub mod Process
pub mod Service
pub mod Awaits
pub mod Workers
use payment_queue_system_bul.Prelude.{
  ℕ, ◌+◌, Bool, true, false, List, [], ◌∷◌, ◌++◌, Option, none, some, Text, Dict,
}
use payment_queue_system_bul.Types.{Payment, PaymentStatus, GatewayResponse, GatewayStatus, Thrown}
use payment_queue_system_bul.Effects.{Outcome, Action}
use payment_queue_system_bul.CircuitBreaker.{CircuitState, CircuitBreaker}
use payment_queue_system_bul.TokenBucket.{TokenBucket}
use payment_queue_system_bul.Semaphore.{GatewaySemaphore}
use payment_queue_system_bul.Redis.{Redis}
use payment_queue_system_bul.Idempotency.{Json}
use payment_queue_system_bul.Repository.{Row}

-- The interface PaymentGateway, over the state `G` of what lies behind it.
pub record PaymentGateway (G : Type 0) : Type 0 where
  pub process : Payment → Action G GatewayResponse
  pub get_status : Text → Action G GatewayStatus

-- A job that is added to the dead letter queue.
pub record DeadLetter : Type 0 where
  pub payment : Payment
  pub job_id : Text

-- What is handed to the service: Redis, JSON, the successive readings of the clock, the printing
-- of a number of milliseconds (`none` is Infinity), the variable SAGA_FAIL_STEP, the gateway, and
-- what becomes of `add` on the dead letter queue, which may reject.
pub record Env : Type 1 where
  pub redis : Redis
  pub json : Json
  pub Outside : Type 0
  pub gateway : PaymentGateway Outside
  pub add_dead_letter : DeadLetter → Outside → Outcome (Unit {0})
  pub time : ℕ → ℕ
  pub show_ms : Option ℕ → Text
  pub saga_fail_step : Option Text

-- The events that the service emits, with their payloads.
pub data Event : Type 0 where
  payment_started : (job_id gateway_id : Text) → Event
  payment_status_changed :
      (payment_id : Text) (status : PaymentStatus) (failure_reason : Option Text)
      (correlation_id : Text)
      → Event
  payment_notify : (payment_id : Text) → Event
  payment_dead_letter : (payment_id : Text) (reason : Text) → Event
  circuit_breaker_state_change : (gateway_id : Text) (from to : CircuitState) → Event

pub record Job : Type 0 where
  pub id : Text
  pub payment : Payment
  pub attempts_made : ℕ

-- The breaker, the semaphore (its waiters by job id) and the rate limiter of the gateway, the
-- stores, and logs of what went out: events, dead letters, the jobs whose wait for a slot was
-- ended, and the steps whose compensation failed. `reads` counts the readings of the clock.
pub record Session (env : Env) : Type 0 where
  pub breaker : CircuitBreaker
  pub semaphore : GatewaySemaphore Text
  pub bucket : TokenBucket
  pub store : env.redis.Store
  pub rows : Dict Row
  pub outside : env.Outside
  pub reads : ℕ
  pub events : List Event
  pub dead_letters : List DeadLetter
  pub resumed : List Text
  pub failed_compensations : List Text
