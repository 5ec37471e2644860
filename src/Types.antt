-- ===== src/Types.antt =====
-- src/types/payment.types.ts: the domain types. Ids, keys and messages are texts; a date is a
-- number of milliseconds; `metadata` is carried along and never read, so it is an opaque text.
-- An amount is in minor units, and is only carried along too.
pub mod Classify
use payment_queue_system_bul.Prelude.{ℕ, Bool, true, false, Option, some, none, Text, codes}

pub data Priority : Type 0 where
  high normal low : Priority

pub data PaymentStatus : Type 0 where
  queued processing completed failed dead_letter compensating compensated : PaymentStatus

pub PaymentStatus-discrete : Discrete PaymentStatus
PaymentStatus-discrete = hlevel

-- `status === PaymentStatus.COMPLETED`
abbrev pub is_completed : PaymentStatus → Bool
is_completed completed = true
is_completed _ = false

pub record Payment : Type 0 where
  pub id : Text
  pub amount : ℕ
  pub currency : Text
  pub customer_id : Text
  pub gateway_id : Text
  pub priority : Priority
  pub retry_count : ℕ
  pub max_retries : ℕ
  pub status : PaymentStatus
  pub metadata : Text
  pub created_at : ℕ
  pub processed_at : Option ℕ
  pub failure_reason : Option Text
  pub idempotency_key : Text
  pub correlation_id : Text

pub record GatewayResponse : Type 0 where
  pub success : Bool
  pub transaction_id : Text
  pub gateway_id : Text
  pub raw_code : Option Text
  pub message : Option Text

pub data Settlement : Type 0 where
  pending settled failed unknown : Settlement

pub record GatewayStatus : Type 0 where
  pub transaction_id : Text
  pub status : Settlement

pub data FailureCategory : Type 0 where
  transient rate_limited permanent unknown : FailureCategory

-- What a `throw` carries: a ClassifiedError (message, category, gateway code), another Error
-- (message), or a value that is no Error, by its `String(value)`; `null` and
-- `undefined`, of which even `.message` cannot be read, are left out.
pub data Thrown : Type 0 where
  classified : Text → FailureCategory → Option Text → Thrown
  error : Text → Thrown
  value : Text → Thrown

-- `(err as Error).message`, which is `undefined` on a value that is no Error.
abbrev pub message_of : Thrown → Option Text
message_of (classified m c g) = some m
message_of (error m) = some m
message_of (value v) = none

-- A text or `undefined` inside a template literal.
abbrev pub shown : Option Text → Text
shown none = codes "undefined"
shown (some t) = t
