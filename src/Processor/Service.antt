-- ===== src/Processor/Service.antt =====
-- PaymentProcessorService of src/payment/payment-processor.service.ts with all its gateways: the
-- three maps, `registerGateway`, and how `process` finds the parts of a payment's gateway. The rate
-- limiters are the queue manager's. A part is put back into its map when the attempt is over; a
-- gateway is not registered again while one of its jobs runs. The span around an attempt is left
-- out: it passes the result on.
use payment_queue_system_bul.Prelude.{ℕ, List, ◌++◌, none, some, Text, codes, Dict, lookup, insert}
use payment_queue_system_bul.Types.{Thrown, error}
use payment_queue_system_bul.Effects.{Outcome, ok, throw, Action}
use payment_queue_system_bul.CircuitBreaker as Breaker
use payment_queue_system_bul.CircuitBreaker.{CircuitBreaker}
use payment_queue_system_bul.TokenBucket.{TokenBucket}
use payment_queue_system_bul.Semaphore as Semaphore
use payment_queue_system_bul.Semaphore.{GatewaySemaphore}
use payment_queue_system_bul.Repository.{Row}
use payment_queue_system_bul.QueueManager.{QueueManager}
use payment_queue_system_bul.QueueManager.Counts.{get_rate_limiter}
use payment_queue_system_bul.Processor.{Env, PaymentGateway, Session, Event, DeadLetter, Job}
use payment_queue_system_bul.Processor.Process.{Fate, attempt, settle}

pub record Service (env : Env) : Type 0 where
  pub gateways : Dict (PaymentGateway env.Outside)
  pub semaphores : Dict (GatewaySemaphore Text)
  pub breakers : Dict CircuitBreaker
  pub manager : QueueManager
  pub store : env.redis.Store
  pub rows : Dict Row
  pub outside : env.Outside
  pub reads : ℕ
  pub events : List Event
  pub dead_letters : List DeadLetter
  pub resumed : List Text
  pub failed_compensations : List Text

abbrev pub default_max_concurrency : ℕ
default_max_concurrency = 15

module _ (env : Env) where
  -- The parts of one gateway.
  pub record Parts : Type 0 where
    pub gateway : PaymentGateway env.Outside
    pub semaphore : GatewaySemaphore Text
    pub breaker : CircuitBreaker
    pub bucket : TokenBucket

  -- The callback of the breaker is in `Processor.Parts`.
  unfoldable pub register_gateway :
      Text → PaymentGateway env.Outside → ℕ → Service env → Service env
  register_gateway gateway_id gateway max_concurrency s = record s {
    gateways = insert gateway_id gateway s.gateways;
    semaphores = insert gateway_id (Semaphore.new max_concurrency) s.semaphores;
    breakers = insert gateway_id (Breaker.new gateway_id Breaker.defaults) s.breakers;
  }

  abbrev pub not_registered : Text → Thrown
  not_registered gateway_id =
      error (codes "Gateway \"" ++ (gateway_id ++ codes "\" is not registered"))

  -- The lookups of `process` and its check. A missing rate limiter throws first.
  unfoldable pub parts_of : Text → Service env → Outcome Parts
  unfolding get_rate_limiter
  parts_of gateway_id s = elim (get_rate_limiter gateway_id s.manager) [
    | throw err ↦ throw err
    | ok bucket ↦ elim (lookup gateway_id s.breakers) [
      | none ↦ throw (not_registered gateway_id)
      | some breaker ↦ elim (lookup gateway_id s.semaphores) [
        | none ↦ throw (not_registered gateway_id)
        | some semaphore ↦ elim (lookup gateway_id s.gateways) [
          | none ↦ throw (not_registered gateway_id)
          | some gateway ↦ ok (record {
            gateway = gateway;
            semaphore = semaphore;
            breaker = breaker;
            bucket = bucket;
          })
        ]
      ]
    ]
  ]

  -- The surroundings of an attempt on this gateway.
  abbrev pub env_of : Parts → Env
  env_of p = record env { gateway = p.gateway }

  abbrev pub focus : (p : Parts) → Service env → Session (env_of p)
  focus p s = record {
    breaker = p.breaker;
    semaphore = p.semaphore;
    bucket = p.bucket;
    store = s.store;
    rows = s.rows;
    outside = s.outside;
    reads = s.reads;
    events = s.events;
    dead_letters = s.dead_letters;
    resumed = s.resumed;
    failed_compensations = s.failed_compensations;
  }

  -- The session's parts go back under the gateway's id.
  abbrev pub put_back : Text → (p : Parts) → Session (env_of p) → Service env → Service env
  put_back gateway_id p t s = record {
    gateways = s.gateways;
    semaphores = insert gateway_id t.semaphore s.semaphores;
    breakers = insert gateway_id t.breaker s.breakers;
    manager = record s.manager {
      rate_limiters = insert gateway_id t.bucket s.manager.rate_limiters;
    };
    store = t.store;
    rows = t.rows;
    outside = t.outside;
    reads = t.reads;
    events = t.events;
    dead_letters = t.dead_letters;
    resumed = t.resumed;
    failed_compensations = t.failed_compensations;
  }

  -- An action on the session of one gateway, as an action on the service.
  unfoldable pub on_gateway :
      Text → ((e : Env) → Action (Session e) Fate) → Action (Service env) Fate
  unfolding parts_of
  on_gateway gateway_id act s = elim (parts_of gateway_id s) [
    | throw err ↦ (throw err, s)
    | ok p ↦ let (result, t) = act (env_of p) (focus p s) in (result, put_back gateway_id p t s)
  ]

  -- `process`
  unfoldable pub process : Job → Action (Service env) Fate
  unfolding on_gateway attempt
  process job = on_gateway job.payment.gateway_id (λ e. attempt e job)

  -- What runs when a job that waited for a slot is resumed.
  unfoldable pub resume : Job → Action (Service env) Fate
  unfolding on_gateway settle
  resume job = on_gateway job.payment.gateway_id (λ e. settle e job)
