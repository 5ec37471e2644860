-- ===== src/Lib.antt =====
-- Payment queue: the payment side of a NestJS service over BullMQ and Redis, as a model with proofs.
--
-- A worker hands each job to `process` of src/payment/payment-processor.service.ts. It asks the
-- gateway's circuit breaker and then its token bucket for permission, looks the payment up in the
-- idempotency cache and in the repository, takes the payment's lock and a slot of the gateway's
-- semaphore, and runs the payment saga. The end of the saga is reported to the breaker; a failure is
-- classified and either thrown, for the queue to retry, or moved to the dead letter queue. The
-- breaker's changes of state adapt the token bucket.
--
-- Files, with what they model (paths from the repository's root):
--   Types, Types/Classify       src/types/payment.types.ts: the data, and classifyFailure
--   Backoff                     src/payment/backoff.ts: computeBackoffMs
--   TokenBucket                 src/queue/token-bucket.ts: the class, method by method
--   CircuitBreaker              src/payment/circuit-breaker.ts: the class, method by method
--   Saga, Saga/Steps            src/payment/saga.ts: PaymentSaga and buildPaymentSagaSteps
--   Idempotency                 src/payment/idempotency.service.ts, over the interfaces Redis and Json
--   Redis                       what is relied on of the Redis client; Redis/Memory fills it
--   Repository                  src/payment/payment.repository.ts: the in-memory repository
--   Semaphore                   GatewaySemaphore of src/payment/payment-processor.service.ts
--   Processor                   the rest of that file: Parts has the services as it calls them,
--                               Charge has runSaga and reconcile, Process is process on one gateway,
--                               Awaits the same cut at its awaits, Workers many jobs at once,
--                               Service the maps of all gateways with registerGateway, and
--                               move_to_dead_letter is that of src/queue/queue-manager.service.ts
--   QueueManager                src/queue/queue-manager.service.ts: registering, attaching, enqueueing;
--                               Counts has collectMetrics, Shutdown has shutdown, and WorkerEvents the
--                               listeners of a worker
--   PaymentModule               src/payment.module.ts: PaymentModule.onModuleInit
--   Metrics                     src/monitoring/metrics-collector.service.ts: Window has RollingWindow,
--                               History the history of snapshots and collect, Payload the payload of
--                               the dashboard
--   Dashboard                   src/monitoring/dashboard.gateway.ts: DashboardGateway
--   Tracing                     src/tracing/tracing.ts: the ids and the spans
--   LoadTest                    src/scripts/load-test.js
--   Effects                     an async method: a state, and a result or an error
--   Prelude, Tests              shared lemmas; concrete inputs
-- The children of a module hold its proofs. An operation has the name of its method in snake case; it
-- takes its object and gives it back. A reading of `Date.now()` is an argument; in the processor the
-- successive readings are any function `time` of their number. `Math.random()`, the gateway and the
-- server behind Redis are parameters. The queues are BullMQ's: what is added to them is
-- logged, and whether BullMQ opens a queue, starts a worker or takes a job is a parameter (`Bull` of
-- QueueManager, `add_dead_letter` of Processor), which may throw. The calls of Redis and of the
-- repository are taken to resolve, and `null` and `undefined` are never thrown.
--
-- Bounds. Loops are structural recursions, but for two. The sending loop of the load test takes fuel:
-- 5000 rounds for each second of its limit, and one more, are proved to be enough. The digits of a
-- number take fuel n + 1 for the number n, which has no more digits than that. Doubles are exact:
-- tokens in billionths, rates in millionths of a token per second, fractions in thousandths; the
-- rounding of floating point is left out. Amounts and dates are only carried along.
--
-- Interleaving. The semaphore, the breaker, the bucket and the lock take any sequence of calls.
-- Processor/Process has one attempt run on its own between its start and its end, but for the wait for
-- a slot. Processor/Awaits cuts it at every await that reaches Redis, the repository, the gateway, the
-- semaphore or the dead letter queue, and Processor/Workers interleaves any number of jobs there, all of
-- one gateway and in one process. A reply is taken up as soon as the call has had its effect. What the
-- workers of other processes do to Redis meanwhile, and the gateway on its side, is any relation
-- `Others`, with what they leave alone as a condition of the theorem that needs it. Processor/Process and
-- Processor/Awaits are two translations of the same lines, and have theorems of their own.
--
-- Not modelled: src/main.ts and the providers of src/payment.module.ts, which are wiring alone; the
-- dashboard's page; the compiled copy of the sources under dist. BullMQ, Redis, socket.io and the
-- tracing library are parameters. What the code relies on of Redis is a record of laws; of BullMQ it is
-- a condition of the theorem that needs it, else the theorem says what follows from each answer.
mod Prelude
pub mod Types
pub mod TokenBucket
pub mod CircuitBreaker
pub mod Backoff
pub mod Semaphore
pub mod Effects
pub mod Saga
pub mod Redis
pub mod Idempotency
pub mod Repository
pub mod Processor
pub mod QueueManager
pub mod Metrics
pub mod Tracing
pub mod LoadTest
pub mod Dashboard
pub mod PaymentModule
mod Tests
