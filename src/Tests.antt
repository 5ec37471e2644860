-- ===== src/Tests.antt =====
-- Concrete inputs: test runs, and the theorems at inputs that meet their hypotheses.
mod Breaker
mod Bucket
mod Services
mod Payments
mod Queues
mod Races
mod Workers
mod Monitoring
