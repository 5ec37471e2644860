-- ===== src/Processor/Process/LostLock.antt =====
-- A duplicate that reconciles while the attempt that holds the lock still runs.
use payment_queue_system_bul.Prelude.{
  ℕ, ◌+◌, ◌*◌, ◌≤◌, ◌<◌, ◌≡◌, ap, ◌∙◌, true, false, some, arith, text_eq_refl, lt→ltb,
}
use payment_queue_system_bul.Types.{Payment, GatewayStatus, settled}
use payment_queue_system_bul.Effects.{ok}
use payment_queue_system_bul.Idempotency as Idempotency
use payment_queue_system_bul.Idempotency.{result_ttl_sec}
use payment_queue_system_bul.Idempotency.View.{acquire_lock-Sees, store_result-Sees}
use payment_queue_system_bul.Processor.{Env, Session, Job}
use payment_queue_system_bul.Processor.Charge.{reconcile, success_response}
use payment_queue_system_bul.Processor.Charge.Frame.{reconcile-Keeps}
use payment_queue_system_bul.Processor.Process.{done, charge}
use payment_queue_system_bul.Processor.Process.Duplicates.{refused, lock_refused, charge-refused}

module _ (env : Env) where
  -- Whether the key of the job is locked at a time.
  abbrev pub IsHeld : Job → ℕ → Session env → Type 0
  IsHeld job t s =
      Idempotency.has_lock env.redis env.json t job.payment.idempotency_key s.store ≡ true

  reconcile-settled :
      (payment : Payment) (s : Session env) {status : GatewayStatus}
      → Idempotency.has_lock env.redis env.json (env.time s.reads) payment.idempotency_key s.store
        ≡ true
      → (env.gateway.get_status payment.idempotency_key s.outside).0 ≡ ok status
      → status.status ≡ settled
      → (reconcile env payment s).1.store
        ≡ Idempotency.store_result env.redis env.json
            (env.time (s.reads + 1))
            payment.idempotency_key
            (success_response status.transaction_id payment.gateway_id)
            s.store
  unfolding reconcile
  reconcile-settled payment s held asked is_settled = ground arith

  refused-IsHeld :
      (job : Job) (s : Session env)
      → env.time s.reads ≤ env.time (s.reads + 1)
      → IsHeld job (env.time s.reads) s
      → IsHeld job (env.time (s.reads + 1)) s
      → IsHeld job (env.time (s.reads + 1)) (refused env job s)
  refused-IsHeld job s clock now later =
      let key = job.payment.idempotency_key in
      let (reply, lock, _) =
        acquire_lock-Sees env.redis env.json (env.time s.reads) (env.time (s.reads + 1)) key key
          s.store clock in
      lock ∙ ground (arith, lock_refused env (env.time s.reads) key s.store now, later)

  -- An attempt that is past its lookups and finds the lock held by another one asks the gateway
  -- for the payment; if the gateway has it as settled, the attempt ends as done, caches a
  -- successful result for 24 hours, and takes away the lock of the attempt that still holds it and
  -- its slot, whatever becomes of that one: the lock is free at any time from then on, when every
  -- reading of the clock is past. The lock must not expire before the attempt looks at it again.
  pub reconcile_frees_lock :
      (job : Job) (t : ℕ) (s : Session env) {status : GatewayStatus}
      → env.time s.reads ≤ env.time (s.reads + 1)
      → IsHeld job (env.time s.reads) s
      → IsHeld job (env.time (s.reads + 1)) s
      → (env.gateway.get_status job.payment.idempotency_key s.outside).0 ≡ ok status
      → status.status ≡ settled
      → ((n : ℕ) → env.time n ≤ t)
      → t < env.time (s.reads + 1 + 1) + result_ttl_sec * 1000
      → let (r, s') = charge env job s in
        let key = job.payment.idempotency_key in
        (r ≡ ok done)
        × (s'.semaphore ≡ s.semaphore)
        × (Idempotency.has_lock env.redis env.json t key s'.store ≡ false)
        × (Idempotency.get_result env.redis env.json t key s'.store
            ≡ ok (some (success_response status.transaction_id job.payment.gateway_id)))
  reconcile_frees_lock job t s {status} clock now later asked is_settled early fresh =
      let key = job.payment.idempotency_key in
      let s₁ = refused env job s in
      let result = success_response status.transaction_id job.payment.gateway_id in
      let turned_away = lock_refused env (env.time s.reads) key s.store now in
      let same = charge-refused env job s turned_away in
      let store =
        ap (λ x. x.1.store) same
        ∙ reconcile-settled job.payment s₁ (refused-IsHeld job s clock now later) asked
            is_settled in
      let at = env.time (s.reads + 1 + 1) in
      let (lock, cached) =
        store_result-Sees env.redis env.json at t key key result s₁.store
          (early (s.reads + 1 + 1)) in
      (
        ap (λ x. x.0) same,
        ap (λ x. x.1.semaphore) same ∙ (reconcile-Keeps env job.payment s₁).semaphore,
        rw store (lock ∙ ground (arith, text_eq_refl key)),
        rw store (cached ∙ ground (arith, text_eq_refl key, lt→ltb t _ fresh)),
      )
