-- ===== src/Processor/Workers/Expiry.antt =====
-- A job that waits for a slot holds its lock all the while.
use payment_queue_system_bul.Prelude.{
  ◌+◌, ◌≤◌, ◌≡◌, ap, ◌∙◌, not, true, false, Text, arith, text_eq_refl, ltb, if◌then◌else◌,
}
use payment_queue_system_bul.Semaphore as Semaphore
use payment_queue_system_bul.Idempotency as Idempotency
use payment_queue_system_bul.Idempotency.View.{lock_ms, acquire_lock-Sees}
use payment_queue_system_bul.Processor.{Env, Session, Job}
use payment_queue_system_bul.Processor.Awaits.{at_lock, waiting, charging, advance}

module _ (env : Env) where
  abbrev locks : Session env → Text → env.redis.Store
  locks s key = (Idempotency.acquire_lock env.redis env.json (env.time s.reads) key s.store).0

  abbrev IsFree : Session env → Text → Type 0
  IsFree s key = Idempotency.has_lock env.redis env.json (env.time s.reads) key s.store ≡ false

  granted :
      (s : Session env) (key : Text)
      → IsFree s key
      → (Idempotency.acquire_lock env.redis env.json (env.time s.reads) key s.store).1 ≡ true
  granted s key f =
      let now = env.time s.reads in
      (acquire_lock-Sees env.redis env.json now now key key s.store (omega arith)).0 ∙ ap not f

  -- A job that finds its lock free and all slots taken waits with the lock.
  waits :
      (job : Job) (s : Session env)
      → IsFree s job.payment.idempotency_key
      → s.semaphore.max ≤ s.semaphore.in_flight
      → ((advance env job at_lock s).0 ≡ waiting)
        × ((advance env job at_lock s).1.store ≡ locks s job.payment.idempotency_key)
  unfolding advance Semaphore.acquire
  waits job s f full =
      let e = granted s job.payment.idempotency_key f in (ground (arith, e), ground (arith, e))

  takes :
      (job : Job) (s : Session env)
      → IsFree s job.payment.idempotency_key
      → (advance env job at_lock s).0
        ≡ (if ltb s.semaphore.in_flight s.semaphore.max then charging else waiting)
  unfolding advance Semaphore.acquire
  takes job s f = let e = granted s job.payment.idempotency_key f in ground (arith, e)

  expired :
      (key : Text) (s u : Session env)
      → IsFree s key
      → u.store ≡ locks s key
      → env.time s.reads + lock_ms ≤ env.time u.reads
      → IsFree u key
  expired key s u f same late =
      let seen =
        (acquire_lock-Sees env.redis env.json (env.time s.reads) (env.time u.reads) key key s.store
          (omega arith)).1 in
      rw same (seen ∙ ground (arith, granted s key f, text_eq_refl key, late))

  -- A job takes the lock of its payment and then waits for a slot. If it still waits 120 seconds
  -- later, when the store is as it left it, the lock has expired: another job on the payment takes
  -- it too, and goes on to the gateway, at once or when it gets a slot in its turn. It is not sent
  -- to `reconcile`, although the first job is to charge as soon as it is resumed.
  pub expired_while_waiting :
      (job again : Job) (s u : Session env)
      → again.payment ≡ job.payment
      → Idempotency.has_lock env.redis env.json
          (env.time s.reads)
          job.payment.idempotency_key
          s.store
        ≡ false
      → s.semaphore.max ≤ s.semaphore.in_flight
      → u.store ≡ (advance env job at_lock s).1.store
      → env.time s.reads + lock_ms ≤ env.time u.reads
      → ((advance env job at_lock s).0 ≡ waiting)
        × ((advance env again at_lock u).0
            ≡ (if ltb u.semaphore.in_flight u.semaphore.max then charging else waiting))
  expired_while_waiting job again s u same f full kept late =
      let (at, store) = waits job s f full in
      let gone = expired job.payment.idempotency_key s u f (kept ∙ store) late in
      (at, takes again u (rw (ap (λ p. p.idempotency_key) same) gone))
