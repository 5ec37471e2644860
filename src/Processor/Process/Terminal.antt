-- ===== src/Processor/Process/Terminal.antt =====
-- How a job that holds its slot ends: its result, the dead letter queue, the slot, the breaker and
-- the lock.
use mathlib.Core.List.{append-nil}
use payment_queue_system_bul.Prelude.{
  ℕ, ◌+◌, ◌≤◌, ◌≡◌, refl, Bool, ◌&&◌, ap, ◌∙◌, false, true, Bool-cases, inl, inr, List, [], ◌∷◌,
  ◌++◌, some, codes, arith, leb, text_eq_refl, if◌then◌else◌,
}
use payment_queue_system_bul.Types.{Thrown, message_of, shown}
use payment_queue_system_bul.Types.Classify.{classify_failure}
use payment_queue_system_bul.Effects.{Outcome, ok, throw, Outcome-cases}
use payment_queue_system_bul.CircuitBreaker as Breaker
use payment_queue_system_bul.Semaphore as Semaphore
use payment_queue_system_bul.Idempotency as Idempotency
use payment_queue_system_bul.Idempotency.View.{release_lock-Sees}
use payment_queue_system_bul.Processor.{Env, Session, Job, DeadLetter}
use payment_queue_system_bul.Processor.Parts.{letter, listed, release_slot}
use payment_queue_system_bul.Processor.Charge.{run_saga}
use payment_queue_system_bul.Processor.Charge.Frame.{run_saga-Keeps}
use payment_queue_system_bul.Processor.Process.{
  Fate, done, is_permanent, handle_failure, after_saga, settle,
}

-- What the dead letter queue's answer makes of a job that is to be buried.
abbrev pub buried : DeadLetter → Outcome (Unit {0}) → Outcome Fate × List DeadLetter
buried l (ok _) = (ok done, l ∷ [])
buried l (throw err) = (throw err, [])

-- What the end of the saga makes of the job: the result, and what joins the dead letter queue.
abbrev pub verdict :
    Job → Outcome (Unit {0}) → (DeadLetter → Outcome (Unit {0})) → Outcome Fate × List DeadLetter
verdict job (ok _) add = (ok done, [])
verdict job (throw err) add =
    if is_permanent (classify_failure err)
    then (let l = letter job.payment (message_of err) in buried l (add l))
    else if leb job.payment.max_retries (job.attempts_made + 1)
    then (let l =
          letter job.payment (some (codes "exhausted retries: " ++ shown (message_of err))) in
        buried l (add l))
    else (throw err, [])

abbrev pub outcome_recorded :
    Outcome (Unit {0}) → ℕ → Breaker.CircuitBreaker → Breaker.CircuitBreaker
outcome_recorded (ok _) now b = (Breaker.record_success b).0
outcome_recorded (throw err) now b = (Breaker.record_failure now b).0

module _ (env : Env) where
  -- The answer of the dead letter queue.
  abbrev pub answer : env.Outside → DeadLetter → Outcome (Unit {0})
  answer o l = env.add_dead_letter l o

  -- What holds of the session `s'` and the result `r` that a job is left with.
  pub record Settles (job : Job) (saga : Outcome (Unit {0})) (s : Session env) (r : Outcome Fate)
      (s' : Session env) : Type 0 where
    pub result : r ≡ (verdict job saga (answer s.outside)).0
    pub dead_letters : s'.dead_letters ≡ s.dead_letters ++ (verdict job saga (answer s.outside)).1
    pub semaphore : s'.semaphore ≡ (Semaphore.release s.semaphore).0
    pub resumed : s'.resumed ≡ s.resumed ++ listed env (Semaphore.release s.semaphore).1
    pub breaker : s'.breaker ≡ outcome_recorded saga (env.time s.reads) s.breaker

  failed-Settles :
      (job : Job) (err : Thrown) (s : Session env)
      → Settles job
          (throw err)
          s
          (after_saga env job (throw err) s).0
          (after_saga env job (throw err) s).1
  unfolding after_saga
  failed-Settles job err s = elim (Bool-cases (is_permanent (classify_failure err))) [
    | inl final ↦ elim (Outcome-cases (answer s.outside (letter job.payment (message_of err)))) [
      | inl (_, taken) ↦ ground (arith, append-nil s.dead_letters, final, taken)
      | inr (e, refused) ↦ ground (arith, append-nil s.dead_letters, final, refused)
    ]
    | inr other ↦
        let exhausted = some (codes "exhausted retries: " ++ shown (message_of err)) in
        elim (Bool-cases (leb job.payment.max_retries (job.attempts_made + 1))) [
          | inr more ↦ ground (arith, append-nil s.dead_letters, other, more)
          | inl last ↦ elim (Outcome-cases (answer s.outside (letter job.payment exhausted))) [
            | inl (_, taken) ↦ ground (arith, append-nil s.dead_letters, other, last, taken)
            | inr (e, refused) ↦ ground (arith, append-nil s.dead_letters, other, last, refused)
          ]
        ]
  ]

  after_saga-Settles :
      (job : Job) (saga : Outcome (Unit {0})) (s : Session env)
      → Settles job saga s (after_saga env job saga s).0 (after_saga env job saga s).1
  unfolding after_saga
  after_saga-Settles job (ok _) s = ground (arith, append-nil s.dead_letters)
  after_saga-Settles job (throw err) s = failed-Settles job err s

  -- A job that holds a slot, whatever its gateway answers, ends in one of four ways. It is done with
  -- nothing sent to the dead letter queue, if the saga succeeds. It is to be buried, with the reason,
  -- if the saga fails for a permanent reason, or fails otherwise and this was the last attempt
  -- (`attemptsMade + 1 >= maxRetries`): it is then done with one dead letter, if the dead letter
  -- queue takes it, and else it throws what that queue threw, with no dead letter. In all other
  -- cases the error of the saga is thrown, so that the queue retries, with no dead letter. In each
  -- case exactly one slot is released, which resumes the first waiter if there is one, and the
  -- breaker records exactly one outcome, that of the saga. The calls of Redis are taken to resolve.
  pub settle-Settles :
      (job : Job) (s : Session env)
      → let (saga, s₁) = run_saga env job.payment s in
        let (r, s') = settle env job s in
        let v = verdict job saga (answer s₁.outside) in
        (r ≡ v.0)
        × (s'.dead_letters ≡ s.dead_letters ++ v.1)
        × (s'.semaphore ≡ (Semaphore.release s.semaphore).0)
        × (s'.resumed ≡ s.resumed ++ listed env (Semaphore.release s.semaphore).1)
        × (s'.breaker ≡ outcome_recorded saga (env.time s₁.reads) s.breaker)
  unfolding settle
  settle-Settles job s =
      let k = run_saga-Keeps env job.payment s in
      let (saga, s₁) = run_saga env job.payment s in
      let t = after_saga-Settles job saga s₁ in
      (
        t.result,
        t.dead_letters ∙ ap (λ l. l ++ (verdict job saga (answer s₁.outside)).1) k.dead_letters,
        t.semaphore ∙ ap (λ x. (Semaphore.release x).0) k.semaphore,
        ground (arith, t.resumed, k.resumed, k.semaphore),
        t.breaker ∙ ap (outcome_recorded saga (env.time s₁.reads)) k.breaker,
      )

  pub handle_failure-rows :
      (job : Job) (err : Thrown) (s : Session env) → (handle_failure env job err s).1.rows ≡ s.rows
  unfolding handle_failure
  handle_failure-rows job err s = ground arith

  abbrev refuses : Outcome (Unit {0}) → Bool
  refuses (ok _) = false
  refuses (throw err) = true

  -- The failure is permanent and the dead letter queue rejects the payment, so that the attempt ends
  -- before it frees the lock.
  abbrev pub skips_unlock : Job → Thrown → env.Outside → Bool
  skips_unlock job err o =
      is_permanent (classify_failure err)
      && refuses (answer o (letter job.payment (message_of err)))

  pub handle_failure-store :
      (job : Job) (err : Thrown) (s : Session env)
      → (handle_failure env job err s).1.store ≡ (
          if skips_unlock job err s.outside
          then s.store
          else Idempotency.release_lock env.redis env.json
              (env.time (s.reads + 1))
              job.payment.idempotency_key
              s.store)
  unfolding handle_failure
  handle_failure-store job err s =
      elim (Outcome-cases (answer s.outside (letter job.payment (message_of err)))) [
        | inl (_, taken) ↦ ground (arith, taken)
        | inr (e, refused) ↦ ground (arith, refused)
      ]

  -- After a saga that failed the payment's key is free, so that a retry is not taken for a
  -- duplicate, however the attempt ends but in one case: if the failure is permanent and the dead
  -- letter queue rejects the payment, the lock is left as it is when the saga has ended. This is at
  -- any time from the readings of the clock on. The calls of Redis are taken to resolve.
  pub failed_lock :
      (job : Job) (t : ℕ) (s : Session env) {err : Thrown}
      → ((n : ℕ) → env.time n ≤ t)
      → (run_saga env job.payment s).0 ≡ throw err
      → let s₁ = (run_saga env job.payment s).1 in
        let locked = λ (store : env.redis.Store).
          Idempotency.has_lock env.redis env.json t job.payment.idempotency_key store in
        locked (settle env job s).1.store ≡ (skips_unlock job err s₁.outside && locked s₁.store)
  unfolding settle after_saga release_slot
  failed_lock job t s {err} early failed =
      let s₁ = release_slot env (run_saga env job.payment s).1 in
      let key = job.payment.idempotency_key in
      let freed =
        release_lock-Sees env.redis env.json (env.time (s₁.reads + 1)) t key key s₁.store
          (early (s₁.reads + 1)) in
      rw (failed, after_saga, handle_failure-store job err s₁)
        (elim (Bool-cases (skips_unlock job err s₁.outside)) [
          | inl skips ↦ rw skips refl
          | inr frees ↦ rw frees (freed.0 ∙ ground (arith, text_eq_refl key))
        ])
