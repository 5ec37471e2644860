-- ===== src/Metrics/DeadLetters.antt =====
-- What the metrics make of a payment that ends in the dead letter queue: the job's function
-- returns, so its worker emits 'completed'.
use payment_queue_system_bul.Prelude.{
  ℕ, ◌+◌, ◌≡◌, refl, ap, ◌∙◌, ◌⊎◌, inl, inr, true, false, Bool, Bool-cases, [], ◌∷◌, some, codes,
  if◌then◌else◌, ◌++◌, Text, arith, leb, text_eq_refl,
}
use payment_queue_system_bul.Types.{Thrown, message_of, shown}
use payment_queue_system_bul.Types.Classify.{classify_failure}
use payment_queue_system_bul.Effects.{Outcome, ok, throw, Outcome-cases}
use payment_queue_system_bul.Processor.{Env, Session, Job, DeadLetter}
use payment_queue_system_bul.Processor.Parts.{letter}
use payment_queue_system_bul.Processor.Charge.{run_saga}
use payment_queue_system_bul.Processor.Process.{is_permanent, settle}
use payment_queue_system_bul.Processor.Process.Terminal.{buried, answer, verdict, settle-Settles}
use payment_queue_system_bul.QueueManager.WorkerEvents.{job_ended}
use payment_queue_system_bul.Metrics.{
  MetricsCollector, counters_of, tally, record_outcome, on_worker_event,
}
use payment_queue_system_bul.Metrics.History.Snapshots.{record_outcome-counters}

abbrev pub is_ok : Outcome (Unit {0}) → Bool
is_ok (ok _) = true
is_ok (throw err) = false

-- The failure is permanent, or no retry is left.
abbrev pub IsFinal : Job → Thrown → Type 0
IsFinal job err =
    (is_permanent (classify_failure err) ≡ true)
    ⊎ (leb job.payment.max_retries (job.attempts_made + 1) ≡ true)

-- What the dead letter queue is given.
abbrev pub final_letter : Job → Thrown → DeadLetter
final_letter job err = letter job.payment (
    if is_permanent (classify_failure err)
    then message_of err
    else some (codes "exhausted retries: " ++ shown (message_of err)))

verdict-IsFinal :
    (job : Job) (err : Thrown) (add : DeadLetter → Outcome Unit)
    → IsFinal job err
    → verdict job (throw err) add ≡ buried (final_letter job err) (add (final_letter job err))
verdict-IsFinal job err add (inl permanent) = rw permanent refl
verdict-IsFinal job err add (inr exhausted) =
    elim (Bool-cases (is_permanent (classify_failure err))) [
      | inl final ↦ rw final refl
      | inr other ↦ rw (other, exhausted) refl
    ]

outcome-counters :
    (measured now : ℕ) (g job_id : Text) (success : Bool) (m : MetricsCollector)
    → let c = counters_of g m in
      let c' = counters_of g (record_outcome measured now g job_id success m) in
      (c'.succeeded ≡ c.succeeded + (if success then 1 else 0))
      × (c'.failed ≡ c.failed + (if success then 0 else 1))
unfolding tally
outcome-counters measured now g job_id success m =
    let found = record_outcome-counters g measured now g job_id success m in
    rw (found, text_eq_refl g) (ground arith, ground arith)

module _ (env : Env) where
  -- A payment whose saga fails for good, for a permanent reason or at the last attempt. If the dead
  -- letter queue takes it, there is one more dead letter, and the metrics of its gateway count it as
  -- a success: one more has succeeded, and no more have failed. So no success rate falls by
  -- payments that end as dead letters. Only if the dead letter queue rejects it, so that there is no
  -- dead letter, is it counted as a failure.
  pub dead_letter_counted :
      (job : Job) (s : Session env) (measured now : ℕ) (m : MetricsCollector) {err : Thrown}
      → (run_saga env job.payment s).0 ≡ throw err
      → IsFinal job err
      → let l = final_letter job err in
        let taken = is_ok (env.add_dead_letter l (run_saga env job.payment s).1.outside) in
        let (r, s') = settle env job s in
        let g = job.payment.gateway_id in
        let ended = job_ended job.id g job.payment.priority r in
        let c = counters_of g m in
        let c' = counters_of g (on_worker_event measured now ended m) in
        (s'.dead_letters ≡ s.dead_letters ++ (if taken then l ∷ [] else []))
        × (c'.succeeded ≡ c.succeeded + (if taken then 1 else 0))
        × (c'.failed ≡ c.failed + (if taken then 0 else 1))
  unfolding job_ended on_worker_event
  dead_letter_counted job s measured now m {err} fails final =
      let o = (run_saga env job.payment s).1.outside in
      let l = final_letter job err in
      let (result, letters, sem, res, brk) = settle-Settles env job s in
      let ends : verdict job (run_saga env job.payment s).0 (answer env o)
          ≡ buried l (env.add_dead_letter l o) =
        ap (λ x. verdict job x (answer env o)) fails
        ∙ verdict-IsFinal job err (answer env o) final in
      let returned = result ∙ ap (λ v. v.0) ends in
      let more = letters ∙ ap (λ v. s.dead_letters ++ v.1) ends in
      let counted =
        λ (success : Bool). outcome-counters measured now job.payment.gateway_id job.id success m in
      elim (Outcome-cases (env.add_dead_letter l o)) [
        | inl (_, taken) ↦
            let done_ = returned ∙ ap (λ x. (buried l x).0) taken in
            (
              rw taken (more ∙ ap (λ x. s.dead_letters ++ (buried l x).1) taken),
              rw (taken, done_) (counted true).0,
              rw (taken, done_) (counted true).1,
            )
        | inr (e, refused) ↦
            let thrown = returned ∙ ap (λ x. (buried l x).0) refused in
            (
              rw refused (more ∙ ap (λ x. s.dead_letters ++ (buried l x).1) refused),
              rw (refused, thrown) (counted false).0,
              rw (refused, thrown) (counted false).1,
            )
      ]
