-- ===== src/Saga/Order.antt =====
-- The saga against a nest of `try` blocks.
use mathlib.Core.List.{reverse-append}
use payment_queue_system_bul.Prelude.{
  ◌≡◌, refl, ap, ◌∙◌, List, [], ◌∷◌, ◌++◌, Text, reverse, inl, inr,
}
use payment_queue_system_bul.Types.{Thrown}
use payment_queue_system_bul.Effects.{Outcome, ok, throw, Outcome-cases}
use payment_queue_system_bul.Saga.{
  PaymentSagaContext, merge, SagaStep, undo, undo_all, run_from, run,
}

-- How a nest of steps ends: with the final context, or with the error and the context that the
-- failed step was given.
pub data End : Type 0 where
  finished : PaymentSagaContext → End
  failed : Thrown → PaymentSagaContext → End

module _ {W : Type 0} (log_failure : Text → Thrown → PaymentSagaContext → W → W) where
  abbrev unwind : SagaStep W → End × W → End × W
  unwind step (finished ctx, w) = (finished ctx, w)
  unwind step (failed e ctx, w) = (failed e ctx, undo log_failure step ctx w)

  pub nested : List (SagaStep W) → PaymentSagaContext → W → End × W
  nested [] ctx w = (finished ctx, w)
  nested (step ∷ steps) ctx w =
      let (r, w') = step.execute ctx w in
      elim r [
        | ok patch ↦ unwind step (nested steps (merge ctx patch) w')
        | throw e ↦ (failed e ctx, w')
      ]

  abbrev pub outcome : End × W → Outcome PaymentSagaContext × W
  outcome (finished ctx, w) = (ok ctx, w)
  outcome (failed e ctx, w) = (throw e, w)

  -- What is left to undo outside the nest.
  abbrev unwind_all : List (SagaStep W) → End × W → End × W
  unwind_all steps (finished ctx, w) = (finished ctx, w)
  unwind_all steps (failed e ctx, w) = (failed e ctx, undo_all log_failure steps ctx w)

  unwind_all-cons :
      (step : SagaStep W) (steps : List (SagaStep W)) (x : End × W)
      → unwind_all (step ∷ steps) x ≡ unwind_all steps (unwind step x)
  unfolding undo_all
  unwind_all-cons step steps (finished ctx, w) = refl
  unwind_all-cons step steps (failed e ctx, w) = refl

  reverse-snoc :
      (step : SagaStep W) (steps : List (SagaStep W))
      → reverse (steps ++ step ∷ []) ≡ step ∷ reverse steps
  reverse-snoc step steps = reverse-append steps (step ∷ [])

  run_from-nested :
      (completed_steps steps : List (SagaStep W)) (ctx : PaymentSagaContext) (w : W)
      → run_from log_failure completed_steps steps ctx w
        ≡ outcome (unwind_all (reverse completed_steps) (nested steps ctx w))
  unfolding run_from nested
  run_from-nested completed_steps [] ctx w = refl
  run_from-nested completed_steps (step ∷ steps) ctx w =
      elim (Outcome-cases (step.execute ctx w).0) [
        | inl (patch, e) ↦
            let w' = (step.execute ctx w).1 in
            rw (e, run_from, nested)
              (run_from-nested (completed_steps ++ step ∷ []) steps (merge ctx patch) w'
                ∙ ap (λ l. outcome (unwind_all l (nested steps (merge ctx patch) w')))
                    (reverse-snoc step completed_steps)
                ∙ ap outcome (
                    unwind_all-cons step (reverse completed_steps)
                      (nested steps (merge ctx patch) w')))
        | inr (err, e) ↦ rw (e, run_from, nested)
      ]

  unwind_all-nil : (x : End × W) → unwind_all [] x ≡ x
  unfolding undo_all
  unwind_all-nil (finished ctx, w) = refl
  unwind_all-nil (failed e ctx, w) = refl

  -- The saga, which keeps a list of the completed steps and runs through it backwards, does what
  -- the nest of `try` blocks does: on a failure the completed steps, and no others, are undone in
  -- the reverse of their order, each with the context that the failed step was given and whether
  -- or not an earlier one failed to be undone; then the error is thrown on.
  pub run-nested :
      (steps : List (SagaStep W)) (ctx : PaymentSagaContext) (w : W)
      → run log_failure steps ctx w ≡ outcome (nested steps ctx w)
  unfolding run
  run-nested steps ctx w = run_from-nested [] steps ctx w ∙ ap outcome (unwind_all-nil _)
