-- ===== src/Processor/Workers/Progress.antt =====
-- Which steps are those of a job.
use payment_queue_system_bul.Prelude.{ℕ}
use payment_queue_system_bul.Processor.{Env, Session, Job}
use payment_queue_system_bul.Processor.Workers.{System, Step, arrive, elsewhere, run, resume}

module _ (env : Env) (Arrives : Job → Type 0) (Others : System env → Session env → Type 0) where
  -- The steps of a run that are steps of its jobs.
  abbrev pub piece_of : {x y : System env} → Step env Arrives Others x y → ℕ
  piece_of (arrive _ _ _) = 0
  piece_of (elsewhere _ _ _) = 0
  piece_of (run _ _ _ _ _ _ _ _ _ _) = 1
  piece_of (resume _ _ _ _ _ _ _ _) = 1
