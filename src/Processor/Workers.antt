-- ===== src/Processor/Workers.antt =====
-- The worker pools of one gateway over src/payment/payment-processor.service.ts: any number of jobs
-- run at once in one process, interleaved at every await in any order. The queue may hand out a job
-- at any time. A job whose wait for a slot has been ended is in `resumed` until it runs on.
pub mod Slots
pub mod Exclusive
pub mod Expiry
pub mod Progress
pub mod Queueing
pub mod Search
pub mod Deadlock
pub mod Limit
use payment_queue_system_bul.Prelude.{true, ℕ, ◌+◌, ◌≡◌, arith, List, [], ◌∷◌, ◌++◌, Text}
use payment_queue_system_bul.Processor.{Env, Session, Job}
use payment_queue_system_bul.Processor.Awaits.{Pc, begin, waiting, charging, is_running, advance}

pub record Task : Type 0 where
  pub job : Job
  pub pc : Pc

-- Sums over the tasks.
module _ (w : Task → ℕ) where
  abbrev pub total : List Task → ℕ
  total [] = 0
  total (t ∷ ts) = w t + total ts

  pub total-append : (xs ys : List Task) → total (xs ++ ys) ≡ total xs + total ys
  total-append [] ys = omega arith
  total-append (x ∷ xs) ys = omega (arith, total-append xs ys)

  pub total-at :
      (before after : List Task) (t : Task)
      → total (before ++ t ∷ after) ≡ total before + w t + total after
  total-at before after t = omega (arith, total-append before (t ∷ after))

abbrev pub at_pc : Job → Pc → Task
at_pc job pc = record { job = job; pc = pc }

module _ (env : Env) where
  pub record System : Type 0 where
    pub session : Session env
    pub tasks : List Task

-- `Arrives` says which jobs the queue hands out, `Others` what the rest of the world does to the
-- session between two pieces: the gateway's side, and other processes through Redis.
module _ (env : Env) (Arrives : Job → Type 0) (Others : System env → Session env → Type 0) where
  pub data Step (x y : System env) : Type 0 where
    arrive :
        (job : Job)
        → Arrives job
        → y ≡ record x { tasks = x.tasks ++ at_pc job begin ∷ [] }
        → Step x y
    elsewhere : (t : Session env) → Others x t → y ≡ record x { session = t } → Step x y
    run :
        (before after : List Task) (job : Job) (p q : Pc) (t : Session env)
        → is_running p ≡ true
        → x.tasks ≡ before ++ at_pc job p ∷ after
        → advance env job p x.session ≡ (q, t)
        → y ≡ record { session = t; tasks = before ++ at_pc job q ∷ after }
        → Step x y
    resume :
        (before after : List Task) (job : Job) (earlier later : List Text)
        → x.tasks ≡ before ++ at_pc job waiting ∷ after
        → x.session.resumed ≡ earlier ++ job.id ∷ later
        → y ≡ record {
          session = record x.session { resumed = earlier ++ later };
          tasks = before ++ at_pc job charging ∷ after;
        }
        → Step x y

  pub data Reach (x : System env) : System env → Type 0 where
    here : Reach x x
    next : {y z : System env} → Reach x y → Step y z → Reach x z
