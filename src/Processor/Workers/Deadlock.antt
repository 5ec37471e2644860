-- ===== src/Processor/Workers/Deadlock.antt =====
-- The jobs do not wait for one another for ever.
use payment_queue_system_bul.Prelude.{
  ℕ, ◌≤◌, ◌≡◌, refl, ap, ◌∙◌, sym, ◌⊎◌, inl, inr, false, List, [], ◌∷◌, ◌++◌, Text, length,
  text_eq_refl, text_eq_sound, arith, All,
}
use payment_queue_system_bul.Processor.{Env, Session, Job}
use payment_queue_system_bul.Processor.Awaits.{waiting, charging, advance}
use payment_queue_system_bul.Processor.Workers.{
  at_pc, total, total-at, System, Step, run, resume, Reach,
}
use payment_queue_system_bul.Processor.Workers.Progress.{piece_of}
use payment_queue_system_bul.Processor.Workers.Slots.{LeavesSlots, IsCounted, Reach-IsCounted}
use payment_queue_system_bul.Processor.Workers.Queueing.{IsQueued, Reach-IsQueued}
use payment_queue_system_bul.Processor.Workers.Search.{
  waiting_as, IsEnded, Found, find, runs, waits, waits_under, slot-zero, waiting_as-zero,
  All-IsEnded, at_waiting, occurs-le-length,
}

module _ (env : Env) (Arrives : Job → Type 0) (Others : System env → Session env → Type 0)
    (apart : LeavesSlots env Others) (max : ℕ) where
  -- A step of a task.
  abbrev pub Moves : System env → Type 0
  Moves y =
      (z : System env) × ((st : Step env Arrives Others y z) × (piece_of env Arrives Others st ≡ 1))

  running-Moves : (y : System env) → Found runs y.tasks → Moves y
  running-Moves y f =
      let o = advance env f.task.job f.task.pc y.session in
      (
        record { session = o.1; tasks = f.before ++ at_pc f.task.job o.0 ∷ f.after },
        (run f.before f.after f.task.job f.task.pc o.0 o.1 f.passes f.at refl refl, refl),
      )

  resumed-Moves :
      (y : System env) (id : Text) (later : List Text)
      → y.session.resumed ≡ id ∷ later
      → IsQueued env y
      → Moves y
  resumed-Moves y id later e v = elim (find (waits_under id) y.tasks) [
    | inr none_ ↦
        absurd (ground (arith, v.queued id, e, text_eq_refl id, waiting_as-zero id y.tasks none_))
    | inl f ↦
        let place : f.task.pc ≡ waiting = at_waiting f.task.pc (ground (arith, f.passes)) in
        let own : f.task.job.id ≡ id = text_eq_sound f.task.job.id id (ground (arith, f.passes)) in
        let at : y.tasks ≡ f.before ++ at_pc f.task.job waiting ∷ f.after =
          f.at ∙ ap (λ p. f.before ++ at_pc f.task.job p ∷ f.after) place in
        let first : y.session.resumed ≡ [] ++ f.task.job.id ∷ later =
          e ∙ ap (λ i. i ∷ later) (sym own) in
        (
          record {
            session = record y.session { resumed = [] ++ later };
            tasks = f.before ++ at_pc f.task.job charging ∷ f.after;
          },
          (resume f.before f.after f.task.job [] later at first refl, refl),
        )
  ]

  waiting-Moves :
      (y : System env)
      → 1 ≤ max
      → IsCounted env max y
      → IsQueued env y
      → All (λ t. runs t ≡ false) y.tasks
      → Found waits y.tasks
      → Moves y
  waiting-Moves y room c v quiet f = by_resumed y.session.resumed refl
    where
      some_waits : 1 ≤ total (waiting_as f.task.job.id) y.tasks
      some_waits =
          let sum =
            ap (total (waiting_as f.task.job.id)) f.at
            ∙ total-at (waiting_as f.task.job.id) f.before f.after f.task in
          ground (arith, sum, f.passes, text_eq_refl f.task.job.id)

      by_resumed : (woken : List Text) → y.session.resumed ≡ woken → Moves y
      by_resumed (id ∷ later) e = resumed-Moves y id later e v
      by_resumed [] e =
          let id = f.task.job.id in
          let queue : 1 ≤ length y.session.semaphore.waiters =
            ground (
              arith,
              v.queued id,
              e,
              some_waits,
              occurs-le-length id y.session.semaphore.waiters,
            ) in
          let full = v.busy (omega (arith, queue)) in
          absurd (ground (arith, full, c.same, c.counted, e, slot-zero y.tasks quiet))

-- From a gateway with no job, at least one slot, none taken and none waited for, and if the rest of
-- the world leaves the slots alone: at any time all the jobs that were handed out have ended, or one
-- of them can make its next piece or run on after its wait.
pub no_deadlock :
    (env : Env) (Arrives : Job → Type 0) (Others : System env → Session env → Type 0)
    {x y : System env}
    → LeavesSlots env Others
    → x.tasks ≡ []
    → x.session.resumed ≡ []
    → x.session.semaphore.waiters ≡ []
    → x.session.semaphore.in_flight ≡ 0
    → 1 ≤ x.session.semaphore.max
    → Reach env Arrives Others x y
    → All (λ task. IsEnded task.pc) y.tasks
      ⊎ ((z : System env) × ((step : Step env Arrives Others y z) × (piece_of env Arrives Others
                step
              ≡ 1)))
no_deadlock env Arrives Others {x} {y} apart idle quiet nobody none_ room r =
    let max = x.session.semaphore.max in
    let start : IsCounted env max x = record {
      same = refl;
      bounded = omega arith;
      counted = rw (idle, quiet, none_);
    } in
    let queues : IsQueued env x = record {
      queued = λ id. rw (idle, quiet, nobody);
      busy = λ some_. absurd (ground (arith, some_, nobody));
    } in
    let c = Reach-IsCounted env Arrives Others apart max r start in
    let v = Reach-IsQueued env Arrives Others apart max r start queues in
    elim (find runs y.tasks) [
      | inl f ↦ inr (running-Moves env Arrives Others apart max y f)
      | inr still ↦ elim (find waits y.tasks) [
        | inl f ↦ inr (waiting-Moves env Arrives Others apart max y room c v still f)
        | inr awake ↦ inl (All-IsEnded y.tasks still awake)
      ]
    ]
