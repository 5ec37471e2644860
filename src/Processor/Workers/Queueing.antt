-- ===== src/Processor/Workers/Queueing.antt =====
-- Every job that waits is in a queue that is served.
use payment_queue_system_bul.Prelude.{
  ℕ, ◌+◌, ◌≤◌, ◌≡◌, ap, ◌∙◌, sym, subst, true, List, [], ◌∷◌, ◌++◌, Text, text_eq, arith,
  if◌then◌else◌,
}
use payment_queue_system_bul.Processor.{Env, Session, Job}
use payment_queue_system_bul.Processor.Awaits.{Pc, begin, waiting, charging, is_running, advance}
use payment_queue_system_bul.Processor.Awaits.Slots.{holds}
use payment_queue_system_bul.Processor.Awaits.Waits.{
  occurs, occurs-append, waits_as, IsBusy, Queues, advance-Queues,
}
use payment_queue_system_bul.Processor.Workers.{
  Task, at_pc, total, total-append, total-at, System, Step, arrive, elsewhere, run, resume, Reach,
  here, next,
}
use payment_queue_system_bul.Processor.Workers.Slots.{slot, LeavesSlots, IsCounted, Reach-IsCounted}
use payment_queue_system_bul.Processor.Workers.Search.{waiting_as, runs}

module _ (env : Env) where
  -- Who waits is in the queue of the semaphore or resumed; and nobody queues while there is room.
  pub record IsQueued (x : System env) : Type 0 where
    pub queued :
        (id : Text)
        → total (waiting_as id) x.tasks
          ≡ occurs id x.session.semaphore.waiters + occurs id x.session.resumed
    pub busy : IsBusy x.session.semaphore

module _ (env : Env) (Arrives : Job → Type 0) (Others : System env → Session env → Type 0)
    (apart : LeavesSlots env Others) (max : ℕ) where
  run-IsQueued :
      (before after : List Task) (job : Job) (p : Pc) (s : Session env)
      → is_running p ≡ true
      → holds p ≤ s.semaphore.in_flight
      → IsQueued env (record { session = s; tasks = before ++ at_pc job p ∷ after })
      → let (q, t) = advance env job p s in
        IsQueued env (record { session = t; tasks = before ++ at_pc job q ∷ after })
  run-IsQueued before after job p s runs held v =
      let (q, t) = advance env job p s in
      record {
        queued = λ id.
            let b : Queues env id job p q s.semaphore s.resumed t =
              advance-Queues env id job p s runs v.busy held in
            omega (
              arith,
              b.queued,
              v.queued id,
              total-at (waiting_as id) before after (at_pc job p),
              total-at (waiting_as id) before after (at_pc job q),
            );
        busy = (advance-Queues env [] job p s runs v.busy held).busy;
      }

  Step-IsQueued :
      {x y : System env}
      → Step env Arrives Others x y
      → IsCounted env max x
      → IsQueued env x
      → IsQueued env y
  Step-IsQueued {x = x} (arrive job a e) c v = subst (IsQueued env) (sym e) (record {
    queued = λ id.
        omega (arith, v.queued id, total-append (waiting_as id) x.tasks (at_pc job begin ∷ []));
    busy = v.busy;
  })
  Step-IsQueued {x = x} (elsewhere t o e) c v =
      let (slots, woken) = apart x t o in
      subst (IsQueued env) (sym e)
        (record { queued = λ id. rw (slots, woken) (v.queued id); busy = rw slots v.busy })
  Step-IsQueued {x = x} (run before after job p q t runs at moves e) c v =
      let s = x.session in
      let v' : IsQueued env (record { session = s; tasks = before ++ at_pc job p ∷ after }) =
        subst (λ ts. IsQueued env (record { session = s; tasks = ts })) at v in
      let old : total slot x.tasks ≡ total slot before + holds p + total slot after =
        ap (total slot) at ∙ total-at slot before after (at_pc job p) in
      let held : holds p ≤ s.semaphore.in_flight = omega (arith, c.counted) in
      let same =
        ap (λ o. record { session = o.1; tasks = before ++ at_pc job o.0 ∷ after }) moves in
      subst (IsQueued env) (same ∙ sym e) (run-IsQueued before after job p s runs held v')
  Step-IsQueued {x = x} (resume before after job earlier later at woken e) c v =
      subst (IsQueued env) (sym e) (record {
        queued = λ id.
            let old : total (waiting_as id) x.tasks
                ≡ total (waiting_as id) before
                  + waits_as id job waiting
                  + total (waiting_as id) after =
              ap (total (waiting_as id)) at
              ∙ total-at (waiting_as id) before after (at_pc job waiting) in
            let fewer : occurs id x.session.resumed
                ≡ occurs id earlier + ((if text_eq job.id id then 1 else 0) + occurs id later) =
              ap (occurs id) woken ∙ occurs-append id earlier (job.id ∷ later) in
            omega (
              arith,
              v.queued id,
              total-at (waiting_as id) before after (at_pc job charging),
              occurs-append id earlier later,
            );
        busy = v.busy;
      })

  pub Reach-IsQueued :
      {x y : System env}
      → Reach env Arrives Others x y
      → IsCounted env max x
      → IsQueued env x
      → IsQueued env y
  Reach-IsQueued here c v = v
  Reach-IsQueued (next r st) c v =
      Step-IsQueued st (Reach-IsCounted env Arrives Others apart max r c) (Reach-IsQueued r c v)
