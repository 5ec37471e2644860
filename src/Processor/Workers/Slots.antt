-- ===== src/Processor/Workers/Slots.antt =====
-- The slots of the gateway under interleaving.
use payment_queue_system_bul.Prelude.{
  ℕ, ◌+◌, ◌≤◌, ◌≡◌, refl, ap, ◌∙◌, sym, subst, suc, [], ◌∷◌, length, length-append, arith,
}
use payment_queue_system_bul.Processor.{Env, Session, Job}
use payment_queue_system_bul.Processor.Awaits.{begin, waiting, charging}
use payment_queue_system_bul.Processor.Awaits.Slots.{holds, Balances, advance-Balances}
use payment_queue_system_bul.Processor.Workers.{
  Task, at_pc, total, total-append, total-at, System, Step, arrive, elsewhere, run, resume, Reach,
  here, next,
}

abbrev pub slot : Task → ℕ
slot task = holds task.pc

-- The rest of the world leaves the slots of this process alone.
abbrev pub LeavesSlots : (env : Env) → (System env → Session env → Type 0) → Type 0
LeavesSlots env Others =
    (x : System env) (t : Session env)
    → Others x t
    → (t.semaphore ≡ x.session.semaphore) × (t.resumed ≡ x.session.resumed)

module _ (env : Env) (max : ℕ) where
  -- Every slot that is counted belongs to a task that holds it, or to one that was resumed and
  -- has not run on yet.
  pub record IsCounted (x : System env) : Type 0 where
    pub same : x.session.semaphore.max ≡ max
    pub bounded : x.session.semaphore.in_flight ≤ max
    pub counted : x.session.semaphore.in_flight ≡ total slot x.tasks + length x.session.resumed

module _ (env : Env) (Arrives : Job → Type 0) (Others : System env → Session env → Type 0)
    (apart : LeavesSlots env Others) (max : ℕ) where
  pub Step-IsCounted :
      {Arrives : Job → Type 0} {x y : System env}
      → Step env Arrives Others x y
      → IsCounted env max x
      → IsCounted env max y
  Step-IsCounted {x = x} (arrive job a e) v =
      let added = total-append slot x.tasks (at_pc job begin ∷ []) in
      subst (IsCounted env max) (sym e)
        (record { same = v.same; bounded = v.bounded; counted = omega (arith, added) })
  Step-IsCounted {x = x} (elsewhere t o e) v =
      let (slots, woken) = apart x t o in
      subst (IsCounted env max) (sym e) (record {
        same = ap (λ m. m.max) slots ∙ v.same;
        bounded = rw slots v.bounded;
        counted = rw (slots, woken) v.counted;
      })
  Step-IsCounted {x = x} (run before after job p q t runs at moves e) v =
      let s = x.session in
      let old : total slot x.tasks ≡ total slot before + holds p + total slot after =
        ap (total slot) at ∙ total-at slot before after (at_pc job p) in
      let b : Balances env p q s.semaphore s.resumed t =
        subst (λ o. Balances env p o.0 s.semaphore s.resumed o.1) moves
          (advance-Balances env job p s (omega arith) (omega arith)) in
      subst (IsCounted env max) (sym e) (record {
        same = b.max ∙ v.same;
        bounded = omega (arith, b.max, b.bounded);
        counted = omega (arith, b.moved, total-at slot before after (at_pc job q));
      })
  Step-IsCounted {x = x} (resume before after job earlier later at woken e) v =
      let old : total slot x.tasks ≡ total slot before + 0 + total slot after =
        ap (total slot) at ∙ total-at slot before after (at_pc job waiting) in
      let fewer : length x.session.resumed ≡ length earlier + suc (length later) =
        ap length woken ∙ length-append earlier (job.id ∷ later) in
      subst (IsCounted env max) (sym e) (record {
        same = v.same;
        bounded = v.bounded;
        counted =
            omega
              (arith, total-at slot before after (at_pc job charging), length-append earlier later);
      })

  pub Reach-IsCounted :
      {x y : System env} → Reach env Arrives Others x y → IsCounted env max x → IsCounted env max y
  Reach-IsCounted here v = v
  Reach-IsCounted (next r st) v = Step-IsCounted st (Reach-IsCounted r v)

-- From a gateway with no job and no slot taken, whatever jobs the queue hands out, however they are
-- interleaved, and whatever the rest of the world does that leaves the slots alone: never more jobs
-- are in their saga, or in its compensation, than the semaphore has slots; and no slot is lost or
-- made, for the count of the semaphore is the number of these jobs and of those that were resumed
-- and are about to run on.
pub slots_bounded :
    (env : Env) (Arrives : Job → Type 0) (Others : System env → Session env → Type 0)
    {x y : System env}
    → LeavesSlots env Others
    → x.tasks ≡ []
    → x.session.resumed ≡ []
    → x.session.semaphore.in_flight ≡ 0
    → Reach env Arrives Others x y
    → (total slot y.tasks ≤ x.session.semaphore.max)
      × (y.session.semaphore.in_flight ≡ total slot y.tasks + length y.session.resumed)
slots_bounded env Arrives Others {x} apart idle quiet none_ r =
    let max = x.session.semaphore.max in
    let start : IsCounted env max x = record {
      same = refl;
      bounded = omega arith;
      counted = rw (idle, quiet, none_);
    } in
    let v = Reach-IsCounted env Arrives Others apart max r start in
    (omega (arith, v.bounded, v.counted), v.counted)
