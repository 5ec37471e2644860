-- ===== src/Processor/Workers/Exclusive.antt =====
-- The lock of one payment under interleaving.
use payment_queue_system_bul.Prelude.{
  ℕ, ◌+◌, ◌≤◌, ◌<◌, ◌≡◌, sym, ap, ◌∙◌, subst, inl, inr, Bool-cases, Bool, true, false, List, [],
  ◌∷◌, ◌++◌, Text, codes, text_eq, arith, All, All-append, All-at, All-mono,
}
use payment_queue_system_bul.Types.{GatewayStatus}
use payment_queue_system_bul.Effects.{ok}
use payment_queue_system_bul.Idempotency.View.{lock_ms}
use payment_queue_system_bul.Processor.{Env, Session, Job}
use payment_queue_system_bul.Processor.Charge.{is_settled, injects}
use payment_queue_system_bul.Processor.Awaits.{Pc, begin, waiting, charging, advance}
use payment_queue_system_bul.Processor.Awaits.Locks.{is_paid}
use payment_queue_system_bul.Processor.Awaits.Places.{Fits, Fits-mono}
use payment_queue_system_bul.Processor.Awaits.Rows.{advance-Fits, advance-is_paid}
use payment_queue_system_bul.Processor.Awaits.Guards.{claims, IsLocked, Guards}
use payment_queue_system_bul.Processor.Awaits.Guarding.{advance-Guards}
use payment_queue_system_bul.Processor.Workers.{
  Task, at_pc, total, total-append, total-at, System, Step, arrive, elsewhere, run, resume, Reach,
  here, next,
}

-- The tasks on the payment that hold its lock.
abbrev pub holder : Text → Task → ℕ
holder key task = claims key task.job task.pc

-- A job with the key is on the payment with the id.
abbrev pub OwnRow : Text → Text → Job → Type 0
OwnRow key id job = text_eq job.payment.idempotency_key key ≡ true → job.payment.id ≡ id

abbrev Fit : Text → Bool → Task → Type 0
Fit key paid task = Fits key task.job paid task.pc

-- What others may do to the session: the clock is read on, a completed row stays, and the lock is
-- left alone while a job of this process holds it. They may take it when it is free, and free it.
abbrev pub RespectsLock : (env : Env) (key id : Text) → (System env → Session env → Type 0) → Type 0
RespectsLock env key id Others =
    (x : System env) (t : Session env)
    → Others x t
    → (x.session.reads ≤ t.reads)
      × (is_paid id x.session.rows ≡ true → is_paid id t.rows ≡ true)
      × (1 ≤ total (holder key) x.tasks → IsLocked env key x.session → IsLocked env key t)

module _ (env : Env) (key id : Text) (Others : System env → Session env → Type 0)
    (forward : (n m : ℕ) → n ≤ m → env.time n ≤ env.time m)
    (brief : (n m : ℕ) → env.time m < env.time n + lock_ms)
    (steady : injects env.saga_fail_step (codes "notify") ≡ false)
    (unsettled : (k : Text) (o : env.Outside) (status : GatewayStatus)
      → (env.gateway.get_status k o).0 ≡ ok status
      → is_settled status.status ≡ false)
    (respect : RespectsLock env key id Others) where
  abbrev paid : Session env → Bool
  paid s = is_paid id s.rows

  record IsExclusive (x : System env) : Type 0 where
    rows : All (λ task. OwnRow key id task.job) x.tasks
    fits : All (Fit key (paid x.session)) x.tasks
    one : paid x.session ≡ false → total (holder key) x.tasks ≤ 1
    locked : paid x.session ≡ false → 1 ≤ total (holder key) x.tasks → IsLocked env key x.session

  module _ (before after : List Task) (job : Job) (p : Pc) (s : Session env) where
    abbrev moved : System env
    moved =
        let (q, t) = advance env job p s in
        record { session = t; tasks = before ++ at_pc job q ∷ after }

    module _ (v : IsExclusive (record { session = s; tasks = before ++ at_pc job p ∷ after })) where
      own-Fits : Fits key job (paid s) p
      own-Fits = (All-at (Fit key (paid s)) before (at_pc job p) after v.fits).1

      own_row : OwnRow key id job
      own_row = (All-at (λ task. OwnRow key id task.job) before (at_pc job p) after v.rows).1

      stays_paid : paid s ≡ true → paid moved.session ≡ true
      stays_paid = advance-is_paid env key id job p s own-Fits

      was_unpaid : paid moved.session ≡ false → paid s ≡ false
      was_unpaid u = elim (Bool-cases (paid s)) [ inr e ↦ e | inl e ↦ let now = stays_paid e in cc ]

      moved-Fits : All (Fit key (paid moved.session)) moved.tasks
      moved-Fits =
          let (before_fits, at, after_fits) =
            All-at (Fit key (paid s)) before (at_pc job p) after v.fits in
          let keep : (task : Task) → Fit key (paid s) task → Fit key (paid moved.session) task =
            λ task.
              Fits-mono key task.job {paid = paid s} {paid' = paid moved.session} stays_paid
                task.pc in
          All-append (Fit key (paid moved.session)) before
            (at_pc job (advance env job p s).0 ∷ after)
            (All-mono _ (Fit key (paid moved.session)) before keep before_fits)
            (
              advance-Fits env key id job own_row steady unsettled p s own-Fits,
              All-mono _ (Fit key (paid moved.session)) after keep after_fits,
            )

      moved_rows : All (λ task. OwnRow key id task.job) moved.tasks
      moved_rows =
          let (b, at, a) =
            All-at (λ task. OwnRow key id task.job) before (at_pc job p) after v.rows in
          All-append (λ task. OwnRow key id task.job) before
            (at_pc job (advance env job p s).0 ∷ after) b (at, a)

      abbrev rest : ℕ
      rest = total (holder key) before + total (holder key) after

      guarded :
          paid moved.session ≡ false
          → Guards env key rest job (advance env job p s).0 (advance env job p s).1
      guarded u =
          let old = total-at (holder key) before after (at_pc job p) in
          let unpaid = was_unpaid u in
          advance-Guards env key forward brief rest job p s
            (subst (λ b. Fits key job b p) unpaid own-Fits)
            (record {
              one = omega (arith, v.one unpaid, old);
              locked = λ c. v.locked unpaid (omega (arith, c, old));
            })

      run-IsExclusive : IsExclusive moved
      run-IsExclusive =
          let new = total-at (holder key) before after (at_pc job (advance env job p s).0) in
          record {
            rows = moved_rows;
            fits = moved-Fits;
            one = λ u. let g = guarded u in omega (arith, g.one, new);
            locked = λ u c. let g = guarded u in g.locked (omega (arith, c, new));
          }

  Step-IsExclusive :
      {x y : System env} → Step env (OwnRow key id) Others x y → IsExclusive x → IsExclusive y
  Step-IsExclusive {x = x} (arrive job a e) v =
      let added = total-append (holder key) x.tasks (at_pc job begin ∷ []) in
      subst IsExclusive (sym e) (record {
        rows = All-append _ x.tasks (at_pc job begin ∷ []) v.rows (a, tt);
        fits = All-append _ x.tasks (at_pc job begin ∷ []) v.fits (tt, tt);
        one = λ u. ground (arith, v.one u, added);
        locked = λ u n. v.locked u (ground (arith, n, added));
      })
  Step-IsExclusive {x = x} (elsewhere t o e) v =
      let s = x.session in
      let (later, stays, kept) = respect x t o in
      let unpaid : paid t ≡ false → paid s ≡ false =
        λ u. elim (Bool-cases (paid s)) [ inr no_ ↦ no_ | inl yes_ ↦ let now = stays yes_ in cc ] in
      let keep : (task : Task) → Fit key (paid s) task → Fit key (paid t) task =
        λ task. Fits-mono key task.job {paid = paid s} {paid' = paid t} stays task.pc in
      subst IsExclusive (sym e) (record {
        rows = v.rows;
        fits = All-mono (Fit key (paid s)) (Fit key (paid t)) x.tasks keep v.fits;
        one = λ u. v.one (unpaid u);
        locked = λ u c. kept c (v.locked (unpaid u) c);
      })
  Step-IsExclusive {x = x} (run before after job p q t runs at moves e) v =
      let s = x.session in
      let v' : IsExclusive (record { session = s; tasks = before ++ at_pc job p ∷ after }) =
        subst (λ ts. IsExclusive (record { session = s; tasks = ts })) at v in
      let same =
        ap (λ o. record { session = o.1; tasks = before ++ at_pc job o.0 ∷ after }) moves in
      subst IsExclusive (same ∙ sym e) (run-IsExclusive before after job p s v')
  Step-IsExclusive {x = x} (resume before after job earlier later at woken e) v =
      let s = x.session in
      let tasks = before ++ at_pc job waiting ∷ after in
      let v' : IsExclusive (record { session = s; tasks = tasks }) =
        subst (λ ts. IsExclusive (record { session = s; tasks = ts })) at v in
      let old = total-at (holder key) before after (at_pc job waiting) in
      let new = total-at (holder key) before after (at_pc job charging) in
      let (b, own, a) =
        All-at (λ task. OwnRow key id task.job) before (at_pc job waiting) after v'.rows in
      let (f, fit, g) = All-at (Fit key (paid s)) before (at_pc job waiting) after v'.fits in
      subst IsExclusive (sym e) (record {
        rows = All-append _ before (at_pc job charging ∷ after) b (own, a);
        fits = All-append _ before (at_pc job charging ∷ after) f (tt, g);
        one = λ u. ground (arith, v'.one u, old, new);
        locked = λ u c. v'.locked u (ground (arith, c, old, new));
      })

  Reach-IsExclusive :
      {x y : System env} → Reach env (OwnRow key id) Others x y → IsExclusive x → IsExclusive y
  Reach-IsExclusive here v = v
  Reach-IsExclusive (next r st) v = Step-IsExclusive st (Reach-IsExclusive r v)

  -- From a start with no job, whatever jobs the queue hands out (copies and retries of one payment
  -- too, all with its id) and however they are interleaved: as long as the database does not have
  -- the payment as completed, at most one of its jobs in this process is past the lock and has
  -- neither freed it nor written the row, so at most one waits for a slot or has the gateway charge
  -- the customer; and while there is one, the lock is held. This is on the conditions that the clock does not step back and its readings span less than the time
  -- to live of a lock (120 s), that the gateway reports no payment as settled, that no failure of
  -- the notification is injected, and that other processes leave a completed row, and the lock while
  -- a job of this process holds it.
  pub charged_by_one :
      {x y : System env}
      → x.tasks ≡ []
      → Reach env (OwnRow key id) Others x y
      → is_paid id y.session.rows ≡ false
      → (total (holder key) y.tasks ≤ 1)
        × (1 ≤ total (holder key) y.tasks → IsLocked env key y.session)
  charged_by_one {x} idle r unpaid =
      let v = Reach-IsExclusive r (record {
        rows = rw idle tt;
        fits = rw idle tt;
        one = λ u. rw idle (omega arith);
        locked = λ u c. absurd (ground (arith, c, idle));
      }) in
      (v.one unpaid, v.locked unpaid)
