-- ===== src/Processor/Awaits/Waits.antt =====
-- What each piece of a job does to the queue of those that wait for a slot.
use payment_queue_system_bul.Prelude.{
  ℕ, ◌+◌, ◌≤◌, ◌<◌, ◌≡◌, refl, inl, inr, Bool, Bool-cases, true, false, List, [], ◌∷◌, ◌++◌, Text,
  codes, text_eq, ◌&&◌, arith, if◌then◌else◌, length,
}
use payment_queue_system_bul.Types.{Thrown}
use payment_queue_system_bul.Effects.{Outcome-cases, ok}
use payment_queue_system_bul.Semaphore as Semaphore
use payment_queue_system_bul.Processor.{Env, Session, Job}
use payment_queue_system_bul.Processor.Parts.{listed}
use payment_queue_system_bul.Processor.Charge.{injects}
use payment_queue_system_bul.Processor.Process.{done}
use payment_queue_system_bul.Processor.Awaits.Endings.{by_response-cases}
use payment_queue_system_bul.Processor.Awaits.{
  Pc, begin, at_cache, at_row, at_lock, at_reconcile, at_status, waiting, charging, at_unlock,
  at_backfill, at_settled, at_ledger, at_result, at_reversal, at_burial, at_release, at_dead_letter,
  ended, is_running, fail, notify, advance,
}
use payment_queue_system_bul.Processor.Awaits.Slots.{holds, quiet, quiet_slot, fail_slot}

-- How often a job's id stands in a list.
abbrev pub occurs : Text → List Text → ℕ
occurs id [] = 0
occurs id (x ∷ xs) = (if text_eq x id then 1 else 0) + occurs id xs

pub occurs-append :
    (id : Text) (xs ys : List Text) → occurs id (xs ++ ys) ≡ occurs id xs + occurs id ys
occurs-append id [] ys = omega arith
occurs-append id (x ∷ xs) ys = omega (arith, occurs-append id xs ys)

abbrev pub is_waiting : Pc → Bool
is_waiting waiting = true
is_waiting _ = false

-- Whether a job with the id waits.
abbrev pub waits_as : Text → Job → Pc → ℕ
waits_as id job p = if is_waiting p && text_eq job.id id then 1 else 0

-- Nobody waits while there is room.
abbrev pub IsBusy : Semaphore.GatewaySemaphore Text → Type 0
IsBusy sem = 0 < length sem.waiters → sem.max ≤ sem.in_flight

release-IsBusy :
    (sem : Semaphore.GatewaySemaphore Text)
    → IsBusy sem
    → 1 ≤ sem.in_flight
    → IsBusy (Semaphore.release sem).0
unfolding Semaphore.release
release-IsBusy sem busy one some_ = ground (arith, busy)

module _ (env : Env) (id : Text) where
  -- What a piece does to those that wait: they are in the queue, or resumed.
  pub record Queues (job : Job) (p q : Pc) (slots : Semaphore.GatewaySemaphore Text)
      (woken : List Text) (t : Session env) : Type 0 where
    pub queued :
        occurs id t.semaphore.waiters + occurs id t.resumed + waits_as id job p
        ≡ occurs id slots.waiters + occurs id woken + waits_as id job q
    pub busy : IsBusy t.semaphore

  Queues-release :
      (job : Job) (p q : Pc) (s : Session env) {t : Session env}
      → IsBusy s.semaphore
      → 1 ≤ s.semaphore.in_flight
      → t.semaphore ≡ (Semaphore.release s.semaphore).0
      → t.resumed ≡ s.resumed ++ listed env (Semaphore.release s.semaphore).1
      → is_waiting p ≡ false
      → is_waiting q ≡ false
      → Queues job p q s.semaphore s.resumed t
  unfolding Semaphore.release
  Queues-release job p q s busy one e f h k = record {
    queued = ground (
      arith,
      e,
      f,
      h,
      k,
      occurs-append id s.resumed (listed env (Semaphore.release s.semaphore).1),
    );
    busy = rw e (release-IsBusy s.semaphore busy one);
  }

  Queues-same :
      (job : Job) (p q : Pc) (s : Session env) {t : Session env}
      → IsBusy s.semaphore
      → t.semaphore ≡ s.semaphore
      → t.resumed ≡ s.resumed
      → is_waiting p ≡ false
      → is_waiting q ≡ false
      → Queues job p q s.semaphore s.resumed t
  Queues-same job p q s busy e f h k = record {
    queued = ground (arith, e, f, h, k);
    busy = rw e busy;
  }

  fail_waits :
      (job : Job) (err : Thrown) (s : Session env) → is_waiting (fail env job err s).0 ≡ false
  unfolding fail
  fail_waits job err s = ground arith

  quiet_waits :
      (job : Job) (p : Pc) (s : Session env)
      → quiet env p ≡ true
      → is_running p ≡ true
      → (is_waiting p ≡ false) × (is_waiting (advance env job p s).0 ≡ false)
  unfolding advance
  quiet_waits job begin s h r = (refl, ground arith)
  quiet_waits job at_cache s h r = (refl, ground arith)
  quiet_waits job at_row s h r = (refl, ground arith)
  quiet_waits job at_reconcile s h r = (refl, ground arith)
  quiet_waits job at_status s h r = (refl, ground arith)
  quiet_waits job (at_ledger id) s h r = (refl, ground arith)
  quiet_waits job at_unlock s h r = (refl, ground arith)
  quiet_waits job (at_backfill id) s h r = (refl, ground arith)
  quiet_waits job (at_settled id) s h r = (refl, ground arith)
  quiet_waits job (at_burial err) s h r = (refl, ground arith)
  quiet_waits job (at_release err) s h r = (refl, ground arith)
  quiet_waits job (at_dead_letter err) s h r = (refl, ground arith)
  quiet_waits job waiting s h r = cc
  quiet_waits job (ended x) s h r = cc
  quiet_waits job at_lock s h r = cc
  quiet_waits job charging s h r = cc
  quiet_waits job (at_result x) s h r = cc
  quiet_waits job (at_reversal err) s h r = cc

  fail-Queues :
      (job : Job) (p : Pc) (err : Thrown) (s : Session env)
      → IsBusy s.semaphore
      → 1 ≤ s.semaphore.in_flight
      → is_waiting p ≡ false
      → Queues job p (fail env job err s).0 s.semaphore s.resumed (fail env job err s).1
  fail-Queues job p err s busy one h =
      let (e, f, k) = fail_slot env job err s in
      Queues-release job p (fail env job err s).0 s busy one e f h (fail_waits job err s)

  charging-Queues :
      (job : Job) (s : Session env)
      → IsBusy s.semaphore
      → 1 ≤ s.semaphore.in_flight
      → Queues job charging
          (advance env job charging s).0
          s.semaphore
          s.resumed
          (advance env job charging s).1
  unfolding advance
  charging-Queues job s busy one =
      let asked : Session env = record s {
        outside = (env.gateway.process job.payment s.outside).1;
      } in
      elim (Outcome-cases (env.gateway.process job.payment s.outside).0) [
        | inr (err, e) ↦ rw e (fail-Queues job charging err asked busy one refl)
        | inl (res, e) ↦ rw e (elim (by_response-cases env job res asked) [
          | inl (err, e') ↦ rw e' (fail-Queues job charging err asked busy one refl)
          | inr e' ↦
              rw e'
                (Queues-same job charging (at_ledger res.transaction_id) s busy refl refl refl refl)
        ])
      ]

  notify-Queues :
      (job : Job) (x : Text) (s : Session env)
      → IsBusy s.semaphore
      → 1 ≤ s.semaphore.in_flight
      → Queues job (at_result x) (notify env job s).0 s.semaphore s.resumed (notify env job s).1
  unfolding notify
  notify-Queues job x s busy one = elim (Bool-cases (injects env.saga_fail_step (codes "notify"))) [
    | inl k ↦ rw k (Queues-same job (at_result x) (at_reversal _) s busy refl refl refl refl)
    | inr k ↦ rw k (
        Queues-release job (at_result x) (ended (ok done)) s busy one (ground arith) (ground arith)
          refl refl)
  ]

  lock-Queues :
      (job : Job) (s : Session env)
      → IsBusy s.semaphore
      → Queues job at_lock
          (advance env job at_lock s).0
          s.semaphore
          s.resumed
          (advance env job at_lock s).1
  unfolding advance Semaphore.acquire
  lock-Queues job s busy = record {
    queued = ground (arith, occurs-append id s.semaphore.waiters (job.id ∷ []));
    busy = λ some_. ground (arith, busy, some_);
  }

  pub advance-Queues :
      (job : Job) (p : Pc) (s : Session env)
      → is_running p ≡ true
      → IsBusy s.semaphore
      → holds p ≤ s.semaphore.in_flight
      → Queues job p (advance env job p s).0 s.semaphore s.resumed (advance env job p s).1
  advance-Queues job p s runs busy held = elim (Bool-cases (quiet env p)) [
    | inl e ↦
        let (a, b, c) = quiet_slot env job p s e in
        let (h, k) = quiet_waits job p s e runs in
        Queues-same job p (advance env job p s).0 s busy a b h k
    | inr e ↦ loud p e held
  ]
    where
      loud :
          (p : Pc)
          → quiet env p ≡ false
          → holds p ≤ s.semaphore.in_flight
          → Queues job p (advance env job p s).0 s.semaphore s.resumed (advance env job p s).1
      loud at_lock e held = lock-Queues job s busy
      loud charging e held = charging-Queues job s busy held
      loud (at_result x) e held = unfold advance in notify-Queues job x _ busy held
      loud (at_reversal err) e held =
          unfold advance in fail-Queues job (at_reversal err) err _ busy held refl
      loud _ e held = cc
