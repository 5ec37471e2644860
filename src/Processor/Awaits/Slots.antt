-- ===== src/Processor/Awaits/Slots.antt =====
-- What each piece of a job does to the slots of the gateway.
use payment_queue_system_bul.Prelude.{
  ℕ, ◌+◌, ◌≤◌, ◌≡◌, refl, inl, inr, Bool-cases, List, ◌++◌, Text, codes, length, length-append,
  arith, Bool, true, false,
}
use payment_queue_system_bul.Types.{Thrown, GatewayResponse}
use payment_queue_system_bul.Effects.{ok, Outcome-cases}
use payment_queue_system_bul.Semaphore as Semaphore
use payment_queue_system_bul.Processor.{Env, Session, Job}
use payment_queue_system_bul.Processor.Parts.{listed}
use payment_queue_system_bul.Processor.Charge.{injects}
use payment_queue_system_bul.Processor.Process.{done}
use payment_queue_system_bul.Processor.Awaits.Endings.{by_response-cases}
use payment_queue_system_bul.Processor.Awaits.{
  Pc, begin, at_cache, at_row, at_lock, at_reconcile, at_status, waiting, charging, at_unlock,
  at_backfill, at_settled, at_ledger, at_result, at_reversal, at_burial, at_release, at_dead_letter,
  ended, gates, fail, by_response, notify, advance,
}

-- A job that holds a slot: its saga runs or is being compensated.
abbrev pub holds : Pc → ℕ
holds charging = 1
holds (at_ledger _) = 1
holds (at_result _) = 1
holds (at_reversal _) = 1
holds _ = 0

module _ (env : Env) where
  -- What a piece does to the slots: none is lost, and none is made.
  pub record Balances (p q : Pc) (slots : Semaphore.GatewaySemaphore Text) (woken : List Text)
      (t : Session env) : Type 0 where
    pub max : t.semaphore.max ≡ slots.max
    pub bounded : t.semaphore.in_flight ≤ t.semaphore.max
    pub moved :
        t.semaphore.in_flight + holds p + length woken
        ≡ slots.in_flight + holds q + length t.resumed

  -- A piece that leaves the slots alone.
  Balances-same :
      (p q : Pc) (s : Session env) {t : Session env}
      → s.semaphore.in_flight ≤ s.semaphore.max
      → t.semaphore ≡ s.semaphore
      → t.resumed ≡ s.resumed
      → holds p ≡ holds q
      → Balances p q s.semaphore s.resumed t
  Balances-same p q s within e f h = record {
    max = ground (arith, e);
    bounded = ground (arith, e);
    moved = ground (arith, e, f, h);
  }

  -- A piece that gives its slot back.
  Balances-release :
      (p q : Pc) (s : Session env) {t : Session env}
      → s.semaphore.in_flight ≤ s.semaphore.max
      → 1 ≤ s.semaphore.in_flight
      → t.semaphore ≡ (Semaphore.release s.semaphore).0
      → t.resumed ≡ s.resumed ++ listed env (Semaphore.release s.semaphore).1
      → holds p ≡ 1
      → holds q ≡ 0
      → Balances p q s.semaphore s.resumed t
  unfolding Semaphore.release
  Balances-release p q s within one e f h k = record {
    max = ground (arith, e);
    bounded = ground (arith, e, within, one);
    moved = ground (
      arith,
      e,
      f,
      h,
      k,
      one,
      length-append s.resumed (listed env (Semaphore.release s.semaphore).1),
    );
  }

  pub fail_slot :
      (job : Job) (err : Thrown) (s : Session env)
      → let t = (fail env job err s).1 in
        (t.semaphore ≡ (Semaphore.release s.semaphore).0)
        × (t.resumed ≡ s.resumed ++ listed env (Semaphore.release s.semaphore).1)
        × (holds (fail env job err s).0 ≡ 0)
  unfolding fail
  fail_slot job err s = (ground arith, ground arith, ground arith)

  gates_slot :
      (job : Job) (s : Session env)
      → ((gates env job s).1.semaphore ≡ s.semaphore) × ((gates env job s).1.resumed ≡ s.resumed)
  unfolding gates
  gates_slot job s = (ground arith, ground arith)

  -- The pieces that neither take nor give back a slot.
  abbrev pub quiet : Pc → Bool
  quiet at_lock = false
  quiet charging = false
  quiet (at_result _) = false
  quiet (at_reversal _) = false
  quiet _ = true

  pub quiet_slot :
      (job : Job) (p : Pc) (s : Session env)
      → quiet p ≡ true
      → let (q, t) = advance env job p s in
        (t.semaphore ≡ s.semaphore) × (t.resumed ≡ s.resumed) × (holds p ≡ holds q)
  unfolding advance
  quiet_slot job begin s h = ground (arith, gates_slot job s)
  quiet_slot job at_cache s h = (ground arith, ground arith, ground arith)
  quiet_slot job at_row s h = (ground arith, ground arith, ground arith)
  quiet_slot job (at_backfill id) s h = (ground arith, ground arith, ground arith)
  quiet_slot job at_reconcile s h = (ground arith, ground arith, ground arith)
  quiet_slot job at_status s h = (ground arith, ground arith, ground arith)
  quiet_slot job (at_settled id) s h = (ground arith, ground arith, ground arith)
  quiet_slot job (at_ledger id) s h = (ground arith, ground arith, ground arith)
  quiet_slot job at_unlock s h = (ground arith, ground arith, ground arith)
  quiet_slot job (at_burial err) s h = (ground arith, ground arith, ground arith)
  quiet_slot job (at_release err) s h = (ground arith, ground arith, ground arith)
  quiet_slot job (at_dead_letter err) s h = (ground arith, ground arith, ground arith)
  quiet_slot job waiting s h = (ground arith, ground arith, ground arith)
  quiet_slot job (ended r) s h = (ground arith, ground arith, ground arith)
  quiet_slot job at_lock s h = cc
  quiet_slot job charging s h = cc
  quiet_slot job (at_result id) s h = cc
  quiet_slot job (at_reversal err) s h = cc

  lock-Balances :
      (job : Job) (s : Session env)
      → s.semaphore.in_flight ≤ s.semaphore.max
      → Balances at_lock
          (advance env job at_lock s).0
          s.semaphore
          s.resumed
          (advance env job at_lock s).1
  unfolding advance Semaphore.acquire
  lock-Balances job s within = record {
    max = ground arith;
    bounded = ground arith;
    moved = ground arith;
  }

  notify_slot :
      (job : Job) (s : Session env)
      → s.semaphore.in_flight ≤ s.semaphore.max
      → 1 ≤ s.semaphore.in_flight
      → (id : Text)
      → Balances (at_result id) (notify env job s).0 s.semaphore s.resumed (notify env job s).1
  unfolding notify
  notify_slot job s within one id =
      elim (Bool-cases (injects env.saga_fail_step (codes "notify"))) [
        | inl k ↦ rw k (Balances-same (at_result id) (at_reversal _) s within refl refl refl)
        | inr k ↦ rw k (
            Balances-release (at_result id) (ended (ok done)) s within one (ground arith)
              (ground arith) refl refl)
      ]

  fail-Balances :
      (p : Pc) (job : Job) (err : Thrown) (s : Session env)
      → s.semaphore.in_flight ≤ s.semaphore.max
      → 1 ≤ s.semaphore.in_flight
      → holds p ≡ 1
      → Balances p (fail env job err s).0 s.semaphore s.resumed (fail env job err s).1
  fail-Balances p job err s within one h =
      let (e, f, k) = fail_slot job err s in
      Balances-release p (fail env job err s).0 s within one e f h k

  response-Balances :
      (job : Job) (res : GatewayResponse) (s : Session env)
      → s.semaphore.in_flight ≤ s.semaphore.max
      → 1 ≤ s.semaphore.in_flight
      → Balances charging
          (by_response env job res s).0
          s.semaphore
          s.resumed
          (by_response env job res s).1
  response-Balances job res s within one = elim (by_response-cases env job res s) [
    | inl (err, e) ↦ rw e (fail-Balances charging job err s within one refl)
    | inr e ↦ rw e (Balances-same charging (at_ledger res.transaction_id) s within refl refl refl)
  ]

  charging-Balances :
      (job : Job) (s : Session env)
      → s.semaphore.in_flight ≤ s.semaphore.max
      → 1 ≤ s.semaphore.in_flight
      → Balances charging
          (advance env job charging s).0
          s.semaphore
          s.resumed
          (advance env job charging s).1
  unfolding advance
  charging-Balances job s within one =
      let asked : Session env = record s {
        outside = (env.gateway.process job.payment s.outside).1;
      } in
      elim (Outcome-cases (env.gateway.process job.payment s.outside).0) [
        | inl (res, e) ↦ rw e (response-Balances job res asked within one)
        | inr (err, e) ↦ rw e (fail-Balances charging job err asked within one refl)
      ]

  pub advance-Balances :
      (job : Job) (p : Pc) (s : Session env)
      → s.semaphore.in_flight ≤ s.semaphore.max
      → holds p ≤ s.semaphore.in_flight
      → Balances p (advance env job p s).0 s.semaphore s.resumed (advance env job p s).1
  advance-Balances job p s within held = elim (Bool-cases (quiet p)) [
    | inl e ↦
        let (a, b, c) = quiet_slot job p s e in
        Balances-same p (advance env job p s).0 s within a b c
    | inr e ↦ loud p e held
  ]
    where
      loud :
          (p : Pc)
          → quiet p ≡ false
          → holds p ≤ s.semaphore.in_flight
          → Balances p (advance env job p s).0 s.semaphore s.resumed (advance env job p s).1
      loud at_lock e held = lock-Balances job s within
      loud charging e held = charging-Balances job s within held
      loud (at_result id) e held = unfold advance in notify_slot job _ within held id
      loud (at_reversal err) e held =
          unfold advance in fail-Balances (at_reversal err) job err _ within held refl
      loud _ e held = cc
