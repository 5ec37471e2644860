-- ===== src/Processor/Awaits/Locks.antt =====
-- What each piece of a job does to the lock and to the row of one payment.
use payment_queue_system_bul.Prelude.{
  ℕ, ◌≤◌, ◌≡◌, refl, inl, inr, Bool, true, false, Option, none, some, Text, arith, Dict,
}
use payment_queue_system_bul.Types.{Thrown, GatewayResponse}
use payment_queue_system_bul.Effects.{Outcome-cases}
use payment_queue_system_bul.Repository as Repository
use payment_queue_system_bul.Repository.{Row}
use payment_queue_system_bul.Processor.{Env, Session, Job}
use payment_queue_system_bul.Processor.Process.{completed_row}
use payment_queue_system_bul.Processor.Awaits.Endings.{by_response-cases}
use payment_queue_system_bul.Processor.Awaits.{
  Pc, begin, at_cache, at_row, at_lock, at_reconcile, at_status, waiting, charging, at_unlock,
  at_backfill, at_settled, at_ledger, at_result, at_reversal, at_burial, at_release, at_dead_letter,
  ended, gates, fail, by_response, advance,
}

-- A job that has taken the lock, and neither freed it nor written the row of the payment.
abbrev pub critical : Pc → ℕ
critical waiting = 1
critical charging = 1
critical (at_ledger _) = 1
critical (at_burial _) = 1
critical at_unlock = 1
critical (at_release _) = 1
critical _ = 0

abbrev is_some {ℓ} : {A : Type ℓ} → Option A → Bool
is_some none = false
is_some (some a) = true

-- Whether the database has the payment as completed.
abbrev pub is_paid : Text → Dict Row → Bool
is_paid id rows = is_some (completed_row (Repository.get_status id rows))

module _ (env : Env) where
  -- The pieces that leave the store alone.
  abbrev pub storeless : Pc → Bool
  storeless at_lock = false
  storeless (at_backfill _) = false
  storeless (at_settled _) = false
  storeless (at_result _) = false
  storeless (at_reversal _) = false
  storeless at_unlock = false
  storeless (at_release _) = false
  storeless _ = true

  fail_store :
      (job : Job) (err : Thrown) (s : Session env)
      → let (q, t) = fail env job err s in
        (t.store ≡ s.store) × (s.reads ≤ t.reads) × (critical q ≤ 1) × (t.rows ≡ s.rows)
  unfolding fail
  fail_store job err s = (ground arith, ground arith, ground arith, ground arith)

  response_store :
      (job : Job) (res : GatewayResponse) (s : Session env)
      → let (q, t) = by_response env job res s in
        (t.store ≡ s.store) × (s.reads ≤ t.reads) × (critical q ≤ 1) × (t.rows ≡ s.rows)
  response_store job res s = elim (by_response-cases env job res s) [
    | inl (err, e) ↦ rw e (fail_store job err s)
    | inr e ↦ rw e (refl, omega arith, omega arith, refl)
  ]

  pub charging_store :
      (job : Job) (s : Session env)
      → let (q, t) = advance env job charging s in
        (t.store ≡ s.store) × (s.reads ≤ t.reads) × (critical q ≤ 1) × (t.rows ≡ s.rows)
  unfolding advance
  charging_store job s =
      let asked : Session env = record s {
        outside = (env.gateway.process job.payment s.outside).1;
      } in
      elim (Outcome-cases (env.gateway.process job.payment s.outside).0) [
        | inl (res, e) ↦ rw e (response_store job res asked)
        | inr (err, e) ↦ rw e (fail_store job err asked)
      ]

  pub gates_store :
      (job : Job) (s : Session env)
      → let t = (gates env job s).1 in (t.store ≡ s.store) × (s.reads ≤ t.reads) × (t.rows ≡ s.rows)
  unfolding gates
  gates_store job s = (ground arith, ground arith, ground arith)

  pub storeless_store :
      (job : Job) (p : Pc) (s : Session env)
      → storeless p ≡ true
      → let (q, t) = advance env job p s in
        (t.store ≡ s.store) × (s.reads ≤ t.reads) × (critical q ≤ critical p)
  unfolding advance
  storeless_store job begin s h =
      let (e, f, g) = gates_store job s in (ground (arith, e), ground (arith, f), ground arith)
  storeless_store job charging s h = let (e, f, g, k) = charging_store job s in (e, f, g)
  storeless_store job at_cache s h = (ground arith, ground arith, ground arith)
  storeless_store job at_row s h = (ground arith, ground arith, ground arith)
  storeless_store job at_reconcile s h = (ground arith, ground arith, ground arith)
  storeless_store job at_status s h = (ground arith, ground arith, ground arith)
  storeless_store job (at_ledger id) s h = (ground arith, ground arith, ground arith)
  storeless_store job (at_burial err) s h = (ground arith, ground arith, ground arith)
  storeless_store job (at_dead_letter err) s h = (ground arith, ground arith, ground arith)
  storeless_store job waiting s h = (ground arith, ground arith, ground arith)
  storeless_store job (ended r) s h = (ground arith, ground arith, ground arith)
  storeless_store job at_lock s h = cc
  storeless_store job (at_backfill id) s h = cc
  storeless_store job (at_settled id) s h = cc
  storeless_store job (at_result id) s h = cc
  storeless_store job (at_reversal err) s h = cc
  storeless_store job at_unlock s h = cc
  storeless_store job (at_release err) s h = cc
