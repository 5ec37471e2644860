-- ===== src/Processor/Awaits/Rows.antt =====
-- What each piece of a job does to the row of one payment.
use payment_queue_system_bul.Prelude.{
  ◌≡◌, refl, inl, inr, Bool-cases, Option-cases, Bool, true, false, ◌||◌, some, Text, codes,
  text_eq, text_eq_iff, subst, arith, Dict, lookup-insert,
}
use payment_queue_system_bul.Types.{Thrown, completed, GatewayStatus}
use payment_queue_system_bul.Effects.{ok, Outcome-cases}
use payment_queue_system_bul.Repository as Repository
use payment_queue_system_bul.Repository.{Row}
use payment_queue_system_bul.Processor.{Env, Session, Job}
use payment_queue_system_bul.Processor.Charge.{is_settled, injects}
use payment_queue_system_bul.Processor.Process.{completed_row}
use payment_queue_system_bul.Processor.Awaits.Endings.{by_response-cases}
use payment_queue_system_bul.Processor.Awaits.{
  Pc, begin, at_cache, at_row, at_lock, at_reconcile, at_status, waiting, charging, at_unlock,
  at_backfill, at_settled, at_ledger, at_result, at_reversal, at_burial, at_release, at_dead_letter,
  ended, fail, notify, advance,
}
use payment_queue_system_bul.Processor.Awaits.Places.{Fits, plain, Fits-plain}
use payment_queue_system_bul.Processor.Awaits.Locks.{is_paid, gates_store, charging_store}

module _ (env : Env) where
  abbrev still : Pc → Bool
  still (at_ledger _) = false
  still (at_reversal _) = false
  still _ = true

  advance-rows :
      (job : Job) (p : Pc) (s : Session env)
      → still p ≡ true
      → (advance env job p s).1.rows ≡ s.rows
  unfolding advance notify
  advance-rows job begin s h = let (e, f, g) = gates_store env job s in ground (arith, g)
  advance-rows job charging s h = (charging_store env job s).3
  advance-rows job at_cache s h = ground arith
  advance-rows job at_row s h = ground arith
  advance-rows job at_lock s h = ground arith
  advance-rows job at_reconcile s h = ground arith
  advance-rows job at_status s h = ground arith
  advance-rows job waiting s h = ground arith
  advance-rows job at_unlock s h = ground arith
  advance-rows job (at_backfill id) s h = ground arith
  advance-rows job (at_settled id) s h = ground arith
  advance-rows job (at_result id) s h = ground arith
  advance-rows job (at_burial err) s h = ground arith
  advance-rows job (at_release err) s h = ground arith
  advance-rows job (at_dead_letter err) s h = ground arith
  advance-rows job (ended r) s h = ground arith
  advance-rows job (at_ledger id) s h = cc
  advance-rows job (at_reversal err) s h = cc

  upsert-is_paid :
      (id j transaction_id : Text) (rows : Dict Row)
      → is_paid id (Repository.upsert_status j completed (some transaction_id) rows)
        ≡ (text_eq j id || is_paid id rows)
  unfolding Repository.upsert_status Repository.get_status
  upsert-is_paid id j transaction_id rows =
      let row : Row = record { status = completed; gateway_transaction_id = some transaction_id } in
      ground (arith, lookup-insert j id row rows)

  -- A completed row stays completed.
  pub advance-is_paid :
      (key id : Text) (job : Job) (p : Pc) (s : Session env)
      → Fits key job (is_paid id s.rows) p
      → is_paid id s.rows ≡ true
      → is_paid id (advance env job p s).1.rows ≡ true
  advance-is_paid key id job p s f paid = elim (Bool-cases (still p)) [
    | inl h ↦ rw (advance-rows job p s h) paid
    | inr h ↦ writes p h f
  ]
    where
      writes :
          (p : Pc)
          → still p ≡ false
          → Fits key job (is_paid id s.rows) p
          → is_paid id (advance env job p s).1.rows ≡ true
      writes (at_ledger transaction_id) h f =
          unfold advance in
          ground (arith, paid, upsert-is_paid id job.payment.id transaction_id s.rows)
      writes (at_reversal err) h f = absurd f
      writes _ h f = cc

  module _ (key id : Text) (job : Job)
      (own_row : text_eq job.payment.idempotency_key key ≡ true → job.payment.id ≡ id)
      (steady : injects env.saga_fail_step (codes "notify") ≡ false)
      (unsettled : (k : Text) (o : env.Outside) (status : GatewayStatus)
        → (env.gateway.get_status k o).0 ≡ ok status
        → is_settled status.status ≡ false) where
    fail-plain : (err : Thrown) (s : Session env) → plain (fail env job err s).0 ≡ true
    unfolding fail
    fail-plain err s = ground arith

    charging-plain : (s : Session env) → plain (advance env job charging s).0 ≡ true
    unfolding advance
    charging-plain s =
        let asked : Session env = record s {
          outside = (env.gateway.process job.payment s.outside).1;
        } in
        elim (Outcome-cases (env.gateway.process job.payment s.outside).0) [
          | inr (err, e) ↦ rw e (fail-plain err asked)
          | inl (res, e) ↦ rw e (elim (by_response-cases env job res asked) [
            | inl (err, e') ↦ rw e' (fail-plain err asked)
            | inr e' ↦ rw e' refl
          ])
        ]

    status-plain : (s : Session env) → plain (advance env job at_status s).0 ≡ true
    unfolding advance
    status-plain s =
        let o = env.gateway.get_status job.payment.idempotency_key s.outside in
        elim (Outcome-cases o.0) [
          | inr (err, e) ↦ rw e refl
          | inl (status, e) ↦ rw (e, unsettled job.payment.idempotency_key s.outside status e) refl
        ]

    -- The pieces after which the job stands at a plain place.
    abbrev leads_plain : Pc → Bool
    leads_plain at_row = false
    leads_plain (at_ledger _) = false
    leads_plain _ = true

    advance-plain :
        (p : Pc) (s : Session env) → leads_plain p ≡ true → plain (advance env job p s).0 ≡ true
    unfolding advance notify
    advance-plain begin s h = ground arith
    advance-plain at_cache s h = ground arith
    advance-plain at_lock s h = ground arith
    advance-plain at_reconcile s h = ground arith
    advance-plain waiting s h = ground arith
    advance-plain at_unlock s h = ground arith
    advance-plain (at_backfill id) s h = ground arith
    advance-plain (at_settled id) s h = ground arith
    advance-plain (at_result id) s h = ground arith
    advance-plain (at_burial err) s h = ground arith
    advance-plain (at_release err) s h = ground arith
    advance-plain (at_dead_letter err) s h = ground arith
    advance-plain (ended r) s h = ground arith
    advance-plain (at_reversal err) s h = fail-plain err _
    advance-plain charging s h = charging-plain s
    advance-plain at_status s h = status-plain s
    advance-plain at_row s h = cc
    advance-plain (at_ledger id) s h = cc

    row-Fits :
        (s : Session env)
        → Fits key job (is_paid id (advance env job at_row s).1.rows) (advance env job at_row s).0
    unfolding advance
    row-Fits s = elim (Option-cases (completed_row (Repository.get_status job.payment.id s.rows))) [
      | inl e ↦ rw e tt
      | inr (row, e) ↦ rw e (λ own. subst (λ j. is_paid j s.rows ≡ true) (own_row own) (rw e))
    ]

    ledger-Fits :
        (transaction_id : Text) (s : Session env)
        → let (q, t) = advance env job (at_ledger transaction_id) s in
          Fits key job (is_paid id t.rows) q
    unfolding advance
    ledger-Fits transaction_id s own =
        rw (upsert-is_paid id job.payment.id transaction_id s.rows)
          (ground (arith, (text_eq_iff job.payment.id id).1 (own_row own)))

    pub advance-Fits :
        (p : Pc) (s : Session env)
        → Fits key job (is_paid id s.rows) p
        → let (q, t) = advance env job p s in Fits key job (is_paid id t.rows) q
    advance-Fits p s f = elim (Bool-cases (leads_plain p)) [
      | inl h ↦
          Fits-plain key job (is_paid id (advance env job p s).1.rows) (advance env job p s).0
            (advance-plain p s h)
      | inr h ↦ leads p h
    ]
      where
        leads :
            (p : Pc)
            → leads_plain p ≡ false
            → let (q, t) = advance env job p s in Fits key job (is_paid id t.rows) q
        leads at_row h = row-Fits s
        leads (at_ledger transaction_id) h = ledger-Fits transaction_id s
        leads _ h = cc
