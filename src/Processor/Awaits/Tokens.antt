-- ===== src/Processor/Awaits/Tokens.antt =====
-- Which jobs have a token of the rate limiter.
use payment_queue_system_bul.Prelude.{ℕ, ◌+◌, ◌≤◌, ◌≡◌, refl, inl, inr, arith}
use payment_queue_system_bul.Types.{Thrown}
use payment_queue_system_bul.Effects.{Outcome-cases}
use payment_queue_system_bul.Processor.{Env, Session, Job}
use payment_queue_system_bul.Processor.Awaits.Endings.{by_response-cases}
use payment_queue_system_bul.Processor.Awaits.{
  Pc, begin, at_cache, at_row, at_lock, at_reconcile, at_status, waiting, charging, at_unlock,
  at_backfill, at_settled, at_ledger, at_result, at_reversal, at_burial, at_release, at_dead_letter,
  ended, fail, notify, retry_or_bury, advance,
}

-- A job that has a token and has not had the gateway charge yet.
abbrev pub admitted : Pc → ℕ
admitted at_cache = 1
admitted at_row = 1
admitted at_lock = 1
admitted waiting = 1
admitted charging = 1
admitted _ = 0

-- The piece that has the gateway charge.
abbrev pub charges : Pc → ℕ
charges charging = 1
charges _ = 0

-- The tokens that a piece hands out, by where the job stands after it.
abbrev pub handed : Pc → Pc → ℕ
handed begin q = admitted q
handed _ q = 0

module _ (env : Env) where
  fail-admitted : (job : Job) (err : Thrown) (s : Session env) → admitted (fail env job err s).0 ≡ 0
  unfolding fail
  fail-admitted job err s = ground arith

  charging-admitted : (job : Job) (s : Session env) → admitted (advance env job charging s).0 ≡ 0
  unfolding advance
  charging-admitted job s =
      let asked : Session env = record s {
        outside = (env.gateway.process job.payment s.outside).1;
      } in
      elim (Outcome-cases (env.gateway.process job.payment s.outside).0) [
        | inr (err, e) ↦ rw e (fail-admitted job err asked)
        | inl (res, e) ↦ rw e (elim (by_response-cases env job res asked) [
          | inl (err, e') ↦ rw e' (fail-admitted job err asked)
          | inr e' ↦ rw e' refl
        ])
      ]

  -- A job that has the gateway charge had a token, and has none any more.
  pub advance-admitted :
      (job : Job) (p : Pc) (s : Session env)
      → let q = (advance env job p s).0 in charges p + admitted q ≤ admitted p + handed p q
  unfolding advance notify retry_or_bury
  advance-admitted job begin s = omega arith
  advance-admitted job charging s = omega (arith, charging-admitted job s)
  advance-admitted job (at_reversal err) s = omega (arith, fail-admitted job err _)
  advance-admitted job at_cache s = ground arith
  advance-admitted job at_row s = ground arith
  advance-admitted job at_lock s = ground arith
  advance-admitted job at_reconcile s = ground arith
  advance-admitted job at_status s = ground arith
  advance-admitted job waiting s = ground arith
  advance-admitted job at_unlock s = ground arith
  advance-admitted job (at_backfill id) s = ground arith
  advance-admitted job (at_settled id) s = ground arith
  advance-admitted job (at_ledger id) s = ground arith
  advance-admitted job (at_result id) s = ground arith
  advance-admitted job (at_burial err) s = ground arith
  advance-admitted job (at_release err) s = ground arith
  advance-admitted job (at_dead_letter err) s = ground arith
  advance-admitted job (ended r) s = ground arith
