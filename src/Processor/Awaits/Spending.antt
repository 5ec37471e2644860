-- ===== src/Processor/Awaits/Spending.antt =====
-- What each piece of a job does to the rate limiter.
use payment_queue_system_bul.Prelude.{
  ℕ, ◌≡◌, refl, inl, inr, Bool-cases, Option-cases, Option, none, some, true, false, Bool, Text,
  codes, arith, subst, if◌then◌else◌,
}
use payment_queue_system_bul.Prelude.Int.{pos}
use payment_queue_system_bul.Types.{Thrown}
use payment_queue_system_bul.Effects.{Outcome, ok, throw, Outcome-cases}
use payment_queue_system_bul.CircuitBreaker as Breaker
use payment_queue_system_bul.CircuitBreaker.{Change, closed, open_, half_open, CircuitState}
use payment_queue_system_bul.Idempotency as Idempotency
use payment_queue_system_bul.TokenBucket as Bucket
use payment_queue_system_bul.TokenBucket.{TokenBucket}
use payment_queue_system_bul.TokenBucket.Limit.{
  consumes, waits, adapts, resets, step, Spends, Spends-same, Spends-trans, step-Spends,
}
use payment_queue_system_bul.Processor.{Env, Session, Job}
use payment_queue_system_bul.Processor.Parts.{
  feed_back, on_state_change, can_attempt, try_consume, ms_until_available, record_success,
  record_failure, release_slot, store_result, get_result,
}
use payment_queue_system_bul.Types.Classify.{classify_failure}
use payment_queue_system_bul.Processor.Process.{is_permanent}
use payment_queue_system_bul.Processor.Charge.{injects}
use payment_queue_system_bul.Processor.Awaits.Tokens.{admitted, handed}
use payment_queue_system_bul.Processor.Awaits.Endings.{by_response-cases}
use payment_queue_system_bul.Processor.Awaits.{
  Pc, begin, at_cache, at_row, at_lock, at_reconcile, at_status, waiting, charging, at_unlock,
  at_backfill, at_settled, at_ledger, at_result, at_reversal, at_burial, at_release, at_dead_letter,
  ended, gates, fail, notify, retry_or_bury, advance,
}

module _ (env : Env) where
  feed_back-Spends : (to : CircuitState) (b : TokenBucket) → Spends b (feed_back env to b) 0
  unfolding step
  feed_back-Spends open_ b = step-Spends b (adapts (pos 1000))
  feed_back-Spends closed b = step-Spends b resets
  feed_back-Spends half_open b = Spends-same b

  change-Spends :
      (g : Text) (o : Option Change) (s : Session env)
      → Spends s.bucket (on_state_change env g o s).bucket 0
  unfolding on_state_change
  change-Spends g none s = Spends-same s.bucket
  change-Spends g (some change) s = feed_back-Spends change.to s.bucket

  can_attempt-Spends : (s : Session env) → Spends s.bucket (can_attempt env s).1.bucket 0
  unfolding can_attempt
  can_attempt-Spends s = change-Spends _ _ _

  record_success-Spends : (s : Session env) → Spends s.bucket (record_success env s).bucket 0
  unfolding record_success
  record_success-Spends s = change-Spends _ _ _

  record_failure-Spends : (s : Session env) → Spends s.bucket (record_failure env s).1.bucket 0
  unfolding record_failure
  record_failure-Spends s = change-Spends _ _ _

  abbrev granted : Session env → Bool
  granted s = (Bucket.try_consume (env.time s.reads) 1 s.bucket).1

  try_consume-ok : (s : Session env) → (try_consume env s).0 ≡ ok (granted s)
  unfolding try_consume
  try_consume-ok s = refl

  try_consume-Spends :
      (s : Session env) → Spends s.bucket (try_consume env s).1.bucket (if granted s then 1 else 0)
  unfolding try_consume step
  try_consume-Spends s = step-Spends s.bucket (consumes (env.time s.reads) 1)

  ms_until_available-Spends :
      (s : Session env) → Spends s.bucket (ms_until_available env s).1.bucket 0
  unfolding ms_until_available step
  ms_until_available-Spends s = step-Spends s.bucket (waits (env.time s.reads) 1)

  allowed-ok :
      (s : Session env)
      → (can_attempt env s).0 ≡ ok (Breaker.can_attempt (env.time s.reads) s.breaker).1
  unfolding can_attempt
  allowed-ok s = refl

  abbrev passed : {A : Type 0} → Outcome A → ℕ
  passed (ok a) = 1
  passed (throw err) = 0

  gates-Spends :
      (job : Job) (s : Session env)
      → let (o, t) = gates env job s in Spends s.bucket t.bucket (passed o)
  unfolding gates can_attempt try_consume ms_until_available
  gates-Spends job s =
      let s' = (can_attempt env s).1 in
      let asked = can_attempt-Spends s in
      elim (Bool-cases (Breaker.can_attempt (env.time s.reads) s.breaker).1) [
        | inr refused ↦ rw refused asked
        | inl allowed ↦
            let after = (try_consume env s').1 in
            let tried : (g : Bool)
                → granted s' ≡ g
                → Spends s'.bucket after.bucket (if g then 1 else 0) =
              λ g e.
                subst (λ b. Spends s'.bucket after.bucket (if b then 1 else 0)) e
                  (try_consume-Spends s') in
            elim (Bool-cases (granted s')) [
              | inl got ↦ rw (allowed, got) (Spends-trans asked (tried true got))
              | inr late ↦
                  rw (allowed, late)
                    (Spends-trans asked
                      (Spends-trans (tried false late) (ms_until_available-Spends after)))
            ]
      ]

  fail-Spends :
      (job : Job) (err : Thrown) (s : Session env) → Spends s.bucket (fail env job err s).1.bucket 0
  unfolding fail
  fail-Spends job err s =
      let counted = record_failure-Spends (release_slot env s) in
      elim (Bool-cases (is_permanent (classify_failure err))) [
        | inl final ↦ rw final counted
        | inr other ↦ rw other counted
      ]

  begin-Spends :
      (job : Job) (s : Session env)
      → let (q, t) = advance env job begin s in Spends s.bucket t.bucket (admitted q)
  unfolding advance
  begin-Spends job s =
      let sp : (o : Outcome Unit)
          → (gates env job s).0 ≡ o
          → Spends s.bucket (gates env job s).1.bucket (passed o) =
        λ o e.
          subst (λ r. Spends s.bucket (gates env job s).1.bucket (passed r)) e
            (gates-Spends job s) in
      elim (Outcome-cases (gates env job s).0) [
        | inl (a, e) ↦ rw e (sp (ok a) e)
        | inr (err, e) ↦ rw e (sp (throw err) e)
      ]

  charging-Spends :
      (job : Job) (s : Session env) → Spends s.bucket (advance env job charging s).1.bucket 0
  unfolding advance
  charging-Spends job s =
      let asked : Session env = record s {
        outside = (env.gateway.process job.payment s.outside).1;
      } in
      elim (Outcome-cases (env.gateway.process job.payment s.outside).0) [
        | inr (err, e) ↦ rw e (fail-Spends job err asked)
        | inl (res, e) ↦ rw e (elim (by_response-cases env job res asked) [
          | inl (err, e') ↦ rw e' (fail-Spends job err asked)
          | inr e' ↦ rw e' (Spends-same s.bucket)
        ])
      ]

  notify-Spends : (job : Job) (s : Session env) → Spends s.bucket (notify env job s).1.bucket 0
  unfolding notify
  notify-Spends job s = elim (Bool-cases (injects env.saga_fail_step (codes "notify"))) [
    | inl failing ↦ rw failing (Spends-same s.bucket)
    | inr fine ↦ rw fine (record_success-Spends _)
  ]

  cache-Spends :
      (job : Job) (s : Session env) → Spends s.bucket (advance env job at_cache s).1.bucket 0
  unfolding advance get_result
  cache-Spends job s =
      let cached =
        Idempotency.get_result env.redis env.json (env.time s.reads) job.payment.idempotency_key
          s.store in
      elim (Outcome-cases cached) [
        | inr (err, e) ↦ rw e (Spends-same s.bucket)
        | inl (found, e) ↦ elim (Option-cases found) [
          | inl e' ↦ rw (e, e') (Spends-same s.bucket)
          | inr (r, e') ↦ rw (e, e') (record_success-Spends _)
        ]
      ]

  backfill-Spends :
      (job : Job) (transaction_id : Option Text) (s : Session env)
      → Spends s.bucket (advance env job (at_backfill transaction_id) s).1.bucket 0
  unfolding advance store_result
  backfill-Spends job transaction_id s = record_success-Spends _

  result-Spends :
      (job : Job) (transaction_id : Text) (s : Session env)
      → Spends s.bucket (advance env job (at_result transaction_id) s).1.bucket 0
  unfolding advance store_result
  result-Spends job transaction_id s = notify-Spends job _

  reversal-Spends :
      (job : Job) (err : Thrown) (s : Session env)
      → Spends s.bucket (advance env job (at_reversal err) s).1.bucket 0
  unfolding advance
  reversal-Spends job err s = fail-Spends job err _

  retry_bucket :
      (job : Job) (err : Thrown) (s : Session env)
      → (retry_or_bury env job err s).1.bucket ≡ s.bucket
  unfolding retry_or_bury
  retry_bucket job err s = ground arith

  -- The pieces that leave the rate limiter alone.
  abbrev idle : Pc → Bool
  idle begin = false
  idle at_cache = false
  idle charging = false
  idle (at_backfill _) = false
  idle (at_result _) = false
  idle (at_reversal _) = false
  idle _ = true

  idle_bucket :
      (job : Job) (p : Pc) (s : Session env)
      → idle p ≡ true
      → (advance env job p s).1.bucket ≡ s.bucket
  unfolding advance
  idle_bucket job at_row s h = ground arith
  idle_bucket job at_lock s h = ground arith
  idle_bucket job at_reconcile s h = ground arith
  idle_bucket job at_status s h = ground arith
  idle_bucket job waiting s h = ground arith
  idle_bucket job at_unlock s h = ground arith
  idle_bucket job (at_settled id) s h = ground arith
  idle_bucket job (at_ledger id) s h = ground arith
  idle_bucket job (at_burial err) s h = ground arith
  idle_bucket job (at_release err) s h = retry_bucket job err _
  idle_bucket job (at_dead_letter err) s h = ground arith
  idle_bucket job (ended r) s h = ground arith
  idle_bucket job begin s h = cc
  idle_bucket job at_cache s h = cc
  idle_bucket job charging s h = cc
  idle_bucket job (at_backfill id) s h = cc
  idle_bucket job (at_result id) s h = cc
  idle_bucket job (at_reversal err) s h = cc

  idle-Spends :
      (job : Job) (p : Pc) (s : Session env)
      → idle p ≡ true
      → Spends s.bucket (advance env job p s).1.bucket 0
  idle-Spends job p s h = rw (idle_bucket job p s h) (Spends-same s.bucket)

  pub advance-Spends :
      (job : Job) (p : Pc) (s : Session env)
      → let (q, t) = advance env job p s in Spends s.bucket t.bucket (handed p q)
  advance-Spends job begin s = begin-Spends job s
  advance-Spends job at_cache s = cache-Spends job s
  advance-Spends job charging s = charging-Spends job s
  advance-Spends job (at_backfill id) s = backfill-Spends job id s
  advance-Spends job (at_result id) s = result-Spends job id s
  advance-Spends job (at_reversal err) s = reversal-Spends job err s
  advance-Spends job at_row s = idle-Spends job at_row s refl
  advance-Spends job at_lock s = idle-Spends job at_lock s refl
  advance-Spends job at_reconcile s = idle-Spends job at_reconcile s refl
  advance-Spends job at_status s = idle-Spends job at_status s refl
  advance-Spends job waiting s = idle-Spends job waiting s refl
  advance-Spends job at_unlock s = idle-Spends job at_unlock s refl
  advance-Spends job (at_settled id) s = idle-Spends job (at_settled id) s refl
  advance-Spends job (at_ledger id) s = idle-Spends job (at_ledger id) s refl
  advance-Spends job (at_burial err) s = idle-Spends job (at_burial err) s refl
  advance-Spends job (at_release err) s = idle-Spends job (at_release err) s refl
  advance-Spends job (at_dead_letter err) s = idle-Spends job (at_dead_letter err) s refl
  advance-Spends job (ended r) s = idle-Spends job (ended r) s refl
