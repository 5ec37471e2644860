-- ===== src/Processor/Awaits/Guarding.antt =====
-- What each piece of a job means for the holder of one lock.
use payment_queue_system_bul.Prelude.{
  ℕ, ◌+◌, ◌≤◌, ◌<◌, ◌≡◌, refl, ◌∙◌, inl, inr, Bool-cases, Bool, true, false, Text, text_eq, arith,
}
use payment_queue_system_bul.Types.{GatewayResponse}
use payment_queue_system_bul.Idempotency as Idempotency
use payment_queue_system_bul.Idempotency.View.{lock_ms, store_result-Sees}
use payment_queue_system_bul.Processor.{Env, Session, Job}
use payment_queue_system_bul.Processor.Charge.{success_response}
use payment_queue_system_bul.Processor.Process.{transaction_or_unknown}
use payment_queue_system_bul.Processor.Awaits.{
  Pc, at_lock, at_unlock, at_backfill, at_settled, at_result, at_reversal, at_release, notify,
  advance,
}
use payment_queue_system_bul.Processor.Awaits.Locks.{critical, storeless}
use payment_queue_system_bul.Processor.Awaits.Places.{Fits}
use payment_queue_system_bul.Processor.Awaits.Guards.{
  Guards, storeless-Guards, foreign-Guards, release-Guards,
}
use payment_queue_system_bul.Processor.Awaits.Granting.{lock-Guards}

module _ (env : Env) (key : Text) where
  module _ (forward : (n m : ℕ) → n ≤ m → env.time n ≤ env.time m)
      (brief : (n m : ℕ) → env.time m < env.time n + lock_ms) (rest : ℕ) (job : Job) where
    -- The pieces that free the lock, and those that store a result.
    abbrev frees : Pc → Bool
    frees at_unlock = true
    frees (at_release _) = true
    frees _ = false

    abbrev caches : Pc → Bool
    caches (at_backfill _) = true
    caches (at_result _) = true
    caches _ = false

    unlock_effect :
        (p : Pc) (s : Session env)
        → frees p ≡ true
        → let (q, t) = advance env job p s in
          (critical p ≡ 1)
          × (critical q ≡ 0)
          × (t.store
              ≡ Idempotency.release_lock env.redis env.json
                  (env.time s.reads)
                  job.payment.idempotency_key
                  s.store)
          × (s.reads < t.reads)
    unfolding advance
    unlock_effect at_unlock s h = (refl, refl, ground arith, ground arith)
    unlock_effect (at_release err) s h = (refl, ground arith, ground arith, ground arith)
    unlock_effect _ s h = cc

    store_effect :
        (p : Pc) (s : Session env)
        → caches p ≡ true
        → let (q, t) = advance env job p s in
          (critical q ≡ 0)
          × (s.reads < t.reads)
          × ((r : GatewayResponse) × (t.store
                ≡ Idempotency.store_result env.redis env.json
                    (env.time s.reads)
                    job.payment.idempotency_key
                    r
                    s.store))
    unfolding advance notify
    store_effect (at_backfill id) s h = (
      ground arith,
      ground arith,
      (success_response (transaction_or_unknown id) job.payment.gateway_id, ground arith),
    )
    store_effect (at_result id) s h =
        (ground arith, ground arith, (success_response id job.payment.gateway_id, ground arith))
    store_effect _ s h = cc

    not_own :
        (text_eq job.payment.idempotency_key key ≡ true → false ≡ true)
        → text_eq job.payment.idempotency_key key ≡ false
    not_own f = elim (Bool-cases (text_eq job.payment.idempotency_key key)) [
      | inl own ↦ let impossible = f own in cc
      | inr other ↦ other
    ]

    caching :
        (p : Pc) (s : Session env)
        → caches p ≡ true
        → text_eq job.payment.idempotency_key key ≡ false
        → Guards env key rest job p s
        → Guards env key rest job (advance env job p s).0 (advance env job p s).1
    caching p s h other g =
        let (none_, reads, (r, store)) = store_effect p s h in
        foreign-Guards env key forward brief rest job p (advance env job p s).0 s none_ other
          (λ n later. rw store (
            (store_result-Sees env.redis env.json (env.time s.reads) (env.time n)
              job.payment.idempotency_key key r s.store (forward s.reads n (omega arith))).0
            ∙ rw other))
          reads g

    pub advance-Guards :
        (p : Pc) (s : Session env)
        → Fits key job false p
        → Guards env key rest job p s
        → Guards env key rest job (advance env job p s).0 (advance env job p s).1
    advance-Guards p s f g = elim (Bool-cases (storeless env p)) [
      | inl h ↦ storeless-Guards env key forward brief rest job p s h g
      | inr h ↦ other_pieces p h f g
    ]
      where
        other_pieces :
            (p : Pc)
            → storeless env p ≡ false
            → Fits key job false p
            → Guards env key rest job p s
            → Guards env key rest job (advance env job p s).0 (advance env job p s).1
        other_pieces at_lock h f g = lock-Guards env key forward brief rest job s g
        other_pieces at_unlock h f g =
            let (one, none_, store, reads) = unlock_effect at_unlock s refl in
            release-Guards env key forward brief rest job at_unlock (advance env job at_unlock s).0
              s one none_ store reads g
        other_pieces (at_release err) h f g =
            let (one, none_, store, reads) = unlock_effect (at_release err) s refl in
            release-Guards env key forward brief rest job (at_release err)
              (advance env job (at_release err) s).0 s one none_ store reads g
        other_pieces (at_backfill id) h f g = caching (at_backfill id) s refl (not_own f) g
        other_pieces (at_result id) h f g = caching (at_result id) s refl (not_own f) g
        other_pieces (at_settled id) h f g = absurd f
        other_pieces (at_reversal err) h f g = absurd f
        other_pieces _ h f g = cc
