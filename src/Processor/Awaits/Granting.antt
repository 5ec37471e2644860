-- ===== src/Processor/Awaits/Granting.antt =====
-- The piece in which a job asks for the lock.
use payment_queue_system_bul.Prelude.{
  ℕ, ◌+◌, ◌≤◌, ◌<◌, ◌≡◌, sym, ◌∙◌, inl, inr, Bool-cases, true, false, ◌&&◌, Text, text_eq, arith,
  if◌then◌else◌, lt→ltb, ltb, leb-cases, text_eq_sound, subst,
}
use payment_queue_system_bul.Idempotency as Idempotency
use payment_queue_system_bul.Idempotency.View.{lock_ms, acquire_lock-Sees}
use payment_queue_system_bul.Processor.{Env, Session, Job}
use payment_queue_system_bul.Processor.Awaits.{Pc, at_lock, advance}
use payment_queue_system_bul.Processor.Awaits.Locks.{critical}
use payment_queue_system_bul.Processor.Awaits.Guards.{held, Guards}

module _ (env : Env) (key : Text) where
  module _ (forward : (n m : ℕ) → n ≤ m → env.time n ≤ env.time m)
      (brief : (n m : ℕ) → env.time m < env.time n + lock_ms) (rest : ℕ) (job : Job) where
    -- The answer to `acquireLock`.
    lock_effect :
        (s : Session env)
        → let (q, t) = advance env job at_lock s in
          let (store, granted) =
            Idempotency.acquire_lock env.redis env.json
              (env.time s.reads)
              job.payment.idempotency_key
              s.store in
          (critical q ≡ (if granted then 1 else 0)) × (t.store ≡ store) × (t.reads ≡ s.reads + 1)
    unfolding advance
    lock_effect s = (ground arith, ground arith, ground arith)

    -- Seen later: the lock of `key` after the answer.
    later_lock :
        (s : Session env) (n : ℕ)
        → s.reads ≤ n
        → let (store, granted) =
            Idempotency.acquire_lock env.redis env.json
              (env.time s.reads)
              job.payment.idempotency_key
              s.store in
          held env key (env.time n) store ≡ (
            if text_eq job.payment.idempotency_key key && granted
            then ltb (env.time n) (env.time s.reads + lock_ms)
            else held env key (env.time n) s.store)
    later_lock s n later =
        (acquire_lock-Sees env.redis env.json (env.time s.reads) (env.time n)
          job.payment.idempotency_key key s.store (forward s.reads n later)).1

    granted_alone :
        (s : Session env)
        → (Idempotency.acquire_lock env.redis env.json
            (env.time s.reads)
            job.payment.idempotency_key
            s.store).1
          ≡ true
        → text_eq job.payment.idempotency_key key ≡ true
        → Guards env key rest job at_lock s
        → rest ≡ 0
    granted_alone s taken own g = elim (leb-cases 1 rest) [
      | inr (no_, none_) ↦ omega arith
      | inl (yes_, some_) ↦
          let now = env.time s.reads in
          let key' = job.payment.idempotency_key in
          let free =
            (acquire_lock-Sees env.redis env.json now now key' key s.store (omega arith)).0 in
          let same : key' ≡ key = text_eq_sound key' key own in
          let locked : held env key now s.store ≡ true =
            g.locked (ground (arith, some_)) s.reads (omega arith) in
          let locked' : Idempotency.has_lock env.redis env.json now key' s.store ≡ true =
            subst (λ k. Idempotency.has_lock env.redis env.json now k s.store ≡ true) (sym same)
              locked in
          absurd (ground (arith, taken, free, locked'))
    ]

    granted-Guards :
        (q : Pc) (s : Session env) {t : Session env}
        → (Idempotency.acquire_lock env.redis env.json
            (env.time s.reads)
            job.payment.idempotency_key
            s.store).1
          ≡ true
        → critical q ≡ 1
        → t.store
          ≡ (Idempotency.acquire_lock env.redis env.json
              (env.time s.reads)
              job.payment.idempotency_key
              s.store).0
        → t.reads ≡ s.reads + 1
        → Guards env key rest job at_lock s
        → Guards env key rest job q t
    granted-Guards q s taken one store reads g =
        elim (Bool-cases (text_eq job.payment.idempotency_key key)) [
          | inl own ↦
              let alone = granted_alone s taken own g in
              record {
                one = ground (arith, alone, own, one);
                locked = λ m n later.
                    rw store (
                      later_lock s n (omega arith)
                      ∙ rw (own, taken) (lt→ltb _ _ (brief s.reads n)));
              }
          | inr other ↦ record {
            one = ground (arith, g.one, other);
            locked = λ m n later. rw store (
                later_lock s n (omega arith)
                ∙ rw other (g.locked (ground (arith, m, other)) n (omega arith)));
          }
        ]

    refused-Guards :
        (q : Pc) (s : Session env) {t : Session env}
        → (Idempotency.acquire_lock env.redis env.json
            (env.time s.reads)
            job.payment.idempotency_key
            s.store).1
          ≡ false
        → critical q ≡ 0
        → t.store
          ≡ (Idempotency.acquire_lock env.redis env.json
              (env.time s.reads)
              job.payment.idempotency_key
              s.store).0
        → t.reads ≡ s.reads + 1
        → Guards env key rest job at_lock s
        → Guards env key rest job q t
    refused-Guards q s kept none_ store reads g = record {
      one = ground (arith, g.one, none_);
      locked = λ m n later. rw store (
          later_lock s n (omega arith)
          ∙ ground (arith, kept, g.locked (ground (arith, m, none_)) n (omega arith)));
    }

    pub lock-Guards :
        (s : Session env)
        → Guards env key rest job at_lock s
        → Guards env key rest job (advance env job at_lock s).0 (advance env job at_lock s).1
    lock-Guards s g =
        let (place, store, reads) = lock_effect s in
        let q = (advance env job at_lock s).0 in
        elim (Bool-cases
          (Idempotency.acquire_lock env.redis env.json (env.time s.reads)
            job.payment.idempotency_key s.store).1) [
              | inl taken ↦ granted-Guards q s taken (place ∙ rw taken) store reads g
              | inr kept ↦ refused-Guards q s kept (place ∙ rw kept) store reads g
            ]
