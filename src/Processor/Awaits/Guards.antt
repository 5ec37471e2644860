-- ===== src/Processor/Awaits/Guards.antt =====
-- What it means for the lock of one payment that a job holds it or not.
use payment_queue_system_bul.Prelude.{
  ℕ, ◌+◌, ◌≤◌, ◌<◌, ◌≡◌, ◌∙◌, inl, inr, Bool-cases, Bool, true, false, Text, text_eq, arith,
  if◌then◌else◌,
}
use payment_queue_system_bul.Idempotency as Idempotency
use payment_queue_system_bul.Idempotency.View.{lock_ms, release_lock-Sees}
use payment_queue_system_bul.Processor.{Env, Session, Job}
use payment_queue_system_bul.Processor.Awaits.{Pc, advance}
use payment_queue_system_bul.Processor.Awaits.Locks.{critical, storeless, storeless_store}

-- Whether a job holds the lock of `key`.
abbrev pub claims : Text → Job → Pc → ℕ
claims key job p = if text_eq job.payment.idempotency_key key then critical p else 0

module _ (env : Env) (key : Text) where
  abbrev pub held : ℕ → env.redis.Store → Bool
  held t store = Idempotency.has_lock env.redis env.json t key store

  -- The lock is held at every reading of the clock that is still to come.
  abbrev pub IsLocked : Session env → Type 0
  IsLocked s = (n : ℕ) → s.reads ≤ n → held (env.time n) s.store ≡ true

  -- The others, of which `rest` hold the lock, and this job.
  pub record Guards (rest : ℕ) (job : Job) (p : Pc) (s : Session env) : Type 0 where
    pub one : rest + claims key job p ≤ 1
    pub locked : 1 ≤ rest + claims key job p → IsLocked s

  module _ (forward : (n m : ℕ) → n ≤ m → env.time n ≤ env.time m)
      (brief : (n m : ℕ) → env.time m < env.time n + lock_ms) (rest : ℕ) (job : Job) where
    pub storeless-Guards :
        (p : Pc) (s : Session env)
        → storeless env p ≡ true
        → Guards rest job p s
        → Guards rest job (advance env job p s).0 (advance env job p s).1
    storeless-Guards p s h g =
        let (store, reads, fewer) = storeless_store env job p s h in
        record {
          one = ground (arith, g.one, fewer);
          locked = λ c n later. rw store (g.locked (ground (arith, c, fewer)) n (omega arith));
        }

    pub foreign-Guards :
        (p q : Pc) (s : Session env) {t : Session env}
        → critical q ≡ 0
        → text_eq job.payment.idempotency_key key ≡ false
        → ((n : ℕ) → s.reads < n → held (env.time n) t.store ≡ held (env.time n) s.store)
        → s.reads < t.reads
        → Guards rest job p s
        → Guards rest job q t
    foreign-Guards p q s none_ other same reads g = record {
      one = ground (arith, g.one, other);
      locked =
          λ m n later. same n (omega arith) ∙ g.locked (ground (arith, m, other)) n (omega arith);
    }

    pub release-Guards :
        (p q : Pc) (s : Session env) {t : Session env}
        → critical p ≡ 1
        → critical q ≡ 0
        → t.store
          ≡ Idempotency.release_lock env.redis env.json
              (env.time s.reads)
              job.payment.idempotency_key
              s.store
        → s.reads < t.reads
        → Guards rest job p s
        → Guards rest job q t
    release-Guards p q s one none_ store reads g =
        elim (Bool-cases (text_eq job.payment.idempotency_key key)) [
          | inl own ↦
              let alone : rest ≡ 0 = ground (arith, g.one, own, one) in
              record {
                one = ground (arith, alone, own, none_);
                locked = λ m n later. absurd (ground (arith, m, alone, own, none_));
              }
          | inr other ↦
              foreign-Guards p q s none_ other
                (λ n later. rw store (
                  (release_lock-Sees env.redis env.json (env.time s.reads) (env.time n)
                    job.payment.idempotency_key key s.store (forward s.reads n (omega arith))).0
                  ∙ rw other))
                reads g
        ]
