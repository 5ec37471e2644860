-- ===== src/TokenBucket/Limit.antt =====
-- The bucket over any history of calls: its well-formedness, and the limit on what it hands out.
use native.Mathlib.Nat.{mul-le-mul_left}
use payment_queue_system_bul.Prelude.{
  ℕ, ◌+◌, ◌-◌, ◌*◌, ◌≤◌, ◌≡◌, arith, if◌then◌else◌, List, [], ◌∷◌, ◌∙◌,
}
use payment_queue_system_bul.Prelude.Int.{ℤ}
use payment_queue_system_bul.TokenBucket.{
  TokenBucket, token, per_second, refill, try_consume, ms_until_available, adapt, reset, snapshot,
}
use payment_queue_system_bul.TokenBucket.Adapt.{
  IsValid, try_consume-IsValid, ms_until_available-IsValid, snapshot-IsValid, reset-IsValid,
  adapt-IsValid,
}
use payment_queue_system_bul.TokenBucket.Refill.{elapsed-mul_add}

-- The public methods, each with the clock reading and the argument that it is called with.
pub data Call : Type 0 where
  consumes waits : ℕ → ℕ → Call
  adapts : ℤ → Call
  resets : Call
  snapshots : ℕ → Call

-- One call: the bucket that it leaves, and the tokens that it granted.
unfoldable pub step : TokenBucket → Call → TokenBucket × ℕ
step b (consumes now cost) =
    let (b', granted) = try_consume now cost b in (b', if granted then cost else 0)
step b (waits now cost) = ((ms_until_available now cost b).0, 0)
step b (adapts severity) = (adapt severity b, 0)
step b resets = (reset b, 0)
step b (snapshots now) = ((snapshot now b).0, 0)

pub run : TokenBucket → List Call → TokenBucket × ℕ
run b [] = (b, 0)
run b (c ∷ cs) =
    let (b', granted) = step b c in let (b'', later) = run b' cs in (b'', granted + later)

step-IsValid : (b : TokenBucket) (c : Call) → IsValid b → IsValid (step b c).0
unfolding step
step-IsValid b (consumes now cost) v = try_consume-IsValid now cost b v
step-IsValid b (waits now cost) v = ms_until_available-IsValid now cost b v
step-IsValid b (adapts severity) v = adapt-IsValid severity b v
step-IsValid b resets v = reset-IsValid b v
step-IsValid b (snapshots now) v = snapshot-IsValid now b v

-- Any history of calls leaves a well-formed bucket well formed.
pub run-IsValid : (b : TokenBucket) (cs : List Call) → IsValid b → IsValid (run b cs).0
unfolding run
run-IsValid b [] v = v
run-IsValid b (c ∷ cs) v = run-IsValid (step b c).0 cs (step-IsValid b c v)

-- What a call can have added: the base rate over the time that the last refill has moved.
abbrev Earns : TokenBucket → TokenBucket → ℕ → Type 0
Earns b b' granted =
    (b.last_refill_ms ≤ b'.last_refill_ms)
    × (b'.base_refill_per_sec ≡ b.base_refill_per_sec)
    × (granted * token + b'.tokens
        ≤ b.tokens + (b'.last_refill_ms - b.last_refill_ms) * (b.base_refill_per_sec * per_second))

refill-Earns : (now : ℕ) (b : TokenBucket) → IsValid b → Earns b (refill now b) 0
unfolding refill
refill-Earns now b v = ground (arith, mul-le-mul_left (now - b.last_refill_ms) v.rate_below_base)

try_consume-Earns :
    (now cost : ℕ) (b : TokenBucket)
    → IsValid b
    → Earns b (try_consume now cost b).0 (if (try_consume now cost b).1 then cost else 0)
unfolding try_consume
try_consume-Earns now cost b v = ground (arith, refill-Earns now b v)

ms_until_available-Earns :
    (now cost : ℕ) (b : TokenBucket) → IsValid b → Earns b (ms_until_available now cost b).0 0
unfolding ms_until_available
ms_until_available-Earns now cost b v = ground (arith, refill-Earns now b v)

step-Earns : (b : TokenBucket) (c : Call) → IsValid b → Earns b (step b c).0 (step b c).1
unfolding step adapt reset snapshot
step-Earns b (consumes now cost) v = try_consume-Earns now cost b v
step-Earns b (waits now cost) v = ms_until_available-Earns now cost b v
step-Earns b (adapts severity) v = ground arith
step-Earns b resets v = ground arith
step-Earns b (snapshots now) v = refill-Earns now b v

Earns-trans :
    (b b' b'' : TokenBucket) (m n : ℕ) → Earns b b' m → Earns b' b'' n → Earns b b'' (m + n)
Earns-trans b b' b'' m n e f =
    let later = rw e.1 at (f.2) in
    (
      omega arith,
      f.1 ∙ e.1,
      omega (
        arith,
        elapsed-mul_add b.last_refill_ms b'.last_refill_ms b''.last_refill_ms
            (b.base_refill_per_sec * per_second) e.0 f.0,
      ),
    )

run-Earns : (b : TokenBucket) (cs : List Call) → IsValid b → Earns b (run b cs).0 (run b cs).1
unfolding run
run-Earns b [] v = omega arith
run-Earns b (c ∷ cs) v =
    Earns-trans b (step b c).0 (run (step b c).0 cs).0 (step b c).1 (run (step b c).0 cs).1
      (step-Earns b c v) (run-Earns (step b c).0 cs (step-IsValid b c v))

-- A valid bucket is left valid, with at most so many tokens handed out.
pub record Spends (b b' : TokenBucket) (n : ℕ) : Type 0 where
  pub spent : IsValid b → IsValid b' × Earns b b' n

pub Spends-same : (b : TokenBucket) → Spends b b 0
Spends-same b = record { spent = λ v. (v, omega arith) }

pub Spends-trans :
    {b b' b'' : TokenBucket} {m n : ℕ} → Spends b b' m → Spends b' b'' n → Spends b b'' (m + n)
Spends-trans {b} {b'} {b''} {m} {n} f g = record {
  spent = λ v.
      let (v', e) = f.spent v in let (v'', e') = g.spent v' in (v'', Earns-trans b b' b'' m n e e');
}

pub step-Spends : (b : TokenBucket) (c : Call) → Spends b (step b c).0 (step b c).1
step-Spends b c = record { spent = λ v. (step-IsValid b c v, step-Earns b c v) }

-- Over any history of calls on a well-formed bucket the tokens granted, and those that are left,
-- are at most the tokens of the beginning and the base rate times the time over which the last
-- refill has moved.
pub run-limit :
    (b : TokenBucket) (cs : List Call)
    → IsValid b
    → let (b', granted) = run b cs in
      granted * token + b'.tokens
      ≤ b.tokens + (b'.last_refill_ms - b.last_refill_ms) * (b.base_refill_per_sec * per_second)
run-limit b cs v = (run-Earns b cs v).2
