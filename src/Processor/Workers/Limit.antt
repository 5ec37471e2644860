-- ===== src/Processor/Workers/Limit.antt =====
-- The rate limit under interleaving.
use native.Mathlib.Nat.{mul-le-mul_right}
use payment_queue_system_bul.Prelude.{
  ℕ, ◌+◌, ◌-◌, ◌*◌, ◌≤◌, ◌≡◌, subst, ◌⊎◌, inl, inr, [], ◌∷◌, arith,
}
use payment_queue_system_bul.TokenBucket.{token, per_second, snapshot}
use payment_queue_system_bul.TokenBucket.Adapt.{IsValid}
use payment_queue_system_bul.TokenBucket.Limit.{
  snapshots, step, Spends, Spends-same, Spends-trans, step-Spends,
}
use payment_queue_system_bul.Processor.{Env, Session, Job}
use payment_queue_system_bul.Processor.Awaits.{begin, waiting, charging}
use payment_queue_system_bul.Processor.Awaits.Tokens.{admitted, charges, handed, advance-admitted}
use payment_queue_system_bul.Processor.Awaits.Spending.{advance-Spends}
use payment_queue_system_bul.Processor.Workers.{
  Task, at_pc, total, total-append, total-at, System, Step, arrive, elsewhere, run, resume, Reach,
  here, next,
}

abbrev pub has_token : Task → ℕ
has_token task = admitted task.pc

-- The rest of the world does nothing to the rate limiter but take a snapshot of it.
abbrev pub LeavesBucket : (env : Env) → (System env → Session env → Type 0) → Type 0
LeavesBucket env Others =
    (x : System env) (t : Session env)
    → Others x t
    → (t.bucket ≡ x.session.bucket) ⊎ ((now : ℕ) × (t.bucket ≡ (snapshot now x.session.bucket).0))

module _ (env : Env) (Arrives : Job → Type 0) (Others : System env → Session env → Type 0) where
  -- The steps of a run by which a job has the gateway charge.
  abbrev pub charge_of : {x y : System env} → Step env Arrives Others x y → ℕ
  charge_of (run _ _ _ p _ _ _ _ _ _) = charges p
  charge_of _ = 0

  pub charged : {x y : System env} → Reach env Arrives Others x y → ℕ
  charged here = 0
  charged (next r st) = charged r + charge_of st

  module _ (apart : LeavesBucket env Others) where
    -- So many tokens were handed out, for so many charges.
    record Pays (x y : System env) (n : ℕ) : Type 0 where
      tokens : ℕ
      spends : Spends x.session.bucket y.session.bucket tokens
      paid : n + total has_token y.tasks ≤ total has_token x.tasks + tokens

    other-Spends :
        (x : System env) (t : Session env) → Others x t → Spends x.session.bucket t.bucket 0
    unfolding step
    other-Spends x t o = elim (apart x t o) [
      | inl same ↦ rw same (Spends-same x.session.bucket)
      | inr (now, e) ↦ rw e (step-Spends x.session.bucket (snapshots now))
    ]

    Step-Pays : {x y : System env} (st : Step env Arrives Others x y) → Pays x y (charge_of st)
    Step-Pays {x} (arrive job a e) = record {
      tokens = 0;
      spends = rw e (Spends-same x.session.bucket);
      paid = rw e (omega (arith, total-append has_token x.tasks (at_pc job begin ∷ [])));
    }
    Step-Pays {x} (elsewhere t o e) = record {
      tokens = 0;
      spends = rw e (other-Spends x t o);
      paid = rw e (omega arith);
    }
    Step-Pays {x} (run before after job p q t runs at moves e) = record {
      tokens = handed p q;
      spends = rw e (
          subst (λ o. Spends x.session.bucket o.1.bucket (handed p o.0)) moves
            (advance-Spends env job p x.session));
      paid =
          let pays : charges p + admitted q ≤ admitted p + handed p q =
            subst (λ o. charges p + admitted o.0 ≤ admitted p + handed p o.0) moves
              (advance-admitted env job p x.session) in
          rw (e, at)
            (omega (
              arith,
              pays,
              total-at has_token before after (at_pc job p),
              total-at has_token before after (at_pc job q),
            ));
    }
    Step-Pays {x} (resume before after job earlier later at woken e) = record {
      tokens = 0;
      spends = rw e (Spends-same x.session.bucket);
      paid =
          rw (e, at)
            (omega (
              arith,
              total-at has_token before after (at_pc job waiting),
              total-at has_token before after (at_pc job charging),
            ));
    }

    Reach-Pays : {x y : System env} (r : Reach env Arrives Others x y) → Pays x y (charged r)
    unfolding charged
    Reach-Pays {x} here = record {
      tokens = 0;
      spends = Spends-same x.session.bucket;
      paid = omega arith;
    }
    Reach-Pays (next r st) =
        let v = Reach-Pays r in
        let w = Step-Pays st in
        record {
          tokens = v.tokens + w.tokens;
          spends = Spends-trans v.spends w.spends;
          paid = omega (arith, v.paid, w.paid);
        }

-- From a gateway with no job and a valid rate limiter, whatever jobs the queue hands out, however
-- they are interleaved, and if the rest of the world does nothing to the rate limiter but take
-- snapshots of it: the times that the gateway was asked to charge, the tokens of the jobs that have
-- got past the rate limiter and have not asked it yet, and the tokens left are together at most the
-- tokens of the beginning and the base rate times the time over which the last refill has moved.
pub rate_limited :
    (env : Env) (Arrives : Job → Type 0) (Others : System env → Session env → Type 0)
    {x y : System env}
    → LeavesBucket env Others
    → x.tasks ≡ []
    → IsValid x.session.bucket
    → (r : Reach env Arrives Others x y)
    → (charged env Arrives Others r + total has_token y.tasks) * token + y.session.bucket.tokens
      ≤ x.session.bucket.tokens
        + (y.session.bucket.last_refill_ms - x.session.bucket.last_refill_ms)
          * (x.session.bucket.base_refill_per_sec * per_second)
rate_limited env Arrives Others {x} {y} apart idle valid r =
    let v = Reach-Pays env Arrives Others apart r in
    let covered : charged env Arrives Others r + total has_token y.tasks ≤ v.tokens =
      ground (arith, v.paid, idle) in
    let earned = (v.spends.spent valid).1.2 in omega (arith, mul-le-mul_right token covered, earned)
