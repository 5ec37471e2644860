-- ===== src/Processor/Awaits/Endings.antt =====
-- How the answer of the gateway leads the saga on.
use payment_queue_system_bul.Prelude.{◌≡◌, ◌⊎◌, inl, inr, Bool-cases, none, codes}
use payment_queue_system_bul.Types.{GatewayResponse, Thrown, classified, value, shown}
use payment_queue_system_bul.Types.Classify.{classify_failure}
use payment_queue_system_bul.Processor.{Env, Session, Job}
use payment_queue_system_bul.Processor.Charge.{injects, message_or_default}
use payment_queue_system_bul.Processor.Awaits.{at_ledger, injected_failure, fail, by_response}

module _ (env : Env) where
  -- The answer of the gateway makes the saga fail, or brings it to the ledger.
  pub by_response-cases :
      (job : Job) (res : GatewayResponse) (s : Session env)
      → ((err : Thrown) × (by_response env job res s ≡ fail env job err s))
        ⊎ (by_response env job res s ≡ (at_ledger res.transaction_id, s))
  unfolding by_response
  by_response-cases job res s = elim (Bool-cases res.success) [
    | inr e ↦ inl (
      classified (message_or_default res.message) (classify_failure (value (shown res.message)))
          none,
      rw e,
    )
    | inl e ↦ elim (Bool-cases (injects env.saga_fail_step (codes "capture"))) [
      | inl i ↦ inl (injected_failure env (codes "capture"), rw (e, i))
      | inr i ↦ elim (Bool-cases (injects env.saga_fail_step (codes "ledger"))) [
        | inl j ↦ inl (injected_failure env (codes "ledger"), rw (e, i, j))
        | inr j ↦ inr (rw (e, i, j))
      ]
    ]
  ]
