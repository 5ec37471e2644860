-- ===== src/PaymentModule.antt =====
-- `onModuleInit` of src/payment.module.ts, for any list of gateway configurations. The draws of
-- `Math.random()` come from what lies behind the gateways. One reading of the clock serves the
-- token buckets of a start-up.
pub mod Init
use payment_queue_system_bul.Prelude.{
  ℕ, ◌+◌, ◌*◌, ◌/◌, Bool, true, false, List, [], ◌∷◌, ◌++◌, Option, none, some, Text, codes, ltb,
}
use payment_queue_system_bul.Types.{
  Payment, Priority, high, normal, low, GatewayResponse, GatewayStatus, settled,
}
use payment_queue_system_bul.Effects.{Outcome, ok, throw, Action, pure, modify, ◌>>=◌, ◌>>◌}
use payment_queue_system_bul.Backoff.{Draw}
use payment_queue_system_bul.QueueManager as QueueManager
use payment_queue_system_bul.Processor.{Env, PaymentGateway}
use payment_queue_system_bul.Processor.Service as Service
use payment_queue_system_bul.Processor.Service.{Service}

pub record GatewayConfig : Type 0 where
  pub id : Text
  pub concurrency : ℕ
  pub capacity : ℕ
  pub per_second : ℕ

abbrev pub config : Text → ℕ → ℕ → ℕ → GatewayConfig
config id concurrency capacity per_second = record {
  id = id;
  concurrency = concurrency;
  capacity = capacity;
  per_second = per_second;
}

abbrev pub gateway_configs : List GatewayConfig
gateway_configs =
    config (codes "stripe") 25 100 50
    ∷ config (codes "adyen") 20 80 40
    ∷ config (codes "razorpay") 15 60 30
    ∷ []

-- `Math.random() > 0.05`
abbrev pub succeeds : Draw → Bool
succeeds r = ltb r.den (r.num * 20)

abbrev pub mock_gateway : {G : Type 0} → (G → Draw × G) → Text → PaymentGateway G
mock_gateway random id = record {
  process = λ payment o.
      let (r, o') = random o in
      (
        ok (record {
          success = succeeds r;
          transaction_id = codes "txn_" ++ payment.id;
          gateway_id = id;
          raw_code = none;
          message = none;
        }),
        o',
      );
  get_status =
      λ transaction_id o. (ok (record { transaction_id = transaction_id; status = settled }), o);
}

-- `Math.ceil(cfg.concurrency / 2)` but for the queue of high priority.
abbrev pub worker_concurrency : ℕ → Priority → ℕ
worker_concurrency n high = n
worker_concurrency n _ = (n + 1) / 2

module _ (env : Env) (bull : QueueManager.Bull) (random : env.Outside → Draw × env.Outside)
    (now : ℕ) where
  -- A call of the queue manager.
  abbrev pub on_manager : Action QueueManager.QueueManager (Unit {0}) → Action (Service env) Unit
  on_manager act s = let (r, m) = act s.manager in (r, record s { manager = m })

  unfoldable pub attach_workers : GatewayConfig → List Priority → Action (Service env) Unit
  unfolding QueueManager.attach_worker
  attach_workers cfg [] s = (ok tt, s)
  attach_workers cfg (p ∷ ps) s =
      let (r, s') =
        on_manager (QueueManager.attach_worker bull cfg.id p (worker_concurrency cfg.concurrency p))
          s in
      elim r [ ok _ ↦ attach_workers cfg ps s' | throw err ↦ (throw err, s') ]

  unfoldable pub start_gateway : GatewayConfig → Action (Service env) Unit
  unfolding attach_workers QueueManager.register_gateway Service.register_gateway
  start_gateway cfg s =
      let (r, registered) =
        on_manager
          (QueueManager.register_gateway bull now cfg.id (some (cfg.capacity, cfg.per_second))) s in
      elim r [
        | throw err ↦ (throw err, registered)
        | ok _ ↦ attach_workers cfg (high ∷ normal ∷ low ∷ []) (
            Service.register_gateway env cfg.id (mock_gateway random cfg.id) cfg.concurrency
              registered)
      ]

  -- The `for` of `onModuleInit`.
  unfoldable pub start_gateways : List GatewayConfig → Action (Service env) Unit
  unfolding start_gateway
  start_gateways [] s = (ok tt, s)
  start_gateways (cfg ∷ cfgs) s =
      let (r, s') = start_gateway cfg s in
      elim r [ ok _ ↦ start_gateways cfgs s' | throw err ↦ (throw err, s') ]

  unfoldable pub on_module_init : Action (Service env) Unit
  unfolding start_gateways
  on_module_init = start_gateways gateway_configs
