-- ===== src/PaymentModule/Init.antt =====
-- What the start-up leaves: every configured gateway can take payments.
use payment_queue_system_bul.Prelude.{
  ℕ, ◌≡◌, ◌≢◌, refl, sym, subst, List, [], ◌∷◌, none, some, Text, arith, lookup,
  lookup-insert_found, lookup-insert_kept, Option-cases, inl, inr, All,
}
use payment_queue_system_bul.Types.{Priority, high, normal, low}
use payment_queue_system_bul.Effects.{Outcome, ok}
use payment_queue_system_bul.Backoff.{Draw}
use payment_queue_system_bul.QueueManager as QueueManager
use payment_queue_system_bul.QueueManager.{
  Bull, queue_name, attach_worker, attach_found, ensure_limiter, or_default_limit, enqueue,
  add_found,
}
use payment_queue_system_bul.QueueManager.Counts.{get_rate_limiter}
use payment_queue_system_bul.QueueManager.Registered.{
  Has, Opens, attach_worker-Has, register_gateway-ok, register_gateway-Has_kept,
}
use payment_queue_system_bul.QueueManager.Limiters.{
  attach_worker-ok, attach_worker-limiters, register_gateway-limiter, register_gateway-limiter_kept,
}
use payment_queue_system_bul.Processor.{Env}
use payment_queue_system_bul.Processor.Service as Service
use payment_queue_system_bul.Processor.Service.{Service, Parts, parts_of}
use payment_queue_system_bul.PaymentModule.{
  GatewayConfig, mock_gateway, worker_concurrency, attach_workers, start_gateway, start_gateways,
}

-- BullMQ opens the queues of the gateway and starts its workers.
pub record Takes (bull : Bull) (cfg : GatewayConfig) : Type 0 where
  pub opens : Opens bull cfg.id
  pub starts :
      (p : Priority)
      → bull.new_worker (queue_name cfg.id p) (worker_concurrency cfg.concurrency p) ≡ ok tt

module _ (env : Env) (bull : Bull) (random : env.Outside → Draw × env.Outside) (now : ℕ) where
  -- The gateway is registered with the service and with the queue manager.
  record Serves (g : Text) (s : Service env) : Type 0 where
    gateway : lookup g s.gateways ≢ none
    semaphore : lookup g s.semaphores ≢ none
    breaker : lookup g s.breakers ≢ none
    limiter : lookup g s.manager.rate_limiters ≢ none
    queues : (p : Priority) → Has (queue_name g p) s.manager.queues

  attached : Text → Priority → ℕ → Service env → Service env
  attached g p c s = record s { manager = (attach_worker bull g p c s.manager).1 }

  attached-Serves :
      (g g' : Text) (p : Priority) (c : ℕ) (s : Service env)
      → Serves g' s
      → Serves g' (attached g p c s)
  unfolding attached
  attached-Serves g g' p c s v = record {
    gateway = v.gateway;
    semaphore = v.semaphore;
    breaker = v.breaker;
    limiter = rw (attach_worker-limiters bull g p c s.manager) v.limiter;
    queues = λ q. attach_worker-Has bull g p c (queue_name g' q) s.manager (v.queues q);
  }

  attach_workers-Serves :
      (cfg : GatewayConfig) (takes : Takes bull cfg) (ps : List Priority) (g : Text)
      (s : Service env)
      → Serves cfg.id s
      → Serves g s
      → ((attach_workers env bull random now cfg ps s).0 ≡ ok tt)
        × Serves g (attach_workers env bull random now cfg ps s).1
  unfolding attach_workers attached
  attach_workers-Serves cfg takes [] g s own v = (refl, v)
  attach_workers-Serves cfg takes (p ∷ ps) g s own v =
      let c = worker_concurrency cfg.concurrency p in
      let accepted = attach_worker-ok bull cfg.id p c s.manager (takes.starts p) (own.queues p) in
      rw (accepted, attach_workers)
        (attach_workers-Serves cfg takes ps g (attached cfg.id p c s)
          (attached-Serves cfg.id cfg.id p c s own) (attached-Serves cfg.id g p c s v))

  -- The state of `start_gateway` before the workers are attached.
  registered : GatewayConfig → Service env → Service env
  registered cfg s =
      Service.register_gateway env cfg.id (mock_gateway random cfg.id) cfg.concurrency (record s {
        manager =
            (QueueManager.register_gateway bull now cfg.id (some (cfg.capacity, cfg.per_second))
              s.manager).1;
      })

  registered-Serves_own :
      (cfg : GatewayConfig) (takes : Takes bull cfg) (s : Service env)
      → Serves cfg.id (registered cfg s)
  unfolding registered Service.register_gateway
  registered-Serves_own cfg takes s = record {
    gateway = lookup-insert_found cfg.id _ s.gateways;
    semaphore = lookup-insert_found cfg.id _ s.semaphores;
    breaker = lookup-insert_found cfg.id _ s.breakers;
    limiter = register_gateway-limiter bull now cfg.id _ s.manager takes.opens;
    queues = (register_gateway-ok bull cfg.id takes.opens now _ s.manager).1;
  }

  registered-Serves :
      (cfg : GatewayConfig) (g : Text) (s : Service env) → Serves g s → Serves g (registered cfg s)
  unfolding registered Service.register_gateway
  registered-Serves cfg g s v = record {
    gateway = lookup-insert_kept cfg.id g _ s.gateways v.gateway;
    semaphore = lookup-insert_kept cfg.id g _ s.semaphores v.semaphore;
    breaker = lookup-insert_kept cfg.id g _ s.breakers v.breaker;
    limiter = register_gateway-limiter_kept bull now cfg.id g _ s.manager v.limiter;
    queues =
        λ p. register_gateway-Has_kept bull now cfg.id _ (queue_name g p) s.manager (v.queues p);
  }

  start_gateway-Serves :
      (cfg : GatewayConfig) (takes : Takes bull cfg) (s : Service env)
      → ((start_gateway env bull random now cfg s).0 ≡ ok tt)
        × Serves cfg.id (start_gateway env bull random now cfg s).1
        × ((g : Text) → Serves g s → Serves g (start_gateway env bull random now cfg s).1)
  unfolding start_gateway registered
  start_gateway-Serves cfg takes s =
      let own = registered-Serves_own cfg takes s in
      let ps = high ∷ normal ∷ low ∷ [] in
      let fine =
        (register_gateway-ok bull cfg.id takes.opens now (some (cfg.capacity, cfg.per_second))
          s.manager).0 in
      let (accepted, served) =
        attach_workers-Serves cfg takes ps cfg.id (registered cfg s) own own in
      rw (fine, start_gateway)
        (
          accepted,
          served,
          λ g v.
              (attach_workers-Serves cfg takes ps g (registered cfg s) own
                (registered-Serves cfg g s v)).1,
        )

  start_gateways-Serves :
      (cfgs : List GatewayConfig) (s : Service env)
      → All (Takes bull) cfgs
      → let (r, s') = start_gateways env bull random now cfgs s in
        (r ≡ ok tt) × All (λ cfg. Serves cfg.id s') cfgs × ((g : Text) → Serves g s → Serves g s')
  unfolding start_gateways
  start_gateways-Serves [] s takes = (refl, tt, λ g v. v)
  start_gateways-Serves (cfg ∷ cfgs) s takes =
      let (accepted, own, kept) = start_gateway-Serves cfg takes.0 s in
      let s₁ = (start_gateway env bull random now cfg s).1 in
      let (done, rest, later) = start_gateways-Serves cfgs s₁ takes.1 in
      let same : start_gateways env bull random now (cfg ∷ cfgs) s
          ≡ start_gateways env bull random now cfgs s₁ =
        rw (accepted, start_gateways) in
      subst
        (λ (x : Outcome (Unit {0}) × Service env).
          (x.0 ≡ ok tt)
          × All (λ c. Serves c.id x.1) (cfg ∷ cfgs)
          × ((g : Text) → Serves g s → Serves g x.1))
        (sym same) (done, (later cfg.id own, rest), λ g v. later g (kept g v))

  -- The processor finds all parts of the gateway, and the queue manager has its three queues.
  pub record IsReady (g : Text) (s : Service env) : Type 0 where
    pub found : (p : Parts env) × (parts_of env g s ≡ ok p)
    pub queues : (p : Priority) → lookup (queue_name g p) s.manager.queues ≢ none

  Serves-IsReady : (g : Text) (s : Service env) → Serves g s → IsReady g s
  unfolding parts_of Has get_rate_limiter
  Serves-IsReady g s v = elim (Option-cases (lookup g s.manager.rate_limiters)) [
    | inl none_ ↦ absurd (v.limiter none_)
    | inr (bucket, l) ↦ elim (Option-cases (lookup g s.breakers)) [
      | inl none_ ↦ absurd (v.breaker none_)
      | inr (breaker, b) ↦ elim (Option-cases (lookup g s.semaphores)) [
        | inl none_ ↦ absurd (v.semaphore none_)
        | inr (semaphore, m) ↦ elim (Option-cases (lookup g s.gateways)) [
          | inl none_ ↦ absurd (v.gateway none_)
          | inr (gateway, w) ↦
              let p : Parts env = record {
                gateway = gateway;
                semaphore = semaphore;
                breaker = breaker;
                bucket = bucket;
              } in
              record { found = (p, ground arith); queues = v.queues }
        ]
      ]
    ]
  ]

  All-IsReady :
      (cfgs : List GatewayConfig) (s : Service env)
      → All (λ cfg. Serves cfg.id s) cfgs
      → All (λ cfg. IsReady cfg.id s) cfgs
  All-IsReady [] s a = tt
  All-IsReady (cfg ∷ cfgs) s a = (Serves-IsReady cfg.id s a.0, All-IsReady cfgs s a.1)

  -- If BullMQ opens the queues of the configured gateways and starts their workers, the start-up
  -- succeeds on any list of configurations, from any state of the services, ids that come twice
  -- included: attaching a worker never finds its queue missing, and afterwards each configured
  -- gateway has its three queues, and `process` finds its gateway, semaphore, breaker and rate
  -- limiter.
  pub start_gateways-IsReady :
      (cfgs : List GatewayConfig) (s : Service env)
      → All (Takes bull) cfgs
      → let (r, s') = start_gateways env bull random now cfgs s in
        (r ≡ ok tt) × All (λ cfg. IsReady cfg.id s') cfgs
  start_gateways-IsReady cfgs s takes =
      let (accepted, all, _) = start_gateways-Serves cfgs s takes in
      (accepted, All-IsReady cfgs _ all)
