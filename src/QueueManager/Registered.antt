-- ===== src/QueueManager/Registered.antt =====
-- Which queues are there, and where `enqueue` adds a payment.
use payment_queue_system_bul.Prelude.{
  ℕ, suc, ap, sym, subst, ◌∙◌, inl, inr, ◌≡◌, ◌≢◌, List, [], ◌∷◌, Option, none, some, Text, codes,
  arith, Dict, lookup, insert, lookup-insert, lookup-insert_self, lookup-insert_ne, refl,
}
use payment_queue_system_bul.Prelude.Int.{ℤ, pos}
use payment_queue_system_bul.Types.{Payment, Priority, high, normal, low}
use payment_queue_system_bul.Effects.{ok, Outcome-cases, then-keeps, then_ok}
use payment_queue_system_bul.QueueManager.{
  Bull, Added, empty_queue, QueueManager, ManagedQueue, QueueTag, of_priority, queue_name,
  scheduled_name, dlq_name, open_queue, open_priorities, ensure_special_queues, register_gateway,
  special_tag, attach_worker, attach_found, scheduled_options, job_options,
}
use payment_queue_system_bul.QueueManager.Calls.{
  Call, registers, attaches, enqueues, shuts_down, shutdown-queues, step, run, enqueue-queues,
}

-- The queue of this name is there.
unfoldable pub Has : Text → Dict ManagedQueue → Type 0
Has name queues = lookup name queues ≢ none

insert-Has :
    (k j : Text) (v : ManagedQueue) (queues : Dict ManagedQueue)
    → Has j queues
    → Has j (insert k v queues)
unfolding Has
insert-Has k j v queues h e = ground (arith, h, e, lookup-insert k j v queues)

-- BullMQ opens the queues of this gateway.
pub record Opens (bull : Bull) (g : Text) : Type 0 where
  pub own : (p : Priority) → bull.new_queue (queue_name g p) ≡ ok tt
  pub dlq : bull.new_queue dlq_name ≡ ok tt
  pub scheduled : bull.new_queue scheduled_name ≡ ok tt

module _ (bull : Bull) where
  -- The queue is opened where it is missing, if BullMQ opens it.
  pub open_queue-ok :
      (name g : Text) (tag : QueueTag) (queues : Dict ManagedQueue)
      → bull.new_queue name ≡ ok tt
      → ((open_queue bull name g tag queues).0 ≡ ok tt)
        × Has name (open_queue bull name g tag queues).1
  unfolding Has open_queue
  open_queue-ok name g tag queues opens = (
    ground (arith, opens),
    λ e. ground (arith, e, opens, lookup-insert_self name (empty_queue g tag) queues),
  )

  pub open_queue-Has_other :
      (name j g : Text) (tag : QueueTag) (queues : Dict ManagedQueue)
      → Has j queues
      → Has j (open_queue bull name g tag queues).1
  unfolding Has open_queue
  open_queue-Has_other name j g tag queues h e = elim (Outcome-cases (bull.new_queue name)) [
    | inl (_, o) ↦ ground (arith, h, e, o, lookup-insert name j (empty_queue g tag) queues)
    | inr (err, o) ↦ ground (arith, h, e, o)
  ]

  attach_found-Has :
      (name j : Text) (c : ℕ) (o : Option ManagedQueue) (m : QueueManager)
      → Has j m.queues
      → Has j (attach_found bull name c o m).1.queues
  unfolding attach_found
  attach_found-Has name j c none m h = h
  attach_found-Has name j c (some managed) m h = elim (Outcome-cases (bull.new_worker name c)) [
    | inl (_, e) ↦ rw (e, attach_found) (insert-Has name j _ m.queues h)
    | inr (err, e) ↦ rw (e, attach_found) h
  ]

  pub attach_found-lookup :
      (name j : Text) (c : ℕ) (o : Option ManagedQueue) (m : QueueManager)
      → name ≢ j
      → lookup j (attach_found bull name c o m).1.queues ≡ lookup j m.queues
  unfolding attach_found
  attach_found-lookup name j c none m h = refl
  attach_found-lookup name j c (some managed) m h = elim (Outcome-cases (bull.new_worker name c)) [
    | inl (_, e) ↦ rw (e, attach_found) (lookup-insert_ne name j _ m.queues h)
    | inr (err, e) ↦ rw (e, attach_found) refl
  ]

  pub attach_worker-Has :
      (g : Text) (p : Priority) (c : ℕ) (j : Text) (m : QueueManager)
      → Has j m.queues
      → Has j (attach_worker bull g p c m).1.queues
  unfolding attach_worker
  attach_worker-Has g p c j m h = attach_found-Has (queue_name g p) j c _ m h

  pub open_priorities-Has :
      (g : Text) (ps : List Priority) (j : Text) (queues : Dict ManagedQueue)
      → Has j queues
      → Has j (open_priorities bull g ps queues).1
  unfolding open_priorities
  open_priorities-Has g [] j queues h = h
  open_priorities-Has g (p ∷ ps) j queues h =
      then-keeps (open_queue bull (queue_name g p) g (of_priority p)) (open_priorities bull g ps)
        (Has j) (open_queue-Has_other (queue_name g p) j g (of_priority p))
        (open_priorities-Has g ps j) queues h

  pub ensure_special_queues-Has :
      (j : Text) (queues : Dict ManagedQueue)
      → Has j queues
      → Has j (ensure_special_queues bull queues).1
  unfolding ensure_special_queues
  ensure_special_queues-Has j queues h =
      then-keeps (open_queue bull dlq_name (codes "*") (special_tag dlq_name))
        (open_queue bull scheduled_name (codes "*") (special_tag scheduled_name)) (Has j)
        (open_queue-Has_other dlq_name j (codes "*") (special_tag dlq_name))
        (open_queue-Has_other scheduled_name j (codes "*") (special_tag scheduled_name)) queues h

  pub register_gateway-Has_kept :
      (now : ℕ) (g : Text) (limit : Option (ℕ × ℕ)) (j : Text) (m : QueueManager)
      → Has j m.queues
      → Has j (register_gateway bull now g limit m).1.queues
  unfolding register_gateway
  register_gateway-Has_kept now g limit j m h =
      let ps = high ∷ normal ∷ low ∷ [] in
      let opened = open_priorities bull g ps m.queues in
      let kept = open_priorities-Has g ps j m.queues h in
      elim (Outcome-cases opened.0) [
        | inl (_, e) ↦ rw e (ensure_special_queues-Has j opened.1 kept)
        | inr (err, e) ↦ rw e kept
      ]

  step-Has :
      (c : Call) (j : Text) (m : QueueManager) → Has j m.queues → Has j (step bull c m).queues
  unfolding step
  step-Has (registers now g limit) j m h = register_gateway-Has_kept now g limit j m h
  step-Has (attaches g p c) j m h = attach_worker-Has g p c j m h
  step-Has (enqueues payment delay) j m h = rw (enqueue-queues bull payment delay m) h
  step-Has (shuts_down ms) j m h = rw (shutdown-queues ms m) h

  pub run-Has :
      (cs : List Call) (j : Text) (m : QueueManager) → Has j m.queues → Has j (run bull cs m).queues
  unfolding run
  run-Has [] j m h = h
  run-Has (c ∷ cs) j m h = run-Has cs j (step bull c m) (step-Has c j m h)

  module _ (g : Text) (opens : Opens bull g) where
    -- The queues of some priorities, opened one after the other.
    pub open_priorities-ok :
        (ps : List Priority) (queues : Dict ManagedQueue)
        → (open_priorities bull g ps queues).0 ≡ ok tt
    unfolding open_priorities
    open_priorities-ok [] queues = refl
    open_priorities-ok (p ∷ ps) queues =
        let first = open_queue-ok (queue_name g p) g (of_priority p) queues (opens.own p) in
        ap (λ o. o.0)
          (then_ok (open_queue bull (queue_name g p) g (of_priority p)) (open_priorities bull g ps)
            queues first.0)
        ∙ open_priorities-ok ps _

    open_priorities-Has_first :
        (p : Priority) (ps : List Priority) (queues : Dict ManagedQueue)
        → Has (queue_name g p) (open_priorities bull g (p ∷ ps) queues).1
    unfolding open_priorities
    open_priorities-Has_first p ps queues =
        let act = open_queue bull (queue_name g p) g (of_priority p) in
        let first = open_queue-ok (queue_name g p) g (of_priority p) queues (opens.own p) in
        subst (λ o. Has (queue_name g p) o.1)
          (sym (then_ok act (open_priorities bull g ps) queues first.0))
          (open_priorities-Has g ps (queue_name g p) (act queues).1 first.1)

    pub open_priorities-rest :
        (p : Priority) (ps : List Priority) (queues : Dict ManagedQueue)
        → (open_priorities bull g (p ∷ ps) queues)
          ≡ open_priorities bull g ps (open_queue bull (queue_name g p) g (of_priority p) queues).1
    unfolding open_priorities
    open_priorities-rest p ps queues =
        then_ok (open_queue bull (queue_name g p) g (of_priority p)) (open_priorities bull g ps)
          queues (open_queue-ok (queue_name g p) g (of_priority p) queues (opens.own p)).0

    all_priorities-Has :
        (p : Priority) (queues : Dict ManagedQueue)
        → Has (queue_name g p) (open_priorities bull g (high ∷ normal ∷ low ∷ []) queues).1
    all_priorities-Has high queues = open_priorities-Has_first high (normal ∷ low ∷ []) queues
    all_priorities-Has normal queues =
        rw (open_priorities-rest high (normal ∷ low ∷ []) queues)
          (open_priorities-Has_first normal (low ∷ []) _)
    all_priorities-Has low queues =
        rw (open_priorities-rest high (normal ∷ low ∷ []) queues)
          (rw (open_priorities-rest normal (low ∷ []) _) (open_priorities-Has_first low [] _))

    pub ensure_special_queues-ok :
        (queues : Dict ManagedQueue)
        → ((ensure_special_queues bull queues).0 ≡ ok tt)
          × Has scheduled_name (ensure_special_queues bull queues).1
    unfolding ensure_special_queues
    ensure_special_queues-ok queues =
        let tag = special_tag dlq_name in
        let dead = open_queue-ok dlq_name (codes "*") tag queues opens.dlq in
        let later =
          open_queue-ok scheduled_name (codes "*") (special_tag scheduled_name)
            (open_queue bull dlq_name (codes "*") tag queues).1 opens.scheduled in
        rw dead.0 later

    -- If BullMQ opens its queues, registering a gateway succeeds, and leaves it with a queue for
    -- each priority and the queue of delayed payments.
    pub register_gateway-ok :
        (now : ℕ) (limit : Option (ℕ × ℕ)) (m : QueueManager)
        → let (r, m') = register_gateway bull now g limit m in
          (r ≡ ok tt)
          × ((p : Priority) → Has (queue_name g p) m'.queues)
          × Has scheduled_name m'.queues
    unfolding register_gateway
    register_gateway-ok now limit m =
        let ps = high ∷ normal ∷ low ∷ [] in
        let opened = open_priorities bull g ps m.queues in
        let special = ensure_special_queues-ok opened.1 in
        rw (open_priorities-ok ps m.queues) (
          special.0,
          λ p. ensure_special_queues-Has (queue_name g p) opened.1 (all_priorities-Has p m.queues),
          special.1,
        )

-- What a payment is added as: with a positive delay to the queue of delayed payments, else to the
-- queue of its gateway and priority, with one attempt more than its retries.
unfoldable pub placed : Payment → Option ℤ → Added
placed payment (some (pos (suc d))) = record {
  queue = scheduled_name;
  name = codes "scheduled-payment";
  payment = payment;
  opts = scheduled_options payment (suc d);
}
placed payment _ = record {
  queue = queue_name payment.gateway_id payment.priority;
  name = codes "process-payment";
  payment = payment;
  opts = job_options payment;
}
