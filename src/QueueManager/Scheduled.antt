-- ===== src/QueueManager/Scheduled.antt =====
-- The queue of delayed payments and its workers.
use payment_queue_system_bul.Prelude.{
  ℕ, ◌≡◌, sym, ◌∙◌, inl, inr, List, [], ◌∷◌, Option, some, Text, codes, arith, Dict, lookup,
  lookup-insert, Option-cases,
}
use payment_queue_system_bul.Effects.{Outcome-cases, then-keeps}
use payment_queue_system_bul.Types.{Priority, high, normal, low}
use payment_queue_system_bul.QueueManager.{
  Bull, empty_queue, QueueManager, ManagedQueue, QueueTag, of_priority, new, queue_name,
  scheduled_name, dlq_name, open_queue, open_priorities, ensure_special_queues, register_gateway,
  special_tag, attach_worker,
}
use payment_queue_system_bul.QueueManager.Names.{queue_name-scheduled}
use payment_queue_system_bul.QueueManager.Calls.{
  Call, registers, attaches, enqueues, shuts_down, shutdown-queues, step, run, enqueue-queues,
}
use payment_queue_system_bul.QueueManager.Registered.{
  Has, run-Has, register_gateway-ok, Opens, attach_found-lookup,
}

-- No worker is attached to the queue of delayed payments.
Unworked : Dict ManagedQueue → Type 0
Unworked queues = (q : ManagedQueue) → lookup scheduled_name queues ≡ some q → q.workers ≡ []

module _ (bull : Bull) where
  open_queue-Unworked :
      (name g : Text) (tag : QueueTag) (queues : Dict ManagedQueue)
      → Unworked queues
      → Unworked (open_queue bull name g tag queues).1
  unfolding open_queue Unworked
  open_queue-Unworked name g tag queues u q e = elim (Outcome-cases (bull.new_queue name)) [
    | inl (_, o) ↦
        ground (arith, u q, e, o, lookup-insert name scheduled_name (empty_queue g tag) queues)
    | inr (err, o) ↦ ground (arith, u q, e, o)
  ]

  open_priorities-Unworked :
      (g : Text) (ps : List Priority) (queues : Dict ManagedQueue)
      → Unworked queues
      → Unworked (open_priorities bull g ps queues).1
  unfolding open_priorities
  open_priorities-Unworked g [] queues u = u
  open_priorities-Unworked g (p ∷ ps) queues u =
      then-keeps (open_queue bull (queue_name g p) g (of_priority p)) (open_priorities bull g ps)
        Unworked (open_queue-Unworked (queue_name g p) g (of_priority p))
        (open_priorities-Unworked g ps) queues u

  special-Unworked :
      (queues : Dict ManagedQueue)
      → Unworked queues
      → Unworked (ensure_special_queues bull queues).1
  unfolding ensure_special_queues
  special-Unworked queues u =
      then-keeps (open_queue bull dlq_name (codes "*") (special_tag dlq_name))
        (open_queue bull scheduled_name (codes "*") (special_tag scheduled_name)) Unworked
        (open_queue-Unworked dlq_name (codes "*") (special_tag dlq_name))
        (open_queue-Unworked scheduled_name (codes "*") (special_tag scheduled_name)) queues u

  register_gateway-Unworked :
      (now : ℕ) (g : Text) (limit : Option (ℕ × ℕ)) (m : QueueManager)
      → Unworked m.queues
      → Unworked (register_gateway bull now g limit m).1.queues
  unfolding register_gateway
  register_gateway-Unworked now g limit m u =
      let ps = high ∷ normal ∷ low ∷ [] in
      let opened = open_priorities bull g ps m.queues in
      let kept = open_priorities-Unworked g ps m.queues u in
      elim (Outcome-cases opened.0) [
        | inl (_, e) ↦ rw e (special-Unworked opened.1 kept)
        | inr (err, e) ↦ rw e kept
      ]

  attach_worker-Unworked :
      (g : Text) (p : Priority) (c : ℕ) (m : QueueManager)
      → Unworked m.queues
      → Unworked (attach_worker bull g p c m).1.queues
  unfolding attach_worker Unworked
  attach_worker-Unworked g p c m u q e =
      let apart = queue_name-scheduled g p in
      u q (sym (attach_found-lookup bull (queue_name g p) scheduled_name c _ m apart) ∙ e)

  step-Unworked :
      (c : Call) (m : QueueManager) → Unworked m.queues → Unworked (step bull c m).queues
  unfolding step
  step-Unworked (registers now g limit) m u = register_gateway-Unworked now g limit m u
  step-Unworked (attaches g p c) m u = attach_worker-Unworked g p c m u
  step-Unworked (enqueues payment delay) m u = rw (enqueue-queues bull payment delay m) u
  step-Unworked (shuts_down ms) m u = rw (shutdown-queues ms m) u

  run-Unworked :
      (cs : List Call) (m : QueueManager) → Unworked m.queues → Unworked (run bull cs m).queues
  unfolding run
  run-Unworked [] m u = u
  run-Unworked (c ∷ cs) m u = run-Unworked cs (step bull c m) (step-Unworked c m u)

new-Unworked : Unworked new.queues
unfolding Unworked lookup
new-Unworked q e = cc

-- Once a gateway has been registered, by a call for which BullMQ opens its queues, and whatever calls
-- came before or after it, the queue that delayed payments are added to is there, and no worker is
-- attached to it: no gateway's name leads `attachWorker` to it, so nothing ever takes the payments
-- out.
pub scheduled_unworked :
    (bull : Bull) (before after : List Call) (now : ℕ) (g : Text) (limit : Option (ℕ × ℕ))
    → Opens bull g
    → let registered = (register_gateway bull now g limit (run bull before new)).1 in
      let m = run bull after registered in
      (q : ManagedQueue) × (lookup scheduled_name m.queues ≡ some q) × (q.workers ≡ [])
unfolding Unworked Has
scheduled_unworked bull before after now g limit opens =
    let registered = (register_gateway bull now g limit (run bull before new)).1 in
    let m : QueueManager = run bull after registered in
    let u : Unworked m.queues =
      run-Unworked bull after _ (
        register_gateway-Unworked bull now g limit _ (run-Unworked bull before new new-Unworked)) in
    let h : Has scheduled_name m.queues =
      run-Has bull after scheduled_name _
        (register_gateway-ok bull g opens now limit (run bull before new)).2 in
    elim (Option-cases (lookup scheduled_name m.queues)) [
      | inl miss ↦ ground (arith, h miss)
      | inr (q, hit) ↦ (q, hit, u q hit)
    ]
