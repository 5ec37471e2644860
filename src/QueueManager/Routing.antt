-- ===== src/QueueManager/Routing.antt =====
-- Which workers each queue has, by the calls that were made.
use payment_queue_system_bul.Prelude.{
  All, ℕ, ◌≡◌, ◌≢◌, refl, ap, ◌∙◌, inl, inr, Bool, true, false, ◌&&◌, List, [], ◌∷◌, ◌++◌, Option,
  none, some, Text, codes, text_eq, text_eq_iff, text_eq_sound, Bool-cases, lookup-insert_self,
  arith, Dict, lookup, lookup-insert, if◌then◌else◌,
}
use payment_queue_system_bul.Effects.{Outcome, ok, throw, Outcome-cases}
use payment_queue_system_bul.Types.{Priority, high, normal, low}
use payment_queue_system_bul.QueueManager.{
  Bull, empty_queue, QueueManager, ManagedQueue, QueueTag, of_priority, new, queue_name,
  scheduled_name, dlq_name, open_queue, open_priorities, ensure_special_queues, register_gateway,
  special_tag, attach_worker, attach_found,
}
use payment_queue_system_bul.QueueManager.Calls.{
  Call, registers, attaches, enqueues, shuts_down, shutdown-queues, step, run, enqueue-queues,
}
use payment_queue_system_bul.QueueManager.Registered.{
  attach_found-lookup, Opens, open_queue-ok, open_priorities-rest, open_priorities-ok,
}
use payment_queue_system_bul.QueueManager.Names.{
  same_priority, same_priority_sound, text_eq-queue_name, queue_name-scheduled, queue_name-dlq,
}

-- The workers of one gateway and priority by the calls alone, and none before the gateway is
-- registered.
abbrev or_empty : Option (List ℕ) → List ℕ
or_empty none = []
or_empty (some ws) = ws

abbrev with_worker : ℕ → Option (List ℕ) → Option (List ℕ)
with_worker c none = none
with_worker c (some ws) = some (ws ++ c ∷ [])

abbrev starts : Outcome (Unit {0}) → Bool
starts (ok _) = true
starts (throw err) = false

module _ (bull : Bull) where
  abbrev pub serves : Text → Priority → Call → Option (List ℕ) → Option (List ℕ)
  serves g p (registers now h limit) o = if text_eq h g then some (or_empty o) else o
  serves g p (attaches h q c) o =
      if text_eq h g && same_priority q p
      then (if starts (bull.new_worker (queue_name g p) c) then with_worker c o else o)
      else o
  serves g p (enqueues payment delay) o = o
  serves g p (shuts_down ms) o = o

  abbrev pub served : Text → Priority → List Call → Option (List ℕ) → Option (List ℕ)
  served g p [] o = o
  served g p (c ∷ cs) o = served g p cs (serves g p c o)

  -- BullMQ opens the queues of every gateway that is registered.
  abbrev pub IsOpened : Call → Type 0
  IsOpened (registers now g limit) = Opens bull g
  IsOpened _ = Unit

abbrev pub managed : Text → Priority → Option (List ℕ) → Option ManagedQueue
managed g p none = none
managed g p (some ws) = some (record { workers = ws; gateway_id = g; priority = of_priority p })

abbrev or_new : Text → QueueTag → Option ManagedQueue → Option ManagedQueue
or_new g tag none = some (record { workers = []; gateway_id = g; priority = tag })
or_new g tag (some found) = some found

lookup-open_queue :
    (bull : Bull) (name j g : Text) (tag : QueueTag) (queues : Dict ManagedQueue)
    → bull.new_queue name ≡ ok tt
    → lookup j (open_queue bull name g tag queues).1
      ≡ (if text_eq name j then or_new g tag (lookup j queues) else lookup j queues)
unfolding open_queue
lookup-open_queue bull name j g tag queues opens =
    ground (arith, opens, lookup-insert name j (empty_queue g tag) queues, text_eq_iff name j)

abbrev opened : Bool → Priority → Priority → Option (List ℕ) → Option (List ℕ)
opened b p q o = if b && same_priority q p then some (or_empty o) else o

once :
    (p : Priority) (b : Bool) (o : Option (List ℕ))
    → opened b p low (opened b p normal (opened b p high o)) ≡ (if b then some (or_empty o) else o)
once high true o = refl
once normal true o = refl
once low true o = refl
once high false o = refl
once normal false o = refl
once low false o = refl

or_new-managed :
    (g : Text) (p : Priority) (o : Option (List ℕ))
    → or_new g (of_priority p) (managed g p o) ≡ managed g p (some (or_empty o))
or_new-managed g p none = refl
or_new-managed g p (some ws) = refl

module _ (bull : Bull) (g : Text) (p : Priority) where
  abbrev own : Dict ManagedQueue → Option ManagedQueue
  own queues = lookup (queue_name g p) queues

  own-special :
      (h : Text) (queues : Dict ManagedQueue)
      → Opens bull h
      → own (ensure_special_queues bull queues).1 ≡ own queues
  unfolding ensure_special_queues
  own-special h queues opens =
      let j = queue_name g p in
      let dead = open_queue bull dlq_name (codes "*") (special_tag dlq_name) queues in
      let dead_ok =
        open_queue-ok bull dlq_name (codes "*") (special_tag dlq_name) queues opens.dlq in
      rw dead_ok.0 (
        ground (
          arith,
          lookup-open_queue bull scheduled_name j (codes "*") (special_tag scheduled_name) dead.1
              opens.scheduled,
          lookup-open_queue bull dlq_name j (codes "*") (special_tag dlq_name) queues opens.dlq,
          text_eq_iff scheduled_name j,
          text_eq_iff dlq_name j,
          queue_name-scheduled g p,
          queue_name-dlq g p,
        ))

  own-open :
      (h : Text) (q : Priority) (queues : Dict ManagedQueue) (o : Option (List ℕ))
      → Opens bull h
      → own queues ≡ managed g p o
      → own (open_queue bull (queue_name h q) h (of_priority q) queues).1
        ≡ managed g p (opened (text_eq h g) p q o)
  own-open h q queues o opens e =
      let found_by =
        lookup-open_queue bull (queue_name h q) (queue_name g p) h (of_priority q) queues
          (opens.own q) in
      elim (Bool-cases (text_eq h g && same_priority q p)) [
        | inr other ↦ ground (arith, other, e, text_eq-queue_name h g q p, found_by)
        | inl same ↦
            let at_g = text_eq_sound h g (ground (arith, same)) in
            let at_p = same_priority_sound q p (ground (arith, same)) in
            let found : text_eq (queue_name h q) (queue_name g p) ≡ true =
              text_eq-queue_name h g q p ∙ same in
            found_by ∙ rw (found, same, at_g, at_p, e) (or_new-managed g p o)
      ]

  own-priorities :
      (h : Text) (queues : Dict ManagedQueue) (o : Option (List ℕ))
      → Opens bull h
      → own queues ≡ managed g p o
      → own (open_priorities bull h (high ∷ normal ∷ low ∷ []) queues).1
        ≡ managed g p (if text_eq h g then some (or_empty o) else o)
  unfolding open_priorities
  own-priorities h queues o opens e =
      let after = λ (q : Priority) (qs : Dict ManagedQueue).
        (open_queue bull (queue_name h q) h (of_priority q) qs).1 in
      rw (open_priorities-rest bull h opens high (normal ∷ low ∷ []) queues) (
        rw (open_priorities-rest bull h opens normal (low ∷ []) (after high queues)) (
          rw (open_priorities-rest bull h opens low [] (after normal (after high queues))) (
            own-open h low _ _ opens
              (own-open h normal _ _ opens (own-open h high queues o opens e))
            ∙ ap (managed g p) (once p (text_eq h g) o))))

  own-register :
      (now : ℕ) (h : Text) (limit : Option (ℕ × ℕ)) (m : QueueManager) (o : Option (List ℕ))
      → Opens bull h
      → own m.queues ≡ managed g p o
      → own (register_gateway bull now h limit m).1.queues
        ≡ managed g p (if text_eq h g then some (or_empty o) else o)
  unfolding register_gateway
  own-register now h limit m o opens e =
      let ps = high ∷ normal ∷ low ∷ [] in
      rw (open_priorities-ok bull h opens ps m.queues) (
        own-special h (open_priorities bull h ps m.queues).1 opens
        ∙ own-priorities h m.queues o opens e)

  attach-managed :
      (c : ℕ) (o : Option (List ℕ)) (m : QueueManager)
      → own m.queues ≡ managed g p o
      → own (attach_found bull (queue_name g p) c (managed g p o) m).1.queues
        ≡ managed g p (if starts (bull.new_worker (queue_name g p) c) then with_worker c o else o)
  unfolding attach_found
  attach-managed c none m e = elim (Outcome-cases (bull.new_worker (queue_name g p) c)) [
    | inl (_, w) ↦ rw w e
    | inr (err, w) ↦ rw w e
  ]
  attach-managed c (some ws) m e = elim (Outcome-cases (bull.new_worker (queue_name g p) c)) [
    | inl (_, w) ↦ rw (w, attach_found) (lookup-insert_self (queue_name g p) _ m.queues)
    | inr (err, w) ↦ rw (w, attach_found) e
  ]

  own-attach :
      (h : Text) (q : Priority) (c : ℕ) (m : QueueManager) (o : Option (List ℕ))
      → own m.queues ≡ managed g p o
      → own (attach_worker bull h q c m).1.queues ≡ managed g p (serves bull g p (attaches h q c) o)
  unfolding attach_worker
  own-attach h q c m o e = elim (Bool-cases (text_eq h g && same_priority q p)) [
    | inr other ↦
        let apart : queue_name h q ≢ queue_name g p = λ same. ground (
          arith,
          other,
          same,
          text_eq-queue_name h g q p,
          text_eq_iff (queue_name h q) (queue_name g p),
        ) in
        attach_found-lookup bull (queue_name h q) (queue_name g p) c _ m apart ∙ rw other e
    | inl same ↦
        let at_g = text_eq_sound h g (ground (arith, same)) in
        let at_p = same_priority_sound q p (ground (arith, same)) in
        rw (same, at_g, at_p, e) (attach-managed c o m e)
  ]

  own-step :
      (c : Call) (m : QueueManager) (o : Option (List ℕ))
      → IsOpened bull c
      → own m.queues ≡ managed g p o
      → own (step bull c m).queues ≡ managed g p (serves bull g p c o)
  unfolding step
  own-step (registers now h limit) m o opens e = own-register now h limit m o opens e
  own-step (attaches h q c) m o opens e = own-attach h q c m o e
  own-step (enqueues payment delay) m o opens e = rw (enqueue-queues bull payment delay m) e
  own-step (shuts_down ms) m o opens e = rw (shutdown-queues ms m) e

  own-run :
      (cs : List Call) (m : QueueManager) (o : Option (List ℕ))
      → All (IsOpened bull) cs
      → own m.queues ≡ managed g p o
      → own (run bull cs m).queues ≡ managed g p (served bull g p cs o)
  unfolding run
  own-run [] m o opens e = e
  own-run (c ∷ cs) m o opens e =
      own-run cs (step bull c m) (serves bull g p c o) opens.1 (own-step c m o opens.0 e)

-- Whatever calls the queue manager is given, if BullMQ opens the queues of the gateways that are
-- registered: the queue under the name of a gateway and a priority is there just if the gateway has
-- been registered; it carries that gateway and that priority; and its workers are those that were
-- attached for just this gateway and this priority once the gateway was registered, and that BullMQ
-- started, in that order: registering it again drops none, and a worker attached for another gateway
-- or another priority, or too early, is not among them.
pub lookup-run :
    (bull : Bull) (g : Text) (p : Priority) (cs : List Call)
    → All (IsOpened bull) cs
    → lookup (queue_name g p) (run bull cs new).queues ≡ managed g p (served bull g p cs none)
unfolding lookup
lookup-run bull g p cs opens = own-run bull g p cs new none opens refl
