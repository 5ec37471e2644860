-- ===== src/Dashboard/Heartbeat.antt =====
-- The heartbeat over any order of connections, ticks and events.
use payment_queue_system_bul.Prelude.{
  ℕ, ◌+◌, ◌-◌, ◌≤◌, ◌≡◌, refl, [], ◌∷◌, none, some, arith, leb-cases, inl, inr,
}
use payment_queue_system_bul.Processor.{
  Event, payment_started, payment_status_changed, payment_notify, payment_dead_letter,
  circuit_breaker_state_change,
}
use payment_queue_system_bul.Metrics.Payload.{DashboardPayload}
use payment_queue_system_bul.Dashboard.{
  DashboardGateway, new, handle_connection, handle_disconnect, tick, on_event,
}

-- A client comes, a client goes, the payload of a tick is ready (its timer may be stopped by
-- then), or the service emits an event.
pub data Step (d : DashboardGateway) : DashboardGateway → Type 0 where
  connects : Step d (handle_connection (record d { clients = d.clients + 1 }))
  disconnects : 1 ≤ d.clients → Step d (handle_disconnect (record d { clients = d.clients - 1 }))
  ticks : (payload : DashboardPayload) → Step d (tick payload d)
  hears : (e : Event) → Step d (on_event e d)

pub data Reach (d : DashboardGateway) : DashboardGateway → Type 0 where
  here : Reach d d
  next : {s t : DashboardGateway} → Reach d s → Step s t → Reach d t

-- No timer runs and nobody is connected, or one runs, the one that the gateway knows, for one
-- client or more.
pub data IsBeating (d : DashboardGateway) : Type 0 where
  quiet : d.clients ≡ 0 → d.heartbeat ≡ none → d.timers ≡ [] → IsBeating d
  beating : (t : ℕ) → 1 ≤ d.clients → d.heartbeat ≡ some t → d.timers ≡ t ∷ [] → IsBeating d

on_event-IsBeating : (e : Event) {d : DashboardGateway} → IsBeating d → IsBeating (on_event e d)
unfolding on_event
on_event-IsBeating (payment_started job g) b = b
on_event-IsBeating (payment_status_changed id s r c) (quiet p h ts) = quiet p h ts
on_event-IsBeating (payment_status_changed id s r c) (beating t p h ts) = beating t p h ts
on_event-IsBeating (payment_notify id) b = b
on_event-IsBeating (payment_dead_letter id r) (quiet p h ts) = quiet p h ts
on_event-IsBeating (payment_dead_letter id r) (beating t p h ts) = beating t p h ts
on_event-IsBeating (circuit_breaker_state_change g from to) (quiet p h ts) = quiet p h ts
on_event-IsBeating (circuit_breaker_state_change g from to) (beating t p h ts) = beating t p h ts

Step-IsBeating : {s t : DashboardGateway} → Step s t → IsBeating s → IsBeating t
unfolding handle_connection handle_disconnect tick
Step-IsBeating {s} connects (quiet c h ts) =
    beating s.next_timer (ground arith) (ground arith) (ground arith)
Step-IsBeating connects (beating t c h ts) = beating t (ground arith) (ground arith) (ground arith)
Step-IsBeating (disconnects p) (quiet c h ts) = absurd (omega arith)
Step-IsBeating {s} (disconnects p) (beating t c h ts) = elim (leb-cases s.clients 1) [
  | inl last ↦ quiet (ground arith) (ground arith) (ground arith)
  | inr more ↦ beating t (ground (arith, more)) (ground (arith, more)) (ground (arith, more))
]
Step-IsBeating (ticks payload) (quiet c h ts) = quiet c h ts
Step-IsBeating (ticks payload) (beating t c h ts) = beating t c h ts
Step-IsBeating (hears e) b = on_event-IsBeating e b

-- However clients come and go, ticks fire and events are heard: the heartbeat runs exactly while
-- at least one client is connected, there is never a second timer, and the one that runs is the
-- one that the gateway will stop.
pub Reach-IsBeating : {d : DashboardGateway} → Reach new d → IsBeating d
Reach-IsBeating here = quiet refl refl refl
Reach-IsBeating (next r st) = Step-IsBeating st (Reach-IsBeating r)
