-- ===== src/Dashboard.antt =====
-- src/monitoring/dashboard.gateway.ts. A timer that `setInterval` returns has a number; `timers`
-- are those that still run. `clients` is the size of `server.sockets`: socket.io puts a socket
-- into that map before `handleConnection`, and takes it out before `handleDisconnect`. Messages
-- that go to all clients are logged.
pub mod Heartbeat
use payment_queue_system_bul.Prelude.{
  ℕ, ◌+◌, ◌-◌, List, [], ◌∷◌, ◌++◌, Option, none, some, Bool, true, false, not, ◌==◌, Text,
  if◌then◌else◌,
}
use payment_queue_system_bul.Processor.{
  Event, payment_started, payment_status_changed, payment_notify, payment_dead_letter,
  circuit_breaker_state_change,
}
use payment_queue_system_bul.Metrics.Payload.{DashboardPayload}

pub data Message : Type 0 where
  metrics_tick : DashboardPayload → Message
  status_changed : Event → Message
  alert_circuit_breaker : Event → Message
  alert_dead_letter : Event → Message

pub record DashboardGateway : Type 0 where
  pub clients : ℕ
  pub heartbeat : Option ℕ
  pub timers : List ℕ
  pub next_timer : ℕ
  pub emitted : List Message

abbrev pub new : DashboardGateway
new = record { clients = 0; heartbeat = none; timers = []; next_timer = 0; emitted = [] }

unfoldable pub send : Message → DashboardGateway → DashboardGateway
send message d = record d { emitted = d.emitted ++ message ∷ [] }

-- `setInterval`
unfoldable pub start_heartbeat : DashboardGateway → DashboardGateway
start_heartbeat d = record d {
  heartbeat = some d.next_timer;
  timers = d.timers ++ d.next_timer ∷ [];
  next_timer = d.next_timer + 1;
}

unfoldable pub handle_connection : DashboardGateway → DashboardGateway
unfolding start_heartbeat
handle_connection d = elim d.heartbeat [ none ↦ start_heartbeat d | some t ↦ d ]

-- `clearInterval`
unfoldable pub clear_interval : ℕ → List ℕ → List ℕ
clear_interval t [] = []
clear_interval t (u ∷ us) = if u == t then clear_interval t us else u ∷ clear_interval t us

unfoldable pub handle_disconnect : DashboardGateway → DashboardGateway
unfolding clear_interval
handle_disconnect d = elim d.heartbeat [
  | none ↦ d
  | some t ↦
      if d.clients == 0
      then record d { heartbeat = none; timers = clear_interval t d.timers }
      else d
]

-- What a tick of a running timer sends.
unfoldable pub tick : DashboardPayload → DashboardGateway → DashboardGateway
unfolding send
tick payload d = send (metrics_tick payload) d

-- The three `@OnEvent` handlers; other events are not listened to.
unfoldable pub on_event : Event → DashboardGateway → DashboardGateway
unfolding send
on_event (payment_started job g) d = d
on_event (payment_status_changed id s r c) d =
    send (status_changed (payment_status_changed id s r c)) d
on_event (payment_notify id) d = d
on_event (payment_dead_letter id r) d = send (alert_dead_letter (payment_dead_letter id r)) d
on_event (circuit_breaker_state_change g from to) d =
    send (alert_circuit_breaker (circuit_breaker_state_change g from to)) d
