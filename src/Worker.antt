-- ===== src/Worker.antt =====
-- src/worker.rs: the actor that owns the connection. A method takes the worker and returns it with
-- its result. The outside world is an argument: what a write and each read of the stream came to,
-- and one reading of the clock for each handled message. The messages to the state worker and the
-- frames written to the stream are lists that grow at the end.
pub mod Exchange
pub mod Connect
pub mod Loop
pub mod Steps
pub mod Sessions
pub mod Consistency
pub mod Ticks
pub mod Preservation
pub mod Reachable
pub mod Connecting
pub mod Accounting
pub mod Answers
pub mod Failures
pub mod Pings
pub mod Announcements
pub mod Backoff
pub mod PushMask
pub mod PushBits
pub mod PushCategories
mod Runs
use satel_integra.Common.{
  ℕ, ◌+◌, ◌-◌, ◌%◌, ◌^◌, Bool, true, false, Option, none, some, List, [], ◌∷◌, ◌++◌,
}
use satel_integra.Error.{Result, ok, err}
use satel_integra.Config.{Config, ConnectionConfig}
use satel_integra.Telemetry.{
  ConnectionState, ConnectionStatus, ConnectionTelemetry, increment, saturating_add, is_connected,
  session_length,
}
use satel_integra.Parsers.Versions.{IntegraVersion, EthmVersion, AutoReadReport}

pub data StateWorkerMessage : Type 0 where
  frame : List ℕ → StateWorkerMessage
  status_changed : ConnectionState → StateWorkerMessage
  integra_version : IntegraVersion → StateWorkerMessage
  ethm_version : EthmVersion → StateWorkerMessage
  auto_read_report : AutoReadReport → StateWorkerMessage

-- `stream` says whether there is one; `connection_type` is the configured line, set on connecting.
pub record Worker : Type 0 where
  pub telemetry : ConnectionTelemetry
  pub connection_type : Option ConnectionConfig
  pub stream : Bool
  pub auto_read_dirty : Bool
  pub consecutive_missed_pings : ℕ
  pub notified : List StateWorkerMessage
  pub written : List (List ℕ)

unfoldable pub notify_state_worker : StateWorkerMessage → Worker → Worker
notify_state_worker message w = record w { notified = w.notified ++ (message ∷ []) }

unfoldable pub reset_missed_pings : Worker → Worker
reset_missed_pings w = record w { consecutive_missed_pings = 0 }

-- The state and the time of its change, then the message about it.
unfoldable set_state : ConnectionState → ℕ → Worker → Worker
unfolding notify_state_worker
set_state state now w =
    let t = w.telemetry in
    notify_state_worker (StateWorkerMessage.status_changed state) (record w {
      telemetry = record t { status = record (t.status) { state = state; last_event_at = now } };
    })

unfoldable pub set_state_connecting : ℕ → Worker → Worker
unfolding set_state
set_state_connecting = set_state ConnectionState.connecting

unfoldable pub set_state_handshake : ℕ → Worker → Worker
unfolding set_state
set_state_handshake = set_state ConnectionState.handshake

unfoldable pub set_state_connected : Config → ℕ → Worker → Worker
unfolding notify_state_worker reset_missed_pings
set_state_connected config now w =
    let t = w.telemetry in
    notify_state_worker (StateWorkerMessage.status_changed ConnectionState.connected)
      (record (reset_missed_pings w) {
        telemetry = record t {
          connections_established = increment t.connections_established;
          connected_since = some now;
          status = record {
            state = ConnectionState.connected;
            failed_attempts = 0;
            last_event_at = now;
          };
          last_connected_at = some now;
        };
        connection_type = some config.connection;
      })

-- `connected_since.take()` and the session's length added to the total.
unfoldable close_session : ℕ → ConnectionTelemetry → ConnectionTelemetry
close_session now t = elim t.connected_since [
  | none ↦ t
  | some since ↦ record t {
    connected_since = none;
    total_connected_before = saturating_add t.total_connected_before (now - since);
  }
]

-- `satel_connection_worker_connection_lost`
unfoldable pub connection_lost : ℕ → Worker → Worker
unfolding notify_state_worker reset_missed_pings close_session
connection_lost now w =
    let t : ConnectionTelemetry = elim (is_connected w.telemetry.status.state) [
      | true ↦
          close_session now
            (record (w.telemetry) { connections_lost = increment w.telemetry.connections_lost })
      | false ↦ w.telemetry
    ] in
    notify_state_worker (StateWorkerMessage.status_changed ConnectionState.connection_lost)
      (record (reset_missed_pings w) {
        stream = false;
        telemetry = record t {
          status = record {
            state = ConnectionState.connection_lost;
            failed_attempts = (t.status.failed_attempts + 1) % 2 ^ 32;
            last_event_at = now;
          };
        };
      })

-- `satel_connection_worker_disconnect`
unfoldable pub disconnect : ℕ → Worker → Worker
unfolding notify_state_worker reset_missed_pings close_session
disconnect now w =
    let t = close_session now w.telemetry in
    notify_state_worker (StateWorkerMessage.status_changed ConnectionState.disconnected)
      (record (reset_missed_pings w) {
        stream = false;
        telemetry = record t {
          status = record {
            state = ConnectionState.disconnected;
            failed_attempts = 0;
            last_event_at = now;
          };
        };
      })
