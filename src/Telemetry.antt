-- ===== src/Telemetry.antt =====
-- src/state.rs: the connection's state, its counters and the statistics. An atomic counter of type
-- u64 is a number below 2 ^ 64; a point in time and a duration are numbers
-- of nanoseconds.
use satel_integra.Common.{
  ℕ, ◌+◌, ◌-◌, ◌*◌, ◌%◌, ◌^◌, Bool, true, false, not, ◌||◌, Option, none, some, ◌==◌, leb,
  if◌then◌else◌, min,
}

pub data ConnectionState : Type 0 where
  connected disconnected connection_lost connecting handshake : ConnectionState

abbrev pub is_connected : ConnectionState → Bool
is_connected ConnectionState.connected = true
is_connected ConnectionState.disconnected = false
is_connected ConnectionState.connection_lost = false
is_connected ConnectionState.connecting = false
is_connected ConnectionState.handshake = false

pub record ConnectionStatus : Type 0 where
  pub state : ConnectionState
  pub failed_attempts : ℕ
  pub last_event_at : ℕ

pub record StatsMark : Type 0 where
  pub non_ping_frames : ℕ
  pub connections_established : ℕ
  pub reconnect_attempts : ℕ
  pub connections_lost : ℕ
  pub timeouts : ℕ
  pub crc_errors : ℕ
  pub rejected_by_panel : ℕ
  pub io_errors : ℕ

abbrev no_stats : StatsMark
no_stats = record {
  non_ping_frames = 0;
  connections_established = 0;
  reconnect_attempts = 0;
  connections_lost = 0;
  timeouts = 0;
  crc_errors = 0;
  rejected_by_panel = 0;
  io_errors = 0;
}

pub record ConnectionTelemetry : Type 0 where
  pub status : ConnectionStatus
  pub last_connected_at : Option ℕ
  pub last_send_at : ℕ
  pub bytes_sent : ℕ
  pub bytes_received : ℕ
  pub connections_established : ℕ
  pub reconnect_attempts : ℕ
  pub connections_lost : ℕ
  pub timeouts : ℕ
  pub crc_errors : ℕ
  pub rejected_by_panel : ℕ
  pub io_errors : ℕ
  pub non_ping_frames : ℕ
  pub connected_since : Option ℕ
  pub total_connected_before : ℕ
  pub last_sent_stats_mark : StatsMark

-- `ConnectionTelemetry::default`
abbrev pub new_telemetry : ℕ → ConnectionTelemetry
new_telemetry now = record {
  status = record {
    state = ConnectionState.disconnected;
    failed_attempts = 0;
    last_event_at = now;
  };
  last_connected_at = none;
  last_send_at = now;
  bytes_sent = 0;
  bytes_received = 0;
  connections_established = 0;
  reconnect_attempts = 0;
  connections_lost = 0;
  timeouts = 0;
  crc_errors = 0;
  rejected_by_panel = 0;
  io_errors = 0;
  non_ping_frames = 0;
  connected_since = none;
  total_connected_before = 0;
  last_sent_stats_mark = no_stats;
}

-- `fetch_add(1)` on an `AtomicU64`, which wraps.
abbrev pub increment : ℕ → ℕ
increment n = (n + 1) % 2 ^ 64

-- `Duration::saturating_add`: the greatest duration is 2 ^ 64 seconds less a nanosecond.
abbrev pub max_duration : ℕ
max_duration = 2 ^ 64 * 1_000_000_000 - 1

abbrev pub saturating_add : ℕ → ℕ → ℕ
saturating_add a b = min (a + b) max_duration

unfoldable pub statistics_changed : StatsMark → StatsMark → Bool
statistics_changed prev now =
    leb 5 (now.non_ping_frames - prev.non_ping_frames)
    || (not (prev.connections_established == now.connections_established)
        || (not (prev.reconnect_attempts == now.reconnect_attempts)
            || (not (prev.connections_lost == now.connections_lost)
                || (not (prev.timeouts == now.timeouts)
                    || (not (prev.crc_errors == now.crc_errors)
                        || (not (prev.rejected_by_panel == now.rejected_by_panel)
                            || not (prev.io_errors == now.io_errors)))))))

unfoldable pub stats_mark : ConnectionTelemetry → StatsMark
stats_mark t = record {
  non_ping_frames = t.non_ping_frames;
  connections_established = t.connections_established;
  reconnect_attempts = t.reconnect_attempts;
  connections_lost = t.connections_lost;
  timeouts = t.timeouts;
  crc_errors = t.crc_errors;
  rejected_by_panel = t.rejected_by_panel;
  io_errors = t.io_errors;
}

unfoldable pub reset : ℕ → ConnectionTelemetry → ConnectionTelemetry
reset now t = record t {
  bytes_sent = 0;
  bytes_received = 0;
  connections_established = 0;
  reconnect_attempts = 0;
  connections_lost = 0;
  timeouts = 0;
  crc_errors = 0;
  rejected_by_panel = 0;
  io_errors = 0;
  non_ping_frames = 0;
  total_connected_before = 0;
  last_sent_stats_mark = no_stats;
  connected_since = if is_connected t.status.state then some now else none;
}

pub record ConnectionStatistics : Type 0 where
  pub state : ConnectionState
  pub bytes_sent : ℕ
  pub bytes_received : ℕ
  pub connections_established : ℕ
  pub reconnect_attempts : ℕ
  pub connections_lost : ℕ
  pub timeouts : ℕ
  pub crc_errors : ℕ
  pub rejected_by_panel : ℕ
  pub io_errors : ℕ
  pub connected_since : Option ℕ
  pub total_connected : ℕ
  pub taken_at : ℕ

-- `(now - since).to_std().unwrap_or(ZERO)`: nothing if the clock was set back.
abbrev pub session_length : ℕ → Option ℕ → ℕ
session_length now none = 0
session_length now (some since) = now - since

unfoldable pub statistics : ℕ → ConnectionTelemetry → ConnectionStatistics
statistics now t = record {
  state = t.status.state;
  bytes_sent = t.bytes_sent;
  bytes_received = t.bytes_received;
  connections_established = t.connections_established;
  reconnect_attempts = t.reconnect_attempts;
  connections_lost = t.connections_lost;
  timeouts = t.timeouts;
  crc_errors = t.crc_errors;
  rejected_by_panel = t.rejected_by_panel;
  io_errors = t.io_errors;
  connected_since = if is_connected t.status.state then t.connected_since else none;
  total_connected =
      saturating_add t.total_connected_before
        (if is_connected t.status.state then session_length now t.connected_since else 0);
  taken_at = now;
}
