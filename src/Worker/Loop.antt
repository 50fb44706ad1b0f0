-- ===== src/Worker/Loop.antt =====
-- src/worker.rs: the messages, the push frames and the clock ticks that `run_loop` selects from.
use satel_integra.Common.{
  ◌*◌, ℕ, ◌+◌, ◌-◌, ◌^◌, Bool, true, false, not, ◌&&◌, Option, none, some, List, [], ◌∷◌, ◌==◌, ltb,
  leb, min, if◌then◌else◌,
}
use satel_integra.Error.{SatelError, Result, ok, err}
use satel_integra.Config.{Config}
use satel_integra.Telemetry.{ConnectionState, is_connected, increment}
use satel_integra.Worker.{
  Worker, StateWorkerMessage, notify_state_worker, reset_missed_pings, connection_lost, disconnect,
}
use satel_integra.Worker.Exchange.{
  ExchangeIo, Read, received, read_error, closed, elapsed, says_accepted, exchange, count_frame,
}
use satel_integra.Worker.Connect.{ConnectIo, connect, send_push_mask}
use satel_integra.Worker.Backoff.{calculate_backoff}

abbrev milliseconds : ℕ → ℕ
milliseconds n = n * 1_000_000

-- The messages of the client; each is answered with a result. With a standard exchange come
-- `created_at` and `max_queue_time`.
pub data InternalMessage : Type 0 where
  exchange_standard : List ℕ → ℕ → ℕ → InternalMessage
  exchange_priority : List ℕ → InternalMessage
  connect_request disconnect_request : InternalMessage

-- What is sent back through `response_tx`.
pub data Response : Type 0 where
  frame_response : Result (List ℕ) → Response
  done_response : Result (Unit {0}) → Response

abbrev pub first_byte : List ℕ → ℕ
first_byte [] = 0
first_byte (b ∷ bs) = b

unfoldable pub with_frame : Worker × Result (List ℕ) → Worker × Response
with_frame (w, r) = (w, frame_response r)

unfoldable pub with_done : Worker × Result (Unit {0}) → Worker × Response
with_done (w, r) = (w, done_response r)

abbrev pub refuse_frame : SatelError → Worker → Worker × Response
refuse_frame e w = (w, frame_response (err e))

-- `handle_message_internal`
unfoldable pub handle_message :
    Config → ℕ → ExchangeIo → ConnectIo → InternalMessage → Worker → Worker × Response
unfolding with_frame with_done
handle_message config now io conn (exchange_standard payload created_at max_queue_time) w =
    let sent = with_frame (exchange now payload (first_byte payload) io false w) in
    if not (is_connected w.telemetry.status.state)
    then refuse_frame SatelError.not_connected w
    else if ltb max_queue_time (now - created_at)
    then refuse_frame SatelError.message_expired w
    else sent
handle_message config now io conn (exchange_priority payload) w =
    let sent = with_frame (exchange now payload (first_byte payload) io false w) in
    elim w.telemetry.status.state [
      | ConnectionState.disconnected ↦ refuse_frame SatelError.not_connected w
      | ConnectionState.connection_lost ↦ refuse_frame SatelError.not_connected w
      | _ ↦ sent
    ]
handle_message config now io conn connect_request w =
    let done = with_done (connect config now conn w) in
    elim w.telemetry.status.state [
      | ConnectionState.disconnected ↦ done
      | ConnectionState.connection_lost ↦ done
      | _ ↦ (w, done_response (err SatelError.already_connected))
    ]
handle_message config now io conn disconnect_request w =
    let done : Worker × Response = (disconnect now w, done_response (ok tt)) in
    elim w.telemetry.status.state [
      | ConnectionState.disconnected ↦ (w, done_response (err SatelError.not_connected))
      | _ ↦ done
    ]

-- The branch of `run_loop` on `receive_push_internal`, with that function: it runs only while
-- connected and with a stream. `none` is the panic of `frame[0]` on an empty frame.
unfoldable pub receive_push : ℕ → Read → Worker → Option Worker
receive_push now (received []) w = none
receive_push now (received (first ∷ rest)) w =
    let counted = count_frame w in
    let told = notify_state_worker (StateWorkerMessage.frame (first ∷ rest)) counted in
    some (reset_missed_pings (if (first == 0xEF) && says_accepted rest then counted else told))
receive_push now read_error w = some (
    connection_lost now (record w {
      telemetry = record (w.telemetry) { io_errors = increment w.telemetry.io_errors };
    }))
receive_push now closed w = some (connection_lost now w)
receive_push now elapsed w = some w

-- What one tick of the clock meets.
pub record TickIo : Type 0 where
  pub support_8_troubles_groups : Bool
  pub push : ExchangeIo
  pub ping : ExchangeIo
  pub connecting : ConnectIo

-- `handle_ping_timeout`: the counter is a saturating u32.
unfoldable pub handle_ping_timeout : Config → Worker → Worker × Bool
handle_ping_timeout config w =
    let missed = min (w.consecutive_missed_pings + 1) (2 ^ 32 - 1) in
    (
      record w { consecutive_missed_pings = missed },
      ltb 0 config.max_missed_pings && leb config.max_missed_pings missed,
    )

-- The watchdog of connecting and handshake: 15 seconds.
unfoldable pub watchdog : ConnectionState → ℕ → ℕ → Worker → Worker
watchdog state since now w =
    let lost = connection_lost now w in
    elim state [
      | ConnectionState.connecting ↦ if ltb (milliseconds 15000) (now - since) then lost else w
      | ConnectionState.handshake ↦ if ltb (milliseconds 15000) (now - since) then lost else w
      | _ ↦ w
    ]

-- A changed configuration is sent to the panel; if that fails it is tried again at the next tick.
unfoldable pub resend_push_mask : Config → Bool → ℕ → TickIo → Worker → Worker
resend_push_mask config was_connected now io w =
    let (w', r) =
      send_push_mask config now io.support_8_troubles_groups io.push
        (record w { auto_read_dirty = false }) in
    let out : Worker = elim r [ ok u ↦ w' | err e ↦ record w' { auto_read_dirty = true } ] in
    if was_connected && w.auto_read_dirty then out else w

unfoldable pub ping_missed : Config → ℕ → Worker → Worker
unfolding handle_ping_timeout
ping_missed config now w =
    let (w', exceeded) = handle_ping_timeout config w in
    let lost = connection_lost now w' in if exceeded then lost else w'

-- Two seconds after the last request a ping is sent.
unfoldable pub keep_alive : Config → Bool → ℕ → TickIo → Worker → Worker
unfolding ping_missed
keep_alive config was_connected now io w =
    let (w', r) = exchange now (0x7E ∷ []) 0x7E io.ping true w in
    let missed = ping_missed config now w' in
    let out : Worker = elim r [
      | ok frame ↦ w'
      | err e ↦ elim e [ SatelError.timeout ↦ missed | _ ↦ w' ]
    ] in
    if was_connected && leb (milliseconds 2000) (now - w.telemetry.last_send_at) then out else w

abbrev pub count_attempt : Worker → Worker
count_attempt w = record w {
  telemetry = record (w.telemetry) {
    reconnect_attempts = increment w.telemetry.reconnect_attempts;
  };
}

unfoldable pub reconnect : Config → ConnectionState → ℕ → ℕ → TickIo → Worker → Worker
reconnect config state since now io w =
    let again = (connect config now io.connecting (count_attempt w)).0 in
    elim state [
      | ConnectionState.connection_lost ↦
          if config.auto_reconnect
            && leb (milliseconds (calculate_backoff w.telemetry.status.failed_attempts))
                (now - since)
          then again
          else w
      | _ ↦ w
    ]

-- The branch of `run_loop` on the clock. The state and the time of its last change are read once,
-- at its beginning.
unfoldable pub tick : Config → ℕ → TickIo → Worker → Worker
unfolding watchdog resend_push_mask keep_alive reconnect
tick config now io w =
    let state = w.telemetry.status.state in
    let since = w.telemetry.status.last_event_at in
    let w₁ = watchdog state since now w in
    let w₂ = resend_push_mask config (is_connected state) now io w₁ in
    let w₃ = keep_alive config (is_connected state) now io w₂ in
    reconnect config state since now io w₃
