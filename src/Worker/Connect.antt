-- ===== src/Worker/Connect.antt =====
-- src/worker.rs, `satel_connection_worker_connect`: transport, handshake, push configuration.
use satel_integra.Common.{ℕ, Bool, true, false, none, some, List, [], ◌∷◌}
use satel_integra.Error.{SatelError, Result, ok, err}
use satel_integra.Config.{Config, tcp, uart, is_auto_read_enabled}
use satel_integra.Parsers.Versions.{
  process_ethm_version, process_integra_version, process_auto_read_response,
}
use satel_integra.Worker.{
  Worker, StateWorkerMessage, notify_state_worker, set_state_connecting, set_state_handshake,
  set_state_connected, connection_lost,
}
use satel_integra.Worker.Exchange.{ExchangeIo, W, exchange, ◌>>=◌, ◌>>◌}
use satel_integra.Worker.PushMask.{build_push_mask}

-- What the transport and the panel do while the worker connects. `open` is the outcome of opening
-- the line within the timeout; `support_8_troubles_groups` is what the shared state holds of the
-- module's version when the push mask is built.
pub record ConnectIo : Type 0 where
  pub opened : Result (Unit {0})
  pub ethm : ExchangeIo
  pub integra : ExchangeIo
  pub support_8_troubles_groups : Bool
  pub push : ExchangeIo

-- `satel_connection_worker_connect_physical`: an encrypted TCP line needs a key.
unfoldable pub connect_physical : Config → Result (Unit {0}) → Result (Unit {0})
connect_physical config (err e) = err e
connect_physical config (ok u) = elim config.connection [
  | tcp host port ↦ elim config.encryption [
    | false ↦ ok tt
    | true ↦ elim config.integration_key [
      | none ↦ err SatelError.invalid_integration_key
      | some key ↦ ok tt
    ]
  ]
  | uart path baud_rate ↦ ok tt
]

-- On an error the connection is lost before the error is returned.
unfoldable pub or_lost : {A : Type 0} → ℕ → W A → W A
or_lost now m w =
    let (w', r) = m w in
    let out : Worker × Result _ = elim r [
      | ok a ↦ (w', ok a)
      | err e ↦ (connection_lost now w', err e)
    ] in
    out

abbrev pub lift : {A : Type 0} → Result A → W A
lift r w = (w, r)

abbrev pub change : (Worker → Worker) → W (Unit {0})
change f w = (f w, ok tt)

-- The two halves of `satel_connection_worker_connect_handshake`. An answer that cannot be parsed
-- is returned as an error by `?`, with the connection left as it is.
unfoldable pub query_module_version : ℕ → ExchangeIo → W (Unit {0})
unfolding or_lost
query_module_version now io = do
  response ← or_lost now (exchange now (0x7C ∷ []) 0x7C io false)
  version ← lift (process_ethm_version now response)
  change (notify_state_worker (StateWorkerMessage.ethm_version version))

unfoldable pub query_panel_version : ℕ → ExchangeIo → W (Unit {0})
unfolding or_lost
query_panel_version now io = do
  response ← or_lost now (exchange now (0x7E ∷ []) 0x7E io false)
  version ← lift (process_integra_version now response)
  change (notify_state_worker (StateWorkerMessage.integra_version version))

-- `satel_connection_worker_connect_handshake`
unfoldable pub connect_handshake : ℕ → ConnectIo → W (Unit {0})
unfolding query_module_version query_panel_version
connect_handshake now io = do query_module_version now io.ethm; query_panel_version now io.integra

unfoldable pub report : Config → Bool → List ℕ → Worker → Worker
report config support response w = elim (process_auto_read_response config support response) [
  | none ↦ w
  | some r ↦ notify_state_worker (StateWorkerMessage.auto_read_report r) w
]

-- `satel_connection_worker_send_push_mask`. `exchange` returns no empty frame, so the parser of the
-- answer does not panic.
unfoldable pub send_push_mask : Config → ℕ → Bool → ExchangeIo → W (Unit {0})
unfolding report
send_push_mask config now support io = do
  response ← exchange now (0x7F ∷ build_push_mask config support) 0x7F io false
  change (report config support response)

-- `satel_connection_worker_connect_auto_read`
unfoldable pub connect_auto_read : Config → ℕ → Bool → ExchangeIo → W (Unit {0})
unfolding send_push_mask or_lost
connect_auto_read config now support io = or_lost now (send_push_mask config now support io)

-- The third step of `satel_connection_worker_connect`.
unfoldable pub auto_read_step : Config → ℕ → ConnectIo → W (Unit {0})
unfolding connect_auto_read
auto_read_step config now io w =
    let auto_read = connect_auto_read config now io.support_8_troubles_groups io.push w in
    elim (is_auto_read_enabled config) [ true ↦ auto_read | false ↦ (w, ok tt) ]

-- `satel_connection_worker_connect`, after the state has been set.
unfoldable pub established : Config → ℕ → ConnectIo → W (Unit {0})
unfolding connect_handshake auto_read_step
established config now io = do
  connect_handshake now io
  auto_read_step config now io
  change (set_state_connected config now)

unfoldable pub connect : Config → ℕ → ConnectIo → W (Unit {0})
unfolding connect_physical established
connect config now io w =
    let w₁ = record (set_state_connecting now w) { auto_read_dirty = false } in
    let lost = connection_lost now w₁ in
    let w₂ = set_state_handshake now (record w₁ { stream = true }) in
    elim (connect_physical config io.opened) [
      | err e ↦ (lost, err e)
      | ok u ↦ established config now io w₂
    ]
