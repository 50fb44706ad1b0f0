-- ===== src/Worker/Steps.antt =====
-- src/worker.rs, `run` and `run_loop`: one step for each branch of the loop, and what the client does
-- to the shared state in between (src/client.rs: `hot_reload_config`, `reset_statistics`).
use satel_integra.Common.{ℕ, true, false, none, some, [], ◌≡◌}
use satel_integra.Config.{Config}
use satel_integra.Telemetry.{ConnectionState, new_telemetry, reset}
use satel_integra.Worker.{Worker}
use satel_integra.Worker.Exchange.{ExchangeIo, Read}
use satel_integra.Worker.Connect.{ConnectIo, connect}
use satel_integra.Worker.Loop.{InternalMessage, TickIo, handle_message, receive_push, tick}

abbrev pub new_worker : ℕ → Worker
new_worker now = record {
  telemetry = new_telemetry now;
  connection_type = none;
  stream = false;
  auto_read_dirty = false;
  consecutive_missed_pings = 0;
  notified = [];
  written = [];
}

pub data Step : Config → Worker → Worker → Type 0 where
  message :
      {config : Config} {w : Worker} (now : ℕ) (io : ExchangeIo) (conn : ConnectIo)
      (m : InternalMessage)
      → Step config w (handle_message config now io conn m w).0
  pushed :
      {config : Config} {w w' : Worker} (now : ℕ) (read : Read)
      → w.stream ≡ true
      → w.telemetry.status.state ≡ ConnectionState.connected
      → receive_push now read w ≡ some w'
      → Step config w w'
  ticked :
      {config : Config} {w : Worker} (now : ℕ) (io : TickIo) → Step config w (tick config now io w)
  reconfigured :
      {config : Config} {w : Worker} → Step config w (record w { auto_read_dirty = true })
  statistics_reset :
      {config : Config} {w : Worker} (now : ℕ)
      → Step config w (record w { telemetry = reset now w.telemetry })

-- What the actor can come to, from its initial attempt to connect on, while the configuration stays.
pub data Reach (config : Config) : Worker → Type 0 where
  started :
      (born now : ℕ) (io : ConnectIo) → Reach config (connect config now io (new_worker born)).0
  next : {w w' : Worker} → Reach config w → Step config w w' → Reach config w'
