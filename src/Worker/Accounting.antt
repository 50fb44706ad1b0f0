-- ===== src/Worker/Accounting.antt =====
-- src/worker.rs and src/state.rs: the total time of connection.
use satel_integra.Common.{ℕ, ◌≡◌, arith}
use satel_integra.Telemetry.{statistics}
use satel_integra.Worker.{Worker, connection_lost, disconnect, close_session}
use satel_integra.Worker.Sessions.{At}
use satel_integra.Worker.Consistency.{IsConsistent}

abbrev pub total_connected : ℕ → Worker → ℕ
total_connected now w = (statistics now w.telemetry).total_connected

-- When the connection of a consistent worker is lost or ended, the statistics of any later moment
-- show the total time of connection that they showed then: the session is counted once, and no
-- longer.
pub total_connected-ended :
    (now later : ℕ) (w : Worker)
    → IsConsistent w
    → (total_connected later (connection_lost now w) ≡ total_connected now w)
      × (total_connected later (disconnect now w) ≡ total_connected now w)
unfolding IsConsistent At statistics connection_lost disconnect close_session
total_connected-ended now later w (h, k, l) = ground arith
