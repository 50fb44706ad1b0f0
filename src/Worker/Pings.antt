-- ===== src/Worker/Pings.antt =====
-- src/worker.rs, `handle_ping_timeout`: how many pings may go unanswered.
use satel_integra.Common.{ℕ, false, List, ◌≡◌, ◌<◌, ◌⊎◌, arith}
use satel_integra.Config.{Config}
use satel_integra.Telemetry.{ConnectionState}
use satel_integra.Worker.{Worker, StateWorkerMessage}
use satel_integra.Worker.Preservation.{Kept, exceeded}
use satel_integra.Worker.Reachable.{Reach-Holds}
use satel_integra.Worker.Steps.{Reach}

abbrev Below : Config → ConnectionState → ℕ → List StateWorkerMessage → Type 0
Below config s n ms = exceeded config n ≡ false

none_exceeded : (config : Config) → exceeded config 0 ≡ false
none_exceeded config = ground arith

Below-Kept : (config : Config) → Kept config (Below config)
Below-Kept config = record {
  told = λ m e h. h;
  turned = λ s h. h;
  answered = λ h. none_exceeded config;
  unanswered = λ n e h. e;
}

-- While the configuration stays, with a limit other than 0, the worker never rests with as many
-- unanswered pings as the limit.
pub Reach-missed_pings :
    (config : Config) (w : Worker)
    → Reach config w
    → (config.max_missed_pings ≡ 0) ⊎ (w.consecutive_missed_pings < config.max_missed_pings)
Reach-missed_pings config w r =
    let h = Reach-Holds config (Below config) (Below-Kept config) (none_exceeded config) w r in
    ground arith
