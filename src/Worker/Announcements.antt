-- ===== src/Worker/Announcements.antt =====
-- src/worker.rs: the state worker is told of each change of the connection's state.
use satel_integra.Common.{ℕ, false, List, [], ◌∷◌, ◌≡◌, refl, ◌++◌, ◌∙◌}
use satel_integra.Config.{Config}
use satel_integra.Telemetry.{ConnectionState}
use satel_integra.Worker.{Worker, StateWorkerMessage}
use satel_integra.Worker.Preservation.{Kept, is_status}
use satel_integra.Worker.Reachable.{Reach-Holds}
use satel_integra.Worker.Steps.{Reach}

heard : StateWorkerMessage → ConnectionState → ConnectionState
heard (StateWorkerMessage.frame bytes) s = s
heard (StateWorkerMessage.status_changed s') s = s'
heard (StateWorkerMessage.integra_version v) s = s
heard (StateWorkerMessage.ethm_version v) s = s
heard (StateWorkerMessage.auto_read_report r) s = s

-- The state that one knows who heard of the given one and then reads the messages in order.
unfoldable pub last_heard : ConnectionState → List StateWorkerMessage → ConnectionState
unfolding heard
last_heard s [] = s
last_heard s (m ∷ ms) = last_heard (heard m s) ms

last_heard-++ :
    (s : ConnectionState) (ms : List StateWorkerMessage) (m : StateWorkerMessage)
    → last_heard s (ms ++ (m ∷ [])) ≡ heard m (last_heard s ms)
unfolding last_heard
last_heard-++ s [] m = refl
last_heard-++ s (m' ∷ ms) m = last_heard-++ (heard m' s) ms m

heard-other : (m : StateWorkerMessage) (s : ConnectionState) → is_status m ≡ false → heard m s ≡ s
unfolding heard
heard-other (StateWorkerMessage.frame bytes) s e = refl
heard-other (StateWorkerMessage.status_changed s') s e = absurd (cc)
heard-other (StateWorkerMessage.integra_version v) s e = refl
heard-other (StateWorkerMessage.ethm_version v) s e = refl
heard-other (StateWorkerMessage.auto_read_report r) s e = refl

abbrev Announced : ConnectionState → ℕ → List StateWorkerMessage → Type 0
Announced s n ms = last_heard ConnectionState.disconnected ms ≡ s

Announced-Kept : (config : Config) → Kept config Announced
unfolding heard
Announced-Kept config = record {
  told = λ {s} {n} {ms} m e h. last_heard-++ _ ms m ∙ (heard-other m _ e ∙ h);
  turned = λ {s} {n} {ms} s' h. last_heard-++ _ ms (StateWorkerMessage.status_changed s');
  answered = λ h. h;
  unanswered = λ n e h. h;
}

-- While the configuration stays, one who reads the messages to the state worker in order, starting
-- from the disconnected state, knows the connection's state after every step.
pub Reach-last_heard :
    (config : Config) (w : Worker)
    → Reach config w
    → last_heard ConnectionState.disconnected w.notified ≡ w.telemetry.status.state
unfolding last_heard
Reach-last_heard config w r = Reach-Holds config Announced (Announced-Kept config) refl w r
