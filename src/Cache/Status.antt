-- ===== src/Cache/Status.antt =====
-- src/client_internal.rs: the system status and the versions in the cache.
use satel_integra.Common.{
  Bool, true, false, not, ◌||◌, ◌≡◌, refl, inl, inr, Bool-cases, Option, none, some, List, [], ◌∷◌,
  ◌==◌, arith,
}
use satel_integra.Config.{Config}
use satel_integra.Event.{SatelEvent}
use satel_integra.State.{SatelState, SystemStatus}
use satel_integra.Parsers.Versions.{IntegraVersion, EthmVersion}
use satel_integra.Cache.Items.{differ}

-- `!=` on what is cached and a status.
status_differs : Option SystemStatus → SystemStatus → Bool
status_differs none new = true
status_differs (some old) new =
    differ old.service_mode new.service_mode
    || differ old.troubles_present new.troubles_present
    || differ old.troubles_memory new.troubles_memory
    || not (old.rtc == new.rtc)

unfoldable pub store_status : Bool → SystemStatus → SatelState → SatelState × List SatelEvent
store_status true status state =
    (record state { system_status = some status }, SatelEvent.system_status_changed status ∷ [])
store_status false status state = (state, [])

unfoldable pub update_system_status_internal :
    Config → SystemStatus → SatelState → SatelState × List SatelEvent
unfolding status_differs store_status
update_system_status_internal config status state =
    let changed = status_differs state.system_status status in
    store_status (changed || config.emit_unchanged_system_status) status state

unfoldable pub update_integra_version_internal :
    IntegraVersion → SatelState → SatelState × List SatelEvent
update_integra_version_internal version state = (
  record state { integra_version = some version },
  SatelEvent.integra_version_received version ∷ [],
)

unfoldable pub update_ethm_version_internal :
    EthmVersion → SatelState → SatelState × List SatelEvent
update_ethm_version_internal version state =
    (record state { ethm_version = some version }, SatelEvent.ethm_version_received version ∷ [])

same_flag : (a b : Bool) → differ a b ≡ false → a ≡ b
same_flag true true h = refl
same_flag true false h = absurd cc
same_flag false true h = absurd cc
same_flag false false h = refl

same_status :
    (old : Option SystemStatus) (new : SystemStatus)
    → status_differs old new ≡ false
    → old ≡ some new
unfolding status_differs
same_status none new h = absurd cc
same_status (some old) new h =
    let mode = same_flag old.service_mode new.service_mode (ground arith) in
    let present = same_flag old.troubles_present new.troubles_present (ground arith) in
    let latched = same_flag old.troubles_memory new.troubles_memory (ground arith) in
    let time : old.rtc ≡ new.rtc = ground arith in
    let fields : Path (Option SystemStatus)
        (some (record {
          service_mode = old.service_mode;
          troubles_present = old.troubles_present;
          troubles_memory = old.troubles_memory;
          rtc = old.rtc;
        }))
        (some new) =
      rw (mode, present, latched, time) refl in
    fields

-- After a status has been reported the cache holds it, whether or not an event was sent for it.
pub update_system_status_internal-cached :
    (config : Config) (status : SystemStatus) (state : SatelState)
    → (update_system_status_internal config status state).0.system_status ≡ some status
unfolding update_system_status_internal
update_system_status_internal-cached config status state =
    elim (Bool-cases
      (status_differs state.system_status status || config.emit_unchanged_system_status)) [
        | inl e ↦ rw e refl
        | inr e ↦ rw e (same_status state.system_status status (ground arith))
      ]
