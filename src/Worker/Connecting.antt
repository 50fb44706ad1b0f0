-- ===== src/Worker/Connecting.antt =====
-- src/worker.rs: where connecting leads.
use satel_integra.Parsers.Versions.{
  process_ethm_version, process_integra_version, IntegraVersion, EthmVersion,
}
use satel_integra.Worker.Connect.{auto_read_step}
use satel_integra.Worker.{EthmVersion, IntegraVersion}
use satel_integra.Worker.Sessions.{After-test, After-elim, has_session}
use satel_integra.Worker.Connect.{query_module_version, query_panel_version}
use satel_integra.Common.{ℕ, Bool, true, false, List, ◌≡◌, inl, inr, arith, refl}
use satel_integra.Error.{Result, ok, err}
use satel_integra.Config.{Config, is_auto_read_enabled}
use satel_integra.Telemetry.{ConnectionState}
use satel_integra.Worker.{
  Worker, StateWorkerMessage, notify_state_worker, connection_lost, set_state_connecting,
  set_state_handshake, set_state_connected,
}
use satel_integra.Worker.Exchange.{W, ExchangeIo, ◌>>=◌, ◌>>◌}
use satel_integra.Worker.Connect.{
  ConnectIo, connect, connect_physical, established, connect_handshake, connect_auto_read,
  send_push_mask, report, or_lost, lift, change,
}
use satel_integra.Worker.Sessions.{
  At, AtOrLost, After, Triple, Triple->>=, exchange-At, connection_lost-At, set_state_connecting-At,
}

-- A step that keeps the state, or loses the connection with an error.
abbrev Keeps : {A : Type 0} → ConnectionState → W A → Type 0
Keeps s m = Triple (At s) m (At s) (AtOrLost s)

or_lost-go :
    {A : Type 0} (s : ConnectionState) (now : ℕ) (o : Worker × Result A)
    → After (At s) (AtOrLost s) o
    → After (At s) (AtOrLost s) (
        let (w', r) = o in
        let out : Worker × Result A = elim r [
          | ok a ↦ (w', ok a)
          | err e ↦ (connection_lost now w', err e)
        ] in
        out)
or_lost-go s now (w, ok a) k = k
or_lost-go s now (w, err e) (inl k) = inr (connection_lost-At s now w k)
or_lost-go s now (w, err e) (inr k) =
    inr (connection_lost-At ConnectionState.connection_lost now w k)

or_lost-Keeps :
    {A : Type 0} (s : ConnectionState) (now : ℕ) (m : W A) → Keeps s m → Keeps s (or_lost now m)
unfolding or_lost
or_lost-Keeps s now m t w h = or_lost-go s now (m w) (t w h)

lift-Keeps : {A : Type 0} (s : ConnectionState) (r : Result A) → Keeps s (lift r)
lift-Keeps s (ok a) w h = h
lift-Keeps s (err e) w h = inl h

notify-Keeps :
    (s : ConnectionState) (m : StateWorkerMessage) → Keeps s (change (notify_state_worker m))
unfolding At notify_state_worker
notify-Keeps s m w h = h

bind :
    {A B : Type 0} (s : ConnectionState) (m : W A) (f : A → W B)
    → Keeps s m
    → ((a : A) → Keeps s (f a))
    → Keeps s (m >>= f)
bind s m f = Triple->>= (At s) (At s) (At s) (AtOrLost s) m f

query_module_version-Keeps :
    (s : ConnectionState) (now : ℕ) (io : ExchangeIo) → Keeps s (query_module_version now io)
unfolding query_module_version
query_module_version-Keeps s now io =
    let told : EthmVersion → W (Unit {0}) =
      λ v. change (notify_state_worker (StateWorkerMessage.ethm_version v)) in
    bind s _ (λ a. lift (process_ethm_version now a) >>= told)
      (or_lost-Keeps s now _ (exchange-At s now _ _ io false))
      λ a. bind s _ told (lift-Keeps s (process_ethm_version now a)) λ v. notify-Keeps s _

query_panel_version-Keeps :
    (s : ConnectionState) (now : ℕ) (io : ExchangeIo) → Keeps s (query_panel_version now io)
unfolding query_panel_version
query_panel_version-Keeps s now io =
    let told : IntegraVersion → W (Unit {0}) =
      λ v. change (notify_state_worker (StateWorkerMessage.integra_version v)) in
    bind s _ (λ a. lift (process_integra_version now a) >>= told)
      (or_lost-Keeps s now _ (exchange-At s now _ _ io false))
      λ a. bind s _ told (lift-Keeps s (process_integra_version now a)) λ v. notify-Keeps s _

connect_handshake-Keeps :
    (s : ConnectionState) (now : ℕ) (io : ConnectIo) → Keeps s (connect_handshake now io)
unfolding connect_handshake
connect_handshake-Keeps s now io =
    bind s (query_module_version now io.ethm) (λ u. query_panel_version now io.integra)
      (query_module_version-Keeps s now io.ethm) λ u. query_panel_version-Keeps s now io.integra

report-Keeps :
    (s : ConnectionState) (config : Config) (support : Bool) (response : List ℕ)
    → Keeps s (change (report config support response))
unfolding report At notify_state_worker
report-Keeps s config support response w h = ground arith

pub send_push_mask-Keeps :
    (s : ConnectionState) (config : Config) (now : ℕ) (support : Bool) (io : ExchangeIo)
    → Keeps s (send_push_mask config now support io)
unfolding send_push_mask
send_push_mask-Keeps s config now support io =
    bind s _ (λ response. change (report config support response)) (exchange-At s now _ _ io false)
      λ r. report-Keeps s config support r

auto_read_step-Keeps :
    (s : ConnectionState) (config : Config) (now : ℕ) (io : ConnectIo)
    → Keeps s (auto_read_step config now io)
unfolding auto_read_step connect_auto_read
auto_read_step-Keeps s config now io w h =
    let k =
      or_lost-Keeps s now (send_push_mask config now io.support_8_troubles_groups io.push)
        (send_push_mask-Keeps s config now io.support_8_troubles_groups io.push) w h in
    After-test (At s) (AtOrLost s) (is_auto_read_enabled config) _ _ k h

set_state_connected-Triple :
    (config : Config) (now : ℕ)
    → Triple
        (At ConnectionState.handshake)
        (change (set_state_connected config now))
        (At ConnectionState.connected)
        (AtOrLost ConnectionState.handshake)
unfolding set_state_connected At
set_state_connected-Triple config now w (h, k, l) = (refl, refl, l)

established-Triple :
    (config : Config) (now : ℕ) (io : ConnectIo)
    → Triple
        (At ConnectionState.handshake)
        (established config now io)
        (At ConnectionState.connected)
        (AtOrLost ConnectionState.handshake)
unfolding established
established-Triple config now io =
    let s = ConnectionState.handshake in
    let told : W (Unit {0}) = change (set_state_connected config now) in
    Triple->>= (At s) (At s) (At ConnectionState.connected) (AtOrLost s) (connect_handshake now io)
      (λ u. auto_read_step config now io >> told) (connect_handshake-Keeps s now io)
      λ u.
        Triple->>= (At s) (At s) (At ConnectionState.connected) (AtOrLost s)
          (auto_read_step config now io) (λ u. told) (auto_read_step-Keeps s config now io)
          λ u. set_state_connected-Triple config now

handshake-At :
    (now : ℕ) (w : Worker)
    → At ConnectionState.connecting w
    → At ConnectionState.handshake (set_state_handshake now (record w { stream = true }))
unfolding set_state_handshake At
handshake-At now w (h, k, l) = (refl, k, refl)

clean-At : (s : ConnectionState) (w : Worker) → At s w → At s (record w { auto_read_dirty = false })
unfolding At
clean-At s w h = h

-- From a worker without a stream and without a session, an attempt to connect that succeeds ends
-- connected; one that fails ends with the connection lost or still in the handshake; the stream and
-- the session are then as that state says.
pub connect-At :
    (config : Config) (now : ℕ) (io : ConnectIo) (w : Worker)
    → has_session w.telemetry.connected_since ≡ false
    → w.stream ≡ false
    → After
        (At ConnectionState.connected)
        (AtOrLost ConnectionState.handshake)
        (connect config now io w)
unfolding connect
connect-At config now io w h k =
    let w₁ : Worker = record (set_state_connecting now w) { auto_read_dirty = false } in
    let w₂ = set_state_handshake now (record w₁ { stream = true }) in
    let c =
      clean-At ConnectionState.connecting (set_state_connecting now w)
        (set_state_connecting-At now w h k) in
    let s = ConnectionState.handshake in
    After-elim (At ConnectionState.connected) (AtOrLost s) (connect_physical config io.opened)
      (λ u. established config now io w₂) (λ e. (connection_lost now w₁, err e))
      (λ u. established-Triple config now io w₂ (handshake-At now w₁ c))
      (λ e. inr (connection_lost-At ConnectionState.connecting now w₁ c))
