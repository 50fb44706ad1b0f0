-- ===== src/Worker/Preservation.antt =====
-- src/worker.rs: what holds of the state, of the missed pings and of the messages to the state worker
-- in every step, if the elementary changes keep it.
use satel_integra.Parsers.Versions.{
  IntegraVersion, EthmVersion, AutoReadReport, process_auto_read_response,
  process_auto_read_response,
}
use satel_integra.Common.{Option-cases}
use satel_integra.Error.{Result-cases}
use satel_integra.Parsers.Versions.{
  IntegraVersion, EthmVersion, AutoReadReport, process_auto_read_response, AutoReadReport,
  EthmVersion, IntegraVersion,
}
use satel_integra.Common.{
  ℕ, Bool, true, false, List, [], ◌∷◌, ◌≡◌, inl, inr, arith, refl, if◌then◌else◌, ◌&&◌, ◌++◌, ltb,
  leb,
}
use satel_integra.Error.{Result, ok, err}
use satel_integra.Config.{Config}
use satel_integra.Telemetry.{ConnectionState}
use satel_integra.Parsers.Versions.{
  IntegraVersion, EthmVersion, AutoReadReport, process_auto_read_response, process_ethm_version,
  process_integra_version,
}
use satel_integra.Worker.{
  Worker, StateWorkerMessage, connection_lost, disconnect, notify_state_worker, reset_missed_pings,
  set_state_connecting, set_state_handshake, set_state_connected,
}
use satel_integra.Worker.Exchange.{
  W, ExchangeIo, Read, exchange, received, read_error, closed, elapsed, observe, receive, sent,
  count_io_error, ◌>>=◌, ◌>>◌,
}
use satel_integra.Worker.PushMask.{build_push_mask}
use satel_integra.Worker.Connect.{
  ConnectIo, connect, send_push_mask, connect_physical, established, connect_handshake,
  query_module_version, query_panel_version, auto_read_step, connect_auto_read, report, or_lost,
  lift, change,
}

abbrev pub is_status : StateWorkerMessage → Bool
is_status (StateWorkerMessage.frame bytes) = false
is_status (StateWorkerMessage.status_changed s) = true
is_status (StateWorkerMessage.integra_version v) = false
is_status (StateWorkerMessage.ethm_version v) = false
is_status (StateWorkerMessage.auto_read_report r) = false

abbrev pub exceeded : Config → ℕ → Bool
exceeded config missed = ltb 0 config.max_missed_pings && leb config.max_missed_pings missed

-- A property of the state, of the number of missed pings and of the messages, with the changes that
-- keep it.
pub record Kept (config : Config) (P : ConnectionState → ℕ → List StateWorkerMessage → Type 0)
    : Type 0 where
  pub told :
      {s : ConnectionState} {n : ℕ} {ms : List StateWorkerMessage} (m : StateWorkerMessage)
      → is_status m ≡ false
      → P s n ms
      → P s n (ms ++ (m ∷ []))
  pub turned :
      {s : ConnectionState} {n : ℕ} {ms : List StateWorkerMessage} (s' : ConnectionState)
      → P s n ms
      → P s' n (ms ++ (StateWorkerMessage.status_changed s' ∷ []))
  pub answered : {s : ConnectionState} {n : ℕ} {ms : List StateWorkerMessage} → P s n ms → P s 0 ms
  pub unanswered :
      {s : ConnectionState} {n : ℕ} {ms : List StateWorkerMessage} (n' : ℕ)
      → exceeded config n' ≡ false
      → P s n ms
      → P s n' ms

module _ (config : Config) (P : ConnectionState → ℕ → List StateWorkerMessage → Type 0)
    (kept : Kept config P) where
  abbrev pub Holds : Worker → Type 0
  Holds w = P w.telemetry.status.state w.consecutive_missed_pings w.notified

  Holds-if : (b : Bool) (x y : Worker) → Holds x → Holds y → Holds (if b then x else y)
  Holds-if true x y h k = h
  Holds-if false x y h k = k

  pub connection_lost-Holds : (now : ℕ) (w : Worker) → Holds w → Holds (connection_lost now w)
  unfolding connection_lost
  connection_lost-Holds now w h = kept.turned ConnectionState.connection_lost (kept.answered h)

  pub disconnect-Holds : (now : ℕ) (w : Worker) → Holds w → Holds (disconnect now w)
  unfolding disconnect
  disconnect-Holds now w h = kept.turned ConnectionState.disconnected (kept.answered h)

  pub notify-Holds :
      (m : StateWorkerMessage) (w : Worker)
      → is_status m ≡ false
      → Holds w
      → Holds (notify_state_worker m w)
  unfolding notify_state_worker
  notify-Holds m w e h = kept.told m e h

  observe-Holds :
      (cmd : ℕ) (ping : Bool) (first : ℕ) (rest : List ℕ) (w : Worker)
      → Holds w
      → Holds (observe cmd ping first rest w)
  unfolding observe notify_state_worker reset_missed_pings
  observe-Holds cmd ping first rest w h =
      let a = kept.answered h in
      let b = kept.told (StateWorkerMessage.frame (first ∷ rest)) refl a in ground arith

  receive-Holds :
      (cmd : ℕ) (ping : Bool) (now : ℕ) (reads : List Read) (w : Worker)
      → Holds w
      → Holds (receive cmd ping now reads w).0
  unfolding receive
  receive-Holds cmd ping now [] w h = h
  receive-Holds cmd ping now (elapsed ∷ reads) w h = h
  receive-Holds cmd ping now (read_error ∷ reads) w h =
      connection_lost-Holds now (count_io_error w) h
  receive-Holds cmd ping now (closed ∷ reads) w h = connection_lost-Holds now w h
  receive-Holds cmd ping now (received [] ∷ reads) w h = receive-Holds cmd ping now reads w h
  receive-Holds cmd ping now (received (first ∷ rest) ∷ reads) w h =
      let k = observe-Holds cmd ping first rest w h in
      let more = receive-Holds cmd ping now reads (observe cmd ping first rest w) k in ground arith

  pub exchange-Holds :
      (now : ℕ) (request : List ℕ) (cmd : ℕ) (io : ExchangeIo) (ping : Bool) (w : Worker)
      → Holds w
      → Holds (exchange now request cmd io ping w).0
  unfolding exchange sent
  exchange-Holds now request cmd io ping w h =
      let k = receive-Holds cmd ping now io.reads (sent request ping now w) (ground arith) in
      let l = connection_lost-Holds now (count_io_error w) h in ground arith

  abbrev Stays : {A : Type 0} → W A → Type 0
  Stays m = (w : Worker) → Holds w → Holds (m w).0

  bind-go :
      {A B : Type 0} (f : A → W B) (o : Worker × Result A)
      → ((a : A) → Stays (f a))
      → Holds o.0
      → Holds
          (let (w', r) = o in
            let out : Worker × Result B = elim r [ ok a ↦ f a w' | err e ↦ (w', err e) ] in out).0
  bind-go f (w, ok a) u h = u a w h
  bind-go f (w, err e) u h = h

  bind :
      {A B : Type 0} (m : W A) (f : A → W B) → Stays m → ((a : A) → Stays (f a)) → Stays (m >>= f)
  bind m f t u w h = bind-go f (m w) u (t w h)

  or_lost-go :
      {A : Type 0} (now : ℕ) (o : Worker × Result A)
      → Holds o.0
      → Holds
          (let (w', r) = o in
            let out : Worker × Result A = elim r [
              | ok a ↦ (w', ok a)
              | err e ↦ (connection_lost now w', err e)
            ] in
            out).0
  or_lost-go now (w, ok a) h = h
  or_lost-go now (w, err e) h = connection_lost-Holds now w h

  or_lost-Stays : {A : Type 0} (now : ℕ) (m : W A) → Stays m → Stays (or_lost now m)
  unfolding or_lost
  or_lost-Stays now m t w h = or_lost-go now (m w) (t w h)

  query_module_version-Stays : (now : ℕ) (io : ExchangeIo) → Stays (query_module_version now io)
  unfolding query_module_version
  query_module_version-Stays now io =
      let told : EthmVersion → W (Unit {0}) =
        λ v. change (notify_state_worker (StateWorkerMessage.ethm_version v)) in
      let x : W (List ℕ) = exchange now (0x7C ∷ []) 0x7C io false in
      bind (or_lost now x) (λ a. lift (process_ethm_version now a) >>= told)
        (or_lost-Stays now x (exchange-Holds now (0x7C ∷ []) 0x7C io false))
        λ a.
          bind (lift (process_ethm_version now a)) told (λ w h. h)
            λ v w h. notify-Holds (StateWorkerMessage.ethm_version v) w refl h

  query_panel_version-Stays : (now : ℕ) (io : ExchangeIo) → Stays (query_panel_version now io)
  unfolding query_panel_version
  query_panel_version-Stays now io =
      let told : IntegraVersion → W (Unit {0}) =
        λ v. change (notify_state_worker (StateWorkerMessage.integra_version v)) in
      let x : W (List ℕ) = exchange now (0x7E ∷ []) 0x7E io false in
      bind (or_lost now x) (λ a. lift (process_integra_version now a) >>= told)
        (or_lost-Stays now x (exchange-Holds now (0x7E ∷ []) 0x7E io false))
        λ a.
          bind (lift (process_integra_version now a)) told (λ w h. h)
            λ v w h. notify-Holds (StateWorkerMessage.integra_version v) w refl h

  report-Stays :
      (c : Config) (support : Bool) (response : List ℕ) → Stays (change (report c support response))
  unfolding report notify_state_worker
  report-Stays c support response w h =
      let t : (r : AutoReadReport)
          → P w.telemetry.status.state w.consecutive_missed_pings
              (w.notified ++ (StateWorkerMessage.auto_read_report r ∷ [])) =
        λ r. kept.told (StateWorkerMessage.auto_read_report r) refl h in
      elim (Option-cases (process_auto_read_response c support response)) [
        | inl e ↦ rw (e, report) h
        | inr (r, e) ↦ rw (e, report) (t r)
      ]

  pub send_push_mask-Stays :
      (c : Config) (now : ℕ) (support : Bool) (io : ExchangeIo)
      → Stays (send_push_mask c now support io)
  unfolding send_push_mask
  send_push_mask-Stays c now support io =
      let mask = 0x7F ∷ build_push_mask c support in
      bind (exchange now mask 0x7F io false) (λ response. change (report c support response))
        (exchange-Holds now mask 0x7F io false) λ r. report-Stays c support r

  auto_read_step-Stays : (c : Config) (now : ℕ) (io : ConnectIo) → Stays (auto_read_step c now io)
  unfolding auto_read_step connect_auto_read
  auto_read_step-Stays c now io w h =
      let k =
        or_lost-Stays now (send_push_mask c now io.support_8_troubles_groups io.push)
          (send_push_mask-Stays c now io.support_8_troubles_groups io.push) w h in
      ground arith

  set_state_connected-Stays : (c : Config) (now : ℕ) → Stays (change (set_state_connected c now))
  unfolding set_state_connected
  set_state_connected-Stays c now w h = kept.turned ConnectionState.connected (kept.answered h)

  established-Stays : (c : Config) (now : ℕ) (io : ConnectIo) → Stays (established c now io)
  unfolding established connect_handshake
  established-Stays c now io =
      let told : W (Unit {0}) = change (set_state_connected c now) in
      bind (connect_handshake now io) (λ u. auto_read_step c now io >> told)
        (bind (query_module_version now io.ethm) (λ u. query_panel_version now io.integra)
          (query_module_version-Stays now io.ethm) λ u. query_panel_version-Stays now io.integra)
        λ u.
          bind (auto_read_step c now io) (λ u. told) (auto_read_step-Stays c now io)
            λ u. set_state_connected-Stays c now

  pub connect-Holds :
      (c : Config) (now : ℕ) (io : ConnectIo) (w : Worker) → Holds w → Holds (connect c now io w).0
  unfolding connect set_state_connecting set_state_handshake
  connect-Holds c now io w h =
      let w₁ : Worker = record (set_state_connecting now w) { auto_read_dirty = false } in
      let h₁ : Holds w₁ = kept.turned ConnectionState.connecting h in
      let l = connection_lost-Holds now w₁ h₁ in
      let w₂ = set_state_handshake now (record w₁ { stream = true }) in
      let h₂ : Holds w₂ = kept.turned ConnectionState.handshake h₁ in
      let e = established-Stays c now io w₂ h₂ in
      elim (Result-cases (connect_physical c io.opened)) [
        | inl (u, p) ↦ rw (p, connect) e
        | inr (x, p) ↦ rw (p, connect) l
      ]
