-- ===== src/Worker/Consistency.antt =====
-- src/worker.rs: the stream and the session in every state that the actor comes to.
use satel_integra.Worker.Loop.{first_byte}
use satel_integra.Common.{ℕ, Bool, false, List, ◌≡◌, ◌⊎◌, inl, inr, arith, refl, ◌∙◌}
use satel_integra.Error.{Result, ok, err}
use satel_integra.Config.{Config}
use satel_integra.Telemetry.{ConnectionState, is_connected}
use satel_integra.Worker.{Worker, connection_lost, disconnect}
use satel_integra.Worker.Exchange.{ExchangeIo, exchange}
use satel_integra.Worker.Connect.{ConnectIo, connect}
use satel_integra.Worker.Loop.{
  InternalMessage, exchange_standard, exchange_priority, connect_request, disconnect_request,
  handle_message, with_frame, with_done,
}
use satel_integra.Worker.Sessions.{
  At, AtOrLost, After, exchange-At, connection_lost-At, disconnect-At, has_session, has_stream,
}
use satel_integra.Worker.Connecting.{connect-At}

-- There is a stream exactly while the worker is connected or in the handshake, and a session exactly
-- while it is connected.
unfoldable pub IsConsistent : Worker → Type 0
unfolding At
IsConsistent w = At w.telemetry.status.state w

pub settled : (s : ConnectionState) (w : Worker) → At s w → IsConsistent w
unfolding At IsConsistent
settled s w (h, k, l) = (refl, rw h k, rw h l)

pub settled-After :
    {A : Type 0} (s r : ConnectionState) (o : Worker × Result A)
    → After (At r) (AtOrLost s) o
    → IsConsistent o.0
settled-After s r (w, ok a) h = settled r w h
settled-After s r (w, err e) (inl h) = settled s w h
settled-After s r (w, err e) (inr h) = settled ConnectionState.connection_lost w h

pub connection_lost-IsConsistent :
    (now : ℕ) (w : Worker) → IsConsistent w → IsConsistent (connection_lost now w)
unfolding IsConsistent
connection_lost-IsConsistent now w h =
    settled ConnectionState.connection_lost (connection_lost now w)
      (connection_lost-At w.telemetry.status.state now w h)

pub exchange-IsConsistent :
    (now : ℕ) (request : List ℕ) (cmd : ℕ) (io : ExchangeIo) (ping : Bool) (w : Worker)
    → IsConsistent w
    → IsConsistent (exchange now request cmd io ping w).0
unfolding IsConsistent
exchange-IsConsistent now request cmd io ping w h =
    settled-After w.telemetry.status.state w.telemetry.status.state
      (exchange now request cmd io ping w) (exchange-At _ now request cmd io ping w h)

unconnected : (s : ConnectionState) → has_stream s ≡ false → is_connected s ≡ false
unconnected ConnectionState.connected h = absurd (cc)
unconnected ConnectionState.disconnected h = refl
unconnected ConnectionState.connection_lost h = refl
unconnected ConnectionState.connecting h = refl
unconnected ConnectionState.handshake h = refl

pub connect-IsConsistent :
    (config : Config) (now : ℕ) (io : ConnectIo) (w : Worker)
    → w.stream ≡ false
    → IsConsistent w
    → IsConsistent (connect config now io w).0
unfolding IsConsistent At
connect-IsConsistent config now io w s (h, k, l) =
    let c : has_session w.telemetry.connected_since ≡ false =
      k ∙ unconnected w.telemetry.status.state (cc) in
    settled-After ConnectionState.handshake ConnectionState.connected (connect config now io w)
      (connect-At config now io w c s)

with_frame-IsConsistent :
    (o : Worker × Result (List ℕ)) → IsConsistent o.0 → IsConsistent (with_frame o).0
unfolding with_frame
with_frame-IsConsistent (w, r) h = h

with_done-IsConsistent :
    (o : Worker × Result (Unit {0})) → IsConsistent o.0 → IsConsistent (with_done o).0
unfolding with_done
with_done-IsConsistent (w, r) h = h

handle_message-exchange :
    (config : Config) (now : ℕ) (io : ExchangeIo) (conn : ConnectIo) (payload : List ℕ)
    (at limit : ℕ) (w : Worker)
    → IsConsistent w
    → IsConsistent (handle_message config now io conn (exchange_standard payload at limit) w).0
unfolding handle_message
handle_message-exchange config now io conn payload at limit w h =
    let x = exchange now payload (first_byte payload) io false w in
    let e =
      with_frame-IsConsistent x
        (exchange-IsConsistent now payload (first_byte payload) io false w h) in
    ground arith

handle_message-priority :
    (config : Config) (now : ℕ) (io : ExchangeIo) (conn : ConnectIo) (payload : List ℕ) (w : Worker)
    → IsConsistent w
    → IsConsistent (handle_message config now io conn (exchange_priority payload) w).0
unfolding handle_message
handle_message-priority config now io conn payload w h =
    let x = exchange now payload (first_byte payload) io false w in
    let e =
      with_frame-IsConsistent x
        (exchange-IsConsistent now payload (first_byte payload) io false w h) in
    ground arith

pub idle-stream :
    (w : Worker)
    → IsConsistent w
    → (w.telemetry.status.state ≡ ConnectionState.disconnected)
      ⊎ (w.telemetry.status.state ≡ ConnectionState.connection_lost)
    → w.stream ≡ false
unfolding IsConsistent At
idle-stream w (h, k, l) (inl e) = rw e at l
idle-stream w (h, k, l) (inr e) = rw e at l

handle_message-connect :
    (config : Config) (now : ℕ) (io : ExchangeIo) (conn : ConnectIo) (w : Worker)
    → IsConsistent w
    → IsConsistent (handle_message config now io conn connect_request w).0
unfolding handle_message
handle_message-connect config now io conn w h =
    let idle : (w.telemetry.status.state ≡ ConnectionState.disconnected)
          ⊎ (w.telemetry.status.state ≡ ConnectionState.connection_lost)
        → IsConsistent (with_done (connect config now conn w)).0 =
      λ e.
        with_done-IsConsistent (connect config now conn w)
          (connect-IsConsistent config now conn w (idle-stream w h e) h) in
    ground arith

handle_message-disconnect :
    (config : Config) (now : ℕ) (io : ExchangeIo) (conn : ConnectIo) (w : Worker)
    → IsConsistent w
    → IsConsistent (handle_message config now io conn disconnect_request w).0
unfolding handle_message
handle_message-disconnect config now io conn w h =
    let e = settled ConnectionState.disconnected (disconnect now w) (disconnect-At now w) in
    ground arith

pub handle_message-IsConsistent :
    (config : Config) (now : ℕ) (io : ExchangeIo) (conn : ConnectIo) (m : InternalMessage)
    (w : Worker)
    → IsConsistent w
    → IsConsistent (handle_message config now io conn m w).0
handle_message-IsConsistent config now io conn (exchange_standard payload at limit) w h =
    handle_message-exchange config now io conn payload at limit w h
handle_message-IsConsistent config now io conn (exchange_priority payload) w h =
    handle_message-priority config now io conn payload w h
handle_message-IsConsistent config now io conn connect_request w h =
    handle_message-connect config now io conn w h
handle_message-IsConsistent config now io conn disconnect_request w h =
    handle_message-disconnect config now io conn w h
