-- ===== src/Worker/Ticks.antt =====
-- src/worker.rs: the push frames and the clock keep the worker consistent.
use satel_integra.Worker.Steps.{new_worker}
use satel_integra.Common.{
  if◌then◌else◌, ◌==◌, ◌&&◌, ◌+◌, ◌-◌, ◌^◌, min, ℕ, Bool, true, false, some, List, [], ◌∷◌, ◌≡◌,
  inr, arith, refl,
}
use satel_integra.Config.{Config}
use satel_integra.Telemetry.{ConnectionState, is_connected, reset}
use satel_integra.Worker.{
  Worker, StateWorkerMessage, connection_lost, notify_state_worker, reset_missed_pings,
}
use satel_integra.Worker.Exchange.{
  count_frame, says_accepted, count_io_error, ExchangeIo, Read, exchange, received, read_error,
  closed, elapsed,
}
use satel_integra.Worker.Connect.{connect, send_push_mask}
use satel_integra.Worker.Loop.{
  count_attempt, TickIo, receive_push, tick, watchdog, resend_push_mask, ping_missed, keep_alive,
  reconnect, handle_ping_timeout,
}
use satel_integra.Worker.Steps.{
  Step, Reach, started, next, message, pushed, ticked, reconfigured, statistics_reset,
}
use satel_integra.Worker.Sessions.{At}
use satel_integra.Worker.Connecting.{send_push_mask-Keeps}
use satel_integra.Worker.Consistency.{
  IsConsistent, settled-After, connection_lost-IsConsistent, exchange-IsConsistent,
  connect-IsConsistent, handle_message-IsConsistent, idle-stream,
}

pushed-IsConsistent :
    (b : Bool) (bytes : List ℕ) (w : Worker)
    → IsConsistent w
    → IsConsistent (
        let counted = count_frame w in
        let told = notify_state_worker (StateWorkerMessage.frame bytes) counted in
        reset_missed_pings (if b then counted else told))
unfolding IsConsistent At notify_state_worker reset_missed_pings
pushed-IsConsistent true bytes w h = h
pushed-IsConsistent false bytes w h = h

receive_push-IsConsistent :
    (now : ℕ) (read : Read) (w w' : Worker)
    → receive_push now read w ≡ some w'
    → IsConsistent w
    → IsConsistent w'
unfolding receive_push IsConsistent At
receive_push-IsConsistent now (received []) w w' p h = absurd (cc)
receive_push-IsConsistent now (received (first ∷ rest)) w w' p h =
    let counted = count_frame w in
    let told = notify_state_worker (StateWorkerMessage.frame (first ∷ rest)) counted in
    let out =
      reset_missed_pings (if (first == 0xEF) && says_accepted rest then counted else told) in
    let c : IsConsistent out =
      pushed-IsConsistent ((first == 0xEF) && says_accepted rest) (first ∷ rest) w h in
    let e : out ≡ w' = cc in rw e at c
receive_push-IsConsistent now read_error w w' p h =
    let counted = count_io_error w in
    let e : connection_lost now counted ≡ w' = cc in
    rw e at (connection_lost-IsConsistent now counted h)
receive_push-IsConsistent now closed w w' p h =
    let e : connection_lost now w ≡ w' = cc in rw e at (connection_lost-IsConsistent now w h)
receive_push-IsConsistent now elapsed w w' p h = let e : w ≡ w' = cc in rw e at h

-- What the session does not depend on.
changed-IsConsistent :
    (w : Worker) (dirty : Bool) (missed : ℕ)
    → IsConsistent w
    → IsConsistent (record w { auto_read_dirty = dirty; consecutive_missed_pings = missed })
unfolding IsConsistent At
changed-IsConsistent w dirty missed h = h

watchdog-IsConsistent :
    (state : ConnectionState) (since now : ℕ) (w : Worker)
    → IsConsistent w
    → IsConsistent (watchdog state since now w)
unfolding watchdog
watchdog-IsConsistent state since now w h =
    let l = connection_lost-IsConsistent now w h in ground arith

send_push_mask-IsConsistent :
    (config : Config) (now : ℕ) (support : Bool) (io : ExchangeIo) (w : Worker)
    → IsConsistent w
    → IsConsistent (send_push_mask config now support io w).0
unfolding IsConsistent
send_push_mask-IsConsistent config now support io w h =
    let s = w.telemetry.status.state in
    settled-After s s (send_push_mask config now support io w)
      (send_push_mask-Keeps s config now support io w h)

resend_push_mask-IsConsistent :
    (config : Config) (was : Bool) (now : ℕ) (io : TickIo) (w : Worker)
    → IsConsistent w
    → IsConsistent (resend_push_mask config was now io w)
unfolding resend_push_mask
resend_push_mask-IsConsistent config was now io w h =
    let clean : Worker = record w { auto_read_dirty = false } in
    let c = changed-IsConsistent w false w.consecutive_missed_pings h in
    let x = send_push_mask config now io.support_8_troubles_groups io.push clean in
    let e : IsConsistent x.0 =
      send_push_mask-IsConsistent config now io.support_8_troubles_groups io.push clean c in
    let d = changed-IsConsistent x.0 true x.0.consecutive_missed_pings e in ground arith

ping_missed-IsConsistent :
    (config : Config) (now : ℕ) (w : Worker)
    → IsConsistent w
    → IsConsistent (ping_missed config now w)
unfolding ping_missed handle_ping_timeout
ping_missed-IsConsistent config now w h =
    let n = min (w.consecutive_missed_pings + 1) (2 ^ 32 - 1) in
    let c = changed-IsConsistent w w.auto_read_dirty n h in
    let l = connection_lost-IsConsistent now (record w { consecutive_missed_pings = n }) c in
    ground arith

keep_alive-IsConsistent :
    (config : Config) (was : Bool) (now : ℕ) (io : TickIo) (w : Worker)
    → IsConsistent w
    → IsConsistent (keep_alive config was now io w)
unfolding keep_alive
keep_alive-IsConsistent config was now io w h =
    let x = exchange now (0x7E ∷ []) 0x7E io.ping true w in
    let e : IsConsistent x.0 = exchange-IsConsistent now (0x7E ∷ []) 0x7E io.ping true w h in
    let m = ping_missed-IsConsistent config now x.0 e in ground arith

count_attempt-IsConsistent : (w : Worker) → IsConsistent w → IsConsistent (count_attempt w)
unfolding IsConsistent At
count_attempt-IsConsistent w h = h

reconnect-IsConsistent :
    (config : Config) (state : ConnectionState) (since now : ℕ) (io : TickIo) (w : Worker)
    → (state ≡ ConnectionState.connection_lost
        → w.telemetry.status.state ≡ ConnectionState.connection_lost)
    → IsConsistent w
    → IsConsistent (reconnect config state since now io w)
unfolding reconnect
reconnect-IsConsistent config ConnectionState.connected since now io w s h = h
reconnect-IsConsistent config ConnectionState.disconnected since now io w s h = h
reconnect-IsConsistent config ConnectionState.connecting since now io w s h = h
reconnect-IsConsistent config ConnectionState.handshake since now io w s h = h
reconnect-IsConsistent config ConnectionState.connection_lost since now io w s h =
    let counted = count_attempt w in
    let c : IsConsistent (connect config now io.connecting counted).0 =
      connect-IsConsistent config now io.connecting counted (idle-stream w h (inr (s refl)))
        (count_attempt-IsConsistent w h) in
    ground arith

lost_stays :
    (config : Config) (now : ℕ) (io : TickIo) (w : Worker)
    → (w.telemetry.status.state ≡ ConnectionState.connection_lost)
    → keep_alive config (is_connected w.telemetry.status.state) now io (
        resend_push_mask config
          (is_connected w.telemetry.status.state)
          now
          io
          (watchdog w.telemetry.status.state w.telemetry.status.last_event_at now w))
      ≡ w
unfolding keep_alive resend_push_mask watchdog
lost_stays config now io w e = ground arith

tick-IsConsistent :
    (config : Config) (now : ℕ) (io : TickIo) (w : Worker)
    → IsConsistent w
    → IsConsistent (tick config now io w)
unfolding tick
tick-IsConsistent config now io w h =
    let state = w.telemetry.status.state in
    let since = w.telemetry.status.last_event_at in
    let w₁ = watchdog state since now w in
    let h₁ = watchdog-IsConsistent state since now w h in
    let w₂ = resend_push_mask config (is_connected state) now io w₁ in
    let h₂ = resend_push_mask-IsConsistent config (is_connected state) now io w₁ h₁ in
    let h₃ = keep_alive-IsConsistent config (is_connected state) now io w₂ h₂ in
    reconnect-IsConsistent config state since now io
      (keep_alive config (is_connected state) now io w₂) (λ e. rw (lost_stays config now io w e) e)
      h₃

reset-IsConsistent :
    (now : ℕ) (w : Worker)
    → IsConsistent w
    → IsConsistent (record w { telemetry = reset now w.telemetry })
unfolding IsConsistent At reset
reset-IsConsistent now w h = ground arith

new_worker-IsConsistent : (now : ℕ) → IsConsistent (new_worker now)
unfolding IsConsistent At
new_worker-IsConsistent now = (refl, refl, refl)

Step-IsConsistent :
    {config : Config} {w w' : Worker} → Step config w w' → IsConsistent w → IsConsistent w'
unfolding IsConsistent At
Step-IsConsistent (message now io conn m) h = handle_message-IsConsistent _ now io conn m _ h
Step-IsConsistent (pushed now read s c p) h = receive_push-IsConsistent now read _ _ p h
Step-IsConsistent (ticked now io) h = tick-IsConsistent _ now io _ h
Step-IsConsistent reconfigured h = h
Step-IsConsistent {w = w} (statistics_reset now) h = reset-IsConsistent now w h

-- While the configuration stays, whatever the line, the panel, the client and the clock do, there is
-- a stream exactly while the worker is connected or in the handshake, and a session is timed exactly
-- while it is connected.
pub Reach-IsConsistent : (config : Config) (w : Worker) → Reach config w → IsConsistent w
Reach-IsConsistent config w (started born now io) =
    connect-IsConsistent config now io (new_worker born) refl (new_worker-IsConsistent born)
Reach-IsConsistent config w (next r s) = Step-IsConsistent s (Reach-IsConsistent config _ r)
