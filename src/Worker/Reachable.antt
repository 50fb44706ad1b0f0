-- ===== src/Worker/Reachable.antt =====
-- src/worker.rs: what the elementary changes keep holds in every state that the actor comes to.
use satel_integra.Common.{Bool-cases}
use satel_integra.Common.{
  ℕ, Bool, true, false, some, List, [], ◌∷◌, ◌≡◌, inl, inr, arith, refl, if◌then◌else◌, ◌==◌, ◌&&◌,
  ◌+◌, ◌-◌, ◌^◌, min,
}
use satel_integra.Config.{Config}
use satel_integra.Telemetry.{ConnectionState, is_connected, reset}
use satel_integra.Worker.{
  Worker, StateWorkerMessage, connection_lost, notify_state_worker, reset_missed_pings,
}
use satel_integra.Worker.Exchange.{
  ExchangeIo, Read, exchange, received, read_error, closed, elapsed, count_frame, says_accepted,
  count_io_error,
}
use satel_integra.Worker.Connect.{ConnectIo}
use satel_integra.Worker.Loop.{
  count_attempt, InternalMessage, exchange_standard, exchange_priority, connect_request,
  disconnect_request, TickIo, handle_message, with_frame, first_byte, receive_push, tick, watchdog,
  resend_push_mask, ping_missed, keep_alive, reconnect, handle_ping_timeout,
}
use satel_integra.Worker.Steps.{
  Step, Reach, started, next, message, pushed, ticked, reconfigured, statistics_reset, new_worker,
}
use satel_integra.Worker.Preservation.{
  Kept, exceeded, Holds, connection_lost-Holds, disconnect-Holds, exchange-Holds, connect-Holds,
  send_push_mask-Stays,
}

module _ (config : Config) (P : ConnectionState → ℕ → List StateWorkerMessage → Type 0)
    (kept : Kept config P) where
  abbrev H : Worker → Type 0
  H w = Holds config P kept w

  handle_message-Holds :
      (now : ℕ) (io : ExchangeIo) (conn : ConnectIo) (m : InternalMessage) (w : Worker)
      → H w
      → H (handle_message config now io conn m w).0
  unfolding handle_message with_frame
  handle_message-Holds now io conn (exchange_standard payload at limit) w h =
      let e = exchange-Holds config P kept now payload (first_byte payload) io false w h in
      ground arith
  handle_message-Holds now io conn (exchange_priority payload) w h =
      let e = exchange-Holds config P kept now payload (first_byte payload) io false w h in
      ground arith
  handle_message-Holds now io conn connect_request w h =
      let e = connect-Holds config P kept config now conn w h in ground arith
  handle_message-Holds now io conn disconnect_request w h =
      let e = disconnect-Holds config P kept now w h in ground arith

  pushed-Holds :
      (b : Bool) (bytes : List ℕ) (w : Worker)
      → H w
      → H (
          let counted = count_frame w in
          let told = notify_state_worker (StateWorkerMessage.frame bytes) counted in
          reset_missed_pings (if b then counted else told))
  unfolding notify_state_worker reset_missed_pings
  pushed-Holds true bytes w h = kept.answered h
  pushed-Holds false bytes w h = kept.answered (kept.told (StateWorkerMessage.frame bytes) refl h)

  receive_push-Holds :
      (now : ℕ) (read : Read) (w w' : Worker) → receive_push now read w ≡ some w' → H w → H w'
  unfolding receive_push
  receive_push-Holds now (received []) w w' p h = absurd (cc)
  receive_push-Holds now (received (first ∷ rest)) w w' p h =
      let counted = count_frame w in
      let told = notify_state_worker (StateWorkerMessage.frame (first ∷ rest)) counted in
      let out =
        reset_missed_pings (if (first == 0xEF) && says_accepted rest then counted else told) in
      let c : H out = pushed-Holds ((first == 0xEF) && says_accepted rest) (first ∷ rest) w h in
      let e : out ≡ w' = cc in rw e at c
  receive_push-Holds now read_error w w' p h =
      let counted = count_io_error w in
      let e : connection_lost now counted ≡ w' = cc in
      rw e at (connection_lost-Holds config P kept now counted h)
  receive_push-Holds now closed w w' p h =
      let e : connection_lost now w ≡ w' = cc in
      rw e at (connection_lost-Holds config P kept now w h)
  receive_push-Holds now elapsed w w' p h = let e : w ≡ w' = cc in rw e at h

  watchdog-Holds :
      (state : ConnectionState) (since now : ℕ) (w : Worker) → H w → H (watchdog state since now w)
  unfolding watchdog
  watchdog-Holds state since now w h =
      let l = connection_lost-Holds config P kept now w h in ground arith

  resend_push_mask-Holds :
      (was : Bool) (now : ℕ) (io : TickIo) (w : Worker)
      → H w
      → H (resend_push_mask config was now io w)
  unfolding resend_push_mask
  resend_push_mask-Holds was now io w h =
      let clean : Worker = record w { auto_read_dirty = false } in
      let e =
        send_push_mask-Stays config P kept config now io.support_8_troubles_groups io.push clean
          h in
      ground arith

  ping_missed-Holds : (now : ℕ) (w : Worker) → H w → H (ping_missed config now w)
  unfolding ping_missed handle_ping_timeout connection_lost
  ping_missed-Holds now w h =
      let n = min (w.consecutive_missed_pings + 1) (2 ^ 32 - 1) in
      let lost = kept.turned ConnectionState.connection_lost (kept.answered h) in
      elim (Bool-cases (exceeded config n)) [
        | inl e ↦ rw (e, ping_missed) lost
        | inr e ↦ rw (e, ping_missed) (kept.unanswered n e h)
      ]

  keep_alive-Holds :
      (was : Bool) (now : ℕ) (io : TickIo) (w : Worker) → H w → H (keep_alive config was now io w)
  unfolding keep_alive
  keep_alive-Holds was now io w h =
      let x = exchange now (0x7E ∷ []) 0x7E io.ping true w in
      let e : H x.0 = exchange-Holds config P kept now (0x7E ∷ []) 0x7E io.ping true w h in
      let m = ping_missed-Holds now x.0 e in ground arith

  reconnect-Holds :
      (state : ConnectionState) (since now : ℕ) (io : TickIo) (w : Worker)
      → H w
      → H (reconnect config state since now io w)
  unfolding reconnect
  reconnect-Holds state since now io w h =
      let c = connect-Holds config P kept config now io.connecting (count_attempt w) h in
      ground arith

  tick-Holds : (now : ℕ) (io : TickIo) (w : Worker) → H w → H (tick config now io w)
  unfolding tick
  tick-Holds now io w h =
      let state = w.telemetry.status.state in
      let since = w.telemetry.status.last_event_at in
      let was = is_connected state in
      let h₁ = watchdog-Holds state since now w h in
      let h₂ = resend_push_mask-Holds was now io (watchdog state since now w) h₁ in
      let w₂ = resend_push_mask config was now io (watchdog state since now w) in
      reconnect-Holds state since now io (keep_alive config was now io w₂)
        (keep_alive-Holds was now io w₂ h₂)

  Step-Holds : {w w' : Worker} → Step config w w' → H w → H w'
  unfolding reset
  Step-Holds {w = w} (message now io conn m) h = handle_message-Holds now io conn m w h
  Step-Holds {w = w} {w' = w'} (pushed now read s c p) h = receive_push-Holds now read w w' p h
  Step-Holds {w = w} (ticked now io) h = tick-Holds now io w h
  Step-Holds reconfigured h = h
  Step-Holds (statistics_reset now) h = h

  pub Reach-Holds : P ConnectionState.disconnected 0 [] → (w : Worker) → Reach config w → H w
  Reach-Holds h w (started born now io) =
      connect-Holds config P kept config now io (new_worker born) h
  Reach-Holds h w (next {w = w'} r s) = Step-Holds s (Reach-Holds h w' r)
