-- ===== src/Worker/Failures.antt =====
-- src/worker.rs: how a failed attempt to connect is counted.
use satel_integra.Common.{ℕ, ◌+◌, ◌%◌, ◌^◌, true, false, List, [], ◌∷◌, ◌≡◌, arith, refl, ◌∙◌, ap}
use satel_integra.Error.{SatelError, ok, err}
use satel_integra.Config.{Config}
use satel_integra.Worker.{Worker, connection_lost, set_state_connecting, set_state_handshake}
use satel_integra.Worker.Exchange.{Read, closed, written, exchange, receive, sent}
use satel_integra.Worker.Connect.{
  ConnectIo, connect, connect_physical, established, connect_handshake, query_module_version,
  or_lost,
}

abbrev pub attempts : Worker → ℕ
attempts w = w.telemetry.status.failed_attempts

connection_lost-attempts :
    (now : ℕ) (w : Worker) → attempts (connection_lost now w) ≡ (attempts w + 1) % 2 ^ 32
unfolding connection_lost
connection_lost-attempts now w = ground arith

-- An attempt to connect whose line cannot be opened is counted once.
pub connect-unopened :
    (config : Config) (now : ℕ) (io : ConnectIo) (e : SatelError) (w : Worker)
    → connect_physical config io.opened ≡ err e
    → ((connect config now io w).1 ≡ err e)
      × (attempts (connect config now io w).0 ≡ (attempts w + 1) % 2 ^ 32)
unfolding connect set_state_connecting
connect-unopened config now io e w p =
    let l =
      connection_lost-attempts now
        (record (set_state_connecting now w) { auto_read_dirty = false }) in
    ground arith

-- The line is opened, and closed by the other side before it answers the first request.
abbrev pub closed_at_once : ConnectIo → List Read → ConnectIo
closed_at_once io more = record io {
  opened = ok tt;
  ethm = record { write = written; reads = closed ∷ more };
}

established-closed :
    (config : Config) (now : ℕ) (io : ConnectIo) (more : List Read) (w : Worker)
    → established config now (closed_at_once io more) (record w { stream = true }) ≡ (
      connection_lost now
          (connection_lost now (sent (0x7C ∷ []) false now (record w { stream = true }))),
      err SatelError.stream_closed,
    )
unfolding established connect_handshake query_module_version or_lost exchange receive
established-closed config now io more w = refl

-- An attempt to connect whose line is opened and then closed before the first answer is counted as two
-- failed attempts: the exchange loses the connection, and the handshake loses it once more.
pub connect-closed :
    (config : Config) (now : ℕ) (io : ConnectIo) (more : List Read) (w : Worker)
    → connect_physical config (ok tt) ≡ ok tt
    → let out = connect config now (closed_at_once io more) w in
      (out.1 ≡ err SatelError.stream_closed)
      × (attempts out.0 ≡ ((attempts w + 1) % 2 ^ 32 + 1) % 2 ^ 32)
unfolding connect set_state_connecting set_state_handshake sent
connect-closed config now io more w p =
    let w₂ =
      set_state_handshake now
        (record (set_state_connecting now w) { auto_read_dirty = false; stream = true }) in
    let e = established-closed config now io more w₂ in
    let s = sent (0x7C ∷ []) false now w₂ in
    let a = connection_lost-attempts now s in
    let b = connection_lost-attempts now (connection_lost now s) in
    let q : connect config now (closed_at_once io more) w
        ≡ established config now (closed_at_once io more) w₂ =
      rw (p, connect) in
    (
      ap (λ out. out.1) (q ∙ e),
      ap (λ out. attempts out.0) (q ∙ e) ∙ (b ∙ ap (λ n. (n + 1) % 2 ^ 32) a),
    )
