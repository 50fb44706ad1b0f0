-- ===== src/Worker/Exchange.antt =====
-- src/worker.rs, `satel_connection_worker_exchange`: a request is written, and frames are read until
-- the answer comes; what is not the answer goes to the state worker.
use satel_integra.Common.{
  ℕ, Bool, true, false, not, ◌&&◌, ◌||◌, List, [], ◌∷◌, ◌++◌, ◌==◌, if◌then◌else◌,
}
use satel_integra.Error.{SatelError, Result, ok, err}
use satel_integra.Telemetry.{increment}
use satel_integra.Worker.{
  Worker, StateWorkerMessage, notify_state_worker, reset_missed_pings, connection_lost,
}

-- `timeout(write_timeout, stream.send(data))`
pub data Write : Type 0 where
  written write_error write_timeout : Write

-- `timeout(remaining, stream.next())`
pub data Read : Type 0 where
  received : List ℕ → Read
  read_error closed elapsed : Read

-- What the stream does in one exchange. Where the list ends, `read_timeout` has passed.
pub record ExchangeIo : Type 0 where
  pub write : Write
  pub reads : List Read

-- A step of the worker that may fail; the worker's changes stay when it does.
abbrev pub W {ℓ} : Type ℓ → Type ℓ
W A = Worker → Worker × Result A

infixl 5 ◌>>=◌ ◌>>◌
abbrev pub ◌>>=◌ : {A B : Type 0} → W A → (A → W B) → W B
◌>>=◌ m f w =
    let (w', r) = m w in
    let out : Worker × Result _ = elim r [ ok a ↦ f a w' | err e ↦ (w', err e) ] in out

abbrev pub ◌>>◌ : {B : Type 0} → W (Unit {0}) → W B → W B
m >> k = m >>= λ _. k

abbrev pub count_timeout : Worker → Worker
count_timeout w = record w {
  telemetry = record (w.telemetry) { timeouts = increment w.telemetry.timeouts };
}

abbrev pub count_io_error : Worker → Worker
count_io_error w = record w {
  telemetry = record (w.telemetry) { io_errors = increment w.telemetry.io_errors };
}

abbrev pub count_frame : Worker → Worker
count_frame w = record w {
  telemetry = record (w.telemetry) { non_ping_frames = increment w.telemetry.non_ping_frames };
}

abbrev count_rejected : Worker → Worker
count_rejected w = record w {
  telemetry = record (w.telemetry) { rejected_by_panel = increment w.telemetry.rejected_by_panel };
}

-- `frame.get(1) == Some(&0xFF)`, on what follows the first byte.
abbrev pub says_accepted : List ℕ → Bool
says_accepted [] = false
says_accepted (code ∷ rest) = code == 0xFF

-- Is the frame handed to the state worker?
abbrev pub is_forwarded : ℕ → ℕ → List ℕ → Bool
is_forwarded expected_cmd first rest =
    let is_result_code = first == 0xEF in
    (not (first == expected_cmd) || is_result_code)
    && (not (is_result_code && says_accepted rest)
        && not ((expected_cmd == 0xEE) && is_result_code))

abbrev pub is_answer : ℕ → ℕ → Bool
is_answer expected_cmd first = (first == expected_cmd) || (first == 0xEF)

-- The bookkeeping for a frame that is not empty.
unfoldable pub observe : ℕ → Bool → ℕ → List ℕ → Worker → Worker
unfolding notify_state_worker reset_missed_pings
observe expected_cmd is_ping first rest w =
    let is_result_code = first == 0xEF in
    let w₁ = reset_missed_pings w in
    let w₂ = if is_result_code && not (says_accepted rest) then count_rejected w₁ else w₁ in
    let w₃ = if not is_ping || not (is_answer expected_cmd first) then count_frame w₂ else w₂ in
    if is_forwarded expected_cmd first rest
    then notify_state_worker (StateWorkerMessage.frame (first ∷ rest)) w₃
    else w₃

-- The loop that reads.
unfoldable pub receive : ℕ → Bool → ℕ → List Read → W (List ℕ)
unfolding observe
receive expected_cmd is_ping now [] w = (count_timeout w, err SatelError.timeout)
receive expected_cmd is_ping now (elapsed ∷ reads) w = (count_timeout w, err SatelError.timeout)
receive expected_cmd is_ping now (read_error ∷ reads) w =
    (connection_lost now (count_io_error w), err SatelError.io)
receive expected_cmd is_ping now (closed ∷ reads) w =
    (connection_lost now w, err SatelError.stream_closed)
receive expected_cmd is_ping now (received [] ∷ reads) w = receive expected_cmd is_ping now reads w
receive expected_cmd is_ping now (received (first ∷ rest) ∷ reads) w =
    let w' = observe expected_cmd is_ping first rest w in
    let more = receive expected_cmd is_ping now reads w' in
    if is_answer expected_cmd first then (w', ok (first ∷ rest)) else more

-- The bookkeeping for a request that was sent.
unfoldable pub sent : List ℕ → Bool → ℕ → Worker → Worker
sent request is_ping now w =
    let t = if is_ping then w.telemetry else (count_frame w).telemetry in
    record w { telemetry = record t { last_send_at = now }; written = w.written ++ (request ∷ []) }

unfoldable pub exchange : ℕ → List ℕ → ℕ → ExchangeIo → Bool → W (List ℕ)
unfolding receive sent
exchange now request expected_cmd io is_ping w =
    let failed = connection_lost now (count_io_error w) in
    let reading = receive expected_cmd is_ping now io.reads (sent request is_ping now w) in
    elim w.stream [
      | false ↦ (w, err SatelError.not_connected)
      | true ↦ elim io.write [
        | written ↦ reading
        | write_error ↦ (failed, err SatelError.io)
        | write_timeout ↦ (count_timeout w, err SatelError.timeout)
      ]
    ]
