-- ===== src/Worker/Runs.antt =====
-- The actor in concrete runs: a connection, a request between pushes, a lost ping, a lost line.
use satel_integra.Config.{Config}
use satel_integra.Command.{to_byte}
use satel_integra.Parsers.Bits.{bit_set}
use satel_integra.Parsers.Versions.{byte_at}
use satel_integra.Worker.PushMask.{build_push_mask}
use satel_integra.Worker.PushCategories.{categories, is_wanted, byte_at-build_push_mask}
use satel_integra.Common.{◌/◌, arith}
use satel_integra.Common.{
  ℕ, ◌+◌, ◌%◌, ◌^◌, ◌<◌, ◌≤◌, ◌≡◌, ◌⊎◌, ◌↔◌, ◌++◌, true, false, none, List, [], ◌∷◌, refl, map,
}
use satel_integra.Error.{SatelError, ok, err}
use satel_integra.Parsers.Versions.{process_ethm_version, process_integra_version}
use satel_integra.Config.{is_auto_read_enabled, default_config}
use satel_integra.Telemetry.{ConnectionState}
use satel_integra.Worker.{
  set_state_handshake, set_state_connected, Worker, connection_lost, disconnect,
}
use satel_integra.Worker.Exchange.{ExchangeIo, received, elapsed, written, exchange}
use satel_integra.Worker.Connect.{ConnectIo, connect, connect_physical}
use satel_integra.Worker.Loop.{TickIo, tick, receive_push}
use satel_integra.Worker.Steps.{Reach, started, next, ticked, new_worker}
use satel_integra.Worker.Sessions.{At, AtOrLost, After}
use satel_integra.Worker.Connecting.{connect-At}
use satel_integra.Worker.Consistency.{IsConsistent}
use satel_integra.Worker.Ticks.{Reach-IsConsistent}
use satel_integra.Worker.Accounting.{total_connected, total_connected-ended}
use satel_integra.Worker.Answers.{exchange-answer, told, told_answer}
use satel_integra.Worker.Failures.{attempts, connect-closed, closed_at_once}
use satel_integra.Worker.Pings.{Reach-missed_pings}
use satel_integra.Worker.Announcements.{Reach-last_heard, last_heard}
use satel_integra.Worker.Backoff.{calculate_backoff, calculate_backoff_lem}

abbrev answering : List ℕ → ExchangeIo
answering frame = record { write = written; reads = received frame ∷ [] }

abbrev silent : ExchangeIo
silent = record { write = written; reads = elapsed ∷ [] }

abbrev panel : ConnectIo
panel = record {
  opened = ok tt;
  ethm = answering (0x7C ∷ 49 ∷ 50 ∷ 51 ∷ 52 ∷ 50 ∷ 48 ∷ 49 ∷ 50 ∷ 48 ∷ 49 ∷ 50 ∷ 3 ∷ []);
  integra =
      answering (0x7E ∷ 72 ∷ 49 ∷ 50 ∷ 51 ∷ 52 ∷ 50 ∷ 48 ∷ 49 ∷ 50 ∷ 48 ∷ 49 ∷ 50 ∷ 1 ∷ 255 ∷ []);
  support_8_troubles_groups = true;
  push = answering (0xEF ∷ 0xFF ∷ []);
}

abbrev online : Worker
online = (connect default_config 5 panel (new_worker 0)).0

abbrev clock : TickIo
clock = record {
  support_8_troubles_groups = true;
  push = silent;
  ping = silent;
  connecting = panel;
}

abbrev one_missed : Worker
one_missed = tick default_config 3_000_000_005 clock online

online-Reach : Reach default_config online
online-Reach = started 0 5 panel

one_missed-Reach : Reach default_config one_missed
one_missed-Reach = next online-Reach (ticked 3_000_000_005 clock)

online_state : online.telemetry.status.state ≡ ConnectionState.connected
unfolding connect exchange set_state_handshake process_ethm_version process_integra_version
    is_auto_read_enabled set_state_connected
online_state = refl

one_missed_count : one_missed.consecutive_missed_pings ≡ 1
unfolding tick connect exchange set_state_handshake process_ethm_version process_integra_version
    is_auto_read_enabled set_state_connected
one_missed_count = refl

-- An empty frame makes the actor panic.
receive_push_empty : receive_push 5 (received []) online ≡ none
unfolding receive_push
receive_push_empty = refl

online-stream : online.stream ≡ true
unfolding connect exchange set_state_handshake process_ethm_version process_integra_version
    is_auto_read_enabled set_state_connected
online-stream = refl

connect-At_example :
    After
      (At ConnectionState.connected)
      (AtOrLost ConnectionState.handshake)
      (connect default_config 5 panel (new_worker 0))
connect-At_example = connect-At default_config 5 panel (new_worker 0) refl refl

Reach-IsConsistent_example : IsConsistent one_missed
Reach-IsConsistent_example = Reach-IsConsistent default_config one_missed one_missed-Reach

Reach-missed_pings_example :
    (default_config.max_missed_pings ≡ 0)
    ⊎ (one_missed.consecutive_missed_pings < default_config.max_missed_pings)
Reach-missed_pings_example = Reach-missed_pings default_config one_missed one_missed-Reach

Reach-last_heard_example :
    last_heard ConnectionState.disconnected one_missed.notified ≡ one_missed.telemetry.status.state
Reach-last_heard_example = Reach-last_heard default_config one_missed one_missed-Reach

total_connected-ended_example :
    (total_connected 900 (connection_lost 505 online) ≡ total_connected 505 online)
    × (total_connected 900 (disconnect 505 online) ≡ total_connected 505 online)
total_connected-ended_example =
    total_connected-ended 505 900 online (Reach-IsConsistent default_config online online-Reach)

abbrev violation : List ℕ
violation = 0x00 ∷ 0x01 ∷ []

abbrev busy : ExchangeIo
busy = record {
  write = written;
  reads = map received (violation ∷ [] ∷ []) ++ (received (0xEF ∷ 0x03 ∷ []) ∷ []);
}

exchange-answer_example :
    ((exchange 9 (0x80 ∷ []) 0x80 busy false online).1 ≡ ok (0xEF ∷ 0x03 ∷ []))
    × ((exchange 9 (0x80 ∷ []) 0x80 busy false online).0.notified
        ≡ online.notified ++ (told (violation ∷ [] ∷ []) ++ told_answer 0x80 0xEF (0x03 ∷ [])))
exchange-answer_example =
    exchange-answer 9 (0x80 ∷ []) 0x80 (violation ∷ [] ∷ []) 0xEF (0x03 ∷ []) [] false online
      online-stream (refl, (tt, tt)) refl

connect-closed_example :
    ((connect default_config 5 (closed_at_once panel []) (new_worker 0)).1
      ≡ err SatelError.stream_closed)
    × (attempts (connect default_config 5 (closed_at_once panel []) (new_worker 0)).0
        ≡ ((0 + 1) % 2 ^ 32 + 1) % 2 ^ 32)
unfolding connect_physical
connect-closed_example = connect-closed default_config 5 panel [] (new_worker 0) refl

calculate_backoff_lem_example :
    calculate_backoff 3 ≤ calculate_backoff 9
    × (500 ≤ calculate_backoff 3 × calculate_backoff 3 ≤ 60000)
    × ((calculate_backoff 3 ≡ 60000) ↔ (8 ≤ 3))
calculate_backoff_lem_example = calculate_backoff_lem 3 9 (omega arith)

abbrev pushing : Config
pushing = record default_config { auto_read_outputs_state = true }

byte_at-build_push_mask_example :
    bit_set (byte_at (build_push_mask pushing false) (23 / 8)) (23 % 8)
    ≡ is_wanted (categories pushing) 23
byte_at-build_push_mask_example = byte_at-build_push_mask pushing false 23

wanted_outputs : is_wanted (categories pushing) 23 ≡ true
unfolding to_byte
wanted_outputs = refl
