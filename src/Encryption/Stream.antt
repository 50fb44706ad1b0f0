-- ===== src/Encryption/Stream.antt =====
-- src/encryption.rs, `EncryptedStream`: the packets of a session. The inner stream is left out: a
-- write fills the write buffer with the packet that goes to it, a read is given what came from it.
use satel_integra.Common.{
  ℕ, zero, suc, ◌+◌, ◌-◌, ◌/◌, ◌%◌, ◌^◌, max, min, Option, none, some, List, [], ◌∷◌, ◌++◌, length,
  take, drop, leb, ltb, if◌then◌else◌, get_elem?,
}
use satel_integra.Encryption.{Aes, repeat, encrypt, decrypt}

pub record Stream : Type 0 where
  pub id_s : ℕ
  pub id_r : ℕ
  pub rolling_counter : ℕ
  pub read_buffer : List ℕ
  pub raw_read_buffer : List ℕ
  pub expected_resp_len : Option ℕ
  pub write_buffer : List ℕ

abbrev pub new_stream : Stream
new_stream = record {
  id_s = 0;
  id_r = 0;
  rolling_counter = 0;
  read_buffer = [];
  raw_read_buffer = [];
  expected_resp_len = none;
  write_buffer = [];
}

-- The six bytes before the message.
abbrev pub packet_header : ℕ → ℕ → ℕ → ℕ → List ℕ
packet_header random_val counter id_s id_r =
    random_val / 256 ∷ random_val % 256 ∷ counter / 256 ∷ counter % 256 ∷ id_s ∷ id_r ∷ []

-- A byte of the raw buffer is dropped in each round but perhaps the first.
abbrev pub enough_fuel : Stream → ℕ
enough_fuel s = suc (suc (length s.raw_read_buffer))

module _ (aes : Aes) where
  -- `poll_write` once the earlier output is flushed, up to the write to the inner stream: the random
  -- numbers are arguments. The length prefix `bytes_count as u8` keeps the lowest byte.
  unfoldable pub poll_write : ℕ → ℕ → List ℕ → Stream → Stream
  poll_write random_val random_id [] s = s
  poll_write random_val random_id (b ∷ bs) s =
      let bytes_count = max 16 (6 + length (b ∷ bs)) in
      let packet =
        packet_header random_val s.rolling_counter random_id s.id_r
        ++ ((b ∷ bs) ++ repeat (bytes_count - (6 + length (b ∷ bs))) 0) in
      record s {
        id_s = random_id;
        rolling_counter = (s.rolling_counter + 1) % 2 ^ 16;
        write_buffer = bytes_count % 256 ∷ encrypt aes packet;
      }

  -- A packet that has been split off, decrypted.
  unfoldable pub accept : List ℕ → Stream → Stream
  accept packet_data s =
      if leb 6 (length packet_data)
      then record s {
        id_r = elim (get_elem? packet_data 4) [ none ↦ s.id_r | some id ↦ id ];
        read_buffer = s.read_buffer ++ drop 6 packet_data;
      }
      else s

  -- The part of the loop under `if let Some(target_len)`; the rounds after it are an argument.
  unfoldable pub take_packet : (Stream → Option Stream) → ℕ → List ℕ → Stream → Option Stream
  unfolding accept
  take_packet again target_len raw s =
      let whole = again (
        accept (decrypt aes (take target_len raw))
          (record s { raw_read_buffer = drop target_len raw; expected_resp_len = none })) in
      if ltb (length raw) target_len
      then some (record s { raw_read_buffer = raw; expected_resp_len = some target_len })
      else whole

  -- The loop over the packets in the raw buffer, a round at a time; `none` is no result of the code:
  -- the fuel ran out.
  unfoldable pub process_packets : ℕ → Stream → Option Stream
  unfolding take_packet
  process_packets zero s = none
  process_packets (suc fuel) s = elim s.expected_resp_len [
    | some target_len ↦ take_packet (process_packets fuel) target_len s.raw_read_buffer s
    | none ↦ elim s.raw_read_buffer [
      | [] ↦ some s
      | len_prefix ∷ raw ↦ take_packet (process_packets fuel) len_prefix raw s
    ]
  ]

  -- `poll_read` when bytes come from the inner stream: what it has decrypted is in the read buffer.
  unfoldable pub receive : List ℕ → Stream → Option Stream
  unfolding process_packets
  receive filled s =
      let s' : Stream = record s { raw_read_buffer = s.raw_read_buffer ++ filled } in
      process_packets (enough_fuel s') s'

-- `poll_read` when the read buffer is not empty: at most `remaining` bytes are given out.
unfoldable pub poll_buffered : ℕ → Stream → List ℕ × Stream
poll_buffered remaining s =
    let to_copy = min (length s.read_buffer) remaining in
    (take to_copy s.read_buffer, record s { read_buffer = drop to_copy s.read_buffer })
