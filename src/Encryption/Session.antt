-- ===== src/Encryption/Session.antt =====
-- src/encryption.rs: what one end writes, the other end reads.
use satel_integra.Common.{true}
use satel_integra.Common.{leb}
use satel_integra.Common.{get_elem?}
use satel_integra.Common.{false}
use satel_integra.Common.{List-cases}
use satel_integra.Common.{Option-cases}
use satel_integra.Common.{inl, inr, ltb}
use satel_integra.Common.{Bool-cases}
use satel_integra.Common.{length-drop}
use satel_integra.Encryption.Stream.{take_packet}
use satel_integra.Common.{
  ℕ, zero, suc, ◌+◌, ◌-◌, ◌%◌, ◌^◌, ◌≤◌, ◌<◌, ◌≡◌, max, Option, none, some, List, [], ◌∷◌, ◌++◌,
  length, take, drop, All, length-append, arith, refl, ap, ◌∙◌,
}
use satel_integra.Encryption.{Aes, repeat, encrypt, decrypt}
use satel_integra.Encryption.Bytes.{IsByte, repeat-All}
use satel_integra.Encryption.Chain.{IsCipher, decrypt-encrypt}
use satel_integra.Encryption.Packets.{append-All, length-repeat, take-length}
use satel_integra.Encryption.Stream.{
  Stream, poll_write, accept, process_packets, receive, enough_fuel, packet_header,
}

abbrev pub Ends : Option Stream → Type 0
Ends o = (s : Stream) × (o ≡ some s)

module _ (aes : Aes) where
  accept-raw :
      (packet_data : List ℕ) (s : Stream)
      → ((accept aes packet_data s).raw_read_buffer ≡ s.raw_read_buffer)
        × ((accept aes packet_data s).expected_resp_len ≡ s.expected_resp_len)
  unfolding accept
  accept-raw packet_data s = ground arith

  take_packet-Ends :
      (again : Stream → Option Stream) (target_len : ℕ) (raw : List ℕ) (s : Stream)
      → ((t : Stream)
          → t.expected_resp_len ≡ none
          → length t.raw_read_buffer ≤ length raw
          → Ends (again t))
      → Ends (take_packet aes again target_len raw s)
  unfolding take_packet
  take_packet-Ends again target_len raw s h =
      let rest : Stream = record s {
        raw_read_buffer = drop target_len raw;
        expected_resp_len = none;
      } in
      let packet = decrypt aes (take target_len raw) in
      let a = accept-raw packet rest in
      let l = length-drop target_len raw in
      let e = h (accept aes packet rest) a.1 (rw a.0 (omega arith)) in
      elim (Bool-cases (ltb (length raw) target_len)) [ inl q ↦ rw q (_, refl) | inr q ↦ rw q e ]

  process_packets-empty :
      (fuel : ℕ) (s : Stream)
      → s.expected_resp_len ≡ none
      → s.raw_read_buffer ≡ []
      → process_packets aes (suc fuel) s ≡ some s
  unfolding process_packets
  process_packets-empty fuel s e q = ground arith

  process_packets-prefix :
      (fuel : ℕ) (s : Stream) (len_prefix : ℕ) (raw : List ℕ)
      → s.expected_resp_len ≡ none
      → s.raw_read_buffer ≡ len_prefix ∷ raw
      → process_packets aes (suc fuel) s
        ≡ take_packet aes (process_packets aes fuel) len_prefix raw s
  unfolding process_packets
  process_packets-prefix fuel s len_prefix raw e q = ground arith

  process_packets-begun :
      (fuel : ℕ) (s : Stream) (target_len : ℕ)
      → s.expected_resp_len ≡ some target_len
      → process_packets aes (suc fuel) s
        ≡ take_packet aes (process_packets aes fuel) target_len s.raw_read_buffer s
  unfolding process_packets
  process_packets-begun fuel s target_len e = ground arith

  process_packets-rest :
      (fuel : ℕ) (s : Stream)
      → s.expected_resp_len ≡ none
      → length s.raw_read_buffer < fuel
      → Ends (process_packets aes fuel s)
  process_packets-rest zero s e h = absurd (omega arith)
  process_packets-rest (suc fuel) s e h = elim (List-cases s.raw_read_buffer) [
    | inl q ↦ (s, process_packets-empty fuel s e q)
    | inr (len_prefix, raw, q) ↦
        let l : length s.raw_read_buffer ≡ suc (length raw) = ap length q in
        let r =
          take_packet-Ends (process_packets aes fuel) len_prefix raw s
            (λ t e' h'. process_packets-rest fuel t e' (omega arith)) in
        (r.0, process_packets-prefix fuel s len_prefix raw e q ∙ r.1)
  ]

  -- Whatever bytes come in, in whatever state of the stream, the loop over the packets ends.
  pub receive-Ends : (filled : List ℕ) (s : Stream) → Ends (receive aes filled s)
  unfolding receive
  receive-Ends filled s =
      let t : Stream = record s { raw_read_buffer = s.raw_read_buffer ++ filled } in
      elim (Option-cases s.expected_resp_len) [
        | inl e ↦ process_packets-rest (enough_fuel t) t e (omega arith)
        | inr (target_len, e) ↦
            let r =
              take_packet-Ends (process_packets aes (suc (length t.raw_read_buffer))) target_len
                t.raw_read_buffer t
                (λ u e' h'.
                  process_packets-rest (suc (length t.raw_read_buffer)) u e' (omega arith)) in
            (r.0, process_packets-begun (suc (length t.raw_read_buffer)) t target_len e ∙ r.1)
      ]

-- A stream that waits for the length prefix of a packet.
abbrev pub at_rest : Stream → Stream
at_rest s = record s { raw_read_buffer = []; expected_resp_len = none }

drop-length : (xs : List ℕ) → drop (length xs) xs ≡ []
drop-length [] = refl
drop-length (x ∷ xs) = drop-length xs

module _ (aes : Aes) (cipher : IsCipher aes) where
  accept-message :
      (packet : List ℕ) (id : ℕ) (s : Stream)
      → 6 ≤ length packet
      → get_elem? packet 4 ≡ some id
      → accept aes packet s ≡ record s { id_r = id; read_buffer = s.read_buffer ++ drop 6 packet }
  unfolding accept
  accept-message packet id s h e = let l : leb 6 (length packet) ≡ true = ground arith in rw (l, e)

  take_packet-whole :
      (again : Stream → Option Stream) (n : ℕ) (raw : List ℕ) (s : Stream)
      → length raw ≡ n
      → take_packet aes again n raw s ≡ again (accept aes (decrypt aes raw) (at_rest s))
  unfolding take_packet
  take_packet-whole again n raw s e =
      let t : take n raw ≡ raw = rw e at (take-length raw) in
      let d : drop n raw ≡ [] = rw e at (drop-length raw) in
      let l : ltb (length raw) n ≡ false = ground arith in rw (l, t, d)

  receive-packet :
      (n : ℕ) (plain : List ℕ) (s : Stream)
      → All IsByte plain
      → length plain ≡ n
      → receive aes (n ∷ encrypt aes plain) (at_rest s) ≡ some (accept aes plain (at_rest s))
  unfolding receive
  receive-packet n plain s h e =
      let sealed = encrypt aes plain in
      let r = decrypt-encrypt aes cipher plain h in
      let t : Stream = record s { raw_read_buffer = n ∷ sealed; expected_resp_len = none } in
      let again = process_packets aes (suc (length (n ∷ sealed))) in
      let opened = accept aes (decrypt aes sealed) (at_rest s) in
      let a = accept-raw aes (decrypt aes sealed) (at_rest s) in
      let s₁ = process_packets-prefix aes (suc (length (n ∷ sealed))) t n sealed refl refl in
      let s₂ = take_packet-whole again n sealed t (r.1 ∙ e) in
      let s₃ = process_packets-empty aes (length (n ∷ sealed)) opened a.1 a.0 in
      let s₄ = ap (λ p. some (accept aes p (at_rest s))) r.0 in s₁ ∙ (s₂ ∙ (s₃ ∙ s₄))

  -- A message of 1 to 249 bytes that one end writes reaches the other end, which waits for a packet,
  -- whole, with zeros behind it up to the length 10 if it is shorter; the receiving end then holds the
  -- identifier that the packet was sent with, and waits for the next packet.
  pub receive-poll_write :
      (random_val random_id b : ℕ) (bs : List ℕ) (sender receiver : Stream)
      → random_val < 2 ^ 16
      → IsByte random_id
      → sender.rolling_counter < 2 ^ 16
      → IsByte sender.id_r
      → All IsByte (b ∷ bs)
      → length (b ∷ bs) < 250
      → receive aes
          (poll_write aes random_val random_id (b ∷ bs) sender).write_buffer
          (at_rest receiver)
        ≡ some (record (at_rest receiver) {
          id_r = random_id;
          read_buffer = receiver.read_buffer ++ ((b ∷ bs) ++ repeat (10 - length (b ∷ bs)) 0);
        })
  unfolding poll_write
  receive-poll_write random_val random_id b bs sender receiver v i c r h l =
      let count = max 16 (6 + length (b ∷ bs)) in
      let zeros = count - (6 + length (b ∷ bs)) in
      let padding = repeat zeros 0 in
      let header = packet_header random_val sender.rolling_counter random_id sender.id_r in
      let plain = header ++ ((b ∷ bs) ++ padding) in
      let k : All IsByte header =
        (omega arith, (omega arith, (omega arith, (omega arith, (i, (r, tt)))))) in
      let m : All IsByte plain =
        append-All header ((b ∷ bs) ++ padding) k
          (append-All (b ∷ bs) padding h (repeat-All zeros 0 (omega arith))) in
      let a = length-append bs padding in
      let z : length padding ≡ zeros = length-repeat zeros 0 in
      let n : length plain ≡ count = omega arith in
      let p = receive-packet count plain receiver m n in
      let e : count % 256 ≡ count = omega arith in
      let q : zeros ≡ 10 - length (b ∷ bs) = omega arith in
      let s₁ = ap (λ x. receive aes (x ∷ encrypt aes plain) (at_rest receiver)) e in
      let long : 6 ≤ length plain = omega arith in
      let s₂ = accept-message plain random_id (at_rest receiver) long refl in
      let s₃ =
        ap
          (λ x. some (record (at_rest receiver) {
            id_r = random_id;
            read_buffer = receiver.read_buffer ++ ((b ∷ bs) ++ repeat x 0);
          }))
          q in
      s₁ ∙ (p ∙ (ap (λ x. some x) s₂ ∙ s₃))
