-- ===== src/Parsers/Bits.antt =====
-- The loops of the parsers that turn mask bytes into flags: `parse_bit_states` (zones.rs),
-- `parse_partition_bits` (partitions.rs), the loop of outputs.rs and `extract_bits` (system.rs).
use satel_integra.Common.{
  ℕ, zero, suc, ◌+◌, ◌*◌, ◌/◌, ◌%◌, ◌^◌, ◌<◌, ◌≡◌, refl, sym, ap, ◌∙◌, bit_and, Bool, false, not,
  ◌||◌, Option, some, List, [], ◌∷◌, ◌++◌, ◌==◌, if◌then◌else◌, length, get_elem?, take, arith,
}
use mathlib.Core.Option

-- `(byte & (1 << bit)) != 0`
abbrev pub bit_set : ℕ → ℕ → Bool
bit_set byte bit = not (bit_and byte (2 ^ bit) == 0)

-- `for bit in 0..8 { push(f(bit)) }`
abbrev pub each_bit : (ℕ → Bool) → List Bool
each_bit f = f 0 ∷ f 1 ∷ f 2 ∷ f 3 ∷ f 4 ∷ f 5 ∷ f 6 ∷ f 7 ∷ []

unfoldable pub contains : List ℕ → ℕ → Bool
contains [] x = false
contains (y ∷ ys) x = (y == x) || contains ys x

pub final_state : List ℕ → ℕ → ℕ → ℕ → Bool
final_state invert_list byte_idx byte bit =
    let zone_id = (byte_idx * 8 + bit + 1) % 2 ^ 16 in
    let raw_state = bit_set byte bit in
    if contains invert_list zone_id then not raw_state else raw_state

states_from : List ℕ → ℕ → List ℕ → List Bool
states_from invert_list byte_idx [] = []
states_from invert_list byte_idx (byte ∷ rest) =
    each_bit (final_state invert_list byte_idx byte) ++ states_from invert_list (suc byte_idx) rest

unfoldable pub parse_bit_states : List ℕ → List ℕ → List Bool
unfolding states_from final_state
parse_bit_states bytes invert_list = states_from invert_list 0 bytes

unfoldable pub extract_bits : List ℕ → List Bool
extract_bits [] = []
extract_bits (byte ∷ rest) = each_bit (bit_set byte) ++ extract_bits rest

unfoldable pub parse_partition_bits : List ℕ → List Bool
unfolding extract_bits
parse_partition_bits bytes = extract_bits (take 4 bytes)

-- Position `n` of a list of eight entries followed by others.
abbrev chunk : (ℕ → Bool) → List Bool → ℕ → Option Bool
chunk f rest n = get_elem? (each_bit f ++ rest) n

get_elem?-chunk : (f : ℕ → Bool) (rest : List Bool) (n : ℕ) → n < 8 → chunk f rest n ≡ some (f n)
get_elem?-chunk f rest zero h = refl
get_elem?-chunk f rest (suc zero) h = refl
get_elem?-chunk f rest (suc (suc zero)) h = refl
get_elem?-chunk f rest (suc (suc (suc zero))) h = refl
get_elem?-chunk f rest (suc (suc (suc (suc zero)))) h = refl
get_elem?-chunk f rest (suc (suc (suc (suc (suc zero))))) h = refl
get_elem?-chunk f rest (suc (suc (suc (suc (suc (suc zero)))))) h = refl
get_elem?-chunk f rest (suc (suc (suc (suc (suc (suc (suc zero))))))) h = refl
get_elem?-chunk f rest (suc (suc (suc (suc (suc (suc (suc (suc n)))))))) h = absurd (omega arith)

abbrev eight_more : ℕ → ℕ
eight_more n = suc (suc (suc (suc (suc (suc (suc (suc n)))))))

-- The flag that the frame gives the item with number `8 * byte_idx + n + 1`: bit `n % 8` of byte
-- `n / 8`, turned round for a listed item.
abbrev flag_from : List ℕ → ℕ → List ℕ → ℕ → Option Bool
flag_from invert_list byte_idx bytes n =
    Option.map
      (λ byte.
        let raw = bit_set byte (n % 8) in
        if contains invert_list (8 * byte_idx + n + 1) then not raw else raw)
      (get_elem? bytes (n / 8))

unfoldable pub flag_at : List ℕ → List ℕ → ℕ → Option Bool
flag_at invert_list bytes n =
    Option.map
      (λ byte.
        let raw = bit_set byte (n % 8) in if contains invert_list (n + 1) then not raw else raw)
      (get_elem? bytes (n / 8))

first_flag :
    (invert_list : List ℕ) (byte_idx byte : ℕ) (rest : List ℕ) (n : ℕ)
    → n < 8
    → 8 * byte_idx + 8 < 2 ^ 16
    → get_elem? (states_from invert_list byte_idx (byte ∷ rest)) n
      ≡ flag_from invert_list byte_idx (byte ∷ rest) n
unfolding states_from final_state
first_flag invert_list byte_idx byte rest n h fits =
    let id : (byte_idx * 8 + n + 1) % 2 ^ 16 ≡ 8 * byte_idx + n + 1 = omega arith in
    let low : n / 8 ≡ 0 = omega arith in
    let same : n % 8 ≡ n = omega arith in
    rw (
      get_elem?-chunk (final_state invert_list byte_idx byte)
          (states_from invert_list (suc byte_idx) rest) n h,
      final_state,
      id,
      low,
      same,
    )

later_state :
    (invert_list : List ℕ) (byte_idx byte : ℕ) (rest : List ℕ) (m : ℕ)
    → get_elem? (states_from invert_list byte_idx (byte ∷ rest)) (eight_more m)
      ≡ get_elem? (states_from invert_list (suc byte_idx) rest) m
unfolding states_from
later_state invert_list byte_idx byte rest m = refl

later_flag :
    (invert_list : List ℕ) (byte_idx byte : ℕ) (rest : List ℕ) (m : ℕ)
    → flag_from invert_list byte_idx (byte ∷ rest) (eight_more m)
      ≡ flag_from invert_list (suc byte_idx) rest m
later_flag invert_list byte_idx byte rest m =
    let next : eight_more m / 8 ≡ suc (m / 8) = omega arith in
    let same : eight_more m % 8 ≡ m % 8 = omega arith in
    let id : 8 * byte_idx + eight_more m + 1 ≡ 8 * suc byte_idx + m + 1 = omega arith in
    rw (next, same, id)

get_elem?-states_from :
    (invert_list : List ℕ) (byte_idx : ℕ) (bytes : List ℕ) (n : ℕ)
    → 8 * (byte_idx + length bytes) < 2 ^ 16
    → get_elem? (states_from invert_list byte_idx bytes) n ≡ flag_from invert_list byte_idx bytes n
get_elem?-states_from invert_list byte_idx [] n fits = unfold states_from in refl
get_elem?-states_from invert_list byte_idx (byte ∷ rest) zero fits =
    first_flag invert_list byte_idx byte rest 0 (omega arith) (omega arith)
get_elem?-states_from invert_list byte_idx (byte ∷ rest) (suc zero) fits =
    first_flag invert_list byte_idx byte rest 1 (omega arith) (omega arith)
get_elem?-states_from invert_list byte_idx (byte ∷ rest) (suc (suc zero)) fits =
    first_flag invert_list byte_idx byte rest 2 (omega arith) (omega arith)
get_elem?-states_from invert_list byte_idx (byte ∷ rest) (suc (suc (suc zero))) fits =
    first_flag invert_list byte_idx byte rest 3 (omega arith) (omega arith)
get_elem?-states_from invert_list byte_idx (byte ∷ rest) (suc (suc (suc (suc zero)))) fits =
    first_flag invert_list byte_idx byte rest 4 (omega arith) (omega arith)
get_elem?-states_from invert_list byte_idx (byte ∷ rest) (suc (suc (suc (suc (suc zero))))) fits =
    first_flag invert_list byte_idx byte rest 5 (omega arith) (omega arith)
get_elem?-states_from invert_list byte_idx (byte ∷ rest) (suc (suc (suc (suc (suc (suc zero))))))
      fits =
    first_flag invert_list byte_idx byte rest 6 (omega arith) (omega arith)
get_elem?-states_from invert_list byte_idx (byte ∷ rest)
      (suc (suc (suc (suc (suc (suc (suc zero))))))) fits =
    first_flag invert_list byte_idx byte rest 7 (omega arith) (omega arith)
get_elem?-states_from invert_list byte_idx (byte ∷ rest)
      (suc (suc (suc (suc (suc (suc (suc (suc m)))))))) fits =
    later_state invert_list byte_idx byte rest m
    ∙ get_elem?-states_from invert_list (suc byte_idx) rest m (omega arith)
    ∙ sym (later_flag invert_list byte_idx byte rest m)

-- Entry `n` of the parsed flags is bit `n % 8` of byte `n / 8`, turned round exactly if the list
-- names the item `n + 1`, and there is no entry behind the last bit; for masks whose item numbers
-- fit sixteen bits.
pub get_elem?-parse_bit_states :
    (bytes invert_list : List ℕ) (n : ℕ)
    → 8 * length bytes < 2 ^ 16
    → get_elem? (parse_bit_states bytes invert_list) n ≡ flag_at invert_list bytes n
unfolding flag_at parse_bit_states
get_elem?-parse_bit_states bytes invert_list n fits =
    let id : 0 + n + 1 ≡ n + 1 = omega arith in
    rw id at (get_elem?-states_from invert_list 0 bytes n (omega arith))

pub length-parse_bit_states :
    (bytes invert_list : List ℕ) → length (parse_bit_states bytes invert_list) ≡ 8 * length bytes
unfolding parse_bit_states
length-parse_bit_states bytes invert_list = counted 0 bytes
  where
    counted : (i : ℕ) (bs : List ℕ) → length (states_from invert_list i bs) ≡ 8 * length bs
    counted i [] = refl
    counted i (b ∷ bs) = omega (arith, counted (suc i) bs)

-- `extract_bits` is the mask with no item turned round.
pub extract_bits-parse_bit_states :
    (bytes : List ℕ) → extract_bits bytes ≡ parse_bit_states bytes []
unfolding parse_bit_states extract_bits contains final_state states_from
extract_bits-parse_bit_states bytes = from 0 bytes
  where
    from : (i : ℕ) (bs : List ℕ) → extract_bits bs ≡ states_from [] i bs
    from i [] = refl
    from i (b ∷ bs) = ap (λ rest. each_bit (bit_set b) ++ rest) (from (suc i) bs)
