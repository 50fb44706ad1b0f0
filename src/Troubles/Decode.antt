-- ===== src/Troubles/Decode.antt =====
-- src/parsers/system.rs, `decode_troubles`: from the bytes of a frame of troubles to the troubles.
-- `none` is a panic, of a range or an index that the bytes do not have.
pub mod Latch
pub mod Masks
use satel_integra.Common.{
  ℕ, zero, suc, ◌+◌, ◌%◌, ◌^◌, Bool, Option, none, some, List, [], ◌∷◌, ◌++◌, ltb, leb,
  if◌then◌else◌, length, get_elem?,
}
use satel_integra.Common.Panics.{◌>>=◌, slice}
use satel_integra.Error.{SatelError, Result, ok, err}
use satel_integra.Parsers.Bits.{bit_set, extract_bits, each_bit}
use satel_integra.Troubles.Types.{TroubleType, TroubleItem, flag}
use satel_integra.Troubles.Rules.{FieldRule, bitmask, module_mask, custom, bitmask_limit, get_rules}

-- `for (i, &active) in bits.iter().enumerate()`, from index `i` on: the trouble of a bit is named by
-- `start_num + i`.
unfoldable pub bit_flags : ℕ → Bool → (ℕ → TroubleType) → ℕ → List Bool → List TroubleItem
bit_flags start_num memory make i [] = []
bit_flags start_num memory make i (active ∷ bits) =
    flag (make ((start_num + i % 2 ^ 16) % 2 ^ 16)) memory active
    ∷ bit_flags start_num memory make (i + 1) bits

-- The same loop with `if i >= limit { break; }`.
unfoldable pub limited_flags : ℕ → ℕ → Bool → (ℕ → TroubleType) → ℕ → List Bool → List TroubleItem
limited_flags limit start_num memory make i [] = []
limited_flags limit start_num memory make i (active ∷ bits) =
    let rest = limited_flags limit start_num memory make (i + 1) bits in
    if leb limit i then [] else flag (make ((start_num + i % 2 ^ 16) % 2 ^ 16)) memory active ∷ rest

-- `for bit in 0..8`, from `bit` on.
unfoldable pub module_flags : Bool → (ℕ → TroubleType) → ℕ → List Bool → List TroubleItem
module_flags memory make bit [] = []
module_flags memory make bit (active ∷ rest) =
    flag (make ((bit + 1) % 2 ^ 8)) memory active ∷ module_flags memory make (bit + 1) rest

unfoldable pub decode_rule : List ℕ → FieldRule → Option (List TroubleItem)
unfolding bit_flags limited_flags module_flags extract_bits
decode_rule bytes (bitmask offset size start_num memory make) = do
  part ← slice bytes offset (offset + size)
  some (bit_flags start_num memory make 0 (extract_bits part))
decode_rule bytes (module_mask offset memory make) = do
  byte ← get_elem? bytes offset
  some (module_flags memory make 0 (each_bit (bit_set byte)))
decode_rule bytes (custom memory extractor) = extractor bytes memory
decode_rule bytes (bitmask_limit offset size limit start_num memory make) = do
  part ← slice bytes offset (offset + size)
  some (limited_flags limit start_num memory make 0 (extract_bits part))

unfoldable pub decode_rules : List ℕ → List FieldRule → Option (List TroubleItem)
unfolding decode_rule
decode_rules bytes [] = some []
decode_rules bytes (rule ∷ rules) = do
  items ← decode_rule bytes rule
  more ← decode_rules bytes rules
  some (items ++ more)

-- What the command's table says, on enough bytes.
unfoldable pub decode_with :
    List ℕ → Option (ℕ × List FieldRule) → Option (Result (List TroubleItem))
unfolding decode_rules
decode_with bytes none = some (err SatelError.invalid_frame)
decode_with bytes (some (expected_len, rules)) =
    if ltb (length bytes) expected_len
    then some (err SatelError.invalid_frame)
    else do items ← decode_rules bytes rules; some (ok items)

unfoldable pub decode_troubles : ℕ → List ℕ → Option (Result (List TroubleItem))
unfolding decode_with
decode_troubles cmd bytes = decode_with bytes (get_rules cmd)
