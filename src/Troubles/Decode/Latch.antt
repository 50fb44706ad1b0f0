-- ===== src/Troubles/Decode/Latch.antt =====
-- src/parsers/system.rs: `decode_troubles` never reports a reserved bit as inactive.
use satel_integra.Common.{ltb}
use satel_integra.Common.{
  ℕ, ◌≡◌, Bool, Option, none, some, List, [], ◌∷◌, All, All-append, leb, Bool-cases, inl, inr, ◌+◌,
  ◌++◌, get_elem?, length,
}
use satel_integra.Common.Panics.{Ensures, some-Ensures, bind-Ensures, any-Ensures, slice}
use satel_integra.Error.{SatelError, Result, ok, err}
use satel_integra.Parsers.Bits.{bit_set, extract_bits, each_bit}
use satel_integra.Troubles.Types.{TroubleType, TroubleItem}
use satel_integra.Troubles.Custom.Latch.{IsNamed, Keeps, AllKeep, Clean, named-Keeps}
use satel_integra.Troubles.Rules.{FieldRule, bitmask, module_mask, custom, bitmask_limit, get_rules}
use satel_integra.Troubles.Decode.{
  bit_flags, limited_flags, module_flags, decode_rule, decode_rules, decode_with, decode_troubles,
}
use satel_integra.Troubles.Rules.Named.{Names, AllNames, names}

bit_flags-AllKeep :
    (start_num : ℕ) (memory : Bool) (make : ℕ → TroubleType) (i : ℕ) (bits : List Bool)
    → ((n : ℕ) → IsNamed (make n))
    → AllKeep (bit_flags start_num memory make i bits)
unfolding bit_flags
bit_flags-AllKeep start_num memory make i [] h = tt
bit_flags-AllKeep start_num memory make i (active ∷ bits) h =
    (named-Keeps _ memory active (h _), bit_flags-AllKeep start_num memory make (i + 1) bits h)

limited_flags-AllKeep :
    (limit start_num : ℕ) (memory : Bool) (make : ℕ → TroubleType) (i : ℕ) (bits : List Bool)
    → ((n : ℕ) → IsNamed (make n))
    → AllKeep (limited_flags limit start_num memory make i bits)
unfolding limited_flags
limited_flags-AllKeep limit start_num memory make i [] h = tt
limited_flags-AllKeep limit start_num memory make i (active ∷ bits) h =
    let rest = limited_flags-AllKeep limit start_num memory make (i + 1) bits h in
    elim (Bool-cases (leb limit i)) [
      | inl e ↦ rw e tt
      | inr e ↦ rw e (named-Keeps _ memory active (h _), rest)
    ]

module_flags-AllKeep :
    (memory : Bool) (make : ℕ → TroubleType) (bit : ℕ) (bits : List Bool)
    → ((n : ℕ) → IsNamed (make n))
    → AllKeep (module_flags memory make bit bits)
unfolding module_flags
module_flags-AllKeep memory make bit [] h = tt
module_flags-AllKeep memory make bit (active ∷ bits) h =
    (named-Keeps _ memory active (h _), module_flags-AllKeep memory make (bit + 1) bits h)

decode_rule-Clean :
    (bytes : List ℕ) (rule : FieldRule) → Names rule → Clean (decode_rule bytes rule)
unfolding decode_rule
decode_rule-Clean bytes (bitmask offset size start_num memory make) h =
    bind-Ensures (any-Ensures (slice bytes offset (offset + size))) λ part _.
      some-Ensures (bit_flags start_num memory make 0 (extract_bits part))
        (bit_flags-AllKeep start_num memory make 0 (extract_bits part) h)
decode_rule-Clean bytes (module_mask offset memory make) h =
    bind-Ensures (any-Ensures (get_elem? bytes offset)) λ byte _.
      some-Ensures (module_flags memory make 0 (each_bit (bit_set byte)))
        (module_flags-AllKeep memory make 0 (each_bit (bit_set byte)) h)
decode_rule-Clean bytes (custom memory extractor) h = h bytes
decode_rule-Clean bytes (bitmask_limit offset size limit start_num memory make) h =
    bind-Ensures (any-Ensures (slice bytes offset (offset + size))) λ part _.
      some-Ensures (limited_flags limit start_num memory make 0 (extract_bits part))
        (limited_flags-AllKeep limit start_num memory make 0 (extract_bits part) h)

decode_rules-Clean :
    (bytes : List ℕ) (rules : List FieldRule) → All Names rules → Clean (decode_rules bytes rules)
unfolding decode_rules
decode_rules-Clean bytes [] h = some-Ensures [] tt
decode_rules-Clean bytes (rule ∷ rules) h =
    bind-Ensures (decode_rule-Clean bytes rule h.0) λ items k.
      bind-Ensures (decode_rules-Clean bytes rules h.1)
        λ more l. some-Ensures (items ++ more) (All-append Keeps items more k l)

OnOk : Result (List TroubleItem) → Type 0
OnOk (err e) = Unit {0}
OnOk (ok items) = AllKeep items

decode_with-Clean :
    (bytes : List ℕ) (table : Option (ℕ × List FieldRule))
    → AllNames table
    → Ensures OnOk (decode_with bytes table)
unfolding decode_with OnOk
decode_with-Clean bytes none h = some-Ensures (err SatelError.invalid_frame) tt
decode_with-Clean bytes (some (expected_len, rules)) h =
    let rest = decode_rules-Clean bytes rules h in
    elim (Bool-cases (ltb (length bytes) expected_len)) [
      | inl e ↦ rw e (some-Ensures (err SatelError.invalid_frame) tt)
      | inr e ↦ rw e (bind-Ensures rest λ items k. some-Ensures (ok items) k)
    ]

-- No list that `decode_troubles` returns reports a reserved bit as inactive.
pub decode_troubles-AllKeep :
    (cmd : ℕ) (bytes : List ℕ) (items : List TroubleItem)
    → decode_troubles cmd bytes ≡ some (ok items)
    → AllKeep items
unfolding decode_troubles OnOk
decode_troubles-AllKeep cmd bytes items h =
    (decode_with-Clean bytes (get_rules cmd) (names cmd)).holds (ok items) h
