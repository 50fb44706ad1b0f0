-- ===== src/Troubles/Outcomes.antt =====
-- src/parsers/system.rs: which frames of troubles `decode_troubles` and `process_troubles_frame` take.
use satel_integra.Common.{
  ℕ, ◌+◌, ◌≤◌, ◌≡◌, refl, sym, inl, inr, Bool-cases, Option, none, some, false, true, List, [], ◌∷◌,
  leb, ltb, length, All, ◌&◌, ◌∙◌, arith,
}
use satel_integra.Common.Panics.{
  Succeeds, some-Succeeds, bind-Succeeds, get_elem?-Succeeds, slice-Succeeds,
}
use satel_integra.Error.{SatelError, Result, ok, err}
use satel_integra.Troubles.Commands.{trouble_commands, Differs, by_command}
use satel_integra.Troubles.Rules.{FieldRule, bitmask, module_mask, custom, bitmask_limit}
use satel_integra.Troubles.Rules.Fits.{Fits}
use satel_integra.Troubles.Rules.Tables.{missing, present, table, documented_length}
use satel_integra.Troubles.Decode.{decode_rule, decode_rules, decode_with, decode_troubles}
use satel_integra.Troubles.Frames.Reading.{outcome, long_enough}
use satel_integra.Troubles.Parts.{
  TroublesData, part1, part2, memory_part2, part3, memory_part3, part4, part5, memory_part5, part6,
  part7, memory_part7, part8,
}
use satel_integra.Troubles.Frames.System.{
  process_troubles_part1, outcome-process_troubles_part1, outcome-process_troubles_part1_memory,
}
use satel_integra.Troubles.Frames.Expanders.{
  process_troubles_part2, outcome-process_troubles_part2, process_troubles_memory_part2,
  outcome-process_troubles_memory_part2, process_troubles_part4, outcome-process_troubles_part4,
  outcome-process_troubles_part4_memory,
}
use satel_integra.Troubles.Frames.Wireless.{
  process_troubles_part3, outcome-process_troubles_part3, process_troubles_memory_part3,
  outcome-process_troubles_memory_part3, process_troubles_part5, outcome-process_troubles_part5,
  process_troubles_part6, outcome-process_troubles_part6, outcome-process_troubles_part6_memory,
}
use satel_integra.Troubles.Frames.Zones.{
  process_troubles_memory_part5, outcome-process_troubles_memory_part5, process_troubles_part7,
  outcome-process_troubles_part7, process_troubles_memory_part7,
  outcome-process_troubles_memory_part7,
}
use satel_integra.Troubles.Frames.Gsm.{
  process_troubles_part8, outcome-process_troubles_part8, outcome-process_troubles_part8_memory,
}
use satel_integra.Troubles.Frames.{wrap, process_troubles_frame}

-- A frame of a known command with enough bytes is taken, every other is invalid.
unfoldable pub verdict_on : Option ℕ → List ℕ → Result (Unit {0})
verdict_on none bytes = err SatelError.invalid_frame
verdict_on (some least) bytes = long_enough least bytes

unfoldable pub verdict : ℕ → List ℕ → Result (Unit {0})
unfolding verdict_on
verdict cmd bytes = verdict_on (documented_length cmd) bytes

decode_rule-Succeeds :
    (least : ℕ) (bytes : List ℕ) (rule : FieldRule)
    → least ≤ length bytes
    → Fits least rule
    → Succeeds (decode_rule bytes rule)
unfolding decode_rule
decode_rule-Succeeds least bytes (bitmask offset size start_num memory make) h fits =
    bind-Succeeds (slice-Succeeds bytes offset (offset + size) (omega arith) (omega arith))
      λ part. some-Succeeds _
decode_rule-Succeeds least bytes (module_mask offset memory make) h fits =
    bind-Succeeds (get_elem?-Succeeds bytes offset (omega arith)) λ byte. some-Succeeds _
decode_rule-Succeeds least bytes (custom memory extractor) h fits = fits bytes
decode_rule-Succeeds least bytes (bitmask_limit offset size limit start_num memory make) h fits =
    bind-Succeeds (slice-Succeeds bytes offset (offset + size) (omega arith) (omega arith))
      λ part. some-Succeeds _

decode_rules-Succeeds :
    (least : ℕ) (bytes : List ℕ) (rules : List FieldRule)
    → least ≤ length bytes
    → All (Fits least) rules
    → Succeeds (decode_rules bytes rules)
unfolding decode_rules
decode_rules-Succeeds least bytes [] h fits = some-Succeeds _
decode_rules-Succeeds least bytes (rule ∷ rules) h fits =
    bind-Succeeds (decode_rule-Succeeds least bytes rule h fits.0) λ items.
      bind-Succeeds (decode_rules-Succeeds least bytes rules h fits.1) λ more. some-Succeeds _

outcome-decode_with :
    (least : ℕ) (bytes : List ℕ) (rules : List FieldRule)
    → All (Fits least) rules
    → outcome (decode_with bytes (some (least, rules))) ≡ some (long_enough least bytes)
unfolding decode_with outcome long_enough
outcome-decode_with least bytes rules fits = elim (Bool-cases (ltb (length bytes) least)) [
  | inl e ↦ let short : leb least (length bytes) ≡ false = ground arith in rw (e, short) refl
  | inr e ↦
      let long : leb least (length bytes) ≡ true = ground arith in
      let read = decode_rules-Succeeds least bytes rules (ground arith) fits in
      rw (e, long, read.returns) refl
]

-- For any command and any bytes `decode_troubles` does not panic: it returns a list of troubles exactly
-- if the command is that of a trouble frame and the bytes are at least as many as are documented for
-- it, and the error of an invalid frame otherwise.
pub outcome-decode_troubles :
    (cmd : ℕ) (bytes : List ℕ) → outcome (decode_troubles cmd bytes) ≡ some (verdict cmd bytes)
unfolding decode_troubles verdict outcome
outcome-decode_troubles cmd bytes = elim (table cmd) [
  | missing e d ↦ rw (e, d) refl
  | present least rules e d fits ↦ rw (e, d) (outcome-decode_with least bytes rules fits)
]

succeeds_of_outcome :
    {A : Type 0} (answer : Option (Result A)) (verdict : Result (Unit {0}))
    → outcome answer ≡ some verdict
    → Succeeds answer
unfolding outcome
succeeds_of_outcome none verdict h = absurd cc
succeeds_of_outcome (some result) verdict h = some-Succeeds result

pub decode_troubles-Succeeds : (cmd : ℕ) (bytes : List ℕ) → Succeeds (decode_troubles cmd bytes)
decode_troubles-Succeeds cmd bytes =
    succeeds_of_outcome _ (verdict cmd bytes) (outcome-decode_troubles cmd bytes)

outcome-wrap :
    {A : Type 0} (make : A → TroublesData) (parsed : Option (Result A))
    → outcome (wrap make parsed) ≡ outcome parsed
unfolding wrap outcome
outcome-wrap make none = refl
outcome-wrap make (some (err e)) = refl
outcome-wrap make (some (ok part)) = refl

other_frames :
    (now : ℕ) (bytes : List ℕ) (cmd : ℕ)
    → Differs cmd trouble_commands
    → outcome (process_troubles_frame now (cmd ∷ bytes)) ≡ some (verdict cmd bytes)
unfolding process_troubles_frame verdict documented_length outcome
other_frames now bytes cmd
      (
        d0,
        (
          d1,
          (
            d2,
            (d3, (d4, (d5, (d6, (d7, (d8, (d9, (d10, (d11, (d12, (d13, (d14, (d15, end))))))))))))),
          ),
        ),
      ) =
    rw (d0, d1, d2, d3, d4, d5, d6, d7, d8, d9, d10, d11, d12, d13, d14, d15) refl

-- The same of `process_troubles_frame`.
process_troubles_frame-verdict :
    (now cmd : ℕ) (bytes : List ℕ)
    → outcome (process_troubles_frame now (cmd ∷ bytes)) ≡ some (verdict cmd bytes)
unfolding process_troubles_frame verdict documented_length
process_troubles_frame-verdict now cmd bytes =
    by_command (λ k. outcome (process_troubles_frame now (k ∷ bytes)) ≡ some (verdict k bytes))
      ((outcome-wrap part1 (process_troubles_part1 now (0x1B ∷ bytes))
          ∙ outcome-process_troubles_part1 now bytes)
        & (outcome-wrap part1 (process_troubles_part1 now (0x20 ∷ bytes))
            ∙ outcome-process_troubles_part1_memory now bytes)
        & (outcome-wrap part2 (process_troubles_part2 now (0x1C ∷ bytes))
            ∙ outcome-process_troubles_part2 now bytes)
        & (outcome-wrap memory_part2 (process_troubles_memory_part2 now (0x21 ∷ bytes))
            ∙ outcome-process_troubles_memory_part2 now bytes)
        & (outcome-wrap part3 (process_troubles_part3 now (0x1D ∷ bytes))
            ∙ outcome-process_troubles_part3 now bytes)
        & (outcome-wrap memory_part3 (process_troubles_memory_part3 now (0x22 ∷ bytes))
            ∙ outcome-process_troubles_memory_part3 now bytes)
        & (outcome-wrap part4 (process_troubles_part4 now (0x1E ∷ bytes))
            ∙ outcome-process_troubles_part4 now bytes)
        & (outcome-wrap part4 (process_troubles_part4 now (0x23 ∷ bytes))
            ∙ outcome-process_troubles_part4_memory now bytes)
        & (outcome-wrap part5 (process_troubles_part5 now (0x1F ∷ bytes))
            ∙ outcome-process_troubles_part5 now bytes)
        & (outcome-wrap memory_part5 (process_troubles_memory_part5 now (0x24 ∷ bytes))
            ∙ outcome-process_troubles_memory_part5 now bytes)
        & (outcome-wrap part6 (process_troubles_part6 now (0x2C ∷ bytes))
            ∙ outcome-process_troubles_part6 now bytes)
        & (outcome-wrap part6 (process_troubles_part6 now (0x2E ∷ bytes))
            ∙ outcome-process_troubles_part6_memory now bytes)
        & (outcome-wrap part7 (process_troubles_part7 now (0x2D ∷ bytes))
            ∙ outcome-process_troubles_part7 now bytes)
        & (outcome-wrap memory_part7 (process_troubles_memory_part7 now (0x2F ∷ bytes))
            ∙ outcome-process_troubles_memory_part7 now bytes)
        & (outcome-wrap part8 (process_troubles_part8 now (0x30 ∷ bytes))
            ∙ outcome-process_troubles_part8 now bytes)
        & (outcome-wrap part8 (process_troubles_part8 now (0x31 ∷ bytes))
            ∙ outcome-process_troubles_part8_memory now bytes)
        & tt)
      (other_frames now bytes) cmd

-- On every command byte and the bytes behind it `process_troubles_frame` comes to what
-- `decode_troubles` comes to, a value or the error, and that is what is documented: neither panics, they
-- return a value exactly if the command is that of a trouble frame and the bytes are at least as many as
-- are documented for it, and otherwise the error of an invalid frame.
pub outcome-process_troubles_frame :
    (now cmd : ℕ) (bytes : List ℕ)
    → (outcome (process_troubles_frame now (cmd ∷ bytes)) ≡ outcome (decode_troubles cmd bytes))
      × (outcome (decode_troubles cmd bytes) ≡ some (verdict cmd bytes))
outcome-process_troubles_frame now cmd bytes =
    let taken = outcome-decode_troubles cmd bytes in
    (process_troubles_frame-verdict now cmd bytes ∙ sym taken, taken)
