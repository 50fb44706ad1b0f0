-- ===== src/Troubles/Rules/Tables.antt =====
-- src/parsers/system.rs, `get_rules`: every command's table asks for the bytes that the comments give
-- for its frame, and reads only those.
use satel_integra.Common.{
  ℕ, ◌≡◌, refl, true, false, Option, none, some, List, [], ◌==◌, ◌||◌, if◌then◌else◌, All, ◌&◌,
  arith,
}
use satel_integra.Troubles.Commands.{trouble_commands, Differs, by_command}
use satel_integra.Troubles.Rules.Fits.{
  Fits, gsm_rules-Fits, part1_rules-Fits, part2_rules-Fits, memory_part2_rules-Fits,
  part3_rules-Fits, memory_part3_rules-Fits, part4_rules-Fits, part5_rules-Fits, zone_rules-Fits,
  wireless_rules-Fits, part7_rules-Fits,
}
use satel_integra.Troubles.Rules.{FieldRule, get_rules, memory_part2_rules}

-- The least number of bytes behind the command that the comments of the parsers give for a frame.
unfoldable pub documented_length : ℕ → Option ℕ
documented_length cmd =
    if (cmd == 0x1B) || (cmd == 0x20)
    then some 47
    else if cmd == 0x1C
    then some 26
    else if cmd == 0x21
    then some 39
    else if (cmd == 0x1D) || (cmd == 0x22)
    then some 60
    else if (cmd == 0x1E) || (cmd == 0x23)
    then some 30
    else if cmd == 0x1F
    then some 31
    else if cmd == 0x24
    then some 48
    else if (cmd == 0x2C) || (cmd == 0x2E)
    then some 45
    else if cmd == 0x2D
    then some 47
    else if cmd == 0x2F
    then some 48
    else if (cmd == 0x30) || (cmd == 0x31)
    then some 64
    else none

-- The table of a command: a least length as documented, and rules that fit it; or no table, where none
-- is documented.
pub data Table (cmd : ℕ) : Type 0 where
  missing : get_rules cmd ≡ none → documented_length cmd ≡ none → Table cmd
  present :
      (least : ℕ) (rules : List FieldRule)
      → get_rules cmd ≡ some (least, rules)
      → documented_length cmd ≡ some least
      → All (Fits least) rules
      → Table cmd

no_table : (cmd : ℕ) → Differs cmd trouble_commands → Table cmd
unfolding get_rules documented_length
no_table cmd
      (
        d0,
        (
          d1,
          (
            d2,
            (d3, (d4, (d5, (d6, (d7, (d8, (d9, (d10, (d11, (d12, (d13, (d14, (d15, end))))))))))))),
          ),
        ),
      ) =
    missing (rw (d0, d1, d2, d3, d4, d5, d6, d7, d8, d9, d10, d11, d12, d13, d14, d15) refl)
      (rw (d0, d1, d2, d3, d4, d5, d6, d7, d8, d9, d10, d11, d12, d13, d14, d15) refl)

-- Every command has a table that fits its documented length, or neither.
pub table : (cmd : ℕ) → Table cmd
unfolding get_rules documented_length
table =
    by_command Table
      (present 47 _ refl refl (part1_rules-Fits false)
        & present 47 _ refl refl (part1_rules-Fits true)
        & present 26 _ refl refl (part2_rules-Fits 26 false [] (omega arith) tt)
        & present 39 _ refl refl
            (part2_rules-Fits 39 true memory_part2_rules (omega arith) memory_part2_rules-Fits)
        & present 60 _ refl refl part3_rules-Fits
        & present 60 _ refl refl memory_part3_rules-Fits
        & present 30 _ refl refl (part4_rules-Fits false)
        & present 30 _ refl refl (part4_rules-Fits true)
        & present 31 _ refl refl part5_rules-Fits
        & present 48 _ refl refl (zone_rules-Fits 1)
        & present 45 _ refl refl (wireless_rules-Fits 45 0 137 false (omega arith))
        & present 45 _ refl refl (wireless_rules-Fits 45 0 137 true (omega arith))
        & present 47 _ refl refl part7_rules-Fits
        & present 48 _ refl refl (zone_rules-Fits 129)
        & present 64 _ refl refl (gsm_rules-Fits false)
        & present 64 _ refl refl (gsm_rules-Fits true)
        & tt)
      no_table
