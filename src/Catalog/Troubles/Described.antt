-- ===== src/Catalog/Troubles/Described.antt =====
-- src/trouble_catalog.rs against src/parsers/system.rs: what the masks of trouble frames report is in
-- the catalog.
use satel_integra.Common.{
  ℕ, ◌+◌, ◌*◌, ◌%◌, ◌^◌, ◌≡◌, refl, Bool, true, false, ◌&&◌, Option, none, some, List, [], ◌∷◌,
  if◌then◌else◌, leb, All, every,
}
use satel_integra.Troubles.Types.{TroubleType}
use satel_integra.Troubles.Commands.{trouble_commands, Differs, by_command}
use satel_integra.Troubles.Rules.{FieldRule, bitmask, module_mask, custom, bitmask_limit, get_rules}
use satel_integra.Catalog.Troubles.Keys.{key}
use satel_integra.Catalog.Troubles.Addresses.{TroubleAddress, one, address}
use satel_integra.Catalog.Troubles.Entries.{
  TroubleAddressing, single, range, TroubleDescriptor, catalog,
}
use Prim.Native.String.{String}
use text.Mathlib.Text.{◌==◌}
use satel_integra.Troubles.Rules.Unknown.{get_rules-none}

-- The entry with the key.
unfoldable pub entry_named : String → List TroubleDescriptor → Option TroubleDescriptor
entry_named name [] = none
entry_named name (entry ∷ rest) = if entry.key == name then some entry else entry_named name rest

-- The address is one that the entry of the trouble has.
unfoldable pub admits : TroubleAddressing → TroubleAddress → Bool
admits single (one n) = leb 1 n && leb n 1
admits (range from to) (one n) = leb from n && leb n to
admits (TroubleAddressing.pair a_from a_to b_from b_to) (TroubleAddress.pair m n) =
    leb a_from m && leb m a_to && leb b_from n && leb n b_to
admits single (TroubleAddress.pair m n) = false
admits (range from to) (TroubleAddress.pair m n) = false
admits (TroubleAddressing.pair a_from a_to b_from b_to) (one n) = false

unfoldable pub admitted_by : Bool → Option TroubleAddress → Option TroubleDescriptor → Bool
unfolding admits
admitted_by memory none entry = false
admitted_by memory (some a) none = false
admitted_by memory (some a) (some entry) =
    admits entry.addressing a && (if memory then entry.has_memory else entry.has_state)

-- The catalog has the trouble, with its address, and with a memory or a state.
unfoldable pub is_described : Bool → TroubleType → Bool
unfolding key address entry_named admitted_by catalog
is_described memory trouble = elim (key trouble) [
  | none ↦ false
  | some name ↦ admitted_by memory (address trouble) (entry_named name catalog)
]

-- Each trouble that a mask can report; the decoders outside the masks are left out.
unfoldable pub describes : FieldRule → Bool
unfolding is_described every
describes (bitmask offset size start_num memory make) =
    every (λ i. is_described memory (make ((start_num + i % 2 ^ 16) % 2 ^ 16))) (8 * size)
describes (module_mask offset memory make) =
    every (λ bit. is_described memory (make ((bit + 1) % 2 ^ 8))) 8
describes (custom memory extractor) = true
describes (bitmask_limit offset size limit start_num memory make) =
    every (λ i. is_described memory (make ((start_num + i % 2 ^ 16) % 2 ^ 16))) limit

abbrev pub Describes : FieldRule → Type 0
Describes rule = describes rule ≡ true

abbrev pub AllDescribe : Option (ℕ × List FieldRule) → Type 0
AllDescribe none = Unit {0}
AllDescribe (some (least, rules)) = All Describes rules

no_rules : (cmd : ℕ) → Differs cmd trouble_commands → AllDescribe (get_rules cmd)
no_rules cmd d = rw (get_rules-none cmd d) tt

-- Each trouble that a mask of a trouble frame can report is in the catalog: there is an entry with its
-- key, the trouble's address is one of the addresses that the entry gives, and the entry has a memory
-- where the mask reports from the memory, and a state where it does not.
pub get_rules-AllDescribe : (cmd : ℕ) → AllDescribe (get_rules cmd)
unfolding get_rules describes
get_rules-AllDescribe =
    by_command (λ k. AllDescribe (get_rules k))
      (
        (refl, (refl, (refl, (refl, (refl, (refl, (refl, (refl, (refl, tt))))))))),
        (
          (refl, (refl, (refl, (refl, (refl, (refl, (refl, (refl, (refl, tt))))))))),
          (
            (refl, (refl, (refl, (refl, tt)))),
            (
              (refl, (refl, (refl, (refl, (refl, (refl, (refl, tt))))))),
              (
                (refl, (refl, (refl, (refl, tt)))),
                (
                  (refl, (refl, (refl, (refl, (refl, tt))))),
                  (
                    (refl, (refl, (refl, (refl, (refl, (refl, (refl, (refl, (refl, tt))))))))),
                    (
                      (refl, (refl, (refl, (refl, (refl, (refl, (refl, (refl, (refl, tt))))))))),
                      (
                        (refl, (refl, tt)),
                        (
                          (refl, (refl, (refl, tt))),
                          (
                            (refl, (refl, (refl, tt))),
                            (
                              (refl, (refl, (refl, tt))),
                              (
                                (refl, (refl, (refl, tt))),
                                ((refl, (refl, (refl, tt))), ((refl, tt), ((refl, tt), tt))),
                              ),
                            ),
                          ),
                        ),
                      ),
                    ),
                  ),
                ),
              ),
            ),
          ),
        ),
      )
      no_rules
