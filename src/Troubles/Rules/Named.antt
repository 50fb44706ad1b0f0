-- ===== src/Troubles/Rules/Named.antt =====
-- src/parsers/system.rs: the masks report only troubles with a name; the reserved bits come from the
-- decoders outside the masks alone.
use satel_integra.Common.{
  ℕ, refl, Bool, true, false, Option, none, some, List, [], ◌∷◌, All, ◌&◌, leb, Bool-cases, inl,
  inr, get_elem?, length,
}
use satel_integra.Common.Panics.{some-Ensures, bind-Ensures, any-Ensures}
use satel_integra.Troubles.Types.{cme_error, panel}
use satel_integra.Troubles.Commands.{trouble_commands, Differs, by_command}
use satel_integra.Troubles.Custom.{is_generic, from_be_bytes}
use satel_integra.Troubles.Custom.Latch.{
  IsNamed, Clean, decode_system_troubles-Clean, decode_ethm_ptsa_status-Clean, decode_aux_stm-Clean,
  decode_acu_jam_level-Clean, decode_acu_jam_level_16_30-Clean, decode_gsm_block-Clean,
}
use satel_integra.Troubles.Rules.{
  FieldRule, bitmask, module_mask, custom, bitmask_limit, decode_panel_cme, get_rules,
}
use satel_integra.Troubles.Rules.Unknown.{get_rules-none}

abbrev pub Names : FieldRule → Type 0
Names (bitmask offset size start_num memory make) = (n : ℕ) → IsNamed (make n)
Names (module_mask offset memory make) = (n : ℕ) → IsNamed (make n)
Names (custom memory extractor) = (bytes : List ℕ) → Clean (extractor bytes memory)
Names (bitmask_limit offset size limit start_num memory make) = (n : ℕ) → IsNamed (make n)

abbrev pub AllNames : Option (ℕ × List FieldRule) → Type 0
AllNames none = Unit {0}
AllNames (some (least, rules)) = All Names rules

decode_panel_cme-Clean : (bytes : List ℕ) (memory : Bool) → Clean (decode_panel_cme bytes memory)
unfolding decode_panel_cme
decode_panel_cme-Clean bytes memory = elim (Bool-cases (leb 39 (length bytes))) [
  | inl e ↦ rw e (
      bind-Ensures (any-Ensures (get_elem? bytes 35)) λ c35 _.
        bind-Ensures (any-Ensures (get_elem? bytes 36)) λ c36 _.
          bind-Ensures (any-Ensures (get_elem? bytes 37)) λ c37 _.
            bind-Ensures (any-Ensures (get_elem? bytes 38)) λ c38 _.
              some-Ensures
                (cme_error panel 1 false (from_be_bytes c35 c36)
                  ∷ cme_error panel 1 true (from_be_bytes c37 c38)
                  ∷ [])
                (tt, (tt, tt)))
  | inr e ↦ rw e (some-Ensures [] tt)
]

no_names : (cmd : ℕ) → Differs cmd trouble_commands → AllNames (get_rules cmd)
no_names cmd d = rw (get_rules-none cmd d) tt

-- What a command's rules report has a name, or comes from a decoder that reports no reserved bit as
-- inactive.
pub names : (cmd : ℕ) → AllNames (get_rules cmd)
unfolding get_rules is_generic
names =
    by_command (λ k. AllNames (get_rules k))
      (((λ n. refl)
          & (λ n. refl)
          & (λ n. refl)
          & (λ n. refl)
          & (λ bytes. decode_system_troubles-Clean bytes false)
          & (λ n. refl)
          & (λ n. refl)
          & (λ n. refl)
          & (λ bytes. decode_ethm_ptsa_status-Clean bytes false)
          & tt)
        & ((λ n. refl)
            & (λ n. refl)
            & (λ n. refl)
            & (λ n. refl)
            & (λ bytes. decode_system_troubles-Clean bytes true)
            & (λ n. refl)
            & (λ n. refl)
            & (λ n. refl)
            & (λ bytes. decode_ethm_ptsa_status-Clean bytes true)
            & tt)
        & ((λ n. refl) & (λ n. refl) & (λ n. refl) & (λ n. refl) & tt)
        & ((λ n. refl)
            & (λ n. refl)
            & (λ n. refl)
            & (λ n. refl)
            & (λ n. refl)
            & (λ n. refl)
            & (λ bytes. decode_panel_cme-Clean bytes true)
            & tt)
        & ((λ bytes. decode_acu_jam_level-Clean bytes false)
            & (λ n. refl)
            & (λ n. refl)
            & (λ n. refl)
            & tt)
        & ((λ n. refl) & (λ n. refl) & (λ n. refl) & (λ n. refl) & (λ n. refl) & tt)
        & ((λ n. refl)
            & (λ n. refl)
            & (λ n. refl)
            & (λ n. refl)
            & (λ n. refl)
            & (λ n. refl)
            & (λ n. refl)
            & (λ n. refl)
            & (λ bytes. decode_aux_stm-Clean bytes false)
            & tt)
        & ((λ n. refl)
            & (λ n. refl)
            & (λ n. refl)
            & (λ n. refl)
            & (λ n. refl)
            & (λ n. refl)
            & (λ n. refl)
            & (λ n. refl)
            & (λ bytes. decode_aux_stm-Clean bytes true)
            & tt)
        & ((λ n. refl) & (λ n. refl) & tt)
        & ((λ n. refl) & (λ n. refl) & (λ n. refl) & tt)
        & ((λ n. refl) & (λ n. refl) & (λ n. refl) & tt)
        & ((λ n. refl) & (λ n. refl) & (λ n. refl) & tt)
        & ((λ n. refl) & (λ n. refl) & (λ bytes. decode_acu_jam_level_16_30-Clean bytes false) & tt)
        & ((λ n. refl) & (λ n. refl) & (λ n. refl) & tt)
        & ((λ bytes. decode_gsm_block-Clean bytes false) & tt)
        & ((λ bytes. decode_gsm_block-Clean bytes true) & tt)
        & tt)
      no_names
