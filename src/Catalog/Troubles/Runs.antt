-- ===== src/Catalog/Troubles/Runs.antt =====
-- The catalog of src/trouble_catalog.rs at concrete commands.
use satel_integra.Common.{◌≡◌, refl, true, false}
use satel_integra.Troubles.Types.{expander_acu_jammed_or_short_circuit, zone_tamper_trouble}
use satel_integra.Troubles.Rules.{get_rules}
use satel_integra.Catalog.Troubles.Described.{is_described, AllDescribe, get_rules-AllDescribe}

get_rules-AllDescribe_example : AllDescribe (get_rules 0x22)
get_rules-AllDescribe_example = get_rules-AllDescribe 0x22

-- The 30th expander is the last of its kind, and a zone's tamper has a memory alone.
last_jammed : is_described false (expander_acu_jammed_or_short_circuit 30) ≡ true
last_jammed = unfold is_described in refl

not_jammed : is_described false (expander_acu_jammed_or_short_circuit 31) ≡ false
not_jammed = unfold is_described in refl

no_state : is_described false (zone_tamper_trouble 1) ≡ false
no_state = unfold is_described in refl
