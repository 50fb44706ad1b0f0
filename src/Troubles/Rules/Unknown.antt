-- ===== src/Troubles/Rules/Unknown.antt =====
-- src/parsers/system.rs, `get_rules`: the commands that it has no table for.
use satel_integra.Common.{ℕ, ◌≡◌, refl, none}
use satel_integra.Troubles.Commands.{trouble_commands, Differs}
use satel_integra.Troubles.Rules.{get_rules}

pub get_rules-none : (cmd : ℕ) → Differs cmd trouble_commands → get_rules cmd ≡ none
unfolding get_rules
get_rules-none cmd
      (
        d0,
        (
          d1,
          (
            d2,
            (d3, (d4, (d5, (d6, (d7, (d8, (d9, (d10, (d11, (d12, (d13, (d14, (d15, end))))))))))))),
          ),
        ),
      ) =
    rw (d0, d1, d2, d3, d4, d5, d6, d7, d8, d9, d10, d11, d12, d13, d14, d15) refl
