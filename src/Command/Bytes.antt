-- ===== src/Command/Bytes.antt =====
-- `SatelCommand` and its byte.
use satel_integra.Common.{
  ℕ, ◌<◌, ◌≡◌, refl, ap, ◌∙◌, sym, Bool, true, Option, none, some, ◌==◌, ==_iff, ◌↔◌,
}
use satel_integra.Common.{every, every-at}
use satel_integra.Command.{SatelCommand, to_byte, from_byte}

consistent : Option SatelCommand → ℕ → Bool
consistent none b = true
consistent (some c) b = to_byte c == b

agrees : every (λ b. consistent (from_byte b) b) 256 ≡ true
unfolding every consistent from_byte to_byte
agrees = refl

from_byte-to_byte : (c : SatelCommand) → from_byte (to_byte c) ≡ some c
unfolding from_byte to_byte
from_byte-to_byte SatelCommand.zones_violation = refl
from_byte-to_byte _ = refl

-- On bytes, `from_byte` is exactly the partial inverse of `to_byte`: it gives a command just for
-- the byte that the command is sent as.
pub from_byte_iff : (b : ℕ) (c : SatelCommand) → b < 256 → (from_byte b ≡ some c) ↔ (to_byte c ≡ b)
unfolding consistent
from_byte_iff b c h = (
  λ e. (==_iff (to_byte c) b).0 (
      ap (λ o. consistent o b) (sym e) ∙ every-at (λ x. consistent (from_byte x) x) 256 b agrees h),
  λ e. ap from_byte (sym e) ∙ from_byte-to_byte c,
)
