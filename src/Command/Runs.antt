-- ===== src/Command/Runs.antt =====
-- The byte of a command at a concrete byte.
use satel_integra.Common.{◌≡◌, ◌↔◌, some, arith}
use satel_integra.Command.{SatelCommand, to_byte, from_byte}
use satel_integra.Command.Bytes.{from_byte_iff}

from_byte_iff_example :
    (from_byte 0x7E ≡ some SatelCommand.integra_version)
    ↔ (to_byte SatelCommand.integra_version ≡ 0x7E)
from_byte_iff_example = from_byte_iff 0x7E SatelCommand.integra_version (omega arith)
