-- ===== src/Catalog/Partitions/Dependent.antt =====
-- src/partition_catalog.rs: the partitions that a partition depends on, a mask of 32 bits.
use satel_integra.Common.{
  ℕ, zero, suc, ◌+◌, ◌-◌, ◌*◌, ◌^◌, Bool, false, ◌&&◌, List, [], ◌∷◌, leb, if◌then◌else◌,
}
use satel_integra.Parsers.Bits.{bit_set}

pub record DependentPartitions : Type 0 where
  pub raw : ℕ

-- `u32::from_le_bytes`
unfoldable pub from_bytes : ℕ → ℕ → ℕ → ℕ → DependentPartitions
from_bytes b0 b1 b2 b3 = record { raw = b0 + 2 ^ 8 * b1 + 2 ^ 16 * b2 + 2 ^ 24 * b3 }

unfoldable pub contains : DependentPartitions → ℕ → Bool
contains d partition_id =
    if leb 1 partition_id && leb partition_id 32 then bit_set d.raw (partition_id - 1) else false

-- `(first..first + n).filter(|&id| self.contains(id)).collect()`
listed_from : DependentPartitions → ℕ → ℕ → List ℕ
listed_from d first zero = []
listed_from d first (suc n) =
    let rest = listed_from d (first + 1) n in if contains d first then first ∷ rest else rest

unfoldable pub list : DependentPartitions → List ℕ
unfolding listed_from
list d = listed_from d 1 32
