-- ===== src/Catalog/Partitions/Types.antt =====
-- src/partition_catalog.rs: the types of partitions with their codes, and the table of their texts.
use satel_integra.Common.{ℕ, Option, List, [], ◌∷◌, ◌==◌, if◌then◌else◌, get_elem?}
use Prim.Native.String.{String}
use mathlib.Core.Option
use mathlib.Core.Option.{get_or}

pub data PartitionType : Type 0 where
  normal timed_blocking dependent_and dependent_or : PartitionType
  unknown : ℕ → PartitionType

unfoldable pub from_code : ℕ → PartitionType
from_code code =
    if code == 0
    then normal
    else if code == 1
    then timed_blocking
    else if code == 2
    then dependent_and
    else if code == 3
    then dependent_or
    else unknown code

unfoldable pub code : PartitionType → ℕ
code normal = 0
code timed_blocking = 1
code dependent_and = 2
code dependent_or = 3
code (unknown c) = c

pub record PartitionTypeDescriptor : Type 0 where
  pub code : ℕ
  pub key : String
  pub label_en : String

abbrev descriptor : ℕ → String → String → PartitionTypeDescriptor
descriptor code key label = record { code = code; key = key; label_en = label }

unfoldable pub catalog : List PartitionTypeDescriptor
catalog =
    descriptor 0 "normal" "Normal"
    ∷ descriptor 1 "timed_blocking" "With Timed Blocking"
    ∷ descriptor 2 "dependent_and" "Dependent (AND)"
    ∷ descriptor 3 "dependent_or" "Dependent (OR)"
    ∷ []

-- `if (c as usize) < Self::catalog().len() { … } else { … }`: the entry at the code, if there is one.
unfoldable pub entry_of : PartitionType → Option PartitionTypeDescriptor
unfolding catalog
entry_of partition_type = get_elem? catalog (code partition_type)

unfoldable pub key : PartitionType → String
key partition_type = get_or (Option.map (λ entry. entry.key) (entry_of partition_type)) "unknown"

unfoldable pub label_en : PartitionType → String
label_en partition_type =
    get_or (Option.map (λ entry. entry.label_en) (entry_of partition_type)) "Unknown"
