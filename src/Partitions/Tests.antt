-- ===== src/Partitions/Tests.antt =====
-- The partition table of a console, and the theorems at it.
use fastboot3ds.Base.{ℕ, ◌<◌, ◌≡◌, ◌⊎◌, refl, none, some, [], ◌∷◌, Bytes, codes, replicate, arith}
use fastboot3ds.Partitions.{
  Partition, Table, IsTable, max_partitions, stem, partition_add, partition_set_name,
  partition_get_index, partition_find, holds_range, find_partition,
}
use fastboot3ds.Partitions.Find.{FirstHolder, partition_find_lem}
use fastboot3ds.Partitions.Add.{Added, partition_add_lem}
use fastboot3ds.Partitions.Names.{get_index-set_name}

abbrev part : Bytes → ℕ → ℕ → ℕ → Partition
part name sector count type = record {
  name = name;
  sector = sector;
  count = count;
  type = type;
  keyslot = 6;
}

abbrev two_parts : Table
two_parts = record {
  parts = part (codes "twln") 0 0x58980 1 ∷ part [] 0x58980 0x2000 3 ∷ replicate 6 (part [] 0 0 0);
  num = 2;
}

two_parts-IsTable : IsTable two_parts
two_parts-IsTable = omega arith

-- A read of the firmware partition is found in the second entry.
partition_find_firmware : partition_find two_parts 0x58982 4 ≡ some 1
unfolding partition_find holds_range
partition_find_firmware = refl

partition_find_lem_example :
    FirstHolder 0x58982 4 two_parts.parts 0 (partition_find two_parts 0x58982 4)
partition_find_lem_example = partition_find_lem two_parts 0x58982 4 (omega arith) (omega arith)

partition_add_lem_example :
    ((2 < max_partitions)
      × (t' : Table) × (partition_add two_parts 0x5A980 0x2000 3 ≡ some (t', 2))
      × Added two_parts 0x5A980 0x2000 3 t')
    ⊎ ((two_parts.num ≡ max_partitions) × (partition_add two_parts 0x5A980 0x2000 3 ≡ none))
partition_add_lem_example = partition_add_lem two_parts 0x5A980 0x2000 3 two_parts-IsTable

get_index-set_name_example :
    (partition_get_index (partition_set_name two_parts 1 (codes "firm0")).0 (codes "firm0")
      ≡ some 1)
    × (partition_get_index (partition_set_name two_parts 1 (codes "firm0")).0 (codes "firm0:")
        ≡ some 1)
unfolding stem partition_set_name find_partition
get_index-set_name_example =
    get_index-set_name two_parts 1 (codes "firm0") two_parts-IsTable (omega arith) refl refl
