-- ===== src/Partitions.antt =====
-- source/arm9/partitions.c, the table of NAND partitions, as one value that each function
-- takes and returns. The index `PARTITION_INVALID_INDEX` that comes with a `false` is `none`.
mod Search
pub mod Add
pub mod Find
pub mod Names
mod Tests
use fastboot3ds.Base.{
  ℕ, suc, ◌+◌, ◌-◌, ◌≤◌, ◌<◌, ◌≡◌, Bool, true, false, ◌&&◌, Option, none, some, List, [], ◌∷◌,
  Bytes, bytes_eq, length, get_or, set, take, map, ltb, leb, ◌==◌, if◌then◌else◌, add32,
}

abbrev pub max_partitions : ℕ
max_partitions = 8

abbrev pub max_partition_name : ℕ
max_partition_name = 10

-- `partitionStruct`; the name is the text before the terminating NUL.
pub record Partition : Type 0 where
  pub name : Bytes
  pub sector : ℕ
  pub count : ℕ
  pub type : ℕ
  pub keyslot : ℕ

-- What `memset(info, 0, …)` leaves.
abbrev pub zeroed : Partition
zeroed = record { name = []; sector = 0; count = 0; type = 0; keyslot = 0 }

-- The static variables `partitions` and `numPartitions`.
pub record Table : Type 0 where
  pub parts : List Partition
  pub num : ℕ

-- The array has `MAX_PARTITIONS` entries, and as many are in use at most.
pub record IsTable (t : Table) : Type 0 where
  pub size : length t.parts ≡ max_partitions
  pub used : t.num ≤ max_partitions

abbrev pub entry : Table → ℕ → Partition
entry t i = get_or t.parts i zeroed

-- The name that is searched for: without one `:` at its end.
unfoldable pub stem : Bytes → Bytes
stem name =
    let n = length name in
    if leb 1 n && get_or name (n - 1) 0 == b':' then take (n - 1) name else name

-- The loop of `findPartition` at index `i`, over the entries from there on.
unfoldable pub find_from : Bytes → ℕ → List Partition → Option ℕ
find_from name i [] = none
find_from name i (p ∷ ps) =
    let rest = find_from name (i + 1) ps in
    if length p.name == length name && bytes_eq name p.name then some i else rest

unfoldable pub find_partition : Table → Bytes → Option ℕ
unfolding find_from stem
find_partition t name = find_from (stem name) 0 (take t.num t.parts)

-- `none` is the `panic()` on a full table.
unfoldable pub partition_add : Table → ℕ → ℕ → ℕ → Option (Table × ℕ)
partition_add t sector count type =
    let index = t.num in
    let part = entry t index in
    let part' = record part { sector = sector; count = count; type = type } in
    if leb max_partitions t.num
    then none
    else some (record { parts = set t.parts index part'; num = t.num + 1 }, index)

unfoldable pub partition_set_name : Table → ℕ → Bytes → Table × Bool
partition_set_name t index name =
    let temp_name = take max_partition_name name in
    let part' = record (entry t index) { name = temp_name } in
    if leb max_partitions index then (t, false) else elim (find_partition t temp_name) [
      | some other ↦ (t, false)
      | none ↦ (record t { parts = set t.parts index part' }, true)
    ]

-- The test of `partitionFind`; the sums are of type `u32`.
unfoldable pub holds_range : ℕ → ℕ → Partition → Bool
holds_range sector count p =
    leb p.sector sector && leb count p.count && leb (add32 sector count) (add32 p.sector p.count)

unfoldable pub range_from : ℕ → ℕ → ℕ → List Partition → Option ℕ
range_from sector count i [] = none
range_from sector count i (p ∷ ps) =
    let rest = range_from sector count (i + 1) ps in
    if holds_range sector count p then some i else rest

-- All entries are looked at, those beyond `numPartitions` too.
unfoldable pub partition_find : Table → ℕ → ℕ → Option ℕ
unfolding range_from
partition_find t sector count = range_from sector count 0 t.parts

unfoldable pub partition_get_index : Table → Bytes → Option ℕ
partition_get_index t name = find_partition t name

unfoldable pub partition_get_sector_offset : Table → ℕ → Option ℕ
partition_get_sector_offset t index =
    if leb max_partitions index then none else some (entry t index).sector

unfoldable pub partition_set_keyslot : Table → ℕ → ℕ → Table × Bool
partition_set_keyslot t index keyslot =
    let part' = record (entry t index) { keyslot = keyslot } in
    if leb max_partitions index
    then (t, false)
    else (record t { parts = set t.parts index part' }, true)

unfoldable pub partition_get_keyslot : Table → ℕ → ℕ × Bool
partition_get_keyslot t index =
    if leb max_partitions index then (0xFF, false) else ((entry t index).keyslot, true)

unfoldable pub partition_get_info : Table → ℕ → Partition × Bool
partition_get_info t index =
    if leb max_partitions index then (zeroed, false) else (entry t index, true)

-- One round of the loop of `partitionsReset`.
unfoldable pub cleared : Partition → Partition
cleared p = record { name = []; sector = 0; count = 0; type = 0; keyslot = 0xFF }

unfoldable pub partitions_reset : Table → Table
unfolding cleared
partitions_reset t = record { parts = map cleared t.parts; num = 0 }
