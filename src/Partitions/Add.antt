-- ===== src/Partitions/Add.antt =====
-- `partitionAdd`, the setters and `partitionsReset` on a table.
use fastboot3ds.Base.{
  ℕ, ◌+◌, ◌<◌, ◌≡◌, ◌≢◌, refl, ap, ◌∙◌, none, some, length-set, set, get_or-set_self, get_or-set_ne,
  arith, inl, inr, ◌⊎◌, Bool-cases, leb,
}
use fastboot3ds.Partitions.{Partition, zeroed, Table, IsTable, entry, max_partitions, partition_add}

-- The state that `partitionAdd` leaves on a table that is not full: the next entry is in use and
-- has the range and the type, and keeps its name and its keyslot.
pub record Added (t : Table) (sector count type : ℕ) (t' : Table) : Type 0 where
  pub valid : IsTable t'
  pub num : t'.num ≡ t.num + 1
  pub range : ((entry t' t.num).sector ≡ sector) × ((entry t' t.num).count ≡ count)
  pub kind : (entry t' t.num).type ≡ type
  pub name : (entry t' t.num).name ≡ (entry t t.num).name
  pub keyslot : (entry t' t.num).keyslot ≡ (entry t t.num).keyslot
  pub others : (i : ℕ) → t.num ≢ i → entry t' i ≡ entry t i

filled_in : Table → ℕ → ℕ → ℕ → Table
filled_in t sector count type =
    let part = entry t t.num in
    let part' = record part { sector = sector; count = count; type = type } in
    record { parts = set t.parts t.num part'; num = t.num + 1 }

filled_in-Added :
    (t : Table) (sector count type : ℕ)
    → IsTable t
    → t.num < max_partitions
    → Added t sector count type (filled_in t sector count type)
unfolding filled_in
filled_in-Added t sector count type v h = record {
  valid = record { size = length-set t.parts t.num _ ∙ v.size; used = omega arith };
  num = refl;
  range = (ap (λ (p : Partition). p.sector) here, ap (λ (p : Partition). p.count) here);
  kind = ap (λ (p : Partition). p.type) here;
  name = ap (λ (p : Partition). p.name) here;
  keyslot = ap (λ (p : Partition). p.keyslot) here;
  others = λ i ne. get_or-set_ne t.parts t.num i _ zeroed ne;
}
  where
    here :
        entry (filled_in t sector count type) t.num
        ≡ record (entry t t.num) { sector = sector; count = count; type = type }
    here = get_or-set_self t.parts t.num _ zeroed (omega arith)

-- On a table with a free entry `partitionAdd` returns the index of that entry, and the new table
-- is the old one with the entry filled in. On a full table it panics.
pub partition_add_lem :
    (t : Table) (sector count type : ℕ)
    → IsTable t
    → ((t.num < max_partitions)
        × (t' : Table) × (partition_add t sector count type ≡ some (t', t.num))
        × Added t sector count type t')
      ⊎ ((t.num ≡ max_partitions) × (partition_add t sector count type ≡ none))
unfolding partition_add filled_in
partition_add_lem t sector count type v = elim (Bool-cases (leb max_partitions t.num)) [
  | inl full ↦ inr (ground arith, rw full)
  | inr free ↦ inl (
    ground arith,
    filled_in t sector count type,
    rw free,
    filled_in-Added t sector count type v (ground arith),
  )
]
