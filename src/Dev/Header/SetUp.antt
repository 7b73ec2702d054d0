-- ===== src/Dev/Header/SetUp.antt =====
-- One round of the loop of `sdmmc_dnand_init`: the entry gets a keyslot and a name.
use native.Mathlib.Decide.{ℕ_discrete}
use fastboot3ds.Base.{
  ℕ, ◌<◌, ◌≡◌, ◌≢◌, inl, inr, refl, ap, ◌∙◌, sym, Bool, Bytes, take, length-set, set,
  get_or-set_self, get_or-set_ne, ◌==◌, if◌then◌else◌, Bool-cases, Option-cases, codes, arith,
}
use fastboot3ds.Partitions.{
  Partition, Table, IsTable, entry, zeroed, max_partitions, max_partition_name, stem,
  partition_set_keyslot, partition_set_name, partition_get_index,
}
use fastboot3ds.Partitions.Names.{
  IsNamed, name_of, named, partition_set_name_cases, named-IsTable, partition_set_name-IsNamed,
}
use fastboot3ds.Dev.Header.{set_up, firm_name, by_type}

-- The keyslot of partition `i` of a type: 0xFF where there is no key.
pub slot_of : Bool → ℕ → ℕ → ℕ
slot_of new_3ds i type =
    if type == 1
    then (if i == 0 then 0x03 else if i == 4 then (if new_3ds then 0x05 else 0x04) else 0xFF)
    else if type == 3
    then 0x06
    else if type == 4
    then 0x07
    else 0xFF

-- One entry gets a keyslot, and perhaps a name.
pub record IsSetUp (t : Table) (index slot : ℕ) (t' : Table) : Type 0 where
  pub valid : IsTable t'
  pub num : t'.num ≡ t.num
  pub range :
      ((entry t' index).sector ≡ (entry t index).sector)
      × ((entry t' index).count ≡ (entry t index).count)
  pub kind : (entry t' index).type ≡ (entry t index).type
  pub keyslot : (entry t' index).keyslot ≡ slot
  pub others : (j : ℕ) → index ≢ j → entry t' j ≡ entry t j

pub keyed : Table → ℕ → ℕ → Table
keyed t index slot = record t {
  parts = set t.parts index (record (entry t index) { keyslot = slot });
}

pub set_keyslot_eq :
    (t : Table) (index slot : ℕ)
    → index < max_partitions
    → (partition_set_keyslot t index slot).0 ≡ keyed t index slot
unfolding partition_set_keyslot keyed
set_keyslot_eq t index slot lt = ground (arith, lt)

pub keyed-IsSetUp :
    (t : Table) (index slot : ℕ)
    → IsTable t
    → index < max_partitions
    → IsSetUp t index slot (keyed t index slot)
unfolding keyed
keyed-IsSetUp t index slot v lt = record {
  valid = record { size = length-set t.parts index _ ∙ v.size; used = v.used };
  num = refl;
  range = (ap (λ (p : Partition). p.sector) here, ap (λ (p : Partition). p.count) here);
  kind = ap (λ (p : Partition). p.type) here;
  keyslot = ap (λ (p : Partition). p.keyslot) here;
  others = λ j ne. get_or-set_ne t.parts index j _ zeroed ne;
}
  where
    here : entry (keyed t index slot) index ≡ record (entry t index) { keyslot = slot }
    here = get_or-set_self t.parts index _ zeroed (omega (arith, v.size, lt))

pub named-IsSetUp :
    (t : Table) (index slot : ℕ) (name : Bytes) (t' : Table)
    → index < max_partitions
    → IsSetUp t index slot t'
    → IsSetUp t index slot (named t' index name)
unfolding named
named-IsSetUp t index slot name t' lt s = record {
  valid = named-IsTable t' index name s.valid;
  num = s.num;
  range = (
    ap (λ (p : Partition). p.sector) here ∙ s.range.0,
    ap (λ (p : Partition). p.count) here ∙ s.range.1,
  );
  kind = ap (λ (p : Partition). p.type) here ∙ s.kind;
  keyslot = ap (λ (p : Partition). p.keyslot) here ∙ s.keyslot;
  others = λ j ne. get_or-set_ne t'.parts index j _ zeroed ne ∙ s.others j ne;
}
  where
    here :
        entry (named t' index name) index
        ≡ record (entry t' index) { name = take max_partition_name name }
    here = get_or-set_self t'.parts index _ zeroed (omega (arith, s.valid.size, lt))

pub set_up_eq :
    (t : Table) (index slot : ℕ) (name : Bytes)
    → index < max_partitions
    → set_up t index slot name ≡ (partition_set_name (keyed t index slot) index name).0
unfolding set_up
set_up_eq t index slot name lt =
    ap (λ u. (partition_set_name u index name).0) (set_keyslot_eq t index slot lt)

pub set_up-IsSetUp :
    (t : Table) (index slot : ℕ) (name : Bytes)
    → IsTable t
    → index < max_partitions
    → IsSetUp t index slot (set_up t index slot name)
set_up-IsSetUp t index slot name v lt =
    let s = keyed-IsSetUp t index slot v lt in
    rw (set_up_eq t index slot name lt)
      (elim (partition_set_name_cases (keyed t index slot) index name s.valid) [
        | inl (failed, _) ↦ rw failed s
        | inr (renamed, _, _) ↦
            rw renamed (named-IsSetUp t index slot name (keyed t index slot) lt s)
      ])

pub keyed-IsNamed :
    (t : Table) (index slot : ℕ)
    → IsTable t
    → index < max_partitions
    → IsNamed t
    → IsNamed (keyed t index slot)
unfolding keyed
keyed-IsNamed t index slot v lt n = record {
  distinct =
      λ i j li lj ne e. n.distinct i j li lj (λ z. ne (same i ∙ z)) (sym (same i) ∙ e ∙ same j);
  unused = λ i le. same i ∙ n.unused i le;
}
  where
    same : (i : ℕ) → name_of (keyed t index slot) i ≡ name_of t i
    same i = elim (ℕ_discrete index i) [
      | yes e ↦ rw (sym e) (
          ap (λ (p : Partition). p.name)
            (get_or-set_self t.parts index _ zeroed (omega (arith, v.size, lt))))
      | no ne ↦ ap (λ (p : Partition). p.name) (get_or-set_ne t.parts index i _ zeroed ne)
    ]

pub set_up-IsNamed :
    (t : Table) (index slot : ℕ) (name : Bytes)
    → IsTable t
    → IsNamed t
    → index < t.num
    → stem (take max_partition_name name) ≡ take max_partition_name name
    → IsNamed (set_up t index slot name)
unfolding keyed
set_up-IsNamed t index slot name v n lt plain =
    rw (set_up_eq t index slot name (omega (arith, v.used))) (
      partition_set_name-IsNamed (keyed t index slot) index name
        ((keyed-IsSetUp t index slot v (omega (arith, v.used))).valid)
        (keyed-IsNamed t index slot v (omega (arith, v.used)) n) lt plain)

pub firm_name_plain :
    (t : Table)
    → stem (take max_partition_name (firm_name t)) ≡ take max_partition_name (firm_name t)
unfolding firm_name stem
firm_name_plain t = elim (Option-cases (partition_get_index t (codes "firm0"))) [
  | inl e ↦ rw (firm_name, e) refl
  | inr (i, e) ↦ rw (firm_name, e) refl
]

-- The switch leaves the table, or it sets up the entry.
pub data Switched (new_3ds : Bool) (i type index : ℕ) (t : Table) : Table → Type 0 where
  leaves : slot_of new_3ds i type ≡ 0xFF → Switched new_3ds i type index t t
  sets_up :
      (name : Bytes) (slot : ℕ)
      → slot_of new_3ds i type ≡ slot
      → stem (take max_partition_name name) ≡ take max_partition_name name
      → Switched new_3ds i type index t (set_up t index slot name)

pub by_type-Switched :
    (new_3ds : Bool) (i type index : ℕ) (t : Table)
    → Switched new_3ds i type index t (by_type new_3ds i type index t)
unfolding by_type slot_of stem
by_type-Switched new_3ds i type index t = elim (Bool-cases (type == 1)) [
  | inl one ↦ elim (Bool-cases (i == 0)) [
    | inl first ↦ rw (one, first) (sets_up (codes "twln") 0x03 (rw (one, first) refl) refl)
    | inr later ↦ elim (Bool-cases (i == 4)) [
      | inl fifth ↦
          rw (one, later, fifth)
            (sets_up (codes "nand") (if new_3ds then 0x05 else 0x04) (rw (one, later, fifth) refl)
              refl)
      | inr other ↦ rw (one, later, other) (leaves (rw (one, later, other) refl))
    ]
  ]
  | inr not_one ↦ elim (Bool-cases (type == 3)) [
    | inl firm ↦
        rw (not_one, firm)
          (sets_up (firm_name (partition_set_keyslot t index 0x06).0) 0x06 (rw (not_one, firm) refl)
            (firm_name_plain (partition_set_keyslot t index 0x06).0))
    | inr not_firm ↦ elim (Bool-cases (type == 4)) [
      | inl agb ↦
          rw (not_one, not_firm, agb)
            (sets_up (codes "agb") 0x07 (rw (not_one, not_firm, agb) refl) refl)
      | inr other ↦
          rw (not_one, not_firm, other)
            (sets_up (codes "invalid") 0xFF (rw (not_one, not_firm, other) refl) refl)
    ]
  ]
]

pub Switched-IsSetUp :
    (new_3ds : Bool) (i type index : ℕ) (t t' : Table)
    → IsTable t
    → index < max_partitions
    → (entry t index).keyslot ≡ 0xFF
    → Switched new_3ds i type index t t'
    → IsSetUp t index (slot_of new_3ds i type) t'
Switched-IsSetUp new_3ds i type index t t' v lt none_yet (leaves e) = record {
  valid = v;
  num = refl;
  range = (refl, refl);
  kind = refl;
  keyslot = none_yet ∙ sym e;
  others = λ j ne. refl;
}
Switched-IsSetUp new_3ds i type index t t' v lt none_yet (sets_up name slot e plain) =
    rw e (set_up-IsSetUp t index slot name v lt)

pub Switched-IsNamed :
    (new_3ds : Bool) (i type index : ℕ) (t t' : Table)
    → IsTable t
    → IsNamed t
    → index < t.num
    → Switched new_3ds i type index t t'
    → IsNamed t'
Switched-IsNamed new_3ds i type index t t' v n lt (leaves e) = n
Switched-IsNamed new_3ds i type index t t' v n lt (sets_up name slot e plain) =
    set_up-IsNamed t index slot name v n lt plain
