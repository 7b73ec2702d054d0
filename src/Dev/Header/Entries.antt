-- ===== src/Dev/Header/Entries.antt =====
-- The table that `sdmmc_dnand_init` makes from the header.
use native.Mathlib.Decide.{ℕ_discrete}
use fastboot3ds.Base.{
  ℕ, zero, suc, ◌+◌, ◌≤◌, ◌<◌, ◌≡◌, inl, inr, refl, ap, ◌∙◌, sym, Bool, some, List, [], ◌∷◌, Bytes,
  length, get_or, map, arith,
}
use fastboot3ds.Partitions.{
  Partition, Table, IsTable, entry, zeroed, max_partitions, partitions_reset, cleared,
}
use fastboot3ds.Partitions.Add.{Added, partition_add_lem}
use fastboot3ds.Partitions.Names.{IsNamed, partitions_reset-IsNamed, partition_add-IsNamed}
use fastboot3ds.Dev.Header.{part_type, media_offset, media_size, by_type, ctr_sector, collect}
use fastboot3ds.Dev.Header.SetUp.{
  slot_of, IsSetUp, by_type-Switched, Switched-IsSetUp, Switched-IsNamed,
}

module _ (new_3ds : Bool) (header : Bytes) where
  -- Entry `i` of the table is partition `i` of the header.
  pub record IsEntry (t : Table) (i : ℕ) : Type 0 where
    pub sector : (entry t i).sector ≡ media_offset header i
    pub count : (entry t i).count ≡ media_size header i
    pub type : (entry t i).type ≡ part_type header i
    pub keyslot : (entry t i).keyslot ≡ slot_of new_3ds i (part_type header i)

  -- The table after `i` rounds.
  pub record Collected (i : ℕ) (t : Table) : Type 0 where
    pub valid : IsTable t
    pub names : IsNamed t
    pub num : t.num ≡ i
    pub entries : (j : ℕ) → j < i → IsEntry t j
    pub unused : (j : ℕ) → i ≤ j → j < max_partitions → (entry t j).keyslot ≡ 0xFF

  IsEntry-kept : (t t' : Table) (j : ℕ) → entry t' j ≡ entry t j → IsEntry t j → IsEntry t' j
  IsEntry-kept t t' j e s = record {
    sector = ap (λ (p : Partition). p.sector) e ∙ s.sector;
    count = ap (λ (p : Partition). p.count) e ∙ s.count;
    type = ap (λ (p : Partition). p.type) e ∙ s.type;
    keyslot = ap (λ (p : Partition). p.keyslot) e ∙ s.keyslot;
  }

  round-Collected :
      (i : ℕ) (t t1 t2 : Table)
      → i < max_partitions
      → Collected i t
      → Added t (media_offset header i) (media_size header i) (part_type header i) t1
      → IsSetUp t1 i (slot_of new_3ds i (part_type header i)) t2
      → IsNamed t2
      → Collected (i + 1) t2
  round-Collected i t t1 t2 lt c a s n = record {
    valid = s.valid;
    names = n;
    num = s.num ∙ a.num ∙ omega (arith, c.num);
    entries = λ j le. elim (ℕ_discrete i j) [
      | yes e ↦ rw (sym e) here
      | no ne ↦
          IsEntry-kept t t2 j (s.others j ne ∙ a.others j (λ z. ne (sym c.num ∙ z)))
            (c.entries j (omega (arith, le, ne)))
    ];
    unused = λ j le small.
        ap (λ (p : Partition). p.keyslot)
          (s.others j (λ z. omega (arith, z, le)) ∙ a.others j (λ z. omega (arith, z, le, c.num)))
        ∙ c.unused j (omega (arith, le)) small;
  }
    where
      at : {A : Type 0} (f : Partition → A) (x : A) → f (entry t1 t.num) ≡ x → f (entry t1 i) ≡ x
      at f x e = ap (λ k. f (entry t1 k)) (sym c.num) ∙ e

      here : IsEntry t2 i
      here = record {
        sector = s.range.0 ∙ at (λ p. p.sector) (media_offset header i) a.range.0;
        count = s.range.1 ∙ at (λ p. p.count) (media_size header i) a.range.1;
        type = s.kind ∙ at (λ p. p.type) (part_type header i) a.kind;
        keyslot = s.keyslot;
      }

  collect_lem :
      (left i : ℕ) (t : Table) (ctr : ℕ)
      → left + i ≡ max_partitions
      → Collected i t
      → (t' : Table) × (ctr' : ℕ) × (collect new_3ds header left i t ctr ≡ some (t', ctr'))
        × Collected max_partitions t'
  unfolding collect
  collect_lem zero i t ctr e c = (t, ctr, refl, subst_count (omega (arith, e)) c)
    where
      subst_count : {k : ℕ} → i ≡ k → Collected i t → Collected k t
      subst_count same d = rw (sym same) d
  collect_lem (suc left) i t ctr e c =
      elim (partition_add_lem t (media_offset header i) (media_size header i) (part_type header i)
        c.valid) [
          | inr (full, _) ↦ absurd (omega (arith, full, c.num, e))
          | inl (lt, t1, added, a) ↦
              let t2 = by_type new_3ds i (part_type header i) i t1 in
              let switched = by_type-Switched new_3ds i (part_type header i) i t1 in
              let fresh : (entry t1 i).keyslot ≡ 0xFF =
                ap (λ k. (entry t1 k).keyslot) (sym c.num)
                ∙ a.keyslot
                ∙ ap (λ k. (entry t k).keyslot) c.num
                ∙ c.unused i (omega arith) (omega (arith, e)) in
              let set =
                Switched-IsSetUp new_3ds i (part_type header i) i t1 t2 a.valid (omega (arith, e))
                  fresh switched in
              let names =
                Switched-IsNamed new_3ds i (part_type header i) i t1 t2 a.valid
                  (partition_add-IsNamed t (media_offset header i) (media_size header i)
                    (part_type header i) t1 c.names a)
                  (omega (arith, a.num, c.num)) switched in
              let (t', ctr', done, all) =
                collect_lem left (i + 1) t2
                  (ctr_sector i (part_type header i) (media_offset header i) ctr) (omega (arith, e))
                  (round-Collected i t t1 t2 (omega (arith, e)) c a set names) in
              (
                t',
                ctr',
                rw (collect, added)
                    (ap
                        (λ k.
                          collect new_3ds header left (i + 1)
                            (by_type new_3ds i (part_type header i) k t1)
                            (ctr_sector i (part_type header i) (media_offset header i) ctr))
                        c.num
                      ∙ done),
                all,
              )
        ]

  cleared_slots :
      (ps : List Partition) (j : ℕ)
      → j < length ps
      → (get_or (map cleared ps) j zeroed).keyslot ≡ 0xFF
  unfolding cleared
  cleared_slots [] j lt = absurd (omega (arith, lt))
  cleared_slots (p ∷ ps) zero lt = refl
  cleared_slots (p ∷ ps) (suc j) lt = cleared_slots ps j (omega (arith, lt))

  -- The loop of `sdmmc_dnand_init` on the table after `partitionsReset` does not panic. It ends with
  -- eight entries in use, no two of them with one name, and entry `i` has the place, the size and
  -- the type of partition `i` of the header, and the keyslot of its type, 0xFF where there is none.
  pub collect-partitions_reset :
      (t : Table) (ctr : ℕ)
      → IsTable t
      → (t' : Table) × (ctr' : ℕ) × (collect new_3ds header max_partitions 0
            (partitions_reset t)
            ctr
          ≡ some (t', ctr'))
        × Collected max_partitions t'
  unfolding partitions_reset
  collect-partitions_reset t ctr v =
      let (valid, names) = partitions_reset-IsNamed t v in
      collect_lem max_partitions 0 (partitions_reset t) ctr refl (record {
        valid = valid;
        names = names;
        num = refl;
        entries = λ j lt. absurd (omega (arith, lt));
        unused = λ j le lt. cleared_slots t.parts j (omega (arith, v.size, lt));
      })
