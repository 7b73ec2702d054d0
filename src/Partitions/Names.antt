-- ===== src/Partitions/Names.antt =====
-- Names of partitions: what `partitionSetName` stores, `partitionGetIndex` finds again.
use native.Mathlib.Decide.{ℕ_discrete}
use fastboot3ds.Base.{
  ℕ, zero, suc, ◌+◌, ◌-◌, ◌≤◌, ◌<◌, ◌≡◌, ◌≢◌, ◌⊎◌, refl, sym, ap, ◌∙◌, none, some, List, [], ◌∷◌,
  ◌++◌, Bytes, map, length, length-set, length-take, length-append, get_or, set, Bool, take,
  get_or-set_self, get_or-set_ne, arith, Option-cases, Bool-cases, inl, inr, true, false, leb,
}
use fastboot3ds.Partitions.{
  Partition, zeroed, Table, IsTable, entry, max_partitions, max_partition_name, stem,
  partition_set_name, partition_get_index, partitions_reset, cleared, find_partition,
}
use fastboot3ds.Partitions.Search.{name_at, find_from-none, find_from_first, find_from-some}
use fastboot3ds.Partitions.Add.{Added}

abbrev pub name_of : Table → ℕ → Bytes
name_of t i = (entry t i).name

-- No two entries in use share a name, and those that are not in use have none.
pub record IsNamed (t : Table) : Type 0 where
  pub distinct :
      (i j : ℕ) → i < t.num → j < t.num → name_of t i ≢ [] → name_of t i ≡ name_of t j → i ≡ j
  pub unused : (i : ℕ) → t.num ≤ i → name_of t i ≡ []

get_or-take {ℓ} :
    {A : Type ℓ} (n : ℕ) (xs : List A) (i : ℕ) (d : A)
    → i < n
    → get_or (take n xs) i d ≡ get_or xs i d
get_or-take zero xs i d h = elim h [ ]
get_or-take (suc n) [] i d h = refl
get_or-take (suc n) (x ∷ xs) zero d h = refl
get_or-take (suc n) (x ∷ xs) (suc i) d h = get_or-take n xs i d (omega arith)

-- `findPartition` in terms of the entries in use: it fails only if none has the name, and it
-- returns an index whose entry has it.
pub find_partition-none :
    (t : Table) (name : Bytes)
    → IsTable t
    → find_partition t name ≡ none
    → (i : ℕ) → i < t.num
    → name_of t i ≢ stem name
unfolding find_partition
find_partition-none t name v h i lt e =
    find_from-none (stem name) 0 (take t.num t.parts) h i
      (omega (arith, length-take t.num t.parts, v.size, v.used))
      (ap (λ (p : Partition). p.name) (get_or-take t.num t.parts i zeroed lt) ∙ e)

pub find_partition_first :
    (t : Table) (name : Bytes) (i : ℕ)
    → IsTable t
    → i < t.num
    → name_of t i ≡ stem name
    → ((j : ℕ) → j < i → name_of t j ≢ stem name)
    → find_partition t name ≡ some i
unfolding find_partition
find_partition_first t name i v lt e before =
    find_from_first (stem name) 0 (take t.num t.parts) i
      (omega (arith, length-take t.num t.parts, v.size, v.used))
      (ap (λ (p : Partition). p.name) (get_or-take t.num t.parts i zeroed lt) ∙ e)
      (λ j l q. before j l (
        ap (λ (p : Partition). p.name) (sym (get_or-take t.num t.parts j zeroed (omega arith)))
        ∙ q))
    ∙ ap some (omega arith)

pub find_partition-some :
    (t : Table) (name : Bytes) (i : ℕ)
    → IsTable t
    → find_partition t name ≡ some i
    → (i < t.num) × (name_of t i ≡ stem name)
unfolding find_partition
find_partition-some t name i v h =
    let (j, q, lt, e) = find_from-some (stem name) 0 (take t.num t.parts) i h in
    let l : j < t.num = omega (arith, length-take t.num t.parts, v.size, v.used) in
    let e' : i ≡ j = omega arith in
    (
      omega arith,
      rw e' (ap (λ (p : Partition). p.name) (sym (get_or-take t.num t.parts j zeroed l)) ∙ e),
    )

-- The state that a successful `partitionSetName` leaves.
unfoldable pub named : Table → ℕ → Bytes → Table
named t index name =
    let part' = record (entry t index) { name = take max_partition_name name } in
    record t { parts = set t.parts index part' }

-- The two outcomes of `partitionSetName`: the index is out of range or an entry has the name
-- already, and nothing changes; or no entry has it, and the entry gets the name, cut to ten bytes.
pub partition_set_name_cases :
    (t : Table) (index : ℕ) (name : Bytes)
    → IsTable t
    → ((partition_set_name t index name ≡ (t, false))
        × ((max_partitions ≤ index)
            ⊎ ((i : ℕ) × (i < t.num) × (name_of t i ≡ stem (take max_partition_name name)))))
      ⊎ ((partition_set_name t index name ≡ (named t index name, true))
          × (index < max_partitions)
          × ((i : ℕ) → i < t.num → name_of t i ≢ stem (take max_partition_name name)))
unfolding partition_set_name named
partition_set_name_cases t index name v = elim (Bool-cases (leb max_partitions index)) [
  | inl out ↦ inl (rw out, inl (ground arith))
  | inr inside ↦ elim (Option-cases (find_partition t (take max_partition_name name))) [
    | inl free ↦
        inr
          (ground arith, ground arith, find_partition-none t (take max_partition_name name) v free)
    | inr (i, taken) ↦ inl (
      ground arith,
      inr (
        i,
        (find_partition-some t (take max_partition_name name) i v taken).0,
        (find_partition-some t (take max_partition_name name) i v taken).1,
      ),
    )
  ]
]

named_self :
    (t : Table) (index : ℕ) (name : Bytes)
    → IsTable t
    → index < max_partitions
    → name_of (named t index name) index ≡ take max_partition_name name
unfolding named
named_self t index name v lt =
    ap (λ (p : Partition). p.name) (get_or-set_self t.parts index _ zeroed (omega (arith, v.size)))

named-other :
    (t : Table) (index : ℕ) (name : Bytes) (i : ℕ)
    → index ≢ i
    → name_of (named t index name) i ≡ name_of t i
unfolding named
named-other t index name i ne =
    ap (λ (p : Partition). p.name) (get_or-set_ne t.parts index i _ zeroed ne)

pub named-IsTable :
    (t : Table) (index : ℕ) (name : Bytes) → IsTable t → IsTable (named t index name)
unfolding named
named-IsTable t index name v = record { size = length-set t.parts index _ ∙ v.size; used = v.used }

get_or-append_end : (xs : Bytes) (x : ℕ) → get_or (xs ++ (x ∷ [])) (length xs) 0 ≡ x
get_or-append_end [] x = refl
get_or-append_end (y ∷ xs) x = get_or-append_end xs x

take-append_left : (xs ys : Bytes) → take (length xs) (xs ++ ys) ≡ xs
take-append_left [] ys = refl
take-append_left (x ∷ xs) ys = ap (λ zs. x ∷ zs) (take-append_left xs ys)

named-IsNamed :
    (t : Table) (index : ℕ) (name : Bytes)
    → IsTable t
    → IsNamed t
    → index < t.num
    → ((i : ℕ) → i < t.num → name_of t i ≢ take max_partition_name name)
    → IsNamed (named t index name)
unfolding named
named-IsNamed t index name v w lt fresh = record {
  distinct = λ i j li lj ne e. pick i j li lj ne e;
  unused = λ i le. named-other t index name i (λ e. omega arith) ∙ w.unused i le;
}
  where
    self : name_of (named t index name) index ≡ take max_partition_name name
    self = named_self t index name v (omega (arith, v.used))

    pick :
        (i j : ℕ)
        → i < t.num
        → j < t.num
        → name_of (named t index name) i ≢ []
        → name_of (named t index name) i ≡ name_of (named t index name) j
        → i ≡ j
    pick i j li lj ne e = elim (ℕ_discrete index i) [
      | yes ei ↦ elim (ℕ_discrete index j) [
        | yes ej ↦ sym ei ∙ ej
        | no nj ↦ absurd (
            fresh j lj (
              sym (named-other t index name j nj)
              ∙ sym e
              ∙ ap (name_of (named t index name)) (sym ei)
              ∙ self))
      ]
      | no ni ↦ elim (ℕ_discrete index j) [
        | yes ej ↦ absurd (
            fresh i li (
              sym (named-other t index name i ni)
              ∙ e
              ∙ ap (name_of (named t index name)) (sym ej)
              ∙ self))
        | no nj ↦
            w.distinct i j li lj (λ z. ne (named-other t index name i ni ∙ z))
              (sym (named-other t index name i ni) ∙ e ∙ named-other t index name j nj)
      ]
    ]

-- A name without a colon at its end is looked up as it is, and with one it is looked up without.
stem-append_colon : (name : Bytes) → stem (name ++ (b':' ∷ [])) ≡ name
unfolding stem
stem-append_colon name =
    let n : length (name ++ (b':' ∷ [])) ≡ length name + 1 = length-append name (b':' ∷ []) in
    let m : length name + 1 - 1 ≡ length name = omega arith in
    rw n (rw m (ground (arith, get_or-append_end name b':', take-append_left name (b':' ∷ []))))

find_partition-named :
    (t : Table) (index : ℕ) (name key : Bytes)
    → IsTable t
    → index < t.num
    → stem key ≡ take max_partition_name name
    → ((i : ℕ) → i < t.num → name_of t i ≢ take max_partition_name name)
    → find_partition (named t index name) key ≡ some index
find_partition-named t index name key v lt e fresh =
    find_partition_first (named t index name) key index (named-IsTable t index name v)
      (unfold named in lt) (named_self t index name v (omega (arith, v.used)) ∙ sym e)
      (λ j l q. fresh j (omega arith) (sym (named-other t index name j (λ i. omega arith)) ∙ q ∙ e))

-- After a successful `partitionSetName` of an entry in use `partitionGetIndex` finds that entry
-- by the stored name, and by the name with a colon behind it as in a path, if the stored name does
-- not itself end in a colon.
pub get_index-set_name :
    (t : Table) (index : ℕ) (name : Bytes)
    → IsTable t
    → index < t.num
    → stem (take max_partition_name name) ≡ take max_partition_name name
    → (partition_set_name t index name).1 ≡ true
    → (partition_get_index (partition_set_name t index name).0 (take max_partition_name name)
        ≡ some index)
      × (partition_get_index
            (partition_set_name t index name).0
            (take max_partition_name name ++ (b':' ∷ []))
          ≡ some index)
unfolding partition_get_index
get_index-set_name t index name v lt plain h = elim (partition_set_name_cases t index name v) [
  | inl (failed, _) ↦ cc (ap (λ (r : Table × Bool). r.1) failed)
  | inr (done, _, fresh) ↦
      let t' = named t index name in
      let new : (i : ℕ) → i < t.num → name_of t i ≢ take max_partition_name name =
        λ i l e. fresh i l (e ∙ sym plain) in
      rw done (
        find_partition-named t index name _ v lt plain new,
        find_partition-named t index name _ v lt (stem-append_colon _) new,
      )
]

-- `partitionSetName` keeps the names distinct, for an entry in use and a name that does not end
-- in a colon when it is cut to ten bytes.
pub partition_set_name-IsNamed :
    (t : Table) (index : ℕ) (name : Bytes)
    → IsTable t
    → IsNamed t
    → index < t.num
    → stem (take max_partition_name name) ≡ take max_partition_name name
    → IsNamed (partition_set_name t index name).0
partition_set_name-IsNamed t index name v w lt plain =
    elim (partition_set_name_cases t index name v) [
      | inl (failed, _) ↦ rw failed w
      | inr (done, _, fresh) ↦
          rw done (named-IsNamed t index name v w lt (λ i l e. fresh i l (e ∙ sym plain)))
    ]

-- After `partitionsReset` the table is well-formed, and no entry is in use or has a name.
pub partitions_reset-IsNamed :
    (t : Table) → IsTable t → IsTable (partitions_reset t) × IsNamed (partitions_reset t)
unfolding partitions_reset
partitions_reset-IsNamed t v = (
  record { size = length-cleared t.parts ∙ v.size; used = omega arith },
  record { distinct = λ i j li. elim li [ ]; unused = λ i le. name-cleared t.parts i },
)
  where
    length-cleared : (ps : List Partition) → length (map cleared ps) ≡ length ps
    length-cleared [] = refl
    length-cleared (p ∷ ps) = ap suc (length-cleared ps)

    name-cleared : (ps : List Partition) (i : ℕ) → name_at (map cleared ps) i ≡ []
    name-cleared [] i = refl
    name-cleared (p ∷ ps) zero = refl
    name-cleared (p ∷ ps) (suc i) = name-cleared ps i

-- `partitionAdd` keeps the names distinct: the new entry has none yet.
pub partition_add-IsNamed :
    (t : Table) (sector count type : ℕ) (t' : Table)
    → IsNamed t
    → Added t sector count type t'
    → IsNamed t'
partition_add-IsNamed t sector count type t' w a = record {
  distinct = λ i j li lj ne e.
      w.distinct i j (old i li ne) (old j lj (λ z. ne (e ∙ z))) (λ z. ne (same i (old i li ne) ∙ z))
        (sym (same i (old i li ne)) ∙ e ∙ same j (old j lj (λ z. ne (e ∙ z))));
  unused = λ i le.
      ap (λ (p : Partition). p.name) (a.others i (λ e. omega (arith, a.num)))
      ∙ w.unused i (omega (arith, a.num));
}
  where
    same : (i : ℕ) → i < t.num → name_of t' i ≡ name_of t i
    same i l = ap (λ (p : Partition). p.name) (a.others i (λ e. omega arith))

    old : (i : ℕ) → i < t'.num → name_of t' i ≢ [] → i < t.num
    old i l ne = elim (ℕ_discrete t.num i) [
      | yes e ↦ absurd (ne (ap (name_of t') (sym e) ∙ a.name ∙ w.unused t.num (omega arith)))
      | no n ↦ omega (arith, a.num)
    ]
