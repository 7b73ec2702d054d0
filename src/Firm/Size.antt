-- ===== src/Firm/Size.antt =====
-- What `firm_size` returns.
use native.Mathlib.Decide.{ℕ_discrete}
use fastboot3ds.Base.{
  ℕ, zero, suc, ◌+◌, ◌≤◌, ◌<◌, ◌≡◌, ◌≢◌, ◌⊎◌, false, ◌||◌, some, Bytes, arith, inl, inr, Bool-cases,
  ◌==◌, ltb, leb, add32, if◌then◌else◌,
}
use fastboot3ds.Firm.{firm_max_size, header_size, sec_offset, sec_size, size_from, firm_size}

-- A section below `n` that is not empty, and that begins behind section `i` or is section `i`,
-- ends within `r` bytes.
pub Covered : Bytes → ℕ → ℕ → ℕ → Type 0
Covered h n i r =
    (j : ℕ) × (j < n)
    × (sec_size h j ≢ 0)
    × (sec_offset h i ≤ sec_offset h j)
    × (sec_offset h j + sec_size h j ≤ r)

-- What the loop returns with the sections below `n` to go.
pub record SizeOf (h : Bytes) (n len cur_offset r : ℕ) : Type 0 where
  pub above : len ≤ r
  pub small : r ≤ firm_max_size
  pub covers : (i : ℕ) → i < n → sec_size h i ≢ 0 → (sec_offset h i ≤ cur_offset) ⊎ Covered h n i r

SizeOf-skip :
    (h : Bytes) (n len cur_offset r : ℕ)
    → (sec_size h n ≡ 0) ⊎ (sec_offset h n ≤ cur_offset)
    → SizeOf h n len cur_offset r
    → SizeOf h (suc n) len cur_offset r
unfolding Covered
SizeOf-skip h n len cur_offset r why s = record {
  above = s.above;
  small = s.small;
  covers = λ i lt ne. elim (ℕ_discrete i n) [
    | yes e ↦ elim why [ inl empty ↦ absurd (ne (rw e empty)) | inr low ↦ inl (rw e low) ]
    | no other ↦ elim (s.covers i (omega arith) ne) [
      | inl low ↦ inl low
      | inr (j, below, full, order, end) ↦ inr (j, omega arith, full, order, end)
    ]
  ];
}

SizeOf-take :
    (h : Bytes) (n len len' cur_offset r : ℕ)
    → sec_size h n ≢ 0
    → len ≤ len'
    → sec_offset h n + sec_size h n ≤ len'
    → SizeOf h n len' (sec_offset h n) r
    → SizeOf h (suc n) len cur_offset r
unfolding Covered
SizeOf-take h n len len' cur_offset r full le end s = record {
  above = omega (arith, s.above);
  small = s.small;
  covers = λ i lt ne. elim (ℕ_discrete i n) [
    | yes e ↦ inr (n, omega arith, full, rw e (omega arith), omega (arith, s.above))
    | no other ↦ elim (s.covers i (omega arith) ne) [
      | inl low ↦ inr (n, omega arith, full, low, omega (arith, s.above))
      | inr (j, below, fullj, order, endj) ↦ inr (j, omega arith, fullj, order, endj)
    ]
  ];
}

size_from_lem :
    (h : Bytes) (n len cur_offset r : ℕ)
    → len ≤ firm_max_size
    → size_from h n len cur_offset ≡ some r
    → SizeOf h n len cur_offset r
unfolding size_from
size_from_lem h zero len cur_offset r le e =
    let same : len ≡ r = ground arith in
    record { above = omega arith; small = omega arith; covers = λ i lt. absurd (omega arith) }
size_from_lem h (suc n) len cur_offset r le e = elim (Bool-cases (sec_size h n == 0)) [
  | inl empty ↦
      SizeOf-skip h n len cur_offset r (inl (ground (arith, empty)))
        (size_from_lem h n len cur_offset r le (rw empty at e))
  | inr full ↦ elim (Bool-cases (leb (sec_offset h n) cur_offset)) [
    | inl low ↦
        SizeOf-skip h n len cur_offset r (inr (ground (arith, low)))
          (size_from_lem h n len cur_offset r le (rw (full, low) at e))
    | inr high ↦
        elim (Bool-cases (ltb firm_max_size (sec_size h n) || leb firm_max_size (sec_offset h n))) [
          | inl large ↦ cc (rw (full, high, large) at e)
          | inr fits ↦ elim (Bool-cases (ltb firm_max_size next)) [
            | inl large ↦ cc (rw (full, high, fits, large) at e)
            | inr small ↦
                SizeOf-take h n len next cur_offset r (ground (arith, full)) (ground arith)
                  (next_end (sec_size h n) (sec_offset h n) fits)
                  (size_from_lem h n next (sec_offset h n) r (ground (arith, small))
                    (rw (full, high, fits, small) at e))
          ]
        ]
  ]
]
  where
    next : ℕ
    next =
        let sec_end = add32 (sec_offset h n) (sec_size h n) in
        if ltb len sec_end then sec_end else len

    next_end :
        (size offset : ℕ)
        → (ltb firm_max_size size || leb firm_max_size offset) ≡ false
        → offset + size ≤ (if ltb len (add32 offset size) then add32 offset size else len)
    next_end size offset fits = ground (arith, fits)

-- Where `firm_size` succeeds, the size is at least that of the header and at most
-- `FIRM_MAX_SIZE`, and for each section that is not empty and has an offset there is one that
-- begins no earlier and ends within the size.
pub firm_size_lem :
    (h : Bytes) (r : ℕ)
    → firm_size h ≡ some r
    → (header_size ≤ r)
      × (r ≤ firm_max_size)
      × ((i : ℕ) → i < 4 → sec_size h i ≢ 0 → sec_offset h i ≢ 0 → Covered h 4 i r)
unfolding firm_size
firm_size_lem h r e =
    let s = size_from_lem h 4 header_size 0 r (omega arith) e in
    (
      s.above,
      s.small,
      λ i lt full nz. elim (s.covers i lt full) [
        | inl low ↦ absurd (nz (omega arith))
        | inr covered ↦ covered
      ],
    )
