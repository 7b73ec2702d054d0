-- ===== src/FirmWriter/Blocks.antt =====
-- The loop of `writeFirmPartition`.
use fastboot3ds.Base.{
  ℕ, zero, suc, ◌+◌, ◌-◌, ◌*◌, ◌/◌, ◌%◌, ◌≤◌, ◌<◌, ◌≡◌, ◌⊎◌, inl, inr, refl, ap, ◌∙◌, true, false,
  Bytes, put_at, take, drop, min, ◌==◌, bytes_eq, add32, u32_mod, ℤ, pos, neg, Bool-cases, arith,
  drop-drop,
}
use fastboot3ds.Fs.World.{DevStruct, IsDisk, sector_of}
use fastboot3ds.FirmWriter.{firmwriter_blk_size, write_blocks}

-- The sectors of the rest lie behind those of a block.
rest_sectors :
    (size : ℕ)
    → min size firmwriter_blk_size / 512 + (size - min size firmwriter_blk_size) / 512 ≤ size / 512
rest_sectors size = omega arith

pub block_size :
    (size : ℕ)
    → size % 512 ≡ 0
    → min size firmwriter_blk_size / 512 * 512 ≡ min size firmwriter_blk_size
block_size size e = omega arith

next_sector :
    (sector count n : ℕ) → sector + n < u32_mod → count ≤ n → add32 sector count ≡ sector + count
next_sector sector count n lt le = omega arith

rest_small :
    (sector size : ℕ)
    → sector + size / 512 < u32_mod
    → add32 sector (min size firmwriter_blk_size / 512)
        + (size - min size firmwriter_blk_size) / 512
      < u32_mod
rest_small sector size lt = omega arith

block_apart :
    (sector size k : ℕ)
    → (k < sector) ⊎ (sector + size / 512 ≤ k)
    → (k < sector) ⊎ (sector + min size firmwriter_blk_size / 512 ≤ k)
block_apart sector size k (inl lt) = inl lt
block_apart sector size k (inr le) = inr (omega (arith, le))

rest_apart :
    (sector size k : ℕ)
    → sector + size / 512 < u32_mod
    → (k < sector) ⊎ (sector + size / 512 ≤ k)
    → (k < add32 sector (min size firmwriter_blk_size / 512))
      ⊎ (add32 sector (min size firmwriter_blk_size / 512)
            + (size - min size firmwriter_blk_size) / 512
          ≤ k)
rest_apart sector size k small (inl lt) = inl (omega (arith, lt, small))
rest_apart sector size k small (inr le) = inr (omega (arith, le, small))

split : (m n : ℕ) → (m < n) ⊎ (n ≤ m)
split m n = ground arith

before_rest :
    (sector size k : ℕ)
    → sector + size / 512 < u32_mod
    → k < sector + min size firmwriter_blk_size / 512
    → k < add32 sector (min size firmwriter_blk_size / 512)
before_rest sector size k small lt = omega (arith, small, lt)

rest_offset :
    (sector size k : ℕ)
    → sector + size / 512 < u32_mod
    → size % 512 ≡ 0
    → add32 sector (min size firmwriter_blk_size / 512) ≤ k
    → (k - sector) * 512
      ≡ min size firmwriter_blk_size + (k - add32 sector (min size firmwriter_blk_size / 512)) * 512
rest_offset sector size k small whole le = omega (arith, small, whole, le)

-- A sector of the image is in the block of this round or in the rest.
which_part :
    (sector size k : ℕ)
    → sector + size / 512 < u32_mod
    → sector ≤ k
    → k < sector + size / 512
    → (k < sector + min size firmwriter_blk_size / 512)
      ⊎ ((add32 sector (min size firmwriter_blk_size / 512) ≤ k)
          × (k
              < add32 sector (min size firmwriter_blk_size / 512)
                + (size - min size firmwriter_blk_size) / 512))
which_part sector size k small lo hi =
    elim (split k (sector + min size firmwriter_blk_size / 512)) [
      | inl lt ↦ inl lt
      | inr le ↦ inr (omega (arith, le, small), omega (arith, le, small, hi))
    ]

-- A device whose sectors a read does not change.
unfoldable pub KeepsOnRead : {W : Type 0} → DevStruct W → (W → ℕ → Bytes) → Type 0
KeepsOnRead {W} dev block =
    (s n : ℕ) (w : W) (k : ℕ) → block (dev.read_sector s n w).2 k ≡ block w k

module _ {W : Type 0} (dev : DevStruct W) (block : W → ℕ → Bytes) (disk : IsDisk dev block)
    (keeps : KeepsOnRead dev block) where
  -- What a round leaves outside of the sectors of its block.
  round_frame :
      (s n m : ℕ) (buf : Bytes) (w : W) (k : ℕ)
      → (k < s) ⊎ (s + n ≤ k)
      → block (dev.read_sector s m (dev.write_sector s n buf w).1).2 k ≡ block w k
  unfolding KeepsOnRead
  round_frame s n m buf w k out =
      keeps s m ((dev.write_sector s n buf w).1) k ∙ disk.frame s n buf w k out

  module _ (fuel sector size : ℕ) (image cmp : Bytes) (w : W) where
    abbrev pub amount : ℕ
    amount = min size firmwriter_blk_size

    abbrev pub count : ℕ
    count = min size firmwriter_blk_size / 512

    abbrev pub written : W
    written = (dev.write_sector sector count image w).1

    abbrev pub read : W
    read = (dev.read_sector sector count written).2

    abbrev pub compared : Bytes
    compared = put_at 0 (dev.read_sector sector count written).1 cmp

    abbrev pub rest : ℤ × W
    rest =
        write_blocks dev fuel (add32 sector count) (size - amount) (drop amount image) compared read

    -- The exits of a round of the loop.
    pub data Round : ℤ × W → Type 0 where
      all_done : size ≡ 0 → Round (pos 0, w)
      not_written :
          0 < size → (dev.write_sector sector count image w).0 ≡ false → Round (neg 7, written)
      not_read : 0 < size → (dev.read_sector sector count written).0 ≡ false → Round (neg 7, read)
      differs :
          0 < size
          → bytes_eq (take amount image) (take amount compared) ≡ false
          → Round (neg 8, read)
      goes_on : 0 < size → (dev.write_sector sector count image w).0 ≡ true → Round rest

    pub write_blocks-Round : Round (write_blocks dev (suc fuel) sector size image cmp w)
    unfolding write_blocks
    write_blocks-Round = elim (Bool-cases (size == 0)) [
      | inl done ↦ rw done (all_done (ground (arith, done)))
      | inr more ↦
          let pos_size : 0 < size = ground (arith, more) in
          elim (Bool-cases ((dev.write_sector sector count image w).0)) [
            | inr failed ↦ rw (more, failed) (not_written pos_size failed)
            | inl wrote ↦ elim (Bool-cases ((dev.read_sector sector count written).0)) [
              | inr failed ↦ rw (more, wrote, failed) (not_read pos_size failed)
              | inl got ↦ elim (Bool-cases (bytes_eq (take amount image) (take amount compared))) [
                | inr other ↦ rw (more, wrote, got, other) (differs pos_size other)
                | inl same ↦ rw (more, wrote, got, same) (goes_on pos_size wrote)
              ]
            ]
          ]
    ]

    Round-frame :
        (r : ℤ × W) (k : ℕ)
        → Round r
        → (k < sector) ⊎ (sector + count ≤ k)
        → block rest.1 k ≡ block read k
        → block r.1 k ≡ block w k
    Round-frame r k (all_done e) out after = refl
    Round-frame r k (not_written more e) out after = disk.frame sector count image w k out
    Round-frame r k (not_read more e) out after = round_frame sector count count image w k out
    Round-frame r k (differs more e) out after = round_frame sector count count image w k out
    Round-frame r k (goes_on more e) out after =
        after ∙ round_frame sector count count image w k out

  -- Whatever it returns, the loop changes only the sectors of the image.
  pub write_blocks_frame :
      (fuel sector size : ℕ) (image cmp : Bytes) (w : W) (k : ℕ)
      → sector + size / 512 < u32_mod
      → (k < sector) ⊎ (sector + size / 512 ≤ k)
      → block (write_blocks dev fuel sector size image cmp w).1 k ≡ block w k
  unfolding write_blocks
  write_blocks_frame zero sector size image cmp w k lt out = refl
  write_blocks_frame (suc fuel) sector size image cmp w k lt out =
      Round-frame fuel sector size image cmp w (write_blocks dev (suc fuel) sector size image cmp w)
        k (write_blocks-Round fuel sector size image cmp w) (block_apart sector size k out)
        (write_blocks_frame fuel (add32 sector (min size firmwriter_blk_size / 512))
          (size - min size firmwriter_blk_size) (drop (min size firmwriter_blk_size) image)
          (compared fuel sector size image cmp w) (read fuel sector size image cmp w) k
          (rest_small sector size lt) (rest_apart sector size k lt out))

  Round-stored :
      (fuel sector size : ℕ) (image cmp : Bytes) (w : W) (r : ℤ × W) (k : ℕ)
      → Round fuel sector size image cmp w r
      → r.0 ≡ pos 0
      → sector ≤ k
      → k < sector + size / 512
      → ((dev.write_sector sector (min size firmwriter_blk_size / 512) image w).0 ≡ true
          → (rest fuel sector size image cmp w).0 ≡ pos 0
          → block (rest fuel sector size image cmp w).1 k ≡ sector_of image (k - sector))
      → block r.1 k ≡ sector_of image (k - sector)
  Round-stored fuel sector size image cmp w r k (all_done e) ok lo hi after =
      absurd (omega (arith, e, lo, hi))
  Round-stored fuel sector size image cmp w r k (not_written more e) ok lo hi after = cc
  Round-stored fuel sector size image cmp w r k (not_read more e) ok lo hi after = cc
  Round-stored fuel sector size image cmp w r k (differs more e) ok lo hi after = cc
  Round-stored fuel sector size image cmp w r k (goes_on more e) ok lo hi after = after e ok

  -- Where it returns 0, the sectors of the image are on the device.
  pub write_blocks_stored :
      (fuel sector size : ℕ) (image cmp : Bytes) (w : W) (k : ℕ)
      → sector + size / 512 < u32_mod
      → size % 512 ≡ 0
      → size ≤ fuel * firmwriter_blk_size
      → (write_blocks dev fuel sector size image cmp w).0 ≡ pos 0
      → sector ≤ k
      → k < sector + size / 512
      → block (write_blocks dev fuel sector size image cmp w).1 k ≡ sector_of image (k - sector)
  unfolding KeepsOnRead
  write_blocks_stored zero sector size image cmp w k small whole enough ok lo hi =
      absurd (omega (arith, enough, lo, hi))
  write_blocks_stored (suc fuel) sector size image cmp w k small whole enough ok lo hi =
      let amount = min size firmwriter_blk_size in
      let sector' = add32 sector (amount / 512) in
      let m = compared fuel sector size image cmp w in
      let u = read fuel sector size image cmp w in
      Round-stored fuel sector size image cmp w
        (write_blocks dev (suc fuel) sector size image cmp w) k
        (write_blocks-Round fuel sector size image cmp w) ok lo hi
        (λ wrote ok'. elim (which_part sector size k small lo hi) [
          | inl here ↦
              write_blocks_frame fuel sector' (size - amount) (drop amount image) m u k
                (rest_small sector size small) (inl (before_rest sector size k small here))
              ∙ keeps sector (amount / 512) ((dev.write_sector sector (amount / 512) image w).1) k
              ∙ disk.stores sector (amount / 512) image w k wrote lo here
          | inr (lo', hi') ↦
              write_blocks_stored fuel sector' (size - amount) (drop amount image) m u k
                (rest_small sector size small) (omega (arith, whole)) (omega (arith, enough)) ok'
                lo' hi'
              ∙ ap (take 512) (
                  drop-drop ((k - sector') * 512) amount ((k - sector) * 512) image
                    (rest_offset sector size k small whole lo'))
        ])
