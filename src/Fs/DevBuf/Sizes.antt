-- ===== src/Fs/DevBuf/Sizes.antt =====
-- The device buffer's sizes: what a read leaves, and what `devBufAllocate` and `devBufFree` do not
-- reset.
use fastboot3ds.Base.{
  ℕ, ◌*◌, ◌/◌, ◌≤◌, ◌≡◌, ◌≢◌, refl, Bool, true, false, some, Bytes, length, length-append,
  length-drop, drop, arith, inl, inr, Bool-cases, Option-cases, ltb, ◌==◌, ℤ, pos, is_neg,
  if◌then◌else◌,
}
use fastboot3ds.Fs.World.{FatFs, DevStruct}
use fastboot3ds.Fs.State.{Fs, DevBuf}
use fastboot3ds.Fs.Files.{f_lseek, f_read, is_file_handle_valid}
use fastboot3ds.Fs.Drives.{is_ok}
use fastboot3ds.Fs.DevBuf.{
  max_dev_buf, has_mem, contents, fill, f_create_device_buffer, is_valid_dev_buf_handle,
  f_free_device_buffer, check_handle, read_file_part, read_nand_part, f_read_to_device_buffer,
}

-- The memory has `memSize` bytes. Nothing is said of `dataSize`, which may be stale.
pub record IsBuffer (b : DevBuf) : Type 0 where
  pub size : length (contents b) ≡ b.mem_size

fill-IsBuffer :
    (got : Bytes) (b : DevBuf) → length got ≤ b.mem_size → IsBuffer b → IsBuffer (fill got b)
unfolding fill
fill-IsBuffer got b le v = record {
  size = omega (
    arith,
    length-append got (drop (length got) (contents b)),
    length-drop (length got) (contents b),
    v.size,
    le,
  );
}

resized-IsBuffer : (b : DevBuf) (n : ℕ) → IsBuffer b → IsBuffer (record b { data_size = n })
resized-IsBuffer b n v = record { size = v.size }

-- What a read of `n` bytes to the buffer leaves: the memory keeps its size, and `dataSize` is the
-- size of this read if it succeeded, which fits, and what it was if not.
pub record Filled (b : DevBuf) (n : ℕ) (ok : Bool) (b' : DevBuf) : Type 0 where
  pub buffer : IsBuffer b'
  pub mem_size : b'.mem_size ≡ b.mem_size
  pub data_size : b'.data_size ≡ (if ok then n else b.data_size)
  pub fits : ok ≡ true → n ≤ b'.mem_size

kept-Filled : (b : DevBuf) (n : ℕ) → IsBuffer b → Filled b n false b
kept-Filled b n v = record { buffer = v; mem_size = refl; data_size = refl; fits = λ e. cc }

failed-Filled :
    (b : DevBuf) (n : ℕ) (got : Bytes)
    → length got ≤ b.mem_size
    → IsBuffer b
    → Filled b n false (fill got b)
unfolding fill
failed-Filled b n got le v = record {
  buffer = fill-IsBuffer got b le v;
  mem_size = refl;
  data_size = refl;
  fits = λ e. cc;
}

done-Filled :
    (b : DevBuf) (n : ℕ) (got : Bytes)
    → length got ≤ b.mem_size
    → n ≤ b.mem_size
    → IsBuffer b
    → Filled b n true (record (fill got b) { data_size = n })
unfolding fill
done-Filled b n got le fits v = record {
  buffer = resized-IsBuffer (fill got b) n (fill-IsBuffer got b le v);
  mem_size = refl;
  data_size = refl;
  fits = λ e. fits;
}

module _ {W : Type 0} (fat : FatFs W) (rawnand : DevStruct W)
    (device_reads : (s n : ℕ) (w : W) → length (rawnand.read_sector s n w).1 ≤ n * 512)
    (file_reads : (i n : ℕ) (w : W) → length (fat.read i n w).1 ≤ n) where
  read_nand_part-Filled :
      (offset size : ℕ) (fs : Fs) (w : W)
      → IsBuffer fs.dev_buf
      → size ≤ fs.dev_buf.mem_size
      → Filled fs.dev_buf size
          (is_ok (read_nand_part fat rawnand offset size fs w).0)
          (read_nand_part fat rawnand offset size fs w).1.dev_buf
  unfolding read_nand_part
  read_nand_part-Filled offset size fs w v le = elim (Bool-cases (rawnand.is_active w)) [
    | inr off ↦ rw off (kept-Filled fs.dev_buf size v)
    | inl on ↦ elim (Bool-cases ((rawnand.read_sector (offset / 512) (size / 512) w).0)) [
      | inr bad ↦ rw (on, bad) (failed-Filled fs.dev_buf size _ short v)
      | inl fine ↦ rw (on, fine) (done-Filled fs.dev_buf size _ short le v)
    ]
  ]
    where
      short : length ((rawnand.read_sector (offset / 512) (size / 512) w).1) ≤ fs.dev_buf.mem_size
      short = omega (arith, device_reads (offset / 512) (size / 512) w, le)

  -- What `fRead` stored to the buffer, which is nothing where it refuses the handle.
  f_read_short : (handle size : ℕ) (fs : Fs) (w : W) → length (f_read fat handle size fs w).1 ≤ size
  unfolding f_read
  f_read_short handle size fs w = elim (Bool-cases (is_file_handle_valid fs handle)) [
    | inr bad ↦ rw bad (omega arith)
    | inl good ↦ elim (Bool-cases (length (fat.read handle size w).1 == size)) [
      | inl all ↦ rw (good, all) (file_reads handle size w)
      | inr some_of ↦ rw (good, some_of) (file_reads handle size w)
    ]
  ]

  read_file_part-Filled :
      (handle offset size : ℕ) (fs : Fs) (w : W)
      → IsBuffer fs.dev_buf
      → size ≤ fs.dev_buf.mem_size
      → Filled fs.dev_buf size
          (is_ok (read_file_part fat rawnand handle offset size fs w).0)
          (read_file_part fat rawnand handle offset size fs w).1.dev_buf
  unfolding read_file_part
  read_file_part-Filled handle offset size fs w v le = elim (Bool-cases (is_neg sought.0)) [
    | inl lost ↦ rw lost (kept-Filled fs.dev_buf size v)
    | inr found ↦ elim (Bool-cases (is_neg got.0)) [
      | inl bad ↦ rw (found, bad) (failed-Filled fs.dev_buf size got.1 short v)
      | inr fine ↦ rw (found, fine) (done-Filled fs.dev_buf size got.1 short le v)
    ]
  ]
    where
      sought : ℤ × W
      sought = f_lseek fat handle offset fs w

      got : ℤ × Bytes × W
      got = f_read fat handle size fs sought.1

      short : length got.1 ≤ fs.dev_buf.mem_size
      short = omega (arith, f_read_short handle size fs sought.1, le)

  -- For a device buffer whose memory has `memSize` bytes, whatever its `dataSize`, and if no read
  -- gives more bytes than were asked for: after `fReadToDeviceBuffer` the memory still has
  -- `memSize` bytes, so nothing was stored past its end. If it succeeds, `dataSize` is the size
  -- that was read, which is at most `memSize`; if not, `dataSize` is what it was.
  pub f_read_to_device_buffer_lem :
      (source offset size handle : ℕ) (fs : Fs) (w : W)
      → IsBuffer fs.dev_buf
      → Filled fs.dev_buf size
          (is_ok (f_read_to_device_buffer fat rawnand source offset size handle fs w).0)
          (f_read_to_device_buffer fat rawnand source offset size handle fs w).1.dev_buf
  unfolding f_read_to_device_buffer
  f_read_to_device_buffer_lem source offset size handle fs w v =
      elim (Option-cases (check_handle fs source offset size)) [
        | inl bad ↦ rw (bad, f_read_to_device_buffer) (kept-Filled fs.dev_buf size v)
        | inr (from_file, good) ↦ elim (Bool-cases (is_valid_dev_buf_handle fs handle)) [
          | inr bad ↦ rw (good, f_read_to_device_buffer) (rw bad (kept-Filled fs.dev_buf size v))
          | inl buffer ↦ elim (Bool-cases (ltb fs.dev_buf.mem_size size)) [
            | inl large ↦
                rw (good, f_read_to_device_buffer)
                  (rw (buffer, large) (kept-Filled fs.dev_buf size v))
            | inr fits ↦ elim (Bool-cases from_file) [
              | inl file ↦
                  rw (good, f_read_to_device_buffer)
                    (rw (buffer, fits, file)
                      (read_file_part-Filled source offset size fs w v (ground (arith, fits))))
              | inr device ↦
                  rw (good, f_read_to_device_buffer)
                    (rw (buffer, fits, device)
                      (read_nand_part-Filled offset size fs w v (ground (arith, fits))))
            ]
          ]
        ]
      ]

-- A buffer is freed and a new one of `size` bytes created. Both succeed, and `dataSize` is still
-- that of the old buffer, however large.
pub f_create_device_buffer-stale :
    (fresh : Bytes) (size : ℕ) (fs : Fs)
    → has_mem fs.dev_buf ≡ true
    → size ≢ 0
    → size ≤ max_dev_buf
    → let freed = f_free_device_buffer 0 fs in
      let created = f_create_device_buffer (some fresh) size freed.1 in
      (freed.0 ≡ pos 0)
      × (created.0 ≡ pos 0)
      × (is_valid_dev_buf_handle created.1 0 ≡ true)
      × (created.1.dev_buf.mem_size ≡ size)
      × (created.1.dev_buf.data_size ≡ fs.dev_buf.data_size)
unfolding f_free_device_buffer f_create_device_buffer is_valid_dev_buf_handle has_mem
f_create_device_buffer-stale fresh size fs mem nz le =
    rw mem (refl, ground arith, ground arith, ground arith, ground arith)
