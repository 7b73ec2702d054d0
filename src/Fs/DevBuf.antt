-- ===== src/Fs/DevBuf.antt =====
-- The device buffer of fs.c: allocated, filled from a file or the NAND, and freed. Writing from it
-- is in RawWrite.
pub mod Sizes
use fastboot3ds.Base.{
  ℕ, zero, suc, ◌+◌, ◌*◌, ◌/◌, ◌%◌, Bool, true, false, not, ◌||◌, Option, none, some, List, [],
  ◌++◌, Bytes, length, drop, ltb, ◌==◌, if◌then◌else◌, ℤ, pos, neg, is_neg,
}
use fastboot3ds.Fs.World.{FatFs, DevStruct}
use fastboot3ds.Fs.State.{Fs, DevBuf}
use fastboot3ds.Fs.Files.{is_file_handle_valid, f_lseek, f_read}
use fastboot3ds.Fs.Drives.{is_valid_dev_handle, get_device_from_handle, uses_raw_access}

abbrev pub max_dev_buf : ℕ
max_dev_buf = 0x180000

unfoldable pub has_mem : DevBuf → Bool
has_mem b = elim b.mem [ none ↦ false | some m ↦ true ]

-- What `malloc` returns is an argument. `dataSize` keeps its value.
unfoldable pub dev_buf_allocate : Option Bytes → ℕ → DevBuf → DevBuf × Bool
dev_buf_allocate none size b = (record b { mem = none }, false)
dev_buf_allocate (some m) size b = (record b { mem = some m; mem_size = size }, true)

unfoldable pub f_create_device_buffer : Option Bytes → ℕ → Fs → ℤ × Fs
unfolding dev_buf_allocate has_mem
f_create_device_buffer fresh size fs =
    let (b, got) = dev_buf_allocate fresh size fs.dev_buf in
    if size == 0 || ltb max_dev_buf size
    then (neg 30, fs)
    else if has_mem fs.dev_buf
    then (neg 31, fs)
    else if not got
    then (neg 30, record fs { dev_buf = b })
    else (pos 0, record fs { dev_buf = b })

unfoldable pub is_valid_dev_buf_handle : Fs → ℕ → Bool
unfolding has_mem
is_valid_dev_buf_handle fs handle =
    if not (handle == 0) then false else if not (has_mem fs.dev_buf) then false else true

-- `dataSize` keeps its value.
unfoldable pub dev_buf_free : DevBuf → DevBuf
dev_buf_free b = record b { mem = none; mem_size = 0 }

unfoldable pub f_free_device_buffer : ℕ → Fs → ℤ × Fs
unfolding dev_buf_free is_valid_dev_buf_handle
f_free_device_buffer handle fs =
    if not (is_valid_dev_buf_handle fs handle)
    then (neg 30, fs)
    else (pos 0, record fs { dev_buf = dev_buf_free fs.dev_buf })

-- The buffer's bytes, none where there is no buffer.
abbrev pub contents : DevBuf → Bytes
contents b = elim b.mem [ none ↦ [] | some m ↦ m ]

-- `got` stored at the start of the buffer.
unfoldable pub fill : Bytes → DevBuf → DevBuf
fill got b = record b { mem = some (got ++ drop (length got) (contents b)) }

-- The checks of `fReadToDeviceBuffer` and `fsWriteFromDeviceBuffer` on the handle: `some true`
-- for a file, `some false` for the device.
unfoldable pub check_handle : Fs → ℕ → ℕ → ℕ → Option Bool
unfolding is_valid_dev_handle get_device_from_handle uses_raw_access is_file_handle_valid
check_handle fs handle offset size =
    if is_valid_dev_handle handle
    then (if not (uses_raw_access fs (get_device_from_handle handle))
        then none
        else if not (offset % 0x200 == 0) || not (size % 0x200 == 0)
        then none
        else some false)
    else if not (is_file_handle_valid fs handle)
    then none
    else some true

module _ {W : Type 0} (fat : FatFs W) (rawnand : DevStruct W) where
  -- `dataSize` is set only where the read succeeds.
  unfoldable pub read_file_part : ℕ → ℕ → ℕ → Fs → W → ℤ × Fs × W
  unfolding f_lseek f_read fill
  read_file_part handle offset size fs w =
      let (sought, w1) = f_lseek fat handle offset fs w in
      let (res, got, w2) = f_read fat handle size fs w1 in
      let b = fill got fs.dev_buf in
      if is_neg sought
      then (neg 31, fs, w1)
      else if is_neg res
      then (neg 31, record fs { dev_buf = b }, w2)
      else (pos 0, record fs { dev_buf = record b { data_size = size } }, w2)

  unfoldable pub read_nand_part : ℕ → ℕ → Fs → W → ℤ × Fs × W
  unfolding fill
  read_nand_part offset size fs w =
      let (done, got, w1) = rawnand.read_sector (offset / 512) (size / 512) w in
      let b = fill got fs.dev_buf in
      if not (rawnand.is_active w)
      then (neg 31, fs, w)
      else if not done
      then (neg 31, record fs { dev_buf = b }, w1)
      else (pos 0, record fs { dev_buf = record b { data_size = size } }, w1)

  unfoldable pub f_read_to_device_buffer : ℕ → ℕ → ℕ → ℕ → Fs → W → ℤ × Fs × W
  unfolding check_handle is_valid_dev_buf_handle read_file_part read_nand_part
  f_read_to_device_buffer source offset size buf_handle fs w =
      elim (check_handle fs source offset size) [
        | none ↦ (neg 30, fs, w)
        | some from_file ↦
            if not (is_valid_dev_buf_handle fs buf_handle)
            then (neg 30, fs, w)
            else if ltb fs.dev_buf.mem_size size
            then (neg 30, fs, w)
            else if from_file
            then read_file_part source offset size fs w
            else read_nand_part offset size fs w
      ]
