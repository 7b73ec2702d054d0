-- ===== src/Fs/Tests/Tables.antt =====
-- The theorems on the tables, the device buffer and the images of fs.c at concrete inputs.
use fastboot3ds.Base.{
  ℕ, zero, suc, ◌*◌, ◌≤◌, ◌<◌, ◌≡◌, ◌≢◌, ◌⊎◌, refl, true, false, Bytes, [], ◌∷◌, ◌++◌, length,
  length-replicate, replicate, pos, neg, some, codes, AreBytes, arith, u32, bytes_eq, le32_at,
}
use fastboot3ds.Fs.World.{DevStruct, FatFs}
use fastboot3ds.Fs.State.{Fs, initial, fs_max_files}
use fastboot3ds.Fs.Files.{
  f_open, f_close, f_read, f_write, f_size, find_unused_file_slot, first_free, is_file_handle_valid,
}
use fastboot3ds.Fs.Files.Count.{IsFiles, Opened, is_open, f_open_lem, f_close_lem}
use fastboot3ds.Fs.Files.Order.{close_in_order}
use fastboot3ds.Fs.Drives.{
  device_nand, dev_handle_magic, is_ok, is_mounted, uses_raw_access, f_prepare_raw_access,
  f_finalize_raw_access, f_get_device_size, unmount_nand_drives, ensure_unmounted, f_unmount,
  f_is_drive_mounted, is_valid_dev_handle, get_device_from_handle, remount_loop, ensure_mounted,
  f_mount,
}
use fastboot3ds.Fs.Drives.RawAccess.{Granted, f_prepare_raw_access_lem}
use fastboot3ds.Fs.Drives.Remount.{f_finalize_raw_access_lem}
use fastboot3ds.Fs.DevBuf.{
  f_read_to_device_buffer, f_create_device_buffer, f_free_device_buffer, is_valid_dev_buf_handle,
  has_mem,
}
use fastboot3ds.Fs.DevBuf.Sizes.{
  IsBuffer, Filled, f_read_to_device_buffer_lem, f_create_device_buffer-stale,
}
use fastboot3ds.Fs.Image.{
  fs_deinit, f_verify_nand_image, fs_open_read, calc_nand_image_min_size, ncsd_media_size,
  check_image, largest_from,
}
use fastboot3ds.Fs.Image.Check.{
  Accepted, IsLargest, calc_nand_image_min_size_lem, f_verify_nand_image_lem,
}
use fastboot3ds.Fs.Image.Deinit.{fs_deinit_lem, fs_deinit-leak}
use fastboot3ds.Fs.Protection.{get_nand_prot_region}
use fastboot3ds.Fs.Protection.Lookup.{FirstMeet, get_nand_prot_region_lem}
use fastboot3ds.Fs.RawWrite.{chunk}
use fastboot3ds.Fs.RawWrite.Chunk.{ChunkFor, chunk-ChunkFor}
use fastboot3ds.Fs.Memory.{Disk, idle_fat}
use fastboot3ds.Fs.Tests.{two_sectors-Guarded, memory_nand, two_sectors}

abbrev blank : Disk
blank k = []

-- Two files are open, in slots 0 and 2.
abbrev two_files : Fs
two_files = record initial { files = true ∷ false ∷ true ∷ []; f_handles = 2 }

abbrev three_files : Fs
three_files = record initial { files = true ∷ true ∷ true ∷ []; f_handles = 3 }

f_open_lem_example :
    ((two_files.f_handles ≡ fs_max_files)
      × (f_open idle_fat (codes "sdmc:/a") 1 two_files blank ≡ (neg 30, two_files, blank)))
    ⊎ ((i : ℕ) × ((idle_fat.open_file i (codes "sdmc:/a") 1 blank).0 ≢ 0)
        × ((f_open idle_fat (codes "sdmc:/a") 1 two_files blank).0
            ≡ neg (idle_fat.open_file i (codes "sdmc:/a") 1 blank).0)
        × ((f_open idle_fat (codes "sdmc:/a") 1 two_files blank).1 ≡ two_files))
    ⊎ ((i : ℕ) × ((idle_fat.open_file i (codes "sdmc:/a") 1 blank).0 ≡ 0)
        × ((f_open idle_fat (codes "sdmc:/a") 1 two_files blank).0 ≡ pos i)
        × Opened two_files i (f_open idle_fat (codes "sdmc:/a") 1 two_files blank).1)
f_open_lem_example =
    f_open_lem idle_fat (codes "sdmc:/a") 1 two_files blank (record { size = refl; counted = refl })

-- The file is put in slot 1.
opened_slot : (f_open idle_fat (codes "sdmc:/a") 1 two_files blank).0 ≡ pos 1
unfolding f_open find_unused_file_slot first_free
opened_slot = refl

f_close_lem_example :
    IsFiles (f_close idle_fat 2 two_files blank).1
    × (is_open (f_close idle_fat 2 two_files blank).1 2 ≡ false)
    × ((j : ℕ) → 2 ≢ j → is_open (f_close idle_fat 2 two_files blank).1 j ≡ is_open two_files j)
f_close_lem_example =
    f_close_lem idle_fat 2 two_files blank (record { size = refl; counted = refl }) refl
      (omega arith)

close_in_order_example :
    let fs2 = (f_close idle_fat 1 (f_close idle_fat 0 three_files blank).1 blank).1 in
    (is_open fs2 2 ≡ true)
    × (f_close idle_fat 2 fs2 blank ≡ (neg 30, fs2, blank))
    × (f_read idle_fat 2 4 fs2 blank ≡ (neg 30, [], blank))
    × (f_write idle_fat 2 (1 ∷ 2 ∷ 3 ∷ 4 ∷ []) 4 fs2 blank ≡ (neg 30, blank))
close_in_order_example =
    close_in_order idle_fat three_files blank blank blank (1 ∷ 2 ∷ 3 ∷ 4 ∷ []) 4 refl refl

-- The SD card and the second drive are mounted.
abbrev two_drives : Fs
two_drives = record initial { mounted = true ∷ true ∷ false ∷ false ∷ [] }

granted_handle :
    (f_prepare_raw_access idle_fat device_nand two_drives blank).0 ≡ pos dev_handle_magic
unfolding f_prepare_raw_access unmount_nand_drives ensure_unmounted f_unmount f_is_drive_mounted
granted_handle = refl

f_prepare_raw_access_lem_example :
    (device_nand ≡ device_nand)
    × Granted two_drives (f_prepare_raw_access idle_fat device_nand two_drives blank).1
f_prepare_raw_access_lem_example =
    f_prepare_raw_access_lem idle_fat device_nand two_drives blank refl granted_handle

abbrev granted : Fs
granted = record initial {
  mounted = true ∷ false ∷ false ∷ false ∷ [];
  backup = true ∷ true ∷ false ∷ false ∷ [];
  raw = false ∷ true ∷ [];
}

granted-Granted : Granted two_drives granted
granted-Granted = record {
  twln = refl;
  twlp = refl;
  nand = refl;
  sdmc = refl;
  backup = refl;
  raw = refl;
  size = refl;
}

finalized_result : (f_finalize_raw_access idle_fat dev_handle_magic granted blank).0 ≡ pos 0
unfolding f_finalize_raw_access remount_loop ensure_mounted f_mount f_is_drive_mounted
    is_valid_dev_handle get_device_from_handle uses_raw_access
finalized_result = refl

f_finalize_raw_access_lem_example :
    ((d : ℕ)
      → d < 4
      → is_mounted (f_finalize_raw_access idle_fat dev_handle_magic granted blank).1 d
        ≡ is_mounted two_drives d)
    × (uses_raw_access (f_finalize_raw_access idle_fat dev_handle_magic granted blank).1 device_nand
        ≡ false)
f_finalize_raw_access_lem_example =
    f_finalize_raw_access_lem idle_fat two_drives granted blank refl refl granted-Granted
      finalized_result

idle_reads : (i n : ℕ) (w : Disk) → length (idle_fat.read i n w).1 ≤ n
idle_reads i n w = omega (arith, length-replicate {A = ℕ} n 0)

abbrev small_memory : Fs
small_memory = record two_files {
  dev_buf = record { mem = some (replicate 16 7); mem_size = 16; data_size = 0 };
}

small_memory-IsBuffer : IsBuffer small_memory.dev_buf
small_memory-IsBuffer = record { size = refl }

f_read_to_device_buffer_lem_example :
    Filled small_memory.dev_buf 8
      (is_ok (f_read_to_device_buffer idle_fat memory_nand 0 0 8 0 small_memory blank).0)
      (f_read_to_device_buffer idle_fat memory_nand 0 0 8 0 small_memory blank).1.dev_buf
f_read_to_device_buffer_lem_example =
    f_read_to_device_buffer_lem idle_fat memory_nand (λ s n w. omega arith) idle_reads 0 0 8 0
      small_memory blank small_memory-IsBuffer

fs_deinit_lem_example :
    is_mounted (fs_deinit idle_fat memory_nand memory_nand memory_nand two_drives blank).0 1 ≡ false
fs_deinit_lem_example =
    fs_deinit_lem idle_fat memory_nand memory_nand memory_nand two_drives blank 1 (omega arith)

fs_deinit-leak_example :
    ((fs_deinit idle_fat memory_nand memory_nand memory_nand three_files blank).0.files
      ≡ false ∷ false ∷ true ∷ [])
    × ((fs_deinit idle_fat memory_nand memory_nand memory_nand three_files blank).0.f_handles ≡ 1)
fs_deinit-leak_example =
    fs_deinit-leak idle_fat memory_nand memory_nand memory_nand three_files blank refl refl

two_sectors-has_mem : has_mem two_sectors.dev_buf ≡ true
unfolding has_mem
two_sectors-has_mem = refl

f_create_device_buffer-stale_example :
    ((f_free_device_buffer 0 two_sectors).0 ≡ pos 0)
    × ((f_create_device_buffer
          (some (replicate 512 0))
          512
          (f_free_device_buffer 0 two_sectors).1).0
        ≡ pos 0)
    × (is_valid_dev_buf_handle
          (f_create_device_buffer
            (some (replicate 512 0))
            512
            (f_free_device_buffer 0 two_sectors).1).1
          0
        ≡ true)
    × ((f_create_device_buffer
          (some (replicate 512 0))
          512
          (f_free_device_buffer 0 two_sectors).1).1.dev_buf.mem_size
        ≡ 512)
    × ((f_create_device_buffer
          (some (replicate 512 0))
          512
          (f_free_device_buffer 0 two_sectors).1).1.dev_buf.data_size
        ≡ 1024)
f_create_device_buffer-stale_example =
    f_create_device_buffer-stale (replicate 512 0) 512 two_sectors two_sectors-has_mem
      (λ e. omega arith) (omega arith)

abbrev partitions_part : Bytes
partitions_part = (1 ∷ replicate 3 0) ++ (2 ∷ replicate 0xDB 0)

abbrev media_part : Bytes
media_part = (3 ∷ replicate 0x1B 0) ++ partitions_part

-- A header whose first partition is two sectors from sector 1 on, of a medium of three sectors.
abbrev header : Bytes
header = replicate 0x104 0 ++ media_part

replicate-AreBytes : (n a : ℕ) → a < 256 → AreBytes (replicate n a)
replicate-AreBytes zero a lt i = omega arith
replicate-AreBytes (suc n) a lt zero = lt
replicate-AreBytes (suc n) a lt (suc i) = replicate-AreBytes n a lt i

cons-AreBytes : (a : ℕ) (b : Bytes) → a < 256 → AreBytes b → AreBytes (a ∷ b)
cons-AreBytes a b lt h zero = lt
cons-AreBytes a b lt h (suc i) = h i

append-AreBytes : (a b : Bytes) → AreBytes a → AreBytes b → AreBytes (a ++ b)
append-AreBytes [] b g h i = h i
append-AreBytes (x ∷ a) b g h zero = g 0
append-AreBytes (x ∷ a) b g h (suc i) = append-AreBytes a b (λ k. g (suc k)) h i

header-AreBytes : AreBytes header
header-AreBytes =
    append-AreBytes (replicate 0x104 0) media_part (replicate-AreBytes 0x104 0 (omega arith)) (
      append-AreBytes (3 ∷ replicate 0x1B 0) partitions_part
        (cons-AreBytes 3 (replicate 0x1B 0) (omega arith) (replicate-AreBytes 0x1B 0 (omega arith)))
        (append-AreBytes (1 ∷ replicate 3 0) (2 ∷ replicate 0xDB 0)
          (cons-AreBytes 1 (replicate 3 0) (omega arith) (replicate-AreBytes 3 0 (omega arith)))
          (cons-AreBytes 2 (replicate 0xDB 0) (omega arith)
            (replicate-AreBytes 0xDB 0 (omega arith)))))

-- A FatFs whose files hold the header, and a NAND that begins with it.
abbrev image_fat : FatFs Disk
image_fat = record idle_fat { read = λ i n w. (0, header, w); size = λ i w. 0x600 }

abbrev image_nand : DevStruct Disk
image_nand = record memory_nand { read_sector = λ s n w. (true, header, w) }

header_size : calc_nand_image_min_size header ≡ 0x600
unfolding calc_nand_image_min_size largest_from le32_at
header_size = refl

calc_nand_image_min_size_lem_example :
    (r : ℕ) × IsLargest header 8 0 0 r
    × (calc_nand_image_min_size header ≡ r * 512)
    × (r ≤ ncsd_media_size header)
calc_nand_image_min_size_lem_example =
    calc_nand_image_min_size_lem header header-AreBytes (λ e. omega (arith, header_size, e))

image_verified :
    (f_verify_nand_image image_fat memory_nand image_nand memory_nand
      (codes "sdmc:/n")
      initial
      blank).0
    ≡ pos 0
unfolding f_verify_nand_image f_open find_unused_file_slot first_free check_image f_size f_read
    is_file_handle_valid bytes_eq calc_nand_image_min_size largest_from le32_at f_get_device_size
image_verified = refl

f_verify_nand_image_lem_example :
    let (opened, fs1, w1) = f_open image_fat (codes "sdmc:/n") fs_open_read initial blank in
    (handle : ℕ) × (opened ≡ pos handle)
    × ((f_read image_fat handle 0x200 fs1 w1).0 ≡ pos 0)
    × ((image_nand.read_sector 0 1 (f_read image_fat handle 0x200 fs1 w1).2).0 ≡ true)
    × Accepted
        (f_read image_fat handle 0x200 fs1 w1).1
        (image_nand.read_sector 0 1 (f_read image_fat handle 0x200 fs1 w1).2).1
        (f_size image_fat handle fs1 w1)
        (u32 (f_get_device_size memory_nand image_nand device_nand blank * 512))
f_verify_nand_image_lem_example =
    f_verify_nand_image_lem image_fat memory_nand image_nand memory_nand (λ i n w. header-AreBytes)
      (codes "sdmc:/n") initial blank image_verified

-- The range from sector 0x95 to sector 0x97 meets the region that holds sector 0x96.
get_nand_prot_region_lem_example :
    FirstMeet two_sectors.regions 0x95 0x97 two_sectors.num_regions 0
      (get_nand_prot_region two_sectors 0x95 2)
get_nand_prot_region_lem_example =
    get_nand_prot_region_lem two_sectors 0x95 2 two_sectors-Guarded.fit (omega arith) (omega arith)

chunk-ChunkFor_example : ChunkFor two_sectors 0x95 2 (chunk two_sectors 0x95 2)
chunk-ChunkFor_example =
    chunk-ChunkFor two_sectors 0x95 2 two_sectors-Guarded.fit two_sectors-Guarded.sorted
      (omega arith) (omega arith)
