-- ===== src/Firm/Accepted.antt =====
-- What `loadVerifyFirm` as a whole accepts.
use fastboot3ds.Base.{
  ℕ, ◌+◌, ◌/◌, ◌%◌, ◌≤◌, ◌≡◌, ◌⊎◌, inl, inr, refl, Bool, true, false, not, ◌&&◌, none, some, Bytes,
  put_at, take, get_or, ltb, ◌==◌, if◌then◌else◌, bytes_eq, codes, sub32, ℤ, pos, is_neg,
  Bool-cases, Option-cases, arith,
}
use fastboot3ds.Partitions.{Table, partition_get_index, partition_get_sector_offset}
use fastboot3ds.Fs.World.{FatFs, DevStruct}
use fastboot3ds.Fs.State.{Fs}
use fastboot3ds.Fs.Files.{f_open, f_size, f_read}
use fastboot3ds.Firm.{firm_max_size, firm_size, verify_firm, boot_whitelist, install_whitelist}
use fastboot3ds.Firm.Size.{firm_size_lem}
use fastboot3ds.Firm.Verify.{FirmFits, verify_firm_lem}
use fastboot3ds.Firm.Load.{
  Firm, Loaded, load_partition, load_ram, load_file, load_image, set_arguments, load_verify_firm,
}

module _ {W : Type 0} (fat : FatFs W) (decnand : DevStruct W) (t : Table) where
  -- An image that is loaded has at most `FIRM_MAX_SIZE` bytes; otherwise the result is an error.
  data Outcome : Loaded fat decnand t → Type 0 where
    refused :
        (e : ℤ) (firm : Firm) (fs : Fs) (w : W) → is_neg e ≡ true → Outcome (none, e, firm, fs, w)
    loads :
        (size : ℕ) (e : ℤ) (firm : Firm) (fs : Fs) (w : W)
        → size ≤ firm_max_size
        → Outcome (some size, e, firm, fs, w)

  measured : (image : Bytes) (size : ℕ) → firm_size image ≡ some size → size ≤ firm_max_size
  measured image size e = (firm_size_lem image size e).1

  load_ram-Outcome : (firm : Firm) (fs : Fs) (w : W) → Outcome (load_ram fat decnand t firm fs w)
  unfolding load_ram
  load_ram-Outcome firm fs w = elim (Option-cases (firm_size firm.ram)) [
    | inl e ↦ elim (Bool-cases (bytes_eq (take 4 firm.ram) (codes "FIRM"))) [
      | inl magic ↦ rw (load_ram, e) (rw magic (refused _ _ _ _ refl))
      | inr other ↦ rw (load_ram, e) (rw other (refused _ _ _ _ refl))
    ]
    | inr (size, e) ↦ elim (Bool-cases (bytes_eq (take 4 firm.ram) (codes "FIRM"))) [
      | inl magic ↦ rw (load_ram, e) (rw magic (loads size _ _ _ _ (measured firm.ram size e)))
      | inr other ↦ rw (load_ram, e) (rw other (refused _ _ _ _ refl))
    ]
  ]

  partition_found :
      (path : Bytes) (firm : Firm) (fs : Fs) (w : W) (index sector : ℕ)
      → partition_get_index t path ≡ some index
      → partition_get_sector_offset t index ≡ some sector
      → Outcome (load_partition fat decnand t path firm fs w)
  unfolding load_partition
  partition_found path firm fs w index sector e place =
      let got1 = (decnand.read_sector sector 1 w).1 in
      let w1 = (decnand.read_sector sector 1 w).2 in
      let image = put_at 0 got1 firm.buf in
      elim (Bool-cases (decnand.is_active w)) [
        | inr off ↦ elim (Option-cases (firm_size image)) [
          | inl unknown ↦ rw (load_partition, e, place, unknown) (rw off (refused _ _ _ _ refl))
          | inr (size, known) ↦ rw (load_partition, e, place, known) (rw off (refused _ _ _ _ refl))
        ]
        | inl on ↦ elim (Bool-cases ((decnand.read_sector sector 1 w).0)) [
          | inr bad ↦ elim (Option-cases (firm_size image)) [
            | inl unknown ↦
                rw (load_partition, e, place, unknown) (rw (on, bad) (refused _ _ _ _ refl))
            | inr (size, known) ↦
                rw (load_partition, e, place, known) (rw (on, bad) (refused _ _ _ _ refl))
          ]
          | inl good ↦ elim (Option-cases (firm_size image)) [
            | inl unknown ↦
                rw (load_partition, e, place, unknown) (rw (on, good) (refused _ _ _ _ refl))
            | inr (size, known) ↦
                elim (Bool-cases ((decnand.read_sector (sector + 1) (sub32 (size / 512) 1) w1).0)) [
                  | inr bad ↦
                      rw (load_partition, e, place, known)
                        (rw (on, good, bad) (refused _ _ _ _ refl))
                  | inl fine ↦
                      rw (load_partition, e, place, known)
                        (rw (on, good, fine) (loads size _ _ _ _ (measured image size known)))
                ]
          ]
        ]
      ]

  load_partition-Outcome :
      (path : Bytes) (firm : Firm) (fs : Fs) (w : W)
      → Outcome (load_partition fat decnand t path firm fs w)
  unfolding load_partition
  load_partition-Outcome path firm fs w = elim (Option-cases (partition_get_index t path)) [
    | inl e ↦ elim (Bool-cases (decnand.is_active w)) [
      | inl on ↦ rw (load_partition, e) (rw on (refused _ _ _ _ refl))
      | inr off ↦ rw (load_partition, e) (rw off (refused _ _ _ _ refl))
    ]
    | inr (index, e) ↦ elim (Option-cases (partition_get_sector_offset t index)) [
      | inl nowhere ↦ elim (Bool-cases (decnand.is_active w)) [
        | inl on ↦ rw (load_partition, e, nowhere) (rw on (refused _ _ _ _ refl))
        | inr off ↦ rw (load_partition, e, nowhere) (rw off (refused _ _ _ _ refl))
      ]
      | inr (sector, place) ↦ partition_found path firm fs w index sector e place
    ]
  ]

  opened_cases : (r : ℤ) → ((n : ℕ) × (r ≡ ℤ.negsuc n)) ⊎ ((n : ℕ) × (r ≡ pos n))
  opened_cases (ℤ.pos n) = inr (n, refl)
  opened_cases (ℤ.negsuc n) = inl (n, refl)

  small_file : (size : ℕ) → ltb firm_max_size size ≡ false → size ≤ firm_max_size
  small_file size e = ground (arith, e)

  load_file-Outcome :
      (path : Bytes) (firm : Firm) (fs : Fs) (w : W)
      → Outcome (load_file fat decnand t path firm fs w)
  unfolding load_file
  load_file-Outcome path firm fs w = elim (opened_cases (f_open fat path 1 fs w).0) [
    | inl (n, e) ↦ rw (load_file, e) (refused _ _ _ _ refl)
    | inr (f, e) ↦
        let fs1 = (f_open fat path 1 fs w).1 in
        let w1 = (f_open fat path 1 fs w).2 in
        let size = f_size fat f fs1 w1 in
        elim (Bool-cases (ltb firm_max_size size)) [
          | inl large ↦ rw (load_file, e) (rw large (refused _ _ _ _ refl))
          | inr small ↦ elim (Bool-cases (is_neg (f_read fat f size fs1 w1).0)) [
            | inl bad ↦ rw (load_file, e) (rw (small, bad) (refused _ _ _ _ refl))
            | inr fine ↦
                rw (load_file, e) (rw (small, fine) (loads size _ _ _ _ (small_file size small)))
          ]
        ]
  ]

  load_image-Outcome :
      (path : Bytes) (firm : Firm) (fs : Fs) (w : W)
      → Outcome (load_image fat decnand t path firm fs w)
  unfolding load_image
  load_image-Outcome path firm fs w = elim (Bool-cases (bytes_eq (take 4 path) (codes "firm"))) [
    | inl part ↦ rw part (load_partition-Outcome path firm fs w)
    | inr other ↦ elim (Bool-cases (bytes_eq (take 3 path) (codes "ram"))) [
      | inl ram ↦ rw (other, ram) (load_ram-Outcome firm fs w)
      | inr file ↦ rw (other, file) (load_file-Outcome path firm fs w)
    ]
  ]

  set_arguments_buf :
      (path : Bytes) (install_mode : Bool) (firm : Firm)
      → (set_arguments fat decnand t path install_mode firm).1.buf ≡ firm.buf
  unfolding set_arguments
  set_arguments_buf path install_mode firm =
      elim (Bool-cases (not install_mode && get_or firm.buf 0x10 0 % 2 == 1)) [
        | inl b ↦ rw b refl
        | inr b ↦ rw b refl
      ]

  module _ (sha : Bytes → Bytes) (path : Bytes) (skip_hash_check install_mode : Bool) where
    -- What follows the load.
    finish : Loaded fat decnand t → ℤ × Firm × Fs × W
    finish (loaded, err, firm1, fs1, w1) = elim loaded [
      | none ↦ (err, firm1, fs1, w1)
      | some size ↦
          let checked =
            verify_firm sha skip_hash_check
              (if install_mode then install_whitelist else boot_whitelist) firm1.buf size in
          let (res, firm2) = set_arguments fat decnand t path install_mode firm1 in
          if is_neg checked then (checked, firm1, fs1, w1) else (res, firm2, fs1, w1)
    ]

    abbrev pub Accepted : Bytes → Type 0
    Accepted buf =
        (size : ℕ) × (size ≤ firm_max_size)
        × FirmFits sha skip_hash_check (if install_mode then install_whitelist else boot_whitelist)
            buf size

    Outcome-Accepted :
        (l : Loaded fat decnand t)
        → Outcome l
        → is_neg (finish l).0 ≡ false
        → Accepted (finish l).1.buf
    unfolding finish
    Outcome-Accepted l (refused e firm fs w bad) ok = cc
    Outcome-Accepted l (loads size e firm fs w small) ok =
        elim (Bool-cases (
          is_neg (
            verify_firm sha skip_hash_check
              (if install_mode then install_whitelist else boot_whitelist) firm.buf size))) [
                | inl bad ↦ cc
                | inr good ↦
                    rw (good, set_arguments_buf path install_mode firm)
                      (
                        size,
                        small,
                        verify_firm_lem sha skip_hash_check
                            (if install_mode then install_whitelist else boot_whitelist) firm.buf
                            size small good,
                      )
              ]

    load_verify_firm_eq :
        (firm : Firm) (fs : Fs) (w : W)
        → load_verify_firm fat decnand t sha path skip_hash_check install_mode firm fs w
          ≡ finish (load_image fat decnand t path firm fs w)
    unfolding load_verify_firm finish
    load_verify_firm_eq firm fs w = refl

    -- `loadVerifyFirm` as a whole: where it returns no error, from a partition, from memory or from a
    -- file, the image that is left at `FIRM_LOAD_ADDR` has passed all the checks, for the ranges of
    -- the mode, with a size of at most `FIRM_MAX_SIZE`.
    pub load_verify_firm_lem :
        (firm : Firm) (fs : Fs) (w : W)
        → is_neg (load_verify_firm fat decnand t sha path skip_hash_check install_mode firm fs w).0
          ≡ false
        → Accepted
            (load_verify_firm fat decnand t sha path skip_hash_check install_mode firm fs w).1.buf
    load_verify_firm_lem firm fs w = rw (load_verify_firm_eq firm fs w) (
        Outcome-Accepted (load_image fat decnand t path firm fs w)
          (load_image-Outcome path firm fs w))
