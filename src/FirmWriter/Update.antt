-- ===== src/FirmWriter/Update.antt =====
-- `loadVerifyUpdate`: the updates that it accepts.
use fastboot3ds.Base.{
  ℕ, ◌≤◌, ◌≡◌, inl, inr, refl, Bool, true, false, not, ◌&&◌, Option, some, Bytes, put_at, take,
  drop, ltb, if◌then◌else◌, bytes_eq, codes, add32, le32_at, ℤ, pos, is_neg, Bool-cases,
  Option-cases, arith,
}
use fastboot3ds.Partitions.{Table, partition_get_index, partition_get_sector_offset}
use fastboot3ds.Fs.World.{FatFs, DevStruct}
use fastboot3ds.Fs.State.{Fs}
use fastboot3ds.Firm.Load.{Firm, load_verify_firm}
use fastboot3ds.Firm.Accepted.{Accepted, load_verify_firm_lem}
use fastboot3ds.FirmWriter.{
  fastboot_magic, verify_signature, update_err_not_installed, update_err_downgrade,
  load_verify_update,
}
use fastboot3ds.FirmWriter.Rsa.{IsSigned, rsa_verify2048-IsSigned}
use fastboot3ds.FirmWriter.Keys.{fastboot3ds_pubkey}

module _ {W : Type 0} (decnand : DevStruct W) (t : Table) (fat : FatFs W) (sha : Bytes → Bytes)
    (release : Bool) (set_key : ℕ → Bytes → ℕ → Option (Bytes → Option Bytes)) (current : ℕ)
    (fresh path : Bytes) (firm : Firm) (fs : Fs) (w : W) where
  -- The image is a firmware that may be installed, is signed in a release, is a fastboot3DS of this
  -- version or a later one, and one is installed in firm0.
  pub record IsUpdate (buf : Bytes) (w1 : W) : Type 0 where
    pub active : decnand.is_active w ≡ true
    pub accepted : Accepted fat decnand t sha path false true buf
    pub signed :
        release ≡ true
        → (decrypt : Bytes → Option Bytes) × (set_key 3 fastboot3ds_pubkey 0x01000100
            ≡ some decrypt)
          × IsSigned decrypt sha (take 0x100 (drop 0x100 buf)) (take 0x100 buf)
    pub magic : bytes_eq (take 16 (drop 0x200 buf)) fastboot_magic ≡ true
    pub later : current ≤ le32_at buf 0x210
    pub index : ℕ
    pub sector : ℕ
    pub found : partition_get_index t (codes "firm0") ≡ some index
    pub place : partition_get_sector_offset t index ≡ some sector
    pub read : (decnand.read_sector (add32 sector 1) 1 w1).0 ≡ true
    pub installed :
        bytes_eq
          (take 16 (put_at 0 (decnand.read_sector (add32 sector 1) 1 w1).1 fresh))
          fastboot_magic
        ≡ true

  abbrev loaded : ℤ × Firm × Fs × W
  loaded = load_verify_firm fat decnand t sha path false true firm fs w

  abbrev memory : Bytes
  memory = (load_verify_firm fat decnand t sha path false true firm fs w).1.buf

  abbrev after : W
  after = (load_verify_firm fat decnand t sha path false true firm fs w).3

  -- The exits.
  data Exit : ℤ × Option ℕ × Firm × Fs × W → Type 0 where
    stops : (n : ℕ) (v : Option ℕ) (f : Firm) (s : Fs) (u : W) → Exit (ℤ.negsuc n, v, f, s, u)
    accepts :
        (s : Fs) (u : W)
        → IsUpdate memory after
        → Exit (pos 0, some (le32_at memory 0x210), loaded.1, s, u)

  version_later : (vers : ℕ) → ltb vers current ≡ false → current ≤ vers
  version_later vers e = ground (arith, e)

  signature_lem :
      (buf : Bytes)
      → verify_signature set_key sha buf ≡ true
      → (decrypt : Bytes → Option Bytes) × (set_key 3 fastboot3ds_pubkey 0x01000100 ≡ some decrypt)
        × IsSigned decrypt sha (take 0x100 (drop 0x100 buf)) (take 0x100 buf)
  unfolding verify_signature
  signature_lem buf ok = elim (Option-cases (set_key 3 fastboot3ds_pubkey 0x01000100)) [
    | inl e ↦ cc (rw (verify_signature, e) at ok)
    | inr (decrypt, e) ↦ (
      decrypt,
      e,
      rsa_verify2048-IsSigned decrypt sha (take 0x100 (drop 0x100 buf)) (take 0x100 buf)
          (rw (verify_signature, e) at ok),
    )
  ]

  signed_if_release : (b : Bool) → (release && not b) ≡ false → release ≡ true → b ≡ true
  signed_if_release true e r = refl
  signed_if_release false e r = cc (rw r at e)

  -- What is checked when the sector of firm0 is known.
  last_checks :
      (alloc : Bool) (index sector : ℕ)
      → ((decnand.read_sector (add32 sector 1) 1 after).0 ≡ true
          → bytes_eq
              (take 16 (put_at 0 (decnand.read_sector (add32 sector 1) 1 after).1 fresh))
              fastboot_magic
            ≡ true
          → current ≤ le32_at memory 0x210
          → IsUpdate memory after)
      → Exit (
          if not alloc
          then (ℤ.negsuc 6, some (le32_at memory 0x210), loaded.1, loaded.2, after)
          else if not (decnand.read_sector (add32 sector 1) 1 after).0
          then (
            ℤ.negsuc 7,
            some (le32_at memory 0x210),
            loaded.1,
            loaded.2,
            (decnand.read_sector (add32 sector 1) 1 after).2,
          )
          else if not (
              bytes_eq
                (take 16 (put_at 0 (decnand.read_sector (add32 sector 1) 1 after).1 fresh))
                fastboot_magic)
          then (
            update_err_not_installed,
            some (le32_at memory 0x210),
            loaded.1,
            loaded.2,
            (decnand.read_sector (add32 sector 1) 1 after).2,
          )
          else if ltb (le32_at memory 0x210) current
          then (
            update_err_downgrade,
            some (le32_at memory 0x210),
            loaded.1,
            loaded.2,
            (decnand.read_sector (add32 sector 1) 1 after).2,
          )
          else (
            pos 0,
            some (le32_at memory 0x210),
            loaded.1,
            loaded.2,
            (decnand.read_sector (add32 sector 1) 1 after).2,
          ))
  last_checks alloc index sector good = elim (Bool-cases alloc) [
    | inr none_left ↦ rw none_left (stops _ _ _ _ _)
    | inl there ↦ elim (Bool-cases (decnand.read_sector (add32 sector 1) 1 after).0) [
      | inr bad ↦ rw (there, bad) (stops _ _ _ _ _)
      | inl read ↦
          elim (Bool-cases (
            bytes_eq (take 16 (put_at 0 (decnand.read_sector (add32 sector 1) 1 after).1 fresh))
              fastboot_magic)) [
                | inr other ↦ rw (there, read, other) (stops _ _ _ _ _)
                | inl here ↦ elim (Bool-cases (ltb (le32_at memory 0x210) current)) [
                  | inl older ↦ rw (there, read, here, older) (stops _ _ _ _ _)
                  | inr later ↦
                      rw (there, read, here, later)
                        (accepts _ _ (good read here (version_later (le32_at memory 0x210) later)))
                ]
              ]
    ]
  ]

  load_verify_update-Exit :
      (alloc : Bool)
      → Exit
          (load_verify_update decnand t fat sha release set_key current alloc fresh path firm fs w)
  unfolding load_verify_update
  load_verify_update-Exit alloc =
      let signed = verify_signature set_key sha memory in
      elim (Bool-cases (decnand.is_active w)) [
        | inr off ↦ rw off (stops _ _ _ _ _)
        | inl on ↦ elim (Bool-cases (is_neg loaded.0)) [
          | inl bad ↦ rw (on, bad) (stops _ _ _ _ _)
          | inr good ↦ elim (Bool-cases (release && not signed)) [
            | inl unsigned ↦ rw (on, good, unsigned) (stops _ _ _ _ _)
            | inr s ↦ elim (Bool-cases (bytes_eq (take 16 (drop 0x200 memory)) fastboot_magic)) [
              | inr other ↦ rw (on, good, s, other) (stops _ _ _ _ _)
              | inl magic ↦ elim (Option-cases (partition_get_index t (codes "firm0"))) [
                | inl e ↦ rw (on, good, s, magic, e) (stops _ _ _ _ _)
                | inr (index, e) ↦ elim (Option-cases (partition_get_sector_offset t index)) [
                  | inl p ↦ rw (on, good, s, magic, e) (rw p (stops _ _ _ _ _))
                  | inr (sector, p) ↦
                      rw (on, good, s, magic, e)
                        (rw p (
                          last_checks alloc index sector (λ read here later. record {
                            active = on;
                            accepted =
                                load_verify_firm_lem fat decnand t sha path false true firm fs w
                                  good;
                            signed = λ r. signature_lem memory (signed_if_release signed s r);
                            magic = magic;
                            later = later;
                            index = index;
                            sector = sector;
                            found = e;
                            place = p;
                            read = read;
                            installed = here;
                          })))
                ]
              ]
            ]
          ]
        ]
      ]

  Exit-IsUpdate :
      (r : ℤ × Option ℕ × Firm × Fs × W)
      → Exit r
      → r.0 ≡ pos 0
      → IsUpdate r.2.buf after × (r.1 ≡ some (le32_at r.2.buf 0x210))
  Exit-IsUpdate r (stops n v f s u) ok = cc
  Exit-IsUpdate r (accepts s u good) ok = (good, refl)

  -- Where `loadVerifyUpdate` returns 0, the image that is left in memory is a firmware that passed
  -- the checks for one that is installed, in a release build its signature decrypts to the right
  -- padding and the hash of its header, it has the magic of a fastboot3DS and a version that is
  -- not below the running one, and the sector behind the header in firm0 could be read, after the
  -- image was loaded, and begins with the magic too. The version that it gives is the image's.
  pub load_verify_update_lem :
      (alloc : Bool)
      → (load_verify_update decnand t fat sha release set_key current alloc fresh path firm fs w).0
        ≡ pos 0
      → IsUpdate
          (load_verify_update decnand t fat sha release set_key current alloc fresh path firm fs
            w).2.buf
          (load_verify_firm fat decnand t sha path false true firm fs w).3
        × ((load_verify_update decnand t fat sha release set_key current alloc fresh path firm fs
              w).1
            ≡ some (
                le32_at
                  (load_verify_update decnand t fat sha release set_key current alloc fresh path
                    firm fs w).2.buf
                  0x210))
  load_verify_update_lem alloc ok =
      Exit-IsUpdate
        (load_verify_update decnand t fat sha release set_key current alloc fresh path firm fs w)
        (load_verify_update-Exit alloc) ok
