-- ===== src/Firm/Tests.antt =====
-- A firmware image of one section, and the theorems on firm.c at it.
use fastboot3ds.Base.{
  ℕ, ◌+◌, ◌<◌, ◌≤◌, ◌≡◌, ◌≢◌, refl, true, false, Bytes, [], ◌∷◌, ◌++◌, replicate, codes, le32_at,
  bytes_eq, is_neg, some, arith,
}
use fastboot3ds.Firm.{
  firm_size, size_from, verify_firm, verify_sections, allowed_in, boot_whitelist, sec_size,
  sec_offset, sec_address, header_size, firm_max_size,
}
use fastboot3ds.Firm.Size.{Covered, firm_size_lem}
use fastboot3ds.Firm.Verify.{InUse, verify_firm-InUse}

-- The entry point is 1, and the section of 16 bytes goes to the start of FCRAM.
abbrev image : Bytes
image =
    codes "FIRM"
    ++ replicate 8 0
    ++ (1 ∷ replicate 0x34 0)
    ++ (2 ∷ replicate 5 0)
    ++ (0x20 ∷ 0x10 ∷ replicate 0x1C7 0)

image_size : firm_size image ≡ some 0x210
unfolding firm_size size_from le32_at
image_size = refl

firm_size_lem_example :
    (header_size ≤ 0x210)
    × (0x210 ≤ firm_max_size)
    × ((i : ℕ) → i < 4 → sec_size image i ≢ 0 → sec_offset image i ≢ 0 → Covered image 4 i 0x210)
firm_size_lem_example = firm_size_lem image 0x210 image_size

image_accepted : is_neg (verify_firm (λ b. []) true boot_whitelist image 0x210) ≡ false
unfolding verify_firm verify_sections allowed_in le32_at bytes_eq
image_accepted = refl

address_low : sec_address image 0 ≤ 0x20000004
unfolding le32_at
address_low = omega arith

address_high : 0x20000004 < sec_address image 0 + sec_size image 0
unfolding le32_at
address_high = omega arith

verify_firm-InUse_example : ¬ InUse 0x20000004
verify_firm-InUse_example =
    verify_firm-InUse (λ b. []) true image 0x210 0 0x20000004 (omega arith) image_accepted
      (omega arith) address_low address_high
