-- ===== src/Firm/Verify.antt =====
-- What `loadVerifyFirm` accepts: every section lies in the image and goes to memory that may be
-- written.
use mathlib.Core.Path.{subst}
use native.Mathlib.Decide.{ℕ_discrete}
use fastboot3ds.Base.{
  ℕ, zero, suc, ◌+◌, ◌≤◌, ◌<◌, ◌≡◌, ◌≢◌, ◌⊎◌, ap, ◌∙◌, Bool, true, false, not, ◌&&◌, ◌||◌, some,
  List, [], ◌∷◌, Bytes, take, drop, arith, inl, inr, Bool-cases, Option-cases, ◌==◌, ltb, leb,
  u32_mod, add32, not32, bytes_eq, bytes_eq→eq, codes, is_neg,
}
use fastboot3ds.Firm.{
  firm_max_size, header_size, entry_arm9, sec_offset, sec_address, sec_size, sec_hash, Range,
  boot_whitelist, allowed_in, verify_sections, verify_firm,
}

-- Some range of the whitelist holds the `size` bytes from `address` on.
pub Allowed : ℕ → ℕ → List Range → Type 0
Allowed address size [] = ⊥
Allowed address size (r ∷ rs) =
    ((r.addr ≤ address) × (address + size ≤ add32 r.addr r.size)) ⊎ Allowed address size rs

allowed_in-Allowed :
    (address size : ℕ) (rs : List Range)
    → size < u32_mod
    → allowed_in address size rs ≡ some true
    → Allowed address size rs
unfolding allowed_in Allowed
allowed_in-Allowed address size [] lt e = cc
allowed_in-Allowed address size (r ∷ rs) lt e = elim (Bool-cases (ltb (not32 size) address)) [
  | inl wraps ↦ cc (rw wraps at e)
  | inr exact ↦
      elim (Bool-cases (leb r.addr address && leb (add32 address size) (add32 r.addr r.size))) [
        | inl inside ↦ inl (in_range (add32 r.addr r.size) exact inside)
        | inr outside ↦ inr (allowed_in-Allowed address size rs lt (rw (exact, outside) at e))
      ]
]
  where
    in_range :
        (top : ℕ)
        → ltb (not32 size) address ≡ false
        → (leb r.addr address && leb (add32 address size) top) ≡ true
        → (r.addr ≤ address) × (address + size ≤ top)
    in_range top exact inside = (ground (arith, exact, inside), ground (arith, exact, inside))

-- A section of an image of `size` bytes that was accepted.
pub record SectionFits (sha : Bytes → Bytes) (skip_hash_check : Bool) (whitelist : List Range)
    (buf : Bytes) (size i : ℕ) : Type 0 where
  pub behind_header : header_size ≤ sec_offset buf i
  pub in_image : sec_offset buf i + sec_size buf i ≤ size
  pub allowed : Allowed (sec_address buf i) (sec_size buf i) whitelist
  pub hash :
      skip_hash_check ≡ false
      → sec_hash buf i ≡ sha (take (sec_size buf i) (drop (sec_offset buf i) buf))

offset_in_range :
    (n offset : ℕ)
    → (leb n offset || ltb offset header_size) ≡ false
    → (header_size ≤ offset) × (offset < n)
offset_in_range n offset e = (ground (arith, e), ground (arith, e))

size_in_range :
    (n size offset : ℕ)
    → n ≤ firm_max_size
    → offset < n
    → (leb n size || ltb n (add32 size offset)) ≡ false
    → (size < u32_mod) × (offset + size ≤ n)
size_in_range n size offset small lt e = (ground (arith, e), ground (arith, e))

hash_checked : (skip same : Bool) → (not skip && not same) ≡ false → skip ≡ false → same ≡ true
hash_checked skip same e s = ground (arith, e, s)

module _ (sha : Bytes → Bytes) (skip_hash_check : Bool) (whitelist : List Range) (buf : Bytes)
    (size : ℕ) (small : size ≤ firm_max_size) where
  section :
      (i : ℕ)
      → (leb size (sec_offset buf i) || ltb (sec_offset buf i) header_size) ≡ false
      → (leb size (sec_size buf i) || ltb size (add32 (sec_size buf i) (sec_offset buf i))) ≡ false
      → allowed_in (sec_address buf i) (sec_size buf i) whitelist ≡ some true
      → (not skip_hash_check
          && not (
              bytes_eq
                (sec_hash buf i)
                (sha (take (sec_size buf i) (drop (sec_offset buf i) buf)))))
        ≡ false
      → SectionFits sha skip_hash_check whitelist buf size i
  section i offset fits found same =
      let (behind, before) = offset_in_range size (sec_offset buf i) offset in
      let (word, inside) =
        size_in_range size (sec_size buf i) (sec_offset buf i) small before fits in
      record {
        behind_header = behind;
        in_image = inside;
        allowed = allowed_in-Allowed (sec_address buf i) (sec_size buf i) whitelist word found;
        hash = λ checked.
            bytes_eq→eq (sec_hash buf i) (sha (take (sec_size buf i) (drop (sec_offset buf i) buf)))
              (hash_checked skip_hash_check _ same checked);
      }

  verify_sections_lem :
      (left i : ℕ)
      → is_neg (verify_sections sha skip_hash_check whitelist buf size left i) ≡ false
      → (j : ℕ) → i ≤ j
      → j < i + left
      → sec_size buf j ≢ 0
      → SectionFits sha skip_hash_check whitelist buf size j
  unfolding verify_sections
  verify_sections_lem zero i e j lo hi full = absurd (omega arith)
  verify_sections_lem (suc left) i e j lo hi full = elim (Bool-cases (sec_size buf i == 0)) [
    | inl empty ↦ elim (ℕ_discrete i j) [
      | yes same ↦ absurd (full (rw (← same) (ground (arith, empty))))
      | no ne ↦ verify_sections_lem left (i + 1) (rw empty at e) j (omega arith) (omega arith) full
    ]
    | inr used ↦
        elim (Bool-cases (leb size (sec_offset buf i) || ltb (sec_offset buf i) header_size)) [
          | inl bad ↦ cc (rw (used, bad) at e)
          | inr offset ↦
              elim (Bool-cases (
                leb size (sec_size buf i)
                || ltb size (add32 (sec_size buf i) (sec_offset buf i)))) [
                  | inl bad ↦ cc (rw (used, offset, bad) at e)
                  | inr fits ↦
                      elim (Option-cases
                        (allowed_in (sec_address buf i) (sec_size buf i) whitelist)) [
                          | inl wraps ↦ cc (rw (used, offset, fits, wraps) at e)
                          | inr (allowed, found) ↦ elim (Bool-cases allowed) [
                            | inr refused ↦ cc (rw (used, offset, fits, found, refused) at e)
                            | inl listed ↦
                                elim (Bool-cases (
                                  not skip_hash_check
                                  && not (
                                      bytes_eq (sec_hash buf i) (
                                        sha (
                                          take (sec_size buf i) (drop (sec_offset buf i) buf)))))) [
                                            | inl bad ↦
                                                cc
                                                  (rw (used, offset, fits, found, listed, bad) at e)
                                            | inr same ↦ elim (ℕ_discrete i j) [
                                              | yes here ↦
                                                  subst
                                                    (SectionFits sha skip_hash_check whitelist buf
                                                      size)
                                                    here
                                                    (section i offset fits (found ∙ ap some listed)
                                                      same)
                                              | no ne ↦
                                                  verify_sections_lem left (i + 1)
                                                    (rw (used, offset, fits, found, listed, same) at
                                                      e)
                                                    j (omega arith) (omega arith) full
                                            ]
                                          ]
                          ]
                        ]
                ]
        ]
  ]

-- An image of `size` bytes that was accepted.
pub record FirmFits (sha : Bytes → Bytes) (skip_hash_check : Bool) (whitelist : List Range)
    (buf : Bytes) (size : ℕ) : Type 0 where
  pub larger : header_size < size
  pub magic : take 4 buf ≡ codes "FIRM"
  pub has_entry : entry_arm9 buf ≢ 0
  pub sections :
      (i : ℕ) → i < 4 → sec_size buf i ≢ 0 → SectionFits sha skip_hash_check whitelist buf size i

-- `verify_firm`, the checks of `loadVerifyFirm` on a loaded image of at most `FIRM_MAX_SIZE` bytes,
-- returns no error only if the image is longer than its header, has the magic and an entry point
-- of the ARM9, and each section that is not empty lies behind the header and in the image, goes to
-- a range of the whitelist without wrapping, and has the stated hash unless that is skipped.
pub verify_firm_lem :
    (sha : Bytes → Bytes) (skip_hash_check : Bool) (whitelist : List Range) (buf : Bytes) (size : ℕ)
    → size ≤ firm_max_size
    → is_neg (verify_firm sha skip_hash_check whitelist buf size) ≡ false
    → FirmFits sha skip_hash_check whitelist buf size
unfolding verify_firm
verify_firm_lem sha skip whitelist buf size small e = elim (Bool-cases (leb size header_size)) [
  | inl short ↦ cc (rw short at e)
  | inr long ↦ elim (Bool-cases (bytes_eq (take 4 buf) (codes "FIRM"))) [
    | inr other ↦ cc (rw (long, other) at e)
    | inl magic ↦ elim (Bool-cases (entry_arm9 buf == 0)) [
      | inl missing ↦ cc (rw (long, magic, missing) at e)
      | inr there ↦ record {
        larger = ground (arith, long);
        magic = bytes_eq→eq (take 4 buf) (codes "FIRM") magic;
        has_entry = ground (arith, there);
        sections = λ i lt full.
            verify_sections_lem sha skip whitelist buf size small 4 0 (rw (long, magic, there) at e)
              i (omega arith) (omega arith) full;
      }
    ]
  ]
]

-- Memory that is in use while the sections are copied, or by what is started: the image itself
-- (`FIRM_LOAD_ADDR`), the ITCM but for the 0x3800 bytes that hold unused data, with the
-- console's id that `setupKeys` reads, the stack of the exceptions, the arguments and the stub of
-- the ARM9 in it, the exception vectors of the ARM9
-- (`A9_VECTORS_START`), and of the AXIWRAM the stub of the ARM11 with the vectors and the fallback
-- entry behind it (`A11_STUB_ENTRY` and on) and the 0x20 bytes of its stack below it, since
-- `firmLaunch` of the ARM11 sets `sp` to `A11_STUB_ENTRY`.
pub InUse : ℕ → Type 0
InUse k =
    ((0x18200000 ≤ k) × (k < 0x18200000 + firm_max_size))
    ⊎ ((0x01FF8000 + 0x3800 ≤ k) × (k < 0x01FF8000 + 0x8000))
    ⊎ ((0x08000000 ≤ k) × (k < 0x08000000 + 0x40))
    ⊎ ((0x1FF80000 + 0x7FDE0 ≤ k) × (k < 0x1FF80000 + 0x80000))

boot_whitelist-free :
    (address size k : ℕ)
    → Allowed address size boot_whitelist
    → address ≤ k
    → k < address + size
    → InUse k
    → ⊥
unfolding Allowed InUse
boot_whitelist-free address size k (inl a) lo hi u = ground arith
boot_whitelist-free address size k (inr (inl a)) lo hi u = ground arith
boot_whitelist-free address size k (inr (inr (inl a))) lo hi u = ground arith
boot_whitelist-free address size k (inr (inr (inr (inl a)))) lo hi u = ground arith
boot_whitelist-free address size k (inr (inr (inr (inr (inl a))))) lo hi u = ground arith
boot_whitelist-free address size k (inr (inr (inr (inr (inr a))))) lo hi u = a

-- In boot mode no section of an image that was accepted, of at most `FIRM_MAX_SIZE` bytes, goes
-- over the image itself, the ITCM from 0x3800 on, the exception vectors of the ARM9, or the stub,
-- the vectors and the 0x20 bytes of stack of the ARM11.
pub verify_firm-InUse :
    (sha : Bytes → Bytes) (skip_hash_check : Bool) (buf : Bytes) (size i k : ℕ)
    → size ≤ firm_max_size
    → is_neg (verify_firm sha skip_hash_check boot_whitelist buf size) ≡ false
    → i < 4
    → sec_address buf i ≤ k
    → k < sec_address buf i + sec_size buf i
    → ¬ InUse k
verify_firm-InUse sha skip buf size i k small e lt lo hi =
    boot_whitelist-free (sec_address buf i) (sec_size buf i) k
      ((verify_firm_lem sha skip boot_whitelist buf size small e).sections i lt
        (λ z. omega arith)).allowed
      lo hi
