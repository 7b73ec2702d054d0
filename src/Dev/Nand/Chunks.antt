-- ===== src/Dev/Nand/Chunks.antt =====
-- The loop of `sdmmc_dnand_write_sector`: the sectors hold what counter mode makes of the buffer.
use fastboot3ds.Base.{
  ℕ, zero, suc, ◌+◌, ◌-◌, ◌*◌, ◌%◌, ◌≤◌, ◌<◌, ◌≡◌, ◌⊎◌, inl, inr, refl, ap, ◌∙◌, sym, Bool, true,
  false, Bytes, ◌++◌, take, drop, length, length-drop, drop-append, slice-append, min, ◌==◌,
  Bool-cases, add32, u32_mod, arith,
}
use fastboot3ds.Fs.World.{sector_of}
use fastboot3ds.Fs.Sectors.{AreWhole}
use fastboot3ds.Dev.{Mmc}
use fastboot3ds.Dev.Aes.{Engine, IsCounterMode, counter_mod, aes_ctr_lem}
use fastboot3ds.Dev.Nand.{write_chunks}

-- A NAND: `block` is what a sector holds. A write changes only the sectors that it names, and
-- stores the buffer there if it succeeds; a read changes none, and gives what whole sectors hold
-- if it succeeds.
pub record IsNand {W : Type 0} (mmc : Mmc W) (block : W → ℕ → Bytes) : Type 0 where
  pub frame :
      (s n : ℕ) (buf : Bytes) (w : W) (k : ℕ)
      → (k < s) ⊎ (s + n ≤ k)
      → block (mmc.nand_write s n buf w).1 k ≡ block w k
  pub stores :
      (s n : ℕ) (buf : Bytes) (w : W) (i : ℕ)
      → (mmc.nand_write s n buf w).0 ≡ 0
      → i < n
      → block (mmc.nand_write s n buf w).1 (s + i) ≡ sector_of buf i
  pub read_size :
      (s n : ℕ) (w : W)
      → (mmc.nand_read s n w).0 ≡ 0
      → AreWhole block s n w
      → length (mmc.nand_read s n w).1 ≡ n * 512
  pub read_back :
      (s n : ℕ) (w : W) (i : ℕ)
      → (mmc.nand_read s n w).0 ≡ 0
      → AreWhole block s n w
      → i < n
      → sector_of (mmc.nand_read s n w).1 i ≡ block w (s + i)

-- Sector `i` of a range is in the first chunk or behind it.
which_chunk : (n i : ℕ) → (i < n) ⊎ ((r : ℕ) × (i ≡ n + r))
which_chunk n i = elim (before i n) [ inl lt ↦ inl lt | inr le ↦ inr (i - n, omega (arith, le)) ]
  where
    before : (m k : ℕ) → (m < k) ⊎ (k ≤ m)
    before m k = ground arith

next_sector : (s n m : ℕ) → s + m < u32_mod → n ≤ m → add32 s n ≡ s + n
next_sector s n m lt le = omega arith

chunk_apart : (s count size k : ℕ) → (k < s) ⊎ (s + count ≤ k) → (k < s) ⊎ (s + min count size ≤ k)
chunk_apart s count size k (inl lt) = inl lt
chunk_apart s count size k (inr le) = inr (omega (arith, le))

rest_fits :
    (s count size : ℕ)
    → s + count < u32_mod
    → add32 s (min count size) + (count - min count size) < u32_mod
rest_fits s count size lt = omega arith

rest_apart :
    (s count size k : ℕ)
    → s + count < u32_mod
    → (k < s) ⊎ (s + count ≤ k)
    → (k < add32 s (min count size)) ⊎ (add32 s (min count size) + (count - min count size) ≤ k)
rest_apart s count size k small (inl lt) = inl (omega (arith, lt, small))
rest_apart s count size k small (inr le) = inr (omega (arith, le, small))

wraps : (c n : ℕ) → (c + n * 32) % counter_mod < counter_mod
wraps c n = omega arith

rest_rounds : (fuel count size : ℕ) → count ≤ suc fuel * size → count - min count size ≤ fuel * size
rest_rounds fuel count size le = omega (arith, le)

module _ {W : Type 0} (mmc : Mmc W) (engine : ℕ → Engine) (block : W → ℕ → Bytes)
    (nand : IsNand mmc block) (key size : ℕ) (mode : IsCounterMode (engine key)) where
  module _ (fuel s count : ℕ) (buf : Bytes) (c : ℕ) (w : W) where
    abbrev num : ℕ
    num = min count size

    abbrev crypted : Bytes
    crypted = engine key c (num * 32) buf

    abbrev written : W
    written = (mmc.nand_write s num crypted w).1

    abbrev rest : Bool × W
    rest =
        write_chunks mmc engine fuel key size (add32 s num) (count - num) (drop (num * 512) buf)
          ((c + num * 32) % counter_mod) written

    -- The exits of a round of the loop.
    data Round : Bool × W → Type 0 where
      failed : Round (false, written)
      last : count - num ≡ 0 → (mmc.nand_write s num crypted w).0 ≡ 0 → Round (true, written)
      goes_on : (mmc.nand_write s num crypted w).0 ≡ 0 → Round rest

    write_chunks-Round :
        c < counter_mod → Round (write_chunks mmc engine (suc fuel) key size s count buf c w)
    unfolding write_chunks
    write_chunks-Round small =
        rw (aes_ctr_lem (engine key) mode c (min count size * 32) buf small)
          (elim (Bool-cases ((mmc.nand_write s num crypted w).0 == 0)) [
            | inr e ↦ rw e failed
            | inl e ↦ elim (Bool-cases (count - num == 0)) [
              | inl done ↦ rw (e, done) (last (ground (arith, done)) (ground (arith, e)))
              | inr more ↦ rw (e, more) (goes_on (ground (arith, e)))
            ]
          ])

    Round-frame :
        (r : Bool × W) (k : ℕ)
        → Round r
        → (k < s) ⊎ (s + num ≤ k)
        → block rest.1 k ≡ block written k
        → block r.1 k ≡ block w k
    Round-frame r k failed out after = nand.frame s num crypted w k out
    Round-frame r k (last done e) out after = nand.frame s num crypted w k out
    Round-frame r k (goes_on e) out after = after ∙ nand.frame s num crypted w k out

    Round-stored :
        (r : Bool × W) (i : ℕ)
        → Round r
        → r.0 ≡ true
        → i < count
        → (rest.0 ≡ true
            → (mmc.nand_write s num crypted w).0 ≡ 0
            → block rest.1 (s + i) ≡ sector_of (engine key c (count * 32) buf) i)
        → (i < num → sector_of crypted i ≡ sector_of (engine key c (count * 32) buf) i)
        → block r.1 (s + i) ≡ sector_of (engine key c (count * 32) buf) i
    Round-stored r i failed ok lt after here = cc
    Round-stored r i (last done e) ok lt after here =
        nand.stores s num crypted w i e (omega (arith, done, lt)) ∙ here (omega (arith, done, lt))
    Round-stored r i (goes_on e) ok lt after here = after ok e

    -- What counter mode makes of the whole buffer.
    parts :
        engine key c (count * 32) buf
        ≡ crypted
          ++ engine key ((c + num * 32) % counter_mod) ((count - num) * 32) (drop (num * 512) buf)
    parts =
        let all : count * 32 ≡ num * 32 + (count - num) * 32 = omega arith in
        let bytes : num * 32 * 16 ≡ num * 512 = omega arith in
        ap (λ n. engine key c n buf) all
        ∙ mode.splits c (num * 32) ((count - num) * 32) buf
        ∙ ap
            (λ n.
              crypted
              ++ engine key ((c + num * 32) % counter_mod) ((count - num) * 32) (drop n buf))
            bytes

    length-crypted : count * 512 ≤ length buf → length crypted ≡ num * 512
    length-crypted long = omega (arith, long, mode.size c (num * 32) buf)

    in_crypted :
        (i : ℕ)
        → count * 512 ≤ length buf
        → i < num
        → sector_of crypted i ≡ sector_of (engine key c (count * 32) buf) i
    in_crypted i long lt =
        sym (
          slice-append crypted
            (engine key ((c + num * 32) % counter_mod) ((count - num) * 32) (drop (num * 512) buf))
            (i * 512) 512 (omega (arith, lt, length-crypted long)))
        ∙ ap (λ x. sector_of x i) (sym parts)

    behind_crypted :
        (i r : ℕ)
        → count * 512 ≤ length buf
        → i ≡ num + r
        → sector_of
            (engine key ((c + num * 32) % counter_mod) ((count - num) * 32) (drop (num * 512) buf))
            r
          ≡ sector_of (engine key c (count * 32) buf) i
    behind_crypted i r long e =
        ap (take 512) (
          sym (
            drop-append crypted
              (engine key ((c + num * 32) % counter_mod) ((count - num) * 32)
                (drop (num * 512) buf))
              (i * 512) (r * 512) (omega (arith, e, length-crypted long))))
        ∙ ap (λ x. sector_of x i) (sym parts)

  -- Whatever it returns, the loop changes only the sectors of the buffer.
  pub write_chunks_frame :
      (fuel s count : ℕ) (buf : Bytes) (c : ℕ) (w : W) (k : ℕ)
      → c < counter_mod
      → s + count < u32_mod
      → (k < s) ⊎ (s + count ≤ k)
      → block (write_chunks mmc engine fuel key size s count buf c w).1 k ≡ block w k
  unfolding write_chunks
  write_chunks_frame zero s count buf c w k small fits out = refl
  write_chunks_frame (suc fuel) s count buf c w k small fits out =
      Round-frame fuel s count buf c w (write_chunks mmc engine (suc fuel) key size s count buf c w)
        k (write_chunks-Round fuel s count buf c w small) (chunk_apart s count size k out)
        (write_chunks_frame fuel (add32 s (min count size)) (count - min count size) _ _ _ k
          (wraps c (min count size)) (rest_fits s count size fits)
          (rest_apart s count size k fits out))

  -- Where it returns true, the sectors hold what counter mode makes of the buffer.
  pub write_chunks_stored :
      (fuel s count : ℕ) (buf : Bytes) (c : ℕ) (w : W) (i : ℕ)
      → c < counter_mod
      → s + count < u32_mod
      → count ≤ fuel * size
      → count * 512 ≤ length buf
      → (write_chunks mmc engine fuel key size s count buf c w).0 ≡ true
      → i < count
      → block (write_chunks mmc engine fuel key size s count buf c w).1 (s + i)
        ≡ sector_of (engine key c (count * 32) buf) i
  write_chunks_stored zero s count buf c w i small fits enough long ok lt =
      absurd (omega (arith, enough, lt))
  write_chunks_stored (suc fuel) s count buf c w i small fits enough long ok lt =
      let n = min count size in
      let buf' = drop (n * 512) buf in
      let c' = (c + n * 32) % counter_mod in
      let w' = written fuel s count buf c w in
      let s' = add32 s n in
      let next = next_sector s n count fits (omega arith) in
      Round-stored fuel s count buf c w
        (write_chunks mmc engine (suc fuel) key size s count buf c w) i
        (write_chunks-Round fuel s count buf c w small) ok lt
        (λ ok' e. elim (which_chunk n i) [
          | inl here ↦
              write_chunks_frame fuel s' (count - n) buf' c' w' (s + i) (wraps c n)
                (rest_fits s count size fits) (inl (omega (arith, next, here)))
              ∙ nand.stores s n (crypted fuel s count buf c w) w i e here
              ∙ in_crypted fuel s count buf c w i long here
          | inr (r, at) ↦
              let there : s + i ≡ s' + r = omega (arith, at, next) in
              ap (λ k. block (rest fuel s count buf c w).1 k) there
              ∙ write_chunks_stored fuel s' (count - n) buf' c' w' r (wraps c n)
                  (rest_fits s count size fits) (rest_rounds fuel count size enough)
                  (omega (arith, long, length-drop (n * 512) buf)) ok' (omega (arith, at, lt))
              ∙ behind_crypted fuel s count buf c w i r long at
        ])
        (λ here. in_crypted fuel s count buf c w i long here)
