-- ===== src/Dev/Aes.antt =====
-- Counter mode in source/arm9/hardware/crypto.c: the loop of `AES_ctr` over what the engine takes
-- at once.
use fastboot3ds.Base.{
  ℕ, zero, suc, ◌+◌, ◌-◌, ◌*◌, ◌/◌, ◌%◌, ◌^◌, ◌≤◌, ◌<◌, ◌≡◌, refl, ap, ◌∙◌, sym, Bytes, [], ◌∷◌,
  ◌++◌, take, drop, length, min, ltb, ◌==◌, if◌then◌else◌, Bool-cases, inl, inr, arith,
}

abbrev pub counter_mod : ℕ
counter_mod = 2 ^ 128

abbrev pub aes_max_blocks : ℕ
aes_max_blocks = 0xFFFE

-- The number of 128 bits is kept in four words; `val` is in bytes.
unfoldable pub add_counter : ℕ → ℕ → ℕ
add_counter ctr val = (ctr + val / 16) % counter_mod

-- The engine with a key and an order of bytes: what it makes of a number of blocks of 16 bytes from
-- a counter on.
abbrev pub Engine : Type 0
Engine = ℕ → ℕ → Bytes → Bytes

-- Counter mode: each block has its own counter, and doing it twice gives the bytes back.
pub record IsCounterMode (process : Engine) : Type 0 where
  pub size : (c n : ℕ) (x : Bytes) → length (process c n x) ≡ min (n * 16) (length x)
  pub splits :
      (c m n : ℕ) (x : Bytes)
      → process c (m + n) x ≡ process c m x ++ process ((c + m) % counter_mod) n (drop (m * 16) x)
  pub twice : (c n : ℕ) (x : Bytes) → process c n (process c n x) ≡ take (n * 16) x

-- What the engine takes at once.
unfoldable pub block_num : ℕ → ℕ
block_num blocks = if ltb aes_max_blocks blocks then aes_max_blocks else blocks

module _ (process : Engine) where
  -- The loop of `AES_ctr` with the counter and the blocks to go: the output and the counter after
  -- it.
  unfoldable pub ctr_loop : ℕ → ℕ → ℕ → Bytes → Bytes × ℕ
  unfolding add_counter block_num
  ctr_loop zero ctr blocks x = ([], ctr)
  ctr_loop (suc fuel) ctr blocks x =
      let num = block_num blocks in
      let rest = ctr_loop fuel (add_counter ctr (num * 16)) (blocks - num) (drop (num * 16) x) in
      if blocks == 0 then ([], ctr) else (process ctr num x ++ rest.0, rest.1)

  -- A round takes blocks, up to the most of the engine.
  unfoldable pub aes_ctr : ℕ → ℕ → Bytes → Bytes × ℕ
  unfolding ctr_loop
  aes_ctr ctr blocks x = ctr_loop (blocks / aes_max_blocks + 1) ctr blocks x

nothing : (x : Bytes) → length x ≡ 0 → x ≡ []
nothing [] e = refl
nothing (y ∷ x) e = absurd (omega (arith, e))

still : (c : ℕ) → c < counter_mod → (c + 0) % counter_mod ≡ c
still c lt = omega (arith, lt)

counts_on :
    (c m n : ℕ) → ((c + m * 16 / 16) % counter_mod + n) % counter_mod ≡ (c + (m + n)) % counter_mod
counts_on c m n = omega arith

wrapped : (c m : ℕ) → (c + m * 16 / 16) % counter_mod ≡ (c + m) % counter_mod
wrapped c m = omega arith

wraps : (c m : ℕ) → (c + m) % counter_mod < counter_mod
wraps c m = omega arith

num_fits :
    (blocks fuel : ℕ)
    → blocks ≤ suc fuel * aes_max_blocks
    → blocks - block_num blocks ≤ fuel * aes_max_blocks
unfolding block_num
num_fits blocks fuel le = elim (Bool-cases (ltb aes_max_blocks blocks)) [
  | inl more ↦ rw more (omega (arith, le))
  | inr less ↦ rw less (omega arith)
]

num_rest : (blocks : ℕ) → block_num blocks + (blocks - block_num blocks) ≡ blocks
unfolding block_num
num_rest blocks = elim (Bool-cases (ltb aes_max_blocks blocks)) [
  | inl more ↦ rw more (ground (arith, more))
  | inr less ↦ rw less (omega arith)
]

enough_rounds : (blocks : ℕ) → blocks ≤ (blocks / aes_max_blocks + 1) * aes_max_blocks
enough_rounds blocks = omega arith

module _ (process : Engine) (mode : IsCounterMode process) where
  pub process_none : (c : ℕ) (x : Bytes) → process c 0 x ≡ []
  process_none c x = nothing (process c 0 x) (omega (arith, mode.size c 0 x))

  ctr_loop_lem :
      (fuel c blocks : ℕ) (x : Bytes)
      → c < counter_mod
      → blocks ≤ fuel * aes_max_blocks
      → ctr_loop process fuel c blocks x ≡ (process c blocks x, (c + blocks) % counter_mod)
  unfolding ctr_loop add_counter
  ctr_loop_lem zero c blocks x small le =
      let none_left : 0 ≡ blocks = omega (arith, le) in
      ap (λ n. ([], n)) (sym (still c small))
      ∙ ap (λ b. (b, (c + 0) % counter_mod)) (sym (process_none c x))
      ∙ ap (λ n. (process c n x, (c + n) % counter_mod)) none_left
  ctr_loop_lem (suc fuel) c blocks x small le =
      let num = block_num blocks in
      let later =
        ctr_loop_lem fuel ((c + num * 16 / 16) % counter_mod) (blocks - num) (drop (num * 16) x)
          (wraps c (num * 16 / 16)) (num_fits blocks fuel le) in
      elim (Bool-cases (blocks == 0)) [
        | inl done ↦
            let none_left : 0 ≡ blocks = ground (arith, done) in
            rw done (
              ap (λ n. ([], n)) (sym (still c small))
              ∙ ap (λ b. (b, (c + 0) % counter_mod)) (sym (process_none c x))
              ∙ ap (λ n. (process c n x, (c + n) % counter_mod)) none_left)
        | inr more ↦ rw more (
            ap (λ r. (process c num x ++ r.0, r.1)) later
            ∙ ap
                (λ n. (
                  process c num x
                      ++ process ((c + num * 16 / 16) % counter_mod) (blocks - num)
                          (drop (num * 16) x),
                  n,
                ))
                (counts_on c num (blocks - num))
            ∙ ap
                (λ d. (
                  process c num x ++ process d (blocks - num) (drop (num * 16) x),
                  (c + (num + (blocks - num))) % counter_mod,
                ))
                (wrapped c num)
            ∙ ap (λ b. (b, (c + (num + (blocks - num))) % counter_mod))
                (sym (mode.splits c num (blocks - num) x))
            ∙ ap (λ n. (process c n x, (c + n) % counter_mod)) (num_rest blocks))
      ]

  -- `AES_ctr` from a counter of 128 bits gives what counter mode makes of all the blocks at once,
  -- and the counter behind them, for any number of blocks; the engine takes 0xFFFE at most.
  pub aes_ctr_lem :
      (c blocks : ℕ) (x : Bytes)
      → c < counter_mod
      → aes_ctr process c blocks x ≡ (process c blocks x, (c + blocks) % counter_mod)
  unfolding aes_ctr
  aes_ctr_lem c blocks x small =
      ctr_loop_lem (blocks / aes_max_blocks + 1) c blocks x small (enough_rounds blocks)
