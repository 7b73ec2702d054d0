-- ===== src/Config/Scan/Keys.antt =====
-- The keys of config.c as `findNextDefinition` meets them.
use fastboot3ds.Base.{
  ℕ, zero, suc, ◌+◌, ◌<◌, ◌≡◌, refl, ap, ◌∙◌, Bool, true, false, not, ◌&&◌, some, List, [], ◌∷◌,
  ◌++◌, Bytes, length, get_or, ◌==◌, arith,
}
use fastboot3ds.Config.{num_keys, key_text, key_strings}
use fastboot3ds.Config.Scan.{starts_with, match_from, match_key}

-- Keys that are found in front of a space, the first of them as the key `i`.
AllFound : List Bytes → ℕ → Bytes → Type 0
AllFound [] i rest = Unit {0}
AllFound (k ∷ ks) i rest =
    (match_key (k ++ (b' ' ∷ rest)) ≡ some (i, length k)) × AllFound ks (suc i) rest

found_at :
    (keys : List Bytes) (i n : ℕ) (rest : Bytes)
    → AllFound keys n rest
    → i < length keys
    → match_key (get_or keys i [] ++ (b' ' ∷ rest)) ≡ some (i + n, length (get_or keys i []))
unfolding AllFound
found_at [] i n rest all lt = absurd (omega arith)
found_at (k ∷ ks) zero n rest all lt = all.0 ∙ ap (λ m. some (m, length k)) (omega arith)
found_at (k ∷ ks) (suc i) n rest all lt =
    found_at ks i (suc n) rest (all.1) (omega (arith, lt))
    ∙ ap (λ m. some (m, length (get_or ks i []))) (omega arith)

-- Every key is found in front of a space, the longer keys not in its place.
pub match_key-key_text :
    (key : ℕ) (rest : Bytes)
    → key < num_keys
    → match_key (key_text key ++ (b' ' ∷ rest)) ≡ some (key, length (key_text key))
unfolding match_key match_from starts_with key_text key_strings AllFound
match_key-key_text key rest lt =
    found_at key_strings key 0 rest all lt
    ∙ ap (λ m. some (m, length (get_or key_strings key []))) (omega arith)
  where
    all : AllFound key_strings 0 rest
    all = (
      refl,
      (
        refl,
        (
          refl,
          (
            refl,
            (
              refl,
              (
                refl,
                (
                  refl,
                  (
                    refl,
                    (
                      refl,
                      (
                        refl,
                        (
                          refl,
                          (
                            refl,
                            (
                              refl,
                              (
                                refl,
                                (
                                  refl,
                                  (
                                    refl,
                                    (refl, (refl, (refl, (refl, (refl, (refl, (refl, tt))))))),
                                  ),
                                ),
                              ),
                            ),
                          ),
                        ),
                      ),
                    ),
                  ),
                ),
              ),
            ),
          ),
        ),
      ),
    )

-- Every string of a list has a first byte, and it is not NUL.
all_start : List Bytes → Bool
all_start [] = true
all_start ([] ∷ ks) = false
all_start ((c ∷ cs) ∷ ks) = not (c == 0) && all_start ks

start_of :
    (keys : List Bytes) (i : ℕ) (rest : Bytes)
    → all_start keys ≡ true
    → i < length keys
    → (get_or (get_or keys i [] ++ rest) 0 0 == 0) ≡ false
unfolding all_start
start_of [] i rest all lt = absurd (omega arith)
start_of ([] ∷ ks) i rest all lt = cc
start_of ((c ∷ cs) ∷ ks) zero rest all lt = ground (arith, all)
start_of ((c ∷ cs) ∷ ks) (suc i) rest all lt =
    start_of ks i rest (ground (arith, all)) (omega (arith, lt))

pub key_text-start :
    (key : ℕ) (rest : Bytes) → key < num_keys → (get_or (key_text key ++ rest) 0 0 == 0) ≡ false
unfolding key_text key_strings all_start
key_text-start key rest lt = start_of key_strings key rest refl lt
