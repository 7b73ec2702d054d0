-- ===== src/Fs/RawWrite/Masked.antt =====
-- What the write loop leaves on the disk: the buffer, but for the protected sectors.
use fastboot3ds.Base.{
  ℕ, zero, suc, ◌+◌, ◌-◌, ◌*◌, ◌≤◌, ◌<◌, ◌≡◌, ◌⊎◌, refl, sym, ap, ◌∙◌, Bool, true, false, Bytes,
  List, [], ◌∷◌, take, drop, arith, inl, inr,
}
use native.Mathlib.Decide.{dec_lt}
use native.Mathlib.Nat.{suc-add}
use fastboot3ds.Fs.World.{DevStruct, IsDisk, sector_of}
use fastboot3ds.Fs.State.{Fs}
use fastboot3ds.Fs.Protection.Lookup.{Protected}

take-drop-take :
    {A : Type 0} (m a b : ℕ) (xs : List A)
    → a + m ≤ b
    → take m (drop a (take b xs)) ≡ take m (drop a xs)
take-drop-take zero a b xs h = refl
take-drop-take (suc m) a zero xs h = absurd (omega arith)
take-drop-take (suc m) zero (suc b) [] h = refl
take-drop-take (suc m) (suc a) (suc b) [] h = refl
take-drop-take (suc m) zero (suc b) (x ∷ xs) h =
    ap (λ ys. x ∷ ys) (take-drop-take m 0 b xs (omega arith))
take-drop-take (suc m) (suc a) (suc b) (x ∷ xs) h = take-drop-take (suc m) a b xs (omega arith)

drop-nil : {A : Type 0} (n : ℕ) → drop {A = A} n [] ≡ []
drop-nil zero = refl
drop-nil (suc n) = refl

drop-drop : {A : Type 0} (a b : ℕ) (xs : List A) → drop a (drop b xs) ≡ drop (b + a) xs
drop-drop a zero xs = ap (λ k. drop k xs) (omega arith)
drop-drop a (suc b) [] = drop-nil a ∙ sym (drop-nil (suc b + a))
drop-drop a (suc b) (x ∷ xs) = drop-drop a b xs ∙ rw (suc-add b a)

module _ {W : Type 0} (block : W → ℕ → Bytes) (fs : Fs) where
  -- The sectors from `s` on, `n` of them, were overwritten with the buffer, but for the protected
  -- ones; if not `done`, some of them may be as they were.
  pub record Masked (s n : ℕ) (buf : Bytes) (w : W) (done : Bool) (w' : W) : Type 0 where
    pub kept : (k : ℕ) → Protected fs k → block w' k ≡ block w k
    pub outside : (k : ℕ) → (k < s) ⊎ (s + n ≤ k) → block w' k ≡ block w k
    pub stored :
        done ≡ true
        → (k : ℕ) → s ≤ k
        → k < s + n
        → ¬ Protected fs k
        → block w' k ≡ sector_of buf (k - s)

  -- Nothing was written.
  pub Masked-none : (s n : ℕ) (buf : Bytes) (w : W) → Masked s n buf w false w
  Masked-none s n buf w = record { kept = λ k p. refl; outside = λ k o. refl; stored = λ d. cc }

  module _ (dev : DevStruct W) (disk : IsDisk dev block) where
    pub Masked-skip :
        (s n : ℕ) (buf : Bytes) (w : W)
        → ((k : ℕ) → s ≤ k → k < s + n → Protected fs k)
        → Masked s n buf w true w
    Masked-skip s n buf w all = record {
      kept = λ k p. refl;
      outside = λ k o. refl;
      stored = λ d k lo hi free. absurd (free (all k lo hi));
    }

    pub Masked-write :
        (s n : ℕ) (buf : Bytes) (w : W)
        → ((k : ℕ) → s ≤ k → k < s + n → ¬ Protected fs k)
        → Masked s n buf w
            (dev.write_sector s n (take (n * 512) buf) w).0
            (dev.write_sector s n (take (n * 512) buf) w).1
    Masked-write s n buf w all = record {
      kept = λ k p. disk.frame s n _ w k (apart k p);
      outside = λ k o. disk.frame s n _ w k o;
      stored = λ d k lo hi free.
          disk.stores s n _ w k d lo hi
          ∙ take-drop-take 512 ((k - s) * 512) (n * 512) buf (omega arith);
    }
      where
        apart : (k : ℕ) → Protected fs k → (k < s) ⊎ (s + n ≤ k)
        apart k p = elim (dec_lt k s) [
          | yes before ↦ inl before
          | no after ↦ elim (dec_lt k (s + n)) [
            | yes inside ↦ absurd (all k (omega arith) inside p)
            | no beyond ↦ inr (omega arith)
          ]
        ]

    -- A piece that was handled in full, and the rest behind it.
    pub Masked-append :
        (s n c : ℕ) (buf : Bytes) (w w1 w2 : W) (done : Bool)
        → c ≤ n
        → Masked s c buf w true w1
        → Masked (s + c) (n - c) (drop (c * 512) buf) w1 done w2
        → Masked s n buf w done w2
    Masked-append s n c buf w w1 w2 done le a b = record {
      kept = λ k p. b.kept k p ∙ a.kept k p;
      outside = λ k o. b.outside k (omega arith) ∙ a.outside k (omega arith);
      stored = λ d k lo hi free. elim (dec_lt k (s + c)) [
        | yes first ↦ b.outside k (inl first) ∙ a.stored refl k lo first free
        | no second ↦
            b.stored d k (omega arith) (omega arith) free
            ∙ ap (take 512) (drop-drop ((k - (s + c)) * 512) (c * 512) buf)
            ∙ ap (λ i. take 512 (drop i buf)) (omega arith)
      ];
    }

    -- A piece that failed is all that happens.
    pub Masked-fail :
        (s n c : ℕ) (buf : Bytes) (w w1 : W) (done : Bool)
        → c ≤ n
        → Masked s c buf w done w1
        → Masked s n buf w false w1
    Masked-fail s n c buf w w1 done le a = record {
      kept = a.kept;
      outside = λ k o. a.outside k (omega arith);
      stored = λ d. cc;
    }
