-- ===== src/Fs/Files/Count.antt =====
-- The table of open files under `fOpen` and `fClose`: `fHandles` counts the slots in use.
use fastboot3ds.Base.{
  ℕ, zero, suc, ◌+◌, ◌-◌, ◌≤◌, ◌<◌, ◌≡◌, ◌≢◌, ◌⊎◌, ◌∙◌, Bool, true, false, none, some, List, [],
  ◌∷◌, Bytes, length, length-set, get_or, set, get_or-set_self, get_or-set_ne, arith, inl, inr,
  Bool-cases, Option-cases, ◌==◌, leb, leb→le, pos, neg,
}
use fastboot3ds.Fs.World.{FatFs}
use fastboot3ds.Fs.State.{Fs, fs_max_files}
use fastboot3ds.Fs.Files.{find_unused_file_slot, is_file_handle_valid, f_open, f_close}
use fastboot3ds.Fs.Files.Slots.{
  count_used, count_used-le, IsFirstFree, first_free-some, first_free-none, count_used-set-true,
  count_used-set-false,
}

-- `fTable` has three slots, and `fHandles` is the number of those in use.
pub record IsFiles (fs : Fs) : Type 0 where
  pub size : length fs.files ≡ fs_max_files
  pub counted : fs.f_handles ≡ count_used fs.files

abbrev pub is_open : Fs → ℕ → Bool
is_open fs i = get_or fs.files i false

-- What a successful `fOpen` leaves: the first free slot is in use.
pub record Opened (fs : Fs) (i : ℕ) (fs' : Fs) : Type 0 where
  pub first : IsFirstFree fs.files i
  pub now_open : is_open fs' i ≡ true
  pub others : (j : ℕ) → i ≢ j → is_open fs' j ≡ is_open fs j
  pub files : IsFiles fs'

find_unused_file_slot-some :
    (fs : Fs) (i : ℕ) → find_unused_file_slot fs ≡ some i → IsFirstFree fs.files i
unfolding find_unused_file_slot
find_unused_file_slot-some fs i h = elim (Bool-cases (leb fs_max_files fs.f_handles)) [
  | inl full ↦ cc (rw full at h)
  | inr room ↦
      let (j, e, f) = first_free-some 0 fs.files i (rw room at h) in
      let e' : i ≡ j = omega arith in rw e' f
]

find_unused_file_slot-none :
    (fs : Fs) → IsFiles fs → find_unused_file_slot fs ≡ none → fs.f_handles ≡ fs_max_files
unfolding find_unused_file_slot
find_unused_file_slot-none fs v h = elim (Bool-cases (leb fs_max_files fs.f_handles)) [
  | inl full ↦
      omega
        (arith, leb→le fs_max_files fs.f_handles full, v.counted, v.size, count_used-le fs.files)
  | inr room ↦ omega (arith, first_free-none 0 fs.files (rw room at h), v.counted, v.size)
]

taken : Fs → ℕ → Fs
taken fs i = record fs { files = set fs.files i true; f_handles = fs.f_handles + 1 }

taken-Opened : (fs : Fs) (i : ℕ) → IsFiles fs → IsFirstFree fs.files i → Opened fs i (taken fs i)
unfolding taken
taken-Opened fs i v f = record {
  first = f;
  now_open = get_or-set_self fs.files i true false f.inside;
  others = λ j ne. get_or-set_ne fs.files i j true false ne;
  files = record {
    size = length-set fs.files i true ∙ v.size;
    counted = omega (arith, v.counted, count_used-set-true fs.files i f.inside f.free);
  };
}

-- `fOpen` has three outcomes: all slots are in use, and it returns -30; FatFs fails, and it returns
-- the negated error; or the first free slot is taken and is the handle. In the first two cases
-- the table stays as it was, and it is a table of files with a correct count in all of them.
pub f_open_lem :
    {W : Type 0} (fat : FatFs W) (path : Bytes) (mode : ℕ) (fs : Fs) (w : W)
    → IsFiles fs
    → ((fs.f_handles ≡ fs_max_files) × (f_open fat path mode fs w ≡ (neg 30, fs, w)))
      ⊎ ((i : ℕ) × ((fat.open_file i path mode w).0 ≢ 0)
          × ((f_open fat path mode fs w).0 ≡ neg (fat.open_file i path mode w).0)
          × ((f_open fat path mode fs w).1 ≡ fs))
      ⊎ ((i : ℕ) × ((fat.open_file i path mode w).0 ≡ 0)
          × ((f_open fat path mode fs w).0 ≡ pos i)
          × Opened fs i (f_open fat path mode fs w).1)
unfolding f_open taken
f_open_lem fat path mode fs w v = elim (Option-cases (find_unused_file_slot fs)) [
  | inl full ↦ inl (find_unused_file_slot-none fs v full, rw (full, f_open))
  | inr (i, e) ↦ elim (Bool-cases ((fat.open_file i path mode w).0 == 0)) [
    | inl fine ↦ inr (
        inr (
          i,
          ground arith,
          rw (e, f_open) (rw fine),
          rw (e, f_open) (rw fine (taken-Opened fs i v (find_unused_file_slot-some fs i e))),
        ))
    | inr bad ↦ inr (inl (i, ground arith, rw (e, f_open) (rw bad), rw (e, f_open) (rw bad)))
  ]
]

get_or-inside : (bs : List Bool) (i : ℕ) → get_or bs i false ≡ true → i < length bs
get_or-inside [] i e = cc
get_or-inside (b ∷ bs) zero e = omega arith
get_or-inside (b ∷ bs) (suc i) e = omega (arith, get_or-inside bs i e)

-- A file that is open and that `isFileHandleValid` accepts is closed, whatever FatFs returns.
f_close-closes :
    {W : Type 0} (fat : FatFs W) (handle : ℕ) (fs : Fs) (w : W)
    → IsFiles fs
    → is_open fs handle ≡ true
    → handle ≤ fs.f_handles
    → (f_close fat handle fs w).1
      ≡ record fs { files = set fs.files handle false; f_handles = fs.f_handles - 1 }
unfolding f_close is_file_handle_valid
f_close-closes fat handle fs w v o le =
    ground (arith, v.counted, count_used-set-false fs.files handle o)

-- `fClose` of an open file that it takes for valid frees its slot, keeps the other slots, and keeps
-- the count correct, whatever FatFs returns.
pub f_close_lem :
    {W : Type 0} (fat : FatFs W) (handle : ℕ) (fs : Fs) (w : W)
    → IsFiles fs
    → is_open fs handle ≡ true
    → handle ≤ fs.f_handles
    → IsFiles (f_close fat handle fs w).1
      × (is_open (f_close fat handle fs w).1 handle ≡ false)
      × ((j : ℕ) → handle ≢ j → is_open (f_close fat handle fs w).1 j ≡ is_open fs j)
f_close_lem fat handle fs w v o le = rw (f_close-closes fat handle fs w v o le) (
  record {
    size = length-set fs.files handle false ∙ v.size;
    counted = omega (arith, v.counted, count_used-set-false fs.files handle o);
  },
  get_or-set_self fs.files handle false false (get_or-inside fs.files handle o),
  λ j ne. get_or-set_ne fs.files handle j false false ne,
)
