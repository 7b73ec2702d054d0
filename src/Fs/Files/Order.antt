-- ===== src/Fs/Files/Order.antt =====
-- `isFileHandleValid` compares the handle with the number of open files, so the order in which
-- files are closed matters.
use fastboot3ds.Base.{ℕ, ◌≡◌, refl, true, [], ◌∷◌, Bytes, neg}
use fastboot3ds.Fs.World.{FatFs}
use fastboot3ds.Fs.State.{Fs}
use fastboot3ds.Fs.Files.{is_file_handle_valid, f_close, f_read, f_write}
use fastboot3ds.Fs.Files.Count.{is_open}

-- Three files are open, and the first two are closed in the order in which they were opened. The
-- third is still open, but every read, write and close of it is refused with -30, and nothing
-- changes.
pub close_in_order :
    {W : Type 0} (fat : FatFs W) (fs : Fs) (w w1 w2 : W) (buf : Bytes) (size : ℕ)
    → fs.files ≡ true ∷ true ∷ true ∷ []
    → fs.f_handles ≡ 3
    → let fs2 = (f_close fat 1 (f_close fat 0 fs w).1 w1).1 in
      (is_open fs2 2 ≡ true)
      × (f_close fat 2 fs2 w2 ≡ (neg 30, fs2, w2))
      × (f_read fat 2 size fs2 w2 ≡ (neg 30, [], w2))
      × (f_write fat 2 buf size fs2 w2 ≡ (neg 30, w2))
unfolding f_close f_read f_write is_file_handle_valid
close_in_order fat fs w w1 w2 buf size all three = rw (all, three) (refl, refl, refl, refl)
