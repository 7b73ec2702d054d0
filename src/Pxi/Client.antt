-- ===== src/Pxi/Client.antt =====
-- source/arm11/fs.c, source/arm11/firmwriter.c and source/arm11/firm.c: the commands that the
-- functions of the ARM11 send.
use fastboot3ds.Base.{ℕ, ◌*◌, ◌%◌, Bool, not, List, [], ◌∷◌, ◌==◌, if◌then◌else◌, u32_mod, add32}
use fastboot3ds.Pxi.Commands

-- What `PXI_sendCmd` is called with.
pub record Request : Type 0 where
  pub cmd : ℕ
  pub buf : List ℕ

abbrev pub request : ℕ → List ℕ → Request
request cmd buf = record { cmd = cmd; buf = buf }

-- A truth value as a word.
abbrev bit : Bool → ℕ
bit b = if b then 1 else 0

unfoldable pub f_mount_cmd : ℕ → Request
f_mount_cmd drive = request Commands.cmd9_fmount (drive ∷ [])

unfoldable pub f_unmount_cmd : ℕ → Request
f_unmount_cmd drive = request Commands.cmd9_funmount (drive ∷ [])

unfoldable pub f_is_drive_mounted_cmd : ℕ → Request
f_is_drive_mounted_cmd drive = request Commands.cmd9_fis_drive_mounted (drive ∷ [])

unfoldable pub f_get_free_cmd : ℕ → ℕ → Request
f_get_free_cmd drive to = request Commands.cmd9_fgetfree (to ∷ 8 ∷ drive ∷ [])

unfoldable pub f_get_device_size_cmd : ℕ → Request
f_get_device_size_cmd dev = request Commands.cmd9_fget_dev_size (dev ∷ [])

unfoldable pub f_is_dev_active_cmd : ℕ → Request
f_is_dev_active_cmd dev = request Commands.cmd9_fis_dev_active (dev ∷ [])

unfoldable pub f_prepare_raw_access_cmd : ℕ → Request
f_prepare_raw_access_cmd dev = request Commands.cmd9_fprep_raw_access (dev ∷ [])

unfoldable pub f_finalize_raw_access_cmd : ℕ → Request
f_finalize_raw_access_cmd handle = request Commands.cmd9_ffinal_raw_access (handle ∷ [])

unfoldable pub f_create_device_buffer_cmd : ℕ → Request
f_create_device_buffer_cmd amount = request Commands.cmd9_fcreate_dev_buf (amount ∷ [])

unfoldable pub f_free_device_buffer_cmd : ℕ → Request
f_free_device_buffer_cmd handle = request Commands.cmd9_ffree_dev_buf (handle ∷ [])

unfoldable pub f_read_to_device_buffer_cmd : ℕ → ℕ → ℕ → ℕ → Request
f_read_to_device_buffer_cmd source offset amount handle =
    request Commands.cmd9_fread_to_dev_buf (source ∷ offset ∷ amount ∷ handle ∷ [])

unfoldable pub fs_write_from_device_buffer_cmd : ℕ → ℕ → ℕ → ℕ → Request
fs_write_from_device_buffer_cmd dest offset amount handle =
    request Commands.cmd9_fwrite_from_dev_buf (dest ∷ offset ∷ amount ∷ handle ∷ [])

unfoldable pub f_read_cmd : ℕ → ℕ → ℕ → Request
f_read_cmd handle to amount = request Commands.cmd9_fread (to ∷ amount ∷ handle ∷ [])

unfoldable pub f_write_cmd : ℕ → ℕ → ℕ → Request
f_write_cmd handle from amount = request Commands.cmd9_fwrite (from ∷ amount ∷ handle ∷ [])

unfoldable pub f_sync_cmd : ℕ → Request
f_sync_cmd handle = request Commands.cmd9_fsync (handle ∷ [])

unfoldable pub f_lseek_cmd : ℕ → ℕ → Request
f_lseek_cmd handle offset = request Commands.cmd9_flseek (handle ∷ offset ∷ [])

unfoldable pub f_tell_cmd : ℕ → Request
f_tell_cmd handle = request Commands.cmd9_ftell (handle ∷ [])

unfoldable pub f_size_cmd : ℕ → Request
f_size_cmd handle = request Commands.cmd9_fsize (handle ∷ [])

unfoldable pub f_close_cmd : ℕ → Request
f_close_cmd handle = request Commands.cmd9_fclose (handle ∷ [])

unfoldable pub f_expand_cmd : ℕ → ℕ → Request
f_expand_cmd handle amount = request Commands.cmd9_fexpand (handle ∷ amount ∷ [])

unfoldable pub f_close_dir_cmd : ℕ → Request
f_close_dir_cmd handle = request Commands.cmd9_fclose_dir (handle ∷ [])

unfoldable pub f_set_nand_protection_cmd : Bool → Request
f_set_nand_protection_cmd protect = request Commands.cmd9_fset_nand_prot (bit protect ∷ [])

unfoldable pub firm_launch_cmd : Request
firm_launch_cmd = request Commands.cmd9_firm_launch []

unfoldable pub toggle_superhax_cmd : Bool → Request
toggle_superhax_cmd enable = request Commands.cmd9_toggle_superhax (bit enable ∷ [])

-- `strlen` of what an address leads to, and `sizeof(FsFileInfo)`, a record of FatFs.
module _ (strlen : ℕ → ℕ) (info_size : ℕ) where
  unfoldable pub f_open_cmd : ℕ → ℕ → Request
  f_open_cmd path mode = request Commands.cmd9_fopen (path ∷ add32 (strlen path) 1 ∷ mode ∷ [])

  unfoldable pub f_stat_cmd : ℕ → ℕ → Request
  f_stat_cmd path info =
      request Commands.cmd9_fstat
        (path ∷ add32 (strlen path) 1 ∷ info ∷ (if not (info == 0) then info_size else 0) ∷ [])

  unfoldable pub f_open_dir_cmd : ℕ → Request
  f_open_dir_cmd path = request Commands.cmd9_fopen_dir (path ∷ add32 (strlen path) 1 ∷ [])

  unfoldable pub f_read_dir_cmd : ℕ → ℕ → ℕ → Request
  f_read_dir_cmd handle info num =
      request Commands.cmd9_fread_dir (info ∷ (info_size * num % u32_mod) ∷ handle ∷ num ∷ [])

  unfoldable pub f_mkdir_cmd : ℕ → Request
  f_mkdir_cmd path = request Commands.cmd9_fmkdir (path ∷ add32 (strlen path) 1 ∷ [])

  unfoldable pub f_rename_cmd : ℕ → ℕ → Request
  f_rename_cmd old new =
      request Commands.cmd9_frename (old ∷ add32 (strlen old) 1 ∷ new ∷ add32 (strlen new) 1 ∷ [])

  unfoldable pub f_unlink_cmd : ℕ → Request
  f_unlink_cmd path = request Commands.cmd9_funlink (path ∷ add32 (strlen path) 1 ∷ [])

  unfoldable pub f_verify_nand_image_cmd : ℕ → Request
  f_verify_nand_image_cmd path =
      request Commands.cmd9_fverify_nand_img (path ∷ add32 (strlen path) 1 ∷ [])

  unfoldable pub write_firm_partition_cmd : ℕ → Bool → Request
  write_firm_partition_cmd part replace_sig =
      request Commands.cmd9_write_firm_part (part ∷ add32 (strlen part) 1 ∷ bit replace_sig ∷ [])

  unfoldable pub load_verify_firm_cmd : ℕ → Bool → Request
  load_verify_firm_cmd path skip_hash_check =
      request Commands.cmd9_load_verify_firm
        (path ∷ add32 (strlen path) 1 ∷ bit skip_hash_check ∷ [])

  unfoldable pub load_verify_update_cmd : ℕ → ℕ → Request
  load_verify_update_cmd path version =
      request Commands.cmd9_load_verify_update (path ∷ add32 (strlen path) 1 ∷ version ∷ 4 ∷ [])
