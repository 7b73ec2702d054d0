-- ===== src/Pxi/Handler.antt =====
-- source/arm9/ipc_handler.c: the call that a command stands for.
use fastboot3ds.Base.{ℕ, Bool, not, Option, none, some, List, get_or, ◌==◌, if◌then◌else◌}
use fastboot3ds.Pxi.Commands

-- A call of a function of the ARM9 with its arguments, words of 32 bits; a pointer is an address.
-- The last three are the flag of the firmware launch, the register of the boot environment and
-- `fsDeinit`.
pub data Call : Type 0 where
  mount : ℕ → Call
  unmount : ℕ → Call
  is_drive_mounted : ℕ → Call
  get_free : ℕ → ℕ → Call
  get_device_size : ℕ → Call
  is_dev_active : ℕ → Call
  prepare_raw_access : ℕ → Call
  finalize_raw_access : ℕ → Call
  create_device_buffer : ℕ → Call
  free_device_buffer : ℕ → Call
  read_to_device_buffer : ℕ → ℕ → ℕ → ℕ → Call
  write_from_device_buffer : ℕ → ℕ → ℕ → ℕ → Call
  open_file : ℕ → ℕ → Call
  read_file : ℕ → ℕ → ℕ → Call
  write_file : ℕ → ℕ → ℕ → Call
  sync_file : ℕ → Call
  lseek_file : ℕ → ℕ → Call
  tell_file : ℕ → Call
  size_of_file : ℕ → Call
  close_file : ℕ → Call
  expand_file : ℕ → ℕ → Call
  stat_path : ℕ → ℕ → Call
  open_directory : ℕ → Call
  read_directory : ℕ → ℕ → ℕ → Call
  close_directory : ℕ → Call
  make_directory : ℕ → Call
  rename_path : ℕ → ℕ → Call
  unlink_path : ℕ → Call
  verify_nand_image : ℕ → Call
  set_nand_protection : Bool → Call
  write_partition : ℕ → Bool → Call
  load_firm : ℕ → Bool → Call
  load_update : ℕ → ℕ → Call
  switch_superhax : Bool → Call
  start_firm_launch : Call
  get_boot_env : Call
  deinit : Call

-- `buf[i]`
abbrev word : ℕ → List ℕ → ℕ
word i buf = get_or buf i 0

-- `IPC_handleCmd` up to the call; `none` is the panic. The cache is not part of the state.
unfoldable pub handle_cmd : ℕ → List ℕ → Option Call
handle_cmd cmd_id buf =
    if cmd_id == Commands.ipc_cmd_id_mask Commands.cmd9_fmount
    then some (Call.mount (word 0 buf))
    else if cmd_id == Commands.ipc_cmd_id_mask Commands.cmd9_funmount
    then some (Call.unmount (word 0 buf))
    else if cmd_id == Commands.ipc_cmd_id_mask Commands.cmd9_fis_drive_mounted
    then some (Call.is_drive_mounted (word 0 buf))
    else if cmd_id == Commands.ipc_cmd_id_mask Commands.cmd9_fgetfree
    then some (Call.get_free (word 2 buf) (word 0 buf))
    else if cmd_id == Commands.ipc_cmd_id_mask Commands.cmd9_fget_dev_size
    then some (Call.get_device_size (word 0 buf))
    else if cmd_id == Commands.ipc_cmd_id_mask Commands.cmd9_fis_dev_active
    then some (Call.is_dev_active (word 0 buf))
    else if cmd_id == Commands.ipc_cmd_id_mask Commands.cmd9_fprep_raw_access
    then some (Call.prepare_raw_access (word 0 buf))
    else if cmd_id == Commands.ipc_cmd_id_mask Commands.cmd9_ffinal_raw_access
    then some (Call.finalize_raw_access (word 0 buf))
    else if cmd_id == Commands.ipc_cmd_id_mask Commands.cmd9_fcreate_dev_buf
    then some (Call.create_device_buffer (word 0 buf))
    else if cmd_id == Commands.ipc_cmd_id_mask Commands.cmd9_ffree_dev_buf
    then some (Call.free_device_buffer (word 0 buf))
    else if cmd_id == Commands.ipc_cmd_id_mask Commands.cmd9_fread_to_dev_buf
    then some (Call.read_to_device_buffer (word 0 buf) (word 1 buf) (word 2 buf) (word 3 buf))
    else if cmd_id == Commands.ipc_cmd_id_mask Commands.cmd9_fwrite_from_dev_buf
    then some (Call.write_from_device_buffer (word 0 buf) (word 1 buf) (word 2 buf) (word 3 buf))
    else if cmd_id == Commands.ipc_cmd_id_mask Commands.cmd9_fopen
    then some (Call.open_file (word 0 buf) (word 2 buf))
    else if cmd_id == Commands.ipc_cmd_id_mask Commands.cmd9_fread
    then some (Call.read_file (word 2 buf) (word 0 buf) (word 1 buf))
    else if cmd_id == Commands.ipc_cmd_id_mask Commands.cmd9_fwrite
    then some (Call.write_file (word 2 buf) (word 0 buf) (word 1 buf))
    else if cmd_id == Commands.ipc_cmd_id_mask Commands.cmd9_fsync
    then some (Call.sync_file (word 0 buf))
    else if cmd_id == Commands.ipc_cmd_id_mask Commands.cmd9_flseek
    then some (Call.lseek_file (word 0 buf) (word 1 buf))
    else if cmd_id == Commands.ipc_cmd_id_mask Commands.cmd9_ftell
    then some (Call.tell_file (word 0 buf))
    else if cmd_id == Commands.ipc_cmd_id_mask Commands.cmd9_fsize
    then some (Call.size_of_file (word 0 buf))
    else if cmd_id == Commands.ipc_cmd_id_mask Commands.cmd9_fclose
    then some (Call.close_file (word 0 buf))
    else if cmd_id == Commands.ipc_cmd_id_mask Commands.cmd9_fexpand
    then some (Call.expand_file (word 0 buf) (word 1 buf))
    else if cmd_id == Commands.ipc_cmd_id_mask Commands.cmd9_fstat
    then some (Call.stat_path (word 0 buf) (word 2 buf))
    else if cmd_id == Commands.ipc_cmd_id_mask Commands.cmd9_fopen_dir
    then some (Call.open_directory (word 0 buf))
    else if cmd_id == Commands.ipc_cmd_id_mask Commands.cmd9_fread_dir
    then some (Call.read_directory (word 2 buf) (word 0 buf) (word 3 buf))
    else if cmd_id == Commands.ipc_cmd_id_mask Commands.cmd9_fclose_dir
    then some (Call.close_directory (word 0 buf))
    else if cmd_id == Commands.ipc_cmd_id_mask Commands.cmd9_fmkdir
    then some (Call.make_directory (word 0 buf))
    else if cmd_id == Commands.ipc_cmd_id_mask Commands.cmd9_frename
    then some (Call.rename_path (word 0 buf) (word 2 buf))
    else if cmd_id == Commands.ipc_cmd_id_mask Commands.cmd9_funlink
    then some (Call.unlink_path (word 0 buf))
    else if cmd_id == Commands.ipc_cmd_id_mask Commands.cmd9_fverify_nand_img
    then some (Call.verify_nand_image (word 0 buf))
    else if cmd_id == Commands.ipc_cmd_id_mask Commands.cmd9_fset_nand_prot
    then some (Call.set_nand_protection (not (word 0 buf == 0)))
    else if cmd_id == Commands.ipc_cmd_id_mask Commands.cmd9_write_firm_part
    then some (Call.write_partition (word 0 buf) (not (word 2 buf == 0)))
    else if cmd_id == Commands.ipc_cmd_id_mask Commands.cmd9_load_verify_firm
    then some (Call.load_firm (word 0 buf) (not (word 2 buf == 0)))
    else if cmd_id == Commands.ipc_cmd_id_mask Commands.cmd9_firm_launch
    then some Call.start_firm_launch
    else if cmd_id == Commands.ipc_cmd_id_mask Commands.cmd9_load_verify_update
    then some (Call.load_update (word 0 buf) (word 2 buf))
    else if cmd_id == Commands.ipc_cmd_id_mask Commands.cmd9_get_boot_env
    then some Call.get_boot_env
    else if cmd_id == Commands.ipc_cmd_id_mask Commands.cmd9_toggle_superhax
    then some (Call.switch_superhax (not (word 0 buf == 0)))
    else if cmd_id == Commands.ipc_cmd_id_mask Commands.cmd9_prepare_power
    then some Call.deinit
    else if cmd_id == Commands.ipc_cmd_id_mask Commands.cmd9_panic
    then some Call.deinit
    else if cmd_id == Commands.ipc_cmd_id_mask Commands.cmd9_exception
    then some Call.deinit
    else none
