-- ===== src/Pxi/Commands.antt =====
-- include/ipc_handler.h: the words that name the commands of the ARM9.
use fastboot3ds.Base.{ℕ, ◌+◌, ◌-◌, ◌*◌, ◌/◌, ◌%◌, ◌^◌}

abbrev pub ipc_max_params : ℕ
ipc_max_params = 15

-- `IPC_CMD_RESP_FLAG` in a word.
abbrev pub has_resp_flag : ℕ → ℕ
has_resp_flag word = word / 2 ^ 15 % 2

abbrev pub set_resp_flag : ℕ → ℕ
set_resp_flag word = word + (1 - has_resp_flag word) * 2 ^ 15

abbrev pub ipc_cmd_id_mask : ℕ → ℕ
ipc_cmd_id_mask cmd = cmd / 2 ^ 8

abbrev pub ipc_cmd_in_bufs_mask : ℕ → ℕ
ipc_cmd_in_bufs_mask cmd = cmd / 2 ^ 6 % 4

abbrev pub ipc_cmd_out_bufs_mask : ℕ → ℕ
ipc_cmd_out_bufs_mask cmd = cmd / 2 ^ 4 % 4

abbrev pub ipc_cmd_params_mask : ℕ → ℕ
ipc_cmd_params_mask cmd = cmd % 16

-- The parts do not overlap.
abbrev pub make_cmd : ℕ → ℕ → ℕ → ℕ → ℕ
make_cmd id in_bufs out_bufs params = id * 2 ^ 8 + in_bufs * 2 ^ 6 + out_bufs * 2 ^ 4 + params

abbrev pub cmd9_fmount : ℕ
cmd9_fmount = make_cmd 0 0 0 1

abbrev pub cmd9_funmount : ℕ
cmd9_funmount = make_cmd 1 0 0 1

abbrev pub cmd9_fis_drive_mounted : ℕ
cmd9_fis_drive_mounted = make_cmd 2 0 0 1

abbrev pub cmd9_fgetfree : ℕ
cmd9_fgetfree = make_cmd 3 0 1 1

abbrev pub cmd9_fget_dev_size : ℕ
cmd9_fget_dev_size = make_cmd 4 0 0 1

abbrev pub cmd9_fis_dev_active : ℕ
cmd9_fis_dev_active = make_cmd 5 0 0 1

abbrev pub cmd9_fprep_raw_access : ℕ
cmd9_fprep_raw_access = make_cmd 6 0 0 1

abbrev pub cmd9_ffinal_raw_access : ℕ
cmd9_ffinal_raw_access = make_cmd 7 0 0 1

abbrev pub cmd9_fcreate_dev_buf : ℕ
cmd9_fcreate_dev_buf = make_cmd 8 0 0 1

abbrev pub cmd9_ffree_dev_buf : ℕ
cmd9_ffree_dev_buf = make_cmd 9 0 0 1

abbrev pub cmd9_fread_to_dev_buf : ℕ
cmd9_fread_to_dev_buf = make_cmd 10 0 0 4

abbrev pub cmd9_fwrite_from_dev_buf : ℕ
cmd9_fwrite_from_dev_buf = make_cmd 11 0 0 4

abbrev pub cmd9_fopen : ℕ
cmd9_fopen = make_cmd 12 1 0 1

abbrev pub cmd9_fread : ℕ
cmd9_fread = make_cmd 13 0 1 1

abbrev pub cmd9_fwrite : ℕ
cmd9_fwrite = make_cmd 14 1 0 1

abbrev pub cmd9_fsync : ℕ
cmd9_fsync = make_cmd 15 0 0 1

abbrev pub cmd9_flseek : ℕ
cmd9_flseek = make_cmd 16 0 0 2

abbrev pub cmd9_ftell : ℕ
cmd9_ftell = make_cmd 17 0 0 1

abbrev pub cmd9_fsize : ℕ
cmd9_fsize = make_cmd 18 0 0 1

abbrev pub cmd9_fclose : ℕ
cmd9_fclose = make_cmd 19 0 0 1

abbrev pub cmd9_fexpand : ℕ
cmd9_fexpand = make_cmd 20 0 0 2

abbrev pub cmd9_fstat : ℕ
cmd9_fstat = make_cmd 21 1 1 0

abbrev pub cmd9_fopen_dir : ℕ
cmd9_fopen_dir = make_cmd 22 1 0 0

abbrev pub cmd9_fread_dir : ℕ
cmd9_fread_dir = make_cmd 23 0 1 2

abbrev pub cmd9_fclose_dir : ℕ
cmd9_fclose_dir = make_cmd 24 0 0 1

abbrev pub cmd9_fmkdir : ℕ
cmd9_fmkdir = make_cmd 25 1 0 0

abbrev pub cmd9_frename : ℕ
cmd9_frename = make_cmd 26 2 0 0

abbrev pub cmd9_funlink : ℕ
cmd9_funlink = make_cmd 27 1 0 0

abbrev pub cmd9_fverify_nand_img : ℕ
cmd9_fverify_nand_img = make_cmd 28 1 0 0

abbrev pub cmd9_fset_nand_prot : ℕ
cmd9_fset_nand_prot = make_cmd 29 0 0 1

abbrev pub cmd9_write_firm_part : ℕ
cmd9_write_firm_part = make_cmd 30 1 0 1

abbrev pub cmd9_load_verify_firm : ℕ
cmd9_load_verify_firm = make_cmd 31 1 0 1

abbrev pub cmd9_firm_launch : ℕ
cmd9_firm_launch = make_cmd 32 0 0 0

abbrev pub cmd9_load_verify_update : ℕ
cmd9_load_verify_update = make_cmd 33 1 1 0

abbrev pub cmd9_get_boot_env : ℕ
cmd9_get_boot_env = make_cmd 34 0 0 0

abbrev pub cmd9_toggle_superhax : ℕ
cmd9_toggle_superhax = make_cmd 35 0 0 1

abbrev pub cmd9_prepare_power : ℕ
cmd9_prepare_power = make_cmd 36 0 0 0

abbrev pub cmd9_panic : ℕ
cmd9_panic = make_cmd 37 0 0 0

abbrev pub cmd9_exception : ℕ
cmd9_exception = make_cmd 38 0 0 0
