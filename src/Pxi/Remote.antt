-- ===== src/Pxi/Remote.antt =====
-- A function that the ARM11 calls by a command is run on the ARM9 with the same arguments.
use fastboot3ds.Base.{
  ℕ, zero, suc, ◌%◌, ◌≤◌, ◌<◌, ◌≡◌, ◌≢◌, refl, Bool, true, false, some, List, [], ◌∷◌, ◌++◌, ◌==◌,
  length, take_all, drop, ltb, arith,
}
use fastboot3ds.Pxi.Commands
use fastboot3ds.Pxi.Commands.{ipc_max_params, has_resp_flag, set_resp_flag, ipc_cmd_id_mask}
use fastboot3ds.Pxi.Client.{Request, request}
use fastboot3ds.Pxi.Client
use fastboot3ds.Pxi.Handler.{Call, handle_cmd}
use fastboot3ds.Pxi.Exchange.{cmd_words, empty_link, pxi_irq_handler, pxi_send_cmd, done}

module _ (strlen : ℕ → ℕ) (info_size : ℕ) where
  -- The function of the ARM11 for a call.
  unfoldable pub request_of : Call → Request
  request_of (Call.mount drive) = Client.f_mount_cmd drive
  request_of (Call.unmount drive) = Client.f_unmount_cmd drive
  request_of (Call.is_drive_mounted drive) = Client.f_is_drive_mounted_cmd drive
  request_of (Call.get_free drive to) = Client.f_get_free_cmd drive to
  request_of (Call.get_device_size dev) = Client.f_get_device_size_cmd dev
  request_of (Call.is_dev_active dev) = Client.f_is_dev_active_cmd dev
  request_of (Call.prepare_raw_access dev) = Client.f_prepare_raw_access_cmd dev
  request_of (Call.finalize_raw_access handle) = Client.f_finalize_raw_access_cmd handle
  request_of (Call.create_device_buffer amount) = Client.f_create_device_buffer_cmd amount
  request_of (Call.free_device_buffer handle) = Client.f_free_device_buffer_cmd handle
  request_of (Call.read_to_device_buffer source offset amount handle) =
      Client.f_read_to_device_buffer_cmd source offset amount handle
  request_of (Call.write_from_device_buffer dest offset amount handle) =
      Client.fs_write_from_device_buffer_cmd dest offset amount handle
  request_of (Call.open_file path mode) = Client.f_open_cmd strlen info_size path mode
  request_of (Call.read_file handle to amount) = Client.f_read_cmd handle to amount
  request_of (Call.write_file handle from amount) = Client.f_write_cmd handle from amount
  request_of (Call.sync_file handle) = Client.f_sync_cmd handle
  request_of (Call.lseek_file handle offset) = Client.f_lseek_cmd handle offset
  request_of (Call.tell_file handle) = Client.f_tell_cmd handle
  request_of (Call.size_of_file handle) = Client.f_size_cmd handle
  request_of (Call.close_file handle) = Client.f_close_cmd handle
  request_of (Call.expand_file handle amount) = Client.f_expand_cmd handle amount
  request_of (Call.stat_path path info) = Client.f_stat_cmd strlen info_size path info
  request_of (Call.open_directory path) = Client.f_open_dir_cmd strlen info_size path
  request_of (Call.read_directory handle info num) =
      Client.f_read_dir_cmd strlen info_size handle info num
  request_of (Call.close_directory handle) = Client.f_close_dir_cmd handle
  request_of (Call.make_directory path) = Client.f_mkdir_cmd strlen info_size path
  request_of (Call.rename_path old new) = Client.f_rename_cmd strlen info_size old new
  request_of (Call.unlink_path path) = Client.f_unlink_cmd strlen info_size path
  request_of (Call.verify_nand_image path) = Client.f_verify_nand_image_cmd strlen info_size path
  request_of (Call.set_nand_protection protect) = Client.f_set_nand_protection_cmd protect
  request_of (Call.write_partition part replace_sig) =
      Client.write_firm_partition_cmd strlen info_size part replace_sig
  request_of (Call.load_firm path skip_hash_check) =
      Client.load_verify_firm_cmd strlen info_size path skip_hash_check
  request_of Call.start_firm_launch = Client.firm_launch_cmd
  request_of (Call.load_update path version) =
      Client.load_verify_update_cmd strlen info_size path version
  request_of Call.get_boot_env = request Commands.cmd9_get_boot_env []
  request_of (Call.switch_superhax enable) = Client.toggle_superhax_cmd enable
  request_of Call.deinit = request Commands.cmd9_prepare_power []

  -- The command of a function has the words that it names, fifteen at most, is no response, and
  -- `IPC_handleCmd` calls the function with the arguments that it had on the ARM11, whatever the
  -- stack held before.
  pub request_of-handle_cmd :
      (call : Call)
      → (cmd_words (request_of call).cmd ≡ length (request_of call).buf)
        × (length (request_of call).buf ≤ ipc_max_params)
        × (has_resp_flag (request_of call).cmd ≡ 0)
        × ((rest : List ℕ)
            → handle_cmd
                (ipc_cmd_id_mask (request_of call).cmd % 256)
                ((request_of call).buf ++ rest)
              ≡ some call)
  unfolding request_of cmd_words handle_cmd Client.f_close_cmd Client.f_close_dir_cmd
      Client.f_create_device_buffer_cmd Client.f_expand_cmd Client.f_finalize_raw_access_cmd
      Client.f_free_device_buffer_cmd Client.f_get_device_size_cmd Client.f_get_free_cmd
      Client.f_is_dev_active_cmd Client.f_is_drive_mounted_cmd Client.f_lseek_cmd Client.f_mkdir_cmd
      Client.f_mount_cmd Client.f_open_cmd Client.f_open_dir_cmd Client.f_prepare_raw_access_cmd
      Client.f_read_cmd Client.f_read_dir_cmd Client.f_read_to_device_buffer_cmd Client.f_rename_cmd
      Client.f_set_nand_protection_cmd Client.f_size_cmd Client.f_stat_cmd Client.f_sync_cmd
      Client.f_tell_cmd Client.f_unlink_cmd Client.f_unmount_cmd Client.f_verify_nand_image_cmd
      Client.f_write_cmd Client.firm_launch_cmd Client.fs_write_from_device_buffer_cmd
      Client.load_verify_firm_cmd Client.load_verify_update_cmd Client.toggle_superhax_cmd
      Client.write_firm_partition_cmd
  request_of-handle_cmd (Call.mount drive) = (refl, omega arith, refl, λ rest. refl)
  request_of-handle_cmd (Call.unmount drive) = (refl, omega arith, refl, λ rest. refl)
  request_of-handle_cmd (Call.is_drive_mounted drive) = (refl, omega arith, refl, λ rest. refl)
  request_of-handle_cmd (Call.get_free drive to) = (refl, omega arith, refl, λ rest. refl)
  request_of-handle_cmd (Call.get_device_size dev) = (refl, omega arith, refl, λ rest. refl)
  request_of-handle_cmd (Call.is_dev_active dev) = (refl, omega arith, refl, λ rest. refl)
  request_of-handle_cmd (Call.prepare_raw_access dev) = (refl, omega arith, refl, λ rest. refl)
  request_of-handle_cmd (Call.finalize_raw_access handle) = (refl, omega arith, refl, λ rest. refl)
  request_of-handle_cmd (Call.create_device_buffer amount) = (refl, omega arith, refl, λ rest. refl)
  request_of-handle_cmd (Call.free_device_buffer handle) = (refl, omega arith, refl, λ rest. refl)
  request_of-handle_cmd (Call.read_to_device_buffer source offset amount handle) =
      (refl, omega arith, refl, λ rest. refl)
  request_of-handle_cmd (Call.write_from_device_buffer dest offset amount handle) =
      (refl, omega arith, refl, λ rest. refl)
  request_of-handle_cmd (Call.open_file path mode) = (refl, omega arith, refl, λ rest. refl)
  request_of-handle_cmd (Call.read_file handle to amount) = (refl, omega arith, refl, λ rest. refl)
  request_of-handle_cmd (Call.write_file handle from amount) =
      (refl, omega arith, refl, λ rest. refl)
  request_of-handle_cmd (Call.sync_file handle) = (refl, omega arith, refl, λ rest. refl)
  request_of-handle_cmd (Call.lseek_file handle offset) = (refl, omega arith, refl, λ rest. refl)
  request_of-handle_cmd (Call.tell_file handle) = (refl, omega arith, refl, λ rest. refl)
  request_of-handle_cmd (Call.size_of_file handle) = (refl, omega arith, refl, λ rest. refl)
  request_of-handle_cmd (Call.close_file handle) = (refl, omega arith, refl, λ rest. refl)
  request_of-handle_cmd (Call.expand_file handle amount) = (refl, omega arith, refl, λ rest. refl)
  request_of-handle_cmd (Call.stat_path path info) = (refl, omega arith, refl, λ rest. refl)
  request_of-handle_cmd (Call.open_directory path) = (refl, omega arith, refl, λ rest. refl)
  request_of-handle_cmd (Call.read_directory handle info num) =
      (refl, omega arith, refl, λ rest. refl)
  request_of-handle_cmd (Call.close_directory handle) = (refl, omega arith, refl, λ rest. refl)
  request_of-handle_cmd (Call.make_directory path) = (refl, omega arith, refl, λ rest. refl)
  request_of-handle_cmd (Call.rename_path old new) = (refl, omega arith, refl, λ rest. refl)
  request_of-handle_cmd (Call.unlink_path path) = (refl, omega arith, refl, λ rest. refl)
  request_of-handle_cmd (Call.verify_nand_image path) = (refl, omega arith, refl, λ rest. refl)
  request_of-handle_cmd (Call.set_nand_protection true) = (refl, omega arith, refl, λ rest. refl)
  request_of-handle_cmd (Call.set_nand_protection false) = (refl, omega arith, refl, λ rest. refl)
  request_of-handle_cmd (Call.write_partition part true) = (refl, omega arith, refl, λ rest. refl)
  request_of-handle_cmd (Call.write_partition part false) = (refl, omega arith, refl, λ rest. refl)
  request_of-handle_cmd (Call.load_firm path true) = (refl, omega arith, refl, λ rest. refl)
  request_of-handle_cmd (Call.load_firm path false) = (refl, omega arith, refl, λ rest. refl)
  request_of-handle_cmd Call.start_firm_launch = (refl, omega arith, refl, λ rest. refl)
  request_of-handle_cmd (Call.load_update path version) = (refl, omega arith, refl, λ rest. refl)
  request_of-handle_cmd Call.get_boot_env = (refl, omega arith, refl, λ rest. refl)
  request_of-handle_cmd (Call.switch_superhax true) = (refl, omega arith, refl, λ rest. refl)
  request_of-handle_cmd (Call.switch_superhax false) = (refl, omega arith, refl, λ rest. refl)
  request_of-handle_cmd Call.deinit = (refl, omega arith, refl, λ rest. refl)

drop_all : (n : ℕ) (xs : List ℕ) → length xs ≤ n → drop n xs ≡ []
drop_all zero [] le = refl
drop_all zero (x ∷ xs) le = absurd (omega (arith, le))
drop_all (suc n) [] le = refl
drop_all (suc n) (x ∷ xs) le = drop_all n xs (omega (arith, le))

module _ {W : Type 0} (serve : Call → W → ℕ × W) (fifo_error : W → Bool) (stale : List ℕ)
    (req : Request) (call : Call) (last9 last11 : ℕ × ℕ) (w : W)
    (words : cmd_words req.cmd ≡ length req.buf) (few : length req.buf ≤ ipc_max_params)
    (plain : has_resp_flag req.cmd ≡ 0)
    (reads : (rest : List ℕ)
      → handle_cmd (ipc_cmd_id_mask req.cmd % 256) (req.buf ++ rest) ≡ some call)
    (fine : fifo_error w ≡ false) where
  -- The handler of the ARM9 takes the whole command.
  handler_serves :
      pxi_irq_handler serve fifo_error stale (req.cmd ∷ req.buf) last9 w
      ≡ done (set_resp_flag req.cmd ∷ (serve call w).0 ∷ []) [] last9 (serve call w).1
  unfolding pxi_irq_handler
  handler_serves =
      let flag : (has_resp_flag req.cmd == 1) ≡ false = ground (arith, plain) in
      let small : ltb ipc_max_params (cmd_words req.cmd) ≡ false = ground (arith, words, few) in
      let enough : ltb (length req.buf) (cmd_words req.cmd) ≡ false = ground (arith, words) in
      let all = take_all (cmd_words req.cmd) req.buf (omega (arith, words)) in
      let none_left = drop_all (cmd_words req.cmd) req.buf (omega (arith, words)) in
      rw (flag, small, enough, fine, all)
        (rw (reads (drop (cmd_words req.cmd) stale)) (rw none_left refl))

  -- The handler of the ARM11 takes the response.
  handler_takes :
      (w' : W)
      → pxi_irq_handler serve fifo_error stale
          (set_resp_flag req.cmd ∷ (serve call w).0 ∷ [])
          last11
          w'
        ≡ done [] [] (set_resp_flag req.cmd, (serve call w).0) w'
  unfolding pxi_irq_handler
  handler_takes w' =
      let flag : (has_resp_flag (set_resp_flag req.cmd) == 1) ≡ true = ground (arith, plain) in
      rw flag refl

  send_cmd_serves :
      (capacity : ℕ)
      → ipc_max_params < capacity
      → last11.0 ≢ set_resp_flag req.cmd
      → pxi_send_cmd serve fifo_error stale capacity req (empty_link last9 last11) w
        ≡ some ((serve call w).0, empty_link last9 (0, (serve call w).0), (serve call w).1)
  unfolding pxi_send_cmd
  send_cmd_serves capacity room other =
      let same : (set_resp_flag req.cmd == set_resp_flag req.cmd) ≡ true = ground arith in
      let none_yet : (last11.0 == set_resp_flag req.cmd) ≡ false = ground (arith, other) in
      let all : ltb capacity (length (req.cmd ∷ req.buf)) ≡ false = ground (arith, room, few) in
      let two : ltb capacity 2 ≡ false = ground (arith, room) in
      rw (all, fine, none_yet)
        (rw (pxi_send_cmd, handler_serves)
          (rw two (rw (handler_takes ((serve call w).1)) (rw same refl))))

-- A function that is called on the ARM11 while `g_lastResp` holds no response to it and the FIFOs
-- are empty comes back with the result of the same call on the ARM9, leaves the state that this call
-- leaves, resets `g_lastResp[0]`, and leaves the FIFOs empty, if the FIFO has no error and room for
-- a command.
pub remote_call :
    {W : Type 0} (strlen : ℕ → ℕ) (info_size : ℕ) (serve : Call → W → ℕ × W) (fifo_error : W → Bool)
    (stale : List ℕ) (capacity : ℕ) (call : Call) (last9 last11 : ℕ × ℕ) (w : W)
    → fifo_error w ≡ false
    → ipc_max_params < capacity
    → last11.0 ≢ set_resp_flag (request_of strlen info_size call).cmd
    → pxi_send_cmd serve fifo_error stale capacity
        (request_of strlen info_size call)
        (empty_link last9 last11)
        w
      ≡ some ((serve call w).0, empty_link last9 (0, (serve call w).0), (serve call w).1)
remote_call strlen info_size serve fifo_error stale capacity call last9 last11 w fine room other =
    let (words, few, plain, reads) = request_of-handle_cmd strlen info_size call in
    send_cmd_serves serve fifo_error stale (request_of strlen info_size call) call last9 last11 w
      words few plain reads fine capacity room other
