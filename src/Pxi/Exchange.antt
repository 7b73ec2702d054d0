-- ===== src/Pxi/Exchange.antt =====
-- source/hardware/pxi.c: a command and its response, as the words that go through the two FIFOs.
use fastboot3ds.Base.{
  ℕ, ◌+◌, ◌*◌, ◌%◌, Bool, Option, none, some, List, [], ◌∷◌, ◌++◌, take, drop, length, ltb, ◌==◌,
  if◌then◌else◌,
}
use fastboot3ds.Pxi.Commands.{
  ipc_max_params, has_resp_flag, set_resp_flag, ipc_cmd_id_mask, ipc_cmd_in_bufs_mask,
  ipc_cmd_out_bufs_mask, ipc_cmd_params_mask,
}
use fastboot3ds.Pxi.Client.{Request}
use fastboot3ds.Pxi.Handler.{Call, handle_cmd}

-- The words of a command behind its first.
unfoldable pub cmd_words : ℕ → ℕ
cmd_words cmd_code =
    ipc_cmd_in_bufs_mask cmd_code * 2
    + ipc_cmd_out_bufs_mask cmd_code * 2
    + ipc_cmd_params_mask cmd_code

-- What a run of `pxiIrqHandler` does: it waits for words that do not come, it panics, or it ends,
-- with the words that it sent, those that are still in the FIFO, and `g_lastResp`.
pub data Handled (W : Type 0) : Type 0 where
  waits : Handled W
  panics : Handled W
  done : (sent left : List ℕ) (last_resp : ℕ × ℕ) (w : W) → Handled W

-- `g_lastResp` of each side, and the words in the FIFO to each side.
pub record Link : Type 0 where
  pub last9 : ℕ × ℕ
  pub last11 : ℕ × ℕ
  pub to9 : List ℕ
  pub to11 : List ℕ

-- Both FIFOs are empty.
abbrev pub empty_link : (last9 last11 : ℕ × ℕ) → Link
empty_link last9 last11 = record { last9 = last9; last11 = last11; to9 = []; to11 = [] }

-- `serve` runs the call, with a word as its result. `fifo_error` is the flag of the hardware, and
-- `stale` what the stack holds where the words are stored.
module _ {W : Type 0} (serve : Call → W → ℕ × W) (fifo_error : W → Bool) (stale : List ℕ) where
  unfoldable pub pxi_irq_handler : List ℕ → ℕ × ℕ → W → Handled W
  pxi_irq_handler [] last_resp w = waits
  pxi_irq_handler (cmd_code ∷ fifo) last_resp w =
      let words = cmd_words cmd_code in
      let buf = take words fifo ++ drop words stale in
      if has_resp_flag cmd_code == 1
      then elim fifo [ [] ↦ waits | res ∷ left ↦ done [] left (cmd_code, res) w ]
      else if ltb ipc_max_params words
      then panics
      else if ltb (length fifo) words
      then waits
      else if fifo_error w
      then panics
      else elim (handle_cmd (ipc_cmd_id_mask cmd_code % 256) buf) [
        | none ↦ panics
        | some call ↦
            let (res, w1) = serve call w in
            done (set_resp_flag cmd_code ∷ res ∷ []) (drop words fifo) last_resp w1
      ]

  -- `PXI_sendCmd` on the ARM11 with the two handlers. Each FIFO holds `capacity` words, and a side
  -- sends all its words before the other takes the first. Where `g_lastResp[0]` already has the
  -- command's response, the result is the one that is there, and the command is still in the FIFO.
  -- `none` is a panic, or a wait that this order of the steps does not end. The caches and the sleep
  -- in the wait are left out.
  unfoldable pub pxi_send_cmd : (capacity : ℕ) → Request → Link → W → Option (ℕ × Link × W)
  pxi_send_cmd capacity req link w =
      let sent9 = link.to9 ++ (req.cmd ∷ req.buf) in
      if ltb capacity (length sent9)
      then none
      else if fifo_error w
      then none
      else if link.last11.0 == set_resp_flag req.cmd
      then some (link.last11.1, record link { last11 = (0, link.last11.1); to9 = sent9 }, w)
      else elim (pxi_irq_handler sent9 link.last9 w) [
        | waits ↦ none
        | panics ↦ none
        | done sent left9 last9 w1 ↦
            let sent11 = link.to11 ++ sent in
            if ltb capacity (length sent11)
            then none
            else elim (pxi_irq_handler sent11 link.last11 w1) [
              | waits ↦ none
              | panics ↦ none
              | done sent' left11 last11 w2 ↦
                  if last11.0 == set_resp_flag req.cmd
                  then some (
                    last11.1,
                    record {
                      last9 = last9;
                      last11 = (0, last11.1);
                      to9 = left9 ++ sent';
                      to11 = left11;
                    },
                    w2,
                  )
                  else none
            ]
      ]
