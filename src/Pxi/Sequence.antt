-- ===== src/Pxi/Sequence.antt =====
-- Functions that the ARM11 calls one after the other.
use fastboot3ds.Base.{ℕ, ◌≤◌, ◌≡◌, ◌≢◌, refl, Bool, false, Option, none, some, List, [], ◌∷◌, arith}
use fastboot3ds.Pxi.Commands.{has_resp_flag, set_resp_flag}
use fastboot3ds.Pxi.Handler.{Call}
use fastboot3ds.Pxi.Exchange.{Link, empty_link, pxi_send_cmd}
use fastboot3ds.Pxi.Remote.{request_of, request_of-handle_cmd, remote_call}

-- The calls on the ARM9 itself: their results, and the state that they leave.
pub local_calls : {W : Type 0} → (Call → W → ℕ × W) → List Call → W → List ℕ × W
local_calls serve [] w = ([], w)
local_calls serve (call ∷ calls) w =
    let (res, w1) = serve call w in let (rest, w2) = local_calls serve calls w1 in (res ∷ rest, w2)

module _ {W : Type 0} (strlen : ℕ → ℕ) (info_size : ℕ) (serve : Call → W → ℕ × W)
    (fifo_error : W → Bool) (stale : List ℕ) (capacity : ℕ) where
  -- The same from the ARM11, each call with the `g_lastResp` and the words in the FIFOs that
  -- the one before it left.
  pub remote_run : List Call → Link → W → Option (List ℕ × W)
  remote_run [] link w = some ([], w)
  remote_run (call ∷ calls) link w =
      elim (pxi_send_cmd serve fifo_error stale capacity (request_of strlen info_size call) link
        w) [
          | none ↦ none
          | some (res, link', w1) ↦ elim (remote_run calls link' w1) [
            | none ↦ none
            | some (rest, w2) ↦ some (res ∷ rest, w2)
          ]
        ]

  response_not_zero : (cmd : ℕ) → has_resp_flag cmd ≡ 0 → 0 ≢ set_resp_flag cmd
  response_not_zero cmd plain e = omega (arith, plain, e)

  -- Calls that are made one after the other on the ARM11, beginning with a `g_lastResp[0]` of 0
  -- and empty FIFOs, come back with the results of the same calls on the ARM9 and leave the state that these leave,
  -- also where a function is called again. None of them takes the response of an earlier call for
  -- its own. This holds if the FIFOs never have an error and hold 16 words or more.
  pub remote_calls :
      (calls : List Call) (last9 last11 : ℕ × ℕ) (w : W)
      → ((u : W) → fifo_error u ≡ false)
      → 16 ≤ capacity
      → last11.0 ≡ 0
      → remote_run calls (empty_link last9 last11) w ≡ some (local_calls serve calls w)
  unfolding remote_run local_calls
  remote_calls [] last9 last11 w fine room start = refl
  remote_calls (call ∷ calls) last9 last11 w fine room start =
      let (words, few, plain, reads) = request_of-handle_cmd strlen info_size call in
      let other : last11.0 ≢ set_resp_flag (request_of strlen info_size call).cmd =
        rw start (response_not_zero (request_of strlen info_size call).cmd plain) in
      let once =
        remote_call strlen info_size serve fifo_error stale capacity call last9 last11 w (fine w)
          (omega (arith, room)) other in
      let then_rest =
        remote_calls calls last9 (0, (serve call w).0) (serve call w).1 fine room refl in
      rw (remote_run, once) (rw then_rest refl)
