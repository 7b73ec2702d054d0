-- ===== src/Pxi/Tests.antt =====
-- Two reads of a file that are called on the ARM11, one after the other.
use fastboot3ds.Base.{ℕ, ◌+◌, ◌≡◌, refl, false, some, List, [], ◌∷◌, arith}
use fastboot3ds.Pxi.Handler.{Call}
use fastboot3ds.Pxi.Exchange.{empty_link}
use fastboot3ds.Pxi.Sequence.{local_calls, remote_run, remote_calls}

-- The state is the number of bytes that were read, and a read gives that number.
serve : Call → ℕ → ℕ × ℕ
serve (Call.read_file handle to amount) w = (w + amount, w + amount)
serve call w = (1, w)

abbrev two_reads : List Call
two_reads = Call.read_file 2 0x20000000 512 ∷ Call.read_file 2 0x20000200 512 ∷ []

remote_calls_example :
    remote_run
      (λ p. 4)
      0x120
      serve
      (λ w. false)
      (7 ∷ 7 ∷ [])
      16
      two_reads
      (empty_link (0, 0) (0, 3))
      100
    ≡ some (local_calls serve two_reads 100)
remote_calls_example =
    remote_calls (λ p. 4) 0x120 serve (λ w. false) (7 ∷ 7 ∷ []) 16 two_reads (0, 0) (0, 3) 100
      (λ u. refl) (omega arith) refl
