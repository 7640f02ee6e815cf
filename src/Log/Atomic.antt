-- ===== src/Log/Atomic.antt =====
-- What FileSystem-RAID/kernel/log.c promises: a transaction is on the disk as a whole, or not at all.
use xv6_kernel_extensions.Prelude.{ℕ, ◌+◌, ◌*◌, ◌≤◌, ◌<◌, List, [], ◌∷◌, length, ◌≡◌, All}
use xv6_kernel_extensions.Log.{Block, Store, Log, commit}
use xv6_kernel_extensions.Log.Writes.{Outside}
use xv6_kernel_extensions.Log.Crash.{CrashState, Settled, Installed}
use xv6_kernel_extensions.Log.Replay.{
  recover, commit-CrashState, commit-Installed, recover-CrashState, recover-Settled,
}

-- Recoveries one after the other, each cut off after some of its writes.
abbrev pub recoveries : ℕ → ℕ → List ℕ → (ℕ → Block) → ℕ → Block
recoveries st size [] e = e
recoveries st size (p ∷ ps) e = recoveries st size ps (recover st size p e)

module _ (st size : ℕ) (bs : List ℕ) (c d : ℕ → Block)
    (homes : All (Outside st (st + 1 + length bs)) bs) where
  recoveries-CrashState :
      (ps : List ℕ) (e : ℕ → Block)
      → CrashState st bs c d e
      → CrashState st bs c d (recoveries st size ps e)
  recoveries-CrashState [] e k = k
  recoveries-CrashState (p ∷ ps) e k =
      recoveries-CrashState ps (recover st size p e) (recover-CrashState st size bs c d homes p e k)

-- If no block of the transaction lies in the log and the header on the disk is clear, then after a
-- commit cut off after any number of its disk writes, any number of recoveries that are cut off
-- too, and a recovery with the power for its writes, the header is clear, and either every block
-- outside of the log is as before the commit, or the transaction's blocks are as in the cache and
-- the other blocks outside of the log as before.
pub crash_atomic :
    (log : Log) (s : Store) (ps : List ℕ) (p : ℕ)
    → All (Outside log.start (log.start + 1 + length log.blocks)) log.blocks
    → s.disk log.start 0 ≡ 0
    → length log.blocks < p
    → Settled log.start log.blocks s.cached s.disk
        (recover log.start log.size p (recoveries log.start log.size ps ((commit log s).1.disk)))
crash_atomic log s ps p homes h k =
    recover-Settled log.start log.size log.blocks s.cached s.disk homes p
      (recoveries log.start log.size ps ((commit log s).1.disk)) k
      (recoveries-CrashState log.start log.size log.blocks s.cached s.disk homes ps
        ((commit log s).1.disk)
        (commit-CrashState log.start log.size log.outstanding log.committing log.blocks s homes h))

-- If no block of the transaction lies in the log and the header on the disk is clear, a commit that
-- no crash cuts off leaves the header clear, the transaction's blocks on the disk as in the cache
-- and the other blocks outside of the log as before.
pub commit-Installed_lem :
    (log : Log) (s : Store)
    → All (Outside log.start (log.start + 1 + length log.blocks)) log.blocks
    → s.disk log.start 0 ≡ 0
    → 2 * length log.blocks + 2 ≤ s.power
    → Installed log.start log.blocks s.cached s.disk ((commit log s).1.disk)
commit-Installed_lem log s homes h k =
    commit-Installed log.start log.size log.outstanding log.committing log.blocks s homes h k
