-- ===== src/Log/Tests.antt =====
-- The theorems of FileSystem-RAID/kernel/log.c at concrete inputs.
use xv6_kernel_extensions.Prelude.{ℕ, ◌<◌, [], ◌∷◌, ◌≡◌, refl, Bool, true, false, arith, inr, All}
use xv6_kernel_extensions.Log.{
  Log, Store, returns, commit, begin_op, log_write, absorb, end_op_locked, recover_from_log,
  write_head, write_block, install_trans, read_head, write_log, header,
}
use xv6_kernel_extensions.Log.Writes.{Outside}
use xv6_kernel_extensions.Log.Crash.{Settled, Installed}
use xv6_kernel_extensions.Log.Replay.{recover}
use xv6_kernel_extensions.Log.Atomic.{recoveries, crash_atomic, commit-Installed_lem}
use xv6_kernel_extensions.Log.Space.{Reach, boots, begins, reserved_space}

-- Blocks 40 and 41 are to be committed; the disk has zeroes, the cache the numbers of the blocks.
abbrev two_blocks : Log
two_blocks = record {
  start = 2;
  size = 31;
  outstanding = 0;
  committing = true;
  blocks = 40 ∷ 41 ∷ [];
}

abbrev machine : ℕ → Store
machine p = record { cached = λ b i. b; disk = λ b i. 0; power = p }

abbrev homes_outside : All (Outside 2 5) (40 ∷ 41 ∷ [])
homes_outside = (inr (omega arith), (inr (omega arith), tt))

crash_atomic_example :
    Settled 2
      (40 ∷ 41 ∷ [])
      (λ b i. b)
      (λ b i. 0)
      (recover 2 31 3 (recoveries 2 31 (1 ∷ 0 ∷ []) ((commit two_blocks (machine 4)).1.disk)))
crash_atomic_example =
    crash_atomic two_blocks (machine 4) (1 ∷ 0 ∷ []) 3 homes_outside refl (omega arith)

commit-Installed_example :
    Installed 2 (40 ∷ 41 ∷ []) (λ b i. b) (λ b i. 0) ((commit two_blocks (machine 6)).1.disk)
commit-Installed_example =
    commit-Installed_lem two_blocks (machine 6) homes_outside refl (omega arith)

-- After four writes of six the header is on the disk: the transaction is installed by the recovery.
installed_late : recover 2 31 3 ((commit two_blocks (machine 4)).1.disk) 41 7 ≡ 41
unfolding commit recover_from_log write_head write_block install_trans read_head write_log header
installed_late = refl

-- After two it is not.
dropped_early : recover 2 31 3 ((commit two_blocks (machine 2)).1.disk) 41 7 ≡ 0
unfolding commit recover_from_log write_head write_block install_trans read_head write_log header
dropped_early = refl

-- One call in progress.
abbrev one_call : Log
one_call = record { start = 2; size = 31; outstanding = 1; committing = false; blocks = [] }

one_call_begun :
    begin_op (record { start = 2; size = 31; outstanding = 0; committing = false; blocks = [] })
    ≡ returns one_call
unfolding begin_op
one_call_begun = refl

one_call-Reach : Reach 31 one_call (machine 0) (0 ∷ [])
one_call-Reach = begins _ one_call (machine 0) [] (boots 2 (machine 0)) one_call_begun

reserved_space_example :
    ((b : ℕ) → 0 < 10 → log_write b one_call ≡ returns (record one_call { blocks = absorb b [] }))
    × ((next : Log × Bool) × (end_op_locked one_call ≡ returns next))
reserved_space_example = reserved_space 31 one_call (machine 0) [] [] 0 (omega arith) one_call-Reach
