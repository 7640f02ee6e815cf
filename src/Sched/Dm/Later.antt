-- ===== src/Sched/Dm/Later.antt =====
-- `schedule_dm` of Threading-Scheduler/threads_sched.c looks at one entry of the release queue.
use xv6_kernel_extensions.Prelude.{
  refl, ℕ, ℤ, false, List, ◌≡◌, Elem, arith, ◌<ℤ◌, ◌+ℤ◌, leb_ℤ, int_max, none, some,
}
use xv6_kernel_extensions.Sched.{Threads, ReleaseEntry}
use xv6_kernel_extensions.Sched.Deadline.{Precedes}
use xv6_kernel_extensions.Sched.Dm.{dm_slice, dm_preempts, next_arrival}
use xv6_kernel_extensions.Sched.Dm.Choice.{FirstEarliest, next_arrival-FirstEarliest}

not_preempts :
    (h : Threads) (a b : ℕ) → ¬ Precedes (λ th. (h th).deadline) h a b → dm_preempts h a b ≡ false
not_preempts h a b n = ground arith

-- If the first entry that is released earliest is still to come and does not precede the running
-- thread, then that thread gets exactly its remaining time, and so runs past the release of every
-- entry that is due in that time, although the thread released may precede it.
pub dm_slice_overruns :
    (h : Threads) (now : ℤ) (best : ℕ) (es : List ReleaseEntry) (e : ReleaseEntry)
    → FirstEarliest es e
    → now <ℤ e.release_time
    → ¬ Precedes (λ th. (h th).deadline) h e.thrd best
    → (dm_slice h now best (next_arrival int_max none es) ≡ (h best).remaining_time)
      × ((e' : ReleaseEntry)
          → Elem e' es
          → Precedes (λ th. (h th).deadline) h e'.thrd best
          → e'.release_time <ℤ now +ℤ (h best).remaining_time
          → e'.release_time <ℤ now +ℤ dm_slice h now best (next_arrival int_max none es))
dm_slice_overruns h now best es e f later n =
    rw (next_arrival-FirstEarliest es e f, slice) (refl, λ e' m p soon. soon)
  where
    slice : dm_slice h now best (e.release_time, some e) ≡ (h best).remaining_time
    slice =
        unfold dm_slice in
        let a : leb_ℤ e.release_time now ≡ false = ground arith in
        rw (a, not_preempts h e.thrd best n) (ground arith)
