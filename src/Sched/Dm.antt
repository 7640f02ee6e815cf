-- ===== src/Sched/Dm.antt =====
-- `schedule_dm` of Threading-Scheduler/threads_sched.c: the deadline-monotonic scheduler.
pub mod Choice
pub mod Later
use xv6_kernel_extensions.Prelude.{
  ℕ, ℤ, pos, Bool, List, [], ◌∷◌, Option, none, some, ltb_ℤ, leb_ℤ, eqb_ℤ, ◌+ℤ◌, ◌-ℤ◌,
  if◌then◌else◌, int_max, ◌||◌, ◌&&◌,
}
use xv6_kernel_extensions.Sched.{Threads, Args, Result, ReleaseEntry}
use xv6_kernel_extensions.Sched.Pick.{pick}
use xv6_kernel_extensions.Sched.SmallestId.{check_deadline_miss, every}
use xv6_kernel_extensions.Sched.PriorityRr.{is_empty}
use xv6_kernel_extensions.Sched.Deadline.{dm_thread_cmp, idle_until_release}

-- Step 3.
unfoldable pub dm_better : Threads → ℕ → ℕ → Bool
unfolding dm_thread_cmp
dm_better h a b = ltb_ℤ (pos 0) (dm_thread_cmp h a b)

-- Step 4: the entry that is released first, with its time.
unfoldable pub next_arrival : ℤ → Option ReleaseEntry → List ReleaseEntry → ℤ × Option ReleaseEntry
next_arrival t found [] = (t, found)
next_arrival t found (e ∷ es) =
    let sooner = ltb_ℤ e.release_time t in
    next_arrival (if sooner then e.release_time else t) (if sooner then some e else found) es

-- `next_thread` goes before `best_thread`.
abbrev pub dm_preempts : Threads → ℕ → ℕ → Bool
dm_preempts h next best =
    ltb_ℤ (h next).deadline (h best).deadline
    || (eqb_ℤ (h next).deadline (h best).deadline && ltb_ℤ (h next).id (h best).id)

-- Step 5.
unfoldable pub dm_slice : Threads → ℤ → ℕ → ℤ × Option ReleaseEntry → ℤ
dm_slice h now best (t, none) = (h best).remaining_time
dm_slice h now best (t, some e) =
    if leb_ℤ t now
    then pos 1
    else if ltb_ℤ t (now +ℤ (h best).remaining_time)
    then (if dm_preempts h e.thrd best
        then (if ltb_ℤ (pos 0) (t -ℤ now) then t -ℤ now else pos 1)
        else (h best).remaining_time)
    else (h best).remaining_time

-- Steps 3 to 5; `none` is the use of a null `best_thread`.
unfoldable pub dm_dispatch : Threads → Args → Option ℕ → Option Result
dm_dispatch h args none = none
dm_dispatch h args (some best) = some (record {
  member = some best;
  allocated_time = dm_slice h args.current_time best (next_arrival int_max none args.release_queue);
})

-- Steps 2 to 5: no deadline is missed.
unfoldable pub dm_on_time : Threads → Args → Option Result
dm_on_time h args =
    if is_empty args.run_queue
    then some (idle_until_release args.current_time args.release_queue)
    else dm_dispatch h args (pick every (dm_better h) args.run_queue)

unfoldable pub dm_check : Threads → Args → Option ℕ → Option Result
dm_check h args none = dm_on_time h args
dm_check h args (some missed) = some (record { member = some missed; allocated_time = pos 0 })

unfoldable pub schedule_dm : Threads → Args → Option Result
schedule_dm h args = dm_check h args (check_deadline_miss h args.run_queue args.current_time)
