-- ===== src/Sched/Tests.antt =====
-- Runs of the schedulers of Threading-Scheduler/threads_sched.c on small queues.
use xv6_kernel_extensions.Prelude.{
  ℕ, pos, true, false, List, [], ◌∷◌, Option, none, some, ◌≡◌, refl, update, arith, inl, inr, Elem,
  int_max, ◌<ℤ◌, ◌+ℤ◌, ◌*ℤ◌, ◌-ℤ◌, FitsInt,
}
use xv6_kernel_extensions.Links.{list_move_tail, list_move_tail-split}
use xv6_kernel_extensions.Sched.{Thread, Threads, Args, Result, ReleaseEntry}
use xv6_kernel_extensions.Sched.SmallestId.{
  schedule_default, DefaultChoice, schedule_default-DefaultChoice,
}
use xv6_kernel_extensions.Sched.Hrrn.{
  schedule_hrrn, hrrn_loop, hrrn_step, hrrn_result, ratio_numerator, ratio_denominator,
}
use xv6_kernel_extensions.Sched.Hrrn.Best.{HrrnChoice, schedule_hrrn-HrrnChoice}
use xv6_kernel_extensions.Sched.Hrrn.Overflow.{ratio_fits}
use xv6_kernel_extensions.Sched.PriorityRr.{schedule_priority_rr}
use xv6_kernel_extensions.Sched.PriorityRr.Choice.{RrOutcome, schedule_priority_rr-RrOutcome}
use xv6_kernel_extensions.Sched.Deadline.{
  Precedes, idle_until_release, Idle, idle_until_release-Idle,
}
use xv6_kernel_extensions.Sched.Dm.{schedule_dm, dm_slice, next_arrival}
use xv6_kernel_extensions.Sched.Dm.Choice.{DmChoice, schedule_dm-DmChoice}
use xv6_kernel_extensions.Sched.Dm.Later.{dm_slice_overruns}
use xv6_kernel_extensions.Sched.Edf.{edf_loop, edf_slice}
use xv6_kernel_extensions.Sched.Edf.Loop.{LoopDone, edf_loop_ends}
use xv6_kernel_extensions.Sched.Edf.Slice.{EdfSlice, edf_slice-EdfSlice}

-- A hard real-time thread that has run for a while.
abbrev hard : Thread
hard = record {
  id = pos 1;
  priority = pos 3;
  processing_time = pos 4;
  arrival_time = pos 0;
  remaining_time = pos 4;
  deadline = pos 10;
  period = pos 10;
  current_deadline = pos 30;
  cbs = record {
    is_hard_rt = true;
    is_throttled = false;
    budget = pos 0;
    remaining_budget = pos 0;
    throttled_arrived_time = pos 0;
  };
}

-- A soft thread, whose budget is too large for the time until its deadline.
abbrev soft : Thread
soft = record hard {
  id = pos 2;
  processing_time = pos 2;
  deadline = pos 20;
  current_deadline = pos 21;
  cbs = record (hard.cbs) { is_hard_rt = false; budget = pos 3; remaining_budget = pos 3 };
}

abbrev urgent : Thread
urgent = record hard { id = pos 0; deadline = pos 5; current_deadline = pos 25 }

abbrev threads : Threads
threads = update (update (λ p. hard) 2 soft) 3 urgent

abbrev two : Args
two = record { current_time = pos 20; run_queue = 1 ∷ 2 ∷ []; release_queue = [] }

-- `soft` is released before `urgent`, both while `hard` runs.
abbrev releases : List ReleaseEntry
releases =
    record { release_time = pos 21; thrd = 2 } ∷ record { release_time = pos 22; thrd = 3 } ∷ []

abbrev arriving : Args
arriving = record two { run_queue = 1 ∷ []; release_queue = releases }

soft_ran : schedule_hrrn threads two ≡ record { member = some 2; allocated_time = pos 4 }
unfolding schedule_hrrn hrrn_loop hrrn_step hrrn_result ◌*ℤ◌ ◌+ℤ◌ ◌-ℤ◌
soft_ran = refl

schedule_default_example : DefaultChoice threads (1 ∷ 2 ∷ []) (schedule_default threads two)
schedule_default_example = schedule_default-DefaultChoice threads two

schedule_hrrn_example : HrrnChoice threads (pos 20) (1 ∷ 2 ∷ []) (schedule_hrrn threads two)
schedule_hrrn_example = schedule_hrrn-HrrnChoice threads two (omega arith)

ratio_fits_example :
    FitsInt (ratio_numerator threads (pos 20) 1)
    × FitsInt (ratio_numerator threads (pos 20) 1 *ℤ ratio_denominator threads 2)
ratio_fits_example = ratio_fits threads (pos 20) 1 2 (omega arith) (omega arith) (omega arith)

schedule_priority_rr_example :
    (out : Result × List ℕ) × (schedule_priority_rr list_move_tail threads two ≡ some out)
    × RrOutcome threads (1 ∷ 2 ∷ []) out
schedule_priority_rr_example =
    schedule_priority_rr-RrOutcome list_move_tail list_move_tail-split threads (pos 20) []
      (1 ∷ 2 ∷ []) (omega arith)

idle_until_release_example : Idle (pos 20) releases (idle_until_release (pos 20) releases)
idle_until_release_example = idle_until_release-Idle (pos 20) releases

schedule_dm_example :
    (r : Result) × (schedule_dm threads arriving ≡ some r) × DmChoice threads arriving r
schedule_dm_example = schedule_dm-DmChoice threads arriving

dm_slice_overruns_example :
    (dm_slice threads (pos 20) 1 (next_arrival int_max none releases) ≡ pos 4)
    × ((e : ReleaseEntry)
        → Elem e releases
        → Precedes (λ th. (threads th).deadline) threads e.thrd 1
        → e.release_time <ℤ pos 20 +ℤ pos 4
        → e.release_time
          <ℤ pos 20 +ℤ dm_slice threads (pos 20) 1 (next_arrival int_max none releases))
unfolding ◌+ℤ◌
dm_slice_overruns_example =
    dm_slice_overruns threads (pos 20) 1 releases (record { release_time = pos 21; thrd = 2 })
      (record {
        before = [];
        after = record { release_time = pos 22; thrd = 3 } ∷ [];
        split = refl;
        later = tt;
        not_sooner = (omega arith, tt);
        in_range = omega arith;
      })
      (omega arith) (λ p. omega arith)

periodic : (th : ℕ) → Elem th (1 ∷ 2 ∷ []) → pos 0 <ℤ (threads th).period
periodic th m = elim m [
  | inl e ↦ rw e (omega arith)
  | inr m' ↦ elim m' [ inl e ↦ rw e (omega arith) | inr n ↦ absurd n ]
]

edf_loop_ends_example :
    (out : Threads × Option ℕ) × (edf_loop 3 (pos 20) (1 ∷ 2 ∷ []) threads ≡ some out)
    × LoopDone (pos 20) (1 ∷ 2 ∷ []) threads out
edf_loop_ends_example = edf_loop_ends (pos 20) (1 ∷ 2 ∷ []) threads periodic

edf_slice_example : EdfSlice threads arriving 1 (edf_slice threads arriving 1)
edf_slice_example = edf_slice-EdfSlice threads arriving 1
