-- ===== src/Sched/PriorityRr.antt =====
-- `schedule_priority_rr` of Threading-Scheduler/threads_sched.c: round robin among the threads of
-- the smallest priority number. `list_move_tail` of `user/list.h`, which the repository does not hold,
-- is the parameter `move_tail`.
pub mod Group
pub mod Choice
use xv6_kernel_extensions.Prelude.{
  ℕ, suc, ℤ, pos, ◌+◌, Bool, true, false, List, [], ◌∷◌, ◌++◌, Option, none, some, ltb, ltb_ℤ,
  eqb_ℤ, ◌==◌, if◌then◌else◌, int_max,
}
use xv6_kernel_extensions.Sched.{Threads, Args, Result}

-- Step 2, from `best_pri = INT_MAX`.
unfoldable pub smallest_priority : Threads → ℤ → List ℕ → ℤ
smallest_priority h best [] = best
smallest_priority h best (th ∷ q) =
    smallest_priority h (if ltb_ℤ (h th).priority best then (h th).priority else best) q

abbrev pub in_group : Threads → ℤ → ℕ → Bool
in_group h pri th = eqb_ℤ (h th).priority pri

-- Step 3: the loop breaks at the first thread of the group.
unfoldable pub first_of_group : Threads → ℤ → List ℕ → Option ℕ
first_of_group h pri [] = none
first_of_group h pri (th ∷ q) =
    let rest = first_of_group h pri q in if in_group h pri th then some th else rest

-- Step 4.
unfoldable pub group_count : Threads → ℤ → List ℕ → ℕ
group_count h pri [] = 0
group_count h pri (th ∷ q) = let n = group_count h pri q in if in_group h pri th then suc n else n

abbrev pub quantum : ℤ
quantum = pos 2

-- Step 6: the only thread of its group runs to its end, any other for a quantum at most.
unfoldable pub rr_slice : ℕ → ℤ → ℤ
rr_slice group_cnt remaining =
    if group_cnt == 1 then remaining else if ltb_ℤ remaining quantum then remaining else quantum

-- The result and the run queue that is left; `none` is the use of a null `chosen`.
unfoldable pub rr_dispatch :
    (ℕ → List ℕ → List ℕ) → Threads → List ℕ → ℕ → Option ℕ → Option (Result × List ℕ)
unfolding rr_slice
rr_dispatch move_tail h q group_cnt none = none
rr_dispatch move_tail h q group_cnt (some chosen) = some (
  record { member = some chosen; allocated_time = rr_slice group_cnt (h chosen).remaining_time },
  if ltb 1 group_cnt then move_tail chosen q else q,
)

abbrev pub is_empty : List ℕ → Bool
is_empty [] = true
is_empty (th ∷ q) = false

unfoldable pub schedule_priority_rr :
    (ℕ → List ℕ → List ℕ) → Threads → Args → Option (Result × List ℕ)
schedule_priority_rr move_tail h args =
    let q = args.run_queue in
    let best_pri = smallest_priority h int_max q in
    if is_empty q
    then some (record { member = none; allocated_time = pos 1 }, q)
    else rr_dispatch move_tail h q (group_count h best_pri q) (first_of_group h best_pri q)
