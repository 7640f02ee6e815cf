-- ===== src/Sched/Edf.antt =====
-- `schedule_edf_cbs` of Threading-Scheduler/threads_sched.c: earliest deadline first, where each
-- soft real-time thread is a constant bandwidth server. The scheduler changes the threads, so each
-- step takes the heap and returns the new one.
pub mod Choice
pub mod Loop
pub mod Slice
pub mod Preempts
pub mod Heap
use xv6_kernel_extensions.Prelude.{
  ℕ, zero, suc, ℤ, pos, Bool, true, false, not, List, [], ◌∷◌, Option, none, some, ltb_ℤ, leb_ℤ,
  ◌+ℤ◌, ◌-ℤ◌, ◌*ℤ◌, if◌then◌else◌, ◌||◌, ◌&&◌, ◌==◌, update, length,
}
use xv6_kernel_extensions.Sched.{Thread, Threads, Args, Result, ReleaseEntry}
use xv6_kernel_extensions.Sched.Pick.{pick}
use xv6_kernel_extensions.Sched.SmallestId.{check_deadline_miss}
use xv6_kernel_extensions.Sched.PriorityRr.{is_empty}
use xv6_kernel_extensions.Sched.Deadline.{edf_thread_cmp, idle_until_release}

-- A loop over the run queue that writes each thread in turn.
unfoldable pub for_each : (Thread → Thread) → Threads → List ℕ → Threads
for_each f h [] = h
for_each f h (th ∷ q) = for_each f (update h th (f (h th))) q

-- `!th->cbs.is_hard_rt && th->cbs.is_throttled`
abbrev pub soft_throttled : Thread → Bool
soft_throttled t = not t.cbs.is_hard_rt && t.cbs.is_throttled

-- Step 1: a throttled soft thread whose deadline has come gets a full budget and the next deadline.
unfoldable pub replenish : ℤ → Thread → Thread
replenish now t =
    if soft_throttled t && leb_ℤ t.current_deadline now
    then record t {
      current_deadline = t.current_deadline +ℤ t.period;
      cbs = record (t.cbs) { remaining_budget = t.cbs.budget; is_throttled = false };
    }
    else t

-- After step 3: a soft thread without budget is throttled.
unfoldable pub throttle : ℤ → Thread → Thread
throttle now t =
    if not t.cbs.is_hard_rt && not t.cbs.is_throttled && leb_ℤ t.cbs.remaining_budget (pos 0)
    then record t { cbs = record (t.cbs) { is_throttled = true; throttled_arrived_time = now } }
    else t

-- Step 4.
abbrev pub eligible : Threads → ℕ → Bool
eligible h th = not (soft_throttled (h th))

unfoldable pub edf_better : Threads → ℕ → ℕ → Bool
unfolding edf_thread_cmp
edf_better h a b = ltb_ℤ (pos 0) (edf_thread_cmp h a b)

-- Step 5: a soft thread with budget whose deadline has come, or which would use more than its
-- share until its deadline.
unfoldable pub breaks_bandwidth : ℤ → Thread → Bool
breaks_bandwidth now t =
    let time_until_deadline = t.current_deadline -ℤ now in
    (not t.cbs.is_hard_rt && ltb_ℤ (pos 0) t.cbs.remaining_budget)
    && (leb_ℤ time_until_deadline (pos 0)
        || ltb_ℤ (t.cbs.budget *ℤ time_until_deadline) (t.cbs.remaining_budget *ℤ t.period))

unfoldable pub postpone : ℤ → Thread → Thread
postpone now t = record t {
  current_deadline = now +ℤ t.period;
  cbs = record (t.cbs) { remaining_budget = t.cbs.budget };
}

-- One round of the do-while loop, with the loop that a change makes run again.
unfoldable pub edf_round :
    (Threads → Option (Threads × Option ℕ)) → ℤ → Threads → Option ℕ → Option (Threads × Option ℕ)
edf_round again now h none = some (h, none)
edf_round again now h (some best) =
    let rest = again (update h best (postpone now (h best))) in
    if breaks_bandwidth now (h best) then rest else some (h, some best)

-- The loop on fuel; `none` means that the fuel ran out.
unfoldable pub edf_loop : ℕ → ℤ → List ℕ → Threads → Option (Threads × Option ℕ)
edf_loop zero now q h = none
edf_loop (suc fuel) now q h =
    edf_round (λ h'. edf_loop fuel now q h') now h (pick (eligible h) (edf_better h) q)

-- Step 7.
unfoldable pub budget_slice : Thread → ℤ
budget_slice t =
    if not t.cbs.is_hard_rt
    then (if ltb_ℤ t.remaining_time t.cbs.remaining_budget
        then t.remaining_time
        else t.cbs.remaining_budget)
    else t.remaining_time

-- `time < min ? (time > 0 ? time : 1) : min`
abbrev pub cut_short : ℤ → ℤ → ℤ
cut_short time shortest =
    if ltb_ℤ time shortest then (if ltb_ℤ (pos 0) time then time else pos 1) else shortest

-- `now <= t && t < now + min`
abbrev pub comes_within : ℤ → ℤ → ℤ → Bool
comes_within now shortest t = leb_ℤ now t && ltb_ℤ t (now +ℤ shortest)

-- Step 8.1, the comparison: the arriving thread has a temporary deadline while it is compared. The
-- code puts back the deadline that it read, so the heap stays as it was.
unfoldable pub arrival_preempts : Threads → ℕ → ReleaseEntry → Bool
unfolding edf_better
arrival_preempts h best e =
    let t = h e.thrd in
    edf_better (update h e.thrd (record t { current_deadline = e.release_time +ℤ t.period })) e.thrd
      best

unfoldable pub arrivals : Threads → ℤ → ℕ → ℤ → List ReleaseEntry → ℤ
arrivals h now best shortest [] = shortest
arrivals h now best shortest (e ∷ es) =
    arrivals h now best
      (if comes_within now shortest e.release_time && arrival_preempts h best e
        then cut_short (e.release_time -ℤ now) shortest
        else shortest)
      es

-- Step 8.2, the comparison with a throttled thread as it will be when its budget is refilled; it is
-- put back too.
unfoldable pub refill_preempts : Threads → ℕ → ℕ → Bool
unfolding edf_better
refill_preempts h best th =
    let t = h th in
    edf_better
      (update h th (record t {
        current_deadline = t.current_deadline +ℤ t.period;
        cbs = record (t.cbs) { is_throttled = false; remaining_budget = t.cbs.budget };
      }))
      th best
    && not (th == best)

unfoldable pub refills : Threads → ℤ → ℕ → ℤ → List ℕ → ℤ
refills h now best shortest [] = shortest
refills h now best shortest (th ∷ q) =
    refills h now best
      (if (soft_throttled (h th) && comes_within now shortest (h th).current_deadline)
          && refill_preempts h best th
        then cut_short ((h th).current_deadline -ℤ now) shortest
        else shortest)
      q

unfoldable pub edf_slice : Threads → Args → ℕ → ℤ
edf_slice h args best =
    let now = args.current_time in
    let shortest =
      refills h now best (arrivals h now best (budget_slice (h best)) args.release_queue)
        args.run_queue in
    if ltb_ℤ (pos 0) shortest then shortest else pos 1

-- Steps 6 to 8, from what the loop leaves.
unfoldable pub edf_dispatch : Args → Option (Threads × Option ℕ) → Option (Result × Threads)
edf_dispatch args none = none
edf_dispatch args (some (h, none)) = some (record { member = none; allocated_time = pos 1 }, h)
edf_dispatch args (some (h, some best)) =
    some (record { member = some best; allocated_time = edf_slice h args best }, h)

-- Steps 3 to 8: no deadline is missed.
unfoldable pub edf_on_time : ℕ → Threads → Args → Option (Result × Threads)
edf_on_time fuel h args =
    let now = args.current_time in
    let q = args.run_queue in
    if is_empty q
    then some (idle_until_release now args.release_queue, h)
    else edf_dispatch args (edf_loop fuel now q (for_each (throttle now) h q))

unfoldable pub edf_check : ℕ → Threads → Args → Option ℕ → Option (Result × Threads)
edf_check fuel h args none = edf_on_time fuel h args
edf_check fuel h args (some missed) =
    some (record { member = some missed; allocated_time = pos 0 }, h)

-- The fuel that the loop needs is one round more than the threads of the run queue.
unfoldable pub schedule_edf_cbs : Threads → Args → Option (Result × Threads)
schedule_edf_cbs h args =
    let h' = for_each (replenish args.current_time) h args.run_queue in
    edf_check (suc (length args.run_queue)) h' args
      (check_deadline_miss h' args.run_queue args.current_time)
