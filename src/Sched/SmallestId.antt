-- ===== src/Sched/SmallestId.antt =====
-- `schedule_default` and the deadline check `__check_deadline_miss` of
-- Threading-Scheduler/threads_sched.c, which both look for the smallest ID.
use xv6_kernel_extensions.Prelude.{
  ℕ, ℤ, pos, Bool, true, false, List, Option, none, some, ◌≡◌, refl, ltb_ℤ, leb_ℤ, ◌≤ℤ◌, ◌<ℤ◌, Elem,
  arith,
}
use xv6_kernel_extensions.Sched.{Threads, Args, Result}
use xv6_kernel_extensions.Sched.Pick.{
  pick, IsRanking, IsBest, pick-IsBest, AnyThread, All-AnyThread,
}

abbrev pub smaller_id : Threads → ℕ → ℕ → Bool
smaller_id h a b = ltb_ℤ (h a).id (h b).id

abbrev pub every : ℕ → Bool
every th = true

abbrev pub run_or_idle : Threads → Args → Option ℕ → Result
run_or_idle h args none = record { member = none; allocated_time = pos 1 }
run_or_idle h args (some th) = record { member = some th; allocated_time = (h th).remaining_time }

unfoldable pub schedule_default : Threads → Args → Result
unfolding pick
schedule_default h args = run_or_idle h args (pick every (smaller_id h) args.run_queue)

abbrev pub has_missed : Threads → ℤ → ℕ → Bool
has_missed h current_time th = leb_ℤ (h th).current_deadline current_time

unfoldable pub check_deadline_miss : Threads → List ℕ → ℤ → Option ℕ
unfolding pick
check_deadline_miss h run_queue current_time =
    pick (has_missed h current_time) (smaller_id h) run_queue

smaller_id-IsRanking : (h : Threads) → IsRanking AnyThread (smaller_id h)
smaller_id-IsRanking h = record {
  irrefl = λ a pa. ground arith;
  asym = λ a b pa pb e. ground arith;
  trans = λ a b c pa pb pc e f. ground arith;
}

-- The default scheduler runs a queued thread of the smallest ID for all its remaining time, and
-- idles for one tick exactly when the run queue is empty.
abbrev pub DefaultChoice : Threads → List ℕ → Result → Type 0
DefaultChoice h q r = elim r.member [
  | none ↦ ((th : ℕ) → ¬ Elem th q) × (r.allocated_time ≡ pos 1)
  | some b ↦
      Elem b q
      × ((th : ℕ) → Elem th q → (h b).id ≤ℤ (h th).id)
      × (r.allocated_time ≡ (h b).remaining_time)
]

default_of_best :
    (h : Threads) (args : Args) (o : Option ℕ)
    → IsBest every (smaller_id h) args.run_queue o
    → DefaultChoice h args.run_queue (run_or_idle h args o)
default_of_best h args none k = (λ th m. let e : true ≡ false = k th m in cc, refl)
default_of_best h args (some b) k = (k.0, λ th m. ground (arith, k.2 th m refl), refl)

-- The default scheduler idles for one tick exactly on an empty run queue, and otherwise runs a
-- queued thread of the smallest ID for all its remaining time.
pub schedule_default-DefaultChoice :
    (h : Threads) (args : Args) → DefaultChoice h args.run_queue (schedule_default h args)
unfolding schedule_default
schedule_default-DefaultChoice h args =
    default_of_best h args (pick every (smaller_id h) args.run_queue) (
      pick-IsBest AnyThread every (smaller_id h) (smaller_id-IsRanking h) args.run_queue
        (All-AnyThread args.run_queue))

-- What the deadline check returns.
abbrev pub MissChoice : Threads → ℤ → List ℕ → Option ℕ → Type 0
MissChoice h now q none = (th : ℕ) → Elem th q → now <ℤ (h th).current_deadline
MissChoice h now q (some b) =
    Elem b q
    × ((h b).current_deadline ≤ℤ now)
    × ((th : ℕ) → Elem th q → (h th).current_deadline ≤ℤ now → (h b).id ≤ℤ (h th).id)

miss_of_best :
    (h : Threads) (now : ℤ) (q : List ℕ) (o : Option ℕ)
    → IsBest (has_missed h now) (smaller_id h) q o
    → MissChoice h now q o
miss_of_best h now q none k = λ th m. ground (arith, k th m)
miss_of_best h now q (some b) k = (k.0, ground arith, λ th m late. ground (arith, k.2 th m))

-- The deadline check finds a queued thread whose deadline is not in the future, of the smallest ID
-- among those, and finds none only if every queued thread's deadline lies in the future.
pub check_deadline_miss-MissChoice :
    (h : Threads) (q : List ℕ) (now : ℤ) → MissChoice h now q (check_deadline_miss h q now)
unfolding check_deadline_miss
check_deadline_miss-MissChoice h q now =
    miss_of_best h now q (pick (has_missed h now) (smaller_id h) q) (
      pick-IsBest AnyThread (has_missed h now) (smaller_id h) (smaller_id-IsRanking h) q
        (All-AnyThread q))
