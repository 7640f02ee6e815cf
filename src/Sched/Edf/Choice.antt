-- ===== src/Sched/Edf/Choice.antt =====
-- What `schedule_edf_cbs` of Threading-Scheduler/threads_sched.c returns.
use xv6_kernel_extensions.Prelude.{ℕ, ℤ, pos, true, false, List, [], none, some, ◌≡◌, Elem}
use xv6_kernel_extensions.Sched.{Threads, Args, Result, ReleaseEntry}
use xv6_kernel_extensions.Sched.SmallestId.{MissChoice}
use xv6_kernel_extensions.Sched.Deadline.{idle_until_release, NotAfter}
use xv6_kernel_extensions.Sched.Edf.{soft_throttled}
use xv6_kernel_extensions.Sched.Edf.Heap.{BreaksShare, Refreshed, Served}
use xv6_kernel_extensions.Sched.Edf.Slice.{EdfSlice}

-- The result and the threads that are left, by the branch of the code.
pub data EdfChoice (h : Threads) (args : Args) (out : Result × Threads) : Type 0 where
  missed :
      (b : ℕ)
      → out.0.member ≡ some b
      → out.0.allocated_time ≡ pos 0
      → MissChoice out.1 args.current_time args.run_queue (some b)
      → Refreshed args.current_time args.run_queue h out.1
      → EdfChoice h args out
  idles :
      args.run_queue ≡ []
      → out.0 ≡ idle_until_release args.current_time args.release_queue
      → ((th : ℕ) → out.1 th ≡ h th)
      → EdfChoice h args out
  all_throttled :
      out.0.member ≡ none
      → out.0.allocated_time ≡ pos 1
      → ((th : ℕ) → Elem th args.run_queue → soft_throttled (out.1 th) ≡ true)
      → Served args.current_time args.run_queue h out.1
      → EdfChoice h args out
  runs :
      (b : ℕ)
      → out.0.member ≡ some b
      → Elem b args.run_queue
      → soft_throttled (out.1 b) ≡ false
      → ((th : ℕ)
          → Elem th args.run_queue
          → soft_throttled (out.1 th) ≡ false
          → NotAfter (λ t. (out.1 t).current_deadline) out.1 b th)
      → (¬ BreaksShare args.current_time (out.1 b))
      → EdfSlice out.1 args b out.0.allocated_time
      → Served args.current_time args.run_queue h out.1
      → EdfChoice h args out

module _ (now : ℤ) (es : List ReleaseEntry) where
  abbrev at_queue : List ℕ → Args
  at_queue q = record { current_time = now; run_queue = q; release_queue = es }
