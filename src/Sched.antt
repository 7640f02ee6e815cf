-- ===== src/Sched.antt =====
-- Threading-Scheduler/threads_sched.c: what its schedulers read and return.
-- A `struct thread *` is an address and the threads live in a heap, so that the temporary writes of
-- the EDF scheduler and an entry that points to a queued thread mean what they mean in C. A queue
-- is the list of the addresses that `list_for_each_entry` visits, in order. The structs themselves
-- are declared in headers of the user library that this repository does not hold: the records
-- have the fields that the schedulers use.
pub mod Pick
pub mod SmallestId
pub mod Hrrn
pub mod PriorityRr
pub mod Deadline
pub mod Dm
pub mod Edf
mod Tests
use xv6_kernel_extensions.Prelude.{ℕ, ℤ, Bool, List, Option}

-- `th->cbs`; the two flags are ints that are only set to 0 or 1 and only tested.
pub record Cbs : Type 0 where
  pub is_hard_rt : Bool
  pub is_throttled : Bool
  pub budget : ℤ
  pub remaining_budget : ℤ
  pub throttled_arrived_time : ℤ

pub record Thread : Type 0 where
  pub id : ℤ
  pub priority : ℤ
  pub processing_time : ℤ
  pub arrival_time : ℤ
  pub remaining_time : ℤ
  pub deadline : ℤ
  pub period : ℤ
  pub current_deadline : ℤ
  pub cbs : Cbs

pub record ReleaseEntry : Type 0 where
  pub release_time : ℤ
  pub thrd : ℕ

abbrev pub Threads : Type 0
Threads = ℕ → Thread

pub record Args : Type 0 where
  pub current_time : ℤ
  pub run_queue : List ℕ
  pub release_queue : List ReleaseEntry

-- `member` is `none` where the code returns the list head `args.run_queue`.
pub record Result : Type 0 where
  pub member : Option ℕ
  pub allocated_time : ℤ
