-- ===== src/Wakeup.antt =====
-- FileSystem-RAID/kernel/proc.c: `sleep` and `wakeup`, and the sleep locks of
-- FileSystem-RAID/kernel/sleeplock.c that call them, between any two operations on spin locks. A
-- process is its index in `proc`, a sleep lock is the channel that its waiters sleep on. `lk->pid`,
-- which `holdingsleep` reads, is not followed.
pub mod Turns
pub mod Sleeps
pub mod Waiters
mod Tests
use xv6_kernel_extensions.Prelude.{
  ℕ, ◌+◌, Bool, true, false, Option, none, some, ltb, ◌==◌, ◌&&◌, if◌then◌else◌, update,
}

pub data ProcState : Type 0 where
  unused : ProcState
  sleeping : ProcState
  runnable : ProcState
  running : ProcState
  zombie : ProcState

abbrev pub is_sleeping : ProcState → Bool
is_sleeping sleeping = true
is_sleeping unused = false
is_sleeping runnable = false
is_sleeping running = false
is_sleeping zombie = false

pub record Proc : Type 0 where
  pub state : ProcState
  pub chan : ℕ

-- Where a process is between two operations on spin locks, for the sleep lock of the argument.
pub data Turn : Type 0 where
  elsewhere : Turn
  -- At the `while` of `acquiresleep`, with `lk->lk`.
  tests : ℕ → Turn
  -- In `sleep`, before `acquire(&p->lock)`, with `lk->lk`.
  calls_sleep : ℕ → Turn
  -- In `sleep`, before `release(lk)`, with both locks.
  has_both : ℕ → Turn
  -- In `sleep`, after `release(lk)`, with its own lock.
  has_own : ℕ → Turn
  -- In `sched`, where the scheduler has released its own lock.
  in_sched : ℕ → Turn
  -- In `sleep`, before `acquire(lk)`.
  resumed : ℕ → Turn
  -- In the loop of `wakeup` that `releasesleep` calls, at a process, with `lk->lk`.
  wakes : ℕ → ℕ → Turn

-- `guard` is who holds `lk->lk` of a sleep lock, `own` whether `p->lock` of a process is held, and
-- `locked` is `lk->locked`.
pub record Machine : Type 0 where
  pub procs : ℕ → Proc
  pub turn : ℕ → Turn
  pub own : ℕ → Bool
  pub guard : ℕ → Option ℕ
  pub locked : ℕ → Bool

abbrev pub nproc : ℕ
nproc = 64

abbrev pub goes : ℕ → Turn → Machine → Machine
goes p t m = record m { turn = update m.turn p t }

abbrev pub is_free : Option ℕ → Bool
is_free none = true
is_free (some p) = false

-- `acquire(&lk->lk)` by a process that then is at the turn `t`; `none` where it spins.
unfoldable pub acquire_guard : ℕ → ℕ → Turn → Machine → Option Machine
acquire_guard p lk t m =
    if is_free (m.guard lk)
    then some (goes p t (record m { guard = update m.guard lk (some p) }))
    else none

-- `acquire(&p->lock)` in `sleep`.
unfoldable pub acquire_own : ℕ → ℕ → Machine → Option Machine
acquire_own p lk m =
    if m.own p then none else some (goes p (has_both lk) (record m { own = update m.own p true }))

-- `release(lk)` in `sleep`.
unfoldable pub release_guard : ℕ → ℕ → Machine → Option Machine
release_guard p lk m = some (goes p (has_own lk) (record m { guard = update m.guard lk none }))

-- The test of `acquiresleep`, with what follows up to the next operation on a spin lock.
unfoldable pub test_lock : ℕ → ℕ → Machine → Option Machine
test_lock p lk m =
    if m.locked lk
    then some (goes p (calls_sleep lk) m)
    else some (
        goes p elsewhere
          (record m { locked = update m.locked lk true; guard = update m.guard lk none }))

-- The process goes to sleep; `sched` passes its lock to the scheduler, which releases it.
unfoldable pub fall_asleep : ℕ → ℕ → Machine → Option Machine
fall_asleep p lk m = some (
    goes p (in_sched lk) (record m {
      procs = update m.procs p (record { state = sleeping; chan = lk });
      own = update m.own p false;
    }))

abbrev pub is_runnable : ProcState → Bool
is_runnable runnable = true
is_runnable unused = false
is_runnable sleeping = false
is_runnable running = false
is_runnable zombie = false

-- The scheduler picks the process, which tidies up and releases its lock.
unfoldable pub resume : ℕ → ℕ → Machine → Option Machine
resume p lk m =
    if is_runnable (m.procs p).state
    then (if m.own p
        then none
        else some (
            goes p (resumed lk)
              (record m { procs = update m.procs p (record { state = running; chan = 0 }) })))
    else none

abbrev pub sleeps_on : ℕ → Proc → Bool
sleeps_on chan p = is_sleeping p.state && p.chan == chan

unfoldable pub woken : ℕ → Proc → Proc
woken chan p = if sleeps_on chan p then record p { state = runnable } else p

-- One turn of the loop of `wakeup`, or the end of `releasesleep`; `none` where it spins.
unfoldable pub wake_one : ℕ → ℕ → ℕ → Machine → Option Machine
unfolding woken
wake_one p lk i m =
    if ltb i nproc
    then (if m.own i
        then none
        else some (
            goes p (wakes lk (i + 1))
              (record m { procs = update m.procs i (woken lk (m.procs i)) })))
    else some (goes p elsewhere (record m { guard = update m.guard lk none }))

-- What the process `p` does next; `none` where it cannot go on.
unfoldable pub next_turn : ℕ → Turn → Machine → Option Machine
unfolding acquire_guard acquire_own release_guard test_lock fall_asleep resume wake_one
next_turn p elsewhere m = none
next_turn p (tests lk) m = test_lock p lk m
next_turn p (calls_sleep lk) m = acquire_own p lk m
next_turn p (has_both lk) m = release_guard p lk m
next_turn p (has_own lk) m = fall_asleep p lk m
next_turn p (in_sched lk) m = resume p lk m
next_turn p (resumed lk) m = acquire_guard p lk (tests lk) m
next_turn p (wakes lk i) m = wake_one p lk i m

-- A call of `acquiresleep` starts.
unfoldable pub acquiresleep : ℕ → ℕ → Machine → Option Machine
unfolding acquire_guard
acquiresleep p lk m = acquire_guard p lk (tests lk) m

-- A call of `releasesleep` starts: it clears the lock and comes to the loop of `wakeup`.
unfoldable pub releasesleep : ℕ → ℕ → Machine → Option Machine
releasesleep p lk m =
    if is_free (m.guard lk)
    then some (
        goes p (wakes lk 0)
          (record m { guard = update m.guard lk (some p); locked = update m.locked lk false }))
    else none
