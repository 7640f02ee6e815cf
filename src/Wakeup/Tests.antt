-- ===== src/Wakeup/Tests.antt =====
-- A process that comes to sleep on a sleep lock of FileSystem-RAID/kernel/sleeplock.c.
use xv6_kernel_extensions.Prelude.{ℕ, true, false, none, some, update, ◌≡◌, refl, arith, ◌⊎◌, ◌≤◌}
use xv6_kernel_extensions.Wakeup.{
  sleeping, runnable, running, elsewhere, tests, calls_sleep, has_both, has_own, in_sched, wakes,
  Machine, goes, acquire_guard, acquire_own, release_guard, test_lock, fall_asleep, wake_one,
  next_turn, acquiresleep,
}
use xv6_kernel_extensions.Wakeup.Turns.{Reach, boots, turns, takes}
use xv6_kernel_extensions.Wakeup.Waiters.{no_lost_wakeup}

-- The sleep lock at address 5 is taken; process 3 calls `acquiresleep`.
abbrev taken : Machine
taken = record {
  procs = λ p. record { state = running; chan = 0 };
  turn = λ p. elsewhere;
  own = λ p. false;
  guard = λ lk. none;
  locked = λ lk. true;
}

abbrev testing : Machine
testing = goes 3 (tests 5) (record taken { guard = update taken.guard 5 (some 3) })

abbrev calling : Machine
calling = goes 3 (calls_sleep 5) testing

abbrev both : Machine
both = goes 3 (has_both 5) (record calling { own = update calling.own 3 true })

abbrev own : Machine
own = goes 3 (has_own 5) (record both { guard = update both.guard 5 none })

abbrev asleep : Machine
asleep = goes 3 (in_sched 5) (record own {
  procs = update own.procs 3 (record { state = sleeping; chan = 5 });
  own = update own.own 3 false;
})

Reach-asleep : Reach asleep
unfolding next_turn acquiresleep acquire_guard acquire_own release_guard test_lock fall_asleep
Reach-asleep =
    turns own asleep 3
      (turns both own 3
        (turns calling both 3
          (turns testing calling 3
            (takes taken testing 3 5 (boots taken refl) (omega arith) refl refl) (omega arith) refl)
          (omega arith) refl)
        (omega arith) refl)
      (omega arith) refl

no_lost_wakeup_example :
    ((asleep.procs 3).chan ≡ 5)
    × ((asleep.locked 5 ≡ true) ⊎ ((r i : ℕ) × (asleep.turn r ≡ wakes 5 i) × (i ≤ 3)))
    × ((r : ℕ) (m' : Machine) → wake_one r 5 3 asleep ≡ some m' → (m'.procs 3).state ≡ runnable)
no_lost_wakeup_example = no_lost_wakeup asleep 3 5 Reach-asleep (omega arith) refl refl
