-- ===== src/Wakeup/Waiters.antt =====
-- No process misses the wakeup of a sleep lock of FileSystem-RAID/kernel/sleeplock.c.
use xv6_kernel_extensions.Prelude.{
  ℕ, ◌+◌, ◌<◌, ◌≤◌, Bool, true, false, none, some, ltb, ◌==◌, ◌&&◌, if◌then◌else◌, update,
  update_ne, update_self, ◌≡◌, ◌≢◌, refl, sym, ap, ◌∙◌, subst, arith, inl, inr, ◌⊎◌, Bool-cases,
}
use xv6_kernel_extensions.Wakeup.Sleeps.{
  test_lock-Inv, fall_asleep-Inv, resume-Inv, releasesleep-Inv,
}
use native.Mathlib.Decide.{ℕ_discrete}
use xv6_kernel_extensions.Wakeup.{
  runnable, is_sleeping, Proc, Turn, elsewhere, tests, calls_sleep, has_both, has_own, in_sched,
  resumed, wakes, Machine, goes, sleeps_on, woken, wake_one, next_turn, acquiresleep,
}
use xv6_kernel_extensions.Wakeup.Turns.{
  Reach, boots, turns, takes, frees, Covered, Ok, Inv, step-Inv, move-Covered, update_other,
  else_some, calm, acquire_guard-Inv, acquire_own-Inv, release_guard-Inv,
}

-- Who still sleeps after its turn in the loop of `wakeup` slept on another channel.
woken-asleep :
    (lk : ℕ) (p : Proc)
    → is_sleeping (woken lk p).state ≡ true
    → (woken lk p ≡ p) × (sleeps_on lk p ≡ false)
unfolding woken
woken-asleep lk p h = elim (Bool-cases (sleeps_on lk p)) [
  | inl e ↦
      let t : is_sleeping (record p { state = runnable }).state ≡ true =
        subst (λ b. is_sleeping (if b then record p { state = runnable } else p).state ≡ true) e
          h in
      absurd (cc)
  | inr e ↦ (rw e refl, e)
]

asleep_elsewhere : (s : Bool) (a b : ℕ) → s ≡ true → (s && a == b) ≡ false → a ≢ b
asleep_elsewhere s a b e f q = ground arith

module _ (m : Machine) (p : ℕ) (k : Inv m) (l : p < 64) where
  -- The loop goes on behind the process that it has woken.
  wake-Inv :
      (lk i : ℕ)
      → m.turn p ≡ wakes lk i
      → m.own i ≡ false
      → Inv
          (goes p (wakes lk (i + 1)) (record m { procs = update m.procs i (woken lk (m.procs i)) }))
  wake-Inv lk i at free =
      step-Inv m m₁ p (wakes lk (i + 1)) refl k (subst (λ t. Ok m p t) at (k p l)) (λ q b n.
        record {
          guards = λ lk' y. y;
          lockeds = λ lk' y z. z;
          owns = λ y. y;
          covers = λ lk' o. moves q lk' (λ d e. (let z : m.own i ≡ true = ap m.own d ∙ o in cc));
          asleep = λ lk' s. elim (ℕ_discrete i q) [
            | yes d ↦
                let at_q : update m.procs i (woken lk (m.procs i)) q ≡ woken lk (m.procs q) =
                  subst (λ x. update m.procs i (woken lk (m.procs i)) x ≡ woken lk (m.procs x)) d
                    (update_self m.procs i (woken lk (m.procs i))) in
                let (w, f) =
                  woken-asleep lk (m.procs q) (ap (λ x. is_sleeping x.state) (sym at_q) ∙ s) in
                let s' : is_sleeping (m.procs q).state ≡ true =
                  ap (λ x. is_sleeping x.state) (sym (at_q ∙ w)) ∙ s in
                (
                  s',
                  λ e y. (
                    ap (λ x. x.chan) (at_q ∙ w) ∙ e,
                    moves q lk'
                        (λ z c.
                          asleep_elsewhere (is_sleeping (m.procs q).state) (m.procs q).chan lk s' f
                            (e ∙ sym c))
                        y,
                  ),
                )
            | no d ↦ (
              ap (λ x. is_sleeping x.state) (sym (update_ne m.procs i q _ d)) ∙ s,
              λ e y. (ap (λ x. x.chan) (update_ne m.procs i q _ d) ∙ e, moves q lk' (λ z c. d z) y),
            )
          ];
        })
    where
      m₁ : Machine
      m₁ = goes p (wakes lk (i + 1)) (record m { procs = update m.procs i (woken lk (m.procs i)) })

      moves : (q lk' : ℕ) → (i ≡ q → lk ≢ lk') → Covered m lk' q → Covered m₁ lk' q
      moves q lk' other =
          move-Covered m m₁ p (wakes lk (i + 1)) lk' q refl (λ y. inl y)
            (λ j y g.
              let same : (lk ≡ lk') × (i ≡ j) =
                (let z : wakes lk i ≡ wakes lk' j = sym at ∙ y in (cc, cc)) in
              let behind : i ≢ q = λ d. other d same.0 in
              inr (
                p,
                i + 1,
                update_self m.turn p (wakes lk (i + 1)) ∙ ap (λ x. wakes x (i + 1)) same.0,
                omega (arith, same.1, behind),
              ))

  ends-Inv :
      (lk i : ℕ)
      → m.turn p ≡ wakes lk i
      → 64 ≤ i
      → Inv (goes p elsewhere (record m { guard = update m.guard lk none }))
  ends-Inv lk i at past =
      let m₁ = goes p elsewhere (record m { guard = update m.guard lk none }) in
      let g : m.guard lk ≡ some p = subst (λ t. Ok m p t) at (k p l) in
      step-Inv m m₁ p elsewhere refl k tt (λ q b n.
        calm m p k m₁ q refl
          (λ lk' y.
            update_other m.guard lk lk' none (some q)
              (λ d z. n (let w : some p ≡ some q = sym g ∙ (ap m.guard d ∙ z) in cc)) y)
          (λ lk' y z. z) (λ y. y)
          (λ lk'.
            move-Covered m m₁ p elsewhere lk' q refl (λ y. inl y)
              (λ j y c.
                let z : wakes lk i ≡ wakes lk' j = sym at ∙ y in
                let e : i ≡ j = cc in absurd (omega arith))))

  wake_one-Inv :
      (m' : Machine) (lk i : ℕ) → m.turn p ≡ wakes lk i → wake_one p lk i m ≡ some m' → Inv m'
  unfolding wake_one
  wake_one-Inv m' lk i at h = elim (Bool-cases (ltb i 64)) [
    | inl e ↦
        let m₁ =
          goes p (wakes lk (i + 1))
            (record m { procs = update m.procs i (woken lk (m.procs i)) }) in
        let f : (if m.own i then none else some m₁) ≡ some m' = sym (rw e refl) ∙ h in
        let (free, same) = else_some (m.own i) m₁ m' f in subst Inv same (wake-Inv lk i at free)
    | inr e ↦
        let m₁ = goes p elsewhere (record m { guard = update m.guard lk none }) in
        let f : some m₁ ≡ some m' = sym (rw e refl) ∙ h in
        let same : m₁ ≡ m' = cc in subst Inv same (ends-Inv lk i at (ground arith))
  ]

  next_turn-Inv : (m' : Machine) (t : Turn) → m.turn p ≡ t → next_turn p t m ≡ some m' → Inv m'
  unfolding next_turn
  next_turn-Inv m' elsewhere at h = absurd (cc)
  next_turn-Inv m' (tests lk) at h = test_lock-Inv m p k l m' lk at h
  next_turn-Inv m' (calls_sleep lk) at h = acquire_own-Inv m p k m' lk l at h
  next_turn-Inv m' (has_both lk) at h = release_guard-Inv m p k m' lk l at h
  next_turn-Inv m' (has_own lk) at h = fall_asleep-Inv m p k l m' lk at h
  next_turn-Inv m' (in_sched lk) at h = resume-Inv m p k l m' lk at h
  next_turn-Inv m' (resumed lk) at h = acquire_guard-Inv m p k m' lk (λ lk' i y. cc) h
  next_turn-Inv m' (wakes lk i) at h = wake_one-Inv m' lk i at h

Reach-Inv : (m : Machine) → Reach m → Inv m
unfolding acquiresleep
Reach-Inv m (boots m1 e) = λ q l. subst (λ t. Ok m1 q t) (sym (ap (λ f. f q) e)) tt
Reach-Inv m (turns m1 m2 p r l h) = next_turn-Inv m1 p (Reach-Inv m1 r) l m2 (m1.turn p) refl h
Reach-Inv m (takes m1 m2 p lk r l at h) =
    acquire_guard-Inv m1 p (Reach-Inv m1 r) m2 lk (λ lk' i y. cc) h
Reach-Inv m (frees m1 m2 p lk r l at h) = releasesleep-Inv m1 p (Reach-Inv m1 r) l m2 lk at h

-- Whatever the order of the operations on the spin locks by the processes in `acquiresleep`, `sleep`,
-- `releasesleep` and its `wakeup`: a process that sleeps in `sched` for a sleep lock has the lock as
-- its channel, and the lock is taken, or the loop of a `wakeup` for it is still to come to the
-- process; and when the loop has been at the process it is runnable.
pub no_lost_wakeup :
    (m : Machine) (q lk : ℕ)
    → Reach m
    → q < 64
    → m.turn q ≡ in_sched lk
    → is_sleeping (m.procs q).state ≡ true
    → ((m.procs q).chan ≡ lk)
      × ((m.locked lk ≡ true) ⊎ ((r i : ℕ) × (m.turn r ≡ wakes lk i) × (i ≤ q)))
      × ((r : ℕ) (m' : Machine) → wake_one r lk q m ≡ some m' → (m'.procs q).state ≡ runnable)
unfolding wake_one woken
no_lost_wakeup m q lk r l at s =
    let (c, d) = subst (λ t. Ok m q t) at (Reach-Inv m r q l) s in
    (
      c,
      d,
      λ p m' h.
          let e : ltb q 64 ≡ true = ground arith in
          let on : sleeps_on lk (m.procs q) ≡ true = ground arith in
          let m₁ =
            goes p (wakes lk (q + 1))
              (record m { procs = update m.procs q (woken lk (m.procs q)) }) in
          let f : (if m.own q then none else some m₁) ≡ some m' = sym (rw e refl) ∙ h in
          let same = (else_some (m.own q) m₁ m' f).1 in
          subst (λ x. (x.procs q).state ≡ runnable) same
            (ap (λ x. x.state) (update_self m.procs q (woken lk (m.procs q))) ∙ rw on refl),
    )
