-- ===== src/Wakeup/Sleeps.antt =====
-- The other steps of `acquiresleep` and `sleep`, and the start of `releasesleep`, of
-- FileSystem-RAID/kernel/sleeplock.c and proc.c keep what holds of each process at its turn.
use xv6_kernel_extensions.Prelude.{
  ℕ, ◌<◌, true, false, none, some, if◌then◌else◌, update, update_ne, update_self, ◌≡◌, ◌≢◌, refl,
  sym, ap, ◌∙◌, subst, arith, inl, inr, Bool-cases,
}
use native.Mathlib.Decide.{ℕ_discrete}
use xv6_kernel_extensions.Wakeup.{
  sleeping, running, is_sleeping, Proc, elsewhere, tests, calls_sleep, has_own, in_sched, resumed,
  wakes, Machine, goes, is_free, is_runnable, test_lock, fall_asleep, resume, releasesleep,
}
use xv6_kernel_extensions.Wakeup.Turns.{
  Covered, Ok, Inv, step-Inv, move-Covered, update_other, update_same, then_some, else_some,
  free-none, none_is_not_some, calm,
}

module _ (m : Machine) (p : ℕ) (k : Inv m) (l : p < 64) where
  pub test_lock-Inv :
      (m' : Machine) (lk : ℕ) → m.turn p ≡ tests lk → test_lock p lk m ≡ some m' → Inv m'
  unfolding test_lock
  test_lock-Inv m' lk at h = elim (Bool-cases (m.locked lk)) [
    | inl e ↦
        let m₁ = goes p (calls_sleep lk) m in
        let f : some m₁ ≡ some m' = sym (rw e refl) ∙ h in
        let same : m₁ ≡ m' = cc in
        subst Inv same (
          step-Inv m m₁ p (calls_sleep lk) refl k (g, e)
            (λ q b n.
              calm m p k m₁ q refl (λ lk' y. y) (λ lk' y z. z) (λ y. y)
                (λ lk'.
                  move-Covered m m₁ p (calls_sleep lk) lk' q refl (λ y. inl y)
                    (λ i y. absurd (cc)))))
    | inr e ↦
        let m₁ =
          goes p elsewhere
            (record m { locked = update m.locked lk true; guard = update m.guard lk none }) in
        let f : some m₁ ≡ some m' = sym (rw e refl) ∙ h in
        let same : m₁ ≡ m' = cc in
        subst Inv same (
          step-Inv m m₁ p elsewhere refl k tt (λ q b n.
            calm m p k m₁ q refl
              (λ lk' y.
                update_other m.guard lk lk' none (some q)
                  (λ d z. n (let w : some p ≡ some q = sym g ∙ (ap m.guard d ∙ z) in cc)) y)
              (λ lk' y z. update_same m.locked lk lk' true z) (λ y. y)
              (λ lk'.
                move-Covered m m₁ p elsewhere lk' q refl
                  (λ y. inl (update_same m.locked lk lk' true y)) (λ i y. absurd (cc)))))
  ]
    where
      g : m.guard lk ≡ some p
      g = subst (λ t. Ok m p t) at (k p l)

  pub fall_asleep-Inv :
      (m' : Machine) (lk : ℕ) → m.turn p ≡ has_own lk → fall_asleep p lk m ≡ some m' → Inv m'
  unfolding fall_asleep
  fall_asleep-Inv m' lk at h =
      let v : Proc = record { state = sleeping; chan = lk } in
      let m₁ =
        goes p (in_sched lk)
          (record m { procs = update m.procs p v; own = update m.own p false }) in
      let same : m₁ ≡ m' = cc in
      let moves : (q lk' : ℕ) → Covered m lk' q → Covered m₁ lk' q =
        λ q lk'. move-Covered m m₁ p (in_sched lk) lk' q refl (λ y. inl y) (λ i y. absurd (cc)) in
      let (o, c) = subst (λ t. Ok m p t) at (k p l) in
      subst Inv same (
        step-Inv m m₁ p (in_sched lk) refl k
          (λ s. (ap (λ x. x.chan) (update_self m.procs p v), moves p lk c))
          (λ q b n. record {
            guards = λ lk' y. y;
            lockeds = λ lk' y z. z;
            owns = λ y. update_ne m.own p q false n ∙ y;
            covers = λ lk' y. moves q lk';
            asleep = λ lk' s. (
              ap (λ x. is_sleeping x.state) (sym (update_ne m.procs p q v n)) ∙ s,
              λ e y. (ap (λ x. x.chan) (update_ne m.procs p q v n) ∙ e, moves q lk' y),
            );
          }))

  pub resume-Inv :
      (m' : Machine) (lk : ℕ) → m.turn p ≡ in_sched lk → resume p lk m ≡ some m' → Inv m'
  unfolding resume
  resume-Inv m' lk at h =
      let v : Proc = record { state = running; chan = 0 } in
      let m₁ = goes p (resumed lk) (record m { procs = update m.procs p v }) in
      elim (Bool-cases (is_runnable (m.procs p).state)) [
        | inr e ↦ absurd (let f : none ≡ some m' = sym (rw e refl) ∙ h in cc)
        | inl e ↦
            let f : (if m.own p then none else some m₁) ≡ some m' = sym (rw e refl) ∙ h in
            let same = (else_some (m.own p) m₁ m' f).1 in
            let moves : (q lk' : ℕ) → Covered m lk' q → Covered m₁ lk' q = λ q lk'.
              move-Covered m m₁ p (resumed lk) lk' q refl (λ y. inl y) (λ i y. absurd (cc)) in
            subst Inv same (
              step-Inv m m₁ p (resumed lk) refl k tt (λ q b n. record {
                guards = λ lk' y. y;
                lockeds = λ lk' y z. z;
                owns = λ y. y;
                covers = λ lk' y. moves q lk';
                asleep = λ lk' s. (
                  ap (λ x. is_sleeping x.state) (sym (update_ne m.procs p q v n)) ∙ s,
                  λ e y. (ap (λ x. x.chan) (update_ne m.procs p q v n) ∙ e, moves q lk' y),
                );
              }))
      ]

  pub releasesleep-Inv :
      (m' : Machine) (lk : ℕ) → m.turn p ≡ elsewhere → releasesleep p lk m ≡ some m' → Inv m'
  unfolding releasesleep
  releasesleep-Inv m' lk at h =
      let m₁ =
        goes p (wakes lk 0)
          (record m { guard = update m.guard lk (some p); locked = update m.locked lk false }) in
      let (e, same) = then_some (is_free (m.guard lk)) m₁ m' h in
      let free = free-none (m.guard lk) e in
      let held : (q lk' : ℕ) → m.guard lk' ≡ some q → lk ≢ lk' =
        λ q lk' g d. none_is_not_some (m.guard lk') q (ap m.guard (sym d) ∙ free) g in
      let starts : (q : ℕ) → Covered m₁ lk q =
        λ q. inr (p, 0, update_self m.turn p (wakes lk 0), omega arith) in
      subst Inv same (
        step-Inv m m₁ p (wakes lk 0) refl k (update_self m.guard lk (some p)) (λ q b n.
          calm m p k m₁ q refl (λ lk' g. update_ne m.guard lk lk' (some p) (held q lk' g) ∙ g)
            (λ lk' g y. update_ne m.locked lk lk' false (held q lk' g) ∙ y) (λ y. y)
            (λ lk'.
              move-Covered m m₁ p (wakes lk 0) lk' q refl
                (λ y. elim (ℕ_discrete lk lk') [
                  | yes d ↦ subst (λ x. Covered m₁ x q) d (starts q)
                  | no d ↦ inl (update_ne m.locked lk lk' false d ∙ y)
                ])
                (λ i y. absurd (cc)))))
