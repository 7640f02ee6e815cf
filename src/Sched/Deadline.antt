-- ===== src/Sched/Deadline.antt =====
-- What the two real-time schedulers of Threading-Scheduler/threads_sched.c share: the comparison of
-- a deadline and then an ID, and the idle time until the next release.
use xv6_kernel_extensions.Prelude.{
  eq_of_parts, subst, ℕ, ℤ, pos, negsuc, true, false, List, [], ◌∷◌, none, ltb_ℤ, eqb_ℤ, ◌-ℤ◌,
  if◌then◌else◌, int_max, ◌≡◌, refl, ◌⊎◌, inl, inr, Elem, arith, ◌≤ℤ◌, ◌<ℤ◌, Bool-cases, ◌↔◌, All,
  sym, ◌+ℤ◌, +ℤ_parts, -ℤ_parts,
}
use xv6_kernel_extensions.Sched.{Threads, ReleaseEntry, Result}
use xv6_kernel_extensions.Sched.Pick.{IsRanking, AnyThread}

-- `__dm_thread_cmp` and `__edf_thread_cmp`, on the deadline that each reads.
abbrev pub deadline_cmp : (ℕ → ℤ) → Threads → ℕ → ℕ → ℤ
deadline_cmp deadline h a b =
    if ltb_ℤ (deadline a) (deadline b)
    then pos 1
    else if ltb_ℤ (deadline b) (deadline a)
    then negsuc 0
    else if ltb_ℤ (h a).id (h b).id
    then pos 1
    else negsuc 0

unfoldable pub dm_thread_cmp : Threads → ℕ → ℕ → ℤ
dm_thread_cmp h a b = deadline_cmp (λ th. (h th).deadline) h a b

unfoldable pub edf_thread_cmp : Threads → ℕ → ℕ → ℤ
edf_thread_cmp h a b = deadline_cmp (λ th. (h th).current_deadline) h a b

-- The minimum that the loops over the release queue compute from `INT_MAX`.
unfoldable pub earliest_arrival : ℤ → List ReleaseEntry → ℤ
earliest_arrival earliest [] = earliest
earliest_arrival earliest (e ∷ es) =
    earliest_arrival (if ltb_ℤ e.release_time earliest then e.release_time else earliest) es

-- An empty run queue: sleep until the earliest release, for one tick at least.
unfoldable pub idle_until_release : ℤ → List ReleaseEntry → Result
unfolding earliest_arrival
idle_until_release current_time releases =
    let earliest = earliest_arrival int_max releases in
    let sleep_time = earliest -ℤ current_time in
    record {
      member = none;
      allocated_time =
          if eqb_ℤ earliest int_max
          then pos 1
          else if ltb_ℤ (pos 0) sleep_time
          then sleep_time
          else pos 1;
    }

-- `a` comes before `b`: an earlier deadline, or the same deadline and a smaller ID.
abbrev pub Precedes : (ℕ → ℤ) → Threads → ℕ → ℕ → Type 0
Precedes deadline h a b =
    (deadline a <ℤ deadline b) ⊎ ((deadline a ≤ℤ deadline b) × ((h a).id <ℤ (h b).id))

-- `a` comes before `b`, or ties with it.
abbrev pub NotAfter : (ℕ → ℤ) → Threads → ℕ → ℕ → Type 0
NotAfter deadline h a b =
    (deadline a ≤ℤ deadline b) × (deadline b ≤ℤ deadline a → (h a).id ≤ℤ (h b).id)

module _ (deadline : ℕ → ℤ) (h : Threads) where
  pub deadline_cmp-IsRanking :
      IsRanking AnyThread (λ a b. ltb_ℤ (pos 0) (deadline_cmp deadline h a b))
  deadline_cmp-IsRanking = record {
    irrefl = λ a pa. ground arith;
    asym = λ a b pa pb e. ground arith;
    trans = λ a b c pa pb pc e f. ground arith;
  }

  pub cmp-NotAfter :
      (a b : ℕ) → ltb_ℤ (pos 0) (deadline_cmp deadline h a b) ≡ false → NotAfter deadline h b a
  cmp-NotAfter a b e = ground arith

  pub cmp-Precedes :
      (a b : ℕ) → (ltb_ℤ (pos 0) (deadline_cmp deadline h a b) ≡ true) ↔ Precedes deadline h a b
  cmp-Precedes a b = (λ e. ground arith, λ p. ground arith)

-- What the loop over the release queue computes.
pub record IsEarliest (bound : ℤ) (es : List ReleaseEntry) (t : ℤ) : Type 0 where
  pub below : t ≤ℤ bound
  pub least : All (λ e. t ≤ℤ e.release_time) es
  pub reached : (t ≡ bound) ⊎ ((e : ReleaseEntry) × Elem e es × (e.release_time ≡ t))

pub earliest_arrival-IsEarliest :
    (bound : ℤ) (es : List ReleaseEntry) → IsEarliest bound es (earliest_arrival bound es)
unfolding earliest_arrival
earliest_arrival-IsEarliest bound [] = record {
  below = omega arith;
  least = tt;
  reached = inl refl;
}
earliest_arrival-IsEarliest bound (x ∷ es) = elim (Bool-cases (ltb_ℤ x.release_time bound)) [
  | inl e ↦
      let i = earliest_arrival-IsEarliest x.release_time es in
      rw e (record {
        below = ground (arith, i.below);
        least = (i.below, i.least);
        reached = elim i.reached [
          | inl eq ↦ inr (x, inl refl, sym eq)
          | inr w ↦ inr (w.0, inr w.1, w.2)
        ];
      })
  | inr e ↦
      let i = earliest_arrival-IsEarliest bound es in
      rw e (record {
        below = i.below;
        least = (ground (arith, i.below), i.least);
        reached = elim i.reached [ inl eq ↦ inl eq | inr w ↦ inr (w.0, inr w.1, w.2) ];
      })
]

-- What idling on an empty run queue gives: the list head, and the time exactly until the earliest
-- release if that is still to come; one tick if it is due, or if nothing is released before
-- `INT_MAX`.
abbrev pub Idle : ℤ → List ReleaseEntry → Result → Type 0
Idle now es r =
    (r.member ≡ none)
    × (((e : ReleaseEntry) × Elem e es
          × All (λ x. e.release_time ≤ℤ x.release_time) es
          × (e.release_time <ℤ int_max)
          × (now <ℤ e.release_time → now +ℤ r.allocated_time ≡ e.release_time)
          × (e.release_time ≤ℤ now → r.allocated_time ≡ pos 1))
        ⊎ (All (λ x. int_max ≤ℤ x.release_time) es × (r.allocated_time ≡ pos 1)))

abbrev idle_time : ℤ → ℤ → ℤ
idle_time t now =
    if eqb_ℤ t int_max then pos 1 else if ltb_ℤ (pos 0) (t -ℤ now) then t -ℤ now else pos 1

idle_later : (t now : ℤ) → t <ℤ int_max → now <ℤ t → now +ℤ idle_time t now ≡ t
idle_later t now fits h =
    let a : eqb_ℤ t int_max ≡ false = ground arith in
    let b : ltb_ℤ (pos 0) (t -ℤ now) ≡ true = ground (arith, -ℤ_parts t now) in
    rw (a, b)
      (eq_of_parts (now +ℤ (t -ℤ now)) t (omega (arith, +ℤ_parts now (t -ℤ now), -ℤ_parts t now)))

idle_due : (t now : ℤ) → t <ℤ int_max → t ≤ℤ now → idle_time t now ≡ pos 1
idle_due t now fits h =
    let a : eqb_ℤ t int_max ≡ false = ground arith in
    let b : ltb_ℤ (pos 0) (t -ℤ now) ≡ false = ground (arith, -ℤ_parts t now) in rw (a, b) refl

-- On an empty run queue the result is the list head. If something is released before `INT_MAX`, the
-- time ends exactly at the earliest release if that is still to come, and is one tick if it is due;
-- otherwise it is one tick.
pub idle_until_release-Idle :
    (now : ℤ) (es : List ReleaseEntry) → Idle now es (idle_until_release now es)
unfolding idle_until_release
idle_until_release-Idle now es = (
  refl,
  elim i.reached [
    | inl eq ↦ inr (none_due eq)
    | inr (e, m, eq) ↦ elim (Bool-cases (eqb_ℤ t int_max)) [
      | inl d ↦ inr (none_due (eq_of_parts t int_max (ground arith)))
      | inr d ↦
          let fits : e.release_time <ℤ int_max = ground (arith, i.below, eq) in
          inl (
            e,
            m,
            rw eq i.least,
            fits,
            (λ h. rw (sym eq) (idle_later e.release_time now fits h)),
            (λ h. rw (sym eq) (idle_due e.release_time now fits h)),
          )
    ]
  ],
)
  where
    t : ℤ
    t = earliest_arrival int_max es

    i : IsEarliest int_max es t
    i = earliest_arrival-IsEarliest int_max es

    none_due : t ≡ int_max → All (λ x. int_max ≤ℤ x.release_time) es × (idle_time t now ≡ pos 1)
    none_due eq = (subst (λ b. All (λ x. b ≤ℤ x.release_time) es) eq i.least, rw eq refl)
