-- ===== src/Sched/PriorityRr/Group.antt =====
-- The group of threads that `schedule_priority_rr` of Threading-Scheduler/threads_sched.c looks
-- at, and the thread that it takes from the group.
use xv6_kernel_extensions.Prelude.{
  ℕ, ℤ, ◌+◌, ◌<◌, true, false, List, [], ◌∷◌, ◌++◌, none, some, ltb_ℤ, ◌≡◌, refl, ◌⊎◌, inl, inr,
  Elem, All, arith, Bool-cases, ◌≤ℤ◌, ap, sym,
}
use xv6_kernel_extensions.Sched.{Threads}
use xv6_kernel_extensions.Sched.PriorityRr.{
  smallest_priority, in_group, first_of_group, group_count,
}

-- `p` is no more than `best` and than any priority of the queue, and it is one of them.
pub record IsSmallest (h : Threads) (best : ℤ) (q : List ℕ) (p : ℤ) : Type 0 where
  pub below : p ≤ℤ best
  pub least : (th : ℕ) → Elem th q → p ≤ℤ (h th).priority
  pub reached : (p ≡ best) ⊎ ((th : ℕ) × Elem th q × ((h th).priority ≡ p))

pub smallest_priority-IsSmallest :
    (h : Threads) (best : ℤ) (q : List ℕ) → IsSmallest h best q (smallest_priority h best q)
unfolding smallest_priority
smallest_priority-IsSmallest h best [] = record {
  below = omega arith;
  least = λ th m. absurd m;
  reached = inl refl;
}
smallest_priority-IsSmallest h best (x ∷ q) = elim (Bool-cases (ltb_ℤ (h x).priority best)) [
  | inl e ↦
      let i = smallest_priority-IsSmallest h (h x).priority q in
      rw e (record {
        below = ground (arith, i.below);
        least = λ th m. elim m [ inl eq ↦ rw eq i.below | inr m' ↦ i.least th m' ];
        reached = elim i.reached [
          | inl eq ↦ inr (x, inl refl, sym eq)
          | inr w ↦ inr (w.0, inr w.1, w.2)
        ];
      })
  | inr e ↦
      let i = smallest_priority-IsSmallest h best q in
      rw e (record {
        below = i.below;
        least =
            λ th m. elim m [ inl eq ↦ rw eq (ground (arith, i.below)) | inr m' ↦ i.least th m' ];
        reached = elim i.reached [ inl eq ↦ inl eq | inr w ↦ inr (w.0, inr w.1, w.2) ];
      })
]

-- The queue splits at the thread taken: none before it is in the group.
pub first_of_group-split :
    (h : Threads) (pri : ℤ) (q : List ℕ) (c : ℕ)
    → first_of_group h pri q ≡ some c
    → (l : List ℕ) × (r : List ℕ) × (q ≡ l ++ c ∷ r)
      × (in_group h pri c ≡ true)
      × All (λ th. in_group h pri th ≡ false) l
unfolding first_of_group
first_of_group-split h pri [] c e = absurd (cc)
first_of_group-split h pri (x ∷ q) c e = elim (Bool-cases (in_group h pri x)) [
  | inl i ↦ let same : x ≡ c = ground arith in ([], q, ap (λ k. k ∷ q) same, rw (sym same) i, tt)
  | inr i ↦
      let (l, r, s, g, n) = first_of_group-split h pri q c (rw i at e) in
      (x ∷ l, r, ap (λ k. x ∷ k) s, g, (i, n))
]

pub first_of_group-none :
    (h : Threads) (pri : ℤ) (q : List ℕ) (th : ℕ)
    → first_of_group h pri q ≡ none
    → Elem th q
    → in_group h pri th ≡ false
unfolding first_of_group
first_of_group-none h pri [] th e m = absurd m
first_of_group-none h pri (x ∷ q) th e m = elim (Bool-cases (in_group h pri x)) [
  | inl i ↦ ground arith
  | inr i ↦ elim m [ inl eq ↦ rw eq i | inr m' ↦ first_of_group-none h pri q th (rw i at e) m' ]
]

pub group_count-append :
    (h : Threads) (pri : ℤ) (l r : List ℕ)
    → group_count h pri (l ++ r) ≡ group_count h pri l + group_count h pri r
unfolding group_count
group_count-append h pri [] r = omega arith
group_count-append h pri (x ∷ l) r = ground (arith, group_count-append h pri l r)

pub group_count-none :
    (h : Threads) (pri : ℤ) (l : List ℕ)
    → All (λ th. in_group h pri th ≡ false) l
    → group_count h pri l ≡ 0
unfolding group_count
group_count-none h pri [] n = refl
group_count-none h pri (x ∷ l) n = ground (arith, n.0, group_count-none h pri l n.1)

-- A part of the queue holds none of the group, or a member of it.
pub group_count-cases :
    (h : Threads) (pri : ℤ) (q : List ℕ)
    → ((group_count h pri q ≡ 0) × All (λ th. in_group h pri th ≡ false) q)
      ⊎ ((0 < group_count h pri q) × ((th : ℕ) × Elem th q × (in_group h pri th ≡ true)))
unfolding group_count
group_count-cases h pri [] = inl (refl, tt)
group_count-cases h pri (x ∷ q) = elim (Bool-cases (in_group h pri x)) [
  | inl i ↦ rw i (inr (omega arith, (x, inl refl, i)))
  | inr i ↦ elim (group_count-cases h pri q) [
    | inl a ↦ rw i (inl (a.0, (refl, a.1)))
    | inr b ↦ rw i (inr (b.0, (b.1.0, inr b.1.1, b.1.2)))
  ]
]
