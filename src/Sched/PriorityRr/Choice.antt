-- ===== src/Sched/PriorityRr/Choice.antt =====
-- What `schedule_priority_rr` of Threading-Scheduler/threads_sched.c returns and leaves queued.
use xv6_kernel_extensions.Prelude.{
  none, ℕ, suc, ℤ, pos, ◌+◌, true, false, List, [], ◌∷◌, ◌++◌, some, ltb, ltb_ℤ, ◌==◌, int_max, ◌≡◌,
  refl, ◌≢◌, ◌⊎◌, inl, inr, Elem, All, arith, Bool-cases, ◌≤ℤ◌, ap, eq_of_parts, pos_part, neg_part,
  sym, Option-cases, ◌∙◌,
}
use xv6_kernel_extensions.Sched.{Threads, Result, ReleaseEntry}
use xv6_kernel_extensions.Sched.PriorityRr.{
  smallest_priority, in_group, first_of_group, group_count, rr_slice, quantum, rr_dispatch,
  schedule_priority_rr,
}
use xv6_kernel_extensions.Sched.PriorityRr.Group.{
  IsSmallest, smallest_priority-IsSmallest, first_of_group-split, first_of_group-none,
  group_count-append, group_count-none, group_count-cases,
}

-- `c` is alone in its group: it may run to its end and the queue stays; or another thread of its
-- priority waits behind it: it runs for two ticks at most and goes to the tail of the queue.
abbrev pub Rotates : Threads → (l r : List ℕ) → ℕ → ℤ → List ℕ → Type 0
Rotates h l r c time q' =
    (All (λ th. (h th).priority ≢ (h c).priority) r
      × (q' ≡ l ++ c ∷ r)
      × (time ≡ (h c).remaining_time))
    ⊎ (((th : ℕ) × Elem th r × ((h th).priority ≡ (h c).priority))
        × (q' ≡ (l ++ r) ++ c ∷ [])
        × (time ≤ℤ pos 2)
        × (time ≤ℤ (h c).remaining_time)
        × ((time ≡ pos 2) ⊎ (time ≡ (h c).remaining_time)))

-- The thread chosen from a queue, the time it gets and the queue left.
pub record RrChoice (h : Threads) (q : List ℕ) (out : Result × List ℕ) : Type 0 where
  pub chosen : ℕ
  pub ahead : List ℕ
  pub behind : List ℕ
  pub member : out.0.member ≡ some chosen
  pub queued : q ≡ ahead ++ chosen ∷ behind
  pub least : (th : ℕ) → Elem th q → (h chosen).priority ≤ℤ (h th).priority
  pub first : All (λ th. (h th).priority ≢ (h chosen).priority) ahead
  pub rotates : Rotates h ahead behind chosen out.0.allocated_time out.1

-- What is returned and left: an idle tick and an empty queue, or a choice.
abbrev pub RrOutcome : Threads → List ℕ → Result × List ℕ → Type 0
RrOutcome h [] out = (out.0.member ≡ none) × (out.0.allocated_time ≡ pos 1) × (out.1 ≡ [])
RrOutcome h (th ∷ q) out = RrChoice h (th ∷ q) out

not_in_group :
    (h : Threads) (pri : ℤ) (c th : ℕ)
    → in_group h pri c ≡ true
    → in_group h pri th ≡ false
    → (h th).priority ≢ (h c).priority
not_in_group h pri c th i n e =
    let e' : pos_part (h th).priority + neg_part (h c).priority
        ≡ pos_part (h c).priority + neg_part (h th).priority =
      rw e refl in
    ground arith

All-not_in_group :
    (h : Threads) (pri : ℤ) (c : ℕ) (l : List ℕ)
    → in_group h pri c ≡ true
    → All (λ th. in_group h pri th ≡ false) l
    → All (λ th. (h th).priority ≢ (h c).priority) l
All-not_in_group h pri c [] i n = tt
All-not_in_group h pri c (x ∷ l) i n =
    (not_in_group h pri c x i n.0, All-not_in_group h pri c l i n.1)

All-ne :
    (h : Threads) (c : ℕ) (l : List ℕ)
    → All (λ th. (h th).priority ≢ (h c).priority) l
    → All (λ th. th ≢ c) l
All-ne h c [] n = tt
All-ne h c (x ∷ l) n = (λ e. n.0 (ap (λ t. (h t).priority) e), All-ne h c l n.1)

in_group→eq : (h : Threads) (pri : ℤ) (c : ℕ) → in_group h pri c ≡ true → (h c).priority ≡ pri
in_group→eq h pri c i = eq_of_parts (h c).priority pri (ground arith)

rr_slice_bounds :
    (n : ℕ) (t : ℤ)
    → (n == 1) ≡ false
    → (rr_slice n t ≤ℤ pos 2) × (rr_slice n t ≤ℤ t) × ((rr_slice n t ≡ pos 2) ⊎ (rr_slice n t ≡ t))
unfolding rr_slice
rr_slice_bounds n t e = elim (Bool-cases (ltb_ℤ t quantum)) [
  | inl s ↦ rw (e, s) (ground arith, ground arith, inr refl)
  | inr s ↦ rw (e, s) (ground arith, ground arith, inl refl)
]

count-split :
    (h : Threads) (pri : ℤ) (l r : List ℕ) (c : ℕ)
    → in_group h pri c ≡ true
    → All (λ th. in_group h pri th ≡ false) l
    → group_count h pri (l ++ c ∷ r) ≡ suc (group_count h pri r)
count-split h pri l r c i n =
    omega (arith, group_count-append h pri l (c ∷ r), group_count-none h pri l n, count_member)
  where
    count_member : group_count h pri (c ∷ r) ≡ suc (group_count h pri r)
    count_member = unfold group_count in rw i

-- What is documented of `list_move_tail`: the node goes to the end, the others keep their order.
abbrev pub MovesToTail : (ℕ → List ℕ → List ℕ) → Type 0
MovesToTail move_tail =
    (l r : List ℕ) (c : ℕ) → All (λ th. th ≢ c) l → move_tail c (l ++ c ∷ r) ≡ (l ++ r) ++ c ∷ []

module _ (move_tail : ℕ → List ℕ → List ℕ) (moves : MovesToTail move_tail) (h : Threads) (pri : ℤ)
    (l r : List ℕ) (c : ℕ) where
  dispatch-alone :
      (n : ℕ)
      → n ≡ 1
      → rr_dispatch move_tail h (l ++ c ∷ r) n (some c)
        ≡ some (record { member = some c; allocated_time = (h c).remaining_time }, l ++ c ∷ r)
  unfolding rr_dispatch rr_slice
  dispatch-alone n e = rw e

  dispatch-shared :
      (n : ℕ)
      → (n == 1) ≡ false
      → ltb 1 n ≡ true
      → All (λ th. th ≢ c) l
      → rr_dispatch move_tail h (l ++ c ∷ r) n (some c)
        ≡ some (
          record { member = some c; allocated_time = rr_slice n (h c).remaining_time },
          (l ++ r) ++ c ∷ [],
        )
  unfolding rr_dispatch
  dispatch-shared n e g d = rw (g, moves l r c d)

  dispatch-Rotates :
      in_group h pri c ≡ true
      → All (λ th. in_group h pri th ≡ false) l
      → (out : Result × List ℕ) × (rr_dispatch move_tail h
            (l ++ c ∷ r)
            (group_count h pri (l ++ c ∷ r))
            (some c)
          ≡ some out)
        × (out.0.member ≡ some c)
        × Rotates h l r c out.0.allocated_time out.1
  dispatch-Rotates i n = elim (group_count-cases h pri r) [
    | inl a ↦ (
      (record { member = some c; allocated_time = (h c).remaining_time }, l ++ c ∷ r),
      dispatch-alone (group_count h pri (l ++ c ∷ r)) (count-split h pri l r c i n ∙ ap suc a.0),
      refl,
      inl (All-not_in_group h pri c r i a.1, refl, refl),
    )
    | inr b ↦
        let k = group_count h pri (l ++ c ∷ r) in
        let e : k ≡ suc (group_count h pri r) = count-split h pri l r c i n in
        let one : (k == 1) ≡ false = ground (arith, b.0) in
        let (th, m, g) = b.1 in
        let (two, rem, which) = rr_slice_bounds k (h c).remaining_time one in
        (
          (
            record { member = some c; allocated_time = rr_slice k (h c).remaining_time },
            (l ++ r) ++ c ∷ [],
          ),
          dispatch-shared k one (ground (arith, b.0))
              (All-ne h c l (All-not_in_group h pri c l i n)),
          refl,
          inr (
            (th, m, in_group→eq h pri th g ∙ sym (in_group→eq h pri c i)),
            refl,
            two,
            rem,
            which,
          ),
        )
  ]

  dispatch_queue :
      (q : List ℕ)
      → q ≡ l ++ c ∷ r
      → in_group h pri c ≡ true
      → All (λ th. in_group h pri th ≡ false) l
      → (out : Result × List ℕ) × (rr_dispatch move_tail h q (group_count h pri q) (some c)
          ≡ some out)
        × (out.0.member ≡ some c)
        × Rotates h l r c out.0.allocated_time out.1
  dispatch_queue q s i n = rw s (dispatch-Rotates i n)

-- Some thread of a queue is in the group of the smallest priority.
member_of_group :
    (h : Threads) (th : ℕ) (q : List ℕ) (p : ℤ)
    → (h th).priority ≤ℤ int_max
    → IsSmallest h int_max (th ∷ q) p
    → (t : ℕ) × Elem t (th ∷ q) × (in_group h p t ≡ true)
member_of_group h th q p fits i = elim i.reached [
  | inl top ↦ (th, inl refl, ground (arith, i.below, i.least th (inl refl)))
  | inr w ↦ (w.0, w.1, rw w.2 (ground arith))
]

-- Where `list_move_tail` does what it documents, and with priorities that fit an int, the scheduler never uses a null thread. On an empty run queue it
-- idles for one tick. Otherwise it picks the first thread, in queue order, of the least priority
-- number. A thread alone in its group runs to its end and the queue stays as it was; any other
-- runs for the smaller of two ticks and its remaining time, and moves to the tail of the queue,
-- which keeps the order of the others.
pub schedule_priority_rr-RrOutcome :
    (move_tail : ℕ → List ℕ → List ℕ)
    → MovesToTail move_tail
    → (h : Threads) (now : ℤ) (releases : List ReleaseEntry) (q : List ℕ)
    → All (λ t. (h t).priority ≤ℤ int_max) q
    → (out : Result × List ℕ) × (schedule_priority_rr move_tail h
          (record { current_time = now; run_queue = q; release_queue = releases })
        ≡ some out)
      × RrOutcome h q out
unfolding schedule_priority_rr
schedule_priority_rr-RrOutcome move_tail moves h now releases [] fits =
    ((record { member = none; allocated_time = pos 1 }, []), refl, (refl, refl, refl))
schedule_priority_rr-RrOutcome move_tail moves h now releases (th ∷ q) fits =
    let pri = smallest_priority h int_max (th ∷ q) in
    let i = smallest_priority-IsSmallest h int_max (th ∷ q) in
    let (t, m, g) = member_of_group h th q pri fits.0 i in
    elim (Option-cases (first_of_group h pri (th ∷ q))) [
      | inl e ↦ absurd (let z = first_of_group-none h pri (th ∷ q) t e m in cc)
      | inr f ↦
          let c = f.0 in
          let (l, r, s, gc, n) = first_of_group-split h pri (th ∷ q) c f.1 in
          let (out, d, mem, rot) = dispatch_queue move_tail moves h pri l r c (th ∷ q) s gc n in
          (
            out,
            rw f.1 d,
            record {
              chosen = c;
              ahead = l;
              behind = r;
              member = mem;
              queued = s;
              least = λ t' m'. rw (in_group→eq h pri c gc) (i.least t' m');
              first = All-not_in_group h pri c l gc n;
              rotates = rot;
            },
          )
    ]
