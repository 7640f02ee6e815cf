-- ===== src/Sched/Edf/Loop.antt =====
-- The do-while loop of `schedule_edf_cbs` in Threading-Scheduler/threads_sched.c ends.
use xv6_kernel_extensions.Prelude.{
  ℕ, zero, suc, ℤ, pos, ◌≤◌, ◌<◌, true, false, List, [], ◌∷◌, Option, none, some, ◌+ℤ◌, ◌-ℤ◌,
  if◌then◌else◌, update, length, ◌≡◌, refl, ◌≢◌, inl, inr, arith, Elem, Bool-cases, ◌<ℤ◌, int_laws,
  ap, update_self, update_ne, update_eq, subst, ◌⊎◌, ◌∙◌,
}
use native.Mathlib.Decide.{ℕ_discrete}
use xv6_kernel_extensions.Sched.{Thread, Threads}
use xv6_kernel_extensions.Sched.Pick.{
  pick, IsRanking, IsBest, pick-IsBest, AnyThread, All-AnyThread,
}
use xv6_kernel_extensions.Sched.Deadline.{deadline_cmp-IsRanking}
use xv6_kernel_extensions.Sched.Edf.{
  eligible, edf_better, breaks_bandwidth, postpone, edf_round, edf_loop,
}

-- How many threads of the queue break their bandwidth.
count_breaking : ℤ → Threads → List ℕ → ℕ
count_breaking now h [] = 0
count_breaking now h (th ∷ q) =
    let n = count_breaking now h q in if breaks_bandwidth now (h th) then suc n else n

count_breaking-le-length : (now : ℤ) (h : Threads) (q : List ℕ) → count_breaking now h q ≤ length q
unfolding count_breaking
count_breaking-le-length now h [] = omega arith
count_breaking-le-length now h (x ∷ q) = ground (arith, count_breaking-le-length now h q)

plus_minus : (a b : ℤ) → a +ℤ b -ℤ a ≡ b
plus_minus a b = omega int_laws

-- With the deadline one period ahead and a full budget a thread keeps its bandwidth.
postpone-keeps :
    (now : ℤ) (t : Thread) → pos 0 <ℤ t.period → breaks_bandwidth now (postpone now t) ≡ false
unfolding breaks_bandwidth postpone
postpone-keeps now t p = rw (plus_minus now t.period) (ground arith)

module _ (now : ℤ) (h : Threads) (b : ℕ) (t : Thread) (was : breaks_bandwidth now (h b) ≡ true)
    (is : breaks_bandwidth now t ≡ false) where
  breaks-update :
      (x : ℕ)
      → ((b ≡ x)
          × (breaks_bandwidth now (update h b t x) ≡ false)
          × (breaks_bandwidth now (h x) ≡ true))
        ⊎ ((b ≢ x) × (breaks_bandwidth now (update h b t x) ≡ breaks_bandwidth now (h x)))
  breaks-update x = elim (ℕ_discrete b x) [
    | yes e ↦ inl (
      e,
      subst (λ y. breaks_bandwidth now (update h b t y) ≡ false) e (rw (update_self h b t) is),
      subst (λ y. breaks_bandwidth now (h y) ≡ true) e was,
    )
    | no ne ↦ inr (ne, ap (breaks_bandwidth now) (update_ne h b x t ne))
  ]

  count-update-le : (q : List ℕ) → count_breaking now (update h b t) q ≤ count_breaking now h q
  unfolding count_breaking
  count-update-le [] = omega arith
  count-update-le (x ∷ q) = elim (breaks-update x) [
    | inl c ↦ rw (c.1, c.2) (omega (arith, count-update-le q))
    | inr c ↦ rw c.1 (ground (arith, count-update-le q))
  ]

  count-update-lt :
      (q : List ℕ) → Elem b q → count_breaking now (update h b t) q < count_breaking now h q
  unfolding count_breaking
  count-update-lt [] m = absurd m
  count-update-lt (x ∷ q) m = elim (breaks-update x) [
    | inl c ↦ rw (c.1, c.2) (omega (arith, count-update-le q))
    | inr c ↦ elim m [
      | inl e ↦ absurd (c.0 e)
      | inr m' ↦ rw c.1 (ground (arith, count-update-lt q m'))
    ]
  ]

edf_better-IsRanking : (h : Threads) → IsRanking AnyThread (edf_better h)
unfolding edf_better
edf_better-IsRanking h = deadline_cmp-IsRanking (λ th. (h th).current_deadline) h

pub edf_pick-IsBest :
    (h : Threads) (q : List ℕ)
    → IsBest (eligible h) (edf_better h) q (pick (eligible h) (edf_better h) q)
edf_pick-IsBest h q =
    pick-IsBest AnyThread (eligible h) (edf_better h) (edf_better-IsRanking h) q (All-AnyThread q)

-- What the loop leaves of the threads `h`: no thread to run, or the best one, which keeps its
-- bandwidth; each thread is as it was, or was in the queue, broke its bandwidth and is postponed.
pub record LoopDone (now : ℤ) (q : List ℕ) (h : Threads) (out : Threads × Option ℕ) : Type 0 where
  pub best : IsBest (eligible out.0) (edf_better out.0) q out.1
  pub settled : (b : ℕ) → out.1 ≡ some b → breaks_bandwidth now (out.0 b) ≡ false
  pub heap :
      (th : ℕ)
      → (out.0 th ≡ h th)
        ⊎ (Elem th q × (breaks_bandwidth now (h th) ≡ true) × (out.0 th ≡ postpone now (h th)))

-- The periods of the queued threads are positive.
abbrev pub Periodic : Threads → List ℕ → Type 0
Periodic h q = (th : ℕ) → Elem th q → pos 0 <ℤ (h th).period

postpone-Periodic :
    (now : ℤ) (h : Threads) (b : ℕ) (q : List ℕ)
    → Periodic h q
    → Periodic (update h b (postpone now (h b))) q
unfolding postpone
postpone-Periodic now h b q p th m = elim (ℕ_discrete b th) [
  | yes e ↦ rw (update_eq h b th (postpone now (h b)) e, e) (p th m)
  | no ne ↦ rw (update_ne h b th (postpone now (h b)) ne) (p th m)
]

-- The threads that later rounds leave, seen from before a round that postpones `b`.
heap-update :
    (now : ℤ) (q : List ℕ) (h : Threads) (b : ℕ) (out : Threads × Option ℕ)
    → Elem b q
    → pos 0 <ℤ (h b).period
    → breaks_bandwidth now (h b) ≡ true
    → LoopDone now q (update h b (postpone now (h b))) out
    → (th : ℕ)
    → (out.0 th ≡ h th)
      ⊎ (Elem th q × (breaks_bandwidth now (h th) ≡ true) × (out.0 th ≡ postpone now (h th)))
heap-update now q h b out m p e d th = elim (ℕ_discrete b th) [
  | yes eq ↦
      subst
        (λ x.
          (out.0 x ≡ h x)
          ⊎ (Elem x q × (breaks_bandwidth now (h x) ≡ true) × (out.0 x ≡ postpone now (h x))))
        eq
        (elim (d.heap b) [
          | inl k ↦ inr (m, e, k ∙ update_self h b (postpone now (h b)))
          | inr (i, k, l) ↦
              let f = postpone-keeps now (h b) p in
              let k' : breaks_bandwidth now (postpone now (h b)) ≡ true =
                subst (λ t. breaks_bandwidth now t ≡ true) (update_self h b (postpone now (h b)))
                  k in
              absurd (cc)
        ])
  | no ne ↦
      subst
        (λ t.
          (out.0 th ≡ t)
          ⊎ (Elem th q × (breaks_bandwidth now t ≡ true) × (out.0 th ≡ postpone now t)))
        (update_ne h b th (postpone now (h b)) ne) (d.heap th)
]

edf_loop-LoopDone :
    (fuel : ℕ) (now : ℤ) (q : List ℕ) (h : Threads)
    → Periodic h q
    → count_breaking now h q < fuel
    → (out : Threads × Option ℕ) × (edf_loop fuel now q h ≡ some out) × LoopDone now q h out
unfolding edf_loop edf_round
edf_loop-LoopDone zero now q h p c = absurd (omega arith)
edf_loop-LoopDone (suc fuel) now q h p c =
    round (pick (eligible h) (edf_better h) q) (edf_pick-IsBest h q)
      (λ h' p' c'. edf_loop-LoopDone fuel now q h' p' c')
  where
    round :
        (o : Option ℕ)
        → IsBest (eligible h) (edf_better h) q o
        → ((h' : Threads)
            → Periodic h' q
            → count_breaking now h' q < fuel
            → (out : Threads × Option ℕ) × (edf_loop fuel now q h' ≡ some out)
              × LoopDone now q h' out)
        → (out : Threads × Option ℕ) × (edf_round (λ h'. edf_loop fuel now q h') now h o ≡ some out)
          × LoopDone now q h out
    round none k again =
        ((h, none), refl, record { best = k; settled = λ b e. absurd (cc); heap = λ th. inl refl })
    round (some b) k again = elim (Bool-cases (breaks_bandwidth now (h b))) [
      | inl e ↦
          let t = postpone now (h b) in
          let keeps : breaks_bandwidth now t ≡ false = postpone-keeps now (h b) (p b k.0) in
          let fewer : count_breaking now (update h b t) q < count_breaking now h q =
            count-update-lt now h b t e keeps q k.0 in
          let (out, r, d) =
            again (update h b t) (postpone-Periodic now h b q p) (omega (arith, fewer)) in
          (
            out,
            rw e r,
            record {
              best = d.best;
              settled = d.settled;
              heap = heap-update now q h b out k.0 (p b k.0) e d;
            },
          )
      | inr e ↦ (
        (h, some b),
        rw e refl,
        record {
          best = k;
          settled = λ b' s. subst (λ x. breaks_bandwidth now (h x) ≡ false) (cc) e;
          heap = λ th. inl refl;
        },
      )
    ]

-- If the periods of the queued threads are positive, the loop ends within one round more than the
-- queue has threads. It leaves a thread that no eligible thread precedes and that keeps its
-- bandwidth, or finds every thread throttled; each thread is as it was, or was in the queue, broke
-- its bandwidth, and is postponed once.
pub edf_loop_ends :
    (now : ℤ) (q : List ℕ) (h : Threads)
    → Periodic h q
    → (out : Threads × Option ℕ) × (edf_loop (suc (length q)) now q h ≡ some out)
      × LoopDone now q h out
edf_loop_ends now q h p =
    edf_loop-LoopDone (suc (length q)) now q h p (omega (arith, count_breaking-le-length now h q))
