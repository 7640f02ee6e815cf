-- ===== src/Sched/Edf/Slice.antt =====
-- How long `schedule_edf_cbs` of Threading-Scheduler/threads_sched.c lets the chosen thread run.
use xv6_kernel_extensions.Prelude.{
  ℕ, ℤ, pos, true, false, List, [], ◌∷◌, ltb_ℤ, ◌+ℤ◌, if◌then◌else◌, ◌≡◌, refl, ◌⊎◌, inl, inr,
  arith, Elem, ◌<ℤ◌, ◌≤ℤ◌, +ℤ_parts, subst, sym, Bool-cases, eq_of_parts,
}
use xv6_kernel_extensions.Sched.{Thread, Threads, Args, ReleaseEntry}
use xv6_kernel_extensions.Sched.Edf.{
  soft_throttled, budget_slice, arrival_preempts, arrivals, refill_preempts, refills, edf_slice,
}
use xv6_kernel_extensions.Sched.Edf.Preempts.{
  ArrivalPreempts, RefillPreempts, arrival_preempts_lem, refill_preempts_lem, cut_at, cut_at-le,
  cut_at_yields, EndsAt, Reached, Reached-trans, next-Reached,
}

-- At `t` a thread is released, or a throttled thread of the queue is refilled, that preempts.
abbrev pub Event : Threads → Args → ℕ → ℤ → Type 0
Event h args best t =
    ((e : ReleaseEntry) × Elem e args.release_queue
      × ArrivalPreempts h best e
      × (e.release_time ≡ t))
    ⊎ ((th : ℕ) × Elem th args.run_queue × RefillPreempts h best th × ((h th).current_deadline ≡ t))

-- The time that a thread has: what remains of its work, and of its budget if it is soft.
abbrev pub Limit : Thread → ℤ → Type 0
Limit t limit =
    ((t.cbs.is_hard_rt ≡ true) × (limit ≡ t.remaining_time))
    ⊎ ((t.cbs.is_hard_rt ≡ false)
        × (limit ≤ℤ t.remaining_time)
        × (limit ≤ℤ t.cbs.remaining_budget)
        × ((limit ≡ t.remaining_time) ⊎ (limit ≡ t.cbs.remaining_budget)))

-- The time that the chosen thread gets.
pub record EdfSlice (h : Threads) (args : Args) (best : ℕ) (time : ℤ) : Type 0 where
  pub limit : ℤ
  pub limited : Limit (h best) limit
  -- It lasts until the limit, and for one tick if nothing is left; or exactly until an event that
  -- preempts, and for one tick if that is now.
  pub ends :
      ((pos 0 <ℤ limit → time ≡ limit) × (limit ≤ℤ pos 0 → time ≡ pos 1))
      ⊎ ((t : ℤ) × Event h args best t
          × (t <ℤ args.current_time +ℤ limit)
          × EndsAt args.current_time time t)
  pub positive : pos 1 ≤ℤ time
  pub within : pos 0 <ℤ limit → time ≤ℤ limit
  -- No event that preempts falls inside of it, but within its first tick.
  pub undisturbed :
      (t : ℤ)
      → Event h args best t
      → args.current_time ≤ℤ t
      → (args.current_time +ℤ time ≤ℤ t) ⊎ (time ≡ pos 1)

module _ (h : Threads) (now : ℤ) (best : ℕ) where
  arrivals-le : (s : ℤ) (es : List ReleaseEntry) → arrivals h now best s es ≤ℤ s
  unfolding arrivals
  arrivals-le s [] = omega arith
  arrivals-le s (e ∷ es) =
      let s' = cut_at now s e.release_time true (arrival_preempts h best e) in
      omega
        (arith, arrivals-le s' es, cut_at-le now s e.release_time true (arrival_preempts h best e))

  arrivals_yield :
      (s : ℤ) (es : List ReleaseEntry) (e : ReleaseEntry)
      → Elem e es
      → now ≤ℤ e.release_time
      → arrival_preempts h best e ≡ true
      → (now +ℤ arrivals h now best s es ≤ℤ e.release_time) ⊎ (arrivals h now best s es ≤ℤ pos 1)
  unfolding arrivals
  arrivals_yield s [] e m later p = absurd m
  arrivals_yield s (x ∷ es) e m later p =
      let s' = cut_at now s x.release_time true (arrival_preempts h best x) in
      elim m [
        | inl eq ↦ rw eq (
            cut_at_yields now s x.release_time (arrivals h now best s' es) true
              (arrival_preempts h best x) (subst (λ y. now ≤ℤ y.release_time) eq later) refl
              (subst (λ y. arrival_preempts h best y ≡ true) eq p) (arrivals-le s' es))
        | inr m' ↦ arrivals_yield s' es e m' later p
      ]

  arrivals-Reached :
      (event : ℤ → Type 0) (s : ℤ) (es : List ReleaseEntry)
      → ((e : ReleaseEntry) → Elem e es → arrival_preempts h best e ≡ true → event e.release_time)
      → Reached event now s (arrivals h now best s es)
  unfolding arrivals
  arrivals-Reached event s [] v = inl refl
  arrivals-Reached event s (x ∷ es) v =
      let p = arrival_preempts h best x in
      let s' = cut_at now s x.release_time true p in
      next-Reached event now s x.release_time (arrivals h now best s' es) true p
        (λ a e. v x (inl refl) e) (arrivals-Reached event s' es (λ e m. v e (inr m)))

  refills-le : (s : ℤ) (q : List ℕ) → refills h now best s q ≤ℤ s
  unfolding refills
  refills-le s [] = omega arith
  refills-le s (x ∷ q) =
      let a = soft_throttled (h x) in
      let s' = cut_at now s (h x).current_deadline a (refill_preempts h best x) in
      omega (
        arith,
        refills-le s' q,
        cut_at-le now s (h x).current_deadline a (refill_preempts h best x),
      )

  refills_yield :
      (s : ℤ) (q : List ℕ) (th : ℕ)
      → Elem th q
      → now ≤ℤ (h th).current_deadline
      → soft_throttled (h th) ≡ true
      → refill_preempts h best th ≡ true
      → (now +ℤ refills h now best s q ≤ℤ (h th).current_deadline)
        ⊎ (refills h now best s q ≤ℤ pos 1)
  unfolding refills
  refills_yield s [] th m later soft p = absurd m
  refills_yield s (x ∷ q) th m later soft p =
      let s' =
        cut_at now s (h x).current_deadline (soft_throttled (h x)) (refill_preempts h best x) in
      elim m [
        | inl eq ↦ rw eq (
            cut_at_yields now s (h x).current_deadline (refills h now best s' q)
              (soft_throttled (h x)) (refill_preempts h best x)
              (subst (λ y. now ≤ℤ (h y).current_deadline) eq later)
              (subst (λ y. soft_throttled (h y) ≡ true) eq soft)
              (subst (λ y. refill_preempts h best y ≡ true) eq p) (refills-le s' q))
        | inr m' ↦ refills_yield s' q th m' later soft p
      ]

  refills-Reached :
      (event : ℤ → Type 0) (s : ℤ) (q : List ℕ)
      → ((th : ℕ)
          → Elem th q
          → soft_throttled (h th) ≡ true
          → refill_preempts h best th ≡ true
          → event (h th).current_deadline)
      → Reached event now s (refills h now best s q)
  unfolding refills
  refills-Reached event s [] v = inl refl
  refills-Reached event s (x ∷ q) v =
      let a = soft_throttled (h x) in
      let p = refill_preempts h best x in
      let s' = cut_at now s (h x).current_deadline a p in
      next-Reached event now s (h x).current_deadline (refills h now best s' q) a p
        (λ d e. v x (inl refl) d e) (refills-Reached event s' q (λ th m. v th (inr m)))

budget_slice-Limit : (t : Thread) → Limit t (budget_slice t)
unfolding budget_slice
budget_slice-Limit t = elim (Bool-cases t.cbs.is_hard_rt) [
  | inl e ↦ rw e (inl (refl, refl))
  | inr e ↦ elim (Bool-cases (ltb_ℤ t.remaining_time t.cbs.remaining_budget)) [
    | inl l ↦ rw (e, l) (inr (refl, ground arith, ground arith, inl refl))
    | inr l ↦ rw (e, l) (inr (refl, ground arith, ground arith, inr refl))
  ]
]

-- Where one tick is allowed, so is a time raised to one tick.
abbrev at_least_one : ℤ → ℤ
at_least_one s = if ltb_ℤ (pos 0) s then s else pos 1

at_least_one_before :
    (now s t : ℤ)
    → now ≤ℤ t
    → (now +ℤ s ≤ℤ t) ⊎ (s ≤ℤ pos 1)
    → (now +ℤ at_least_one s ≤ℤ t) ⊎ (at_least_one s ≡ pos 1)
at_least_one_before now s t g k = elim (Bool-cases (ltb_ℤ (pos 1) s)) [
  | inl e ↦
      let a : ltb_ℤ (pos 0) s ≡ true = ground arith in
      inl (rw a (elim k [ inl y ↦ y | inr y ↦ absurd (ground arith) ]))
  | inr e ↦ inr (eq_of_parts (at_least_one s) (pos 1) (ground arith))
]

at_least_one-EndsAt : (now s t : ℤ) → EndsAt now s t → EndsAt now (at_least_one s) t
at_least_one-EndsAt now s t (g, l, n) = (
  g,
  λ y.
      (let e = l y in let a : ltb_ℤ (pos 0) s ≡ true = ground (arith, e, +ℤ_parts now s) in rw a e),
  λ y. (let e = n y in rw e refl),
)

at_least_one-ends :
    (event : ℤ → Type 0) (now limit s : ℤ)
    → Reached event now limit s
    → ((pos 0 <ℤ limit → at_least_one s ≡ limit) × (limit ≤ℤ pos 0 → at_least_one s ≡ pos 1))
      ⊎ ((t : ℤ) × event t × (t <ℤ now +ℤ limit) × EndsAt now (at_least_one s) t)
at_least_one-ends event now limit s (inl e) = rw e (
    inl (
      (λ l. eq_of_parts (at_least_one limit) limit (ground arith)),
      (λ l. eq_of_parts (at_least_one limit) (pos 1) (ground arith)),
    ))
at_least_one-ends event now limit s (inr (t, v, l, k)) =
    inr (t, v, l, at_least_one-EndsAt now s t k)

-- The chosen thread has as its limit its remaining time, and if it is soft the smaller of that and
-- its remaining budget. It runs until the limit, or exactly until the release of a thread, or the
-- refill of a throttled thread, that comes before the limit and preempts by the deadline it then
-- has; for one tick if nothing is left or that event is now. No other such event comes before its
-- end, but within a slice of one tick.
pub edf_slice-EdfSlice :
    (h : Threads) (args : Args) (best : ℕ) → EdfSlice h args best (edf_slice h args best)
unfolding edf_slice
edf_slice-EdfSlice h args best = record {
  limit = s₀;
  limited = budget_slice-Limit (h best);
  ends = at_least_one-ends event now s₀ s (
      Reached-trans event now s₀ s₁ s (arrivals-le h now best s₀ es)
        (arrivals-Reached h now best event s₀ es
          (λ e m p. inl (e, m, (arrival_preempts_lem h best e).0 p, refl)))
        (refills-Reached h now best event s₁ q (λ th m a p.
          inr (th, m, (ground arith, ground arith, (refill_preempts_lem h best th).0 p), refl))));
  positive = ground arith;
  within = λ l. ground (arith, le);
  undisturbed = λ t v g. at_least_one_before now s t g (before t v g);
}
  where
    now : ℤ
    now = args.current_time

    q : List ℕ
    q = args.run_queue

    es : List ReleaseEntry
    es = args.release_queue

    event : ℤ → Type 0
    event = Event h args best

    s₀ : ℤ
    s₀ = budget_slice (h best)

    s₁ : ℤ
    s₁ = arrivals h now best s₀ es

    s : ℤ
    s = refills h now best s₁ q

    le : s ≤ℤ s₀
    le = omega (arith, refills-le h now best s₁ q, arrivals-le h now best s₀ es)

    before : (t : ℤ) → event t → now ≤ℤ t → (now +ℤ s ≤ℤ t) ⊎ (s ≤ℤ pos 1)
    before t (inl (e, m, p, eq)) g =
        let le₁ = refills-le h now best s₁ q in
        elim (arrivals_yield h now best s₀ es e m (subst (λ y. now ≤ℤ y) (sym eq) g)
          ((arrival_preempts_lem h best e).1 p)) [
            | inl y ↦ inl (
                subst (λ z. now +ℤ s ≤ℤ z) eq
                  (omega (arith, y, le₁, +ℤ_parts now s, +ℤ_parts now s₁)))
            | inr y ↦ inr (omega (arith, y, le₁))
          ]
    before t (inr (th, m, (hard, throttled, p), eq)) g =
        subst (λ z. (now +ℤ s ≤ℤ z) ⊎ (s ≤ℤ pos 1)) eq
          (refills_yield h now best s₁ q th m (subst (λ y. now ≤ℤ y) (sym eq) g) (ground arith)
            ((refill_preempts_lem h best th).1 p))
