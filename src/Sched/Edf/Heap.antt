-- ===== src/Sched/Edf/Heap.antt =====
-- What the loops of `schedule_edf_cbs` in Threading-Scheduler/threads_sched.c make of the threads.
use xv6_kernel_extensions.Prelude.{
  ℕ, ℤ, pos, true, false, List, [], ◌∷◌, ◌+ℤ◌, ◌-ℤ◌, ◌*ℤ◌, ◌≡◌, refl, inl, inr, ◌⊎◌, arith, Elem,
  ◌<ℤ◌, ◌≤ℤ◌, update, update_eq, update_ne, ap, sym, ◌∙◌, Bool-cases, ◌↔◌, -ℤ_parts, ◌&&◌, not,
  leb_ℤ,
}
use native.Mathlib.Decide.{ℕ_discrete}
use xv6_kernel_extensions.Sched.{Thread, Threads}
use xv6_kernel_extensions.Sched.Edf.{
  for_each, replenish, throttle, soft_throttled, breaks_bandwidth, postpone,
}

-- The budget of `t` has run out and its deadline has come.
abbrev pub IsDue : ℤ → Thread → Type 0
IsDue now t = (t.cbs.is_hard_rt ≡ false) × (t.cbs.is_throttled ≡ true) × (t.current_deadline ≤ℤ now)

-- `t'` is `t` with a full budget and the next deadline if it is due, and `t` otherwise.
abbrev pub Replenished : ℤ → Thread → Thread → Type 0
Replenished now t t' =
    (IsDue now t
      × (t' ≡ record t {
        current_deadline = t.current_deadline +ℤ t.period;
        cbs = record (t.cbs) { remaining_budget = t.cbs.budget; is_throttled = false };
      }))
    ⊎ ((¬ IsDue now t) × (t' ≡ t))

abbrev pub IsSpent : Thread → Type 0
IsSpent t =
    (t.cbs.is_hard_rt ≡ false) × (t.cbs.is_throttled ≡ false) × (t.cbs.remaining_budget ≤ℤ pos 0)

-- `t'` is `t`, throttled at `now` if it is soft and has spent its budget.
abbrev pub Throttled : ℤ → Thread → Thread → Type 0
Throttled now t t' =
    (IsSpent t
      × (t' ≡ record t {
        cbs = record (t.cbs) { is_throttled = true; throttled_arrived_time = now };
      }))
    ⊎ ((¬ IsSpent t) × (t' ≡ t))

-- A soft thread with budget left, whose deadline has come, or whose budget left is more than its
-- share of the time until then.
abbrev pub BreaksShare : ℤ → Thread → Type 0
BreaksShare now t =
    (t.cbs.is_hard_rt ≡ false)
    × (pos 0 <ℤ t.cbs.remaining_budget)
    × ((t.current_deadline ≤ℤ now)
        ⊎ (t.cbs.budget *ℤ (t.current_deadline -ℤ now) <ℤ t.cbs.remaining_budget *ℤ t.period))

-- `t'` is `t`, or `t` breaks its share and `t'` has a full budget and a deadline one period ahead.
abbrev pub Postponed : ℤ → Thread → Thread → Type 0
Postponed now t t' =
    (t' ≡ t)
    ⊎ (BreaksShare now t
        × (t' ≡ record t {
          current_deadline = now +ℤ t.period;
          cbs = record (t.cbs) { remaining_budget = t.cbs.budget };
        }))

-- The threads after the first loop: those of the queue are replenished.
abbrev pub Refreshed : ℤ → List ℕ → Threads → Threads → Type 0
Refreshed now q h h' =
    (th : ℕ) → (Elem th q → Replenished now (h th) (h' th)) × ((¬ Elem th q) → h' th ≡ h th)

-- The threads that the scheduler leaves: those of the queue are replenished, then throttled, then
-- postponed, each where its condition holds.
abbrev pub Served : ℤ → List ℕ → Threads → Threads → Type 0
Served now q h h' =
    (th : ℕ)
    → (Elem th q
        → (t u : Thread) × Replenished now (h th) t × Throttled now t u × Postponed now u (h' th))
      × ((¬ Elem th q) → h' th ≡ h th)

pub replenish-Replenished : (now : ℤ) (t : Thread) → Replenished now t (replenish now t)
unfolding replenish
replenish-Replenished now t = elim (Bool-cases (soft_throttled t && leb_ℤ t.current_deadline now)) [
  | inl e ↦ rw e (inl ((ground arith, ground arith, ground arith), refl))
  | inr e ↦ rw e (inr (λ d. (let a = d.0 in let b = d.1 in let c = d.2 in ground arith), refl))
]

pub throttle-Throttled : (now : ℤ) (t : Thread) → Throttled now t (throttle now t)
unfolding throttle
throttle-Throttled now t =
    elim (Bool-cases
      ((not t.cbs.is_hard_rt && not t.cbs.is_throttled) && leb_ℤ t.cbs.remaining_budget (pos 0))) [
        | inl e ↦ rw e (inl ((ground arith, ground arith, ground arith), refl))
        | inr e ↦
            rw e (inr (λ d. (let a = d.0 in let b = d.1 in let c = d.2 in ground arith), refl))
      ]

pub breaks_bandwidth-BreaksShare :
    (now : ℤ) (t : Thread) → (breaks_bandwidth now t ≡ true) ↔ BreaksShare now t
unfolding breaks_bandwidth
breaks_bandwidth-BreaksShare now t = (
  λ e. (ground arith, ground arith, ground (arith, -ℤ_parts t.current_deadline now)),
  λ d.
      (let a = d.0 in
        let b = d.1 in let c = d.2 in ground (arith, -ℤ_parts t.current_deadline now)),
)

pub postpone-Postponed :
    (now : ℤ) (t : Thread) → breaks_bandwidth now t ≡ true → Postponed now t (postpone now t)
unfolding postpone
postpone-Postponed now t e = inr ((breaks_bandwidth-BreaksShare now t).0 e, refl)

replenish_again : (now : ℤ) (t : Thread) → replenish now (replenish now t) ≡ replenish now t
unfolding replenish
replenish_again now t = elim (Bool-cases (soft_throttled t && leb_ℤ t.current_deadline now)) [
  | inl e ↦ rw e (elim (Bool-cases t.cbs.is_hard_rt) [ inl s ↦ rw s refl | inr s ↦ rw s refl ])
  | inr e ↦ rw (e, e) refl
]

throttle_again : (now : ℤ) (t : Thread) → throttle now (throttle now t) ≡ throttle now t
unfolding throttle
throttle_again now t =
    elim (Bool-cases
      ((not t.cbs.is_hard_rt && not t.cbs.is_throttled) && leb_ℤ t.cbs.remaining_budget (pos 0))) [
        | inl e ↦
            rw e (elim (Bool-cases t.cbs.is_hard_rt) [ inl s ↦ rw s refl | inr s ↦ rw s refl ])
        | inr e ↦ rw (e, e) refl
      ]

module _ (f : Thread → Thread) (again : (t : Thread) → f (f t) ≡ f t) where
  -- A thread of the queue is written, whether it is there once or more often.
  for_each-at :
      (q : List ℕ) (h : Threads) (p : ℕ) → Elem p q ⊎ (h p ≡ f (h p)) → for_each f h q p ≡ f (h p)
  unfolding for_each
  for_each-at [] h p (inl m) = absurd m
  for_each-at [] h p (inr e) = e
  for_each-at (x ∷ q) h p m = elim (ℕ_discrete x p) [
    | yes e ↦
        let at : update h x (f (h x)) p ≡ f (h p) =
          update_eq h x p (f (h x)) e ∙ ap (λ y. f (h y)) e in
        for_each-at q (update h x (f (h x))) p (inr (rw at (sym (again (h p)))))
        ∙ (ap f at ∙ again (h p))
    | no ne ↦
        let at : update h x (f (h x)) p ≡ h p = update_ne h x p (f (h x)) ne in
        for_each-at q (update h x (f (h x))) p (elim m [
          | inl (inl e) ↦ absurd (ne (sym e))
          | inl (inr k) ↦ inl k
          | inr e ↦ inr (rw at e)
        ])
        ∙ ap f at
  ]

  for_each-off : (q : List ℕ) (h : Threads) (p : ℕ) → (¬ Elem p q) → for_each f h q p ≡ h p
  unfolding for_each
  for_each-off [] h p n = refl
  for_each-off (x ∷ q) h p n =
      for_each-off q (update h x (f (h x))) p (λ m. n (inr m))
      ∙ update_ne h x p (f (h x)) (λ e. n (inl (sym e)))

pub replenish-at :
    (now : ℤ) (h : Threads) (q : List ℕ) (p : ℕ)
    → Elem p q
    → for_each (replenish now) h q p ≡ replenish now (h p)
replenish-at now h q p m = for_each-at (replenish now) (replenish_again now) q h p (inl m)

pub throttle-at :
    (now : ℤ) (h : Threads) (q : List ℕ) (p : ℕ)
    → Elem p q
    → for_each (throttle now) h q p ≡ throttle now (h p)
throttle-at now h q p m = for_each-at (throttle now) (throttle_again now) q h p (inl m)

pub for_each-Refreshed :
    (now : ℤ) (h : Threads) (q : List ℕ) → Refreshed now q h (for_each (replenish now) h q)
for_each-Refreshed now h q th = (
  λ m. rw (replenish-at now h q th m) (replenish-Replenished now (h th)),
  λ n. for_each-off (replenish now) (replenish_again now) q h th n,
)

-- What the loop for the bandwidth leaves of the threads after both other loops.
pub loops-Served :
    (now : ℤ) (h h' : Threads) (q : List ℕ)
    → ((th : ℕ)
        → (h' th ≡ for_each (throttle now) (for_each (replenish now) h q) q th)
          ⊎ (Elem th q
              × Postponed now
                  (for_each (throttle now) (for_each (replenish now) h q) q th)
                  (h' th)))
    → Served now q h h'
loops-Served now h h' q k th = (queued, other)
  where
    h₁ : Threads
    h₁ = for_each (replenish now) h q

    h₂ : Threads
    h₂ = for_each (throttle now) h₁ q

    post : Postponed now (h₂ th) (h' th)
    post = elim (k th) [ inl e ↦ inl e | inr p ↦ p.1 ]

    queued :
        Elem th q
        → (t u : Thread) × Replenished now (h th) t × Throttled now t u × Postponed now u (h' th)
    queued m = (
      h₁ th,
      h₂ th,
      (for_each-Refreshed now h q th).0 m,
      rw (throttle-at now h₁ q th m) (throttle-Throttled now (h₁ th)),
      post,
    )

    other : (¬ Elem th q) → h' th ≡ h th
    other n = elim (k th) [
      | inl e ↦
          e
          ∙ (for_each-off (throttle now) (throttle_again now) q h₁ th n
              ∙ for_each-off (replenish now) (replenish_again now) q h th n)
      | inr p ↦ absurd (n p.0)
    ]
