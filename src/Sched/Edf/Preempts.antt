-- ===== src/Sched/Edf/Preempts.antt =====
-- The events that cut a time slice short in `schedule_edf_cbs` of Threading-Scheduler/threads_sched.c.
use xv6_kernel_extensions.Prelude.{
  ℕ, ℤ, pos, Bool, true, false, ◌+ℤ◌, ◌-ℤ◌, if◌then◌else◌, ◌&&◌, ◌≡◌, ◌≢◌, refl, sym, inl, inr, ◌⊎◌,
  arith, ◌<ℤ◌, ◌≤ℤ◌, -ℤ_parts, +ℤ_parts, subst, update, update_self, update_ne, ◌↔◌, Bool-cases,
  eq_of_parts,
}
use native.Mathlib.Decide.{ℕ_discrete}
use xv6_kernel_extensions.Sched.{Thread, Threads, ReleaseEntry}
use xv6_kernel_extensions.Sched.Edf.{
  edf_better, cut_short, comes_within, arrival_preempts, refill_preempts,
}

-- The thread `a` with the deadline `d` is another thread than `b`, and comes before it.
abbrev pub ComesBefore : Threads → ℕ → ℤ → ℕ → Type 0
ComesBefore h a d b =
    (a ≢ b)
    × ((d <ℤ (h b).current_deadline) ⊎ ((d ≤ℤ (h b).current_deadline) × ((h a).id <ℤ (h b).id)))

-- The deadline of a thread that is released is a period after its release.
abbrev pub ArrivalPreempts : Threads → ℕ → ReleaseEntry → Type 0
ArrivalPreempts h best e = ComesBefore h e.thrd (e.release_time +ℤ (h e.thrd).period) best

-- A throttled soft thread is refilled at its deadline, and then has the next.
abbrev pub RefillPreempts : Threads → ℕ → ℕ → Type 0
RefillPreempts h best th =
    ((h th).cbs.is_hard_rt ≡ false)
    × ((h th).cbs.is_throttled ≡ true)
    × ComesBefore h th ((h th).current_deadline +ℤ (h th).period) best

better_self : (h : Threads) (a b : ℕ) → a ≡ b → edf_better h a b ≡ false
unfolding edf_better
better_self h a b e = rw e (ground arith)

better-update :
    (h : Threads) (a b : ℕ) (t : Thread)
    → t.id ≡ (h a).id
    → (edf_better (update h a t) a b ≡ true) ↔ ComesBefore h a t.current_deadline b
better-update h a b t same = elim (ℕ_discrete a b) [
  | yes e ↦ (λ k. absurd (let f = better_self (update h a t) a b e in cc), λ c. absurd (c.0 e))
  | no ne ↦ other ne
]
  where
    other : a ≢ b → (edf_better (update h a t) a b ≡ true) ↔ ComesBefore h a t.current_deadline b
    other ne =
        unfold edf_better in
        rw (update_self h a t, update_ne h a b t ne, same)
          (λ e. (ne, ground arith), λ p. ground arith)

pub arrival_preempts_lem :
    (h : Threads) (best : ℕ) (e : ReleaseEntry)
    → (arrival_preempts h best e ≡ true) ↔ ArrivalPreempts h best e
unfolding arrival_preempts
arrival_preempts_lem h best e =
    better-update h e.thrd best
      (record (h e.thrd) { current_deadline = e.release_time +ℤ (h e.thrd).period }) refl

pub refill_preempts_lem :
    (h : Threads) (best th : ℕ)
    → (refill_preempts h best th ≡ true)
      ↔ ComesBefore h th ((h th).current_deadline +ℤ (h th).period) best
unfolding refill_preempts
refill_preempts_lem h best th =
    (λ e. k.0 (ground arith), λ c. (let e = k.1 c in let n = c.0 in ground arith))
  where
    t : Thread
    t = record (h th) {
      current_deadline = (h th).current_deadline +ℤ (h th).period;
      cbs = record ((h th).cbs) { is_throttled = false; remaining_budget = (h th).cbs.budget };
    }

    k :
        (edf_better (update h th t) th best ≡ true)
        ↔ ComesBefore h th ((h th).current_deadline +ℤ (h th).period) best
    k = better-update h th best t refl

-- One round of either loop, at an event at time `t` that `applies`.
abbrev pub cut_at : ℤ → ℤ → ℤ → Bool → Bool → ℤ
cut_at now shortest t applies preempts =
    if (applies && comes_within now shortest t) && preempts
    then cut_short (t -ℤ now) shortest
    else shortest

pub cut_at-le : (now s t : ℤ) (a p : Bool) → cut_at now s t a p ≤ℤ s
cut_at-le now s t a p = ground (arith, -ℤ_parts t now, +ℤ_parts now s)

-- An event that cuts the time short bounds whatever is no longer than the time left.
pub cut_at_yields :
    (now s t time : ℤ) (a p : Bool)
    → now ≤ℤ t
    → a ≡ true
    → p ≡ true
    → time ≤ℤ cut_at now s t a p
    → (now +ℤ time ≤ℤ t) ⊎ (time ≤ℤ pos 1)
cut_at_yields now s t time a p h b e le =
    ground (arith, -ℤ_parts t now, +ℤ_parts now s, +ℤ_parts now time)

-- A time ends at an event at `t`, or after one tick if the event is now.
abbrev pub EndsAt : ℤ → ℤ → ℤ → Type 0
EndsAt now time t = (now ≤ℤ t) × (now <ℤ t → now +ℤ time ≡ t) × (t ≤ℤ now → time ≡ pos 1)

-- From `s` the time left is `s'`: nothing happened, or an event before the end of `s` ends it.
abbrev pub Reached : (ℤ → Type 0) → ℤ → ℤ → ℤ → Type 0
Reached event now s s' = (s' ≡ s) ⊎ ((t : ℤ) × event t × (t <ℤ now +ℤ s) × EndsAt now s' t)

cut_short-EndsAt : (now s t : ℤ) → now ≤ℤ t → t <ℤ now +ℤ s → EndsAt now (cut_short (t -ℤ now) s) t
cut_short-EndsAt now s t g l = (
  g,
  λ h.
      eq_of_parts (now +ℤ cut_short (t -ℤ now) s) t
        (ground (arith, -ℤ_parts t now, +ℤ_parts now s, +ℤ_parts now (cut_short (t -ℤ now) s))),
  λ h.
      eq_of_parts (cut_short (t -ℤ now) s) (pos 1) (ground (arith, -ℤ_parts t now, +ℤ_parts now s)),
)

module _ (event : ℤ → Type 0) (now : ℤ) where
  pub Reached-trans :
      (s s₁ s₂ : ℤ)
      → s₁ ≤ℤ s
      → Reached event now s s₁
      → Reached event now s₁ s₂
      → Reached event now s s₂
  Reached-trans s s₁ s₂ le r (inl e) = subst (λ x. Reached event now s x) (sym e) r
  Reached-trans s s₁ s₂ le r (inr (t, v, l, k)) =
      inr (t, v, omega (arith, l, le, +ℤ_parts now s, +ℤ_parts now s₁), k)

  cut_at-Reached :
      (s t : ℤ) (a p : Bool)
      → (a ≡ true → p ≡ true → event t)
      → Reached event now s (cut_at now s t a p)
  cut_at-Reached s t a p v = elim (Bool-cases ((a && comes_within now s t) && p)) [
    | inr e ↦ rw e (inl refl)
    | inl e ↦
        let within : (now ≤ℤ t) × (t <ℤ now +ℤ s) = (ground arith, ground arith) in
        rw e (
          inr (
            t,
            v (ground arith) (ground arith),
            within.1,
            cut_short-EndsAt now s t within.0 within.1,
          ))
  ]

  pub next-Reached :
      (s t s' : ℤ) (a p : Bool)
      → (a ≡ true → p ≡ true → event t)
      → Reached event now (cut_at now s t a p) s'
      → Reached event now s s'
  next-Reached s t s' a p v r =
      Reached-trans s (cut_at now s t a p) s' (cut_at-le now s t a p) (cut_at-Reached s t a p v) r
