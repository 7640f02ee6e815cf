-- ===== src/Sched/Dm/Choice.antt =====
-- What `schedule_dm` of Threading-Scheduler/threads_sched.c returns.
use xv6_kernel_extensions.Prelude.{
  ℕ, ℤ, pos, true, false, List, [], ◌∷◌, ◌++◌, Option, none, some, ltb_ℤ, leb_ℤ, ◌+ℤ◌, ◌-ℤ◌,
  int_max, ◌≡◌, refl, inl, inr, Elem, All, arith, ◌≤ℤ◌, ◌<ℤ◌, Bool-cases, int_laws, +ℤ_parts,
  -ℤ_parts,
}
use xv6_kernel_extensions.Sched.{Threads, Args, Result, ReleaseEntry}
use xv6_kernel_extensions.Sched.Pick.{
  pick, IsRanking, IsBest, pick-IsBest, AnyThread, All-AnyThread,
}
use xv6_kernel_extensions.Sched.SmallestId.{
  check_deadline_miss, every, MissChoice, check_deadline_miss-MissChoice,
}
use xv6_kernel_extensions.Sched.Deadline.{
  idle_until_release, Precedes, NotAfter, deadline_cmp-IsRanking, cmp-NotAfter,
}
use xv6_kernel_extensions.Sched.Dm.{
  dm_better, next_arrival, dm_preempts, dm_slice, dm_dispatch, dm_on_time, dm_check, schedule_dm,
}

-- `e` is the first entry of the release queue with the earliest release time.
pub record FirstEarliest (es : List ReleaseEntry) (e : ReleaseEntry) : Type 0 where
  pub before : List ReleaseEntry
  pub after : List ReleaseEntry
  pub split : es ≡ before ++ e ∷ after
  pub later : All (λ x. e.release_time <ℤ x.release_time) before
  pub not_sooner : All (λ x. e.release_time ≤ℤ x.release_time) after
  pub in_range : e.release_time <ℤ int_max

next_arrival-stays :
    (t : ℤ) (found : Option ReleaseEntry) (es : List ReleaseEntry)
    → All (λ x. t ≤ℤ x.release_time) es
    → next_arrival t found es ≡ (t, found)
unfolding next_arrival
next_arrival-stays t found [] a = refl
next_arrival-stays t found (x ∷ es) a =
    let e : ltb_ℤ x.release_time t ≡ false = ground (arith, a.0) in
    rw e (next_arrival-stays t found es a.1)

next_arrival-finds :
    (t : ℤ) (found : Option ReleaseEntry) (l r : List ReleaseEntry) (e : ReleaseEntry)
    → e.release_time <ℤ t
    → All (λ x. e.release_time <ℤ x.release_time) l
    → All (λ x. e.release_time ≤ℤ x.release_time) r
    → next_arrival t found (l ++ e ∷ r) ≡ (e.release_time, some e)
unfolding next_arrival
next_arrival-finds t found [] r e lt a b =
    let s : ltb_ℤ e.release_time t ≡ true = ground arith in
    rw (s, next_arrival) (next_arrival-stays e.release_time (some e) r b)
next_arrival-finds t found (x ∷ l) r e lt a b = elim (Bool-cases (ltb_ℤ x.release_time t)) [
  | inl s ↦ rw (s, next_arrival) (next_arrival-finds x.release_time (some x) l r e a.0 a.1 b)
  | inr s ↦ rw (s, next_arrival) (next_arrival-finds t found l r e lt a.1 b)
]

pub next_arrival-FirstEarliest :
    (es : List ReleaseEntry) (e : ReleaseEntry)
    → FirstEarliest es e
    → next_arrival int_max none es ≡ (e.release_time, some e)
next_arrival-FirstEarliest es e f =
    rw f.split (next_arrival-finds int_max none f.before f.after e f.in_range f.later f.not_sooner)

-- What the time of the thread `best` is held to.
pub record SliceBounds (h : Threads) (now : ℤ) (es : List ReleaseEntry) (best : ℕ) (time : ℤ)
    : Type 0 where
  pub within :
      pos 1 ≤ℤ (h best).remaining_time → (pos 1 ≤ℤ time) × (time ≤ℤ (h best).remaining_time)
  pub yields :
      (e : ReleaseEntry)
      → FirstEarliest es e
      → now <ℤ e.release_time
      → Precedes (λ th. (h th).deadline) h e.thrd best
      → e.release_time <ℤ now +ℤ (h best).remaining_time
      → now +ℤ time ≡ e.release_time

dm_slice_within :
    (h : Threads) (now : ℤ) (best : ℕ) (n : ℤ × Option ReleaseEntry)
    → pos 1 ≤ℤ (h best).remaining_time
    → (pos 1 ≤ℤ dm_slice h now best n) × (dm_slice h now best n ≤ℤ (h best).remaining_time)
unfolding dm_slice
dm_slice_within h now best (t, none) p = (p, omega arith)
dm_slice_within h now best (t, some e) p =
    ground (arith, -ℤ_parts t now, +ℤ_parts now (h best).remaining_time)

-- The scheduler sees that `e.thrd` precedes `best`.
dm_preempts-Precedes :
    (h : Threads) (a b : ℕ) → Precedes (λ th. (h th).deadline) h a b → dm_preempts h a b ≡ true
dm_preempts-Precedes h a b p = ground arith

dm_slice_yields :
    (h : Threads) (now : ℤ) (best : ℕ) (e : ReleaseEntry)
    → now <ℤ e.release_time
    → dm_preempts h e.thrd best ≡ true
    → e.release_time <ℤ now +ℤ (h best).remaining_time
    → now +ℤ dm_slice h now best (e.release_time, some e) ≡ e.release_time
dm_slice_yields h now best e later p soon = rw slice (omega int_laws)
  where
    t : ℤ
    t = e.release_time

    slice : dm_slice h now best (t, some e) ≡ t -ℤ now
    slice =
        unfold dm_slice in
        let a : leb_ℤ t now ≡ false = ground arith in
        let b : ltb_ℤ t (now +ℤ (h best).remaining_time) ≡ true = ground arith in
        let c : ltb_ℤ (pos 0) (t -ℤ now) ≡ true = ground (arith, -ℤ_parts t now) in rw (a, b, p, c)

-- The result, by the branch of the code.
pub data DmChoice (h : Threads) (args : Args) (r : Result) : Type 0 where
  missed :
      (b : ℕ)
      → r.member ≡ some b
      → r.allocated_time ≡ pos 0
      → MissChoice h args.current_time args.run_queue (some b)
      → DmChoice h args r
  idles :
      args.run_queue ≡ []
      → r ≡ idle_until_release args.current_time args.release_queue
      → DmChoice h args r
  runs :
      (b : ℕ)
      → r.member ≡ some b
      → MissChoice h args.current_time args.run_queue none
      → Elem b args.run_queue
      → ((th : ℕ) → Elem th args.run_queue → NotAfter (λ t. (h t).deadline) h b th)
      → SliceBounds h args.current_time args.release_queue b r.allocated_time
      → DmChoice h args r

dm_SliceBounds :
    (h : Threads) (now : ℤ) (best : ℕ) (es : List ReleaseEntry)
    → SliceBounds h now es best (dm_slice h now best (next_arrival int_max none es))
dm_SliceBounds h now best es = record {
  within = dm_slice_within h now best (next_arrival int_max none es);
  yields = λ e f later p soon.
      rw (next_arrival-FirstEarliest es e f)
        (dm_slice_yields h now best e later (dm_preempts-Precedes h e.thrd best p) soon);
}

dm_dispatch-DmChoice :
    (h : Threads) (args : Args) (th : ℕ) (o : Option ℕ)
    → MissChoice h args.current_time args.run_queue none
    → Elem th args.run_queue
    → IsBest every (dm_better h) args.run_queue o
    → (r : Result) × (dm_dispatch h args o ≡ some r) × DmChoice h args r
unfolding dm_dispatch dm_better
dm_dispatch-DmChoice h args th none miss m k = absurd (let e : true ≡ false = k th m in cc)
dm_dispatch-DmChoice h args th (some b) miss m k = (
  record {
    member = some b;
    allocated_time = dm_slice h args.current_time b (next_arrival int_max none args.release_queue);
  },
  refl,
  runs b refl miss k.0 (λ t mt. cmp-NotAfter (λ x. (h x).deadline) h t b (k.2 t mt refl))
      (dm_SliceBounds h args.current_time b args.release_queue),
)

dm_better-IsRanking : (h : Threads) → IsRanking AnyThread (dm_better h)
unfolding dm_better
dm_better-IsRanking h = deadline_cmp-IsRanking (λ th. (h th).deadline) h

dm_on_time-DmChoice :
    (h : Threads) (now : ℤ) (es : List ReleaseEntry) (q : List ℕ)
    → let args : Args = record { current_time = now; run_queue = q; release_queue = es } in
      MissChoice h now q none → (r : Result) × (dm_on_time h args ≡ some r) × DmChoice h args r
unfolding dm_on_time
dm_on_time-DmChoice h now es [] miss = (idle_until_release now es, refl, idles refl refl)
dm_on_time-DmChoice h now es (x ∷ q) miss =
    dm_dispatch-DmChoice h (record { current_time = now; run_queue = x ∷ q; release_queue = es }) x
      (pick every (dm_better h) (x ∷ q)) miss (inl refl)
      (pick-IsBest AnyThread every (dm_better h) (dm_better-IsRanking h) (x ∷ q)
        (All-AnyThread (x ∷ q)))

dm_check-DmChoice :
    (h : Threads) (args : Args) (o : Option ℕ)
    → MissChoice h args.current_time args.run_queue o
    → (r : Result) × (dm_check h args o ≡ some r) × DmChoice h args r
unfolding dm_check
dm_check-DmChoice h args none miss =
    dm_on_time-DmChoice h args.current_time args.release_queue args.run_queue miss
dm_check-DmChoice h args (some b) miss =
    (record { member = some b; allocated_time = pos 0 }, refl, missed b refl refl miss)

-- The deadline-monotonic scheduler always returns, and never uses a null thread. A queued thread
-- whose deadline is not in the future is returned with time 0, the smallest ID first. Otherwise,
-- on an empty run queue it idles until the next release. Otherwise it runs a queued thread that
-- no queued thread precedes by deadline and then ID; if the thread has time left it gets at least
-- one tick and no more than that time; and if the first entry of the release queue that is
-- released earliest comes while the thread would run, and precedes it, its time ends then.
pub schedule_dm-DmChoice :
    (h : Threads) (args : Args) → (r : Result) × (schedule_dm h args ≡ some r) × DmChoice h args r
unfolding schedule_dm
schedule_dm-DmChoice h args =
    dm_check-DmChoice h args (check_deadline_miss h args.run_queue args.current_time)
      (check_deadline_miss-MissChoice h args.run_queue args.current_time)
