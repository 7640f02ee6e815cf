-- ===== src/Sched/Hrrn/Best.antt =====
-- What `schedule_hrrn` of Threading-Scheduler/threads_sched.c selects.
use xv6_kernel_extensions.Prelude.{
  ℕ, ℤ, pos, pos_part, neg_part, ◌+◌, ◌*◌, ◌≤◌, ◌<◌, Bool, true, false, ◌||◌, ◌&&◌, List, [], ◌∷◌,
  Option, none, some, ◌≡◌, refl, ltb_ℤ, eqb_ℤ, ◌≤ℤ◌, ◌<ℤ◌, ◌*ℤ◌, if◌then◌else◌, Elem, arith,
  int_laws, inl, inr, Bool-cases, All,
}
use native.Mathlib.Nat.{mul-le-mul_right, le_of_mul-le-mul_right}
use xv6_kernel_extensions.Sched.{Threads, Args, Result}
use xv6_kernel_extensions.Sched.Pick.{pick, pick_from, take_better, IsRanking, IsBest, pick-IsBest}
use xv6_kernel_extensions.Sched.SmallestId.{every}
use xv6_kernel_extensions.Sched.Hrrn.{
  ratio_numerator, ratio_denominator, Highest, nothing_selected, hrrn_step, hrrn_loop, hrrn_result,
  schedule_hrrn,
}

-- Crosswise products with positive denominators order fractions transitively.
cross_parts :
    (a⁺ a⁻ b c⁺ c⁻ d e⁺ e⁻ f : ℕ)
    → 0 < d
    → a⁺ * d + c⁻ * b ≤ c⁺ * b + a⁻ * d
    → c⁺ * f + e⁻ * d ≤ e⁺ * d + c⁻ * f
    → a⁺ * f + e⁻ * b ≤ e⁺ * b + a⁻ * f
cross_parts a⁺ a⁻ b c⁺ c⁻ d e⁺ e⁻ f hd p q =
    le_of_mul-le-mul_right {k = d} (omega (arith, mul-le-mul_right f p, mul-le-mul_right b q)) hd

pub cross_trans :
    (a c e b d f : ℤ)
    → pos 0 <ℤ b
    → pos 0 <ℤ d
    → pos 0 <ℤ f
    → a *ℤ d ≤ℤ c *ℤ b
    → c *ℤ f ≤ℤ e *ℤ d
    → a *ℤ f ≤ℤ e *ℤ b
cross_trans a c e (pos b) (pos d) (pos f) hb hd hf p q = omega (
  int_laws,
  cross_parts (pos_part a) (neg_part a) b (pos_part c) (neg_part c) d (pos_part e) (neg_part e) f
      (omega arith) (omega int_laws) (omega int_laws),
)
cross_trans a c e _ _ _ hb hd hf p q = absurd (omega arith)

module _ (h : Threads) (now : ℤ) where
  -- The thread `a` takes the place of `b`: a higher ratio, or the same ratio and a smaller ID.
  unfoldable pub higher_ratio : ℕ → ℕ → Bool
  higher_ratio a b =
      ltb_ℤ (ratio_numerator h now b *ℤ ratio_denominator h a)
        (ratio_numerator h now a *ℤ ratio_denominator h b)
      || (eqb_ℤ (ratio_numerator h now a *ℤ ratio_denominator h b)
            (ratio_numerator h now b *ℤ ratio_denominator h a)
          && ltb_ℤ (h a).id (h b).id)

  abbrev pub Worked : ℕ → Type 0
  Worked th = pos 0 <ℤ (h th).processing_time

  abbrev holding : ℕ → Highest
  holding b = record {
    selected = some b;
    numerator = ratio_numerator h now b;
    denominator = ratio_denominator h b;
  }

  hrrn_step-holding :
      (x b : ℕ)
      → hrrn_step h now x (holding b) ≡ (if higher_ratio x b then holding x else holding b)
  unfolding hrrn_step higher_ratio
  hrrn_step-holding x b = refl

  hrrn_loop-pick_from :
      (q : List ℕ) (b : ℕ)
      → (hrrn_loop h now q (holding b)).selected ≡ pick_from every higher_ratio (some b) q
  unfolding hrrn_loop pick_from take_better
  hrrn_loop-pick_from [] b = refl
  hrrn_loop-pick_from (x ∷ q) b = elim (Bool-cases (higher_ratio x b)) [
    | inl e ↦ rw (hrrn_step-holding x b, e, hrrn_loop) (hrrn_loop-pick_from q x)
    | inr e ↦ rw (hrrn_step-holding x b, e, hrrn_loop) (hrrn_loop-pick_from q b)
  ]

  hrrn_loop-pick :
      (q : List ℕ) → (hrrn_loop h now q nothing_selected).selected ≡ pick every higher_ratio q
  unfolding hrrn_loop hrrn_step pick pick_from take_better
  hrrn_loop-pick [] = refl
  hrrn_loop-pick (x ∷ q) = hrrn_loop-pick_from q x

  higher_ratio-IsRanking : IsRanking Worked higher_ratio
  unfolding higher_ratio
  higher_ratio-IsRanking = record {
    irrefl = λ a pa. ground arith;
    asym = λ a b pa pb e. ground arith;
    trans = λ a b c pa pb pc e f.
        let n = ratio_numerator h now in
        let d = ratio_denominator h in
        ground (
          arith,
          cross_trans (n c) (n b) (n a) (d c) (d b) (d a) pc pb pa,
          cross_trans (n a) (n c) (n b) (d a) (d c) (d b) pa pc pb,
          cross_trans (n b) (n a) (n c) (d b) (d a) (d c) pb pa pc,
        );
  }

-- The ratio of `a` is not higher than that of `b`, and if it is the same, its ID is not smaller.
abbrev pub NotHigher : Threads → ℤ → ℕ → ℕ → Type 0
NotHigher h now a b =
    (ratio_numerator h now a *ℤ ratio_denominator h b
      ≤ℤ ratio_numerator h now b *ℤ ratio_denominator h a)
    × (ratio_numerator h now a *ℤ ratio_denominator h b
          ≡ ratio_numerator h now b *ℤ ratio_denominator h a
        → (h b).id ≤ℤ (h a).id)

-- The choice of HRRN: a queued thread with no higher response ratio in the queue, of the smallest
-- ID among those with the same ratio, for all its remaining time; or one idle tick.
abbrev pub HrrnChoice : Threads → ℤ → List ℕ → Result → Type 0
HrrnChoice h now q r = elim r.member [
  | none ↦ ((th : ℕ) → ¬ Elem th q) × (r.allocated_time ≡ pos 1)
  | some b ↦
      Elem b q
      × ((th : ℕ) → Elem th q → NotHigher h now th b)
      × (r.allocated_time ≡ (h b).remaining_time)
]

hrrn_of_best :
    (h : Threads) (args : Args) (o : Option ℕ)
    → IsBest every (higher_ratio h args.current_time) args.run_queue o
    → HrrnChoice h args.current_time args.run_queue (hrrn_result h args o)
unfolding hrrn_result higher_ratio
hrrn_of_best h args none k = (λ th m. let e : true ≡ false = k th m in cc, refl)
hrrn_of_best h args (some b) k = (k.0, λ th m. ground (arith, k.2 th m refl), refl)

-- If every queued thread has a positive processing time, HRRN runs a thread whose response ratio
-- (waiting time + processing time) / processing time is the highest, of the smallest ID among
-- those, for all its remaining time, and it idles for one tick exactly on an empty queue.
pub schedule_hrrn-HrrnChoice :
    (h : Threads) (args : Args)
    → All (Worked h args.current_time) args.run_queue
    → HrrnChoice h args.current_time args.run_queue (schedule_hrrn h args)
unfolding schedule_hrrn
schedule_hrrn-HrrnChoice h args w = rw (hrrn_loop-pick h args.current_time args.run_queue) (
    hrrn_of_best h args (pick every (higher_ratio h args.current_time) args.run_queue) (
      pick-IsBest (Worked h args.current_time) every (higher_ratio h args.current_time)
        (higher_ratio-IsRanking h args.current_time) args.run_queue w))
