-- ===== src/Sched/Hrrn.antt =====
-- `schedule_hrrn` of Threading-Scheduler/threads_sched.c: the highest response ratio next. A ratio
-- is a pair of ints, and two ratios are compared by multiplying crosswise.
pub mod Best
pub mod Overflow
use xv6_kernel_extensions.Prelude.{
  ℕ, ℤ, pos, Bool, true, false, ◌||◌, ◌&&◌, List, [], ◌∷◌, Option, none, some, ltb_ℤ, eqb_ℤ, ◌+ℤ◌,
  ◌-ℤ◌, ◌*ℤ◌, if◌then◌else◌,
}
use xv6_kernel_extensions.Sched.{Threads, Args, Result}

-- `waiting_time + th->processing_time` and `th->processing_time`.
abbrev pub ratio_numerator : Threads → ℤ → ℕ → ℤ
ratio_numerator h now th = now -ℤ (h th).arrival_time +ℤ (h th).processing_time

abbrev pub ratio_denominator : Threads → ℕ → ℤ
ratio_denominator h th = (h th).processing_time

-- The loop's variables.
pub record Highest : Type 0 where
  pub selected : Option ℕ
  pub numerator : ℤ
  pub denominator : ℤ

-- The loop starts with the ratio 0 / 1.
abbrev pub nothing_selected : Highest
nothing_selected = record { selected = none; numerator = pos 0; denominator = pos 1 }

-- `th->ID < selected_thread->ID`, which is only read when a thread is selected.
abbrev pub beats_id : Threads → ℕ → Option ℕ → Bool
beats_id h th none = true
beats_id h th (some b) = ltb_ℤ (h th).id (h b).id

abbrev pub is_null : Option ℕ → Bool
is_null none = true
is_null (some b) = false

unfoldable pub hrrn_step : Threads → ℤ → ℕ → Highest → Highest
hrrn_step h now th s =
    let num = ratio_numerator h now th in
    let den = ratio_denominator h th in
    if is_null s.selected
      || ltb_ℤ (s.numerator *ℤ den) (num *ℤ s.denominator)
      || (eqb_ℤ (num *ℤ s.denominator) (s.numerator *ℤ den) && beats_id h th s.selected)
    then record { selected = some th; numerator = num; denominator = den }
    else s

unfoldable pub hrrn_loop : Threads → ℤ → List ℕ → Highest → Highest
hrrn_loop h now [] s = s
hrrn_loop h now (th ∷ q) s = hrrn_loop h now q (hrrn_step h now th s)

unfoldable pub hrrn_result : Threads → Args → Option ℕ → Result
hrrn_result h args none = record { member = none; allocated_time = pos 1 }
hrrn_result h args (some th) = record { member = some th; allocated_time = (h th).remaining_time }

unfoldable pub schedule_hrrn : Threads → Args → Result
schedule_hrrn h args =
    hrrn_result h args (hrrn_loop h args.current_time args.run_queue nothing_selected).selected
