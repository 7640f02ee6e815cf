-- ===== src/Sched/Hrrn/Overflow.antt =====
-- The int arithmetic of `schedule_hrrn` in Threading-Scheduler/threads_sched.c stays within a
-- 32-bit int for times up to 30000 ticks.
use xv6_kernel_extensions.Prelude.{ℕ, ℤ, pos, negsuc, ◌≤ℤ◌, ◌*ℤ◌, arith, int_laws, FitsInt}
use native.Mathlib.Nat.{mul-le-mul}
use xv6_kernel_extensions.Sched.{Threads}
use xv6_kernel_extensions.Sched.Hrrn.{ratio_numerator, ratio_denominator}

-- Times of a thread that has arrived.
pub record HasArrived (h : Threads) (now : ℤ) (th : ℕ) : Type 0 where
  pub arrived : (h th).arrival_time ≤ℤ now
  pub started : pos 0 ≤ℤ (h th).arrival_time
  pub works : pos 0 ≤ℤ (h th).processing_time
  pub short : (h th).processing_time ≤ℤ pos 30000

fits_of_order : (a : ℤ) → pos 0 ≤ℤ a → a ≤ℤ pos 2147483647 → FitsInt a
fits_of_order (pos a) h k = omega arith
fits_of_order (negsuc a) h k = absurd (omega arith)

product_fits :
    (a b : ℤ) → pos 0 ≤ℤ a → pos 0 ≤ℤ b → a ≤ℤ pos 60000 → b ≤ℤ pos 30000 → FitsInt (a *ℤ b)
unfolding ◌*ℤ◌
product_fits (pos a) (pos b) ha hb la lb =
    ground
      (arith, mul-le-mul {n₁ = a} {m₁ = b} {n₂ = 60000} {m₂ = 30000} (omega arith) (omega arith))
product_fits (pos a) (negsuc b) ha hb la lb = absurd (omega arith)
product_fits (negsuc a) _ ha hb la lb = absurd (omega arith)

-- For two threads that have arrived, at a time up to 30000 and with processing times up to 30000,
-- the numerator of a ratio and the crosswise product of two ratios fit an int.
pub ratio_fits :
    (h : Threads) (now : ℤ) (a b : ℕ)
    → now ≤ℤ pos 30000
    → HasArrived h now a
    → HasArrived h now b
    → FitsInt (ratio_numerator h now a) × FitsInt (ratio_numerator h now a *ℤ ratio_denominator h b)
ratio_fits h now a b late ha hb = (
  fits_of_order (ratio_numerator h now a) (omega int_laws) (omega int_laws),
  product_fits (ratio_numerator h now a) (ratio_denominator h b) (omega int_laws) hb.works
      (omega int_laws) hb.short,
)
