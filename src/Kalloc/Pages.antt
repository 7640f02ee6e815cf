-- ===== src/Kalloc/Pages.antt =====
-- The pages that FileSystem-RAID/kernel/kalloc.c hands out.
use xv6_kernel_extensions.Prelude.{
  ℕ, ◌%◌, ◌<◌, ◌≤◌, not, some, ◌==◌, ltb, leb, ◌||◌, ◌≡◌, refl, arith, inl, inr, Bool-cases,
}
use xv6_kernel_extensions.Bio.{Outcome, returns, panics, sleeps}
use xv6_kernel_extensions.Kalloc.{Kmem, kfree, take_page, kalloc}

-- A page of the memory that the kernel manages.
abbrev pub IsPage : ℕ → ℕ → Type 0
IsPage kernel_end pa = (pa % 4096 ≡ 0) × (kernel_end ≤ pa) × (pa < 2281701376)

abbrev pub Freed : ℕ → ℕ → Kmem → Outcome Kmem → Type 0
Freed kernel_end pa k (returns k') =
    IsPage kernel_end pa × ((kalloc k').0 ≡ some pa) × ((kalloc k').1.freelist ≡ k.freelist)
Freed kernel_end pa k panics = ¬ IsPage kernel_end pa
Freed kernel_end pa k sleeps = ⊥

-- `kfree` panics on an address that is no page of the memory that the kernel manages. A page it puts
-- first on the free list: the next `kalloc` returns it, and leaves the free list as before both.
pub kfree-Freed : (kernel_end pa : ℕ) (k : Kmem) → Freed kernel_end pa k (kfree kernel_end pa k)
unfolding kfree kalloc take_page
kfree-Freed kernel_end pa k =
    elim (Bool-cases (not (pa % 4096 == 0) || (ltb pa kernel_end || leb 2281701376 pa))) [
      | inl e ↦ rw e (λ p. let (a, b, c) = p in ground arith)
      | inr e ↦ rw e ((ground arith, ground arith, ground arith), refl, refl)
    ]
