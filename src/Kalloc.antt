-- ===== src/Kalloc.antt =====
-- FileSystem-RAID/kernel/kalloc.c: the allocator of pages. The list that is linked through the free
-- pages is a list of addresses; `junk` is the byte that each page was filled with, by `memset`.
-- `end`, which the linker script sets, is the argument `kernel_end`.
pub mod Pages
mod Tests
use xv6_kernel_extensions.Prelude.{
  ℕ, zero, suc, ◌+◌, ◌-◌, ◌*◌, ◌/◌, ◌%◌, Bool, true, false, not, Option, none, some, List, [], ◌∷◌,
  ◌==◌, ltb, leb, ◌&&◌, ◌||◌, if◌then◌else◌, update,
}
use xv6_kernel_extensions.Bio.{Outcome, returns, panics, sleeps, ◌>>=◌}

abbrev pub pgsize : ℕ
pgsize = 4096

abbrev pub phystop : ℕ
phystop = 2281701376

pub record Kmem : Type 0 where
  pub freelist : List ℕ
  pub junk : ℕ → ℕ

unfoldable pub kfree : ℕ → ℕ → Kmem → Outcome Kmem
kfree kernel_end pa k =
    if not (pa % pgsize == 0) || (ltb pa kernel_end || leb phystop pa)
    then panics
    else returns (record { freelist = pa ∷ k.freelist; junk = update k.junk pa 1 })

unfoldable pub take_page : List ℕ → Kmem → Option ℕ × Kmem
take_page [] k = (none, k)
take_page (r ∷ rs) k = (some r, record { freelist = rs; junk = update k.junk r 5 })

unfoldable pub kalloc : Kmem → Option ℕ × Kmem
kalloc k = take_page k.freelist k

-- The loop of `freerange`, on fuel.
unfoldable pub free_pages : ℕ → ℕ → ℕ → ℕ → Kmem → Outcome Kmem
free_pages zero kernel_end p pa_end k = returns k
free_pages (suc fuel) kernel_end p pa_end k =
    let rest : Outcome Kmem =
      kfree kernel_end p k >>= λ k'. free_pages fuel kernel_end (p + pgsize) pa_end k' in
    if leb (p + pgsize) pa_end then rest else returns k

unfoldable pub freerange : ℕ → ℕ → ℕ → Kmem → Outcome Kmem
freerange kernel_end pa_start pa_end k =
    free_pages (pa_end / pgsize + 1) kernel_end ((pa_start + pgsize - 1) / pgsize * pgsize) pa_end k

unfoldable pub kinit : ℕ → (ℕ → ℕ) → Outcome Kmem
kinit kernel_end junk =
    freerange kernel_end kernel_end phystop (record { freelist = []; junk = junk })
