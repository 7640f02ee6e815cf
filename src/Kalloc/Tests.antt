-- ===== src/Kalloc/Tests.antt =====
-- The theorem of FileSystem-RAID/kernel/kalloc.c at a concrete input.
use xv6_kernel_extensions.Prelude.{[], ◌∷◌}
use xv6_kernel_extensions.Kalloc.{Kmem, kfree}
use xv6_kernel_extensions.Kalloc.Pages.{Freed, kfree-Freed}

abbrev one_page : Kmem
one_page = record { freelist = 2147524608 ∷ []; junk = λ p. 1 }

kfree_example : Freed 2147520512 2147528704 one_page (kfree 2147520512 2147528704 one_page)
kfree_example = kfree-Freed 2147520512 2147528704 one_page
