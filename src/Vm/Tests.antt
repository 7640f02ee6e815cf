-- ===== src/Vm/Tests.antt =====
-- The theorems of page tables and copies of FileSystem-RAID/kernel/vm.c at concrete inputs.
use xv6_kernel_extensions.Prelude.{
  true, [], ◌∷◌, ◌≡◌, refl, arith, ◌==◌, if◌then◌else◌, update, ◌/◌,
}
use xv6_kernel_extensions.Bio.{returns}
use xv6_kernel_extensions.Kalloc.{kalloc, take_page}
use xv6_kernel_extensions.Vm.{
  Ram, mappages, map_pages, map_entry, walk, walk_next, walk_last, descend, add_table, zero_page,
  set_pte, walkaddr,
}
use xv6_kernel_extensions.Vm.Copy.{copyin, copyout}
use xv6_kernel_extensions.Vm.Transfer.{CopiedIn, copyin-CopiedIn}
use xv6_kernel_extensions.Vm.Out.{Out, copyout-Out}
use xv6_kernel_extensions.Vm.Mapped.{FreshPath}
use xv6_kernel_extensions.Vm.Walk.{mappages-walkaddr}

-- An empty table in the page 8192 and three free pages.
abbrev empty : Ram
empty = record {
  kernel_end = 4096;
  kmem = record { freelist = 12288 ∷ 16384 ∷ 20480 ∷ []; junk = λ p. 1 };
  ptes = λ a. 0;
  bytes = λ a. a;
}

empty_path : FreshPath 8192 0 empty
empty_path = record {
  free = omega arith;
  root = omega arith;
  root_used = λ m. omega arith;
  middle = λ e. absurd (cc);
  last = λ t e. absurd (cc);
}

-- The page 20480 is mapped at 0, through new tables in 12288 and 16384.
abbrev mapped : Ram
mapped = record {
  kernel_end = 4096;
  kmem = record { freelist = 20480 ∷ []; junk = update (update (λ p. 1) 12288 5) 16384 5 };
  ptes =
      update
        (update
          (λ x.
            if x / 4096 == 4 then 0 else update (λ x. if x / 4096 == 3 then 0 else 0) 8192 3073 x)
          12288 4097)
        16384 5151;
  bytes = λ a. if a / 4096 == 4 then 0 else if a / 4096 == 3 then 0 else a;
}

empty-mappages : mappages 8192 0 4096 20480 30 empty ≡ returns (true, mapped)
unfolding mappages map_pages map_entry walk walk_next walk_last descend add_table zero_page set_pte
    kalloc take_page
empty-mappages = refl

mappages_example : walkaddr 8192 0 mapped ≡ 20480
mappages_example =
    mappages-walkaddr 8192 0 20480 30 empty mapped empty_path (omega arith) (omega arith)
      (omega arith) (omega arith) (omega arith) empty-mappages

copyin_example : CopiedIn 8192 0 2 10 mapped (λ a. 0) (copyin 8192 0 2 10 mapped (λ a. 0))
copyin_example = copyin-CopiedIn 8192 0 2 10 mapped (λ a. 0)

copyout_example : Out 8192 2 0 10 (λ a. 7) mapped (copyout 8192 2 0 10 (λ a. 7) mapped)
copyout_example = copyout-Out 8192 2 0 10 (λ a. 7) mapped
