-- ===== src/Strings/Tests.antt =====
-- The theorems of FileSystem-RAID/kernel/string.c at concrete inputs.
use xv6_kernel_extensions.Prelude.{pos, ◌+◌, ◌≡◌, ◌↔◌, arith}
use xv6_kernel_extensions.Strings.{Memory, memmove, strncmp, safestrcpy}
use xv6_kernel_extensions.Strings.Move.{Moved, memmove-Moved}
use xv6_kernel_extensions.Strings.Bounded.{SameName, strncmp-SameName, Ended, safestrcpy-Ended}

-- The byte at `a` is `a + 1`.
abbrev counting : Memory
counting a = a + 1

memmove_example : Moved 12 10 4 counting (memmove 12 10 4 counting)
memmove_example = memmove-Moved 12 10 4 counting

strncmp_example : (strncmp 10 20 3 (λ a. 7) ≡ pos 0) ↔ SameName 3 10 20 (λ a. 7)
strncmp_example = strncmp-SameName 3 10 20 (λ a. 7)

safestrcpy_example : Ended 10 4 counting (safestrcpy 10 20 (pos 4) counting)
safestrcpy_example = safestrcpy-Ended 4 10 20 counting (omega arith)
