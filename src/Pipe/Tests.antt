-- ===== src/Pipe/Tests.antt =====
-- The theorems of FileSystem-RAID/kernel/pipe.c at concrete inputs.
use xv6_kernel_extensions.Prelude.{ℕ, false, Option, some, none, [], ◌∷◌, ltb, if◌then◌else◌, arith}
use xv6_kernel_extensions.Pipe.{Pipe, pipealloc, put_byte, pipewrite, piperead}
use xv6_kernel_extensions.Pipe.Queue.{Holds, pipealloc-Holds, put_byte-Holds}
use xv6_kernel_extensions.Pipe.Transfer.{Wrote, ReadOutcome, pipewrite-Wrote, piperead-ReadOutcome}

abbrev fresh : Pipe
fresh = pipealloc (λ i. 0)

-- The memory ends at the address 12.
abbrev memory : ℕ → Option ℕ
memory a = if ltb a 12 then some a else none

pipewrite_example : Wrote false memory 10 0 4 [] fresh (pipewrite false memory 10 4 fresh)
pipewrite_example = pipewrite-Wrote false memory 10 4 [] fresh (pipealloc-Holds (λ i. 0))

abbrev one_byte : Pipe
one_byte = put_byte 7 fresh

one_byte-Holds : Holds one_byte (7 ∷ [])
one_byte-Holds = put_byte-Holds 7 fresh [] (pipealloc-Holds (λ i. 0)) (omega arith)

piperead_example :
    ReadOutcome false one_byte.writeopen
      (λ a. ltb a 12)
      10
      4
      (7 ∷ [])
      (piperead false (λ a. ltb a 12) 10 4 one_byte).1
      (piperead false (λ a. ltb a 12) 10 4 one_byte).0
piperead_example = piperead-ReadOutcome false (λ a. ltb a 12) 10 4 (7 ∷ []) one_byte one_byte-Holds
