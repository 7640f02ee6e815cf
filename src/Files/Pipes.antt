-- ===== src/Files/Pipes.antt =====
-- `sys_pipe` of FileSystem-RAID/kernel/sysfile.c, and the files of `pipealloc` of
-- FileSystem-RAID/kernel/pipe.c. A pipe is the address of its page.
use xv6_kernel_extensions.Prelude.{
  ℕ, ◌+◌, ℤ, pos, negsuc, Bool, true, false, not, Option, none, some, if◌then◌else◌, update,
}
use xv6_kernel_extensions.Bio.{Outcome, returns, ◌>>=◌}
use xv6_kernel_extensions.Kalloc.{Kmem, kalloc}
use xv6_kernel_extensions.Pipe.{pipealloc}
use xv6_kernel_extensions.Vm.{Ram}
use xv6_kernel_extensions.Vm.Copy.{copyout}
use xv6_kernel_extensions.Files.{fd_pipe, Kernel, set_file, filealloc, fdalloc, fileclose, drop_fd}
use xv6_kernel_extensions.Files.Transfer.{byte_of}

-- One end of a pipe.
unfoldable pub pipe_end : Bool → ℕ → ℕ → Kernel → Kernel
unfolding set_file
pipe_end writable p f k =
    set_file f
      (record (k.files f) { kind = fd_pipe p; readable = not writable; writable = writable }) k

-- The files of the two ends, the kernel and the free pages.
abbrev pub Ends : Type 0
Ends = Option (ℕ × ℕ) × Kernel × Kmem

unfoldable pub make_pipe : ℕ → ℕ → Kernel → Option ℕ × Kmem → Outcome Ends
unfolding pipe_end
make_pipe f0 f1 k (none, kmem) = do
  k1 ← fileclose f0 k
  k2 ← fileclose f1 k1
  returns (none, k2, kmem)
make_pipe f0 f1 k (some p, kmem) =
    let k1 = record k { pipes = update k.pipes p (pipealloc (k.pipes p).contents) } in
    returns (some (f0, f1), pipe_end true p f1 (pipe_end false p f0 k1), kmem)

unfoldable pub second_end : ℕ → Kernel → Kmem → Option (ℕ × Kernel) → Outcome Ends
unfolding make_pipe
second_end f0 k kmem none = fileclose f0 k >>= λ k1. returns (none, k1, kmem)
second_end f0 k kmem (some (f1, k1)) = make_pipe f0 f1 k1 (kalloc kmem)

unfoldable pub first_end : Kernel → Kmem → Option (ℕ × Kernel) → Outcome Ends
unfolding second_end
first_end k kmem none = returns (none, k, kmem)
first_end k kmem (some (f0, k1)) = second_end f0 k1 kmem (filealloc k1)

unfoldable pub pipe_files : Kernel → Kmem → Outcome Ends
unfolding first_end
pipe_files k kmem = first_end k kmem (filealloc k)

-- `return -1`, with both files closed.
unfoldable pub close_ends : ℕ → ℕ → Kernel → Ram → Outcome (ℤ × Kernel × Ram)
close_ends f0 f1 k r = do k1 ← fileclose f0 k; k2 ← fileclose f1 k1; returns (negsuc 0, k2, r)

-- The two descriptors, each an int of four bytes, in the memory of the process.
unfoldable pub give_fds : ℕ → ℕ → ℕ → ℕ → ℕ → ℕ → ℕ → Kernel → Ram → Outcome (ℤ × Kernel × Ram)
unfolding close_ends
give_fds pid pagetable fdarray f0 f1 fd0 fd1 k r =
    let (ok, r1) = copyout pagetable fdarray 0 4 (byte_of fd0) r in
    let (ok', r2) = copyout pagetable (fdarray + 4) 0 4 (byte_of fd1) r1 in
    let undo = close_ends f0 f1 (drop_fd pid fd1 (drop_fd pid fd0 k)) in
    if ok then (if ok' then returns (pos 0, k, r2) else undo r2) else undo r1

unfoldable pub second_fd :
    ℕ → ℕ → ℕ → ℕ → ℕ → ℕ → Kernel → Ram → Option (ℕ × Kernel) → Outcome (ℤ × Kernel × Ram)
unfolding give_fds close_ends
second_fd pid pagetable fdarray f0 f1 fd0 k r none = close_ends f0 f1 (drop_fd pid fd0 k) r
second_fd pid pagetable fdarray f0 f1 fd0 k r (some (fd1, k1)) =
    give_fds pid pagetable fdarray f0 f1 fd0 fd1 k1 r

unfoldable pub first_fd :
    ℕ → ℕ → ℕ → ℕ → ℕ → Kernel → Ram → Option (ℕ × Kernel) → Outcome (ℤ × Kernel × Ram)
unfolding second_fd close_ends
first_fd pid pagetable fdarray f0 f1 k r none = close_ends f0 f1 k r
first_fd pid pagetable fdarray f0 f1 k r (some (fd0, k1)) =
    second_fd pid pagetable fdarray f0 f1 fd0 k1 r (fdalloc pid f1 k1)

unfoldable pub sys_pipe : ℕ → ℕ → ℕ → Kernel → Ram → Outcome (ℤ × Kernel × Ram)
unfolding pipe_files first_fd
sys_pipe pid pagetable fdarray k r = do
  (ends, k1, kmem) ← pipe_files k r.kmem
  let r1 = record r { kmem = kmem }
  elim ends [
    | none ↦ returns (negsuc 0, k1, r1)
    | some (rf, wf) ↦ first_fd pid pagetable fdarray rf wf k1 r1 (fdalloc pid rf k1)
  ]
