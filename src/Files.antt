-- ===== src/Files.antt =====
-- FileSystem-RAID/kernel/file.c: the file table, and the file descriptors of
-- FileSystem-RAID/kernel/sysfile.c. A `struct file *` is its index in `ftable.file`. `ofile` holds
-- the descriptors of all processes: descriptor `fd` of the process `pid` is the slot
-- `pid * nofile + fd`. The locks of the table make each function a single step.
pub mod Count
pub mod Returns
pub mod Steps
pub mod Reach
pub mod Transfer
pub mod Pipes
mod Tests
use xv6_kernel_extensions.Prelude.{
  ℕ, zero, suc, ◌+◌, ◌-◌, ◌*◌, ℤ, pos, negsuc, Bool, true, false, not, Option, none, some, ◌==◌,
  ltb, leb, ltb_ℤ, leb_ℤ, pos_part, ◌&&◌, ◌||◌, if◌then◌else◌, update, List, [], ◌∷◌,
}
use xv6_kernel_extensions.Bio.{Outcome, returns, panics, sleeps, ◌>>=◌, ◌>>◌, check}
use xv6_kernel_extensions.Pipe.{Pipe, pipeclose}
use xv6_kernel_extensions.Icache.{Icache, iput}

-- `type`, where `pipe` and `ip` are the index of the pipe and of the inode's entry in the cache.
pub data FileKind : Type 0 where
  fd_none : FileKind
  fd_pipe : ℕ → FileKind
  fd_inode : ℕ → FileKind
  fd_device : ℕ → FileKind

pub record File : Type 0 where
  pub kind : FileKind
  pub ref : ℕ
  pub readable : Bool
  pub writable : Bool
  pub off : ℕ
  pub major : ℤ

pub record Kernel : Type 0 where
  pub files : ℕ → File
  pub ofile : ℕ → Option ℕ
  pub pipes : ℕ → Pipe
  pub icache : Icache

abbrev pub nfile : ℕ
nfile = 100

abbrev pub nofile : ℕ
nofile = 16

abbrev pub nproc : ℕ
nproc = 64

unfoldable pub set_file : ℕ → File → Kernel → Kernel
set_file f v k = record k { files = update k.files f v }

-- The first of `m` files from `f` on that nothing refers to.
unfoldable pub find_file : ℕ → (ℕ → File) → ℕ → Option ℕ
find_file zero files f = none
find_file (suc m) files f =
    let rest = find_file m files (f + 1) in if (files f).ref == 0 then some f else rest

unfoldable pub claim_file : Kernel → Option ℕ → Option (ℕ × Kernel)
unfolding set_file
claim_file k none = none
claim_file k (some f) = some (f, set_file f (record (k.files f) { ref = 1 }) k)

unfoldable pub filealloc : Kernel → Option (ℕ × Kernel)
filealloc k = claim_file k (find_file nfile k.files 0)

unfoldable pub filedup : ℕ → Kernel → Outcome Kernel
unfolding set_file
filedup f k = do
  check (not (ltb (k.files f).ref 1))
  returns (set_file f (record (k.files f) { ref = (k.files f).ref + 1 }) k)

-- What the last `fileclose` does with what the file referred to. The call of `iput` is in a
-- transaction of its own. That `pipeclose` gives back the page of the pipe is not followed.
unfoldable pub close_target : FileKind → Bool → Kernel → Outcome Kernel
close_target fd_none writable k = returns k
close_target (fd_pipe p) writable k =
    returns (record k { pipes = update k.pipes p (pipeclose writable (k.pipes p)).0 })
close_target (fd_inode ip) writable k = do
  icache ← iput ip k.icache
  returns (record k { icache = icache })
close_target (fd_device ip) writable k = do
  icache ← iput ip k.icache
  returns (record k { icache = icache })

unfoldable pub fileclose : ℕ → Kernel → Outcome Kernel
unfolding set_file
fileclose f k =
    let ff = k.files f in
    let left = ff.ref - 1 in
    check (not (ltb ff.ref 1))
    >> (if ltb 0 left
        then returns (set_file f (record ff { ref = left }) k)
        else close_target ff.kind ff.writable
            (set_file f (record ff { ref = 0; kind = fd_none }) k))

-- The first of `m` descriptors from `fd` on that is not open.
unfoldable pub find_fd : ℕ → ℕ → (ℕ → Option ℕ) → ℕ → Option ℕ
find_fd zero pid ofile fd = none
find_fd (suc m) pid ofile fd = elim (ofile (pid * nofile + fd)) [
  | none ↦ some fd
  | some f ↦ find_fd m pid ofile (fd + 1)
]

unfoldable pub install_fd : ℕ → ℕ → Kernel → Option ℕ → Option (ℕ × Kernel)
install_fd pid f k none = none
install_fd pid f k (some fd) =
    some (fd, record k { ofile = update k.ofile (pid * nofile + fd) (some f) })

unfoldable pub fdalloc : ℕ → ℕ → Kernel → Option (ℕ × Kernel)
fdalloc pid f k = install_fd pid f k (find_fd nofile pid k.ofile 0)

-- The descriptor of a system call's argument, and its file.
unfoldable pub argfd : ℕ → ℤ → Kernel → Option (ℕ × ℕ)
argfd pid fd k =
    if ltb_ℤ fd (pos 0) || leb_ℤ (pos nofile) fd
    then none
    else elim (k.ofile (pid * nofile + pos_part fd)) [
      | none ↦ none
      | some f ↦ some (pos_part fd, f)
    ]

-- `pos fd` and -1 for the results of the system calls.
unfoldable pub dup_fd : ℕ → Option (ℕ × Kernel) → Kernel → Outcome (ℤ × Kernel)
dup_fd f none k = returns (negsuc 0, k)
dup_fd f (some (fd, k')) k = filedup f k' >>= λ k''. returns (pos fd, k'')

unfoldable pub sys_dup : ℕ → ℤ → Kernel → Outcome (ℤ × Kernel)
unfolding dup_fd
sys_dup pid fd k = elim (argfd pid fd k) [
  | none ↦ returns (negsuc 0, k)
  | some (n, f) ↦ dup_fd f (fdalloc pid f k) k
]

-- The descriptor is gone before the file is closed.
unfoldable pub drop_fd : ℕ → ℕ → Kernel → Kernel
drop_fd pid fd k = record k { ofile = update k.ofile (pid * nofile + fd) none }

unfoldable pub sys_close : ℕ → ℤ → Kernel → Outcome (ℤ × Kernel)
sys_close pid fd k = elim (argfd pid fd k) [
  | none ↦ returns (negsuc 0, k)
  | some (n, f) ↦ fileclose f (drop_fd pid n k) >>= λ k'. returns (pos 0, k')
]

-- A file for a descriptor of a new process.
unfoldable pub give_fd : ℕ → ℕ → ℕ → Kernel → Kernel
give_fd child fd f k = record k { ofile = update k.ofile (child * nofile + fd) (some f) }

-- The loop of `fork` in FileSystem-RAID/kernel/proc.c over the descriptors, `m` of them from `fd` on.
unfoldable pub fork_files : ℕ → ℕ → ℕ → ℕ → Kernel → Outcome Kernel
unfolding give_fd
fork_files zero parent child fd k = returns k
fork_files (suc m) parent child fd k = elim (k.ofile (parent * nofile + fd)) [
  | none ↦ fork_files m parent child (fd + 1) k
  | some f ↦ filedup f k >>= λ k'. fork_files m parent child (fd + 1) (give_fd child fd f k')
]
