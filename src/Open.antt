-- ===== src/Open.antt =====
-- `sys_open` of FileSystem-RAID/kernel/sysfile.c, on the file table of Files.antt and the inode
-- cache. `omode` is an int whose bits are read by division.
pub mod Permission
pub mod Granted
mod Tests
use xv6_kernel_extensions.Prelude.{
  ℕ, zero, suc, ◌+◌, ◌-◌, ◌*◌, ◌/◌, ◌%◌, ℤ, pos, negsuc, ltb_ℤ, leb_ℤ, eqb_ℤ, Bool, true, false,
  not, Option, none, some, ◌==◌, ltb, leb, ◌&&◌, ◌||◌, if◌then◌else◌, update,
}
use xv6_kernel_extensions.Bio.{Outcome, returns, panics, ◌>>=◌, ◌>>◌, check}
use xv6_kernel_extensions.Strings.{Memory}
use xv6_kernel_extensions.Blocks.{itrunc}
use xv6_kernel_extensions.Icache.{
  Icache, Dinode, set_entry, iupdate, ilock, iunlock, iput, iunlockput,
}
use xv6_kernel_extensions.Contents.{with_node}
use xv6_kernel_extensions.Paths.{may_read}
use xv6_kernel_extensions.Names.{Caller, copy_of, create}
use xv6_kernel_extensions.Names.Modes.{locate}
use xv6_kernel_extensions.Files.{
  File, FileKind, fd_inode, fd_device, Kernel, set_file, filealloc, fdalloc, fileclose,
}

abbrev pub ndev : ℕ
ndev = 10

-- `omode & O_…`, for O_WRONLY, O_RDWR, O_NOACCESS, O_CREATE and O_TRUNC.
abbrev pub has_wronly : ℕ → Bool
has_wronly omode = omode % 2 == 1

abbrev pub has_rdwr : ℕ → Bool
has_rdwr omode = omode / 2 % 2 == 1

abbrev pub has_noaccess : ℕ → Bool
has_noaccess omode = omode / 4 % 2 == 1

abbrev pub has_create : ℕ → Bool
has_create omode = omode / 512 % 2 == 1

abbrev pub has_trunc : ℕ → Bool
has_trunc omode = omode / 1024 % 2 == 1

-- M_WRITE of a mode, which is a short.
abbrev pub may_write : ℤ → Bool
may_write (pos n) = n / 2 % 2 == 1
may_write (negsuc n) = n / 2 % 2 == 0

-- The checks of the mode and of directories, for what was found without O_CREATE.
unfoldable pub may_open : ℕ → Dinode → Bool
may_open omode d =
    let need_read = omode == 0 || omode == 2 in
    let need_write = omode == 1 || omode == 2 in
    let exempt = has_noaccess omode || d.kind == 3 in
    if not exempt && (need_read && not (may_read d.minor))
    then false
    else if not exempt && (need_write && not (may_write d.minor))
    then false
    else not (d.kind == 1 && (not (omode == 0) && not (has_noaccess omode)))

-- The inode that is opened, locked, or none where the call has failed.
unfoldable pub open_inode : Caller → Memory → ℕ → Icache → Outcome (Option ℕ × Icache)
unfolding may_open
open_inode p path omode c =
    let existing : Outcome (Option ℕ × Icache) = do
      (found, c1) ← locate p (has_noaccess omode) path c
      elim found [
        | none ↦ returns (none, c1)
        | some ip ↦
            let refused : Outcome (Option ℕ × Icache) =
              iunlockput p.me ip c1 >>= λ c2. returns (none, c2) in
            if may_open omode (copy_of ip c1) then returns (some ip, c1) else refused
      ]
    in if has_create omode then create p path 2 (pos 0) (pos 0) c else existing

-- The fields of the new file.
unfoldable pub opened_file : ℕ → ℕ → Dinode → File → File
opened_file omode ip d f =
    let device = d.kind == 3 in
    record f {
      kind = if device then fd_device ip else fd_inode ip;
      major = if device then d.major else f.major;
      off = if device then f.off else 0;
      readable = not (has_noaccess omode) && not (has_wronly omode);
      writable = not (has_noaccess omode) && (has_wronly omode || has_rdwr omode);
    }

-- `itrunc` of a cached inode.
unfoldable pub truncate : ℕ → Icache → Outcome Icache
truncate ip c = do
  (node, blocks) ← itrunc (copy_of ip c).node c.blocks
  returns (iupdate ip (with_node ip node blocks c))

abbrev pub with_icache : Kernel → Icache → Kernel
with_icache k c = record k { icache = c }

-- `return -1`, with the inode put away.
abbrev pub put_away : Caller → ℕ → Kernel → Outcome (ℤ × Kernel)
put_away p ip k = iunlockput p.me ip k.icache >>= λ c. returns (negsuc 0, with_icache k c)

-- The file `f` and the descriptor `fd` for the locked inode.
unfoldable pub install_file : Caller → ℕ → ℕ → ℕ → ℕ → Kernel → Outcome (ℤ × Kernel)
unfolding opened_file truncate set_file
install_file p omode ip f fd k = do
  let d = copy_of ip k.icache
  let k1 = set_file f (opened_file omode ip d (k.files f)) k
  c1 ← (if has_trunc omode && d.kind == 2 then truncate ip k.icache else returns k.icache)
  c2 ← iunlock p.me ip c1
  returns (pos fd, with_icache k1 c2)

unfoldable pub open_fd : Caller → ℕ → ℕ → ℕ → Kernel → Option (ℕ × Kernel) → Outcome (ℤ × Kernel)
unfolding install_file
open_fd p omode ip f k none = fileclose f k >>= λ k1. put_away p ip k1
open_fd p omode ip f k (some (fd, k1)) = install_file p omode ip f fd k1

unfoldable pub open_slot : Caller → ℕ → ℕ → Kernel → Option (ℕ × Kernel) → Outcome (ℤ × Kernel)
unfolding open_fd
open_slot p omode ip k none = put_away p ip k
open_slot p omode ip k (some (f, k1)) = open_fd p omode ip f k1 (fdalloc p.me f k1)

unfoldable pub open_found : Caller → ℕ → Kernel → Option ℕ → Outcome (ℤ × Kernel)
unfolding open_slot
open_found p omode k none = returns (negsuc 0, k)
open_found p omode k (some ip) =
    let d = copy_of ip k.icache in
    if d.kind == 3 && (ltb_ℤ d.major (pos 0) || leb_ℤ (pos ndev) d.major)
    then put_away p ip k
    else open_slot p omode ip k (filealloc k)

unfoldable pub sys_open : Caller → Option Memory → ℕ → Kernel → Outcome (ℤ × Kernel)
unfolding open_found open_inode
sys_open p none omode k = returns (negsuc 0, k)
sys_open p (some path) omode k = do
  (found, c) ← open_inode p path omode k.icache
  open_found p omode (with_icache k c) found
