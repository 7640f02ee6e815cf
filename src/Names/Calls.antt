-- ===== src/Names/Calls.antt =====
-- The system calls of FileSystem-RAID/kernel/sysfile.c on paths, but `sys_open`.
use xv6_kernel_extensions.Prelude.{
  ℕ, ◌+◌, ◌-◌, ℤ, pos, negsuc, eqb_ℤ, true, not, Option, none, some, ◌==◌, ltb, ◌||◌, if◌then◌else◌,
}
use xv6_kernel_extensions.Bio.{Outcome, returns, panics, ◌>>=◌, ◌>>◌, check}
use xv6_kernel_extensions.Strings.{Memory, strlen}
use xv6_kernel_extensions.Icache.{Icache, iupdate, ilock, iunlock, iput, iunlockput}
use xv6_kernel_extensions.Contents.{kernel_memory, writei}
use xv6_kernel_extensions.Paths.{Found, maxpath, namecmp, dirlookup, namei, nameiparent}
use xv6_kernel_extensions.Names.{
  Caller, copy_of, with_copy, ialloc, dirlink, isdirempty, create, dot, dots,
}

-- `return -1`, after a step.
abbrev pub fails : Outcome Icache → Outcome (ℤ × Icache)
fails o = o >>= λ c. returns (negsuc 0, c)

abbrev pub done : Outcome Icache → Outcome (ℤ × Icache)
done o = o >>= λ c. returns (pos 0, c)

-- `nlink` after one link less, which was one at least.
unfoldable pub drop_link : ℕ → Icache → Icache
unfolding with_copy
drop_link ip c =
    iupdate ip (with_copy ip (record (copy_of ip c) { nlink = (copy_of ip c).nlink - 1 }) c)

unfoldable pub add_link : ℕ → Icache → Icache
unfolding with_copy
add_link ip c =
    iupdate ip (with_copy ip (record (copy_of ip c) { nlink = (copy_of ip c).nlink + 1 }) c)

-- The label `bad` of `sys_link`.
unfoldable pub undo_link : Caller → ℕ → Icache → Outcome (ℤ × Icache)
unfolding drop_link
undo_link p ip c = ilock p.me ip c >>= λ c1. fails (iunlockput p.me ip (drop_link ip c1))

unfoldable pub link_in : Caller → ℕ → Found → Outcome (ℤ × Icache)
unfolding undo_link
link_in p ip (none, name, c) = undo_link p ip c
link_in p ip (some dp, name, c) = do
  c1 ← ilock p.me dp c
  let no_link = λ (c2 : Icache). (iunlockput p.me dp c2 >>= λ c3. undo_link p ip c3)
  let linked : Outcome (ℤ × Icache) = do
    (ok, c2) ← dirlink dp name (c1.entries ip).inum c1
    let finish : Outcome (ℤ × Icache) = iunlockput p.me dp c2 >>= λ c3. done (iput ip c3)
    if ok then finish else no_link c2
  if (c1.entries dp).dev == (c1.entries ip).dev then linked else no_link c1

unfoldable pub sys_link : Caller → Option Memory → Option Memory → Icache → Outcome (ℤ × Icache)
unfolding link_in add_link
sys_link p none new c = returns (negsuc 0, c)
sys_link p (some old) none c = returns (negsuc 0, c)
sys_link p (some old) (some new) c = do
  (found, c1) ← namei p.depth p.me p.cwd old 0 c
  elim found [
    | none ↦ returns (negsuc 0, c1)
    | some ip ↦ do
      c2 ← ilock p.me ip c1
      let link : Outcome (ℤ × Icache) = do
        c3 ← iunlock p.me ip (add_link ip c2)
        r ← nameiparent p.depth p.me p.cwd new 0 (λ a. 0) c3
        link_in p ip r
      if (copy_of ip c2).kind == 1 then fails (iunlockput p.me ip c2) else link
  ]

-- The entry at `off` is cleared, and the inode has a link less.
unfoldable pub clear_entry : Caller → ℕ → ℕ → ℕ → Icache → Outcome (ℤ × Icache)
unfolding drop_link
clear_entry p dp ip off c = do
  (n, c1) ← writei dp 0 off 16 c (kernel_memory (λ a. 0))
  check (eqb_ℤ n (pos 16))
  let c2 = if (copy_of ip c1).kind == 1 then drop_link dp c1 else c1
  c3 ← iunlockput p.me dp c2
  done (iunlockput p.me ip (drop_link ip c3))

unfoldable pub unlink_found : Caller → ℕ → ℕ → ℕ → Icache → Outcome (ℤ × Icache)
unfolding clear_entry
unlink_found p dp ip off c = do
  c1 ← ilock p.me ip c
  check (not (ltb (copy_of ip c1).nlink 1))
  (empty, c2) ← (if (copy_of ip c1).kind == 1 then isdirempty ip c1 else returns (true, c1))
  let bad : Outcome (ℤ × Icache) = iunlockput p.me ip c2 >>= λ c3. fails (iunlockput p.me dp c3)
  if empty then clear_entry p dp ip off c2 else bad

-- A name and another, side by side.
abbrev pub beside : Memory → Memory → Memory
beside s t a = if ltb a 16 then s a else t (a - 16)

unfoldable pub unlink_in : Caller → Found → Outcome (ℤ × Icache)
unfolding unlink_found
unlink_in p (none, name, c) = returns (negsuc 0, c)
unlink_in p (some dp, name, c) = do
  c1 ← ilock p.me dp c
  let look : Outcome (ℤ × Icache) = do
    (found, c2) ← dirlookup dp name c1
    elim found [
      | none ↦ fails (iunlockput p.me dp c2)
      | some (ip, off) ↦ unlink_found p dp ip off c2
    ]
  if eqb_ℤ (namecmp 0 16 (beside name dot)) (pos 0)
        || eqb_ℤ (namecmp 0 16 (beside name dots)) (pos 0)
      then fails (iunlockput p.me dp c1)
      else look

unfoldable pub sys_unlink : Caller → Option Memory → Icache → Outcome (ℤ × Icache)
unfolding unlink_in
sys_unlink p none c = returns (negsuc 0, c)
sys_unlink p (some path) c = nameiparent p.depth p.me p.cwd path 0 (λ a. 0) c >>= λ r. unlink_in p r

-- A new inode with the target as its contents, and its entry in the directory.
unfoldable pub make_symlink : Caller → Memory → ℕ → Memory → ℕ → Icache → Outcome (ℤ × Icache)
unfolding with_copy
make_symlink p target len name dp c = do
  (ip, c1) ← ialloc p.ninodes (c.entries dp).dev 4 c
  c2 ← ilock p.me ip c1
  (n, c3) ←
      writei ip 0 0 len (with_copy ip (record (copy_of ip c2) { minor = pos 3; nlink = 1 }) c2)
        (kernel_memory target)
  let bad = λ (c4 : Icache). (iunlockput p.me ip c4 >>= λ c5. fails (iunlockput p.me dp c5))
  let entered : Outcome (ℤ × Icache) = do
    (ok, c4) ← dirlink dp name (c3.entries ip).inum (iupdate ip c3)
    let finish : Outcome (ℤ × Icache) = iunlockput p.me dp c4 >>= λ c5. done (iunlockput p.me ip c5)
    if ok then finish else bad c4
  if eqb_ℤ n (pos len) then entered else bad c3

unfoldable pub symlink_in : Caller → Memory → Found → Outcome (ℤ × Icache)
unfolding make_symlink
symlink_in p target (none, name, c) = returns (negsuc 0, c)
symlink_in p target (some dp, name, c) = do
  c1 ← ilock p.me dp c
  elim (strlen maxpath 0 target) [ none ↦ panics | some len ↦ make_symlink p target len name dp c1 ]

unfoldable pub sys_symlink : Caller → Option Memory → Option Memory → Icache → Outcome (ℤ × Icache)
unfolding symlink_in
sys_symlink p none path c = returns (negsuc 0, c)
sys_symlink p (some target) none c = returns (negsuc 0, c)
sys_symlink p (some target) (some path) c = do
  (found, c1) ← namei p.depth p.me p.cwd path 0 c
  let make : Outcome (ℤ × Icache) =
      nameiparent p.depth p.me p.cwd path 0 (λ a. 0) c1 >>= λ r. symlink_in p target r
  elim found [ some ip ↦ fails (iput ip c1) | none ↦ make ]

-- `sys_mkdir` and `sys_mknod`, of the kind of the inode.
unfoldable pub make_node : Caller → Option Memory → ℕ → ℤ → ℤ → Icache → Outcome (ℤ × Icache)
make_node p none kind major minor c = returns (negsuc 0, c)
make_node p (some path) kind major minor c = do
  (found, c1) ← create p path kind major minor c
  elim found [ none ↦ returns (negsuc 0, c1) | some ip ↦ done (iunlockput p.me ip c1) ]

unfoldable pub sys_mkdir : Caller → Option Memory → Icache → Outcome (ℤ × Icache)
unfolding make_node
sys_mkdir p path c = make_node p path 1 (pos 0) (pos 0) c

unfoldable pub sys_mknod : Caller → Option Memory → ℤ → ℤ → Icache → Outcome (ℤ × Icache)
unfolding make_node
sys_mknod p path major minor c = make_node p path 3 major minor c

unfoldable pub sys_chdir : Caller → Option Memory → Icache → Outcome (ℤ × Caller × Icache)
sys_chdir p none c = returns (negsuc 0, p, c)
sys_chdir p (some path) c = do
  (found, c1) ← namei p.depth p.me p.cwd path 0 c
  elim found [
    | none ↦ returns (negsuc 0, p, c1)
    | some ip ↦ do
      c2 ← ilock p.me ip c1
      let no_dir : Outcome (ℤ × Caller × Icache) =
          iunlockput p.me ip c2 >>= λ c3. returns (negsuc 0, p, c3)
      let enter : Outcome (ℤ × Caller × Icache) = do
        c3 ← iunlock p.me ip c2
        c4 ← iput p.cwd c3
        returns (pos 0, record p { cwd = ip }, c4)
      if (copy_of ip c2).kind == 1 then enter else no_dir
  ]
