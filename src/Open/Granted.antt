-- ===== src/Open/Granted.antt =====
-- The permissions that `sys_open` of FileSystem-RAID/kernel/sysfile.c tests, and those it does not.
use xv6_kernel_extensions.Prelude.{
  ℕ, ◌+◌, ◌*◌, ◌<◌, ℤ, pos, true, false, not, Option, some, ◌==◌, ◌&&◌, ◌||◌, if◌then◌else◌, ◌≡◌,
  ◌≢◌, sym, ap, ◌∙◌, subst, arith,
}
use xv6_kernel_extensions.Bio.{Outcome, returns}
use xv6_kernel_extensions.Strings.{Memory}
use xv6_kernel_extensions.Icache.{Icache, Dinode}
use xv6_kernel_extensions.Contents.Loops.{bind_returns}
use xv6_kernel_extensions.Paths.{may_read}
use xv6_kernel_extensions.Names.{Caller, copy_of}
use xv6_kernel_extensions.Names.Modes.{locate}
use xv6_kernel_extensions.Files.{fd_inode, fd_device, Kernel}
use xv6_kernel_extensions.Open.{
  has_wronly, has_rdwr, has_noaccess, may_write, may_open, open_inode, opened_file, with_icache,
  open_found, sys_open,
}
use xv6_kernel_extensions.Open.Permission.{open_found-Opened, open_inode-checked}

-- For one of the three access modes alone.
may_open-modes :
    (omode : ℕ) (d : Dinode)
    → omode < 3
    → may_open omode d ≡ true
    → (d.kind ≢ 3 → (omode ≢ 1 → may_read d.minor ≡ true) × (omode ≢ 0 → may_write d.minor ≡ true))
      × (d.kind ≡ 1 → omode ≡ 0)
unfolding may_open
may_open-modes omode d l e = (λ n. (λ m. ground arith, λ m. ground arith), λ n. ground arith)

open_flags :
    (omode : ℕ)
    → omode < 3
    → ((not (has_noaccess omode) && not (has_wronly omode)) ≡ not (omode == 1))
      × ((not (has_noaccess omode) && (has_wronly omode || has_rdwr omode)) ≡ not (omode == 0))
open_flags omode l = (ground arith, ground arith)

is_other : (n m : ℕ) → not (n == m) ≡ true → n ≢ m
is_other n m e = ground arith

is_same : (n m : ℕ) → n ≡ m → not (n == m) ≡ false
is_same n m e = ground arith

-- If a call with one of O_RDONLY, O_WRONLY and O_RDWR alone returns a descriptor, then it is a file
-- on the inode that the path and the links at its end lead to, that is readable but for O_WRONLY,
-- and writable but for O_RDONLY; it is readable only if the mode of the inode has M_READ, and
-- writable only if it has M_WRITE, or the inode is a device; and no directory is writable.
pub sys_open-Granted :
    (p : Caller) (path : Memory) (omode fd : ℕ) (k k' : Kernel)
    → omode < 3
    → sys_open p (some path) omode k ≡ returns (pos fd, k')
    → (ip f : ℕ) × (c : Icache) × (locate p false path k.icache ≡ returns (some ip, c))
      × (k'.ofile (p.me * 16 + fd) ≡ some f)
      × ((k'.files f).kind ≡ (if (copy_of ip c).kind == 3 then fd_device ip else fd_inode ip))
      × ((k'.files f).readable ≡ not (omode == 1))
      × ((k'.files f).writable ≡ not (omode == 0))
      × ((copy_of ip c).kind ≢ 3
          → ((k'.files f).readable ≡ true → may_read (copy_of ip c).minor ≡ true)
            × ((k'.files f).writable ≡ true → may_write (copy_of ip c).minor ≡ true))
      × ((copy_of ip c).kind ≡ 1 → (k'.files f).writable ≡ false)
unfolding sys_open opened_file
sys_open-Granted p path omode fd k k' l e =
    let body : Option ℕ × Icache → Outcome (ℤ × Kernel) =
      λ r. open_found p omode (with_icache k r.1) r.0 in
    let ((found, c), a, g) = bind_returns (open_inode p path omode k.icache) body (pos fd, k') e in
    let (ip, q, (f, o, (v, s))) = open_found-Opened p omode fd (with_icache k c) k' found g in
    let n : has_noaccess omode ≡ false = ground arith in
    let a' : open_inode p path omode k.icache ≡ returns (some ip, c) =
      a ∙ ap (λ x. returns (x, c)) q in
    let (b, m) = open_inode-checked p path omode ip k.icache c (ground arith) a' in
    let (h, i) = may_open-modes omode (copy_of ip c) l m in
    let r : (k'.files f).readable ≡ not (omode == 1) =
      ap (λ x. x.readable) s ∙ (open_flags omode l).0 in
    let w : (k'.files f).writable ≡ not (omode == 0) =
      ap (λ x. x.writable) s ∙ (open_flags omode l).1 in
    (
      ip,
      f,
      c,
      subst (λ x. locate p x path k.icache ≡ returns (some ip, c)) n b,
      o,
      ap (λ x. x.kind) s,
      r,
      w,
      (λ j. (
        λ y. (h j).0 (is_other omode 1 (sym r ∙ y)),
        λ y. (h j).1 (is_other omode 0 (sym w ∙ y)),
      )),
      λ j. w ∙ is_same omode 0 (i j),
    )

-- If `omode` is more than O_RDWR, the mode of a file is not tested: a call passes the checks on every
-- inode that is no directory.
pub may_open_unchecked : (omode : ℕ) (d : Dinode) → 2 < omode → d.kind ≢ 1 → may_open omode d ≡ true
unfolding may_open
may_open_unchecked omode d l n = ground arith
