-- ===== src/Names/Modes.antt =====
-- Symbolic links at the end of a path, and the modes of files, of FileSystem-RAID/kernel/sysfile.c.
use xv6_kernel_extensions.Prelude.{
  ℕ, zero, suc, ◌-◌, ◌%◌, ℤ, pos, negsuc, Bool, false, not, Option, none, some, ◌==◌, ◌&&◌,
  if◌then◌else◌, update,
}
use xv6_kernel_extensions.Bio.{Outcome, returns, ◌>>=◌}
use xv6_kernel_extensions.Strings.{Memory}
use xv6_kernel_extensions.Icache.{Icache, iupdate, ilock, iunlockput}
use xv6_kernel_extensions.Contents.{kernel_memory, readi}
use xv6_kernel_extensions.Paths.{memory_of, namei}
use xv6_kernel_extensions.Names.{Caller, copy_of, with_copy}

-- The loop over symbolic links, with `left` turns before MAX_SYMLINK_DEPTH. The inode is locked, and
-- so is the one that it ends with; none where the call fails.
unfoldable pub follow_links : ℕ → Caller → Bool → ℕ → Icache → Outcome (Option ℕ × Icache)
follow_links zero p nofollow ip c = iunlockput p.me ip c >>= λ c1. returns (none, c1)
follow_links (suc left) p nofollow ip c =
    let size = (copy_of ip c).node.size in
    let turn : Outcome (Option ℕ × Icache) = do
      (n, c1, to) ← readi ip 0 0 size c (kernel_memory (λ a. 0))
      c2 ← iunlockput p.me ip c1
      let next : Outcome (Option ℕ × Icache) = do
        (found, c3) ← namei p.depth p.me p.cwd (update (memory_of to) size 0) 0 c2
        elim found [
          | none ↦ returns (none, c3)
          | some ip' ↦ ilock p.me ip' c3 >>= λ c4. follow_links left p nofollow ip' c4
        ]
      if n == size then next else returns (none, c2)
    in if (copy_of ip c).kind == 4 && not nofollow then turn else returns (some ip, c)

-- MAX_SYMLINK_DEPTH
abbrev pub max_symlink_depth : ℕ
max_symlink_depth = 10

-- The inode at the end of a path and of its links, locked.
unfoldable pub locate : Caller → Bool → Memory → Icache → Outcome (Option ℕ × Icache)
unfolding follow_links
locate p nofollow path c = do
  (found, c1) ← namei p.depth p.me p.cwd path 0 c
  elim found [
    | none ↦ returns (none, c1)
    | some ip ↦ ilock p.me ip c1 >>= λ c2. follow_links max_symlink_depth p nofollow ip c2
  ]

-- `mode & (M_READ | M_WRITE)`
abbrev pub rw_bits : ℤ → ℕ
rw_bits (pos n) = n % 4
rw_bits (negsuc n) = 3 - n % 4

-- The new mode of the inode, which is no device.
unfoldable pub set_mode : ℤ → ℕ → Icache → Icache
unfolding with_copy
set_mode mode ip c = iupdate ip (
    if (copy_of ip c).kind == 3
    then c
    else with_copy ip (record (copy_of ip c) { minor = pos (rw_bits mode) }) c)

unfoldable pub sys_chmod : Caller → Option Memory → ℤ → Icache → Outcome (ℤ × Icache)
unfolding set_mode
sys_chmod p none mode c = returns (negsuc 0, c)
sys_chmod p (some path) mode c = do
  (found, c1) ← locate p false path c
  elim found [
    | none ↦ returns (negsuc 0, c1)
    | some ip ↦ iunlockput p.me ip (set_mode mode ip c1) >>= λ c2. returns (pos 0, c2)
  ]
