-- ===== src/Names.antt =====
-- The system calls of FileSystem-RAID/kernel/sysfile.c that change directories and modes, with
-- `ialloc` and `dirlink` of FileSystem-RAID/kernel/fs.c. A path is what `argstr` gives: a memory with
-- the string at 0, or none where it fails. `begin_op` and `end_op` put each call into a transaction
-- of the log. `pos 0` and -1 are the results.
pub mod Calls
pub mod Modes
use xv6_kernel_extensions.Prelude.{
  ℕ, zero, suc, ◌+◌, ◌-◌, ◌*◌, ◌/◌, ◌%◌, ℤ, pos, negsuc, eqb_ℤ, Bool, true, false, not, Option,
  none, some, ◌==◌, ltb, leb, ◌&&◌, ◌||◌, if◌then◌else◌, update,
}
use xv6_kernel_extensions.Bio.{Outcome, returns, panics, ◌>>=◌, ◌>>◌, check}
use xv6_kernel_extensions.Strings.{Memory, strncpy, strlen}
use xv6_kernel_extensions.Icache.{
  Icache, Dinode, set_entry, iget, idup, iupdate, ilock, iunlock, iput, iunlockput,
}
use xv6_kernel_extensions.Contents.{Place, kernel_memory, readi, writei}
use xv6_kernel_extensions.Paths.{Found, memory_of, maxpath, namecmp, dirlookup, namei, nameiparent}

-- The process that calls: its pid, its directory, how deep `namex` may go, and the inodes of the disk.
pub record Caller : Type 0 where
  pub me : ℕ
  pub cwd : ℕ
  pub depth : ℕ
  pub ninodes : ℕ

abbrev pub copy_of : ℕ → Icache → Dinode
copy_of i c = (c.entries i).copy

unfoldable pub with_copy : ℕ → Dinode → Icache → Icache
unfolding set_entry
with_copy i d c = set_entry i (record (c.entries i) { copy = d }) c

-- The first of `m` inodes from `inum` on that is free.
unfoldable pub find_inode : ℕ → (ℕ → Dinode) → ℕ → Option ℕ
find_inode zero inodes inum = none
find_inode (suc m) inodes inum =
    let rest = find_inode m inodes (inum + 1) in if (inodes inum).kind == 0 then some inum else rest

-- The mode of what is no device, of type 3, is M_READ | M_WRITE.
unfoldable pub claim_inode : ℕ → ℕ → Icache → Option ℕ → Outcome (ℕ × Icache)
claim_inode dev kind c none = panics
claim_inode dev kind c (some inum) = iget dev inum (record c {
  inodes = update c.inodes inum (record {
    kind = kind;
    major = pos 0;
    minor = if kind == 3 then pos 0 else pos 3;
    nlink = 0;
    node = record { size = 0; addrs = λ i. 0 };
  });
})

unfoldable pub ialloc : ℕ → ℕ → ℕ → Icache → Outcome (ℕ × Icache)
unfolding claim_inode
ialloc ninodes dev kind c = claim_inode dev kind c (find_inode (ninodes - 1) c.inodes 1)

-- The number in the directory entry at `off`.
unfoldable pub entry_inum : ℕ → ℕ → Icache → Outcome (ℕ × Icache)
entry_inum dp off c = do
  (n, c', to) ← readi dp 0 off 16 c (kernel_memory (λ a. 0))
  check (n == 16)
  let de = memory_of to
  returns (de 0 + 256 * de 1, c')

-- The loop of `dirlink` for an empty entry, on fuel, and the offset that it ends at.
unfoldable pub find_empty : ℕ → ℕ → ℕ → Icache → Outcome (ℕ × Icache)
unfolding entry_inum
find_empty zero dp off c = returns (off, c)
find_empty (suc fuel) dp off c =
    let turn : Outcome (ℕ × Icache) = do
      (inum, c') ← entry_inum dp off c
      let next = find_empty fuel dp (off + 16) c'
      if inum == 0 then returns (off, c') else next
    in if ltb off (copy_of dp c).node.size then turn else returns (off, c)

-- The directory entry at 16, of the name at 0.
unfoldable pub new_entry : Memory → ℕ → Memory
new_entry name inum =
    update (update (strncpy 18 0 (pos 14) name) 16 (inum % 256)) 17 (inum / 256 % 256)

unfoldable pub dirlink : ℕ → Memory → ℕ → Icache → Outcome (Bool × Icache)
unfolding find_empty new_entry
dirlink dp name inum c = do
  (found, c1) ← dirlookup dp name c
  elim found [
    | some (ip, off) ↦ iput ip c1 >>= λ c2. returns (false, c2)
    | none ↦ do
      (off, c2) ← find_empty ((copy_of dp c1).node.size / 16 + 1) dp 0 c1
      (n, c3) ← writei dp 16 off 16 c2 (kernel_memory (new_entry name inum))
      check (eqb_ℤ n (pos 16))
      returns (true, c3)
  ]

-- The loop of `isdirempty` from `off`, on fuel.
unfoldable pub no_entries : ℕ → ℕ → ℕ → Icache → Outcome (Bool × Icache)
unfolding entry_inum
no_entries zero dp off c = returns (true, c)
no_entries (suc fuel) dp off c =
    let turn : Outcome (Bool × Icache) = do
      (inum, c') ← entry_inum dp off c
      let next = no_entries fuel dp (off + 16) c'
      if inum == 0 then next else returns (false, c')
    in if ltb off (copy_of dp c).node.size then turn else returns (true, c)

unfoldable pub isdirempty : ℕ → Icache → Outcome (Bool × Icache)
unfolding no_entries
isdirempty dp c = no_entries ((copy_of dp c).node.size / 16 + 1) dp 32 c

-- The names "." and "..", as bytes.
abbrev pub dot : Memory
dot = update (λ a. 0) 0 46

abbrev pub dots : Memory
dots = update dot 1 46

-- The inode that `create` has found, with the directory put away.
unfoldable pub reuse_inode : ℕ → ℕ → ℕ → Icache → Outcome (Option ℕ × Icache)
reuse_inode me kind ip c = do
  c1 ← ilock me ip c
  if kind == 2 && ((copy_of ip c1).kind == 2 || (copy_of ip c1).kind == 3)
      then returns (some ip, c1)
      else (iunlockput me ip c1 >>= λ c2. returns (none, c2))

-- The entries "." and ".." of a new directory.
unfoldable pub make_dots : ℕ → ℕ → Icache → Outcome Icache
make_dots dp ip c = do
  let c1 = iupdate dp (with_copy dp (record (copy_of dp c) { nlink = (copy_of dp c).nlink + 1 }) c)
  (ok, c2) ← dirlink ip dot (c1.entries ip).inum c1
  check ok
  (ok', c3) ← dirlink ip dots (c2.entries dp).inum c2
  check ok'
  returns c3

-- The fields that `create` sets.
abbrev pub new_copy : ℕ → ℤ → ℤ → Dinode → Dinode
new_copy kind major minor d = record d {
  major = major;
  minor = if kind == 3 then minor else pos 3;
  nlink = 1;
}

unfoldable pub make_inode : Caller → ℕ → Memory → ℕ → ℤ → ℤ → Icache → Outcome (Option ℕ × Icache)
unfolding make_dots with_copy
make_inode p dp name kind major minor c = do
  (ip, c1) ← ialloc p.ninodes (c.entries dp).dev kind c
  c2 ← ilock p.me ip c1
  let c3 = iupdate ip (with_copy ip (new_copy kind major minor (copy_of ip c2)) c2)
  c4 ← (if kind == 1 then make_dots dp ip c3 else returns c3)
  (ok, c5) ← dirlink dp name (c4.entries ip).inum c4
  check ok
  c6 ← iunlockput p.me dp c5
  returns (some ip, c6)

unfoldable pub create_in : Caller → ℕ → ℤ → ℤ → Found → Outcome (Option ℕ × Icache)
unfolding make_inode reuse_inode
create_in p kind major minor (none, name, c) = returns (none, c)
create_in p kind major minor (some dp, name, c) = do
  c1 ← ilock p.me dp c
  (found, c2) ← dirlookup dp name c1
  elim found [
    | some (ip, off) ↦ iunlockput p.me dp c2 >>= λ c3. reuse_inode p.me kind ip c3
    | none ↦ make_inode p dp name kind major minor c2
  ]

-- The inode, locked.
unfoldable pub create : Caller → Memory → ℕ → ℤ → ℤ → Icache → Outcome (Option ℕ × Icache)
unfolding create_in
create p path kind major minor c =
    nameiparent p.depth p.me p.cwd path 0 (λ a. 0) c >>= λ r. create_in p kind major minor r
