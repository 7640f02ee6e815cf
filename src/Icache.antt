-- ===== src/Icache.antt =====
-- FileSystem-RAID/kernel/fs.c: the cache of inodes in memory. A `struct inode *` is the index of
-- its entry in `icache.inode`. The inodes on the disk are a function from inode numbers, which
-- `log_write` puts into the transaction. The functions are those of one process, `me`: where
-- another process holds an entry's sleep lock, a call `sleeps`.
pub mod Get
mod Tests
use xv6_kernel_extensions.Prelude.{
  ℕ, zero, suc, ◌+◌, ◌-◌, ℤ, Bool, true, false, not, Option, none, some, ◌==◌, ltb, ◌&&◌, ◌||◌,
  if◌then◌else◌, update,
}
use xv6_kernel_extensions.Bio.{Outcome, returns, panics, sleeps, ◌>>=◌, ◌>>◌, check, holds}
use xv6_kernel_extensions.Blocks.{Blocks, Inode, itrunc}

-- `type` is `kind`; `node` has the size and the addresses of the blocks.
pub record Dinode : Type 0 where
  pub kind : ℕ
  pub major : ℤ
  pub minor : ℤ
  pub nlink : ℕ
  pub node : Inode

pub record Entry : Type 0 where
  pub dev : ℕ
  pub inum : ℕ
  pub ref : ℕ
  pub lock : Option ℕ
  pub valid : Bool
  pub copy : Dinode

pub record Icache : Type 0 where
  pub entries : ℕ → Entry
  pub inodes : ℕ → Dinode
  pub blocks : Blocks

abbrev pub ninode : ℕ
ninode = 50

unfoldable pub set_entry : ℕ → Entry → Icache → Icache
set_entry i e c = record c { entries = update c.entries i e }

-- The first of `m` entries from `i` on that passes a test.
unfoldable pub find_entry : ℕ → (Entry → Bool) → (ℕ → Entry) → ℕ → Option ℕ
find_entry zero test entries i = none
find_entry (suc m) test entries i =
    let rest = find_entry m test entries (i + 1) in if test (entries i) then some i else rest

abbrev pub is_inode : ℕ → ℕ → Entry → Bool
is_inode dev inum e = ltb 0 e.ref && (e.dev == dev && e.inum == inum)

abbrev pub is_empty_entry : Entry → Bool
is_empty_entry e = e.ref == 0

unfoldable pub recycle_entry : ℕ → ℕ → Icache → Option ℕ → Outcome (ℕ × Icache)
unfolding set_entry
recycle_entry dev inum c none = panics
recycle_entry dev inum c (some i) =
    returns
      (i, set_entry i (record (c.entries i) { dev = dev; inum = inum; ref = 1; valid = false }) c)

unfoldable pub reuse_entry : ℕ → ℕ → Icache → Option ℕ → Outcome (ℕ × Icache)
unfolding set_entry
reuse_entry dev inum c none =
    recycle_entry dev inum c (find_entry ninode is_empty_entry c.entries 0)
reuse_entry dev inum c (some i) =
    returns (i, set_entry i (record (c.entries i) { ref = (c.entries i).ref + 1 }) c)

unfoldable pub iget : ℕ → ℕ → Icache → Outcome (ℕ × Icache)
iget dev inum c = reuse_entry dev inum c (find_entry ninode (is_inode dev inum) c.entries 0)

unfoldable pub idup : ℕ → Icache → Icache
unfolding set_entry
idup i c = set_entry i (record (c.entries i) { ref = (c.entries i).ref + 1 }) c

unfoldable pub iupdate : ℕ → Icache → Icache
iupdate i c = record c { inodes = update c.inodes (c.entries i).inum (c.entries i).copy }

-- The part of `ilock` under the sleep lock.
unfoldable pub load_inode : ℕ → Icache → Outcome Icache
unfolding set_entry
load_inode i c =
    let d = c.inodes (c.entries i).inum in
    let loaded = set_entry i (record (c.entries i) { copy = d; valid = true }) c in
    if (c.entries i).valid then returns c else if d.kind == 0 then panics else returns loaded

unfoldable pub ilock : ℕ → ℕ → Icache → Outcome Icache
unfolding set_entry
ilock me i c = if ltb (c.entries i).ref 1 then panics else elim (c.entries i).lock [
  | none ↦ load_inode i (set_entry i (record (c.entries i) { lock = some me }) c)
  | some pid ↦ sleeps
]

unfoldable pub iunlock : ℕ → ℕ → Icache → Outcome Icache
unfolding set_entry
iunlock me i c =
    if not (holds (c.entries i).lock me) || ltb (c.entries i).ref 1
    then panics
    else returns (set_entry i (record (c.entries i) { lock = none }) c)

-- The last reference to an inode without links: its blocks and the inode are freed.
unfoldable pub free_inode : ℕ → Icache → Outcome Icache
unfolding set_entry
free_inode i c = do
  (node, blocks) ← itrunc (c.entries i).copy.node c.blocks
  let e = record (c.entries i) { copy = record (c.entries i).copy { node = node; kind = 0 } }
  let c' = iupdate i (record (set_entry i e c) { blocks = blocks })
  returns (set_entry i (record e { valid = false }) c')

-- With one reference no other process has the sleep lock. The caller has a reference, so that `ref`
-- is positive.
unfoldable pub iput : ℕ → Icache → Outcome Icache
unfolding set_entry
iput i c = do
  c' ←
      if (c.entries i).ref == 1 && ((c.entries i).valid && (c.entries i).copy.nlink == 0)
      then free_inode i c
      else returns c
  returns (set_entry i (record (c'.entries i) { ref = (c'.entries i).ref - 1 }) c')

unfoldable pub iunlockput : ℕ → ℕ → Icache → Outcome Icache
iunlockput me i c = do c' ← iunlock me i c; iput i c'
