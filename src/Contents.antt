-- ===== src/Contents.antt =====
-- FileSystem-RAID/kernel/fs.c: the contents of an inode, `readi`, `writei` and `stati`, and
-- `either_copyout` and `either_copyin` of FileSystem-RAID/kernel/proc.c. A block is 256 words, and
-- its bytes are theirs, the lowest first. The caller has the inode locked, and is in a transaction.
pub mod Layout
pub mod Slots
pub mod Position
pub mod Mapped
pub mod Bytes
pub mod Written
pub mod Loops
pub mod Extended
pub mod RoundTrip
mod Tests
use xv6_kernel_extensions.Prelude.{
  ℕ, zero, suc, ◌+◌, ◌-◌, ◌*◌, ◌/◌, ◌%◌, ◌^◌, ℤ, pos, negsuc, Bool, true, false, ◌==◌, ltb, leb,
  ◌||◌, if◌then◌else◌, update,
}
use xv6_kernel_extensions.Bio.{Block, Outcome, returns, panics, ◌>>=◌}
use xv6_kernel_extensions.Blocks.{Blocks, Inode, bmap}
use xv6_kernel_extensions.Icache.{Icache, Entry, Dinode, set_entry, iupdate}
use xv6_kernel_extensions.Vm.{Ram}
use xv6_kernel_extensions.Vm.Copy.{move_bytes, copyin, copyout}

abbrev pub bsize : ℕ
bsize = 1024

-- MAXFILE * BSIZE
abbrev pub max_size : ℕ
max_size = 274432

unfoldable pub block_byte : Block → ℕ → ℕ
block_byte words o =
    if o % 4 == 0
    then words (o / 4) % 256
    else if o % 4 == 1
    then words (o / 4) / 256 % 256
    else if o % 4 == 2
    then words (o / 4) / 65536 % 256
    else words (o / 4) / 16777216 % 256

-- The block with given bytes.
unfoldable pub block_of : (ℕ → ℕ) → Block
block_of bytes i =
    bytes (4 * i) % 256
    + 256 * (bytes (4 * i + 1) % 256)
    + 65536 * (bytes (4 * i + 2) % 256)
    + 16777216 * (bytes (4 * i + 3) % 256)

-- Where the other side of a copy lies: in the kernel, or in the memory of the process.
pub data Place : Type 0 where
  kernel_memory : (ℕ → ℕ) → Place
  user_memory : ℕ → Ram → Place

unfoldable pub either_copyout : Place → ℕ → ℕ → (ℕ → ℕ) → ℕ → Bool × Place
either_copyout (kernel_memory mem) dst src bytes len =
    (true, kernel_memory (move_bytes len dst src bytes mem))
either_copyout (user_memory pagetable r) dst src bytes len =
    let q = copyout pagetable dst src len bytes r in (q.0, user_memory pagetable q.1)

unfoldable pub either_copyin : ℕ → (ℕ → ℕ) → Place → ℕ → ℕ → Bool × (ℕ → ℕ)
either_copyin dst bytes (kernel_memory mem) src len = (true, move_bytes len dst src mem bytes)
either_copyin dst bytes (user_memory pagetable r) src len = copyin pagetable dst src len r bytes

-- The bytes to copy in the block of `off`.
abbrev pub in_block : ℕ → ℕ → ℕ
in_block off left = let m = bsize - off % bsize in if ltb left m then left else m

-- The loop of `readi`, on fuel: each turn copies a byte at least.
unfoldable pub read_blocks :
    ℕ → ℕ → ℕ → ℕ → ℕ → Inode → Blocks → Place → Outcome (ℕ × Inode × Blocks × Place)
read_blocks zero tot dst off n ip s to = returns (tot, ip, s, to)
read_blocks (suc fuel) tot dst off n ip s to =
    let turn : Outcome (ℕ × Inode × Blocks × Place) = do
      (b, ip', s') ← bmap ip (off / bsize) s
      let m = in_block off (n - tot)
      let (ok, to') = either_copyout to dst (off % bsize) (block_byte (s'.contents b)) m
      let next = read_blocks fuel (tot + m) (dst + m) (off + m) n ip' s' to'
      if ok then next else returns (tot, ip', s', to')
    in if ltb tot n then turn else returns (tot, ip, s, to)

-- The entry `i` with a new node, and the blocks.
unfoldable pub with_node : ℕ → Inode → Blocks → Icache → Icache
unfolding set_entry
with_node i node blocks c =
    record (set_entry i (record (c.entries i) { copy = record (c.entries i).copy { node = node } })
      c) { blocks = blocks }

unfoldable pub readi : ℕ → ℕ → ℕ → ℕ → Icache → Place → Outcome (ℕ × Icache × Place)
unfolding with_node read_blocks
readi i dst off n c to =
    let ip = (c.entries i).copy.node in
    let left = if ltb ip.size ((off + n) % 2 ^ 32) then ip.size - off else n in
    let copies : Outcome (ℕ × Icache × Place) = do
      (tot, ip', s, to') ← read_blocks left 0 dst off left ip c.blocks to
      returns (tot, with_node i ip' s c, to')
    in if ltb ip.size off || ltb ((off + n) % 2 ^ 32) off then returns (0, c, to) else copies

-- The loop of `writei`, with the offset that it ends at. A copy that fails leaves the block in the
-- cache with what was copied, outside of the transaction.
unfoldable pub write_blocks :
    ℕ → ℕ → ℕ → ℕ → ℕ → Inode → Blocks → Place → Outcome (ℕ × Inode × Blocks)
write_blocks zero tot src off n ip s from = returns (off, ip, s)
write_blocks (suc fuel) tot src off n ip s from =
    let turn : Outcome (ℕ × Inode × Blocks) = do
      (b, ip', s') ← bmap ip (off / bsize) s
      let m = in_block off (n - tot)
      let (ok, bytes) = either_copyin (off % bsize) (block_byte (s'.contents b)) from src m
      let s'' = record s' { contents = update s'.contents b (block_of bytes) }
      let next = write_blocks fuel (tot + m) (src + m) (off + m) n ip' s'' from
      if ok then next else returns (off, ip', s'')
    in if ltb tot n then turn else returns (off, ip, s)

-- After the loop: the size, and the inode on the disk.
unfoldable pub extend : ℕ → ℕ → ℕ → Inode → Blocks → Icache → Icache
unfolding with_node
extend i n off ip s c =
    if ltb 0 n
    then iupdate i (with_node i (if ltb ip.size off then record ip { size = off } else ip) s c)
    else with_node i ip s c

-- It returns `n` for a copy that fails too.
unfoldable pub writei : ℕ → ℕ → ℕ → ℕ → Icache → Place → Outcome (ℤ × Icache)
unfolding extend write_blocks
writei i src off n c from =
    let ip = (c.entries i).copy.node in
    let writes : Outcome (ℤ × Icache) = do
      (off', ip', s) ← write_blocks n 0 src off n ip c.blocks from
      returns (pos n, extend i n off' ip' s c)
    in if ltb ip.size off || ltb ((off + n) % 2 ^ 32) off
      then returns (negsuc 0, c)
      else if ltb max_size ((off + n) % 2 ^ 32)
      then returns (negsuc 0, c)
      else writes

pub record Stat : Type 0 where
  pub dev : ℕ
  pub ino : ℕ
  pub kind : ℕ
  pub nlink : ℕ
  pub size : ℕ
  pub mode : ℤ

-- The mode of a device, of type 3, is 0.
unfoldable pub stati : ℕ → Icache → Stat
stati i c =
    let e = c.entries i in
    record {
      dev = e.dev;
      ino = e.inum;
      kind = e.copy.kind;
      nlink = e.copy.nlink;
      size = e.copy.node.size;
      mode = if e.copy.kind == 3 then pos 0 else e.copy.minor;
    }
