-- ===== src/Blocks.antt =====
-- FileSystem-RAID/kernel/fs.c: the free map and the blocks of an inode, inside a transaction that
-- has space in the log. A block is its 256 words, the free map its bits, `used` of a block number;
-- the changes go to the cached blocks, which `log_write` puts into the transaction.
pub mod Free
pub mod Map
mod Tests
use xv6_kernel_extensions.Prelude.{
  ℕ, zero, suc, ◌+◌, ◌-◌, ◌*◌, Bool, true, false, not, Option, none, some, List, [], ◌∷◌, ◌==◌, ltb,
  leb, if◌then◌else◌, update,
}
use xv6_kernel_extensions.Bio.{Block, Outcome, returns, panics, ◌>>=◌, ◌>>◌, check}

pub record Blocks : Type 0 where
  pub size : ℕ
  pub used : ℕ → Bool
  pub contents : ℕ → Block

-- `type`, `nlink` and the device numbers are not changed by the functions below.
pub record Inode : Type 0 where
  pub size : ℕ
  pub addrs : ℕ → ℕ

abbrev pub ndirect : ℕ
ndirect = 12

abbrev pub nindirect : ℕ
nindirect = 256

-- Bits in a block of the free map.
abbrev pub bpb : ℕ
bpb = 8192

-- The search for a clear bit, `m` bits from `bi` on, in the block of the map for `b` and on.
unfoldable pub scan_bits : ℕ → ℕ → (ℕ → Bool) → ℕ → ℕ → Option ℕ
scan_bits zero size used b bi = none
scan_bits (suc m) size used b bi =
    let rest = scan_bits m size used b (bi + 1) in
    if ltb (b + bi) size then (if used (b + bi) then rest else some (b + bi)) else none

-- The loop over the blocks of the map, on fuel.
unfoldable pub scan_map : ℕ → ℕ → (ℕ → Bool) → ℕ → Option ℕ
scan_map zero size used b = none
scan_map (suc fuel) size used b =
    let rest = scan_map fuel size used (b + bpb) in
    let found : Option ℕ = elim (scan_bits bpb size used b 0) [ some a ↦ some a | none ↦ rest ] in
    if ltb b size then found else none

unfoldable pub bzero : ℕ → Blocks → Blocks
bzero b s = record s { contents = update s.contents b (λ i. 0) }

unfoldable pub take_block : Blocks → Option ℕ → Outcome (ℕ × Blocks)
take_block s none = panics
take_block s (some b) = returns (b, bzero b (record s { used = update s.used b true }))

unfoldable pub balloc : Blocks → Outcome (ℕ × Blocks)
balloc s = take_block s (scan_map (s.size + 1) s.size s.used 0)

unfoldable pub bfree : ℕ → Blocks → Outcome Blocks
bfree b s = if s.used b then returns (record s { used = update s.used b false }) else panics

-- The block in the slot `i` of `addrs`, allocated if there is none.
unfoldable pub slot_block : Inode → ℕ → Blocks → Outcome (ℕ × Inode × Blocks)
slot_block ip i s =
    let fresh : Outcome (ℕ × Inode × Blocks) = do
      (addr, s') ← balloc s
      check (not (addr == 0))
      returns (addr, record ip { addrs = update ip.addrs i addr }, s')
    in if ip.addrs i == 0 then fresh else returns (ip.addrs i, ip, s)

-- The block in the entry `i` of the indirect block `a`, allocated if there is none.
unfoldable pub entry_block : ℕ → ℕ → Blocks → Outcome (ℕ × Blocks)
entry_block a i s =
    let fresh : Outcome (ℕ × Blocks) = do
      (addr, s') ← balloc s
      check (not (addr == 0))
      returns (addr, record s' { contents = update s'.contents a (update (s'.contents a) i addr) })
    in if s.contents a i == 0 then fresh else returns (s.contents a i, s)

unfoldable pub bmap_indirect : Inode → ℕ → Blocks → Outcome (ℕ × Inode × Blocks)
bmap_indirect ip bn s = do
  (a, ip', s') ← slot_block ip ndirect s
  (addr, s'') ← entry_block a bn s'
  returns (addr, ip', s'')

unfoldable pub bmap : Inode → ℕ → Blocks → Outcome (ℕ × Inode × Blocks)
bmap ip bn s =
    if ltb bn ndirect
    then slot_block ip bn s
    else if ltb (bn - ndirect) nindirect
    then bmap_indirect ip (bn - ndirect) s
    else panics

-- `itrunc` up to its `iupdate`, which is with the inode cache. Its loops, `m` entries from `i` on.
unfoldable pub free_slots : ℕ → ℕ → Inode → Blocks → Outcome (Inode × Blocks)
free_slots zero i ip s = returns (ip, s)
free_slots (suc m) i ip s =
    let skip = free_slots m (i + 1) ip s in
    let free : Outcome (Inode × Blocks) = bfree (ip.addrs i) s >>= λ s'.
    free_slots m (i + 1) (record ip { addrs = update ip.addrs i 0 }) s' in
    if ip.addrs i == 0 then skip else free

unfoldable pub free_entries : ℕ → ℕ → Block → Blocks → Outcome Blocks
free_entries zero i a s = returns s
free_entries (suc m) i a s =
    let skip = free_entries m (i + 1) a s in
    let free : Outcome Blocks = bfree (a i) s >>= λ s'. free_entries m (i + 1) a s' in
    if a i == 0 then skip else free

unfoldable pub free_indirect : Inode → Blocks → Outcome (Inode × Blocks)
unfolding free_entries
free_indirect ip s =
    let free : Outcome (Inode × Blocks) = do
      s' ← free_entries nindirect 0 (s.contents (ip.addrs ndirect)) s
      s'' ← bfree (ip.addrs ndirect) s'
      returns (record ip { addrs = update ip.addrs ndirect 0 }, s'')
    in if ip.addrs ndirect == 0 then returns (ip, s) else free

unfoldable pub itrunc : Inode → Blocks → Outcome (Inode × Blocks)
itrunc ip s = do
  (ip', s') ← free_slots ndirect 0 ip s
  (ip'', s'') ← free_indirect ip' s'
  returns (record ip'' { size = 0 }, s'')
