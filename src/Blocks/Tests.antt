-- ===== src/Blocks/Tests.antt =====
-- The theorems of the free map and of `bmap` of FileSystem-RAID/kernel/fs.c at concrete inputs.
use xv6_kernel_extensions.Prelude.{ℕ, ◌+◌, true, ltb, ◌==◌, if◌then◌else◌, ◌≡◌, refl}
use xv6_kernel_extensions.Bio.{returns, panics}
use xv6_kernel_extensions.Blocks.{
  Blocks, Inode, scan_bits, scan_map, bzero, take_block, balloc, bfree, slot_block, entry_block,
  bmap_indirect, bmap,
}
use xv6_kernel_extensions.Blocks.Free.{Allocated, balloc-Allocated, bfree-balloc}
use xv6_kernel_extensions.Blocks.Map.{bmap_again}

-- A disk of four blocks, of which the first two are used.
abbrev small : Blocks
small = record { size = 4; used = λ b. ltb b 2; contents = λ b i. 40 + i }

balloc_example : Allocated small (balloc small)
balloc_example = balloc-Allocated small

abbrev small_taken : Blocks
small_taken = bzero 2 (record small { used = λ b. if 2 == b then true else ltb b 2 })

small-balloc : balloc small ≡ returns (2, small_taken)
unfolding balloc take_block scan_map scan_bits bzero
small-balloc = refl

bfree_example :
    (t : Blocks) × (bfree 2 small_taken ≡ returns t)
    × ((y : ℕ) → t.used y ≡ small.used y)
    × (bfree 2 t ≡ panics)
bfree_example = bfree-balloc small small_taken 2 small-balloc

-- The indirect block is 40; its entry 5 holds 45.
abbrev file : Inode
file = record { size = 20000; addrs = λ i. 28 + i }

file-bmap : bmap file 17 small ≡ returns (45, file, small)
unfolding bmap bmap_indirect slot_block entry_block
file-bmap = refl

bmap_example : bmap file 17 small ≡ returns (45, file, small)
bmap_example = bmap_again file file 17 45 small small file-bmap
