-- ===== src/Contents/Tests.antt =====
-- The theorems of the contents of inodes of FileSystem-RAID/kernel/fs.c at concrete inputs.
use xv6_kernel_extensions.Prelude.{
  ℕ, pos, true, none, ◌≡◌, refl, arith, update, ◌+◌, ◌%◌, ◌<◌, ◌≤◌, ◌⊎◌,
}
use xv6_kernel_extensions.Bio.{returns}
use xv6_kernel_extensions.Blocks.{Blocks, Inode, bmap, slot_block}
use xv6_kernel_extensions.Icache.{Icache}
use xv6_kernel_extensions.Contents.{
  kernel_memory, readi, writei, extend, write_blocks, either_copyin, block_of, block_byte,
}
use xv6_kernel_extensions.Contents.Position.{addr_of, IsLaid}
use xv6_kernel_extensions.Contents.Bytes.{file_byte}
use xv6_kernel_extensions.Contents.Extended.{node_of}
use xv6_kernel_extensions.Contents.RoundTrip.{writei-readi}
use xv6_kernel_extensions.Vm.Copy.{move_bytes}

-- An inode of four bytes in the block 5.
abbrev node : Inode
node = record { size = 4; addrs = update (λ i. 0) 0 5 }

abbrev blocks : Blocks
blocks = record { size = 8; used = λ b. true; contents = λ b i. 0 }

abbrev before : Icache
before = record {
  entries = λ i. record {
    dev = 1;
    inum = 7;
    ref = 1;
    lock = none;
    valid = true;
    copy = record { kind = 2; major = pos 0; minor = pos 3; nlink = 1; node = node };
  };
  inodes = λ i. record { kind = 2; major = pos 0; minor = pos 3; nlink = 1; node = node };
  blocks = blocks;
}

node-IsLaid : IsLaid node blocks
unfolding addr_of
node-IsLaid = record {
  taken = λ n z. refl;
  once = λ n m z e. ground arith;
  table_taken = λ z. refl;
  table_once = λ n z e. z e;
}

-- Two bytes at the offset 3, past the end.
abbrev after : Icache
after =
    extend 0 2 5 node
      (record blocks {
        contents =
            update blocks.contents 5
              (block_of (move_bytes 2 3 100 (λ a. a) (block_byte (blocks.contents 5))));
      })
      before

before-writei : writei 0 100 3 2 before (kernel_memory (λ a. a)) ≡ returns (pos 2, after)
unfolding writei write_blocks bmap slot_block either_copyin
before-writei = refl

writei_example :
    (◌≡◌ {A = ℕ} 2 2)
    × IsLaid (node_of 0 after) after.blocks
    × ((p : ℕ)
        → (p < 3) ⊎ (3 + 2 ≤ p)
        → file_byte (node_of 0 after) after.blocks p ≡ file_byte (node_of 0 before) before.blocks p)
    × ((to' : ℕ → ℕ) × (readi 0 200 3 2 after (kernel_memory (λ a. 0))
          ≡ returns (2, after, kernel_memory to'))
        × ((j : ℕ) → j < 2 → to' (200 + j) ≡ (100 + j) % 256)
        × ((x : ℕ) → (x < 200) ⊎ (200 + 2 ≤ x) → to' x ≡ 0))
writei_example =
    writei-readi 0 100 200 3 2 2 before after (λ a. a) (λ a. 0) node-IsLaid (omega arith)
      (omega arith) before-writei
