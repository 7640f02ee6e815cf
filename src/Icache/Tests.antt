-- ===== src/Icache/Tests.antt =====
-- The theorems of `iget` of FileSystem-RAID/kernel/fs.c at concrete inputs.
use xv6_kernel_extensions.Prelude.{pos, false, none, ◌≡◌, refl, arith}
use xv6_kernel_extensions.Bio.{returns}
use xv6_kernel_extensions.Icache.{
  Dinode, Entry, Icache, set_entry, find_entry, recycle_entry, reuse_entry, iget,
}
use xv6_kernel_extensions.Icache.Get.{OneEntry, Got, iget-Got, iget-OneEntry}

abbrev no_file : Dinode
no_file = record {
  kind = 0;
  major = pos 0;
  minor = pos 0;
  nlink = 0;
  node = record { size = 0; addrs = λ i. 0 };
}

abbrev unused : Entry
unused = record { dev = 0; inum = 0; ref = 0; lock = none; valid = false; copy = no_file }

-- The cache after `iinit`, on an empty disk.
abbrev booted : Icache
booted = record {
  entries = λ i. unused;
  inodes = λ i. no_file;
  blocks = record { size = 0; used = λ b. false; contents = λ b i. 0 };
}

booted-OneEntry : OneEntry booted.entries
booted-OneEntry i j l m r q d n = absurd (omega arith)

iget_example : Got 1 7 booted (iget 1 7 booted)
iget_example = iget-Got 1 7 booted

abbrev first_got : Icache
first_got = set_entry 0 (record unused { dev = 1; inum = 7; ref = 1 }) booted

iget-booted : iget 1 7 booted ≡ returns (0, first_got)
unfolding iget reuse_entry recycle_entry find_entry set_entry
iget-booted = refl

iget_one_example : OneEntry first_got.entries
iget_one_example = iget-OneEntry 1 7 0 booted first_got booted-OneEntry iget-booted
