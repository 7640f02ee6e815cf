-- ===== src/Open/Tests.antt =====
-- The theorems of `sys_open` and of paths of FileSystem-RAID/kernel/sysfile.c at concrete inputs.
use xv6_kernel_extensions.Prelude.{
  ℕ, ℤ, pos, true, false, not, none, some, ◌≡◌, ◌≢◌, refl, arith, ◌==◌, if◌then◌else◌, ◌+◌, ◌*◌,
}
use xv6_kernel_extensions.Bio.{Outcome, returns, panics, sleeps}
use xv6_kernel_extensions.Icache.{Icache, Dinode, idup, ilock, iunlock, load_inode, set_entry}
use xv6_kernel_extensions.Files.{
  fd_none, fd_inode, fd_device, Kernel, find_file, claim_file, filealloc, find_fd, install_fd,
  fdalloc,
}
use xv6_kernel_extensions.Paths.{may_read, skip_slashes, skipelem, start, namex_loop, namex, namei}
use xv6_kernel_extensions.Names.{Caller, copy_of}
use xv6_kernel_extensions.Names.Modes.{follow_links, locate}
use xv6_kernel_extensions.Open.{
  may_write, may_open, open_inode, install_file, open_fd, open_slot, open_found, sys_open,
}
use xv6_kernel_extensions.Open.Granted.{sys_open-Granted, may_open_unchecked}

-- A file with the mode `mode`.
abbrev file_inode : ℤ → Dinode
file_inode mode = record {
  kind = 2;
  major = pos 0;
  minor = mode;
  nlink = 1;
  node = record { size = 0; addrs = λ i. 0 };
}

-- A directory that may be read and written.
abbrev directory : Dinode
directory = record (file_inode (pos 3)) { kind = 1 }

abbrev ready : Kernel
ready = record {
  files = λ f. record {
    kind = fd_none;
    ref = 0;
    readable = false;
    writable = false;
    off = 0;
    major = pos 0;
  };
  ofile = λ s. none;
  pipes =
      λ p. record { contents = λ i. 0; nread = 0; nwrite = 0; readopen = false; writeopen = false };
  icache = record {
    entries =
        λ i. record { dev = 1; inum = 1; ref = 1; lock = none; valid = true; copy = directory };
    inodes = λ i. directory;
    blocks = record { size = 0; used = λ b. false; contents = λ b i. 0 };
  };
}

abbrev caller : Caller
caller = record { me = 1; cwd = 0; depth = 1; ninodes = 8 }

abbrev kernel_of : Outcome (ℤ × Kernel) → Kernel
kernel_of (returns r) = r.1
kernel_of panics = ready
kernel_of sleeps = ready

-- The current directory, by the empty path.
abbrev afterwards : Kernel
afterwards = kernel_of (sys_open caller (some (λ a. 0)) 0 ready)

opened_directory : sys_open caller (some (λ a. 0)) 0 ready ≡ returns (pos 0, afterwards)
unfolding sys_open open_inode open_found open_slot open_fd install_file locate follow_links namei
    namex namex_loop start skipelem skip_slashes may_open filealloc find_file claim_file fdalloc
    find_fd install_fd idup ilock iunlock load_inode set_entry
opened_directory = refl

sys_open_example :
    (ip f : ℕ) × (c : Icache) × (locate caller false (λ a. 0) ready.icache ≡ returns (some ip, c))
    × (afterwards.ofile (1 * 16 + 0) ≡ some f)
    × ((afterwards.files f).kind ≡ (if (copy_of ip c).kind == 3 then fd_device ip else fd_inode ip))
    × ((afterwards.files f).readable ≡ not (0 == 1))
    × ((afterwards.files f).writable ≡ not (0 == 0))
    × ((copy_of ip c).kind ≢ 3
        → ((afterwards.files f).readable ≡ true → may_read (copy_of ip c).minor ≡ true)
          × ((afterwards.files f).writable ≡ true → may_write (copy_of ip c).minor ≡ true))
    × ((copy_of ip c).kind ≡ 1 → (afterwards.files f).writable ≡ false)
sys_open_example =
    sys_open-Granted caller (λ a. 0) 0 0 ready afterwards (omega arith) opened_directory

-- O_WRONLY | O_TRUNC on a file without permissions.
may_open_example : may_open 1025 (file_inode (pos 0)) ≡ true
may_open_example = may_open_unchecked 1025 (file_inode (pos 0)) (omega arith) (omega arith)
