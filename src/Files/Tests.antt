-- ===== src/Files/Tests.antt =====
-- The theorem of the file table of FileSystem-RAID/kernel/file.c at a concrete input.
use xv6_kernel_extensions.Prelude.{
  ℕ, pos, false, none, some, [], ◌≡◌, ◌≢◌, refl, arith, ◌<◌, ◌+◌, update,
}
use xv6_kernel_extensions.Bio.{returns}
use xv6_kernel_extensions.Pipe.{Pipe}
use xv6_kernel_extensions.Icache.{Icache}
use xv6_kernel_extensions.Files.{
  File, fd_none, Kernel, set_file, find_file, claim_file, filealloc, filedup, find_fd, install_fd,
  fdalloc, argfd, sys_dup, dup_fd,
}
use xv6_kernel_extensions.Files.Count.{refs, occurs}
use xv6_kernel_extensions.Files.Reach.{Reach, boots, allocates, installs, files_safe}

abbrev closed : File
closed = record {
  kind = fd_none;
  ref = 0;
  readable = false;
  writable = false;
  off = 0;
  major = pos 0;
}

abbrev pipe : Pipe
pipe = record { contents = λ i. 0; nread = 0; nwrite = 0; readopen = false; writeopen = false }

abbrev icache : Icache
icache = record {
  entries = λ i. record {
    dev = 0;
    inum = 0;
    ref = 0;
    lock = none;
    valid = false;
    copy = record {
      kind = 0;
      major = pos 0;
      minor = pos 0;
      nlink = 0;
      node = record { size = 0; addrs = λ i. 0 };
    };
  };
  inodes = λ i. record {
    kind = 0;
    major = pos 0;
    minor = pos 0;
    nlink = 0;
    node = record { size = 0; addrs = λ i. 0 };
  };
  blocks = record { size = 0; used = λ b. false; contents = λ b i. 0 };
}

abbrev booted : Kernel
booted = record { files = λ f. closed; ofile = λ s. none; pipes = λ p. pipe; icache = icache }

abbrev allocated : Kernel
allocated = record booted { files = update booted.files 0 (record closed { ref = 1 }) }

-- The process 1 has the file 0 as its descriptor 0.
abbrev opened : Kernel
opened = record allocated { ofile = update booted.ofile 16 (some 0) }

booted-filealloc : filealloc booted ≡ some (0, allocated)
unfolding filealloc claim_file find_file set_file
booted-filealloc = refl

allocated-fdalloc : fdalloc 1 0 allocated ≡ some (0, opened)
unfolding fdalloc install_fd find_fd
allocated-fdalloc = refl

opened-Reach : Reach opened []
opened-Reach =
    installs allocated opened [] [] 0 1 0
      (allocates booted allocated [] 0 (boots booted (λ f. refl) refl) booted-filealloc)
      (omega arith) allocated-fdalloc

files_safe_example :
    ((f : ℕ) → (opened.files f).ref ≡ refs 1024 opened.ofile f + occurs [] f)
    × ((s f : ℕ)
        → s < 1024
        → opened.ofile s ≡ some f
        → ((k' : Kernel) × (filedup f opened ≡ returns k'))
          × ((g : ℕ) (k' : Kernel) → filealloc opened ≡ some (g, k') → g ≢ f))
files_safe_example = files_safe opened [] opened-Reach

-- The descriptor 0 is duplicated as 1.
second_descriptor :
    sys_dup 1 (pos 0) opened
    ≡ returns (
      pos 1,
      record {
        files = update allocated.files 0 (record closed { ref = 2 });
        ofile = update opened.ofile 17 (some 0);
        pipes = λ p. pipe;
        icache = icache;
      },
    )
unfolding sys_dup dup_fd argfd fdalloc install_fd find_fd filedup set_file
second_descriptor = refl
