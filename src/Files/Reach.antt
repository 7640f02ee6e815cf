-- ===== src/Files/Reach.antt =====
-- The reference counts of FileSystem-RAID/kernel/file.c, when processes call its functions in any
-- order. Between two of them a process may hold references of its own: `held` has these.
use xv6_kernel_extensions.Prelude.{
  ℕ, ◌≤◌, ◌+◌, ◌<◌, ℤ, none, some, List, [], ◌∷◌, ◌++◌, ◌≡◌, ◌≢◌, ap, arith, subst,
}
use xv6_kernel_extensions.Bio.{returns}
use xv6_kernel_extensions.Pipe.{Pipe}
use xv6_kernel_extensions.Icache.{Icache}
use xv6_kernel_extensions.Files.{
  File, Kernel, set_file, filealloc, filedup, fileclose, fdalloc, argfd, sys_dup, sys_close,
  fork_files, drop_fd,
}
use xv6_kernel_extensions.Files.Returns.{filealloc-returns, filedup_open}
use xv6_kernel_extensions.Files.Count.{refs, occurs, refs-open, refs-none}
use xv6_kernel_extensions.Files.Steps.{
  Counted, NoneFrom, alloc-Counted, install-Counted, sys_dup-Counted, sys_close-Counted,
  drop-Counted, close-Counted, fork_files-Counted,
}

pub data Reach : Kernel → List ℕ → Type 0 where
  boots : (k : Kernel) → ((f : ℕ) → (k.files f).ref ≡ 0) → k.ofile ≡ (λ s. none) → Reach k []
  allocates :
      (k k' : Kernel) (held : List ℕ) (f : ℕ)
      → Reach k held
      → filealloc k ≡ some (f, k')
      → Reach k' (f ∷ held)
  -- `sys_open` and `sys_pipe` set the other fields of a file.
  fills :
      (k : Kernel) (held : List ℕ) (f : ℕ) (v : File)
      → Reach k held
      → v.ref ≡ (k.files f).ref
      → Reach (set_file f v k) held
  installs :
      (k k' : Kernel) (l r : List ℕ) (f pid fd : ℕ)
      → Reach k (l ++ f ∷ r)
      → pid < 64
      → fdalloc pid f k ≡ some (fd, k')
      → Reach k' (l ++ r)
  dups :
      (k k' : Kernel) (held : List ℕ) (pid : ℕ) (fd res : ℤ)
      → Reach k held
      → pid < 64
      → sys_dup pid fd k ≡ returns (res, k')
      → Reach k' held
  closes_fd :
      (k k' : Kernel) (held : List ℕ) (pid : ℕ) (fd res : ℤ)
      → Reach k held
      → pid < 64
      → sys_close pid fd k ≡ returns (res, k')
      → Reach k' held
  -- The first half of `sys_close` alone, after which other processes run before its `fileclose`.
  drops :
      (k : Kernel) (held : List ℕ) (pid n f : ℕ) (fd : ℤ)
      → Reach k held
      → pid < 64
      → argfd pid fd k ≡ some (n, f)
      → Reach (drop_fd pid n k) (f ∷ held)
  closes :
      (k k' : Kernel) (l r : List ℕ) (f : ℕ)
      → Reach k (l ++ f ∷ r)
      → fileclose f k ≡ returns k'
      → Reach k' (l ++ r)
  -- `m` turns of the loop of `fork`, from the descriptor `fd` on, for a child whose descriptors from
  -- `fd` on are closed; other processes may run between two turns.
  forks :
      (m : ℕ) (k k' : Kernel) (held : List ℕ) (parent child fd : ℕ)
      → Reach k held
      → child < 64
      → fd + m ≤ 16
      → NoneFrom child fd k
      → fork_files m parent child fd k ≡ returns k'
      → Reach k' held
  -- Changes of pipes and inodes.
  elsewhere :
      (k : Kernel) (held : List ℕ) (pipes : ℕ → Pipe) (icache : Icache)
      → Reach k held
      → Reach (record k { pipes = pipes; icache = icache }) held

pub Reach-Counted : (k : Kernel) (held : List ℕ) → Reach k held → Counted k held
unfolding set_file occurs
Reach-Counted k held (boots k' z o) =
    λ f. omega (arith, z f, ap (λ x. refs 1024 x f) o, refs-none 1024 f)
Reach-Counted k held (allocates k1 k' h f r e) = alloc-Counted k1 k' h f (Reach-Counted k1 h r) e
Reach-Counted k held (fills k1 h f v r e) = λ g. let i = Reach-Counted k1 h r g in ground arith
Reach-Counted k held (installs k1 k' l t f pid fd r p e) =
    install-Counted k1 k' l t f pid fd (Reach-Counted k1 (l ++ f ∷ t) r) p e
Reach-Counted k held (dups k1 k' h pid fd res r p e) =
    sys_dup-Counted k1 k' h pid fd res (Reach-Counted k1 h r) p e
Reach-Counted k held (closes_fd k1 k' h pid fd res r p e) =
    sys_close-Counted k1 k' h pid fd res (Reach-Counted k1 h r) p e
Reach-Counted k held (drops k1 h pid n f fd r p e) =
    drop-Counted k1 h pid n f fd (Reach-Counted k1 h r) p e
Reach-Counted k held (closes k1 k' l t f r e) =
    close-Counted k1 k' l t f (Reach-Counted k1 (l ++ f ∷ t) r) e
Reach-Counted k held (forks m k1 k' h parent child fd r p l n e) =
    fork_files-Counted m k1 k' h parent child fd (Reach-Counted k1 h r) p l n e
Reach-Counted k held (elsewhere k1 h pipes icache r) = Reach-Counted k1 h r

-- In every state that the processes reach by `filealloc`, `fdalloc`, `sys_dup`, `sys_close`,
-- `fileclose` and the loop of `fork` over the descriptors, interleaved in any order: the count of a file is the number of descriptors
-- that are open on it and of references held; `filedup` returns for the file of an open descriptor;
-- and `filealloc` never gives such a file out again.
pub files_safe :
    (k : Kernel) (held : List ℕ)
    → Reach k held
    → ((f : ℕ) → (k.files f).ref ≡ refs 1024 k.ofile f + occurs held f)
      × ((s f : ℕ)
          → s < 1024
          → k.ofile s ≡ some f
          → ((k' : Kernel) × (filedup f k ≡ returns k'))
            × ((g : ℕ) (k' : Kernel) → filealloc k ≡ some (g, k') → g ≢ f))
files_safe k held r =
    let c = Reach-Counted k held r in
    (
      c,
      λ s f l o.
          let used : 0 < (k.files f).ref = omega (arith, c f, refs-open 1024 s k.ofile f l o) in
          (
            filedup_open f k used,
            λ g k' e q.
                let z = (filealloc-returns g k k' e).0 in
                let z' : (k.files f).ref ≡ 0 = subst (λ x. (k.files x).ref ≡ 0) q z in omega arith,
          ),
    )
