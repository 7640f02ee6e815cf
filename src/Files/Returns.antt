-- ===== src/Files/Returns.antt =====
-- What the functions of FileSystem-RAID/kernel/file.c have done where they return.
use xv6_kernel_extensions.Prelude.{
  ℕ, zero, suc, ◌+◌, ◌-◌, ◌*◌, ◌<◌, ℤ, pos, Bool, false, Option, none, some, ◌==◌, ltb, ltb_ℤ,
  leb_ℤ, pos_part, ◌||◌, if◌then◌else◌, update, ◌≡◌, refl, sym, ap, ◌∙◌, arith, inl, inr,
  Bool-cases, subst,
}
use xv6_kernel_extensions.Bio.{Outcome, returns, panics, sleeps, ◌>>=◌}
use xv6_kernel_extensions.Pipe.{pipeclose}
use xv6_kernel_extensions.Icache.{Icache, iput}
use xv6_kernel_extensions.Files.{
  File, FileKind, fd_none, fd_pipe, fd_inode, fd_device, Kernel, set_file, find_file, claim_file,
  filealloc, filedup, close_target, fileclose, find_fd, install_fd, fdalloc, argfd,
}

pub ref-set_file :
    (f g : ℕ) (v : File) (k : Kernel)
    → ((set_file f v k).files g).ref ≡ (if f == g then v.ref else (k.files g).ref)
unfolding set_file
ref-set_file f g v k = ground arith

find_file-free : (m f g : ℕ) (files : ℕ → File) → find_file m files f ≡ some g → (files g).ref ≡ 0
unfolding find_file
find_file-free zero f g files h = absurd (cc)
find_file-free (suc m) f g files h = elim (Bool-cases ((files f).ref == 0)) [
  | inl e ↦
      let q : find_file (suc m) files f ≡ some f = rw (e, find_file) refl in
      let s : f ≡ g = cc in subst (λ x. (files x).ref ≡ 0) s (ground arith)
  | inr e ↦
      let q : find_file (suc m) files f ≡ find_file m files (f + 1) = rw (e, find_file) refl in
      find_file-free m (f + 1) g files (sym q ∙ h)
]

find_fd-free :
    (m pid fd n : ℕ) (ofile : ℕ → Option ℕ)
    → find_fd m pid ofile fd ≡ some n
    → (n < fd + m) × (ofile (pid * 16 + n) ≡ none)
unfolding find_fd
find_fd-free zero pid fd n ofile h = absurd (cc)
find_fd-free (suc m) pid fd n ofile h =
    by_slot (ofile (pid * 16 + fd)) refl h (find_fd-free m pid (fd + 1) n ofile)
  where
    by_slot :
        (o : Option ℕ)
        → ofile (pid * 16 + fd) ≡ o
        → elim o as (λ _. Option ℕ) [ none ↦ some fd | some f ↦ find_fd m pid ofile (fd + 1) ]
          ≡ some n
        → (find_fd m pid ofile (fd + 1) ≡ some n → (n < fd + 1 + m) × (ofile (pid * 16 + n) ≡ none))
        → (n < fd + suc m) × (ofile (pid * 16 + n) ≡ none)
    by_slot none e q again =
        let s : fd ≡ n = cc in (omega arith, subst (λ x. ofile (pid * 16 + x) ≡ none) s e)
    by_slot (some f) e q again = let (l, z) = again q in (omega arith, z)

pub filealloc-returns :
    (f : ℕ) (k k' : Kernel)
    → filealloc k ≡ some (f, k')
    → ((k.files f).ref ≡ 0) × (k' ≡ set_file f (record (k.files f) { ref = 1 }) k)
unfolding filealloc claim_file
filealloc-returns f k k' h = by_found (find_file 100 k.files 0) refl h
  where
    by_found :
        (o : Option ℕ)
        → find_file 100 k.files 0 ≡ o
        → claim_file k o ≡ some (f, k')
        → ((k.files f).ref ≡ 0) × (k' ≡ set_file f (record (k.files f) { ref = 1 }) k)
    by_found none e q = absurd (cc)
    by_found (some g) e q =
        let t : ◌≡◌ {A = ℕ × Kernel} (g, set_file g (record (k.files g) { ref = 1 }) k) (f, k') =
          cc in
        let s : g ≡ f = ap (λ x. x.0) t in
        (
          subst (λ x. (k.files x).ref ≡ 0) s (find_file-free 100 0 g k.files e),
          sym (ap (λ x. x.1) t) ∙ ap (λ x. set_file x (record (k.files x) { ref = 1 }) k) s,
        )

pub filedup-returns :
    (f : ℕ) (k k' : Kernel)
    → filedup f k ≡ returns k'
    → (0 < (k.files f).ref) × (k' ≡ set_file f (record (k.files f) { ref = (k.files f).ref + 1 }) k)
unfolding filedup
filedup-returns f k k' h = elim (Bool-cases (ltb (k.files f).ref 1)) [
  | inl e ↦ let q : filedup f k ≡ panics = rw (e, filedup) refl in absurd (cc)
  | inr e ↦
      let q : filedup f k
          ≡ returns (set_file f (record (k.files f) { ref = (k.files f).ref + 1 }) k) =
        rw (e, filedup) refl in
      (ground arith, cc)
]

pub filedup_open :
    (f : ℕ) (k : Kernel) → 0 < (k.files f).ref → (k' : Kernel) × (filedup f k ≡ returns k')
unfolding filedup
filedup_open f k h =
    let e : ltb (k.files f).ref 1 ≡ false = ground arith in
    (set_file f (record (k.files f) { ref = (k.files f).ref + 1 }) k, rw (e, filedup) refl)

pub fdalloc-returns :
    (pid f fd : ℕ) (k k' : Kernel)
    → fdalloc pid f k ≡ some (fd, k')
    → (fd < 16)
      × (k.ofile (pid * 16 + fd) ≡ none)
      × (k' ≡ record k { ofile = update k.ofile (pid * 16 + fd) (some f) })
unfolding fdalloc install_fd
fdalloc-returns pid f fd k k' h = by_found (find_fd 16 pid k.ofile 0) refl h
  where
    by_found :
        (o : Option ℕ)
        → find_fd 16 pid k.ofile 0 ≡ o
        → install_fd pid f k o ≡ some (fd, k')
        → (fd < 16)
          × (k.ofile (pid * 16 + fd) ≡ none)
          × (k' ≡ record k { ofile = update k.ofile (pid * 16 + fd) (some f) })
    by_found none e q = absurd (cc)
    by_found (some g) e q =
        let t : ◌≡◌ {A = ℕ × Kernel}
            (g, record k { ofile = update k.ofile (pid * 16 + g) (some f) }) (fd, k') =
          cc in
        let s : g ≡ fd = ap (λ x. x.0) t in
        let (l, z) = find_fd-free 16 pid 0 g k.ofile e in
        (
          omega arith,
          subst (λ x. k.ofile (pid * 16 + x) ≡ none) s z,
          sym (ap (λ x. x.1) t)
              ∙ ap (λ x. record k { ofile = update k.ofile (pid * 16 + x) (some f) }) s,
        )

pub argfd-returns :
    (pid : ℕ) (fd : ℤ) (n f : ℕ) (k : Kernel)
    → argfd pid fd k ≡ some (n, f)
    → (n < 16) × (k.ofile (pid * 16 + n) ≡ some f)
unfolding argfd
argfd-returns pid fd n f k h = elim (Bool-cases (ltb_ℤ fd (pos 0) || leb_ℤ (pos 16) fd)) [
  | inl e ↦ let q : argfd pid fd k ≡ none = rw (e, argfd) refl in absurd (cc)
  | inr e ↦
      let q : argfd pid fd k ≡ found (k.ofile (pid * 16 + pos_part fd)) = rw (e, argfd) refl in
      by_slot (k.ofile (pid * 16 + pos_part fd)) refl (ground arith) (sym q ∙ h)
]
  where
    found : Option ℕ → Option (ℕ × ℕ)
    found o = elim o [ none ↦ none | some f ↦ some (pos_part fd, f) ]

    by_slot :
        (o : Option ℕ)
        → k.ofile (pid * 16 + pos_part fd) ≡ o
        → pos_part fd < 16
        → found o ≡ some (n, f)
        → (n < 16) × (k.ofile (pid * 16 + n) ≡ some f)
    by_slot none e l q = absurd (cc)
    by_slot (some g) e l q =
        let t : ◌≡◌ {A = ℕ × ℕ} (pos_part fd, g) (n, f) = cc in
        (
          subst (λ x. x < 16) (ap (λ x. x.0) t) l,
          subst (λ x. k.ofile (pid * 16 + x.0) ≡ some (x.1)) t e,
        )

iput-same :
    (k k' : Kernel) (o : Outcome Icache)
    → ◌>>=◌ {B = Kernel} o (λ c. returns (record k { icache = c })) ≡ returns k'
    → (k'.files ≡ k.files) × (k'.ofile ≡ k.ofile)
iput-same k k' panics h = absurd (cc)
iput-same k k' sleeps h = absurd (cc)
iput-same k k' (returns c) h =
    let e : record k { icache = c } ≡ k' = cc in
    (ap (λ x. x.files) (sym e), ap (λ x. x.ofile) (sym e))

-- What the last close does elsewhere leaves the table.
close_target-same :
    (t : FileKind) (w : Bool) (k k' : Kernel)
    → close_target t w k ≡ returns k'
    → (k'.files ≡ k.files) × (k'.ofile ≡ k.ofile)
unfolding close_target
close_target-same fd_none w k k' h =
    let e : k ≡ k' = cc in (ap (λ x. x.files) (sym e), ap (λ x. x.ofile) (sym e))
close_target-same (fd_pipe p) w k k' h =
    let e : record k { pipes = update k.pipes p (pipeclose w (k.pipes p)).0 } ≡ k' = cc in
    (ap (λ x. x.files) (sym e), ap (λ x. x.ofile) (sym e))
close_target-same (fd_inode i) w k k' h = iput-same k k' (iput i k.icache) h
close_target-same (fd_device i) w k k' h = iput-same k k' (iput i k.icache) h

pub fileclose-returns :
    (f : ℕ) (k k' : Kernel)
    → fileclose f k ≡ returns k'
    → (0 < (k.files f).ref)
      × ((v : File) × (v.ref ≡ (k.files f).ref - 1) × (k'.files ≡ update k.files f v))
      × (k'.ofile ≡ k.ofile)
unfolding fileclose set_file
fileclose-returns f k k' h = elim (Bool-cases (ltb (k.files f).ref 1)) [
  | inl e ↦ let q : fileclose f k ≡ panics = rw (e, fileclose) refl in absurd (cc)
  | inr e ↦ elim (Bool-cases (ltb 0 ((k.files f).ref - 1))) [
    | inl l ↦
        let v = record (k.files f) { ref = (k.files f).ref - 1 } in
        let q : fileclose f k ≡ returns (set_file f v k) = rw (e, l, fileclose) refl in
        let t : set_file f v k ≡ k' = cc in
        (ground arith, (v, refl, ap (λ x. x.files) (sym t)), ap (λ x. x.ofile) (sym t))
    | inr l ↦
        let v = record (k.files f) { ref = 0; kind = fd_none } in
        let q : fileclose f k
            ≡ close_target (k.files f).kind (k.files f).writable (set_file f v k) =
          rw (e, l, fileclose) refl in
        let (a, b) =
          close_target-same (k.files f).kind (k.files f).writable (set_file f v k) k' (sym q ∙ h) in
        (ground arith, (v, ground arith, a), b)
  ]
]
