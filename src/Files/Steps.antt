-- ===== src/Files/Steps.antt =====
-- Each function of FileSystem-RAID/kernel/file.c and sysfile.c that takes or drops a reference, and
-- the loop of `fork` in proc.c, keep the counts right. Between two of them a process may hold
-- references of its own: `held` has these.
use xv6_kernel_extensions.Prelude.{
  ℕ, zero, suc, ◌≤◌, ◌∙◌, update_ne, ◌+◌, ◌*◌, ◌<◌, ℤ, pos, negsuc, Option, none, some, update,
  List, [], ◌∷◌, ◌++◌, ◌≡◌, refl, ap, arith, subst,
}
use xv6_kernel_extensions.Bio.{Outcome, returns, panics, sleeps, ◌>>=◌}
use xv6_kernel_extensions.Files.{
  Kernel, set_file, filealloc, filedup, fileclose, fdalloc, argfd, dup_fd, sys_dup, sys_close,
  give_fd, fork_files, drop_fd,
}
use xv6_kernel_extensions.Files.Returns.{
  filealloc-returns, filedup-returns, fdalloc-returns, argfd-returns, fileclose-returns,
}
use xv6_kernel_extensions.Files.Count.{names, refs, occurs, occurs-append, refs-update}

-- Each file's count is that of its open descriptors and of the references held.
abbrev pub Counted : Kernel → List ℕ → Type 0
Counted k held = (f : ℕ) → (k.files f).ref ≡ refs 1024 k.ofile f + occurs held f

pub alloc-Counted :
    (k k' : Kernel) (held : List ℕ) (f : ℕ)
    → Counted k held
    → filealloc k ≡ some (f, k')
    → Counted k' (f ∷ held)
unfolding set_file occurs
alloc-Counted k k' held f c h g =
    let (z, e) = filealloc-returns f k k' h in rw e (let i = c g in ground arith)

pub dup-Counted :
    (k k' : Kernel) (held : List ℕ) (f : ℕ)
    → Counted k held
    → filedup f k ≡ returns k'
    → Counted k' (f ∷ held)
unfolding set_file occurs
dup-Counted k k' held f c h g =
    let (z, e) = filedup-returns f k k' h in rw e (let i = c g in ground arith)

pub install-Counted :
    (k k' : Kernel) (l r : List ℕ) (f pid fd : ℕ)
    → Counted k (l ++ f ∷ r)
    → pid < 64
    → fdalloc pid f k ≡ some (fd, k')
    → Counted k' (l ++ r)
unfolding occurs
install-Counted k k' l r f pid fd c p h g =
    let (n, z, e) = fdalloc-returns pid f fd k k' h in
    let o : names (k.ofile (pid * 16 + fd)) g ≡ 0 = ap (λ x. names x g) z in
    rw e (
      omega (
        arith,
        c g,
        o,
        refs-update 1024 (pid * 16 + fd) (some f) k.ofile g (omega arith),
        occurs-append l (f ∷ r) g,
        occurs-append l r g,
      ))

pub drop-Counted :
    (k : Kernel) (held : List ℕ) (pid n f : ℕ) (fd : ℤ)
    → Counted k held
    → pid < 64
    → argfd pid fd k ≡ some (n, f)
    → Counted (drop_fd pid n k) (f ∷ held)
unfolding drop_fd occurs
drop-Counted k held pid n f fd c p h g =
    let (l, z) = argfd-returns pid fd n f k h in
    let o = ap (λ x. names x g) z in
    omega (arith, c g, o, refs-update 1024 (pid * 16 + n) none k.ofile g (omega arith))

pub close-Counted :
    (k k' : Kernel) (l r : List ℕ) (f : ℕ)
    → Counted k (l ++ f ∷ r)
    → fileclose f k ≡ returns k'
    → Counted k' (l ++ r)
unfolding occurs
close-Counted k k' l r f c h g =
    let (z, (v, w, e), o) = fileclose-returns f k k' h in
    rw (e, o)
      (let i = c g in
        let a = occurs-append l (f ∷ r) g in let b = occurs-append l r g in ground arith)

-- `sys_dup` gives the descriptor before it counts it.
dup_fd-Counted :
    (k k1 k' : Kernel) (held : List ℕ) (pid n f fd : ℕ) (arg res : ℤ)
    → Counted k held
    → pid < 64
    → fdalloc pid f k ≡ some (fd, k1)
    → filedup f k1 ≡ returns k'
    → Counted k' held
unfolding set_file
dup_fd-Counted k k1 k' held pid n f fd arg res c p h d g =
    let (m, z, e) = fdalloc-returns pid f fd k k1 h in
    let (w, q) = filedup-returns f k1 k' d in
    let o : names (k.ofile (pid * 16 + fd)) g ≡ 0 = ap (λ x. names x g) z in
    let same : k1.files ≡ k.files = ap (λ x. x.files) e in
    rw (q, same, ap (λ x. x.ofile) e)
      (let i = c g in
        let u = refs-update 1024 (pid * 16 + fd) (some f) k.ofile g (omega arith) in ground arith)

pub sys_dup-Counted :
    (k k' : Kernel) (held : List ℕ) (pid : ℕ) (fd res : ℤ)
    → Counted k held
    → pid < 64
    → sys_dup pid fd k ≡ returns (res, k')
    → Counted k' held
unfolding sys_dup dup_fd
sys_dup-Counted k k' held pid fd res c p h = by_arg (argfd pid fd k) refl h
  where
    unchanged :
        ◌≡◌ {A = Outcome (ℤ × Kernel)} (returns (negsuc 0, k)) (returns (res, k')) → Counted k' held
    unchanged e =
        let t : ◌≡◌ {A = ℤ × Kernel} (negsuc 0, k) (res, k') = cc in
        subst (λ x. Counted x held) (ap (λ x. x.1) t) c

    by_dup :
        (n f g : ℕ) (k1 : Kernel) (o : Outcome Kernel)
        → fdalloc pid f k ≡ some (g, k1)
        → filedup f k1 ≡ o
        → ◌>>=◌ {B = ℤ × Kernel} o (λ x. returns (pos g, x)) ≡ returns (res, k')
        → Counted k' held
    by_dup n f g k1 panics a d e = absurd (cc)
    by_dup n f g k1 sleeps a d e = absurd (cc)
    by_dup n f g k1 (returns k2) a d e =
        let t : ◌≡◌ {A = ℤ × Kernel} (pos g, k2) (res, k') = cc in
        subst (λ x. Counted x held) (ap (λ x. x.1) t)
          (dup_fd-Counted k k1 k2 held pid n f g fd res c p a d)

    by_slot :
        (n f : ℕ) (o : Option (ℕ × Kernel))
        → fdalloc pid f k ≡ o
        → dup_fd f o k ≡ returns (res, k')
        → Counted k' held
    by_slot n f none a e = unchanged e
    by_slot n f (some (g, k1)) a e = by_dup n f g k1 (filedup f k1) a refl e

    by_arg :
        (o : Option (ℕ × ℕ))
        → argfd pid fd k ≡ o
        → elim o as (λ _. Outcome (ℤ × Kernel)) [
          | none ↦ returns (negsuc 0, k)
          | some (n, f) ↦ dup_fd f (fdalloc pid f k) k
        ]
          ≡ returns (res, k')
        → Counted k' held
    by_arg none a e = unchanged e
    by_arg (some (n, f)) a e = by_slot n f (fdalloc pid f k) refl e

pub sys_close-Counted :
    (k k' : Kernel) (held : List ℕ) (pid : ℕ) (fd res : ℤ)
    → Counted k held
    → pid < 64
    → sys_close pid fd k ≡ returns (res, k')
    → Counted k' held
unfolding sys_close
sys_close-Counted k k' held pid fd res c p h = by_arg (argfd pid fd k) refl h
  where
    by_close :
        (n f : ℕ) (o : Outcome Kernel)
        → argfd pid fd k ≡ some (n, f)
        → fileclose f (drop_fd pid n k) ≡ o
        → ◌>>=◌ {B = ℤ × Kernel} o (λ x. returns (pos 0, x)) ≡ returns (res, k')
        → Counted k' held
    by_close n f panics a d e = absurd (cc)
    by_close n f sleeps a d e = absurd (cc)
    by_close n f (returns k2) a d e =
        let t : ◌≡◌ {A = ℤ × Kernel} (pos 0, k2) (res, k') = cc in
        subst (λ x. Counted x held) (ap (λ x. x.1) t)
          (close-Counted (drop_fd pid n k) k2 [] held f (drop-Counted k held pid n f fd c p a) d)

    by_arg :
        (o : Option (ℕ × ℕ))
        → argfd pid fd k ≡ o
        → elim o as (λ _. Outcome (ℤ × Kernel)) [
          | none ↦ returns (negsuc 0, k)
          | some (n, f) ↦ fileclose f (drop_fd pid n k) >>= λ k'. returns (pos 0, k')
        ]
          ≡ returns (res, k')
        → Counted k' held
    by_arg none a e =
        let t : ◌≡◌ {A = ℤ × Kernel} (negsuc 0, k) (res, k') = cc in
        subst (λ x. Counted x held) (ap (λ x. x.1) t) c
    by_arg (some (n, f)) a e = by_close n f (fileclose f (drop_fd pid n k)) a refl e

-- The descriptors of a process from `fd` on are closed.
abbrev pub NoneFrom : ℕ → ℕ → Kernel → Type 0
NoneFrom pid fd k = (x : ℕ) → fd ≤ x → x < 16 → k.ofile (pid * 16 + x) ≡ none

give_fd-Counted :
    (k k' : Kernel) (held : List ℕ) (t f : ℕ)
    → Counted k held
    → t < 1024
    → k.ofile t ≡ none
    → filedup f k ≡ returns k'
    → Counted (record k' { ofile = update k'.ofile t (some f) }) held
unfolding set_file
give_fd-Counted k k' held t f c l z d g =
    let (w, q) = filedup-returns f k k' d in
    let o : names (k.ofile t) g ≡ 0 = ap (λ x. names x g) z in
    rw (ap (λ x. x.files) q, ap (λ x. x.ofile) q)
      (let i = c g in let u = refs-update 1024 t (some f) k.ofile g l in ground arith)

NoneFrom-give_fd :
    (k k' : Kernel) (child fd f : ℕ)
    → NoneFrom child fd k
    → filedup f k ≡ returns k'
    → NoneFrom child (fd + 1) (give_fd child fd f k')
unfolding give_fd set_file
NoneFrom-give_fd k k' child fd f n d x l h =
    let (w, q) = filedup-returns f k k' d in
    update_ne k'.ofile (child * 16 + fd) (child * 16 + x) (some f) (omega arith)
    ∙ (ap (λ y. y.ofile (child * 16 + x)) q ∙ n x (omega arith) h)

pub fork_files-Counted :
    (m : ℕ) (k k' : Kernel) (held : List ℕ) (parent child fd : ℕ)
    → Counted k held
    → child < 64
    → fd + m ≤ 16
    → NoneFrom child fd k
    → fork_files m parent child fd k ≡ returns k'
    → Counted k' held
unfolding fork_files give_fd
fork_files-Counted zero k k' held parent child fd c p l n h =
    let t : k ≡ k' = cc in subst (λ x. Counted x held) t c
fork_files-Counted (suc m) k k' held parent child fd c p l n h =
    by_slot (k.ofile (parent * 16 + fd)) refl
      (λ k1 c' n' e. fork_files-Counted m k1 k' held parent child (fd + 1) c' p (omega arith) n' e)
      h
  where
    next : Kernel → Outcome Kernel
    next k1 = fork_files m parent child (fd + 1) k1

    Later : Type 0
    Later =
        (k1 : Kernel)
        → Counted k1 held
        → NoneFrom child (fd + 1) k1
        → next k1 ≡ returns k'
        → Counted k' held

    by_dup :
        (f : ℕ) (o : Outcome Kernel)
        → k.ofile (child * 16 + fd) ≡ none
        → Later
        → filedup f k ≡ o
        → o >>= (λ x. next (give_fd child fd f x)) ≡ returns k'
        → Counted k' held
    by_dup f panics z again d e = absurd (cc)
    by_dup f sleeps z again d e = absurd (cc)
    by_dup f (returns k1) z again d e =
        again (give_fd child fd f k1)
          (give_fd-Counted k k1 held (child * 16 + fd) f c (omega arith) z d)
          (NoneFrom-give_fd k k1 child fd f n d) e

    by_slot :
        (o : Option ℕ)
        → k.ofile (parent * 16 + fd) ≡ o
        → Later
        → elim o as (λ _. Outcome Kernel) [
          | none ↦ next k
          | some f ↦ filedup f k >>= λ x. next (give_fd child fd f x)
        ]
          ≡ returns k'
        → Counted k' held
    by_slot none q again e = again k c (λ x g i. n x (omega arith) i) e
    by_slot (some f) q again e =
        by_dup f (filedup f k) (n fd (omega arith) (omega arith)) again refl e
