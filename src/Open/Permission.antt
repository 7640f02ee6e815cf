-- ===== src/Open/Permission.antt =====
-- What `sys_open` of FileSystem-RAID/kernel/sysfile.c grants.
use xv6_kernel_extensions.Prelude.{
  ℕ, ◌+◌, ◌*◌, ℤ, pos, negsuc, pos_part, ltb_ℤ, leb_ℤ, true, false, Option, none, some, ◌==◌, ◌&&◌,
  ◌||◌, if◌then◌else◌, update_self, ◌≡◌, ◌≢◌, refl, sym, ap, ◌∙◌, subst, inl, inr, Bool-cases,
}
use xv6_kernel_extensions.Bio.{Outcome, returns, ◌>>=◌}
use xv6_kernel_extensions.Strings.{Memory}
use xv6_kernel_extensions.Icache.{Icache, iunlock, iunlockput}
use xv6_kernel_extensions.Contents.Loops.{bind_returns}
use xv6_kernel_extensions.Names.{Caller, copy_of}
use xv6_kernel_extensions.Names.Modes.{locate}
use xv6_kernel_extensions.Files.{File, Kernel, set_file, filealloc, fdalloc, fileclose}
use xv6_kernel_extensions.Files.Returns.{filealloc-returns, fdalloc-returns}
use xv6_kernel_extensions.Open.{
  has_noaccess, has_create, has_trunc, may_open, open_inode, opened_file, truncate, with_icache,
  put_away, install_file, open_fd, open_slot, open_found,
}

put_away_fails : (p : Caller) (ip fd : ℕ) (k k' : Kernel) → put_away p ip k ≢ returns (pos fd, k')
put_away_fails p ip fd k k' e =
    let body : Icache → Outcome (ℤ × Kernel) = λ c. returns (negsuc 0, with_icache k c) in
    let (c, a, g) = bind_returns (iunlockput p.me ip k.icache) body (pos fd, k') e in absurd (cc)

-- The descriptor `fd` is the file `f`, which has the fields of `opened_file`.
abbrev pub Opened : Caller → ℕ → ℕ → ℕ → Kernel → Kernel → Type 0
Opened p omode ip fd k k' =
    (f : ℕ) × (k'.ofile (p.me * 16 + fd) ≡ some f)
    × ((v : File) × (k'.files f ≡ opened_file omode ip (copy_of ip k.icache) v))

install_file-Opened :
    (p : Caller) (omode ip f fd fd' : ℕ) (k k' : Kernel)
    → k.ofile (p.me * 16 + fd) ≡ some f
    → install_file p omode ip f fd k ≡ returns (pos fd', k')
    → Opened p omode ip fd' k k'
unfolding install_file set_file
install_file-Opened p omode ip f fd fd' k k' o e =
    let d = copy_of ip k.icache in
    let k1 = set_file f (opened_file omode ip d (k.files f)) k in
    let first : Outcome Icache =
      if has_trunc omode && d.kind == 2 then truncate ip k.icache else returns k.icache in
    let last : Icache → Outcome (ℤ × Kernel) = λ c. returns (pos fd, with_icache k1 c) in
    let (c1, a, g) =
      bind_returns first (λ c. ◌>>=◌ {B = ℤ × Kernel} (iunlock p.me ip c) last) (pos fd', k') e in
    let (c2, b, h) = bind_returns (iunlock p.me ip c1) last (pos fd', k') g in
    let t : ◌≡◌ {A = ℤ × Kernel} (pos fd, with_icache k1 c2) (pos fd', k') = cc in
    let q : fd ≡ fd' = ap (λ x. pos_part x.0) t in
    (
      f,
      subst (λ x. k'.ofile (p.me * 16 + x) ≡ some f) q
          (ap (λ x. x.1.ofile (p.me * 16 + fd)) (sym t) ∙ o),
      (
        k.files f,
        ap (λ x. x.1.files f) (sym t) ∙ update_self k.files f (opened_file omode ip d (k.files f)),
      ),
    )

open_fd-Opened :
    (p : Caller) (omode ip f fd : ℕ) (k k' : Kernel) (o : Option (ℕ × Kernel))
    → fdalloc p.me f k ≡ o
    → open_fd p omode ip f k o ≡ returns (pos fd, k')
    → Opened p omode ip fd k k'
unfolding open_fd
open_fd-Opened p omode ip f fd k k' none q e =
    let body : Kernel → Outcome (ℤ × Kernel) = λ k1. put_away p ip k1 in
    let (k1, a, g) = bind_returns (fileclose f k) body (pos fd, k') e in
    absurd (put_away_fails p ip fd k1 k' g)
open_fd-Opened p omode ip f fd k k' (some (fd', k1)) q e =
    let (l, z, s) = fdalloc-returns p.me f fd' k k1 q in
    let at : k1.ofile (p.me * 16 + fd') ≡ some f =
      ap (λ x. x.ofile (p.me * 16 + fd')) s ∙ update_self k.ofile (p.me * 16 + fd') (some f) in
    subst
      (λ c.
        (g : ℕ) × (k'.ofile (p.me * 16 + fd) ≡ some g)
        × ((v : File) × (k'.files g ≡ opened_file omode ip (copy_of ip c) v)))
      (ap (λ x. x.icache) s) (install_file-Opened p omode ip f fd' fd k1 k' at e)

open_slot-Opened :
    (p : Caller) (omode ip fd : ℕ) (k k' : Kernel) (o : Option (ℕ × Kernel))
    → filealloc k ≡ o
    → open_slot p omode ip k o ≡ returns (pos fd, k')
    → Opened p omode ip fd k k'
unfolding open_slot set_file
open_slot-Opened p omode ip fd k k' none q e = absurd (put_away_fails p ip fd k k' e)
open_slot-Opened p omode ip fd k k' (some (f, k1)) q e =
    let (z, s) = filealloc-returns f k k1 q in
    subst
      (λ c.
        (g : ℕ) × (k'.ofile (p.me * 16 + fd) ≡ some g)
        × ((v : File) × (k'.files g ≡ opened_file omode ip (copy_of ip c) v)))
      (ap (λ x. x.icache) s) (open_fd-Opened p omode ip f fd k1 k' (fdalloc p.me f k1) refl e)

pub open_found-Opened :
    (p : Caller) (omode fd : ℕ) (k k' : Kernel) (o : Option ℕ)
    → open_found p omode k o ≡ returns (pos fd, k')
    → (ip : ℕ) × (o ≡ some ip) × Opened p omode ip fd k k'
unfolding open_found
open_found-Opened p omode fd k k' none e = absurd (cc)
open_found-Opened p omode fd k k' (some ip) e =
    let d = copy_of ip k.icache in
    elim (Bool-cases (d.kind == 3 && (ltb_ℤ d.major (pos 0) || leb_ℤ (pos 10) d.major))) [
      | inl t ↦
          let q : put_away p ip k ≡ returns (pos fd, k') = sym (rw t refl) ∙ e in
          absurd (put_away_fails p ip fd k k' q)
      | inr t ↦
          let q : open_slot p omode ip k (filealloc k) ≡ returns (pos fd, k') =
            sym (rw t refl) ∙ e in
          (ip, refl, open_slot-Opened p omode ip fd k k' (filealloc k) refl q)
    ]

-- What `open_inode` gives without O_CREATE has passed the checks.
pub open_inode-checked :
    (p : Caller) (path : Memory) (omode ip : ℕ) (c c1 : Icache)
    → has_create omode ≡ false
    → open_inode p path omode c ≡ returns (some ip, c1)
    → (locate p (has_noaccess omode) path c ≡ returns (some ip, c1))
      × (may_open omode (copy_of ip c1) ≡ true)
unfolding open_inode
open_inode-checked p path omode ip c c1 z e =
    let body : Option ℕ × Icache → Outcome (Option ℕ × Icache) = λ r. checked r.0 r.1 in
    let q : ◌>>=◌ {B = Option ℕ × Icache} (locate p (has_noaccess omode) path c) body
        ≡ returns (some ip, c1) =
      sym (rw z refl) ∙ e in
    let ((found, c2), a, g) =
      bind_returns (locate p (has_noaccess omode) path c) body (some ip, c1) q in
    by_found found c2 a g
  where
    checked : Option ℕ → Icache → Outcome (Option ℕ × Icache)
    checked found c2 = elim found [
      | none ↦ returns (none, c2)
      | some ip ↦
          if may_open omode (copy_of ip c2)
          then returns (some ip, c2)
          else (iunlockput p.me ip c2 >>= λ c3. returns (none, c3))
    ]

    by_found :
        (found : Option ℕ) (c2 : Icache)
        → locate p (has_noaccess omode) path c ≡ returns (found, c2)
        → checked found c2 ≡ returns (some ip, c1)
        → (locate p (has_noaccess omode) path c ≡ returns (some ip, c1))
          × (may_open omode (copy_of ip c1) ≡ true)
    by_found none c2 a g = absurd (cc)
    by_found (some ip') c2 a g = elim (Bool-cases (may_open omode (copy_of ip' c2))) [
      | inl t ↦
          let r : ◌≡◌ {A = Outcome (Option ℕ × Icache)} (returns (some ip', c2))
              (returns (some ip, c1)) =
            sym (rw t refl) ∙ g in
          let s : ip' ≡ ip = cc in
          let u : c2 ≡ c1 = cc in
          (
            a ∙ r,
            subst (λ x. may_open omode (copy_of x c1) ≡ true) s
                (subst (λ x. may_open omode (copy_of ip' x) ≡ true) u t),
          )
      | inr t ↦
          let no_one : Icache → Outcome (Option ℕ × Icache) = λ c3. returns (none, c3) in
          let r : ◌>>=◌ {B = Option ℕ × Icache} (iunlockput p.me ip' c2) no_one
              ≡ returns (some ip, c1) =
            sym (rw t refl) ∙ g in
          let (c3, b, h) = bind_returns (iunlockput p.me ip' c2) no_one (some ip, c1) r in
          absurd (cc)
    ]
