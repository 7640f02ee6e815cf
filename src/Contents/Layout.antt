-- ===== src/Contents/Layout.antt =====
-- The blocks of an inode of FileSystem-RAID/kernel/fs.c, and what `bmap` does to them.
use xv6_kernel_extensions.Prelude.{ℕ, Bool, true, false, ◌≡◌, ◌≢◌, sym, ap, ◌∙◌, arith}
use native.Mathlib.Decide.{ℕ_discrete}

-- The blocks of the positions, 0 where there is none, and the block of the table, hold together:
-- they are different blocks, all of them in use.
pub record Layout (addr : ℕ → ℕ) (table : ℕ) (used : ℕ → Bool) : Type 0 where
  pub taken : (n : ℕ) → addr n ≢ 0 → used (addr n) ≡ true
  pub once : (n m : ℕ) → addr n ≢ 0 → addr n ≡ addr m → n ≡ m
  pub table_taken : table ≢ 0 → used table ≡ true
  pub table_once : (n : ℕ) → addr n ≢ 0 → addr n ≢ table

-- `used'` has one block more than `used`, `a`.
abbrev pub Adds : ℕ → (ℕ → Bool) → (ℕ → Bool) → Type 0
Adds a used used' = (used a ≡ false) × (used' a ≡ true) × ((y : ℕ) → a ≢ y → used' y ≡ used y)

pub still_used :
    (a y : ℕ) (used used' : ℕ → Bool)
    → Adds a used used'
    → used y ≡ true
    → (used' y ≡ true) × (a ≢ y)
still_used a y used used' (f, t, k) u =
    let ne : a ≢ y = λ e. (let v : used a ≡ true = ap used e ∙ u in absurd (cc)) in (k y ne ∙ u, ne)

pub Layout-add :
    (addr addr' : ℕ → ℕ) (table n a : ℕ) (used used' : ℕ → Bool)
    → Layout addr table used
    → Adds a used used'
    → addr n ≡ 0
    → addr' n ≡ a
    → ((m : ℕ) → n ≢ m → addr' m ≡ addr m)
    → Layout addr' table used'
Layout-add addr addr' table n a used used' l (f, t, u) z e k = record {
  taken = λ m p. elim (ℕ_discrete n m) [
    | yes q ↦ ap used' (sym (ap addr' q) ∙ e) ∙ t
    | no q ↦
        ap used' (k m q)
        ∙ (still_used a (addr m) used used' (f, t, u) (l.taken m (λ r. p (k m q ∙ r)))).0
  ];
  once = λ m m' p q. elim (ℕ_discrete n m) [
    | yes r ↦ elim (ℕ_discrete n m') [
      | yes r' ↦ omega arith
      | no r' ↦
          let v : a ≡ addr m' = sym e ∙ (ap addr' r ∙ (q ∙ k m' r')) in
          let nz : addr m' ≢ 0 = λ w. p (q ∙ (k m' r' ∙ w)) in
          absurd ((still_used a (addr m') used used' (f, t, u) (l.taken m' nz)).1 v)
    ]
    | no r ↦
        let nz : addr m ≢ 0 = λ w. p (k m r ∙ w) in
        elim (ℕ_discrete n m') [
          | yes r' ↦
              let v : a ≡ addr m = sym e ∙ (ap addr' r' ∙ (sym q ∙ k m r)) in
              absurd ((still_used a (addr m) used used' (f, t, u) (l.taken m nz)).1 v)
          | no r' ↦ l.once m m' nz (sym (k m r) ∙ (q ∙ k m' r'))
        ]
  ];
  table_taken = λ p. (still_used a table used used' (f, t, u) (l.table_taken p)).0;
  table_once = λ m p q. elim (ℕ_discrete n m) [
    | yes r ↦
        let v : a ≡ table = sym e ∙ (ap addr' r ∙ q) in
        elim (ℕ_discrete table 0) [
          | yes w ↦ p (q ∙ w)
          | no w ↦ (still_used a table used used' (f, t, u) (l.table_taken w)).1 v
        ]
    | no r ↦ l.table_once m (λ w. p (k m r ∙ w)) (sym (k m r) ∙ q)
  ];
}

pub Layout-table :
    (addr addr' : ℕ → ℕ) (t : ℕ) (used used' : ℕ → Bool)
    → Layout addr 0 used
    → Adds t used used'
    → ((m : ℕ) → addr' m ≡ addr m)
    → Layout addr' t used'
Layout-table addr addr' t used used' l f k =
    let nz : (m : ℕ) → addr' m ≢ 0 → addr m ≢ 0 = λ m p w. p (k m ∙ w) in
    record {
      taken = λ m p. ap used' (k m) ∙ (still_used t (addr m) used used' f (l.taken m (nz m p))).0;
      once = λ m m' p q. l.once m m' (nz m p) (sym (k m) ∙ (q ∙ k m'));
      table_taken = λ p. f.1;
      table_once =
          λ m p q. (still_used t (addr m) used used' f (l.taken m (nz m p))).1 (sym q ∙ k m);
    }
