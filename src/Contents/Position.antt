-- ===== src/Contents/Position.antt =====
-- The block of each position of an inode of FileSystem-RAID/kernel/fs.c.
use xv6_kernel_extensions.Prelude.{
  ℕ, ◌-◌, ◌<◌, ◌≤◌, true, false, ◌==◌, ltb, if◌then◌else◌, update_ne, ◌≡◌, ◌≢◌, refl, sym, ap, ◌∙◌,
  update_self, subst, arith, inl, inr, ◌⊎◌, Bool-cases,
}
use native.Mathlib.Decide.{ℕ_discrete}
use xv6_kernel_extensions.Blocks.{Blocks, Inode}
use xv6_kernel_extensions.Contents.Layout.{Layout, Layout-add, still_used}
use xv6_kernel_extensions.Contents.Slots.{Fresh, SlotNew}

-- The block of the position `n`, 0 where there is none.
unfoldable pub addr_of : Inode → Blocks → ℕ → ℕ
addr_of ip s n =
    if ltb n 12
    then ip.addrs n
    else if ltb (n - 12) 256
    then (if ip.addrs 12 == 0 then 0 else s.contents (ip.addrs 12) (n - 12))
    else 0

pub addr_direct : (ip : Inode) (s : Blocks) (n : ℕ) → n < 12 → addr_of ip s n ≡ ip.addrs n
unfolding addr_of
addr_direct ip s n h = let e : ltb n 12 ≡ true = ground arith in rw e refl

pub addr_table :
    (ip : Inode) (s : Blocks) (n : ℕ)
    → 12 ≤ n
    → n < 268
    → ip.addrs 12 ≢ 0
    → addr_of ip s n ≡ s.contents (ip.addrs 12) (n - 12)
unfolding addr_of
addr_table ip s n h l z =
    let e : ltb n 12 ≡ false = ground arith in
    let f : ltb (n - 12) 256 ≡ true = ground arith in
    let g : (ip.addrs 12 == 0) ≡ false = ground arith in rw (e, f, g) refl

pub addr_none : (ip : Inode) (s : Blocks) (n : ℕ) → 12 ≤ n → ip.addrs 12 ≡ 0 → addr_of ip s n ≡ 0
unfolding addr_of
addr_none ip s n h z =
    let e : ltb n 12 ≡ false = ground arith in
    let g : (ip.addrs 12 == 0) ≡ true = ground arith in
    elim (Bool-cases (ltb (n - 12) 256)) [ inl f ↦ rw (e, f, g) refl | inr f ↦ rw (e, f) refl ]

pub addr_far : (ip : Inode) (s : Blocks) (n : ℕ) → 268 ≤ n → addr_of ip s n ≡ 0
unfolding addr_of
addr_far ip s n h =
    let e : ltb n 12 ≡ false = ground arith in
    let f : ltb (n - 12) 256 ≡ false = ground arith in rw (e, f) refl

-- Equal slots and entries have equal blocks.
pub addr_same :
    (ip ip' : Inode) (s s' : Blocks) (n : ℕ)
    → (n < 12 → ip'.addrs n ≡ ip.addrs n)
    → ip'.addrs 12 ≡ ip.addrs 12
    → (12 ≤ n
        → ip.addrs 12 ≢ 0
        → s'.contents (ip.addrs 12) (n - 12) ≡ s.contents (ip.addrs 12) (n - 12))
    → addr_of ip' s' n ≡ addr_of ip s n
addr_same ip ip' s s' n f g k = elim (Bool-cases (ltb n 12)) [
  | inl e ↦
      let l : n < 12 = ground arith in addr_direct ip' s' n l ∙ (f l ∙ sym (addr_direct ip s n l))
  | inr e ↦
      let l : 12 ≤ n = ground arith in
      elim (Bool-cases (ltb n 268)) [
        | inl d ↦
            let h : n < 268 = ground arith in
            elim (ℕ_discrete (ip.addrs 12) 0) [
              | yes z ↦ addr_none ip' s' n l (g ∙ z) ∙ sym (addr_none ip s n l z)
              | no z ↦
                  addr_table ip' s' n l h (λ w. z (sym g ∙ w))
                  ∙ (ap (λ t. s'.contents t (n - 12)) g ∙ (k l z ∙ sym (addr_table ip s n l h z)))
            ]
        | inr d ↦ let h : 268 ≤ n = ground arith in addr_far ip' s' n h ∙ sym (addr_far ip s n h)
      ]
]

abbrev pub IsLaid : Inode → Blocks → Type 0
IsLaid ip s = Layout (addr_of ip s) (ip.addrs 12) s.used

-- The contents of the blocks of an inode are kept.
abbrev pub KeepsData : Inode → Blocks → Blocks → Type 0
KeepsData ip s s' =
    (m : ℕ) → addr_of ip s m ≢ 0 → s'.contents (addr_of ip s m) ≡ s.contents (addr_of ip s m)

-- The position `n` has the block `a` afterwards, which it had before or is new and zero, and the
-- other positions and the contents of the blocks are as they were.
pub record MapStep (n a : ℕ) (ip : Inode) (s : Blocks) (ip' : Inode) (s' : Blocks) : Type 0 where
  pub block : a ≢ 0
  pub here : addr_of ip' s' n ≡ a
  pub there : (m : ℕ) → n ≢ m → addr_of ip' s' m ≡ addr_of ip s m
  pub laid : IsLaid ip' s'
  pub size : ip'.size ≡ ip.size
  pub keeps : KeepsData ip s s'
  pub before : (addr_of ip s n ≡ a) ⊎ ((addr_of ip s n ≡ 0) × ((j : ℕ) → s'.contents a j ≡ 0))

pub MapStep-hit :
    (n a : ℕ) (ip : Inode) (s : Blocks)
    → IsLaid ip s
    → a ≢ 0
    → addr_of ip s n ≡ a
    → MapStep n a ip s ip s
MapStep-hit n a ip s l z e = record {
  block = z;
  here = e;
  there = λ m k. refl;
  laid = l;
  size = refl;
  keeps = λ m k. refl;
  before = inl e;
}

-- Blocks in use are not the new one.
pub Fresh-KeepsData :
    (a : ℕ) (ip : Inode) (s s' : Blocks) → IsLaid ip s → Fresh a s s' → KeepsData ip s s'
Fresh-KeepsData a ip s s' l f m z =
    f.2 (addr_of ip s m) (still_used a (addr_of ip s m) s.used s'.used f.0 (l.taken m z)).1

pub MapStep-slot :
    (n a : ℕ) (ip ip' : Inode) (s s' : Blocks)
    → IsLaid ip s
    → n < 12
    → a ≢ 0
    → SlotNew n a ip s ip' s'
    → MapStep n a ip s ip' s'
MapStep-slot n a ip ip' s s' l h z (e, f, q) =
    let zero_before : addr_of ip s n ≡ 0 = addr_direct ip s n h ∙ e in
    let at : ip'.addrs n ≡ a = ap (λ x. x.addrs n) q ∙ update_self ip.addrs n a in
    let other : (m : ℕ) → n ≢ m → ip'.addrs m ≡ ip.addrs m =
      λ m k. ap (λ x. x.addrs m) q ∙ update_ne ip.addrs n m a k in
    let table : ip'.addrs 12 ≡ ip.addrs 12 = other 12 (omega arith) in
    let there : (m : ℕ) → n ≢ m → addr_of ip' s' m ≡ addr_of ip s m = λ m k.
      addr_same ip ip' s s' m (λ _. other m k) table
        (λ _ w.
          ap (λ v. v (m - 12))
            (f.2 (ip.addrs 12)
              (still_used a (ip.addrs 12) s.used s'.used f.0 (l.table_taken w)).1)) in
    let here : addr_of ip' s' n ≡ a = addr_direct ip' s' n h ∙ at in
    record {
      block = z;
      here = here;
      there = there;
      laid =
          subst (λ t. Layout (addr_of ip' s') t s'.used) (sym table)
            (Layout-add (addr_of ip s) (addr_of ip' s') (ip.addrs 12) n a s.used s'.used l f.0
              zero_before here there);
      size = ap (λ x. x.size) q;
      keeps = Fresh-KeepsData a ip s s' l f;
      before = inr (zero_before, f.1);
    }
