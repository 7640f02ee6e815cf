-- ===== src/Contents/Mapped.antt =====
-- What `bmap` of FileSystem-RAID/kernel/fs.c does to the blocks of an inode.
use xv6_kernel_extensions.Prelude.{
  ℕ, ◌-◌, ◌<◌, ◌≤◌, ltb, update, update_ne, ◌≡◌, ◌≢◌, refl, sym, ap, ◌∙◌, update_self, subst, arith,
  inl, inr, ◌⊎◌, Bool-cases,
}
use xv6_kernel_extensions.Bio.{returns}
use xv6_kernel_extensions.Blocks.{Blocks, Inode, slot_block, entry_block}
use xv6_kernel_extensions.Contents.Layout.{Layout, Layout-add, Layout-table, still_used}
use xv6_kernel_extensions.Contents.Slots.{
  Fresh, SlotFound, SlotNew, EntryFound, EntryNew, with_word, slot_block-Slot, entry_block-Entry,
}
use xv6_kernel_extensions.Contents.Position.{
  addr_of, addr_direct, addr_table, addr_none, addr_far, addr_same, IsLaid, KeepsData, MapStep,
  MapStep-hit, Fresh-KeepsData,
}

-- The table is the block `t` afterwards, and the blocks of all positions are as they were.
pub record TableStep (t : ℕ) (ip : Inode) (s : Blocks) (ip' : Inode) (s' : Blocks) : Type 0 where
  pub nonzero : t ≢ 0
  pub table : ip'.addrs 12 ≡ t
  pub same : (m : ℕ) → addr_of ip' s' m ≡ addr_of ip s m
  pub laid : IsLaid ip' s'
  pub size : ip'.size ≡ ip.size
  pub keeps : KeepsData ip s s'

TableStep-new :
    (t : ℕ) (ip ip' : Inode) (s s' : Blocks)
    → IsLaid ip s
    → t ≢ 0
    → SlotNew 12 t ip s ip' s'
    → TableStep t ip s ip' s'
TableStep-new t ip ip' s s' l z (e, f, q) =
    let at : ip'.addrs 12 ≡ t = ap (λ x. x.addrs 12) q ∙ update_self ip.addrs 12 t in
    let other : (m : ℕ) → 12 ≢ m → ip'.addrs m ≡ ip.addrs m =
      λ m k. ap (λ x. x.addrs m) q ∙ update_ne ip.addrs 12 m t k in
    let same : (m : ℕ) → addr_of ip' s' m ≡ addr_of ip s m = λ m. elim (Bool-cases (ltb m 12)) [
      | inl d ↦
          let h : m < 12 = ground arith in
          addr_direct ip' s' m h ∙ (other m (omega arith) ∙ sym (addr_direct ip s m h))
      | inr d ↦
          let h : 12 ≤ m = ground arith in
          elim (Bool-cases (ltb m 268)) [
            | inl c ↦
                addr_table ip' s' m h (ground arith) (λ w. z (sym at ∙ w))
                ∙ (ap (λ x. s'.contents x (m - 12)) at
                    ∙ (f.1 (m - 12) ∙ sym (addr_none ip s m h e)))
            | inr c ↦
                let far : 268 ≤ m = ground arith in
                addr_far ip' s' m far ∙ sym (addr_far ip s m far)
          ]
    ] in
    record {
      nonzero = z;
      table = at;
      same = same;
      laid =
          subst (λ x. Layout (addr_of ip' s') x s'.used) (sym at)
            (Layout-table (addr_of ip s) (addr_of ip' s') t s.used s'.used
              (subst (λ x. Layout (addr_of ip s) x s.used) e l) f.0 same);
      size = ap (λ x. x.size) q;
      keeps = Fresh-KeepsData t ip s s' l f;
    }

TableStep-found :
    (t : ℕ) (ip : Inode) (s : Blocks)
    → IsLaid ip s
    → t ≢ 0
    → ip.addrs 12 ≡ t
    → TableStep t ip s ip s
TableStep-found t ip s l z e = record {
  nonzero = z;
  table = e;
  same = λ m. refl;
  laid = l;
  size = refl;
  keeps = λ m k. refl;
}

pub slot_block-TableStep :
    (t : ℕ) (ip ip' : Inode) (s s' : Blocks)
    → IsLaid ip s
    → slot_block ip 12 s ≡ returns (t, ip', s')
    → TableStep t ip s ip' s'
slot_block-TableStep t ip ip' s s' l h = by_kind (slot_block-Slot ip ip' 12 t s s' h)
  where
    by_kind :
        (t ≢ 0) × (SlotFound 12 t ip s ip' s' ⊎ SlotNew 12 t ip s ip' s') → TableStep t ip s ip' s'
    by_kind (z, inl (e, p, q)) =
        subst (λ x. TableStep t ip s x s') (sym p)
          (subst (λ x. TableStep t ip s ip x) (sym q) (TableStep-found t ip s l z e))
    by_kind (z, inr k) = TableStep-new t ip ip' s s' l z k

-- The new block `a` in the entry of the position `n` of the table.
MapStep-entry :
    (n a : ℕ) (ip : Inode) (s u : Blocks)
    → IsLaid ip s
    → 12 ≤ n
    → n < 268
    → ip.addrs 12 ≢ 0
    → a ≢ 0
    → s.contents (ip.addrs 12) (n - 12) ≡ 0
    → Fresh a s u
    → MapStep n a ip s ip (with_word (ip.addrs 12) (n - 12) a u)
MapStep-entry n a ip s u l h h' w z e f =
    let t = ip.addrs 12 in
    let s' : Blocks = with_word t (n - 12) a u in
    let ne : a ≢ t = (still_used a t s.used u.used f.0 (l.table_taken w)).1 in
    let row : s'.contents t ≡ update (u.contents t) (n - 12) a =
      update_self u.contents t (update (u.contents t) (n - 12) a) in
    let out : (y : ℕ) → t ≢ y → s'.contents y ≡ u.contents y =
      λ y k. update_ne u.contents t y (update (u.contents t) (n - 12) a) k in
    let before : addr_of ip s n ≡ 0 = addr_table ip s n h h' w ∙ e in
    let here : addr_of ip s' n ≡ a =
      addr_table ip s' n h h' w
      ∙ (ap (λ v. v (n - 12)) row ∙ update_self (u.contents t) (n - 12) a) in
    let there : (m : ℕ) → n ≢ m → addr_of ip s' m ≡ addr_of ip s m = λ m k.
      addr_same ip ip s s' m (λ _. refl) refl
        (λ g _.
          ap (λ v. v (m - 12)) row
          ∙ (update_ne (u.contents t) (n - 12) (m - 12) a (λ r. k (omega arith))
              ∙ ap (λ v. v (m - 12)) (f.2 t ne))) in
    record {
      block = z;
      here = here;
      there = there;
      laid = Layout-add (addr_of ip s) (addr_of ip s') t n a s.used u.used l f.0 before here there;
      size = refl;
      keeps = λ m k.
          out (addr_of ip s m) (λ r. l.table_once m k (sym r)) ∙ Fresh-KeepsData a ip s u l f m k;
      before = inr (before, λ j. ap (λ v. v j) (out a (λ r. ne (sym r))) ∙ f.1 j);
    }

pub entry_block-MapStep :
    (n a : ℕ) (ip : Inode) (s s' : Blocks)
    → IsLaid ip s
    → 12 ≤ n
    → n < 268
    → ip.addrs 12 ≢ 0
    → entry_block (ip.addrs 12) (n - 12) s ≡ returns (a, s')
    → MapStep n a ip s ip s'
entry_block-MapStep n a ip s s' l h h' w e =
    by_kind (entry_block-Entry (ip.addrs 12) (n - 12) a s s' e)
  where
    by_kind :
        (a ≢ 0)
          × (EntryFound (ip.addrs 12) (n - 12) a s s' ⊎ EntryNew (ip.addrs 12) (n - 12) a s s')
        → MapStep n a ip s ip s'
    by_kind (z, inl (p, q)) =
        subst (λ x. MapStep n a ip s ip x) (sym q)
          (MapStep-hit n a ip s l z (addr_table ip s n h h' w ∙ p))
    by_kind (z, inr (p, (u, f, q))) =
        subst (λ x. MapStep n a ip s ip x) (sym q) (MapStep-entry n a ip s u l h h' w z p f)

-- A step of the table before a step of the entry.
pub TableStep-MapStep :
    (t n a : ℕ) (ip ip1 ip2 : Inode) (s s1 s2 : Blocks)
    → TableStep t ip s ip1 s1
    → MapStep n a ip1 s1 ip2 s2
    → MapStep n a ip s ip2 s2
TableStep-MapStep t n a ip ip1 ip2 s s1 s2 k r = record {
  block = r.block;
  here = r.here;
  there = λ m q. r.there m q ∙ k.same m;
  laid = r.laid;
  size = r.size ∙ k.size;
  keeps = λ m z.
      let e = k.same m in
      ap s2.contents (sym e) ∙ (r.keeps m (λ w. z (sym e ∙ w)) ∙ (ap s1.contents e ∙ k.keeps m z));
  before = elim r.before [
    | inl e ↦ inl (sym (k.same n) ∙ e)
    | inr (e, f) ↦ inr (sym (k.same n) ∙ e, f)
  ];
}
