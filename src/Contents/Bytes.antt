-- ===== src/Contents/Bytes.antt =====
-- The bytes of an inode of FileSystem-RAID/kernel/fs.c, and how `bmap` and a write of one block
-- change them.
use xv6_kernel_extensions.Prelude.{
  ℕ, ◌+◌, ◌-◌, ◌*◌, ◌/◌, ◌%◌, ◌<◌, ◌≤◌, Bool, true, false, ◌==◌, ltb, if◌then◌else◌, ◌≡◌, ◌≢◌, refl,
  sym, ap, ◌∙◌, subst, fun_ext, arith, inl, inr, ◌⊎◌, Bool-cases,
}
use native.Mathlib.Decide.{ℕ_discrete}
use xv6_kernel_extensions.Bio.{Block, Outcome, returns, panics, sleeps, ◌>>=◌}
use xv6_kernel_extensions.Blocks.{Blocks, Inode, slot_block, entry_block, bmap, bmap_indirect}
use xv6_kernel_extensions.Contents.{block_byte, block_of}
use xv6_kernel_extensions.Contents.Slots.{slot_block-Slot, SlotFound, SlotNew}
use xv6_kernel_extensions.Contents.Position.{
  addr_of, addr_direct, IsLaid, MapStep, MapStep-hit, MapStep-slot,
}
use xv6_kernel_extensions.Contents.Mapped.{
  TableStep, slot_block-TableStep, entry_block-MapStep, TableStep-MapStep,
}

indirect-MapStep :
    (n a : ℕ) (ip ip' : Inode) (s s' : Blocks)
    → IsLaid ip s
    → 12 ≤ n
    → n < 268
    → bmap_indirect ip (n - 12) s ≡ returns (a, ip', s')
    → MapStep n a ip s ip' s'
unfolding bmap_indirect
indirect-MapStep n a ip ip' s s' l h h' e = by_table (slot_block ip 12 s) refl e
  where
    by_entry :
        (t : ℕ) (u : Inode) (v : Blocks) (o : Outcome (ℕ × Blocks))
        → TableStep t ip s u v
        → entry_block t (n - 12) v ≡ o
        → ◌>>=◌ {B = ℕ × Inode × Blocks} o (λ w. returns (w.0, u, w.1)) ≡ returns (a, ip', s')
        → MapStep n a ip s ip' s'
    by_entry t u v panics k f g = absurd (cc)
    by_entry t u v sleeps k f g = absurd (cc)
    by_entry t u v (returns (x, w)) k f g =
        let q : ◌≡◌ {A = ℕ × Inode × Blocks} (x, u, w) (a, ip', s') = cc in
        let first : entry_block (u.addrs 12) (n - 12) v ≡ returns (x, w) =
          subst (λ y. entry_block y (n - 12) v ≡ returns (x, w)) (sym k.table) f in
        subst {A = ℕ × Inode × Blocks} (λ r. MapStep n r.0 ip s r.1 r.2) q
          (TableStep-MapStep t n x ip u u s v w k
            (entry_block-MapStep n x u v w k.laid h h' (λ z. k.nonzero (sym k.table ∙ z)) first))

    by_table :
        (o : Outcome (ℕ × Inode × Blocks))
        → slot_block ip 12 s ≡ o
        → ◌>>=◌ {B = ℕ × Inode × Blocks} o (λ r.
          ◌>>=◌ {B = ℕ × Inode × Blocks}
            (entry_block r.0 (n - 12) r.2)
            (λ w. returns (w.0, r.1, w.1)))
          ≡ returns (a, ip', s')
        → MapStep n a ip s ip' s'
    by_table panics f g = absurd (cc)
    by_table sleeps f g = absurd (cc)
    by_table (returns (t, u, v)) f g =
        by_entry t u v (entry_block t (n - 12) v) (slot_block-TableStep t ip u s v l f) refl g

slot-MapStep :
    (n a : ℕ) (ip ip' : Inode) (s s' : Blocks)
    → IsLaid ip s
    → n < 12
    → (a ≢ 0) × (SlotFound n a ip s ip' s' ⊎ SlotNew n a ip s ip' s')
    → MapStep n a ip s ip' s'
slot-MapStep n a ip ip' s s' l h (z, inl (e, p, q)) =
    subst (λ x. MapStep n a ip s x s') (sym p)
      (subst (λ x. MapStep n a ip s ip x) (sym q)
        (MapStep-hit n a ip s l z (addr_direct ip s n h ∙ e)))
slot-MapStep n a ip ip' s s' l h (z, inr k) = MapStep-slot n a ip ip' s s' l h z k

pub bmap-MapStep :
    (n a : ℕ) (ip ip' : Inode) (s s' : Blocks)
    → IsLaid ip s
    → bmap ip n s ≡ returns (a, ip', s')
    → MapStep n a ip s ip' s'
unfolding bmap
bmap-MapStep n a ip ip' s s' l h = by_tests (ltb n 12) (ltb (n - 12) 256) refl refl h
  where
    by_tests :
        (b c : Bool)
        → ltb n 12 ≡ b
        → ltb (n - 12) 256 ≡ c
        → (if b then slot_block ip n s else if c then bmap_indirect ip (n - 12) s else panics)
          ≡ returns (a, ip', s')
        → MapStep n a ip s ip' s'
    by_tests true c e f k =
        slot-MapStep n a ip ip' s s' l (ground arith) (slot_block-Slot ip ip' n a s s' k)
    by_tests false true e f k = indirect-MapStep n a ip ip' s s' l (ground arith) (ground arith) k
    by_tests false false e f k = absurd (cc)

-- The byte at `p`, 0 where there is no block.
unfoldable pub file_byte : Inode → Blocks → ℕ → ℕ
file_byte ip s p =
    if addr_of ip s (p / 1024) == 0
    then 0
    else block_byte (s.contents (addr_of ip s (p / 1024))) (p % 1024)

pub byte_none :
    (ip : Inode) (s : Blocks) (p : ℕ) → addr_of ip s (p / 1024) ≡ 0 → file_byte ip s p ≡ 0
unfolding file_byte
byte_none ip s p z = let e : (addr_of ip s (p / 1024) == 0) ≡ true = ground arith in rw e refl

pub byte_some :
    (ip : Inode) (s : Blocks) (p a : ℕ)
    → addr_of ip s (p / 1024) ≡ a
    → a ≢ 0
    → file_byte ip s p ≡ block_byte (s.contents a) (p % 1024)
unfolding file_byte
byte_some ip s p a h z =
    let e : (addr_of ip s (p / 1024) == 0) ≡ false = ground arith in
    rw e (ap (λ x. block_byte (s.contents x) (p % 1024)) h)

zero_byte : (b : Block) (o : ℕ) → ((j : ℕ) → b j ≡ 0) → block_byte b o ≡ 0
unfolding block_byte
zero_byte b o z =
    let e : b ≡ (λ j. 0) = fun_ext z in subst (λ x. block_byte x o ≡ 0) (sym e) (ground arith)

-- `bmap` changes no byte.
pub bmap-file_byte :
    (n a : ℕ) (ip ip' : Inode) (s s' : Blocks) (p : ℕ)
    → MapStep n a ip s ip' s'
    → file_byte ip' s' p ≡ file_byte ip s p
bmap-file_byte n a ip ip' s s' p k = elim (ℕ_discrete n (p / 1024)) [
  | yes q ↦
      let after : file_byte ip' s' p ≡ block_byte (s'.contents a) (p % 1024) =
        byte_some ip' s' p a (ap (addr_of ip' s') (sym q) ∙ k.here) k.block in
      elim k.before [
        | inl e ↦
            let at : addr_of ip s (p / 1024) ≡ a = ap (addr_of ip s) (sym q) ∙ e in
            let kept : s'.contents a ≡ s.contents a =
              subst (λ x. s'.contents x ≡ s.contents x) e (k.keeps n (λ w. k.block (sym e ∙ w))) in
            after ∙ (ap (λ v. block_byte v (p % 1024)) kept ∙ sym (byte_some ip s p a at k.block))
        | inr (e, z) ↦
            after
            ∙ (zero_byte (s'.contents a) (p % 1024) z
                ∙ sym (byte_none ip s p (ap (addr_of ip s) (sym q) ∙ e)))
      ]
  | no q ↦
      let e : addr_of ip' s' (p / 1024) ≡ addr_of ip s (p / 1024) = k.there (p / 1024) q in
      elim (ℕ_discrete (addr_of ip s (p / 1024)) 0) [
        | yes z ↦ byte_none ip' s' p (e ∙ z) ∙ sym (byte_none ip s p z)
        | no z ↦
            byte_some ip' s' p (addr_of ip s (p / 1024)) e z
            ∙ (ap (λ v. block_byte v (p % 1024)) (k.keeps (p / 1024) z)
                ∙ sym (byte_some ip s p (addr_of ip s (p / 1024)) refl z))
      ]
]

-- The bytes of a word.
module _ (a b c d : ℕ) where
  abbrev word : ℕ
  word = a % 256 + 256 * (b % 256) + 65536 * (c % 256) + 16777216 * (d % 256)

  word_first : word % 256 ≡ a % 256
  word_first = omega arith

  word_second : word / 256 % 256 ≡ b % 256
  word_second = omega arith

  word_third : word / 65536 % 256 ≡ c % 256
  word_third = omega arith

  word_fourth : word / 16777216 % 256 ≡ d % 256
  word_fourth = omega arith

pub block_byte-block_of : (f : ℕ → ℕ) (o : ℕ) → block_byte (block_of f) o ≡ f o % 256
unfolding block_byte block_of
block_byte-block_of f o =
    let i = 4 * (o / 4) in
    let at : (x : ℕ) → x ≡ o → f x % 256 ≡ f o % 256 = λ x e. ap (λ y. f y % 256) e in
    elim (Bool-cases (o % 4 == 0)) [
      | inl e ↦ rw e (word_first (f i) (f (i + 1)) (f (i + 2)) (f (i + 3)) ∙ at i (ground arith))
      | inr e ↦ elim (Bool-cases (o % 4 == 1)) [
        | inl e' ↦
            rw (e, e')
              (word_second (f i) (f (i + 1)) (f (i + 2)) (f (i + 3)) ∙ at (i + 1) (ground arith))
        | inr e' ↦ elim (Bool-cases (o % 4 == 2)) [
          | inl d ↦
              rw (e, e', d)
                (word_third (f i) (f (i + 1)) (f (i + 2)) (f (i + 3)) ∙ at (i + 2) (ground arith))
          | inr d ↦
              rw (e, e', d)
                (word_fourth (f i) (f (i + 1)) (f (i + 2)) (f (i + 3)) ∙ at (i + 3) (ground arith))
        ]
      ]
    ]

pub block_byte_small : (b : Block) (o : ℕ) → block_byte b o % 256 ≡ block_byte b o
unfolding block_byte
block_byte_small b o = elim (Bool-cases (o % 4 == 0)) [
  | inl e ↦ rw e (omega arith)
  | inr e ↦ elim (Bool-cases (o % 4 == 1)) [
    | inl e' ↦ rw (e, e') (omega arith)
    | inr e' ↦ elim (Bool-cases (o % 4 == 2)) [
      | inl d ↦ rw (e, e', d) (omega arith)
      | inr d ↦ rw (e, e', d) (omega arith)
    ]
  ]
]
