-- ===== src/Icache/Get.antt =====
-- `iget` of FileSystem-RAID/kernel/fs.c.
use xv6_kernel_extensions.Prelude.{
  refl, ℕ, zero, suc, ◌+◌, ◌<◌, ◌≤◌, Bool, true, false, Option, none, some, update, update_ne,
  update_self, ◌≡◌, ◌≢◌, ap, ◌∙◌, sym, subst, arith, inl, inr, ◌⊎◌, Bool-cases,
}
use native.Mathlib.Decide.{ℕ_discrete}
use xv6_kernel_extensions.Bio.{Outcome, returns, panics, sleeps}
use xv6_kernel_extensions.Icache.{
  Entry, Icache, find_entry, is_inode, is_empty_entry, set_entry, recycle_entry, reuse_entry, iget,
}

abbrev pub Found : (Entry → Bool) → (ℕ → Entry) → ℕ → ℕ → Option ℕ → Type 0
Found test f lo hi none = (j : ℕ) → lo ≤ j → j < hi → test (f j) ≡ false
Found test f lo hi (some i) = (lo ≤ i) × (i < hi) × (test (f i) ≡ true)

skip_one :
    (test : Entry → Bool) (f : ℕ → Entry) (i m : ℕ) (o : Option ℕ)
    → test (f i) ≡ false
    → Found test f (i + 1) (i + 1 + m) o
    → Found test f i (i + suc m) o
skip_one test f i m none e k = λ j l h. elim (ℕ_discrete i j) [
  | yes q ↦ ap (λ x. test (f x)) (sym q) ∙ e
  | no n ↦ k j (omega arith) (omega arith)
]
skip_one test f i m (some x) e k = (omega (arith, k.0), omega (arith, k.1), k.2)

find_entry-Found :
    (m : ℕ) (test : Entry → Bool) (f : ℕ → Entry) (i : ℕ)
    → Found test f i (i + m) (find_entry m test f i)
unfolding find_entry
find_entry-Found zero test f i = λ j l h. absurd (omega arith)
find_entry-Found (suc m) test f i = elim (Bool-cases (test (f i))) [
  | inl e ↦ rw e (omega arith, omega arith, e)
  | inr e ↦
      rw e (skip_one test f i m (find_entry m test f (i + 1)) e (find_entry-Found m test f (i + 1)))
]

-- No inode has two entries with references.
abbrev pub OneEntry : (ℕ → Entry) → Type 0
OneEntry f =
    (i j : ℕ)
    → i < 50
    → j < 50
    → 0 < (f i).ref
    → 0 < (f j).ref
    → (f i).dev ≡ (f j).dev
    → (f i).inum ≡ (f j).inum
    → i ≡ j

-- What `iget` gives: an entry of the inode with a reference more, and the other entries, the inodes
-- on the disk and the blocks as they were; the entry was the inode's before and is the same but for
-- its count, or had no reference and is to be loaded. It panics only if no entry is the inode's and all have references.
abbrev pub Got : ℕ → ℕ → Icache → Outcome (ℕ × Icache) → Type 0
Got dev inum c (returns (i, c')) =
    (i < 50)
    × ((c'.entries i).dev ≡ dev)
    × ((c'.entries i).inum ≡ inum)
    × ((c'.entries i).ref ≡ (c.entries i).ref + 1)
    × ((j : ℕ) → i ≢ j → c'.entries j ≡ c.entries j)
    × (((is_inode dev inum (c.entries i) ≡ true)
          × (c'.entries i ≡ record (c.entries i) { ref = (c.entries i).ref + 1 }))
        ⊎ (((c.entries i).ref ≡ 0)
            × (c'.entries i
                ≡ record (c.entries i) { dev = dev; inum = inum; ref = 1; valid = false })
            × ((j : ℕ) → j < 50 → is_inode dev inum (c.entries j) ≡ false)))
    × (c'.inodes ≡ c.inodes)
    × (c'.blocks ≡ c.blocks)
Got dev inum c panics =
    (j : ℕ) → j < 50 → (is_inode dev inum (c.entries j) ≡ false) × (0 < (c.entries j).ref)
Got dev inum c sleeps = ⊥

is_inode-parts :
    (dev inum : ℕ) (e : Entry)
    → is_inode dev inum e ≡ true
    → (0 < e.ref) × (e.dev ≡ dev) × (e.inum ≡ inum)
is_inode-parts dev inum e h = (ground arith, ground arith, ground arith)

recycle-Got :
    (dev inum : ℕ) (c : Icache) (o : Option ℕ)
    → ((j : ℕ) → j < 50 → is_inode dev inum (c.entries j) ≡ false)
    → Found is_empty_entry c.entries 0 50 o
    → Got dev inum c (recycle_entry dev inum c o)
unfolding recycle_entry set_entry
recycle-Got dev inum c none h f = λ j l. (h j l, let k = f j (omega arith) l in ground arith)
recycle-Got dev inum c (some i) h f =
    let v = record (c.entries i) { dev = dev; inum = inum; ref = 1; valid = false } in
    let at : update c.entries i v i ≡ v = update_self c.entries i v in
    let free : (c.entries i).ref ≡ 0 = let k = f.2 in ground arith in
    (
      f.1,
      ap (λ e. e.dev) at,
      ap (λ e. e.inum) at,
      omega (arith, free, ap (λ e. e.ref) at),
      λ j n. update_ne c.entries i j v n,
      inr (free, at, h),
      refl,
      refl,
    )

reuse-Got :
    (dev inum : ℕ) (c : Icache) (o : Option ℕ)
    → Found (is_inode dev inum) c.entries 0 50 o
    → Got dev inum c (reuse_entry dev inum c o)
unfolding reuse_entry set_entry
reuse-Got dev inum c none f =
    recycle-Got dev inum c (find_entry 50 is_empty_entry c.entries 0) (λ j l. f j (omega arith) l)
      (find_entry-Found 50 is_empty_entry c.entries 0)
reuse-Got dev inum c (some i) f =
    let v = record (c.entries i) { ref = (c.entries i).ref + 1 } in
    let at : update c.entries i v i ≡ v = update_self c.entries i v in
    let (r, d, n) = is_inode-parts dev inum (c.entries i) f.2 in
    (
      f.1,
      ap (λ e. e.dev) at ∙ d,
      ap (λ e. e.inum) at ∙ n,
      ap (λ e. e.ref) at,
      λ j ne. update_ne c.entries i j v ne,
      inl (f.2, at),
      refl,
      refl,
    )

-- `iget` returns an entry of the inode, with a reference more, and changes no other entry, no inode
-- on the disk and no block: the entry that had the inode, of which only the count changes, or, only
-- where none had, one without references, which is then to be loaded. It panics only if no entry has the inode and every entry has references.
pub iget-Got : (dev inum : ℕ) (c : Icache) → Got dev inum c (iget dev inum c)
unfolding iget
iget-Got dev inum c =
    reuse-Got dev inum c (find_entry 50 (is_inode dev inum) c.entries 0)
      (find_entry-Found 50 (is_inode dev inum) c.entries 0)

is_inode-true :
    (dev inum : ℕ) (e : Entry)
    → 0 < e.ref
    → e.dev ≡ dev
    → e.inum ≡ inum
    → is_inode dev inum e ≡ true
is_inode-true dev inum e r d n = ground arith

module _ (dev inum i : ℕ) (c c' : Icache) (one : OneEntry c.entries)
    (k : Got dev inum c (returns (i, c'))) where
  -- No other entry with references has the inode.
  alone :
      (j : ℕ)
      → j < 50
      → 0 < (c'.entries j).ref
      → (c'.entries j).dev ≡ dev
      → (c'.entries j).inum ≡ inum
      → i ≡ j
  alone j l r d n = elim (ℕ_discrete i j) [
    | yes e ↦ e
    | no ne ↦
        let same = k.4 j ne in
        let r' : 0 < (c.entries j).ref = subst (λ e. 0 < e.ref) same r in
        let d' : (c.entries j).dev ≡ dev = sym (ap (λ e. e.dev) same) ∙ d in
        let n' : (c.entries j).inum ≡ inum = sym (ap (λ e. e.inum) same) ∙ n in
        elim k.5 [
          | inl h ↦
              let (ri, di, ni) = is_inode-parts dev inum (c.entries i) h.0 in
              one i j k.0 l ri r' (di ∙ sym d') (ni ∙ sym n')
          | inr h ↦
              let t = is_inode-true dev inum (c.entries j) r' d' n' in
              let f = h.2 j l in absurd (cc)
        ]
  ]

  got-OneEntry : OneEntry c'.entries
  got-OneEntry a b la lb ra rb d n = elim (ℕ_discrete i a) [
    | yes e ↦
        let da : (c'.entries a).dev ≡ dev = subst (λ x. (c'.entries x).dev ≡ dev) e k.1 in
        let na : (c'.entries a).inum ≡ inum = subst (λ x. (c'.entries x).inum ≡ inum) e k.2 in
        sym e ∙ alone b lb rb (sym d ∙ da) (sym n ∙ na)
    | no x ↦ elim (ℕ_discrete i b) [
      | yes e ↦
          let db : (c'.entries b).dev ≡ dev = subst (λ x. (c'.entries x).dev ≡ dev) e k.1 in
          let nb : (c'.entries b).inum ≡ inum = subst (λ x. (c'.entries x).inum ≡ inum) e k.2 in
          sym (alone a la ra (d ∙ db) (n ∙ nb)) ∙ e
      | no y ↦
          let sa = k.4 a x in
          let sb = k.4 b y in
          one a b la lb (subst (λ e. 0 < e.ref) sa ra) (subst (λ e. 0 < e.ref) sb rb)
            (sym (ap (λ e. e.dev) sa) ∙ (d ∙ ap (λ e. e.dev) sb))
            (sym (ap (λ e. e.inum) sa) ∙ (n ∙ ap (λ e. e.inum) sb))
    ]
  ]

-- If no inode has two entries with references, and `iget` returns, then none has two afterwards.
pub iget-OneEntry :
    (dev inum i : ℕ) (c c' : Icache)
    → OneEntry c.entries
    → iget dev inum c ≡ returns (i, c')
    → OneEntry c'.entries
iget-OneEntry dev inum i c c' one h =
    got-OneEntry dev inum i c c' one (subst (Got dev inum c) h (iget-Got dev inum c))
