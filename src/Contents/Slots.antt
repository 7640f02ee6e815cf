-- ===== src/Contents/Slots.antt =====
-- The two places of FileSystem-RAID/kernel/fs.c where `bmap` finds or allocates a block.
use xv6_kernel_extensions.Prelude.{
  ℕ, Bool, true, false, not, ◌==◌, if◌then◌else◌, update, ◌≡◌, ◌≢◌, refl, subst, arith, inl, inr,
  ◌⊎◌,
}
use xv6_kernel_extensions.Bio.{Outcome, returns, panics, sleeps, check, ◌>>=◌}
use xv6_kernel_extensions.Blocks.{Blocks, Inode, balloc, slot_block, entry_block}
use xv6_kernel_extensions.Blocks.Free.{Allocated, balloc-Allocated}
use xv6_kernel_extensions.Contents.Layout.{Adds}

-- The block `a` is new and zero, and the others are as they were.
abbrev pub Fresh : ℕ → Blocks → Blocks → Type 0
Fresh a s s' =
    Adds a s.used s'.used
    × ((j : ℕ) → s'.contents a j ≡ 0)
    × ((y : ℕ) → a ≢ y → s'.contents y ≡ s.contents y)

balloc-Fresh : (a : ℕ) (s s' : Blocks) → balloc s ≡ returns (a, s') → Fresh a s s'
balloc-Fresh a s s' e =
    let t : Allocated s (returns (a, s')) = subst (Allocated s) e (balloc-Allocated s) in
    ((t.1, t.3, λ y n. (t.5 y n).0), t.4, λ y n. (t.5 y n).1)

abbrev pub SlotFound : ℕ → ℕ → Inode → Blocks → Inode → Blocks → Type 0
SlotFound i a ip s ip' s' = (ip.addrs i ≡ a) × (ip' ≡ ip) × (s' ≡ s)

abbrev pub SlotNew : ℕ → ℕ → Inode → Blocks → Inode → Blocks → Type 0
SlotNew i a ip s ip' s' =
    (ip.addrs i ≡ 0) × Fresh a s s' × (ip' ≡ record ip { addrs = update ip.addrs i a })

pub slot_block-Slot :
    (ip ip' : Inode) (i a : ℕ) (s s' : Blocks)
    → slot_block ip i s ≡ returns (a, ip', s')
    → (a ≢ 0) × (SlotFound i a ip s ip' s' ⊎ SlotNew i a ip s ip' s')
unfolding slot_block
slot_block-Slot ip ip' i a s s' h = by_test (ip.addrs i == 0) refl h
  where
    by_nonzero :
        (b : Bool) (x : ℕ) (u : Blocks)
        → (x == 0) ≡ b
        → ip.addrs i ≡ 0
        → Fresh x s u
        → ◌>>=◌ {B = ℕ × Inode × Blocks}
            (check (not b))
            (λ _. returns (x, record ip { addrs = update ip.addrs i x }, u))
          ≡ returns (a, ip', s')
        → (a ≢ 0) × (SlotFound i a ip s ip' s' ⊎ SlotNew i a ip s ip' s')
    by_nonzero true x u e z f k = absurd (cc)
    by_nonzero false x u e z f k =
        let t : ◌≡◌ {A = ℕ × Inode × Blocks} (x, record ip { addrs = update ip.addrs i x }, u)
            (a, ip', s') =
          cc in
        let nz : x ≢ 0 = ground arith in
        subst {A = ℕ × Inode × Blocks}
          (λ r. (r.0 ≢ 0) × (SlotFound i r.0 ip s r.1 r.2 ⊎ SlotNew i r.0 ip s r.1 r.2)) t
          (nz, inr (z, f, refl))

    by_balloc :
        (o : Outcome (ℕ × Blocks))
        → balloc s ≡ o
        → ip.addrs i ≡ 0
        → ◌>>=◌ {B = ℕ × Inode × Blocks} o (λ x.
          ◌>>=◌ {B = ℕ × Inode × Blocks}
            (check (not (x.0 == 0)))
            (λ _. returns (x.0, record ip { addrs = update ip.addrs i x.0 }, x.1)))
          ≡ returns (a, ip', s')
        → (a ≢ 0) × (SlotFound i a ip s ip' s' ⊎ SlotNew i a ip s ip' s')
    by_balloc panics e z k = absurd (cc)
    by_balloc sleeps e z k = absurd (cc)
    by_balloc (returns (x, u)) e z k = by_nonzero (x == 0) x u refl z (balloc-Fresh x s u e) k

    by_test :
        (b : Bool)
        → (ip.addrs i == 0) ≡ b
        → (if b
            then ◌>>=◌ {B = ℕ × Inode × Blocks} (balloc s) (λ x.
              ◌>>=◌ {B = ℕ × Inode × Blocks}
                (check (not (x.0 == 0)))
                (λ _. returns (x.0, record ip { addrs = update ip.addrs i x.0 }, x.1)))
            else returns (ip.addrs i, ip, s))
          ≡ returns (a, ip', s')
        → (a ≢ 0) × (SlotFound i a ip s ip' s' ⊎ SlotNew i a ip s ip' s')
    by_test true e k = by_balloc (balloc s) refl (ground arith) k
    by_test false e k =
        let t : ◌≡◌ {A = ℕ × Inode × Blocks} (ip.addrs i, ip, s) (a, ip', s') = cc in
        let nz : ip.addrs i ≢ 0 = ground arith in
        subst {A = ℕ × Inode × Blocks}
          (λ r. (r.0 ≢ 0) × (SlotFound i r.0 ip s r.1 r.2 ⊎ SlotNew i r.0 ip s r.1 r.2)) t
          (nz, inl (refl, refl, refl))

-- The block in the entry `i` of the table `b`.
abbrev pub with_word : ℕ → ℕ → ℕ → Blocks → Blocks
with_word b i a s = record s { contents = update s.contents b (update (s.contents b) i a) }

abbrev pub EntryFound : ℕ → ℕ → ℕ → Blocks → Blocks → Type 0
EntryFound b i a s s' = (s.contents b i ≡ a) × (s' ≡ s)

abbrev pub EntryNew : ℕ → ℕ → ℕ → Blocks → Blocks → Type 0
EntryNew b i a s s' = (s.contents b i ≡ 0) × ((u : Blocks) × Fresh a s u × (s' ≡ with_word b i a u))

pub entry_block-Entry :
    (b i a : ℕ) (s s' : Blocks)
    → entry_block b i s ≡ returns (a, s')
    → (a ≢ 0) × (EntryFound b i a s s' ⊎ EntryNew b i a s s')
unfolding entry_block
entry_block-Entry b i a s s' h = by_test (s.contents b i == 0) refl h
  where
    by_nonzero :
        (c : Bool) (x : ℕ) (u : Blocks)
        → (x == 0) ≡ c
        → s.contents b i ≡ 0
        → Fresh x s u
        → ◌>>=◌ {B = ℕ × Blocks} (check (not c)) (λ _. returns (x, with_word b i x u))
          ≡ returns (a, s')
        → (a ≢ 0) × (EntryFound b i a s s' ⊎ EntryNew b i a s s')
    by_nonzero true x u e z f k = absurd (cc)
    by_nonzero false x u e z f k =
        let t : ◌≡◌ {A = ℕ × Blocks} (x, with_word b i x u) (a, s') = cc in
        let nz : x ≢ 0 = ground arith in
        subst {A = ℕ × Blocks}
          (λ r. (r.0 ≢ 0) × (EntryFound b i r.0 s r.1 ⊎ EntryNew b i r.0 s r.1)) t
          (nz, inr (z, (u, f, refl)))

    by_balloc :
        (o : Outcome (ℕ × Blocks))
        → balloc s ≡ o
        → s.contents b i ≡ 0
        → ◌>>=◌ {B = ℕ × Blocks} o (λ x.
          ◌>>=◌ {B = ℕ × Blocks}
            (check (not (x.0 == 0)))
            (λ _. returns (x.0, with_word b i x.0 x.1)))
          ≡ returns (a, s')
        → (a ≢ 0) × (EntryFound b i a s s' ⊎ EntryNew b i a s s')
    by_balloc panics e z k = absurd (cc)
    by_balloc sleeps e z k = absurd (cc)
    by_balloc (returns (x, u)) e z k = by_nonzero (x == 0) x u refl z (balloc-Fresh x s u e) k

    by_test :
        (c : Bool)
        → (s.contents b i == 0) ≡ c
        → (if c
            then ◌>>=◌ {B = ℕ × Blocks} (balloc s) (λ x.
              ◌>>=◌ {B = ℕ × Blocks}
                (check (not (x.0 == 0)))
                (λ _. returns (x.0, with_word b i x.0 x.1)))
            else returns (s.contents b i, s))
          ≡ returns (a, s')
        → (a ≢ 0) × (EntryFound b i a s s' ⊎ EntryNew b i a s s')
    by_test true e k = by_balloc (balloc s) refl (ground arith) k
    by_test false e k =
        let t : ◌≡◌ {A = ℕ × Blocks} (s.contents b i, s) (a, s') = cc in
        let nz : s.contents b i ≢ 0 = ground arith in
        subst {A = ℕ × Blocks}
          (λ r. (r.0 ≢ 0) × (EntryFound b i r.0 s r.1 ⊎ EntryNew b i r.0 s r.1)) t
          (nz, inl (refl, refl))
