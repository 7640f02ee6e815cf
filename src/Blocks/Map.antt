-- ===== src/Blocks/Map.antt =====
-- The blocks of an inode of FileSystem-RAID/kernel/fs.c: `bmap`.
use xv6_kernel_extensions.Prelude.{
  ℕ, ◌-◌, Bool, true, false, not, ◌==◌, ltb, if◌then◌else◌, update, ◌≡◌, refl, sym, ap, ◌∙◌,
  update_self, subst,
}
use xv6_kernel_extensions.Bio.{Outcome, returns, panics, sleeps, check, ◌>>=◌}
use xv6_kernel_extensions.Blocks.{
  Blocks, Inode, balloc, slot_block, entry_block, bmap_indirect, bmap,
}

if_false : {A : Type 0} (b : Bool) (x y : A) → b ≡ false → (if b then x else y) ≡ y
if_false true x y e = absurd (cc)
if_false false x y e = refl

-- What a call that allocates or finds a block in the slot `i` leaves there.
abbrev SlotSet : ℕ → ℕ → Inode → Type 0
SlotSet i a ip = (ip.addrs i ≡ a) × ((a == 0) ≡ false)

fresh_slot :
    (ip ip' : Inode) (i a : ℕ) (s' : Blocks) (o : Outcome (ℕ × Blocks))
    → ◌>>=◌ {B = ℕ × Inode × Blocks} o (λ x.
      ◌>>=◌ {B = ℕ × Inode × Blocks}
        (check (not (x.0 == 0)))
        (λ _. returns (x.0, record ip { addrs = update ip.addrs i x.0 }, x.1)))
      ≡ returns (a, ip', s')
    → SlotSet i a ip'
fresh_slot ip ip' i a s' panics h = absurd (cc)
fresh_slot ip ip' i a s' sleeps h = absurd (cc)
fresh_slot ip ip' i a s' (returns (x, u)) h = by_test (x == 0) refl h
  where
    by_test :
        (b : Bool)
        → (x == 0) ≡ b
        → ◌>>=◌ {B = ℕ × Inode × Blocks}
            (check (not b))
            (λ _. returns (x, record ip { addrs = update ip.addrs i x }, u))
          ≡ returns (a, ip', s')
        → SlotSet i a ip'
    by_test true e k = absurd (cc)
    by_test false e k =
        let t : ◌≡◌ {A = ℕ × Inode × Blocks} (x, record ip { addrs = update ip.addrs i x }, u)
            (a, ip', s') =
          cc in
        (
          ap (λ r. (r.1).addrs i) (sym t) ∙ (update_self ip.addrs i x ∙ ap (λ r. r.0) t),
          ap (λ r. r.0 == 0) (sym t) ∙ e,
        )

slot_block-SlotSet :
    (ip ip' : Inode) (i a : ℕ) (s s' : Blocks)
    → slot_block ip i s ≡ returns (a, ip', s')
    → SlotSet i a ip'
unfolding slot_block
slot_block-SlotSet ip ip' i a s s' h = by_test (ip.addrs i == 0) refl h
  where
    by_test :
        (b : Bool)
        → (ip.addrs i == 0) ≡ b
        → (if b
            then ◌>>=◌ {B = ℕ × Inode × Blocks} (balloc s) (λ x.
              ◌>>=◌ {B = ℕ × Inode × Blocks}
                (check (not (x.0 == 0)))
                (λ _. returns (x.0, record ip { addrs = update ip.addrs i x.0 }, x.1)))
            else returns (ip.addrs i, ip, s))
          ≡ returns (a, ip', s')
        → SlotSet i a ip'
    by_test true e k = fresh_slot ip ip' i a s' (balloc s) k
    by_test false e k =
        let t : ◌≡◌ {A = ℕ × Inode × Blocks} (ip.addrs i, ip, s) (a, ip', s') = cc in
        (ap (λ r. (r.1).addrs i) (sym t) ∙ ap (λ r. r.0) t, ap (λ r. r.0 == 0) (sym t) ∙ e)

-- The slot is set after the call, and the next call finds it.
slot_block-again :
    (ip : Inode) (i a : ℕ) (t : Blocks) → SlotSet i a ip → slot_block ip i t ≡ returns (a, ip, t)
unfolding slot_block
slot_block-again ip i a t (e, z) =
    let f : (ip.addrs i == 0) ≡ false = ap (λ x. x == 0) e ∙ z in
    if_false (ip.addrs i == 0) _ (returns (ip.addrs i, ip, t)) f ∙ ap (λ x. returns (x, ip, t)) e

abbrev EntrySet : ℕ → ℕ → ℕ → Blocks → Type 0
EntrySet b i a s = (s.contents b i ≡ a) × ((a == 0) ≡ false)

fresh_entry :
    (b i a : ℕ) (s' : Blocks) (o : Outcome (ℕ × Blocks))
    → ◌>>=◌ {B = ℕ × Blocks} o (λ x. ◌>>=◌ {B = ℕ × Blocks} (check (not (x.0 == 0))) (λ _.
      returns
        (x.0, record x.1 { contents = update x.1.contents b (update (x.1.contents b) i x.0) })))
      ≡ returns (a, s')
    → EntrySet b i a s'
fresh_entry b i a s' panics h = absurd (cc)
fresh_entry b i a s' sleeps h = absurd (cc)
fresh_entry b i a s' (returns (x, u)) h = by_test (x == 0) refl h
  where
    by_test :
        (c : Bool)
        → (x == 0) ≡ c
        → ◌>>=◌ {B = ℕ × Blocks} (check (not c)) (λ _.
          returns (x, record u { contents = update u.contents b (update (u.contents b) i x) }))
          ≡ returns (a, s')
        → EntrySet b i a s'
    by_test true e k = absurd (cc)
    by_test false e k =
        let t : ◌≡◌ {A = ℕ × Blocks}
            (x, record u { contents = update u.contents b (update (u.contents b) i x) }) (a, s') =
          cc in
        (
          ap (λ r. (r.1).contents b i) (sym t)
              ∙ (ap (λ v. v i) (update_self u.contents b (update (u.contents b) i x))
                  ∙ (update_self (u.contents b) i x ∙ ap (λ r. r.0) t)),
          ap (λ r. r.0 == 0) (sym t) ∙ e,
        )

entry_block-EntrySet :
    (b i a : ℕ) (s s' : Blocks) → entry_block b i s ≡ returns (a, s') → EntrySet b i a s'
unfolding entry_block
entry_block-EntrySet b i a s s' h = by_test (s.contents b i == 0) refl h
  where
    by_test :
        (c : Bool)
        → (s.contents b i == 0) ≡ c
        → (if c
            then ◌>>=◌ {B = ℕ × Blocks} (balloc s) (λ x.
              ◌>>=◌ {B = ℕ × Blocks} (check (not (x.0 == 0))) (λ _. returns (
                x.0,
                record x.1 { contents = update x.1.contents b (update (x.1.contents b) i x.0) },
              )))
            else returns (s.contents b i, s))
          ≡ returns (a, s')
        → EntrySet b i a s'
    by_test true e k = fresh_entry b i a s' (balloc s) k
    by_test false e k =
        let t : ◌≡◌ {A = ℕ × Blocks} (s.contents b i, s) (a, s') = cc in
        (ap (λ r. (r.1).contents b i) (sym t) ∙ ap (λ r. r.0) t, ap (λ r. r.0 == 0) (sym t) ∙ e)

entry_block-again : (b i a : ℕ) (s : Blocks) → EntrySet b i a s → entry_block b i s ≡ returns (a, s)
unfolding entry_block
entry_block-again b i a s (e, z) =
    let f : (s.contents b i == 0) ≡ false = ap (λ x. x == 0) e ∙ z in
    if_false (s.contents b i == 0) _ (returns (s.contents b i, s)) f ∙ ap (λ x. returns (x, s)) e

-- The two steps of a position in the indirect block.
indirect_again :
    (ip ip' : Inode) (bn a : ℕ) (s s' : Blocks)
    → bmap_indirect ip bn s ≡ returns (a, ip', s')
    → bmap_indirect ip' bn s' ≡ returns (a, ip', s')
unfolding bmap_indirect
indirect_again ip ip' bn a s s' h = by_slot (slot_block ip 12 s) refl h
  where
    by_entry :
        (b : ℕ) (u : Inode) (o : Outcome (ℕ × Blocks)) (t : Blocks)
        → SlotSet 12 b u
        → entry_block b bn t ≡ o
        → ◌>>=◌ {B = ℕ × Inode × Blocks} o (λ r. returns (r.0, u, r.1)) ≡ returns (a, ip', s')
        → bmap_indirect ip' bn s' ≡ returns (a, ip', s')
    by_entry b u panics t k e g = absurd (cc)
    by_entry b u sleeps t k e g = absurd (cc)
    by_entry b u (returns (x, v)) t k e g =
        let q : ◌≡◌ {A = ℕ × Inode × Blocks} (x, u, v) (a, ip', s') = cc in
        let second = entry_block-again b bn x v (entry_block-EntrySet b bn x t v e) in
        let all : bmap_indirect u bn v ≡ returns (x, u, v) =
          ap
            (λ o. ◌>>=◌ {B = ℕ × Inode × Blocks} o (λ r.
              ◌>>=◌ {B = ℕ × Inode × Blocks} (entry_block r.0 bn r.2)
                (λ w. returns (w.0, r.1, w.1))))
            (slot_block-again u 12 b v k)
          ∙ ap (λ o. ◌>>=◌ {B = ℕ × Inode × Blocks} o (λ w. returns (w.0, u, w.1))) second in
        subst (λ r. bmap_indirect (r.1) bn (r.2) ≡ returns r) q all

    by_slot :
        (o : Outcome (ℕ × Inode × Blocks))
        → slot_block ip 12 s ≡ o
        → ◌>>=◌ {B = ℕ × Inode × Blocks} o (λ r.
          ◌>>=◌ {B = ℕ × Inode × Blocks} (entry_block r.0 bn r.2) (λ w. returns (w.0, r.1, w.1)))
          ≡ returns (a, ip', s')
        → bmap_indirect ip' bn s' ≡ returns (a, ip', s')
    by_slot panics e g = absurd (cc)
    by_slot sleeps e g = absurd (cc)
    by_slot (returns (b, u, t)) e g =
        by_entry b u (entry_block b bn t) t (slot_block-SlotSet ip u 12 b s t e) refl g

-- If `bmap` has returned the block of a position of the file, a second call returns the same block,
-- and changes neither the inode nor the disk.
pub bmap_again :
    (ip ip' : Inode) (bn a : ℕ) (s s' : Blocks)
    → bmap ip bn s ≡ returns (a, ip', s')
    → bmap ip' bn s' ≡ returns (a, ip', s')
unfolding bmap
bmap_again ip ip' bn a s s' h = by_tests (ltb bn 12) (ltb (bn - 12) 256) h
  where
    by_tests :
        (b c : Bool)
        → (if b then slot_block ip bn s else if c then bmap_indirect ip (bn - 12) s else panics)
          ≡ returns (a, ip', s')
        → (if b then slot_block ip' bn s' else if c then bmap_indirect ip' (bn - 12) s' else panics)
          ≡ returns (a, ip', s')
    by_tests true c k = slot_block-again ip' bn a s' (slot_block-SlotSet ip ip' bn a s s' k)
    by_tests false true k = indirect_again ip ip' (bn - 12) a s s' k
    by_tests false false k = absurd (cc)
