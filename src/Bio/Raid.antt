-- ===== src/Bio/Raid.antt =====
-- The mirroring of FileSystem-RAID/kernel/bio.c: what `bwrite` puts on the two disks, and what
-- `bread` gets back when one of them fails.
use xv6_kernel_extensions.Prelude.{
  ℕ, ◌+◌, ℤ, pos, Bool, true, false, ◌||◌, eqb_ℤ, if◌then◌else◌, ◌≡◌, ◌≢◌, arith, ◌⊎◌, inl, inr,
  Bool-cases, eq_of_parts, ◌∙◌,
}
use xv6_kernel_extensions.Bio.{
  Block, Faults, is_bad_block, read_from, mirror_write, disk1_start_block,
}

-- Disk 0 takes a write of the block, or serves a read of it.
abbrev pub Disk0Works : Faults → ℕ → Type 0
Disk0Works f blockno = (f.disk_fail_id ≢ pos 0) × (f.read_error_pbn ≢ pos blockno)

abbrev pub Disk1Works : Faults → Type 0
Disk1Works f = f.disk_fail_id ≢ pos 1

abbrev pub Copy0 : (ℕ → Block) → ℕ → Block
Copy0 disk blockno = disk blockno

abbrev pub Copy1 : (ℕ → Block) → ℕ → Block
Copy1 disk blockno = disk (blockno + disk1_start_block)

-- `bread` of a block that is not cached, in the state of the disks that it finds.
abbrev pub read_back : Faults → (ℕ → Block) → ℕ → Block
read_back f disk blockno = disk (read_from f blockno)

-- A mirrored write of a logical block, by which of the two copies the flags leave working.
pub record Mirrored (f : Faults) (disk : ℕ → Block) (blockno : ℕ) (v : Block) (disk' : ℕ → Block)
    : Type 0 where
  pub first : Disk0Works f blockno → Copy0 disk' blockno ≡ v
  pub first_kept : ¬ Disk0Works f blockno → Copy0 disk' blockno ≡ Copy0 disk blockno
  pub second : Disk1Works f → Copy1 disk' blockno ≡ v
  pub second_kept : ¬ Disk1Works f → Copy1 disk' blockno ≡ Copy1 disk blockno
  pub others : (b : ℕ) → b ≢ blockno → b ≢ blockno + disk1_start_block → disk' b ≡ disk b

eqb_cases : (a b : ℤ) → ((a ≡ b) × (eqb_ℤ a b ≡ true)) ⊎ ((a ≢ b) × (eqb_ℤ a b ≡ false))
eqb_cases a b = elim (Bool-cases (eqb_ℤ a b)) [
  | inl e ↦ inl (eq_of_parts a b (ground arith), e)
  | inr e ↦ inr (λ eq. let t : eqb_ℤ a b ≡ true = rw eq (ground arith) in cc, e)
]

-- The test of `bread` and `bwrite` for a failed first copy.
abbrev pub fails0 : Faults → ℕ → Bool
fails0 f b = eqb_ℤ f.disk_fail_id (pos 0) || is_bad_block f b

pub fails0_cases :
    (f : Faults) (b : ℕ)
    → (Disk0Works f b × (fails0 f b ≡ false)) ⊎ ((¬ Disk0Works f b) × (fails0 f b ≡ true))
fails0_cases f b = elim (eqb_cases f.disk_fail_id (pos 0)) [
  | inl d ↦ inr (λ w. w.0 d.0, rw d.1)
  | inr d ↦ elim (eqb_cases f.read_error_pbn (pos b)) [
    | inl p ↦ inr (λ w. w.1 p.0, ground (arith, d.1, p.1))
    | inr p ↦ inl ((d.0, p.0), ground (arith, d.1, p.1))
  ]
]

-- What `mirror_write` leaves, by its two tests.
mirror_write-at :
    (f : Faults) (b : ℕ) (v : Block) (disk : ℕ → Block)
    → (Copy0 (mirror_write f b v disk) b ≡ (if fails0 f b then disk b else v))
      × (Copy1 (mirror_write f b v disk) b
          ≡ (if eqb_ℤ f.disk_fail_id (pos 1) then disk (b + 2048) else v))
      × ((c : ℕ) → c ≢ b → c ≢ b + 2048 → mirror_write f b v disk c ≡ disk c)
unfolding mirror_write
mirror_write-at f b v disk = (ground arith, ground arith, λ c n m. ground arith)

-- On every setting of the two simulation flags, after a write of a logical block its first copy
-- holds the new contents if disk 0 works and the old ones if not, its second copy likewise by disk
-- 1, and every other physical block keeps its contents.
pub mirror_write-Mirrored :
    (f : Faults) (b : ℕ) (v : Block) (disk : ℕ → Block)
    → Mirrored f disk b v (mirror_write f b v disk)
mirror_write-Mirrored f b v disk =
    let (c0, c1, o) = mirror_write-at f b v disk in
    record {
      first = λ w. c0 ∙ elim (fails0_cases f b) [ inl d ↦ rw d.1 | inr d ↦ absurd (d.0 w) ];
      first_kept = λ n. c0 ∙ elim (fails0_cases f b) [ inl d ↦ absurd (n d.0) | inr d ↦ rw d.1 ];
      second = λ w.
          c1 ∙ elim (eqb_cases f.disk_fail_id (pos 1)) [ inl d ↦ absurd (w d.0) | inr d ↦ rw d.1 ];
      second_kept = λ n.
          c1 ∙ elim (eqb_cases f.disk_fail_id (pos 1)) [ inl d ↦ rw d.1 | inr d ↦ absurd (n d.0) ];
      others = o;
    }
