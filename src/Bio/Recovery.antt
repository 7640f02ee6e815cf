-- ===== src/Bio/Recovery.antt =====
-- What `bread` of FileSystem-RAID/kernel/bio.c reads back after a `bwrite`, when a disk fails.
use xv6_kernel_extensions.Prelude.{
  ℕ, ◌+◌, ◌<◌, true, false, ltb, update, ◌≡◌, refl, arith, ◌⊎◌, inl, inr, Bool-cases, ◌∙◌, lt→ltb,
  update_self, ltb→lt, ap, ◌≤◌, subst,
}
use xv6_kernel_extensions.Bio.{
  Block, Buf, Faults, Cache, Outcome, returns, panics, read_from, mirror_write, bwrite, holds,
  disk1_start_block, logical_disk_size, fill,
}
use xv6_kernel_extensions.Bio.Raid.{
  Disk0Works, Disk1Works, Mirrored, mirror_write-Mirrored, fails0_cases,
}

-- Where `bread` reads a logical block.
pub read_from_lem :
    (f : Faults) (b : ℕ)
    → b < logical_disk_size
    → (Disk0Works f b × (read_from f b ≡ b))
      ⊎ ((¬ Disk0Works f b) × (read_from f b ≡ b + disk1_start_block))
unfolding read_from
read_from_lem f b h =
    let t : ltb b logical_disk_size ≡ true = lt→ltb b logical_disk_size h in
    elim (fails0_cases f b) [
      | inl w ↦ inl (w.0, rw (t, w.1) refl)
      | inr w ↦ inr (w.0, rw (t, w.1) refl)
    ]

module _ (f f' : Faults) (disk disk' : ℕ → Block) (b : ℕ) (v : Block) (h : b < logical_disk_size)
    (m : Mirrored f disk b v disk') where
  -- Written while both disks work, a block is read back whatever fails later.
  read_after_healthy : Disk0Works f b → Disk1Works f → disk' (read_from f' b) ≡ v
  read_after_healthy w0 w1 = elim (read_from_lem f' b h) [
    | inl r ↦ rw r.1 (m.first w0)
    | inr r ↦ rw r.1 (m.second w1)
  ]

  -- Written without disk 0, a block is read from the old first copy once disk 0 works again.
  read_after_repair : ¬ Disk0Works f b → Disk0Works f' b → disk' (read_from f' b) ≡ disk b
  read_after_repair n w = elim (read_from_lem f' b h) [
    | inl r ↦ rw r.1 (m.first_kept n)
    | inr r ↦ absurd (r.0 w)
  ]

  read_degraded : (Disk0Works f b) ⊎ (Disk1Works f) → disk' (read_from f b) ≡ v
  read_degraded w = elim (read_from_lem f b h) [
    | inl r ↦ rw r.1 (m.first r.0)
    | inr r ↦ elim w [ inl w0 ↦ absurd (r.0 w0) | inr w1 ↦ rw r.1 (m.second w1) ]
  ]

-- What `bwrite` makes of the disk: a block of the logical disk is mirrored, any other block is
-- written in its place.
abbrev pub DiskWritten : Cache → ℕ → (ℕ → Block) → Type 0
DiskWritten s b disk' =
    (((s.bufs b).blockno < logical_disk_size)
      × Mirrored s.faults s.disk (s.bufs b).blockno (s.bufs b).contents disk')
    ⊎ ((logical_disk_size ≤ (s.bufs b).blockno)
        × (disk' ≡ update s.disk (s.bufs b).blockno (s.bufs b).contents))

-- `bwrite` by a process that does not hold the buffer panics. By its holder it changes nothing but
-- the disk.
pub data BwriteOutcome (me b : ℕ) (s : Cache) (o : Outcome Cache) : Type 0 where
  refused : holds (s.bufs b).lock me ≡ false → o ≡ panics → BwriteOutcome me b s o
  written :
      (disk' : ℕ → Block)
      → holds (s.bufs b).lock me ≡ true
      → o ≡ returns (record s { disk = disk' })
      → DiskWritten s b disk'
      → BwriteOutcome me b s o

-- `bwrite` panics for a process that does not hold the buffer's sleep lock. For the holder it
-- returns and changes nothing but the disk: it mirrors a block of the logical disk, and writes any
-- other block in its place.
pub bwrite-BwriteOutcome : (me b : ℕ) (s : Cache) → BwriteOutcome me b s (bwrite me b s)
unfolding bwrite
bwrite-BwriteOutcome me b s = elim (Bool-cases (holds (s.bufs b).lock me)) [
  | inr e ↦ refused e (rw e)
  | inl e ↦ elim (Bool-cases (ltb (s.bufs b).blockno logical_disk_size)) [
    | inl l ↦
        written (mirror_write s.faults (s.bufs b).blockno (s.bufs b).contents s.disk) e (rw (e, l))
          (inl (
            ltb→lt (s.bufs b).blockno logical_disk_size l,
            mirror_write-Mirrored s.faults (s.bufs b).blockno (s.bufs b).contents s.disk,
          ))
    | inr l ↦
        written (update s.disk (s.bufs b).blockno (s.bufs b).contents) e (rw (e, l))
          (inr (ground (arith, l), refl))
  ]
]

-- What `bread` gets for a buffer that holds nothing yet, from a cache with this disk.
pub fill-reads :
    (b : ℕ) (s : Cache)
    → (s.bufs b).valid ≡ false
    → (((fill b s).bufs b).contents ≡ s.disk (read_from s.faults (s.bufs b).blockno))
      × (((fill b s).bufs b).valid ≡ true)
unfolding fill
fill-reads b s e = rw e (
  ap (λ (v : Buf). v.contents) (update_self s.bufs b _),
  ap (λ (v : Buf). v.valid) (update_self s.bufs b _),
)

wrote-Mirrored :
    (me b : ℕ) (s t : Cache)
    → (s.bufs b).blockno < logical_disk_size
    → bwrite me b s ≡ returns t
    → Mirrored s.faults s.disk (s.bufs b).blockno (s.bufs b).contents t.disk
wrote-Mirrored me b s t l e = from_outcome (bwrite me b s) e (bwrite-BwriteOutcome me b s)
  where
    from_outcome :
        (o : Outcome Cache)
        → o ≡ returns t
        → BwriteOutcome me b s o
        → Mirrored s.faults s.disk (s.bufs b).blockno (s.bufs b).contents t.disk
    from_outcome o e (refused h p) = absurd (cc)
    from_outcome o e (written disk' h p (inl w)) =
        let same : disk' ≡ t.disk = ground arith in
        subst (λ d. Mirrored s.faults s.disk (s.bufs b).blockno (s.bufs b).contents d) same w.1
    from_outcome o e (written disk' h p (inr w)) = absurd (omega (arith, l, w.0))

-- A write of a logical block from the cache `s`, and a later read of the block into an empty
-- buffer of a cache `s'` that has the disk which the write left, under the faults of then.
pub record WroteThenRead (me b b' : ℕ) (s t s' : Cache) : Type 0 where
  pub wrote : bwrite me b s ≡ returns t
  pub logical : (s.bufs b).blockno < logical_disk_size
  pub same_disk : s'.disk ≡ t.disk
  pub same_block : (s'.bufs b').blockno ≡ (s.bufs b).blockno
  pub empty : (s'.bufs b').valid ≡ false

abbrev pub got : ℕ → Cache → Block
got b' s' = ((fill b' s').bufs b').contents

module _ (me b b' : ℕ) (s t s' : Cache) (w : WroteThenRead me b b' s t s') where
  got-at : got b' s' ≡ t.disk (read_from s'.faults (s.bufs b).blockno)
  got-at = (fill-reads b' s' w.empty).0 ∙ rw (w.same_block, w.same_disk)

  mirrored : Mirrored s.faults s.disk (s.bufs b).blockno (s.bufs b).contents t.disk
  mirrored = wrote-Mirrored me b s t w.logical w.wrote

  -- A block that was written while both disks worked is read back as it was written, whatever
  -- faults are simulated when it is read.
  pub fill_after_healthy :
      Disk0Works s.faults (s.bufs b).blockno → Disk1Works s.faults → got b' s' ≡ (s.bufs b).contents
  fill_after_healthy w0 w1 =
      got-at
      ∙ read_after_healthy s.faults s'.faults s.disk t.disk (s.bufs b).blockno (s.bufs b).contents
          w.logical mirrored w0 w1

  -- Under the faults of the write, a block is read back as it was written if the write reached one
  -- of the two copies.
  pub fill_degraded :
      s'.faults ≡ s.faults
      → Disk0Works s.faults (s.bufs b).blockno ⊎ Disk1Works s.faults
      → got b' s' ≡ (s.bufs b).contents
  fill_degraded e d =
      got-at
      ∙ rw e (
          read_degraded s.faults s.faults s.disk t.disk (s.bufs b).blockno (s.bufs b).contents
            w.logical mirrored d)

  -- A block that was written while its first copy failed is read as it was before that write, once
  -- the first copy works again: nothing copies the second copy back.
  pub fill_after_repair :
      ¬ Disk0Works s.faults (s.bufs b).blockno
      → Disk0Works s'.faults (s.bufs b).blockno
      → got b' s' ≡ s.disk (s.bufs b).blockno
  fill_after_repair n d =
      got-at
      ∙ read_after_repair s.faults s'.faults s.disk t.disk (s.bufs b).blockno (s.bufs b).contents
          w.logical mirrored n d
