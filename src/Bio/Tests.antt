-- ===== src/Bio/Tests.antt =====
-- Runs of the buffer cache of FileSystem-RAID/kernel/bio.c.
use xv6_kernel_extensions.Prelude.{
  pos, negsuc, true, false, [], ◌∷◌, none, some, ◌≡◌, refl, arith, inr, update,
}
use xv6_kernel_extensions.Bio.{
  Block, Buf, Faults, Cache, returns, binit, bget, bwrite, mirror_write, find_buf, find_last,
  acquire_buf, recycle, bget_unused, bget_cached, set_buf,
}
use xv6_kernel_extensions.Bio.Raid.{Mirrored, mirror_write-Mirrored}
use xv6_kernel_extensions.Bio.Recovery.{
  BwriteOutcome, bwrite-BwriteOutcome, WroteThenRead, got, fill_after_healthy, fill_degraded,
  fill_after_repair,
}
use xv6_kernel_extensions.Bio.Get.{BgetOutcome, bget-BgetOutcome}
use xv6_kernel_extensions.Bio.Invariant.{IsValid}
use xv6_kernel_extensions.Bio.Reach.{here, next, gets, Reach-IsValid}

abbrev ones : Block
ones w = 1

abbrev zeroes : Block
zeroes w = 0

abbrev blank_buf : Buf
blank_buf = record {
  valid = false;
  dev = 0;
  blockno = 0;
  lock = none;
  refcnt = 0;
  contents = zeroes;
}

abbrev healthy : Faults
healthy = record { disk_fail_id = negsuc 0; read_error_pbn = negsuc 0 }

abbrev disk0_failed : Faults
disk0_failed = record { disk_fail_id = pos 0; read_error_pbn = negsuc 0 }

abbrev booted : Cache
booted = binit (λ p. blank_buf) (λ b. zeroes) healthy

-- Process 7 holds buffer 3 with block 100, which it has changed.
abbrev dirty : Cache
dirty = record {
  bufs =
      update (λ p. blank_buf) 3
        (record {
          valid = true;
          dev = 1;
          blockno = 100;
          lock = some 7;
          refcnt = 1;
          contents = ones;
        });
  order = 3 ∷ 2 ∷ [];
  disk = λ b. zeroes;
  faults = healthy;
}

abbrev dirty_degraded : Cache
dirty_degraded = record dirty { faults = disk0_failed }

-- What a write under the faults of `s` leaves, with an empty buffer 2 for block 100, and other faults.
abbrev emptied : Cache → Faults → Cache
emptied s f = record {
  bufs = update s.bufs 2 (record blank_buf { dev = 1; blockno = 100; lock = some 8; refcnt = 1 });
  order = s.order;
  disk = mirror_write s.faults 100 ones s.disk;
  faults = f;
}

abbrev written_to : Cache → Cache
written_to s = record s { disk = mirror_write s.faults 100 ones s.disk }

mirror_write_example :
    Mirrored disk0_failed (λ b. zeroes) 100 ones (mirror_write disk0_failed 100 ones (λ b. zeroes))
mirror_write_example = mirror_write-Mirrored disk0_failed 100 ones (λ b. zeroes)

bwrite_example : BwriteOutcome 7 3 dirty (bwrite 7 3 dirty)
bwrite_example = bwrite-BwriteOutcome 7 3 dirty

wrote_healthy : WroteThenRead 7 3 2 dirty (written_to dirty) (emptied dirty disk0_failed)
unfolding bwrite
wrote_healthy = record {
  wrote = refl;
  logical = omega arith;
  same_disk = refl;
  same_block = refl;
  empty = refl;
}

wrote_degraded :
    (f : Faults)
    → WroteThenRead 7 3 2 dirty_degraded (written_to dirty_degraded) (emptied dirty_degraded f)
unfolding bwrite
wrote_degraded f = record {
  wrote = refl;
  logical = omega arith;
  same_disk = refl;
  same_block = refl;
  empty = refl;
}

fill_after_healthy_example : got 2 (emptied dirty disk0_failed) ≡ ones
fill_after_healthy_example =
    fill_after_healthy 7 3 2 dirty (written_to dirty) (emptied dirty disk0_failed) wrote_healthy
      ((λ e. cc), (λ e. cc)) (λ e. cc)

fill_degraded_example : got 2 (emptied dirty_degraded disk0_failed) ≡ ones
fill_degraded_example =
    fill_degraded 7 3 2 dirty_degraded (written_to dirty_degraded)
      (emptied dirty_degraded disk0_failed) (wrote_degraded disk0_failed) refl (inr (λ e. cc))

fill_after_repair_example : got 2 (emptied dirty_degraded healthy) ≡ zeroes
fill_after_repair_example =
    fill_after_repair 7 3 2 dirty_degraded (written_to dirty_degraded)
      (emptied dirty_degraded healthy) (wrote_degraded healthy) (λ w. w.0 refl)
      ((λ e. cc), (λ e. cc))

bget_example : BgetOutcome 7 1 100 booted (bget 7 1 100 booted)
bget_example = bget-BgetOutcome 7 1 100 booted

-- The cache after process 7 asked for block 100 of device 1: buffer 0 is the last of the list.
abbrev first_got : Cache
first_got =
    set_buf (recycle booted 1 100 0) 0 (record ((recycle booted 1 100 0).bufs 0) { lock = some 7 })

first_bget : bget 7 1 100 booted ≡ returns (true, 0, first_got)
unfolding bget bget_cached bget_unused find_buf find_last acquire_buf recycle set_buf binit
first_bget = refl

Reach-IsValid_example : IsValid first_got
Reach-IsValid_example =
    Reach-IsValid (λ p. blank_buf) (λ b. zeroes) healthy first_got (λ p. refl)
      (next here (gets 7 1 100 true 0 first_bget))
