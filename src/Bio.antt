-- ===== src/Bio.antt =====
-- FileSystem-RAID/kernel/bio.c: the buffer cache, which mirrors every block of the logical disk.
-- A `struct buf *` is the buffer's index in `bcache.buf`; the list behind `bcache.head` is the list
-- of the indices, most recently used first. The disk is what `virtio_disk_rw` reads and writes: a
-- block of 256 words for each physical block number. The functions are those of one process, `me`:
-- where another process holds the sleep lock of the buffer that it has taken a reference of, `bget`
-- and `bread` return the buffer and the state in which the process waits.
pub mod Raid
pub mod Recovery
pub mod Find
pub mod Get
pub mod Invariant
pub mod Reach
mod Tests
use xv6_kernel_extensions.Prelude.{
  ℕ, zero, suc, ◌+◌, ◌-◌, ◌%◌, ◌^◌, ℤ, pos, negsuc, Bool, true, false, not, List, [], ◌∷◌, Option,
  none, some, ◌||◌, ◌&&◌, ◌==◌, ltb, eqb_ℤ, if◌then◌else◌, update,
}
use xv6_kernel_extensions.Links.{list_del}

-- `uchar data[BSIZE]`, read as 256 words.
abbrev pub Block : Type 0
Block = ℕ → ℕ

-- `lock` is the pid that holds the sleep lock.
pub record Buf : Type 0 where
  pub valid : Bool
  pub dev : ℕ
  pub blockno : ℕ
  pub lock : Option ℕ
  pub refcnt : ℕ
  pub contents : Block

-- The two simulation flags, which are -1 where nothing fails.
pub record Faults : Type 0 where
  pub disk_fail_id : ℤ
  pub read_error_pbn : ℤ

pub record Cache : Type 0 where
  pub bufs : ℕ → Buf
  pub order : List ℕ
  pub disk : ℕ → Block
  pub faults : Faults

pub data Outcome (A : Type 0) : Type 0 where
  returns : A → Outcome A
  panics : Outcome A
  sleeps : Outcome A

infixl 5 ◌>>=◌ ◌>>◌
abbrev pub ◌>>=◌ : {A B : Type 0} → Outcome A → (A → Outcome B) → Outcome B
returns a >>= f = f a
panics >>= f = panics
sleeps >>= f = sleeps

abbrev pub ◌>>◌ : {B : Type 0} → Outcome (Unit {0}) → Outcome B → Outcome B
m >> k = m >>= λ _. k

abbrev pub check : Bool → Outcome (Unit {0})
check true = returns tt
check false = panics

abbrev pub nbuf : ℕ
nbuf = 30

abbrev pub logical_disk_size : ℕ
logical_disk_size = 2048

abbrev pub disk1_start_block : ℕ
disk1_start_block = 2048

-- `refcnt` is a uint.
abbrev pub inc : ℕ → ℕ
inc n = (n + 1) % 2 ^ 32

abbrev pub dec : ℕ → ℕ
dec n = (n + 4294967295) % 2 ^ 32

-- `binit` puts each buffer at the head of the list in turn.
unfoldable pub link_buffers : ℕ → ℕ → List ℕ → List ℕ
link_buffers zero b order = order
link_buffers (suc n) b order = link_buffers n (b + 1) (b ∷ order)

unfoldable pub binit : (ℕ → Buf) → (ℕ → Block) → Faults → Cache
unfolding link_buffers
binit bufs disk faults = record {
  bufs = bufs;
  order = link_buffers nbuf 0 [];
  disk = disk;
  faults = faults;
}

unfoldable pub set_buf : Cache → ℕ → Buf → Cache
set_buf s b v = record s { bufs = update s.bufs b v }

-- The first buffer of a list that passes a test.
unfoldable pub find_buf : (Buf → Bool) → (ℕ → Buf) → List ℕ → Option ℕ
find_buf test bufs [] = none
find_buf test bufs (b ∷ l) =
    let rest = find_buf test bufs l in if test (bufs b) then some b else rest

-- The first from the other end, as a loop along the `prev` links finds it.
unfoldable pub find_last : (Buf → Bool) → (ℕ → Buf) → List ℕ → Option ℕ
find_last test bufs [] = none
find_last test bufs (b ∷ l) = elim (find_last test bufs l) [
  | some c ↦ some c
  | none ↦ if test (bufs b) then some b else none
]

abbrev pub is_cached : ℕ → ℕ → Buf → Bool
is_cached dev blockno b = b.dev == dev && b.blockno == blockno

abbrev pub is_unused : Buf → Bool
is_unused b = b.refcnt == 0

-- `acquiresleep(&b->lock)`, and `return b`: true if the lock is now the caller's, false where the
-- caller waits with the state as it is and tries again after a wakeup.
unfoldable pub acquire_buf : ℕ → ℕ → Cache → Outcome (Bool × ℕ × Cache)
unfolding set_buf
acquire_buf me b s = elim (s.bufs b).lock [
  | none ↦ returns (true, b, set_buf s b (record (s.bufs b) { lock = some me }))
  | some pid ↦ returns (false, b, s)
]

unfoldable pub recycle : Cache → ℕ → ℕ → ℕ → Cache
unfolding set_buf
recycle s dev blockno b =
    set_buf s b (record (s.bufs b) { dev = dev; blockno = blockno; valid = false; refcnt = 1 })

unfoldable pub bget_unused : ℕ → ℕ → ℕ → Cache → Option ℕ → Outcome (Bool × ℕ × Cache)
bget_unused me dev blockno s none = panics
bget_unused me dev blockno s (some b) = acquire_buf me b (recycle s dev blockno b)

unfoldable pub bget_cached : ℕ → ℕ → ℕ → Cache → Option ℕ → Outcome (Bool × ℕ × Cache)
bget_cached me dev blockno s none =
    bget_unused me dev blockno s (find_last is_unused s.bufs s.order)
bget_cached me dev blockno s (some b) =
    acquire_buf me b (set_buf s b (record (s.bufs b) { refcnt = inc (s.bufs b).refcnt }))

unfoldable pub bget : ℕ → ℕ → ℕ → Cache → Outcome (Bool × ℕ × Cache)
bget me dev blockno s =
    bget_cached me dev blockno s (find_buf (is_cached dev blockno) s.bufs s.order)

-- `force_read_error_pbn != -1 && force_read_error_pbn == pbn0`
abbrev pub is_bad_block : Faults → ℕ → Bool
is_bad_block f pbn0 = not (eqb_ℤ f.read_error_pbn (negsuc 0)) && eqb_ℤ f.read_error_pbn (pos pbn0)

-- The physical block that `bread` reads.
unfoldable pub read_from : Faults → ℕ → ℕ
read_from f blockno =
    if ltb blockno logical_disk_size && (eqb_ℤ f.disk_fail_id (pos 0) || is_bad_block f blockno)
    then blockno + disk1_start_block
    else blockno

unfoldable pub fill : ℕ → Cache → Cache
unfolding set_buf
fill b s =
    if (s.bufs b).valid
    then s
    else set_buf s b (record (s.bufs b) {
      contents = s.disk (read_from s.faults (s.bufs b).blockno);
      valid = true;
    })

-- A caller that waits for the buffer fills it after the lock is its own.
unfoldable pub bread : ℕ → ℕ → ℕ → Cache → Outcome (Bool × ℕ × Cache)
bread me dev blockno s = do
  (locked, b, s') ← bget me dev blockno s
  returns (locked, b, if locked then fill b s' else s')

-- `holdingsleep(&b->lock)`
abbrev pub holds : Option ℕ → ℕ → Bool
holds none me = false
holds (some pid) me = pid == me

-- The two writes of `bwrite`, each skipped where its copy is simulated as failed.
unfoldable pub mirror_write : Faults → ℕ → Block → (ℕ → Block) → ℕ → Block
mirror_write f pbn0 contents disk =
    let pbn1 = pbn0 + disk1_start_block in
    let disk0 =
      if eqb_ℤ f.disk_fail_id (pos 0) || is_bad_block f pbn0
      then disk
      else update disk pbn0 contents in
    if eqb_ℤ f.disk_fail_id (pos 1) then disk0 else update disk0 pbn1 contents

unfoldable pub bwrite : ℕ → ℕ → Cache → Outcome Cache
bwrite me b s = do
  check (holds (s.bufs b).lock me)
  let v = s.bufs b
  returns (record s {
    disk =
        if ltb v.blockno logical_disk_size
        then mirror_write s.faults v.blockno v.contents s.disk
        else update s.disk v.blockno v.contents;
  })

-- The reference goes; the last one moves the buffer to the front of the list.
unfoldable pub brelse : ℕ → ℕ → Cache → Outcome Cache
unfolding set_buf
brelse me b s = do
  check (holds (s.bufs b).lock me)
  let n = dec (s.bufs b).refcnt
  let s' = set_buf s b (record (s.bufs b) { lock = none; refcnt = n })
  returns (if n == 0 then record s' { order = b ∷ list_del b s.order } else s')

unfoldable pub bpin : ℕ → Cache → Cache
unfolding set_buf
bpin b s = set_buf s b (record (s.bufs b) { refcnt = inc (s.bufs b).refcnt })

unfoldable pub bunpin : ℕ → Cache → Cache
unfolding set_buf
bunpin b s = set_buf s b (record (s.bufs b) { refcnt = dec (s.bufs b).refcnt })
