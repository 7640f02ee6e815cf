-- ===== src/Log.antt =====
-- FileSystem-RAID/kernel/log.c: the write-ahead log. The log sees the disk through the buffer
-- cache: `bread` gives the cached contents of a block, `bwrite` puts them on the disk. `power` is
-- the number of disk writes until a crash: a write after it is lost, so that every crash is a run
-- with some `power`. The in-memory header `lh` is the list of `lh.block[0 .. lh.n)`.
pub mod Writes
pub mod Crash
pub mod Values
pub mod Commit
pub mod Replay
pub mod Atomic
pub mod Space
pub mod Tests
use xv6_kernel_extensions.Prelude.{
  ℕ, zero, suc, ◌+◌, ◌-◌, ◌*◌, Bool, true, false, List, [], ◌∷◌, ◌==◌, ltb, leb, if◌then◌else◌,
  update, length, ◌||◌,
}

-- A block of 256 words.
abbrev pub Block : Type 0
Block = ℕ → ℕ

pub record Store : Type 0 where
  pub cached : ℕ → Block
  pub disk : ℕ → Block
  pub power : ℕ

unfoldable pub write_block : ℕ → Block → Store → Store
write_block b v s = record {
  cached = update s.cached b v;
  disk = if s.power == 0 then s.disk else update s.disk b v;
  power = s.power - 1;
}

abbrev pub logsize : ℕ
logsize = 30

abbrev pub maxopblocks : ℕ
maxopblocks = 10

pub record Log : Type 0 where
  pub start : ℕ
  pub size : ℕ
  pub outstanding : ℕ
  pub committing : Bool
  pub blocks : List ℕ

-- `lbuf` is the log block from `a` on, `dbuf` its home.
unfoldable pub install_from : ℕ → List ℕ → Store → Store
install_from a [] s = s
install_from a (b ∷ bs) s = install_from (a + 1) bs (write_block b (s.cached a) s)

unfoldable pub install_trans : Log → Store → Store
unfolding install_from
install_trans log s = install_from (log.start + 1) log.blocks s

-- The header in a block: the count, then the block numbers.
unfoldable pub words : ℕ → ℕ → Block → List ℕ
words zero i v = []
words (suc n) i v = v i ∷ words n (i + 1) v

unfoldable pub read_head : Log → Store → Log
unfolding words
read_head log s = let hb = s.cached log.start in record log { blocks = words (hb 0) 1 hb }

unfoldable pub put_words : ℕ → List ℕ → Block → Block
put_words i [] v = v
put_words i (b ∷ bs) v = put_words (i + 1) bs (update v i b)

unfoldable pub header : List ℕ → Block → Block
unfolding put_words
header blocks v = put_words 1 blocks (update v 0 (length blocks))

unfoldable pub write_head : Log → Store → Store
write_head log s = write_block log.start (header log.blocks (s.cached log.start)) s

unfoldable pub recover_from_log : Log → Store → Log × Store
recover_from_log log s =
    let log' = read_head log s in
    let cleared = record log' { blocks = [] } in
    (cleared, write_head cleared (install_trans log' s))

unfoldable pub write_from : ℕ → List ℕ → Store → Store
write_from a [] s = s
write_from a (b ∷ bs) s = write_from (a + 1) bs (write_block a (s.cached b) s)

unfoldable pub write_log : Log → Store → Store
unfolding write_from
write_log log s = write_from (log.start + 1) log.blocks s

abbrev pub is_empty : List ℕ → Bool
is_empty [] = true
is_empty (b ∷ bs) = false

unfoldable pub commit : Log → Store → Log × Store
commit log s =
    let cleared = record log { blocks = [] } in
    if is_empty log.blocks
    then (log, s)
    else (cleared, write_head cleared (install_trans log (write_head log (write_log log s))))

-- Whether a call goes on, waits to be woken, or panics.
pub data Outcome (A : Type 0) : Type 0 where
  returns : A → Outcome A
  sleeps : Outcome A
  panics : Outcome A

-- One turn of the loop of `begin_op`, which is made again after a wakeup.
unfoldable pub begin_op : Log → Outcome Log
begin_op log =
    if log.committing
    then sleeps
    else if ltb logsize (length log.blocks + (log.outstanding + 1) * maxopblocks)
    then sleeps
    else returns (record log { outstanding = log.outstanding + 1 })

-- Up to the release of the lock: the log, and whether to commit.
unfoldable pub end_op_locked : Log → Outcome (Log × Bool)
end_op_locked log =
    let left = log.outstanding - 1 in
    if log.committing
    then panics
    else if left == 0
    then returns (record log { outstanding = left; committing = true }, true)
    else returns (record log { outstanding = left }, false)

unfoldable pub finish_op : Log × Bool → Store → Log × Store
finish_op (log, false) s = (log, s)
finish_op (log, true) s = let (log', s') = commit log s in (record log' { committing = false }, s')

unfoldable pub end_op : Log → Store → Outcome (Log × Store)
unfolding end_op_locked finish_op
end_op log s = elim (end_op_locked log) [
  | returns r ↦ returns (finish_op r s)
  | sleeps ↦ sleeps
  | panics ↦ panics
]

-- The search of `log_write`, and the append where the block is not in the log yet.
unfoldable pub absorb : ℕ → List ℕ → List ℕ
absorb b [] = b ∷ []
absorb b (x ∷ bs) = let rest = absorb b bs in if x == b then x ∷ bs else x ∷ rest

unfoldable pub log_write : ℕ → Log → Outcome Log
unfolding absorb
log_write b log =
    let n = length log.blocks in
    if leb logsize n || leb (log.size - 1) n
    then panics
    else if ltb log.outstanding 1
    then panics
    else returns (record log { blocks = absorb b log.blocks })
