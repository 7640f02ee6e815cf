-- ===== src/Pipe.antt =====
-- FileSystem-RAID/kernel/pipe.c: the ring buffer of a pipe. Counters are uints. User memory is a
-- function from an address to its byte, `none` where `copyin` fails; `copyout` fails at the
-- addresses that `writable` refuses. A call that goes to sleep `waits`, and is made again from
-- there when it wakes up.
pub mod Queue
pub mod Transfer
mod Tests
use xv6_kernel_extensions.Prelude.{
  ℕ, zero, suc, ◌+◌, ◌-◌, ◌*◌, ◌%◌, ◌^◌, Bool, true, false, not, Option, none, some, List, [], ◌∷◌,
  ◌==◌, ltb, leb, if◌then◌else◌, update, length, ◌||◌, ◌&&◌,
}

abbrev pub pipesize : ℕ
pipesize = 512

pub record Pipe : Type 0 where
  pub contents : ℕ → ℕ
  pub nread : ℕ
  pub nwrite : ℕ
  pub readopen : Bool
  pub writeopen : Bool

-- The fields that `pipealloc` sets in a fresh page.
unfoldable pub pipealloc : (ℕ → ℕ) → Pipe
pipealloc contents = record {
  contents = contents;
  nread = 0;
  nwrite = 0;
  readopen = true;
  writeopen = true;
}

-- The pipe, and whether `pipeclose` frees it.
unfoldable pub pipeclose : Bool → Pipe → Pipe × Bool
pipeclose writable p =
    let p' = if writable then record p { writeopen = false } else record p { readopen = false } in
    (p', not p'.readopen && not p'.writeopen)

-- `writes i` and `reads bytes` for a return of the count.
pub data WriteTurn : Type 0 where
  writes : ℕ → WriteTurn
  write_waits : ℕ → WriteTurn
  write_fails : WriteTurn

unfoldable pub is_full : Pipe → Bool
is_full p = p.nwrite == (p.nread + pipesize) % 2 ^ 32

unfoldable pub put_byte : ℕ → Pipe → Pipe
put_byte ch p = record p {
  contents = update p.contents (p.nwrite % pipesize) ch;
  nwrite = (p.nwrite + 1) % 2 ^ 32;
}

-- The loop of `pipewrite` from `i`, with `m` bytes to go.
unfoldable pub write_loop : ℕ → Bool → (ℕ → Option ℕ) → ℕ → ℕ → Pipe → WriteTurn × Pipe
write_loop zero killed mem addr i p = (writes i, p)
write_loop (suc m) killed mem addr i p =
    let next : WriteTurn × Pipe = elim (mem (addr + i)) [
      | none ↦ (writes i, p)
      | some ch ↦ write_loop m killed mem addr (i + 1) (put_byte ch p)
    ] in
    if is_full p
    then (if not p.readopen || killed then (write_fails, p) else (write_waits i, p))
    else next

unfoldable pub pipewrite : Bool → (ℕ → Option ℕ) → ℕ → ℕ → Pipe → WriteTurn × Pipe
pipewrite killed mem addr n p = write_loop n killed mem addr 0 p

pub data ReadTurn : Type 0 where
  reads : List ℕ → ReadTurn
  read_waits : ReadTurn
  read_fails : ReadTurn

unfoldable pub is_drained : Pipe → Bool
is_drained p = p.nread == p.nwrite

unfoldable pub next_byte : Pipe → ℕ
next_byte p = p.contents (p.nread % pipesize)

unfoldable pub take_byte : Pipe → Pipe
take_byte p = record p { nread = (p.nread + 1) % 2 ^ 32 }

-- The copying loop of `piperead`: the bytes that reach user memory at `addr` and on.
unfoldable pub read_loop : ℕ → (ℕ → Bool) → ℕ → Pipe → List ℕ × Pipe
read_loop zero writable addr p = ([], p)
read_loop (suc m) writable addr p =
    let rest = read_loop m writable (addr + 1) (take_byte p) in
    if is_drained p
    then ([], p)
    else if writable addr
    then (next_byte p ∷ rest.0, rest.1)
    else ([], take_byte p)

unfoldable pub piperead : Bool → (ℕ → Bool) → ℕ → ℕ → Pipe → ReadTurn × Pipe
unfolding read_loop
piperead killed writable addr n p =
    let copied = read_loop n writable addr p in
    if is_drained p && p.writeopen
    then (if killed then (read_fails, p) else (read_waits, p))
    else (reads copied.0, copied.1)
