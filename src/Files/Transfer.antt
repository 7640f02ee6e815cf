-- ===== src/Files/Transfer.antt =====
-- `fileread`, `filewrite` and `filestat` of FileSystem-RAID/kernel/file.c, and the system calls on
-- them. The process has the page table `pagetable` and the memory is `r`. `devsw` is the table of the
-- drivers, which is an argument. A call on a pipe that goes to sleep `waits`, with the bytes that it
-- has transferred.
use xv6_kernel_extensions.Prelude.{
  ℕ, zero, suc, ◌+◌, ◌-◌, ◌/◌, ◌%◌, ◌^◌, ℤ, pos, negsuc, pos_part, ltb_ℤ, leb_ℤ, eqb_ℤ, Bool, not,
  Option, none, some, List, [], ◌∷◌, length, ◌==◌, ltb, ◌||◌, if◌then◌else◌, update,
}
use xv6_kernel_extensions.Bio.{Outcome, returns, panics, ◌>>=◌, ◌>>◌, check}
use xv6_kernel_extensions.Pipe.{
  Pipe, WriteTurn, writes, write_waits, write_fails, pipewrite, ReadTurn, reads, read_waits,
  read_fails, piperead,
}
use xv6_kernel_extensions.Icache.{ilock, iunlock}
use xv6_kernel_extensions.Vm.{Ram, pgrounddown, walkaddr}
use xv6_kernel_extensions.Vm.Copy.{copyout}
use xv6_kernel_extensions.Contents.{Place, user_memory, kernel_memory, readi, writei, Stat, stati}
use xv6_kernel_extensions.Files.{fd_none, fd_pipe, fd_inode, fd_device, Kernel, set_file, argfd}

-- The process that calls.
pub record Process : Type 0 where
  pub me : ℕ
  pub killed : Bool
  pub pagetable : ℕ

-- `struct devsw`: the functions of a driver, where it has them.
pub record Driver : Type 0 where
  pub read : Option (ℕ → ℤ → Ram → Outcome (ℤ × Ram))
  pub write : Option (ℕ → ℤ → Ram → Outcome (ℤ × Ram))

pub data Turn : Type 0 where
  finishes : ℤ → Turn
  waits : ℕ → Turn

abbrev pub State : Type 0
State = Turn × Kernel × Ram

-- A negative int as a uint.
abbrev pub to_uint : ℤ → ℕ
to_uint (pos n) = n % 2 ^ 32
to_uint (negsuc n) = 2 ^ 32 - 1 - n % 2 ^ 32

abbrev pub is_mapped : ℕ → Ram → ℕ → Bool
is_mapped pagetable r a = not (walkaddr pagetable (pgrounddown a) r == 0)

abbrev pub user_byte : ℕ → Ram → ℕ → Option ℕ
user_byte pagetable r a =
    if is_mapped pagetable r a
    then some (r.bytes (walkaddr pagetable (pgrounddown a) r + (a - pgrounddown a)))
    else none

-- The bytes of a pipe at `addr`, each by a `copyout`.
unfoldable pub put_bytes : ℕ → List ℕ → ℕ → Ram → Ram
put_bytes pagetable [] addr r = r
put_bytes pagetable (ch ∷ rest) addr r =
    put_bytes pagetable rest (addr + 1) (copyout pagetable addr 0 1 (λ _. ch) r).1

abbrev pub with_pipe : ℕ → Pipe → Kernel → Kernel
with_pipe p pipe k = record k { pipes = update k.pipes p pipe }

unfoldable pub read_pipe : Process → ℕ → ℕ → Kernel → Ram → ReadTurn × Pipe → State
unfolding put_bytes
read_pipe q p addr k r (reads bytes, pipe) =
    (finishes (pos (length bytes)), with_pipe p pipe k, put_bytes q.pagetable bytes addr r)
read_pipe q p addr k r (read_waits, pipe) = (waits 0, with_pipe p pipe k, r)
read_pipe q p addr k r (read_fails, pipe) = (finishes (negsuc 0), with_pipe p pipe k, r)

-- The memory of the place of a copy.
abbrev pub ram_of : Place → Ram → Ram
ram_of (kernel_memory mem) r = r
ram_of (user_memory pagetable r') r = r'

-- The file's offset after `n` bytes more, which is a uint.
unfoldable pub advance : ℕ → ℕ → Kernel → Kernel
unfolding set_file
advance f n k = set_file f (record (k.files f) { off = ((k.files f).off + n) % 2 ^ 32 }) k

unfoldable pub read_inode : Process → ℕ → ℕ → ℕ → ℤ → Kernel → Ram → Outcome State
unfolding advance
read_inode q f ip addr n k r = do
  c1 ← ilock q.me ip k.icache
  (tot, c2, to) ← readi ip addr (k.files f).off (to_uint n) c1 (user_memory q.pagetable r)
  c3 ← iunlock q.me ip c2
  returns (finishes (pos tot), record (advance f tot k) { icache = c3 }, ram_of to r)

-- A call of a driver, or -1 without one.
unfoldable pub call_driver :
    ℤ → Option (ℕ → ℤ → Ram → Outcome (ℤ × Ram)) → ℕ → ℤ → Kernel → Ram → Outcome State
call_driver major none addr n k r = returns (finishes (negsuc 0), k, r)
call_driver major (some call) addr n k r =
    let called : Outcome State = call addr n r >>= λ x. returns (finishes x.0, k, x.1) in
    if ltb_ℤ major (pos 0) || leb_ℤ (pos 10) major
    then returns (finishes (negsuc 0), k, r)
    else called

unfoldable pub fileread : (ℕ → Driver) → Process → ℕ → ℕ → ℤ → Kernel → Ram → Outcome State
unfolding read_inode read_pipe call_driver
fileread devsw q f addr n k r =
    if not (k.files f).readable
    then returns (finishes (negsuc 0), k, r)
    else elim (k.files f).kind [
      | fd_none ↦ panics
      | fd_pipe p ↦ returns (
          read_pipe q p addr k r
            (piperead q.killed (is_mapped q.pagetable r) addr (pos_part n) (k.pipes p)))
      | fd_inode ip ↦ read_inode q f ip addr n k r
      | fd_device ip ↦
          call_driver (k.files f).major (devsw (pos_part (k.files f).major)).read addr n k r
    ]

unfoldable pub write_pipe : ℕ → Kernel → Ram → WriteTurn × Pipe → State
write_pipe p k r (writes i, pipe) = (finishes (pos i), with_pipe p pipe k, r)
write_pipe p k r (write_waits i, pipe) = (waits i, with_pipe p pipe k, r)
write_pipe p k r (write_fails, pipe) = (finishes (negsuc 0), with_pipe p pipe k, r)

-- The bytes that one transaction writes at most.
abbrev pub max_write : ℕ
max_write = 3072

-- What one turn of the loop of `filewrite` leaves after `writei`: none to break.
unfoldable pub after_write : ℕ → ℕ → ℤ → Kernel → Outcome (Option ℕ × Kernel)
unfolding advance
after_write f n1 (negsuc m) k = returns (none, k)
after_write f n1 (pos m) k = do check (m == n1); returns (some m, advance f m k)

-- The loop of `filewrite` from `i`, on fuel: each turn writes a byte at least.
unfoldable pub write_chunks : ℕ → Process → ℕ → ℕ → ℕ → ℕ → ℕ → Kernel → Ram → Outcome (ℕ × Kernel)
unfolding after_write
write_chunks zero q f ip addr i n k r = returns (i, k)
write_chunks (suc fuel) q f ip addr i n k r =
    let n1 = if ltb max_write (n - i) then max_write else n - i in
    let turn : Outcome (ℕ × Kernel) = do
      c1 ← ilock q.me ip k.icache
      (m, c2) ← writei ip (addr + i) (k.files f).off n1 c1 (user_memory q.pagetable r)
      c3 ← iunlock q.me ip c2
      (done, k') ← after_write f n1 m (record k { icache = c3 })
      elim done [ none ↦ returns (i, k') | some m' ↦ write_chunks fuel q f ip addr (i + m') n k' r ]
    in if ltb i n then turn else returns (i, k)

-- A negative count writes nothing, and fails.
unfoldable pub write_inode : Process → ℕ → ℕ → ℕ → ℤ → Kernel → Ram → Outcome State
unfolding write_chunks
write_inode q f ip addr n k r = do
  (i, k') ← write_chunks (pos_part n) q f ip addr 0 (pos_part n) k r
  returns (finishes (if eqb_ℤ (pos i) n then n else negsuc 0), k', r)

unfoldable pub filewrite : (ℕ → Driver) → Process → ℕ → ℕ → ℤ → Kernel → Ram → Outcome State
unfolding write_inode write_pipe call_driver
filewrite devsw q f addr n k r =
    if not (k.files f).writable
    then returns (finishes (negsuc 0), k, r)
    else elim (k.files f).kind [
      | fd_none ↦ panics
      | fd_pipe p ↦ returns (
          write_pipe p k r
            (pipewrite q.killed (user_byte q.pagetable r) addr (pos_part n) (k.pipes p)))
      | fd_inode ip ↦ write_inode q f ip addr n k r
      | fd_device ip ↦
          call_driver (k.files f).major (devsw (pos_part (k.files f).major)).write addr n k r
    ]

-- `call` of the file of a descriptor.
abbrev pub on_file : Process → ℤ → (ℕ → Outcome State) → Kernel → Ram → Outcome State
on_file q fd call k r = elim (argfd q.me fd k) [
  | none ↦ returns (finishes (negsuc 0), k, r)
  | some (n, f) ↦ call f
]

unfoldable pub sys_read : (ℕ → Driver) → Process → ℤ → ℕ → ℤ → Kernel → Ram → Outcome State
unfolding fileread
sys_read devsw q fd p n k r = on_file q fd (λ f. fileread devsw q f p n k r) k r

unfoldable pub sys_write : (ℕ → Driver) → Process → ℤ → ℕ → ℤ → Kernel → Ram → Outcome State
unfolding filewrite
sys_write devsw q fd p n k r = on_file q fd (λ f. filewrite devsw q f p n k r) k r

-- The byte `i` of a number, the lowest first.
abbrev pub byte_of : ℕ → ℕ → ℕ
byte_of n i = n / 256 ^ i % 256

-- A mode, which is a short, as a number.
abbrev pub short_bits : ℤ → ℕ
short_bits (pos n) = n % 65536
short_bits (negsuc n) = 65535 - n % 65536

-- `struct stat` in 32 bytes, with the bytes of the stack between its fields and after them.
unfoldable pub stat_bytes : (ℕ → ℕ) → Stat → ℕ → ℕ
stat_bytes stack st i =
    if ltb i 4
    then byte_of st.dev i
    else if ltb i 8
    then byte_of st.ino (i - 4)
    else if ltb i 10
    then byte_of st.kind (i - 8)
    else if ltb i 12
    then byte_of st.nlink (i - 10)
    else if ltb i 16
    then stack i
    else if ltb i 24
    then byte_of st.size (i - 16)
    else if ltb i 26
    then byte_of (short_bits st.mode) (i - 24)
    else stack i

unfoldable pub stat_inode : Process → (ℕ → ℕ) → ℕ → ℕ → Kernel → Ram → Outcome State
unfolding stat_bytes
stat_inode q stack ip addr k r = do
  c1 ← ilock q.me ip k.icache
  c2 ← iunlock q.me ip c1
  let (ok, r') = copyout q.pagetable addr 0 32 (stat_bytes stack (stati ip c1)) r
  returns (finishes (if ok then pos 0 else negsuc 0), record k { icache = c2 }, r')

unfoldable pub filestat : Process → (ℕ → ℕ) → ℕ → ℕ → Kernel → Ram → Outcome State
unfolding stat_inode
filestat q stack f addr k r = elim (k.files f).kind [
  | fd_none ↦ returns (finishes (negsuc 0), k, r)
  | fd_pipe p ↦ returns (finishes (negsuc 0), k, r)
  | fd_inode ip ↦ stat_inode q stack ip addr k r
  | fd_device ip ↦ stat_inode q stack ip addr k r
]

unfoldable pub sys_fstat : Process → (ℕ → ℕ) → ℤ → ℕ → Kernel → Ram → Outcome State
unfolding filestat
sys_fstat q stack fd st k r = on_file q fd (λ f. filestat q stack f st k r) k r
