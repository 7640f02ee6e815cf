-- ===== src/Paths.antt =====
-- FileSystem-RAID/kernel/fs.c: directories and path names. A path is a string in a memory of bytes,
-- `mem`, at an address; `name` is the memory of the caller's buffer, at 0. The loops over a string
-- run on as much fuel as the longest path has bytes, 128. `depth` is how deep the stack of the kernel
-- lets `namex` call itself: beyond it the guard page makes the kernel panic.
pub mod Elem
mod Tests
use xv6_kernel_extensions.Prelude.{
  ℕ, zero, suc, ◌+◌, ◌-◌, ◌*◌, ◌/◌, ◌%◌, ℤ, pos, negsuc, eqb_ℤ, Bool, true, false, not, Option,
  none, some, ◌==◌, ltb, leb, ◌&&◌, ◌||◌, if◌then◌else◌, update,
}
use xv6_kernel_extensions.Bio.{Outcome, returns, panics, ◌>>=◌, ◌>>◌, check}
use xv6_kernel_extensions.Strings.{Memory, strncmp, safestrcpy, strlen}
use xv6_kernel_extensions.Icache.{Icache, iget, idup, ilock, iunlock, iput, iunlockput}
use xv6_kernel_extensions.Contents.{Place, kernel_memory, user_memory, readi}
use xv6_kernel_extensions.Vm.Copy.{move_bytes}

abbrev pub maxpath : ℕ
maxpath = 128

abbrev pub dirsiz : ℕ
dirsiz = 14

-- The character '/'.
abbrev pub slash : ℕ
slash = 47

unfoldable pub skip_slashes : ℕ → Memory → ℕ → ℕ
skip_slashes zero mem path = path
skip_slashes (suc fuel) mem path =
    let rest = skip_slashes fuel mem (path + 1) in if mem path == slash then rest else path

unfoldable pub skip_name : ℕ → Memory → ℕ → ℕ
skip_name zero mem path = path
skip_name (suc fuel) mem path =
    let rest = skip_name fuel mem (path + 1) in
    if not (mem path == slash) && not (mem path == 0) then rest else path

-- The `len` bytes at `s` in the buffer for a name.
unfoldable pub put_name : Memory → ℕ → ℕ → Memory → Memory
put_name mem s len name =
    if leb dirsiz len
    then move_bytes dirsiz 0 s mem name
    else update (move_bytes len 0 s mem name) len 0

unfoldable pub skipelem : Memory → ℕ → Memory → Option (ℕ × Memory)
skipelem mem path name =
    let s = skip_slashes maxpath mem path in
    let end = skip_name maxpath mem s in
    if mem s == 0 then none else some (skip_slashes maxpath mem end, put_name mem s (end - s) name)

unfoldable pub namecmp : ℕ → ℕ → Memory → ℤ
namecmp s t mem = strncmp s t dirsiz mem

abbrev pub memory_of : Place → Memory
memory_of (kernel_memory mem) = mem
memory_of (user_memory pagetable r) = λ a. 0

-- The loop of `dirlookup`, on fuel: the entry of the inode, and the offset. The directory entry `de`
-- is read to the address 16, behind `name`.
unfoldable pub lookup_entries : ℕ → ℕ → ℕ → Memory → Icache → Outcome (Option (ℕ × ℕ) × Icache)
unfolding namecmp
lookup_entries zero dp off name c = returns (none, c)
lookup_entries (suc fuel) dp off name c =
    let turn : Outcome (Option (ℕ × ℕ) × Icache) = do
      (n, c', to) ← readi dp 16 off 16 c (kernel_memory name)
      check (n == 16)
      let de = memory_of to
      let inum = de 16 + 256 * de 17
      let next = lookup_entries fuel dp (off + 16) name c'
      let found : Outcome (Option (ℕ × ℕ) × Icache) =
          iget (c'.entries dp).dev inum c' >>= λ r. returns (some (r.0, off), r.1)
      if inum == 0 then next else if eqb_ℤ (namecmp 0 18 de) (pos 0) then found else next
    in if ltb off (c.entries dp).copy.node.size then turn else returns (none, c)

unfoldable pub dirlookup : ℕ → Memory → Icache → Outcome (Option (ℕ × ℕ) × Icache)
unfolding lookup_entries
dirlookup dp name c =
    check ((c.entries dp).copy.kind == 1)
    >> lookup_entries ((c.entries dp).copy.node.size / 16 + 1) dp 0 name c

-- The result of `namex`: the entry of the inode or none, the name, and the cache.
abbrev pub Found : Type 0
Found = Option ℕ × Memory × Icache

-- M_READ of a mode, which is a short.
abbrev pub may_read : ℤ → Bool
may_read (pos n) = n % 2 == 1
may_read (negsuc n) = n % 2 == 0

-- `return 0`, after a step that gives up a reference.
abbrev pub gives_up : Memory → Outcome Icache → Outcome Found
gives_up name o = o >>= λ c. returns (none, name, c)

-- The root directory, or the current one.
unfoldable pub start : Memory → ℕ → ℕ → Icache → Outcome (ℕ × Icache)
start mem path cwd c = if mem path == slash then iget 1 1 c else returns (cwd, idup cwd c)

-- `newpath` at 0 and `target` at 128 of the frame of `namex`, and behind it the memory of the path.
unfoldable pub frame : Memory → Memory → Memory
frame target mem a = if ltb a 128 then 0 else if ltb a 256 then target (a - 128) else mem (a - 256)

-- The target and the rest of the path, or none where they are too long.
unfoldable pub join_paths : Memory → Memory → ℕ → Outcome (Option Memory)
unfolding frame
join_paths target mem path =
    let newpath = safestrcpy 0 128 (pos maxpath) (frame target mem) in
    elim (strlen maxpath 0 newpath) [
      | none ↦ panics
      | some len ↦ elim (strlen maxpath path mem) [
        | none ↦ panics
        | some rest ↦
            if ltb maxpath (len + 1 + rest + 1)
            then returns none
            else returns (
                some (
                  safestrcpy (len + 1) (256 + path) (pos (maxpath - len - 1))
                    (update newpath len slash)))
      ]
    ]

-- A path that was too long, or the recursive call, of `again`.
unfoldable pub namex_joined :
    (Memory → Memory → Icache → Outcome Found) → ℕ → Memory → Icache → Option Memory → Outcome Found
namex_joined again ip name c none = gives_up name (iput ip c)
namex_joined again ip name c (some newpath) = do
  (result, name', c') ← again newpath name c
  c'' ← iput ip c'
  returns (result, name', c'')

-- A symbolic link before the end of the path, locked.
unfoldable pub namex_link :
    (Memory → Memory → Icache → Outcome Found)
    → ℕ
    → ℕ
    → Memory
    → ℕ
    → Memory
    → ℕ
    → Icache
    → Outcome Found
unfolding namex_joined start join_paths
namex_link again me cwd mem path name next c = do
  let size = (c.entries next).copy.node.size
  (n, c1, to) ← readi next 0 0 size c (kernel_memory (λ a. 0))
  let target = update (memory_of to) size 0
  let follow : Outcome Found = do
    c2 ← iunlock me next c1
    c3 ← iput next c2
    (ip, c4) ← start target 0 cwd c3
    joined ← join_paths target mem path
    namex_joined again ip name c4 joined
  if n == size then follow else gives_up name (iunlockput me next c1)

-- The loop of `namex`, on fuel; each turn goes to a later byte of the path.
unfoldable pub namex_loop :
    ℕ
    → (Memory → Memory → Icache → Outcome Found)
    → ℕ
    → ℕ
    → Bool
    → Memory
    → ℕ
    → Memory
    → ℕ
    → Icache
    → Outcome Found
unfolding namex_link skipelem dirlookup
namex_loop zero again me cwd parent mem path name ip c = panics
namex_loop (suc fuel) again me cwd parent mem path name ip c = elim (skipelem mem path name) [
  | none ↦ if parent then gives_up name (iput ip c) else returns (some ip, name, c)
  | some (path', name') ↦ do
    c1 ← ilock me ip c
    let looked : Outcome Found = do
      (found, c2) ← dirlookup ip name' c1
      elim found [
        | none ↦ gives_up name' (iunlockput me ip c2)
        | some (next, off) ↦ do
          c3 ← iunlockput me ip c2
          c4 ← ilock me next c3
          let goes_on : Outcome Found = iunlock me next c4 >>= λ c5.
              namex_loop fuel again me cwd parent mem path' name' next c5
          if (c4.entries next).copy.kind == 4 && not (mem path' == 0)
              then namex_link again me cwd mem path' name' next c4
              else goes_on
      ]
    let stops : Outcome Found = iunlock me ip c1 >>= λ c2. returns (some ip, name', c2)
    if not ((c1.entries ip).copy.kind == 1)
        then gives_up name' (iunlockput me ip c1)
        else if not (may_read (c1.entries ip).copy.minor)
        then gives_up name' (iunlockput me ip c1)
        else if parent && mem path' == 0
        then stops
        else looked
]

unfoldable pub namex : ℕ → ℕ → ℕ → Bool → Memory → ℕ → Memory → Icache → Outcome Found
unfolding namex_loop
namex zero me cwd parent mem path name c = panics
namex (suc depth) me cwd parent mem path name c = do
  (ip, c') ← start mem path cwd c
  namex_loop (maxpath + 1) (λ newpath name' c''. namex depth me cwd parent newpath 0 name' c'') me
      cwd parent mem path name ip c'

unfoldable pub namei : ℕ → ℕ → ℕ → Memory → ℕ → Icache → Outcome (Option ℕ × Icache)
namei depth me cwd mem path c =
    namex depth me cwd false mem path (λ a. 0) c >>= λ r. returns (r.0, r.2)

unfoldable pub nameiparent : ℕ → ℕ → ℕ → Memory → ℕ → Memory → Icache → Outcome Found
nameiparent depth me cwd mem path name c = namex depth me cwd true mem path name c
