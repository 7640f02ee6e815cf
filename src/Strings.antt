-- ===== src/Strings.antt =====
-- FileSystem-RAID/kernel/string.c: memory is a function from addresses to bytes, each `uchar`; a
-- function that writes gives the memory after the call, and returns the address that it was given.
pub mod Move
pub mod Bounded
mod Tests
use xv6_kernel_extensions.Prelude.{
  ℕ, zero, suc, ◌+◌, ◌-◌, ◌%◌, ℤ, pos, pos_part, sub_ℕ, Bool, true, false, not, Option, none, some,
  ◌==◌, ltb, leb, ◌&&◌, if◌then◌else◌, update,
}

abbrev pub Memory : Type 0
Memory = ℕ → ℕ

-- The loop of `memset`, `n` bytes from `dst` on.
unfoldable pub set_bytes : ℕ → ℕ → ℕ → Memory → Memory
set_bytes zero dst c mem = mem
set_bytes (suc n) dst c mem = set_bytes n (dst + 1) c (update mem dst c)

unfoldable pub memset : ℕ → ℕ → ℕ → Memory → Memory
memset dst c n mem = set_bytes n dst (c % 256) mem

unfoldable pub memcmp : ℕ → ℕ → ℕ → Memory → ℤ
memcmp v1 v2 zero mem = pos 0
memcmp v1 v2 (suc n) mem =
    let rest = memcmp (v1 + 1) (v2 + 1) n mem in
    if mem v1 == mem v2 then rest else sub_ℕ (mem v1) (mem v2)

-- The two loops of `memmove`.
unfoldable pub copy_up : ℕ → ℕ → ℕ → Memory → Memory
copy_up zero dst src mem = mem
copy_up (suc n) dst src mem = copy_up n (dst + 1) (src + 1) (update mem dst (mem src))

unfoldable pub copy_down : ℕ → ℕ → ℕ → Memory → Memory
copy_down zero dst src mem = mem
copy_down (suc n) dst src mem =
    copy_down n (dst - 1) (src - 1) (update mem (dst - 1) (mem (src - 1)))

unfoldable pub memmove : ℕ → ℕ → ℕ → Memory → Memory
memmove dst src n mem =
    if ltb src dst && ltb dst (src + n)
    then copy_down n (dst + n) (src + n) mem
    else copy_up n dst src mem

unfoldable pub memcpy : ℕ → ℕ → ℕ → Memory → Memory
memcpy dst src n mem = memmove dst src n mem

unfoldable pub strncmp : ℕ → ℕ → ℕ → Memory → ℤ
strncmp p q zero mem = pos 0
strncmp p q (suc n) mem =
    let rest = strncmp (p + 1) (q + 1) n mem in
    if not (mem p == 0) && (mem p == mem q) then rest else sub_ℕ (mem p) (mem q)

-- The first loop of `strncpy`, and the second, which is `set_bytes` of zeroes.
unfoldable pub copy_string : ℕ → ℕ → ℕ → Memory → Memory
copy_string zero s t mem = mem
copy_string (suc n) s t mem =
    let rest = copy_string n (s + 1) (t + 1) (update mem s (mem t)) in
    if mem t == 0 then set_bytes n (s + 1) 0 (update mem s (mem t)) else rest

unfoldable pub strncpy : ℕ → ℕ → ℤ → Memory → Memory
strncpy s t n mem = copy_string (pos_part n) s t mem

-- `m` bytes may still be copied before the last.
unfoldable pub copy_safely : ℕ → ℕ → ℕ → Memory → Memory
copy_safely zero s t mem = update mem s 0
copy_safely (suc m) s t mem =
    let rest = copy_safely m (s + 1) (t + 1) (update mem s (mem t)) in
    if mem t == 0 then update (update mem s (mem t)) (s + 1) 0 else rest

unfoldable pub safe_copy : ℕ → ℕ → ℕ → Memory → Memory
unfolding copy_safely
safe_copy zero s t mem = mem
safe_copy (suc m) s t mem = copy_safely m s t mem

unfoldable pub safestrcpy : ℕ → ℕ → ℤ → Memory → Memory
safestrcpy s t n mem = safe_copy (pos_part n) s t mem

-- `none` where the fuel ends before a zero byte.
unfoldable pub count_bytes : ℕ → ℕ → ℕ → Memory → Option ℕ
count_bytes zero s n mem = none
count_bytes (suc fuel) s n mem =
    let rest = count_bytes fuel s (n + 1) mem in if mem (s + n) == 0 then some n else rest

unfoldable pub strlen : ℕ → ℕ → Memory → Option ℕ
strlen fuel s mem = count_bytes fuel s 0 mem
