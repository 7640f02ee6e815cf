-- ===== src/Vm/Copy.antt =====
-- FileSystem-RAID/kernel/vm.c: copies between the kernel and the user. The buffer of the kernel is
-- no user page, and is a memory of its own; a `memmove` between the two is written as what it
-- leaves. The loops run on fuel: each turn copies a byte at least.
use xv6_kernel_extensions.Prelude.{
  ℕ, zero, suc, ◌+◌, ◌-◌, Bool, true, false, ◌==◌, ltb, leb, ◌&&◌, if◌then◌else◌, update,
}
use xv6_kernel_extensions.Vm.{Ram, pgrounddown, walkaddr}

-- `n` bytes from `src` of `from`, to `dst` of `to`.
unfoldable pub move_bytes : ℕ → ℕ → ℕ → (ℕ → ℕ) → (ℕ → ℕ) → ℕ → ℕ
move_bytes n dst src from to a =
    if leb dst a && ltb a (dst + n) then from (src + (a - dst)) else to a

-- The bytes to copy in the page of `va`.
abbrev pub in_page : ℕ → ℕ → ℕ
in_page va len = let n = 4096 - (va - pgrounddown va) in if ltb len n then len else n

-- Whether it returns 0, and the buffer, which a failure leaves with what was copied before.
unfoldable pub copyin_loop : ℕ → ℕ → ℕ → ℕ → ℕ → Ram → (ℕ → ℕ) → Bool × (ℕ → ℕ)
copyin_loop zero pagetable dst srcva len r buf = (true, buf)
copyin_loop (suc fuel) pagetable dst srcva len r buf =
    let va0 = pgrounddown srcva in
    let pa0 = walkaddr pagetable va0 r in
    let n = in_page srcva len in
    let rest : Bool × (ℕ → ℕ) =
      copyin_loop fuel pagetable (dst + n) (va0 + 4096) (len - n) r
        (move_bytes n dst (pa0 + (srcva - va0)) r.bytes buf) in
    if len == 0 then (true, buf) else if pa0 == 0 then (false, buf) else rest

unfoldable pub copyin : ℕ → ℕ → ℕ → ℕ → Ram → (ℕ → ℕ) → Bool × (ℕ → ℕ)
copyin pagetable dst srcva len r buf = copyin_loop len pagetable dst srcva len r buf

-- Likewise, with the memory.
unfoldable pub copyout_loop : ℕ → ℕ → ℕ → ℕ → ℕ → (ℕ → ℕ) → Ram → Bool × Ram
copyout_loop zero pagetable dstva src len buf r = (true, r)
copyout_loop (suc fuel) pagetable dstva src len buf r =
    let va0 = pgrounddown dstva in
    let pa0 = walkaddr pagetable va0 r in
    let n = in_page dstva len in
    let rest : Bool × Ram =
      copyout_loop fuel pagetable (va0 + 4096) (src + n) (len - n) buf
        (record r { bytes = move_bytes n (pa0 + (dstva - va0)) src buf r.bytes }) in
    if len == 0 then (true, r) else if pa0 == 0 then (false, r) else rest

unfoldable pub copyout : ℕ → ℕ → ℕ → ℕ → (ℕ → ℕ) → Ram → Bool × Ram
copyout pagetable dstva src len buf r = copyout_loop len pagetable dstva src len buf r

-- The inner loop of `copyinstr`: whether it met a zero byte in the `n` bytes at `p`, and the buffer.
unfoldable pub copy_text : ℕ → ℕ → ℕ → (ℕ → ℕ) → (ℕ → ℕ) → Bool × (ℕ → ℕ)
copy_text zero p dst bytes buf = (false, buf)
copy_text (suc n) p dst bytes buf =
    let rest = copy_text n (p + 1) (dst + 1) bytes (update buf dst (bytes p)) in
    if bytes p == 0 then (true, update buf dst 0) else rest

unfoldable pub copyinstr_loop : ℕ → ℕ → ℕ → ℕ → ℕ → Ram → (ℕ → ℕ) → Bool × (ℕ → ℕ)
unfolding copy_text
copyinstr_loop zero pagetable dst srcva max r buf = (false, buf)
copyinstr_loop (suc fuel) pagetable dst srcva max r buf =
    let va0 = pgrounddown srcva in
    let pa0 = walkaddr pagetable va0 r in
    let n = in_page srcva max in
    let page = copy_text n (pa0 + (srcva - va0)) dst r.bytes buf in
    let rest : Bool × (ℕ → ℕ) =
      copyinstr_loop fuel pagetable (dst + n) (va0 + 4096) (max - n) r page.1 in
    if max == 0
    then (false, buf)
    else if pa0 == 0
    then (false, buf)
    else if page.0
    then (true, page.1)
    else rest

unfoldable pub copyinstr : ℕ → ℕ → ℕ → ℕ → Ram → (ℕ → ℕ) → Bool × (ℕ → ℕ)
copyinstr pagetable dst srcva max r buf = copyinstr_loop max pagetable dst srcva max r buf
