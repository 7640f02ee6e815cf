-- ===== src/Contents/RoundTrip.antt =====
-- `writei` and `readi` of FileSystem-RAID/kernel/fs.c, from and to the kernel.
use xv6_kernel_extensions.Prelude.{
  ℕ, ◌+◌, ◌-◌, ◌/◌, ◌%◌, ◌^◌, ◌<◌, ◌≤◌, pos, false, ltb, ◌||◌, if◌then◌else◌, update, update_ne,
  ◌≡◌, ◌≢◌, sym, ap, ◌∙◌, update_self, subst, fun_ext, arith, ◌⊎◌,
}
use native.Mathlib.Decide.{ℕ_discrete}
use xv6_kernel_extensions.Bio.{returns}
use xv6_kernel_extensions.Blocks.{Blocks, Inode}
use xv6_kernel_extensions.Icache.{Icache, set_entry}
use xv6_kernel_extensions.Contents.{kernel_memory, with_node, readi, writei, read_blocks}
use xv6_kernel_extensions.Contents.Position.{addr_of, IsLaid}
use xv6_kernel_extensions.Contents.Bytes.{file_byte}
use xv6_kernel_extensions.Contents.Loops.{read_blocks-IsRead, IsRead}
use xv6_kernel_extensions.Contents.Extended.{node_of, writei-Extended}

with_node_same : (i : ℕ) (c : Icache) → with_node i (node_of i c) c.blocks c ≡ c
unfolding with_node set_entry
with_node_same i c =
    let e : update c.entries i (c.entries i) ≡ c.entries = fun_ext (λ j. elim (ℕ_discrete i j) [
      | yes q ↦
          subst (λ x. update c.entries i (c.entries i) x ≡ c.entries x) q
            (update_self c.entries i (c.entries i))
      | no q ↦ update_ne c.entries i j (c.entries i) q
    ]) in
    ap (λ f. record c { entries = f }) e

whole-IsRead :
    (len dst off : ℕ) (ip : Inode) (s : Blocks) (mem : ℕ → ℕ)
    → ((k : ℕ) → k < len → addr_of ip s ((off + k) / 1024) ≢ 0)
    → (mem' : ℕ → ℕ) × (read_blocks len 0 dst off len ip s (kernel_memory mem)
        ≡ returns (len, ip, s, kernel_memory mem'))
      × IsRead len dst off ip s mem mem'
whole-IsRead len dst off ip s mem held =
    let (mem', e, p) =
      read_blocks-IsRead len 0 dst off len ip s mem (omega arith) (omega arith)
        (λ k l. held k (omega arith)) in
    (mem', e, subst (λ x. IsRead x dst off ip s mem mem') (omega arith) p)

-- The bytes that `readi` copies.
abbrev pub readable : ℕ → ℕ → ℕ → ℕ
readable size off n = if ltb size (off + n) then size - off else n

pub readi-IsRead :
    (i dst off n : ℕ) (c : Icache) (mem : ℕ → ℕ)
    → off ≤ (node_of i c).size
    → off + n < 4294967296
    → ((k : ℕ)
        → k < readable (node_of i c).size off n
        → addr_of (node_of i c) c.blocks ((off + k) / 1024) ≢ 0)
    → (mem' : ℕ → ℕ) × (readi i dst off n c (kernel_memory mem)
        ≡ returns (readable (node_of i c).size off n, c, kernel_memory mem'))
      × IsRead (readable (node_of i c).size off n) dst off (node_of i c) c.blocks mem mem'
unfolding readi
readi-IsRead i dst off n c mem h l held =
    let w : (off + n) % 2 ^ 32 ≡ off + n = omega arith in
    let len = readable (node_of i c).size off n in
    let t : (ltb (node_of i c).size off || ltb (off + n) off) ≡ false = ground arith in
    let (mem', e, p) = whole-IsRead len dst off (node_of i c) c.blocks mem held in
    (mem', rw (w, t, e) (ap (λ x. returns (len, x, kernel_memory mem')) (with_node_same i c)), p)

-- If the blocks of an inode are different and in use, and `writei` of `n` bytes from the kernel at
-- `src` does not fail, then it returns `n`, the blocks of the inode are again different and in use,
-- its other bytes are as they were, and `readi` of `n` bytes at the same offset returns `n`, changes
-- neither the inode nor the blocks, and leaves the bytes from `src` at `dst`, and all other memory.
pub writei-readi :
    (i src dst off n k : ℕ) (c c' : Icache) (mem to : ℕ → ℕ)
    → IsLaid (node_of i c) c.blocks
    → off < 4294967296
    → n < 4294967296
    → writei i src off n c (kernel_memory mem) ≡ returns (pos k, c')
    → (k ≡ n)
      × IsLaid (node_of i c') c'.blocks
      × ((p : ℕ)
          → (p < off) ⊎ (off + n ≤ p)
          → file_byte (node_of i c') c'.blocks p ≡ file_byte (node_of i c) c.blocks p)
      × ((to' : ℕ → ℕ) × (readi i dst off n c' (kernel_memory to)
            ≡ returns (n, c', kernel_memory to'))
          × ((j : ℕ) → j < n → to' (dst + j) ≡ mem (src + j) % 256)
          × ((x : ℕ) → (x < dst) ⊎ (dst + n ≤ x) → to' x ≡ to x))
writei-readi i src dst off n k c c' mem to l h h' e =
    let (count, x) = writei-Extended i src off n k c c' mem l h h' e in
    let below = x.below in
    let fits = x.fits in
    let grows = x.count in
    let reaches = x.reaches in
    let all : readable (node_of i c').size off n ≡ n = ground arith in
    let (to', r, (p, q)) =
      readi-IsRead i dst off n c' to (omega arith) (omega arith)
        (λ j d. x.held j (subst (λ m. j < m) all d)) in
    (
      count,
      x.laid,
      x.others,
      (
        to',
        r ∙ ap (λ m. returns (m, c', kernel_memory to')) all,
        λ j d. p j (subst (λ m. j < m) (sym all) d) ∙ x.bytes j d,
        λ y d. q y (subst (λ m. (y < dst) ⊎ (dst + m ≤ y)) (sym all) d),
      ),
    )
