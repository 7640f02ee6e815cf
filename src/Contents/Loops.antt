-- ===== src/Contents/Loops.antt =====
-- The loops of `writei` and `readi` of FileSystem-RAID/kernel/fs.c, when they copy from and to the
-- kernel.
use xv6_kernel_extensions.Prelude.{
  ℕ, zero, suc, ◌+◌, ◌-◌, ◌/◌, ◌%◌, ◌<◌, ◌≤◌, false, ◌==◌, ltb, update, ◌≡◌, ◌≢◌, refl, sym, ap,
  ◌∙◌, subst, arith, inl, inr, ◌⊎◌, Bool-cases,
}
use native.Mathlib.Decide.{ℕ_discrete}
use xv6_kernel_extensions.Bio.{Outcome, returns, panics, sleeps, ◌>>=◌}
use xv6_kernel_extensions.Blocks.{Blocks, Inode, bmap, bmap_indirect, slot_block, entry_block}
use xv6_kernel_extensions.Contents.{
  kernel_memory, block_byte, block_of, in_block, either_copyin, either_copyout, write_blocks,
  read_blocks,
}
use xv6_kernel_extensions.Contents.Position.{
  addr_of, addr_direct, addr_table, addr_none, addr_far, IsLaid, MapStep,
}
use xv6_kernel_extensions.Contents.Bytes.{bmap-MapStep, file_byte, byte_some, bmap-file_byte}
use xv6_kernel_extensions.Contents.Written.{Written, Written-none, Written-append, stored-Written}
use xv6_kernel_extensions.Vm.Copy.{move_bytes}
use xv6_kernel_extensions.Vm.Transfer.{move_bytes-in, move_bytes-out}

pub in_block_lem :
    (off len : ℕ)
    → (in_block off len ≤ len)
      × (off % 1024 + in_block off len ≤ 1024)
      × (0 < len → 0 < in_block off len)
in_block_lem off len = elim (Bool-cases (ltb len (1024 - off % 1024))) [
  | inl e ↦ rw e (ground arith, ground arith, λ h. h)
  | inr e ↦ rw e (ground arith, ground arith, λ h. ground arith)
]

-- `bmap` and the write of a block, of which `bmap` alone changes no byte.
turn-Written :
    (n m off src a : ℕ) (mem : ℕ → ℕ) (ip ip1 : Inode) (s s1 : Blocks)
    → MapStep (off / 1024) a ip s ip1 s1
    → off % 1024 + m ≤ 1024
    → Written m off src mem ip s ip1 (record s1 {
      contents =
          update s1.contents a
            (block_of (move_bytes m (off % 1024) src mem (block_byte (s1.contents a))));
    })
turn-Written n m off src a mem ip ip1 s s1 k fits =
    let w = stored-Written m off src a mem ip1 s1 k.laid k.here k.block fits in
    record {
      laid = w.laid;
      size = w.size ∙ k.size;
      held = w.held;
      grown = λ i h. w.grown i (elim (ℕ_discrete (off / 1024) i) [
        | yes e ↦ λ z. k.block (sym k.here ∙ (ap (addr_of ip1 s1) e ∙ z))
        | no e ↦ λ z. h (sym (k.there i e) ∙ z)
      ]);
      bytes = w.bytes;
      others = λ p h. w.others p h ∙ bmap-file_byte (off / 1024) a ip ip1 s s1 p k;
    }

-- A step that returns has returned in its first part.
pub bind_returns :
    {A B : Type 0} (o : Outcome A) (f : A → Outcome B) (b : B)
    → ◌>>=◌ {B = B} o f ≡ returns b
    → (a : A) × (o ≡ returns a) × (f a ≡ returns b)
bind_returns (returns a) f b e = (a, refl, e)
bind_returns panics f b e = absurd (cc)
bind_returns sleeps f b e = absurd (cc)

pub write_blocks-Written :
    (fuel tot src off n : ℕ) (mem : ℕ → ℕ) (ip ip' : Inode) (s s' : Blocks) (o : ℕ)
    → IsLaid ip s
    → tot ≤ n
    → n - tot ≤ fuel
    → write_blocks fuel tot src off n ip s (kernel_memory mem) ≡ returns (o, ip', s')
    → (o ≡ off + (n - tot)) × Written (n - tot) off src mem ip s ip' s'
unfolding write_blocks either_copyin
write_blocks-Written zero tot src off n mem ip ip' s s' o l h f e =
    let q : ◌≡◌ {A = ℕ × Inode × Blocks} (off, ip, s) (o, ip', s') = cc in
    let z : 0 ≡ n - tot = omega arith in
    subst {A = ℕ × Inode × Blocks}
      (λ r. (r.0 ≡ off + (n - tot)) × Written (n - tot) off src mem ip s r.1 r.2) q
      (
        omega arith,
        subst (λ x. Written x off src mem ip s ip s) z (Written-none off src mem ip s l),
      )
write_blocks-Written (suc fuel) tot src off n mem ip ip' s s' o l h f e =
    let m = in_block off (n - tot) in
    let (below, fits, some_bytes) = in_block_lem off (n - tot) in
    let turn = λ (x : ℕ × Inode × Blocks).
      write_blocks fuel (tot + m) (src + m) (off + m) n x.1
        (record x.2 {
          contents =
              update x.2.contents x.0
                (block_of (move_bytes m (off % 1024) src mem (block_byte (x.2.contents x.0))));
        })
        (kernel_memory mem) in
    elim (Bool-cases (ltb tot n)) [
      | inr d ↦
          let g : n ≤ tot = ground arith in
          let z : 0 ≡ n - tot = omega arith in
          let k : ◌≡◌ {A = Outcome (ℕ × Inode × Blocks)} (returns (off, ip, s))
              (returns (o, ip', s')) =
            sym (rw d refl) ∙ e in
          let r : ◌≡◌ {A = ℕ × Inode × Blocks} (off, ip, s) (o, ip', s') = cc in
          subst {A = ℕ × Inode × Blocks}
            (λ r. (r.0 ≡ off + (n - tot)) × Written (n - tot) off src mem ip s r.1 r.2) r
            (
              omega arith,
              subst (λ x. Written x off src mem ip s ip s) z (Written-none off src mem ip s l),
            )
      | inl d ↦
          let k : ◌>>=◌ {B = ℕ × Inode × Blocks} (bmap ip (off / 1024) s) turn
              ≡ returns (o, ip', s') =
            sym (rw d refl) ∙ e in
          let ((a, ip1, s1), b, g) = bind_returns (bmap ip (off / 1024) s) turn (o, ip', s') k in
          let lt : tot < n = ground arith in
          let more = some_bytes (omega arith) in
          let w =
            turn-Written n m off src a mem ip ip1 s s1 (bmap-MapStep (off / 1024) a ip ip1 s s1 l b)
              fits in
          let s2 : Blocks = record s1 {
            contents =
                update s1.contents a
                  (block_of (move_bytes m (off % 1024) src mem (block_byte (s1.contents a))));
          } in
          let (p, v) =
            write_blocks-Written fuel (tot + m) (src + m) (off + m) n mem ip1 ip' s2 s' o w.laid
              (omega arith) (omega arith) g in
          let len : m + (n - (tot + m)) ≡ n - tot = omega arith in
          (
            omega arith,
            subst (λ x. Written x off src mem ip s ip' s') len
                (Written-append m (n - (tot + m)) off src mem ip ip1 ip' s s2 s' w v),
          )
    ]

-- `bmap` finds the block of a position that has one.
bmap_found :
    (ip : Inode) (s : Blocks) (n : ℕ)
    → addr_of ip s n ≢ 0
    → bmap ip n s ≡ returns (addr_of ip s n, ip, s)
unfolding bmap bmap_indirect slot_block entry_block
bmap_found ip s n z = elim (Bool-cases (ltb n 12)) [
  | inl e ↦
      let at : addr_of ip s n ≡ ip.addrs n = addr_direct ip s n (ground arith) in
      let nz : (ip.addrs n == 0) ≡ false = ground arith in rw (e, nz, at) refl
  | inr e ↦
      let h : 12 ≤ n = ground arith in
      elim (Bool-cases (ltb (n - 12) 256)) [
        | inr d ↦ absurd (z (addr_far ip s n (ground arith)))
        | inl d ↦
            let w : ip.addrs 12 ≢ 0 = λ q. z (addr_none ip s n h q) in
            let at : addr_of ip s n ≡ s.contents (ip.addrs 12) (n - 12) =
              addr_table ip s n h (ground arith) w in
            let nt : (ip.addrs 12 == 0) ≡ false = ground arith in
            let nz : (s.contents (ip.addrs 12) (n - 12) == 0) ≡ false = ground arith in
            rw (e, d, nt, nz, at) refl
      ]
]

-- The `len` bytes at `dst` of `mem'` are those of the inode at `off`, and the others as in `mem`.
abbrev pub IsRead : ℕ → ℕ → ℕ → Inode → Blocks → (ℕ → ℕ) → (ℕ → ℕ) → Type 0
IsRead len dst off ip s mem mem' =
    ((i : ℕ) → i < len → mem' (dst + i) ≡ file_byte ip s (off + i))
    × ((x : ℕ) → (x < dst) ⊎ (dst + len ≤ x) → mem' x ≡ mem x)

pub read_blocks-IsRead :
    (fuel tot dst off n : ℕ) (ip : Inode) (s : Blocks) (mem : ℕ → ℕ)
    → tot ≤ n
    → n - tot ≤ fuel
    → ((i : ℕ) → i < n - tot → addr_of ip s ((off + i) / 1024) ≢ 0)
    → (mem' : ℕ → ℕ) × (read_blocks fuel tot dst off n ip s (kernel_memory mem)
        ≡ returns (n, ip, s, kernel_memory mem'))
      × IsRead (n - tot) dst off ip s mem mem'
unfolding read_blocks either_copyout
read_blocks-IsRead zero tot dst off n ip s mem h f held =
    let z : tot ≡ n = omega arith in
    (
      mem,
      ap (λ x. returns (x, ip, s, kernel_memory mem)) z,
      (λ i l. absurd (omega arith), λ x o. refl),
    )
read_blocks-IsRead (suc fuel) tot dst off n ip s mem h f held =
    let m = in_block off (n - tot) in
    let (below, fits, some_bytes) = in_block_lem off (n - tot) in
    elim (Bool-cases (ltb tot n)) [
      | inr d ↦
          let z : tot ≡ n = ground arith in
          let ge : n ≤ tot = ground arith in
          (
            mem,
            rw d (ap (λ x. returns (x, ip, s, kernel_memory mem)) z),
            (λ i l. absurd (omega arith), λ x o. refl),
          )
      | inl d ↦
          let lt : tot < n = ground arith in
          let more = some_bytes (omega arith) in
          let a = addr_of ip s (off / 1024) in
          let nz : a ≢ 0 =
            subst (λ x. addr_of ip s (x / 1024) ≢ 0) (omega arith) (held 0 (omega arith)) in
          let mem1 = move_bytes m dst (off % 1024) (block_byte (s.contents a)) mem in
          let (mem', e, (p, q)) =
            read_blocks-IsRead fuel (tot + m) (dst + m) (off + m) n ip s mem1 (omega arith)
              (omega arith)
              (λ i l.
                subst (λ x. addr_of ip s (x / 1024) ≢ 0) (omega arith)
                  (held (m + i) (omega arith))) in
          (
            mem',
            rw (d, bmap_found ip s (off / 1024) nz) e,
            (
              λ i l. elim (Bool-cases (ltb i m)) [
                | inl c ↦
                    let g : i < m = ground arith in
                    let same : addr_of ip s ((off + i) / 1024) ≡ a =
                      ap (addr_of ip s) (omega (arith, fits)) in
                    q (dst + i) (inl (omega arith))
                    ∙ (move_bytes-in m dst (off % 1024) i (block_byte (s.contents a)) mem g
                        ∙ (ap (block_byte (s.contents a)) (omega (arith, fits))
                            ∙ sym (byte_some ip s (off + i) a same nz)))
                | inr c ↦
                    let g : m ≤ i = ground arith in
                    ap mem' (omega arith)
                    ∙ (p (i - m) (omega arith) ∙ ap (file_byte ip s) (omega arith))
              ],
              λ x o.
                  q x (elim o [ inl y ↦ inl (omega arith) | inr y ↦ inr (omega arith) ])
                  ∙ move_bytes-out m dst (off % 1024) x (block_byte (s.contents a)) mem
                      (elim o [ inl y ↦ inl y | inr y ↦ inr (omega arith) ]),
            ),
          )
    ]
