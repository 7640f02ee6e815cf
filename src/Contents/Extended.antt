-- ===== src/Contents/Extended.antt =====
-- What `writei` of FileSystem-RAID/kernel/fs.c leaves, when it copies from the kernel.
use xv6_kernel_extensions.Prelude.{
  ℕ, ◌+◌, ◌-◌, ◌/◌, ◌%◌, ◌^◌, ◌<◌, ◌≤◌, ℤ, pos, negsuc, pos_part, Bool, true, false, ◌==◌, ltb,
  ◌||◌, if◌then◌else◌, ◌≡◌, ◌≢◌, refl, sym, ap, ◌∙◌, update_self, subst, fun_ext, arith, inl, inr,
  ◌⊎◌, Bool-cases,
}
use xv6_kernel_extensions.Bio.{Outcome, returns, ◌>>=◌}
use xv6_kernel_extensions.Blocks.{Blocks, Inode}
use xv6_kernel_extensions.Icache.{Icache, set_entry, iupdate}
use xv6_kernel_extensions.Contents.Layout.{Layout}
use xv6_kernel_extensions.Contents.{
  block_byte, Place, kernel_memory, with_node, writei, extend, write_blocks,
}
use xv6_kernel_extensions.Contents.Position.{addr_of, IsLaid}
use xv6_kernel_extensions.Contents.Bytes.{file_byte}
use xv6_kernel_extensions.Contents.Written.{Written}
use xv6_kernel_extensions.Contents.Loops.{bind_returns, write_blocks-Written}

abbrev pub node_of : ℕ → Icache → Inode
node_of i c = (c.entries i).copy.node

or_false : (a b : Bool) → (a || b) ≡ false → (a ≡ false) × (b ≡ false)
or_false true b e = absurd (cc)
or_false false b e = (refl, e)

-- A call of `writei` that does not fail.
writei-returns :
    (i src off n k : ℕ) (c c' : Icache) (from : Place)
    → off < 4294967296
    → n < 4294967296
    → writei i src off n c from ≡ returns (pos k, c')
    → (off ≤ (node_of i c).size)
      × (off + n ≤ 274432)
      × (k ≡ n)
      × ((r : ℕ × Inode × Blocks) × (write_blocks n 0 src off n (node_of i c) c.blocks from
            ≡ returns r)
          × (extend i n r.0 r.1 r.2 c ≡ c'))
unfolding writei
writei-returns i src off n k c c' from h l e =
    elim (Bool-cases (ltb (node_of i c).size off || ltb ((off + n) % 2 ^ 32) off)) [
      | inl t ↦
          let q : ◌≡◌ {A = Outcome (ℤ × Icache)} (returns (negsuc 0, c)) (returns (pos k, c')) =
            sym (rw t refl) ∙ e in
          absurd (cc)
      | inr t ↦ elim (Bool-cases (ltb 274432 ((off + n) % 2 ^ 32))) [
        | inl u ↦
            let q : ◌≡◌ {A = Outcome (ℤ × Icache)} (returns (negsuc 0, c)) (returns (pos k, c')) =
              sym (rw (t, u) refl) ∙ e in
            absurd (cc)
        | inr u ↦
            let body : ℕ × Inode × Blocks → Outcome (ℤ × Icache) =
              λ r. returns (pos n, extend i n r.0 r.1 r.2 c) in
            let q : ◌>>=◌ {B = ℤ × Icache} (write_blocks n 0 src off n (node_of i c) c.blocks from)
                  body
                ≡ returns (pos k, c') =
              sym (rw (t, u) refl) ∙ e in
            let (r, b, g) =
              bind_returns (write_blocks n 0 src off n (node_of i c) c.blocks from) body (pos k, c')
                q in
            let z : ◌≡◌ {A = ℤ × Icache} (pos n, extend i n r.0 r.1 r.2 c) (pos k, c') = cc in
            let (size_test, wrap_test) =
              or_false (ltb (node_of i c).size off) (ltb ((off + n) % 2 ^ 32) off) t in
            let below : off ≤ (node_of i c).size = ground arith in
            let no_wrap : off ≤ (off + n) % 2 ^ 32 = ground arith in
            let most : (off + n) % 2 ^ 32 ≤ 274432 = ground arith in
            (below, omega arith, ap (λ x. pos_part x.0) (sym z), (r, b, ap (λ x. x.1) z))
      ]
    ]

-- The node and the blocks after `writei`.
abbrev grown_node : ℕ → ℕ → Inode → Inode
grown_node n o ip = if ltb 0 n then (if ltb ip.size o then record ip { size = o } else ip) else ip

extend-node :
    (i n o : ℕ) (ip : Inode) (s : Blocks) (c : Icache)
    → (node_of i (extend i n o ip s c) ≡ grown_node n o ip) × ((extend i n o ip s c).blocks ≡ s)
unfolding extend with_node set_entry iupdate
extend-node i n o ip s c = elim (Bool-cases (ltb 0 n)) [
  | inl e ↦ rw e (ap (λ x. x.copy.node) (update_self c.entries i _), refl)
  | inr e ↦ rw e (ap (λ x. x.copy.node) (update_self c.entries i _), refl)
]

grown_node-addrs : (n o : ℕ) (ip : Inode) → (grown_node n o ip).addrs ≡ ip.addrs
grown_node-addrs n o ip = elim (Bool-cases (ltb 0 n)) [
  | inl e ↦ elim (Bool-cases (ltb ip.size o)) [ inl d ↦ rw (e, d) refl | inr d ↦ rw (e, d) refl ]
  | inr e ↦ rw e refl
]

grown_node-size :
    (n o : ℕ) (ip : Inode)
    → (ip.size ≤ (grown_node n o ip).size) × (0 < n → o ≤ (grown_node n o ip).size)
grown_node-size n o ip = elim (Bool-cases (ltb 0 n)) [
  | inl e ↦ elim (Bool-cases (ltb ip.size o)) [
    | inl d ↦ rw (e, d) (ground arith, λ h. ground arith)
    | inr d ↦ rw (e, d) (ground arith, λ h. ground arith)
  ]
  | inr e ↦ rw e (ground arith, λ h. ground arith)
]

-- The blocks and the bytes do not depend on the size.
addr_of-resize :
    (ip ip' : Inode) (s : Blocks) (n : ℕ) → ip'.addrs ≡ ip.addrs → addr_of ip' s n ≡ addr_of ip s n
unfolding addr_of
addr_of-resize ip ip' s n e =
    ap
      (λ f.
        if ltb n 12
        then f n
        else if ltb (n - 12) 256
        then (if f 12 == 0 then 0 else s.contents (f 12) (n - 12))
        else 0)
      e

file_byte-resize :
    (ip ip' : Inode) (s : Blocks) (p : ℕ)
    → ip'.addrs ≡ ip.addrs
    → file_byte ip' s p ≡ file_byte ip s p
unfolding file_byte
file_byte-resize ip ip' s p e =
    ap (λ a. if a == 0 then 0 else block_byte (s.contents a) (p % 1024))
      (addr_of-resize ip ip' s (p / 1024) e)

IsLaid-resize : (ip ip' : Inode) (s : Blocks) → ip'.addrs ≡ ip.addrs → IsLaid ip s → IsLaid ip' s
IsLaid-resize ip ip' s e l =
    subst (λ f. Layout f (ip'.addrs 12) s.used) (sym (fun_ext (λ n. addr_of-resize ip ip' s n e)))
      (subst (λ t. Layout (addr_of ip s) t s.used) (sym (ap (λ f. f 12) e)) l)

-- What `writei` of `n` bytes leaves: the inode as `write_blocks` does, with the size for the bytes.
pub record Extended (src off n : ℕ) (mem : ℕ → ℕ) (ip : Inode) (s : Blocks) (ip' : Inode)
    (s' : Blocks) : Type 0 where
  pub below : off ≤ ip.size
  pub fits : off + n ≤ 274432
  pub count : ip.size ≤ ip'.size
  pub reaches : off + n ≤ ip'.size
  pub laid : IsLaid ip' s'
  pub held : (k : ℕ) → k < n → addr_of ip' s' ((off + k) / 1024) ≢ 0
  pub bytes : (k : ℕ) → k < n → file_byte ip' s' (off + k) ≡ mem (src + k) % 256
  pub others : (p : ℕ) → (p < off) ⊎ (off + n ≤ p) → file_byte ip' s' p ≡ file_byte ip s p

pub writei-Extended :
    (i src off n k : ℕ) (c c' : Icache) (mem : ℕ → ℕ)
    → IsLaid (node_of i c) c.blocks
    → off < 4294967296
    → n < 4294967296
    → writei i src off n c (kernel_memory mem) ≡ returns (pos k, c')
    → (k ≡ n) × Extended src off n mem (node_of i c) c.blocks (node_of i c') c'.blocks
writei-Extended i src off n k c c' mem l h h' e =
    let (below, fits, count, ((o, ip, s), b, g)) =
      writei-returns i src off n k c c' (kernel_memory mem) h h' e in
    let (p, w) =
      write_blocks-Written n 0 src off n mem (node_of i c) ip c.blocks s o l (omega arith)
        (omega arith) b in
    let w' : Written n off src mem (node_of i c) c.blocks ip s =
      subst (λ x. Written x off src mem (node_of i c) c.blocks ip s) (omega arith) w in
    let (q, t) = extend-node i n o ip s c in
    let a : (node_of i (extend i n o ip s c)).addrs ≡ ip.addrs =
      ap (λ x. x.addrs) q ∙ grown_node-addrs n o ip in
    let (grows, reaches) = grown_node-size n o ip in
    let z : (node_of i (extend i n o ip s c)).size ≡ (grown_node n o ip).size =
      ap (λ x. x.size) q in
    let ip' = node_of i (extend i n o ip s c) in
    let x : Extended src off n mem (node_of i c) c.blocks ip' s = record {
      below = below;
      fits = fits;
      count = omega (arith, grows, z, w.size);
      reaches = elim (Bool-cases (ltb 0 n)) [
        | inl d ↦ let r = reaches (ground arith) in omega (arith, r, z, p)
        | inr d ↦ let r : n ≤ 0 = ground arith in omega (arith, grows, z, w.size, below)
      ];
      laid = IsLaid-resize ip ip' s a w.laid;
      held = λ j d f. w'.held j d (sym (addr_of-resize ip ip' s ((off + j) / 1024) a) ∙ f);
      bytes = λ j d. file_byte-resize ip ip' s (off + j) a ∙ w'.bytes j d;
      others = λ j d. file_byte-resize ip ip' s j a ∙ w'.others j d;
    } in
    let y = subst (λ u. Extended src off n mem (node_of i c) c.blocks ip' u) (sym t) x in
    (count, subst (λ u. Extended src off n mem (node_of i c) c.blocks (node_of i u) u.blocks) g y)
