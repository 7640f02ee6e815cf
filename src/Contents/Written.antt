-- ===== src/Contents/Written.antt =====
-- What the loop of `writei` of FileSystem-RAID/kernel/fs.c leaves, when it copies from the kernel.
use xv6_kernel_extensions.Prelude.{
  ℕ, ◌+◌, ◌-◌, ◌/◌, ◌%◌, ◌<◌, ◌≤◌, ltb, update, update_ne, ◌≡◌, ◌≢◌, refl, sym, ap, ◌∙◌,
  update_self, subst, fun_ext, arith, inl, inr, ◌⊎◌, Bool-cases,
}
use native.Mathlib.Decide.{ℕ_discrete}
use xv6_kernel_extensions.Blocks.{Blocks, Inode}
use xv6_kernel_extensions.Contents.{block_byte, block_of}
use xv6_kernel_extensions.Contents.Layout.{Layout}
use xv6_kernel_extensions.Contents.Position.{addr_of, addr_same, IsLaid}
use xv6_kernel_extensions.Contents.Bytes.{
  file_byte, byte_none, byte_some, block_byte-block_of, block_byte_small,
}
use xv6_kernel_extensions.Vm.Copy.{move_bytes}
use xv6_kernel_extensions.Vm.Transfer.{move_bytes-in, move_bytes-out}

-- The `len` bytes at `off` are those of `mem` at `src`, and the others are as they were.
pub record Written (len off src : ℕ) (mem : ℕ → ℕ) (ip : Inode) (s : Blocks) (ip' : Inode)
    (s' : Blocks) : Type 0 where
  pub laid : IsLaid ip' s'
  pub size : ip'.size ≡ ip.size
  pub held : (i : ℕ) → i < len → addr_of ip' s' ((off + i) / 1024) ≢ 0
  pub grown : (n : ℕ) → addr_of ip s n ≢ 0 → addr_of ip' s' n ≢ 0
  pub bytes : (i : ℕ) → i < len → file_byte ip' s' (off + i) ≡ mem (src + i) % 256
  pub others : (p : ℕ) → (p < off) ⊎ (off + len ≤ p) → file_byte ip' s' p ≡ file_byte ip s p

pub Written-none :
    (off src : ℕ) (mem : ℕ → ℕ) (ip : Inode) (s : Blocks)
    → IsLaid ip s
    → Written 0 off src mem ip s ip s
Written-none off src mem ip s l = record {
  laid = l;
  size = refl;
  held = λ i h. absurd (omega arith);
  grown = λ n h. h;
  bytes = λ i h. absurd (omega arith);
  others = λ p h. refl;
}

pub Written-append :
    (m k off src : ℕ) (mem : ℕ → ℕ) (ip ip1 ip2 : Inode) (s s1 s2 : Blocks)
    → Written m off src mem ip s ip1 s1
    → Written k (off + m) (src + m) mem ip1 s1 ip2 s2
    → Written (m + k) off src mem ip s ip2 s2
Written-append m k off src mem ip ip1 ip2 s s1 s2 a b = record {
  laid = b.laid;
  size = b.size ∙ a.size;
  held = λ i h. elim (Bool-cases (ltb i m)) [
    | inl e ↦ b.grown ((off + i) / 1024) (a.held i (ground arith))
    | inr e ↦
        let g : m ≤ i = ground arith in
        subst (λ x. addr_of ip2 s2 (x / 1024) ≢ 0) (omega arith) (b.held (i - m) (omega arith))
  ];
  grown = λ n h. b.grown n (a.grown n h);
  bytes = λ i h. elim (Bool-cases (ltb i m)) [
    | inl e ↦ let g : i < m = ground arith in b.others (off + i) (inl (omega arith)) ∙ a.bytes i g
    | inr e ↦
        let g : m ≤ i = ground arith in
        ap (file_byte ip2 s2) (omega arith)
        ∙ (b.bytes (i - m) (omega arith) ∙ ap (λ x. mem x % 256) (omega arith))
  ];
  others = λ p h. elim h [
    | inl l ↦ b.others p (inl (omega arith)) ∙ a.others p (inl l)
    | inr g ↦ b.others p (inr (omega arith)) ∙ a.others p (inr (omega arith))
  ];
}

-- A write into the block `a` of the position of `off`.
module _ (m off src a : ℕ) (mem : ℕ → ℕ) (ip : Inode) (s : Blocks) (l : IsLaid ip s)
    (here : addr_of ip s (off / 1024) ≡ a) (nonzero : a ≢ 0) (fits : off % 1024 + m ≤ 1024) where
  abbrev new_bytes : ℕ → ℕ
  new_bytes = move_bytes m (off % 1024) src mem (block_byte (s.contents a))

  abbrev stored : Blocks
  stored = record s { contents = update s.contents a (block_of new_bytes) }

  stored_addr : (n : ℕ) → addr_of ip stored n ≡ addr_of ip s n
  stored_addr n =
      addr_same ip ip s stored n (λ _. refl) refl
        (λ _ w.
          ap (λ v. v (n - 12))
            (update_ne s.contents a (ip.addrs 12) (block_of new_bytes)
              (λ e. l.table_once (off / 1024) (λ z. nonzero (sym here ∙ z)) (here ∙ e))))

  stored_row : stored.contents a ≡ block_of new_bytes
  stored_row = update_self s.contents a (block_of new_bytes)

  stored_here : (p : ℕ) → p / 1024 ≡ off / 1024 → file_byte ip stored p ≡ new_bytes (p % 1024) % 256
  stored_here p e =
      byte_some ip stored p a (stored_addr (p / 1024) ∙ (ap (addr_of ip s) e ∙ here)) nonzero
      ∙ (ap (λ v. block_byte v (p % 1024)) stored_row ∙ block_byte-block_of new_bytes (p % 1024))

  stored_there : (p : ℕ) → p / 1024 ≢ off / 1024 → file_byte ip stored p ≡ file_byte ip s p
  stored_there p e = elim (ℕ_discrete (addr_of ip s (p / 1024)) 0) [
    | yes z ↦ byte_none ip stored p (stored_addr (p / 1024) ∙ z) ∙ sym (byte_none ip s p z)
    | no z ↦
        let ne : a ≢ addr_of ip s (p / 1024) =
          λ w. e (l.once (p / 1024) (off / 1024) z (sym w ∙ sym here)) in
        byte_some ip stored p (addr_of ip s (p / 1024)) (stored_addr (p / 1024)) z
        ∙ (ap (λ v. block_byte v (p % 1024))
              (update_ne s.contents a (addr_of ip s (p / 1024)) (block_of new_bytes) ne)
            ∙ sym (byte_some ip s p (addr_of ip s (p / 1024)) refl z))
  ]

  stored_outside : (p : ℕ) → (p < off) ⊎ (off + m ≤ p) → file_byte ip stored p ≡ file_byte ip s p
  stored_outside p h = elim (ℕ_discrete (p / 1024) (off / 1024)) [
    | no e ↦ stored_there p e
    | yes e ↦
        let out : (p % 1024 < off % 1024) ⊎ (off % 1024 + m ≤ p % 1024) = elim h [
          | inl x ↦ inl (omega arith)
          | inr x ↦ inr (omega arith)
        ] in
        stored_here p e
        ∙ (ap (λ x. x % 256)
              (move_bytes-out m (off % 1024) src (p % 1024) mem (block_byte (s.contents a)) out)
            ∙ (block_byte_small (s.contents a) (p % 1024)
                ∙ sym (byte_some ip s p a (ap (addr_of ip s) e ∙ here) nonzero)))
  ]

  pub stored-Written : Written m off src mem ip s ip stored
  stored-Written = record {
    laid = subst (λ f. Layout f (ip.addrs 12) s.used) (sym (fun_ext stored_addr)) l;
    size = refl;
    held = λ i h z.
        let e : (off + i) / 1024 ≡ off / 1024 = omega (arith, fits) in
        nonzero
          (sym here ∙ (ap (addr_of ip s) (sym e) ∙ (sym (stored_addr ((off + i) / 1024)) ∙ z)));
    grown = λ n h z. h (sym (stored_addr n) ∙ z);
    bytes = λ i h.
        stored_here (off + i) (omega (arith, fits))
        ∙ ap (λ x. x % 256)
            (ap new_bytes (omega (arith, fits))
              ∙ move_bytes-in m (off % 1024) src i mem (block_byte (s.contents a)) h);
    others = stored_outside;
  }
