-- ===== src/Blocks/Free.antt =====
-- The free map of FileSystem-RAID/kernel/fs.c: `balloc` and `bfree`.
use xv6_kernel_extensions.Prelude.{
  ℕ, zero, suc, ◌+◌, ◌*◌, ◌<◌, ◌≤◌, Bool, true, false, Option, none, some, ltb, update, ◌≡◌, ◌≢◌,
  refl, sym, ap, ◌∙◌, arith, update_self, update_ne, update_eq, Bool-cases, inl, inr, subst,
}
use native.Mathlib.Decide.{ℕ_discrete}
use xv6_kernel_extensions.Bio.{Outcome, returns, panics, sleeps}
use xv6_kernel_extensions.Blocks.{Blocks, scan_bits, scan_map, bzero, take_block, balloc, bfree}

-- The first clear bit from `lo` up to `hi`, below the size, if there is one.
abbrev pub FirstFree : (ℕ → Bool) → ℕ → ℕ → ℕ → Option ℕ → Type 0
FirstFree used size lo hi none = (y : ℕ) → lo ≤ y → y < hi → y < size → used y ≡ true
FirstFree used size lo hi (some x) =
    (lo ≤ x) × (x < hi) × (x < size) × (used x ≡ false) × ((y : ℕ) → lo ≤ y → y < x → used y ≡ true)

one_used :
    (used : ℕ → Bool) (size lo hi : ℕ) (o : Option ℕ)
    → used lo ≡ true
    → FirstFree used size (lo + 1) hi o
    → FirstFree used size lo hi o
one_used used size lo hi none u f =
    λ y l h s. elim (ℕ_discrete lo y) [ yes e ↦ ap used (sym e) ∙ u | no n ↦ f y (omega arith) h s ]
one_used used size lo hi (some x) u f = (
  omega arith,
  f.1,
  f.2,
  f.3,
  λ y l h. elim (ℕ_discrete lo y) [ yes e ↦ ap used (sym e) ∙ u | no n ↦ f.4 y (omega arith) h ],
)

scan_bits-FirstFree :
    (m size : ℕ) (used : ℕ → Bool) (b bi : ℕ)
    → FirstFree used size (b + bi) (b + bi + m) (scan_bits m size used b bi)
unfolding scan_bits
scan_bits-FirstFree zero size used b bi = λ y l h s. absurd (omega arith)
scan_bits-FirstFree (suc m) size used b bi = elim (Bool-cases (ltb (b + bi) size)) [
  | inr e ↦ rw e (λ y l h s. absurd (ground arith))
  | inl e ↦ elim (Bool-cases (used (b + bi))) [
    | inr u ↦ rw (e, u) (omega arith, omega arith, ground arith, u, λ y l h. absurd (omega arith))
    | inl u ↦
        rw (e, u)
          (one_used used size (b + bi) (b + bi + suc m) (scan_bits m size used b (bi + 1)) u (
            subst (λ k. FirstFree used size k (b + bi + suc m) (scan_bits m size used b (bi + 1)))
              (omega arith)
              (subst (λ k. FirstFree used size (b + (bi + 1)) k (scan_bits m size used b (bi + 1)))
                (omega arith) (scan_bits-FirstFree m size used b (bi + 1)))))
  ]
]

-- A part of the map with a clear bit, or without, and then the rest.
then_rest :
    (used : ℕ → Bool) (size lo mid hi : ℕ) (o r : Option ℕ)
    → lo ≤ mid
    → mid ≤ hi
    → FirstFree used size lo mid o
    → FirstFree used size mid hi r
    → FirstFree used size lo hi (elim o [ some a ↦ some a | none ↦ r ])
then_rest used size lo mid hi (some x) r h k f g = (f.0, omega (arith, f.1), f.2, f.3, f.4)
then_rest used size lo mid hi none none h k f g = λ y l u s. elim (Bool-cases (ltb y mid)) [
  | inl e ↦ f y l (ground arith) s
  | inr e ↦ g y (ground arith) u s
]
then_rest used size lo mid hi none (some x) h k f g = (
  omega (arith, g.0),
  g.1,
  g.2,
  g.3,
  λ y l u. elim (Bool-cases (ltb y mid)) [
    | inl e ↦ f y l (ground arith) (omega (arith, g.0, g.2))
    | inr e ↦ g.4 y (ground arith) u
  ],
)

scan_map-FirstFree :
    (fuel size : ℕ) (used : ℕ → Bool) (b : ℕ)
    → FirstFree used size b (b + fuel * 8192) (scan_map fuel size used b)
unfolding scan_map
scan_map-FirstFree zero size used b = λ y l h s. absurd (omega arith)
scan_map-FirstFree (suc fuel) size used b = elim (Bool-cases (ltb b size)) [
  | inr e ↦ rw e (λ y l h s. absurd (ground arith))
  | inl e ↦ rw e (
      then_rest used size b (b + 8192) (b + suc fuel * 8192) (scan_bits 8192 size used b 0)
        (scan_map fuel size used (b + 8192)) (omega arith) (omega arith) (first b)
        (subst (λ k. FirstFree used size (b + 8192) k (scan_map fuel size used (b + 8192)))
          (omega arith) (scan_map-FirstFree fuel size used (b + 8192))))
]
  where
    first : (b : ℕ) → FirstFree used size b (b + 8192) (scan_bits 8192 size used b 0)
    first b =
        let z : b + 0 ≡ b = omega arith in
        subst (λ k. FirstFree used size k (k + 8192) (scan_bits 8192 size used b 0)) z
          (scan_bits-FirstFree 8192 size used b 0)

-- What `balloc` gives: the first free block, zeroed, and nothing else changed; it panics if all
-- blocks are used.
abbrev pub Allocated : Blocks → Outcome (ℕ × Blocks) → Type 0
Allocated s (returns (b, s')) =
    (b < s.size)
    × (s.used b ≡ false)
    × ((y : ℕ) → y < b → s.used y ≡ true)
    × (s'.used b ≡ true)
    × ((i : ℕ) → s'.contents b i ≡ 0)
    × ((y : ℕ) → b ≢ y → (s'.used y ≡ s.used y) × (s'.contents y ≡ s.contents y))
    × (s'.size ≡ s.size)
Allocated s panics = (y : ℕ) → y < s.size → s.used y ≡ true
Allocated s sleeps = ⊥

take_block-Allocated :
    (s : Blocks) (o : Option ℕ) (hi : ℕ)
    → s.size ≤ hi
    → FirstFree s.used s.size 0 hi o
    → Allocated s (take_block s o)
unfolding take_block bzero
take_block-Allocated s none hi h f = λ y l. f y (omega arith) (omega arith) l
take_block-Allocated s (some b) hi h f = (
  f.2,
  f.3,
  λ y l. f.4 y (omega arith) l,
  update_self s.used b true,
  λ i. ap (λ v. v i) (update_self s.contents b (λ i. 0)),
  λ y n. (update_ne s.used b y true n, update_ne s.contents b y (λ i. 0) n),
  refl,
)

-- `balloc` returns the first block of the disk that the free map has as free, marked as used and
-- zeroed, and changes no other block nor bit. It panics only if every block is used.
pub balloc-Allocated : (s : Blocks) → Allocated s (balloc s)
unfolding balloc
balloc-Allocated s =
    take_block-Allocated s (scan_map (s.size + 1) s.size s.used 0) (0 + (s.size + 1) * 8192)
      (omega arith) (scan_map-FirstFree (s.size + 1) s.size s.used 0)

-- If `balloc` returns a block, freeing it restores the free map; freeing it again panics.
pub bfree-balloc :
    (s s' : Blocks) (b : ℕ)
    → balloc s ≡ returns (b, s')
    → (t : Blocks) × (bfree b s' ≡ returns t)
      × ((y : ℕ) → t.used y ≡ s.used y)
      × (bfree b t ≡ panics)
unfolding bfree
bfree-balloc s s' b h =
    let a : Allocated s (returns (b, s')) = subst (Allocated s) h (balloc-Allocated s) in
    (
      record s' { used = update s'.used b false },
      rw a.3 refl,
      λ y. elim (ℕ_discrete b y) [
        | yes e ↦ update_eq s'.used b y false e ∙ (sym a.1 ∙ ap s.used e)
        | no n ↦ update_ne s'.used b y false n ∙ (a.5 y n).0
      ],
      rw (update_self s'.used b false) refl,
    )
