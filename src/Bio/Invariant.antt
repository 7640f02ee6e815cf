-- ===== src/Bio/Invariant.antt =====
-- What holds of the buffer cache of FileSystem-RAID/kernel/bio.c between any two calls.
use xv6_kernel_extensions.Prelude.{
  Bool, Option, ℕ, zero, suc, ◌+◌, ◌<◌, List, [], ◌∷◌, ◌≡◌, ◌≢◌, refl, inl, inr, ◌⊎◌, Elem, arith,
  ap, sym, ◌∙◌, update, update_ne, update_eq, subst, length,
}
use native.Mathlib.Decide.{ℕ_discrete}
use xv6_kernel_extensions.Links.{Distinct}
use xv6_kernel_extensions.Bio.{
  Block, Buf, Faults, Cache, Outcome, returns, nbuf, link_buffers, binit, bget,
}
use xv6_kernel_extensions.Bio.Get.{
  Got, Holds, Source, cached, recycled, BgetOutcome, returned, no_buffers, waits, bget-BgetOutcome,
}

-- The list links each of the buffers 0 to 29 once, and no block of a device is cached twice. Buffers
-- that were never used share the block 0 of device 0, which no device has.
pub record IsValid (s : Cache) : Type 0 where
  pub distinct : Distinct s.order
  pub buffers : (p : ℕ) → Elem p s.order → p < nbuf
  pub count : length s.order ≡ nbuf
  pub unique :
      (p q : ℕ)
      → Elem p s.order
      → Elem q s.order
      → (s.bufs p).dev ≢ 0
      → Holds (s.bufs p) (s.bufs q).dev (s.bufs q).blockno
      → p ≡ q

link_buffers-Distinct :
    (n b : ℕ) (l : List ℕ)
    → Distinct l
    → ((p : ℕ) → Elem p l → p < b)
    → Distinct (link_buffers n b l)
unfolding link_buffers
link_buffers-Distinct zero b l d h = d
link_buffers-Distinct (suc n) b l d h =
    link_buffers-Distinct n (b + 1) (b ∷ l) (λ m. let k = h b m in omega arith, d)
      (λ p m. elim m [ inl e ↦ omega arith | inr m' ↦ let k = h p m' in omega arith ])

link_buffers_below :
    (n b : ℕ) (l : List ℕ)
    → ((p : ℕ) → Elem p l → p < b)
    → (p : ℕ) → Elem p (link_buffers n b l)
    → p < n + b
unfolding link_buffers
link_buffers_below zero b l h p m = omega (arith, h p m)
link_buffers_below (suc n) b l h p m =
    let k =
      link_buffers_below n (b + 1) (b ∷ l)
        (λ q i. elim i [ inl e ↦ omega arith | inr i' ↦ let j = h q i' in omega arith ]) p m in
    omega (arith, k)

length-link_buffers : (n b : ℕ) (l : List ℕ) → length (link_buffers n b l) ≡ n + length l
unfolding link_buffers
length-link_buffers zero b l = omega arith
length-link_buffers (suc n) b l = omega (arith, length-link_buffers n (b + 1) (b ∷ l))

-- Zeroed buffers, linked by `binit`, satisfy the invariant.
pub binit-IsValid :
    (bufs : ℕ → Buf) (disk : ℕ → Block) (f : Faults)
    → ((p : ℕ) → (bufs p).dev ≡ 0)
    → IsValid (binit bufs disk f)
unfolding binit
binit-IsValid bufs disk f z = record {
  distinct = link_buffers-Distinct nbuf 0 [] tt (λ p m. absurd m);
  buffers = λ p m. (let k = link_buffers_below nbuf 0 [] (λ q i. absurd i) p m in omega (arith, k));
  count = length-link_buffers nbuf 0 [];
  unique = λ p q m k n h. absurd (n (z p));
}

abbrev pub SameBlock : Buf → Buf → Type 0
SameBlock v w = Holds v w.dev w.blockno

-- What a new value `v` of the buffer `b` has to satisfy.
abbrev pub Fits : Cache → ℕ → Buf → Type 0
Fits s b v =
    SameBlock v (s.bufs b) ⊎ ((p : ℕ) → Elem p s.order → ¬ Holds (s.bufs p) v.dev v.blockno)

module _ (s : Cache) (b : ℕ) (v : Buf) (w : IsValid s) (fits : Fits s b v) where
  unique_new :
      (q : ℕ) → Elem b s.order → Elem q s.order → v.dev ≢ 0 → SameBlock v (s.bufs q) → b ≡ q
  unique_new q m k n e = elim fits [
    | inl h ↦ w.unique b q m k (λ z. n (h.0 ∙ z)) (sym h.0 ∙ e.0, sym h.1 ∙ e.1)
    | inr h ↦ absurd (h q k (sym e.0, sym e.1))
  ]

  unique_pair :
      (p q : ℕ) (x y : Buf)
      → update s.bufs b v p ≡ x
      → update s.bufs b v q ≡ y
      → ((b ≡ p) × (x ≡ v)) ⊎ (x ≡ s.bufs p)
      → ((b ≡ q) × (y ≡ v)) ⊎ (y ≡ s.bufs q)
      → Elem p s.order
      → Elem q s.order
      → x.dev ≢ 0
      → SameBlock x y
      → p ≡ q
  unique_pair p q x y ex ey (inl a) (inl c) m k n e = sym a.0 ∙ c.0
  unique_pair p q x y ex ey (inl a) (inr c) m k n e =
      sym a.0
      ∙ unique_new q (subst (λ z. Elem z s.order) (sym a.0) m) k (rw (← a.1) n)
          (subst (λ z. SameBlock z (s.bufs q)) a.1 (subst (λ z. SameBlock x z) c e))
  unique_pair p q x y ex ey (inr a) (inl c) m k n e = sym (
      sym c.0
      ∙ unique_new p (subst (λ z. Elem z s.order) (sym c.0) k) m
          (λ z. n (e.0 ∙ ap (λ (t : Buf). t.dev) c.1 ∙ z))
          (subst (λ z. SameBlock v z) a (subst (λ z. SameBlock z x) c.1 (sym e.0, sym e.1))))
  unique_pair p q x y ex ey (inr a) (inr c) m k n e =
      w.unique p q m k (λ z. n (ap (λ (t : Buf). t.dev) a ∙ z))
        (subst (λ z. SameBlock z (s.bufs q)) a (subst (λ z. SameBlock x z) c e))

  update-cases : (p : ℕ) → ((b ≡ p) × (update s.bufs b v p ≡ v)) ⊎ (update s.bufs b v p ≡ s.bufs p)
  update-cases p = elim (ℕ_discrete b p) [
    | yes e ↦ inl (e, update_eq s.bufs b p v e)
    | no n ↦ inr (update_ne s.bufs b p v n)
  ]

  -- A new value for one buffer keeps the invariant, if it keeps the block or no buffer holds it.
  pub update-IsValid : IsValid (record s { bufs = update s.bufs b v })
  update-IsValid = record {
    distinct = w.distinct;
    buffers = w.buffers;
    count = w.count;
    unique = λ p q m k n e.
        unique_pair p q (update s.bufs b v p) (update s.bufs b v q) refl refl (update-cases p)
          (update-cases q) m k n e;
  }

Source-Fits :
    (dev blockno : ℕ) (s : Cache) (b : ℕ) (v : Buf)
    → Holds v dev blockno
    → Source dev blockno s b v
    → Fits s b v
Source-Fits dev blockno s b v i (cached h e) = inl (i.0 ∙ sym h.0, i.1 ∙ sym h.1)
Source-Fits dev blockno s b v i (recycled l r e z last n va rf) =
    inr (λ p m h. n p m (h.0 ∙ i.0, h.1 ∙ i.1))

pub bget-IsValid :
    (me dev blockno : ℕ) (s : Cache) {locked : Bool} {b : ℕ} {s' : Cache}
    → IsValid s
    → bget me dev blockno s ≡ returns (locked, b, s')
    → IsValid s'
bget-IsValid me dev blockno s {locked} {b} {s'} w e =
    from_outcome (bget me dev blockno s) e (bget-BgetOutcome me dev blockno s)
  where
    got-IsValid : {lock : Option ℕ} {c : ℕ} {t : Cache} → Got lock dev blockno s c t → IsValid t
    got-IsValid {lock} {c} {t} g =
        rw g.cache
          (update-IsValid s c g.value w (Source-Fits dev blockno s c g.value g.identity g.source))

    from_outcome :
        (o : Outcome (Bool × ℕ × Cache))
        → o ≡ returns (locked, b, s')
        → BgetOutcome me dev blockno s o
        → IsValid s'
    from_outcome o e (returned c t n g) =
        let same : t ≡ s' = ground arith in subst IsValid same (got-IsValid g)
    from_outcome o e (no_buffers n) = absurd (cc)
    from_outcome o e (waits c pid t l g) =
        let same : t ≡ s' = ground arith in subst IsValid same (got-IsValid g)
