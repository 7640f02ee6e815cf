-- ===== src/Bio/Find.antt =====
-- The two scans of `bget` in FileSystem-RAID/kernel/bio.c.
use xv6_kernel_extensions.Prelude.{
  ℕ, Bool, true, false, List, [], ◌∷◌, ◌++◌, none, some, ◌≡◌, refl, inl, inr, Elem, arith,
  Bool-cases, Option-cases, ap, sym, ◌∙◌,
}
use xv6_kernel_extensions.Bio.{Buf, find_buf, find_last}

module _ (test : Buf → Bool) (bufs : ℕ → Buf) where
  pub find_buf-some :
      (l : List ℕ) (b : ℕ) → find_buf test bufs l ≡ some b → Elem b l × (test (bufs b) ≡ true)
  unfolding find_buf
  find_buf-some [] b e = absurd (cc)
  find_buf-some (x ∷ l) b e = elim (Bool-cases (test (bufs x))) [
    | inl t ↦ let same : x ≡ b = ground arith in (inl (sym same), rw (← same) t)
    | inr f ↦ let (m, t) = find_buf-some l b (rw f at e) in (inr m, t)
  ]

  pub find_buf-none :
      (l : List ℕ) → find_buf test bufs l ≡ none → (p : ℕ) → Elem p l → test (bufs p) ≡ false
  unfolding find_buf
  find_buf-none [] e p m = absurd m
  find_buf-none (x ∷ l) e p m = elim (Bool-cases (test (bufs x))) [
    | inl t ↦ ground arith
    | inr f ↦ elim m [ inl eq ↦ rw eq f | inr m' ↦ find_buf-none l (rw f at e) p m' ]
  ]

  pub find_last-none :
      (l : List ℕ) → find_last test bufs l ≡ none → (p : ℕ) → Elem p l → test (bufs p) ≡ false
  unfolding find_last
  find_last-none [] e p m = absurd m
  find_last-none (x ∷ l) e p m = elim (Option-cases (find_last test bufs l)) [
    | inr c ↦ ground arith
    | inl n ↦ elim m [ inl eq ↦ rw eq (ground (arith, n)) | inr m' ↦ find_last-none l n p m' ]
  ]

  -- The last buffer that passes: none behind it does.
  pub find_last-some :
      (l : List ℕ) (b : ℕ)
      → find_last test bufs l ≡ some b
      → (before : List ℕ) × (after : List ℕ) × (l ≡ before ++ b ∷ after)
        × (test (bufs b) ≡ true)
        × ((p : ℕ) → Elem p after → test (bufs p) ≡ false)
  unfolding find_last
  find_last-some [] b e = absurd (cc)
  find_last-some (x ∷ l) b e = elim (Option-cases (find_last test bufs l)) [
    | inr c ↦
        let same : find_last test bufs l ≡ some b = c.1 ∙ ground (arith, c.1) in
        let (u, v, s, t, n) = find_last-some l b same in (x ∷ u, v, ap (λ k. x ∷ k) s, t, n)
    | inl n ↦ elim (Bool-cases (test (bufs x))) [
      | inl t ↦
          let same : x ≡ b = ground (arith, n) in
          ([], l, ap (λ k. k ∷ l) same, rw (← same) t, find_last-none l n)
      | inr f ↦ ground (arith, n)
    ]
  ]

pub Elem-middle : (l r : List ℕ) (b : ℕ) → Elem b (l ++ b ∷ r)
Elem-middle [] r b = inl refl
Elem-middle (x ∷ l) r b = inr (Elem-middle l r b)
