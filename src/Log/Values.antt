-- ===== src/Log/Values.antt =====
-- What lists of disk writes leave on a disk, and the header block of FileSystem-RAID/kernel/log.c.
use xv6_kernel_extensions.Prelude.{
  ℕ, zero, suc, ◌+◌, ◌≤◌, ◌<◌, List, [], ◌∷◌, update, update_ne, update_eq, update_self, length,
  take, ◌≡◌, ◌≢◌, refl, sym, ap, ◌∙◌, arith, Elem, All, inl, inr, ◌⊎◌,
}
use native.Mathlib.Decide.{ℕ_discrete}
use mathlib.Core.Path.{ap₂}
use xv6_kernel_extensions.Log.{Block, words, put_words, header}
use xv6_kernel_extensions.Log.Writes.{
  Write, apply, slot_writes, home_writes, Logged, Outside, Logged-update,
}

-- No write goes to the block `x`.
abbrev pub Avoids : ℕ → List Write → Type 0
Avoids x w = All (λ p. p.0 ≢ x) w

pub apply_avoiding : (w : List Write) (x : ℕ) (d : ℕ → Block) → Avoids x w → apply w d x ≡ d x
apply_avoiding [] x d n = refl
apply_avoiding ((b, v) ∷ w) x d n = apply_avoiding w x (update d b v) n.1 ∙ update_ne d b x v n.0

pub take-Avoids : (n : ℕ) (w : List Write) (x : ℕ) → Avoids x w → Avoids x (take n w)
take-Avoids zero w x a = tt
take-Avoids (suc n) [] x a = tt
take-Avoids (suc n) (y ∷ w) x a = (a.0, take-Avoids n w x a.1)

module _ (c : ℕ → Block) where
  -- The log's writes go to the slots alone, and fill them.
  pub slot_writes-Avoids :
      (bs : List ℕ) (a x : ℕ) → (x < a) ⊎ (a + length bs ≤ x) → Avoids x (slot_writes a bs c)
  slot_writes-Avoids [] a x o = tt
  slot_writes-Avoids (b ∷ bs) a x o =
      (λ e. omega arith, slot_writes-Avoids bs (a + 1) x (omega arith))

  pub slot_writes-Logged :
      (bs : List ℕ) (a : ℕ) (d : ℕ → Block) → Logged a bs c (apply (slot_writes a bs c) d)
  slot_writes-Logged [] a d = tt
  slot_writes-Logged (b ∷ bs) a d = (
    apply_avoiding (slot_writes (a + 1) bs c) a (update d a (c b))
          (slot_writes-Avoids bs (a + 1) a (inl (omega arith)))
        ∙ update_self d a (c b),
    slot_writes-Logged bs (a + 1) (update d a (c b)),
  )

  -- The installed writes go to the homes alone, and give each its contents.
  pub home_writes-Avoids : (bs : List ℕ) (x : ℕ) → ¬ Elem x bs → Avoids x (home_writes bs c)
  home_writes-Avoids [] x n = tt
  home_writes-Avoids (b ∷ bs) x n = (λ e. n (inl (sym e)), home_writes-Avoids bs x (λ m. n (inr m)))

  pub home_writes-value :
      (bs : List ℕ) (x : ℕ) (d : ℕ → Block)
      → Elem x bs ⊎ (d x ≡ c x)
      → apply (home_writes bs c) d x ≡ c x
  home_writes-value [] x d (inl m) = absurd m
  home_writes-value [] x d (inr e) = e
  home_writes-value (b ∷ bs) x d m =
      home_writes-value bs x (update d b (c b)) (elim (ℕ_discrete b x) [
        | yes e ↦ inr (update_eq d b x (c b) e ∙ ap c e)
        | no n ↦ elim m [
          | inl k ↦ elim k [ inl e ↦ absurd (n (sym e)) | inr k' ↦ inl k' ]
          | inr e ↦ inr (update_ne d b x (c b) n ∙ e)
        ]
      ])

  -- Any part of the installed writes leaves the slots.
  pub home_writes-Logged :
      (lo hi n : ℕ) (hs bs : List ℕ) (a : ℕ) (d : ℕ → Block)
      → lo ≤ a
      → a + length bs ≤ hi
      → All (Outside lo hi) hs
      → Logged a bs c d
      → Logged a bs c (apply (take n (home_writes hs c)) d)
  home_writes-Logged lo hi zero hs bs a d l h o k = k
  home_writes-Logged lo hi (suc n) [] bs a d l h o k = k
  home_writes-Logged lo hi (suc n) (x ∷ hs) bs a d l h o k =
      home_writes-Logged lo hi n hs bs a (update d x (c x)) l h o.1
        (Logged-update lo hi c bs a x (c x) d l h o.0 k)

put_words-below : (bs : List ℕ) (i j : ℕ) (v : Block) → j < i → put_words i bs v j ≡ v j
unfolding put_words
put_words-below [] i j v h = refl
put_words-below (b ∷ bs) i j v h =
    put_words-below bs (i + 1) j (update v i b) (omega arith) ∙ update_ne v i j b (λ e. omega arith)

words-put_words : (bs : List ℕ) (i : ℕ) (v : Block) → words (length bs) i (put_words i bs v) ≡ bs
unfolding words put_words
words-put_words [] i v = refl
words-put_words (b ∷ bs) i v =
    ap₂ ◌∷◌ (put_words-below bs (i + 1) i (update v i b) (omega arith) ∙ update_self v i b)
      (words-put_words bs (i + 1) (update v i b))

-- The header block that is written for a list of block numbers is read as that list.
pub words-header :
    (bs : List ℕ) (v : Block)
    → (header bs v 0 ≡ length bs) × (words (header bs v 0) 1 (header bs v) ≡ bs)
unfolding header
words-header bs v =
    let n : put_words 1 bs (update v 0 (length bs)) 0 ≡ length bs =
      put_words-below bs 1 0 (update v 0 (length bs)) (omega arith) ∙ update_self v 0 (length bs) in
    (
      n,
      ap (λ k. words k 1 (put_words 1 bs (update v 0 (length bs)))) n
          ∙ words-put_words bs 1 (update v 0 (length bs)),
    )
