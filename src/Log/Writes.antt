-- ===== src/Log/Writes.antt =====
-- The procedures of FileSystem-RAID/kernel/log.c as lists of disk writes.
use xv6_kernel_extensions.Prelude.{
  ℕ, zero, suc, ◌+◌, ◌-◌, ◌≤◌, ◌<◌, false, List, [], ◌∷◌, ◌++◌, ◌==◌, if◌then◌else◌, update,
  update_ne, length, take, ◌≡◌, refl, sym, ap, ◌∙◌, arith, All, inl, inr, ◌⊎◌, length-append,
}
use xv6_kernel_extensions.Log.{Block, Store, write_block, install_from, write_from}

abbrev pub Write : Type 0
Write = ℕ × Block

abbrev pub apply : List Write → (ℕ → Block) → ℕ → Block
apply [] d = d
apply ((b, v) ∷ w) d = apply w (update d b v)

pub apply-append : (w x : List Write) (d : ℕ → Block) → apply (w ++ x) d ≡ apply x (apply w d)
apply-append [] x d = refl
apply-append ((b, v) ∷ w) x d = apply-append w x (update d b v)

-- A run that writes `w`: the cache has all of it, the disk as much as the power lasted for.
pub record Effect (s : Store) (w : List Write) (t : Store) : Type 0 where
  pub cached : t.cached ≡ apply w s.cached
  pub disk : t.disk ≡ apply (take s.power w) s.disk
  pub power : t.power ≡ s.power - length w

take-append : (n : ℕ) (w x : List Write) → take n (w ++ x) ≡ take n w ++ take (n - length w) x
take-append zero w x = let e : 0 - length w ≡ 0 = omega arith in rw e
take-append (suc n) [] x = let e : suc n - 0 ≡ suc n = omega arith in rw e
take-append (suc n) (y ∷ w) x =
    let e : suc n - suc (length w) ≡ n - length w = omega arith in
    rw e (ap (λ k. y ∷ k) (take-append n w x))

pub Effect-append :
    {s t u : Store} {w x : List Write} → Effect s w t → Effect t x u → Effect s (w ++ x) u
Effect-append {s} {t} {u} {w} {x} e f = record {
  cached = f.cached ∙ (ap (apply x) e.cached ∙ sym (apply-append w x s.cached));
  disk =
      rw
        (
          take-append s.power w x,
          apply-append (take s.power w) (take (s.power - length w) x) s.disk,
        )
        (f.disk ∙ rw (e.power, e.disk) refl);
  power = omega (arith, e.power, f.power, length-append w x);
}

take-nil : (n : ℕ) → take {A = Write} n [] ≡ []
take-nil zero = refl
take-nil (suc n) = refl

one_write :
    (n b : ℕ) (v : Block) (d : ℕ → Block)
    → (if n == 0 then d else update d b v) ≡ apply (take n ((b, v) ∷ [])) d
one_write zero b v d = refl
one_write (suc n) b v d = let e : (suc n == 0) ≡ false = ground arith in rw (e, take-nil n) refl

pub write_block-Effect :
    (b : ℕ) (v : Block) (s : Store) → Effect s ((b, v) ∷ []) (write_block b v s)
unfolding write_block
write_block-Effect b v s = record {
  cached = refl;
  disk = one_write s.power b v s.disk;
  power = refl;
}

-- The blocks of the log, from the slot `a` on, and their homes.
abbrev pub slot_writes : ℕ → List ℕ → (ℕ → Block) → List Write
slot_writes a [] c = []
slot_writes a (b ∷ bs) c = (a, c b) ∷ slot_writes (a + 1) bs c

abbrev pub home_writes : List ℕ → (ℕ → Block) → List Write
home_writes [] c = []
home_writes (b ∷ bs) c = (b, c b) ∷ home_writes bs c

-- The slots from `a` on hold the contents `c` of the blocks.
abbrev pub Logged : ℕ → List ℕ → (ℕ → Block) → (ℕ → Block) → Type 0
Logged a [] c d = Unit
Logged a (b ∷ bs) c d = (d a ≡ c b) × Logged (a + 1) bs c d

-- Outside of the blocks `lo` to `hi - 1`.
abbrev pub Outside : ℕ → ℕ → ℕ → Type 0
Outside lo hi b = (b < lo) ⊎ (hi ≤ b)

cached-write_block :
    (b : ℕ) (v : Block) (s : Store) → (write_block b v s).cached ≡ update s.cached b v
unfolding write_block
cached-write_block b v s = refl

module _ (lo hi : ℕ) (c : ℕ → Block) where
  -- Writing one block leaves the others.
  kept_others :
      (bs : List ℕ) (a : ℕ) (v : Block) (f : ℕ → Block)
      → lo ≤ a
      → a < hi
      → All (Outside lo hi) bs
      → All (λ b. f b ≡ c b) bs
      → All (λ b. update f a v b ≡ c b) bs
  kept_others [] a v f l h o k = tt
  kept_others (b ∷ bs) a v f l h o k =
      (update_ne f a b v (λ e. apart b e o.0) ∙ k.0, kept_others bs a v f l h o.1 k.1)
    where
      apart : (b : ℕ) → a ≡ b → Outside lo hi b → ⊥
      apart b e (inl x) = absurd (omega arith)
      apart b e (inr x) = absurd (omega arith)

  pub write_from-Effect :
      (bs : List ℕ) (a : ℕ) (s : Store)
      → lo ≤ a
      → a + length bs ≤ hi
      → All (Outside lo hi) bs
      → All (λ b. s.cached b ≡ c b) bs
      → Effect s (slot_writes a bs c) (write_from a bs s)
  unfolding write_from
  write_from-Effect [] a s l h o k = record {
    cached = refl;
    disk = rw (take-nil s.power);
    power = omega arith;
  }
  write_from-Effect (b ∷ bs) a s l h o k = rw k.0 (
      Effect-append (write_block-Effect a (c b) s) (
        write_from-Effect bs (a + 1) (write_block a (c b) s) (omega arith) (omega arith) o.1 (
          rw (cached-write_block a (c b) s)
            (kept_others bs a (c b) s.cached l (omega arith) o.1 k.1))))

  -- A write outside of the slots leaves them.
  pub Logged-update :
      (bs : List ℕ) (a b : ℕ) (v : Block) (d : ℕ → Block)
      → lo ≤ a
      → a + length bs ≤ hi
      → Outside lo hi b
      → Logged a bs c d
      → Logged a bs c (update d b v)
  Logged-update [] a b v d l h o k = tt
  Logged-update (x ∷ bs) a b v d l h o k = (
    update_ne d b a v (λ e. apart e o) ∙ k.0,
    Logged-update bs (a + 1) b v d (omega arith) (omega arith) o k.1,
  )
    where
      apart : b ≡ a → Outside lo hi b → ⊥
      apart e (inl y) = absurd (omega arith)
      apart e (inr y) = absurd (omega arith)

  pub install_from-Effect :
      (bs : List ℕ) (a : ℕ) (s : Store)
      → lo ≤ a
      → a + length bs ≤ hi
      → All (Outside lo hi) bs
      → Logged a bs c s.cached
      → Effect s (home_writes bs c) (install_from a bs s)
  unfolding install_from
  install_from-Effect [] a s l h o k = record {
    cached = refl;
    disk = rw (take-nil s.power);
    power = omega arith;
  }
  install_from-Effect (b ∷ bs) a s l h o k = rw k.0 (
      Effect-append (write_block-Effect b (c b) s) (
        install_from-Effect bs (a + 1) (write_block b (c b) s) (omega arith) (omega arith) o.1 (
          rw (cached-write_block b (c b) s)
            (Logged-update bs (a + 1) b (c b) s.cached (omega arith) (omega arith) o.0 k.1))))
