-- ===== src/Log/Crash.antt =====
-- The commit of FileSystem-RAID/kernel/log.c, cut off by a crash after any number of disk writes.
use xv6_kernel_extensions.Prelude.{
  ℕ, zero, suc, ◌+◌, List, [], ◌∷◌, ◌++◌, update, update_ne, update_self, length, take, ◌≡◌, refl,
  ap, ◌∙◌, arith, Elem, All, inl, inr, ◌⊎◌, subst, All-Elem,
}
use xv6_kernel_extensions.Log.{Block, words, header}
use xv6_kernel_extensions.Log.Writes.{Write, apply, home_writes, Logged, Outside}
use xv6_kernel_extensions.Log.Values.{
  Avoids, apply_avoiding, take-Avoids, home_writes-Avoids, home_writes-value, home_writes-Logged,
  words-header,
}

-- A write list cut off after `n` writes ends in its first part, or has that part whole.
pub take-cases :
    (n : ℕ) (w x : List Write)
    → ((k : ℕ) × (take n (w ++ x) ≡ take k w)) ⊎ ((k : ℕ) × (take n (w ++ x) ≡ w ++ take k x))
take-cases n [] x = inr (n, refl)
take-cases zero (y ∷ w) x = inl (0, refl)
take-cases (suc n) (y ∷ w) x = elim (take-cases n w x) [
  | inl k ↦ inl (suc k.0, ap (λ l. y ∷ l) k.1)
  | inr k ↦ inr (k.0, ap (λ l. y ∷ l) k.1)
]

pub take-one :
    (n : ℕ) (y : Write) (x : List Write)
    → (take n (y ∷ x) ≡ []) ⊎ ((k : ℕ) × (take n (y ∷ x) ≡ y ∷ take k x))
take-one zero y x = inl refl
take-one (suc n) y x = inr (n, refl)

-- The disk at a crash, where the log starts at `st`, holds the blocks `bs`, whose new contents are
-- `c`, and `d` was the disk before the commit.
module _ (st : ℕ) (bs : List ℕ) (c d : ℕ → Block) where
  abbrev pub end : ℕ
  end = st + 1 + length bs

  abbrev pub InLog : ℕ → Type 0
  InLog x = ¬ Outside st end x

  -- The blocks that the transaction does not write, outside of the log.
  abbrev pub OthersKept : (ℕ → Block) → Type 0
  OthersKept e = (x : ℕ) → Outside st end x → ¬ Elem x bs → e x ≡ d x

  pub data CrashState (e : ℕ → Block) : Type 0 where
    before : e st 0 ≡ 0 → ((x : ℕ) → Outside st end x → e x ≡ d x) → CrashState e
    committed : words (e st 0) 1 (e st) ≡ bs → Logged (st + 1) bs c e → OthersKept e → CrashState e
    installed : e st 0 ≡ 0 → ((x : ℕ) → Elem x bs → e x ≡ c x) → OthersKept e → CrashState e

  -- No transaction is pending, and the disk has all of the blocks.
  abbrev pub Installed : (ℕ → Block) → Type 0
  Installed e = (e st 0 ≡ 0) × ((x : ℕ) → Elem x bs → e x ≡ c x) × OthersKept e

  -- No transaction is pending: the disk has all of the blocks or none of them.
  abbrev pub Settled : (ℕ → Block) → Type 0
  Settled e =
      (e st 0 ≡ 0)
      × (((x : ℕ) → Outside st end x → e x ≡ d x)
          ⊎ (((x : ℕ) → Elem x bs → e x ≡ c x) × OthersKept e))

  pub Settled→CrashState : (e : ℕ → Block) → Settled e → CrashState e
  Settled→CrashState e (h, inl k) = before h k
  Settled→CrashState e (h, inr k) = installed h k.0 k.1

  module _ (homes : All (Outside st end) bs) where
    -- The log's blocks are no homes.
    apart : (bs' : List ℕ) (x : ℕ) → All (Outside st end) bs' → InLog x → ¬ Elem x bs'
    apart bs' x h i m = i (All-Elem (Outside st end) bs' h m)

    pub inner : (bs' : List ℕ) → All (Outside st end) bs' → All (Outside (st + 1) end) bs'
    inner [] h = tt
    inner (b ∷ bs') h = (elim h.0 [ inl x ↦ inl (omega arith) | inr x ↦ inr x ], inner bs' h.1)

    header-InLog : InLog st
    header-InLog o = omega arith

    home_part-Avoids : (n x : ℕ) → ¬ Elem x bs → Avoids x (take n (home_writes bs c))
    home_part-Avoids n x m = take-Avoids n (home_writes bs c) x (home_writes-Avoids c bs x m)

    -- A part of the installation, on a disk where the header holds the log.
    pub installing-CrashState :
        (n : ℕ) (e : ℕ → Block)
        → words (e st 0) 1 (e st) ≡ bs
        → Logged (st + 1) bs c e
        → OthersKept e
        → CrashState (apply (take n (home_writes bs c)) e)
    installing-CrashState n e w l o =
        let same : apply (take n (home_writes bs c)) e st ≡ e st =
          apply_avoiding (take n (home_writes bs c)) st e
            (home_part-Avoids n st (apart bs st homes header-InLog)) in
        committed (rw same w)
          (home_writes-Logged c (st + 1) end n bs bs (st + 1) e (omega arith) (omega arith)
            (inner bs homes) l)
          (λ x out m.
            apply_avoiding (take n (home_writes bs c)) x e (home_part-Avoids n x m) ∙ o x out m)

    -- The whole installation, and the header cleared.
    pub cleared-Installed :
        (v : Block) (e : ℕ → Block)
        → OthersKept e
        → Installed (update (apply (home_writes bs c) e) st (header [] v))
    cleared-Installed v e o =
        let f = apply (home_writes bs c) e in
        let h = header [] v in
        (
          ap (λ k. k 0) (update_self f st h) ∙ (words-header [] v).0,
          λ x m.
              update_ne f st x h (λ eq. apart bs x homes (subst InLog eq header-InLog) m)
              ∙ home_writes-value c bs x e (inl m),
          λ x out m.
              update_ne f st x h (λ eq. subst InLog eq header-InLog out)
              ∙ (apply_avoiding (home_writes bs c) x e (home_writes-Avoids c bs x m) ∙ o x out m),
        )

    pub cleared-Settled :
        (v : Block) (e : ℕ → Block)
        → OthersKept e
        → Settled (update (apply (home_writes bs c) e) st (header [] v))
    cleared-Settled v e o = let (z, h, k) = cleared-Installed v e o in (z, inr (h, k))

    pub cleared-CrashState :
        (v : Block) (e : ℕ → Block)
        → OthersKept e
        → CrashState (update (apply (home_writes bs c) e) st (header [] v))
    cleared-CrashState v e o =
        Settled→CrashState (update (apply (home_writes bs c) e) st (header [] v))
          (cleared-Settled v e o)
