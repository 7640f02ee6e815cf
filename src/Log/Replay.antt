-- ===== src/Log/Replay.antt =====
-- A crash during the commit of FileSystem-RAID/kernel/log.c, and the recoveries after it, which
-- may be cut off themselves.
use xv6_kernel_extensions.Prelude.{
  ℕ, ◌+◌, ◌*◌, ◌≤◌, ◌<◌, List, [], ◌∷◌, update, update_ne, update_self, length, take, ◌≡◌, ◌≢◌,
  refl, sym, ap, ◌∙◌, arith, Elem, All, inl, inr, subst, All-Elem, true, false, Bool, Bool-cases,
  if◌then◌else◌, ◌==◌,
}
use xv6_kernel_extensions.Log.{
  Block, Store, Log, words, header, write_block, write_head, write_log, write_from, install_trans,
  install_from, commit, is_empty, read_head, recover_from_log,
}
use xv6_kernel_extensions.Log.Writes.{
  apply, apply-append, Effect, Effect-append, write_block-Effect, slot_writes, home_writes, Logged,
  Outside, write_from-Effect, install_from-Effect, Logged-update,
}
use xv6_kernel_extensions.Log.Values.{slot_writes-Logged, words-header}
use xv6_kernel_extensions.Log.Crash.{
  end, CrashState, Settled, Installed, Settled→CrashState, cleared-Settled, inner, before,
  committed, installed,
}
use xv6_kernel_extensions.Log.Commit.{
  commit_writes, install_writes, install-CrashState, commit_writes-CrashState, take-past,
  commit_writes-length, install_writes-length, commit_writes-Installed,
}

All_cached : (c : ℕ → Block) (bs : List ℕ) → All (λ b. c b ≡ c b) bs
All_cached c [] = tt
All_cached c (b ∷ bs) = (refl, All_cached c bs)

module _ (st size out : ℕ) (busy : Bool) (bs : List ℕ) where
  -- The log with the blocks `bs`.
  abbrev pub log_of : Log
  log_of = record { start = st; size = size; outstanding = out; committing = busy; blocks = bs }

  module _ (c d : ℕ → Block) (homes : All (Outside st (end st bs c d)) bs) where
    -- An installation and the cleared header, on a store whose cache has the log.
    install-Effect :
        (s : Store)
        → Logged (st + 1) bs c s.cached
        → (v : Block) × Effect s
            (install_writes st bs c d homes v)
            (write_head (record log_of { blocks = [] }) (install_trans log_of s))
    unfolding write_head install_trans
    install-Effect s l =
        let t = install_from (st + 1) bs s in
        (
          t.cached st,
          Effect-append
              (install_from-Effect (st + 1) (end st bs c d) c bs (st + 1) s (omega arith)
                (omega arith) (inner st bs c d homes bs homes) l)
              (write_block-Effect st (header [] (t.cached st)) t),
        )

    headed-Logged :
        (u : Block) (f : ℕ → Block)
        → f ≡ apply (slot_writes (st + 1) bs c) c
        → Logged (st + 1) bs c (update f st (header bs u))
    headed-Logged u f e = rw e (
        Logged-update (st + 1) (end st bs c d) c bs (st + 1) st (header bs u)
          (apply (slot_writes (st + 1) bs c) c) (omega arith) (omega arith) (inl (omega arith))
          (slot_writes-Logged c bs (st + 1) c))

  commit-Effect :
      (s : Store) (homes : All (Outside st (end st bs s.cached s.disk)) bs)
      → is_empty bs ≡ false
      → (u : Block) × (v : Block) × Effect s
          (commit_writes st bs s.cached s.disk homes u v)
          (commit log_of s).1
  unfolding commit write_head write_log
  commit-Effect s homes h =
      let t = write_from (st + 1) bs s in
      let u = t.cached st in
      let first : Effect s (slot_writes (st + 1) bs s.cached) t =
        write_from-Effect (st + 1) (end st bs s.cached s.disk) s.cached bs (st + 1) s (omega arith)
          (omega arith) (inner st bs s.cached s.disk homes bs homes) (All_cached s.cached bs) in
      let t' = write_block st (header bs u) t in
      let second : Effect t ((st, header bs u) ∷ []) t' = write_block-Effect st (header bs u) t in
      let logged : Logged (st + 1) bs s.cached t'.cached =
        subst (Logged (st + 1) bs s.cached) (sym second.cached)
          (headed-Logged s.cached s.disk homes u t.cached first.cached) in
      let (v, third) = install-Effect s.cached s.disk homes t' logged in
      rw h (u, v, Effect-append first (Effect-append second third))

  commit-empty : (s : Store) → is_empty bs ≡ true → (commit log_of s).1.disk ≡ s.disk
  unfolding commit
  commit-empty s e = rw e refl

  -- A commit that is cut off anywhere.
  pub commit-CrashState :
      (s : Store)
      → All (Outside st (end st bs s.cached s.disk)) bs
      → s.disk st 0 ≡ 0
      → CrashState st bs s.cached s.disk ((commit log_of s).1.disk)
  commit-CrashState s homes h = elim (Bool-cases (is_empty bs)) [
    | inl e ↦ rw (commit-empty s e) (before h (λ x o. refl))
    | inr e ↦
        let (u, v, f) = commit-Effect s homes e in
        rw f.disk (commit_writes-CrashState st bs s.cached s.disk homes s.power u v h)
  ]

  -- A commit with the power for all of its writes.
  pub commit-Installed :
      (s : Store)
      → All (Outside st (end st bs s.cached s.disk)) bs
      → s.disk st 0 ≡ 0
      → 2 * length bs + 2 ≤ s.power
      → Installed st bs s.cached s.disk ((commit log_of s).1.disk)
  commit-Installed s homes h p = elim (Bool-cases (is_empty bs)) [
    | inl e ↦ rw (commit-empty s e) (h, λ x m. absurd (none_in bs x e m), λ x out m. refl)
    | inr e ↦
        let (u, v, f) = commit-Effect s homes e in
        rw
          (
            f.disk,
            take-past s.power (commit_writes st bs s.cached s.disk homes u v)
                (omega (arith, commit_writes-length st bs s.cached s.disk homes u v)),
          )
          (commit_writes-Installed st bs s.cached s.disk homes u v)
  ]
    where
      none_in : (bs : List ℕ) (x : ℕ) → is_empty bs ≡ true → ¬ Elem x bs
      none_in [] x e m = m
      none_in (b ∷ bs) x e m = absurd (cc)

-- After a restart: the disk, in an empty cache.
abbrev pub restart : ℕ → (ℕ → Block) → Store
restart p e = record { cached = e; disk = e; power = p }

module _ (st size : ℕ) where
  -- What a recovery leaves on the disk `e`, if `p` of its writes are made.
  abbrev pub recover : ℕ → (ℕ → Block) → ℕ → Block
  recover p e = (recover_from_log (log_of st size 0 false []) (restart p e)).1.disk

  recover-words :
      (p : ℕ) (e : ℕ → Block) (bs : List ℕ)
      → words (e st 0) 1 (e st) ≡ bs
      → recover p e
        ≡ (write_head
            (log_of st size 0 false [])
            (install_trans (log_of st size 0 false bs) (restart p e))).disk
  unfolding recover_from_log read_head write_head write_block
  recover-words p e bs h = rw h refl

  -- The recovery of a cleared header.
  recover-clear :
      (p : ℕ) (e : ℕ → Block)
      → e st 0 ≡ 0
      → recover p e ≡ (if p == 0 then e else update e st (header [] (e st)))
  unfolding write_head install_trans write_block install_from words
  recover-clear p e h = recover-words p e [] (rw h refl) ∙ refl

  recover-kept :
      (p : ℕ) (e : ℕ → Block)
      → e st 0 ≡ 0
      → (recover p e st 0 ≡ 0) × ((x : ℕ) → st ≢ x → recover p e x ≡ e x)
  recover-kept p e h = rw (recover-clear p e h) (elim (Bool-cases (p == 0)) [
    | inl t ↦ rw t (h, λ x n. refl)
    | inr t ↦ rw t (
      ap (λ k. k 0) (update_self e st (header [] (e st))) ∙ (words-header [] (e st)).0,
      λ x n. update_ne e st x (header [] (e st)) n,
    )
  ])

  module _ (bs : List ℕ) (c d : ℕ → Block) (homes : All (Outside st (end st bs c d)) bs) where
    homes_apart : (x : ℕ) → Elem x bs → st ≢ x
    homes_apart x m e = out (
        subst (Outside st (end st bs c d)) (sym e)
          (All-Elem (Outside st (end st bs c d)) bs homes m))
      where
        out : ¬ Outside st (end st bs c d) st
        out o = omega arith

    outside_apart : (x : ℕ) → Outside st (end st bs c d) x → st ≢ x
    outside_apart x o e = omega arith

    -- A disk without a pending transaction stays as it is.
    pub recover-Settled_kept :
        (p : ℕ) (e : ℕ → Block) → Settled st bs c d e → Settled st bs c d (recover p e)
    recover-Settled_kept p e (h, k) =
        let (z, f) = recover-kept p e h in
        (
          z,
          elim k [
            | inl o ↦ inl (λ x out. f x (outside_apart x out) ∙ o x out)
            | inr w ↦ inr (
              λ x m. f x (homes_apart x m) ∙ w.0 x m,
              λ x out m. f x (outside_apart x out) ∙ w.1 x out m,
            )
          ],
        )

    -- The recovery of a pending transaction installs it.
    recover-writes :
        (p : ℕ) (e : ℕ → Block)
        → words (e st 0) 1 (e st) ≡ bs
        → Logged (st + 1) bs c e
        → (v : Block) × (recover p e ≡ apply (take p (install_writes st bs c d homes v)) e)
    recover-writes p e w l =
        let (v, f) = install-Effect st size 0 false bs c d homes (restart p e) l in
        (v, recover-words p e bs w ∙ f.disk)

    pub recover-CrashState :
        (p : ℕ) (e : ℕ → Block) → CrashState st bs c d e → CrashState st bs c d (recover p e)
    recover-CrashState p e (before h o) =
        Settled→CrashState st bs c d (recover p e) (recover-Settled_kept p e (h, inl o))
    recover-CrashState p e (installed h k o) =
        Settled→CrashState st bs c d (recover p e) (recover-Settled_kept p e (h, inr (k, o)))
    recover-CrashState p e (committed w l o) =
        let (v, f) = recover-writes p e w l in rw f (install-CrashState st bs c d homes p v e w l o)

    pub recover-Settled :
        (p : ℕ) (e : ℕ → Block)
        → length bs < p
        → CrashState st bs c d e
        → Settled st bs c d (recover p e)
    recover-Settled p e h (before z o) = recover-Settled_kept p e (z, inl o)
    recover-Settled p e h (installed z k o) = recover-Settled_kept p e (z, inr (k, o))
    recover-Settled p e h (committed w l o) =
        let (v, f) = recover-writes p e w l in
        rw
          (
            f,
            take-past p (install_writes st bs c d homes v) (fits v),
            apply-append (home_writes bs c) ((st, header [] v) ∷ []) e,
          )
          (cleared-Settled st bs c d homes v e o)
      where
        fits : (v : Block) → length (install_writes st bs c d homes v) ≤ p
        fits v = omega (arith, install_writes-length st bs c d homes v)
