-- ===== src/Log/Commit.antt =====
-- The whole commit of FileSystem-RAID/kernel/log.c, and the recovery after a crash.
use xv6_kernel_extensions.Prelude.{
  ℕ, zero, suc, ◌+◌, ◌*◌, ◌≤◌, List, [], ◌∷◌, ◌++◌, update, update_ne, update_self, length, take,
  ◌≡◌, refl, ap, ◌∙◌, arith, Elem, All, inl, inr, subst, length-append,
}
use xv6_kernel_extensions.Log.{Block, words, header}
use xv6_kernel_extensions.Log.Writes.{
  Write, apply, apply-append, slot_writes, home_writes, Logged, Outside, Logged-update,
}
use xv6_kernel_extensions.Log.Values.{
  Avoids, apply_avoiding, take-Avoids, slot_writes-Avoids, slot_writes-Logged, words-header,
}
use xv6_kernel_extensions.Log.Crash.{
  end, CrashState, Installed, cleared-Installed, take-cases, installing-CrashState,
  cleared-CrashState,
}

pub take-past : (n : ℕ) (w : List Write) → length w ≤ n → take n w ≡ w
take-past zero [] h = refl
take-past zero (y ∷ w) h = absurd (omega arith)
take-past (suc n) [] h = refl
take-past (suc n) (y ∷ w) h = ap (λ l. y ∷ l) (take-past n w (omega arith))

take-all : (w : List Write) → take (length w) w ≡ w
take-all w = take-past (length w) w (omega arith)

module _ (st : ℕ) (bs : List ℕ) (c d : ℕ → Block)
    (homes : All (Outside st (end st bs c d)) bs) where
  -- The writes of an installation, then of the cleared header.
  abbrev pub install_writes : Block → List Write
  install_writes v = home_writes bs c ++ (st, header [] v) ∷ []

  abbrev pub commit_writes : Block → Block → List Write
  commit_writes u v = slot_writes (st + 1) bs c ++ (st, header bs u) ∷ install_writes v

  pub install-CrashState :
      (n : ℕ) (v : Block) (e : ℕ → Block)
      → words (e st 0) 1 (e st) ≡ bs
      → Logged (st + 1) bs c e
      → ((x : ℕ) → Outside st (end st bs c d) x → ¬ Elem x bs → e x ≡ d x)
      → CrashState st bs c d (apply (take n (install_writes v)) e)
  install-CrashState n v e w l o = elim (take-cases n (home_writes bs c) ((st, header [] v) ∷ [])) [
    | inl k ↦ rw k.1 (installing-CrashState st bs c d homes k.0 e w l o)
    | inr k ↦
        rw (k.1, apply-append (home_writes bs c) (take k.0 ((st, header [] v) ∷ [])) e) (last k.0)
  ]
    where
      last :
          (k : ℕ)
          → CrashState st bs c d
              (apply (take k ((st, header [] v) ∷ [])) (apply (home_writes bs c) e))
      last zero =
          subst (λ w. CrashState st bs c d (apply w e)) (take-all (home_writes bs c))
            (installing-CrashState st bs c d homes (length (home_writes bs c)) e w l o)
      last (suc zero) = cleared-CrashState st bs c d homes v e o
      last (suc (suc k)) = cleared-CrashState st bs c d homes v e o

  slots_avoid :
      (n x : ℕ) → Outside (st + 1) (end st bs c d) x → Avoids x (take n (slot_writes (st + 1) bs c))
  slots_avoid n x o =
      take-Avoids n (slot_writes (st + 1) bs c) x (slot_writes-Avoids c bs (st + 1) x o)

  slots-CrashState :
      (n : ℕ) → d st 0 ≡ 0 → CrashState st bs c d (apply (take n (slot_writes (st + 1) bs c)) d)
  slots-CrashState n h =
      CrashState.before
        (ap (λ k. k 0)
            (apply_avoiding (take n (slot_writes (st + 1) bs c)) st d
              (slots_avoid n st (inl (omega arith))))
          ∙ h)
        (λ x out.
          apply_avoiding (take n (slot_writes (st + 1) bs c)) x d
            (slots_avoid n x (elim out [ inl y ↦ inl (omega arith) | inr y ↦ inr y ])))

  headed_others :
      (u : Block) (x : ℕ)
      → Outside st (end st bs c d) x
      → update (apply (slot_writes (st + 1) bs c) d) st (header bs u) x ≡ d x
  headed_others u x out =
      let e = apply (slot_writes (st + 1) bs c) d in
      update_ne e st x (header bs u) (λ eq. elim out [ inl y ↦ omega arith | inr y ↦ omega arith ])
      ∙ apply_avoiding (slot_writes (st + 1) bs c) x d (
          slot_writes-Avoids c bs (st + 1) x
            (elim out [ inl y ↦ inl (omega arith) | inr y ↦ inr y ]))

  -- All of the writes.
  pub commit_writes-Installed : (u v : Block) → Installed st bs c d (apply (commit_writes u v) d)
  commit_writes-Installed u v =
      let e = apply (slot_writes (st + 1) bs c) d in
      rw
        (
          apply-append (slot_writes (st + 1) bs c) ((st, header bs u) ∷ install_writes v) d,
          apply-append (home_writes bs c) ((st, header [] v) ∷ []) (update e st (header bs u)),
        )
        (cleared-Installed st bs c d homes v (update e st (header bs u))
          (λ x out m. headed_others u x out))

  slots-length : (bs' : List ℕ) (a : ℕ) → length (slot_writes a bs' c) ≡ length bs'
  slots-length [] a = refl
  slots-length (b ∷ bs') a = ap suc (slots-length bs' (a + 1))

  homes-length : (bs' : List ℕ) → length (home_writes bs' c) ≡ length bs'
  homes-length [] = refl
  homes-length (b ∷ bs') = ap suc (homes-length bs')

  pub install_writes-length : (v : Block) → length (install_writes v) ≡ length bs + 1
  install_writes-length v =
      omega (arith, length-append (home_writes bs c) ((st, header [] v) ∷ []), homes-length bs)

  pub commit_writes-length : (u v : Block) → length (commit_writes u v) ≡ 2 * length bs + 2
  commit_writes-length u v = omega (
    arith,
    length-append (slot_writes (st + 1) bs c) ((st, header bs u) ∷ install_writes v),
    slots-length bs (st + 1),
    install_writes-length v,
  )

  -- With the header written, the log is complete.
  headed-CrashState :
      (n : ℕ) (u v : Block)
      → CrashState st bs c d (
          apply
            (take n (install_writes v))
            (update (apply (slot_writes (st + 1) bs c) d) st (header bs u)))
  headed-CrashState n u v =
      let e = apply (slot_writes (st + 1) bs c) d in
      let f = update e st (header bs u) in
      let at : f st ≡ header bs u = update_self e st (header bs u) in
      install-CrashState n v f (rw at ((words-header bs u).1))
        (Logged-update (st + 1) (end st bs c d) c bs (st + 1) st (header bs u) e (omega arith)
          (omega arith) (inl (omega arith)) (slot_writes-Logged c bs (st + 1) d))
        (λ x out m. headed_others u x out)

  pub commit_writes-CrashState :
      (n : ℕ) (u v : Block)
      → d st 0 ≡ 0
      → CrashState st bs c d (apply (take n (commit_writes u v)) d)
  commit_writes-CrashState n u v h =
      elim (take-cases n (slot_writes (st + 1) bs c) ((st, header bs u) ∷ install_writes v)) [
        | inl k ↦ rw k.1 (slots-CrashState k.0 h)
        | inr k ↦
            rw
              (
                k.1,
                apply-append (slot_writes (st + 1) bs c)
                    (take k.0 ((st, header bs u) ∷ install_writes v)) d,
              )
              (rest k.0)
      ]
    where
      rest :
          (k : ℕ)
          → CrashState st bs c d (
              apply
                (take k ((st, header bs u) ∷ install_writes v))
                (apply (slot_writes (st + 1) bs c) d))
      rest zero =
          subst (λ w. CrashState st bs c d (apply w d)) (take-all (slot_writes (st + 1) bs c))
            (slots-CrashState (length (slot_writes (st + 1) bs c)) h)
      rest (suc k) = headed-CrashState k u v
