-- ===== src/Log/Space.antt =====
-- The space that FileSystem-RAID/kernel/log.c reserves for the calls between `begin_op` and
-- `end_op`, each of which makes `maxopblocks` calls of `log_write` at most.
use xv6_kernel_extensions.Prelude.{
  ℕ, suc, ◌+◌, ◌-◌, ◌*◌, ◌≤◌, ◌<◌, Bool, true, false, List, [], ◌∷◌, ◌++◌, length, ◌≡◌, refl, sym,
  ap, ◌∙◌, arith, Bool-cases, inl, inr, length-append, ◌==◌, ltb, leb, ◌||◌, subst,
}
use xv6_kernel_extensions.Log.{
  Store, Log, returns, sleeps, panics, begin_op, end_op_locked, finish_op, log_write, absorb,
  commit, is_empty,
}

-- The calls in progress, with the writes that each has made.
pub data Reach (size : ℕ) : Log → Store → List ℕ → Type 0 where
  boots :
      (st : ℕ) (s : Store)
      → Reach size
          (record { start = st; size = size; outstanding = 0; committing = false; blocks = [] })
          s
          []
  begins :
      (log log' : Log) (s : Store) (us : List ℕ)
      → Reach size log s us
      → begin_op log ≡ returns log'
      → Reach size log' s (0 ∷ us)
  writes :
      (log log' : Log) (s : Store) (l r : List ℕ) (u b : ℕ)
      → Reach size log s (l ++ u ∷ r)
      → u < 10
      → log_write b log ≡ returns log'
      → Reach size log' s (l ++ suc u ∷ r)
  ends :
      (log : Log) (next : Log × Bool) (s : Store) (l r : List ℕ) (u : ℕ)
      → Reach size log s (l ++ u ∷ r)
      → end_op_locked log ≡ returns next
      → Reach size next.0 s (l ++ r)
  commits :
      (log : Log) (s : Store) (us : List ℕ)
      → Reach size log s us
      → log.committing ≡ true
      → Reach size ((finish_op (log, true) s).0) ((finish_op (log, true) s).1) us
  -- Writes and evictions elsewhere in the buffer cache.
  cache_changes :
      (log : Log) (s s' : Store) (us : List ℕ) → Reach size log s us → Reach size log s' us

-- The writes that the calls may still make.
abbrev pub budget : List ℕ → ℕ
budget [] = 0
budget (u ∷ us) = 10 - u + budget us

budget-append : (l r : List ℕ) → budget (l ++ r) ≡ budget l + budget r
budget-append [] r = omega arith
budget-append (x ∷ l) r = omega (arith, budget-append l r)

length-absorb : (b : ℕ) (bs : List ℕ) → length (absorb b bs) ≤ suc (length bs)
unfolding absorb
length-absorb b [] = omega arith
length-absorb b (x ∷ bs) = elim (Bool-cases (x == b)) [
  | inl e ↦ rw e (omega arith)
  | inr e ↦ rw e (omega (arith, length-absorb b bs))
]

pub record Reserved (size : ℕ) (log : Log) (us : List ℕ) : Type 0 where
  pub calls : length us ≡ log.outstanding
  pub space : length log.blocks + budget us ≤ 30
  pub idle : log.committing ≡ true → log.outstanding ≡ 0
  pub sized : log.size ≡ size

budget_le : (us : List ℕ) → budget us ≤ 10 * length us
budget_le [] = omega arith
budget_le (u ∷ us) = omega (arith, budget_le us)

begin_returns :
    (log log' : Log)
    → begin_op log ≡ returns log'
    → (log.committing ≡ false)
      × (length log.blocks + (log.outstanding + 1) * 10 ≤ 30)
      × (record log { outstanding = log.outstanding + 1 } ≡ log')
unfolding begin_op
begin_returns log log' h = elim (Bool-cases log.committing) [
  | inl c ↦ let e : begin_op log ≡ sleeps = rw c refl in absurd (cc)
  | inr c ↦ elim (Bool-cases (ltb 30 (length log.blocks + (log.outstanding + 1) * 10))) [
    | inl f ↦ let e : begin_op log ≡ sleeps = rw (c, f) refl in absurd (cc)
    | inr f ↦
        let e : begin_op log ≡ returns (record log { outstanding = log.outstanding + 1 }) =
          rw (c, f) refl in
        (c, ground arith, cc)
  ]
]

write_returns :
    (b : ℕ) (log log' : Log)
    → log_write b log ≡ returns log'
    → record log { blocks = absorb b log.blocks } ≡ log'
unfolding log_write
write_returns b log log' h =
    elim (Bool-cases (leb 30 (length log.blocks) || leb (log.size - 1) (length log.blocks))) [
      | inl c ↦ let e : log_write b log ≡ panics = rw c refl in absurd (cc)
      | inr c ↦ elim (Bool-cases (ltb log.outstanding 1)) [
        | inl f ↦ let e : log_write b log ≡ panics = rw (c, f) refl in absurd (cc)
        | inr f ↦
            let e : log_write b log ≡ returns (record log { blocks = absorb b log.blocks }) =
              rw (c, f) refl in
            cc
      ]
    ]

end_returns :
    (log : Log) (next : Log × Bool)
    → end_op_locked log ≡ returns next
    → (log.committing ≡ false)
      × (next.0
          ≡ record log { outstanding = log.outstanding - 1; committing = log.outstanding - 1 == 0 })
unfolding end_op_locked
end_returns log next h = elim (Bool-cases log.committing) [
  | inl c ↦ let e : end_op_locked log ≡ panics = rw c refl in absurd (cc)
  | inr c ↦ elim (Bool-cases (log.outstanding - 1 == 0)) [
    | inl f ↦
        let e : end_op_locked log
            ≡ returns (record log { outstanding = log.outstanding - 1; committing = true }, true) =
          rw (c, f) refl in
        let g : (record log { outstanding = log.outstanding - 1; committing = true }, true) ≡ next =
          cc in
        (c, rw f (sym (ap (λ n. n.0) g)))
    | inr f ↦
        let e : end_op_locked log
            ≡ returns (record log { outstanding = log.outstanding - 1 }, false) =
          rw (c, f) refl in
        let g : (record log { outstanding = log.outstanding - 1 }, false) ≡ next = cc in
        (c, rw f (sym (ap (λ n. n.0) g) ∙ rw c refl))
  ]
]

begin-Reserved :
    (size : ℕ) (log log' : Log) (us : List ℕ)
    → Reserved size log us
    → begin_op log ≡ returns log'
    → Reserved size log' (0 ∷ us)
begin-Reserved size log log' us k h =
    let (c, fits, e) = begin_returns log log' h in
    subst (λ l. Reserved size l (0 ∷ us)) e
      (record {
        calls = omega (arith, k.calls);
        space = omega (arith, fits, k.calls, budget_le us);
        idle = λ t. absurd (cc);
        sized = k.sized;
      })

write-Reserved :
    (size : ℕ) (log log' : Log) (l r : List ℕ) (u b : ℕ)
    → Reserved size log (l ++ u ∷ r)
    → u < 10
    → log_write b log ≡ returns log'
    → Reserved size log' (l ++ suc u ∷ r)
write-Reserved size log log' l r u b k h e =
    subst (λ g. Reserved size g (l ++ suc u ∷ r)) (write_returns b log log' e)
      (record {
        calls = omega (arith, k.calls, length-append l (u ∷ r), length-append l (suc u ∷ r));
        space = omega (
          arith,
          k.space,
          budget-append l (u ∷ r),
          budget-append l (suc u ∷ r),
          length-absorb b log.blocks,
        );
        idle = k.idle;
        sized = k.sized;
      })

end-Reserved :
    (size : ℕ) (log : Log) (next : Log × Bool) (l r : List ℕ) (u : ℕ)
    → Reserved size log (l ++ u ∷ r)
    → end_op_locked log ≡ returns next
    → Reserved size next.0 (l ++ r)
end-Reserved size log next l r u k h =
    let (c, e) = end_returns log next h in
    subst (λ g. Reserved size g (l ++ r)) (sym e)
      (record {
        calls = omega (arith, k.calls, length-append l (u ∷ r), length-append l r);
        space = omega (arith, k.space, budget-append l (u ∷ r), budget-append l r);
        idle = λ t. ground arith;
        sized = k.sized;
      })

commit-Reserved :
    (size : ℕ) (log : Log) (s : Store) (us : List ℕ)
    → Reserved size log us
    → log.committing ≡ true
    → Reserved size ((finish_op (log, true) s).0) us
unfolding finish_op commit
commit-Reserved size log s us k h = elim (Bool-cases (is_empty log.blocks)) [
  | inl e ↦
      rw e (record { calls = k.calls; space = k.space; idle = λ t. absurd (cc); sized = k.sized })
  | inr e ↦ rw e (record {
    calls = k.calls;
    space = omega (arith, k.space);
    idle = λ t. absurd (cc);
    sized = k.sized;
  })
]

Reach-Reserved :
    (size : ℕ) (log : Log) (s : Store) (us : List ℕ) → Reach size log s us → Reserved size log us
Reach-Reserved size log s us (boots st s') = record {
  calls = refl;
  space = omega arith;
  idle = λ t. refl;
  sized = refl;
}
Reach-Reserved size log s us (begins g g' s' us' k e) =
    begin-Reserved size g g' us' (Reach-Reserved size g s' us' k) e
Reach-Reserved size log s us (writes g g' s' l r u b k h e) =
    write-Reserved size g g' l r u b (Reach-Reserved size g s' (l ++ u ∷ r) k) h e
Reach-Reserved size log s us (ends g next s' l r u k e) =
    end-Reserved size g next l r u (Reach-Reserved size g s' (l ++ u ∷ r) k) e
Reach-Reserved size log s us (commits g s' us' k e) =
    commit-Reserved size g s' us' (Reach-Reserved size g s' us' k) e
Reach-Reserved size log s us (cache_changes g s' s'' us' k) = Reach-Reserved size g s' us' k

write_fits :
    (log : Log) (b : ℕ)
    → length log.blocks < 30
    → length log.blocks < log.size - 1
    → 0 < log.outstanding
    → log_write b log ≡ returns (record log { blocks = absorb b log.blocks })
unfolding log_write
write_fits log b h k o = ground arith

end_returns_some :
    (log : Log) → log.committing ≡ false → (next : Log × Bool) × (end_op_locked log ≡ returns next)
unfolding end_op_locked
end_returns_some log c = elim (Bool-cases (log.outstanding - 1 == 0)) [
  | inl f ↦
      ((record log { outstanding = log.outstanding - 1; committing = true }, true), rw (c, f) refl)
  | inr f ↦ ((record log { outstanding = log.outstanding - 1 }, false), rw (c, f) refl)
]

-- In a log of 31 blocks or more, in every state that calls of `begin_op`, `log_write`, `end_op` and
-- their commits reach in any order, where no call makes more than 10 writes: a call in progress
-- that has made fewer than 10 writes can write any block, and its `end_op` does not panic.
pub reserved_space :
    (size : ℕ) (log : Log) (s : Store) (l r : List ℕ) (u : ℕ)
    → 31 ≤ size
    → Reach size log s (l ++ u ∷ r)
    → ((b : ℕ) → u < 10 → log_write b log ≡ returns (record log { blocks = absorb b log.blocks }))
      × ((next : Log × Bool) × (end_op_locked log ≡ returns next))
reserved_space size log s l r u h k =
    let i = Reach-Reserved size log s (l ++ u ∷ r) k in
    let busy : 0 < log.outstanding = omega (arith, i.calls, length-append l (u ∷ r)) in
    (
      λ b lt.
          write_fits log b (omega (arith, i.space, budget-append l (u ∷ r)))
            (omega (arith, i.space, i.sized, budget-append l (u ∷ r))) busy,
      end_returns_some log (elim (Bool-cases log.committing) [
        | inl c ↦ absurd (omega (arith, i.idle c))
        | inr c ↦ c
      ]),
    )
