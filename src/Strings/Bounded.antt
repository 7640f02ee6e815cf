-- ===== src/Strings/Bounded.antt =====
-- The bounded functions of FileSystem-RAID/kernel/string.c on strings that end in a zero byte.
use xv6_kernel_extensions.Prelude.{
  ℕ, zero, suc, ◌+◌, ◌<◌, ◌≤◌, pos, pos_part, neg_part, sub_ℕ, ◌==◌, update, update_ne, update_eq,
  update_self, ◌≡◌, ◌↔◌, refl, ap, ◌∙◌, arith, inl, inr, ◌⊎◌, Bool-cases,
}
use xv6_kernel_extensions.Strings.{Memory, strncmp, copy_safely, safe_copy, safestrcpy}

-- The strings at `p` and `q` agree on their first `n` bytes, or up to a common zero byte before.
abbrev pub SameName : ℕ → ℕ → ℕ → Memory → Type 0
SameName zero p q mem = Unit
SameName (suc n) p q mem = (mem p ≡ mem q) × ((mem p ≡ 0) ⊎ SameName n (p + 1) (q + 1) mem)

sub_ℕ-zero : (a b : ℕ) → sub_ℕ a b ≡ pos 0 → a ≡ b
sub_ℕ-zero a b h = let x = ap pos_part h in let y = ap neg_part h in ground arith

-- `strncmp` returns 0 exactly if the two strings agree on their first `n` bytes, or up to a zero
-- byte that ends both before.
pub strncmp-SameName : (n p q : ℕ) (mem : Memory) → (strncmp p q n mem ≡ pos 0) ↔ SameName n p q mem
unfolding strncmp
strncmp-SameName zero p q mem = (λ e. tt, λ s. refl)
strncmp-SameName (suc n) p q mem =
    let again = strncmp-SameName n (p + 1) (q + 1) mem in
    elim (Bool-cases (mem p == 0)) [
      | inl z ↦
          rw z
            (λ e. (sub_ℕ-zero (mem p) (mem q) e, inl (ground arith)), λ s. rw (s.0) (ground arith))
      | inr z ↦ elim (Bool-cases (mem p == mem q)) [
        | inl w ↦
            rw (z, w)
              (
                λ e. (ground arith, inr (again.0 e)),
                λ s. elim s.1 [ inl x ↦ absurd (ground arith) | inr x ↦ again.1 x ],
              )
        | inr w ↦
            rw (z, w)
              (
                λ e. absurd (let k = sub_ℕ-zero (mem p) (mem q) e in ground arith),
                λ s. absurd (let k = s.0 in ground arith),
              )
      ]
    ]

-- The `n` bytes at `s` have a zero byte, and the other bytes are the same.
pub record Ended (s n : ℕ) (mem mem' : Memory) : Type 0 where
  pub zero_byte : (k : ℕ) × (k < n) × (mem' (s + k) ≡ 0)
  pub kept : (a : ℕ) → (a < s) ⊎ (s + n ≤ a) → mem' a ≡ mem a

copy_safely-Ended : (m s t : ℕ) (mem : Memory) → Ended s (suc m) mem (copy_safely m s t mem)
unfolding copy_safely
copy_safely-Ended zero s t mem = record {
  zero_byte = (0, omega arith, update_eq mem s (s + 0) 0 (omega arith));
  kept = λ a o. update_ne mem s a 0 (λ e. elim o [ inl x ↦ omega arith | inr x ↦ omega arith ]);
}
copy_safely-Ended (suc m) s t mem = elim (Bool-cases (mem t == 0)) [
  | inl z ↦ rw z (record {
    zero_byte = (1, omega arith, update_self (update mem s (mem t)) (s + 1) 0);
    kept = λ a o.
        update_ne (update mem s (mem t)) (s + 1) a 0
          (λ e. elim o [ inl x ↦ omega arith | inr x ↦ omega arith ])
        ∙ update_ne mem s a (mem t) (λ e. elim o [ inl x ↦ omega arith | inr x ↦ omega arith ]);
  })
  | inr z ↦ rw z (
      later (copy_safely m (s + 1) (t + 1) (update mem s (mem t)))
        (copy_safely-Ended m (s + 1) (t + 1) (update mem s (mem t))))
]
  where
    later :
        (f : Memory) → Ended (s + 1) (suc m) (update mem s (mem t)) f → Ended s (suc (suc m)) mem f
    later f k = record {
      zero_byte = let (i, l, e) = k.zero_byte in (i + 1, omega arith, ap f (omega arith) ∙ e);
      kept = λ a o.
          k.kept a (elim o [ inl x ↦ inl (omega arith) | inr x ↦ inr (omega arith) ])
          ∙ update_ne mem s a (mem t) (λ e. elim o [ inl x ↦ omega arith | inr x ↦ omega arith ]);
    }

-- For a positive size `n`, `safestrcpy` leaves a zero byte among the `n` bytes at `s`, whatever
-- stands at `t`, and changes no byte outside of them.
pub safestrcpy-Ended :
    (n s t : ℕ) (mem : Memory) → 0 < n → Ended s n mem (safestrcpy s t (pos n) mem)
unfolding safestrcpy safe_copy
safestrcpy-Ended zero s t mem h = absurd (omega arith)
safestrcpy-Ended (suc n) s t mem h = copy_safely-Ended n s t mem
