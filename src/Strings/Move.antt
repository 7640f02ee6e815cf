-- ===== src/Strings/Move.antt =====
-- `memmove` of FileSystem-RAID/kernel/string.c, where the two areas may overlap.
use xv6_kernel_extensions.Prelude.{
  ℕ, zero, suc, ◌+◌, ◌-◌, ◌<◌, ◌≤◌, Bool, true, false, ltb, ◌&&◌, if◌then◌else◌, update, update_ne,
  update_eq, ◌≡◌, refl, ap, ◌∙◌, arith, inl, inr, ◌⊎◌,
}
use native.Mathlib.Decide.{ℕ_discrete}
use xv6_kernel_extensions.Strings.{Memory, copy_up, copy_down, memmove}

-- `n` bytes of `mem` at `src` stand in `mem'` at `dst`, and the other bytes are the same.
pub record Moved (dst src n : ℕ) (mem mem' : Memory) : Type 0 where
  pub copied : (i : ℕ) → i < n → mem' (dst + i) ≡ mem (src + i)
  pub kept : (a : ℕ) → (a < dst) ⊎ (dst + n ≤ a) → mem' a ≡ mem a

copy_up-Moved :
    (n dst src : ℕ) (mem : Memory)
    → (dst ≤ src) ⊎ (src + n ≤ dst)
    → Moved dst src n mem (copy_up n dst src mem)
unfolding copy_up
copy_up-Moved zero dst src mem h = record {
  copied = λ i l. absurd (omega arith);
  kept = λ a o. refl;
}
copy_up-Moved (suc n) dst src mem h =
    later (copy_up n (dst + 1) (src + 1) (update mem dst (mem src))) (
      copy_up-Moved n (dst + 1) (src + 1) (update mem dst (mem src))
        (elim h [ inl x ↦ inl (omega arith) | inr x ↦ inr (omega arith) ]))
  where
    at :
        (t : Memory)
        → Moved (dst + 1) (src + 1) n (update mem dst (mem src)) t
        → (i : ℕ) → i < suc n
        → t (dst + i) ≡ mem (src + i)
    at t k zero l =
        k.kept (dst + 0) (inl (omega arith))
        ∙ (update_eq mem dst (dst + 0) (mem src) (omega arith) ∙ ap mem (omega arith))
    at t k (suc i) l =
        ap t (omega arith)
        ∙ (k.copied i (omega arith)
            ∙ (update_ne mem dst (src + 1 + i) (mem src)
                  (λ e. elim h [ inl x ↦ omega arith | inr x ↦ omega arith ])
                ∙ ap mem (omega arith)))

    later :
        (t : Memory)
        → Moved (dst + 1) (src + 1) n (update mem dst (mem src)) t
        → Moved dst src (suc n) mem t
    later t k = record {
      copied = at t k;
      kept = λ a o.
          k.kept a (elim o [ inl x ↦ inl (omega arith) | inr x ↦ inr (omega arith) ])
          ∙ update_ne mem dst a (mem src)
              (λ e. elim o [ inl x ↦ omega arith | inr x ↦ omega arith ]);
    }

copy_down-Moved :
    (n dst src : ℕ) (mem : Memory)
    → src ≤ dst
    → Moved dst src n mem (copy_down n (dst + n) (src + n) mem)
unfolding copy_down
copy_down-Moved zero dst src mem h = record {
  copied = λ i l. absurd (omega arith);
  kept = λ a o. refl;
}
copy_down-Moved (suc n) dst src mem h =
    let d : dst + suc n - 1 ≡ dst + n = omega arith in
    let e : src + suc n - 1 ≡ src + n = omega arith in
    rw (d, e)
      (later (copy_down n (dst + n) (src + n) (update mem (dst + n) (mem (src + n))))
        (copy_down-Moved n dst src (update mem (dst + n) (mem (src + n))) h))
  where
    at :
        (t : Memory)
        → Moved dst src n (update mem (dst + n) (mem (src + n))) t
        → (i : ℕ) → i < suc n
        → t (dst + i) ≡ mem (src + i)
    at t k i l = elim (ℕ_discrete i n) [
      | yes e ↦
          k.kept (dst + i) (inr (omega arith))
          ∙ (update_eq mem (dst + n) (dst + i) (mem (src + n)) (omega arith) ∙ ap mem (omega arith))
      | no ne ↦
          let lt : i < n = omega arith in
          k.copied i lt ∙ update_ne mem (dst + n) (src + i) (mem (src + n)) (λ e. omega arith)
    ]

    later :
        (t : Memory)
        → Moved dst src n (update mem (dst + n) (mem (src + n))) t
        → Moved dst src (suc n) mem t
    later t k = record {
      copied = at t k;
      kept = λ a o.
          k.kept a (elim o [ inl x ↦ inl (omega arith) | inr x ↦ inr (omega arith) ])
          ∙ update_ne mem (dst + n) a (mem (src + n))
              (λ e. elim o [ inl x ↦ omega arith | inr x ↦ omega arith ]);
    }

-- After `memmove`, whether or not the areas overlap, the `n` bytes at `dst` are those that were at
-- `src` before the call, and no byte outside of the `n` at `dst` is changed.
pub memmove-Moved : (dst src n : ℕ) (mem : Memory) → Moved dst src n mem (memmove dst src n mem)
unfolding memmove
memmove-Moved dst src n mem =
    by_tests (ltb src dst) (ltb dst (src + n)) (λ e. ground arith) (λ e. ground arith)
      (λ e. ground arith)
  where
    by_tests :
        (b c : Bool)
        → (b ≡ true → src ≤ dst)
        → (b ≡ false → dst ≤ src)
        → (c ≡ false → src + n ≤ dst)
        → Moved dst src n mem
            (if b && c then copy_down n (dst + n) (src + n) mem else copy_up n dst src mem)
    by_tests true true f g h = copy_down-Moved n dst src mem (f refl)
    by_tests true false f g h = copy_up-Moved n dst src mem (inr (h refl))
    by_tests false c f g h = copy_up-Moved n dst src mem (inl (g refl))
