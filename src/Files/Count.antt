-- ===== src/Files/Count.antt =====
-- Counting the references to a file of FileSystem-RAID/kernel/file.c.
use xv6_kernel_extensions.Prelude.{
  ℕ, zero, suc, ◌+◌, ◌≤◌, ◌<◌, Option, none, some, ◌==◌, if◌then◌else◌, update, update_ne,
  update_eq, List, [], ◌∷◌, ◌++◌, ◌≡◌, refl, sym, ap, ◌∙◌, arith,
}
use native.Mathlib.Decide.{ℕ_discrete}

-- 1 for a reference to `f`.
abbrev pub names : Option ℕ → ℕ → ℕ
names none f = 0
names (some g) f = if g == f then 1 else 0

-- The descriptors below `n` that are open on `f`.
unfoldable pub refs : ℕ → (ℕ → Option ℕ) → ℕ → ℕ
refs zero ofile f = 0
refs (suc n) ofile f = names (ofile n) f + refs n ofile f

unfoldable pub occurs : List ℕ → ℕ → ℕ
occurs [] f = 0
occurs (g ∷ l) f = names (some g) f + occurs l f

pub occurs-append : (l r : List ℕ) (f : ℕ) → occurs (l ++ r) f ≡ occurs l f + occurs r f
unfolding occurs
occurs-append [] r f = omega arith
occurs-append (g ∷ l) r f = omega (arith, occurs-append l r f)

pub names_self : (f : ℕ) → names (some f) f ≡ 1
names_self f = ground arith

refs-update_out :
    (n i : ℕ) (v : Option ℕ) (ofile : ℕ → Option ℕ) (f : ℕ)
    → n ≤ i
    → refs n (update ofile i v) f ≡ refs n ofile f
unfolding refs
refs-update_out zero i v ofile f h = refl
refs-update_out (suc n) i v ofile f h =
    let e = ap (λ o. names o f) (update_ne ofile i n v (λ q. omega arith)) in
    omega (arith, e, refs-update_out n i v ofile f (omega arith))

-- What the change of one descriptor does to the count.
pub refs-update :
    (n i : ℕ) (v : Option ℕ) (ofile : ℕ → Option ℕ) (f : ℕ)
    → i < n
    → refs n (update ofile i v) f + names (ofile i) f ≡ refs n ofile f + names v f
unfolding refs
refs-update zero i v ofile f h = absurd (omega arith)
refs-update (suc n) i v ofile f h = elim (ℕ_discrete i n) [
  | yes q ↦
      let e = ap (λ o. names o f) (update_eq ofile i n v q) in
      let s = ap (λ x. names (ofile x) f) q in
      omega (arith, e, s, refs-update_out n i v ofile f (omega arith))
  | no q ↦
      let e = ap (λ o. names o f) (update_ne ofile i n v q) in
      omega (arith, e, refs-update n i v ofile f (omega arith))
]

-- An open descriptor counts.
pub refs-open :
    (n i : ℕ) (ofile : ℕ → Option ℕ) (f : ℕ) → i < n → ofile i ≡ some f → 0 < refs n ofile f
unfolding refs
refs-open zero i ofile f h e = absurd (omega arith)
refs-open (suc n) i ofile f h e = elim (ℕ_discrete i n) [
  | yes q ↦
      let s : names (ofile n) f ≡ 1 =
        ap (λ x. names (ofile x) f) (sym q) ∙ (ap (λ o. names o f) e ∙ names_self f) in
      omega (arith, s)
  | no q ↦ omega (arith, refs-open n i ofile f (omega arith) e)
]

pub refs-none : (n : ℕ) (f : ℕ) → refs n (λ s. none) f ≡ 0
unfolding refs
refs-none zero f = refl
refs-none (suc n) f = omega (arith, refs-none n f)
