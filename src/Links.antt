-- ===== src/Links.antt =====
-- Doubly linked lists, written as the list of the addresses from the head on: the unlinking of a
-- buffer by `brelse` in FileSystem-RAID/kernel/bio.c, and a list operation as the scheduler tests
-- take it.
use xv6_kernel_extensions.Prelude.{
  ℕ, List, [], ◌∷◌, ◌++◌, ◌==◌, if◌then◌else◌, ◌≡◌, ◌≢◌, All, arith, Elem, Bool-cases, inl, inr,
  ◌⊎◌, subst, sym, length, suc,
}

-- A node is on its list once.
unfoldable pub list_del : ℕ → List ℕ → List ℕ
list_del p [] = []
list_del p (th ∷ q) = let rest = list_del p q in if th == p then q else th ∷ rest

unfoldable pub list_move_tail : ℕ → List ℕ → List ℕ
unfolding list_del
list_move_tail p q = list_del p q ++ p ∷ []

-- Moving a node to the tail keeps the others in their order.
pub list_move_tail-split :
    (l r : List ℕ) (c : ℕ)
    → All (λ th. th ≢ c) l
    → list_move_tail c (l ++ c ∷ r) ≡ (l ++ r) ++ c ∷ []
unfolding list_move_tail list_del
list_move_tail-split [] r c n = ground arith
list_move_tail-split (x ∷ l) r c n = ground (arith, n.0, list_move_tail-split l r c n.1)

-- What is left was there, and all but the node taken is left.
pub Elem-list_del : (p a : ℕ) (q : List ℕ) → Elem a (list_del p q) → Elem a q
unfolding list_del
Elem-list_del p a [] m = absurd m
Elem-list_del p a (x ∷ q) m = ground (arith, Elem-list_del p a q)

pub length-list_del : (p : ℕ) (q : List ℕ) → Elem p q → suc (length (list_del p q)) ≡ length q
unfolding list_del
length-list_del p [] m = absurd m
length-list_del p (x ∷ q) m = ground (arith, length-list_del p q)

-- No node twice.
abbrev pub Distinct : List ℕ → Type 0
Distinct [] = Unit
Distinct (x ∷ l) = (¬ Elem x l) × Distinct l

pub list_del-absent : (p : ℕ) (q : List ℕ) → Distinct q → ¬ Elem p (list_del p q)
unfolding list_del
list_del-absent p [] d m = m
list_del-absent p (x ∷ q) d m = elim (Bool-cases (x == p)) [
  | inl e ↦ let same : x ≡ p = ground arith in d.0 (subst (λ y. Elem y q) (sym same) (rw e at m))
  | inr e ↦
      let m' : (p ≡ x) ⊎ Elem p (list_del p q) = rw e at m in
      elim m' [ inl eq ↦ ground arith | inr k ↦ list_del-absent p q d.1 k ]
]

pub list_del-Distinct : (p : ℕ) (q : List ℕ) → Distinct q → Distinct (list_del p q)
unfolding list_del
list_del-Distinct p [] d = tt
list_del-Distinct p (x ∷ q) d = elim (Bool-cases (x == p)) [
  | inl e ↦ rw e d.1
  | inr e ↦ rw e (λ m. d.0 (Elem-list_del p x q m), list_del-Distinct p q d.1)
]
