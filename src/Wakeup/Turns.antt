-- ===== src/Wakeup/Turns.antt =====
-- What a step of one process keeps for the waiters of a sleep lock of
-- FileSystem-RAID/kernel/sleeplock.c, and the steps up to `release(lk)` in `sleep`.
use xv6_kernel_extensions.Prelude.{
  ℕ, ◌<◌, ◌≤◌, Bool, true, false, Option, none, some, if◌then◌else◌, update, update_ne, update_self,
  ◌≡◌, ◌≢◌, refl, sym, ap, ◌∙◌, subst, inl, inr, ◌⊎◌,
}
use native.Mathlib.Decide.{ℕ_discrete}
use xv6_kernel_extensions.Wakeup.{
  is_sleeping, Turn, elsewhere, tests, calls_sleep, has_both, has_own, in_sched, resumed, wakes,
  Machine, goes, is_free, acquire_guard, acquire_own, release_guard, next_turn, acquiresleep,
  releasesleep,
}

-- The states that the processes reach from one where none is in these functions: any process that
-- can go on does so, in any order.
pub data Reach : Machine → Type 0 where
  boots : (m : Machine) → m.turn ≡ (λ p. elsewhere) → Reach m
  turns :
      (m m' : Machine) (p : ℕ) → Reach m → p < 64 → next_turn p (m.turn p) m ≡ some m' → Reach m'
  takes :
      (m m' : Machine) (p lk : ℕ)
      → Reach m
      → p < 64
      → m.turn p ≡ elsewhere
      → acquiresleep p lk m ≡ some m'
      → Reach m'
  frees :
      (m m' : Machine) (p lk : ℕ)
      → Reach m
      → p < 64
      → m.turn p ≡ elsewhere
      → releasesleep p lk m ≡ some m'
      → Reach m'

-- The lock is taken, or the loop of a `wakeup` for it is still to come to the process.
abbrev pub Covered : Machine → ℕ → ℕ → Type 0
Covered m lk q = (m.locked lk ≡ true) ⊎ ((r i : ℕ) × (m.turn r ≡ wakes lk i) × (i ≤ q))

-- What holds of the process `q` at each turn.
abbrev pub Ok : Machine → ℕ → Turn → Type 0
Ok m q elsewhere = Unit
Ok m q (tests lk) = m.guard lk ≡ some q
Ok m q (calls_sleep lk) = (m.guard lk ≡ some q) × (m.locked lk ≡ true)
Ok m q (has_both lk) = (m.guard lk ≡ some q) × (m.locked lk ≡ true) × (m.own q ≡ true)
Ok m q (has_own lk) = (m.own q ≡ true) × Covered m lk q
Ok m q (in_sched lk) =
    is_sleeping (m.procs q).state ≡ true → ((m.procs q).chan ≡ lk) × Covered m lk q
Ok m q (resumed lk) = Unit
Ok m q (wakes lk i) = m.guard lk ≡ some q

abbrev pub Inv : Machine → Type 0
Inv m = (q : ℕ) → q < 64 → Ok m q (m.turn q)

-- What a step of another process keeps for `q`.
pub record Frame (m m' : Machine) (q : ℕ) : Type 0 where
  pub guards : (lk : ℕ) → m.guard lk ≡ some q → m'.guard lk ≡ some q
  pub lockeds : (lk : ℕ) → m.guard lk ≡ some q → m.locked lk ≡ true → m'.locked lk ≡ true
  pub owns : m.own q ≡ true → m'.own q ≡ true
  pub covers : (lk : ℕ) → m.own q ≡ true → Covered m lk q → Covered m' lk q
  pub asleep :
      (lk : ℕ)
      → is_sleeping (m'.procs q).state ≡ true
      → (is_sleeping (m.procs q).state ≡ true)
        × ((m.procs q).chan ≡ lk → Covered m lk q → ((m'.procs q).chan ≡ lk) × Covered m' lk q)

Frame-Ok : (m m' : Machine) (q : ℕ) → Frame m m' q → (t : Turn) → Ok m q t → Ok m' q t
Frame-Ok m m' q f elsewhere k = tt
Frame-Ok m m' q f (tests lk) k = f.guards lk k
Frame-Ok m m' q f (calls_sleep lk) k = (f.guards lk k.0, f.lockeds lk k.0 k.1)
Frame-Ok m m' q f (has_both lk) k = (f.guards lk k.0, f.lockeds lk k.0 k.1, f.owns k.2)
Frame-Ok m m' q f (has_own lk) k = (f.owns k.0, f.covers lk k.0 k.1)
Frame-Ok m m' q f (in_sched lk) k = λ s. let (a, b) = f.asleep lk s in let (c, d) = k a in b c d
Frame-Ok m m' q f (resumed lk) k = tt
Frame-Ok m m' q f (wakes lk i) k = f.guards lk k

-- A step of `p` to the turn `t`.
pub step-Inv :
    (m m' : Machine) (p : ℕ) (t : Turn)
    → m'.turn ≡ update m.turn p t
    → Inv m
    → Ok m' p t
    → ((q : ℕ) → q < 64 → p ≢ q → Frame m m' q)
    → Inv m'
step-Inv m m' p t e k o f q l = elim (ℕ_discrete p q) [
  | yes d ↦
      subst (λ x. Ok m' x (m'.turn x)) d
        (subst (λ x. Ok m' p x) (sym (ap (λ g. g p) e ∙ update_self m.turn p t)) o)
  | no d ↦
      subst (λ x. Ok m' q x) (sym (ap (λ g. g q) e ∙ update_ne m.turn p q t d))
        (Frame-Ok m m' q (f q l d) (m.turn q) (k q l))
]

-- A waiter stays covered: a step of `p` leaves the lock taken, or the loop before the waiter.
pub move-Covered :
    (m m' : Machine) (p : ℕ) (t : Turn) (lk q : ℕ)
    → m'.turn ≡ update m.turn p t
    → (m.locked lk ≡ true → Covered m' lk q)
    → ((i : ℕ) → m.turn p ≡ wakes lk i → i ≤ q → Covered m' lk q)
    → Covered m lk q
    → Covered m' lk q
move-Covered m m' p t lk q e f g (inl h) = f h
move-Covered m m' p t lk q e f g (inr (r, i, h, l)) = elim (ℕ_discrete p r) [
  | yes d ↦ g i (ap m.turn d ∙ h) l
  | no d ↦ inr (r, i, ap (λ x. x r) e ∙ (update_ne m.turn p r t d ∙ h), l)
]

pub update_other :
    {A : Type 0} (f : ℕ → A) (a b : ℕ) (v x : A) → (a ≡ b → f b ≢ x) → f b ≡ x → update f a v b ≡ x
update_other f a b v x n h = elim (ℕ_discrete a b) [
  | yes e ↦ absurd (n e h)
  | no e ↦ update_ne f a b v e ∙ h
]

pub update_same : {A : Type 0} (f : ℕ → A) (a b : ℕ) (v : A) → f b ≡ v → update f a v b ≡ v
update_same f a b v h = elim (ℕ_discrete a b) [
  | yes e ↦ subst (λ x. update f a v x ≡ v) e (update_self f a v)
  | no e ↦ update_ne f a b v e ∙ h
]

pub then_some :
    (b : Bool) (x m' : Machine) → (if b then some x else none) ≡ some m' → (b ≡ true) × (x ≡ m')
then_some true x m' h = (refl, cc)
then_some false x m' h = absurd (cc)

pub else_some :
    (b : Bool) (x m' : Machine) → (if b then none else some x) ≡ some m' → (b ≡ false) × (x ≡ m')
else_some true x m' h = absurd (cc)
else_some false x m' h = (refl, cc)

pub free-none : (o : Option ℕ) → is_free o ≡ true → o ≡ none
free-none none e = refl
free-none (some p) e = absurd (cc)

pub none_is_not_some : (a : Option ℕ) (q : ℕ) → a ≡ none → a ≢ some q
none_is_not_some a q e f = cc

module _ (m : Machine) (p : ℕ) (k : Inv m) where
  -- A step that changes no process, where waiters stay covered.
  pub calm :
      (m' : Machine) (q : ℕ)
      → m'.procs ≡ m.procs
      → ((lk : ℕ) → m.guard lk ≡ some q → m'.guard lk ≡ some q)
      → ((lk : ℕ) → m.guard lk ≡ some q → m.locked lk ≡ true → m'.locked lk ≡ true)
      → (m.own q ≡ true → m'.own q ≡ true)
      → ((lk : ℕ) → Covered m lk q → Covered m' lk q)
      → Frame m m' q
  calm m' q e g l o c = record {
    guards = g;
    lockeds = l;
    owns = o;
    covers = λ lk x. c lk;
    asleep = λ lk s. (
      ap (λ f. is_sleeping (f q).state) (sym e) ∙ s,
      λ h v. (ap (λ f. (f q).chan) e ∙ h, c lk v),
    );
  }

  -- A turn that is not in the loop of `wakeup`.
  abbrev pub Quiet : Type 0
  Quiet = (lk i : ℕ) → m.turn p ≢ wakes lk i

  pub acquire_guard-Inv :
      (m' : Machine) (lk : ℕ) → Quiet → acquire_guard p lk (tests lk) m ≡ some m' → Inv m'
  unfolding acquire_guard
  acquire_guard-Inv m' lk quiet h =
      let m₁ = goes p (tests lk) (record m { guard = update m.guard lk (some p) }) in
      let (e, same) = then_some (is_free (m.guard lk)) m₁ m' h in
      let free = free-none (m.guard lk) e in
      subst Inv same (
        step-Inv m m₁ p (tests lk) refl k (update_self m.guard lk (some p)) (λ q l n.
          calm m₁ q refl
            (λ lk' g.
              update_other m.guard lk lk' (some p) (some q)
                (λ d. none_is_not_some (m.guard lk') q (ap m.guard (sym d) ∙ free)) g)
            (λ lk' g y. y) (λ y. y)
            (λ lk'.
              move-Covered m m₁ p (tests lk) lk' q refl (λ y. inl y)
                (λ i y. absurd (quiet lk' i y)))))

  pub acquire_own-Inv :
      (m' : Machine) (lk : ℕ)
      → p < 64
      → m.turn p ≡ calls_sleep lk
      → acquire_own p lk m ≡ some m'
      → Inv m'
  unfolding acquire_own
  acquire_own-Inv m' lk l at h =
      let m₁ = goes p (has_both lk) (record m { own = update m.own p true }) in
      let (e, same) = else_some (m.own p) m₁ m' h in
      let (g, d) = subst (λ t. Ok m p t) at (k p l) in
      subst Inv same (
        step-Inv m m₁ p (has_both lk) refl k (g, d, update_self m.own p true)
          (λ q l n.
            calm m₁ q refl (λ lk' y. y) (λ lk' y z. z) (λ y. update_same m.own p q true y)
              (λ lk'.
                move-Covered m m₁ p (has_both lk) lk' q refl (λ y. inl y) (λ i y. absurd (cc)))))

  pub release_guard-Inv :
      (m' : Machine) (lk : ℕ)
      → p < 64
      → m.turn p ≡ has_both lk
      → release_guard p lk m ≡ some m'
      → Inv m'
  unfolding release_guard
  release_guard-Inv m' lk l at h =
      let m₁ = goes p (has_own lk) (record m { guard = update m.guard lk none }) in
      let same : m₁ ≡ m' = cc in
      let (g, d, o) = subst (λ t. Ok m p t) at (k p l) in
      subst Inv same (
        step-Inv m m₁ p (has_own lk) refl k (o, inl d)
          (λ q l n.
            calm m₁ q refl
              (λ lk' y.
                update_other m.guard lk lk' none (some q)
                  (λ d z. n (let w : some p ≡ some q = sym g ∙ (ap m.guard d ∙ z) in cc)) y)
              (λ lk' y z. z) (λ y. y)
              (λ lk'.
                move-Covered m m₁ p (has_own lk) lk' q refl (λ y. inl y) (λ i y. absurd (cc)))))
