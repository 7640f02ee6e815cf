-- ===== src/Sched/Pick.antt =====
-- The scan `if (best == NULL || better(th, best)) best = th;` that every scheduler of
-- Threading-Scheduler/threads_sched.c makes over a queue, with the threads to skip.
use xv6_kernel_extensions.Prelude.{
  ℕ, Bool, true, false, List, [], ◌∷◌, Option, none, some, ◌≡◌, refl, inl, inr, if◌then◌else◌, Elem,
  Bool-cases, ◌⊎◌, All,
}

module _ (ok : ℕ → Bool) (better : ℕ → ℕ → Bool) where
  unfoldable pub take_better : ℕ → Option ℕ → Option ℕ
  take_better th none = some th
  take_better th (some best) = if better th best then some th else some best

  unfoldable pub pick_from : Option ℕ → List ℕ → Option ℕ
  unfolding take_better
  pick_from best [] = best
  pick_from best (th ∷ q) = pick_from (if ok th then take_better th best else best) q

  unfoldable pub pick : List ℕ → Option ℕ
  unfolding pick_from
  pick q = pick_from none q

-- Among the threads that satisfy `P`, `better` is a strict order: no thread beats itself, and
-- "does not lose to" is transitive and follows from winning.
pub record IsRanking (P : ℕ → Type 0) (better : ℕ → ℕ → Bool) : Type 0 where
  pub irrefl : (a : ℕ) → P a → better a a ≡ false
  pub asym : (a b : ℕ) → P a → P b → better a b ≡ true → better b a ≡ false
  pub trans :
      (a b c : ℕ) → P a → P b → P c → better b a ≡ false → better c b ≡ false → better c a ≡ false

-- What a scan finds: `none` if all threads are skipped, or else a thread of the queue that is
-- not skipped and to which no thread that is not skipped is better.
abbrev pub IsBest : (ok : ℕ → Bool) (better : ℕ → ℕ → Bool) (q : List ℕ) → Option ℕ → Type 0
IsBest ok better q none = (th : ℕ) → Elem th q → ok th ≡ false
IsBest ok better q (some b) =
    Elem b q × (ok b ≡ true) × ((th : ℕ) → Elem th q → ok th ≡ true → better th b ≡ false)

-- What a scan that starts with the thread `b` in hand keeps: `c` is `b` or from the queue, and
-- neither `b` nor a thread of the queue beats it.
record Keeps (P : ℕ → Type 0) (ok : ℕ → Bool) (better : ℕ → ℕ → Bool) (b : ℕ) (q : List ℕ) (c : ℕ)
    : Type 0 where
  good : P c
  source : (c ≡ b) ⊎ (Elem c q × (ok c ≡ true))
  first : better b c ≡ false
  rest : (th : ℕ) → Elem th q → ok th ≡ true → better th c ≡ false

module _ (P : ℕ → Type 0) (ok : ℕ → Bool) (better : ℕ → ℕ → Bool) (r : IsRanking P better) where
  Keeps-skip :
      (x b : ℕ) (q : List ℕ) (c : ℕ)
      → ok x ≡ false
      → Keeps P ok better b q c
      → Keeps P ok better b (x ∷ q) c
  Keeps-skip x b q c h k = record {
    good = k.good;
    source = elim k.source [ inl e ↦ inl e | inr m ↦ inr (inr m.0, m.1) ];
    first = k.first;
    rest = λ th m o. elim m [ inl e ↦ absurd (cc) | inr m' ↦ k.rest th m' o ];
  }

  Keeps-replace :
      (x b : ℕ) (q : List ℕ) (c : ℕ)
      → P x
      → P b
      → ok x ≡ true
      → better x b ≡ true
      → Keeps P ok better x q c
      → Keeps P ok better b (x ∷ q) c
  Keeps-replace x b q c px pb h w k = record {
    good = k.good;
    source = inr (elim k.source [ inl e ↦ (inl e, rw e h) | inr m ↦ (inr m.0, m.1) ]);
    first = r.trans c x b k.good px pb k.first (r.asym x b px pb w);
    rest = λ th m o. elim m [ inl e ↦ rw e k.first | inr m' ↦ k.rest th m' o ];
  }

  Keeps-keep :
      (x b : ℕ) (q : List ℕ) (c : ℕ)
      → P x
      → P b
      → better x b ≡ false
      → Keeps P ok better b q c
      → Keeps P ok better b (x ∷ q) c
  Keeps-keep x b q c px pb w k = record {
    good = k.good;
    source = elim k.source [ inl e ↦ inl e | inr m ↦ inr (inr m.0, m.1) ];
    first = k.first;
    rest = λ th m o. elim m [
      | inl e ↦ rw e (r.trans c b x k.good pb px k.first w)
      | inr m' ↦ k.rest th m' o
    ];
  }

  pick_from-Keeps :
      (q : List ℕ) (b : ℕ)
      → All P q
      → P b
      → (c : ℕ) × (pick_from ok better (some b) q ≡ some c) × Keeps P ok better b q c
  unfolding pick_from take_better
  pick_from-Keeps [] b ps pb = (
    b,
    refl,
    record { good = pb; source = inl refl; first = r.irrefl b pb; rest = λ th m. absurd m },
  )
  pick_from-Keeps (x ∷ q) b ps pb = elim (Bool-cases (ok x)) [
    | inl o ↦ elim (Bool-cases (better x b)) [
      | inl w ↦
          let (c, e, k) = pick_from-Keeps q x ps.1 ps.0 in
          (c, rw (o, w) e, Keeps-replace x b q c ps.0 pb o w k)
      | inr w ↦
          let (c, e, k) = pick_from-Keeps q b ps.1 pb in
          (c, rw (o, w) e, Keeps-keep x b q c ps.0 pb w k)
    ]
    | inr o ↦ let (c, e, k) = pick_from-Keeps q b ps.1 pb in (c, rw o e, Keeps-skip x b q c o k)
  ]

  Keeps-IsBest :
      (b : ℕ) (q : List ℕ) (c : ℕ)
      → ok b ≡ true
      → Keeps P ok better b q c
      → IsBest ok better (b ∷ q) (some c)
  Keeps-IsBest b q c o k = (
    elim k.source [ inl e ↦ inl e | inr m ↦ inr m.0 ],
    elim k.source [ inl e ↦ rw e o | inr m ↦ m.1 ],
    λ th m p. elim m [ inl e ↦ rw e k.first | inr m' ↦ k.rest th m' p ],
  )

  IsBest-skip :
      (x : ℕ) (q : List ℕ) (o : Option ℕ)
      → ok x ≡ false
      → IsBest ok better q o
      → IsBest ok better (x ∷ q) o
  IsBest-skip x q none h k = λ th m. elim m [ inl e ↦ rw e h | inr m' ↦ k th m' ]
  IsBest-skip x q (some b) h k =
      (inr k.0, k.1, λ th m p. elim m [ inl e ↦ absurd (cc) | inr m' ↦ k.2 th m' p ])

  -- A scan by a ranking finds a best thread, or there is none to find.
  pub pick-IsBest : (q : List ℕ) → All P q → IsBest ok better q (pick ok better q)
  unfolding pick pick_from take_better
  pick-IsBest [] ps = λ th m. absurd m
  pick-IsBest (x ∷ q) ps = elim (Bool-cases (ok x)) [
    | inl o ↦ let (c, e, k) = pick_from-Keeps q x ps.1 ps.0 in rw (o, e) (Keeps-IsBest x q c o k)
    | inr o ↦ rw o (IsBest-skip x q (pick ok better q) o (pick-IsBest q ps.1))
  ]

-- Threads without a condition.
abbrev pub AnyThread : ℕ → Type 0
AnyThread th = Unit

pub All-AnyThread : (q : List ℕ) → All AnyThread q
All-AnyThread [] = tt
All-AnyThread (x ∷ q) = (tt, All-AnyThread q)
