-- ===== src/Bio/Reach.antt =====
-- The calls of FileSystem-RAID/kernel/bio.c as steps, and what holds in every state that they reach
-- from `binit`.
use xv6_kernel_extensions.Prelude.{
  Bool, true, false, Option-cases, some, ℕ, ◌∷◌, none, ◌≡◌, refl, inl, inr, ◌⊎◌, Elem, Bool-cases,
  ap, sym, ◌∙◌, subst, ◌==◌, arith, if◌then◌else◌,
}
use xv6_kernel_extensions.Links.{
  list_del, length-list_del, list_del-absent, list_del-Distinct, Elem-list_del,
}
use xv6_kernel_extensions.Bio.{
  acquire_buf, Block, Buf, Faults, Cache, Outcome, returns, panics, sleeps, dec, binit, set_buf,
  bget, bread, bwrite, brelse, bpin, bunpin, fill, holds, ◌>>=◌,
}
use xv6_kernel_extensions.Bio.Recovery.{BwriteOutcome, refused, written, bwrite-BwriteOutcome}
use xv6_kernel_extensions.Bio.Invariant.{
  IsValid, SameBlock, update-IsValid, binit-IsValid, bget-IsValid,
}

-- One call, or what may happen between two calls: a process that waits in `bget` tries again to lock
-- the buffer, and after the lock is its own fills it if it is in `bread`; the holder of a buffer
-- changes its contents; the simulation flags are set.
pub data Step (s t : Cache) : Type 0 where
  gets :
      (me dev blockno : ℕ) (locked : Bool) (b : ℕ)
      → bget me dev blockno s ≡ returns (locked, b, t)
      → Step s t
  reads :
      (me dev blockno : ℕ) (locked : Bool) (b : ℕ)
      → bread me dev blockno s ≡ returns (locked, b, t)
      → Step s t
  resumes : (me b : ℕ) (locked : Bool) → acquire_buf me b s ≡ returns (locked, b, t) → Step s t
  resumes_read :
      (me b : ℕ) (u : Cache) → acquire_buf me b s ≡ returns (true, b, u) → t ≡ fill b u → Step s t
  writes : (me b : ℕ) → bwrite me b s ≡ returns t → Step s t
  releases : (me b : ℕ) → Elem b s.order → brelse me b s ≡ returns t → Step s t
  pins : (b : ℕ) → t ≡ bpin b s → Step s t
  unpins : (b : ℕ) → t ≡ bunpin b s → Step s t
  edits : (b : ℕ) (v : Block) → t ≡ set_buf s b (record (s.bufs b) { contents = v }) → Step s t
  fails : (f : Faults) → t ≡ record s { faults = f } → Step s t

pub data Reach (s : Cache) : Cache → Type 0 where
  here : Reach s s
  next : {t u : Cache} → Reach s t → Step t u → Reach s u

state_of : Cache → Outcome Cache → Cache
state_of s (returns t) = t
state_of s panics = s
state_of s sleeps = s

returns-injective : {s t : Cache} → returns s ≡ returns t → s ≡ t
unfolding state_of
returns-injective {s} {t} e = ap (state_of s) e

module _ (s : Cache) (w : IsValid s) where
  set_buf-IsValid : (b : ℕ) (v : Buf) → SameBlock v (s.bufs b) → IsValid (set_buf s b v)
  unfolding set_buf
  set_buf-IsValid b v h = update-IsValid s b v w (inl h)

  fill-IsValid : (b : ℕ) → IsValid (fill b s)
  unfolding fill
  fill-IsValid b = elim (Bool-cases ((s.bufs b).valid)) [
    | inl e ↦ rw e w
    | inr e ↦ rw e (update-IsValid s b _ w (inl (refl, refl)))
  ]

  disk-IsValid : (d : ℕ → Block) → IsValid (record s { disk = d })
  disk-IsValid d = record {
    distinct = w.distinct;
    buffers = w.buffers;
    count = w.count;
    unique = w.unique;
  }

  faults-IsValid : (f : Faults) → IsValid (record s { faults = f })
  faults-IsValid f = record {
    distinct = w.distinct;
    buffers = w.buffers;
    count = w.count;
    unique = w.unique;
  }

  bwrite-IsValid : (me b : ℕ) (t : Cache) → bwrite me b s ≡ returns t → IsValid t
  bwrite-IsValid me b t e = from_outcome (bwrite me b s) e (bwrite-BwriteOutcome me b s)
    where
      from_outcome : (o : Outcome Cache) → o ≡ returns t → BwriteOutcome me b s o → IsValid t
      from_outcome o e (refused h p) = absurd (cc)
      from_outcome o e (written d h p k) =
          let same : record s { disk = d } ≡ t = returns-injective (sym p ∙ e) in
          subst IsValid same (disk-IsValid d)

  -- Moving a buffer to the front of the list.
  front-IsValid : (b : ℕ) → Elem b s.order → IsValid (record s { order = b ∷ list_del b s.order })
  front-IsValid b m = record {
    distinct = (list_del-absent b s.order w.distinct, list_del-Distinct b s.order w.distinct);
    buffers = λ p k. w.buffers p (back p k);
    count = length-list_del b s.order m ∙ w.count;
    unique = λ p q mp mq n e. w.unique p q (back p mp) (back q mq) n e;
  }
    where
      back : (p : ℕ) → (p ≡ b) ⊎ Elem p (list_del b s.order) → Elem p s.order
      back p (inl e) = subst (λ z. Elem z s.order) (sym e) m
      back p (inr k) = Elem-list_del b p s.order k

released : ℕ → Cache → Cache
released b s =
    let s' = set_buf s b (record (s.bufs b) { lock = none; refcnt = dec (s.bufs b).refcnt }) in
    if dec (s.bufs b).refcnt == 0 then record s' { order = b ∷ list_del b s.order } else s'

brelse-released :
    (me b : ℕ) (s : Cache) → (brelse me b s ≡ panics) ⊎ (brelse me b s ≡ returns (released b s))
unfolding brelse released
brelse-released me b s = elim (Bool-cases (holds (s.bufs b).lock me)) [
  | inl h ↦ inr (rw h)
  | inr h ↦ inl (rw h)
]

order-set_buf : (s : Cache) (b : ℕ) (v : Buf) → (set_buf s b v).order ≡ s.order
unfolding set_buf
order-set_buf s b v = refl

released-IsValid : (s : Cache) → IsValid s → (b : ℕ) → Elem b s.order → IsValid (released b s)
unfolding released set_buf
released-IsValid s w b m = elim (Bool-cases (dec (s.bufs b).refcnt == 0)) [
  | inl e ↦ rw e (front-IsValid s' w' b m)
  | inr e ↦ rw e w'
]
  where
    s' : Cache
    s' = set_buf s b (record (s.bufs b) { lock = none; refcnt = dec (s.bufs b).refcnt })

    w' : IsValid s'
    w' = set_buf-IsValid s w b _ (refl, refl)

brelse-IsValid :
    (s t : Cache) → IsValid s → (me b : ℕ) → Elem b s.order → brelse me b s ≡ returns t → IsValid t
brelse-IsValid s t w me b m e = elim (brelse-released me b s) [
  | inl p ↦ absurd (cc)
  | inr p ↦ subst IsValid (returns-injective (sym p ∙ e)) (released-IsValid s w b m)
]

bread-IsValid :
    (s t : Cache)
    → IsValid s
    → (me dev blockno : ℕ) (locked : Bool) (b : ℕ) → bread me dev blockno s ≡ returns (locked, b, t)
    → IsValid t
unfolding bread
bread-IsValid s t w me dev blockno locked b e = from_get (bget me dev blockno s) refl e
  where
    from_get :
        (o : Outcome (Bool × ℕ × Cache))
        → bget me dev blockno s ≡ o
        → ◌>>=◌ {B = Bool × ℕ × Cache} o
            (λ r. returns (r.0, r.1, if r.0 then fill r.1 r.2 else r.2))
          ≡ returns (locked, b, t)
        → IsValid t
    from_get (returns (true, c, u)) g k =
        let same : fill c u ≡ t = ground arith in
        subst IsValid same (fill-IsValid u (bget-IsValid me dev blockno s w g) c)
    from_get (returns (false, c, u)) g k =
        let same : u ≡ t = ground arith in subst IsValid same (bget-IsValid me dev blockno s w g)
    from_get panics g k = absurd (cc)
    from_get sleeps g k = absurd (cc)

acquire_buf-IsValid :
    (s t : Cache)
    → IsValid s
    → (me b : ℕ) (locked : Bool) → acquire_buf me b s ≡ returns (locked, b, t)
    → IsValid t
unfolding acquire_buf
acquire_buf-IsValid s t w me b locked e = elim (Option-cases (s.bufs b).lock) [
  | inl n ↦
      let v = record (s.bufs b) { lock = some me } in
      let k : ◌≡◌ {A = Outcome (Bool × ℕ × Cache)} (returns (true, b, set_buf s b v))
          (returns (locked, b, t)) =
        sym (rw (n, acquire_buf) refl) ∙ e in
      let same : set_buf s b v ≡ t = ground arith in
      subst IsValid same (set_buf-IsValid s w b v (refl, refl))
  | inr (pid, p) ↦
      let k : ◌≡◌ {A = Outcome (Bool × ℕ × Cache)} (returns (false, b, s))
          (returns (locked, b, t)) =
        sym (rw (p, acquire_buf) refl) ∙ e in
      let same : s ≡ t = ground arith in subst IsValid same w
]

Step-IsValid : {s t : Cache} → Step s t → IsValid s → IsValid t
unfolding bpin bunpin
Step-IsValid {s} (gets me dev blockno locked b e) w = bget-IsValid me dev blockno s w e
Step-IsValid {s} {t} (reads me dev blockno locked b e) w =
    bread-IsValid s t w me dev blockno locked b e
Step-IsValid {s} {t} (resumes me b locked e) w = acquire_buf-IsValid s t w me b locked e
Step-IsValid {s} {t} (resumes_read me b u e f) w =
    rw f (fill-IsValid u (acquire_buf-IsValid s u w me b true e) b)
Step-IsValid {s} {t} (writes me b e) w = bwrite-IsValid s w me b t e
Step-IsValid {s} {t} (releases me b m e) w = brelse-IsValid s t w me b m e
Step-IsValid {s} (pins b e) w = rw e (set_buf-IsValid s w b _ (refl, refl))
Step-IsValid {s} (unpins b e) w = rw e (set_buf-IsValid s w b _ (refl, refl))
Step-IsValid {s} (edits b v e) w = rw e (set_buf-IsValid s w b _ (refl, refl))
Step-IsValid {s} (fails f e) w = rw e (faults-IsValid s w f)

-- From zeroed buffers, in every state that the calls of the buffer cache reach, in any order and
-- by any processes, those included that have to wait for the lock of their buffer, the list links
-- the buffers 0 to 29, each exactly once, and no block of a device is cached in two buffers.
pub Reach-IsValid :
    (bufs : ℕ → Buf) (disk : ℕ → Block) (f : Faults) (t : Cache)
    → ((p : ℕ) → (bufs p).dev ≡ 0)
    → Reach (binit bufs disk f) t
    → IsValid t
Reach-IsValid bufs disk f t z r = go r
  where
    go : {u : Cache} → Reach (binit bufs disk f) u → IsValid u
    go here = binit-IsValid bufs disk f z
    go (next r st) = Step-IsValid st (go r)
