-- ===== src/Bio/Get.antt =====
-- What `bget` of FileSystem-RAID/kernel/bio.c returns.
use xv6_kernel_extensions.Prelude.{
  ℕ, Bool, true, false, List, ◌∷◌, ◌++◌, Option, none, some, ◌≡◌, ◌≢◌, refl, inl, inr, Elem, arith,
  Option-cases, ap, sym, ◌∙◌, update, update_self, subst, fun_ext,
}
use xv6_kernel_extensions.Bio.{
  Buf, Cache, Outcome, returns, panics, inc, is_cached, is_unused, set_buf, find_buf, find_last,
  acquire_buf, recycle, bget_unused, bget_cached, bget,
}
use xv6_kernel_extensions.Bio.Find.{
  find_buf-some, find_buf-none, find_last-some, find_last-none, Elem-middle,
}

-- A buffer holds this block of this device.
abbrev pub Holds : Buf → ℕ → ℕ → Type 0
Holds v dev blockno = (v.dev ≡ dev) × (v.blockno ≡ blockno)

-- How the buffer was found: it held the block and has one reference more, or no buffer of the list
-- held the block, it had no reference, no buffer less recently used was unused, and it is empty.
pub data Source (dev blockno : ℕ) (s : Cache) (b : ℕ) (v : Buf) : Type 0 where
  cached :
      Holds (s.bufs b) dev blockno
      → v ≡ record (s.bufs b) { lock = v.lock; refcnt = inc (s.bufs b).refcnt }
      → Source dev blockno s b v
  recycled :
      (before after : List ℕ)
      → s.order ≡ before ++ b ∷ after
      → (s.bufs b).refcnt ≡ 0
      → ((p : ℕ) → Elem p after → (s.bufs p).refcnt ≢ 0)
      → ((p : ℕ) → Elem p s.order → ¬ Holds (s.bufs p) dev blockno)
      → v.valid ≡ false
      → v.refcnt ≡ 1
      → Source dev blockno s b v

pub record Got (lock : Option ℕ) (dev blockno : ℕ) (s : Cache) (b : ℕ) (s' : Cache) : Type 0 where
  pub value : Buf
  pub cache : s' ≡ record s { bufs = update s.bufs b value }
  pub listed : Elem b s.order
  pub identity : Holds value dev blockno
  pub locked : value.lock ≡ lock
  pub source : Source dev blockno s b value

-- The caller has the buffer and its lock; or it has the buffer, with its reference, and waits for the
-- process that has the lock; or there is no buffer for the block.
pub data BgetOutcome (me dev blockno : ℕ) (s : Cache) : Outcome (Bool × ℕ × Cache) → Type 0 where
  returned :
      (b : ℕ) (s' : Cache)
      → (s.bufs b).lock ≡ none
      → Got (some me) dev blockno s b s'
      → BgetOutcome me dev blockno s (returns (true, b, s'))
  no_buffers :
      ((p : ℕ) → Elem p s.order → (¬ Holds (s.bufs p) dev blockno) × ((s.bufs p).refcnt ≢ 0))
      → BgetOutcome me dev blockno s panics
  waits :
      (b pid : ℕ) (s' : Cache)
      → (s.bufs b).lock ≡ some pid
      → Got (some pid) dev blockno s b s'
      → BgetOutcome me dev blockno s (returns (false, b, s'))

-- Two writes of one buffer.
set_buf-set_buf : (s : Cache) (b : ℕ) (v w : Buf) → set_buf (set_buf s b v) b w ≡ set_buf s b w
unfolding set_buf
set_buf-set_buf s b v w = ap (λ (f : ℕ → Buf). record s { bufs = f }) (fun_ext (λ p. ground arith))

set_buf_lem : (s : Cache) (b : ℕ) (v : Buf) → set_buf s b v ≡ record s { bufs = update s.bufs b v }
unfolding set_buf
set_buf_lem s b v = refl

bufs-set_buf : (s : Cache) (b : ℕ) (v : Buf) → (set_buf s b v).bufs b ≡ v
unfolding set_buf
bufs-set_buf s b v = update_self s.bufs b v

acquire_buf-free :
    (me b : ℕ) (t : Cache) (v : Buf)
    → t.bufs b ≡ v
    → v.lock ≡ none
    → acquire_buf me b t ≡ returns (true, b, set_buf t b (record v { lock = some me }))
unfolding acquire_buf
acquire_buf-free me b t v e n =
    rw (e, n, acquire_buf)
      (ap (λ (x : Buf). returns (true, b, set_buf t b (record x { lock = some me }))) e)

acquire_buf-held :
    (me b pid : ℕ) (t : Cache) (v : Buf)
    → t.bufs b ≡ v
    → v.lock ≡ some pid
    → acquire_buf me b t ≡ returns (false, b, t)
unfolding acquire_buf
acquire_buf-held me b pid t v e n = rw (e, n, acquire_buf) refl

-- Locking a buffer that has just been given the value `v`.
acquire-outcome :
    (me dev blockno b : ℕ) (s : Cache) (v : Buf)
    → v.lock ≡ (s.bufs b).lock
    → Elem b s.order
    → Holds v dev blockno
    → ((l : Option ℕ) → Source dev blockno s b (record v { lock = l }))
    → BgetOutcome me dev blockno s (acquire_buf me b (set_buf s b v))
acquire-outcome me dev blockno b s v same m i src = elim (Option-cases (s.bufs b).lock) [
  | inl n ↦ rw (acquire_buf-free me b (set_buf s b v) v (bufs-set_buf s b v) (same ∙ n)) (
      returned b (set_buf (set_buf s b v) b (record v { lock = some me })) n (record {
        value = record v { lock = some me };
        cache =
            set_buf-set_buf s b v (record v { lock = some me })
            ∙ set_buf_lem s b (record v { lock = some me });
        listed = m;
        identity = i;
        locked = refl;
        source = src (some me);
      }))
  | inr p ↦ rw (acquire_buf-held me b p.0 (set_buf s b v) v (bufs-set_buf s b v) (same ∙ p.1)) (
      waits b p.0 (set_buf s b v) p.1 (record {
        value = v;
        cache = set_buf_lem s b v;
        listed = m;
        identity = i;
        locked = same ∙ p.1;
        source = src v.lock;
      }))
]

is_cached→Holds : (dev blockno : ℕ) (v : Buf) → is_cached dev blockno v ≡ true → Holds v dev blockno
is_cached→Holds dev blockno v e = ground arith

not_cached : (dev blockno : ℕ) (v : Buf) → is_cached dev blockno v ≡ false → ¬ Holds v dev blockno
not_cached dev blockno v e h = ground arith

recycle_lem :
    (s : Cache) (dev blockno b : ℕ)
    → recycle s dev blockno b
      ≡ set_buf s b (record (s.bufs b) { dev = dev; blockno = blockno; valid = false; refcnt = 1 })
unfolding recycle
recycle_lem s dev blockno b = refl

unused-outcome :
    (me dev blockno : ℕ) (s : Cache) (o : Option ℕ)
    → find_last is_unused s.bufs s.order ≡ o
    → ((p : ℕ) → Elem p s.order → ¬ Holds (s.bufs p) dev blockno)
    → BgetOutcome me dev blockno s (bget_unused me dev blockno s o)
unfolding bget_unused
unused-outcome me dev blockno s none e n =
    no_buffers
      (λ p m. (n p m, λ z. let f = find_last-none is_unused s.bufs s.order e p m in ground arith))
unused-outcome me dev blockno s (some b) e n =
    let (l, r, split, t, last) = find_last-some is_unused s.bufs s.order b e in
    let v : Buf = record (s.bufs b) { dev = dev; blockno = blockno; valid = false; refcnt = 1 } in
    rw (recycle_lem s dev blockno b) (
      acquire-outcome me dev blockno b s v refl
        (subst (λ q. Elem b q) (sym split) (Elem-middle l r b)) (refl, refl)
        (λ k.
          recycled l r split (ground arith) (λ p m z. let f = last p m in ground arith) n refl
            refl))

cached-outcome :
    (me dev blockno : ℕ) (s : Cache) (o : Option ℕ)
    → find_buf (is_cached dev blockno) s.bufs s.order ≡ o
    → BgetOutcome me dev blockno s (bget_cached me dev blockno s o)
unfolding bget_cached
cached-outcome me dev blockno s none e =
    unused-outcome me dev blockno s (find_last is_unused s.bufs s.order) refl (λ p m.
      not_cached dev blockno (s.bufs p)
        (find_buf-none (is_cached dev blockno) s.bufs s.order e p m))
cached-outcome me dev blockno s (some b) e =
    let (m, t) = find_buf-some (is_cached dev blockno) s.bufs s.order b e in
    let h = is_cached→Holds dev blockno (s.bufs b) t in
    acquire-outcome me dev blockno b s (record (s.bufs b) { refcnt = inc (s.bufs b).refcnt }) refl m
      h (λ k. cached h refl)

-- `bget` gives a buffer of the list that holds the block, locked by the caller if nobody had its
-- lock, and otherwise with the lock as it was, for which the caller then waits with its reference
-- taken; it changes no other buffer, nor the list, nor the disk. A buffer that held the block keeps its contents and
-- has one reference more. Only if no buffer holds the block does it take over another: one that
-- has no reference, the least recently used of those. It panics only if no buffer holds the block
-- and all have references.
pub bget-BgetOutcome :
    (me dev blockno : ℕ) (s : Cache) → BgetOutcome me dev blockno s (bget me dev blockno s)
unfolding bget
bget-BgetOutcome me dev blockno s =
    cached-outcome me dev blockno s (find_buf (is_cached dev blockno) s.bufs s.order) refl
