-- ===== src/Pipe/Transfer.antt =====
-- The transfers of FileSystem-RAID/kernel/pipe.c, as operations on a queue of bytes.
use xv6_kernel_extensions.Prelude.{
  ℕ, zero, suc, ◌+◌, ◌<◌, ◌≤◌, Bool, true, false, List, [], ◌∷◌, ◌++◌, if◌then◌else◌, length, ◌≡◌,
  ◌≢◌, refl, ap, ◌∙◌, sym, arith, length-append, subst, Bool-cases, inl, inr, ◌⊎◌, Option, none,
  some, Option-cases, not, ◌||◌, ◌&&◌, append_assoc, append-nil,
}
use xv6_kernel_extensions.Pipe.{
  Pipe, WriteTurn, writes, write_waits, write_fails, ReadTurn, reads, read_waits, read_fails,
  write_loop, pipewrite, read_loop, piperead, is_full, put_byte, is_drained, take_byte,
}
use xv6_kernel_extensions.Pipe.Queue.{
  Holds, put_byte-Holds, take_byte-Holds, is_full-Holds, is_drained-Holds, drained-Holds,
}

-- The bytes `w` stand in user memory from `a` on.
abbrev pub Stands : (ℕ → Option ℕ) → ℕ → List ℕ → Type 0
Stands mem a [] = Unit
Stands mem a (x ∷ w) = (mem a ≡ some x) × Stands mem (a + 1) w

-- A write from `i` of `m` bytes, to a pipe with the queue `q`, has appended the bytes `w`: all of
-- them; or those before a bad address; or those that filled the pipe, where the writer waits, or
-- fails since it is killed or nobody reads.
abbrev pub WriteOutcome :
    Bool → Bool → (ℕ → Option ℕ) → ℕ → ℕ → ℕ → List ℕ → List ℕ → WriteTurn → Type 0
WriteOutcome killed reader mem addr i m q w (writes k) =
    (k ≡ i + length w) × ((length w ≡ m) ⊎ ((length w < m) × (mem (addr + k) ≡ none)))
WriteOutcome killed reader mem addr i m q w (write_waits k) =
    (k ≡ i + length w)
    × (length w < m)
    × (length q + length w ≡ 512)
    × (reader ≡ true)
    × (killed ≡ false)
WriteOutcome killed reader mem addr i m q w write_fails =
    (length w < m) × (length q + length w ≡ 512) × ((reader ≡ false) ⊎ (killed ≡ true))

pub record Wrote (killed : Bool) (mem : ℕ → Option ℕ) (addr i m : ℕ) (q : List ℕ) (p : Pipe)
    (r : WriteTurn × Pipe) : Type 0 where
  pub bytes : List ℕ
  pub stands : Stands mem (addr + i) bytes
  pub holds : Holds r.1 (q ++ bytes)
  pub turn : WriteOutcome killed p.readopen mem addr i m q bytes r.0

readopen-put_byte : (ch : ℕ) (p : Pipe) → (put_byte ch p).readopen ≡ p.readopen
unfolding put_byte
readopen-put_byte ch p = refl

-- The test of a writer that finds the pipe full.
gives_up :
    (reader killed : Bool)
    → (((not reader || killed) ≡ true) → (reader ≡ false) ⊎ (killed ≡ true))
      × (((not reader || killed) ≡ false) → (reader ≡ true) × (killed ≡ false))
gives_up true true = (λ e. inr refl, λ e. absurd (cc))
gives_up true false = (λ e. absurd (cc), λ e. (refl, refl))
gives_up false killed = (λ e. inl refl, λ e. absurd (cc))

module _ (killed : Bool) (mem : ℕ → Option ℕ) (addr : ℕ) where
  no_byte :
      (i m : ℕ) (q : List ℕ) (p : Pipe) (t : WriteTurn)
      → Holds p q
      → WriteOutcome killed p.readopen mem addr i m q [] t
      → Wrote killed mem addr i m q p (t, p)
  no_byte i m q p t h o = record {
    bytes = [];
    stands = tt;
    holds = subst (Holds p) (sym (append-nil q)) h;
    turn = o;
  }

  full_turn :
      (i m : ℕ) (q : List ℕ) (p : Pipe)
      → Holds p q
      → length q ≡ 512
      → Wrote killed mem addr i
          (suc m)
          q
          p
          (if not p.readopen || killed then (write_fails, p) else (write_waits i, p))
  full_turn i m q p h e = by_test (not p.readopen || killed) (gives_up p.readopen killed)
    where
      by_test :
          (b : Bool)
          → ((b ≡ true) → (p.readopen ≡ false) ⊎ (killed ≡ true))
            × ((b ≡ false) → (p.readopen ≡ true) × (killed ≡ false))
          → Wrote killed mem addr i (suc m) q p (if b then (write_fails, p) else (write_waits i, p))
      by_test true k = no_byte i (suc m) q p write_fails h (omega arith, omega arith, k.0 refl)
      by_test false k =
          let (r, d) = k.1 refl in
          no_byte i (suc m) q p (write_waits i) h (omega arith, omega arith, omega arith, r, d)

  one_more :
      (reader : Bool) (i m ch : ℕ) (q w : List ℕ) (t : WriteTurn)
      → WriteOutcome killed reader mem addr (i + 1) m (q ++ ch ∷ []) w t
      → WriteOutcome killed reader mem addr i (suc m) q (ch ∷ w) t
  one_more reader i m ch q w (writes k) (e, inl o) = (omega arith, inl (omega arith))
  one_more reader i m ch q w (writes k) (e, inr o) = (omega arith, inr (omega arith, o.1))
  one_more reader i m ch q w (write_waits k) (e, l, f, r, d) =
      (omega arith, omega arith, omega (arith, length-append q (ch ∷ [])), r, d)
  one_more reader i m ch q w write_fails (l, f, o) =
      (omega arith, omega (arith, length-append q (ch ∷ [])), o)

  first_byte :
      (m i ch : ℕ) (q : List ℕ) (p : Pipe) (r : WriteTurn × Pipe)
      → mem (addr + i) ≡ some ch
      → Wrote killed mem addr (i + 1) m (q ++ ch ∷ []) (put_byte ch p) r
      → Wrote killed mem addr i (suc m) q p r
  first_byte m i ch q p r o k = record {
    bytes = ch ∷ k.bytes;
    stands = (o, subst (λ a. Stands mem a k.bytes) (omega arith) k.stands);
    holds = subst (Holds r.1) (append_assoc q (ch ∷ []) k.bytes) k.holds;
    turn = one_more p.readopen i m ch q k.bytes r.0 (
        subst (λ b. WriteOutcome killed b mem addr (i + 1) m (q ++ ch ∷ []) k.bytes r.0)
          (readopen-put_byte ch p) k.turn);
  }

  pub write_loop-Wrote :
      (m i : ℕ) (q : List ℕ) (p : Pipe)
      → Holds p q
      → Wrote killed mem addr i m q p (write_loop m killed mem addr i p)
  unfolding write_loop
  write_loop-Wrote zero i q p h = no_byte i 0 q p (writes i) h (omega arith, inl refl)
  write_loop-Wrote (suc m) i q p h = elim (Bool-cases (is_full p)) [
    | inl f ↦ rw f (full_turn i m q p h ((is_full-Holds p q h).0 f))
    | inr f ↦ rw f (elim (Option-cases (mem (addr + i))) [
      | inl o ↦ rw o (no_byte i (suc m) q p (writes i) h (omega arith, inr (omega arith, o)))
      | inr o ↦ rw (o.1) (
          first_byte m i o.0 q p (write_loop m killed mem addr (i + 1) (put_byte o.0 p)) o.1 (
            write_loop-Wrote m (i + 1) (q ++ o.0 ∷ []) (put_byte o.0 p)
              (put_byte-Holds o.0 p q h ((is_full-Holds p q h).1 f))))
    ])
  ]

-- If the pipe holds a queue of bytes, `pipewrite` appends to the queue bytes that stand in user
-- memory at `addr` and on: all `n`; or those before the first address where `copyin` fails; or
-- those that fill the pipe, and then it waits if there is a reader and the process is not killed,
-- and fails otherwise. The count that it returns is the number of those bytes.
pub pipewrite-Wrote :
    (killed : Bool) (mem : ℕ → Option ℕ) (addr n : ℕ) (q : List ℕ) (p : Pipe)
    → Holds p q
    → Wrote killed mem addr 0 n q p (pipewrite killed mem addr n p)
unfolding pipewrite
pipewrite-Wrote killed mem addr n q p h = write_loop-Wrote killed mem addr n 0 q p h

-- A read of at most `n` bytes, of a pipe with the queue `q`.
pub record Copied (writable : ℕ → Bool) (addr n : ℕ) (q : List ℕ) (r : List ℕ × Pipe) : Type 0 where
  pub lost : List ℕ
  pub left : List ℕ
  pub splits : q ≡ r.0 ++ (lost ++ left)
  pub holds : Holds r.1 left
  pub short : length r.0 ≤ n
  -- It stops at `n` bytes, at the end of the queue, or at an address where `copyout` fails, whose
  -- byte is lost.
  pub stop :
      ((lost ≡ []) × ((length r.0 ≡ n) ⊎ (left ≡ [])))
      ⊎ ((length lost ≡ 1) × (writable (addr + length r.0) ≡ false))

read_loop-Copied :
    (writable : ℕ → Bool) (n addr : ℕ) (q : List ℕ) (p : Pipe)
    → Holds p q
    → Copied writable addr n q (read_loop n writable addr p)
unfolding read_loop
read_loop-Copied writable zero addr q p h = record {
  lost = [];
  left = q;
  splits = refl;
  holds = h;
  short = omega arith;
  stop = inl (refl, inl refl);
}
read_loop-Copied writable (suc n) addr [] p h = rw (drained-Holds p h) (record {
  lost = [];
  left = [];
  splits = refl;
  holds = h;
  short = omega arith;
  stop = inl (refl, inr refl);
})
read_loop-Copied writable (suc n) addr (x ∷ q) p h =
    let (b, k) = take_byte-Holds x p q h in
    rw (is_drained-Holds p x q h, b)
      (elim (Bool-cases (writable addr)) [
        | inl w ↦ rw w (
            let c = read_loop-Copied writable n (addr + 1) q (take_byte p) k in
            record {
              lost = c.lost;
              left = c.left;
              splits = ap (λ l. x ∷ l) c.splits;
              holds = c.holds;
              short = omega (arith, c.short);
              stop = elim c.stop [
                | inl s ↦ inl (s.0, elim s.1 [ inl e ↦ inl (ap suc e) | inr e ↦ inr e ])
                | inr s ↦ inr (s.0, ap writable (omega arith) ∙ s.1)
              ];
            })
        | inr w ↦ rw w (record {
          lost = x ∷ [];
          left = q;
          splits = refl;
          holds = k;
          short = omega arith;
          stop = inr (refl, ap writable (omega arith) ∙ w);
        })
      ])

-- What a call of `piperead` gives: it fails or waits exactly on an empty pipe that may still be
-- written to.
abbrev pub ReadOutcome : Bool → Bool → (ℕ → Bool) → ℕ → ℕ → List ℕ → Pipe → ReadTurn → Type 0
ReadOutcome killed writer writable addr n q p' (reads bytes) =
    ((q ≢ []) ⊎ (writer ≡ false)) × Copied writable addr n q (bytes, p')
ReadOutcome killed writer writable addr n q p' read_waits =
    (q ≡ []) × (writer ≡ true) × (killed ≡ false) × Holds p' q
ReadOutcome killed writer writable addr n q p' read_fails =
    (q ≡ []) × (writer ≡ true) × (killed ≡ true) × Holds p' q

-- If the pipe holds a queue of bytes: exactly on an empty queue with the writing end open, `piperead` fails
-- if the process is killed and waits if not, and the queue stays empty. Otherwise it takes from
-- the front of the queue the bytes that it copies to `addr` and on, `n` at most; it stops before
-- `n` only at the end of the queue, or at an address where `copyout` fails, and then one more byte
-- is taken from the queue and lost.
pub piperead-ReadOutcome :
    (killed : Bool) (writable : ℕ → Bool) (addr n : ℕ) (q : List ℕ) (p : Pipe)
    → Holds p q
    → ReadOutcome killed p.writeopen writable addr n q
        (piperead killed writable addr n p).1
        (piperead killed writable addr n p).0
unfolding piperead
piperead-ReadOutcome killed writable addr n [] p h =
    by_tests (is_drained p && p.writeopen) killed
      (λ e. elim (Bool-cases p.writeopen) [
        | inl w ↦ w
        | inr w ↦
            let f : (is_drained p && p.writeopen) ≡ false = rw (drained-Holds p h, w) refl in
            absurd (cc)
      ])
      (λ e. sym (rw (drained-Holds p h) refl) ∙ e) refl
  where
    by_tests :
        (b k : Bool)
        → (b ≡ true → p.writeopen ≡ true)
        → (b ≡ false → p.writeopen ≡ false)
        → k ≡ killed
        → let r : ReadTurn × Pipe =
            if b
            then (if k then (read_fails, p) else (read_waits, p))
            else (reads (read_loop n writable addr p).0, (read_loop n writable addr p).1) in
          ReadOutcome killed p.writeopen writable addr n [] r.1 r.0
    by_tests true true w v e = (refl, w refl, sym e, h)
    by_tests true false w v e = (refl, w refl, sym e, h)
    by_tests false k w v e = (inr (v refl), read_loop-Copied writable n addr [] p h)
piperead-ReadOutcome killed writable addr n (x ∷ q) p h =
    rw (is_drained-Holds p x q h) (inl (λ e. cc), read_loop-Copied writable n addr (x ∷ q) p h)
