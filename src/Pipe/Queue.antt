-- ===== src/Pipe/Queue.antt =====
-- The pipe of FileSystem-RAID/kernel/pipe.c as a queue of bytes.
use xv6_kernel_extensions.Prelude.{
  ℕ, ◌+◌, ◌%◌, ◌^◌, ◌<◌, ◌≤◌, true, false, List, [], ◌∷◌, ◌++◌, update, length, ◌≡◌, ap, ◌∙◌, sym,
  arith, update_ne, update_eq, length-append,
}
use xv6_kernel_extensions.Pipe.{
  Pipe, pipealloc, is_full, put_byte, is_drained, next_byte, take_byte,
}

-- The bytes of the ring from the position `a` on.
abbrev pub Slots : (ℕ → ℕ) → ℕ → List ℕ → Type 0
Slots f a [] = Unit
Slots f a (x ∷ q) = (f (a % 512) ≡ x) × Slots f (a + 1) q

-- The pipe holds the queue `q`.
pub record Holds (p : Pipe) (q : List ℕ) : Type 0 where
  pub fits : length q ≤ 512
  pub reader : p.nread < 2 ^ 32
  pub count : p.nwrite ≡ (p.nread + length q) % 2 ^ 32
  pub slots : Slots p.contents p.nread q

Slots-shift : (f : ℕ → ℕ) (a b : ℕ) (q : List ℕ) → a % 512 ≡ b % 512 → Slots f a q → Slots f b q
Slots-shift f a b [] e s = tt
Slots-shift f a b (x ∷ q) e s =
    (ap f (sym e) ∙ s.0, Slots-shift f (a + 1) (b + 1) q (omega arith) s.1)

Slots-put :
    (f : ℕ → ℕ) (a k ch : ℕ) (q : List ℕ)
    → length q < 512
    → k ≡ (a + length q) % 512
    → Slots f a q
    → Slots (update f k ch) a (q ++ ch ∷ [])
Slots-put f a k ch [] h e s = (update_eq f k (a % 512) ch (omega arith), tt)
Slots-put f a k ch (x ∷ q) h e s = (
  update_ne f k (a % 512) ch (λ eq. omega arith) ∙ s.0,
  Slots-put f (a + 1) k ch q (omega arith) (omega arith) s.1,
)

pub pipealloc-Holds : (f : ℕ → ℕ) → Holds (pipealloc f) []
unfolding pipealloc
pipealloc-Holds f = record {
  fits = omega arith;
  reader = omega arith;
  count = omega arith;
  slots = tt;
}

pub put_byte-Holds :
    (ch : ℕ) (p : Pipe) (q : List ℕ)
    → Holds p q
    → length q < 512
    → Holds (put_byte ch p) (q ++ ch ∷ [])
unfolding put_byte
put_byte-Holds ch p q h l = record {
  fits = omega (arith, length-append q (ch ∷ []));
  reader = h.reader;
  count = omega (arith, h.count, length-append q (ch ∷ []));
  slots = Slots-put p.contents p.nread (p.nwrite % 512) ch q l (omega (arith, h.count)) h.slots;
}

pub take_byte-Holds :
    (x : ℕ) (p : Pipe) (q : List ℕ) → Holds p (x ∷ q) → (next_byte p ≡ x) × Holds (take_byte p) q
unfolding take_byte next_byte
take_byte-Holds x p q h = (
  h.slots.0,
  record {
    fits = omega (arith, h.fits);
    reader = omega arith;
    count = omega (arith, h.count);
    slots = Slots-shift p.contents (p.nread + 1) ((p.nread + 1) % 2 ^ 32) q (omega arith) h.slots.1;
  },
)

pub is_full-Holds :
    (p : Pipe) (q : List ℕ)
    → Holds p q
    → ((is_full p ≡ true) → length q ≡ 512) × ((is_full p ≡ false) → length q < 512)
unfolding is_full
is_full-Holds p q h =
    let a = h.count in let b = h.fits in let c = h.reader in (λ e. ground arith, λ e. ground arith)

pub is_drained-Holds : (p : Pipe) (x : ℕ) (q : List ℕ) → Holds p (x ∷ q) → is_drained p ≡ false
unfolding is_drained
is_drained-Holds p x q h = let a = h.count in let b = h.fits in let c = h.reader in ground arith

pub drained-Holds : (p : Pipe) → Holds p [] → is_drained p ≡ true
unfolding is_drained
drained-Holds p h = let a = h.count in let b = h.reader in ground arith
