-- ===== src/Vm/Transfer.antt =====
-- What the copies of FileSystem-RAID/kernel/vm.c transfer, byte by byte.
use xv6_kernel_extensions.Prelude.{
  ℕ, zero, suc, ◌+◌, ◌-◌, ◌%◌, ◌<◌, ◌≤◌, Bool, true, false, ◌==◌, ltb, leb, ◌&&◌, if◌then◌else◌,
  ◌≡◌, ◌≢◌, refl, sym, ap, ◌∙◌, arith, inl, inr, ◌⊎◌, Bool-cases, subst,
}
use xv6_kernel_extensions.Vm.{Ram, pgrounddown, walkaddr}
use xv6_kernel_extensions.Vm.Copy.{move_bytes, in_page, copyin_loop, copyin}

-- The physical address of a user's byte.
abbrev pub page_of : ℕ → ℕ → Ram → ℕ
page_of pagetable va r = walkaddr pagetable (pgrounddown va) r

abbrev pub byte_at : ℕ → ℕ → Ram → ℕ
byte_at pagetable va r = page_of pagetable va r + va % 4096

pub move_bytes-in :
    (n dst src i : ℕ) (from to : ℕ → ℕ)
    → i < n
    → move_bytes n dst src from to (dst + i) ≡ from (src + i)
unfolding move_bytes
move_bytes-in n dst src i from to h =
    let e : (leb dst (dst + i) && ltb (dst + i) (dst + n)) ≡ true = ground arith in
    rw e (ap from (omega arith))

pub move_bytes-out :
    (n dst src a : ℕ) (from to : ℕ → ℕ)
    → (a < dst) ⊎ (dst + n ≤ a)
    → move_bytes n dst src from to a ≡ to a
unfolding move_bytes
move_bytes-out n dst src a from to (inl h) =
    let e : (leb dst a && ltb a (dst + n)) ≡ false = ground arith in rw e refl
move_bytes-out n dst src a from to (inr h) =
    let e : (leb dst a && ltb a (dst + n)) ≡ false = ground arith in rw e refl

-- What a copy of `len` bytes from `srcva` leaves: all the bytes, or a page that is not the user's.
abbrev pub CopiedIn : ℕ → ℕ → ℕ → ℕ → Ram → (ℕ → ℕ) → Bool × (ℕ → ℕ) → Type 0
CopiedIn pagetable dst srcva len r buf (false, x) =
    (i : ℕ) × (i < len) × (page_of pagetable (srcva + i) r ≡ 0)
CopiedIn pagetable dst srcva len r buf (true, buf') =
    ((i : ℕ)
      → i < len
      → (page_of pagetable (srcva + i) r ≢ 0)
        × (buf' (dst + i) ≡ r.bytes (byte_at pagetable (srcva + i) r)))
    × ((a : ℕ) → (a < dst) ⊎ (dst + len ≤ a) → buf' a ≡ buf a)

-- What a turn copies: up to the end of the page or of the range.
pub in_page_bounds :
    (va len : ℕ)
    → (in_page va len ≤ len)
      × (va % 4096 + in_page va len ≤ 4096)
      × (in_page va len < len → va % 4096 + in_page va len ≡ 4096)
      × (len ≢ 0 → 0 < in_page va len)
in_page_bounds va len = elim (Bool-cases (ltb len (4096 - (va - pgrounddown va)))) [
  | inl e ↦ rw e (ground arith, ground arith, λ h. ground arith, λ h. ground arith)
  | inr e ↦ rw e (ground arith, ground arith, λ h. ground arith, λ h. ground arith)
]

same_page :
    (pagetable va n i : ℕ) (r : Ram)
    → va % 4096 + n ≤ 4096
    → i < n
    → (page_of pagetable (va + i) r ≡ page_of pagetable va r)
      × (page_of pagetable va r + (va - pgrounddown va) + i ≡ byte_at pagetable (va + i) r)
same_page pagetable va n i r h l =
    let e : page_of pagetable (va + i) r ≡ page_of pagetable va r =
      ap (λ x. walkaddr pagetable x r) (omega arith) in
    (e, omega (arith, e))

copyin_turn :
    (pagetable dst srcva len n : ℕ) (r : Ram) (buf : ℕ → ℕ) (o : Bool × (ℕ → ℕ))
    → page_of pagetable srcva r ≢ 0
    → n ≤ len
    → srcva % 4096 + n ≤ 4096
    → (n < len → srcva % 4096 + n ≡ 4096)
    → CopiedIn pagetable
        (dst + n)
        (pgrounddown srcva + 4096)
        (len - n)
        r
        (move_bytes n dst (page_of pagetable srcva r + (srcva - pgrounddown srcva)) r.bytes buf)
        o
    → CopiedIn pagetable dst srcva len r buf o
copyin_turn pagetable dst srcva len n r buf (false, x) z a b c (i, l, e) =
    let t = c (omega arith) in
    (n + i, omega arith, ap (λ x. page_of pagetable x r) (omega (arith, t)) ∙ e)
copyin_turn pagetable dst srcva len n r buf (true, buf') z a b c (k, o) = (
  λ i l. elim (Bool-cases (ltb i n)) [
    | inl e ↦
        let lt : i < n = ground arith in
        let (p, q) = same_page pagetable srcva n i r b lt in
        (
          λ f. z (sym p ∙ f),
          o (dst + i) (inl (omega arith))
              ∙ (move_bytes-in n dst (page_of pagetable srcva r + (srcva - pgrounddown srcva)) i
                    r.bytes buf lt
                  ∙ ap r.bytes q),
        )
    | inr e ↦
        let ge : n ≤ i = ground arith in
        let t = c (omega arith) in
        let (p, q) = k (i - n) (omega arith) in
        let v : pgrounddown srcva + 4096 + (i - n) ≡ srcva + i = omega (arith, t) in
        (
          subst (λ x. page_of pagetable x r ≢ 0) v p,
          ap buf' (omega arith) ∙ (q ∙ ap (λ x. r.bytes (byte_at pagetable x r)) v),
        )
  ],
  λ x d.
      o x (elim d [ inl y ↦ inl (omega arith) | inr y ↦ inr (omega arith) ])
      ∙ move_bytes-out n dst (page_of pagetable srcva r + (srcva - pgrounddown srcva)) x r.bytes buf
          (elim d [ inl y ↦ inl y | inr y ↦ inr (omega arith) ]),
)

copyin_loop-CopiedIn :
    (fuel pagetable dst srcva len : ℕ) (r : Ram) (buf : ℕ → ℕ)
    → len ≤ fuel
    → CopiedIn pagetable dst srcva len r buf (copyin_loop fuel pagetable dst srcva len r buf)
unfolding copyin_loop
copyin_loop-CopiedIn zero pagetable dst srcva len r buf h =
    (λ i l. absurd (omega arith), λ a o. refl)
copyin_loop-CopiedIn (suc fuel) pagetable dst srcva len r buf h =
    let (a, b, c, d) = in_page_bounds srcva len in
    by_tests (len == 0) (page_of pagetable srcva r == 0)
      (copyin_loop fuel pagetable (dst + in_page srcva len) (pgrounddown srcva + 4096)
        (len - in_page srcva len) r
        (move_bytes (in_page srcva len) dst
          (page_of pagetable srcva r + (srcva - pgrounddown srcva)) r.bytes buf))
      (λ e. ground arith) (λ e. ground arith) (λ e. ground arith) (λ e. ground arith)
      (λ n.
        let m = d n in
        copyin_loop-CopiedIn fuel pagetable (dst + in_page srcva len) (pgrounddown srcva + 4096)
          (len - in_page srcva len) r
          (move_bytes (in_page srcva len) dst
            (page_of pagetable srcva r + (srcva - pgrounddown srcva)) r.bytes buf)
          (omega arith))
  where
    by_tests :
        (e z : Bool) (rest : Bool × (ℕ → ℕ))
        → (e ≡ true → len ≡ 0)
        → (e ≡ false → len ≢ 0)
        → (z ≡ true → page_of pagetable srcva r ≡ 0)
        → (z ≡ false → page_of pagetable srcva r ≢ 0)
        → (len ≢ 0
            → CopiedIn pagetable
                (dst + in_page srcva len)
                (pgrounddown srcva + 4096)
                (len - in_page srcva len)
                r
                (move_bytes
                  (in_page srcva len)
                  dst
                  (page_of pagetable srcva r + (srcva - pgrounddown srcva))
                  r.bytes
                  buf)
                rest)
        → CopiedIn pagetable dst srcva len r buf
            (if e then (true, buf) else if z then (false, buf) else rest)
    by_tests true z rest f g p q k = let s = f refl in (λ i l. absurd (omega arith), λ a o. refl)
    by_tests false true rest f g p q k =
        let s = g refl in (0, omega arith, ap (λ x. page_of pagetable x r) (omega arith) ∙ p refl)
    by_tests false false rest f g p q k =
        let s = g refl in
        let (a, b, c, d) = in_page_bounds srcva len in
        copyin_turn pagetable dst srcva len (in_page srcva len) r buf rest (q refl) a b c (k s)

-- `copyin` of `len` bytes succeeds only if each of them lies in a page that the table maps for the
-- user, and then the buffer has the bytes that the pages hold, and keeps its other bytes. It fails
-- only if one of them lies in no such page.
pub copyin-CopiedIn :
    (pagetable dst srcva len : ℕ) (r : Ram) (buf : ℕ → ℕ)
    → CopiedIn pagetable dst srcva len r buf (copyin pagetable dst srcva len r buf)
unfolding copyin
copyin-CopiedIn pagetable dst srcva len r buf =
    copyin_loop-CopiedIn len pagetable dst srcva len r buf (omega arith)
