-- ===== src/Vm/Out.antt =====
-- `copyout` of FileSystem-RAID/kernel/vm.c.
use xv6_kernel_extensions.Prelude.{
  ℕ, zero, suc, ◌+◌, ◌-◌, ◌*◌, ◌/◌, ◌%◌, ◌<◌, ◌≤◌, Bool, true, false, ◌==◌, ltb, leb, ◌&&◌,
  if◌then◌else◌, ◌≡◌, ◌≢◌, refl, sym, ap, ◌∙◌, arith, inl, inr, Bool-cases, subst,
}
use xv6_kernel_extensions.Vm.{Ram, pgrounddown, walkaddr, descend, user_page, walk_next, walk_last}
use xv6_kernel_extensions.Vm.Copy.{move_bytes, in_page, copyout_loop, copyout}
use xv6_kernel_extensions.Prelude.{fun_ext}
use xv6_kernel_extensions.Vm.Transfer.{page_of, move_bytes-in, move_bytes-out, in_page_bounds}

-- A write of bytes leaves the translation.
walkaddr-bytes :
    (pagetable va : ℕ) (b : ℕ → ℕ) (r : Ram)
    → walkaddr pagetable va (record r { bytes = b }) ≡ walkaddr pagetable va r
unfolding walkaddr user_page walk_next walk_last descend
walkaddr-bytes pagetable va b r = ground arith

-- A write of `len` bytes to `dstva` where `pages` gives the physical page of an address, 0 if there
-- is none.
abbrev pub target : (ℕ → ℕ) → ℕ → ℕ
target pages va = pages va + va % 4096

abbrev pub Once : (ℕ → ℕ) → ℕ → ℕ → Type 0
Once pages dstva len =
    (i j : ℕ) → i < len → j < len → target pages (dstva + i) ≡ target pages (dstva + j) → i ≡ j

pub record CopiedOut (pages : ℕ → ℕ) (dstva src len : ℕ) (buf from to : ℕ → ℕ) (ok : Bool)
    : Type 0 where
  pub kept :
      (a : ℕ)
      → ((i : ℕ) → i < len → pages (dstva + i) ≢ 0 → target pages (dstva + i) ≢ a)
      → to a ≡ from a
  pub fails : ok ≡ false → (i : ℕ) × (i < len) × (pages (dstva + i) ≡ 0)
  pub mapped : ok ≡ true → (i : ℕ) → i < len → pages (dstva + i) ≢ 0
  pub copied :
      ok ≡ true
      → Once pages dstva len
      → (i : ℕ) → i < len
      → to (target pages (dstva + i)) ≡ buf (src + i)

-- Addresses have the page of their first byte.
abbrev ByPage : (ℕ → ℕ) → Type 0
ByPage pages = (x y : ℕ) → x / 4096 ≡ y / 4096 → pages x ≡ pages y

module _ (pages : ℕ → ℕ) (by : ByPage pages) (dstva src len n : ℕ) (buf from : ℕ → ℕ) where
  abbrev base : ℕ
  base = pages dstva + (dstva - pgrounddown dstva)

  abbrev moved : ℕ → ℕ
  moved = move_bytes n base src buf from

  module _ (z : pages dstva ≢ 0) (a : n ≤ len) (b : dstva % 4096 + n ≤ 4096)
      (c : n < len → dstva % 4096 + n ≡ 4096) where
    near :
        (i : ℕ) → i < n → (pages (dstva + i) ≡ pages dstva) × (base + i ≡ target pages (dstva + i))
    near i l =
        let e : pages (dstva + i) ≡ pages dstva = by (dstva + i) dstva (omega arith) in
        (e, omega (arith, e))

    far : (i : ℕ) → i < len - n → pgrounddown dstva + 4096 + i ≡ dstva + (n + i)
    far i l = let t = c (omega arith) in omega (arith, t)

    outside :
        (x : ℕ)
        → ((i : ℕ) → i < len → pages (dstva + i) ≢ 0 → target pages (dstva + i) ≢ x)
        → moved x ≡ from x
    outside x apart = elim (Bool-cases (leb base x && ltb x (base + n))) [
      | inl e ↦
          let lt : x - base < n = ground arith in
          let (p, q) = near (x - base) lt in
          absurd (apart (x - base) (omega arith) (λ f. z (sym p ∙ f)) (sym q ∙ ground arith))
      | inr e ↦ move_bytes-out n base src x buf from (ground arith)
    ]

    turn-kept :
        (to : ℕ → ℕ) (ok : Bool)
        → CopiedOut pages (pgrounddown dstva + 4096) (src + n) (len - n) buf moved to ok
        → (x : ℕ) → ((i : ℕ) → i < len → pages (dstva + i) ≢ 0 → target pages (dstva + i) ≢ x)
        → to x ≡ from x
    turn-kept to ok k x apart =
        k.kept x (λ i l p.
          subst (λ y. target pages y ≢ x) (sym (far i l))
            (apart (n + i) (omega arith) (subst (λ y. pages y ≢ 0) (far i l) p)))
        ∙ outside x apart

    turn-copied :
        (to : ℕ → ℕ) (ok : Bool)
        → CopiedOut pages (pgrounddown dstva + 4096) (src + n) (len - n) buf moved to ok
        → ok ≡ true
        → Once pages dstva len
        → (i : ℕ) → i < len
        → to (target pages (dstva + i)) ≡ buf (src + i)
    turn-copied to ok k e once i l = elim (Bool-cases (ltb i n)) [
      | inl t ↦
          let lt : i < n = ground arith in
          let (p, q) = near i lt in
          k.kept (target pages (dstva + i)) (λ j lj nz eq.
            let s : n + j ≡ i =
              once (n + j) i (omega arith) l (sym (ap (target pages) (far j lj)) ∙ eq) in
            omega arith)
          ∙ (ap moved (sym q) ∙ move_bytes-in n base src i buf from lt)
      | inr t ↦
          let ge : n ≤ i = ground arith in
          let lt : i - n < len - n = omega arith in
          let v : pgrounddown dstva + 4096 + (i - n) ≡ dstva + i = far (i - n) lt ∙ omega arith in
          ap (λ x. to (target pages x)) (sym v)
          ∙ (k.copied e
                (λ x y lx ly eq.
                  let s : n + x ≡ n + y =
                    once (n + x) (n + y) (omega arith) (omega arith)
                      (sym (ap (target pages) (far x lx)) ∙ (eq ∙ ap (target pages) (far y ly))) in
                  omega arith)
                (i - n) lt
              ∙ ap buf (omega arith))
    ]

    copyout_turn :
        (to : ℕ → ℕ) (ok : Bool)
        → CopiedOut pages (pgrounddown dstva + 4096) (src + n) (len - n) buf moved to ok
        → CopiedOut pages dstva src len buf from to ok
    copyout_turn to ok k = record {
      kept = turn-kept to ok k;
      fails = λ e. let (i, l, f) = k.fails e in (n + i, omega arith, ap pages (sym (far i l)) ∙ f);
      mapped = λ e i l. elim (Bool-cases (ltb i n)) [
        | inl t ↦ let (p, q) = near i (ground arith) in λ f. z (sym p ∙ f)
        | inr t ↦
            let ge : n ≤ i = ground arith in
            let lt : i - n < len - n = omega arith in
            subst (λ x. pages x ≢ 0) (far (i - n) lt ∙ omega arith) (k.mapped e (i - n) lt)
      ];
      copied = turn-copied to ok k;
    }

-- The result and the memory of a copy.
abbrev pub Out : ℕ → ℕ → ℕ → ℕ → (ℕ → ℕ) → Ram → Bool × Ram → Type 0
Out pagetable dstva src len buf r (ok, r') =
    (r' ≡ record r { bytes = r'.bytes })
    × CopiedOut (λ va. page_of pagetable va r) dstva src len buf r.bytes r'.bytes ok

page_of-ByPage : (pagetable : ℕ) (r : Ram) → ByPage (λ va. page_of pagetable va r)
page_of-ByPage pagetable r x y e = ap (λ p. walkaddr pagetable (p * 4096) r) e

copyout_loop-Out :
    (fuel pagetable dstva src len : ℕ) (buf : ℕ → ℕ) (r : Ram)
    → len ≤ fuel
    → Out pagetable dstva src len buf r (copyout_loop fuel pagetable dstva src len buf r)
unfolding copyout_loop
copyout_loop-Out zero pagetable dstva src len buf r h = (
  refl,
  record {
    kept = λ a apart. refl;
    fails = λ e. absurd (cc);
    mapped = λ e i l. absurd (omega arith);
    copied = λ e once i l. absurd (omega arith);
  },
)
copyout_loop-Out (suc fuel) pagetable dstva src len buf r h =
    let (a, b, c, d) = in_page_bounds dstva len in
    let r1 : Ram = record r {
      bytes =
          move_bytes (in_page dstva len) (page_of pagetable dstva r + (dstva - pgrounddown dstva))
            src buf r.bytes;
    } in
    by_tests (len == 0) (page_of pagetable dstva r == 0)
      (copyout_loop fuel pagetable (pgrounddown dstva + 4096) (src + in_page dstva len)
        (len - in_page dstva len) buf r1)
      (λ e. ground arith) (λ e. ground arith) (λ e. ground arith) (λ e. ground arith)
      (λ n.
        let m = d n in
        copyout_loop-Out fuel pagetable (pgrounddown dstva + 4096) (src + in_page dstva len)
          (len - in_page dstva len) buf r1 (omega arith))
  where
    by_tests :
        (e z : Bool) (rest : Bool × Ram)
        → (e ≡ true → len ≡ 0)
        → (e ≡ false → len ≢ 0)
        → (z ≡ true → page_of pagetable dstva r ≡ 0)
        → (z ≡ false → page_of pagetable dstva r ≢ 0)
        → (len ≢ 0
            → Out pagetable
                (pgrounddown dstva + 4096)
                (src + in_page dstva len)
                (len - in_page dstva len)
                buf
                (record r {
                  bytes =
                      move_bytes
                        (in_page dstva len)
                        (page_of pagetable dstva r + (dstva - pgrounddown dstva))
                        src
                        buf
                        r.bytes;
                })
                rest)
        → Out pagetable dstva src len buf r
            (if e then (true, r) else if z then (false, r) else rest)
    by_tests true z rest f g p q k =
        let s = f refl in
        (
          refl,
          record {
            kept = λ a apart. refl;
            fails = λ e. absurd (cc);
            mapped = λ e i l. absurd (omega arith);
            copied = λ e once i l. absurd (omega arith);
          },
        )
    by_tests false true rest f g p q k =
        let s = g refl in
        (
          refl,
          record {
            kept = λ a apart. refl;
            fails = λ e. (0, omega arith, ap (λ x. page_of pagetable x r) (omega arith) ∙ p refl);
            mapped = λ e. absurd (cc);
            copied = λ e. absurd (cc);
          },
        )
    by_tests false false (ok, r') f g p q k =
        let s = g refl in
        let (a, b, c, d) = in_page_bounds dstva len in
        let n = in_page dstva len in
        let (t, w) = k s in
        (
          t,
          copyout_turn (λ va. page_of pagetable va r) (page_of-ByPage pagetable r) dstva src len n
              buf r.bytes (q refl) a b c r'.bytes ok
              (subst
                (λ pages.
                  CopiedOut pages (pgrounddown dstva + 4096) (src + n) (len - n) buf
                    (move_bytes n (page_of pagetable dstva r + (dstva - pgrounddown dstva)) src buf
                      r.bytes)
                    r'.bytes ok)
                (fun_ext (λ va.
                  walkaddr-bytes pagetable (pgrounddown va)
                    (move_bytes n (page_of pagetable dstva r + (dstva - pgrounddown dstva)) src buf
                      r.bytes)
                    r))
                w),
        )

-- `copyout` of `len` bytes changes nothing but bytes of the memory, and of these only bytes at
-- addresses that the table maps for the user in the range from `dstva`. If it fails, a byte of the
-- range lies in no page of the user. If it succeeds, all lie in such pages, and if no two of them
-- are the same byte of the memory, each is as in the buffer.
pub copyout-Out :
    (pagetable dstva src len : ℕ) (buf : ℕ → ℕ) (r : Ram)
    → Out pagetable dstva src len buf r (copyout pagetable dstva src len buf r)
unfolding copyout
copyout-Out pagetable dstva src len buf r =
    copyout_loop-Out len pagetable dstva src len buf r (omega arith)
