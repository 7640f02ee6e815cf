-- ===== src/Vm/Mapped.antt =====
-- A mapping that `mappages` of FileSystem-RAID/kernel/vm.c makes is the one that `walkaddr` finds.
use xv6_kernel_extensions.Prelude.{
  ℕ, ◌+◌, ◌*◌, ◌/◌, ◌%◌, ◌<◌, true, false, Option, some, ◌==◌, if◌then◌else◌, update, update_self,
  update_ne, ◌≡◌, ◌≢◌, refl, sym, ap, ◌∙◌, arith, inl, inr, ◌⊎◌, Bool-cases, subst, List, [], ◌∷◌,
  Elem,
}
use xv6_kernel_extensions.Kalloc.{kalloc, take_page}
use xv6_kernel_extensions.Vm.{Ram, is_valid, pte2pa, px, zero_page, set_pte, add_table, descend}

-- Free pages are aligned and listed once.
abbrev pub FreePages : List ℕ → Type 0
FreePages [] = Unit
FreePages (p ∷ l) = (p % 4096 ≡ 0) × ¬ Elem p l × FreePages l

abbrev pub entry2 : ℕ → ℕ → ℕ
entry2 pt va = pt + 8 * px 1073741824 va

abbrev pub entry1 : ℕ → ℕ → ℕ
entry1 t va = t + 8 * px 2097152 va

abbrev pub entry0 : ℕ → ℕ → ℕ
entry0 t va = t + 8 * px 4096 va

-- The tables on the way to an address are different pages, and none of them is free.
pub record FreshPath (pt va : ℕ) (r : Ram) : Type 0 where
  pub free : FreePages r.kmem.freelist
  pub root : pt % 4096 ≡ 0
  pub root_used : ¬ Elem pt r.kmem.freelist
  pub middle :
      is_valid (r.ptes (entry2 pt va)) ≡ true
      → (pte2pa (r.ptes (entry2 pt va)) ≢ pt)
        × ¬ Elem (pte2pa (r.ptes (entry2 pt va))) r.kmem.freelist
  pub last :
      (t : ℕ)
      → is_valid (r.ptes (entry2 pt va)) ≡ true
      → pte2pa (r.ptes (entry2 pt va)) ≡ t
      → is_valid (r.ptes (entry1 t va)) ≡ true
      → (pte2pa (r.ptes (entry1 t va)) ≢ pt) × (pte2pa (r.ptes (entry1 t va)) ≢ t)

-- A turn of `walk` found the next table, or made it of the first free page.
abbrev Found : ℕ → Ram → ℕ → Ram → Type 0
Found a r t r1 = (r1 ≡ r) × (is_valid (r.ptes a) ≡ true) × (pte2pa (r.ptes a) ≡ t)

abbrev Made : ℕ → Ram → ℕ → Ram → Type 0
Made a r t r1 =
    (is_valid (r.ptes a) ≡ false)
    × (r.kmem.freelist ≡ t ∷ r1.kmem.freelist)
    × (r1.ptes ≡ update (λ x. if x / 4096 == t / 4096 then 0 else r.ptes x) a (t / 4096 * 1024 + 1))

add_table-Made :
    (a t : ℕ) (r r1 : Ram) (l : List ℕ)
    → r.kmem.freelist ≡ l
    → add_table a r (take_page l r.kmem) ≡ (some t, r1)
    → (r.kmem.freelist ≡ t ∷ r1.kmem.freelist)
      × (r1.ptes
          ≡ update (λ x. if x / 4096 == t / 4096 then 0 else r.ptes x) a (t / 4096 * 1024 + 1))
unfolding add_table take_page zero_page set_pte
add_table-Made a t r r1 [] e h = let o = ap (λ x. x.0) h in absurd (cc)
add_table-Made a t r r1 (p ∷ ps) e h =
    let o : ◌≡◌ {A = Option ℕ} (some p) (some t) = ap (λ x. x.0) h in
    let q : p ≡ t = cc in
    let f : ps ≡ r1.kmem.freelist = ap (λ x. (x.1).kmem.freelist) h in
    (
      e ∙ (ap (λ x. x ∷ ps) q ∙ ap (λ x. t ∷ x) f),
      sym (ap (λ x. (x.1).ptes) h)
          ∙ ap
              (λ y.
                update (λ x. if x / 4096 == y / 4096 then 0 else r.ptes x) a (y / 4096 * 1024 + 1))
              q,
    )

descend-cases :
    (span pt va t : ℕ) (r r1 : Ram)
    → descend true span pt va r ≡ (some t, r1)
    → Found (pt + 8 * px span va) r t r1 ⊎ Made (pt + 8 * px span va) r t r1
unfolding descend kalloc
descend-cases span pt va t r r1 h = elim (Bool-cases (is_valid (r.ptes (pt + 8 * px span va)))) [
  | inl e ↦
      let q : descend true span pt va r ≡ (some (pte2pa (r.ptes (pt + 8 * px span va))), r) =
        rw (e, descend) refl in
      let s : ◌≡◌ {A = Option ℕ × Ram} (some (pte2pa (r.ptes (pt + 8 * px span va))), r)
          (some t, r1) =
        sym q ∙ h in
      let o = ap (λ x. x.0) s in inl (sym (ap (λ x. x.1) s), e, cc)
  | inr e ↦
      let q : descend true span pt va r
          ≡ add_table (pt + 8 * px span va) r (take_page r.kmem.freelist r.kmem) =
        rw (e, descend) refl in
      let (f, g) = add_table-Made (pt + 8 * px span va) t r r1 r.kmem.freelist refl (sym q ∙ h) in
      inr (e, f, g)
]

-- The entry that a turn leaves leads to the table.
abbrev pub Leads : ℕ → ℕ → Ram → Type 0
Leads a t r = (is_valid (r.ptes a) ≡ true) × (pte2pa (r.ptes a) ≡ t)

Made-Leads : (a t : ℕ) (r r1 : Ram) → t % 4096 ≡ 0 → Made a r t r1 → Leads a t r1
Made-Leads a t r r1 z m =
    let e : r1.ptes a ≡ t / 4096 * 1024 + 1 =
      ap (λ f. f a) m.2
      ∙ update_self (λ x. if x / 4096 == t / 4096 then 0 else r.ptes x) a (t / 4096 * 1024 + 1) in
    (ground (arith, e), omega (arith, e))

-- An entry in another page stays.
Made-keeps :
    (a t x : ℕ) (r r1 : Ram) → Made a r t r1 → a ≢ x → x / 4096 ≢ t / 4096 → r1.ptes x ≡ r.ptes x
Made-keeps a t x r r1 m d e =
    ap (λ f. f x) m.2
    ∙ (update_ne (λ x. if x / 4096 == t / 4096 then 0 else r.ptes x) a x (t / 4096 * 1024 + 1) d
        ∙ ground arith)

-- The entries of a new table are clear.
Made-clear : (a t x : ℕ) (r r1 : Ram) → Made a r t r1 → a ≢ x → x / 4096 ≡ t / 4096 → r1.ptes x ≡ 0
Made-clear a t x r r1 m d e =
    ap (λ f. f x) m.2
    ∙ (update_ne (λ x. if x / 4096 == t / 4096 then 0 else r.ptes x) a x (t / 4096 * 1024 + 1) d
        ∙ ground arith)

pub Leads-keeps : (a t : ℕ) (r r1 : Ram) → r1.ptes a ≡ r.ptes a → Leads a t r → Leads a t r1
Leads-keeps a t r r1 e l = (ap is_valid e ∙ l.0, ap pte2pa e ∙ l.1)

-- Pages that are aligned and different have no entry in common.
pub entry_apart :
    (p q i j : ℕ) → p % 4096 ≡ 0 → q % 4096 ≡ 0 → p ≢ q → i < 512 → j < 512 → p + 8 * i ≢ q + 8 * j
entry_apart p q i j a b n k l e = n (omega arith)

entry_page :
    (p q i : ℕ) → p % 4096 ≡ 0 → q % 4096 ≡ 0 → p ≢ q → i < 512 → (p + 8 * i) / 4096 ≢ q / 4096
entry_page p q i a b n k e = n (omega arith)

-- The two tables of a walk, and what a walk leaves.
pub record Tables (pt va t t0 : ℕ) (r : Ram) : Type 0 where
  pub to_middle : Leads (entry2 pt va) t r
  pub to_last : Leads (entry1 t va) t0 r
  pub middle_page : t % 4096 ≡ 0
  pub last_page : t0 % 4096 ≡ 0
  pub root_middle : pt ≢ t
  pub root_last : pt ≢ t0
  pub middle_last : t ≢ t0

module _ (pt va t t0 : ℕ) (r r1 r2 : Ram) (h : FreshPath pt va r) where
  Found-Found : Found (entry2 pt va) r t r1 → Found (entry1 t va) r t0 r2 → Tables pt va t t0 r2
  Found-Found f g =
      let m = h.middle f.1 in
      let l = h.last t f.1 f.2 g.1 in
      record {
        to_middle = subst (Leads (entry2 pt va) t) (sym g.0) (f.1, f.2);
        to_last = subst (Leads (entry1 t va) t0) (sym g.0) (g.1, g.2);
        middle_page = omega (arith, f.2);
        last_page = omega (arith, g.2);
        root_middle = λ e. m.0 (f.2 ∙ sym e);
        root_last = λ e. l.0 (g.2 ∙ sym e);
        middle_last = λ e. l.1 (g.2 ∙ sym e);
      }

  Found-Made : Found (entry2 pt va) r t r1 → Made (entry1 t va) r t0 r2 → Tables pt va t t0 r2
  Found-Made f g =
      let m = h.middle f.1 in
      let tz : t % 4096 ≡ 0 = omega (arith, f.2) in
      let fr = subst FreePages g.1 h.free in
      let u : pt ≢ t0 = λ e. h.root_used (subst (Elem pt) (sym g.1) (inl e)) in
      let w : t ≢ t0 = λ e.
        m.1 (subst (λ x. Elem x r.kmem.freelist) (sym f.2) (subst (Elem t) (sym g.1) (inl e))) in
      let v : pt ≢ t = λ e. m.0 (f.2 ∙ sym e) in
      record {
        to_middle =
            Leads-keeps (entry2 pt va) t r r2
              (Made-keeps (entry1 t va) t0 (entry2 pt va) r r2 g
                (entry_apart t pt (px 2097152 va) (px 1073741824 va) tz h.root (λ e. v (sym e))
                  (omega arith) (omega arith))
                (entry_page pt t0 (px 1073741824 va) h.root fr.0 u (omega arith)))
              (f.1, f.2);
        to_last = Made-Leads (entry1 t va) t0 r r2 fr.0 g;
        middle_page = tz;
        last_page = fr.0;
        root_middle = v;
        root_last = u;
        middle_last = w;
      }

  Made-Found : Made (entry2 pt va) r t r1 → Found (entry1 t va) r1 t0 r2 → Tables pt va t t0 r2
  Made-Found f g =
      let fr = subst FreePages f.1 h.free in
      let u : pt ≢ t = λ e. h.root_used (subst (Elem pt) (sym f.1) (inl e)) in
      let z : r1.ptes (entry1 t va) ≡ 0 =
        Made-clear (entry2 pt va) t (entry1 t va) r r1 f
          (entry_apart pt t (px 1073741824 va) (px 2097152 va) h.root fr.0 u (omega arith)
            (omega arith))
          (let a = fr.0 in omega arith) in
      let y = ap is_valid z in absurd (false_is_valid (sym y ∙ g.1))
    where
      false_is_valid : is_valid 0 ≡ true → ⊥
      false_is_valid e = cc

  Made-Made : Made (entry2 pt va) r t r1 → Made (entry1 t va) r1 t0 r2 → Tables pt va t t0 r2
  Made-Made f g =
      let list : r.kmem.freelist ≡ t ∷ (t0 ∷ r2.kmem.freelist) = f.1 ∙ ap (λ l. t ∷ l) g.1 in
      let fr = subst FreePages list h.free in
      let u : pt ≢ t = λ e. h.root_used (subst (Elem pt) (sym list) (inl e)) in
      let w : pt ≢ t0 = λ e. h.root_used (subst (Elem pt) (sym list) (inr (inl e))) in
      let v : t ≢ t0 = λ e. fr.1 (inl e) in
      record {
        to_middle =
            Leads-keeps (entry2 pt va) t r1 r2
              (Made-keeps (entry1 t va) t0 (entry2 pt va) r1 r2 g
                (entry_apart t pt (px 2097152 va) (px 1073741824 va) fr.0 h.root (λ e. u (sym e))
                  (omega arith) (omega arith))
                (entry_page pt t0 (px 1073741824 va) h.root (fr.2).0 w (omega arith)))
              (Made-Leads (entry2 pt va) t r r1 fr.0 f);
        to_last = Made-Leads (entry1 t va) t0 r1 r2 (fr.2).0 g;
        middle_page = fr.0;
        last_page = (fr.2).0;
        root_middle = u;
        root_last = w;
        middle_last = v;
      }

  pub descend-Tables :
      descend true 1073741824 pt va r ≡ (some t, r1)
      → descend true 2097152 t va r1 ≡ (some t0, r2)
      → Tables pt va t t0 r2
  descend-Tables a b = elim (descend-cases 1073741824 pt va t r r1 a) [
    | inl f ↦
        let b' : descend true 2097152 t va r ≡ (some t0, r2) =
          subst (λ x. descend true 2097152 t va x ≡ (some t0, r2)) f.0 b in
        elim (descend-cases 2097152 t va t0 r r2 b') [
          | inl g ↦ Found-Found f g
          | inr g ↦ Found-Made f g
        ]
    | inr f ↦ elim (descend-cases 2097152 t va t0 r1 r2 b) [
      | inl g ↦ Made-Found f g
      | inr g ↦ Made-Made f g
    ]
  ]
