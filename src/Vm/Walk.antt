-- ===== src/Vm/Walk.antt =====
-- `mappages` and `walkaddr` of FileSystem-RAID/kernel/vm.c.
use xv6_kernel_extensions.Prelude.{
  ℕ, suc, ◌+◌, ◌/◌, ◌%◌, ◌^◌, ◌<◌, Bool, true, false, not, Option, none, some, ◌==◌, leb,
  if◌then◌else◌, update_self, update_ne, ◌≡◌, refl, sym, ap, ◌∙◌, arith, subst,
}
use xv6_kernel_extensions.Bio.{Outcome, returns, ◌>>=◌, ◌>>◌, check}
use xv6_kernel_extensions.Vm.{
  Ram, is_valid, is_user, pte2pa, leaf, px, pgrounddown, set_pte, descend, walk_last, walk_next,
  walk, user_page, walkaddr, map_entry, map_pages, mappages,
}
use xv6_kernel_extensions.Vm.Mapped.{
  FreshPath, Tables, descend-Tables, Leads, Leads-keeps, entry_apart, entry2, entry1, entry0,
}

-- The walk to a page that is mapped for the user.
walkaddr-Leads :
    (pt va t t0 pa : ℕ) (r : Ram)
    → va < 274877906944
    → Leads (entry2 pt va) t r
    → Leads (entry1 t va) t0 r
    → is_valid (r.ptes (entry0 t0 va)) ≡ true
    → is_user (r.ptes (entry0 t0 va)) ≡ true
    → pte2pa (r.ptes (entry0 t0 va)) ≡ pa
    → walkaddr pt va r ≡ pa
unfolding walkaddr user_page walk_next walk_last descend
walkaddr-Leads pt va t t0 pa r h a b v u e =
    let l : leb 274877906944 va ≡ false = ground arith in
    let first : descend false 1073741824 pt va r ≡ (some t, r) =
      rw (a.0, descend) (ap (λ x. (some x, r)) a.1) in
    let second : descend false 2097152 t va r ≡ (some t0, r) =
      rw (b.0, descend) (ap (λ x. (some x, r)) b.1) in
    let path : walk_next false va (descend false 1073741824 pt va r) ≡ (some (entry0 t0 va), r) =
      ap (walk_next false va) first ∙ ap (walk_last va) second in
    let found : user_page (some (entry0 t0 va), r) ≡ pa = rw (v, u, user_page) e in
    let open_ : walkaddr pt va r
        ≡ user_page (walk_next false va (descend false 1073741824 pt va r)) =
      rw (l, walkaddr) refl in
    open_ ∙ (ap user_page path ∙ found)

module _ (pt va pa perm : ℕ) (r r' : Ram) (h : FreshPath pt va r) (in_range : va < 274877906944)
    (aligned : pa % 4096 ≡ 0) (user : perm / 16 % 2 ≡ 1) (flags : perm < 1024) where
  -- The entry that is written leaves those on the way to it.
  written :
      (t t0 : ℕ) (r2 : Ram)
      → Tables pt va t t0 r2
      → set_pte (entry0 t0 va) (leaf pa perm) r2 ≡ r'
      → walkaddr pt va r' ≡ pa
  unfolding set_pte
  written t t0 r2 k e =
      let p = ap (λ x. x.ptes) e in
      let at : r'.ptes (entry0 t0 va) ≡ leaf pa perm =
        sym (ap (λ f. f (entry0 t0 va)) p) ∙ update_self r2.ptes (entry0 t0 va) (leaf pa perm) in
      let a2 : r'.ptes (entry2 pt va) ≡ r2.ptes (entry2 pt va) =
        sym (ap (λ f. f (entry2 pt va)) p)
        ∙ update_ne r2.ptes (entry0 t0 va) (entry2 pt va) (leaf pa perm) (
            entry_apart t0 pt (px 4096 va) (px 1073741824 va) k.last_page h.root
              (λ q. k.root_last (sym q)) (omega arith) (omega arith)) in
      let a1 : r'.ptes (entry1 t va) ≡ r2.ptes (entry1 t va) =
        sym (ap (λ f. f (entry1 t va)) p)
        ∙ update_ne r2.ptes (entry0 t0 va) (entry1 t va) (leaf pa perm) (
            entry_apart t0 t (px 4096 va) (px 2097152 va) k.last_page k.middle_page
              (λ q. k.middle_last (sym q)) (omega arith) (omega arith)) in
      walkaddr-Leads pt va t t0 pa r' in_range (Leads-keeps (entry2 pt va) t r2 r' a2 k.to_middle)
        (Leads-keeps (entry1 t va) t0 r2 r' a1 k.to_last) (ap is_valid at ∙ ground arith)
        (ap is_user at ∙ ground arith) (ap pte2pa at ∙ omega arith)

  abbrev finish : ℕ → Bool × Ram → Outcome (Bool × Ram)
  finish fuel m =
      if m.0
      then (if va == va
          then returns (true, m.1)
          else map_pages fuel pt (va + 4096) va (pa + 4096) perm m.1)
      else returns (false, m.1)

  by_entry :
      (fuel t t0 : ℕ) (r2 : Ram)
      → Tables pt va t t0 r2
      → ◌>>=◌ {B = Bool × Ram} (map_entry pa perm (some (entry0 t0 va), r2)) (finish fuel)
        ≡ returns (true, r')
      → walkaddr pt va r' ≡ pa
  unfolding map_entry
  by_entry fuel t t0 r2 k e = by_test (is_valid (r2.ptes (entry0 t0 va))) e
    where
      by_test :
          (b : Bool)
          → ◌>>=◌ {B = Bool × Ram}
              (check (not b) >> returns (true, set_pte (entry0 t0 va) (leaf pa perm) r2))
              (finish fuel)
            ≡ returns (true, r')
          → walkaddr pt va r' ≡ pa
      by_test true q = absurd (cc)
      by_test false q =
          let same : (va == va) ≡ true = ground arith in
          let z : finish fuel (true, set_pte (entry0 t0 va) (leaf pa perm) r2)
              ≡ returns (true, set_pte (entry0 t0 va) (leaf pa perm) r2) =
            rw same refl in
          let s : ◌≡◌ {A = Outcome (Bool × Ram)}
              (returns (true, set_pte (entry0 t0 va) (leaf pa perm) r2)) (returns (true, r')) =
            sym z ∙ q in
          let t' : ◌≡◌ {A = Bool × Ram} (true, set_pte (entry0 t0 va) (leaf pa perm) r2)
              (true, r') =
            cc in
          written t t0 r2 k (ap (λ x. x.1) t')

  by_second :
      (fuel t : ℕ) (r1 : Ram) (w : Option ℕ × Ram)
      → descend true 1073741824 pt va r ≡ (some t, r1)
      → descend true 2097152 t va r1 ≡ w
      → ◌>>=◌ {B = Bool × Ram} (map_entry pa perm (walk_last va w)) (finish fuel)
        ≡ returns (true, r')
      → walkaddr pt va r' ≡ pa
  unfolding walk_last map_entry
  by_second fuel t r1 (none, r2) a b e = let q = e in absurd (cc)
  by_second fuel t r1 (some t0, r2) a b e =
      by_entry fuel t t0 r2 (descend-Tables pt va t t0 r r1 r2 h a b) e

  by_first :
      (fuel : ℕ) (w : Option ℕ × Ram)
      → descend true 1073741824 pt va r ≡ w
      → ◌>>=◌ {B = Bool × Ram} (map_entry pa perm (walk_next true va w)) (finish fuel)
        ≡ returns (true, r')
      → walkaddr pt va r' ≡ pa
  unfolding walk_next map_entry
  by_first fuel (none, r1) a e = absurd (cc)
  by_first fuel (some t, r1) a e = by_second fuel t r1 (descend true 2097152 t va r1) a refl e

  map_pages-walkaddr :
      (fuel : ℕ)
      → map_pages (suc fuel) pt va va pa perm r ≡ returns (true, r')
      → walkaddr pt va r' ≡ pa
  unfolding map_pages walk
  map_pages-walkaddr fuel e =
      let l : leb 274877906944 va ≡ false = ground arith in
      let q : map_pages (suc fuel) pt va va pa perm r
          ≡ ◌>>=◌ {B = Bool × Ram}
              (map_entry pa perm (walk_next true va (descend true 1073741824 pt va r)))
              (finish fuel) =
        rw (l, map_pages) refl in
      by_first fuel (descend true 1073741824 pt va r) refl (sym q ∙ e)

-- If the tables on the way to `va` are different pages and not free, and the free pages are aligned
-- and listed once, then a page that `mappages` has mapped at the aligned address `va` with the
-- user's flag is the one that `walkaddr` gives for `va`.
pub mappages-walkaddr :
    (pt va pa perm : ℕ) (r r' : Ram)
    → FreshPath pt va r
    → va % 4096 ≡ 0
    → va < 274877906944
    → pa % 4096 ≡ 0
    → perm / 16 % 2 ≡ 1
    → perm < 1024
    → mappages pt va 4096 pa perm r ≡ returns (true, r')
    → walkaddr pt va r' ≡ pa
unfolding mappages
mappages-walkaddr pt va pa perm r r' h z l a u f e =
    let first : pgrounddown va ≡ va = omega arith in
    let last : pgrounddown ((va + 4096 + 18446744073709551615) % 2 ^ 64) ≡ va = omega arith in
    let q : map_pages 67108865 pt va va pa perm r ≡ returns (true, r') =
      subst (λ x. map_pages 67108865 pt x va pa perm r ≡ returns (true, r')) first
        (subst (λ x. map_pages 67108865 pt (pgrounddown va) x pa perm r ≡ returns (true, r')) last
          e) in
    map_pages-walkaddr pt va pa perm r r' h l a u f 67108864 q
