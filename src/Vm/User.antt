-- ===== src/Vm/User.antt =====
-- FileSystem-RAID/kernel/vm.c: the memory of a process. The loops run on fuel, a page to a turn.
use xv6_kernel_extensions.Prelude.{
  ℕ, zero, suc, ◌*◌, ◌%◌, ◌==◌, ◌&&◌, ◌+◌, ◌-◌, ◌/◌, Bool, true, false, not, Option, none, some,
  ltb, leb, if◌then◌else◌,
}
use xv6_kernel_extensions.Bio.{Outcome, returns, panics, ◌>>=◌, ◌>>◌, check}
use xv6_kernel_extensions.Kalloc.{Kmem, kalloc}
use xv6_kernel_extensions.Vm.{
  Ram, is_valid, is_user, pte2pa, pte_flags, pgroundup, zero_page, set_pte, walk, mappages,
  uvmunmap, free_frame,
}
use xv6_kernel_extensions.Vm.Copy.{move_bytes}

-- PTE_W | PTE_R | PTE_X | PTE_U
abbrev pub user_perm : ℕ
user_perm = 30

unfoldable pub empty_table : Ram → Option ℕ × Kmem → Option ℕ × Ram
empty_table r (none, kmem) = (none, record r { kmem = kmem })
empty_table r (some p, kmem) = (some p, zero_page p (record r { kmem = kmem }))

unfoldable pub uvmcreate : Ram → Option ℕ × Ram
unfolding empty_table
uvmcreate r = empty_table r (kalloc r.kmem)

-- `none` is a write to the null page: the result of `kalloc` is not tested, nor that of
-- `mappages`.
unfoldable pub init_page : ℕ → (ℕ → ℕ) → ℕ → Ram → Option ℕ × Kmem → Outcome Ram
init_page pagetable src sz r (none, kmem) = panics
init_page pagetable src sz r (some p, kmem) = do
  (ok, r') ← mappages pagetable 0 4096 p user_perm (zero_page p (record r { kmem = kmem }))
  returns (record r' { bytes = move_bytes sz p 0 src r'.bytes })

unfoldable pub uvminit : ℕ → (ℕ → ℕ) → ℕ → Ram → Outcome Ram
unfolding init_page
uvminit pagetable src sz r =
    check (not (leb 4096 sz)) >> init_page pagetable src sz r (kalloc r.kmem)

unfoldable pub uvmdealloc : ℕ → ℕ → ℕ → Ram → Outcome (ℕ × Ram)
uvmdealloc pagetable oldsz newsz r =
    let unmap =
      uvmunmap pagetable (pgroundup newsz) ((pgroundup oldsz - pgroundup newsz) / 4096) true r in
    if leb oldsz newsz
    then returns (oldsz, r)
    else if ltb (pgroundup newsz) (pgroundup oldsz)
    then (unmap >>= λ r'. returns (newsz, r'))
    else returns (newsz, r)

-- The page that a turn adds, or not where the memory is short.
unfoldable pub keep_page : ℕ → Bool × Ram → Outcome (Bool × Ram)
keep_page p (true, r) = returns (true, r)
keep_page p (false, r) = free_frame true p r >>= λ r'. returns (false, r')

unfoldable pub map_page : ℕ → ℕ → Ram → Option ℕ × Kmem → Outcome (Bool × Ram)
unfolding keep_page
map_page pagetable a r (none, kmem) = returns (false, record r { kmem = kmem })
map_page pagetable a r (some p, kmem) =
    mappages pagetable a 4096 p user_perm (zero_page p (record r { kmem = kmem })) >>= λ m.
    keep_page p m

unfoldable pub grow : ℕ → ℕ → ℕ → ℕ → ℕ → Ram → Outcome (ℕ × Ram)
unfolding map_page
grow zero pagetable oldsz a newsz r = returns (newsz, r)
grow (suc fuel) pagetable oldsz a newsz r =
    let turn : Outcome (ℕ × Ram) = do
      (ok, r') ← map_page pagetable a r (kalloc r.kmem)
      let next = grow fuel pagetable oldsz (a + 4096) newsz r'
      let undo : Outcome (ℕ × Ram) = uvmdealloc pagetable a oldsz r' >>= λ d. returns (0, d.1)
      if ok then next else undo
    in if ltb a newsz then turn else returns (newsz, r)

unfoldable pub uvmalloc : ℕ → ℕ → ℕ → Ram → Outcome (ℕ × Ram)
uvmalloc pagetable oldsz newsz r =
    if ltb newsz oldsz
    then returns (oldsz, r)
    else grow (newsz / 4096 + 1) pagetable (pgroundup oldsz) (pgroundup oldsz) newsz r

-- The copy of the page that the entry `pte` maps, at `i` of the new table.
unfoldable pub copy_page : ℕ → ℕ → ℕ → Ram → Option ℕ × Kmem → Outcome (Bool × Ram)
unfolding keep_page
copy_page new i pte r (none, kmem) = returns (false, record r { kmem = kmem })
copy_page new i pte r (some p, kmem) =
    mappages new i 4096 p (pte_flags pte)
      (record r { kmem = kmem; bytes = move_bytes 4096 p (pte2pa pte) r.bytes r.bytes })
    >>= λ m. keep_page p m

unfoldable pub copy_entry : ℕ → ℕ → Option ℕ × Ram → Outcome (Bool × Ram)
unfolding copy_page
copy_entry new i (none, r) = panics
copy_entry new i (some a, r) = do
  check (is_valid (r.ptes a))
  copy_page new i (r.ptes a) r (kalloc r.kmem)

unfoldable pub copy_pages : ℕ → ℕ → ℕ → ℕ → ℕ → Ram → Outcome (Bool × Ram)
unfolding copy_entry
copy_pages zero old new i sz r = returns (true, r)
copy_pages (suc fuel) old new i sz r =
    let turn : Outcome (Bool × Ram) = do
      w ← walk false old i r
      (ok, r') ← copy_entry new i w
      let next = copy_pages fuel old new (i + 4096) sz r'
      let undo : Outcome (Bool × Ram) =
          uvmunmap new 0 (i / 4096) true r' >>= λ d. returns (false, d)
      if ok then next else undo
    in if ltb i sz then turn else returns (true, r)

unfoldable pub uvmcopy : ℕ → ℕ → ℕ → Ram → Outcome (Bool × Ram)
uvmcopy old new sz r = copy_pages (sz / 4096 + 1) old new 0 sz r

unfoldable pub clear_user : Option ℕ × Ram → Outcome Ram
unfolding set_pte
clear_user (none, r) = panics
clear_user (some a, r) =
    returns (set_pte a (if is_user (r.ptes a) then r.ptes a - 16 else r.ptes a) r)

unfoldable pub uvmclear : ℕ → ℕ → Ram → Outcome Ram
unfolding clear_user
uvmclear pagetable va r = walk false pagetable va r >>= λ w. clear_user w

-- The entries of a table, `m` from `i` on; `again` frees a lower table.
unfoldable pub free_tables : ℕ → ℕ → (ℕ → Ram → Outcome Ram) → ℕ → Ram → Outcome Ram
free_tables zero i again pagetable r = returns r
free_tables (suc m) i again pagetable r =
    let pte = r.ptes (pagetable + 8 * i) in
    let lower : Outcome Ram = do
      r' ← again (pte2pa pte) r
      free_tables m (i + 1) again pagetable (set_pte (pagetable + 8 * i) 0 r')
    in let next = free_tables m (i + 1) again pagetable r in
      if is_valid pte && pte / 2 % 8 == 0 then lower else if is_valid pte then panics else next

-- `depth` is how deep the stack lets it call itself; a table of a process has three levels.
unfoldable pub freewalk : ℕ → ℕ → Ram → Outcome Ram
unfolding free_tables
freewalk zero pagetable r = panics
freewalk (suc depth) pagetable r =
    free_tables 512 0 (λ child r'. freewalk depth child r') pagetable r >>= λ r'.
    free_frame true pagetable r'

unfoldable pub uvmfree : ℕ → ℕ → Ram → Outcome Ram
unfolding freewalk
uvmfree pagetable sz r = do
  r' ← (if ltb 0 sz then uvmunmap pagetable 0 (pgroundup sz / 4096) true r else returns r)
  freewalk 3 pagetable r'
