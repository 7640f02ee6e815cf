-- ===== src/Vm.antt =====
-- FileSystem-RAID/kernel/vm.c: page tables. A page of physical memory is used for page-table
-- entries or for bytes: `ptes` has the entry at an address, `bytes` the byte. The bit operations on
-- an entry are written as arithmetic on its ten flag bits and the page number above them. The
-- address 0 is the null pointer.
pub mod User
pub mod Copy
pub mod Transfer
pub mod Out
pub mod Mapped
pub mod Walk
mod Tests
use xv6_kernel_extensions.Prelude.{
  ℕ, zero, suc, ◌+◌, ◌-◌, ◌*◌, ◌/◌, ◌%◌, ◌^◌, Bool, true, false, not, Option, none, some, ◌==◌, ltb,
  leb, ◌&&◌, ◌||◌, if◌then◌else◌, update,
}
use xv6_kernel_extensions.Bio.{Outcome, returns, panics, sleeps, ◌>>=◌, ◌>>◌, check}
use xv6_kernel_extensions.Kalloc.{Kmem, kalloc, kfree}

pub record Ram : Type 0 where
  pub kernel_end : ℕ
  pub kmem : Kmem
  pub ptes : ℕ → ℕ
  pub bytes : ℕ → ℕ

abbrev pub maxva : ℕ
maxva = 274877906944

abbrev pub is_valid : ℕ → Bool
is_valid pte = pte % 2 == 1

abbrev pub is_user : ℕ → Bool
is_user pte = pte / 16 % 2 == 1

abbrev pub pte2pa : ℕ → ℕ
pte2pa pte = pte / 1024 * 4096

abbrev pub pte_flags : ℕ → ℕ
pte_flags pte = pte % 1024

-- PA2PTE(pa) | perm | PTE_V
abbrev pub leaf : ℕ → ℕ → ℕ
leaf pa perm = pa / 4096 * 1024 + (perm / 2 * 2 + 1)

abbrev pub pgrounddown : ℕ → ℕ
pgrounddown a = a / 4096 * 4096

abbrev pub pgroundup : ℕ → ℕ
pgroundup a = (a + 4095) / 4096 * 4096

-- The index of `va` in a table of the level that maps `span` bytes with each entry.
abbrev pub px : ℕ → ℕ → ℕ
px span va = va / span % 512

-- `memset` of a page, with 0.
unfoldable pub zero_page : ℕ → Ram → Ram
zero_page p r = record r {
  ptes = λ a. if a / 4096 == p / 4096 then 0 else r.ptes a;
  bytes = λ a. if a / 4096 == p / 4096 then 0 else r.bytes a;
}

unfoldable pub set_pte : ℕ → ℕ → Ram → Ram
set_pte a pte r = record r { ptes = update r.ptes a pte }

-- The new table for the entry at `a`, of what `kalloc` gave.
unfoldable pub add_table : ℕ → Ram → Option ℕ × Kmem → Option ℕ × Ram
unfolding zero_page set_pte
add_table a r (none, kmem) = (none, record r { kmem = kmem })
add_table a r (some p, kmem) =
    (some p, set_pte a (p / 4096 * 1024 + 1) (zero_page p (record r { kmem = kmem })))

-- A turn of the loop of `walk`: the next table, where there is one.
unfoldable pub descend : Bool → ℕ → ℕ → ℕ → Ram → Option ℕ × Ram
unfolding add_table
descend alloc span pagetable va r =
    let a = pagetable + 8 * px span va in
    if is_valid (r.ptes a)
    then (some (pte2pa (r.ptes a)), r)
    else if alloc
    then add_table a r (kalloc r.kmem)
    else (none, r)

unfoldable pub walk_last : ℕ → Option ℕ × Ram → Option ℕ × Ram
walk_last va (none, r) = (none, r)
walk_last va (some pagetable, r) = (some (pagetable + 8 * px 4096 va), r)

unfoldable pub walk_next : Bool → ℕ → Option ℕ × Ram → Option ℕ × Ram
unfolding walk_last descend
walk_next alloc va (none, r) = (none, r)
walk_next alloc va (some pagetable, r) = walk_last va (descend alloc 2097152 pagetable va r)

-- The address of the entry, or `none`.
unfoldable pub walk : Bool → ℕ → ℕ → Ram → Outcome (Option ℕ × Ram)
unfolding walk_next descend
walk alloc pagetable va r =
    if leb maxva va
    then panics
    else returns (walk_next alloc va (descend alloc 1073741824 pagetable va r))

unfoldable pub user_page : Option ℕ × Ram → ℕ
user_page (none, r) = 0
user_page (some a, r) =
    if not (is_valid (r.ptes a)) || not (is_user (r.ptes a)) then 0 else pte2pa (r.ptes a)

unfoldable pub walkaddr : ℕ → ℕ → Ram → ℕ
unfolding user_page walk_next descend
walkaddr pagetable va r =
    if leb maxva va
    then 0
    else user_page (walk_next false va (descend false 1073741824 pagetable va r))

unfoldable pub kernel_page : ℕ → Option ℕ × Ram → Outcome ℕ
kernel_page off (none, r) = panics
kernel_page off (some a, r) = do check (is_valid (r.ptes a)); returns (pte2pa (r.ptes a) + off)

unfoldable pub kvmpa : ℕ → ℕ → Ram → Outcome ℕ
unfolding kernel_page
kvmpa kernel_pagetable va r = walk false kernel_pagetable va r >>= λ w. kernel_page (va % 4096) w

-- One turn of the loop of `mappages`: whether `walk` had the memory.
unfoldable pub map_entry : ℕ → ℕ → Option ℕ × Ram → Outcome (Bool × Ram)
unfolding set_pte
map_entry pa perm (none, r) = returns (false, r)
map_entry pa perm (some a, r) = do
  check (not (is_valid (r.ptes a)))
  returns (true, set_pte a (leaf pa perm) r)

-- The loop, on fuel: each turn goes to the next page, and `walk` panics beyond `maxva`.
unfoldable pub map_pages : ℕ → ℕ → ℕ → ℕ → ℕ → ℕ → Ram → Outcome (Bool × Ram)
unfolding map_entry
map_pages zero pagetable a last pa perm r = panics
map_pages (suc fuel) pagetable a last pa perm r = do
  w ← walk true pagetable a r
  (ok, r') ← map_entry pa perm w
  let next = map_pages fuel pagetable (a + 4096) last (pa + 4096) perm r'
  if ok then (if a == last then returns (true, r') else next) else returns (false, r')

-- `true` for 0 and `false` for -1. `perm` has flag bits only.
unfoldable pub mappages : ℕ → ℕ → ℕ → ℕ → ℕ → Ram → Outcome (Bool × Ram)
mappages pagetable va size pa perm r =
    map_pages 67108865 pagetable (pgrounddown va)
      (pgrounddown ((va + size + 18446744073709551615) % 2 ^ 64)) pa perm r

unfoldable pub kvmmap : ℕ → ℕ → ℕ → ℕ → ℕ → Ram → Outcome Ram
kvmmap kernel_pagetable va pa sz perm r = do
  (ok, r') ← mappages kernel_pagetable va sz pa perm r
  check ok
  returns r'

unfoldable pub free_frame : Bool → ℕ → Ram → Outcome Ram
free_frame false pa r = returns r
free_frame true pa r = kfree r.kernel_end pa r.kmem >>= λ kmem. returns (record r { kmem = kmem })

unfoldable pub unmap_entry : Bool → Option ℕ × Ram → Outcome Ram
unfolding free_frame set_pte
unmap_entry do_free (none, r) = panics
unmap_entry do_free (some a, r) = do
  check (is_valid (r.ptes a))
  check (not (pte_flags (r.ptes a) == 1))
  r' ← free_frame do_free (pte2pa (r.ptes a)) r
  returns (set_pte a 0 r')

unfoldable pub unmap_pages : ℕ → ℕ → ℕ → Bool → Ram → Outcome Ram
unfolding unmap_entry
unmap_pages zero pagetable a do_free r = returns r
unmap_pages (suc npages) pagetable a do_free r = do
  w ← walk false pagetable a r
  r' ← unmap_entry do_free w
  unmap_pages npages pagetable (a + 4096) do_free r'

unfoldable pub uvmunmap : ℕ → ℕ → ℕ → Bool → Ram → Outcome Ram
uvmunmap pagetable va npages do_free r =
    check (va % 4096 == 0) >> unmap_pages npages pagetable va do_free r
