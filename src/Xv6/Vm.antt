-- ===== src/Xv6/Vm.antt =====
-- xv6-public(1)/vm.c: page tables, and pages that parent and child share until one writes to them.
-- An entry of a page table is its physical address and its flags. A page directory holds the entry
-- PTX of the table PDX at the place PDX * 1024 + PTX, the number of the virtual page; a table that the
-- directory does not have is at 0. The contents of a page are a number;
-- what `kfree` leaves in a page is kept where the page fault handler frees one. A panic is `none`.
-- `kernel_end` is the linker's `end`.
pub mod Fault
pub mod Fork
pub mod Share
mod Tests
use os_codes.Common.{
  ℕ, zero, suc, ◌+◌, ◌-◌, ◌*◌, ◌/◌, ◌%◌, Bool, true, false, not, ◌&&◌, ◌||◌, Option, none, some,
  List, [], ◌∷◌, if◌then◌else◌, ltb, leb, ◌==◌, ◌>>=◌, ◌>>◌, assert,
}
use os_codes.Xv6.Kalloc.{
  Kmem, page_size, kern_base, word, v2p, put, index, kalloc, kfree, increment_ref_count,
}

-- A page table entry.
pub record Pte : Type 0 where
  pub addr : ℕ
  pub present : Bool
  pub writable : Bool
  pub user : Bool
  pub cow : Bool

abbrev pub no_entry : Pte
no_entry = record { addr = 0; present = false; writable = false; user = false; cow = false }

-- A page directory, in the page `base`.
pub record Dir : Type 0 where
  pub base : ℕ
  pub tables : ℕ → ℕ
  pub entries : ℕ → Pte

-- The allocator and the contents of the pages.
pub record Memory : Type 0 where
  pub kmem : Kmem
  pub page : ℕ → ℕ

abbrev pub p2v : ℕ → ℕ
p2v pa = (pa + kern_base) % word

-- The number of the virtual page, and that of its table.
abbrev pub vpn : ℕ → ℕ
vpn va = va / page_size

abbrev pub pdx : ℕ → ℕ
pdx va = va / 4194304

abbrev pub entry : Dir → ℕ → Pte
entry d va = d.entries (vpn va)

abbrev pub set_entry : Dir → ℕ → Pte → Dir
set_entry d va e = record d { entries = λ n. if n == vpn va then e else d.entries n }

abbrev pub has_table : Dir → ℕ → Bool
has_table d va = not (d.tables (pdx va) == 0)

-- A new table at the page `at`, all zero.
abbrev pub add_table : Dir → ℕ → ℕ → Dir
add_table d va at = record d {
  tables = put d.tables (pdx va) at;
  entries = λ n. if n / 1024 == pdx va then no_entry else d.entries n;
}

-- `walkpgdir` with `alloc`: whether there is a table for the address.
unfoldable pub walk_alloc : Dir → ℕ → Kmem → Option (Bool × Dir × Kmem)
walk_alloc d va k = if has_table d va then some (true, d, k) else (do
  (at, k') ← kalloc k
  some (if at == 0 then (false, d, k') else (true, add_table d va at, k')))

-- The flags that `mappages` is given.
pub record Perm : Type 0 where
  pub w : Bool
  pub u : Bool
  pub c : Bool

-- The body of the loop of `mappages` behind `walkpgdir`.
unfoldable pub map_entry : Bool → ℕ → ℕ → Perm → Dir → Kmem → Option (Bool × Dir × Kmem)
map_entry false va pa perm d k = some (false, d, k)
map_entry true va pa perm d k =
    if (entry d va).present
    then none
    else some (
      true,
      set_entry d va
          (record { addr = pa; present = true; writable = perm.w; user = perm.u; cow = perm.c }),
      k,
    )

-- `mappages` of one page, at an aligned address.
unfoldable pub map_page : Dir → ℕ → ℕ → Perm → Kmem → Option (Bool × Dir × Kmem)
unfolding walk_alloc map_entry
map_page d va pa perm k = do (ok, d', k') ← walk_alloc d va k; map_entry ok va pa perm d' k'

-- The loop of `deallocuvm`, with fuel for its rounds.
unfoldable pub dealloc_from : ℕ → ℕ → ℕ → ℕ → Dir → Kmem → Option (Dir × Kmem)
dealloc_from zero kernel_end a oldsz d k = none
dealloc_from (suc fuel) kernel_end a oldsz d k =
    let skip = dealloc_from fuel kernel_end ((pdx a + 1) * 4194304) oldsz d k in
    let next = dealloc_from fuel kernel_end (a + page_size) oldsz d k in
    let freed = (do
      assert (not ((entry d a).addr == 0))
      k' ← kfree kernel_end (p2v (entry d a).addr) k
      dealloc_from fuel kernel_end (a + page_size) oldsz (set_entry d a no_entry) k') in
    if not (ltb a oldsz)
    then some (d, k)
    else if not (has_table d a)
    then skip
    else if (entry d a).present
    then freed
    else next

-- A round goes one page on at least, so that as many rounds as pages are enough.
unfoldable pub deallocuvm : ℕ → Dir → ℕ → ℕ → Kmem → Option (ℕ × Dir × Kmem)
unfolding dealloc_from
deallocuvm kernel_end d oldsz newsz k = if leb oldsz newsz then some (oldsz, d, k) else (do
  (d', k') ←
      dealloc_from (oldsz / page_size + 2) kernel_end
        ((newsz + (page_size - 1)) / page_size * page_size) oldsz d k
  some (newsz, d', k'))

-- The loop of `freevm` over the tables, with `n` to go.
unfoldable pub free_tables : ℕ → ℕ → ℕ → Dir → Kmem → Option Kmem
free_tables kernel_end zero i d k = some k
free_tables kernel_end (suc n) i d k = do
  k' ← (if d.tables i == 0 then some k else kfree kernel_end (d.tables i) k)
  free_tables kernel_end n (i + 1) d k'

unfoldable pub freevm : ℕ → Dir → Kmem → Option Kmem
unfolding deallocuvm free_tables
freevm kernel_end d k = do
  (sz, d', k') ← deallocuvm kernel_end d kern_base 0 k
  k'' ← free_tables kernel_end 1024 0 d' k'
  kfree kernel_end d'.base k''

-- Both returns of 0 in `allocuvm`: what was allocated is given back.
unfoldable pub undo_alloc : ℕ → Option ℕ → ℕ → ℕ → Dir → Memory → Option (Bool × Dir × Memory)
unfolding deallocuvm
undo_alloc kernel_end none oldsz newsz d m = do
  (sz, d', k') ← deallocuvm kernel_end d newsz oldsz m.kmem
  some (false, d', record m { kmem = k' })
undo_alloc kernel_end (some at) oldsz newsz d m = do
  (sz, d', k') ← deallocuvm kernel_end d newsz oldsz m.kmem
  k'' ← kfree kernel_end at k'
  some (false, d', record m { kmem = k'' })

-- The loop's body behind `kalloc`, which returned `at`.
unfoldable pub alloc_page : ℕ → ℕ → ℕ → ℕ → ℕ → Dir → Memory → Option (Bool × Dir × Memory)
unfolding map_page undo_alloc
alloc_page kernel_end zero a oldsz newsz d m = undo_alloc kernel_end none oldsz newsz d m
alloc_page kernel_end (suc at) a oldsz newsz d m = do
  (ok, d', k) ← map_page d a (v2p (suc at)) (record { w = true; u = true; c = false }) m.kmem
  let m' : Memory = record { kmem = k; page = put m.page (suc at) 0 }
  if ok then some (true, d', m') else undo_alloc kernel_end (some (suc at)) oldsz newsz d' m'

-- The loop of `allocuvm`, with fuel for its rounds.
unfoldable pub alloc_from : ℕ → ℕ → ℕ → ℕ → ℕ → Dir → Memory → Option (ℕ × Dir × Memory)
unfolding alloc_page
alloc_from zero kernel_end a oldsz newsz d m = none
alloc_from (suc fuel) kernel_end a oldsz newsz d m =
    let round = (do
      (at, k) ← kalloc m.kmem
      (ok, d', m') ← alloc_page kernel_end at a oldsz newsz d (record m { kmem = k })
      elim ok [
        | true ↦ alloc_from fuel kernel_end (a + page_size) oldsz newsz d' m'
        | false ↦ some (0, d', m')
      ]) in
    if ltb a newsz then round else some (newsz, d, m)

unfoldable pub allocuvm : ℕ → Dir → ℕ → ℕ → Memory → Option (ℕ × Dir × Memory)
unfolding alloc_from
allocuvm kernel_end d oldsz newsz m =
    if leb kern_base newsz
    then some (0, d, m)
    else if ltb newsz oldsz
    then some (oldsz, d, m)
    else alloc_from (newsz / page_size + 2) kernel_end
        ((oldsz + (page_size - 1)) / page_size * page_size) oldsz newsz d m

-- `clearpteu`
unfoldable pub clearpteu : Dir → ℕ → Option Dir
clearpteu d uva =
    if has_table d uva then some (set_entry d uva (record (entry d uva) { user = false })) else none

-- The new entry of the parent in `copyuvm`.
abbrev pub share : Pte → Pte
share e = record e { writable = false; cow = true }

abbrev pub flags : Pte → Perm
flags e = record { w = e.writable; u = e.user; c = e.cow }

-- The loop's body in `copyuvm` at the address `i`: parent, child, and whether to go on.
unfoldable pub copy_page : ℕ → ℕ → Dir → Dir → Kmem → Option (Bool × Dir × Dir × Kmem)
unfolding map_page
copy_page kernel_end i parent child k = do
  assert (has_table parent i)
  assert (entry parent i).present
  let e : Pte = share (entry parent i)
  k₁ ← increment_ref_count kernel_end (p2v e.addr) k
  (ok, child', k₂) ← map_page child i e.addr (flags e) k₁
  k₃ ← (if ok then some k₂ else kfree kernel_end (p2v e.addr) k₂)
  some (ok, set_entry parent i e, child', k₃)

-- The loop of `copyuvm`, with `n` pages to go. It stops at the first page that cannot be mapped.
unfoldable pub copy_from : ℕ → ℕ → ℕ → Dir → Dir → Kmem → Option (Bool × Dir × Dir × Kmem)
unfolding copy_page
copy_from kernel_end zero i parent child k = some (true, parent, child, k)
copy_from kernel_end (suc n) i parent child k = do
  (ok, parent', child', k') ← copy_page kernel_end i parent child k
  elim ok [
    | true ↦ copy_from kernel_end n (i + page_size) parent' child' k'
    | false ↦ some (false, parent', child', k')
  ]

-- `copyuvm` with the directory that `setupkvm` made: the child, if there is one, and the parent.
unfoldable pub copyuvm : ℕ → Dir → ℕ → Dir → Kmem → Option (Option Dir × Dir × Kmem)
unfolding copy_from freevm
copyuvm kernel_end parent sz fresh k = do
  (ok, parent', child, k') ←
      copy_from kernel_end ((sz + (page_size - 1)) / page_size) 0 parent fresh k
  elim ok [
    | true ↦ some (some child, parent', k')
    | false ↦ (do k'' ← freevm kernel_end child k'; some (none, parent', k''))
  ]

-- The entry after a fault at a shared page, whose copy is at `at`.
abbrev pub own : ℕ → Pte → Pte
own at e = record { addr = v2p at; present = true; writable = true; user = e.user; cow = false }

-- The memset of `kfree`, for a page without references: `junk` is a page of bytes 1. The link in its
-- first word is `next` of Kmem.
abbrev pub fill_freed : ℕ → ℕ → Kmem → (ℕ → ℕ) → ℕ → ℕ
fill_freed junk v k page =
    if k.counting && not (k.count (index v) == 0) then page else put page v junk

-- `handle_pgflt_helper` behind its tests and `kalloc`.
unfoldable pub copy_on_write : ℕ → ℕ → ℕ → ℕ → Dir → Memory → Option (Dir × Memory)
copy_on_write junk kernel_end zero va d m = none
copy_on_write junk kernel_end (suc at) va d m = do
  let m' : Memory = record m { page = put m.page (suc at) (m.page (p2v (entry d va).addr)) }
  k ← kfree kernel_end (p2v (entry d va).addr) m'.kmem
  some (
    set_entry d va (own (suc at) (entry d va)),
    record { kmem = k; page = fill_freed junk (p2v (entry d va).addr) k m'.page },
  )

-- `handle_pgflt_helper`
unfoldable pub handle_fault : ℕ → ℕ → ℕ → Dir → Memory → Option (Dir × Memory)
unfolding copy_on_write
handle_fault junk kernel_end va d m = do
  assert (has_table d va)
  assert (entry d va).user
  assert (entry d va).present
  assert ((entry d va).writable || (entry d va).cow)
  (at, k) ← kalloc m.kmem
  copy_on_write junk kernel_end at va d (record m { kmem = k })

-- `uva2ka`, for an address that has a table; 0 if the page is not the user's.
unfoldable pub uva2ka : Dir → ℕ → Option ℕ
uva2ka d uva =
    if has_table d uva
    then some (if (entry d uva).present && (entry d uva).user then p2v (entry d uva).addr else 0)
    else none
