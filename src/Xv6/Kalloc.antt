-- ===== src/Xv6/Kalloc.antt =====
-- xv6-public(1)/kalloc.c: the physical pages, with a count of the references to each.
-- Addresses are 32-bit. The free list is linked through the first word of each free page, which is all
-- of the memory that is modelled: `memset(v, 1, PGSIZE)` fills a page whose first word is then written.
-- The code runs under `kmem.lock`: each operation is one step. `none` is a panic.
-- `kernel_end`, the address `end` that the linker gives, is an argument.
pub mod Pages
pub mod Refs
pub mod Count
pub mod Boot
mod Tests
use os_codes.Common.{
  ℕ, zero, suc, ◌+◌, ◌-◌, ◌*◌, ◌/◌, ◌%◌, ◌^◌, Bool, true, false, not, ◌&&◌, ◌||◌, Option, none,
  some, ◌>>=◌, if◌then◌else◌, ltb, leb, ◌==◌,
}

abbrev pub page_size : ℕ
page_size = 4096

-- PHYSTOP
abbrev pub phys_top : ℕ
phys_top = 234881024

-- KERNBASE
abbrev pub kern_base : ℕ
kern_base = 2147483648

abbrev pub word : ℕ
word = 4294967296

-- `V2P`, on the 32-bit `uint`.
abbrev pub v2p : ℕ → ℕ
v2p v = (v + (word - kern_base)) % word

-- The index of a page in `refcount.count`.
abbrev pub index : ℕ → ℕ
index v = v2p v / page_size

-- An assignment to one place of memory or of an array.
abbrev pub put : (ℕ → ℕ) → ℕ → ℕ → ℕ → ℕ
put f at v x = if x == at then v else f x

-- `kmem` and `refcount`, without their locks.
pub record Kmem : Type 0 where
  pub use_lock : Bool
  pub freelist : ℕ
  pub counting : Bool
  pub count : ℕ → ℕ
  pub next : ℕ → ℕ

-- The test before `panic("kfree")`.
abbrev pub is_bad : ℕ → ℕ → Bool
is_bad kernel_end v = not (v % page_size == 0) || ltb v kernel_end || leb phys_top (v2p v)

-- `r->next = kmem.freelist; kmem.freelist = r;`
abbrev pub link : ℕ → Kmem → Kmem
link v s = record s { next = put s.next v s.freelist; freelist = v }

-- `refcount.count[...]--` and what follows it. A count below 0 is a panic.
unfoldable pub drop_ref : ℕ → Kmem → Option Kmem
drop_ref v s =
    if leb (phys_top / page_size) (index v)
    then none
    else if ltb (s.count (index v)) 1
    then none
    else if s.count (index v) - 1 == 0
    then some (link v (record s { count = put s.count (index v) (s.count (index v) - 1) }))
    else some (record s { count = put s.count (index v) (s.count (index v) - 1) })

unfoldable pub kfree : ℕ → ℕ → Kmem → Option Kmem
unfolding drop_ref
kfree kernel_end v s =
    if is_bad kernel_end v then none else if s.counting then drop_ref v s else some (link v s)

-- The part of `kalloc` that takes the page `s.freelist`.
unfoldable pub pop_page : Kmem → Option (ℕ × Kmem)
pop_page s =
    if s.counting
    then (if leb (phys_top / page_size) (index s.freelist)
        then none
        else some (
          s.freelist,
          record s { freelist = s.next s.freelist; count = put s.count (index s.freelist) 1 },
        ))
    else some (s.freelist, record s { freelist = s.next s.freelist })

unfoldable pub kalloc : Kmem → Option (ℕ × Kmem)
unfolding pop_page
kalloc s = if s.freelist == 0 then some (0, s) else pop_page s

-- `(int)r >= PHYSTOP`
abbrev pub stops_at : ℕ → Bool
stops_at r = ltb r kern_base && leb phys_top r

-- The loop of `NumFreePages`, which has no bound of its own: `fuel` rounds at most.
unfoldable pub num_from : ℕ → (ℕ → ℕ) → ℕ → Option ℕ
num_from zero next r = if r == 0 then some 0 else none
num_from (suc fuel) next r =
    let rest = num_from fuel next (next r) in
    if r == 0 then some 0 else if stops_at (next r) then some 1 else rest >>= λ n. some (suc n)

unfoldable pub num_free_pages : ℕ → Kmem → Option ℕ
num_free_pages fuel s = num_from fuel s.next s.freelist

unfoldable pub increment_ref_count : ℕ → ℕ → Kmem → Option Kmem
increment_ref_count kernel_end v s =
    if is_bad kernel_end v
    then none
    else if s.counting
    then (if s.count (index v) == 0
        then none
        else some (record s { count = put s.count (index v) (s.count (index v) + 1) }))
    else some s

-- The loop of `freerange`, which makes at most `fuel` rounds.
unfoldable pub free_from : ℕ → ℕ → ℕ → ℕ → Kmem → Option Kmem
free_from zero kernel_end vend p s = some s
free_from (suc fuel) kernel_end vend p s =
    let rest = kfree kernel_end p s >>= free_from fuel kernel_end vend (p + page_size) in
    if leb (p + page_size) vend then rest else some s

abbrev pub page_round_up : ℕ → ℕ
page_round_up a = (a + (page_size - 1)) / page_size * page_size

-- Each round takes a page out of the range: its length is fuel enough.
unfoldable pub freerange : ℕ → ℕ → ℕ → Kmem → Option Kmem
freerange kernel_end vstart vend s =
    free_from (vend / page_size) kernel_end vend (page_round_up vstart) s

unfoldable pub kinit1 : ℕ → ℕ → ℕ → Kmem → Option Kmem
kinit1 kernel_end vstart vend s =
    freerange kernel_end vstart vend
      (record s { use_lock = false; counting = false; count = λ i. 0 })

unfoldable pub kinit2 : ℕ → ℕ → ℕ → Kmem → Option Kmem
kinit2 kernel_end vstart vend s = do
  t ← freerange kernel_end vstart vend s
  some (record t { use_lock = true; counting = true })
