-- ===== src/Malloc/Alloc.antt =====
-- malloc-code/alloc.c: one page from the operating system, given out in chunks of 8 bytes.
-- `mmap` and `munmap` are not under malloc-code: what they return is an argument.
pub mod Fit
pub mod Blocks
pub mod Lifetime
mod Tests
use os_codes.Common.{
  ℕ, zero, suc, ◌+◌, ◌-◌, ◌*◌, ◌^◌, Bool, true, Option, none, some, List, get_elem?, get_or, set,
  if◌then◌else◌, ℤ, pos, negsuc, pos_part, sub_ℕ,
}
use os_codes.Malloc.Chunks.{int_div, has_rem, search_from, mark_used, mark_free, memset}

abbrev pub page_size : ℕ
page_size = 4096

abbrev pub min_alloc : ℕ
min_alloc = 8

abbrev pub num_ele : ℕ
num_ele = 512

-- The globals of alloc.c, and memory. `ptr` and addresses are numbers.
pub record Heap : Type 0 where
  pub bitmap : List Bool
  pub how_many : List ℕ
  pub ptr : ℕ
  pub mem : ℕ → ℕ

-- The loop of `init_alloc` and of `cleanup`, with `k` rounds to go.
unfoldable pub reset_from : Heap → ℕ → ℕ → Heap
reset_from s zero i = s
reset_from s (suc k) i =
    reset_from (record s { bitmap = set s.bitmap i true; how_many = set s.how_many i 0 }) k (i + 1)

-- MAP_FAILED is `(void *) -1`.
abbrev pub map_failed : ℕ
map_failed = 2 ^ 64 - 1

-- `mapped` is the page that `mmap` gives, if it does.
unfoldable pub init_alloc : Option ℕ → Heap → ℤ × Heap
init_alloc none s = (negsuc 0, record s { ptr = map_failed })
init_alloc (some page) s =
    (pos 0, reset_from (record s { ptr = page; mem = memset s.mem page 0 page_size }) num_ele 0)

-- `unmapped` is what `munmap` returns.
unfoldable pub cleanup : ℤ → Heap → ℤ × Heap
cleanup unmapped s = (unmapped, reset_from s num_ele 0)

-- The body of the `if(x == req_mem)` of `alloc`, at chunk `i`.
unfoldable pub take_chunks : ℕ → ℕ → Heap → Heap
take_chunks x i s = record s {
  how_many = set s.how_many i (get_or s.how_many i 0 + x);
  bitmap = mark_used s.bitmap i x;
}

-- The search of `alloc`, and what it does at the first fit. `none` is a read past the bitmap.
unfoldable pub alloc_chunks : ℤ → Heap → Option (Option ℕ × Heap)
alloc_chunks req s = elim (search_from s.bitmap req num_ele 0) [
  | none ↦ none
  | some none ↦ some (none, s)
  | some (some i) ↦ some (some (s.ptr + i * min_alloc), take_chunks (pos_part req) i s)
]

unfoldable pub alloc : ℤ → Heap → Option (Option ℕ × Heap)
unfolding alloc_chunks
alloc size s =
    if has_rem size min_alloc then some (none, s) else alloc_chunks (int_div size min_alloc) s

-- `dealloc` from its second line on, at chunk `c`. `none` is a read outside of `how_many`.
unfoldable pub free_chunks : ℕ → ℕ → Heap → Option Heap
free_chunks at c s = elim (get_elem? s.how_many c) [
  | none ↦ none
  | some x ↦ some (record s {
    how_many = set s.how_many c 0;
    mem = memset s.mem at 0 (x * 8);
    bitmap = mark_free s.bitmap c x 0;
  })
]

-- A negative quotient is no index of `how_many` either.
unfoldable pub free_at : ℕ → ℤ → Heap → Option Heap
unfolding free_chunks
free_at at (pos c) s = free_chunks at c s
free_at at (negsuc c) s = none

unfoldable pub dealloc : ℕ → Heap → Option Heap
unfolding free_at
dealloc at s = free_at at (int_div (sub_ℕ at s.ptr) min_alloc) s
