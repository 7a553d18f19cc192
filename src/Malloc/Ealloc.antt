-- ===== src/Malloc/Ealloc.antt =====
-- malloc-code/ealloc.c: up to four pages from the operating system, given out in chunks of 256 bytes.
-- `mmap` is not under malloc-code: the page that its call gives is an argument of `alloc`.
pub mod Outcome
pub mod Blocks
pub mod Lifetime
pub mod Return
pub mod Failure
mod Tests
use os_codes.Common.{
  ℕ, zero, suc, ◌+◌, ◌-◌, ◌*◌, Bool, true, ◌&&◌, Option, none, some, List, [], ◌∷◌, get_elem?,
  get_or, set, leb, ltb, if◌then◌else◌, ℤ, pos, negsuc, pos_part, sub_ℕ,
}
use os_codes.Malloc.Chunks.{int_div, has_rem, search_from, mark_used, mark_free, memset}
use os_codes.Malloc.Alloc.{map_failed}

abbrev pub page_size : ℕ
page_size = 4096

abbrev pub min_alloc : ℕ
min_alloc = 256

abbrev pub num_ele : ℕ
num_ele = 16

-- bitmap[j], how_many[j] and ptr[j] for one `j`
pub record Page : Type 0 where
  pub bitmap : List Bool
  pub how_many : List ℕ
  pub ptr : ℕ

-- The globals, with MAX_PAGES entries in `pages`, and memory.
pub record Pages : Type 0 where
  pub pages : List Page
  pub curr_pages_used : ℕ
  pub mem : ℕ → ℕ

-- The inner loop of `init_alloc` and of `cleanup`, with `k` rounds to go.
unfoldable pub reset_page : Page → ℕ → ℕ → Page
reset_page p zero i = p
reset_page p (suc k) i =
    reset_page (record p { bitmap = set p.bitmap i true; how_many = set p.how_many i 0 }) k (i + 1)

unfoldable pub init_pages : List Page → List Page
unfolding reset_page
init_pages [] = []
init_pages (p ∷ ps) = record (reset_page p num_ele 0) { ptr = 0 } ∷ init_pages ps

unfoldable pub init_alloc : Pages → Pages
unfolding init_pages
init_alloc s = record s { pages = init_pages s.pages; curr_pages_used = 0 }

unfoldable pub cleanup_pages : List Page → List Page
unfolding reset_page
cleanup_pages [] = []
cleanup_pages (p ∷ ps) = reset_page p num_ele 0 ∷ cleanup_pages ps

unfoldable pub cleanup : Pages → Pages
unfolding cleanup_pages
cleanup s = record s { pages = cleanup_pages s.pages }

-- The body of the `if(x == req_mem)`, at chunk `i`.
unfoldable pub take_run : ℕ → ℕ → Page → Page
take_run x i p = record p {
  how_many = set p.how_many i (get_or p.how_many i 0 + x);
  bitmap = mark_used p.bitmap i x;
}

-- The loop over the chunks of a page: the address and the page after it, if there is a fit. `none` is a
-- read past the row of the bitmap.
unfoldable pub alloc_on_page : ℤ → Page → Option (Option (ℕ × Page))
unfolding take_run
alloc_on_page req p = elim (search_from p.bitmap req num_ele 0) [
  | none ↦ none
  | some none ↦ some none
  | some (some i) ↦ some (some (p.ptr + i * min_alloc, take_run (pos_part req) i p))
]

-- What follows the loop over the chunks of page `p`, when the pages behind it give `rest`.
unfoldable pub or_later :
    Page
    → List Page
    → Option (Option (ℕ × Page))
    → Option (Option (ℕ × List Page))
    → Option (Option (ℕ × List Page))
or_later p ps none rest = none
or_later p ps (some (some (a, q))) rest = some (some (a, q ∷ ps))
or_later p ps (some none) none = none
or_later p ps (some none) (some none) = some none
or_later p ps (some none) (some (some (a, qs))) = some (some (a, p ∷ qs))

-- The loop over the pages in use, with `k` to go.
unfoldable pub alloc_in_use : ℤ → List Page → ℕ → Option (Option (ℕ × List Page))
unfolding alloc_on_page or_later
alloc_in_use req ps zero = some none
alloc_in_use req [] (suc k) = none
alloc_in_use req (p ∷ ps) (suc k) = or_later p ps (alloc_on_page req p) (alloc_in_use req ps k)

-- The end of the loop over the other pages, which is left in its first round.
unfoldable pub alloc_first : ℕ → Pages → Option (Option (ℕ × Page)) → Option (Option ℕ × Pages)
alloc_first j s none = none
alloc_first j s (some none) = some (none, s)
alloc_first j s (some (some (a, q))) = some (some a, record s { pages = set s.pages j q })

-- ptr[j] = mmap(..); curr_pages_used++; and memset of the page
unfoldable pub map_page : ℕ → Page → ℕ → Pages → Pages
map_page j p page s = record s {
  pages = set s.pages j (record p { ptr = page });
  curr_pages_used = s.curr_pages_used + 1;
  mem = memset s.mem page 0 page_size;
}

-- The loop over the other pages. `none` is also the end of `alloc` without a return value, when every
-- page is in use.
unfoldable pub alloc_new : ℤ → Option ℕ → Pages → Option (Option ℕ × Pages)
unfolding alloc_first map_page alloc_on_page
alloc_new req mapped s = elim (get_elem? s.pages s.curr_pages_used) [
  | none ↦ none
  | some p ↦ elim mapped [
    | none ↦ some (
      none,
      record s {
        pages = set s.pages s.curr_pages_used (record p { ptr = map_failed });
        curr_pages_used = s.curr_pages_used + 1;
      },
    )
    | some page ↦
        alloc_first s.curr_pages_used (map_page s.curr_pages_used p page s)
          (alloc_on_page req (record p { ptr = page }))
  ]
]

unfoldable pub alloc_pages : ℤ → Option ℕ → Pages → Option (Option ℕ × Pages)
unfolding alloc_in_use alloc_new
alloc_pages req mapped s = elim (alloc_in_use req s.pages s.curr_pages_used) [
  | none ↦ none
  | some none ↦ alloc_new req mapped s
  | some (some (a, qs)) ↦ some (some a, record s { pages = qs })
]

unfoldable pub alloc : ℤ → Option ℕ → Pages → Option (Option ℕ × Pages)
unfolding alloc_pages
alloc size mapped s =
    if has_rem size min_alloc then some (none, s) else alloc_pages (int_div size min_alloc) mapped s

-- pos-ptr[i]>=0 && (pos-ptr[i])<PAGESIZE
abbrev pub on_page : ℕ → Page → Bool
on_page at p = leb p.ptr at && ltb at (p.ptr + page_size)

-- The loop of `dealloc` for the page, with `k` rounds to go from page `i` on.
unfoldable pub page_of : ℕ → List Page → ℕ → ℕ → ℕ
page_of at ps zero i = 0
page_of at [] (suc k) i = 0
page_of at (p ∷ ps) (suc k) i =
    let later = page_of at ps k (i + 1) in if on_page at p then i else later

-- The rest of `dealloc`, on chunk `c` of page `p`, the `j`-th. `none` is a read outside of `how_many`.
unfoldable pub free_run_at : ℕ → ℕ → Page → ℤ → Pages → Option Pages
free_run_at at j p (negsuc c) s = none
free_run_at at j p (pos c) s = elim (get_elem? p.how_many c) [
  | none ↦ none
  | some x ↦ some (record s {
    pages =
        set s.pages j
          (record p { how_many = set p.how_many c 0; bitmap = mark_free p.bitmap c x 0 });
    mem = memset s.mem at 0 (x * 8);
  })
]

unfoldable pub dealloc : ℕ → Pages → Option Pages
unfolding page_of free_run_at
dealloc at s =
    let j = page_of at s.pages s.curr_pages_used 0 in
    elim (get_elem? s.pages j) [
      | none ↦ none
      | some p ↦ free_run_at at j p (int_div (sub_ℕ at p.ptr) min_alloc) s
    ]
