-- ===== src/Malloc/Ealloc/Failure.antt =====
-- A call of `mmap` that fails in ealloc.c.
use os_codes.Common.{
  ℕ, zero, suc, ◌+◌, ◌*◌, ◌%◌, ◌/◌, ◌≤◌, ◌≡◌, refl, ◌∙◌, Option, none, some, List, ◌∷◌, arith, pos,
  Bool,
}
use os_codes.Malloc.Chunks.{has_rem, int_div}
use os_codes.Malloc.Chunks.Search.{FreeRun, Blocked, SearchSpec, search_from-SearchSpec}
use os_codes.Malloc.Alloc.{map_failed}
use os_codes.Malloc.Ealloc.{
  Page, Pages, num_ele, min_alloc, alloc_on_page, alloc_in_use, alloc_new, alloc_pages, alloc,
  or_later,
}
use os_codes.Malloc.Ealloc.Outcome.{taken, on_page-found}

-- On a page that is free the first run is found at its start.
module _ (bm : List Bool) (n : ℕ) (free : FreeRun bm 0 num_ele) (fits : n ≤ num_ele) where
  start_not_Blocked : ¬ Blocked bm n 0
  start_not_Blocked (y, lt, run, stop) = cc (free y (omega arith), stop)

  search_at_start : (r : Option (Option ℕ)) → SearchSpec bm n num_ele 0 r → r ≡ some (some 0)
  search_at_start none (zero, y, lo, hi, lt, run, out, before) =
      absurd (cc (free y (omega arith), out))
  search_at_start none (suc j, y, lo, hi, lt, run, out, before) =
      absurd (start_not_Blocked (before 0 (omega arith) (omega arith)))
  search_at_start (some none) before =
      absurd (start_not_Blocked (before 0 (omega arith) (omega arith)))
  search_at_start (some (some zero)) found = refl
  search_at_start (some (some (suc c))) (lo, hi, run, before) =
      absurd (start_not_Blocked (before 0 (omega arith) (omega arith)))

on_page-start :
    (p : Page) (n : ℕ)
    → FreeRun p.bitmap 0 num_ele
    → n ≤ num_ele
    → alloc_on_page (pos n) p ≡ some (some (p.ptr + 0 * min_alloc, taken n 0 p))
on_page-start p n free fits =
    on_page-found (pos n) p 0
      (search_at_start p.bitmap n free fits _ (search_from-SearchSpec p.bitmap n num_ele 0))

alloc-multiple :
    (n : ℕ) (mapped : Option ℕ) (s : Pages)
    → alloc (pos (n * min_alloc)) mapped s ≡ alloc_pages (pos n) mapped s
unfolding alloc has_rem int_div
alloc-multiple n mapped s =
    let whole : n * min_alloc % min_alloc ≡ 0 = omega arith in
    let count : n * min_alloc / min_alloc ≡ n = omega arith in rw (whole, count)

module _ (n : ℕ) (p : Page) (ps : List Page) (mem : ℕ → ℕ) where
  abbrev fresh : Pages
  fresh = record { pages = p ∷ ps; curr_pages_used = 0; mem = mem }

  abbrev failed : Pages
  failed = record { pages = record p { ptr = map_failed } ∷ ps; curr_pages_used = 1; mem = mem }

  first_fails : alloc_pages (pos n) none fresh ≡ some (none, failed)
  unfolding alloc_pages alloc_in_use alloc_new
  first_fails = refl

  second_succeeds :
      (mapped : Option ℕ) (q : Page)
      → alloc_on_page (pos n) (record p { ptr = map_failed }) ≡ some (some (map_failed, q))
      → alloc_pages (pos n) mapped failed ≡ some (some map_failed, record failed { pages = q ∷ ps })
  unfolding alloc_pages alloc_in_use or_later
  second_succeeds mapped q e = rw (alloc_pages, alloc_in_use, e, or_later)

-- With no page in use and the first page free, a request for which `mmap` fails gives NULL; but the page
-- counts as in use, and the next request, of at most 16 chunks, gives the address MAP_FAILED as if it were
-- a block.
pub alloc_after_failure :
    (n m : ℕ) (p : Page) (ps : List Page) (mem : ℕ → ℕ) (mapped : Option ℕ)
    → FreeRun p.bitmap 0 num_ele
    → m ≤ num_ele
    → (t : Pages) × (alloc
          (pos (n * min_alloc))
          none
          (record { pages = p ∷ ps; curr_pages_used = 0; mem = mem })
        ≡ some (none, t))
      × (u : Pages) × (alloc (pos (m * min_alloc)) mapped t ≡ some (some map_failed, u))
alloc_after_failure n m p ps mem mapped free fits = (
  failed n p ps mem,
  alloc-multiple n none (fresh n p ps mem) ∙ first_fails n p ps mem,
  _,
  alloc-multiple m mapped (failed n p ps mem)
      ∙ second_succeeds m p ps mem mapped _
          (on_page-start (record p { ptr = map_failed }) m free fits),
)
