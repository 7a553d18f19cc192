-- ===== src/Malloc/Ealloc/Outcome.antt =====
-- What the searches of ealloc.c find: a run of free chunks on a page in use, or on a new one.
use os_codes.Common.{
  ℕ, zero, suc, ◌+◌, ◌*◌, ◌<◌, ◌≡◌, ◌⊎◌, inl, inr, refl, ap, false, Option, none, some, List, [],
  ◌∷◌, inside_of, get_elem?-set_self, arith, get_elem?, get_or, set, ℤ, pos, negsuc, pos_part,
  Option-cases, Bool-cases,
}
use os_codes.Malloc.Chunks.{search_from, has_rem, int_div}
use os_codes.Malloc.Chunks.Fill.{fill, mark_used-eq-fill}
use os_codes.Malloc.Chunks.Search.{FreeRun, SearchSpec, search_from-SearchSpec}
use os_codes.Malloc.Alloc.Blocks.{search_negative}
use os_codes.Malloc.Ealloc.{
  Page, Pages, num_ele, min_alloc, take_run, alloc_on_page, or_later, alloc_in_use, alloc_first,
  map_page, alloc_new, alloc_pages, alloc,
}

-- The page after a block of `n` chunks was taken at chunk `c`.
abbrev pub taken : ℕ → ℕ → Page → Page
taken n c p = record p {
  how_many = set p.how_many c (get_or p.how_many c 0 + n);
  bitmap = fill p.bitmap c n false;
}

-- `n` free chunks of page `p` are taken at the address `a`, which leaves `q`.
abbrev pub Fits : ℕ → Page → ℕ → Page → Type 0
Fits n p a q =
    (c : ℕ) × (c < num_ele) × FreeRun p.bitmap c n × (a ≡ p.ptr + c * min_alloc) × (q ≡ taken n c p)

abbrev PageOutcome : ℕ → Page → Option (Option (ℕ × Page)) → Type 0
PageOutcome n p none = Unit
PageOutcome n p (some none) = Unit
PageOutcome n p (some (some (a, q))) = Fits n p a q

take_run-eq-taken : (n c : ℕ) (p : Page) → take_run n c p ≡ taken n c p
unfolding take_run
take_run-eq-taken n c p = rw (mark_used-eq-fill p.bitmap c n)

module _ (req : ℤ) (p : Page) where
  on_page-outside : search_from p.bitmap req num_ele 0 ≡ none → alloc_on_page req p ≡ none
  unfolding alloc_on_page
  on_page-outside e = rw (e, alloc_on_page)

  on_page-null : search_from p.bitmap req num_ele 0 ≡ some none → alloc_on_page req p ≡ some none
  unfolding alloc_on_page
  on_page-null e = rw (e, alloc_on_page)

  pub on_page-found :
      (c : ℕ)
      → search_from p.bitmap req num_ele 0 ≡ some (some c)
      → alloc_on_page req p ≡ some (some (p.ptr + c * min_alloc, taken (pos_part req) c p))
  unfolding alloc_on_page
  on_page-found c e = rw (e, alloc_on_page, take_run-eq-taken (pos_part req) c p)

  outcome_of_search :
      (r : Option (Option ℕ))
      → search_from p.bitmap req num_ele 0 ≡ r
      → SearchSpec p.bitmap (pos_part req) num_ele 0 r
      → PageOutcome (pos_part req) p (alloc_on_page req p)
  outcome_of_search none e spec = rw (on_page-outside e) tt
  outcome_of_search (some none) e spec = rw (on_page-null e) tt
  outcome_of_search (some (some c)) e (lo, hi, run, before) =
      rw (on_page-found c e) (c, omega arith, run, refl, refl)

on_page-PageOutcome : (req : ℤ) (p : Page) → PageOutcome (pos_part req) p (alloc_on_page req p)
on_page-PageOutcome (pos n) p =
    outcome_of_search (pos n) p _ refl (search_from-SearchSpec p.bitmap n num_ele 0)
on_page-PageOutcome (negsuc m) p =
    rw (on_page-null (negsuc m) p (search_negative p.bitmap m num_ele 0)) tt

-- The same on a list of pages.
abbrev InUse : ℕ → List Page → ℕ → Option (Option (ℕ × List Page)) → Type 0
InUse n ps k none = Unit
InUse n ps k (some none) = Unit
InUse n ps k (some (some (a, qs))) =
    (j : ℕ) × (p : Page) × (q : Page) × (j < k)
    × (get_elem? ps j ≡ some p)
    × Fits n p a q
    × (qs ≡ set ps j q)

or_later-InUse :
    (n k : ℕ) (p : Page) (ps : List Page) (r : Option (Option (ℕ × Page)))
    (rest : Option (Option (ℕ × List Page)))
    → PageOutcome n p r
    → InUse n ps k rest
    → InUse n (p ∷ ps) (suc k) (or_later p ps r rest)
unfolding or_later
or_later-InUse n k p ps none rest h t = tt
or_later-InUse n k p ps (some (some (a, q))) rest h t = (0, p, q, omega arith, refl, h, refl)
or_later-InUse n k p ps (some none) none h t = tt
or_later-InUse n k p ps (some none) (some none) h t = tt
or_later-InUse n k p ps (some none) (some (some (a, qs))) h (j, p', q, lt, at, fits, same) =
    (suc j, p', q, omega arith, at, fits, ap (λ x. p ∷ x) same)

alloc_in_use-InUse :
    (req : ℤ) (ps : List Page) (k : ℕ) → InUse (pos_part req) ps k (alloc_in_use req ps k)
unfolding alloc_in_use
alloc_in_use-InUse req ps zero = tt
alloc_in_use-InUse req [] (suc k) = tt
alloc_in_use-InUse req (p ∷ ps) (suc k) =
    or_later-InUse (pos_part req) k p ps (alloc_on_page req p) (alloc_in_use req ps k)
      (on_page-PageOutcome req p) (alloc_in_use-InUse req ps k)

-- A page in use of `u` gives the block at `a`.
abbrev pub GotFrom : ℕ → Pages → ℕ → Pages → Type 0
GotFrom n u a t =
    (j : ℕ) × (p : Page) × (q : Page) × (j < u.curr_pages_used)
    × (get_elem? u.pages j ≡ some p)
    × Fits n p a q
    × (t ≡ record u { pages = set u.pages j q })

-- No page is mapped, or `page` is the next.
abbrev pub Mapped : ℕ → Pages → Pages → Type 0
Mapped page s u =
    (u ≡ s)
    ⊎ ((p : Page) × (get_elem? s.pages s.curr_pages_used ≡ some p)
        × (u ≡ map_page s.curr_pages_used p page s))

-- What a request for `n` chunks leaves, when `mmap` would give `page`.
abbrev pub Outcome : ℕ → ℕ → Pages → Option (Option ℕ × Pages) → Type 0
Outcome n page s none = Unit
Outcome n page s (some (none, t)) = Mapped page s t
Outcome n page s (some (some a, t)) = (u : Pages) × Mapped page s u × GotFrom n u a t

module _ (n page : ℕ) (s : Pages) (p : Page)
    (next : get_elem? s.pages s.curr_pages_used ≡ some p) where
  first-Outcome :
      (r : Option (Option (ℕ × Page)))
      → PageOutcome n (record p { ptr = page }) r
      → Outcome n page s (alloc_first s.curr_pages_used (map_page s.curr_pages_used p page s) r)
  unfolding alloc_first map_page
  first-Outcome none h = tt
  first-Outcome (some none) h = inr (p, next, refl)
  first-Outcome (some (some (a, q))) h = (
    map_page s.curr_pages_used p page s,
    inr (p, next, refl),
    (
      s.curr_pages_used,
      record p { ptr = page },
      q,
      omega arith,
      get_elem?-set_self s.pages s.curr_pages_used _ (inside_of s.pages s.curr_pages_used next),
      h,
      refl,
    ),
  )

module _ (req : ℤ) (page : ℕ) (s : Pages) where
  new-full : get_elem? s.pages s.curr_pages_used ≡ none → alloc_new req (some page) s ≡ none
  unfolding alloc_new
  new-full e = rw (e, alloc_new)

  new-next :
      (p : Page)
      → get_elem? s.pages s.curr_pages_used ≡ some p
      → alloc_new req (some page) s
        ≡ alloc_first s.curr_pages_used
            (map_page s.curr_pages_used p page s)
            (alloc_on_page req (record p { ptr = page }))
  unfolding alloc_new
  new-next p e = rw (e, alloc_new)

  new-Outcome : Outcome (pos_part req) page s (alloc_new req (some page) s)
  new-Outcome = elim (Option-cases (get_elem? s.pages s.curr_pages_used)) [
    | inl full ↦ rw (new-full full) tt
    | inr (p, next) ↦ rw (new-next p next) (
        first-Outcome (pos_part req) page s p next _
          (on_page-PageOutcome req (record p { ptr = page })))
  ]

  pages-none :
      alloc_in_use req s.pages s.curr_pages_used ≡ none → alloc_pages req (some page) s ≡ none
  unfolding alloc_pages
  pages-none e = rw (e, alloc_pages)

  pages-new :
      alloc_in_use req s.pages s.curr_pages_used ≡ some none
      → alloc_pages req (some page) s ≡ alloc_new req (some page) s
  unfolding alloc_pages
  pages-new e = rw (e, alloc_pages)

  pages-found :
      (a : ℕ) (qs : List Page)
      → alloc_in_use req s.pages s.curr_pages_used ≡ some (some (a, qs))
      → alloc_pages req (some page) s ≡ some (some a, record s { pages = qs })
  unfolding alloc_pages
  pages-found a qs e = rw (e, alloc_pages)

  pages-Outcome :
      (r : Option (Option (ℕ × List Page)))
      → alloc_in_use req s.pages s.curr_pages_used ≡ r
      → InUse (pos_part req) s.pages s.curr_pages_used r
      → Outcome (pos_part req) page s (alloc_pages req (some page) s)
  pages-Outcome none e h = rw (pages-none e) tt
  pages-Outcome (some none) e h = rw (pages-new e) new-Outcome
  pages-Outcome (some (some (a, qs))) e (j, p, q, lt, at, fits, same) =
      rw (pages-found a qs e)
        (s, inl refl, (j, p, q, lt, at, fits, ap (λ (x : List Page). record s { pages = x }) same))

-- Whatever the request, `alloc` gives a run of free chunks of a page in use or of the page that `mmap`
-- gives, or nothing.
pub alloc-Outcome :
    (size : ℤ) (page : ℕ) (s : Pages)
    → Outcome (pos_part (int_div size min_alloc)) page s (alloc size (some page) s)
unfolding alloc
alloc-Outcome size page s = elim (Bool-cases (has_rem size min_alloc)) [
  | inl refused ↦ rw refused (inl refl)
  | inr whole ↦ rw whole (
      pages-Outcome (int_div size min_alloc) page s _ refl
        (alloc_in_use-InUse (int_div size min_alloc) s.pages s.curr_pages_used))
]
