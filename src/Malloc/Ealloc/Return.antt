-- ===== src/Malloc/Ealloc/Return.antt =====
-- `dealloc` of ealloc.c finds the page of a block, and undoes its `alloc`.
use os_codes.Common.{
  ℕ, zero, suc, ◌+◌, ◌*◌, ◌/◌, ◌<◌, ◌≡◌, inl, inr, refl, sym, ap, ◌∙◌, subst, true, false, some,
  List, [], ◌∷◌, arith, length, get_elem?, get_elem?-set_self, get_elem?-set_ne, get_or, set,
  set-set, set-same, inside_of, pos, sub_ℕ,
}
use os_codes.Malloc.Chunks.{int_div, memset}
use os_codes.Malloc.Chunks.Fill.{fill, mark_free-eq-fill}
use os_codes.Malloc.Chunks.Search.{FreeRun}
use os_codes.Malloc.Chunks.Tiling.{Tiled-length, fill-restore}
use os_codes.Malloc.Ealloc.{
  Page, Pages, num_ele, min_alloc, alloc, on_page, page_of, free_run_at, dealloc,
}
use os_codes.Malloc.Ealloc.Outcome.{taken, GotFrom, Mapped}
use os_codes.Malloc.Ealloc.Blocks.{
  PageIsValid, IsValid, Unmapped, Mapped-IsValid, count_zero, counted,
}
use os_codes.Malloc.Ealloc.Lifetime.{got}

-- The `j`-th page is found, if it is the only one that `at` lies on.
page_of-found :
    (at : ℕ) (ps : List Page) (k i j : ℕ) (p : Page)
    → j < k
    → get_elem? ps j ≡ some p
    → on_page at p ≡ true
    → ((z : ℕ) (q : Page) → z < j → get_elem? ps z ≡ some q → on_page at q ≡ false)
    → page_of at ps k i ≡ i + j
unfolding page_of
page_of-found at ps zero i j p lt here_ on others = absurd (omega arith)
page_of-found at [] (suc k) i j p lt here_ on others = absurd (cc here_)
page_of-found at (x ∷ ps) (suc k) i zero p lt here_ on others =
    let same : x ≡ p = cc in
    let hit : on_page at x ≡ true = ap (on_page at) same ∙ on in rw hit (omega arith)
page_of-found at (x ∷ ps) (suc k) i (suc j) p lt here_ on others =
    let miss : on_page at x ≡ false = others 0 x (omega arith) refl in
    rw miss (
      page_of-found at ps k (i + 1) j p (omega arith) here_ on
        (λ z q less e. others (suc z) q (omega arith) e)
      ∙ omega arith)

module _ (at j c x : ℕ) (p : Page) (s : Pages) where
  free_run_at-found :
      get_elem? p.how_many c ≡ some x
      → free_run_at at j p (pos c) s
        ≡ some (record s {
          pages =
              set s.pages j
                (record p { how_many = set p.how_many c 0; bitmap = fill p.bitmap c x true });
          mem = memset s.mem at 0 (x * 8);
        })
  unfolding free_run_at
  free_run_at-found e =
      let start : c + 0 ≡ c = omega arith in
      rw (e, free_run_at, mark_free-eq-fill p.bitmap c x 0, start)

  dealloc-found :
      page_of at s.pages s.curr_pages_used 0 ≡ j
      → get_elem? s.pages j ≡ some p
      → int_div (sub_ℕ at p.ptr) min_alloc ≡ pos c
      → dealloc at s ≡ free_run_at at j p (pos c) s
  unfolding dealloc
  dealloc-found place e chunk = rw (dealloc, place, e, chunk, place)

chunk_of_pointer : (p c : ℕ) → int_div (sub_ℕ (p + c * min_alloc) p) min_alloc ≡ pos c
unfolding int_div
chunk_of_pointer p c =
    let offset : sub_ℕ (p + c * min_alloc) p ≡ pos (c * min_alloc) = ground arith in
    let chunk : c * min_alloc / min_alloc ≡ c = omega arith in rw (offset, chunk)

-- A block given back restores its page.
taken_back :
    (p : Page) (valid : PageIsValid p) (c n : ℕ)
    → c < num_ele
    → FreeRun p.bitmap c (suc n)
    → record (taken (suc n) c p) {
      how_many = set (taken (suc n) c p).how_many c 0;
      bitmap = fill (taken (suc n) c p).bitmap c (suc n) true;
    }
      ≡ p
taken_back p valid c n lt run =
    let zero_there : get_elem? p.how_many c ≡ some 0 =
      counted p valid c lt ∙ ap some (count_zero p valid c lt n run) in
    rw (
      set-set p.how_many c (get_or p.how_many c 0 + suc n) 0,
      set-same p.how_many c 0 zero_there,
      fill-restore p.bitmap c (suc n) run,
    )

module _ (n j c : ℕ) (p : Page) (u : Pages) (inv : IsValid u) (used : j < u.curr_pages_used)
    (at : get_elem? u.pages j ≡ some p) (lt : c < num_ele) (run : FreeRun p.bitmap c (suc n)) where
  abbrev q : Page
  q = taken (suc n) c p

  abbrev address : ℕ
  address = p.ptr + c * min_alloc

  abbrev v : Pages
  v = record u { pages = set u.pages j q }

  -- No earlier page holds the address.
  others : (z : ℕ) (r : Page) → z < j → get_elem? v.pages z ≡ some r → on_page address r ≡ false
  others z r less e =
      let before = sym (get_elem?-set_ne u.pages q (λ x. omega (arith, x))) ∙ e in
      let apart = inv.apart j z p r used (omega arith) (λ x. omega (arith, x)) at before in
      elim apart [ inl h ↦ ground arith | inr h ↦ ground arith ]

  found_page : page_of address v.pages u.curr_pages_used 0 ≡ j
  found_page =
      page_of-found address v.pages u.curr_pages_used 0 j q used
        (get_elem?-set_self u.pages j q (inside_of u.pages j at)) (ground arith) others
      ∙ omega arith

  given_back : dealloc address v ≡ some (record u { mem = memset u.mem address 0 (suc n * 8) })
  given_back =
      let valid = inv.valid j p at in
      let inside : c < length p.how_many =
        omega (arith, Tiled-length p.bitmap p.how_many 0 valid.tiled, valid.size) in
      let count = get_elem?-set_self p.how_many c (get_or p.how_many c 0 + suc n) inside in
      let count_n : get_or p.how_many c 0 + suc n ≡ suc n =
        omega (arith, count_zero p valid c lt n run) in
      dealloc-found address j c (suc n) q v found_page
        (get_elem?-set_self u.pages j q (inside_of u.pages j at)) (chunk_of_pointer p.ptr c)
      ∙ free_run_at-found address j c (suc n) q v (count ∙ ap some count_n)
      ∙ ap
          (λ (ps : List Page).
            some (record u { pages = ps; mem = memset u.mem address 0 (suc n * 8) }))
          pages_restored
    where
      pages_restored :
          set
            (set u.pages j q)
            j
            (record q { how_many = set q.how_many c 0; bitmap = fill q.bitmap c (suc n) true })
          ≡ u.pages
      pages_restored =
          ap (set (set u.pages j q) j) (taken_back p (inv.valid j p at) c n lt run)
          ∙ set-set u.pages j q p
          ∙ set-same u.pages j p at

got_back :
    (n a : ℕ) (u t : Pages)
    → IsValid u
    → 0 < n
    → GotFrom n u a t
    → dealloc a t ≡ some (record u { mem = memset u.mem a 0 (n * 8) })
got_back zero a u t inv pn from = absurd (omega arith)
got_back (suc n) a u t inv pn (j, p, q', used, at, (c, lt, run, from, same), result) =
    let t_v : t ≡ v n j c p u inv used at lt run =
      result ∙ ap (λ x. record u { pages = set u.pages j x }) same in
    subst (λ x. dealloc x t ≡ some (record u { mem = memset u.mem x 0 (suc n * 8) })) (sym from)
      (ap (dealloc (p.ptr + c * min_alloc)) t_v ∙ given_back n j c p u inv used at lt run)

module _ (n page : ℕ) (s : Pages) (a : ℕ) (t : Pages) (inv : IsValid s) (unmapped : Unmapped page s)
    (pn : 0 < n) (e : alloc (pos (n * min_alloc)) (some page) s ≡ some (some a, t)) where
  -- Giving back at once a block of at least one chunk finds its page and restores `bitmap` and
  -- `how_many` of every page; only a new page stays, and the first 8 bytes per chunk of the block are zero.
  pub dealloc_restores :
      (u : Pages) × Mapped page s u
      × (dealloc a t ≡ some (record u { mem = memset u.mem a 0 (n * 8) }))
  dealloc_restores =
      let (u, mapped, from) = got n page s a t inv unmapped pn e in
      (u, mapped, got_back n a u t (Mapped-IsValid s inv page unmapped u mapped) pn from)
