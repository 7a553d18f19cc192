-- ===== src/Malloc/Alloc/Blocks.antt =====
-- The blocks that `alloc` gives out and `dealloc` takes back.
use os_codes.Common.{
  ℕ, zero, suc, ◌+◌, ◌-◌, ◌*◌, ◌%◌, ◌/◌, ◌<◌, ◌≡◌, ◌⊎◌, inl, inr, refl, ap, sym, subst, ◌∙◌, Bool,
  true, false, Option, none, some, List, arith, length, get_elem?, get_elem?-inside, get_or, set,
  set-same, ℤ, pos, negsuc, sub_ℕ, Option-cases, ℕ_discrete,
}
use os_codes.Malloc.Chunks.{has_rem, int_div, search_from, free_run, memset}
use os_codes.Malloc.Chunks.Fill.{fill, length-fill, fill-zero, mark_free-eq-fill}
use os_codes.Malloc.Chunks.Search.{FreeRun}
use os_codes.Malloc.Chunks.Tiling.{Tiled, Tiled-fill, Tiled-unfill, Tiled-free_zero, Tiled-length}
use os_codes.Malloc.Alloc.{
  Heap, num_ele, min_alloc, alloc, alloc_chunks, dealloc, free_at, free_chunks,
}
use os_codes.Malloc.Alloc.Fit.{AllocOutcome, taken, alloc_first_fit}

pub record IsValid (s : Heap) : Type 0 where
  pub size : length s.bitmap ≡ num_ele
  pub tiled : Tiled 0 s.bitmap s.how_many

-- A live block: `n` chunks from chunk `d` on, with `n` not 0.
pub record Block (s : Heap) (d n : ℕ) : Type 0 where
  pub counted : get_elem? s.how_many d ≡ some n
  pub nonempty : 0 < n

module _ (s : Heap) (valid : IsValid s) (c : ℕ) where
  pub count_zero : (n : ℕ) → 0 < n → FreeRun s.bitmap c n → get_elem? s.how_many c ≡ some 0
  count_zero n some_chunk run =
      let e : c + 0 ≡ c = omega arith in
      Tiled-free_zero s.bitmap s.how_many 0 c valid.tiled (rw e at (run 0 some_chunk))

  get_or_of :
      {v : ℕ} → get_elem? s.how_many c ≡ some v → c < length s.how_many → get_or s.how_many c 0 ≡ v
  get_or_of e lt = cc (e, get_elem?-inside s.how_many c 0 lt)

  pub chunk_inside : c < num_ele → c < length s.how_many
  chunk_inside lt = omega (arith, Tiled-length s.bitmap s.how_many 0 valid.tiled, valid.size)

  pub taken_count :
      (n : ℕ) → 0 < n → c < num_ele → FreeRun s.bitmap c n → get_or s.how_many c 0 + n ≡ n
  taken_count n some_chunk lt run =
      omega (arith, get_or_of (count_zero n some_chunk run) (chunk_inside lt))

  taken-IsValid : (n : ℕ) → c < num_ele → FreeRun s.bitmap c n → IsValid (taken n c s)
  taken-IsValid zero lt run = record {
    size = length-fill s.bitmap c 0 false ∙ valid.size;
    tiled =
        let same : get_or s.how_many c 0 + 0 ≡ get_or s.how_many c 0 = omega arith in
        rw
          (
            same,
            fill-zero s.bitmap c false,
            set-same s.how_many c _ (get_elem?-inside s.how_many c 0 (chunk_inside lt)),
          )
          valid.tiled;
  }
  taken-IsValid (suc n) lt run = record {
    size = length-fill s.bitmap c (suc n) false ∙ valid.size;
    tiled =
        rw (taken_count (suc n) (omega arith) lt run)
          (Tiled-fill s.bitmap s.how_many 0 c n valid.tiled run);
  }

outcome-IsValid :
    (n : ℕ) (s : Heap) (r : Option (Option ℕ × Heap)) (p : Option ℕ) (t : Heap)
    → IsValid s
    → AllocOutcome n s r
    → r ≡ some (p, t)
    → IsValid t
outcome-IsValid n s none p t valid o e = absurd (cc e)
outcome-IsValid n s (some (none, u)) p t valid (a, b, same) e =
    let u_t : u ≡ t = cc in subst IsValid (sym same ∙ u_t) valid
outcome-IsValid n s (some (some q, u)) p t valid (c, lt, run, first, at, same) e =
    let u_t : u ≡ t = cc in subst IsValid (sym same ∙ u_t) (taken-IsValid s valid c n lt run)

pub free_run-zero : (bm : List Bool) (i x : ℕ) → free_run bm i 0 x ≡ some x
unfolding free_run
free_run-zero bm i x = refl

pub search_negative : (bm : List Bool) (m k i : ℕ) → search_from bm (negsuc m) k i ≡ some none
unfolding search_from
search_negative bm m zero i = refl
search_negative bm m (suc k) i =
    rw (free_run-zero bm i 0, search_from) (search_negative bm m k (i + 1))

alloc_chunks_negative : (m : ℕ) (s : Heap) → alloc_chunks (negsuc m) s ≡ some (none, s)
unfolding alloc_chunks
alloc_chunks_negative m s = rw (search_negative s.bitmap m num_ele 0, alloc_chunks)

-- A request that is negative, or no multiple of 8, gives NULL and changes nothing.
alloc_refused :
    (size : ℤ) (s : Heap)
    → (alloc size s ≡ some (none, s)) ⊎ ((n : ℕ) × (size ≡ pos (n * min_alloc)))
unfolding alloc has_rem int_div
alloc_refused (pos a) s = elim (ℕ_discrete (a % min_alloc) 0) [
  | yes e ↦ inr (a / min_alloc, ap pos (omega arith))
  | no ne ↦ inl (ground arith)
]
alloc_refused (negsuc a) s = inl (ground (arith, alloc_chunks_negative (suc a / 8 - 1) s))

-- `alloc` keeps the invariant, whatever the request and the outcome.
pub alloc-IsValid :
    (size : ℤ) (s : Heap) (p : Option ℕ) (t : Heap)
    → IsValid s
    → alloc size s ≡ some (p, t)
    → IsValid t
alloc-IsValid size s p t valid e = elim (alloc_refused size s) [
  | inl refused ↦ let s_t : s ≡ t = cc in subst IsValid s_t valid
  | inr (n, whole) ↦
      outcome-IsValid n s (alloc (pos (n * min_alloc)) s) p t valid (alloc_first_fit n s valid.size)
        (ap (λ z. alloc z s) (sym whole) ∙ e)
]

-- The heap after the block at chunk `c` of `x` chunks was given back through the pointer `at`.
abbrev pub returned : ℕ → ℕ → ℕ → Heap → Heap
returned at c x s = record s {
  how_many = set s.how_many c 0;
  mem = memset s.mem at 0 (x * 8);
  bitmap = fill s.bitmap c x true;
}

free_chunks-outside :
    (at c : ℕ) (s : Heap) → get_elem? s.how_many c ≡ none → free_chunks at c s ≡ none
unfolding free_chunks
free_chunks-outside at c s e = rw (e, free_chunks)

free_chunks-eq-returned :
    (at c x : ℕ) (s : Heap)
    → get_elem? s.how_many c ≡ some x
    → free_chunks at c s ≡ some (returned at c x s)
unfolding free_chunks
free_chunks-eq-returned at c x s e =
    let start : c + 0 ≡ c = omega arith in
    rw (e, free_chunks, mark_free-eq-fill s.bitmap c x 0, start)

chunk_of_pointer : (p c : ℕ) → int_div (sub_ℕ (p + c * min_alloc) p) min_alloc ≡ pos c
unfolding int_div
chunk_of_pointer p c =
    let offset : sub_ℕ (p + c * min_alloc) p ≡ pos (c * min_alloc) = ground arith in
    let chunk : c * min_alloc / min_alloc ≡ c = omega arith in rw (offset, chunk)

pub dealloc-eq-returned :
    (c x : ℕ) (s : Heap)
    → get_elem? s.how_many c ≡ some x
    → dealloc (s.ptr + c * min_alloc) s ≡ some (returned (s.ptr + c * min_alloc) c x s)
unfolding dealloc
dealloc-eq-returned c x s e = rw (chunk_of_pointer s.ptr c) (free_chunks-eq-returned _ c x s e)

returned-IsValid :
    (at c x : ℕ) (s : Heap)
    → IsValid s
    → get_elem? s.how_many c ≡ some x
    → IsValid (returned at c x s)
returned-IsValid at c zero s valid e = record {
  size = length-fill s.bitmap c 0 true ∙ valid.size;
  tiled = rw (fill-zero s.bitmap c true, set-same s.how_many c 0 e) valid.tiled;
}
returned-IsValid at c (suc x) s valid e = record {
  size = length-fill s.bitmap c (suc x) true ∙ valid.size;
  tiled = Tiled-unfill s.bitmap s.how_many 0 c x valid.tiled e;
}

free_chunks-IsValid : (at c : ℕ) (s t : Heap) → IsValid s → free_chunks at c s ≡ some t → IsValid t
free_chunks-IsValid at c s t valid e = elim (Option-cases (get_elem? s.how_many c)) [
  | inl outside ↦ absurd (cc (free_chunks-outside at c s outside))
  | inr (x, found) ↦
      let same : returned at c x s ≡ t = cc (free_chunks-eq-returned at c x s found) in
      subst IsValid same (returned-IsValid at c x s valid found)
]

free_at-IsValid : (at : ℕ) (z : ℤ) (s t : Heap) → IsValid s → free_at at z s ≡ some t → IsValid t
unfolding free_at
free_at-IsValid at (pos c) s t valid e = free_chunks-IsValid at c s t valid e
free_at-IsValid at (negsuc c) s t valid e = absurd (cc e)

-- `dealloc` keeps the invariant, whatever the pointer.
pub dealloc-IsValid : (at : ℕ) (s t : Heap) → IsValid s → dealloc at s ≡ some t → IsValid t
unfolding dealloc
dealloc-IsValid at s t valid e = free_at-IsValid at _ s t valid e
