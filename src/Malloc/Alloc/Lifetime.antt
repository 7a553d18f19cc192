-- ===== src/Malloc/Alloc/Lifetime.antt =====
-- A block from `alloc` to `dealloc`, beside the other blocks, and the fresh page.
use os_codes.Common.{
  ℕ, zero, suc, ◌+◌, ◌*◌, ◌≤◌, ◌<◌, ◌≡◌, ◌⊎◌, inl, inr, refl, ap, sym, subst, subst₂, ◌∙◌, ◌≢◌,
  true, false, Option, none, some, List, [], ◌∷◌, arith, length, get_elem?, get_elem?-inside,
  get_elem?-set_self, get_elem?-set_ne, get_or, set, set-set, set-same, pos, replicate,
}
use os_codes.Malloc.Chunks.{memset}
use os_codes.Malloc.Chunks.Fill.{fill, fill-zero, fill-set_below}
use os_codes.Malloc.Chunks.Apart.{free_and_live_apart}
use os_codes.Malloc.Chunks.Tiling.{Tiled, fill-restore, Tiled-replicate}
use os_codes.Malloc.Alloc.{
  Heap, num_ele, page_size, min_alloc, alloc, dealloc, init_alloc, reset_from,
}
use os_codes.Malloc.Alloc.Fit.{AllocOutcome, taken, alloc_first_fit}
use os_codes.Malloc.Alloc.Blocks.{
  IsValid, Block, returned, dealloc-eq-returned, count_zero, chunk_inside, taken_count,
}

module _ (n : ℕ) (s : Heap) (p : ℕ) (t : Heap) (valid : IsValid s) (some_chunk : 0 < n)
    (got : alloc (pos (n * min_alloc)) s ≡ some (some p, t)) where
  found : AllocOutcome n s (some (some p, t))
  found = subst (AllocOutcome n s) got (alloc_first_fit n s valid.size)

  -- A block of at least one chunk that `alloc` gives out overlaps no live block, and every live block
  -- is still counted afterwards.
  pub alloc-disjoint :
      (d x : ℕ)
      → Block s d x
      → Block t d x
        × ((p + n * min_alloc ≤ s.ptr + d * min_alloc)
            ⊎ (s.ptr + d * min_alloc + x * min_alloc ≤ p))
  alloc-disjoint d x live = go found
    where
      go :
          AllocOutcome n s (some (some p, t))
          → Block t d x
            × ((p + n * min_alloc ≤ s.ptr + d * min_alloc)
                ⊎ (s.ptr + d * min_alloc + x * min_alloc ≤ p))
      go (c, lt, run, first, at, same) =
          let apart : (c + n ≤ d) ⊎ (d + x ≤ c) =
            free_and_live_apart s.bitmap s.how_many c n d x valid.tiled run live.counted some_chunk
              live.nonempty in
          let differ : c ≢ d = omega (arith, live.nonempty) in
          (
            subst (λ h. Block h d x) (sym same)
                (record {
                  counted = get_elem?-set_ne s.how_many _ differ ∙ live.counted;
                  nonempty = live.nonempty;
                }),
            elim apart [ inl h ↦ inl (omega arith) | inr h ↦ inr (omega arith) ],
          )

  -- Giving back at once a block of at least one chunk restores `bitmap` and `how_many`; the memory of
  -- the block is zero.
  pub dealloc-alloc : dealloc p t ≡ some (record s { mem = memset s.mem p 0 (n * 8) })
  dealloc-alloc = go found
    where
      go :
          AllocOutcome n s (some (some p, t))
          → dealloc p t ≡ some (record s { mem = memset s.mem p 0 (n * 8) })
      go (c, lt, run, first, at, same) =
          let count : get_elem? (taken n c s).how_many c ≡ some n =
            get_elem?-set_self s.how_many c _ (chunk_inside s valid c lt)
            ∙ ap some (taken_count s valid c n some_chunk lt run) in
          let zero_before : set s.how_many c 0 ≡ s.how_many =
            set-same s.how_many c 0 (count_zero s valid c n some_chunk run) in
          rw (
            at,
            same,
            dealloc-eq-returned c n (taken n c s) count,
            set-set,
            zero_before,
            fill-restore s.bitmap c n run,
          )

outcome_zero :
    (s : Heap) (r : Option (Option ℕ × Heap))
    → IsValid s
    → AllocOutcome 0 s r
    → r ≡ some (some s.ptr, s)
outcome_zero s none valid (no_fit, last) = absurd (no_fit 0 (omega arith) λ z h. elim h [ ])
outcome_zero s (some (none, t)) valid (no_fit, last, same) =
    absurd (no_fit 0 (omega arith) λ z h. elim h [ ])
outcome_zero s (some (some p, t)) valid (suc c, lt, run, first, at, same) =
    absurd (first 0 (omega arith) λ z h. elim h [ ])
outcome_zero s (some (some p, t)) valid (zero, lt, run, first, at, same) =
    let start : s.ptr + 0 * min_alloc ≡ s.ptr = omega arith in
    let count : get_or s.how_many 0 0 + 0 ≡ get_or s.how_many 0 0 = omega arith in
    let kept : set s.how_many 0 (get_or s.how_many 0 0) ≡ s.how_many =
      set-same s.how_many 0 _ (get_elem?-inside s.how_many 0 0 (chunk_inside s valid 0 lt)) in
    rw (at, same, start, count, kept, fill-zero s.bitmap 0 false)

-- While a block lives at the start of the page, a request for 0 bytes gets the address of the page, the
-- pointer of that block, and changes nothing; giving that pointer back ends the block.
pub alloc-zero_aliases :
    (s : Heap) (x : ℕ)
    → IsValid s
    → Block s 0 x
    → (alloc (pos 0) s ≡ some (some s.ptr, s))
      × (u : Heap) × (dealloc s.ptr s ≡ some u)
      × (get_elem? u.how_many 0 ≡ some 0)
      × (u.bitmap ≡ fill s.bitmap 0 x true)
alloc-zero_aliases s x valid live = (
  outcome_zero s _ valid (alloc_first_fit 0 s valid.size),
  returned (s.ptr + 0 * min_alloc) 0 x s,
  let start : s.ptr ≡ s.ptr + 0 * min_alloc = omega arith in
      subst (λ p. dealloc p s ≡ some (returned (s.ptr + 0 * min_alloc) 0 x s)) (sym start)
        (dealloc-eq-returned 0 x s live.counted),
  get_elem?-set_self s.how_many 0 0 (chunk_inside s valid 0 (omega arith)),
  refl,
)

-- The loop of `init_alloc` and `cleanup`.
bitmap-reset_from : (s : Heap) (k i : ℕ) → (reset_from s k i).bitmap ≡ fill s.bitmap i k true
unfolding reset_from
bitmap-reset_from s zero i = sym (fill-zero s.bitmap i true)
bitmap-reset_from s (suc k) i =
    bitmap-reset_from _ k (i + 1)
    ∙ ap (λ j. fill (set s.bitmap i true) j k true) (omega arith)
    ∙ fill-set_below s.bitmap i k true

how_many-reset_from : (s : Heap) (k i : ℕ) → (reset_from s k i).how_many ≡ fill s.how_many i k 0
unfolding reset_from
how_many-reset_from s zero i = sym (fill-zero s.how_many i 0)
how_many-reset_from s (suc k) i =
    how_many-reset_from _ k (i + 1)
    ∙ ap (λ j. fill (set s.how_many i 0) j k 0) (omega arith)
    ∙ fill-set_below s.how_many i k 0

fill-all :
    {A : Type 0} (xs : List A) (n : ℕ) (v : A) → length xs ≡ n → fill xs 0 n v ≡ replicate n v
unfolding fill
fill-all [] zero v e = refl
fill-all [] (suc n) v e = absurd (omega arith)
fill-all (x ∷ xs) zero v e = absurd (omega arith)
fill-all (x ∷ xs) (suc n) v e = ap (λ l. v ∷ l) (fill-all xs n v (omega arith))

ptr-reset_from : (s : Heap) (k i : ℕ) → (reset_from s k i).ptr ≡ s.ptr
unfolding reset_from
ptr-reset_from s zero i = refl
ptr-reset_from s (suc k) i = ptr-reset_from _ k (i + 1)

mem-reset_from : (s : Heap) (k i : ℕ) → (reset_from s k i).mem ≡ s.mem
unfolding reset_from
mem-reset_from s zero i = refl
mem-reset_from s (suc k) i = mem-reset_from _ k (i + 1)

abbrev pub AllFree : Heap → Type 0
AllFree s = (s.bitmap ≡ replicate num_ele true) × (s.how_many ≡ replicate num_ele 0)

reset_from-AllFree :
    (s : Heap)
    → length s.bitmap ≡ num_ele
    → length s.how_many ≡ num_ele
    → AllFree (reset_from s num_ele 0)
reset_from-AllFree s eb eh = (
  bitmap-reset_from s num_ele 0 ∙ fill-all s.bitmap num_ele true eb,
  how_many-reset_from s num_ele 0 ∙ fill-all s.how_many num_ele 0 eh,
)

AllFree-IsValid : (s : Heap) → AllFree s → IsValid s
AllFree-IsValid s (eb, eh) = record {
  size = ap length eb;
  tiled = subst₂ (λ bm hm. Tiled 0 bm hm) (sym eb) (sym eh) (Tiled-replicate num_ele);
}

-- When `mmap` gives a page, `init_alloc` returns 0 and leaves a valid heap at that page: every chunk
-- is free, no block is counted, and every byte of the page is 0.
pub init_alloc-IsValid :
    (page : ℕ) (s : Heap)
    → length s.bitmap ≡ num_ele
    → length s.how_many ≡ num_ele
    → let (r, t) = init_alloc (some page) s in
      (r ≡ pos 0)
      × IsValid t
      × AllFree t
      × (t.ptr ≡ page)
      × ((a : ℕ) → page ≤ a → a < page + page_size → t.mem a ≡ 0)
unfolding init_alloc
init_alloc-IsValid page s eb eh =
    let fresh : Heap = record s { ptr = page; mem = memset s.mem page 0 page_size } in
    let free : AllFree (reset_from fresh num_ele 0) = reset_from-AllFree fresh eb eh in
    (
      refl,
      AllFree-IsValid _ free,
      free,
      ptr-reset_from fresh num_ele 0,
      λ a lo hi. rw (mem-reset_from fresh num_ele 0) (ground arith),
    )
