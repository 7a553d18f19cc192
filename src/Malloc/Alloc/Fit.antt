-- ===== src/Malloc/Alloc/Fit.antt =====
-- What `alloc` returns: the first fit, NULL, or a read past the bitmap.
use os_codes.Common.{
  ℕ, zero, suc, ◌+◌, ◌-◌, ◌*◌, ◌%◌, ◌/◌, ◌≤◌, ◌<◌, ◌≡◌, refl, Bool, true, false, Option, none, some,
  List, arith, length, get_elem?, get_or, set, get_elem?-outside, get_elem?-inside, pos, dec_lt,
}
use os_codes.Malloc.Chunks.{has_rem, int_div, search_from}
use os_codes.Malloc.Chunks.Fill.{fill, mark_used-eq-fill}
use os_codes.Malloc.Chunks.Search.{FreeRun, Blocked, SearchSpec, search_from-SearchSpec}
use os_codes.Malloc.Alloc.{Heap, num_ele, min_alloc, alloc, alloc_chunks, take_chunks}

-- The heap after a block of `n` chunks was taken at chunk `c`.
abbrev pub taken : ℕ → ℕ → Heap → Heap
taken n c s = record s {
  how_many = set s.how_many c (get_or s.how_many c 0 + n);
  bitmap = fill s.bitmap c n false;
}

-- No `n` chunks in a row are free.
abbrev pub NoFit : ℕ → Heap → Type 0
NoFit n s = (c : ℕ) → c < num_ele → ¬ FreeRun s.bitmap c n

abbrev pub last_chunk : ℕ
last_chunk = 511

-- The outcome of a request for `n` chunks.
abbrev pub AllocOutcome : ℕ → Heap → Option (Option ℕ × Heap) → Type 0
AllocOutcome n s none = NoFit n s × (get_elem? s.bitmap last_chunk ≡ some true)
AllocOutcome n s (some (none, t)) =
    NoFit n s × (get_elem? s.bitmap last_chunk ≡ some false) × (t ≡ s)
AllocOutcome n s (some (some p, t)) =
    (c : ℕ) × (c < num_ele)
    × FreeRun s.bitmap c n
    × ((j : ℕ) → j < c → ¬ FreeRun s.bitmap j n)
    × (p ≡ s.ptr + c * min_alloc)
    × (t ≡ taken n c s)

module _ (bm : List Bool) (n : ℕ) where
  not-FreeRun_of_Blocked : (c : ℕ) → Blocked bm n c → ¬ FreeRun bm c n
  not-FreeRun_of_Blocked c (y, below, run, stop) all = cc (all y below, stop)

  module _ (size : length bm ≡ num_ele) where
    run_inside : (c y : ℕ) {v : Bool} → get_elem? bm (c + y) ≡ some v → c + y < num_ele
    run_inside c y e = elim (dec_lt (c + y) num_ele) [
      | yes h ↦ h
      | no h ↦ absurd (cc (e, get_elem?-outside bm (c + y) (omega arith)))
    ]

    outside_bound : (c y : ℕ) → get_elem? bm (c + y) ≡ none → num_ele ≤ c + y
    outside_bound c y e = elim (dec_lt (c + y) num_ele) [
      | yes h ↦ absurd (cc (e, get_elem?-inside bm (c + y) true (omega arith)))
      | no h ↦ omega arith
    ]

    -- A run that is free up to the end of the bitmap holds the last chunk.
    last_free :
        (c y : ℕ)
        → c < num_ele
        → FreeRun bm c y
        → get_elem? bm (c + y) ≡ none
        → get_elem? bm last_chunk ≡ some true
    last_free c y lt run e =
        let beyond : num_ele ≤ c + y = outside_bound c y e in
        let last : c + (last_chunk - c) ≡ last_chunk = omega arith in
        rw last at (run (last_chunk - c) (omega arith))

    -- Later chunks have no room for a run that reads past the end from an earlier one.
    no_room :
        (c j y : ℕ) → j ≤ c → c < num_ele → y < n → get_elem? bm (j + y) ≡ none → ¬ FreeRun bm c n
    no_room c j y le lt short e all =
        let beyond : num_ele ≤ j + y = outside_bound j y e in
        let inside : c + (num_ele - c) < num_ele =
          run_inside c (num_ele - c) (all (num_ele - c) (omega arith)) in
        omega arith

    last_used : Blocked bm n last_chunk → get_elem? bm last_chunk ≡ some false
    last_used (zero, below, run, stop) = stop
    last_used (suc y, below, run, stop) =
        let inside : last_chunk + suc y < num_ele = run_inside last_chunk (suc y) stop in
        absurd (omega arith)

take_chunks-eq-taken : (n c : ℕ) (s : Heap) → take_chunks n c s ≡ taken n c s
unfolding take_chunks
take_chunks-eq-taken n c s = rw (mark_used-eq-fill s.bitmap c n)

module _ (n : ℕ) (s : Heap) where
  alloc_chunks-fault : search_from s.bitmap (pos n) num_ele 0 ≡ none → alloc_chunks (pos n) s ≡ none
  unfolding alloc_chunks
  alloc_chunks-fault e = rw (e, alloc_chunks)

  alloc_chunks-null :
      search_from s.bitmap (pos n) num_ele 0 ≡ some none → alloc_chunks (pos n) s ≡ some (none, s)
  unfolding alloc_chunks
  alloc_chunks-null e = rw (e, alloc_chunks)

  alloc_chunks-found :
      (c : ℕ)
      → search_from s.bitmap (pos n) num_ele 0 ≡ some (some c)
      → alloc_chunks (pos n) s ≡ some (some (s.ptr + c * min_alloc), taken n c s)
  unfolding alloc_chunks
  alloc_chunks-found c e = rw (e, alloc_chunks, take_chunks-eq-taken)

  outcome_of_search :
      length s.bitmap ≡ num_ele
      → (r : Option (Option ℕ)) → search_from s.bitmap (pos n) num_ele 0 ≡ r
      → SearchSpec s.bitmap n num_ele 0 r
      → AllocOutcome n s (alloc_chunks (pos n) s)
  outcome_of_search size none e (j, y, lo, hi, short, run, out, before) =
      rw (alloc_chunks-fault e) (no_fit, last_free s.bitmap n size j y (omega arith) run out)
    where
      no_fit : NoFit n s
      no_fit c lt = elim (dec_lt c j) [
        | yes h ↦ not-FreeRun_of_Blocked s.bitmap n c (before c (omega arith) h)
        | no h ↦ no_room s.bitmap n size c j y (omega arith) lt short out
      ]
  outcome_of_search size (some none) e blocked = rw (alloc_chunks-null e) (
    (λ c lt. not-FreeRun_of_Blocked s.bitmap n c (blocked c (omega arith) (omega arith))),
    last_used s.bitmap n size (blocked last_chunk (omega arith) (omega arith)),
    refl,
  )
  outcome_of_search size (some (some c)) e (lo, hi, run, before) = rw (alloc_chunks-found c e) (
    c,
    omega arith,
    run,
    (λ j lt. not-FreeRun_of_Blocked s.bitmap n j (before j (omega arith) lt)),
    refl,
    refl,
  )

alloc-multiple : (n : ℕ) (s : Heap) → alloc (pos (n * min_alloc)) s ≡ alloc_chunks (pos n) s
unfolding alloc has_rem int_div
alloc-multiple n s =
    let whole : n * min_alloc % min_alloc ≡ 0 = omega arith in
    let count : n * min_alloc / min_alloc ≡ n = omega arith in rw (whole, count)

-- On a bitmap of `NUM_ELE` chunks, a request for a multiple of 8 bytes, `n` chunks, ends in one of
-- three ways: it takes the first `n` free chunks in a row, and nothing else changes but their marks
-- and the count at their start; it returns NULL and changes nothing, if no `n` chunks in a row are
-- free and the last chunk is in use; or it reads past the bitmap, if no `n` chunks in a row are free
-- and the last chunk is free.
pub alloc_first_fit :
    (n : ℕ) (s : Heap)
    → length s.bitmap ≡ num_ele
    → AllocOutcome n s (alloc (pos (n * min_alloc)) s)
alloc_first_fit n s size =
    rw (alloc-multiple n s)
      (outcome_of_search n s size _ refl (search_from-SearchSpec s.bitmap n num_ele 0))
