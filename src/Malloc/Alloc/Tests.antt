-- ===== src/Malloc/Alloc/Tests.antt =====
-- Runs of malloc-code/alloc.c, and its theorems at concrete heaps.
use os_codes.Common.{
  ◌+◌, ◌*◌, ◌≤◌, ◌≡◌, ◌⊎◌, inr, refl, true, false, none, some, ◌∷◌, arith, get_elem?, pos, negsuc,
  replicate,
}
use os_codes.Malloc.Chunks.{memset, has_rem, search_from, free_run, int_div, mark_used, mark_free}
use os_codes.Malloc.Chunks.Fill.{fill}
use os_codes.Malloc.Chunks.Tiling.{Tiled-replicate}
use os_codes.Malloc.Alloc.{
  Heap, min_alloc, alloc, dealloc, alloc_chunks, take_chunks, free_at, free_chunks,
}
use os_codes.Malloc.Alloc.Fit.{AllocOutcome, taken, alloc_first_fit}
use os_codes.Malloc.Alloc.Blocks.{IsValid, Block}
use os_codes.Malloc.Alloc.Lifetime.{alloc-disjoint, dealloc-alloc, alloc-zero_aliases}

-- A page with one block of three chunks at its start.
abbrev one_block : Heap
one_block = record {
  bitmap = false ∷ false ∷ false ∷ replicate 509 true;
  how_many = 3 ∷ replicate 511 0;
  ptr = 8192;
  mem = λ _. 7;
}

one_block-IsValid : IsValid one_block
one_block-IsValid = record {
  size = refl;
  tiled = inr (refl, omega arith, (refl, refl, (refl, refl, Tiled-replicate 509)));
}

one_block-Block : Block one_block 0 3
one_block-Block = record { counted = refl; nonempty = omega arith }

alloc_odd : alloc (pos 12) one_block ≡ some (none, one_block)
unfolding alloc has_rem search_from free_run int_div take_chunks mark_used alloc_chunks
alloc_odd = refl

alloc_negative : alloc (negsuc 7) one_block ≡ some (none, one_block)
unfolding alloc has_rem search_from free_run int_div take_chunks mark_used alloc_chunks
alloc_negative = refl

two_chunks : alloc (pos (2 * min_alloc)) one_block ≡ some (some 8216, taken 2 3 one_block)
unfolding alloc fill has_rem search_from free_run int_div take_chunks mark_used alloc_chunks
two_chunks = refl

alloc_first_fit_example : AllocOutcome 2 one_block (alloc (pos (2 * min_alloc)) one_block)
alloc_first_fit_example = alloc_first_fit 2 one_block refl

-- `dealloc` of the first block.
abbrev emptied : Heap
emptied = record {
  bitmap = replicate 512 true;
  how_many = replicate 512 0;
  ptr = 8192;
  mem = memset (λ _. 7) 8192 0 24;
}

first_returned : dealloc 8192 one_block ≡ some emptied
unfolding dealloc int_div free_at free_chunks mark_free
first_returned = refl

alloc-disjoint_example :
    Block (taken 2 3 one_block) 0 3
    × ((8216 + 2 * 8 ≤ 8192 + 0 * 8) ⊎ (8192 + 0 * 8 + 3 * 8 ≤ 8216))
alloc-disjoint_example =
    alloc-disjoint 2 one_block 8216 (taken 2 3 one_block) one_block-IsValid (omega arith) two_chunks
      0 3 one_block-Block

dealloc-alloc_example :
    dealloc 8216 (taken 2 3 one_block)
    ≡ some (record one_block { mem = memset one_block.mem 8216 0 (2 * 8) })
dealloc-alloc_example =
    dealloc-alloc 2 one_block 8216 (taken 2 3 one_block) one_block-IsValid (omega arith) two_chunks

alloc-zero_aliases_example :
    (alloc (pos 0) one_block ≡ some (some 8192, one_block))
    × (u : Heap) × (dealloc 8192 one_block ≡ some u)
    × (get_elem? u.how_many 0 ≡ some 0)
    × (u.bitmap ≡ fill one_block.bitmap 0 3 true)
alloc-zero_aliases_example = alloc-zero_aliases one_block 3 one_block-IsValid one_block-Block
