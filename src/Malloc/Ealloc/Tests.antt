-- ===== src/Malloc/Ealloc/Tests.antt =====
-- Runs of malloc-code/ealloc.c, and its theorems at concrete pages.
use os_codes.Common.{
  ℕ, zero, suc, ◌+◌, ◌*◌, ◌≤◌, ◌<◌, ◌≡◌, ◌⊎◌, inr, refl, ap, ◌∙◌, subst, true, false, none, some,
  List, [], ◌∷◌, arith, get_elem?, pos, replicate,
}
use os_codes.Malloc.Chunks.{memset, has_rem, search_from, free_run, int_div, mark_used}
use os_codes.Malloc.Chunks.Fill.{fill}
use os_codes.Malloc.Chunks.Search.{FreeRun}
use os_codes.Malloc.Chunks.Tiling.{Tiled-replicate}
use os_codes.Malloc.Alloc.{map_failed}
use os_codes.Malloc.Ealloc.{
  Page, Pages, num_ele, min_alloc, alloc, dealloc, alloc_pages, alloc_in_use, alloc_on_page,
  or_later, take_run,
}
use os_codes.Malloc.Ealloc.Outcome.{taken, Mapped}
use os_codes.Malloc.Ealloc.Blocks.{PageIsValid, IsValid, Unmapped, alloc-IsValid}
use os_codes.Malloc.Ealloc.Lifetime.{Block, alloc_lives_apart}
use os_codes.Malloc.Ealloc.Return.{dealloc_restores}
use os_codes.Malloc.Ealloc.Failure.{alloc_after_failure}

-- A page that was never mapped, and one with a block of three chunks at its start.
abbrev unused : Page
unused = record { bitmap = replicate 16 true; how_many = replicate 16 0; ptr = 0 }

abbrev one_block : Page
one_block = record {
  bitmap = false ∷ false ∷ false ∷ replicate 13 true;
  how_many = 3 ∷ replicate 15 0;
  ptr = 8192;
}

abbrev others : List Page
others = unused ∷ unused ∷ unused ∷ []

abbrev state : Pages
state = record { pages = one_block ∷ others; curr_pages_used = 1; mem = λ _. 7 }

unused-PageIsValid : PageIsValid unused
unused-PageIsValid = record { size = refl; tiled = Tiled-replicate 16 }

one_block-PageIsValid : PageIsValid one_block
one_block-PageIsValid = record {
  size = refl;
  tiled = inr (refl, omega arith, (refl, refl, (refl, refl, Tiled-replicate 13)));
}

state-valid : (j : ℕ) (p : Page) → get_elem? state.pages j ≡ some p → PageIsValid p
state-valid zero p e = let same : one_block ≡ p = cc in subst PageIsValid same one_block-PageIsValid
state-valid (suc zero) p e = let same : unused ≡ p = cc in subst PageIsValid same unused-PageIsValid
state-valid (suc (suc zero)) p e =
    let same : unused ≡ p = cc in subst PageIsValid same unused-PageIsValid
state-valid (suc (suc (suc zero))) p e =
    let same : unused ≡ p = cc in subst PageIsValid same unused-PageIsValid
state-valid (suc (suc (suc (suc j)))) p e = absurd (cc e)

state-IsValid : IsValid state
state-IsValid = record {
  valid = state-valid;
  apart = λ i j p q i_used j_used differ at_i at_j. absurd (differ (omega arith));
}

Unmapped-state : Unmapped 16384 state
Unmapped-state zero p used e = let same : 8192 ≡ p.ptr = cc in inr (omega arith)
Unmapped-state (suc i) p used e = absurd (omega arith)

abbrev after : Pages
after = record state { pages = taken 2 3 one_block ∷ others }

two_chunks : alloc (pos (2 * min_alloc)) (some 16384) state ≡ some (some 8960, after)
unfolding alloc fill has_rem search_from free_run int_div take_run mark_used alloc_pages
    alloc_in_use alloc_on_page or_later
two_chunks = refl

after-IsValid : IsValid after
after-IsValid =
    alloc-IsValid (pos (2 * min_alloc)) 16384 state (some 8960) after state-IsValid Unmapped-state
      two_chunks

state-Block : Block state 8192 3
state-Block = (0, one_block, 0, omega arith, refl, refl, omega arith, refl)

alloc_lives_apart_example :
    Block after 8192 3 × ((8960 + 2 * min_alloc ≤ 8192) ⊎ (8192 + 3 * min_alloc ≤ 8960))
alloc_lives_apart_example =
    alloc_lives_apart 2 16384 state 8960 after state-IsValid Unmapped-state (omega arith) two_chunks
      8192 3 state-Block

dealloc_restores_example :
    (u : Pages) × Mapped 16384 state u
    × (dealloc 8960 after ≡ some (record u { mem = memset u.mem 8960 0 16 }))
dealloc_restores_example =
    dealloc_restores 2 16384 state 8960 after state-IsValid Unmapped-state (omega arith) two_chunks

unused_free : FreeRun unused.bitmap 0 num_ele
unused_free z lt = ap (get_elem? (replicate 16 true)) (omega arith) ∙ free_at 16 z lt
  where
    free_at : (n z : ℕ) → z < n → get_elem? (replicate n true) z ≡ some true
    free_at zero z lt = absurd (omega arith)
    free_at (suc n) zero lt = refl
    free_at (suc n) (suc z) lt = free_at n z (omega arith)

alloc_after_failure_example :
    (t : Pages) × (alloc
        (pos (1 * min_alloc))
        none
        (record { pages = unused ∷ others; curr_pages_used = 0; mem = λ _. 7 })
      ≡ some (none, t))
    × (u : Pages) × (alloc (pos (1 * min_alloc)) none t ≡ some (some map_failed, u))
alloc_after_failure_example =
    alloc_after_failure 1 1 unused others (λ _. 7) none unused_free (omega arith)
