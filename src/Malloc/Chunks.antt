-- ===== src/Malloc/Chunks.antt =====
-- The loops of malloc-code/alloc.c over its chunk bitmap (`true` is a free chunk) and over memory.
-- A read past the end of the bitmap is `none`: C leaves its value open.
pub mod Fill
pub mod Search
pub mod Tiling
pub mod Apart
use os_codes.Common.{
  ℕ, zero, suc, ◌+◌, ◌-◌, ◌*◌, ◌/◌, ◌%◌, Bool, true, false, ◌&&◌, Option, none, some, List, ltb,
  leb, ◌==◌, if◌then◌else◌, get_elem?, set, ℤ, pos, negsuc, pos_part,
}

-- C's `a / b` and `a % b != 0` for a positive constant `b`: the quotient is cut towards 0.
unfoldable pub int_div : ℤ → ℕ → ℤ
int_div (pos a) b = pos (a / b)
int_div (negsuc a) b = if suc a / b == 0 then pos 0 else negsuc (suc a / b - 1)

unfoldable pub has_rem : ℤ → ℕ → Bool
has_rem (pos a) b = ltb 0 (a % b)
has_rem (negsuc a) b = ltb 0 (suc a % b)

-- `x == req_mem` for the counter `x`
abbrev pub is_count : ℕ → ℤ → Bool
is_count x (pos n) = x == n
is_count x (negsuc n) = false

-- while(x < req_mem){ if(!bitmap[i+x]) break; x++; }, with `left` rounds to go; the result is `x`
unfoldable pub free_run : List Bool → ℕ → ℕ → ℕ → Option ℕ
free_run bm i zero x = some x
free_run bm i (suc left) x = elim (get_elem? bm (i + x)) [
  | none ↦ none
  | some free ↦ let rest = free_run bm i left (x + 1) in if free then rest else some x
]

-- The loop over `i`, with `k` rounds to go: the first chunk at which `req` chunks are free.
unfoldable pub search_from : List Bool → ℤ → ℕ → ℕ → Option (Option ℕ)
search_from bm req zero i = some none
search_from bm req (suc k) i = elim (free_run bm i (pos_part req) 0) [
  | none ↦ none
  | some x ↦
      let rest = search_from bm req k (i + 1) in if is_count x req then some (some i) else rest
]

-- x--; while(x >= 0){ bitmap[i+x] = 0; x--; }, entered with `x` chunks to mark
unfoldable pub mark_used : List Bool → ℕ → ℕ → List Bool
mark_used bm i zero = bm
mark_used bm i (suc x) = mark_used (set bm (i + x) false) i x

-- for(int i = 0 ; i < x; i++) bitmap[chunk_num + i] = 1, with `left` rounds to go
unfoldable pub mark_free : List Bool → ℕ → ℕ → ℕ → List Bool
mark_free bm c zero i = bm
mark_free bm c (suc left) i = mark_free (set bm (c + i) true) c left (i + 1)

-- memset(at, v, n): memory is a function from addresses to bytes
abbrev pub memset : (ℕ → ℕ) → ℕ → ℕ → ℕ → ℕ → ℕ
memset mem at v n addr = if leb at addr && ltb addr (at + n) then v else mem addr
