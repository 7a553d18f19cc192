-- ===== src/Malloc/Chunks/Apart.antt =====
-- A run of free chunks and a block in use, on the bitmap.
use os_codes.Common.{
  ℕ, ◌+◌, ◌-◌, ◌≤◌, ◌<◌, ◌≡◌, ◌⊎◌, inl, inr, Bool, false, some, List, arith, get_elem?, dec_lt,
}
use os_codes.Malloc.Chunks.Search.{FreeRun}
use os_codes.Malloc.Chunks.Tiling.{Tiled, block_used}

-- They share no chunk.
pub free_and_live_apart :
    (bm : List Bool) (hm : List ℕ) (c n d x : ℕ)
    → Tiled 0 bm hm
    → FreeRun bm c n
    → get_elem? hm d ≡ some x
    → 0 < n
    → 0 < x
    → (c + n ≤ d) ⊎ (d + x ≤ c)
free_and_live_apart bm hm c n d x tiled run live pn px = elim (dec_lt d (c + n)) [
  | no far ↦ inl (omega arith)
  | yes near ↦ elim (dec_lt c (d + x)) [
    | no far ↦ inr (omega arith)
    | yes close ↦ elim (dec_lt c d) [
      | yes below ↦
          let at : c + (d - c) ≡ d = omega arith in
          absurd (cc (rw at at (run (d - c) (omega arith)), used d 0 (omega arith) (omega arith)))
      | no above ↦
          let at : c + 0 ≡ c = omega arith in
          absurd (cc (rw at at (run 0 pn), used c (c - d) (omega arith) (omega arith)))
    ]
  ]
]
  where
    used : (e z : ℕ) → z < x → e ≡ d + z → get_elem? bm e ≡ some false
    used e z lt at = block_used bm hm 0 d x e z tiled live lt at
