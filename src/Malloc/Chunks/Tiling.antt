-- ===== src/Malloc/Chunks/Tiling.antt =====
-- The invariant that ties `bitmap` to `how_many`: the bitmap is a row of free chunks and blocks.
use os_codes.Common.{
  ℕ, zero, suc, ◌+◌, ◌-◌, ◌≤◌, ◌<◌, ◌≡◌, refl, sym, ap, ap₂, Bool, true, false, some, List, [], ◌∷◌,
  arith, length, get_elem?, set, ◌⊎◌, inl, inr, replicate,
}
use os_codes.Malloc.Chunks.Fill.{fill, fill-zero}
use os_codes.Malloc.Chunks.Search.{FreeRun}

-- `open_chunks` chunks of the current block are still to come. A block of `n` chunks is in use, its
-- first chunk has `n` in `how_many` and the others have 0; a free chunk has 0.
abbrev pub Tiled : ℕ → List Bool → List ℕ → Type 0
Tiled zero [] [] = Unit
Tiled (suc k) [] hs = ⊥
Tiled k (b ∷ bs) [] = ⊥
Tiled k [] (h ∷ hs) = ⊥
Tiled zero (b ∷ bs) (h ∷ hs) =
    ((b ≡ true) × (h ≡ 0) × Tiled zero bs hs) ⊎ ((b ≡ false) × (0 < h) × Tiled (h - 1) bs hs)
Tiled (suc k) (b ∷ bs) (h ∷ hs) = (b ≡ false) × (h ≡ 0) × Tiled k bs hs

FreeRun-tail : (b : Bool) (bs : List Bool) (c n : ℕ) → FreeRun (b ∷ bs) (suc c) n → FreeRun bs c n
FreeRun-tail b bs c n run z h = let e : suc c + z ≡ suc (c + z) = omega arith in rw e at (run z h)

FreeRun-shrink : (b : Bool) (bs : List Bool) (n : ℕ) → FreeRun (b ∷ bs) 0 (suc n) → FreeRun bs 0 n
FreeRun-shrink b bs n run z h =
    let e : 0 + suc z ≡ suc (0 + z) = omega arith in rw e at (run (suc z) (omega arith))

FreeRun-head : (b : Bool) (bs : List Bool) (n : ℕ) → FreeRun (b ∷ bs) 0 (suc n) → b ≡ true
FreeRun-head b bs n run = cc (run 0 (omega arith))

-- Free chunks become the rest of a block.
Tiled-cover :
    (bs : List Bool) (hs : List ℕ) (n : ℕ)
    → Tiled 0 bs hs
    → FreeRun bs 0 n
    → Tiled n (fill bs 0 n false) hs
unfolding fill
Tiled-cover bs hs zero t run = rw (fill-zero bs 0 false) t
Tiled-cover [] hs (suc n) t run = absurd (cc (run 0 (omega arith)))
Tiled-cover (b ∷ bs) [] (suc n) t run = elim t [ ]
Tiled-cover (b ∷ bs) (h ∷ hs) (suc n) (inl (a, z, t)) run =
    (refl, z, Tiled-cover bs hs n t (FreeRun-shrink b bs n run))
Tiled-cover (b ∷ bs) (h ∷ hs) (suc n) (inr (a, z, t)) run = absurd (cc (FreeRun-head b bs n run))

-- A free run becomes a block.
pub Tiled-fill :
    (bm : List Bool) (hm : List ℕ) (k c n : ℕ)
    → Tiled k bm hm
    → FreeRun bm c (suc n)
    → Tiled k (fill bm c (suc n) false) (set hm c (suc n))
unfolding fill
Tiled-fill [] hm k c n t run = absurd (cc (run 0 (omega arith)))
Tiled-fill (b ∷ bs) [] zero c n t run = elim t [ ]
Tiled-fill (b ∷ bs) [] (suc k) c n t run = elim t [ ]
Tiled-fill (b ∷ bs) (h ∷ hs) zero zero n (inl (a, z, t)) run = inr (
  refl,
  omega arith,
  let e : suc n - 1 ≡ n = omega arith in rw e (Tiled-cover bs hs n t (FreeRun-shrink b bs n run)),
)
Tiled-fill (b ∷ bs) (h ∷ hs) zero zero n (inr (a, z, t)) run = absurd (cc (FreeRun-head b bs n run))
Tiled-fill (b ∷ bs) (h ∷ hs) (suc k) zero n (a, z, t) run = absurd (cc (FreeRun-head b bs n run))
Tiled-fill (b ∷ bs) (h ∷ hs) zero (suc c) n (inl (a, z, t)) run =
    inl (a, z, Tiled-fill bs hs 0 c n t (FreeRun-tail b bs c (suc n) run))
Tiled-fill (b ∷ bs) (h ∷ hs) zero (suc c) n (inr (a, z, t)) run =
    inr (a, z, Tiled-fill bs hs (h - 1) c n t (FreeRun-tail b bs c (suc n) run))
Tiled-fill (b ∷ bs) (h ∷ hs) (suc k) (suc c) n (a, z, t) run =
    (a, z, Tiled-fill bs hs k c n t (FreeRun-tail b bs c (suc n) run))

-- The chunks that are still to come in a block become free.
Tiled-uncover :
    (bs : List Bool) (hs : List ℕ) (n : ℕ) → Tiled n bs hs → Tiled 0 (fill bs 0 n true) hs
unfolding fill
Tiled-uncover bs hs zero t = rw (fill-zero bs 0 true) t
Tiled-uncover [] hs (suc n) t = elim t [ ]
Tiled-uncover (b ∷ bs) [] (suc n) t = elim t [ ]
Tiled-uncover (b ∷ bs) (h ∷ hs) (suc n) (a, z, t) = inl (refl, z, Tiled-uncover bs hs n t)

-- A block becomes a free run.
pub Tiled-unfill :
    (bm : List Bool) (hm : List ℕ) (k c n : ℕ)
    → Tiled k bm hm
    → get_elem? hm c ≡ some (suc n)
    → Tiled k (fill bm c (suc n) true) (set hm c 0)
unfolding fill
Tiled-unfill [] [] zero c n t e = absurd (cc e)
Tiled-unfill [] (h ∷ hs) zero c n t e = elim t [ ]
Tiled-unfill [] hs (suc k) c n t e = elim t [ ]
Tiled-unfill (b ∷ bs) [] zero c n t e = elim t [ ]
Tiled-unfill (b ∷ bs) [] (suc k) c n t e = elim t [ ]
Tiled-unfill (b ∷ bs) (h ∷ hs) zero zero n (inl (a, z, t)) e = absurd (cc (e, z))
Tiled-unfill (b ∷ bs) (h ∷ hs) zero zero n (inr (a, z, t)) e =
    inl (refl, refl, let m : h - 1 ≡ n = ground arith in Tiled-uncover bs hs n (rw m at t))
Tiled-unfill (b ∷ bs) (h ∷ hs) (suc k) zero n (a, z, t) e = absurd (cc (e, z))
Tiled-unfill (b ∷ bs) (h ∷ hs) zero (suc c) n (inl (a, z, t)) e =
    inl (a, z, Tiled-unfill bs hs 0 c n t e)
Tiled-unfill (b ∷ bs) (h ∷ hs) zero (suc c) n (inr (a, z, t)) e =
    inr (a, z, Tiled-unfill bs hs (h - 1) c n t e)
Tiled-unfill (b ∷ bs) (h ∷ hs) (suc k) (suc c) n (a, z, t) e = (a, z, Tiled-unfill bs hs k c n t e)

-- A free chunk starts no block.
pub Tiled-free_zero :
    (bm : List Bool) (hm : List ℕ) (k c : ℕ)
    → Tiled k bm hm
    → get_elem? bm c ≡ some true
    → get_elem? hm c ≡ some 0
Tiled-free_zero [] hm k c t e = absurd (cc e)
Tiled-free_zero (b ∷ bs) [] zero c t e = elim t [ ]
Tiled-free_zero (b ∷ bs) [] (suc k) c t e = elim t [ ]
Tiled-free_zero (b ∷ bs) (h ∷ hs) zero zero (inl (a, z, t)) e = ap some z
Tiled-free_zero (b ∷ bs) (h ∷ hs) zero zero (inr (a, z, t)) e = absurd (cc (a, e))
Tiled-free_zero (b ∷ bs) (h ∷ hs) (suc k) zero (a, z, t) e = absurd (cc (a, e))
Tiled-free_zero (b ∷ bs) (h ∷ hs) zero (suc c) (inl (a, z, t)) e = Tiled-free_zero bs hs 0 c t e
Tiled-free_zero (b ∷ bs) (h ∷ hs) zero (suc c) (inr (a, z, t)) e =
    Tiled-free_zero bs hs (h - 1) c t e
Tiled-free_zero (b ∷ bs) (h ∷ hs) (suc k) (suc c) (a, z, t) e = Tiled-free_zero bs hs k c t e

-- The two lists are as long as each other.
pub Tiled-length : (bm : List Bool) (hm : List ℕ) (k : ℕ) → Tiled k bm hm → length bm ≡ length hm
Tiled-length [] [] k t = refl
Tiled-length [] (h ∷ hs) zero t = elim t [ ]
Tiled-length [] (h ∷ hs) (suc k) t = elim t [ ]
Tiled-length (b ∷ bs) [] zero t = elim t [ ]
Tiled-length (b ∷ bs) [] (suc k) t = elim t [ ]
Tiled-length (b ∷ bs) (h ∷ hs) zero (inl (a, z, t)) = ap suc (Tiled-length bs hs 0 t)
Tiled-length (b ∷ bs) (h ∷ hs) zero (inr (a, z, t)) = ap suc (Tiled-length bs hs (h - 1) t)
Tiled-length (b ∷ bs) (h ∷ hs) (suc k) (a, z, t) = ap suc (Tiled-length bs hs k t)

open_bound : (bm : List Bool) (hm : List ℕ) (k : ℕ) → Tiled k bm hm → k ≤ length bm
open_bound bm hm zero t = omega arith
open_bound [] hm (suc k) t = elim t [ ]
open_bound (b ∷ bs) [] (suc k) t = elim t [ ]
open_bound (b ∷ bs) (h ∷ hs) (suc k) (a, z, t) = omega (arith, open_bound bs hs k t)

-- A block lies inside the bitmap.
pub block_bounds :
    (bm : List Bool) (hm : List ℕ) (k c n : ℕ)
    → Tiled k bm hm
    → get_elem? hm c ≡ some n
    → c + n ≤ length bm
block_bounds [] [] zero c n t e = absurd (cc e)
block_bounds [] (h ∷ hs) zero c n t e = elim t [ ]
block_bounds [] hm (suc k) c n t e = elim t [ ]
block_bounds (b ∷ bs) [] zero c n t e = elim t [ ]
block_bounds (b ∷ bs) [] (suc k) c n t e = elim t [ ]
block_bounds (b ∷ bs) (h ∷ hs) zero zero n (inl (a, z, t)) e = ground arith
block_bounds (b ∷ bs) (h ∷ hs) zero zero n (inr (a, z, t)) e =
    let same : h ≡ n = cc in omega (arith, open_bound bs hs (h - 1) t)
block_bounds (b ∷ bs) (h ∷ hs) (suc k) zero n (a, z, t) e = ground arith
block_bounds (b ∷ bs) (h ∷ hs) zero (suc c) n (inl (a, z, t)) e =
    omega (arith, block_bounds bs hs 0 c n t e)
block_bounds (b ∷ bs) (h ∷ hs) zero (suc c) n (inr (a, z, t)) e =
    omega (arith, block_bounds bs hs (h - 1) c n t e)
block_bounds (b ∷ bs) (h ∷ hs) (suc k) (suc c) n (a, z, t) e =
    omega (arith, block_bounds bs hs k c n t e)

open_used :
    (bm : List Bool) (hm : List ℕ) (k z : ℕ) → Tiled k bm hm → z < k → get_elem? bm z ≡ some false
open_used bm hm zero z t lt = absurd (omega arith)
open_used [] hm (suc k) z t lt = elim t [ ]
open_used (b ∷ bs) [] (suc k) z t lt = elim t [ ]
open_used (b ∷ bs) (h ∷ hs) (suc k) zero (a, e, t) lt = ap some a
open_used (b ∷ bs) (h ∷ hs) (suc k) (suc z) (a, e, t) lt = open_used bs hs k z t (omega arith)

-- All chunks of a block are in use; `d` is the chunk `c + z`.
pub block_used :
    (bm : List Bool) (hm : List ℕ) (k c n d z : ℕ)
    → Tiled k bm hm
    → get_elem? hm c ≡ some n
    → z < n
    → d ≡ c + z
    → get_elem? bm d ≡ some false
block_used [] [] zero c n d z t e lt at = absurd (cc e)
block_used [] (h ∷ hs) zero c n d z t e lt at = elim t [ ]
block_used [] hm (suc k) c n d z t e lt at = elim t [ ]
block_used (b ∷ bs) [] zero c n d z t e lt at = elim t [ ]
block_used (b ∷ bs) [] (suc k) c n d z t e lt at = elim t [ ]
block_used (b ∷ bs) (h ∷ hs) zero zero n d z (inl (a, f, t)) e lt at = absurd (ground arith)
block_used (b ∷ bs) (h ∷ hs) zero zero n zero z (inr (a, f, t)) e lt at = ap some a
block_used (b ∷ bs) (h ∷ hs) zero zero n (suc d) z (inr (a, f, t)) e lt at =
    let same : h ≡ n = cc in open_used bs hs (h - 1) d t (omega arith)
block_used (b ∷ bs) (h ∷ hs) (suc k) zero n d z (a, f, t) e lt at = absurd (ground arith)
block_used (b ∷ bs) (h ∷ hs) k (suc c) n zero z t e lt at = absurd (omega arith)
block_used (b ∷ bs) (h ∷ hs) zero (suc c) n (suc d) z (inl (a, f, t)) e lt at =
    block_used bs hs 0 c n d z t e lt (omega arith)
block_used (b ∷ bs) (h ∷ hs) zero (suc c) n (suc d) z (inr (a, f, t)) e lt at =
    block_used bs hs (h - 1) c n d z t e lt (omega arith)
block_used (b ∷ bs) (h ∷ hs) (suc k) (suc c) n (suc d) z (a, f, t) e lt at =
    block_used bs hs k c n d z t e lt (omega arith)

-- Marking a free run as used, and then as free, changes nothing.
pub fill-restore :
    (bm : List Bool) (c n : ℕ) → FreeRun bm c n → fill (fill bm c n false) c n true ≡ bm
unfolding fill
fill-restore [] c n run = refl
fill-restore (b ∷ bs) zero zero run = refl
fill-restore (b ∷ bs) zero (suc n) run =
    ap₂ ◌∷◌ (sym (FreeRun-head b bs n run)) (fill-restore bs 0 n (FreeRun-shrink b bs n run))
fill-restore (b ∷ bs) (suc c) n run =
    ap (λ l. b ∷ l) (fill-restore bs c n (FreeRun-tail b bs c n run))

pub Tiled-replicate : (n : ℕ) → Tiled 0 (replicate n true) (replicate n 0)
Tiled-replicate zero = tt
Tiled-replicate (suc n) = inl (refl, refl, Tiled-replicate n)
