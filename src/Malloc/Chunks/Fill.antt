-- ===== src/Malloc/Chunks/Fill.antt =====
-- What the two marking loops leave: one run of chunks overwritten.
use os_codes.Common.{
  ℕ, zero, suc, ◌+◌, ◌<◌, ◌≡◌, refl, ap, ◌∙◌, Bool, true, false, ◌&&◌, List, [], ◌∷◌, arith, ltb,
  leb, if◌then◌else◌, length, set, get_or,
}
use os_codes.Malloc.Chunks.{mark_used, mark_free}

-- The list with the `n` entries from `i` on overwritten by `v`.
unfoldable pub fill : {A : Type 0} → List A → ℕ → ℕ → A → List A
fill [] i n v = []
fill (x ∷ xs) (suc i) n v = x ∷ fill xs i n v
fill (x ∷ xs) zero zero v = x ∷ xs
fill (x ∷ xs) zero (suc n) v = v ∷ fill xs zero n v

module _ {A : Type 0} where
  pub fill-zero : (xs : List A) (i : ℕ) (v : A) → fill xs i 0 v ≡ xs
  unfolding fill
  fill-zero [] i v = refl
  fill-zero (x ∷ xs) zero v = refl
  fill-zero (x ∷ xs) (suc i) v = ap (λ l. x ∷ l) (fill-zero xs i v)

  -- A write just below the run, and one just above it, extend it.
  pub fill-set_below :
      (xs : List A) (i n : ℕ) (v : A) → fill (set xs i v) (suc i) n v ≡ fill xs i (suc n) v
  unfolding fill
  fill-set_below [] i n v = refl
  fill-set_below (x ∷ xs) zero n v = refl
  fill-set_below (x ∷ xs) (suc i) n v = ap (λ l. x ∷ l) (fill-set_below xs i n v)

  pub fill-set_above :
      (xs : List A) (j i n : ℕ) (v : A) → j ≡ i + n → fill (set xs j v) i n v ≡ fill xs i (suc n) v
  unfolding fill
  fill-set_above [] j i n v e = refl
  fill-set_above (x ∷ xs) zero zero zero v e = rw (fill-zero xs 0 v)
  fill-set_above (x ∷ xs) (suc j) zero zero v e = absurd (omega arith)
  fill-set_above (x ∷ xs) zero zero (suc n) v e = absurd (omega arith)
  fill-set_above (x ∷ xs) (suc j) zero (suc n) v e =
      ap (λ l. v ∷ l) (fill-set_above xs j zero n v (omega arith))
  fill-set_above (x ∷ xs) zero (suc i) n v e = absurd (omega arith)
  fill-set_above (x ∷ xs) (suc j) (suc i) n v e =
      ap (λ l. x ∷ l) (fill-set_above xs j i n v (omega arith))

  pub length-fill : (xs : List A) (i n : ℕ) (v : A) → length (fill xs i n v) ≡ length xs
  unfolding fill
  length-fill [] i n v = refl
  length-fill (x ∷ xs) (suc i) n v = ap suc (length-fill xs i n v)
  length-fill (x ∷ xs) zero zero v = refl
  length-fill (x ∷ xs) zero (suc n) v = ap suc (length-fill xs zero n v)

  pub get_or-fill :
      (xs : List A) (i n j : ℕ) (v d : A)
      → j < length xs
      → get_or (fill xs i n v) j d ≡ (if leb i j && ltb j (i + n) then v else get_or xs j d)
  unfolding fill
  get_or-fill [] i n j v d h = absurd (omega arith)
  get_or-fill (x ∷ xs) (suc i) n zero v d h = ground arith
  get_or-fill (x ∷ xs) (suc i) n (suc j) v d h = ground (arith, get_or-fill xs i n j v d)
  get_or-fill (x ∷ xs) zero zero j v d h = ground arith
  get_or-fill (x ∷ xs) zero (suc n) zero v d h = ground arith
  get_or-fill (x ∷ xs) zero (suc n) (suc j) v d h = ground (arith, get_or-fill xs zero n j v d)

pub mark_used-eq-fill : (bm : List Bool) (i x : ℕ) → mark_used bm i x ≡ fill bm i x false
unfolding mark_used
mark_used-eq-fill bm i zero = rw (fill-zero bm i false)
mark_used-eq-fill bm i (suc x) =
    mark_used-eq-fill (set bm (i + x) false) i x ∙ fill-set_above bm (i + x) i x false refl

pub mark_free-eq-fill : (bm : List Bool) (c n i : ℕ) → mark_free bm c n i ≡ fill bm (c + i) n true
unfolding mark_free
mark_free-eq-fill bm c zero i = rw (fill-zero bm (c + i) true)
mark_free-eq-fill bm c (suc n) i =
    mark_free-eq-fill (set bm (c + i) true) c n (i + 1)
    ∙ ap (λ k. fill (set bm (c + i) true) k n true) (omega arith)
    ∙ fill-set_below bm (c + i) n true
