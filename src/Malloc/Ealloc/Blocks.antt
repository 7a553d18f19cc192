-- ===== src/Malloc/Ealloc/Blocks.antt =====
-- The invariant of ealloc.c: each page is a row of free chunks and blocks, and the pages in use lie apart.
use os_codes.Common.{
  ℕ, zero, suc, ◌+◌, ◌≤◌, ◌<◌, ◌≡◌, ◌≢◌, ◌⊎◌, inl, inr, refl, sym, ap, ◌∙◌, subst, subst₂, Option,
  none, some, List, arith, length, get_elem?, get_elem?-inside, get_elem?-set_self,
  get_elem?-set_ne, length-set, get_or, set, set-same, inside_of, false, ℤ, ℕ_discrete,
}
use os_codes.Malloc.Chunks.Fill.{length-fill, fill-zero}
use os_codes.Malloc.Chunks.Search.{FreeRun}
use os_codes.Malloc.Chunks.Tiling.{Tiled, Tiled-fill, Tiled-free_zero, Tiled-length}
use os_codes.Malloc.Ealloc.{Page, Pages, num_ele, page_size, map_page, alloc}
use os_codes.Malloc.Ealloc.Outcome.{taken, GotFrom, Mapped, Outcome, alloc-Outcome}

pub record PageIsValid (p : Page) : Type 0 where
  pub size : length p.bitmap ≡ num_ele
  pub tiled : Tiled 0 p.bitmap p.how_many

-- Two pages at `a` and at `b` share no byte.
abbrev pub Apart : ℕ → ℕ → Type 0
Apart a b = (a + page_size ≤ b) ⊎ (b + page_size ≤ a)

pub record IsValid (s : Pages) : Type 0 where
  pub valid : (j : ℕ) (p : Page) → get_elem? s.pages j ≡ some p → PageIsValid p
  pub apart :
      (i j : ℕ) (p q : Page)
      → i < s.curr_pages_used
      → j < s.curr_pages_used
      → i ≢ j
      → get_elem? s.pages i ≡ some p
      → get_elem? s.pages j ≡ some q
      → Apart p.ptr q.ptr

-- A page that `mmap` can give: it shares no byte with a page in use.
abbrev pub Unmapped : ℕ → Pages → Type 0
Unmapped page s =
    (i : ℕ) (p : Page) → i < s.curr_pages_used → get_elem? s.pages i ≡ some p → Apart page p.ptr

module _ (p : Page) (valid : PageIsValid p) (c : ℕ) (lt : c < num_ele) where
  pub counted : get_elem? p.how_many c ≡ some (get_or p.how_many c 0)
  counted =
      get_elem?-inside p.how_many c 0
        (omega (arith, Tiled-length p.bitmap p.how_many 0 valid.tiled, valid.size))

  pub count_zero : (n : ℕ) → FreeRun p.bitmap c (suc n) → get_or p.how_many c 0 ≡ 0
  count_zero n run =
      let e : c + 0 ≡ c = omega arith in
      let free = rw e at (run 0 (omega arith)) in
      cc (counted, Tiled-free_zero p.bitmap p.how_many 0 c valid.tiled free)

  pub taken-PageIsValid : (n : ℕ) → FreeRun p.bitmap c n → PageIsValid (taken n c p)
  taken-PageIsValid zero run = record {
    size = length-fill p.bitmap c 0 false ∙ valid.size;
    tiled =
        let same : get_or p.how_many c 0 + 0 ≡ get_or p.how_many c 0 = omega arith in
        rw (same, fill-zero p.bitmap c false, set-same p.how_many c _ counted) valid.tiled;
  }
  taken-PageIsValid (suc n) run = record {
    size = length-fill p.bitmap c (suc n) false ∙ valid.size;
    tiled =
        let none_yet : get_or p.how_many c 0 + suc n ≡ suc n = omega (arith, count_zero n run) in
        rw none_yet (Tiled-fill p.bitmap p.how_many 0 c n valid.tiled run);
  }

-- What stands at `i` after a write at `j`.
pub get_elem?-set_cases :
    {A : Type 0} (xs : List A) (j i : ℕ) (v w : A)
    → get_elem? (set xs j v) i ≡ some w
    → ((i ≡ j) × (v ≡ w)) ⊎ ((i ≢ j) × (get_elem? xs i ≡ some w))
get_elem?-set_cases xs j i v w e = elim (ℕ_discrete i j) [
  | yes same ↦
      let at : get_elem? (set xs j v) j ≡ some w =
        subst (λ k. get_elem? (set xs j v) k ≡ some w) same e in
      let bound : j < length (set xs j v) = inside_of (set xs j v) j at in
      inl (same, cc (at, get_elem?-set_self xs j v (omega (arith, length-set xs j v))))
  | no differ ↦ inr (differ, sym (get_elem?-set_ne xs v (λ x. differ (sym x))) ∙ e)
]

module _ (s : Pages) (inv : IsValid s) (j : ℕ) (p q : Page) (at : get_elem? s.pages j ≡ some p)
    (valid_q : PageIsValid q) where
  set-valid : (i : ℕ) (r : Page) → get_elem? (set s.pages j q) i ≡ some r → PageIsValid r
  set-valid i r e = elim (get_elem?-set_cases s.pages j i q r e) [
    | inl (here_, same) ↦ subst PageIsValid same valid_q
    | inr (differ, old) ↦ inv.valid i r old
  ]

  same_place :
      q.ptr ≡ p.ptr
      → (i : ℕ) (r : Page) → get_elem? (set s.pages j q) i ≡ some r
      → (r' : Page) × (get_elem? s.pages i ≡ some r') × (r'.ptr ≡ r.ptr)
  same_place same_ptr i r e = elim (get_elem?-set_cases s.pages j i q r e) [
    | inl (i_j, same) ↦
        (p, ap (get_elem? s.pages) i_j ∙ at, sym same_ptr ∙ ap (λ (x : Page). x.ptr) same)
    | inr (differ, old) ↦ (r, old, refl)
  ]

  -- A valid page in the place of another, at the same address.
  pub set-IsValid : q.ptr ≡ p.ptr → IsValid (record s { pages = set s.pages j q })
  set-IsValid same_ptr = record {
    valid = set-valid;
    apart = λ i k x y i_used k_used differ at_i at_k.
        let (x', old_x, ptr_x) = same_place same_ptr i x at_i in
        let (y', old_y, ptr_y) = same_place same_ptr k y at_k in
        subst₂ Apart ptr_x ptr_y (inv.apart i k x' y' i_used k_used differ old_x old_y);
  }

flip : (a b : ℕ) → Apart a b → Apart b a
flip a b (inl h) = inr h
flip a b (inr h) = inl h

module _ (s : Pages) (inv : IsValid s) (page : ℕ) (unmapped : Unmapped page s) where
  map_page-IsValid :
      (p : Page)
      → get_elem? s.pages s.curr_pages_used ≡ some p
      → IsValid (map_page s.curr_pages_used p page s)
  unfolding map_page
  map_page-IsValid p next = record {
    valid =
        set-valid s inv s.curr_pages_used p (record p { ptr = page }) next
          (record {
            size = (inv.valid s.curr_pages_used p next).size;
            tiled = (inv.valid s.curr_pages_used p next).tiled;
          });
    apart = λ i k x y i_used k_used differ at_i at_k.
        both i k x y i_used k_used differ
          (get_elem?-set_cases s.pages s.curr_pages_used i (record p { ptr = page }) x at_i)
          (get_elem?-set_cases s.pages s.curr_pages_used k (record p { ptr = page }) y at_k);
  }
    where
      At : ℕ → Page → Type 0
      At i x =
          ((i ≡ s.curr_pages_used) × (record p { ptr = page } ≡ x))
          ⊎ ((i ≢ s.curr_pages_used) × (get_elem? s.pages i ≡ some x))

      both :
          (i k : ℕ) (x y : Page)
          → i < s.curr_pages_used + 1
          → k < s.curr_pages_used + 1
          → i ≢ k
          → At i x
          → At k y
          → Apart x.ptr y.ptr
      both i k x y i_used k_used differ (inl (i_new, x_new)) (inl (k_new, y_new)) =
          absurd (differ (i_new ∙ sym k_new))
      both i k x y i_used k_used differ (inl (i_new, x_new)) (inr (k_old, at_k)) =
          subst (λ a. Apart a y.ptr) (ap (λ (z : Page). z.ptr) x_new)
            (unmapped k y (omega arith) at_k)
      both i k x y i_used k_used differ (inr (i_old, at_i)) (inl (k_new, y_new)) = flip _ _ (
          subst (λ a. Apart a x.ptr) (ap (λ (z : Page). z.ptr) y_new)
            (unmapped i x (omega arith) at_i))
      both i k x y i_used k_used differ (inr (i_old, at_i)) (inr (k_old, at_k)) =
          inv.apart i k x y (omega arith) (omega arith) differ at_i at_k

  pub Mapped-IsValid : (u : Pages) → Mapped page s u → IsValid u
  Mapped-IsValid u (inl same) = subst IsValid (sym same) inv
  Mapped-IsValid u (inr (p, next, same)) = subst IsValid (sym same) (map_page-IsValid p next)

GotFrom-IsValid : (n a : ℕ) (u t : Pages) → IsValid u → GotFrom n u a t → IsValid t
GotFrom-IsValid n a u t inv (j, p, q, used, at, (c, lt, run, address, same), result) =
    subst IsValid (sym result) (
      set-IsValid u inv j p q at
        (subst PageIsValid (sym same) (taken-PageIsValid p (inv.valid j p at) c lt n run))
        (ap (λ (x : Page). x.ptr) same))

Outcome-IsValid :
    (n page : ℕ) (s : Pages) (r : Option (Option ℕ × Pages)) (a : Option ℕ) (t : Pages)
    → IsValid s
    → Unmapped page s
    → Outcome n page s r
    → r ≡ some (a, t)
    → IsValid t
Outcome-IsValid n page s none a t inv unmapped o e = absurd (cc e)
Outcome-IsValid n page s (some (none, u)) a t inv unmapped o e =
    let u_t : u ≡ t = cc in subst IsValid u_t (Mapped-IsValid s inv page unmapped u o)
Outcome-IsValid n page s (some (some b, v)) a t inv unmapped (u, mapped, got) e =
    let v_t : v ≡ t = cc in
    subst IsValid v_t (GotFrom-IsValid n b u v (Mapped-IsValid s inv page unmapped u mapped) got)

-- Whatever the request, `alloc` keeps the invariant, if the page that `mmap` gives shares no byte with a
-- page in use.
pub alloc-IsValid :
    (size : ℤ) (page : ℕ) (s : Pages) (a : Option ℕ) (t : Pages)
    → IsValid s
    → Unmapped page s
    → alloc size (some page) s ≡ some (a, t)
    → IsValid t
alloc-IsValid size page s a t inv unmapped e =
    Outcome-IsValid _ page s (alloc size (some page) s) a t inv unmapped (alloc-Outcome size page s)
      e
