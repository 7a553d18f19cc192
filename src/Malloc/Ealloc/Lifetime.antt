-- ===== src/Malloc/Ealloc/Lifetime.antt =====
-- A block of ealloc.c from `alloc` to `dealloc`, beside the blocks of all pages.
use os_codes.Common.{
  ℕ, ◌+◌, ◌-◌, ◌*◌, ◌/◌, ◌≤◌, ◌<◌, ◌≡◌, ◌≢◌, ◌⊎◌, inl, inr, sym, ap, ◌∙◌, subst, some, arith,
  get_elem?, get_elem?-set_self, get_elem?-set_ne, inside_of, pos, ℕ_discrete,
}
use os_codes.Malloc.Chunks.{int_div}
use os_codes.Malloc.Chunks.Search.{FreeRun}
use os_codes.Malloc.Chunks.Tiling.{block_bounds}
use os_codes.Malloc.Chunks.Apart.{free_and_live_apart}
use os_codes.Malloc.Ealloc.{Page, Pages, num_ele, min_alloc, map_page, alloc}
use os_codes.Malloc.Ealloc.Outcome.{GotFrom, Mapped, alloc-Outcome}
use os_codes.Malloc.Ealloc.Blocks.{PageIsValid, IsValid, Unmapped, Mapped-IsValid}

-- A live block: `x` chunks from the address `b` on, with `x` not 0.
abbrev pub Block : Pages → ℕ → ℕ → Type 0
Block s b x =
    (j : ℕ) × (p : Page) × (d : ℕ) × (j < s.curr_pages_used)
    × (get_elem? s.pages j ≡ some p)
    × (get_elem? p.how_many d ≡ some x)
    × (0 < x)
    × (b ≡ p.ptr + d * min_alloc)

-- A new page ends no block.
Mapped-Block : (page : ℕ) (s u : Pages) (b x : ℕ) → Mapped page s u → Block s b x → Block u b x
unfolding map_page
Mapped-Block page s u b x (inl same) live = subst (λ v. Block v b x) (sym same) live
Mapped-Block page s u b x (inr (p, next, same)) (j, q, d, used, at, live, px, address) =
    let differ : s.curr_pages_used ≢ j = omega arith in
    subst (λ v. Block v b x) (sym same)
      (j, q, d, omega arith, get_elem?-set_ne s.pages _ differ ∙ at, live, px, address)

module _ (p : Page) (valid : PageIsValid p) where
  run_inside : (c n : ℕ) → 0 < n → FreeRun p.bitmap c n → c + n ≤ num_ele
  run_inside c n pn run =
      let bound = inside_of p.bitmap (c + (n - 1)) (run (n - 1) (omega arith)) in
      omega (arith, bound, valid.size)

  block_inside : (d x : ℕ) → get_elem? p.how_many d ≡ some x → d + x ≤ num_ele
  block_inside d x e =
      omega (arith, block_bounds p.bitmap p.how_many 0 d x valid.tiled e, valid.size)

module _ (n a : ℕ) (u t : Pages) (inv : IsValid u) (pn : 0 < n) where
  got_apart :
      (b x : ℕ)
      → GotFrom n u a t
      → Block u b x
      → Block t b x × ((a + n * min_alloc ≤ b) ⊎ (b + x * min_alloc ≤ a))
  got_apart b x (j, p, q, used, at, (c, lt, run, from, same), result)
        (k, r, d, k_used, at_k, live, px, address) =
      elim (ℕ_discrete j k) [
        | no differ ↦
            let fits_a = run_inside p (inv.valid j p at) c n pn run in
            let fits_b = block_inside r (inv.valid k r at_k) d x live in
            (
              subst (λ v. Block v b x) (sym result)
                  (k, r, d, k_used, get_elem?-set_ne u.pages q differ ∙ at_k, live, px, address),
              elim (inv.apart j k p r used k_used differ at at_k) [
                | inl h ↦ inl (omega arith)
                | inr h ↦ inr (omega arith)
              ],
            )
        | yes j_k ↦
            let r_p : p ≡ r = cc (at, at_k, j_k) in
            let live_p : get_elem? p.how_many d ≡ some x =
              subst (λ (v : Page). get_elem? v.how_many d ≡ some x) (sym r_p) live in
            let ptr_p : b ≡ p.ptr + d * min_alloc =
              subst (λ (v : Page). b ≡ v.ptr + d * min_alloc) (sym r_p) address in
            let chunks : (c + n ≤ d) ⊎ (d + x ≤ c) =
              free_and_live_apart p.bitmap p.how_many c n d x (inv.valid j p at).tiled run live_p pn
                px in
            let differ : c ≢ d = omega arith in
            (
              subst (λ v. Block v b x) (sym result)
                  (
                    j,
                    q,
                    d,
                    used,
                    get_elem?-set_self u.pages j q (inside_of u.pages j at),
                    subst (λ (v : Page). get_elem? v.how_many d ≡ some x) (sym same)
                        (get_elem?-set_ne p.how_many _ differ ∙ live_p),
                    px,
                    ptr_p ∙ ap (λ (v : Page). v.ptr + d * min_alloc) (sym same),
                  ),
              elim chunks [ inl h ↦ inl (omega arith) | inr h ↦ inr (omega arith) ],
            )
      ]

pub chunks_of : (n : ℕ) → int_div (pos (n * min_alloc)) min_alloc ≡ pos n
unfolding int_div
chunks_of n = let count : n * min_alloc / min_alloc ≡ n = omega arith in rw count

module _ (n page : ℕ) (s : Pages) (a : ℕ) (t : Pages) (inv : IsValid s) (unmapped : Unmapped page s)
    (pn : 0 < n) (e : alloc (pos (n * min_alloc)) (some page) s ≡ some (some a, t)) where
  pub got : (u : Pages) × Mapped page s u × GotFrom n u a t
  got = let all = alloc-Outcome (pos (n * min_alloc)) page s in rw (chunks_of n, e) at all

  -- A block of at least one chunk that `alloc` gives out without a read past the end of a row of the bitmap
  -- shares no byte with a live block of any page, and every live block is still live afterwards, if the
  -- page that `mmap` gives shares no byte with a page in use. A call that reads past the end of a row (the
  -- model stops there) is not covered: in the code it can give out a block that leaves its page.
  pub alloc_lives_apart :
      (b x : ℕ) → Block s b x → Block t b x × ((a + n * min_alloc ≤ b) ⊎ (b + x * min_alloc ≤ a))
  alloc_lives_apart b x live =
      let (u, mapped, from) = got in
      got_apart n a u t (Mapped-IsValid s inv page unmapped u mapped) pn b x from
        (Mapped-Block page s u b x mapped live)
