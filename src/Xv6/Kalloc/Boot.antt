-- ===== src/Xv6/Kalloc/Boot.antt =====
-- `kinit1` and `kinit2`: the pages that the allocator starts with.
use os_codes.Common.{
  ℕ, zero, suc, ◌+◌, ◌-◌, ◌*◌, ◌/◌, ◌%◌, ◌≤◌, ◌<◌, ◌≡◌, inl, inr, refl, sym, subst, false,
  Bool-cases, Option, some, List, [], ◌∷◌, length, arith, leb,
}
use os_codes.Xv6.Kalloc.{
  Kmem, is_bad, put, link, kfree, free_from, freerange, kinit1, page_round_up, word, page_size,
  phys_top, kern_base,
}
use os_codes.Xv6.Kalloc.Pages.{Chain, Absent, Inv, Chain-put, put_self}

abbrev Below : ℕ → List ℕ → Type 0
Below v [] = Unit
Below v (p ∷ pages) = (p < v) × Below v pages

Below-Absent : (v : ℕ) (pages : List ℕ) → Below v pages → Absent v pages
Below-Absent v [] h = tt
Below-Absent v (p ∷ pages) (less, h) = (ground arith, Below-Absent v pages h)

Below-more : (v w : ℕ) (pages : List ℕ) → v ≤ w → Below v pages → Below w pages
Below-more v w [] le h = tt
Below-more v w (p ∷ pages) le (less, h) = (omega arith, Below-more v w pages le h)

kfree_uncounted :
    (e v : ℕ) (s : Kmem) → is_bad e v ≡ false → s.counting ≡ false → kfree e v s ≡ some (link v s)
unfolding kfree
kfree_uncounted e v s h c = rw (h, c)

link-Inv :
    (e v : ℕ) (s : Kmem) (pages : List ℕ)
    → Inv e s pages
    → is_bad e v ≡ false
    → v < word
    → 0 < v
    → s.counting ≡ false
    → Absent v pages
    → Inv e (link v s) (v ∷ pages)
link-Inv e v s pages inv ok small positive c absent = record {
  chain = (
    refl,
    positive,
    subst (λ k. Chain (put s.next v s.freelist) k pages) (sym (put_self s.next v s.freelist))
        (Chain-put s.next s.freelist v s.freelist pages absent inv.chain),
  );
  good = (ok, small, λ k. absurd (cc (k, c)), absent, inv.good);
}

aligned : (a : ℕ) → (page_round_up a % page_size ≡ 0) × (a ≤ page_round_up a)
aligned a = (omega arith, omega arith)

ok_in_range :
    (e p : ℕ)
    → kern_base ≤ e
    → e ≤ p
    → p % page_size ≡ 0
    → p < kern_base + phys_top
    → is_bad e p ≡ false
ok_in_range e p he hp ha hb = ground arith

abbrev Freed : ℕ → ℕ → Option Kmem → Type 0
Freed e n r =
    (t : Kmem) × (pages : List ℕ) × (r ≡ some t)
    × (length pages ≡ n)
    × (t.counting ≡ false)
    × Inv e t pages

free_from-Freed :
    (fuel e vend p : ℕ) (s : Kmem) (pages : List ℕ)
    → kern_base ≤ e
    → e ≤ p
    → p % page_size ≡ 0
    → vend ≤ kern_base + phys_top
    → vend < p + page_size * suc fuel
    → Below p pages
    → s.counting ≡ false
    → Inv e s pages
    → Freed e (length pages + (vend - p) / page_size) (free_from fuel e vend p s)
unfolding free_from
free_from-Freed zero e vend p s pages he hp ha hv hf below c inv =
    (s, pages, refl, omega arith, c, inv)
free_from-Freed (suc fuel) e vend p s pages he hp ha hv hf below c inv =
    elim (Bool-cases (leb (p + page_size) vend)) [
      | inl on ↦
          let fits : p + page_size ≤ vend = ground arith in
          let ok : is_bad e p ≡ false = ok_in_range e p he hp ha (omega arith) in
          let inv₁ : Inv e (link p s) (p ∷ pages) =
            link-Inv e p s pages inv ok (omega arith) (omega arith) c
              (Below-Absent p pages below) in
          let (t, ps, run, size, c₁, inv₂) =
            free_from-Freed fuel e vend (p + page_size) (link p s) (p ∷ pages) he (omega arith)
              (omega arith) hv (omega arith)
              (omega arith, Below-more p (p + page_size) pages (omega arith) below) c inv₁ in
          (t, ps, rw (on, kfree_uncounted e p s ok c) run, omega (arith, size), c₁, inv₂)
      | inr off ↦
          let ends : vend < p + page_size = ground arith in (s, pages, rw off, omega arith, c, inv)
    ]

-- `kinit1` on an empty free list does not panic when its range lies in the kernel's part of memory
-- behind `end`: each whole page of the range becomes a free page.
pub kinit1_total :
    (e vstart vend : ℕ) (s : Kmem)
    → kern_base ≤ e
    → e ≤ vstart
    → vend ≤ kern_base + phys_top
    → s.freelist ≡ 0
    → (t : Kmem) × (pages : List ℕ) × (kinit1 e vstart vend s ≡ some t)
      × (length pages ≡ (vend - page_round_up vstart) / page_size)
      × (t.counting ≡ false)
      × Inv e t pages
unfolding kinit1 freerange
kinit1_total e vstart vend s he hs hv empty =
    let start : Kmem = record s { use_lock = false; counting = false; count = λ i. 0 } in
    let (al, le) = aligned vstart in
    let (t, pages, run, size, c, inv) =
      free_from-Freed (vend / page_size) e vend (page_round_up vstart) start [] he (omega arith) al
        hv (omega arith) tt refl (record { chain = empty; good = tt }) in
    (t, pages, run, omega (arith, size), c, inv)
