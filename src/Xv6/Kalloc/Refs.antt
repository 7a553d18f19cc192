-- ===== src/Xv6/Kalloc/Refs.antt =====
-- What freeing, allocating and sharing a page does to its count and to the free pages.
use os_codes.Common.{
  ◌≢◌, ℕ, zero, suc, ◌+◌, ◌-◌, ◌/◌, ◌<◌, ◌≡◌, inl, inr, refl, sym, ap, ◌∙◌, subst, Bool, true,
  false, Bool-cases, none, some, List, [], ◌∷◌, get_elem?, arith, ◌>>=◌, ltb, leb, ◌==◌, ℕ_discrete,
}
use mathlib.Core.Option.{some-injective}
use os_codes.Xv6.Kalloc.{
  Kmem, is_bad, index, put, link, drop_ref, kfree, pop_page, kalloc, increment_ref_count, word,
  page_size, phys_top,
}
use os_codes.Xv6.Kalloc.Pages.{
  Chain, Absent, Good, Inv, Chain-put, Good-counts, Good-Absent, Good-take, put_self, put_other,
}

index_bound : (e v : ℕ) → is_bad e v ≡ false → index v < phys_top / page_size
index_bound e v h = ground arith

kfree_counted :
    (e v : ℕ) (s : Kmem) → is_bad e v ≡ false → s.counting ≡ true → kfree e v s ≡ drop_ref v s
unfolding kfree
kfree_counted e v s h c = rw (h, c)

drop_ref_last :
    (v : ℕ) (s : Kmem)
    → index v < phys_top / page_size
    → s.count (index v) ≡ 1
    → drop_ref v s ≡ some (link v (record s { count = put s.count (index v) 0 }))
unfolding drop_ref
drop_ref_last v s h c =
    let e : leb (phys_top / page_size) (index v) ≡ false = ground arith in rw (e, c)

drop_ref_shared :
    (v n : ℕ) (s : Kmem)
    → index v < phys_top / page_size
    → s.count (index v) ≡ suc (suc n)
    → drop_ref v s ≡ some (record s { count = put s.count (index v) (suc n) })
unfolding drop_ref
drop_ref_shared v n s h c =
    let e : leb (phys_top / page_size) (index v) ≡ false = ground arith in
    let some_left : ltb (suc (suc n)) 1 ≡ false = ground arith in
    let not_last : (suc (suc n) - 1 == 0) ≡ false = ground arith in
    let left : suc (suc n) - 1 ≡ suc n = omega arith in rw (e, c, some_left, not_last, left)

-- The page is put on the free list with its last reference, and no earlier.
abbrev pub pages_after : ℕ → ℕ → List ℕ → List ℕ
pages_after v zero pages = v ∷ pages
pages_after v (suc n) pages = pages

-- While references are counted, `kfree` of a page with `n + 1` references does not panic: `n` are left,
-- and the page joins the free pages if `n` is 0. No other count changes.
pub kfree_drops :
    (e v n : ℕ) (s : Kmem) (pages : List ℕ)
    → Inv e s pages
    → s.counting ≡ true
    → is_bad e v ≡ false
    → v < word
    → s.count (index v) ≡ suc n
    → (t : Kmem) × (kfree e v s ≡ some t)
      × (t.count (index v) ≡ n)
      × ((i : ℕ) → i ≢ index v → t.count i ≡ s.count i)
      × (t.counting ≡ true)
      × Inv e t (pages_after v n pages)
kfree_drops e v zero s pages inv c ok small h = (
  link v (record s { count = put s.count (index v) 0 }),
  kfree_counted e v s ok c ∙ drop_ref_last v s (index_bound e v ok) h,
  put_self s.count (index v) 0,
  λ i differ. put_other s.count (index v) 0 i differ,
  c,
  let absent : Absent v pages = Good-Absent e v s.counting s.count pages c (omega arith) inv.good in
      record {
        chain = (
          refl,
          ground arith,
          subst (λ k. Chain (put s.next v s.freelist) k pages) (sym (put_self s.next v s.freelist))
              (Chain-put s.next s.freelist v s.freelist pages absent inv.chain),
        );
        good = (
          ok,
          small,
          λ k. put_self s.count (index v) 0,
          absent,
          Good-counts e s.counting s.count (put s.count (index v) 0) pages (λ i k z. ground arith)
              inv.good,
        );
      },
)
kfree_drops e v (suc n) s pages inv c ok small h = (
  record s { count = put s.count (index v) (suc n) },
  kfree_counted e v s ok c ∙ drop_ref_shared v n s (index_bound e v ok) h,
  put_self s.count (index v) (suc n),
  λ i differ. put_other s.count (index v) (suc n) i differ,
  c,
  record {
    chain = inv.chain;
    good =
        Good-counts e s.counting s.count (put s.count (index v) (suc n)) pages
          (λ i k z. ground arith) inv.good;
  },
)

Good-at :
    (e v i : ℕ) (counting : Bool) (count : ℕ → ℕ) (pages : List ℕ)
    → Good e counting count pages
    → get_elem? pages i ≡ some v
    → (is_bad e v ≡ false) × (counting ≡ true → count (index v) ≡ 0)
Good-at e v i counting count [] good at = absurd (cc at)
Good-at e v zero counting count (p ∷ pages) (ok, small, zeroed, absent, good) at =
    subst (λ k. (is_bad e k ≡ false) × (counting ≡ true → count (index k) ≡ 0))
      (some-injective _ _ at) (ok, zeroed)
Good-at e v (suc i) counting count (p ∷ pages) (ok, small, zeroed, absent, good) at =
    Good-at e v i counting count pages good at

drop_ref_zero : (v : ℕ) (s : Kmem) → s.count (index v) ≡ 0 → drop_ref v s ≡ none
unfolding drop_ref
drop_ref_zero v s h = elim (Bool-cases (leb (phys_top / page_size) (index v))) [
  | inl e ↦ rw e
  | inr e ↦ rw (e, h)
]

-- A page that is on the free list cannot be freed once more: while references are counted, `kfree` of
-- it is a panic.
pub kfree_free_page :
    (e v i : ℕ) (s : Kmem) (pages : List ℕ)
    → Inv e s pages
    → s.counting ≡ true
    → get_elem? pages i ≡ some v
    → kfree e v s ≡ none
kfree_free_page e v i s pages inv c at =
    let (ok, zeroed) = Good-at e v i s.counting s.count pages inv.good at in
    kfree_counted e v s ok c ∙ drop_ref_zero v s (zeroed c)

kalloc_pop :
    (p : ℕ) (s : Kmem)
    → s.counting ≡ true
    → s.freelist ≡ p
    → 0 < p
    → index p < phys_top / page_size
    → kalloc s ≡ some (p, record s { freelist = s.next p; count = put s.count (index p) 1 })
unfolding kalloc pop_page
kalloc_pop p s c first positive h =
    let bound : leb (phys_top / page_size) (index p) ≡ false = ground arith in
    let found : (p == 0) ≡ false = ground arith in rw (first, found, c, bound)

-- While references are counted and there is a free page, `kalloc` gives the first one, which has one
-- reference then, and takes it off the list. No other count changes.
pub kalloc_total :
    (e p : ℕ) (s : Kmem) (pages : List ℕ)
    → Inv e s (p ∷ pages)
    → s.counting ≡ true
    → (t : Kmem) × (kalloc s ≡ some (p, t))
      × (t.count (index p) ≡ 1)
      × ((i : ℕ) → i ≢ index p → t.count i ≡ s.count i)
      × (t.counting ≡ true)
      × Inv e t pages
kalloc_total e p s pages inv c =
    let (first, positive, chain) = inv.chain in
    let (ok, small, zeroed, absent, good) = inv.good in
    (
      record s { freelist = s.next p; count = put s.count (index p) 1 },
      kalloc_pop p s c first positive (index_bound e p ok),
      put_self s.count (index p) 1,
      λ i differ. put_other s.count (index p) 1 i differ,
      c,
      record {
        chain = chain;
        good = Good-take e p 1 s.counting s.count pages ok small absent good;
      },
    )

-- Without free pages `kalloc` returns 0 and changes nothing.
pub kalloc_empty : (e : ℕ) (s : Kmem) → Inv e s [] → kalloc s ≡ some (0, s)
unfolding kalloc
kalloc_empty e s inv = rw inv.chain

pub increment_counted :
    (e v n : ℕ) (s : Kmem)
    → s.counting ≡ true
    → is_bad e v ≡ false
    → s.count (index v) ≡ suc n
    → increment_ref_count e v s ≡ some (record s { count = put s.count (index v) (suc (suc n)) })
unfolding increment_ref_count
increment_counted e v n s c ok h =
    let some_left : (suc n == 0) ≡ false = ground arith in
    let more : suc n + 1 ≡ suc (suc n) = omega arith in rw (ok, c, h, some_left, more)

-- `incrementRefCount` of a page that has references keeps the free pages, and `kfree` takes the new
-- reference back: the counts are what they were.
pub kfree-increment_ref_count :
    (e v n : ℕ) (s : Kmem)
    → s.counting ≡ true
    → is_bad e v ≡ false
    → s.count (index v) ≡ suc n
    → (t : Kmem) × ((increment_ref_count e v s >>= kfree e v) ≡ some t)
      × (t.freelist ≡ s.freelist)
      × ((i : ℕ) → t.count i ≡ s.count i)
kfree-increment_ref_count e v n s c ok h =
    let more : Kmem = record s { count = put s.count (index v) (suc (suc n)) } in
    (
      record s { count = put more.count (index v) (suc n) },
      ap (λ r. r >>= kfree e v) (increment_counted e v n s c ok h)
          ∙ kfree_counted e v more ok c
          ∙ drop_ref_shared v n more (index_bound e v ok)
              (put_self s.count (index v) (suc (suc n))),
      refl,
      λ i. elim (ℕ_discrete i (index v)) [
        | yes same ↦
            let here : put more.count (index v) (suc n) i ≡ suc n =
              subst (λ k. put more.count (index v) (suc n) k ≡ suc n) (sym same)
                (put_self more.count (index v) (suc n)) in
            here ∙ sym h ∙ ap s.count (sym same)
        | no differ ↦
            put_other more.count (index v) (suc n) i differ
            ∙ put_other s.count (index v) (suc (suc n)) i differ
      ],
    )
