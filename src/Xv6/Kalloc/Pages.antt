-- ===== src/Xv6/Kalloc/Pages.antt =====
-- The free pages as a list.
use os_codes.Common.{ℕ, ◌<◌, ◌≡◌, ◌≢◌, sym, ◌∙◌, subst, Bool, true, false, List, [], ◌∷◌, arith}
use os_codes.Xv6.Kalloc.{Kmem, is_bad, index, put, word}

-- `r` is the head of the list `pages`.
abbrev pub Chain : (ℕ → ℕ) → ℕ → List ℕ → Type 0
Chain next r [] = r ≡ 0
Chain next r (p ∷ pages) = (r ≡ p) × (0 < p) × Chain next (next p) pages

abbrev pub Absent : ℕ → List ℕ → Type 0
Absent v [] = Unit
Absent v (p ∷ pages) = (v ≢ p) × Absent v pages

-- What is known of each free page.
abbrev pub Good : ℕ → Bool → (ℕ → ℕ) → List ℕ → Type 0
Good e counting count [] = Unit
Good e counting count (p ∷ pages) =
    (is_bad e p ≡ false)
    × (p < word)
    × (counting ≡ true → count (index p) ≡ 0)
    × Absent p pages
    × Good e counting count pages

pub record Inv (e : ℕ) (s : Kmem) (pages : List ℕ) : Type 0 where
  pub chain : Chain s.next s.freelist pages
  pub good : Good e s.counting s.count pages

pub put_self : (f : ℕ → ℕ) (i v : ℕ) → put f i v i ≡ v
put_self f i v = ground arith

pub put_other : (f : ℕ → ℕ) (i v j : ℕ) → j ≢ i → put f i v j ≡ f j
put_other f i v j h = ground arith

pub Chain-put :
    (next : ℕ → ℕ) (r v w : ℕ) (pages : List ℕ)
    → Absent v pages
    → Chain next r pages
    → Chain (put next v w) r pages
Chain-put next r v w [] h c = c
Chain-put next r v w (p ∷ pages) (n, h) (e, q, c) = (
  e,
  q,
  subst (λ k. Chain (put next v w) k pages) (sym (put_other next v w p (λ (k : p ≡ v). n (sym k))))
      (Chain-put next (next p) v w pages h c),
)

pub index_injective :
    {p q : ℕ} (e : ℕ)
    → is_bad e p ≡ false
    → is_bad e q ≡ false
    → p < word
    → q < word
    → index p ≡ index q
    → p ≡ q
index_injective e hp hq bp bq h = ground arith

-- A new value for the counts leaves those of the free pages at 0.
pub Good-counts :
    (e : ℕ) (counting : Bool) (f g : ℕ → ℕ) (pages : List ℕ)
    → ((i : ℕ) → counting ≡ true → f i ≡ 0 → g i ≡ 0)
    → Good e counting f pages
    → Good e counting g pages
Good-counts e counting f g [] h good = tt
Good-counts e counting f g (p ∷ pages) h (ok, small, zeroed, absent, good) =
    (ok, small, λ c. h (index p) c (zeroed c), absent, Good-counts e counting f g pages h good)

-- A page with references is not free.
pub Good-Absent :
    (e v : ℕ) (counting : Bool) (f : ℕ → ℕ) (pages : List ℕ)
    → counting ≡ true
    → 0 < f (index v)
    → Good e counting f pages
    → Absent v pages
Good-Absent e v counting f [] c h good = tt
Good-Absent e v counting f (p ∷ pages) c h (ok, small, zeroed, absent, good) = (
  λ (same : v ≡ p).
      let none_left : f (index v) ≡ 0 = subst (λ k. f (index k) ≡ 0) (sym same) (zeroed c) in
      omega arith,
  Good-Absent e v counting f pages c h good,
)

-- The first reference to a page that was free is none to the others.
pub Good-take :
    (e v n : ℕ) (counting : Bool) (f : ℕ → ℕ) (pages : List ℕ)
    → is_bad e v ≡ false
    → v < word
    → Absent v pages
    → Good e counting f pages
    → Good e counting (put f (index v) n) pages
Good-take e v n counting f [] hv bv absent good = tt
Good-take e v n counting f (p ∷ pages) hv bv (differ, absent) (ok, small, zeroed, fresh, good) = (
  ok,
  small,
  λ c.
      put_other f (index v) n (index p)
        (λ (same : index p ≡ index v). differ (sym (index_injective e ok hv small bv same)))
      ∙ zeroed c,
  fresh,
  Good-take e v n counting f pages hv bv absent good,
)
