-- ===== src/Malloc/Chunks/Search.antt =====
-- What the search loops find: the first run of free chunks, or a read past the bitmap.
use os_codes.Common.{
  ℕ, zero, suc, ◌+◌, ◌≤◌, ◌<◌, ◌≡◌, refl, Bool, true, false, Option, none, some, List, arith,
  get_elem?, pos, range_cons, ◌≢◌, ℕ_discrete,
}
use os_codes.Malloc.Chunks.{free_run, search_from}

-- What a read of the bitmap gives.
data Read (o : Option Bool) : Type 0 where
  outside : o ≡ none → Read o
  free : o ≡ some true → Read o
  used : o ≡ some false → Read o

read : (o : Option Bool) → Read o
read none = outside refl
read (some true) = free refl
read (some false) = used refl

-- The `n` chunks from `i` on lie in the bitmap and are free.
abbrev pub FreeRun : List Bool → ℕ → ℕ → Type 0
FreeRun bm i n = (z : ℕ) → z < n → get_elem? bm (i + z) ≡ some true

-- Fewer than `n` chunks from `c` on are free, because of a chunk that is in use.
abbrev pub Blocked : List Bool → ℕ → ℕ → Type 0
Blocked bm n c = (y : ℕ) × (y < n) × FreeRun bm c y × (get_elem? bm (c + y) ≡ some false)

-- The counter after the inner loop, and why it stopped there.
abbrev RunSpec : List Bool → ℕ → ℕ → ℕ → Option ℕ → Type 0
RunSpec bm i left x (some y) =
    (x ≤ y)
    × (y ≤ x + left)
    × ((z : ℕ) → x ≤ z → z < y → get_elem? bm (i + z) ≡ some true)
    × (y < x + left → get_elem? bm (i + y) ≡ some false)
RunSpec bm i left x none =
    (y : ℕ) × (x ≤ y)
    × (y < x + left)
    × ((z : ℕ) → x ≤ z → z < y → get_elem? bm (i + z) ≡ some true)
    × (get_elem? bm (i + y) ≡ none)

module _ (bm : List Bool) (i left x : ℕ) (here : get_elem? bm (i + x) ≡ some true) where
  below_or_here :
      (y : ℕ)
      → ((z : ℕ) → x + 1 ≤ z → z < y → get_elem? bm (i + z) ≡ some true)
      → (z : ℕ) → x ≤ z
      → z < y
      → get_elem? bm (i + z) ≡ some true
  below_or_here y = range_cons (λ z. get_elem? bm (i + z) ≡ some true) x y here

  RunSpec-step : (r : Option ℕ) → RunSpec bm i left (x + 1) r → RunSpec bm i (suc left) x r
  RunSpec-step (some y) (a, b, c, d) =
      (omega arith, omega arith, below_or_here y c, λ h. d (omega arith))
  RunSpec-step none (y, a, b, c, d) = (y, omega arith, omega arith, below_or_here y c, d)

module _ (bm : List Bool) (i left x : ℕ) where
  free_run-outside : get_elem? bm (i + x) ≡ none → free_run bm i (suc left) x ≡ none
  unfolding free_run
  free_run-outside e = rw (e, free_run)

  free_run-free :
      get_elem? bm (i + x) ≡ some true → free_run bm i (suc left) x ≡ free_run bm i left (x + 1)
  unfolding free_run
  free_run-free e = rw (e, free_run)

  free_run-used : get_elem? bm (i + x) ≡ some false → free_run bm i (suc left) x ≡ some x
  unfolding free_run
  free_run-used e = rw (e, free_run)

free_run-RunSpec : (bm : List Bool) (i left x : ℕ) → RunSpec bm i left x (free_run bm i left x)
free_run-RunSpec bm i zero x =
    unfold free_run in
    (omega arith, omega arith, λ z a b. absurd (omega arith), λ h. absurd (omega arith))
free_run-RunSpec bm i (suc left) x = elim (read (get_elem? bm (i + x))) [
  | outside e ↦
      rw (free_run-outside bm i left x e)
        (x, omega arith, omega arith, λ z a b. absurd (omega arith), e)
  | free e ↦
      rw (free_run-free bm i left x e)
        (RunSpec-step bm i left x e _ (free_run-RunSpec bm i left (x + 1)))
  | used e ↦
      rw (free_run-used bm i left x e)
        (omega arith, omega arith, λ z a b. absurd (omega arith), λ h. e)
]

-- The three ways in which the search over `k` chunks from `i` on can end.
abbrev pub SearchSpec : List Bool → ℕ → ℕ → ℕ → Option (Option ℕ) → Type 0
SearchSpec bm n k i none =
    (j : ℕ) × (y : ℕ) × (i ≤ j)
    × (j < i + k)
    × (y < n)
    × FreeRun bm j y
    × (get_elem? bm (j + y) ≡ none)
    × ((c : ℕ) → i ≤ c → c < j → Blocked bm n c)
SearchSpec bm n k i (some none) = (c : ℕ) → i ≤ c → c < i + k → Blocked bm n c
SearchSpec bm n k i (some (some c)) =
    (i ≤ c) × (c < i + k) × FreeRun bm c n × ((j : ℕ) → i ≤ j → j < c → Blocked bm n j)

module _ (bm : List Bool) (n k i : ℕ) where
  -- Chunk `i` is passed by.
  SearchSpec-step :
      Blocked bm n i
      → (r : Option (Option ℕ)) → SearchSpec bm n k (i + 1) r
      → SearchSpec bm n (suc k) i r
  SearchSpec-step blocked none (j, y, a, b, c, d, e, f) =
      (j, y, omega arith, omega arith, c, d, e, range_cons (Blocked bm n) i j blocked f)
  SearchSpec-step blocked (some none) f =
      range_cons (Blocked bm n) i (i + suc k) blocked (λ m lo hi. f m lo (omega arith))
  SearchSpec-step blocked (some (some c)) (a, b, d, f) =
      (omega arith, omega arith, d, range_cons (Blocked bm n) i c blocked f)

  search_from-outside : free_run bm i n 0 ≡ none → search_from bm (pos n) (suc k) i ≡ none
  unfolding search_from
  search_from-outside e = rw (e, search_from)

  search_from-found :
      (x : ℕ)
      → free_run bm i n 0 ≡ some x
      → x ≡ n
      → search_from bm (pos n) (suc k) i ≡ some (some i)
  unfolding search_from
  search_from-found x e same = rw (e, search_from) (ground arith)

  search_from-passed :
      (x : ℕ)
      → free_run bm i n 0 ≡ some x
      → x ≢ n
      → search_from bm (pos n) (suc k) i ≡ search_from bm (pos n) k (i + 1)
  unfolding search_from
  search_from-passed x e differ = rw (e, search_from) (ground arith)

  -- A run that stops short of `n` stops at a chunk in use.
  stop-Blocked : (x : ℕ) → RunSpec bm i n 0 (some x) → x ≢ n → Blocked bm n i
  stop-Blocked x (a, b, c, d) differ =
      (x, omega arith, (λ z h. c z (omega arith) h), d (omega arith))

  run-SearchSpec :
      SearchSpec bm n k (i + 1) (search_from bm (pos n) k (i + 1))
      → (r : Option ℕ) → free_run bm i n 0 ≡ r
      → RunSpec bm i n 0 r
      → SearchSpec bm n (suc k) i (search_from bm (pos n) (suc k) i)
  run-SearchSpec rest none e (y, a, b, c, d) = rw (search_from-outside e) (
    i,
    y,
    omega arith,
    omega arith,
    omega arith,
    (λ z h. c z (omega arith) h),
    d,
    λ m lo hi. absurd (omega arith),
  )
  run-SearchSpec rest (some x) e spec = elim (ℕ_discrete x n) [
    | yes same ↦ rw (search_from-found x e same) (
      omega arith,
      omega arith,
      (λ z h. spec.2 z (omega arith) (omega arith)),
      λ m lo hi. absurd (omega arith),
    )
    | no differ ↦
        rw (search_from-passed x e differ) (SearchSpec-step (stop-Blocked x spec differ) _ rest)
  ]

-- The search ends as `SearchSpec` says.
pub search_from-SearchSpec :
    (bm : List Bool) (n k i : ℕ) → SearchSpec bm n k i (search_from bm (pos n) k i)
search_from-SearchSpec bm n zero i = unfold search_from in λ c lo hi. absurd (omega arith)
search_from-SearchSpec bm n (suc k) i =
    run-SearchSpec bm n k i (search_from-SearchSpec bm n k (i + 1)) _ refl
      (free_run-RunSpec bm i n 0)
