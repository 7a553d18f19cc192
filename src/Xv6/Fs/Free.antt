-- ===== src/Xv6/Fs/Free.antt =====
-- The free map: `balloc` takes the first free block.
use os_codes.Common.{
  ℕ, zero, suc, ◌+◌, ◌*◌, ◌/◌, ◌≤◌, ◌<◌, ◌≡◌, refl, subst, true, false, Option, none, some, ltb,
  Bool-cases, Option-cases, inl, inr, arith, dec_lt, range_cons,
}
use os_codes.Xv6.Fs.{Volume, bpb, put, bzero, scan_bits, scan_block, scan_map, balloc}

-- Every block from `lo` on and before `hi` is used.
abbrev pub AllUsed : Volume → ℕ → ℕ → Type 0
AllUsed v lo hi = (x : ℕ) → lo ≤ x → x < hi → x < v.size → v.used x ≡ true

-- The first free block from `lo` on and before `hi`, if there is one.
abbrev pub FirstFree : Volume → ℕ → ℕ → Option ℕ → Type 0
FirstFree v lo hi none = AllUsed v lo hi
FirstFree v lo hi (some x) =
    (lo ≤ x) × (x < hi) × (x < v.size) × (v.used x ≡ false) × AllUsed v lo x

FirstFree-used :
    (v : Volume) (lo hi : ℕ) (o : Option ℕ)
    → v.used lo ≡ true
    → FirstFree v (lo + 1) hi o
    → FirstFree v lo hi o
FirstFree-used v lo hi none used all = λ x le lt inside.
    range_cons (λ y. y < v.size → v.used y ≡ true) lo hi (λ h. used) (λ m a b c. all m a b c) x le
      lt inside
FirstFree-used v lo hi (some x) used (le, lt, inside, free, all) = (
  omega arith,
  lt,
  inside,
  free,
  λ y le_y lt_y in_y.
      range_cons (λ z. z < v.size → v.used z ≡ true) lo x (λ h. used) (λ m a b c. all m a b c) y
        le_y lt_y in_y,
)

module _ (v : Volume) where
  scan_bits-FirstFree :
      (b k bi hi : ℕ) → hi ≡ b + bi + k → FirstFree v (b + bi) hi (scan_bits v b k bi)
  unfolding scan_bits
  scan_bits-FirstFree b zero bi hi e = λ x le lt inside. absurd (omega arith)
  scan_bits-FirstFree b (suc k) bi hi e = elim (dec_lt (b + bi) v.size) [
    | no outside ↦
        let test : ltb (b + bi) v.size ≡ false = ground arith in
        rw test (λ x le lt inside. absurd (omega arith))
    | yes inside ↦
        let test : ltb (b + bi) v.size ≡ true = ground arith in
        elim (Bool-cases (v.used (b + bi))) [
          | inr free ↦
              rw (test, free)
                (omega arith, omega arith, inside, free, λ x le lt in_x. absurd (omega arith))
          | inl used ↦
              let next : b + (bi + 1) ≡ b + bi + 1 = omega arith in
              let rest = scan_bits-FirstFree b k (bi + 1) hi (omega arith) in
              rw (test, used)
                (FirstFree-used v (b + bi) hi (scan_bits v b k (bi + 1)) used (rw next at rest))
        ]
  ]

  FirstFree-append :
      (lo mid hi : ℕ) (o : Option ℕ)
      → lo ≤ mid
      → AllUsed v lo mid
      → FirstFree v mid hi o
      → FirstFree v lo hi o
  FirstFree-append lo mid hi none le before all = λ x le_x lt in_x. elim (dec_lt x mid) [
    | yes h ↦ before x le_x h in_x
    | no h ↦ all x (omega arith) lt in_x
  ]
  FirstFree-append lo mid hi (some x) le before (le_x, lt, inside, free, all) = (
    omega arith,
    lt,
    inside,
    free,
    λ y le_y lt_y in_y. elim (dec_lt y mid) [
      | yes h ↦ before y le_y h in_y
      | no h ↦ all y (omega arith) lt_y in_y
    ],
  )

  scan_block-FirstFree : (b : ℕ) → FirstFree v b (b + bpb) (scan_block v b)
  unfolding scan_block
  scan_block-FirstFree b =
      let start : b + 0 ≡ b = omega arith in
      subst (λ x. FirstFree v x (b + bpb) (scan_bits v b bpb 0)) start
        (scan_bits-FirstFree b bpb 0 (b + bpb) (omega arith))

  scan_map-outside : (k b : ℕ) → v.size ≤ b → scan_map v k b ≡ none
  unfolding scan_map
  scan_map-outside zero b h = refl
  scan_map-outside (suc k) b h = let test : ltb b v.size ≡ false = ground arith in rw test

  scan_map-next :
      (k b : ℕ) → b < v.size → scan_block v b ≡ none → scan_map v (suc k) b ≡ scan_map v k (b + bpb)
  unfolding scan_map
  scan_map-next k b h e = let test : ltb b v.size ≡ true = ground arith in rw (test, e, scan_map)

  scan_map-found :
      (k b x : ℕ) → b < v.size → scan_block v b ≡ some x → scan_map v (suc k) b ≡ some x
  unfolding scan_map
  scan_map-found k b x h e = let test : ltb b v.size ≡ true = ground arith in rw (test, e, scan_map)

  scan_map-FirstFree : (k b : ℕ) → v.size ≤ b + k * bpb → FirstFree v b v.size (scan_map v k b)
  scan_map-FirstFree zero b enough =
      rw (scan_map-outside zero b (omega arith)) (λ x le lt inside. absurd (omega arith))
  scan_map-FirstFree (suc k) b enough = elim (dec_lt b v.size) [
    | no outside ↦
        rw (scan_map-outside (suc k) b (omega arith)) (λ x le lt inside. absurd (omega arith))
    | yes inside ↦
        let bits = scan_block-FirstFree b in
        elim (Option-cases (scan_block v b)) [
          | inl full ↦ rw (scan_map-next k b inside full) (
              FirstFree-append b (b + bpb) v.size (scan_map v k (b + bpb)) (omega arith)
                (rw full at bits) (scan_map-FirstFree k (b + bpb) (omega arith)))
          | inr (x, found) ↦
              let (le, lt, in_x, free, all) = rw found at bits in
              rw (scan_map-found k b x inside found) (le, in_x, in_x, free, all)
        ]
  ]

-- The volume after `balloc` took block `b`.
abbrev pub taken : ℕ → Volume → Volume
taken b v = bzero b (record v { used = put v.used b true })

-- What `balloc` gives.
abbrev pub Allocated : Volume → Option (ℕ × Volume) → Type 0
Allocated v none = AllUsed v 0 v.size
Allocated v (some (b, w)) = (b < v.size) × (v.used b ≡ false) × AllUsed v 0 b × (w ≡ taken b v)

balloc-of :
    (v : Volume) (o : Option ℕ)
    → scan_map v (v.size / bpb + 1) 0 ≡ o
    → FirstFree v 0 v.size o
    → Allocated v (balloc v)
unfolding balloc
balloc-of v none e h = rw (e, balloc) h
balloc-of v (some b) e (le, lt, inside, free, all) = rw (e, balloc) (inside, free, all, refl)

-- `balloc` takes the free block with the least number, marks it and zeroes it, and changes nothing else; it
-- panics if every block of the disk is used.
pub balloc-Allocated : (v : Volume) → Allocated v (balloc v)
balloc-Allocated v = balloc-of v _ refl (scan_map-FirstFree v (v.size / bpb + 1) 0 (omega arith))
