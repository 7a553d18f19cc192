-- ===== src/Xv6/Bio/Slots.antt =====
-- The loops over the list of buffers: what they find and what they leave.
use os_codes.Common.{
  ℕ, ◌≡◌, ◌≢◌, refl, sym, ap, ◌∙◌, ◌⊎◌, inl, inr, true, false, not, ◌&&◌, none, some, List, [], ◌∷◌,
  ◌==◌, Bool-cases, Option-cases, arith,
}
use os_codes.Xv6.Bio.{Buf, find_slot, store, cached, unused, unlink}

-- `b` is one of the buffers.
abbrev pub In : Buf → List Buf → Type 0
In b [] = ⊥
In b (x ∷ xs) = (b ≡ x) ⊎ In b xs

pub find_slot-In :
    (i : ℕ) (bs : List Buf) (b : Buf) → find_slot i bs ≡ some b → In b bs × (b.slot ≡ i)
unfolding find_slot
find_slot-In i [] b e = absurd (cc e)
find_slot-In i (x ∷ xs) b e = elim (Bool-cases (x.slot == i)) [
  | inl hit ↦
      let same : x ≡ b = cc (rw hit at e) in
      (inl (sym same), ap (λ (y : Buf). y.slot) (sym same) ∙ ground (arith, hit))
  | inr miss ↦ let (there_, at) = find_slot-In i xs b (rw miss at e) in (inr there_, at)
]

pub cached-In :
    (dev n : ℕ) (bs : List Buf) (b : Buf)
    → cached dev n bs ≡ some b
    → In b bs × (b.dev ≡ dev) × (b.blockno ≡ n)
unfolding cached
cached-In dev n [] b e = absurd (cc e)
cached-In dev n (x ∷ xs) b e = elim (Bool-cases ((x.dev == dev) && (x.blockno == n))) [
  | inl hit ↦
      let same : b ≡ x = cc (rw hit at e) in
      (
        inl same,
        ap (λ (y : Buf). y.dev) same ∙ ground (arith, hit),
        ap (λ (y : Buf). y.blockno) same ∙ ground (arith, hit),
      )
  | inr miss ↦
      let (there_, same_dev, same_n) = cached-In dev n xs b (rw miss at e) in
      (inr there_, same_dev, same_n)
]

-- No buffer has the key that is not cached.
pub cached-none :
    (dev n : ℕ) (bs : List Buf) (b : Buf)
    → cached dev n bs ≡ none
    → In b bs
    → b.dev ≡ dev
    → b.blockno ≢ n
unfolding cached
cached-none dev n [] b e there_ same_dev same_n = absurd there_
cached-none dev n (x ∷ xs) b e there_ same_dev same_n =
    elim (Bool-cases ((x.dev == dev) && (x.blockno == n))) [
      | inl hit ↦ absurd (cc (rw hit at e))
      | inr miss ↦ elim there_ [
        | inl b_x ↦
            let dev_x : x.dev ≡ dev = ap (λ (y : Buf). y.dev) (sym b_x) ∙ same_dev in
            let n_x : x.blockno ≡ n = ap (λ (y : Buf). y.blockno) (sym b_x) ∙ same_n in
            ground (arith, miss, dev_x, n_x)
        | inr later ↦ cached-none dev n xs b (rw miss at e) later same_dev same_n
      ]
    ]

pub unused-In :
    (bs : List Buf) (b : Buf) → unused bs ≡ some b → In b bs × (b.refcnt ≡ 0) × (b.dirty ≡ false)
unfolding unused
unused-In [] b e = absurd (cc e)
unused-In (x ∷ xs) b e = elim (Option-cases (unused xs)) [
  | inr (u, later) ↦
      let same : u ≡ b = cc (rw later at e) in
      let (there_, free, clean) = unused-In xs b (later ∙ ap some same) in (inr there_, free, clean)
  | inl none_later ↦ elim (Bool-cases ((x.refcnt == 0) && not x.dirty)) [
    | inl hit ↦
        let same : b ≡ x = cc (rw (none_later, hit) at e) in
        (
          inl same,
          ap (λ (y : Buf). y.refcnt) same ∙ ground (arith, hit),
          ap (λ (y : Buf). y.dirty) same ∙ ground (arith, hit),
        )
    | inr miss ↦ absurd (cc (rw (none_later, miss) at e))
  ]
]

-- What a list holds after a buffer was stored.
pub store-In :
    (i : ℕ) (new : Buf) (bs : List Buf) (b : Buf)
    → In b (store i new bs)
    → (b ≡ new) ⊎ (In b bs × (b.slot ≢ i))
unfolding store
store-In i new [] b there_ = absurd there_
store-In i new (x ∷ xs) b (inl same) = elim (Bool-cases (x.slot == i)) [
  | inl hit ↦ inl (rw hit at same)
  | inr miss ↦
      let b_x : b ≡ x = rw miss at same in
      inr (inl b_x, λ e. ground (arith, miss, sym (ap (λ (y : Buf). y.slot) b_x) ∙ e))
]
store-In i new (x ∷ xs) b (inr later) = elim (store-In i new xs b later) [
  | inl same ↦ inl same
  | inr (there_, other) ↦ inr (inr there_, other)
]

pub In-store_other :
    (i : ℕ) (new : Buf) (bs : List Buf) (b : Buf) → In b bs → b.slot ≢ i → In b (store i new bs)
unfolding store
In-store_other i new [] b there_ other = absurd there_
In-store_other i new (x ∷ xs) b (inl same) other =
    let other_x : x.slot ≢ i = λ e. other (ap (λ (y : Buf). y.slot) same ∙ e) in
    let miss : (x.slot == i) ≡ false = ground arith in rw miss (inl same)
In-store_other i new (x ∷ xs) b (inr later) other = inr (In-store_other i new xs b later other)

pub In-store :
    (i : ℕ) (new : Buf) (bs : List Buf) (b : Buf) → In b bs → b.slot ≡ i → In new (store i new bs)
unfolding store
In-store i new [] b there_ at = absurd there_
In-store i new (x ∷ xs) b (inl same) at =
    let at_x : x.slot ≡ i = ap (λ (y : Buf). y.slot) (sym same) ∙ at in
    let hit : (x.slot == i) ≡ true = ground arith in rw hit (inl refl)
In-store i new (x ∷ xs) b (inr later) at = inr (In-store i new xs b later at)

pub unlink-In : (i : ℕ) (bs : List Buf) (b : Buf) → In b (unlink i bs) → In b bs
unfolding unlink
unlink-In i [] b there_ = there_
unlink-In i (x ∷ xs) b there_ = elim (Bool-cases (x.slot == i)) [
  | inl hit ↦ inr (rw hit at there_)
  | inr miss ↦ elim (rw miss at there_) [
    | inl same ↦ inl same
    | inr later ↦ inr (unlink-In i xs b later)
  ]
]
