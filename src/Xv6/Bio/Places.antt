-- ===== src/Xv6/Bio/Places.antt =====
-- Buffers in distinct slots, and one that takes the place of another.
use os_codes.Common.{
  ℕ, ◌≡◌, ◌≢◌, refl, sym, ap, ◌∙◌, ◌⊎◌, inl, inr, List, [], ◌∷◌, ◌==◌, if◌then◌else◌, Bool-cases,
  arith,
}
use os_codes.Xv6.Bio.{Buf, store, unlink}
use os_codes.Xv6.Bio.Slots.{In, store-In, In-store_other, In-store, unlink-In}

-- No two buffers have the same slot.
abbrev pub Distinct : List Buf → Type 0
Distinct [] = Unit
Distinct (b ∷ bs) = ((x : Buf) → In x bs → x.slot ≢ b.slot) × Distinct bs

pub Distinct-same :
    (bs : List Buf) (a b : Buf) → Distinct bs → In a bs → In b bs → a.slot ≡ b.slot → a ≡ b
Distinct-same [] a b distinct at_a at_b e = absurd at_a
Distinct-same (x ∷ xs) a b (far, distinct) (inl a_x) (inl b_x) e = a_x ∙ sym b_x
Distinct-same (x ∷ xs) a b (far, distinct) (inl a_x) (inr at_b) e =
    absurd (far b at_b (sym e ∙ ap (λ (y : Buf). y.slot) a_x))
Distinct-same (x ∷ xs) a b (far, distinct) (inr at_a) (inl b_x) e =
    absurd (far a at_a (e ∙ ap (λ (y : Buf). y.slot) b_x))
Distinct-same (x ∷ xs) a b (far, distinct) (inr at_a) (inr at_b) e =
    Distinct-same xs a b distinct at_a at_b e

-- A store keeps the slots.
store_slot :
    (i : ℕ) (new : Buf) (bs : List Buf) (b : Buf)
    → new.slot ≡ i
    → In b (store i new bs)
    → (x : Buf) × In x bs × (x.slot ≡ b.slot)
unfolding store
store_slot i new [] b at there_ = absurd there_
store_slot i new (x ∷ xs) b at (inl same) = elim (Bool-cases (x.slot == i)) [
  | inl hit ↦
      let b_new : b ≡ new = rw hit at same in
      let x_i : x.slot ≡ i = ground (arith, hit) in
      (x, inl refl, x_i ∙ sym at ∙ ap (λ (y : Buf). y.slot) (sym b_new))
  | inr miss ↦
      let b_x : b ≡ x = rw miss at same in (x, inl refl, ap (λ (y : Buf). y.slot) (sym b_x))
]
store_slot i new (x ∷ xs) b at (inr later) =
    let (y, there_, same) = store_slot i new xs b at later in (y, inr there_, same)

pub Distinct-store :
    (i : ℕ) (new : Buf) (bs : List Buf) → new.slot ≡ i → Distinct bs → Distinct (store i new bs)
unfolding store
Distinct-store i new [] at distinct = tt
Distinct-store i new (x ∷ xs) at (far, distinct) = (head_far, Distinct-store i new xs at distinct)
  where
    head_slot : (if x.slot == i then new else x).slot ≡ x.slot
    head_slot = elim (Bool-cases (x.slot == i)) [
      | inl hit ↦ rw hit (at ∙ sym (ground (arith, hit)))
      | inr miss ↦ rw miss
    ]

    head_far : (y : Buf) → In y (store i new xs) → y.slot ≢ (if x.slot == i then new else x).slot
    head_far y there_ e =
        let (z, old, same) = store_slot i new xs y at there_ in far z old (same ∙ e ∙ head_slot)

Distinct-unlink : (i : ℕ) (bs : List Buf) → Distinct bs → Distinct (unlink i bs)
unfolding unlink
Distinct-unlink i [] distinct = tt
Distinct-unlink i (x ∷ xs) (far, distinct) = elim (Bool-cases (x.slot == i)) [
  | inl hit ↦ rw hit distinct
  | inr miss ↦
      rw miss ((λ y there_. far y (unlink-In i xs y there_)), Distinct-unlink i xs distinct)
]

unlink_gone : (i : ℕ) (bs : List Buf) (b : Buf) → Distinct bs → In b (unlink i bs) → b.slot ≢ i
unfolding unlink
unlink_gone i [] b distinct there_ e = absurd there_
unlink_gone i (x ∷ xs) b (far, distinct) there_ e = elim (Bool-cases (x.slot == i)) [
  | inl hit ↦ let x_i : x.slot ≡ i = ground (arith, hit) in far b (rw hit at there_) (e ∙ sym x_i)
  | inr miss ↦ elim (rw miss at there_) [
    | inl same ↦ ground (arith, miss, ap (λ (y : Buf). y.slot) (sym same) ∙ e)
    | inr later ↦ unlink_gone i xs b distinct later e
  ]
]

In-unlink_other : (i : ℕ) (bs : List Buf) (b : Buf) → In b bs → b.slot ≢ i → In b (unlink i bs)
unfolding unlink
In-unlink_other i [] b there_ other = absurd there_
In-unlink_other i (x ∷ xs) b there_ other = elim (Bool-cases (x.slot == i)) [
  | inl hit ↦ elim there_ [
    | inl same ↦
        let x_i : x.slot ≡ i = ground (arith, hit) in
        absurd (other (ap (λ (y : Buf). y.slot) same ∙ x_i))
    | inr later ↦ rw hit later
  ]
  | inr miss ↦ elim there_ [
    | inl same ↦ rw miss (inl same)
    | inr later ↦ rw miss (inr (In-unlink_other i xs b later other))
  ]
]

-- A buffer in the place of another: all other buffers stay.
pub record Replaced (bs cs : List Buf) (i : ℕ) (new : Buf) : Type 0 where
  pub distinct : Distinct cs
  pub from : (b : Buf) → In b cs → (b ≡ new) ⊎ (In b bs × (b.slot ≢ i))
  pub others : (b : Buf) → In b bs → b.slot ≢ i → In b cs
  pub there : In new cs

pub Replaced-store :
    (i : ℕ) (old new : Buf) (bs : List Buf)
    → new.slot ≡ i
    → In old bs
    → old.slot ≡ i
    → Distinct bs
    → Replaced bs (store i new bs) i new
Replaced-store i old new bs at at_old old_i distinct = record {
  distinct = Distinct-store i new bs at distinct;
  from = store-In i new bs;
  others = In-store_other i new bs;
  there = In-store i new bs old at_old old_i;
}

pub Replaced-unlink :
    (i : ℕ) (new : Buf) (bs : List Buf)
    → new.slot ≡ i
    → Distinct bs
    → Replaced bs (new ∷ unlink i bs) i new
Replaced-unlink i new bs at distinct = record {
  distinct =
      ((λ y there_ e. unlink_gone i bs y distinct there_ (e ∙ at)), Distinct-unlink i bs distinct);
  from = λ b there_. elim there_ [
    | inl same ↦ inl same
    | inr later ↦ inr (unlink-In i bs b later, unlink_gone i bs b distinct later)
  ];
  others = λ b old other. inr (In-unlink_other i bs b old other);
  there = inl refl;
}
