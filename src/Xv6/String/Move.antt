-- ===== src/Xv6/String/Move.antt =====
-- `memmove` between ranges that may overlap.
use os_codes.Common.{
  ℕ, zero, suc, ◌+◌, ◌-◌, ◌≤◌, ◌<◌, ◌≡◌, ◌≢◌, ◌⊎◌, inl, inr, sym, ap, ◌∙◌, Bool-cases, ◌&&◌,
  if◌then◌else◌, ltb, leb, arith, dec_lt, ℕ_discrete,
}
use os_codes.Xv6.String.{store, move_down, move_up, memmove}

-- What a copy of `n` bytes from `s` to `d` leaves at `a`.
abbrev pub copied : (ℕ → ℕ) → ℕ → ℕ → ℕ → ℕ → ℕ
copied mem d s n a = if leb d a && ltb a (d + n) then mem (s + (a - d)) else mem a

copied_inside :
    (mem : ℕ → ℕ) (d s n a : ℕ) → d ≤ a → a < d + n → copied mem d s n a ≡ mem (s + (a - d))
copied_inside mem d s n a low high = ground arith

copied_outside : (mem : ℕ → ℕ) (d s n a : ℕ) → (a < d) ⊎ (d + n ≤ a) → copied mem d s n a ≡ mem a
copied_outside mem d s n a out = ground arith

store_other : (mem : ℕ → ℕ) (at v a : ℕ) → a ≢ at → store mem at v a ≡ mem a
store_other mem at v a h = ground arith

store_here : (mem : ℕ → ℕ) (at v a : ℕ) → a ≡ at → store mem at v a ≡ v
store_here mem at v a h = ground arith

move_down-copied : (mem : ℕ → ℕ) (d s n a : ℕ) → s < d → move_down mem d s n a ≡ copied mem d s n a
unfolding move_down
move_down-copied mem d s zero a h = sym (copied_outside mem d s zero a (omega arith))
move_down-copied mem d s (suc n) a h =
    let m : ℕ → ℕ = store mem (d + n) (mem (s + n)) in
    let rest = move_down-copied m d s n a h in
    elim (dec_lt a d) [
      | yes below ↦
          rest
          ∙ copied_outside m d s n a (inl below)
          ∙ store_other mem (d + n) (mem (s + n)) a (λ (e : a ≡ d + n). omega arith)
          ∙ sym (copied_outside mem d s (suc n) a (inl below))
      | no above ↦ elim (dec_lt a (d + n)) [
        | yes inside ↦
            rest
            ∙ copied_inside m d s n a (omega arith) inside
            ∙ store_other mem (d + n) (mem (s + n)) (s + (a - d))
                (λ (e : s + (a - d) ≡ d + n). omega arith)
            ∙ sym (copied_inside mem d s (suc n) a (omega arith) (omega arith))
        | no far ↦ elim (ℕ_discrete a (d + n)) [
          | yes last ↦
              let from : s + n ≡ s + (a - d) = omega arith in
              rest
              ∙ copied_outside m d s n a (inr (omega arith))
              ∙ store_here mem (d + n) (mem (s + n)) a last
              ∙ ap mem from
              ∙ sym (copied_inside mem d s (suc n) a (omega arith) (omega arith))
          | no past ↦
              let beyond : d + suc n ≤ a = ground arith in
              rest
              ∙ copied_outside m d s n a (inr (omega arith))
              ∙ store_other mem (d + n) (mem (s + n)) a past
              ∙ sym (copied_outside mem d s (suc n) a (inr beyond))
        ]
      ]
    ]

move_up-copied :
    (mem : ℕ → ℕ) (d s n a : ℕ) → (d ≤ s) ⊎ (s + n ≤ d) → move_up mem d s n a ≡ copied mem d s n a
unfolding move_up
move_up-copied mem d s zero a h = sym (copied_outside mem d s zero a (omega arith))
move_up-copied mem d s (suc n) a h =
    let m : ℕ → ℕ = store mem d (mem s) in
    let rest = move_up-copied m (d + 1) (s + 1) n a (ground arith) in
    elim (ℕ_discrete a d) [
      | yes first ↦
          let from : s ≡ s + (a - d) = omega arith in
          rest
          ∙ copied_outside m (d + 1) (s + 1) n a (inl (omega arith))
          ∙ store_here mem d (mem s) a first
          ∙ ap mem from
          ∙ sym (copied_inside mem d s (suc n) a (omega arith) (omega arith))
      | no later ↦ elim (dec_lt a (d + 1)) [
        | yes below ↦
            let before : a < d = ground arith in
            rest
            ∙ copied_outside m (d + 1) (s + 1) n a (inl below)
            ∙ store_other mem d (mem s) a later
            ∙ sym (copied_outside mem d s (suc n) a (inl before))
        | no above ↦ elim (dec_lt a (d + suc n)) [
          | yes inside ↦
              let from : s + 1 + (a - (d + 1)) ≡ s + (a - d) = omega arith in
              rest
              ∙ copied_inside m (d + 1) (s + 1) n a (omega arith) (omega arith)
              ∙ ap m from
              ∙ store_other mem d (mem s) (s + (a - d)) (λ (e : s + (a - d) ≡ d). omega arith)
              ∙ sym (copied_inside mem d s (suc n) a (omega arith) inside)
          | no past ↦
              rest
              ∙ copied_outside m (d + 1) (s + 1) n a (inr (omega arith))
              ∙ store_other mem d (mem s) a later
              ∙ sym (copied_outside mem d s (suc n) a (inr (omega arith)))
        ]
      ]
    ]

-- After `memmove`, whether the ranges overlap or not, the destination holds the bytes that the source
-- held before, and all other bytes are as they were.
pub memmove-copied :
    (mem : ℕ → ℕ) (d s n a : ℕ)
    → memmove mem d s n a ≡ (if leb d a && ltb a (d + n) then mem (s + (a - d)) else mem a)
unfolding memmove
memmove-copied mem d s n a = elim (Bool-cases (ltb s d && ltb d (s + n))) [
  | inl e ↦ let below : s < d = ground arith in rw e (move_down-copied mem d s n a below)
  | inr e ↦
      let apart : (d ≤ s) ⊎ (s + n ≤ d) = ground arith in rw e (move_up-copied mem d s n a apart)
]
