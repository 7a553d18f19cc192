-- ===== src/Xv6/String.antt =====
-- xv6-public/string.c: bytes in memory, a function from addresses to numbers below 256. `memset` is
-- not modelled: it stores by the string instructions of the processor.
pub mod Move
mod Tests
use os_codes.Common.{
  ℕ, zero, suc, ◌+◌, ◌-◌, Bool, not, ◌&&◌, ◌||◌, Option, none, some, ◌>>=◌, if◌then◌else◌, ltb,
  ◌==◌, ℤ, pos, sub_ℕ,
}

abbrev pub store : (ℕ → ℕ) → ℕ → ℕ → ℕ → ℕ
store mem at v a = if a == at then v else mem a

-- while(n-- > 0) if(*s1 != *s2) return *s1 - *s2; s1++, s2++;
unfoldable pub memcmp : (ℕ → ℕ) → ℕ → ℕ → ℕ → ℤ
memcmp mem v1 v2 zero = pos 0
memcmp mem v1 v2 (suc n) =
    let rest = memcmp mem (v1 + 1) (v2 + 1) n in
    if mem v1 == mem v2 then rest else sub_ℕ (mem v1) (mem v2)

-- while(n-- > 0) *--d = *--s;
unfoldable pub move_down : (ℕ → ℕ) → ℕ → ℕ → ℕ → ℕ → ℕ
move_down mem d s zero = mem
move_down mem d s (suc n) = move_down (store mem (d + n) (mem (s + n))) d s n

-- while(n-- > 0) *d++ = *s++;
unfoldable pub move_up : (ℕ → ℕ) → ℕ → ℕ → ℕ → ℕ → ℕ
move_up mem d s zero = mem
move_up mem d s (suc n) = move_up (store mem d (mem s)) (d + 1) (s + 1) n

unfoldable pub memmove : (ℕ → ℕ) → ℕ → ℕ → ℕ → ℕ → ℕ
unfolding move_down move_up
memmove mem d s n = if ltb s d && ltb d (s + n) then move_down mem d s n else move_up mem d s n

unfoldable pub memcpy : (ℕ → ℕ) → ℕ → ℕ → ℕ → ℕ → ℕ
unfolding memmove
memcpy mem d s n = memmove mem d s n

unfoldable pub strncmp : (ℕ → ℕ) → ℕ → ℕ → ℕ → ℤ
strncmp mem p q zero = pos 0
strncmp mem p q (suc n) =
    let rest = strncmp mem (p + 1) (q + 1) n in
    if not (mem p == 0) && (mem p == mem q) then rest else sub_ℕ (mem p) (mem q)

-- while(n-- > 0) *s++ = 0;
unfoldable pub zero_fill : (ℕ → ℕ) → ℕ → ℕ → ℕ → ℕ
zero_fill mem s zero = mem
zero_fill mem s (suc n) = zero_fill (store mem s 0) (s + 1) n

unfoldable pub strncpy : (ℕ → ℕ) → ℕ → ℕ → ℕ → ℕ → ℕ
unfolding zero_fill
strncpy mem s t zero = mem
strncpy mem s t (suc n) =
    let rest = strncpy (store mem s (mem t)) (s + 1) (t + 1) n in
    if mem t == 0 then zero_fill (store mem s (mem t)) (s + 1) n else rest

-- The loop of `safestrcpy`, with `n` bytes to go before the last.
unfoldable pub safe_from : (ℕ → ℕ) → ℕ → ℕ → ℕ → ℕ → ℕ
safe_from mem s t zero = store mem s 0
safe_from mem s t (suc n) =
    let rest = safe_from (store mem s (mem t)) (s + 1) (t + 1) n in
    if mem t == 0 then store (store mem s (mem t)) (s + 1) 0 else rest

unfoldable pub safestrcpy : (ℕ → ℕ) → ℕ → ℕ → ℕ → ℕ → ℕ
unfolding safe_from
safestrcpy mem s t zero = mem
safestrcpy mem s t (suc n) = safe_from mem s t n

-- At most `fuel` bytes are looked at.
unfoldable pub strlen : ℕ → (ℕ → ℕ) → ℕ → Option ℕ
strlen zero mem s = none
strlen (suc fuel) mem s =
    let rest = strlen fuel mem (s + 1) in if mem s == 0 then some 0 else rest >>= λ n. some (suc n)
