-- ===== src/Xv6/Proc/Waiting.antt =====
-- No wake-up of a sleeper and no exit of a child is lost.
use os_codes.Common.{
  ℕ, zero, suc, ◌≡◌, refl, sym, subst, false, ◌&&◌, some, List, [], ◌∷◌, get_elem?, arith,
  if◌then◌else◌,
}
use mathlib.Core.Option.{some-injective}
use os_codes.Xv6.Proc.{
  runnable, sleeping, zombie, has_state, same_chan, Chan, Proc, at_slot, wake, wakeup,
}
use os_codes.Xv6.Proc.Life.{reap}

wake_clears :
    (chan : Chan) (p : Proc)
    → (has_state (wake chan p).state sleeping && same_chan (wake chan p).chan chan) ≡ false
wake_clears chan p = ground arith

-- After `wakeup` no process sleeps on the channel; those that did are runnable, the others are as they
-- were.
pub wakeup_clears :
    (chan : Chan) (ps : List Proc) (j : ℕ) (q : Proc)
    → get_elem? (wakeup chan ps) j ≡ some q
    → (p : Proc) × (get_elem? ps j ≡ some p)
      × (q ≡ (
          if has_state p.state sleeping && same_chan p.chan chan
          then record p { state = runnable }
          else p))
      × ((has_state q.state sleeping && same_chan q.chan chan) ≡ false)
unfolding wakeup
wakeup_clears chan [] j q h = absurd (cc h)
wakeup_clears chan (p ∷ ps) zero q h =
    let same : wake chan p ≡ q = some-injective _ _ h in
    (
      p,
      refl,
      sym same,
      subst (λ (x : Proc). (has_state x.state sleeping && same_chan x.chan chan) ≡ false) same
          (wake_clears chan p),
    )
wakeup_clears chan (p ∷ ps) (suc j) q h = wakeup_clears chan ps j q h

-- The process `j` is there, a child of `par`.
HasParent : ℕ → ℕ → List Proc → Type 0
HasParent par j ps = (p : Proc) × (get_elem? ps j ≡ some p) × (p.parent ≡ some par)

-- A child of `par` that has ended, and the table without it.
pub record Reaped (par : ℕ) (ps : List Proc) (p : Proc) (qs : List Proc) : Type 0 where
  pub place : ℕ
  pub there : get_elem? ps place ≡ some p
  pub child : p.parent ≡ some par
  pub ended : p.state ≡ zombie
  pub rest : qs ≡ at_slot ps place reap
