-- ===== src/Xv6/Kalloc/Count.antt =====
-- `NumFreePages`: the count of the free pages.
use os_codes.Common.{
  ◌≤◌, ℕ, zero, suc, ◌≤◌, ◌≡◌, Bool, false, some, List, [], ◌∷◌, length, arith, ◌==◌,
}
use os_codes.Xv6.Kalloc.{Kmem, num_from, num_free_pages, stops_at}
use os_codes.Xv6.Kalloc.Pages.{Chain, Good, Inv}

-- A kernel address is negative as an `int`: no free page ends the count.
stops_at-Chain :
    (e : ℕ) (counting : Bool) (count next : ℕ → ℕ) (r : ℕ) (pages : List ℕ)
    → Chain next r pages
    → Good e counting count pages
    → stops_at r ≡ false
stops_at-Chain e counting count next r [] chain good = rw chain
stops_at-Chain e counting count next r (p ∷ pages) (first, positive, chain)
      (ok, small, zeroed, absent, good) =
    ground arith

num_from-length :
    (e : ℕ) (counting : Bool) (count next : ℕ → ℕ) (fuel r : ℕ) (pages : List ℕ)
    → Chain next r pages
    → Good e counting count pages
    → length pages ≤ fuel
    → num_from fuel next r ≡ some (length pages)
unfolding num_from
num_from-length e counting count next zero r [] chain good h = rw chain
num_from-length e counting count next (suc fuel) r [] chain good h = rw chain
num_from-length e counting count next zero r (p ∷ pages) chain good h = absurd (omega arith)
num_from-length e counting count next (suc fuel) r (p ∷ pages) (first, positive, chain)
      (ok, small, zeroed, absent, good) h =
    let rest : num_from fuel next (next p) ≡ some (length pages) =
      num_from-length e counting count next fuel (next p) pages chain good (omega arith) in
    let on : stops_at (next p) ≡ false =
      stops_at-Chain e counting count next (next p) pages chain good in
    let found : (p == 0) ≡ false = ground arith in rw (first, rest, found, on)

-- With fuel for the free pages, `NumFreePages` ends and returns how many they are.
pub num_free_pages-length :
    (e fuel : ℕ) (s : Kmem) (pages : List ℕ)
    → Inv e s pages
    → length pages ≤ fuel
    → num_free_pages fuel s ≡ some (length pages)
unfolding num_free_pages
num_free_pages-length e fuel s pages inv h =
    num_from-length e s.counting s.count s.next fuel s.freelist pages inv.chain inv.good h
