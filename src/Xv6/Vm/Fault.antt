-- ===== src/Xv6/Vm/Fault.antt =====
-- A write to a shared page: the process gets a copy of its own.
use os_codes.Common.{ℕ, suc, ◌≡◌, ◌≢◌, true, false, ◌||◌, arith, ◌==◌, false}
use os_codes.Xv6.Kalloc.{Kmem, is_bad, index}
use os_codes.Xv6.Vm.{Pte, Dir, p2v, vpn, entry, set_entry, has_table}

-- The page of an entry is one that the allocator has given out, with `n + 1` references.
pub record Referenced (e n : ℕ) (k : Kmem) (pte : Pte) : Type 0 where
  pub ok : is_bad e (p2v pte.addr) ≡ false
  pub count : k.count (index (p2v pte.addr)) ≡ suc n

-- The tests of the handler.
pub record MayWrite (d : Dir) (va : ℕ) : Type 0 where
  pub table : has_table d va ≡ true
  pub user : (entry d va).user ≡ true
  pub present : (entry d va).present ≡ true
  pub write : ((entry d va).writable || (entry d va).cow) ≡ true

pub set_entry_self : (d : Dir) (va : ℕ) (pte : Pte) → entry (set_entry d va pte) va ≡ pte
set_entry_self d va pte = let same : (vpn va == vpn va) ≡ true = ground arith in rw same

pub set_entry_other :
    (d : Dir) (va v : ℕ) (pte : Pte) → v ≢ vpn va → (set_entry d va pte).entries v ≡ d.entries v
set_entry_other d va v pte other = let differ : (v == vpn va) ≡ false = ground arith in rw differ
