-- ===== src/Xv6/Kalloc/Tests.antt =====
-- Runs of the page allocator with a kernel that ends at 0x80100000.
use os_codes.Common.{◌≢◌, ℕ, ◌≡◌, refl, true, some, [], ◌∷◌, arith}
use os_codes.Xv6.Kalloc.{Kmem, index, put, kfree, kalloc}
use os_codes.Xv6.Kalloc.Pages.{Inv}
use os_codes.Xv6.Kalloc.Refs.{kfree_drops, kalloc_empty, pages_after}

abbrev end_of_kernel : ℕ
end_of_kernel = 2148532224

abbrev page : ℕ
page = 2148532224

-- One page, with two references.
abbrev shared : Kmem
shared = record {
  use_lock = true;
  freelist = 0;
  counting = true;
  count = put (λ i. 0) (index page) 2;
  next = λ a. 0;
}

shared-Inv : Inv end_of_kernel shared []
shared-Inv = record { chain = refl; good = tt }

kfree_drops_example :
    (t : Kmem) × (kfree end_of_kernel page shared ≡ some t)
    × (t.count (index page) ≡ 1)
    × ((i : ℕ) → i ≢ index page → t.count i ≡ shared.count i)
    × (t.counting ≡ true)
    × Inv end_of_kernel t (pages_after page 1 [])
kfree_drops_example =
    kfree_drops end_of_kernel page 1 shared [] shared-Inv refl refl (omega arith) refl

kalloc-shared : kalloc shared ≡ some (0, shared)
kalloc-shared = kalloc_empty end_of_kernel shared shared-Inv

-- One free page.
abbrev one_free : Kmem
one_free = record {
  use_lock = true;
  freelist = page;
  counting = true;
  count = λ i. 0;
  next = λ a. 0;
}

one_free-Inv : Inv end_of_kernel one_free (page ∷ [])
one_free-Inv = record {
  chain = (refl, omega arith, refl);
  good = (refl, omega arith, λ c. refl, tt, tt);
}
