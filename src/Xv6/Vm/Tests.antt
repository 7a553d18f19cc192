-- ===== src/Xv6/Vm/Tests.antt =====
-- Runs of the virtual memory with a kernel that ends at 0x80100000.
use os_codes.Common.{
  ℕ, ◌+◌, ◌-◌, ◌/◌, ◌<◌, ◌≡◌, refl, sym, subst, true, false, arith, if◌then◌else◌, ◌==◌,
}
use os_codes.Xv6.Kalloc.{Kmem, index, put, page_size}
use os_codes.Xv6.Vm.{Pte, Dir, Memory, no_entry, p2v}
use os_codes.Xv6.Vm.Share.{Ready}

abbrev end_of_kernel : ℕ
end_of_kernel = 2148532224

-- The first page behind the kernel is free, the next one belongs to a process.
abbrev kmem : Kmem
kmem = record {
  use_lock = true;
  freelist = end_of_kernel;
  counting = true;
  count = put (λ i. 0) (index (p2v 1052672)) 2;
  next = λ a. 0;
}

abbrev user_page : Pte
user_page = record { addr = 1052672; present = true; writable = false; user = true; cow = true }

abbrev dir : Dir
dir = record {
  base = 2148540416;
  tables = λ t. if t == 0 then 2148544512 else 0;
  entries = λ v. if v == 0 then user_page else no_entry;
}

abbrev memory : Memory
memory = record { kmem = kmem; page = λ a. a }

-- The directory of a child, before the copy.
abbrev fresh : Dir
fresh = record { base = 2148548608; tables = λ t. 0; entries = λ v. no_entry }

page-Ready : (w : ℕ) → w < (4000 + (page_size - 1)) / page_size → Ready end_of_kernel dir kmem w
page-Ready w h =
    let first : w ≡ 0 = omega arith in
    subst (Ready end_of_kernel dir kmem) (sym first)
      (record { table = refl; present = refl; ok = refl; count = omega arith })
