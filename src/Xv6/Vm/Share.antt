-- ===== src/Xv6/Vm/Share.antt =====
-- The loop of `copyuvm` shares every page.
use os_codes.Common.{
  ℕ, zero, suc, ◌+◌, ◌-◌, ◌*◌, ◌/◌, ◌≤◌, ◌<◌, ◌≡◌, ◌≢◌, ◌⊎◌, inl, refl, sym, ap, ◌∙◌, subst, true,
  false, some, List, arith, length, ℕ_discrete,
}
use os_codes.Xv6.Kalloc.{Kmem, is_bad, index, page_size}
use os_codes.Xv6.Kalloc.Pages.{Inv}
use os_codes.Xv6.Vm.{Pte, Dir, p2v, vpn, pdx, entry, set_entry, share, copy_from, copyuvm}
use os_codes.Xv6.Vm.Fault.{set_entry_self, set_entry_other}
use os_codes.Xv6.Vm.Fork.{Grows, inherited, Shares, copy_page_total}

abbrev pub refs : Kmem → Pte → ℕ
refs k e = k.count (index (p2v e.addr))

-- The pages from `v` to `v + n` of the parent are shared with the child.
pub record AllShared (e n v : ℕ) (parent child : Dir) (k : Kmem) (parent' child' : Dir) (k' : Kmem)
    : Type 0 where
  pub shared : (w : ℕ) → v ≤ w → w < v + n → parent'.entries w ≡ share (parent.entries w)
  pub inherits : (w : ℕ) → v ≤ w → w < v + n → child'.entries w ≡ inherited (parent.entries w)
  pub others : (w : ℕ) → (w < v) ⊎ (v + n ≤ w) → parent'.entries w ≡ parent.entries w
  pub kept : (w : ℕ) → w < v → child.tables (w / 1024) ≢ 0 → child'.entries w ≡ child.entries w
  pub more : (w : ℕ) → v ≤ w → w < v + n → refs k (parent.entries w) < refs k' (parent.entries w)
  pub grows : Grows k k'
  pub counting : k'.counting ≡ true
  pub left : List ℕ
  pub inv : Inv e k' left

-- `copyuvm` can share the page `w`.
abbrev pub Ready : ℕ → Dir → Kmem → ℕ → Type 0
Ready e parent k w = Shares e (w * page_size) parent k

vpn_page : (w : ℕ) → vpn (w * page_size) ≡ w
vpn_page w = omega arith

Ready-later :
    (e v w : ℕ) (parent : Dir) (k k' : Kmem) (pte : Pte)
    → w ≢ v
    → Grows k k'
    → Ready e parent k w
    → Ready e (set_entry parent (v * page_size) pte) k' w
Ready-later e v w parent k k' pte differ grows ready =
    let same : entry (set_entry parent (v * page_size) pte) (w * page_size)
        ≡ entry parent (w * page_size) =
      set_entry_other parent (v * page_size) (vpn (w * page_size)) pte (λ h. omega arith) in
    record {
      table = ready.table;
      present = ap (λ (x : Pte). x.present) same ∙ ready.present;
      ok = ap (λ (x : Pte). is_bad e (p2v x.addr)) same ∙ ready.ok;
      count =
          let now = ap (refs k') same in
          let positive = ready.count in
          let more = grows (index (p2v (entry parent (w * page_size)).addr)) positive in
          omega (arith, now);
    }

pdx_page : (v : ℕ) → pdx (v * page_size) ≡ v / 1024
pdx_page v = omega arith

positive_refs :
    (e : ℕ) (parent : Dir) (k : Kmem) (w : ℕ) → Ready e parent k w → 0 < refs k (parent.entries w)
positive_refs e parent k w ready =
    subst (λ x. 0 < refs k (parent.entries x)) (vpn_page w) ready.count

-- With as many free pages as pages to copy, `copyuvm` neither panics nor fails.
pub copy_from_total :
    (n e v : ℕ) (parent child : Dir) (k : Kmem) (pages : List ℕ)
    → Inv e k pages
    → k.counting ≡ true
    → n ≤ length pages
    → ((w : ℕ) → v ≤ w → w < v + n → Ready e parent k w)
    → ((w : ℕ) → v ≤ w → w < v + n → (child.entries w).present ≡ false)
    → (parent' : Dir) × (child' : Dir) × (k' : Kmem) × (copy_from e n (v * page_size) parent child k
        ≡ some (true, parent', child', k'))
      × AllShared e n v parent child k parent' child' k'
unfolding copy_from
copy_from_total zero e v parent child k pages inv counting enough ready absent = (
  parent,
  child,
  k,
  refl,
  record {
    shared = λ w low high. absurd (omega arith);
    inherits = λ w low high. absurd (omega arith);
    others = λ w out. refl;
    kept = λ w low table. refl;
    more = λ w low high. absurd (omega arith);
    grows = λ i h. omega arith;
    counting = counting;
    left = pages;
    inv = inv;
  },
)
copy_from_total (suc n) e v parent child k pages inv counting enough ready absent =
    let va : ℕ = v * page_size in
    let at : vpn va ≡ v = vpn_page v in
    let pte : Pte = share (entry parent va) in
    let first : Ready e parent k v = ready v (omega arith) (omega arith) in
    let free : (entry child va).present ≡ false =
      ap (λ w. (child.entries w).present) at ∙ absent v (omega arith) (omega arith) in
    let (child₁, k₁, one) =
      copy_page_total e va parent child k pages inv counting (omega arith) first free in
    let (parent', child', k', run, all) =
      copy_from_total n e (suc v) (set_entry parent va pte) child₁ k₁ one.left one.inv one.counting
        (let used = one.used in omega arith)
        (λ w low high.
          Ready-later e v w parent k k₁ pte (λ h. omega arith) one.grows
            (ready w (omega arith) (omega arith)))
        (λ w low high.
          one.extends.absent w (λ h. omega arith) (absent w (omega arith) (omega arith))) in
    let parent₁ : Dir = set_entry parent va pte in
    let here_now : parent₁.entries v ≡ share (parent.entries v) =
      ap parent₁.entries (sym at)
      ∙ set_entry_self parent va pte
      ∙ ap (λ w. share (parent.entries w)) at in
    let elsewhere : (w : ℕ) → w ≢ v → parent₁.entries w ≡ parent.entries w =
      λ w differ. set_entry_other parent va w pte (λ h. differ (h ∙ at)) in
    let table_there : child₁.tables (v / 1024) ≢ 0 =
      subst (λ t. child₁.tables t ≢ 0) (pdx_page v) one.table in
    let next : va + page_size ≡ suc v * page_size = omega arith in
    (
      parent',
      child',
      k',
      rw (one.run, next) run,
      record {
        shared = λ w low high. elim (ℕ_discrete w v) [
          | yes same ↦
              subst (λ x. parent'.entries x ≡ share (parent.entries x)) (sym same)
                (all.others v (inl (omega arith)) ∙ here_now)
          | no differ ↦ all.shared w (omega arith) (omega arith) ∙ ap share (elsewhere w differ)
        ];
        inherits = λ w low high. elim (ℕ_discrete w v) [
          | yes same ↦
              subst (λ x. child'.entries x ≡ inherited (parent.entries x)) (sym same)
                (all.kept v (omega arith) table_there
                  ∙ ap child₁.entries (sym at)
                  ∙ one.copied
                  ∙ ap (λ x. inherited (parent.entries x)) at)
          | no differ ↦
              all.inherits w (omega arith) (omega arith) ∙ ap inherited (elsewhere w differ)
        ];
        others = λ w out. all.others w (ground arith) ∙ elsewhere w (λ h. ground arith);
        kept = λ w low table.
            all.kept w (omega arith) (one.extends.tables (w / 1024) table)
            ∙ one.extends.kept w (λ h. omega arith) table;
        more = λ w low high. elim (ℕ_discrete w v) [
          | yes same ↦
              subst (λ x. refs k (parent.entries x) < refs k' (parent.entries x)) (sym same)
                (subst (λ x. refs k (parent.entries x) < refs k' (parent.entries x)) at
                  (let x = one.more in
                    let y = all.grows (index (p2v (entry parent va).addr)) (omega arith) in
                    omega arith))
          | no differ ↦
              let positive = positive_refs e parent k w (ready w low high) in
              let x = one.grows (index (p2v (parent.entries w).addr)) positive in
              let y =
                subst (λ (z : Pte). refs k₁ z < refs k' z) (elsewhere w differ)
                  (all.more w (omega arith) (omega arith)) in
              omega arith
        ];
        grows = λ i h. let x = one.grows i h in let y = all.grows i (omega arith) in omega arith;
        counting = all.counting;
        left = all.left;
        inv = all.inv;
      },
    )

-- `copyuvm` of a process of `sz` bytes, all of whose pages it can share, gives a child if there are as
-- many free pages as the process has. The child's entries have the addresses of the parent's, and both
-- are read-only and marked for copying; each shared page has at least one reference more. The free list
-- stays well formed, and the parent's other entries are as they were.
pub copyuvm_shares :
    (e sz : ℕ) (parent fresh : Dir) (k : Kmem) (pages : List ℕ)
    → Inv e k pages
    → k.counting ≡ true
    → (sz + (page_size - 1)) / page_size ≤ length pages
    → ((w : ℕ) → w < (sz + (page_size - 1)) / page_size → Ready e parent k w)
    → ((w : ℕ) → w < (sz + (page_size - 1)) / page_size → (fresh.entries w).present ≡ false)
    → (parent' : Dir) × (child : Dir) × (k' : Kmem) × (copyuvm e parent sz fresh k
        ≡ some (some child, parent', k'))
      × AllShared e ((sz + (page_size - 1)) / page_size) 0 parent fresh k parent' child k'
unfolding copyuvm
copyuvm_shares e sz parent fresh k pages inv counting enough ready absent =
    let n : ℕ = (sz + (page_size - 1)) / page_size in
    let (parent', child, k', run, all) =
      copy_from_total n e 0 parent fresh k pages inv counting enough
        (λ w low high. ready w (omega arith)) (λ w low high. absent w (omega arith)) in
    (parent', child, k', rw run, all)
