-- ===== src/Xv6/Vm/Fork.antt =====
-- `copyuvm`: the child gets the pages of the parent, and neither can write to them unnoticed.
use os_codes.Common.{
  ℕ, suc, ◌+◌, ◌-◌, ◌/◌, ◌≤◌, ◌<◌, ◌≡◌, ◌≢◌, inl, inr, refl, ap, ◌∙◌, true, false, some, List, [],
  ◌∷◌, arith, ◌==◌, length, Bool-cases, ℕ_discrete,
}
use os_codes.Xv6.Kalloc.{Kmem, is_bad, index, put, increment_ref_count}
use os_codes.Xv6.Kalloc.Pages.{Inv, put_self, Good-counts}
use os_codes.Xv6.Kalloc.Refs.{kalloc_total, increment_counted}
use os_codes.Xv6.Vm.{
  Pte, Dir, p2v, vpn, pdx, entry, set_entry, has_table, add_table, walk_alloc, map_entry, map_page,
  share, copy_page,
}
use os_codes.Xv6.Vm.Fault.{set_entry_self, set_entry_other}

-- The child's directory after some mappings: no table is lost, an entry of an old table changes only
-- at `va`, and an entry that was not present is not.
pub record Extends (va : ℕ) (d d' : Dir) : Type 0 where
  pub tables : (t : ℕ) → d.tables t ≢ 0 → d'.tables t ≢ 0
  pub kept : (v : ℕ) → v ≢ vpn va → d.tables (v / 1024) ≢ 0 → d'.entries v ≡ d.entries v
  pub absent : (v : ℕ) → v ≢ vpn va → (d.entries v).present ≡ false → (d'.entries v).present ≡ false

-- Counts do not fall, except from 0.
abbrev pub Grows : Kmem → Kmem → Type 0
Grows k k' = (i : ℕ) → 0 < k.count i → k.count i ≤ k'.count i

record Walked (e va : ℕ) (d : Dir) (k : Kmem) (pages : List ℕ) (d' : Dir) (k' : Kmem) : Type 0 where
  run : walk_alloc d va k ≡ some (true, d', k')
  table : d'.tables (pdx va) ≢ 0
  entry_absent : (entry d' va).present ≡ false
  extends : Extends va d d'
  grows : Grows k k'
  counting : k'.counting ≡ true
  left : List ℕ
  inv : Inv e k' left
  used : length pages ≤ length left + 1

added_absent : (d : Dir) (va at : ℕ) → (entry (add_table d va at) va).present ≡ false
added_absent d va at = let inside : (vpn va / 1024 == pdx va) ≡ true = ground arith in rw inside

added_kept :
    (d : Dir) (va at v : ℕ)
    → d.tables (pdx va) ≡ 0
    → d.tables (v / 1024) ≢ 0
    → (add_table d va at).entries v ≡ d.entries v
added_kept d va at v none_there some_there = elim (ℕ_discrete (v / 1024) (pdx va)) [
  | yes same ↦ absurd (some_there (ap d.tables same ∙ none_there))
  | no differ ↦ let outside : (v / 1024 == pdx va) ≡ false = ground arith in rw outside
]

positive_differs : (count : ℕ → ℕ) (i j : ℕ) → 0 < count i → count j ≡ 0 → ¬ (i ≡ j)
positive_differs count i j used free same =
    let none_left : count i ≡ 0 = ap count same ∙ free in omega arith

walk_total :
    (e va : ℕ) (d : Dir) (k : Kmem) (pages : List ℕ)
    → Inv e k pages
    → k.counting ≡ true
    → 0 < length pages
    → (entry d va).present ≡ false
    → (d' : Dir) × (k' : Kmem) × Walked e va d k pages d' k'
unfolding walk_alloc
walk_total e va d k [] inv counting some_free absent = absurd (omega arith)
walk_total e va d k (p ∷ pages) inv counting some_free absent = elim (Bool-cases (has_table d va)) [
  | inl found ↦ (
    d,
    k,
    record {
      run = rw found;
      table = ground arith;
      entry_absent = absent;
      extends = record { tables = λ t h. h; kept = λ v other h. refl; absent = λ v other h. h };
      grows = λ i h. omega arith;
      counting = counting;
      left = p ∷ pages;
      inv = inv;
      used = omega arith;
    },
  )
  | inr missing ↦
      let (k', got, one, others, counting', inv') = kalloc_total e p k pages inv counting in
      let (first, positive, chain) = inv.chain in
      let (ok, small, zeroed, fresh, good) = inv.good in
      let usable : (p == 0) ≡ false = ground arith in
      let none_there : d.tables (pdx va) ≡ 0 = ground arith in
      (
        add_table d va p,
        k',
        record {
          run = rw (missing, got, usable);
          table = ground arith;
          entry_absent = added_absent d va p;
          extends = record {
            tables = λ t h. ground arith;
            kept = λ v other h. added_kept d va p v none_there h;
            absent = λ v other h. ground arith;
          };
          grows = λ i h.
              let other : i ≢ index p =
                λ same. positive_differs k.count i (index p) h (zeroed counting) same in
              let kept = others i other in omega (arith, kept);
          counting = counting';
          left = pages;
          inv = inv';
          used = omega arith;
        },
      )
]

-- The entry that a child gets.
abbrev pub inherited : Pte → Pte
inherited e = record { addr = e.addr; present = true; writable = false; user = e.user; cow = true }

-- A page of the parent that `copyuvm` can share.
pub record Shares (e va : ℕ) (d : Dir) (k : Kmem) : Type 0 where
  pub table : has_table d va ≡ true
  pub present : (entry d va).present ≡ true
  pub ok : is_bad e (p2v (entry d va).addr) ≡ false
  pub count : 0 < k.count (index (p2v (entry d va).addr))

pub record PageCopied (e va : ℕ) (parent child : Dir) (k : Kmem) (pages : List ℕ) (child' : Dir)
    (k' : Kmem) : Type 0 where
  pub run :
      copy_page e va parent child k
      ≡ some (true, set_entry parent va (share (entry parent va)), child', k')
  pub table : child'.tables (pdx va) ≢ 0
  pub copied : entry child' va ≡ inherited (entry parent va)
  pub extends : Extends va child child'
  pub grows : Grows k k'
  pub more :
      k.count (index (p2v (entry parent va).addr)) < k'.count (index (p2v (entry parent va).addr))
  pub counting : k'.counting ≡ true
  pub left : List ℕ
  pub inv : Inv e k' left
  pub used : length pages ≤ length left + 1

counted_once_more :
    (e va : ℕ) (d : Dir) (k : Kmem) (pages : List ℕ)
    → Shares e va d k
    → k.counting ≡ true
    → Inv e k pages
    → (k' : Kmem) × (increment_ref_count e (p2v (entry d va).addr) k ≡ some k')
      × Inv e k' pages
      × (k'.counting ≡ true)
      × Grows k k'
      × (k.count (index (p2v (entry d va).addr)) < k'.count (index (p2v (entry d va).addr)))
counted_once_more e va d k pages shares counting inv =
    let v : ℕ = p2v (entry d va).addr in
    let n : ℕ = k.count (index v) - 1 in
    let positive = shares.count in
    let some_refs : k.count (index v) ≡ suc n = omega arith in
    (
      record k { count = put k.count (index v) (suc (suc n)) },
      increment_counted e v n k counting shares.ok some_refs,
      record {
        chain = inv.chain;
        good =
            Good-counts e k.counting k.count (put k.count (index v) (suc (suc n))) pages
              (λ i c z. ground arith) inv.good;
      },
      counting,
      λ i h. ground arith,
      let now = put_self k.count (index v) (suc (suc n)) in omega (arith, now, some_refs),
    )

pub copy_page_total :
    (e va : ℕ) (parent child : Dir) (k : Kmem) (pages : List ℕ)
    → Inv e k pages
    → k.counting ≡ true
    → 0 < length pages
    → Shares e va parent k
    → (entry child va).present ≡ false
    → (child' : Dir) × (k' : Kmem) × PageCopied e va parent child k pages child' k'
unfolding copy_page map_page map_entry
copy_page_total e va parent child k pages inv counting some_free shares absent =
    let pte : Pte = share (entry parent va) in
    let (k₁, counted, inv₁, counting₁, grows₁, more) =
      counted_once_more e va parent k pages shares counting inv in
    let (d, k', walked) = walk_total e va child k₁ pages inv₁ counting₁ some_free absent in
    (
      set_entry d va (inherited (entry parent va)),
      k',
      record {
        run = rw (shares.table, shares.present, counted, walked.run, walked.entry_absent);
        table = walked.table;
        copied = set_entry_self d va (inherited (entry parent va));
        extends = record {
          tables = walked.extends.tables;
          kept = λ v other h.
              set_entry_other d va v (inherited (entry parent va)) other
              ∙ walked.extends.kept v other h;
          absent = λ v other h.
              ap (λ (x : Pte). x.present)
                (set_entry_other d va v (inherited (entry parent va)) other)
              ∙ walked.extends.absent v other h;
        };
        grows =
            λ i h. let one = grows₁ i h in let two = walked.grows i (omega arith) in omega arith;
        more =
            let two = walked.grows (index (p2v (entry parent va).addr)) (omega arith) in
            omega arith;
        counting = walked.counting;
        left = walked.left;
        inv = walked.inv;
        used = walked.used;
      },
    )
