-- ===== src/Xv6/Bio/Latest.antt =====
-- A reader of a block gets what was last written to it, whatever happens in between.
use os_codes.Common.{
  ℕ, zero, suc, ◌+◌, ◌<◌, ◌≡◌, refl, sym, ap, subst, inl, inr, true, false, some, List, [],
  Option-cases, arith,
}
use os_codes.Xv6.Bio.{
  Buf, Cache, link_from, binit, find_slot, bget, read_in, bwrite, brelse, modify,
}
use os_codes.Xv6.Bio.Slots.{In}
use os_codes.Xv6.Bio.Places.{Distinct}
use os_codes.Xv6.Bio.Coherence.{Inv}
use os_codes.Xv6.Bio.Writes.{put}
use os_codes.Xv6.Bio.Branches.{read_in-absent, brelse-absent}
use os_codes.Xv6.Bio.Calls.{bget-Inv, read_in-Inv, bwrite-Inv, modify-Inv, brelse-Inv}

-- The buffers, and what a plain array of the blocks of disk 1 would hold.
pub record System : Type 0 where
  pub cache : Cache
  pub latest : ℕ → ℕ

-- One call of a process. Whoever modifies or writes a buffer has read it before, so that it is valid.
pub data Step : System → System → Type 0 where
  gets :
      {s : System} (n i : ℕ) (c : Cache)
      → bget 1 n s.cache ≡ some (i, c)
      → Step s (record s { cache = c })
  reads :
      {s : System} (i : ℕ) (c : Cache)
      → read_in i s.cache ≡ some c
      → Step s (record s { cache = c })
  modifies :
      {s : System} (i v : ℕ) (b : Buf) (c : Cache)
      → find_slot i s.cache.bufs ≡ some b
      → b.dev ≡ 1
      → b.valid ≡ true
      → modify i v s.cache ≡ some c
      → Step s (record { cache = c; latest = put s.latest b.blockno v })
  writes :
      {s : System} (i : ℕ) (b : Buf) (c : Cache)
      → find_slot i s.cache.bufs ≡ some b
      → b.valid ≡ true
      → bwrite true i s.cache ≡ some c
      → Step s (record s { cache = c })
  releases :
      {s : System} (i : ℕ) (c : Cache)
      → brelse true i s.cache ≡ some c
      → Step s (record s { cache = c })

abbrev pub Good : System → Type 0
Good s = Inv s.cache s.latest

-- From the start: no buffer is in use, and the disk holds the blocks.
pub data Reach : System → Type 0 where
  here : (c : Cache) → Reach (record { cache = binit c; latest = c.disk })
  next : {s t : System} → Reach s → Step s t → Reach t

-- The buffers of `binit` are in the slots below some bound, and hold no block of disk 1.
abbrev Fresh : ℕ → List Buf → Type 0
Fresh i bs =
    Distinct bs
    × ((b : Buf) → In b bs → (b.slot < i) × (b.dev ≡ 0) × (b.valid ≡ false) × (b.dirty ≡ false))

link_from-Fresh : (k i : ℕ) (bs : List Buf) → Fresh i bs → Fresh (k + i) (link_from k i bs)
unfolding link_from
link_from-Fresh zero i bs fresh =
    let same : 0 + i ≡ i = omega arith in subst (λ n. Fresh n bs) (sym same) fresh
link_from-Fresh (suc k) i bs (distinct, all) =
    let same : k + (i + 1) ≡ suc k + i = omega arith in
    subst (λ n. Fresh n (link_from (suc k) i bs)) same
      (link_from-Fresh k (i + 1) _ (
        (
          (λ x in_x e. let (below, dev, valid, dirty) = all x in_x in omega (arith, below, e)),
          distinct,
        ),
        (λ b in_b. elim in_b [
          | inl new ↦ (
            omega (arith, ap (λ (y : Buf). y.slot) new),
            ap (λ (y : Buf). y.dev) new,
            ap (λ (y : Buf). y.valid) new,
            ap (λ (y : Buf). y.dirty) new,
          )
          | inr old ↦
              let (below, dev, valid, dirty) = all b old in
              (omega (arith, below), dev, valid, dirty)
        ]),
      ))

binit-Inv : (c : Cache) → Inv (binit c) c.disk
unfolding binit
binit-Inv c =
    let (distinct, all) = link_from-Fresh 30 0 [] (tt, λ b in_b. absurd in_b) in
    record {
      distinct = distinct;
      keys = λ a b in_a in_b dev_a dev_b e.
          let (below, dev, valid, dirty) = all a in_a in absurd (omega (arith, dev, dev_a));
      fresh = λ b in_b dev_b valid_b.
          let (below, dev, valid, dirty) = all b in_b in absurd (omega (arith, dev, dev_b));
      written = λ b in_b dirty_b.
          let (below, dev, valid, dirty) = all b in_b in absurd (cc (dirty, dirty_b));
      home = λ n clean. refl;
    }

Step-Good : {s t : System} → Good s → Step s t → Good t
Step-Good {s} good (gets n i c e) = bget-Inv s.cache s.latest good n i c e
Step-Good {s} good (reads i c e) = elim (Option-cases (find_slot i s.cache.bufs)) [
  | inl absent ↦ absurd (cc (e, read_in-absent i s.cache absent))
  | inr (b, found) ↦ read_in-Inv s.cache s.latest good i b found c e
]
Step-Good {s} good (modifies i v b c found dev_b valid e) =
    modify-Inv s.cache s.latest good i b found v c dev_b valid e
Step-Good {s} good (writes i b c found valid e) =
    bwrite-Inv s.cache s.latest good i b found c valid e
Step-Good {s} good (releases i c e) = elim (Option-cases (find_slot i s.cache.bufs)) [
  | inl absent ↦ absurd (cc (e, brelse-absent i s.cache absent))
  | inr (b, found) ↦ brelse-Inv s.cache s.latest good i b found c e
]

pub Reach-Good : {s : System} → Reach s → Good s
Reach-Good (here c) = binit-Inv c
Reach-Good (next r st) = Step-Good (Reach-Good r) st
