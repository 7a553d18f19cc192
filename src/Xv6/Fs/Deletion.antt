-- ===== src/Xv6/Fs/Deletion.antt =====
-- `iput` of fs.c, and the disk after it.
use os_codes.Common.{
  ℕ, ◌+◌, ◌-◌, ◌<◌, ◌≡◌, ◌≢◌, refl, ap, ◌∙◌, true, false, ◌&&◌, none, ltb, ◌==◌, arith, inl, inr,
  ◌⊎◌, Bool-cases,
}
use os_codes.Xv6.Fs.{Inode, Volume, put, iupdate}
use os_codes.Xv6.Fs.Words.{put_self, put_other}
use os_codes.Xv6.Fs.Ownership.{IsValid}
use os_codes.Xv6.Fs.Freeing.{Owns, itrunc-Emptied}
use os_codes.Xv6.Fs.Icache.{Cached, Icache, done, delete, iput}

-- An inode that only this pointer leads to.
abbrev pub Last : Cached → Type 0
Last c = (c.valid ≡ true) × (c.node.nlink ≡ 0) × (c.ref ≡ 1)

pub record Deleted (i : ℕ) (s t : Icache) : Type 0 where
  pub freed :
      (x : ℕ)
      → Owns (s.inode i).node (s.disk (s.inode i).dev) x
      → (t.disk (s.inode i).dev).used x ≡ false
  pub others :
      (x : ℕ)
      → ¬ Owns (s.inode i).node (s.disk (s.inode i).dev) x
      → (t.disk (s.inode i).dev).used x ≡ (s.disk (s.inode i).dev).used x
  pub blocks : (t.disk (s.inode i).dev).block ≡ (s.disk (s.inode i).dev).block
  pub unread : (t.inode i).valid ≡ false
  pub untyped : ((t.disk (s.inode i).dev).inodes (t.inode i).node.inum).type ≡ 0
  pub empty : ((t.disk (s.inode i).dev).inodes (t.inode i).node.inum).size ≡ 0
  pub disks : (d : ℕ) → d ≢ (s.inode i).dev → t.disk d ≡ s.disk d

delete-Deleted :
    (i : ℕ) (s : Icache)
    → 0 < (s.inode i).ref
    → IsValid (s.inode i).node (s.disk (s.inode i).dev)
    → (t : Icache) × (delete i s ≡ done t) × ((t.inode i).ref + 1 ≡ (s.inode i).ref) × Deleted i s t
unfolding iupdate
delete-Deleted i s used inv =
    let c : Cached = s.inode i in
    let (jp, w, truncated, emptied) = itrunc-Emptied c.node (s.disk c.dev) inv in
    let d : Cached = record c { ref = c.ref - 1; valid = false; node = record jp { type = 0 } } in
    let v : Volume = iupdate (record jp { type = 0 }) w in
    let t : Icache = record s { inode = put s.inode i d; disk = put s.disk c.dev v } in
    let entry : t.inode i ≡ d = put_self s.inode i d in
    let disk : t.disk c.dev ≡ v = put_self s.disk c.dev v in
    let on_disk : v.inodes jp.inum ≡ record jp { type = 0 } =
      put_self w.inodes jp.inum (record jp { type = 0 }) in
    (
      t,
      rw (truncated, delete),
      rw entry (omega arith),
      record {
        freed = λ x owns. rw disk (emptied.freed x owns);
        others = λ x foreign. rw disk (emptied.others x foreign);
        blocks = rw disk emptied.blocks;
        unread = rw entry;
        untyped = rw (disk, entry) (ap (λ (z : Inode). z.type) on_disk);
        empty = rw (disk, entry) (ap (λ (z : Inode). z.size) on_disk ∙ emptied.size);
        disks = λ e ne. put_other s.disk c.dev v e ne;
      },
    )

-- `iput` of a pointer to an unlocked inode that owns its blocks takes one from the count. If this was the
-- last pointer to an inode without links that was read, exactly the blocks of the inode are free on its
-- disk, which has the inode with type and size 0; otherwise no disk is changed.
pub iput-Deleted :
    (i : ℕ) (s : Icache)
    → (s.inode i).lock ≡ none
    → 0 < (s.inode i).ref
    → IsValid (s.inode i).node (s.disk (s.inode i).dev)
    → (t : Icache) × (iput i s ≡ done t)
      × ((t.inode i).ref + 1 ≡ (s.inode i).ref)
      × ((Last (s.inode i) × Deleted i s t) ⊎ ((¬ Last (s.inode i)) × (t.disk ≡ s.disk)))
unfolding iput
iput-Deleted i s open_ used inv =
    let count : ltb (s.inode i).ref 1 ≡ false = ground arith in
    elim (Bool-cases
      ((s.inode i).valid && (((s.inode i).node.nlink == 0) && ((s.inode i).ref == 1)))) [
        | inl last ↦
            let (t, deleted, less, all) = delete-Deleted i s used inv in
            (
              t,
              rw (open_, iput, count, last) deleted,
              less,
              inl ((ground (arith, last), ground (arith, last), ground (arith, last)), all),
            )
        | inr kept ↦
            let d : Cached = record (s.inode i) { ref = (s.inode i).ref - 1; lock = none } in
            let entry : put s.inode i d i ≡ d = put_self s.inode i d in
            (
              record s { inode = put s.inode i d },
              rw (open_, iput, count, kept)
                  (ap
                    (λ l. done (record s {
                      inode =
                          put s.inode i
                            (record (s.inode i) { ref = (s.inode i).ref - 1; lock = l });
                    }))
                    open_),
              rw entry (omega arith),
              inr ((λ (valid, links, one). ground (arith, kept, valid, links, one)), refl),
            )
      ]
