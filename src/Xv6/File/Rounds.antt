-- ===== src/Xv6/File/Rounds.antt =====
-- A round of `filewrite` on an inode that nobody else holds.
use os_codes.Common.{
  ℕ, ◌+◌, ◌%◌, ◌<◌, ◌≡◌, ◌≢◌, refl, sym, ap, ◌∙◌, subst, true, false, none, some, ltb, ◌==◌,
  if◌then◌else◌, arith,
}
use os_codes.Xv6.Fs.{Inode, Volume, put, word, writei, WriteResult}
use os_codes.Xv6.Fs.Words.{put_self, put_other}
use os_codes.Xv6.Fs.Icache.{Cached, Icache, load, ilock, iunlock}
use os_codes.Xv6.Fs.Icache
use os_codes.Xv6.File.{File, System, Outcome, panics, advance, store, unlock_then}
use os_codes.Xv6.File.Write.{round_locked, round}

-- The open file `f` stands at `off` of the inode `node`, which is on the disk `v` and unlocked.
pub record Ready (f : ℕ) (node : Inode) (v : Volume) (off : ℕ) (s : System) : Type 0 where
  pub open_ : (s.cache.inode (s.file f).ip).lock ≡ none
  pub counted : 0 < (s.cache.inode (s.file f).ip).ref
  pub read : (s.cache.inode (s.file f).ip).valid ≡ true
  pub is : (s.cache.inode (s.file f).ip).node ≡ node
  pub on : s.cache.disk (s.cache.inode (s.file f).ip).dev ≡ v
  pub at : (s.file f).off ≡ off

ilock_ready :
    (pid i : ℕ) (c : Icache)
    → (c.inode i).lock ≡ none
    → 0 < (c.inode i).ref
    → (c.inode i).valid ≡ true
    → ilock pid i c
      ≡ Icache.done (record c {
        inode = put c.inode i (record (c.inode i) { lock = some pid; valid = true });
      })
unfolding ilock
ilock_ready pid i c open_ counted read =
    let count : ltb (c.inode i).ref 1 ≡ false = ground arith in rw (count, open_, read)

iunlock_held :
    (pid i : ℕ) (c : Icache)
    → (c.inode i).lock ≡ some pid
    → 0 < (c.inode i).ref
    → iunlock pid i c
      ≡ Icache.done (record c { inode = put c.inode i (record (c.inode i) { lock = none }) })
unfolding iunlock
iunlock_held pid i c held counted =
    let count : ltb (c.inode i).ref 1 ≡ false = ground arith in
    let mine : (pid == pid) ≡ true = ground arith in rw (held, mine, count)

unlock_then_held :
    (pid i : ℕ) (s : System) (k : System → Outcome)
    → (s.cache.inode i).lock ≡ some pid
    → 0 < (s.cache.inode i).ref
    → unlock_then pid i s k
      ≡ k (record s {
        cache = record (s.cache) {
          inode = put s.cache.inode i (record (s.cache.inode i) { lock = none });
        };
      })
unlock_then_held pid i s k held counted =
    let unlocked = iunlock_held pid i s.cache held counted in rw (unlocked, unlock_then)

-- Nothing but the offset of `f`, its inode and the disk of this inode is changed.
pub record Moved (f : ℕ) (s t : System) : Type 0 where
  pub file : t.file f ≡ record (s.file f) { off = (t.file f).off }
  pub files : (g : ℕ) → g ≢ f → t.file g ≡ s.file g
  pub dev : (t.cache.inode (s.file f).ip).dev ≡ (s.cache.inode (s.file f).ip).dev
  pub inodes : (j : ℕ) → j ≢ (s.file f).ip → t.cache.inode j ≡ s.cache.inode j
  pub disks : (d : ℕ) → d ≢ (s.cache.inode (s.file f).ip).dev → t.cache.disk d ≡ s.cache.disk d

pub Moved-refl : (f : ℕ) (s : System) → Moved f s s
Moved-refl f s = record {
  file = refl;
  files = λ g ne. refl;
  dev = refl;
  inodes = λ j ne. refl;
  disks = λ d ne. refl;
}

pub Moved-trans : {f : ℕ} {s t u : System} → Moved f s t → Moved f t u → Moved f s u
Moved-trans {f} {s} {t} {u} a b =
    let place : (t.file f).ip ≡ (s.file f).ip = ap (λ (x : File). x.ip) a.file in
    record {
      file = b.file ∙ ap (λ (x : File). record x { off = (u.file f).off }) a.file;
      files = λ g ne. b.files g ne ∙ a.files g ne;
      dev = subst (λ k. (u.cache.inode k).dev ≡ (t.cache.inode k).dev) place b.dev ∙ a.dev;
      inodes = λ j ne. b.inodes j (λ e. ne (e ∙ place)) ∙ a.inodes j ne;
      disks = λ d ne.
          b.disks d (λ e. ne (e ∙ ap (λ k. (t.cache.inode k).dev) place ∙ a.dev)) ∙ a.disks d ne;
    }

-- With the lock, `Ready` but for the lock.
record Locked (pid f : ℕ) (node : Inode) (v : Volume) (off : ℕ) (s : System) : Type 0 where
  held : (s.cache.inode (s.file f).ip).lock ≡ some pid
  counted : 0 < (s.cache.inode (s.file f).ip).ref
  read : (s.cache.inode (s.file f).ip).valid ≡ true
  is : (s.cache.inode (s.file f).ip).node ≡ node
  on : s.cache.disk (s.cache.inode (s.file f).ip).dev ≡ v
  at : (s.file f).off ≡ off

-- What `round_locked` leaves of a successful write.
abbrev written : ℕ → ℕ → Inode → Volume → System → System
written f m jp w s =
    let i : ℕ = (s.file f).ip in
    let t : System = advance f m (record s { cache = store i jp w s.cache }) in
    record t {
      cache = record (t.cache) {
        inode = put t.cache.inode i (record (t.cache.inode i) { lock = none });
      };
    }

round_locked-written :
    (pid f : ℕ) (src : ℕ → ℕ) (i m : ℕ) (node : Inode) (v : Volume) (off : ℕ) (jp : Inode)
    (w : Volume) (s : System) (k : System → Outcome)
    → Locked pid f node v off s
    → writei node v (λ z. src (i + z)) off m ≡ some (WriteResult.returned m jp w)
    → round_locked pid f src i m k s ≡ k (written f m jp w s)
unfolding round_locked
round_locked-written pid f src i m node v off jp w s k locked e =
    let ip : ℕ = (s.file f).ip in
    let c : Cached = record (s.cache.inode ip) { node = jp } in
    let t : System = advance f m (record s { cache = store ip jp w s.cache }) in
    let stored : t.cache.inode ip ≡ c = put_self s.cache.inode ip c in
    let wrote : writei (s.cache.inode ip).node (s.cache.disk (s.cache.inode ip).dev)
          (λ z. src (i + z)) (s.file f).off m
        ≡ some (WriteResult.returned m jp w) =
      rw (locked.is, locked.on, locked.at) e in
    let same : (m == m) ≡ true = ground arith in
    let unlocked =
      unlock_then_held pid ip t (λ u. if m == m then k u else panics)
        (ap (λ (x : Cached). x.lock) stored ∙ locked.held)
        (subst (λ (x : Cached). 0 < x.ref) (sym stored) locked.counted) in
    rw (wrote, round_locked) (unlocked ∙ (rw same))

written-Ready :
    (pid f m : ℕ) (node : Inode) (v : Volume) (off : ℕ) (jp : Inode) (w : Volume) (s : System)
    → Locked pid f node v off s
    → off + m < word
    → Ready f jp w (off + m) (written f m jp w s)
written-Ready pid f m node v off jp w s locked room =
    let i : ℕ = (s.file f).ip in
    let c : Cached = record (s.cache.inode i) { node = jp } in
    let g : File = record (s.file f) { off = ((s.file f).off + m) % word } in
    let file : put s.file f g f ≡ g = put_self s.file f g in
    let place : (put s.file f g f).ip ≡ i = ap (λ (x : File). x.ip) file in
    let stored : put s.cache.inode i c i ≡ c = put_self s.cache.inode i c in
    let entry : put (put s.cache.inode i c) i (record (put s.cache.inode i c i) { lock = none }) i
        ≡ record c { lock = none } =
      put_self (put s.cache.inode i c) i _ ∙ ap (λ (x : Cached). record x { lock = none }) stored in
    let here_ : (written f m jp w s).cache.inode ((written f m jp w s).file f).ip
        ≡ record c { lock = none } =
      ap (written f m jp w s).cache.inode place ∙ entry in
    record {
      open_ = ap (λ (x : Cached). x.lock) here_;
      counted = subst (λ (x : Cached). 0 < x.ref) (sym here_) locked.counted;
      read = ap (λ (x : Cached). x.valid) here_ ∙ locked.read;
      is = ap (λ (x : Cached). x.node) here_;
      on =
          ap (λ (x : Cached). (written f m jp w s).cache.disk x.dev) here_
          ∙ put_self s.cache.disk c.dev w;
      at =
          ap (λ (x : File). x.off) file
          ∙ ap (λ o. (o + m) % word) locked.at
          ∙ (let wrap : (off + m) % word ≡ off + m = omega arith in wrap);
    }

written-Moved : (f m : ℕ) (jp : Inode) (w : Volume) (s : System) → Moved f s (written f m jp w s)
written-Moved f m jp w s =
    let i : ℕ = (s.file f).ip in
    let c : Cached = record (s.cache.inode i) { node = jp } in
    let g : File = record (s.file f) { off = ((s.file f).off + m) % word } in
    let file : put s.file f g f ≡ g = put_self s.file f g in
    let stored : put s.cache.inode i c i ≡ c = put_self s.cache.inode i c in
    record {
      file = file ∙ ap (λ o. record (s.file f) { off = o }) (sym (ap (λ (x : File). x.off) file));
      files = λ h ne. put_other s.file f g h ne;
      dev =
          ap (λ (x : Cached). x.dev) (put_self (put s.cache.inode i c) i _)
          ∙ ap (λ (x : Cached). x.dev) stored;
      inodes =
          λ j ne. put_other (put s.cache.inode i c) i _ j ne ∙ put_other s.cache.inode i c j ne;
      disks = λ d ne. put_other s.cache.disk c.dev w d ne;
    }

-- The system with the inode locked.
abbrev locked_by : ℕ → ℕ → System → System
locked_by pid i s = record s {
  cache = record (s.cache) {
    inode = put s.cache.inode i (record (s.cache.inode i) { lock = some pid; valid = true });
  };
}

locked_by-Locked :
    (pid f : ℕ) (node : Inode) (v : Volume) (off : ℕ) (s : System)
    → Ready f node v off s
    → Locked pid f node v off (locked_by pid (s.file f).ip s)
locked_by-Locked pid f node v off s ready =
    let i : ℕ = (s.file f).ip in
    let c : Cached = record (s.cache.inode i) { lock = some pid; valid = true } in
    let now : put s.cache.inode i c i ≡ c = put_self s.cache.inode i c in
    record {
      held = ap (λ (x : Cached). x.lock) now;
      counted = subst (λ (x : Cached). 0 < x.ref) (sym now) ready.counted;
      read = ap (λ (x : Cached). x.valid) now;
      is = ap (λ (x : Cached). x.node) now ∙ ready.is;
      on = ap (λ (x : Cached). s.cache.disk x.dev) now ∙ ready.on;
      at = ready.at;
    }

locked_by-Moved : (pid f : ℕ) (s : System) → Moved f s (locked_by pid (s.file f).ip s)
locked_by-Moved pid f s =
    let i : ℕ = (s.file f).ip in
    let c : Cached = record (s.cache.inode i) { lock = some pid; valid = true } in
    record {
      file = refl;
      files = λ h ne. refl;
      dev = ap (λ (x : Cached). x.dev) (put_self s.cache.inode i c);
      inodes = λ j ne. put_other s.cache.inode i c j ne;
      disks = λ d ne. refl;
    }

-- A round whose `writei` succeeds goes on with the file that `writei` leaves.
pub round-Ready :
    (pid f : ℕ) (src : ℕ → ℕ) (i m : ℕ) (node : Inode) (v : Volume) (off : ℕ) (jp : Inode)
    (w : Volume) (s : System)
    → Ready f node v off s
    → off + m < word
    → writei node v (λ z. src (i + z)) off m ≡ some (WriteResult.returned m jp w)
    → (t : System) × ((k : System → Outcome) → round pid f src i m k s ≡ k t)
      × Ready f jp w (off + m) t
      × Moved f s t
unfolding round
round-Ready pid f src i m node v off jp w s ready room e =
    let u : System = locked_by pid (s.file f).ip s in
    let locked = locked_by-Locked pid f node v off s ready in
    let taken = ilock_ready pid (s.file f).ip s.cache ready.open_ ready.counted ready.read in
    (
      written f m jp w u,
      (λ k. rw (taken, round) (round_locked-written pid f src i m node v off jp w u k locked e)),
      written-Ready pid f m node v off jp w u locked room,
      Moved-trans (locked_by-Moved pid f s) (written-Moved f m jp w u),
    )
