-- ===== src/Xv6/Log/Blocks.antt =====
-- The loops of `write_log` and `install_trans`: what they leave in the log and at home.
use os_codes.Common.{
  ℕ, ◌+◌, ◌≤◌, ◌<◌, ◌≡◌, ◌≢◌, ◌⊎◌, inl, refl, ap, ◌∙◌, arith, Bool, true, false, ◌||◌, Option, none,
  some, List, [], ◌∷◌, if◌then◌else◌, ◌==◌, length, ℕ_discrete,
}
use os_codes.Xv6.Log.{Log, assign, write_block, install_from, write_log_from}

abbrev pub mem : ℕ → List ℕ → Bool
mem a [] = false
mem a (b ∷ bs) = (b == a) || mem a bs

abbrev pick : Option ℕ → Bool → ℕ → Option ℕ
pick (some w) hit v = some w
pick none hit v = if hit then some v else none

-- What the log blocks from number `t` on hold for the home block `a`: the last of them counts.
unfoldable pub logged : ℕ → ℕ → List ℕ → (ℕ → ℕ) → ℕ → Option ℕ
logged start t [] view a = none
logged start t (b ∷ bs) view a =
    pick (logged start (t + 1) bs view a) (b == a) (view (start + t + 1))

abbrev pub or_else : Option ℕ → ℕ → ℕ
or_else none d = d
or_else (some v) d = v

-- The home blocks lie outside of the header and of the first `n` log blocks.
abbrev pub AllHome : ℕ → ℕ → List ℕ → Type 0
AllHome start n [] = Unit
AllHome start n (b ∷ bs) = ((b < start) ⊎ (start + n < b)) × AllHome start n bs

-- Two views that agree on the log blocks.
abbrev SameLog : ℕ → ℕ → (ℕ → ℕ) → (ℕ → ℕ) → Type 0
SameLog start n f g = (x : ℕ) → start < x → x ≤ start + n → f x ≡ g x

pub logged-SameLog :
    (start n t : ℕ) (bs : List ℕ) (f g : ℕ → ℕ) (a : ℕ)
    → t + length bs ≤ n
    → SameLog start n f g
    → logged start t bs f a ≡ logged start t bs g a
unfolding logged
logged-SameLog start n t [] f g a h same = refl
logged-SameLog start n t (b ∷ bs) f g a h same =
    let rest = logged-SameLog start n (t + 1) bs f g a (omega arith) same in
    let here = same (start + t + 1) (omega arith) (omega arith) in
    ap (λ o. pick o (b == a) (f (start + t + 1))) rest
    ∙ ap (pick (logged start (t + 1) bs g a) (b == a)) here

assign_home :
    (start n b v : ℕ) (f : ℕ → ℕ) → (b < start) ⊎ (start + n < b) → SameLog start n (assign f b v) f
assign_home start n b v f home x low high = ground arith

assign_other : (f : ℕ → ℕ) (b v a : ℕ) → a ≢ b → assign f b v a ≡ f a
assign_other f b v a h = ground arith

assign_self : (f : ℕ → ℕ) (b v a : ℕ) → b ≡ a → assign f b v a ≡ v
assign_self f b v a h = ground arith

install_step :
    (o : Option ℕ) (b a v : ℕ) (disk : ℕ → ℕ)
    → or_else o (assign disk b v a) ≡ or_else (pick o (b == a) v) (disk a)
install_step none b a v disk = ground arith
install_step (some w) b a v disk = refl

-- What installing the log leaves in the block `a`, on the disk and in the view.
pub install_from-logged :
    (t n a : ℕ) (bs : List ℕ) (l : Log)
    → t + length bs ≤ n
    → AllHome l.start n bs
    → ((install_from t bs l).disk a ≡ or_else (logged l.start t bs l.view a) (l.disk a))
      × SameLog l.start n (install_from t bs l).disk l.disk
unfolding install_from logged
install_from-logged t n a [] l h home = (refl, λ x low high. refl)
install_from-logged t n a (b ∷ bs) l h (home, homes) =
    let v : ℕ = l.view (l.start + t + 1) in
    let m : Log = write_block b v l in
    let same : SameLog l.start n m.view l.view = assign_home l.start n b v l.view home in
    let (on_disk, in_log) = install_from-logged (t + 1) n a bs m (omega arith) homes in
    let rest : logged l.start (t + 1) bs m.view a ≡ logged l.start (t + 1) bs l.view a =
      logged-SameLog l.start n (t + 1) bs m.view l.view a (omega arith) same in
    (
      on_disk
          ∙ ap (λ o. or_else o (m.disk a)) rest
          ∙ install_step (logged l.start (t + 1) bs l.view a) b a v (l.disk),
      λ x low high. in_log x low high ∙ assign_home l.start n b v l.disk home x low high,
    )

-- Logging: log block `t + i` gets the view of home block `i`; nothing else changes.
pub write_log_from-elsewhere :
    (t x : ℕ) (bs : List ℕ) (l : Log)
    → (x ≤ l.start + t) ⊎ (l.start + t + length bs < x)
    → ((write_log_from t bs l).view x ≡ l.view x) × ((write_log_from t bs l).disk x ≡ l.disk x)
unfolding write_log_from
write_log_from-elsewhere t x [] l h = (refl, refl)
write_log_from-elsewhere t x (b ∷ bs) l h =
    let at : ℕ = l.start + t + 1 in
    let m : Log = write_block at (l.view b) l in
    let apart : x ≢ at = λ e. ground arith in
    let (view, disk) = write_log_from-elsewhere (t + 1) x bs m (ground arith) in
    (
      view ∙ assign_other l.view at (l.view b) x apart,
      disk ∙ assign_other l.disk at (l.view b) x apart,
    )

-- The log holds the view of the block `a`, if `a` is logged.
abbrev Holds : ℕ → ℕ → List ℕ → (ℕ → ℕ) → (ℕ → ℕ) → Type 0
Holds start t [] log view = Unit
Holds start t (b ∷ bs) log view = (log (start + t + 1) ≡ view b) × Holds start (t + 1) bs log view

pick_mem :
    (b a v : ℕ) (view : ℕ → ℕ) (later : Bool)
    → v ≡ view b
    → pick (if later then some (view a) else none) (b == a) v
      ≡ (if (b == a) || later then some (view a) else none)
pick_mem b a v view true h = ground arith
pick_mem b a v view false h = elim (ℕ_discrete b a) [
  | yes same ↦ let hit : (b == a) ≡ true = ground arith in rw hit (ap some (h ∙ ap view same))
  | no differ ↦ ground arith
]

pub Holds-logged :
    (start t : ℕ) (bs : List ℕ) (log view : ℕ → ℕ) (a : ℕ)
    → Holds start t bs log view
    → logged start t bs log a ≡ (if mem a bs then some (view a) else none)
unfolding logged
Holds-logged start t [] log view a h = refl
Holds-logged start t (b ∷ bs) log view a (here, rest) =
    let later : logged start (t + 1) bs log a ≡ (if mem a bs then some (view a) else none) =
      Holds-logged start (t + 1) bs log view a rest in
    ap (λ o. pick o (b == a) (log (start + t + 1))) later
    ∙ pick_mem b a (log (start + t + 1)) view (mem a bs) here

pub Holds-write_log_from :
    (t n : ℕ) (bs : List ℕ) (l : Log) (view : ℕ → ℕ)
    → t + length bs ≤ n
    → AllHome l.start n bs
    → ((x : ℕ) → (x < l.start) ⊎ (l.start + n < x) → l.view x ≡ view x)
    → Holds l.start t bs (write_log_from t bs l).disk view
      × Holds l.start t bs (write_log_from t bs l).view view
unfolding write_log_from
Holds-write_log_from t n [] l view h home same = (tt, tt)
Holds-write_log_from t n (b ∷ bs) l view h (home, homes) same =
    let at : ℕ = l.start + t + 1 in
    let m : Log = write_block at (l.view b) l in
    let (view', disk') = write_log_from-elsewhere (t + 1) at bs m (inl (omega arith)) in
    let (on_disk, in_view) =
      Holds-write_log_from (t + 1) n bs m view (omega arith) homes
        (λ x far. assign_other l.view at (l.view b) x (λ e. ground arith) ∙ same x far) in
    (
      (disk' ∙ assign_self l.disk at (l.view b) at refl ∙ same b home, on_disk),
      (view' ∙ assign_self l.view at (l.view b) at refl ∙ same b home, in_view),
    )

-- The loops change the blocks only.
pub write_log_from-record :
    (t : ℕ) (bs : List ℕ) (l : Log)
    → record l {
      view = (write_log_from t bs l).view;
      disk = (write_log_from t bs l).disk;
      trail = (write_log_from t bs l).trail;
    }
      ≡ write_log_from t bs l
unfolding write_log_from
write_log_from-record t [] l = refl
write_log_from-record t (b ∷ bs) l = write_log_from-record (t + 1) bs _

pub install_from-record :
    (t : ℕ) (bs : List ℕ) (l : Log)
    → record l {
      view = (install_from t bs l).view;
      disk = (install_from t bs l).disk;
      trail = (install_from t bs l).trail;
    }
      ≡ install_from t bs l
unfolding install_from
install_from-record t [] l = refl
install_from-record t (b ∷ bs) l = install_from-record (t + 1) bs _
