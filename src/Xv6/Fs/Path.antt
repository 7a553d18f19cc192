-- ===== src/Xv6/Fs/Path.antt =====
-- `skipelem` of fs.c: a path is a list of bytes.
use os_codes.Common.{
  ℕ, zero, suc, ◌-◌, ◌≤◌, ◌<◌, ◌≡◌, refl, sym, ap, ◌∙◌, Bool, false, Option, none, some, List, [],
  ◌∷◌, ◌++◌, map, length, take, if◌then◌else◌, ◌==◌, Bool-cases, inl, inr, append_nil, append_assoc,
  arith,
}

-- DIRSIZ
abbrev pub dirsiz : ℕ
dirsiz = 14

abbrev pub is_slash : ℕ → Bool
is_slash c = c == 47

-- while(*path == '/') path++;
unfoldable pub skip_slashes : List ℕ → List ℕ
skip_slashes [] = []
skip_slashes (c ∷ cs) = let rest = skip_slashes cs in if is_slash c then rest else c ∷ cs

-- while(*path != '/' && *path != 0) path++; with the bytes from `s` on, and the rest
unfoldable pub element : List ℕ → List ℕ × List ℕ
element [] = ([], [])
element (c ∷ cs) =
    let rest = element cs in if is_slash c then ([], c ∷ cs) else (c ∷ rest.0, rest.1)

-- The name, cut at DIRSIZ bytes, and the rest of the path.
unfoldable pub skipelem : List ℕ → Option (List ℕ × List ℕ)
unfolding skip_slashes element
skipelem path = elim (skip_slashes path) [
  | [] ↦ none
  | c ∷ cs ↦ some (take dirsiz (element (c ∷ cs)).0, skip_slashes (element (c ∷ cs)).1)
]

-- The names that the loop of `namex` goes through, in at most `fuel` rounds.
unfoldable pub names : ℕ → List ℕ → List (List ℕ)
names zero path = []
names (suc fuel) path = elim (skipelem path) [
  | none ↦ []
  | some (name, rest) ↦ name ∷ names fuel rest
]

-- The parts of a path between slashes, with `part` in front; parts without a byte do not count.
abbrev pub parts_from : List ℕ → List ℕ → List (List ℕ)
parts_from [] [] = []
parts_from (p ∷ part) [] = (p ∷ part) ∷ []
parts_from [] (c ∷ cs) = if is_slash c then parts_from [] cs else parts_from (c ∷ []) cs
parts_from (p ∷ part) (c ∷ cs) =
    if is_slash c then (p ∷ part) ∷ parts_from [] cs else parts_from ((p ∷ part) ++ (c ∷ [])) cs

abbrev pub parts : List ℕ → List (List ℕ)
parts path = parts_from [] path

parts-skip_slashes : (path : List ℕ) → parts (skip_slashes path) ≡ parts path
unfolding skip_slashes
parts-skip_slashes [] = refl
parts-skip_slashes (c ∷ cs) = elim (Bool-cases (is_slash c)) [
  | inl slash ↦ rw slash (parts-skip_slashes cs)
  | inr other ↦ rw (other, other)
]

parts_from-element :
    (p : ℕ) (part cs : List ℕ)
    → parts_from (p ∷ part) cs ≡ ((p ∷ part) ++ (element cs).0) ∷ parts (element cs).1
unfolding element
parts_from-element p part [] = ap (λ x. x ∷ []) (sym (append_nil (p ∷ part)))
parts_from-element p part (c ∷ cs) = elim (Bool-cases (is_slash c)) [
  | inl slash ↦ rw (slash, append_nil part, slash)
  | inr other ↦ rw other (
      parts_from-element p (part ++ (c ∷ [])) cs
      ∙ ap (λ x. (p ∷ x) ∷ parts (element cs).1) (append_assoc part (c ∷ []) (element cs).0))
]

-- A path that begins with no slash.
parts_head :
    (c : ℕ) (cs : List ℕ)
    → is_slash c ≡ false
    → parts (c ∷ cs) ≡ (element (c ∷ cs)).0 ∷ parts (element (c ∷ cs)).1
unfolding element
parts_head c cs other = rw other (parts_from-element c [] cs)

length-skip_slashes : (path : List ℕ) → length (skip_slashes path) ≤ length path
unfolding skip_slashes
length-skip_slashes [] = omega arith
length-skip_slashes (c ∷ cs) = elim (Bool-cases (is_slash c)) [
  | inl slash ↦ rw slash (omega (arith, length-skip_slashes cs))
  | inr other ↦ rw other (omega arith)
]

length-element : (path : List ℕ) → length (element path).1 ≤ length path
unfolding element
length-element [] = omega arith
length-element (c ∷ cs) = elim (Bool-cases (is_slash c)) [
  | inl slash ↦ rw slash (omega arith)
  | inr other ↦ rw other (omega (arith, length-element cs))
]

length-element_head :
    (c : ℕ) (cs : List ℕ) → is_slash c ≡ false → length (element (c ∷ cs)).1 ≤ length cs
unfolding element
length-element_head c cs other = rw other (length-element cs)

skip_slashes_head :
    (path : List ℕ) (c : ℕ) (cs : List ℕ) → skip_slashes path ≡ c ∷ cs → is_slash c ≡ false
unfolding skip_slashes
skip_slashes_head [] c cs e = absurd (cc e)
skip_slashes_head (d ∷ ds) c cs e = elim (Bool-cases (is_slash d)) [
  | inl slash ↦ skip_slashes_head ds c cs (rw slash at e)
  | inr other ↦ let same : d ≡ c = cc (rw other at e) in ap is_slash (sym same) ∙ other
]

skipelem-none : (path : List ℕ) → skip_slashes path ≡ [] → skipelem path ≡ none
unfolding skipelem
skipelem-none path e = rw (e, skipelem)

skipelem-some :
    (path : List ℕ) (c : ℕ) (cs : List ℕ)
    → skip_slashes path ≡ c ∷ cs
    → skipelem path ≡ some (take dirsiz (element (c ∷ cs)).0, skip_slashes (element (c ∷ cs)).1)
unfolding skipelem
skipelem-some path c cs e = rw (e, skipelem)

names-none : (fuel : ℕ) (path : List ℕ) → skipelem path ≡ none → names (suc fuel) path ≡ []
unfolding names
names-none fuel path e = rw (e, names)

names-some :
    (fuel : ℕ) (path name rest : List ℕ)
    → skipelem path ≡ some (name, rest)
    → names (suc fuel) path ≡ name ∷ names fuel rest
unfolding names
names-some fuel path name rest e = rw (e, names)

names_of :
    (fuel : ℕ) (path p : List ℕ)
    → skip_slashes path ≡ p
    → length path ≤ fuel
    → ((rest : List ℕ)
        → length rest < length path
        → names (fuel - 1) rest ≡ map (take dirsiz) (parts rest))
    → names fuel path ≡ map (take dirsiz) (parts path)
unfolding names
names_of zero [] p e enough ih = refl
names_of zero (c ∷ cs) p e enough ih = absurd (omega arith)
names_of (suc fuel) path [] e enough ih =
    names-none fuel path (skipelem-none path e)
    ∙ ap (map (take dirsiz)) (ap parts (sym e) ∙ parts-skip_slashes path)
names_of (suc fuel) path (c ∷ cs) e enough ih =
    let other = skip_slashes_head path c cs e in
    let rest : List ℕ = (element (c ∷ cs)).1 in
    let split : parts path ≡ (element (c ∷ cs)).0 ∷ parts rest =
      sym (parts-skip_slashes path) ∙ ap parts e ∙ parts_head c cs other in
    let shorter : length (skip_slashes rest) < length path = omega (
      arith,
      length-skip_slashes path,
      ap length e,
      length-skip_slashes rest,
      length-element_head c cs other,
    ) in
    let fuel_left : suc fuel - 1 ≡ fuel = omega arith in
    names-some fuel path _ _ (skipelem-some path c cs e)
    ∙ ap (λ ns. take dirsiz (element (c ∷ cs)).0 ∷ ns)
        ((rw fuel_left at (ih (skip_slashes rest) shorter))
          ∙ ap (map (take dirsiz)) (parts-skip_slashes rest))
    ∙ ap (map (take dirsiz)) (sym split)

-- The names that `namex` goes through are the parts of the path between its slashes, in their order and
-- each cut at 14 bytes; as many rounds as the path has bytes are enough.
pub names-parts :
    (fuel : ℕ) (path : List ℕ)
    → length path ≤ fuel
    → names fuel path ≡ map (take dirsiz) (parts path)
names-parts zero path enough = names_of zero path _ refl enough (λ rest lt. absurd (omega arith))
names-parts (suc fuel) path enough =
    let fuel_left : suc fuel - 1 ≡ fuel = omega arith in
    names_of (suc fuel) path _ refl enough
      (λ rest lt. rw fuel_left (names-parts fuel rest (omega arith)))
