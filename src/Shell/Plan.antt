-- ===== src/Shell/Plan.antt =====
-- What the child of the shell does with the tokens of a line: `&&` and `&&&` split it into commands.
pub mod Waits
use os_codes.Common.{
  ℕ, zero, suc, ◌+◌, Bool, true, false, not, ◌&&◌, Option, none, some, List, [], ◌∷◌, ◌++◌,
  if◌then◌else◌, ◌==◌,
}

-- `!strcmp(a, b)`
abbrev pub same : List ℕ → List ℕ → Bool
same [] [] = true
same (a ∷ as_) (b ∷ bs) = (a == b) && same as_ bs
same _ _ = false

-- "&", "&&", "&&&" and "cd"
abbrev pub amp : List ℕ
amp = 38 ∷ []

abbrev pub and_then : List ℕ
and_then = 38 ∷ 38 ∷ []

abbrev pub in_parallel : List ℕ
in_parallel = 38 ∷ 38 ∷ 38 ∷ []

abbrev pub cd : List ℕ
cd = 99 ∷ 100 ∷ []

-- What the child of the shell calls, in order: `fork` with `execvp` of a command in the new process, a
-- `fork` that returns -1, and `wait(NULL)`.
pub data Effect : Type 0 where
  spawn : List (List ℕ) → Effect
  fork_fails : List (List ℕ) → Effect
  wait_one : Effect

-- The `fork` for a command; `ok` tells of the forks, in their order, whether they succeed.
abbrev pub fork : (ℕ → Bool) → ℕ → List (List ℕ) → Effect
fork ok k command = if ok k then spawn command else fork_fails command

abbrev pub waits : ℕ → List Effect
waits zero = []
waits (suc n) = wait_one ∷ waits n

-- The loop over the tokens, after `k` forks, with the command from `prev` on and the count `co`, and what
-- follows it.
unfoldable pub run_from : (ℕ → Bool) → ℕ → List (List ℕ) → ℕ → List (List ℕ) → List Effect
run_from ok k command co [] = fork ok k command ∷ waits co
run_from ok k command co (t ∷ ts) =
    let next = run_from ok (suc k) [] co ts in
    let parallel = run_from ok (suc k) [] (suc co) ts in
    let on = run_from ok k (command ++ (t ∷ [])) co ts in
    if same t and_then
    then fork ok k command ∷ wait_one ∷ next
    else if same t in_parallel
    then fork ok k command ∷ parallel
    else on

-- `tokens[len-1] = '\0'` if the last token is "&"
unfoldable pub strip_amp : List (List ℕ) → List (List ℕ)
strip_amp [] = []
strip_amp (t ∷ []) = if same t amp then [] else t ∷ []
strip_amp (t ∷ u ∷ ts) = t ∷ strip_amp (u ∷ ts)

-- The child of a line whose first token is `t`.
unfoldable pub run_line : (ℕ → Bool) → List ℕ → List (List ℕ) → List Effect
unfolding run_from strip_amp
run_line ok t ts = if same t cd then [] else run_from ok 0 [] 1 (strip_amp (t ∷ ts))
