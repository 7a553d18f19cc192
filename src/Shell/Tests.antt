-- ===== src/Shell/Tests.antt =====
-- Runs of the shell: "ls -l", and lines of three commands.
use os_codes.Common.{
  ℕ, zero, suc, Bool, true, false, ◌≡◌, ◌<◌, ◌≤◌, refl, some, none, List, [], ◌∷◌, ◌++◌, arith,
}
use os_codes.Shell.Tokens.{max_token_size, tokenize}
use os_codes.Shell.Tokens.Words.{ShortWords, Letters, tokenize-ended_words, tokenize_overflows}
use os_codes.Shell.Plan.{and_then, in_parallel, run_line}
use os_codes.Shell.Plan.Waits.{left_after, idle_waits, failures, run_line-left}

abbrev ls : List ℕ
ls = 108 ∷ 115 ∷ []

abbrev long : List ℕ
long = 45 ∷ 108 ∷ []

-- " ls\t -l\n"
abbrev line : List ℕ
line = 32 ∷ ls ++ (9 ∷ 32 ∷ long ++ (10 ∷ []))

line-ShortWords : ShortWords 0 line
line-ShortWords =
    let room : 0 < max_token_size = omega arith in
    let more : 1 < max_token_size = omega arith in
    let most : 2 < max_token_size = omega arith in
    (room, (room, (more, (most, (room, (room, (more, (most, tt))))))))

tokenize-ended_words_example : tokenize line ≡ some (ls ∷ long ∷ [])
tokenize-ended_words_example = tokenize-ended_words line line-ShortWords (omega arith)

abbrev eight : List ℕ
eight = 97 ∷ 97 ∷ 97 ∷ 97 ∷ 97 ∷ 97 ∷ 97 ∷ 97 ∷ []

abbrev sixty_four : List ℕ
sixty_four = eight ++ eight ++ eight ++ eight ++ eight ++ eight ++ eight ++ eight

more-Letters : (w : List ℕ) → Letters w → Letters (eight ++ w)
more-Letters w letters = (refl, (refl, (refl, (refl, (refl, (refl, (refl, (refl, letters))))))))

sixty_four-Letters : Letters sixty_four
sixty_four-Letters =
    let two = more-Letters eight (more-Letters [] tt) in
    let four = more-Letters (eight ++ eight ++ eight) (more-Letters (eight ++ eight) two) in
    let five = more-Letters (eight ++ eight ++ eight ++ eight) four in
    let six = more-Letters (eight ++ eight ++ eight ++ eight ++ eight) five in
    let seven = more-Letters (eight ++ eight ++ eight ++ eight ++ eight ++ eight) six in
    more-Letters (eight ++ eight ++ eight ++ eight ++ eight ++ eight ++ eight) seven

tokenize_overflows_example : tokenize (sixty_four ++ (10 ∷ [])) ≡ none
tokenize_overflows_example = tokenize_overflows sixty_four [] 10 sixty_four-Letters (omega arith)

-- The first of three forks fails.
abbrev first_fails : ℕ → Bool
first_fails zero = false
first_fails (suc n) = true

abbrev three : List (List ℕ)
three = in_parallel ∷ ls ∷ and_then ∷ ls ∷ []

run_line-left_example :
    (left_after 0 (run_line first_fails ls three) ≡ 0)
    × (idle_waits 0 (run_line first_fails ls three) ≤ failures (run_line first_fails ls three))
run_line-left_example = run_line-left first_fails ls three
