-- ===== src/Shell/Tokens/Words.antt =====
-- What `tokenize` gets of a line.
use os_codes.Common.{
  append_nil, append_assoc, length-snoc, ℕ, suc, ◌+◌, ◌≤◌, ◌<◌, ◌≡◌, refl, sym, ap, ◌∙◌, subst,
  Bool, true, false, not, none, some, List, [], ◌∷◌, ◌++◌, length, if◌then◌else◌, ltb, ◌==◌,
  Bool-cases, inl, inr, arith,
}
use os_codes.Shell.Tokens.{max_token_size, max_num_tokens, is_blank, tokenize_from, tokenize}

-- A tab, a newline or a space ends a word.
abbrev pub separates : ℕ → Bool
separates c = if c == 9 then true else if c == 10 then true else c == 32

is_blank-separates : (c : ℕ) → is_blank c ≡ separates c
is_blank-separates c = ground arith

-- The bytes of a line between its separators, before the first and behind the last of them.
abbrev pub with_first : ℕ → List (List ℕ) → List (List ℕ)
with_first c [] = (c ∷ []) ∷ []
with_first c (p ∷ ps) = (c ∷ p) ∷ ps

abbrev pub pieces : List ℕ → List (List ℕ)
pieces [] = [] ∷ []
pieces (c ∷ cs) = if separates c then [] ∷ pieces cs else with_first c (pieces cs)

-- All but the last, and of these the ones that have a byte.
abbrev pub but_last : List (List ℕ) → List (List ℕ)
but_last [] = []
but_last (p ∷ []) = []
but_last (p ∷ q ∷ ps) = p ∷ but_last (q ∷ ps)

abbrev pub not_empty : List (List ℕ) → List (List ℕ)
not_empty [] = []
not_empty ([] ∷ ps) = not_empty ps
not_empty ((c ∷ p) ∷ ps) = (c ∷ p) ∷ not_empty ps

-- The words of a line that a separator follows.
abbrev pub ended_words : List ℕ → List (List ℕ)
ended_words line = not_empty (but_last (pieces line))

-- No run of bytes without a blank is too long for the buffer.
abbrev pub ShortWords : ℕ → List ℕ → Type 0
ShortWords n [] = Unit
ShortWords n (c ∷ cs) = (n < max_token_size) × ShortWords (if separates c then 0 else suc n) cs

-- The same with `word` in front of the line.
abbrev words_from : List ℕ → List ℕ → List (List ℕ)
words_from word [] = []
words_from word (c ∷ cs) =
    if not (separates c)
    then words_from (word ++ (c ∷ [])) cs
    else if length word == 0
    then words_from [] cs
    else word ∷ words_from [] cs

abbrev in_front : List ℕ → List (List ℕ) → List (List ℕ)
in_front word [] = word ∷ []
in_front word (p ∷ ps) = (word ++ p) ∷ ps

pieces_some : (line : List ℕ) → (p : List ℕ) × (ps : List (List ℕ)) × (pieces line ≡ p ∷ ps)
pieces_some [] = ([], [], refl)
pieces_some (c ∷ cs) = elim (Bool-cases (separates c)) [
  | inl blank ↦ ([], pieces cs, rw blank)
  | inr letter ↦ let (p, ps, e) = pieces_some cs in (c ∷ p, ps, rw (letter, e))
]

end_word :
    (word : List ℕ) (qs rest : List (List ℕ))
    → rest ≡ not_empty qs
    → (if length word == 0 then rest else word ∷ rest) ≡ not_empty ((word ++ []) ∷ qs)
end_word [] qs rest e = e
end_word (d ∷ w) qs rest e =
    let full : (length (d ∷ w) == 0) ≡ false = ground arith in
    rw full (ap (λ xs. (d ∷ w) ∷ xs) e ∙ ap (λ x. (d ∷ x) ∷ not_empty qs) (sym (append_nil w)))

words_from-pieces :
    (line word : List ℕ) → words_from word line ≡ not_empty (but_last (in_front word (pieces line)))
words_from-pieces [] word = refl
words_from-pieces (c ∷ cs) word =
    let (p, ps, e) = pieces_some cs in
    elim (Bool-cases (separates c)) [
      | inr letter ↦
          rw (letter, e)
            (words_from-pieces cs (word ++ (c ∷ []))
              ∙ ap (λ qs. not_empty (but_last (in_front (word ++ (c ∷ [])) qs))) e
              ∙ ap (λ q. not_empty (but_last (q ∷ ps))) (append_assoc word (c ∷ []) p))
      | inl blank ↦
          let rest : words_from [] cs ≡ not_empty (but_last (p ∷ ps)) =
            words_from-pieces cs [] ∙ ap (λ qs. not_empty (but_last (in_front [] qs))) e in
          rw (blank, e) (end_word word (but_last (p ∷ ps)) (words_from [] cs) rest)
    ]

words_from-ended_words : (line : List ℕ) → words_from [] line ≡ ended_words line
words_from-ended_words line =
    let (p, ps, e) = pieces_some line in
    words_from-pieces line []
    ∙ ap (λ qs. not_empty (but_last (in_front [] qs))) e
    ∙ ap (λ qs. not_empty (but_last qs)) (sym e)

tokenize_from-words :
    (line token : List ℕ) (tokens : List (List ℕ))
    → ShortWords (length token) line
    → length tokens + length (words_from token line) < max_num_tokens
    → tokenize_from line token tokens ≡ some (tokens ++ words_from token line)
unfolding tokenize_from
tokenize_from-words [] token tokens short few =
    let room : ltb (length tokens) max_num_tokens ≡ true = ground arith in
    rw room (ap some (sym (append_nil tokens)))
tokenize_from-words (c ∷ cs) token tokens (small, short) few =
    let fits : ltb (length token) max_token_size ≡ true = ground arith in
    let test = is_blank-separates c in
    elim (Bool-cases (separates c)) [
      | inr letter ↦
          let later : ShortWords (suc (length token)) cs = rw letter at short in
          let longer : ShortWords (length (token ++ (c ∷ []))) cs =
            subst (λ n. ShortWords n cs) (sym (length-snoc token c)) later in
          let as_few : length tokens + length (words_from (token ++ (c ∷ [])) cs) < max_num_tokens =
            rw letter at few in
          rw (fits, test, letter) (tokenize_from-words cs (token ++ (c ∷ [])) tokens longer as_few)
      | inl blank ↦
          let later : ShortWords 0 cs = rw blank at short in
          elim (Bool-cases (length token == 0)) [
            | inl empty ↦
                let as_few : length tokens + length (words_from [] cs) < max_num_tokens =
                  rw (blank, empty) at few in
                rw (fits, test, blank, empty) (tokenize_from-words cs [] tokens later as_few)
            | inr full ↦
                let fewer : length tokens + suc (length (words_from [] cs)) < max_num_tokens =
                  rw (blank, full) at few in
                let room : ltb (length tokens) max_num_tokens ≡ true = ground arith in
                let one_more = length-snoc tokens token in
                rw (fits, test, blank, full, room)
                  (tokenize_from-words cs [] (tokens ++ (token ∷ [])) later
                      (omega (arith, one_more))
                    ∙ ap some (append_assoc tokens (token ∷ []) (words_from [] cs)))
          ]
    ]

-- If no run of bytes without a blank has 64 bytes, and fewer than 64 words of the line are followed by a
-- blank, then `tokenize` stays inside its buffers and returns these words, in their order. What stands
-- behind the last blank of the line is left out.
pub tokenize-ended_words :
    (line : List ℕ)
    → ShortWords 0 line
    → length (ended_words line) < max_num_tokens
    → tokenize line ≡ some (ended_words line)
unfolding tokenize
tokenize-ended_words line short few =
    let same = words_from-ended_words line in
    tokenize_from-words line [] [] short (omega (arith, ap length same, few)) ∙ ap some same

-- Bytes without a blank.
abbrev pub Letters : List ℕ → Type 0
Letters [] = Unit
Letters (c ∷ cs) = (separates c ≡ false) × Letters cs

tokenize_from_overflows :
    (w cs token : List ℕ) (c : ℕ) (tokens : List (List ℕ))
    → Letters w
    → max_token_size ≤ length token + length w
    → tokenize_from (w ++ (c ∷ cs)) token tokens ≡ none
unfolding tokenize_from
tokenize_from_overflows [] cs token c tokens letters long =
    let out : ltb (length token) max_token_size ≡ false = ground arith in rw out
tokenize_from_overflows (l ∷ w) cs token c tokens (letter, letters) long =
    elim (Bool-cases (ltb (length token) max_token_size)) [
      | inr out ↦ rw out
      | inl fits ↦
          let one_more = length-snoc token l in
          rw (fits, is_blank-separates l, letter)
            (tokenize_from_overflows w cs (token ++ (l ∷ [])) c tokens letters
              (omega (arith, one_more)))
    ]

-- A line that starts with 64 bytes or more without a blank, and goes on after them, makes `tokenize`
-- write outside of the buffer of a token.
pub tokenize_overflows :
    (w cs : List ℕ) (c : ℕ)
    → Letters w
    → max_token_size ≤ length w
    → tokenize (w ++ (c ∷ cs)) ≡ none
unfolding tokenize
tokenize_overflows w cs c letters long =
    tokenize_from_overflows w cs [] c [] letters (omega (arith, long))
