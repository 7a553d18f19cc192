-- ===== src/Shell/Tokens.antt =====
-- `tokenize`: a line is a list of bytes, and so is a token.
pub mod Words
use os_codes.Common.{
  ℕ, zero, suc, ◌+◌, Bool, true, false, not, ◌||◌, Option, none, some, ◌>>=◌, ◌>>◌, assert, List,
  [], ◌∷◌, ◌++◌, length, if◌then◌else◌, ltb, ◌==◌,
}

-- MAX_TOKEN_SIZE and MAX_NUM_TOKENS
abbrev pub max_token_size : ℕ
max_token_size = 64

abbrev pub max_num_tokens : ℕ
max_num_tokens = 64

-- ' ', '\n' and '\t'
abbrev pub is_blank : ℕ → Bool
is_blank c = (c == 32) || (c == 10) || (c == 9)

-- The loop, with the bytes of `token` and the tokens so far. `none` is a write outside of a buffer.
unfoldable pub tokenize_from : List ℕ → List ℕ → List (List ℕ) → Option (List (List ℕ))
tokenize_from [] token tokens = assert (ltb (length tokens) max_num_tokens) >> some tokens
tokenize_from (c ∷ cs) token tokens =
    let blank =
      tokenize_from cs [] (if length token == 0 then tokens else tokens ++ (token ∷ [])) in
    let other = tokenize_from cs (token ++ (c ∷ [])) tokens in
    let room = (length token == 0) || ltb (length tokens) max_num_tokens in
    if not (ltb (length token) max_token_size)
    then none
    else if not (is_blank c)
    then other
    else if room
    then blank
    else none

unfoldable pub tokenize : List ℕ → Option (List (List ℕ))
unfolding tokenize_from
tokenize line = tokenize_from line [] []
