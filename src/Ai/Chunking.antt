-- ===== src/Ai/Chunking.antt =====
-- app/ai/embeddings/service.py: `chunk_text`. The encoder of tiktoken is a parameter: it turns a text
use mathlib.Core.Option
use repo_info_backend.Core.Errors.{Exception}
use repo_info_backend.Database.Session.{Result, err, map_ok, ok}
use repo_info_backend.Prelude.{
  List, Option, Text, [], drop, if◌then◌else◌, leb, length, ltb, map, nat_eq, none, some, string_eq,
  suc, take, text_eq, zero, ℕ, ◌+◌, ◌-◌, ◌==◌, ◌∷◌,
}
-- into tokens, which are numbers, and tokens into a text.
use repo_info_backend.Prelude.{ℕ}

-- `tokens[start : start + max_tokens]`
abbrev pub window : ℕ → ℕ → List ℕ → List ℕ
window start max_tokens tokens = take max_tokens (drop start tokens)

-- The rounds of `for start in range(0, len(tokens), step)` from `start` on, with a positive step; one
-- unit of fuel for each round, and `none` where the fuel runs out.
unfoldable pub windows_from : ℕ → ℕ → ℕ → List ℕ → ℕ → Option (List (List ℕ))
windows_from zero step max_tokens tokens start = none
windows_from (suc fuel) step max_tokens tokens start =
    let rest = windows_from fuel step max_tokens tokens (start + step) in
    if ltb start (length tokens)
    then (if leb (length tokens) (start + max_tokens)
        then some (window start max_tokens tokens ∷ [])
        else Option.map (λ ws. window start max_tokens tokens ∷ ws) rest)
    else some []

-- `step = max_tokens - overlap`: `range` refuses the step 0, and is empty for a negative one. A round
-- takes a token at least, so that the number of tokens and one is fuel enough.
unfoldable pub token_windows : ℕ → ℕ → List ℕ → Result (List (List ℕ))
unfolding windows_from
token_windows max_tokens overlap [] = ok []
token_windows max_tokens overlap (t ∷ ts) =
    if overlap == max_tokens
    then err (Exception.other "ValueError")
    else if ltb max_tokens overlap
    then ok []
    else elim (windows_from (suc (length (t ∷ ts))) (max_tokens - overlap) max_tokens (t ∷ ts) 0) [
      | some ws ↦ ok ws
      | none ↦ err (Exception.other "fuel")
    ]

-- `chunk_text`, with the library's `encode` and `decode`
unfoldable pub chunk_text : (Text → List ℕ) → (List ℕ → Text) → ℕ → ℕ → Text → Result (List Text)
unfolding token_windows
chunk_text encode decode max_tokens overlap text =
    map_ok (map decode) (token_windows max_tokens overlap (encode text))
