-- ===== src/Ai/Coverage.antt =====
-- The chunks of `chunk_text` in app/ai/embeddings/service.py cover the text.
use repo_info_backend.Ai.Chunking.{token_windows, window, windows_from}
use repo_info_backend.Database.Session.{ok}
use repo_info_backend.Prelude.{
  All, Bool-cases, List, [], append_nil, arith, beq_false, drop, drop-drop, drop_all, false, inl,
  inr, leb, leb-false, leb→le, length, length-drop, length-take, ltb, ltb→le, refl, some, suc, sym,
  take, take-drop, take_all, zero, ℕ, ◌++◌, ◌+◌, ◌-◌, ◌<◌, ◌∙◌, ◌∷◌, ◌≡◌, ◌≤◌,
}

-- The chunks put together again: each repeats `overlap` tokens of the one before.
abbrev pub glue : ℕ → List (List ℕ) → List ℕ
glue overlap [] = []
glue overlap (w ∷ ws) = w ++ drop overlap (glue overlap ws)

glue_last :
    (max_tokens overlap : ℕ) (xs : List ℕ)
    → length xs ≤ max_tokens
    → glue overlap (take max_tokens xs ∷ []) ≡ xs
glue_last max_tokens overlap xs h =
    rw (drop_all {A = ℕ} overlap [] (omega arith), append_nil) (take_all max_tokens xs h)

glue_more :
    (step max_tokens overlap : ℕ) (xs : List ℕ) (ws : List (List ℕ))
    → overlap + step ≡ max_tokens
    → glue overlap ws ≡ drop step xs
    → glue overlap (take max_tokens xs ∷ ws) ≡ xs
glue_more step max_tokens overlap xs ws e h =
    let e' : step + overlap ≡ max_tokens = omega arith in
    rw (h, drop-drop step overlap xs, e') (take-drop max_tokens xs)

-- what the rounds from `start` on return
abbrev Covers : ℕ → ℕ → List ℕ → List (List ℕ) → Type 0
Covers max_tokens overlap tokens ws =
    All (λ (w : List ℕ). length w ≤ max_tokens) ws × (glue overlap ws ≡ tokens)

windows_cover :
    (fuel step max_tokens overlap : ℕ) (tokens : List ℕ) (start : ℕ)
    → start ≤ length tokens
    → 0 < step
    → overlap + step ≡ max_tokens
    → length tokens < start + fuel
    → (ws : List (List ℕ)) × (windows_from fuel step max_tokens tokens start ≡ some ws)
      × Covers max_tokens overlap (drop start tokens) ws
unfolding windows_from
windows_cover zero step max_tokens overlap tokens start b p e h = absurd (omega arith)
windows_cover (suc fuel) step max_tokens overlap tokens start b p e h =
    elim (Bool-cases (ltb start (length tokens))) [
      | inr past ↦ (
        [],
        rw past,
        (tt, sym (drop_all start tokens (omega (arith, ltb→le start (length tokens) past)))),
      )
      | inl within ↦ elim (Bool-cases (leb (length tokens) (start + max_tokens))) [
        | inl last ↦ (
          window start max_tokens tokens ∷ [],
          rw (within, last),
          (
            (short, tt),
            glue_last max_tokens overlap (drop start tokens) (
                omega (
                  arith,
                  length-drop {0} start tokens,
                  leb→le (length tokens) (start + max_tokens) last,
                )),
          ),
        )
        | inr more ↦
            let (ws, found, (small, glued)) =
              windows_cover fuel step max_tokens overlap tokens (start + step)
                (omega (arith, leb-false (length tokens) (start + max_tokens) more)) p e
                (omega arith) in
            (
              window start max_tokens tokens ∷ ws,
              rw (within, more, found),
              (
                (short, small),
                glue_more step max_tokens overlap (drop start tokens) ws e
                    (glued ∙ sym (drop-drop start step tokens)),
              ),
            )
      ]
    ]
  where
    short : length (window start max_tokens tokens) ≤ max_tokens
    short = omega (arith, length-take {0} max_tokens (drop start tokens))

-- Where the overlap is smaller than the chunks, the loop ends, no chunk has more than `max_tokens` tokens,
-- and the chunks cover the text: put together again, each without the tokens that it repeats, they give
-- the tokens of the whole text in their order.
pub token_windows_cover :
    (max_tokens overlap : ℕ) (tokens : List ℕ)
    → overlap < max_tokens
    → (ws : List (List ℕ)) × (token_windows max_tokens overlap tokens ≡ ok ws)
      × All (λ (w : List ℕ). length w ≤ max_tokens) ws
      × (glue overlap ws ≡ tokens)
unfolding token_windows
token_windows_cover max_tokens overlap [] h = ([], refl, tt, refl)
token_windows_cover max_tokens overlap (t ∷ ts) h =
    let (ws, found, (small, glued)) =
      windows_cover (suc (length (t ∷ ts))) (max_tokens - overlap) max_tokens overlap (t ∷ ts) 0
        (omega arith) (omega arith) (omega arith) (omega arith) in
    (ws, rw (beq_false overlap max_tokens (λ e. omega arith), not_more, found), small, glued)
  where
    not_more : ltb max_tokens overlap ≡ false
    not_more = ground arith
