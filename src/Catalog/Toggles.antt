-- ===== src/Catalog/Toggles.antt =====
-- Favourites and pins of app/repositories/repository.py, and the life of a repository.
use repo_info_backend.Catalog.GitUrl.{after}
use repo_info_backend.Catalog.Queries.{
  is_favorite, is_pair, processing_sequence, remove, toggle_favorite,
}
use repo_info_backend.Catalog.Service.{ProcessingStepOut, render_step, render_steps, step_for}
use repo_info_backend.Catalog.Tables.{ProcessingStep, Shelf}
use repo_info_backend.Database.Session.{ok}
use repo_info_backend.Models.Enums.{ProcessingStage, processing_stage_eq}
use repo_info_backend.Prelude.{
  Bool, Bool-cases, List, Option, Option-cases, [], ap, arith, beq→eq, false, find?,
  find?-append_none, if◌then◌else◌, inl, inr, is_some, map, nat_beq_refl, nat_eq, none, not, refl,
  some, sym, text_eq, true, ℕ, ◌++◌, ◌==◌, ◌∙◌, ◌∷◌, ◌≡◌, ◌≢◌, ◌⊎◌,
}

find?-filter_none : {A : Type 0} (p : A → Bool) (xs : List A) → find? p (remove p xs) ≡ none
find?-filter_none p [] = refl
find?-filter_none p (x ∷ xs) = elim (Bool-cases (p x)) [
  | inl t ↦ rw (t, find?-filter_none p xs)
  | inr f ↦ rw (f, f, find?-filter_none p xs)
]

find?-filter_other :
    {A : Type 0} (p q : A → Bool) (xs : List A)
    → ((x : A) → p x ≡ true → q x ≡ false)
    → find? q (remove p xs) ≡ find? q xs
find?-filter_other p q [] h = refl
find?-filter_other p q (x ∷ xs) h = ground (arith, h x, find?-filter_other p q xs h)

is_some-false : {A : Type 0} (o : Option A) → is_some o ≡ false → o ≡ none
is_some-false none h = refl
is_some-false (some a) h = cc

find?-append_other :
    {A : Type 0} (q : A → Bool) (xs : List A) (y : A)
    → q y ≡ false
    → find? q (xs ++ y ∷ []) ≡ find? q xs
find?-append_other q [] y h = rw h
find?-append_other q (x ∷ xs) y h = ground (arith, find?-append_other q xs y h)

is_pair_refl : (u r : ℕ) → is_pair u r (u, r) ≡ true
is_pair_refl u r = rw (nat_beq_refl u, nat_beq_refl r)

other_pair :
    (u r u' r' : ℕ) (x : ℕ × ℕ)
    → ((u ≢ u') ⊎ (r ≢ r'))
    → is_pair u r x ≡ true
    → is_pair u' r' x ≡ false
other_pair u r u' r' x h e = ground (arith, h, e)

-- A toggle turns the mark of its own pair over, and leaves the marks of every other user and of every
-- other repository alone; the answer is the new mark.
pub toggle_favorite_effect :
    (user_id repo_id : ℕ) (s : Shelf)
    → let (r, after) = toggle_favorite user_id repo_id s in
      (is_favorite user_id repo_id after ≡ not (is_favorite user_id repo_id s))
      × (r ≡ ok (not (is_favorite user_id repo_id s)))
      × ((u' r' : ℕ)
          → (user_id ≢ u') ⊎ (repo_id ≢ r')
          → is_favorite u' r' after ≡ is_favorite u' r' s)
unfolding toggle_favorite is_favorite
toggle_favorite_effect user_id repo_id s = elim (Bool-cases (is_favorite user_id repo_id s)) [
  | inl t ↦ rw t (
    ap is_some (find?-filter_none (is_pair user_id repo_id) s.favorites),
    refl,
    λ u' r' other. ap is_some (
        find?-filter_other (is_pair user_id repo_id) (is_pair u' r') s.favorites
          (λ x. other_pair user_id repo_id u' r' x other)),
  )
  | inr f ↦ rw f (
    ap is_some (
          find?-append_none (is_pair user_id repo_id) s.favorites ((user_id, repo_id) ∷ [])
            (is_some-false _ f))
        ∙ ap (λ b. is_some {A = ℕ × ℕ} (if b then some (user_id, repo_id) else none))
            (is_pair_refl user_id repo_id),
    refl,
    λ u' r' other. ap is_some (
        find?-append_other (is_pair u' r') s.favorites (user_id, repo_id)
          (other_pair user_id repo_id u' r' (user_id, repo_id) other
            (is_pair_refl user_id repo_id))),
  )
]

step_for_stage :
    (stage : ProcessingStage) (xs : List ProcessingStep)
    → (render_step stage (step_for stage xs)).stage ≡ stage
step_for_stage stage [] = refl
step_for_stage stage (x ∷ xs) = elim (Option-cases (step_for stage xs)) [
  | inl e ↦ elim (Bool-cases (x.stage == stage)) [
    | inl t ↦ rw (e, t) (beq→eq x.stage stage t)
    | inr f ↦ rw (e, f)
  ]
  | inr (y, e) ↦
      ap
        (λ (o : Option ProcessingStep).
          (render_step stage
            (elim o [ some z ↦ some z | none ↦ if x.stage == stage then some x else none ])).stage)
        e
      ∙ (ap (λ (o : Option ProcessingStep). (render_step stage o).stage) (sym e)
          ∙ step_for_stage stage xs)
]

-- Whatever rows an analysis has, its rendering shows the nine stages, each once and in their order.
pub render_steps_stages :
    (existing : List ProcessingStep)
    → map (λ (x : ProcessingStepOut). x.stage) (render_steps existing) ≡ processing_sequence
unfolding render_steps
render_steps_stages existing = all_stages processing_sequence
  where
    all_stages :
        (stages : List ProcessingStage)
        → map
            (λ (x : ProcessingStepOut). x.stage)
            (map (λ stage. render_step stage (step_for stage existing)) stages)
          ≡ stages
    all_stages [] = refl
    all_stages (stage ∷ stages) = rw (step_for_stage stage existing, all_stages stages)
