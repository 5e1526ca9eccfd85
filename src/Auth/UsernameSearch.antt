-- ===== src/Auth/UsernameSearch.antt =====
-- The search for a free username (app/services/oauth_service.py) ends: its candidates are all different,
-- and each that is taken is taken by another user.
use repo_info_backend.Auth.Repositories.{get_by_username}
use repo_info_backend.Auth.Tables.{User, World}
use repo_info_backend.Auth.Usernames.{candidate, choose_username, free_username}
use repo_info_backend.Prelude.{
  Bool, List, Option-cases, Text, [], and_left, ap, arith, beq→eq, codes, decimal,
  decimal_injective, drop, find?, hits, hits-ext, hits-one, hits-or, hits-zero, inl, inr, is_none,
  is_some, length, length-append, nat_eq, none, refl, some, string_eq, subst, suc, sym, text_eq,
  true, zero, ℕ, ◌&&◌, ◌++◌, ◌+◌, ◌==◌, ◌||◌, ◌∙◌, ◌∷◌, ◌≡◌, ◌≢◌, ◌≤◌,
}

append_cancel : (front a b : Text) → front ++ a ≡ front ++ b → a ≡ b
append_cancel [] a b e = e
append_cancel (c ∷ front) a b e = append_cancel front a b (ap (drop 1) e)

longer : (base : Text) (c : ℕ) (rest : Text) → base ≢ base ++ c ∷ rest
longer base c rest e =
    let same : length base ≡ length (base ++ c ∷ rest) = ap length e in
    omega (arith, same, length-append base (c ∷ rest))

candidate_injective : (base : Text) (i j : ℕ) → candidate base i ≡ candidate base j → i ≡ j
candidate_injective base zero zero e = refl
candidate_injective base zero (suc j) e = absurd (longer base b'-' (decimal (suc j)) e)
candidate_injective base (suc i) zero e = absurd (longer base b'-' (decimal (suc i)) (sym e))
candidate_injective base (suc i) (suc j) e =
    decimal_injective (suc i) (suc j) (append_cancel (codes "-") _ _ (append_cancel base _ _ e))

abbrev holds_name : Text → User → Bool
holds_name name u = u.username == name && is_none u.deleted_at

abbrev is_taken : Text → List User → ℕ → Bool
is_taken base users j = is_some (find? (holds_name (candidate base j)) users)

-- each user takes one candidate at most
taken_le :
    (base : Text) (users : List User) (k n : ℕ) → hits (is_taken base users) k n ≤ length users
taken_le base [] k n = rw (hits-zero (is_taken base []) k n (λ j low. refl)) (omega arith)
taken_le base (u ∷ users) k n =
    let split : hits (is_taken base (u ∷ users)) k n
        ≡ hits (λ j. holds_name (candidate base j) u || is_taken base users j) k n =
      hits-ext _ _ k n here_or_later in
    omega (
      arith,
      split,
      hits-or (λ j. holds_name (candidate base j) u) (is_taken base users) k n,
      hits-one (λ j. holds_name (candidate base j) u) k n one_name,
      taken_le base users k n,
    )
  where
    here_or_later :
        (j : ℕ)
        → is_taken base (u ∷ users) j ≡ (holds_name (candidate base j) u || is_taken base users j)
    here_or_later j = ground arith

    one_name :
        (i j : ℕ)
        → holds_name (candidate base i) u ≡ true
        → holds_name (candidate base j) u ≡ true
        → i ≡ j
    one_name i j hi hj = candidate_injective base i j (
        sym (beq→eq u.username (candidate base i) (and_left _ _ hi))
        ∙ beq→eq u.username (candidate base j) (and_left _ _ hj))

-- the search fails only when every candidate that it tries is taken
all_taken :
    (fuel : ℕ) (base : Text) (k : ℕ) (s : World)
    → free_username fuel base k s ≡ none
    → hits (is_taken base s.users) k fuel ≡ fuel
unfolding free_username get_by_username
all_taken zero base k s e = refl
all_taken (suc fuel) base k s e = ground (arith, all_taken fuel base (k + 1) s)

found_free :
    (fuel : ℕ) (base : Text) (k : ℕ) (s : World) (name : Text)
    → free_username fuel base k s ≡ some name
    → get_by_username name s ≡ none
unfolding free_username
found_free zero base k s name e = cc
found_free (suc fuel) base k s name e = elim (Option-cases (get_by_username (candidate base k) s)) [
  | inl free ↦ subst (λ n. get_by_username n s ≡ none) (ground arith) free
  | inr (u, taken) ↦ found_free fuel base (k + 1) s name (ground arith)
]

-- The loop ends within one round more than there are users, with a name that no user has who is not deleted.
pub choose_username_ends :
    (base : Text) (s : World)
    → (name : Text) × (choose_username base s ≡ some name) × (get_by_username name s ≡ none)
unfolding choose_username
choose_username_ends base s = elim (Option-cases (choose_username base s)) [
  | inl e ↦ absurd (
      omega (
        arith,
        all_taken (length s.users + 1) base 0 s e,
        taken_le base s.users 0 (length s.users + 1),
      ))
  | inr (name, e) ↦ (name, e, found_free (length s.users + 1) base 0 s name e)
]
