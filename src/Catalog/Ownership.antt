-- ===== src/Catalog/Ownership.antt =====
-- Who may use a repository, in app/services/repository_service.py.
use repo_info_backend.Catalog.Queries.{get_full, get_repository}
use repo_info_backend.Catalog.Service.{
  delete, favorite, get, owned, owned_repository, pin, reprocess,
}
use repo_info_backend.Catalog.Tables.{Repository, Shelf}
use repo_info_backend.Core.Errors.{AppError, Exception}
use repo_info_backend.Database.Session.{Action, err, ◌>>=◌}
use repo_info_backend.Prelude.{
  All, All-map, AllOf, Bool, Option, and_left, beq_false, beq→eq, find?, find?-AllOf, is_none,
  nat_eq, none, refl, some, string_eq, text_eq, ℕ, ◌&&◌, ◌==◌, ◌≡◌, ◌≢◌,
}

owned-none :
    (user_id : ℕ) (o : Option Repository)
    → AllOf (λ (r : Repository). r.added_by_id ≢ user_id) o
    → owned user_id o ≡ none
owned-none user_id none h = refl
owned-none user_id (some r) h = rw (beq_false r.added_by_id user_id h)

refused_with :
    {A : Type 0} (user_id : ℕ) (o : Option Repository) (s : Shelf) (k : Repository → Action Shelf A)
    → AllOf (λ (r : Repository). r.added_by_id ≢ user_id) o
    → (owned_repository user_id o >>= k) s
      ≡ (err (Exception.app (AppError.not_found "Repository")), s)
refused_with user_id o s k h = rw (owned-none user_id o h)

-- The repository of another user answers like one that does not exist, to every operation, and none
-- of them changes anything.
pub foreign_repository :
    (broker : Bool) (now user_id repo_id : ℕ) (s : Shelf)
    → All (λ (r : Repository). r.id ≡ repo_id → r.added_by_id ≢ user_id) s.repositories
    → let missing : Exception = Exception.app (AppError.not_found "Repository") in
      (get user_id repo_id s ≡ (err missing, s))
      × (reprocess broker now user_id repo_id s ≡ (err missing, s))
      × (favorite user_id repo_id s ≡ (err missing, s))
      × (pin user_id repo_id s ≡ (err missing, s))
      × (delete now user_id repo_id s ≡ (err missing, s))
unfolding get reprocess favorite pin delete get_full get_repository
foreign_repository broker now user_id repo_id s h = (
  refused_with user_id _ s _ live,
  refused_with user_id _ s _ live,
  refused_with user_id _ s _ live,
  refused_with user_id _ s _ live,
  refused_with user_id _ s _ any,
)
  where
    live :
        AllOf
          (λ (r : Repository). r.added_by_id ≢ user_id)
          (find? (λ (r : Repository). r.id == repo_id && is_none r.deleted_at) s.repositories)
    live = find?-AllOf _ _ s.repositories (
        All-map
          (λ r k m. k (beq→eq r.id repo_id (and_left (r.id == repo_id) (is_none r.deleted_at) m)))
          s.repositories h)

    any :
        AllOf
          (λ (r : Repository). r.added_by_id ≢ user_id)
          (find? (λ (r : Repository). r.id == repo_id) s.repositories)
    any =
        find?-AllOf _ _ s.repositories
          (All-map (λ r k m. k (beq→eq r.id repo_id m)) s.repositories h)
