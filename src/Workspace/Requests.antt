-- ===== src/Workspace/Requests.antt =====
-- Sequences of requests to app/services/project_service.py keep the keys of the projects.
use repo_info_backend.Catalog.GitUrl.{after, before}
use repo_info_backend.Database.Session.{Result, close, continue, err, in_transaction, ok, throw}
use repo_info_backend.Prelude.{
  All-map, All-update, AllOf, Bool-cases, List, Option, Option-cases, Text, [], arith, find?-AllOf,
  inl, inr, nat_eq, none, refl, some, text_eq, ℕ, ◌<◌, ◌==◌, ◌∷◌, ◌≡◌,
}
use repo_info_backend.Workspace.Keys.{
  IsKeyed, count-update_same, create_project-IsKeyed, write_project-IsKeyed,
}
use repo_info_backend.Workspace.Projects.{
  Project, ProjectCreateRequest, ProjectUpdateRequest, Projects, create_project, delete_project,
  described, get_project, has_slug, is_changed, missing_greenlet, owned_project, renamed,
  soft_deleted, update_project, updated, write_project,
}

-- a request to the service
pub data Change : Type 0 where
  create : ProjectCreateRequest → Change
  edit : ℕ → ProjectUpdateRequest → Change
  remove : ℕ → Change

-- the state after a request: a failure is rolled back
unfoldable pub apply : (Text → Text) → ℕ → ℕ → Change → Projects → Projects
unfolding create_project update_project delete_project in_transaction
apply slugify now user_id (Change.create payload) s =
    (in_transaction (λ old new. old) (create_project slugify now user_id payload) s).1
apply slugify now user_id (Change.edit id payload) s =
    (in_transaction (λ old new. old) (update_project slugify now user_id id payload) s).1
apply slugify now user_id (Change.remove id) s =
    (in_transaction (λ old new. old) (delete_project now user_id id) s).1

-- requests of any users, each with its time
unfoldable pub apply_all : (Text → Text) → List (ℕ × ℕ × Change) → Projects → Projects
unfolding apply
apply_all slugify [] s = s
apply_all slugify (r ∷ rs) s = apply_all slugify rs (apply slugify r.0 r.1 r.2 s)

updated-id :
    (slugify : Text → Text) (now : ℕ) (payload : ProjectUpdateRequest) (p : Project)
    → (updated slugify now payload p).id ≡ p.id
updated-id slugify now payload p = kept payload.name payload.description
  where
    kept :
        (name description : Option Text)
        → (described description (renamed slugify name p)).id ≡ p.id
    kept none none = refl
    kept (some []) none = refl
    kept (some (c ∷ cs)) none = refl
    kept none (some d) = refl
    kept (some []) (some d) = refl
    kept (some (c ∷ cs)) (some d) = refl

owned-low :
    (user_id next_id : ℕ) (o : Option Project) (p : Project)
    → AllOf (λ (x : Project). x.id < next_id) o
    → owned_project user_id o ≡ some p
    → p.id < next_id
owned-low user_id next_id none p h e = cc
owned-low user_id next_id (some x) p h e = ground arith

kept_state :
    (r : Result (Unit {0}) × Projects)
    → IsKeyed r.1
    → IsKeyed (continue (λ done. throw {S = Projects} {A = Project} missing_greenlet) r).1
kept_state (ok a, s) h = h
kept_state (err e, s) h = h

update_project-IsKeyed :
    (slugify : Text → Text) (now user_id id : ℕ) (payload : ProjectUpdateRequest) (s : Projects)
    → IsKeyed s
    → IsKeyed (update_project slugify now user_id id payload s).1
unfolding update_project get_project
update_project-IsKeyed slugify now user_id id payload s h =
    elim (Option-cases (owned_project user_id (get_project id s))) [
      | inl e ↦ rw (e) h
      | inr (p, e) ↦ elim (Bool-cases (is_changed p (updated slugify now payload p))) [
        | inr same ↦ rw (e, same) h
        | inl changed ↦
            rw (e, changed)
              (kept_state (write_project (updated slugify now payload p) s) (
                write_project-IsKeyed (updated slugify now payload p) s
                  (rw (updated-id slugify now payload p) (
                    owned-low user_id s.next_id (get_project id s) p
                      (find?-AllOf _ _ s.projects (All-map (λ x low hit. low) s.projects h.2)) e))
                  h))
      ]
    ]

delete_project-IsKeyed :
    (now user_id id : ℕ) (s : Projects) → IsKeyed s → IsKeyed (delete_project now user_id id s).1
unfolding delete_project
delete_project-IsKeyed now user_id id s h =
    elim (Option-cases (owned_project user_id (get_project id s))) [
      | inl e ↦ rw (e) h
      | inr (p, e) ↦ rw (e) (
        (λ i.
            rw
              (count-update_same (λ x. x.id == i) (λ x. x.id == p.id) (soft_deleted now) s.projects
                (λ x hit. refl))
              (h.0 i)),
        (λ owner_id slug.
            rw
              (count-update_same (has_slug owner_id slug) (λ x. x.id == p.id) (soft_deleted now)
                s.projects (λ x hit. refl))
              (h.1 owner_id slug)),
        All-update (λ (x : Project). x.id < s.next_id) (λ x. x.id == p.id) (soft_deleted now)
            (λ x low. low) s.projects h.2,
      )
    ]

close-IsKeyed :
    {A : Type 0} (old : Projects) (r : Result A × Projects)
    → IsKeyed old
    → IsKeyed r.1
    → IsKeyed (close (λ old new. old) old r).1
close-IsKeyed old (ok a, new) before after = after
close-IsKeyed old (err e, new) before after = before

apply-IsKeyed :
    (slugify : Text → Text) (now user_id : ℕ) (r : Change) (s : Projects)
    → IsKeyed s
    → IsKeyed (apply slugify now user_id r s)
unfolding apply in_transaction
apply-IsKeyed slugify now user_id (Change.create payload) s h =
    close-IsKeyed s _ h (create_project-IsKeyed slugify now user_id payload s h)
apply-IsKeyed slugify now user_id (Change.edit id payload) s h =
    close-IsKeyed s _ h (update_project-IsKeyed slugify now user_id id payload s h)
apply-IsKeyed slugify now user_id (Change.remove id) s h =
    close-IsKeyed s _ h (delete_project-IsKeyed now user_id id s h)

-- There is at most one project for each id, and at most one for each owner and slug, deleted ones
-- included, after any sequence of creations, updates and deletions by any users.
pub apply_all-IsKeyed :
    (slugify : Text → Text) (rs : List (ℕ × ℕ × Change)) (s : Projects)
    → IsKeyed s
    → IsKeyed (apply_all slugify rs s)
unfolding apply_all
apply_all-IsKeyed slugify [] s h = h
apply_all-IsKeyed slugify (r ∷ rs) s h =
    apply_all-IsKeyed slugify rs _ (apply-IsKeyed slugify r.0 r.1 r.2 s h)
