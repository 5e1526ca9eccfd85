-- ===== src/Workspace/Slugs.antt =====
-- The slugs of a user's projects are different, whatever app/services/project_service.py is asked to do.
use mathlib.Core.Option
use repo_info_backend.Core.Errors.{Exception}
use repo_info_backend.Database.Session.{err, ok}
use repo_info_backend.Prelude.{
  Option, Text, ap, beq_refl, find?, find?-find?, find?-update, is_some, nat_beq_refl, nat_eq, none,
  refl, some, text_eq, true, update, ℕ, ◌==◌, ◌∙◌, ◌≡◌,
}
use repo_info_backend.Workspace.Projects.{
  Project, ProjectCreateRequest, Projects, create_project, delete_project, get_project, has_slug,
  soft_deleted,
}

is_some-map : {A B : Type 0} (f : A → B) (o : Option A) → is_some (Option.map f o) ≡ is_some o
is_some-map f none = refl
is_some-map f (some a) = refl

-- The owner who deletes a project and creates one of the same name is answered with an integrity error,
-- and so is the owner who creates a name whose slug a project of his has: the constraint counts deleted
-- rows too.
pub delete_project-create_project :
    (slugify : Text → Text) (now later user_id project_id : ℕ) (payload : ProjectCreateRequest)
    (p : Project) (s : Projects)
    → get_project project_id s ≡ some p
    → p.owner_id ≡ user_id
    → p.slug ≡ slugify payload.name
    → (delete_project now user_id project_id s).0 ≡ ok tt
      × (let t = (delete_project now user_id project_id s).1 in
          create_project slugify later user_id payload t ≡ (err Exception.integrity, t))
unfolding delete_project create_project get_project
delete_project-create_project slugify now later user_id project_id payload p s found mine same =
    rw (found) (rw (mine, nat_beq_refl user_id) (refl, rw (taken) refl))
  where
    holds : has_slug user_id (slugify payload.name) p ≡ true
    holds = rw (mine, same, nat_beq_refl user_id) (beq_refl (slugify payload.name))

    taken :
        is_some (
          find?
            (has_slug user_id (slugify payload.name))
            (update (λ x. x.id == p.id) (soft_deleted now) s.projects))
        ≡ true
    taken =
        ap is_some (
          find?-update (has_slug user_id (slugify payload.name)) (λ x. x.id == p.id) _ s.projects
            (λ x. refl))
        ∙ (is_some-map _ (find? (has_slug user_id (slugify payload.name)) s.projects)
            ∙ find?-find? (λ x. x.id == project_id) (has_slug user_id (slugify payload.name))
                s.projects p found holds)
