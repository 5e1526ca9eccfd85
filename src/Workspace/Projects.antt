-- ===== src/Workspace/Projects.antt =====
-- app/services/project_service.py, app/repositories/project.py, app/models/project.py. The slug of a
-- name is `slugify`, an argument; nothing writes `metadata`.
use repo_info_backend.Core.Errors.{AppError, Exception}
use repo_info_backend.Database.Session.{
  Action, err, gets, modify, ok, or_raise, pure, throw, ◌>>=◌, ◌>>◌,
}
use repo_info_backend.Prelude.{
  Bool, List, Option, Text, [], false, find?, if◌then◌else◌, is_some, nat_eq, none, not, some,
  string_eq, text_eq, true, update, ℕ, ◌&&◌, ◌++◌, ◌+◌, ◌==◌, ◌∷◌,
}

pub record Project : Type 0 where
  pub id : ℕ
  pub owner_id : ℕ
  pub organization_id : Option ℕ
  pub name : Text
  pub slug : Text
  pub description : Option Text
  pub updated_at : ℕ
  pub deleted_at : Option ℕ

pub record Projects : Type 0 where
  pub projects : List Project
  pub next_id : ℕ

pub record ProjectCreateRequest : Type 0 where
  pub organization_id : Option ℕ
  pub name : Text
  pub description : Option Text

pub record ProjectUpdateRequest : Type 0 where
  pub name : Option Text
  pub description : Option Text

-- `uq_projects_owner_slug`, on deleted rows too
abbrev pub has_slug : ℕ → Text → Project → Bool
has_slug owner_id slug p = p.owner_id == owner_id && p.slug == slug

unfoldable pub create_project :
    (Text → Text) → ℕ → ℕ → ProjectCreateRequest → Action Projects Project
create_project slugify now user_id payload s =
    let project : Project = record {
      id = s.next_id;
      owner_id = user_id;
      organization_id = payload.organization_id;
      name = payload.name;
      slug = slugify payload.name;
      description = payload.description;
      updated_at = now;
      deleted_at = none;
    } in
    if is_some (find? (has_slug user_id (slugify payload.name)) s.projects)
    then (err Exception.integrity, s)
    else (ok project, record { projects = s.projects ++ project ∷ []; next_id = s.next_id + 1 })

abbrev pub owned_project : ℕ → Option Project → Option Project
owned_project user_id none = none
owned_project user_id (some p) = if p.owner_id == user_id then some p else none

unfoldable pub get_project : ℕ → Projects → Option Project
get_project id s = find? (λ p. p.id == id) s.projects

-- `if payload.name: …`; an empty name is false
abbrev pub renamed : (Text → Text) → Option Text → Project → Project
renamed slugify none p = p
renamed slugify (some []) p = p
renamed slugify (some (c ∷ cs)) p = record p { name = c ∷ cs; slug = slugify (c ∷ cs) }

abbrev pub described : Option Text → Project → Project
described none p = p
described (some d) p = record p { description = some d }

abbrev pub updated : (Text → Text) → ℕ → ProjectUpdateRequest → Project → Project
updated slugify now payload p =
    record (described payload.description (renamed slugify payload.name p)) { updated_at = now }

-- another row with the owner and the slug
abbrev pub clashes : Project → Project → Bool
clashes p x = not (x.id == p.id) && has_slug p.owner_id p.slug x

abbrev pub write_project : Project → Action Projects (Unit {0})
write_project p s =
    if is_some (find? (clashes p) s.projects)
    then (err Exception.integrity, s)
    else (ok tt, record s { projects = update (λ x. x.id == p.id) (λ x. p) s.projects })

abbrev pub same_text : Option Text → Option Text → Bool
same_text none none = true
same_text (some a) (some b) = a == b
same_text _ _ = false

-- the flush writes the row only if a column has got another value
abbrev pub is_changed : Project → Project → Bool
is_changed p q = not (p.name == q.name && p.slug == q.slug && same_text p.description q.description)

-- `updated_at` is set by the database: after an update it is expired, and reading it for the answer needs a query, which
-- an async session does not make on the access of an attribute
abbrev pub missing_greenlet : Exception
missing_greenlet = Exception.other "MissingGreenlet"

unfoldable pub update_project :
    (Text → Text) → ℕ → ℕ → ℕ → ProjectUpdateRequest → Action Projects Project
unfolding get_project
update_project slugify now user_id project_id payload = do
  project ←
      or_raise (owned_project user_id (← gets (get_project project_id)))
        (AppError.not_found "Project")
  if is_changed project (updated slugify now payload project)
      then (do write_project (updated slugify now payload project); throw missing_greenlet)
      else pure project

-- `soft_delete` of the base repository
abbrev pub soft_deleted : ℕ → Project → Project
soft_deleted now x = record x { deleted_at = some now; updated_at = now }

unfoldable pub delete_project : ℕ → ℕ → ℕ → Action Projects (Unit {0})
unfolding get_project
delete_project now user_id project_id = do
  found ← gets (get_project project_id)
  project ← or_raise (owned_project user_id found) (AppError.not_found "Project")
  modify
      (λ s. record s { projects = update (λ x. x.id == project.id) (soft_deleted now) s.projects })
