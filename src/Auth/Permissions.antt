-- ===== src/Auth/Permissions.antt =====
-- app/permissions/rbac.py and the tables of app/models/rbac.py: permissions by code, granted through
-- roles, with `NULL` for an assignment that holds on the whole platform.
use repo_info_backend.Auth.Tables.{User, World}
use repo_info_backend.Core.Errors.{AppError}
use repo_info_backend.Database.Session.{Action, pure, raise_if, ◌>>◌}
use repo_info_backend.Models.Enums.{GlobalRole, global_role_eq}
use repo_info_backend.Prelude.{
  Bool, List, Option, Text, [], false, if◌then◌else◌, nat_eq, none, not, some, string_eq, text_eq,
  true, ℕ, ◌&&◌, ◌==◌, ◌||◌, ◌∷◌,
}

pub record Role : Type 0 where
  pub id : ℕ
  pub name : Text

pub record Permission : Type 0 where
  pub id : ℕ
  pub code : Text

pub record RolePermission : Type 0 where
  pub role_id : ℕ
  pub permission_id : ℕ

pub record UserRole : Type 0 where
  pub user_id : ℕ
  pub role_id : ℕ
  pub organization_id : Option ℕ

pub record Grants : Type 0 where
  pub roles : List Role
  pub permissions : List Permission
  pub role_permissions : List RolePermission
  pub user_roles : List UserRole

-- The truth values of SQL: a comparison with `NULL` is `unknown`, and `where` keeps what is `yes`.
pub data Truth : Type 0 where
  yes no unknown : Truth

abbrev pub sql_or : Truth → Truth → Truth
sql_or Truth.yes b = Truth.yes
sql_or Truth.no b = b
sql_or Truth.unknown Truth.yes = Truth.yes
sql_or Truth.unknown b = Truth.unknown

abbrev pub sql_equal : Option ℕ → Option ℕ → Truth
sql_equal (some a) (some b) = if a == b then Truth.yes else Truth.no
sql_equal _ _ = Truth.unknown

-- `column IN (…)`
abbrev pub sql_in : Option ℕ → List (Option ℕ) → Truth
sql_in x [] = Truth.no
sql_in x (y ∷ ys) = sql_or (sql_equal x y) (sql_in x ys)

abbrev pub is_yes : Truth → Bool
is_yes Truth.yes = true
is_yes _ = false

abbrev pub any_row {ℓ} : {A : Type ℓ} → (A → Bool) → List A → Bool
any_row p [] = false
any_row p (x ∷ xs) = p x || any_row p xs

-- the joins from an assignment to the code
abbrev pub grants_code : Grants → Text → UserRole → Bool
grants_code g code a =
    any_row
      (λ (r : Role).
        r.id == a.role_id
        && any_row
            (λ (rp : RolePermission).
              rp.role_id == r.id
              && any_row (λ (p : Permission). p.id == rp.permission_id && p.code == code)
                  g.permissions)
            g.role_permissions)
      g.roles

-- `UserRole.organization_id.in_([organization_id, None])`, where an organization is given
abbrev pub in_scope : Option ℕ → UserRole → Bool
in_scope none a = true
in_scope (some organization_id) a =
    is_yes (sql_in a.organization_id (some organization_id ∷ none ∷ []))

unfoldable pub user_has_permission : Grants → User → Text → Option ℕ → Bool
user_has_permission g user code organization_id =
    if user.global_role == GlobalRole.super_admin
    then true
    else any_row (λ a. a.user_id == user.id && grants_code g code a && in_scope organization_id a)
        g.user_roles

unfoldable pub require_permission : Grants → Text → User → Action World User
unfolding user_has_permission
require_permission g code user = do
  raise_if (not (user_has_permission g user code none))
      (AppError.forbidden "Missing required permission")
  pure user
