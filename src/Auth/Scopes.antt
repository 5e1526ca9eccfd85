-- ===== src/Auth/Scopes.antt =====
-- What the scope of an assignment does in app/permissions/rbac.py.
use repo_info_backend.Auth.Permissions.{
  Grants, UserRole, any_row, grants_code, in_scope, is_yes, require_permission, sql_in,
  user_has_permission,
}
use repo_info_backend.Auth.Tables.{User, World}
use repo_info_backend.Database.Session.{ok}
use repo_info_backend.Models.Enums.{GlobalRole, global_role_eq}
use repo_info_backend.Prelude.{
  All, All-map, Bool, Bool-cases, List, Option, Text, [], arith, beq_false, beq→eq, false, inl, inr,
  nat_eq, none, refl, some, sym, text_eq, true, ℕ, ◌&&◌, ◌==◌, ◌∙◌, ◌∷◌, ◌≡◌, ◌≢◌,
}

any_row_none :
    {A : Type 0} (p : A → Bool) (xs : List A) → All (λ x. p x ≡ false) xs → any_row p xs ≡ false
any_row_none p [] h = refl
any_row_none p (x ∷ xs) h = rw (h.0, any_row_none p xs h.1)

and_false : (b : Bool) → (b && false) ≡ false
and_false true = refl
and_false false = refl

and_weaken : (a b c : Bool) → (a && b && c) ≡ true → (a && b && true) ≡ true
and_weaken true true c h = refl
and_weaken true false c h = h
and_weaken false b c h = h

in_scope_none :
    (o : Option ℕ) (organization_id : ℕ)
    → o ≡ none
    → is_yes (sql_in o (some organization_id ∷ none ∷ [])) ≡ false
in_scope_none o organization_id e = rw e

-- An assignment on the whole platform grants nothing inside an organization: the comparison of its
-- `NULL` with the list is never true, so only `super_admin` passes.
pub platform_role_ignored :
    (g : Grants) (user : User) (code : Text) (organization_id : ℕ)
    → user.global_role ≢ GlobalRole.super_admin
    → All (λ (a : UserRole). a.user_id ≡ user.id → a.organization_id ≡ none) g.user_roles
    → user_has_permission g user code (some organization_id) ≡ false
unfolding user_has_permission
platform_role_ignored g user code organization_id ordinary platform =
    rw (beq_false user.global_role GlobalRole.super_admin ordinary)
      (any_row_none _ g.user_roles (All-map no_grant g.user_roles platform))
  where
    no_grant :
        (a : UserRole)
        → (a.user_id ≡ user.id → a.organization_id ≡ none)
        → (a.user_id == user.id && grants_code g code a && in_scope (some organization_id) a)
          ≡ false
    no_grant a h = elim (Bool-cases (a.user_id == user.id)) [
      | inr f ↦ rw f
      | inl t ↦ rw (t, h (beq→eq a.user_id user.id t)) (and_false (grants_code g code a))
    ]

any_row_mono :
    {A : Type 0} (p q : A → Bool) (xs : List A)
    → ((x : A) → p x ≡ true → q x ≡ true)
    → any_row p xs ≡ true
    → any_row q xs ≡ true
any_row_mono p q [] le h = h
any_row_mono p q (x ∷ xs) le h = ground (arith, le x, any_row_mono p q xs le)

ordinary_user :
    (g : Grants) (user : User) (code : Text) (organization_id : Option ℕ)
    → (user.global_role == GlobalRole.super_admin) ≡ false
    → user_has_permission g user code organization_id
      ≡ any_row
          (λ a. a.user_id == user.id && grants_code g code a && in_scope organization_id a)
          g.user_roles
unfolding user_has_permission
ordinary_user g user code organization_id f = rw f refl

-- `require_permission` names no organization, so an assignment inside any one of them passes it.
pub any_organization_suffices :
    (g : Grants) (user : User) (code : Text) (organization_id : ℕ) (s : World)
    → user_has_permission g user code (some organization_id) ≡ true
    → require_permission g code user s ≡ (ok user, s)
unfolding user_has_permission require_permission
any_organization_suffices g user code organization_id s h = rw held refl
  where
    held : user_has_permission g user code none ≡ true
    held = elim (Bool-cases (user.global_role == GlobalRole.super_admin)) [
      | inl t ↦ rw t
      | inr f ↦ rw f (
          any_row_mono
            (λ a. a.user_id == user.id && grants_code g code a && in_scope (some organization_id) a)
            (λ a. a.user_id == user.id && grants_code g code a && true) g.user_roles
            (λ a.
              and_weaken (a.user_id == user.id) (grants_code g code a)
                (in_scope (some organization_id) a))
            (sym (ordinary_user g user code (some organization_id) f) ∙ h))
    ]
