-- ===== src/Models/Enums/Accounts.antt =====
-- app/models/enums.py, the enumerations of accounts: providers, plans, roles, audit actions, notification categories.
use repo_info_backend.Prelude.{ℕ, zero, suc, String, ◌≡◌, refl, Eq, enum_eq}

pub data OauthProvider : Type 0 where
  google github : OauthProvider

unfoldable pub oauth_provider_value : OauthProvider → String
oauth_provider_value OauthProvider.google = "google"
oauth_provider_value OauthProvider.github = "github"

abbrev oauth_provider_index : OauthProvider → ℕ
oauth_provider_index OauthProvider.google = 0
oauth_provider_index OauthProvider.github = 1

abbrev oauth_provider_at : ℕ → OauthProvider
oauth_provider_at zero = OauthProvider.google
oauth_provider_at _ = OauthProvider.github

pub oauth_provider_at-index : (m : OauthProvider) → oauth_provider_at (oauth_provider_index m) ≡ m
oauth_provider_at-index OauthProvider.google = refl
oauth_provider_at-index OauthProvider.github = refl

instance abbrev pub oauth_provider_eq : Eq OauthProvider
oauth_provider_eq = enum_eq oauth_provider_index oauth_provider_at oauth_provider_at-index

pub data UserPlan : Type 0 where
  free pro team enterprise : UserPlan

unfoldable pub user_plan_value : UserPlan → String
user_plan_value UserPlan.free = "free"
user_plan_value UserPlan.pro = "pro"
user_plan_value UserPlan.team = "team"
user_plan_value UserPlan.enterprise = "enterprise"

abbrev user_plan_index : UserPlan → ℕ
user_plan_index UserPlan.free = 0
user_plan_index UserPlan.pro = 1
user_plan_index UserPlan.team = 2
user_plan_index UserPlan.enterprise = 3

abbrev user_plan_at : ℕ → UserPlan
user_plan_at zero = UserPlan.free
user_plan_at (suc zero) = UserPlan.pro
user_plan_at (suc (suc zero)) = UserPlan.team
user_plan_at _ = UserPlan.enterprise

pub user_plan_at-index : (m : UserPlan) → user_plan_at (user_plan_index m) ≡ m
user_plan_at-index UserPlan.free = refl
user_plan_at-index UserPlan.pro = refl
user_plan_at-index UserPlan.team = refl
user_plan_at-index UserPlan.enterprise = refl

instance abbrev pub user_plan_eq : Eq UserPlan
user_plan_eq = enum_eq user_plan_index user_plan_at user_plan_at-index

pub data GlobalRole : Type 0 where
  super_admin admin user : GlobalRole

abbrev global_role_index : GlobalRole → ℕ
global_role_index GlobalRole.super_admin = 0
global_role_index GlobalRole.admin = 1
global_role_index GlobalRole.user = 2

abbrev global_role_at : ℕ → GlobalRole
global_role_at zero = GlobalRole.super_admin
global_role_at (suc zero) = GlobalRole.admin
global_role_at _ = GlobalRole.user

pub global_role_at-index : (m : GlobalRole) → global_role_at (global_role_index m) ≡ m
global_role_at-index GlobalRole.super_admin = refl
global_role_at-index GlobalRole.admin = refl
global_role_at-index GlobalRole.user = refl

instance abbrev pub global_role_eq : Eq GlobalRole
global_role_eq = enum_eq global_role_index global_role_at global_role_at-index

pub data NotificationCategory : Type 0 where
  repository chat billing security system : NotificationCategory

pub data AuditAction : Type 0 where
  create update delete login logout permission_change export download settings_change : AuditAction
