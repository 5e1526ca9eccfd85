-- ===== src/Billing/Tables.antt =====
-- app/models/billing.py: plans and subscriptions; prices are whole numbers. Nothing under app/ writes an
-- invoice or a payment, and their columns and those of Stripe are left out.
use repo_info_backend.Auth.Tables.{User}
use repo_info_backend.Models.Enums.{BillingPeriod, SubscriptionStatus, UserPlan}
use repo_info_backend.Prelude.{Bool, List, Option, Text, [], ℕ}

pub record Plan : Type 0 where
  pub id : ℕ
  pub code : UserPlan
  pub name : Text
  pub price : ℕ
  pub billing_period : BillingPeriod
  pub description : Text
  pub features : List (Text × Bool)
  pub highlighted : Bool
  pub cta_label : Text
  pub is_active : Bool
  pub sort_order : ℕ

pub record Subscription : Type 0 where
  pub id : ℕ
  pub user_id : ℕ
  pub plan_id : ℕ
  pub status : SubscriptionStatus
  pub current_period_start : Option ℕ
  pub current_period_end : Option ℕ
  pub cancel_at_period_end : Bool
  pub canceled_at : Option ℕ
  pub created_at : ℕ
  pub deleted_at : Option ℕ

-- The tables, and the relationships `plan` that the session has loaded, by the id of the subscription: a
-- session keeps what it has loaded, though `plan_id` changes.
pub record Books : Type 0 where
  pub users : List User
  pub plans : List Plan
  pub subscriptions : List Subscription
  pub next_id : ℕ
  pub loaded : List (ℕ × Option Plan)

-- the session of another request
abbrev pub new_session : Books → Books
new_session s = record s { loaded = [] }
