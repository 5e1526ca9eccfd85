-- ===== src/Billing/Service.antt =====
-- app/services/billing_service.py: the plans, the subscription of a user, its change and its end.
use repo_info_backend.Auth.Tables.{User}
use repo_info_backend.Billing.Queries.{
  active_for_user, active_plans, canceled, get_by_code, get_plan, plan_of, write_subscription,
}
use repo_info_backend.Billing.Tables.{Books, Plan, Subscription}
use repo_info_backend.Core.Errors.{AppError, Exception}
use repo_info_backend.Database.Session.{Action, gets, modify, or_raise, pure, throw, ◌>>=◌, ◌>>◌}
use repo_info_backend.Models.Enums.{
  BillingPeriod, SubscriptionStatus, UserPlan, billing_period_eq, subscription_status_eq,
  user_plan_eq,
}
use repo_info_backend.Prelude.{
  Bool, List, Option, Text, [], false, map, nat_eq, none, some, string_eq, text_eq, update, ℕ, ◌*◌,
  ◌++◌, ◌+◌, ◌==◌, ◌∷◌,
}

pub record PricingPlanOut : Type 0 where
  pub id : ℕ
  pub code : UserPlan
  pub name : Text
  pub price : ℕ
  pub billing_period : BillingPeriod
  pub description : Text
  pub features : List (Text × Bool)
  pub highlighted : Bool
  pub cta_label : Text

abbrev pub plan_out : Plan → PricingPlanOut
plan_out plan = record {
  id = plan.id;
  code = plan.code;
  name = plan.name;
  price = plan.price;
  billing_period = plan.billing_period;
  description = plan.description;
  features = plan.features;
  highlighted = plan.highlighted;
  cta_label = plan.cta_label;
}

pub record SubscriptionOut : Type 0 where
  pub plan : PricingPlanOut
  pub status : SubscriptionStatus
  pub renews_at : Option ℕ
  pub current_period_end : Option ℕ
  pub cancel_at_period_end : Bool

unfoldable pub list_plans : Action Books (List PricingPlanOut)
unfolding active_plans
list_plans = gets (λ s. map plan_out (active_plans s))

abbrev pub free_out : Plan → SubscriptionOut
free_out free = record {
  plan = plan_out free;
  status = SubscriptionStatus.active;
  renews_at = none;
  current_period_end = none;
  cancel_at_period_end = false;
}

-- of a subscription without a plan `_plan_out` reads the columns of `None`
abbrev pub subscription_out : Subscription → Option Plan → Action Books SubscriptionOut
subscription_out sub none = throw (Exception.other "AttributeError")
subscription_out sub (some plan) = pure (record {
  plan = plan_out plan;
  status = sub.status;
  renews_at = sub.current_period_end;
  current_period_end = sub.current_period_end;
  cancel_at_period_end = sub.cancel_at_period_end;
})

abbrev pub shown : Option Subscription → Action Books SubscriptionOut
shown none = do
  found ← gets (get_by_code UserPlan.free)
  free ← or_raise found (AppError.not_found "Plan")
  pure (free_out free)
shown (some sub) = do plan ← gets (plan_of sub); subscription_out sub plan

unfoldable pub get_subscription : ℕ → Action Books SubscriptionOut
unfolding active_for_user
get_subscription user_id = active_for_user user_id >>= shown

pub record ChangePlanRequest : Type 0 where
  pub plan_id : ℕ
  pub billing_period : BillingPeriod

abbrev pub period_days : BillingPeriod → ℕ
period_days BillingPeriod.monthly = 30
period_days BillingPeriod.yearly = 365

abbrev pub renewed : ℕ → Plan → BillingPeriod → Subscription → Subscription
renewed now plan period sub = record sub {
  plan_id = plan.id;
  status = SubscriptionStatus.active;
  current_period_start = some now;
  current_period_end = some (now + period_days period * 86400);
  cancel_at_period_end = false;
}

abbrev pub new_subscription : ℕ → ℕ → Plan → BillingPeriod → ℕ → Subscription
new_subscription now user_id plan period id = record {
  id = id;
  user_id = user_id;
  plan_id = plan.id;
  status = SubscriptionStatus.active;
  current_period_start = some now;
  current_period_end = some (now + period_days period * 86400);
  cancel_at_period_end = false;
  canceled_at = none;
  created_at = now;
  deleted_at = none;
}

abbrev pub set_plan : ℕ → Plan → BillingPeriod → ℕ → Option Subscription → Action Books (Unit {0})
set_plan now plan period user_id (some sub) = write_subscription sub.id (renewed now plan period)
set_plan now plan period user_id none = modify (λ s. record s {
  subscriptions = s.subscriptions ++ new_subscription now user_id plan period s.next_id ∷ [];
  next_id = s.next_id + 1;
})

abbrev pub write_user_plan : ℕ → UserPlan → Action Books (Unit {0})
write_user_plan user_id code = modify (λ s. record s {
  users = update (λ (u : User). u.id == user_id) (λ u. record u { plan = code }) s.users;
})

unfoldable pub change_plan : ℕ → ℕ → ChangePlanRequest → Action Books SubscriptionOut
unfolding active_for_user get_subscription
change_plan now user_id payload = do
  found ← gets (get_plan payload.plan_id)
  plan ← or_raise found (AppError.not_found "Plan")
  sub ← active_for_user user_id
  set_plan now plan payload.billing_period user_id sub
  write_user_plan user_id plan.code
  get_subscription user_id

unfoldable pub cancel : ℕ → ℕ → Bool → Action Books SubscriptionOut
unfolding active_for_user get_subscription
cancel now user_id at_period_end = do
  found ← active_for_user user_id
  sub ← or_raise found (AppError.bad_request "No active subscription to cancel." none)
  write_subscription sub.id (canceled now at_period_end)
  get_subscription user_id
