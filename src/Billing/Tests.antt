-- ===== src/Billing/Tests.antt =====
-- Billing on a small table: app/services/billing_service.py.
use repo_info_backend.Auth.Tables.{User}
use repo_info_backend.Billing.Cancellation.{cancel-get_subscription}
use repo_info_backend.Billing.Changes.{change_plan-get_subscription, chosen}
use repo_info_backend.Billing.Queries.{
  active_for_user, get_by_code, get_plan, is_live, newest, plan_of,
}
use repo_info_backend.Billing.Service.{
  ChangePlanRequest, SubscriptionOut, cancel, change_plan, free_out, get_subscription,
  new_subscription, plan_out,
}
use repo_info_backend.Billing.Single.{IsKept, Request, handle_all, handle_all-IsKept}
use repo_info_backend.Billing.Tables.{Books, Plan, Subscription, new_session}
use repo_info_backend.Database.Session.{in_transaction, ok}
use repo_info_backend.Models.Enums.{BillingPeriod, SubscriptionStatus, UserPlan}
use repo_info_backend.Prelude.{
  All, List, [], arith, false, map, none, refl, some, true, ℕ, ◌∷◌, ◌≡◌,
}

abbrev a_plan : ℕ → UserPlan → ℕ → Plan
a_plan id code price = record {
  id = id;
  code = code;
  name = [];
  price = price;
  billing_period = BillingPeriod.monthly;
  description = [];
  features = [];
  highlighted = false;
  cta_label = [];
  is_active = true;
  sort_order = id;
}

abbrev free_plan : Plan
free_plan = a_plan 1 UserPlan.free 0

abbrev pro_plan : Plan
pro_plan = a_plan 2 UserPlan.pro 12

abbrev team_plan : Plan
team_plan = a_plan 3 UserPlan.team 40

abbrev pro_subscription : Subscription
pro_subscription = new_subscription 100 7 pro_plan BillingPeriod.monthly 1

-- user 7 is on the plan pro
abbrev books : Books
books = record {
  users = [];
  plans = free_plan ∷ pro_plan ∷ team_plan ∷ [];
  subscriptions = pro_subscription ∷ [];
  next_id = 2;
  loaded = [];
}

abbrev to_team : ChangePlanRequest
to_team = record { plan_id = 3; billing_period = BillingPeriod.yearly }

change_plan-get_subscription_example :
    (out : SubscriptionOut) × (t : Books) × (change_plan 200 7 to_team (new_session books)
      ≡ (ok out, t))
    × ((get_subscription 7 (new_session t)).0 ≡ ok (chosen 200 team_plan to_team.billing_period))
    × All (λ (u : User). u.id ≡ 7 → u.plan ≡ UserPlan.team) t.users
    × ((sub : Subscription) (old : Plan)
        → newest (is_live 7) books.subscriptions ≡ some sub
        → get_plan sub.plan_id books ≡ some old
        → out.plan ≡ plan_out old)
    × (newest (is_live 7) books.subscriptions ≡ none → out.plan ≡ plan_out team_plan)
change_plan-get_subscription_example =
    change_plan-get_subscription 200 7 to_team team_plan books refl (tt, tt) ((pro_plan, refl), tt)

-- a change, an end at once, and a change again
abbrev three_requests : List (ℕ × Request)
three_requests =
    (7, Request.change 200 to_team)
    ∷ (7, Request.end 300 false)
    ∷ (7, Request.change 400 to_team)
    ∷ []

handle_all-IsKept_example :
    IsKept (handle_all three_requests books).subscriptions (handle_all three_requests books).next_id
handle_all-IsKept_example =
    handle_all-IsKept three_requests books ((λ u. ground arith), (tt, tt), (omega arith, tt))

cancel-get_subscription_example :
    (t : Books) × (cancel 300 7 false (new_session books) ≡ (ok (free_out free_plan), t))
    × (get_subscription 7 (new_session t) ≡ (ok (free_out free_plan), new_session t))
    × (t.users ≡ books.users)
unfolding get_by_code
cancel-get_subscription_example =
    cancel-get_subscription 300 7 books pro_subscription free_plan refl (omega arith) refl

test_statuses :
    map (λ (x : Subscription). x.status) (handle_all three_requests books).subscriptions
    ≡ SubscriptionStatus.canceled ∷ SubscriptionStatus.active ∷ []
unfolding handle_all in_transaction change_plan cancel get_subscription active_for_user plan_of
    get_by_code
test_statuses = refl
