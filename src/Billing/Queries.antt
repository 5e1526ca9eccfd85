-- ===== src/Billing/Queries.antt =====
-- app/repositories/billing.py: plans, and the subscription of a user.
use repo_info_backend.Billing.Tables.{Books, Plan, Subscription}
use repo_info_backend.Database.Session.{Action, modify, ok}
use repo_info_backend.Models.Enums.{
  SubscriptionStatus, UserPlan, subscription_status_eq, user_plan_eq,
}
use repo_info_backend.Prelude.{
  Bool, List, Option, [], false, filter, find?, if◌then◌else◌, is_none, leb, ltb, nat_eq, none,
  some, text_eq, true, update, ℕ, ◌&&◌, ◌==◌, ◌∷◌,
}

abbrev pub get_plan : ℕ → Books → Option Plan
get_plan id s = find? (λ p. p.id == id) s.plans

unfoldable pub get_by_code : UserPlan → Books → Option Plan
get_by_code code s = find? (λ p. p.code == code) s.plans

-- `order_by(Plan.sort_order.asc())`
abbrev pub insert_plan : Plan → List Plan → List Plan
insert_plan p [] = p ∷ []
insert_plan p (x ∷ xs) =
    let rest = insert_plan p xs in if ltb x.sort_order p.sort_order then x ∷ rest else p ∷ x ∷ xs

abbrev pub sort_plans : List Plan → List Plan
sort_plans [] = []
sort_plans (x ∷ xs) = insert_plan x (sort_plans xs)

unfoldable pub active_plans : Books → List Plan
active_plans s = sort_plans (filter (λ p. p.is_active) s.plans)

abbrev pub is_current : SubscriptionStatus → Bool
is_current SubscriptionStatus.active = true
is_current SubscriptionStatus.trialing = true
is_current SubscriptionStatus.past_due = true
is_current SubscriptionStatus.canceled = false
is_current SubscriptionStatus.incomplete = false
is_current SubscriptionStatus.incomplete_expired = false
is_current SubscriptionStatus.unpaid = false

-- the `where` of `active_for_user`
abbrev pub is_live : ℕ → Subscription → Bool
is_live user_id x = x.user_id == user_id && is_none x.deleted_at && is_current x.status

-- the row of the greatest `created_at`; of equal ones the row that was added last
abbrev pub newer : Subscription → Option Subscription → Subscription
newer a none = a
newer a (some b) = if leb a.created_at b.created_at then b else a

-- `where p order by created_at desc limit 1`
abbrev pub newest : (Subscription → Bool) → List Subscription → Option Subscription
newest p [] = none
newest p (x ∷ xs) = if p x then some (newer x (newest p xs)) else newest p xs

abbrev pub kept_or : Option (ℕ × Option Plan) → Option Plan → Option Plan
kept_or none stored = stored
kept_or (some e) stored = e.1

-- the relationship of a subscription, as the session has it
unfoldable pub plan_of : Subscription → Books → Option Plan
plan_of sub s = kept_or (find? (λ e. e.0 == sub.id) s.loaded) (get_plan sub.plan_id s)

-- `selectinload(Subscription.plan)` loads the relationship unless the session has it
abbrev pub load_plan : Option Subscription → Action Books (Option Subscription)
unfolding plan_of
load_plan none s = (ok none, s)
load_plan (some sub) s = (ok (some sub), record s { loaded = (sub.id, plan_of sub s) ∷ s.loaded })

unfoldable pub active_for_user : ℕ → Action Books (Option Subscription)
unfolding load_plan
active_for_user user_id s = load_plan (newest (is_live user_id) s.subscriptions) s

abbrev pub write_subscription : ℕ → (Subscription → Subscription) → Action Books (Unit {0})
write_subscription id f =
    modify (λ s. record s { subscriptions = update (λ x. x.id == id) f s.subscriptions })

-- `SubscriptionRepository.cancel`
abbrev pub canceled : ℕ → Bool → Subscription → Subscription
canceled now at_period_end sub =
    if at_period_end then record sub { cancel_at_period_end = true } else record sub {
      cancel_at_period_end = false;
      status = SubscriptionStatus.canceled;
      canceled_at = some now;
    }
