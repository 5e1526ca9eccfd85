-- ===== src/Billing/Changes.antt =====
-- A change of the plan, in app/services/billing_service.py, and what is shown after it.
use repo_info_backend.Auth.Tables.{User}
use repo_info_backend.Billing.Current.{
  Distinct, newest-All, newest-append, newest-update, newest_holds, same_row,
}
use repo_info_backend.Billing.Queries.{active_for_user, get_plan, is_live, newest, plan_of}
use repo_info_backend.Billing.Service.{
  ChangePlanRequest, SubscriptionOut, change_plan, get_subscription, new_subscription, period_days,
  plan_out, renewed,
}
use repo_info_backend.Billing.Shown.{
  active_for_user-none, active_for_user-some, get_subscription-some, plan_of-loaded,
}
use repo_info_backend.Billing.Tables.{Books, Plan, Subscription, new_session}
use repo_info_backend.Database.Session.{ok}
use repo_info_backend.Models.Enums.{
  BillingPeriod, SubscriptionStatus, UserPlan, billing_period_eq, subscription_status_eq,
  user_plan_eq,
}
use repo_info_backend.Prelude.{
  All, All-map, Bool-cases, List, Option-cases, [], ap, arith, beq→eq, false, find?_holds,
  if◌then◌else◌, inl, inr, nat_beq_refl, nat_eq, none, refl, some, subst, sym, text_eq, true,
  update, ℕ, ◌*◌, ◌++◌, ◌+◌, ◌==◌, ◌∙◌, ◌∷◌, ◌≡◌,
}

-- what the chosen plan looks like in a subscription that starts now
abbrev pub chosen : ℕ → Plan → BillingPeriod → SubscriptionOut
chosen now plan period = record {
  plan = plan_out plan;
  status = SubscriptionStatus.active;
  renews_at = some (now + period_days period * 86400);
  current_period_end = some (now + period_days period * 86400);
  cancel_at_period_end = false;
}

-- a plan stands under its own id
get_plan-id :
    (id : ℕ) (s : Books) (plan : Plan) → get_plan id s ≡ some plan → get_plan plan.id s ≡ some plan
get_plan-id id s plan found =
    subst (λ i. get_plan i s ≡ some plan)
      (sym (beq→eq plan.id id (find?_holds (λ p. p.id == id) s.plans plan found))) found

is_live-renewed :
    (now user_id : ℕ) (plan : Plan) (period : BillingPeriod) (x : Subscription)
    → is_live user_id x ≡ true
    → is_live user_id (renewed now plan period x) ≡ true
is_live-renewed now user_id plan period x h = ground arith

module _ (now user_id : ℕ) (payload : ChangePlanRequest) (plan : Plan) (s : Books) where
  abbrev period : BillingPeriod
  period = payload.billing_period

  abbrev with_users : List User
  with_users = update (λ (u : User). u.id == user_id) (λ u. record u { plan = plan.code }) s.users

  -- after a change of the current subscription, whose relationship is loaded
  abbrev after_renewal : Subscription → Plan → Books
  after_renewal sub old = record s {
    users = with_users;
    subscriptions = update (λ x. x.id == sub.id) (renewed now plan period) s.subscriptions;
    loaded = (sub.id, some old) ∷ (sub.id, some old) ∷ [];
  }

  abbrev created : Subscription
  created = new_subscription now user_id plan period s.next_id

  abbrev after_creation : Books
  after_creation = record s {
    users = with_users;
    subscriptions = s.subscriptions ++ created ∷ [];
    next_id = s.next_id + 1;
    loaded = (s.next_id, some plan) ∷ [];
  }

  renewed_current :
      (sub : Subscription)
      → Distinct s.subscriptions
      → newest (is_live user_id) s.subscriptions ≡ some sub
      → newest
          (is_live user_id)
          (update (λ x. x.id == sub.id) (renewed now plan period) s.subscriptions)
        ≡ some (renewed now plan period sub)
  renewed_current sub distinct current =
      newest-update (is_live user_id) (λ x. x.id == sub.id) (renewed now plan period)
        s.subscriptions (λ x. refl)
        (All-map (λ x same hit. stays_live x (same (beq→eq x.id sub.id hit))) s.subscriptions
          (same_row (is_live user_id) sub s.subscriptions distinct current))
      ∙ rw (current, nat_beq_refl sub.id) refl
    where
      live : is_live user_id sub ≡ true
      live = newest_holds (is_live user_id) sub s.subscriptions current

      stays_live :
          (x : Subscription)
          → x ≡ sub
          → is_live user_id (renewed now plan period x) ≡ is_live user_id x
      stays_live x e =
          let live_x : is_live user_id x ≡ true = ap (is_live user_id) e ∙ live in
          is_live-renewed now user_id plan period x live_x ∙ sym live_x

  renewal :
      (sub : Subscription) (old : Plan)
      → get_plan payload.plan_id s ≡ some plan
      → Distinct s.subscriptions
      → newest (is_live user_id) s.subscriptions ≡ some sub
      → get_plan sub.plan_id s ≡ some old
      → change_plan now user_id payload (new_session s)
        ≡ (ok (record (chosen now plan period) { plan = plan_out old }), after_renewal sub old)
  unfolding change_plan active_for_user get_subscription plan_of
  renewal sub old found distinct current its = rw (found) (
      rw (active_for_user-some user_id (new_session s) sub current) (
        rw (its) (
          get_subscription-some user_id
            (record (after_renewal sub old) { loaded = (sub.id, some old) ∷ [] })
            (renewed now plan period sub) old (renewed_current sub distinct current)
            (plan_of-loaded (renewed now plan period sub)
              (record (after_renewal sub old) { loaded = [] }) (some old)))))

  creation :
      get_plan payload.plan_id s ≡ some plan
      → newest (is_live user_id) s.subscriptions ≡ none
      → change_plan now user_id payload (new_session s)
        ≡ (ok (chosen now plan period), after_creation)
  unfolding change_plan active_for_user get_subscription plan_of
  creation found none_current = rw (found) (
      rw (active_for_user-none user_id (new_session s) none_current) (
        get_subscription-some user_id (record after_creation { loaded = [] }) created plan
          (newest-append (is_live user_id) created s.subscriptions none_current
            (rw (nat_beq_refl user_id) refl))
          (get_plan-id payload.plan_id s plan found)))

users_chosen :
    (user_id : ℕ) (code : UserPlan) (users : List User)
    → All
        (λ (u : User). u.id ≡ user_id → u.plan ≡ code)
        (update (λ u. u.id == user_id) (λ u. record u { plan = code }) users)
users_chosen user_id code [] = tt
users_chosen user_id code (u ∷ users) = (one, users_chosen user_id code users)
  where
    one :
        (if u.id == user_id then record u { plan = code } else u).id ≡ user_id
        → (if u.id == user_id then record u { plan = code } else u).plan ≡ code
    one = elim (Bool-cases (u.id == user_id)) [
      | inl t ↦ rw (t) (λ e. refl)
      | inr f ↦ rw (f) (λ e. ground arith)
    ]

-- A change of the plan succeeds, and whoever asks in another session is shown the chosen plan, active from now on for
-- the chosen period, and the user has its code. The answer to the change itself shows the plan that was
-- current before, where there was one. The plan exists, as do the plans of the subscriptions, whose
-- ids are different.
pub change_plan-get_subscription :
    (now user_id : ℕ) (payload : ChangePlanRequest) (plan : Plan) (s : Books)
    → get_plan payload.plan_id s ≡ some plan
    → Distinct s.subscriptions
    → All (λ (x : Subscription). (p : Plan) × (get_plan x.plan_id s ≡ some p)) s.subscriptions
    → (out : SubscriptionOut) × (t : Books) × (change_plan now user_id payload (new_session s)
        ≡ (ok out, t))
      × ((get_subscription user_id (new_session t)).0 ≡ ok (chosen now plan payload.billing_period))
      × All (λ (u : User). u.id ≡ user_id → u.plan ≡ plan.code) t.users
      × ((sub : Subscription) (old : Plan)
          → newest (is_live user_id) s.subscriptions ≡ some sub
          → get_plan sub.plan_id s ≡ some old
          → out.plan ≡ plan_out old)
      × (newest (is_live user_id) s.subscriptions ≡ none → out.plan ≡ plan_out plan)
unfolding plan_of
change_plan-get_subscription now user_id payload plan s found distinct exist =
    elim (Option-cases (newest (is_live user_id) s.subscriptions)) [
      | inl e ↦ (
        chosen now plan payload.billing_period,
        after_creation now user_id payload plan s,
        creation now user_id payload plan s found e,
        ap (λ r. r.0)
            (get_subscription-some user_id (new_session (after_creation now user_id payload plan s))
              (created now user_id payload plan s) plan
              (newest-append (is_live user_id) _ s.subscriptions e (rw (nat_beq_refl user_id) refl))
              (get_plan-id payload.plan_id s plan found)),
        users_chosen user_id plan.code s.users,
        (λ sub old e' its. cc),
        λ e'. refl,
      )
      | inr (sub, e) ↦
          let p =
            newest-All (is_live user_id)
              (λ (x : Subscription). (p : Plan) × (get_plan x.plan_id s ≡ some p)) sub
              s.subscriptions exist e in
          (
            record (chosen now plan payload.billing_period) { plan = plan_out p.0 },
            after_renewal now user_id payload plan s sub p.0,
            renewal now user_id payload plan s sub p.0 found distinct e p.1,
            ap (λ r. r.0)
                (get_subscription-some user_id
                  (new_session (after_renewal now user_id payload plan s sub p.0))
                  (renewed now plan payload.billing_period sub) plan
                  (renewed_current now user_id payload plan s sub distinct e)
                  (get_plan-id payload.plan_id s plan found)),
            users_chosen user_id plan.code s.users,
            (λ sub' old e' its. let same : p.0 ≡ old = cc in ap plan_out same),
            λ e'. cc,
          )
    ]
