-- ===== src/Billing/Shown.antt =====
-- What `get_subscription` of app/services/billing_service.py shows, by the subscription that is current.
use repo_info_backend.Billing.Queries.{active_for_user, get_by_code, is_live, newest, plan_of}
use repo_info_backend.Billing.Service.{free_out, get_subscription, plan_out}
use repo_info_backend.Billing.Tables.{Books, Plan, Subscription}
use repo_info_backend.Database.Session.{ok}
use repo_info_backend.Models.Enums.{UserPlan}
use repo_info_backend.Prelude.{Option, nat_beq_refl, none, refl, some, ℕ, ◌∷◌, ◌≡◌}

pub active_for_user-some :
    (user_id : ℕ) (s : Books) (sub : Subscription)
    → newest (is_live user_id) s.subscriptions ≡ some sub
    → active_for_user user_id s
      ≡ (ok (some sub), record s { loaded = (sub.id, plan_of sub s) ∷ s.loaded })
unfolding active_for_user
active_for_user-some user_id s sub current = rw (current) refl

pub active_for_user-none :
    (user_id : ℕ) (s : Books)
    → newest (is_live user_id) s.subscriptions ≡ none
    → active_for_user user_id s ≡ (ok none, s)
unfolding active_for_user
active_for_user-none user_id s current = rw (current) refl

pub plan_of-loaded :
    (sub : Subscription) (s : Books) (o : Option Plan)
    → plan_of sub (record s { loaded = (sub.id, o) ∷ s.loaded }) ≡ o
unfolding plan_of
plan_of-loaded sub s o = rw (nat_beq_refl sub.id) refl

-- the subscription that is current, with the plan that the session has of it
pub get_subscription-some :
    (user_id : ℕ) (s : Books) (sub : Subscription) (plan : Plan)
    → newest (is_live user_id) s.subscriptions ≡ some sub
    → plan_of sub s ≡ some plan
    → get_subscription user_id s ≡ (
      ok (record {
        plan = plan_out plan;
        status = sub.status;
        renews_at = sub.current_period_end;
        current_period_end = sub.current_period_end;
        cancel_at_period_end = sub.cancel_at_period_end;
      }),
      record s { loaded = (sub.id, some plan) ∷ s.loaded },
    )
unfolding get_subscription
get_subscription-some user_id s sub plan current its =
    rw (active_for_user-some user_id s sub current)
      (rw (its) (rw (plan_of-loaded sub s (some plan)) refl))

pub get_subscription-none :
    (user_id : ℕ) (s : Books) (free : Plan)
    → newest (is_live user_id) s.subscriptions ≡ none
    → get_by_code UserPlan.free s ≡ some free
    → get_subscription user_id s ≡ (ok (free_out free), s)
unfolding get_subscription
get_subscription-none user_id s free current its =
    rw (active_for_user-none user_id s current) (rw (its) refl)
