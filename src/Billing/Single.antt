-- ===== src/Billing/Single.antt =====
-- At most one subscription of a user is current, whatever app/services/billing_service.py is asked to do.
use repo_info_backend.Billing.Current.{Distinct, newest_holds, newest-none, same_row}
use repo_info_backend.Billing.Queries.{
  active_for_user, canceled, get_by_code, get_plan, is_live, newest, plan_of,
}
use repo_info_backend.Billing.Rows.{
  Distinct-append, Distinct-update, count-append_one, count-update_le,
}
use repo_info_backend.Billing.Service.{
  ChangePlanRequest, SubscriptionOut, cancel, change_plan, get_subscription, new_subscription,
  renewed, shown,
}
use repo_info_backend.Billing.Shown.{active_for_user-none, active_for_user-some}
use repo_info_backend.Billing.Tables.{Books, Plan, Subscription, new_session}
use repo_info_backend.Catalog.GitUrl.{after, before}
use repo_info_backend.Database.Session.{Action, Result, close, err, in_transaction, ok}
use repo_info_backend.Models.Enums.{BillingPeriod, UserPlan, billing_period_eq, user_plan_eq}
use repo_info_backend.Prelude.{
  All, All-always, All-append, All-map, All-update, Bool, Bool-cases, List, Option, Option-cases,
  [], ap, arith, beq→eq, count, false, inl, inr, nat_eq, none, refl, some, subst, text_eq, true,
  update, ℕ, ◌++◌, ◌+◌, ◌<◌, ◌==◌, ◌∙◌, ◌∷◌, ◌≡◌, ◌≤◌,
}

-- at most one current subscription for each user, and ids that are different and below the next one
abbrev pub IsKept : List Subscription → ℕ → Type 0
IsKept subscriptions next_id =
    ((user_id : ℕ) → count (is_live user_id) subscriptions ≤ 1)
    × Distinct subscriptions
    × All (λ (x : Subscription). x.id < next_id) subscriptions

-- a request of a user
pub data Request : Type 0 where
  change : ℕ → ChangePlanRequest → Request
  end : ℕ → Bool → Request
  show : Request

abbrev pub handle : ℕ → Request → Action Books SubscriptionOut
handle user_id (Request.change now payload) = change_plan now user_id payload
handle user_id (Request.end now at_period_end) = cancel now user_id at_period_end
handle user_id Request.show = get_subscription user_id

-- the state after the requests, each in its own session; a failure is rolled back
unfoldable pub handle_all : List (ℕ × Request) → Books → Books
unfolding in_transaction
handle_all [] s = s
handle_all (r ∷ rs) s =
    handle_all rs (in_transaction (λ old new. old) (handle r.0 r.1) (new_session s)).1

shown-state : (o : Option Subscription) (s : Books) → (shown o s).1 ≡ s
shown-state none s = elim (Option-cases (get_by_code UserPlan.free s)) [
  | inl e ↦ rw (e) refl
  | inr (free, e) ↦ rw (e) refl
]
shown-state (some sub) s = elim (Option-cases (plan_of sub s)) [
  | inl e ↦ rw (e) refl
  | inr (plan, e) ↦ rw (e) refl
]

-- a look at the subscription changes no table
get_subscription-IsKept :
    (user_id : ℕ) (s : Books)
    → IsKept s.subscriptions s.next_id
    → let t = (get_subscription user_id s).1 in IsKept t.subscriptions t.next_id
unfolding get_subscription active_for_user
get_subscription-IsKept user_id s h =
    elim (Option-cases (newest (is_live user_id) s.subscriptions)) [
      | inl e ↦ rw (e) (rw (shown-state none s) h)
      | inr (sub, e) ↦ rw (e) (rw (shown-state (some sub) _) h)
    ]

new_subscription-IsKept :
    (now user_id : ℕ) (plan : Plan) (period : BillingPeriod) (s : Books)
    → newest (is_live user_id) s.subscriptions ≡ none
    → IsKept s.subscriptions s.next_id
    → IsKept
        (s.subscriptions ++ new_subscription now user_id plan period s.next_id ∷ [])
        (s.next_id + 1)
new_subscription-IsKept now user_id plan period s none_current h = (
  single,
  Distinct-append s.subscriptions created h.1 h.2,
  All-append (λ (x : Subscription). x.id < s.next_id + 1) s.subscriptions (created ∷ [])
      (All-map (λ x low. omega arith) s.subscriptions h.2) (omega arith, tt),
)
  where
    created : Subscription
    created = new_subscription now user_id plan period s.next_id

    single : (u : ℕ) → count (is_live u) (s.subscriptions ++ created ∷ []) ≤ 1
    single u =
        rw (count-append_one (is_live u) s.subscriptions created)
          (elim (Bool-cases (user_id == u)) [
            | inl t ↦
                let no_row : count (is_live u) s.subscriptions ≡ 0 =
                  subst (λ i. count (is_live i) s.subscriptions ≡ 0) (beq→eq user_id u t)
                    (newest-none (is_live user_id) s.subscriptions none_current) in
                rw (t) (omega (arith, no_row))
            | inr f ↦ rw (f) (omega (arith, h.0 u))
          ])

written-IsKept :
    (id : ℕ) (f : Subscription → Subscription) (s : Books)
    → ((x : Subscription) → (f x).id ≡ x.id)
    → ((u : ℕ)
        → All
            (λ x. (x.id == id) ≡ true → is_live u (f x) ≡ true → is_live u x ≡ true)
            s.subscriptions)
    → IsKept s.subscriptions s.next_id
    → IsKept (update (λ x. x.id == id) f s.subscriptions) s.next_id
written-IsKept id f s keep live h = (
  (λ u.
      omega
        (arith, h.0 u, count-update_le (is_live u) (λ x. x.id == id) f s.subscriptions (live u))),
  Distinct-update (λ x. x.id == id) f s.subscriptions keep h.1,
  All-update (λ (x : Subscription). x.id < s.next_id) (λ x. x.id == id) f (λ x low. rw (keep x) low)
      s.subscriptions h.2,
)

is_live-renewed_only :
    (now user_id u : ℕ) (plan : Plan) (period : BillingPeriod) (sub : Subscription)
    (xs : List Subscription)
    → Distinct xs
    → newest (is_live user_id) xs ≡ some sub
    → All
        (λ x.
          (x.id == sub.id) ≡ true
          → is_live u (renewed now plan period x) ≡ true
          → is_live u x ≡ true)
        xs
is_live-renewed_only now user_id u plan period sub xs distinct current =
    All-map
      (λ x same hit. live_only x (
        ap (is_live user_id) (same (beq→eq x.id sub.id hit))
        ∙ newest_holds (is_live user_id) sub xs current))
      xs (same_row (is_live user_id) sub xs distinct current)
  where
    live_only :
        (x : Subscription)
        → is_live user_id x ≡ true
        → is_live u (renewed now plan period x) ≡ true
        → is_live u x ≡ true
    live_only x mine new = ground arith

change_plan-IsKept :
    (now user_id : ℕ) (payload : ChangePlanRequest) (s : Books)
    → IsKept s.subscriptions s.next_id
    → let t = (change_plan now user_id payload s).1 in IsKept t.subscriptions t.next_id
unfolding change_plan
change_plan-IsKept now user_id payload s h = elim (Option-cases (get_plan payload.plan_id s)) [
  | inl e ↦ rw (e) h
  | inr (plan, e) ↦ elim (Option-cases (newest (is_live user_id) s.subscriptions)) [
    | inl c ↦ rw (e) (
        rw (active_for_user-none user_id s c) (
          get_subscription-IsKept user_id
            (record s {
              users = _;
              subscriptions =
                  s.subscriptions
                  ++ new_subscription now user_id plan payload.billing_period s.next_id ∷ [];
              next_id = s.next_id + 1;
            })
            (new_subscription-IsKept now user_id plan payload.billing_period s c h)))
    | inr (sub, c) ↦ rw (e) (
        rw (active_for_user-some user_id s sub c) (
          get_subscription-IsKept user_id
            (record s {
              users = _;
              subscriptions =
                  update (λ x. x.id == sub.id) (renewed now plan payload.billing_period)
                    s.subscriptions;
              loaded = _;
            })
            (written-IsKept sub.id (renewed now plan payload.billing_period) s (λ x. refl)
              (λ u.
                is_live-renewed_only now user_id u plan payload.billing_period sub s.subscriptions
                  h.1 c)
              h)))
  ]
]

is_live-canceled :
    (now u : ℕ) (at_period_end : Bool) (x : Subscription)
    → is_live u (canceled now at_period_end x) ≡ true
    → is_live u x ≡ true
is_live-canceled now u true x h = ground arith
is_live-canceled now u false x h = ground arith

canceled-id :
    (now : ℕ) (at_period_end : Bool) (x : Subscription) → (canceled now at_period_end x).id ≡ x.id
canceled-id now true x = refl
canceled-id now false x = refl

cancel-IsKept :
    (now user_id : ℕ) (at_period_end : Bool) (s : Books)
    → IsKept s.subscriptions s.next_id
    → let t = (cancel now user_id at_period_end s).1 in IsKept t.subscriptions t.next_id
unfolding cancel
cancel-IsKept now user_id at_period_end s h =
    elim (Option-cases (newest (is_live user_id) s.subscriptions)) [
      | inl c ↦ rw (active_for_user-none user_id s c) h
      | inr (sub, c) ↦ rw (active_for_user-some user_id s sub c) (
          get_subscription-IsKept user_id
            (record s {
              subscriptions =
                  update (λ x. x.id == sub.id) (canceled now at_period_end) s.subscriptions;
              loaded = _;
            })
            (written-IsKept sub.id (canceled now at_period_end) s (canceled-id now at_period_end)
              (λ u.
                All-always (λ x hit live. is_live-canceled now u at_period_end x live)
                  s.subscriptions)
              h))
    ]

handle-IsKept :
    (user_id : ℕ) (r : Request) (s : Books)
    → IsKept s.subscriptions s.next_id
    → let t = (handle user_id r s).1 in IsKept t.subscriptions t.next_id
handle-IsKept user_id (Request.change now payload) s h = change_plan-IsKept now user_id payload s h
handle-IsKept user_id (Request.end now at_period_end) s h =
    cancel-IsKept now user_id at_period_end s h
handle-IsKept user_id Request.show s h = get_subscription-IsKept user_id s h

close-IsKept :
    {A : Type 0} (old : Books) (r : Result A × Books)
    → IsKept old.subscriptions old.next_id
    → IsKept r.1.subscriptions r.1.next_id
    → let t = (close (λ old new. old) old r).1 in IsKept t.subscriptions t.next_id
close-IsKept old (ok a, new) before after = after
close-IsKept old (err e, new) before after = before

-- At most one subscription of a user is current, and the ids of the rows are different and below the next
-- one, after any sequence of changes of plan, cancellations and looks of any users, each of which is a
-- transaction.
pub handle_all-IsKept :
    (rs : List (ℕ × Request)) (s : Books)
    → IsKept s.subscriptions s.next_id
    → IsKept (handle_all rs s).subscriptions (handle_all rs s).next_id
unfolding handle_all in_transaction
handle_all-IsKept [] s h = h
handle_all-IsKept (r ∷ rs) s h = handle_all-IsKept rs _ (
    close-IsKept (new_session s) (handle r.0 r.1 (new_session s)) h
      (handle-IsKept r.0 r.1 (new_session s) h))
