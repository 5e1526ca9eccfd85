-- ===== src/Billing/Cancellation.antt =====
-- The end of a subscription, in app/services/billing_service.py: at once, or at the end of its period.
use repo_info_backend.Auth.Repositories.{ended}
use repo_info_backend.Billing.Queries.{canceled, get_by_code, is_live, newest, plan_of}
use repo_info_backend.Billing.Rows.{count-update_le}
use repo_info_backend.Billing.Service.{cancel, free_out, get_subscription}
use repo_info_backend.Billing.Shown.{active_for_user-some, get_subscription-none}
use repo_info_backend.Billing.Tables.{Books, Plan, Subscription, new_session}
use repo_info_backend.Database.Session.{ok}
use repo_info_backend.Models.Enums.{UserPlan, user_plan_eq}
use repo_info_backend.Prelude.{
  All-always, Bool, Bool-cases, List, [], ap, arith, beq_refl, count, false, inl, inr, nat_eq, none,
  refl, some, text_eq, true, update, ℕ, ◌==◌, ◌∙◌, ◌∷◌, ◌≡◌, ◌≤◌,
}

newest-zero :
    (p : Subscription → Bool) (xs : List Subscription) → count p xs ≡ 0 → newest p xs ≡ none
newest-zero p [] h = refl
newest-zero p (x ∷ xs) h = ground (arith, newest-zero p xs)

-- of one current row nothing is left by a write that ends it
count-ended :
    (p q : Subscription → Bool) (f : Subscription → Subscription) (a : Subscription)
    (xs : List Subscription)
    → newest p xs ≡ some a
    → q a ≡ true
    → count p xs ≤ 1
    → ((x : Subscription) → p (f x) ≡ false)
    → count p (update q f xs) ≡ 0
count-ended p q f a [] e hit one ended = refl
count-ended p q f a (x ∷ xs) e hit one ended = elim (Bool-cases (p x)) [
  | inl t ↦
      let none_left : count p xs ≡ 0 = ground arith in
      let later : newest p xs ≡ none = newest-zero p xs none_left in
      let same : x ≡ a = ground arith in
      let hit_x : q x ≡ true = ap q same ∙ hit in
      rw (hit_x, ended x)
        (omega (
          arith,
          none_left,
          count-update_le p q f xs (All-always (λ y at_q live. cc (ended y)) xs),
        ))
  | inr n ↦
      let rest = count-ended p q f a xs (ground arith) hit (ground arith) ended in
      ground (arith, ended x, rest)
]

-- A cancellation at once leaves the user without a current subscription: this and every later session shows
-- the free plan. The row of the user keeps the code of the plan that was paid for. At most one
-- subscription is current, and the free plan exists.
pub cancel-get_subscription :
    (now user_id : ℕ) (s : Books) (sub : Subscription) (free : Plan)
    → newest (is_live user_id) s.subscriptions ≡ some sub
    → count (is_live user_id) s.subscriptions ≤ 1
    → get_by_code UserPlan.free s ≡ some free
    → (t : Books) × (cancel now user_id false (new_session s) ≡ (ok (free_out free), t))
      × (get_subscription user_id (new_session t) ≡ (ok (free_out free), new_session t))
      × (t.users ≡ s.users)
unfolding cancel get_by_code
cancel-get_subscription now user_id s sub free current single its = (
  after,
  rw (active_for_user-some user_id (new_session s) sub current)
      (get_subscription-none user_id after free gone its),
  get_subscription-none user_id (new_session after) free gone its,
  refl,
)
  where
    after : Books
    after = record s {
      subscriptions = update (λ x. x.id == sub.id) (canceled now false) s.subscriptions;
      loaded = (sub.id, plan_of sub (new_session s)) ∷ [];
    }

    gone : newest (is_live user_id) after.subscriptions ≡ none
    gone = newest-zero (is_live user_id) after.subscriptions (
        count-ended (is_live user_id) (λ x. x.id == sub.id) (canceled now false) sub s.subscriptions
          current (beq_refl sub.id) single (λ x. ground arith))
