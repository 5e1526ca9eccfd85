-- ===== src/Models/Enums/Billing.antt =====
-- app/models/enums.py, the enumerations of subscriptions.
use repo_info_backend.Prelude.{ℕ, zero, suc, ◌≡◌, refl, Eq, enum_eq}

pub data SubscriptionStatus : Type 0 where
  trialing active past_due canceled incomplete incomplete_expired unpaid : SubscriptionStatus

abbrev subscription_status_index : SubscriptionStatus → ℕ
subscription_status_index SubscriptionStatus.trialing = 0
subscription_status_index SubscriptionStatus.active = 1
subscription_status_index SubscriptionStatus.past_due = 2
subscription_status_index SubscriptionStatus.canceled = 3
subscription_status_index SubscriptionStatus.incomplete = 4
subscription_status_index SubscriptionStatus.incomplete_expired = 5
subscription_status_index SubscriptionStatus.unpaid = 6

abbrev subscription_status_at : ℕ → SubscriptionStatus
subscription_status_at zero = SubscriptionStatus.trialing
subscription_status_at (suc zero) = SubscriptionStatus.active
subscription_status_at (suc (suc zero)) = SubscriptionStatus.past_due
subscription_status_at (suc (suc (suc zero))) = SubscriptionStatus.canceled
subscription_status_at (suc (suc (suc (suc zero)))) = SubscriptionStatus.incomplete
subscription_status_at (suc (suc (suc (suc (suc zero))))) = SubscriptionStatus.incomplete_expired
subscription_status_at _ = SubscriptionStatus.unpaid

pub subscription_status_at-index :
    (m : SubscriptionStatus) → subscription_status_at (subscription_status_index m) ≡ m
subscription_status_at-index SubscriptionStatus.trialing = refl
subscription_status_at-index SubscriptionStatus.active = refl
subscription_status_at-index SubscriptionStatus.past_due = refl
subscription_status_at-index SubscriptionStatus.canceled = refl
subscription_status_at-index SubscriptionStatus.incomplete = refl
subscription_status_at-index SubscriptionStatus.incomplete_expired = refl
subscription_status_at-index SubscriptionStatus.unpaid = refl

instance abbrev pub subscription_status_eq : Eq SubscriptionStatus
subscription_status_eq =
    enum_eq subscription_status_index subscription_status_at subscription_status_at-index

pub data BillingPeriod : Type 0 where
  monthly yearly : BillingPeriod

abbrev billing_period_index : BillingPeriod → ℕ
billing_period_index BillingPeriod.monthly = 0
billing_period_index BillingPeriod.yearly = 1

abbrev billing_period_at : ℕ → BillingPeriod
billing_period_at zero = BillingPeriod.monthly
billing_period_at _ = BillingPeriod.yearly

pub billing_period_at-index : (m : BillingPeriod) → billing_period_at (billing_period_index m) ≡ m
billing_period_at-index BillingPeriod.monthly = refl
billing_period_at-index BillingPeriod.yearly = refl

instance abbrev pub billing_period_eq : Eq BillingPeriod
billing_period_eq = enum_eq billing_period_index billing_period_at billing_period_at-index
