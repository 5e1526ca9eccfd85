-- ===== src/Billing/Rows.antt =====
-- Counts and ids of the rows of subscriptions after a write (app/models/billing.py).
use repo_info_backend.Billing.Current.{Distinct}
use repo_info_backend.Billing.Tables.{Subscription}
use repo_info_backend.Prelude.{
  All, All-append, All-update, Bool, Bool-cases, List, [], arith, count, if◌then◌else◌, inl, inr,
  refl, subst, sym, true, update, ◌++◌, ◌+◌, ◌<◌, ◌∙◌, ◌∷◌, ◌≡◌, ◌≢◌, ◌≤◌,
}

pub count-append_one :
    (p : Subscription → Bool) (xs : List Subscription) (y : Subscription)
    → count p (xs ++ y ∷ []) ≡ count p xs + (if p y then 1 else 0)
count-append_one p [] y = omega arith
count-append_one p (x ∷ xs) y = ground (arith, count-append_one p xs y)

pub count-update_le :
    (p q : Subscription → Bool) (f : Subscription → Subscription) (xs : List Subscription)
    → All (λ x. q x ≡ true → p (f x) ≡ true → p x ≡ true) xs
    → count p (update q f xs) ≤ count p xs
count-update_le p q f [] h = omega arith
count-update_le p q f (x ∷ xs) h = ground (arith, h.0, count-update_le p q f xs h.1)

pub Distinct-update :
    (q : Subscription → Bool) (f : Subscription → Subscription) (xs : List Subscription)
    → ((x : Subscription) → (f x).id ≡ x.id)
    → Distinct xs
    → Distinct (update q f xs)
Distinct-update q f [] keep h = tt
Distinct-update q f (x ∷ xs) keep h = (
  subst (λ i. All (λ (y : Subscription). y.id ≢ i) (update q f xs)) (sym same)
      (All-update (λ (y : Subscription). y.id ≢ x.id) q f (λ y other e. other (sym (keep y) ∙ e)) xs
        h.0),
  Distinct-update q f xs keep h.1,
)
  where
    same : (if q x then f x else x).id ≡ x.id
    same = elim (Bool-cases (q x)) [ inl t ↦ rw (t) (keep x) | inr e ↦ rw (e) refl ]

pub Distinct-append :
    (xs : List Subscription) (y : Subscription)
    → Distinct xs
    → All (λ (x : Subscription). x.id < y.id) xs
    → Distinct (xs ++ y ∷ [])
Distinct-append [] y h low = (tt, tt)
Distinct-append (x ∷ xs) y h low = (
  All-append (λ (z : Subscription). z.id ≢ x.id) xs (y ∷ []) h.0
      ((λ e. omega (arith, low.0, e)), tt),
  Distinct-append xs y h.1 low.1,
)
