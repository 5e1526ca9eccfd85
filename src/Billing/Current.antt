-- ===== src/Billing/Current.antt =====
-- The current subscription of a user, in app/repositories/billing.py, after writes to the table.
use mathlib.Core.Option
use repo_info_backend.Billing.Queries.{newer, newest}
use repo_info_backend.Billing.Tables.{Subscription}
use repo_info_backend.Prelude.{
  All, All-map, Bool, Bool-cases, List, Option, [], ap, arith, count, if◌then◌else◌, inl, inr, leb,
  none, refl, some, subst, sym, true, update, ◌++◌, ◌∙◌, ◌∷◌, ◌≡◌, ◌≢◌, ◌⊎◌,
}

-- the ids of the rows are different
abbrev pub Distinct : List Subscription → Type 0
Distinct [] = Unit
Distinct (x ∷ xs) = All (λ (y : Subscription). y.id ≢ x.id) xs × Distinct xs

pub newest-none :
    (p : Subscription → Bool) (xs : List Subscription) → newest p xs ≡ none → count p xs ≡ 0
newest-none p [] e = refl
newest-none p (x ∷ xs) e = ground (arith, newest-none p xs)

newer-cases :
    (x a : Subscription) (o : Option Subscription) → newer x o ≡ a → (a ≡ x) ⊎ (o ≡ some a)
newer-cases x a none e = inl (sym e)
newer-cases x a (some y) e = elim (Bool-cases (leb x.created_at y.created_at)) [
  | inl t ↦ inr (ground arith)
  | inr f ↦ inl (ground arith)
]

newer-map :
    (g : Subscription → Subscription) (x : Subscription) (o : Option Subscription)
    → ((y : Subscription) → (g y).created_at ≡ y.created_at)
    → newer (g x) (Option.map g o) ≡ g (newer x o)
newer-map g x none keep = refl
newer-map g x (some y) keep = elim (Bool-cases (leb x.created_at y.created_at)) [
  | inl t ↦ simp (keep x, keep y, t)
  | inr f ↦ simp (keep x, keep y, f)
]

module _ (p : Subscription → Bool) where
  newest-cases :
      (x a : Subscription) (xs : List Subscription)
      → newest p (x ∷ xs) ≡ some a
      → ((p x ≡ true) × (a ≡ x)) ⊎ (newest p xs ≡ some a)
  newest-cases x a xs e = elim (Bool-cases (p x)) [
    | inl t ↦ elim (newer-cases x a (newest p xs) (ground arith)) [
      | inl same ↦ inl (t, same)
      | inr later ↦ inr later
    ]
    | inr f ↦ inr (ground arith)
  ]

  pub newest_holds : (a : Subscription) (xs : List Subscription) → newest p xs ≡ some a → p a ≡ true
  newest_holds a [] e = cc
  newest_holds a (x ∷ xs) e = elim (newest-cases x a xs e) [
    | inl h ↦ rw (h.1) (h.0)
    | inr r ↦ newest_holds a xs r
  ]

  pub newest-All {κ} :
      (P : Subscription → Type κ) (a : Subscription) (xs : List Subscription)
      → All P xs
      → newest p xs ≡ some a
      → P a
  newest-All P a [] h e = cc
  newest-All P a (x ∷ xs) h e = elim (newest-cases x a xs e) [
    | inl k ↦ subst P (sym k.1) h.0
    | inr r ↦ newest-All P a xs h.1 r
  ]

  pub newest-append :
      (y : Subscription) (xs : List Subscription)
      → newest p xs ≡ none
      → p y ≡ true
      → newest p (xs ++ y ∷ []) ≡ some y
  newest-append y [] e h = rw (h) refl
  newest-append y (x ∷ xs) e h = ground (arith, newest-append y xs)

  -- A write that keeps the condition and `created_at` changes the row that is current.
  pub newest-update :
      (q : Subscription → Bool) (f : Subscription → Subscription) (xs : List Subscription)
      → ((x : Subscription) → (f x).created_at ≡ x.created_at)
      → All (λ x. q x ≡ true → p (f x) ≡ p x) xs
      → newest p (update q f xs) ≡ Option.map (λ x. if q x then f x else x) (newest p xs)
  newest-update q f [] keep h = refl
  newest-update q f (x ∷ xs) keep h =
      rw (kept_here, newest-update q f xs keep h.1)
        (elim (Bool-cases (p x)) [
          | inl t ↦ rw (t) (ap some (newer-map written x (newest p xs) dated))
          | inr f ↦ rw (f) refl
        ])
    where
      written : Subscription → Subscription
      written y = if q y then f y else y

      dated : (y : Subscription) → (written y).created_at ≡ y.created_at
      dated y = elim (Bool-cases (q y)) [ inl t ↦ rw (t) (keep y) | inr e ↦ rw (e) refl ]

      kept_here : p (written x) ≡ p x
      kept_here = elim (Bool-cases (q x)) [ inl t ↦ rw (t) (h.0 t) | inr e ↦ rw (e) refl ]

  -- Ids being different, the current row is known by its id.
  pub same_row :
      (a : Subscription) (xs : List Subscription)
      → Distinct xs
      → newest p xs ≡ some a
      → All (λ (x : Subscription). x.id ≡ a.id → x ≡ a) xs
  same_row a [] d e = tt
  same_row a (x ∷ xs) d e = elim (newest-cases x a xs e) [
    | inl h ↦ (
      (λ same. sym h.1),
      All-map (λ y other same. absurd (other (same ∙ ap (λ (r : Subscription). r.id) h.1))) xs d.0,
    )
    | inr r ↦ (
      (λ same. absurd (newest-All (λ (y : Subscription). y.id ≢ x.id) a xs d.0 r (sym same))),
      same_row a xs d.1 r,
    )
  ]
