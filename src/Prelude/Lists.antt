-- ===== src/Prelude/Lists.antt =====
-- Lists measured and indexed by native numbers, under the library's names, and the queries that
-- the repositories run on a table: a table is the list of its rows.
use Prim.Native.Nat.{ℕ, zero, suc, ◌+◌, ◌-◌, ◌≤◌, min}
use mathlib.Core.Path.{◌≡◌, refl, ap, subst}
use mathlib.Core.Bool.{Bool, true, false}
use mathlib.Core.List.{List, [], ◌∷◌, ◌++◌}
use mathlib.Core.Option
use mathlib.Core.Option.{Option, none, some}
use native.Mathlib.Omega.{arith}
use mathlib.Core.Logic.{inl, inr}
use repo_info_backend.Prelude.Tests.{Bool-cases, is_some, if◌then◌else◌}

module _ {ℓ} {A : Type ℓ} where
  abbrev pub length : List A → ℕ
  length [] = 0
  length (x ∷ xs) = suc (length xs)

  abbrev pub take : ℕ → List A → List A
  take zero xs = []
  take (suc n) [] = []
  take (suc n) (x ∷ xs) = x ∷ take n xs

  abbrev pub drop : ℕ → List A → List A
  drop zero xs = xs
  drop (suc n) [] = []
  drop (suc n) (x ∷ xs) = drop n xs

  pub length-append : (xs ys : List A) → length (xs ++ ys) ≡ length xs + length ys
  length-append [] ys = omega arith
  length-append (x ∷ xs) ys = omega (arith, length-append xs ys)

  pub length-take : (n : ℕ) (xs : List A) → length (take n xs) ≡ min n (length xs)
  length-take zero xs = omega arith
  length-take (suc n) [] = omega arith
  length-take (suc n) (x ∷ xs) = omega (arith, length-take n xs)

  pub length-drop : (n : ℕ) (xs : List A) → length (drop n xs) ≡ length xs - n
  length-drop zero xs = omega arith
  length-drop (suc n) [] = omega arith
  length-drop (suc n) (x ∷ xs) = omega (arith, length-drop n xs)

  pub take-drop : (n : ℕ) (xs : List A) → take n xs ++ drop n xs ≡ xs
  take-drop zero xs = refl
  take-drop (suc n) [] = refl
  take-drop (suc n) (x ∷ xs) = ap (λ ys. x ∷ ys) (take-drop n xs)

  pub drop-drop : (m n : ℕ) (xs : List A) → drop n (drop m xs) ≡ drop (m + n) xs
  drop-drop zero n xs = let e : 0 + n ≡ n = omega arith in rw e
  drop-drop (suc m) zero [] = let e : suc m + 0 ≡ suc m = omega arith in rw e
  drop-drop (suc m) (suc n) [] = let e : suc m + suc n ≡ suc (m + suc n) = omega arith in rw e
  drop-drop (suc m) n (x ∷ xs) =
      let e : suc m + n ≡ suc (m + n) = omega arith in rw e (drop-drop m n xs)

  pub take_all : (n : ℕ) (xs : List A) → length xs ≤ n → take n xs ≡ xs
  take_all zero [] h = refl
  take_all zero (x ∷ xs) h = absurd (omega arith)
  take_all (suc n) [] h = refl
  take_all (suc n) (x ∷ xs) h = ap (λ ys. x ∷ ys) (take_all n xs (omega arith))

  pub append_nil : (xs : List A) → xs ++ [] ≡ xs
  append_nil [] = refl
  append_nil (x ∷ xs) = ap (λ ys. x ∷ ys) (append_nil xs)

  pub drop_all : (n : ℕ) (xs : List A) → length xs ≤ n → drop n xs ≡ []
  drop_all zero [] h = refl
  drop_all zero (x ∷ xs) h = absurd (omega arith)
  drop_all (suc n) [] h = refl
  drop_all (suc n) (x ∷ xs) h = drop_all n xs (omega arith)

  -- `select … where p`
  abbrev pub filter : (A → Bool) → List A → List A
  filter p [] = []
  filter p (x ∷ xs) = if p x then x ∷ filter p xs else filter p xs

  -- `scalar_one_or_none`, on a query that a unique column or a `limit(1)` keeps to one row
  abbrev pub find? : (A → Bool) → List A → Option A
  find? p [] = none
  find? p (x ∷ xs) = if p x then some x else find? p xs

  -- `select count(*) … where p`
  abbrev pub count : (A → Bool) → List A → ℕ
  count p [] = 0
  count p (x ∷ xs) = (if p x then 1 else 0) + count p xs

  -- `update … where p`, and a write to a loaded row
  abbrev pub update : (A → Bool) → (A → A) → List A → List A
  update p f [] = []
  update p f (x ∷ xs) = (if p x then f x else x) ∷ update p f xs

  abbrev pub All {κ} : (A → Type κ) → List A → Type κ
  All holds [] = Unit
  All holds (x ∷ rest) = holds x × All holds rest

module _ {ℓ} {A : Type ℓ} where
  pub find?-append :
      (p : A → Bool) (xs ys : List A) (a : A) → find? p xs ≡ some a → find? p (xs ++ ys) ≡ some a
  find?-append p [] ys a h = cc
  find?-append p (x ∷ xs) ys a h = ground (arith, find?-append p xs ys a)

  pub find?_holds : (p : A → Bool) (xs : List A) (a : A) → find? p xs ≡ some a → p a ≡ true
  find?_holds p [] a h = cc
  find?_holds p (x ∷ xs) a h = ground (arith, find?_holds p xs a)

  pub find?-append_none :
      (p : A → Bool) (xs ys : List A) → find? p xs ≡ none → find? p (xs ++ ys) ≡ find? p ys
  find?-append_none p [] ys h = refl
  find?-append_none p (x ∷ xs) ys h = ground (arith, find?-append_none p xs ys)

  -- An update that keeps the column of a query changes the row that the query finds.
  pub find?-update :
      (p q : A → Bool) (f : A → A) (xs : List A)
      → ((x : A) → p (f x) ≡ p x)
      → find? p (update q f xs) ≡ Option.map (λ x. if q x then f x else x) (find? p xs)
  find?-update p q f [] keep = refl
  find?-update p q f (x ∷ xs) keep = ground (arith, keep x, find?-update p q f xs keep)

  pub All-append {κ} :
      (P : A → Type κ) (front back : List A) → All P front → All P back → All P (front ++ back)
  All-append P [] back left right = right
  All-append P (x ∷ front) back left right = (left.0, All-append P front back left.1 right)

  pub All-map {κ μ} :
      {P : A → Type κ} {Q : A → Type μ} (f : (x : A) → P x → Q x) (xs : List A)
      → All P xs
      → All Q xs
  All-map f [] h = tt
  All-map f (x ∷ xs) h = (f x h.0, All-map f xs h.1)

  pub All-update {κ} :
      (P : A → Type κ) (q : A → Bool) (f : A → A)
      → ((x : A) → P x → P (f x))
      → (xs : List A) → All P xs
      → All P (update q f xs)
  All-update P q f keep [] h = tt
  All-update P q f keep (x ∷ xs) h = (one (q x), All-update P q f keep xs h.1)
    where
      one : (b : Bool) → P (if b then f x else x)
      one true = keep x h.0
      one false = h.0

  -- The rows that an update writes are those of its condition.
  pub All-update_where {κ} :
      (P : A → Type κ) (q : A → Bool) (f : A → A)
      → ((x : A) → q x ≡ true → P x → P (f x))
      → (xs : List A) → All P xs
      → All P (update q f xs)
  All-update_where P q f keep [] h = tt
  All-update_where P q f keep (x ∷ xs) h = (one (q x) refl, All-update_where P q f keep xs h.1)
    where
      one : (b : Bool) → q x ≡ b → P (if b then f x else x)
      one true t = keep x t h.0
      one false t = h.0

  pub find?-All {κ} :
      (P : A → Type κ) (p : A → Bool) (xs : List A) (a : A) → All P xs → find? p xs ≡ some a → P a
  find?-All P p [] a h e = cc
  find?-All P p (x ∷ xs) a h e = split (p x) refl (find?-All P p xs a h.1)
    where
      split : (b : Bool) → p x ≡ b → (find? p xs ≡ some a → P a) → P a
      split true t rest = subst P (ground arith) h.0
      split false f rest = rest (ground arith)

  pub update_id : (q : A → Bool) (f : A → A) (xs : List A) → count q xs ≡ 0 → update q f xs ≡ xs
  update_id q f [] h = refl
  update_id q f (x ∷ xs) h = ground (arith, update_id q f xs)

  pub count-update_none :
      (q r : A → Bool) (f : A → A) (xs : List A)
      → ((x : A) → r (f x) ≡ false)
      → ((x : A) → q x ≡ false → r x ≡ false)
      → count r (update q f xs) ≡ 0
  count-update_none q r f [] hf hq = refl
  count-update_none q r f (x ∷ xs) hf hq =
      ground (arith, hf x, hq x, count-update_none q r f xs hf hq)

  -- An update of rows that a query leaves out, before and after, is not seen by the query.
  pub filter-update :
      (p q : A → Bool) (f : A → A) (xs : List A)
      → All (λ x. q x ≡ true → (p x ≡ false) × (p (f x) ≡ false)) xs
      → filter p (update q f xs) ≡ filter p xs
  filter-update p q f [] h = refl
  filter-update p q f (x ∷ xs) h = elim (Bool-cases (q x)) [
    | inl t ↦ rw (t, (h.0 t).0, (h.0 t).1, filter-update p q f xs h.1)
    | inr e ↦ rw (e, filter-update p q f xs h.1)
  ]

  pub All-always {κ} : {P : A → Type κ} (f : (x : A) → P x) (xs : List A) → All P xs
  All-always f [] = tt
  All-always f (x ∷ xs) = (f x, All-always f xs)

  -- What holds of the rows that a query selects holds of the one that it finds.
  abbrev pub AllOf {κ} : (A → Type κ) → Option A → Type κ
  AllOf P none = Unit
  AllOf P (some a) = P a

  pub find?-AllOf {κ} :
      (P : A → Type κ) (p : A → Bool) (xs : List A)
      → All (λ x. p x ≡ true → P x) xs
      → AllOf P (find? p xs)
  find?-AllOf P p [] h = tt
  find?-AllOf P p (x ∷ xs) h = split (p x) refl (find?-AllOf P p xs h.1)
    where
      split :
          (b : Bool) → p x ≡ b → AllOf P (find? p xs) → AllOf P (if b then some x else find? p xs)
      split true t rest = h.0 t
      split false f rest = rest

  -- A row that one query finds is there for every query that it satisfies.
  pub find?-find? :
      (q p : A → Bool) (xs : List A) (a : A)
      → find? q xs ≡ some a
      → p a ≡ true
      → is_some (find? p xs) ≡ true
  find?-find? q p [] a e h = cc
  find?-find? q p (x ∷ xs) a e h = ground (arith, find?-find? q p xs a)

  pub find?-none : (p : A → Bool) (xs : List A) → All (λ x. p x ≡ false) xs → find? p xs ≡ none
  find?-none p [] h = refl
  find?-none p (x ∷ xs) h = rw (h.0, find?-none p xs h.1)
