-- ===== src/Prelude/Ranges.antt =====
-- Counting the numbers of a range that pass a test.
use Prim.Native.Nat.{ℕ, zero, suc, ◌+◌, ◌≤◌}
use mathlib.Core.Bool.{Bool, true, false, ◌||◌}
use mathlib.Core.Logic.{inl, inr}
use mathlib.Core.Path.{◌≡◌, refl}
use native.Mathlib.Omega.{arith}
use repo_info_backend.Prelude.Tests.{Bool-cases, if◌then◌else◌}

-- of k, k + 1, …, k + n - 1
abbrev pub hits : (ℕ → Bool) → ℕ → ℕ → ℕ
hits p k zero = 0
hits p k (suc n) = (if p k then 1 else 0) + hits p (k + 1) n

pub hits_le : (p : ℕ → Bool) (k n : ℕ) → hits p k n ≤ n
hits_le p k zero = omega arith
hits_le p k (suc n) = ground (arith, hits_le p (k + 1) n)

pub hits-or : (p q : ℕ → Bool) (k n : ℕ) → hits (λ j. p j || q j) k n ≤ hits p k n + hits q k n
hits-or p q k zero = omega arith
hits-or p q k (suc n) = ground (arith, hits-or p q (k + 1) n)

pub hits-zero : (p : ℕ → Bool) (k n : ℕ) → ((j : ℕ) → k ≤ j → p j ≡ false) → hits p k n ≡ 0
hits-zero p k zero h = refl
hits-zero p k (suc n) h =
    rw (h k (omega arith)) (omega (arith, hits-zero p (k + 1) n (λ j low. h j (omega arith))))

-- a test that one number passes at most
pub hits-one :
    (p : ℕ → Bool) (k n : ℕ) → ((i j : ℕ) → p i ≡ true → p j ≡ true → i ≡ j) → hits p k n ≤ 1
hits-one p k zero h = omega arith
hits-one p k (suc n) h = elim (Bool-cases (p k)) [
  | inl t ↦ rw (t) (omega (arith, hits-zero p (k + 1) n (other t)))
  | inr f ↦ rw (f) (omega (arith, hits-one p (k + 1) n h))
]
  where
    other : p k ≡ true → (j : ℕ) → k + 1 ≤ j → p j ≡ false
    other t j low = elim (Bool-cases (p j)) [
      | inl t' ↦ absurd (omega (arith, low, h k j t t'))
      | inr f' ↦ f'
    ]

pub hits-ext : (p q : ℕ → Bool) (k n : ℕ) → ((j : ℕ) → p j ≡ q j) → hits p k n ≡ hits q k n
hits-ext p q k zero h = refl
hits-ext p q k (suc n) h = rw (h k, hits-ext p q (k + 1) n h) refl
