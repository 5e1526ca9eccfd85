-- ===== src/Prelude/Decimal.antt =====
-- Python's `str` of a natural number: its decimal digits.
use Prim.Native.Nat.{ℕ, zero, suc, ◌+◌, ◌-◌, ◌*◌, ◌/◌, ◌%◌, ◌<◌}
use mathlib.Core.Path.{◌≡◌, ap, sym, ◌∙◌}
use mathlib.Core.List.{[], ◌∷◌, reverse, reverse-reverse}
use native.Mathlib.Omega.{arith}
use repo_info_backend.Prelude.Tests.{ltb, if◌then◌else◌}
use repo_info_backend.Prelude.Texts.{Text}

-- the digits, the last one first; a number has at most as many as itself and one more
digits : ℕ → ℕ → Text
digits zero n = []
digits (suc fuel) n =
    let rest = digits fuel (n / 10) in if ltb n 10 then (b'0' + n) ∷ [] else (b'0' + n % 10) ∷ rest

value : Text → ℕ
value [] = 0
value (c ∷ cs) = (c - b'0') + 10 * value cs

value-digits : (fuel n : ℕ) → n < fuel → value (digits fuel n) ≡ n
unfolding value digits
value-digits zero n h = absurd (omega arith)
value-digits (suc fuel) n h = ground (arith, value-digits fuel (n / 10))

unfoldable pub decimal : ℕ → Text
unfolding digits
decimal n = reverse (digits (suc n) n)

pub decimal_injective : (m n : ℕ) → decimal m ≡ decimal n → m ≡ n
unfolding decimal
decimal_injective m n h =
    sym (value-digits (suc m) m (omega arith))
    ∙ (ap value same ∙ value-digits (suc n) n (omega arith))
  where
    same : digits (suc m) m ≡ digits (suc n) n
    same =
        sym (reverse-reverse (digits (suc m) m))
        ∙ (ap reverse h ∙ reverse-reverse (digits (suc n) n))
