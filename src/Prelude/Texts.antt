-- ===== src/Prelude/Texts.antt =====
-- Python text as the list of its code points.
use Prim.Native.Nat.{ℕ}
use Prim.Native.Char.{code}
use Prim.Native.String.{String}
use mathlib.Core.Path.{◌≡◌, refl}
use mathlib.Core.Logic.{◌↔◌}
use mathlib.Core.Bool.{Bool, true, false, ◌&&◌}
use mathlib.Core.List.{List, [], ◌∷◌}
use native.Mathlib.Omega.{arith}
use text.Mathlib.Text.{◌==◌ as str_beq}
use text.Mathlib.TextEquality.{eq_iff}
use mathlib.Core.Option.{Option}
use repo_info_backend.Prelude.Tests.{Eq, nat_beq, ◌==◌}
use repo_info_backend.Prelude.Lists.{find?}

abbrev pub Text : Type 0
Text = List ℕ

abbrev pub codes : String → Text
codes String.[] = []
codes (String.◌∷◌ c s) = code c ∷ codes s

unfoldable pub text_beq : Text → Text → Bool
text_beq [] [] = true
text_beq [] (b ∷ bs) = false
text_beq (a ∷ as_) [] = false
text_beq (a ∷ as_) (b ∷ bs) = nat_beq a b && text_beq as_ bs

text_beq_refl : (t : Text) → text_beq t t ≡ true
unfolding text_beq
text_beq_refl [] = refl
text_beq_refl (a ∷ t) = ground (arith, text_beq_refl t)

text_beq→eq : (s t : Text) → text_beq s t ≡ true → s ≡ t
unfolding text_beq
text_beq→eq [] [] h = refl
text_beq→eq [] (b ∷ bs) h = cc
text_beq→eq (a ∷ as_) [] h = cc
text_beq→eq (a ∷ as_) (b ∷ bs) h = ground (arith, text_beq→eq as_ bs)

pub text_beq_iff : (s t : Text) → (text_beq s t ≡ true) ↔ (s ≡ t)
text_beq_iff s t = (text_beq→eq s t, λ e. subst_refl s t e)
  where
    subst_refl : (s t : Text) → s ≡ t → text_beq s t ≡ true
    subst_refl s t e = rw (← e) (text_beq_refl s)

instance abbrev pub text_eq : Eq Text
text_eq = record { equals = text_beq; equals_iff = text_beq_iff }

instance abbrev pub string_eq : Eq String
string_eq = record { equals = str_beq; equals_iff = eq_iff }

-- `Enum(value)`: the first member with that label; `none` where Python raises `ValueError`.
abbrev pub of_value {ℓ} : {A : Type ℓ} → (A → String) → List A → String → Option A
of_value value members label = find? (λ m. value m == label) members
