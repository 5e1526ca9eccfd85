-- ===== src/Catalog/Segments.antt =====
-- Cutting a text at a prefix, at a suffix and at a separator, as the patterns of app/utils/git.py do.
use repo_info_backend.Catalog.GitUrl.{
  after, before, checked_name, drop_suffix, has_slash, nonempty, or_else, segment,
}
use repo_info_backend.Prelude.{
  Option, Text, [], ap, arith, beq_false, beq_refl, codes, false, length, length-append,
  nat_beq_refl, nat_eq, none, refl, some, string_eq, text_beq, text_eq, ℕ, ◌++◌, ◌==◌, ◌||◌, ◌∷◌,
  ◌≡◌,
}

-- a part of an address: some text without a slash
pub record IsName (t : Text) : Type 0 where
  pub some_text : (t == []) ≡ false
  pub no_slash : has_slash t ≡ false

pub after-append : (p t : Text) → after p (p ++ t) ≡ some t
unfolding after
after-append [] t = refl
after-append (c ∷ p) t = rw (nat_beq_refl c) (after-append p t)

pub segment-append :
    (owner t : Text) → has_slash owner ≡ false → segment (owner ++ (b'/' ∷ t)) ≡ some (owner, t)
unfolding segment has_slash
segment-append [] t h = refl
segment-append (c ∷ owner) t h = ground (arith, segment-append owner t)

pub has_slash-append : (s t : Text) → has_slash (s ++ t) ≡ (has_slash s || has_slash t)
unfolding has_slash
has_slash-append [] t = refl
has_slash-append (c ∷ s) t = ground (arith, has_slash-append s t)

pub before_slash : (t : Text) → has_slash t ≡ false → before (codes "/") t ≡ none
unfolding before has_slash text_beq
before_slash [] h = refl
before_slash (c ∷ t) h = ground (arith, before_slash t)

pub shorter : (s t : Text) (c : ℕ) → (s == c ∷ (t ++ s)) ≡ false
shorter s t c =
    beq_false s (c ∷ (t ++ s))
      (λ e. omega (arith, ap (λ (x : Text). length x) e, length-append t s))

pub before-append : (s t : Text) → before s (t ++ s) ≡ some t
unfolding before text_beq
before-append [] [] = refl
before-append (c ∷ s) [] = rw (beq_refl (c ∷ s))
before-append s (c ∷ t) = rw (shorter s t c, before-append s t)

pub drop_suffix-none : (s t : Text) → before s t ≡ none → drop_suffix s t ≡ t
drop_suffix-none s t e = ap (λ (o : Option Text). or_else t (nonempty o)) e

pub drop_suffix-some :
    (s t r : Text) → before s t ≡ some r → (r == []) ≡ false → drop_suffix s t ≡ r
unfolding text_beq
drop_suffix-some s t [] e h = cc
drop_suffix-some s t (c ∷ r) e h = ap (λ (o : Option Text). or_else t (nonempty o)) e

pub checked_name_lem : (name : Text) → IsName name → checked_name name ≡ some name
checked_name_lem name good = rw (good.some_text, good.no_slash)
