-- ===== src/Catalog/Paths.antt =====
-- Equality of paths, which app/workers/tasks/repository.py and `get_tree` use as keys.
use repo_info_backend.Catalog.Tables.{FilePath}
use repo_info_backend.Prelude.{
  Bool, Eq, [], and_left, and_right, beq_refl, beq→eq, false, nat_eq, refl, subst, text_eq, true,
  ◌&&◌, ◌==◌, ◌↔◌, ◌∷◌, ◌≡◌,
}

unfoldable pub path_beq : FilePath → FilePath → Bool
path_beq [] [] = true
path_beq [] (b ∷ bs) = false
path_beq (a ∷ as_) [] = false
path_beq (a ∷ as_) (b ∷ bs) = a == b && path_beq as_ bs

path_beq_refl : (p : FilePath) → path_beq p p ≡ true
unfolding path_beq
path_beq_refl [] = refl
path_beq_refl (a ∷ p) = rw (beq_refl a, path_beq_refl p)

path_beq→eq : (p q : FilePath) → path_beq p q ≡ true → p ≡ q
unfolding path_beq
path_beq→eq [] [] h = refl
path_beq→eq [] (b ∷ bs) h = cc
path_beq→eq (a ∷ as_) [] h = cc
path_beq→eq (a ∷ as_) (b ∷ bs) h = cc (
  beq→eq a b (and_left (a == b) (path_beq as_ bs) h),
  path_beq→eq as_ bs (and_right (a == b) (path_beq as_ bs) h),
)

pub path_beq_iff : (p q : FilePath) → (path_beq p q ≡ true) ↔ (p ≡ q)
path_beq_iff p q = (path_beq→eq p q, λ e. subst (λ x. path_beq p x ≡ true) e (path_beq_refl p))

instance abbrev pub path_eq : Eq FilePath
path_eq = record { equals = path_beq; equals_iff = path_beq_iff }
