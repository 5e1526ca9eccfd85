-- ===== src/Catalog/TreeCounts.antt =====
-- Counting the rows in the tree of `get_tree` (app/services/repository_service.py).
use repo_info_backend.Catalog.Tables.{RepositoryFile}
use repo_info_backend.Catalog.Trees.{FileTreeNode, FileTreeNodes, LinkedRow, nested, same_parent}
use repo_info_backend.Prelude.{
  Bool, List, Option, Option-cases, [], arith, count, if◌then◌else◌, inl, inr, ltb, lt→ltb, nat_beq,
  none, refl, some, subst, suc, zero, ℕ, ◌+◌, ◌<◌, ◌∙◌, ◌∷◌, ◌≡◌,
}

abbrev mutual
  pub count_node : (RepositoryFile → Bool) → FileTreeNode → ℕ
  count_node q (FileTreeNode.node row children) = (if q row then 1 else 0) + count_nodes q children

  pub count_nodes : (RepositoryFile → Bool) → FileTreeNodes → ℕ
  count_nodes q FileTreeNodes.nil = 0
  count_nodes q (FileTreeNodes.cons x xs) = count_node q x + count_nodes q xs

-- the sum of f 0, …, f (n - 1)
unfoldable pub sum_below : ℕ → (ℕ → ℕ) → ℕ
sum_below zero f = 0
sum_below (suc n) f = f n + sum_below n f

sum_below-add :
    (n k a : ℕ) (f : ℕ → ℕ)
    → sum_below n (λ j. if nat_beq k j then a + f j else f j)
      ≡ (if ltb k n then a else 0) + sum_below n f
unfolding sum_below
sum_below-add zero k a f = ground arith
sum_below-add (suc n) k a f = ground (arith, sum_below-add n k a f)

sum_below-ext : (n : ℕ) (f g : ℕ → ℕ) → ((j : ℕ) → f j ≡ g j) → sum_below n f ≡ sum_below n g
unfolding sum_below
sum_below-ext zero f g h = refl
sum_below-ext (suc n) f g h = omega (arith, h n, sum_below-ext n f g h)

-- A row links to nothing, or to a row before it.
abbrev pub IsBelow : ℕ → Option ℕ → Type 0
IsBelow i none = Unit
IsBelow i (some k) = k < i

abbrev pub Linked : ℕ → List LinkedRow → Type 0
Linked i [] = Unit
Linked i (x ∷ xs) = (x.index ≡ i) × IsBelow i x.parent × Linked (suc i) xs

module _ (q : RepositoryFile → Bool) where
  unfoldable pub below : List LinkedRow → ℕ → ℕ
  below xs j = count_nodes q (nested xs (some j))

  abbrev pub count_linked : List LinkedRow → ℕ
  count_linked xs = count (λ (x : LinkedRow). q x.row) xs

  -- what a row adds under its parent
  share : LinkedRow → List LinkedRow → ℕ
  share x xs = (if q x.row then 1 else 0) + below xs x.index

  count_nodes-nested :
      (x : LinkedRow) (xs : List LinkedRow) (p : Option ℕ)
      → count_nodes q (nested (x ∷ xs) p)
        ≡ (if same_parent x.parent p then share x xs else 0) + count_nodes q (nested xs p)
  unfolding nested share below
  count_nodes-nested x xs p = ground arith

  below-root :
      (x : LinkedRow) (xs : List LinkedRow) (j : ℕ)
      → x.parent ≡ none
      → below (x ∷ xs) j ≡ below xs j
  unfolding below
  below-root x xs j e = count_nodes-nested x xs (some j) ∙ rw (e) (omega arith)

  below-child :
      (x : LinkedRow) (xs : List LinkedRow) (k j : ℕ)
      → x.parent ≡ some k
      → below (x ∷ xs) j ≡ (if nat_beq k j then share x xs + below xs j else below xs j)
  unfolding below
  below-child x xs k j e = count_nodes-nested x xs (some j) ∙ rw (e) (ground arith)

  no_rows : (i : ℕ) → sum_below i (below []) ≡ 0
  unfolding sum_below below nested
  no_rows zero = refl
  no_rows (suc i) = omega (arith, no_rows i)

  share_at :
      (i : ℕ) (x : LinkedRow) (xs : List LinkedRow)
      → x.index ≡ i
      → share x xs + sum_below i (below xs)
        ≡ (if q x.row then 1 else 0) + sum_below (suc i) (below xs)
  unfolding share sum_below
  share_at i x xs e = rw (e) (omega arith)

  root-root :
      (x : LinkedRow) (xs : List LinkedRow)
      → x.parent ≡ none
      → count_nodes q (nested (x ∷ xs) none) ≡ share x xs + count_nodes q (nested xs none)
  root-root x xs e = count_nodes-nested x xs none ∙ rw (e)

  root-child :
      (x : LinkedRow) (xs : List LinkedRow) (k : ℕ)
      → x.parent ≡ some k
      → count_nodes q (nested (x ∷ xs) none) ≡ count_nodes q (nested xs none)
  root-child x xs k e = count_nodes-nested x xs none ∙ rw (e) (omega arith)

  sum-child :
      (i k : ℕ) (x : LinkedRow) (xs : List LinkedRow)
      → x.parent ≡ some k
      → k < i
      → sum_below i (below (x ∷ xs)) ≡ share x xs + sum_below i (below xs)
  sum-child i k x xs e low =
      sum_below-ext i (below (x ∷ xs)) _ (λ j. below-child x xs k j e)
      ∙ (sum_below-add i k (share x xs) (below xs) ∙ rw (lt→ltb k i low))

  -- what a row adds to the two sums
  row_added :
      (i : ℕ) (x : LinkedRow) (xs : List LinkedRow)
      → IsBelow i x.parent
      → count_nodes q (nested (x ∷ xs) none) + sum_below i (below (x ∷ xs))
        ≡ share x xs + (count_nodes q (nested xs none) + sum_below i (below xs))
  row_added i x xs low = elim (Option-cases x.parent) [
    | inl e ↦ omega (
      arith,
      root-root x xs e,
      sum_below-ext i (below (x ∷ xs)) (below xs) (λ j. below-root x xs j e),
    )
    | inr (k, e) ↦
        omega (arith, root-child x xs k e, sum-child i k x xs e (subst (IsBelow i) e low))
  ]

  -- The rows stand under the root, or under one of the i rows before them.
  pub nested_total :
      (i : ℕ) (xs : List LinkedRow)
      → Linked i xs
      → count_nodes q (nested xs none) + sum_below i (below xs) ≡ count_linked xs
  unfolding nested
  nested_total i [] h = omega (arith, no_rows i)
  nested_total i (x ∷ xs) h =
      omega (arith, row_added i x xs h.1, share_at i x xs h.0, nested_total (suc i) xs h.2)
