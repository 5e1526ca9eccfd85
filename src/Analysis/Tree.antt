-- ===== src/Analysis/Tree.antt =====
-- The directories that `_index_tree` of app/workers/tasks/repository.py adds.
use repo_info_backend.Analysis.Indexing.{add_dirs, all_dirs, dir_row, member, path_or_empty}
use repo_info_backend.Catalog.Paths.{path_eq}
use repo_info_backend.Catalog.Tables.{FilePath, RepositoryFile}
use repo_info_backend.Prelude.{
  All, All-append, All-map, Bool, Bool-cases, List, [], ap, arith, beq_refl, false, inl, inr, map,
  nat_eq, refl, text_eq, true, ℕ, ◌++◌, ◌==◌, ◌||◌, ◌∙◌, ◌∷◌, ◌≡◌, ◌⊎◌,
}

-- a directory is listed, or is the root of the clone
abbrev pub inside : List FilePath → FilePath → Bool
inside seen [] = true
inside seen (name ∷ up) = member (name ∷ up) seen

unfoldable pub tail_of : FilePath → FilePath
tail_of [] = []
tail_of (name ∷ up) = up

pub member-append :
    (p : FilePath) (xs ys : List FilePath) → member p (xs ++ ys) ≡ (member p xs || member p ys)
member-append p [] ys = refl
member-append p (x ∷ xs) ys =
    rw (member-append p xs ys) (or_assoc (x == p) (member p xs) (member p ys))
  where
    or_assoc : (a b c : Bool) → (a || (b || c)) ≡ ((a || b) || c)
    or_assoc true b c = refl
    or_assoc false b c = refl

member_left :
    (p : FilePath) (xs ys : List FilePath) → member p xs ≡ true → member p (xs ++ ys) ≡ true
member_left p xs ys h = rw (member-append p xs ys, h)

member_last : (p : FilePath) (xs : List FilePath) → member p (xs ++ p ∷ []) ≡ true
member_last p [] = rw (beq_refl p)
member_last p (x ∷ xs) = ground (arith, member_last p xs)

-- Listing more directories keeps what is listed.
unfoldable pub Grows : List FilePath → List FilePath → Type 0
Grows xs ys = (p : FilePath) → member p xs ≡ true → member p ys ≡ true

add_dirs-Grows :
    (repo_id : ℕ) (p : FilePath) (seen : List FilePath) (rows : List RepositoryFile)
    → Grows seen (add_dirs repo_id p (seen, rows)).0
unfolding add_dirs Grows
add_dirs-Grows repo_id [] seen rows q h = h
add_dirs-Grows repo_id (name ∷ up) seen rows q h = elim (Bool-cases (member (name ∷ up) seen)) [
  | inl t ↦ rw t h
  | inr f ↦ rw f (
      add_dirs-Grows repo_id up (seen ++ (name ∷ up) ∷ [])
        (rows ++ dir_row repo_id (name ∷ up) ∷ []) q (member_left q seen ((name ∷ up) ∷ []) h))
]

add_dirs-inside :
    (repo_id : ℕ) (p : FilePath) (seen : List FilePath) (rows : List RepositoryFile)
    → inside (add_dirs repo_id p (seen, rows)).0 p ≡ true
unfolding add_dirs Grows
add_dirs-inside repo_id [] seen rows = refl
add_dirs-inside repo_id (name ∷ up) seen rows = elim (Bool-cases (member (name ∷ up) seen)) [
  | inl t ↦ rw t t
  | inr f ↦ rw f (
      add_dirs-Grows repo_id up (seen ++ (name ∷ up) ∷ [])
        (rows ++ dir_row repo_id (name ∷ up) ∷ []) (name ∷ up) (member_last (name ∷ up) seen))
]

inside_left :
    (p : FilePath) (xs ys : List FilePath) → inside xs p ≡ true → inside (xs ++ ys) p ≡ true
inside_left [] xs ys h = refl
inside_left (name ∷ up) xs ys h = member_left (name ∷ up) xs ys h

inside-Grows :
    (p : FilePath) (xs ys : List FilePath) → Grows xs ys → inside xs p ≡ true → inside ys p ≡ true
unfolding Grows
inside-Grows [] xs ys g h = refl
inside-Grows (name ∷ up) xs ys g h = g (name ∷ up) h

-- Every listed directory has its parent listed, except that the parent may be `p`.
unfoldable pub ClosedBut : FilePath → List FilePath → List FilePath → Type 0
ClosedBut p all xs = All (λ (d : FilePath). (inside all (tail_of d) ≡ true) ⊎ (tail_of d ≡ p)) xs

unfoldable pub Closed : List FilePath → List FilePath → Type 0
Closed all xs = All (λ (d : FilePath). inside all (tail_of d) ≡ true) xs

pub add_dirs-Closed :
    (repo_id : ℕ) (p : FilePath) (seen : List FilePath) (rows : List RepositoryFile)
    → ClosedBut p seen seen
    → let after = (add_dirs repo_id p (seen, rows)).0 in Closed after after
unfolding add_dirs Closed ClosedBut tail_of
add_dirs-Closed repo_id [] seen rows h =
    All-map (λ d x. elim x [ inl e ↦ e | inr e ↦ ap (inside seen) e ]) seen h
add_dirs-Closed repo_id (name ∷ up) seen rows h = elim (Bool-cases (member (name ∷ up) seen)) [
  | inl t ↦ rw t (All-map (λ d x. elim x [ inl e ↦ e | inr e ↦ ap (inside seen) e ∙ t ]) seen h)
  | inr f ↦ rw f (
      add_dirs-Closed repo_id up (seen ++ (name ∷ up) ∷ [])
        (rows ++ dir_row repo_id (name ∷ up) ∷ [])
        (All-append _ seen ((name ∷ up) ∷ [])
          (All-map
            (λ d x. elim x [
              | inl e ↦ inl (inside_left (tail_of d) seen ((name ∷ up) ∷ []) e)
              | inr e ↦
                  inl (ap (inside (seen ++ (name ∷ up) ∷ [])) e ∙ member_last (name ∷ up) seen)
            ])
            seen h)
          (inr refl, tt)))
]

all_dirs-Grows :
    (repo_id : ℕ) (es : List RepositoryFile) (seen : List FilePath) (rows : List RepositoryFile)
    → Grows seen (all_dirs repo_id es (seen, rows)).0
unfolding all_dirs Grows
all_dirs-Grows repo_id [] seen rows q h = h
all_dirs-Grows repo_id (e ∷ es) seen rows q h =
    let (seen', rows') = add_dirs repo_id (path_or_empty e.parent_path) (seen, rows) in
    all_dirs-Grows repo_id es seen' rows' q
      (add_dirs-Grows repo_id (path_or_empty e.parent_path) seen rows q h)

pub all_dirs-Closed :
    (repo_id : ℕ) (es : List RepositoryFile) (seen : List FilePath) (rows : List RepositoryFile)
    → Closed seen seen
    → let after = (all_dirs repo_id es (seen, rows)).0 in Closed after after
unfolding all_dirs Closed ClosedBut
all_dirs-Closed repo_id [] seen rows h = h
all_dirs-Closed repo_id (e ∷ es) seen rows h =
    let (seen', rows') = add_dirs repo_id (path_or_empty e.parent_path) (seen, rows) in
    all_dirs-Closed repo_id es seen' rows' (
      add_dirs-Closed repo_id (path_or_empty e.parent_path) seen rows
        (All-map (λ d x. inl x) seen h))

-- the parents of the files
pub all_dirs-inside :
    (repo_id : ℕ) (es : List RepositoryFile) (seen : List FilePath) (rows : List RepositoryFile)
    → All
        (λ (e : RepositoryFile).
          inside (all_dirs repo_id es (seen, rows)).0 (path_or_empty e.parent_path) ≡ true)
        es
unfolding all_dirs
all_dirs-inside repo_id [] seen rows = tt
all_dirs-inside repo_id (e ∷ es) seen rows =
    let (seen', rows') = add_dirs repo_id (path_or_empty e.parent_path) (seen, rows) in
    (
      inside-Grows (path_or_empty e.parent_path) seen' _ (all_dirs-Grows repo_id es seen' rows')
          (add_dirs-inside repo_id (path_or_empty e.parent_path) seen rows),
      all_dirs-inside repo_id es seen' rows',
    )

map-append : {A B : Type 0} (f : A → B) (xs ys : List A) → map f (xs ++ ys) ≡ map f xs ++ map f ys
map-append f [] ys = refl
map-append f (x ∷ xs) ys = ap (λ zs. f x ∷ zs) (map-append f xs ys)

-- the rows are those of the listed directories
unfoldable pub Listed : ℕ → List FilePath × List RepositoryFile → Type 0
Listed repo_id acc = acc.1 ≡ map (dir_row repo_id) acc.0

pub add_dirs-Listed :
    (repo_id : ℕ) (p : FilePath) (seen : List FilePath) (rows : List RepositoryFile)
    → Listed repo_id (seen, rows)
    → Listed repo_id (add_dirs repo_id p (seen, rows))
unfolding add_dirs Listed
add_dirs-Listed repo_id [] seen rows h = h
add_dirs-Listed repo_id (name ∷ up) seen rows h = elim (Bool-cases (member (name ∷ up) seen)) [
  | inl t ↦ rw t h
  | inr f ↦ rw f (
      add_dirs-Listed repo_id up (seen ++ (name ∷ up) ∷ [])
        (rows ++ dir_row repo_id (name ∷ up) ∷ []) listed)
]
  where
    listed :
        rows ++ dir_row repo_id (name ∷ up) ∷ [] ≡ map (dir_row repo_id) (seen ++ (name ∷ up) ∷ [])
    listed = rw (h, map-append (dir_row repo_id) seen ((name ∷ up) ∷ []))
