-- ===== src/Analysis/Languages.antt =====
-- `_language_stats` and `_security_scan` of app/workers/tasks/repository.py.
use repo_info_backend.Analysis.Statistics.{
  Finding, add_bytes, count_language, counted_language, insert_stat, is_file, language_bytes,
  language_stats, name_in, primary_of, secret_names, security_scan, sort_stats,
}
use repo_info_backend.Catalog.Tables.{RepositoryFile}
use repo_info_backend.Prelude.{
  All, All-map, Bool, Bool-cases, List, Option, Text, [], ap, arith, filter, inl, inr, leb, leb→le,
  map, none, refl, some, ℕ, ◌&&◌, ◌+◌, ◌∷◌, ◌≡◌, ◌≤◌,
}

abbrev pub sum_bytes : List (Text × ℕ) → ℕ
sum_bytes [] = 0
sum_bytes ((lang, n) ∷ rest) = n + sum_bytes rest

-- the bytes of a file that has a language
abbrev pub counted_bytes : Option Text → ℕ → ℕ
counted_bytes none n = 0
counted_bytes (some lang) n = n

abbrev pub file_bytes : List RepositoryFile → ℕ
file_bytes [] = 0
file_bytes (e ∷ es) = counted_bytes (counted_language e) e.size_bytes + file_bytes es

sum_bytes-add_bytes :
    (lang : Text) (n : ℕ) (acc : List (Text × ℕ))
    → sum_bytes (add_bytes lang n acc) ≡ sum_bytes acc + n
sum_bytes-add_bytes lang n [] = omega arith
sum_bytes-add_bytes lang n ((k, v) ∷ rest) = ground (arith, sum_bytes-add_bytes lang n rest)

count_language_lem :
    (o : Option Text) (n : ℕ) (acc : List (Text × ℕ) × ℕ)
    → let after = count_language o n acc in
      (sum_bytes after.0 ≡ sum_bytes acc.0 + counted_bytes o n)
      × (after.1 ≡ acc.1 + counted_bytes o n)
count_language_lem none n acc = (omega arith, omega arith)
count_language_lem (some lang) n (bytes, total) = (sum_bytes-add_bytes lang n bytes, refl)

language_bytes_lem :
    (es : List RepositoryFile) (acc : List (Text × ℕ) × ℕ)
    → let after = language_bytes es acc in
      (sum_bytes after.0 ≡ sum_bytes acc.0 + file_bytes es) × (after.1 ≡ acc.1 + file_bytes es)
language_bytes_lem [] acc = (omega arith, omega arith)
language_bytes_lem (e ∷ es) acc =
    let next = count_language (counted_language e) e.size_bytes acc in
    let (bytes, total) = language_bytes_lem es next in
    let (one, one') = count_language_lem (counted_language e) e.size_bytes acc in
    (omega (arith, bytes, one), omega (arith, total, one'))

sum_bytes-insert_stat :
    (x : Text × ℕ) (ys : List (Text × ℕ)) → sum_bytes (insert_stat x ys) ≡ x.1 + sum_bytes ys
sum_bytes-insert_stat x [] = refl
sum_bytes-insert_stat x (y ∷ ys) = ground (arith, sum_bytes-insert_stat x ys)

sum_bytes-sort_stats : (xs : List (Text × ℕ)) → sum_bytes (sort_stats xs) ≡ sum_bytes xs
sum_bytes-sort_stats [] = refl
sum_bytes-sort_stats (x ∷ xs) =
    omega (arith, sum_bytes-insert_stat x (sort_stats xs), sum_bytes-sort_stats xs)

-- most bytes first
pub Descending : List (Text × ℕ) → Type 0
Descending [] = Unit
Descending (x ∷ xs) = All (λ (y : Text × ℕ). y.1 ≤ x.1) xs × Descending xs

All-insert_stat :
    (P : Text × ℕ → Type 0) (x : Text × ℕ) (ys : List (Text × ℕ))
    → P x
    → All P ys
    → All P (insert_stat x ys)
All-insert_stat P x [] px h = (px, tt)
All-insert_stat P x (y ∷ ys) px h = elim (Bool-cases (leb y.1 x.1)) [
  | inl t ↦ rw t (px, h)
  | inr f ↦ rw f (h.0, All-insert_stat P x ys px h.1)
]

Descending-insert_stat :
    (x : Text × ℕ) (ys : List (Text × ℕ)) → Descending ys → Descending (insert_stat x ys)
unfolding Descending
Descending-insert_stat x [] h = (tt, tt)
Descending-insert_stat x (y ∷ ys) h = elim (Bool-cases (leb y.1 x.1)) [
  | inl t ↦
      rw t ((leb→le y.1 x.1 t, All-map (λ z le. omega (arith, le, leb→le y.1 x.1 t)) ys h.0), h)
  | inr f ↦ rw f (All-insert_stat _ x ys (ground arith) h.0, Descending-insert_stat x ys h.1)
]

Descending-sort_stats : (xs : List (Text × ℕ)) → Descending (sort_stats xs)
unfolding Descending
Descending-sort_stats [] = tt
Descending-sort_stats (x ∷ xs) = Descending-insert_stat x (sort_stats xs) (Descending-sort_stats xs)

-- The statistics account for every file: the bytes of the languages add up to the bytes of the files
-- that have one, which is the total, and they are listed from the most bytes down.
pub language_stats_total :
    (entries : List RepositoryFile)
    → let (primary, stats, total) = language_stats entries in
      (sum_bytes stats ≡ total)
      × (total ≡ file_bytes entries)
      × Descending stats
      × (primary ≡ primary_of stats)
unfolding language_stats
language_stats_total entries =
    let (bytes, total) = language_bytes_lem entries ([], 0) in
    let sorted = sum_bytes-sort_stats (language_bytes entries ([], 0)).0 in
    (
      omega (arith, sorted, bytes, total),
      omega (arith, total),
      Descending-sort_stats (language_bytes entries ([], 0)).0,
      refl,
    )

abbrev pub is_secret : RepositoryFile → Bool
is_secret e = is_file e && name_in e.name secret_names

-- The scan reports the secret files of the index, each once and in its order, and no other row.
pub security_scan_paths :
    (entries : List RepositoryFile)
    → map (λ (f : Finding). f.file_path) (security_scan entries)
      ≡ map (λ (e : RepositoryFile). e.path) (filter is_secret entries)
unfolding security_scan
security_scan_paths [] = refl
security_scan_paths (e ∷ es) = elim (Bool-cases (is_secret e)) [
  | inl t ↦ rw t (ap (λ ps. e.path ∷ ps) (security_scan_paths es))
  | inr f ↦ rw f (security_scan_paths es)
]
