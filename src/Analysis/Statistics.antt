-- ===== src/Analysis/Statistics.antt =====
-- app/workers/tasks/repository.py: `_language_stats` and `_security_scan`.
use repo_info_backend.Catalog.Paths.{path_eq}
use repo_info_backend.Catalog.Tables.{FilePath, NodeType, RepositoryFile}
use repo_info_backend.Models.Enums.{
  SecuritySeverity, security_severity_eq, security_severity_members,
}
use repo_info_backend.Prelude.{
  Bool, List, Option, Text, [], codes, count, false, if◌then◌else◌, leb, length, map, nat_eq, none,
  some, string_eq, text_eq, true, ℕ, ◌&&◌, ◌*◌, ◌+◌, ◌-◌, ◌==◌, ◌||◌, ◌∷◌,
}

-- `lang_bytes[lang] = lang_bytes.get(lang, 0) + size`: a dict keeps the order of insertion
abbrev pub add_bytes : Text → ℕ → List (Text × ℕ) → List (Text × ℕ)
add_bytes lang n [] = (lang, n) ∷ []
add_bytes lang n ((k, v) ∷ rest) =
    if k == lang then (k, v + n) ∷ rest else (k, v) ∷ add_bytes lang n rest

abbrev pub is_file : RepositoryFile → Bool
is_file e = elim e.node_type [ NodeType.file ↦ true | NodeType.directory ↦ false ]

-- the language of a file; `if not lang` also skips the empty text, which no extension has
abbrev pub counted_language : RepositoryFile → Option Text
counted_language e = if is_file e then e.language else none

abbrev pub count_language : Option Text → ℕ → List (Text × ℕ) × ℕ → List (Text × ℕ) × ℕ
count_language none n acc = acc
count_language (some lang) n (bytes, total) = (add_bytes lang n bytes, total + n)

abbrev pub language_bytes : List RepositoryFile → List (Text × ℕ) × ℕ → List (Text × ℕ) × ℕ
language_bytes [] acc = acc
language_bytes (e ∷ es) acc =
    language_bytes es (count_language (counted_language e) e.size_bytes acc)

-- `sorted(…, key=bytes, reverse=True)`: stable, the most bytes first
abbrev pub insert_stat : Text × ℕ → List (Text × ℕ) → List (Text × ℕ)
insert_stat x [] = x ∷ []
insert_stat x (y ∷ ys) = if leb y.1 x.1 then x ∷ y ∷ ys else y ∷ insert_stat x ys

abbrev pub sort_stats : List (Text × ℕ) → List (Text × ℕ)
sort_stats [] = []
sort_stats (x ∷ xs) = insert_stat x (sort_stats xs)

abbrev pub primary_of : List (Text × ℕ) → Option Text
primary_of [] = none
primary_of ((lang, n) ∷ rest) = some lang

-- the primary language, the bytes of each language, and the total; a percentage is a quotient of them
unfoldable pub language_stats : List RepositoryFile → Option Text × List (Text × ℕ) × ℕ
language_stats entries =
    let (bytes, total) = language_bytes entries ([], 0) in
    let ordered = sort_stats bytes in (primary_of ordered, ordered, total)

abbrev pub secret_names : List Text
secret_names = codes ".env" ∷ codes ".env.local" ∷ codes "id_rsa" ∷ codes "id_ed25519" ∷ []

abbrev pub name_in : Text → List Text → Bool
name_in t [] = false
name_in t (x ∷ xs) = t == x || name_in t xs

-- a finding of the scan, before its report has an id
pub record Finding : Type 0 where
  pub severity : SecuritySeverity
  pub file_path : FilePath
  pub line : ℕ

unfoldable pub security_scan : List RepositoryFile → List Finding
security_scan [] = []
security_scan (e ∷ es) =
    let rest = security_scan es in
    if is_file e && name_in e.name secret_names
    then record { severity = SecuritySeverity.high; file_path = e.path; line = 1 } ∷ rest
    else rest

-- `max(0.0, 100.0 - 8 * len(findings))`: subtraction on ℕ stops at 0
unfoldable pub score : List Finding → ℕ
score findings = 100 - 8 * length findings

abbrev pub summary_of : List Finding → List (SecuritySeverity × ℕ)
summary_of findings =
    map (λ sev. (sev, count (λ (f : Finding). f.severity == sev) findings))
      security_severity_members
