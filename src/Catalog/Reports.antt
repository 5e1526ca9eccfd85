-- ===== src/Catalog/Reports.antt =====
-- What the views of app/services/repository_service.py show, and to whom.
use repo_info_backend.Catalog.Queries.{get_repository, latest_with_findings}
use repo_info_backend.Catalog.Tables.{Repository, SecurityReport, Shelf}
use repo_info_backend.Catalog.Views.{
  SecurityReportOut, count_of, get_security, security_out, set_default, set_defaults, severities,
}
use repo_info_backend.Database.Session.{ok}
use repo_info_backend.Models.Enums.{SecuritySeverity}
use repo_info_backend.Prelude.{
  All, Bool-cases, List, Option-cases, [], ap, arith, beq_refl, inl, inr, is_some, nat_beq_refl,
  none, refl, some, sym, ℕ, ◌++◌, ◌∙◌, ◌∷◌, ◌≡◌,
}

count_of-append :
    (severity other : SecuritySeverity) (n k : ℕ) (summary : List (SecuritySeverity × ℕ))
    → count_of severity summary ≡ some n
    → count_of severity (summary ++ (other, k) ∷ []) ≡ some n
count_of-append severity other n k [] h = cc
count_of-append severity other n k (e ∷ summary) h =
    ground (arith, count_of-append severity other n k summary)

count_of-absent :
    (severity : SecuritySeverity) (summary : List (SecuritySeverity × ℕ))
    → count_of severity summary ≡ none
    → count_of severity (summary ++ (severity, 0) ∷ []) ≡ some 0
count_of-absent severity [] h = rw (beq_refl severity) refl
count_of-absent severity (e ∷ summary) h = ground (arith, count_of-absent severity summary)

set_default-keeps :
    (severity other : SecuritySeverity) (n : ℕ) (summary : List (SecuritySeverity × ℕ))
    → count_of severity summary ≡ some n
    → count_of severity (set_default other summary) ≡ some n
set_default-keeps severity other n summary h =
    elim (Bool-cases (is_some (count_of other summary))) [
      | inl t ↦ rw (t) h
      | inr f ↦ rw (f) (count_of-append severity other n 0 summary h)
    ]

set_default-has :
    (severity : SecuritySeverity) (summary : List (SecuritySeverity × ℕ))
    → (n : ℕ) × (count_of severity (set_default severity summary) ≡ some n)
set_default-has severity summary = elim (Option-cases (count_of severity summary)) [
  | inl e ↦ (0, rw (e) (count_of-absent severity summary e))
  | inr (n, e) ↦ (n, rw (e) e)
]

set_defaults-keeps :
    (severity : SecuritySeverity) (n : ℕ) (rest : List SecuritySeverity)
    (summary : List (SecuritySeverity × ℕ))
    → count_of severity summary ≡ some n
    → count_of severity (set_defaults rest summary) ≡ some n
set_defaults-keeps severity n [] summary h = h
set_defaults-keeps severity n (other ∷ rest) summary h =
    set_defaults-keeps severity n rest (set_default other summary)
      (set_default-keeps severity other n summary h)

set_defaults-has :
    (rest : List SecuritySeverity) (summary : List (SecuritySeverity × ℕ))
    → All (λ severity. (n : ℕ) × (count_of severity (set_defaults rest summary) ≡ some n)) rest
set_defaults-has [] summary = tt
set_defaults-has (severity ∷ rest) summary =
    let here = set_default-has severity summary in
    (
      (here.0, set_defaults-keeps severity here.0 rest (set_default severity summary) here.1),
      set_defaults-has rest (set_default severity summary),
    )

-- The owner of a repository is shown a security report that counts each of the five severities, whether or not
-- there has been a scan; a count that the latest report has is shown as it is, and nothing changes.
pub get_security_counts :
    (user_id repo_id : ℕ) (s : Shelf) (r : Repository)
    → get_repository repo_id s ≡ some r
    → r.added_by_id ≡ user_id
    → (out : SecurityReportOut) × (get_security user_id repo_id s ≡ (ok out, s))
      × All (λ severity. (n : ℕ) × (count_of severity out.summary ≡ some n)) severities
      × ((report : SecurityReport) (severity : SecuritySeverity) (n : ℕ)
          → latest_with_findings repo_id s ≡ some report
          → count_of severity report.summary ≡ some n
          → count_of severity out.summary ≡ some n)
unfolding get_security
get_security_counts user_id repo_id s r found mine =
    elim (Option-cases (latest_with_findings repo_id s)) [
      | inl e ↦ (
        security_out s.findings none,
        rw (found) (rw (mine, nat_beq_refl user_id) (rw (e) refl)),
        ((0, refl), ((0, refl), ((0, refl), ((0, refl), ((0, refl), tt))))),
        λ report severity n e' h. cc,
      )
      | inr (report, e) ↦ (
        security_out s.findings (some report),
        rw (found) (rw (mine, nat_beq_refl user_id) (rw (e) refl)),
        set_defaults-has severities report.summary,
        λ report' severity n e' h.
            let same : report' ≡ report = cc in
            set_defaults-keeps severity n severities report.summary
              (ap (λ (x : SecurityReport). count_of severity x.summary) (sym same) ∙ h),
      )
    ]
