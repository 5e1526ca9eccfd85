-- ===== src/Catalog/Lifecycle.antt =====
-- Adding and deleting a repository, in app/services/repository_service.py.
use mathlib.Core.Option
use repo_info_backend.Catalog.GitUrl.{GitLocation, after, parse_git_url}
use repo_info_backend.Catalog.Queries.{get_by_full_name, get_repository, taken}
use repo_info_backend.Catalog.Service.{
  RepositoryAddRequest, RepositoryOut, add, delete, new_repository,
}
use repo_info_backend.Catalog.Tables.{Repository, Shelf}
use repo_info_backend.Core.Errors.{AppError, Exception}
use repo_info_backend.Database.Session.{Result, err, ok}
use repo_info_backend.Prelude.{
  Bool, Bool-cases, List, Option, Option-cases, Text, [], ap, arith, beq_refl, count, false, find?,
  find?-append_none, find?-find?, find?-update, if◌then◌else◌, inl, inr, is_none, is_some,
  nat_beq_refl, nat_eq, none, refl, some, string_eq, sym, text_eq, true, update, ℕ, ◌&&◌, ◌++◌,
  ◌==◌, ◌∙◌, ◌∷◌, ◌≡◌, ◌≤◌,
}

added_row :
    (broker : Bool) (now user_id : ℕ) (p : RepositoryAddRequest) (l : GitLocation) (s : Shelf)
    → parse_git_url p.url ≡ some l
    → get_by_full_name user_id l.full_name s ≡ none
    → taken user_id l.full_name s ≡ false
    → (add broker now user_id p s).1.repositories
      ≡ s.repositories ++ new_repository s.next_id user_id l p ∷ []
unfolding add taken
added_row true now user_id p l s parsed_e new free = rw (parsed_e, new, free)
added_row false now user_id p l s parsed_e new free = rw (parsed_e, new, free)

record Added (user_id : ℕ) (p : RepositoryAddRequest) (s : Shelf) : Type 0 where
  pub l : GitLocation
  pub parsed_url : parse_git_url p.url ≡ some l
  pub new : get_by_full_name user_id l.full_name s ≡ none
  pub free : taken user_id l.full_name s ≡ false

add_sound :
    (broker : Bool) (now user_id : ℕ) (p : RepositoryAddRequest) (s s' : Shelf)
    (out : RepositoryOut)
    → add broker now user_id p s ≡ (ok out, s')
    → Added user_id p s
unfolding add taken
add_sound broker now user_id p s s' out h = elim (Option-cases (parse_git_url p.url)) [
  | inl e ↦ absurd (ground arith)
  | inr (l, e) ↦ record { l = l; parsed_url = e; new = ground arith; free = ground arith }
]

conflict :
    (broker : Bool) (now user_id : ℕ) (p : RepositoryAddRequest) (l : GitLocation) (r : Repository)
    (s : Shelf)
    → parse_git_url p.url ≡ some l
    → get_by_full_name user_id l.full_name s ≡ some r
    → add broker now user_id p s ≡ (
      err (
          Exception.app (AppError.conflict "Repository already added." (some "repository_exists"))),
      s,
    )
unfolding add
conflict broker now user_id p l r s parsed_e found = rw (parsed_e, found)

integrity :
    (broker : Bool) (now user_id : ℕ) (p : RepositoryAddRequest) (l : GitLocation) (s : Shelf)
    → parse_git_url p.url ≡ some l
    → get_by_full_name user_id l.full_name s ≡ none
    → taken user_id l.full_name s ≡ true
    → (add broker now user_id p s).0 ≡ err Exception.integrity
unfolding add taken
integrity broker now user_id p l s parsed_e gone held = rw (parsed_e, gone, held)

-- A repository that was added is found under its name, and adding it again, by any address of the
-- same location, is a conflict.
pub add_again :
    (broker again : Bool) (now now' user_id : ℕ) (p q : RepositoryAddRequest) (s s' : Shelf)
    (out : RepositoryOut)
    → parse_git_url q.url ≡ parse_git_url p.url
    → add broker now user_id p s ≡ (ok out, s')
    → (l : GitLocation) × (parse_git_url p.url ≡ some l)
      × (get_by_full_name user_id l.full_name s' ≡ some (new_repository s.next_id user_id l p))
      × (add again now' user_id q s' ≡ (
        err (
            Exception.app
              (AppError.conflict "Repository already added." (some "repository_exists"))),
        s',
      ))
unfolding get_by_full_name
add_again broker again now now' user_id p q s s' out same h =
    let a = add_sound broker now user_id p s s' out h in
    let row : Repository = new_repository s.next_id user_id a.l p in
    let after : (add broker now user_id p s).1 ≡ s' =
      ap (λ (q : Result RepositoryOut × Shelf). q.1) h in
    let rows : s'.repositories ≡ s.repositories ++ row ∷ [] =
      ap (λ (w : Shelf). w.repositories) (sym after)
      ∙ added_row broker now user_id p a.l s a.parsed_url a.new a.free in
    let found : get_by_full_name user_id a.l.full_name s' ≡ some row = rw (
      rows,
      find?-append_none
          (λ r. r.added_by_id == user_id && r.full_name == a.l.full_name && is_none r.deleted_at)
          s.repositories (row ∷ []) a.new,
      nat_beq_refl user_id,
      beq_refl a.l.full_name,
    ) in
    (a.l, a.parsed_url, found, conflict again now' user_id q a.l row s' (same ∙ a.parsed_url) found)

abbrev marked : ℕ → Repository → Repository
marked now r = record r { deleted_at = some now }

delete_writes :
    (now user_id id : ℕ) (r : Repository) (s : Shelf)
    → get_repository id s ≡ some r
    → (r.added_by_id == user_id) ≡ true
    → let (done, after) = delete now user_id id s in
      (done ≡ ok tt) × (after.repositories ≡ update (λ x. x.id == r.id) (marked now) s.repositories)
unfolding delete
delete_writes now user_id id r s found owns = rw (found, owns) (refl, refl)

pub is_some-map : {A B : Type 0} (f : A → B) (o : Option A) → is_some (Option.map f o) ≡ is_some o
is_some-map f none = refl
is_some-map f (some a) = refl

taken-delete :
    (now user_id id : ℕ) (r : Repository) (full_name : Text) (s after : Shelf)
    → get_repository id s ≡ some r
    → r.added_by_id ≡ user_id
    → full_name ≡ r.full_name
    → after.repositories ≡ update (λ x. x.id == r.id) (marked now) s.repositories
    → taken user_id full_name after ≡ true
unfolding taken get_repository
taken-delete now user_id id r full_name s after found mine same rows =
    rw (rows, find?-update named (λ x. x.id == r.id) (marked now) s.repositories (λ x. refl))
      (is_some-map (λ x. if x.id == r.id then marked now x else x) (find? named s.repositories)
        ∙ find?-find? (λ x. x.id == id) named s.repositories r found
            (rw (mine, same, nat_beq_refl user_id, beq_refl r.full_name)))
  where
    named : Repository → Bool
    named x = x.added_by_id == user_id && x.full_name == full_name

-- the rows of the unique constraint, and of the query of duplicates
abbrev pub has_full_name : ℕ → Text → Repository → Bool
has_full_name user_id full_name r = r.added_by_id == user_id && r.full_name == full_name

abbrev is_shown : ℕ → Text → Repository → Bool
is_shown user_id full_name r =
    r.added_by_id == user_id && r.full_name == full_name && is_none r.deleted_at

find-uncounted :
    (now user_id id : ℕ) (full_name : Text) (xs : List Repository)
    → count (has_full_name user_id full_name) xs ≡ 0
    → find? (is_shown user_id full_name) (update (λ x. x.id == id) (marked now) xs) ≡ none
find-uncounted now user_id id full_name [] h = refl
find-uncounted now user_id id full_name (x ∷ xs) h =
    ground (arith, find-uncounted now user_id id full_name xs)

find-counted :
    (user_id id : ℕ) (full_name : Text) (xs : List Repository) (r : Repository)
    → find? (λ x. x.id == id) xs ≡ some r
    → has_full_name user_id full_name r ≡ true
    → 1 ≤ count (has_full_name user_id full_name) xs
find-counted user_id id full_name [] r e h = cc
find-counted user_id id full_name (x ∷ xs) r e h =
    ground (arith, find-counted user_id id full_name xs r)

not_shown :
    (now user_id : ℕ) (full_name : Text) (r : Repository)
    → is_shown user_id full_name (marked now r) ≡ false
not_shown now user_id full_name r = ground arith

-- With one row of the name at most, its deletion leaves none that the query finds.
find-marked :
    (now user_id id : ℕ) (full_name : Text) (xs : List Repository) (r : Repository)
    → find? (λ x. x.id == id) xs ≡ some r
    → has_full_name user_id full_name r ≡ true
    → count (has_full_name user_id full_name) xs ≤ 1
    → find? (is_shown user_id full_name) (update (λ x. x.id == r.id) (marked now) xs) ≡ none
find-marked now user_id id full_name [] r e h one = refl
find-marked now user_id id full_name (x ∷ xs) r e h one = elim (Bool-cases (x.id == id)) [
  | inl t ↦
      let same : x ≡ r = ground arith in
      let zero_left : count (has_full_name user_id full_name) xs ≡ 0 =
        ground (arith, ap (has_full_name user_id full_name) same) in
      rw (same, nat_beq_refl r.id, not_shown now user_id full_name r)
        (find-uncounted now user_id r.id full_name xs zero_left)
  | inr f ↦
      let e' : find? (λ y. y.id == id) xs ≡ some r = rw f at e in
      let more = find-counted user_id id full_name xs r e' h in
      let other : has_full_name user_id full_name x ≡ false = ground arith in
      let hidden : is_shown user_id full_name (if x.id == r.id then marked now x else x) ≡ false =
        ground arith in
      rw hidden (find-marked now user_id id full_name xs r e' h (ground arith))
]

-- A repository that was deleted cannot be added again: its row no longer answers the query of duplicates, but
-- still counts for the unique constraint, and the request fails with an integrity error. As that constraint
-- says, the name has one row at most.
pub delete-add :
    (broker : Bool) (now now' user_id id : ℕ) (r : Repository) (p : RepositoryAddRequest)
    (l : GitLocation) (s : Shelf)
    → get_repository id s ≡ some r
    → r.added_by_id ≡ user_id
    → parse_git_url p.url ≡ some l
    → l.full_name ≡ r.full_name
    → count (has_full_name user_id l.full_name) s.repositories ≤ 1
    → let (done, after) = delete now user_id id s in
      (done ≡ ok tt)
      × (get_by_full_name user_id l.full_name after ≡ none)
      × ((add broker now' user_id p after).0 ≡ err Exception.integrity)
unfolding get_repository get_by_full_name
delete-add broker now now' user_id id r p l s found mine parsed_e same one =
    let owns : (r.added_by_id == user_id) ≡ true = rw (mine, nat_beq_refl user_id) in
    let written = delete_writes now user_id id r s found owns in
    let after : Shelf = (delete now user_id id s).1 in
    let named : has_full_name user_id l.full_name r ≡ true =
      rw (mine, same, nat_beq_refl user_id, beq_refl r.full_name) in
    let gone : get_by_full_name user_id l.full_name after ≡ none =
      rw written.1 (find-marked now user_id id l.full_name s.repositories r found named one) in
    (
      written.0,
      gone,
      integrity broker now' user_id p l after parsed_e gone
          (taken-delete now user_id id r l.full_name s after found mine same written.1),
    )
