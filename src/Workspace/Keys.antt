-- ===== src/Workspace/Keys.antt =====
-- The projects of app/services/project_service.py keep their keys: an id, and an owner with a slug.
use repo_info_backend.Prelude.{
  All, All-append, All-map, All-update, Bool, Bool-cases, List, Text, [], and_left, and_right,
  arith, beq→eq, count, false, find?, if◌then◌else◌, inl, inr, is_some, nat_eq, not, refl, subst,
  text_eq, true, update, ℕ, ◌&&◌, ◌++◌, ◌+◌, ◌<◌, ◌==◌, ◌∷◌, ◌≡◌, ◌≤◌,
}
use repo_info_backend.Workspace.Projects.{
  Project, ProjectCreateRequest, Projects, clashes, create_project, has_slug, write_project,
}

-- at most one row for each id, and for each owner and slug; the next id is new
abbrev pub IsKeyed : Projects → Type 0
IsKeyed s =
    ((id : ℕ) → count (λ (x : Project). x.id == id) s.projects ≤ 1)
    × ((owner_id : ℕ) (slug : Text) → count (has_slug owner_id slug) s.projects ≤ 1)
    × All (λ (x : Project). x.id < s.next_id) s.projects

count-none :
    (q : Project → Bool) (xs : List Project) → is_some (find? q xs) ≡ false → count q xs ≡ 0
count-none q [] h = refl
count-none q (x ∷ xs) h = ground (arith, count-none q xs)

count-append_one :
    (q : Project → Bool) (xs : List Project) (y : Project)
    → count q (xs ++ y ∷ []) ≡ count q xs + (if q y then 1 else 0)
count-append_one q [] y = omega arith
count-append_one q (x ∷ xs) y = ground (arith, count-append_one q xs y)

pub count-update_same :
    (q r : Project → Bool) (f : Project → Project) (xs : List Project)
    → ((x : Project) → r x ≡ true → q (f x) ≡ q x)
    → count q (update r f xs) ≡ count q xs
count-update_same q r f [] h = refl
count-update_same q r f (x ∷ xs) h = elim (Bool-cases (r x)) [
  | inl t ↦ rw (t, h x t, count-update_same q r f xs h) refl
  | inr n ↦ rw (n, count-update_same q r f xs h) refl
]

-- the rows of a condition are all written to one that has the key, and no other has it
count-written :
    (q r : Project → Bool) (p : Project) (xs : List Project)
    → q p ≡ true
    → count (λ x. not (r x) && q x) xs ≡ 0
    → count q (update r (λ x. p) xs) ≡ count r xs
count-written q r p [] h none_else = refl
count-written q r p (x ∷ xs) h none_else = ground (arith, h, count-written q r p xs h)

count-written_away :
    (q r : Project → Bool) (p : Project) (xs : List Project)
    → q p ≡ false
    → count q (update r (λ x. p) xs) ≤ count q xs
count-written_away q r p [] h = omega arith
count-written_away q r p (x ∷ xs) h = ground (arith, h, count-written_away q r p xs h)

count-below :
    (n : ℕ) (xs : List Project)
    → All (λ (x : Project). x.id < n) xs
    → count (λ (x : Project). x.id == n) xs ≡ 0
count-below n [] h = refl
count-below n (x ∷ xs) h = let low : x.id < n = h.0 in ground (arith, low, count-below n xs h.1)

pub create_project-IsKeyed :
    (slugify : Text → Text) (now user_id : ℕ) (payload : ProjectCreateRequest) (s : Projects)
    → IsKeyed s
    → IsKeyed (create_project slugify now user_id payload s).1
unfolding create_project
create_project-IsKeyed slugify now user_id payload s h =
    elim (Bool-cases (is_some (find? (has_slug user_id (slugify payload.name)) s.projects))) [
      | inl t ↦ rw (t) h
      | inr f ↦ rw (f) (
        (λ id.
            rw (count-append_one (λ x. x.id == id) s.projects _)
              (elim (Bool-cases (s.next_id == id)) [
                | inl t ↦ rw (t) (
                    omega (
                      arith,
                      subst (λ i. count (λ (x : Project). x.id == i) s.projects ≡ 0)
                          (beq→eq s.next_id id t) (count-below s.next_id s.projects h.2),
                    ))
                | inr n ↦ rw (n) (omega (arith, h.0 id))
              ])),
        (λ owner_id slug.
            rw (count-append_one (has_slug owner_id slug) s.projects _) (new_slug f owner_id slug)),
        All-append (λ (x : Project). x.id < s.next_id + 1) s.projects _
            (All-map (λ x low. omega arith) s.projects h.2) (omega arith, tt),
      )
    ]
  where
    new_slug :
        is_some (find? (has_slug user_id (slugify payload.name)) s.projects) ≡ false
        → (owner_id : ℕ) (slug : Text)
        → count (has_slug owner_id slug) s.projects
            + (if (user_id == owner_id) && (slugify payload.name == slug) then 1 else 0)
          ≤ 1
    new_slug f owner_id slug =
        elim (Bool-cases ((user_id == owner_id) && (slugify payload.name == slug))) [
          | inl t ↦ rw (t) (
              let same_owner : user_id ≡ owner_id =
                beq→eq user_id owner_id
                  (and_left (user_id == owner_id) (slugify payload.name == slug) t) in
              let same_slug : slugify payload.name ≡ slug =
                beq→eq (slugify payload.name) slug
                  (and_right (user_id == owner_id) (slugify payload.name == slug) t) in
              let no_row : count (has_slug owner_id slug) s.projects ≡ 0 =
                rw (← same_owner, ← same_slug)
                  (count-none (has_slug user_id (slugify payload.name)) s.projects f) in
              omega (arith, no_row))
          | inr n ↦ rw (n) (omega (arith, h.1 owner_id slug))
        ]

pub write_project-IsKeyed :
    (p : Project) (s : Projects) → p.id < s.next_id → IsKeyed s → IsKeyed (write_project p s).1
write_project-IsKeyed p s low h = elim (Bool-cases (is_some (find? (clashes p) s.projects))) [
  | inl t ↦ rw (t) h
  | inr f ↦ rw (f) (
    (λ id.
        rw
          (count-update_same (λ x. x.id == id) (λ x. x.id == p.id) (λ x. p) s.projects
            (λ x hit. ground (arith, hit)))
          (h.0 id)),
    slugs f,
    All-update (λ (x : Project). x.id < s.next_id) (λ x. x.id == p.id) (λ x. p) (λ x old. low)
        s.projects h.2,
  )
]
  where
    slugs :
        is_some (find? (clashes p) s.projects) ≡ false
        → (owner_id : ℕ) (slug : Text)
        → count (has_slug owner_id slug) (update (λ x. x.id == p.id) (λ x. p) s.projects) ≤ 1
    slugs alone owner_id slug = elim (Bool-cases (has_slug owner_id slug p)) [
      | inl t ↦
          (let same_owner : p.owner_id ≡ owner_id =
              beq→eq p.owner_id owner_id (and_left (p.owner_id == owner_id) (p.slug == slug) t) in
            let same_slug : p.slug ≡ slug =
              beq→eq p.slug slug (and_right (p.owner_id == owner_id) (p.slug == slug) t) in
            let none_else : count (λ x. not (x.id == p.id) && has_slug owner_id slug x) s.projects
                ≡ 0 =
              subst (λ o. count (λ x. not (x.id == p.id) && has_slug o slug x) s.projects ≡ 0)
                same_owner
                (subst
                  (λ l. count (λ x. not (x.id == p.id) && has_slug p.owner_id l x) s.projects ≡ 0)
                  same_slug (count-none (clashes p) s.projects alone)) in
            omega (
              arith,
              h.0 p.id,
              count-written (has_slug owner_id slug) (λ x. x.id == p.id) p s.projects t none_else,
            ))
      | inr f ↦ omega (
        arith,
        h.1 owner_id slug,
        count-written_away (has_slug owner_id slug) (λ x. x.id == p.id) p s.projects f,
      )
    ]
