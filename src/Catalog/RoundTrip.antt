-- ===== src/Catalog/RoundTrip.antt =====
-- Printing and reading addresses of repositories: app/utils/git.py.
use mathlib.Core.List.{reverse-append, reverse-reverse}
use repo_info_backend.Catalog.GitUrl.{
  GitLocation, Host, after, bitbucket, checked_name, drop_suffix, github, gitlab, has_slash,
  location, match_host, match_url, optional, or_next, parse_git_url, read_path, read_rest,
  repository_name, segment, without_scheme,
}
use repo_info_backend.Catalog.Segments.{
  IsName, before-append, before_slash, checked_name_lem, drop_suffix-none, drop_suffix-some,
  has_slash-append, segment-append,
}
use repo_info_backend.Prelude.{
  Bool-cases, Option, Option-cases, Text, [], ap, append_assoc, arith, beq_refl, codes, false, inl,
  inr, lstrip, nat_eq, none, refl, reverse, some, string_eq, strip, subst, sym, text_beq, text_eq,
  ◌++◌, ◌==◌, ◌||◌, ◌∙◌, ◌∷◌, ◌≡◌, ◌⊎◌,
}

-- What `repository_name` makes of "name.git".
repository_name-git :
    (name : Text) → IsName name → repository_name (name ++ codes ".git") ≡ some name
unfolding has_slash
repository_name-git name good =
    ap (λ (x : Text). checked_name (drop_suffix (codes ".git") x))
      (drop_suffix-none (codes "/") (name ++ codes ".git")
        (before_slash (name ++ codes ".git") git_no_slash))
    ∙ ap checked_name (
        drop_suffix-some (codes ".git") (name ++ codes ".git") name
          (before-append (codes ".git") name) good.some_text)
    ∙ checked_name_lem name good
  where
    git_no_slash : has_slash (name ++ codes ".git") ≡ false
    git_no_slash = has_slash-append name (codes ".git") ∙ ap (λ b. b || false) good.no_slash

read_path-location :
    (h : Host) (owner name : Text)
    → IsName owner
    → IsName name
    → read_path h (segment (owner ++ (b'/' ∷ (name ++ codes ".git"))))
      ≡ some (location h owner name)
read_path-location h [] name owner_ok name_ok =
    absurd (cc (owner_ok.some_text, beq_refl {A = Text} []))
read_path-location h (c ∷ owner) name owner_ok name_ok = rw (
  segment-append (c ∷ owner) (name ++ codes ".git") owner_ok.no_slash,
  repository_name-git name name_ok,
)

-- an address of one of the three providers, in its parts
record Parsed (l : GitLocation) : Type 0 where
  pub h : Host
  pub owner : Text
  pub name : Text
  pub known : (h ≡ github) ⊎ (h ≡ gitlab) ⊎ (h ≡ bitbucket)
  pub owner_ok : IsName owner
  pub name_ok : IsName name
  pub parts : l ≡ location h owner name

match_github :
    (owner name : Text)
    → IsName owner
    → IsName name
    → match_host github (location github owner name).clone_url ≡ some (location github owner name)
unfolding match_host after
match_github owner name owner_ok name_ok = read_path-location github owner name owner_ok name_ok

match_gitlab :
    (owner name : Text)
    → IsName owner
    → IsName name
    → match_host gitlab (location gitlab owner name).clone_url ≡ some (location gitlab owner name)
unfolding match_host after
match_gitlab owner name owner_ok name_ok = read_path-location gitlab owner name owner_ok name_ok

match_bitbucket :
    (owner name : Text)
    → IsName owner
    → IsName name
    → match_host bitbucket (location bitbucket owner name).clone_url
      ≡ some (location bitbucket owner name)
unfolding match_host after
match_bitbucket owner name owner_ok name_ok =
    read_path-location bitbucket owner name owner_ok name_ok

parse_known :
    (h : Host) (owner name : Text)
    → (h ≡ github) ⊎ (h ≡ gitlab) ⊎ (h ≡ bitbucket)
    → IsName owner
    → IsName name
    → match_url (location h owner name).clone_url ≡ some (location h owner name)
unfolding match_url match_host after
parse_known h owner name known owner_ok name_ok = elim known [
  | inl e ↦
      subst Reads (sym e)
        (ap (λ (o : Option GitLocation). or_next o none) (match_github owner name owner_ok name_ok))
  | inr (inl e) ↦
      subst Reads (sym e)
        (ap (λ (o : Option GitLocation). or_next o none) (match_gitlab owner name owner_ok name_ok))
  | inr (inr e) ↦ subst Reads (sym e) (match_bitbucket owner name owner_ok name_ok)
]
  where
    Reads : Host → Type 0
    Reads x = match_url (location x owner name).clone_url ≡ some (location x owner name)

segment_sound : (t owner rest : Text) → segment t ≡ some (owner, rest) → has_slash owner ≡ false
unfolding segment has_slash
segment_sound [] owner rest h = cc
segment_sound (c ∷ t) owner rest h = elim (Bool-cases (c == b'/')) [
  | inl slash ↦ ground arith
  | inr other ↦ elim (Option-cases (segment t)) [
    | inl none_e ↦ absurd (ground arith)
    | inr (r, e) ↦ ground (arith, segment_sound t r.0 r.1)
  ]
]

checked_name-IsName : (t name : Text) → checked_name t ≡ some name → IsName name
checked_name-IsName t name h = elim (Bool-cases (t == [])) [
  | inl empty ↦ absurd (ground arith)
  | inr some_text ↦ elim (Bool-cases (has_slash t)) [
    | inl slash ↦ absurd (ground arith)
    | inr no_slash ↦
        subst IsName (ground arith) (record { some_text = some_text; no_slash = no_slash })
  ]
]

Sound : Host → GitLocation → Type 0
Sound h l =
    (owner : Text) × (name : Text) × IsName owner × IsName name × (l ≡ location h owner name)

read_path-Sound :
    (h : Host) (owner rest : Text) (l : GitLocation)
    → has_slash owner ≡ false
    → read_path h (some (owner, rest)) ≡ some l
    → Sound h l
unfolding Sound text_beq
read_path-Sound h [] rest l no_slash e = absurd (ground arith)
read_path-Sound h (c ∷ owner) rest l no_slash e = elim (Option-cases (repository_name rest)) [
  | inl none_e ↦ absurd (ground arith)
  | inr (name, en) ↦ (
    c ∷ owner,
    name,
    record { some_text = refl; no_slash = no_slash },
    checked_name-IsName _ name en,
    ground arith,
  )
]

read_rest-Sound :
    (h : Host) (o : Option Text) (l : GitLocation) → read_rest h o ≡ some l → Sound h l
read_rest-Sound h none l e = absurd (ground arith)
read_rest-Sound h (some path) l e = elim (Option-cases (segment path)) [
  | inl none_e ↦ absurd (ground arith)
  | inr ((owner, rest), es) ↦
      read_path-Sound h owner rest l (segment_sound path owner rest es)
        (sym (ap (λ (o : Option (Text × Text)). read_path h o) es) ∙ e)
]

match_host-Sound : (h : Host) (url : Text) (l : GitLocation) → match_host h url ≡ some l → Sound h l
unfolding match_host
match_host-Sound h url l e =
    read_rest-Sound h (after (h.host ++ codes "/") (optional (codes "www.") (without_scheme url))) l
      e

-- A text that starts with a letter and ends in ".git" has nothing to strip.
strip-git : (x : Text) → strip (b'h' ∷ (x ++ codes ".git")) ≡ b'h' ∷ (x ++ codes ".git")
strip-git x =
    ap (λ (t : Text). reverse (lstrip t)) (reverse-append (b'h' ∷ x) (codes ".git"))
    ∙ (ap reverse (sym (reverse-append (b'h' ∷ x) (codes ".git")))
        ∙ reverse-reverse (b'h' ∷ (x ++ codes ".git")))

strip-clone_url :
    (h : Host) (owner name : Text)
    → strip (location h owner name).clone_url ≡ (location h owner name).clone_url
strip-clone_url h owner name = subst (λ (t : Text). strip t ≡ t) (sym whole) (strip-git body)
  where
    body : Text
    body = codes "ttps://" ++ (h.host ++ (b'/' ∷ (owner ++ (b'/' ∷ name))))

    whole : (location h owner name).clone_url ≡ b'h' ∷ (body ++ codes ".git")
    whole = rw (
      append_assoc (codes "ttps://") (h.host ++ (b'/' ∷ (owner ++ (b'/' ∷ name)))) (codes ".git"),
      append_assoc h.host (b'/' ∷ (owner ++ (b'/' ∷ name))) (codes ".git"),
      append_assoc owner (b'/' ∷ name) (codes ".git"),
    )

-- The address that the application clones from is read as the location it was made from: an address
-- of any accepted form gives a location, and its `clone_url` gives the same one.
pub parse_git_url-clone_url :
    (url : Text) (l : GitLocation) → parse_git_url url ≡ some l → parse_git_url l.clone_url ≡ some l
unfolding parse_git_url match_url Sound
parse_git_url-clone_url url l e = elim (Option-cases (match_host github (strip url))) [
  | inr (x, m) ↦ again github (inl refl) (match_host-Sound github (strip url) l (ground arith))
  | inl m ↦ elim (Option-cases (match_host gitlab (strip url))) [
    | inr (x, m') ↦
        again gitlab (inr (inl refl)) (match_host-Sound gitlab (strip url) l (ground arith))
    | inl m' ↦
        again bitbucket (inr (inr refl)) (match_host-Sound bitbucket (strip url) l (ground arith))
  ]
]
  where
    again :
        (h : Host)
        → (h ≡ github) ⊎ (h ≡ gitlab) ⊎ (h ≡ bitbucket)
        → Sound h l
        → parse_git_url l.clone_url ≡ some l
    again h known (owner, name, owner_ok, name_ok, parts) =
        subst (λ (x : GitLocation). parse_git_url x.clone_url ≡ some x) (sym parts)
          (rw (strip-clone_url h owner name) (parse_known h owner name known owner_ok name_ok))
