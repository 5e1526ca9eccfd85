-- ===== src/Catalog/GitUrl.antt =====
-- app/utils/git.py: the address of a repository, read by three regular expressions that differ in the
-- provider's host. The text is stripped first, so that the end of the text is the end of the pattern.
use mathlib.Core.Option
use repo_info_backend.Models.Enums.{RepositoryProvider}
use repo_info_backend.Prelude.{
  Bool, Option, Text, [], codes, false, if◌then◌else◌, nat_eq, none, some, string_eq, strip,
  text_eq, ◌++◌, ◌==◌, ◌||◌, ◌∷◌,
}

pub record Host : Type 0 where
  pub provider : RepositoryProvider
  pub host : Text

abbrev pub github : Host
github = record { provider = RepositoryProvider.github; host = codes "github.com" }

abbrev pub gitlab : Host
gitlab = record { provider = RepositoryProvider.gitlab; host = codes "gitlab.com" }

abbrev pub bitbucket : Host
bitbucket = record { provider = RepositoryProvider.bitbucket; host = codes "bitbucket.org" }

pub record GitLocation : Type 0 where
  pub provider : RepositoryProvider
  pub owner : Text
  pub name : Text
  pub full_name : Text
  pub clone_url : Text
  pub web_url : Text

-- the text after a prefix
unfoldable pub after : Text → Text → Option Text
after [] t = some t
after (p ∷ ps) [] = none
after (p ∷ ps) (c ∷ t) = let rest = after ps t in if p == c then rest else none

abbrev pub optional : Text → Text → Text
optional prefix t = elim (after prefix t) [ none ↦ t | some rest ↦ rest ]

-- `(?:https?://)?`
abbrev pub without_scheme : Text → Text
without_scheme t = elim (after (codes "https://") t) [
  | some rest ↦ rest
  | none ↦ optional (codes "http://") t
]

-- `([^/]+)/`: the text before the first slash, and the text after it
unfoldable pub segment : Text → Option (Text × Text)
segment [] = none
segment (c ∷ t) =
    let rest = segment t in
    if c == b'/' then some ([], t) else Option.map (λ (r : Text × Text). (c ∷ r.0, r.1)) rest

unfoldable pub has_slash : Text → Bool
has_slash [] = false
has_slash (c ∷ t) = c == b'/' || has_slash t

-- the text before a suffix
unfoldable pub before : Text → Text → Option Text
before suffix [] = if suffix == [] then some [] else none
before suffix (c ∷ t) =
    let rest = before suffix t in
    if suffix == c ∷ t then some [] else Option.map (λ (r : Text). c ∷ r) rest

abbrev pub nonempty : Option Text → Option Text
nonempty none = none
nonempty (some []) = none
nonempty (some (c ∷ t)) = some (c ∷ t)

abbrev pub or_else : Text → Option Text → Text
or_else t none = t
or_else t (some r) = r

abbrev pub drop_suffix : Text → Text → Text
drop_suffix suffix t = or_else t (nonempty (before suffix t))

-- `([^/]+?)(?:\.git)?/?$`: a closing slash goes first, then ".git", unless nothing would be left
abbrev pub checked_name : Text → Option Text
checked_name name = if name == [] || has_slash name then none else some name

abbrev pub repository_name : Text → Option Text
repository_name t = checked_name (drop_suffix (codes ".git") (drop_suffix (codes "/") t))

abbrev pub location : Host → Text → Text → GitLocation
location h owner name = record {
  provider = h.provider;
  owner = owner;
  name = name;
  full_name = owner ++ (b'/' ∷ name);
  clone_url = codes "https://" ++ (h.host ++ (b'/' ∷ (owner ++ (b'/' ∷ (name ++ codes ".git")))));
  web_url = codes "https://" ++ (h.host ++ (b'/' ∷ (owner ++ (b'/' ∷ name))));
}

abbrev pub read_path : Host → Option (Text × Text) → Option GitLocation
read_path h none = none
read_path h (some ([], rest)) = none
read_path h (some (c ∷ owner, rest)) =
    Option.map (λ name. location h (c ∷ owner) name) (repository_name rest)

abbrev pub read_rest : Host → Option Text → Option GitLocation
read_rest h none = none
read_rest h (some path) = read_path h (segment path)

unfoldable pub match_host : Host → Text → Option GitLocation
unfolding after segment before has_slash
match_host h url =
    read_rest h (after (h.host ++ codes "/") (optional (codes "www.") (without_scheme url)))

-- the first pattern that matches
abbrev pub or_next : Option GitLocation → Option GitLocation → Option GitLocation
or_next none rest = rest
or_next (some l) rest = some l

unfoldable pub match_url : Text → Option GitLocation
match_url url =
    or_next (match_host github url) (or_next (match_host gitlab url) (match_host bitbucket url))

unfoldable pub parse_git_url : Text → Option GitLocation
unfolding match_url
parse_git_url url = match_url (strip url)
