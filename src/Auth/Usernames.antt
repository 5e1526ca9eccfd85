-- ===== src/Auth/Usernames.antt =====
-- The choice of a username for a new account in `handle_callback` of app/services/oauth_service.py.
use repo_info_backend.Auth.Repositories.{get_by_username}
use repo_info_backend.Auth.Tables.{World}
use repo_info_backend.Prelude.{
  Option, Text, codes, decimal, if◌then◌else◌, is_some, length, none, some, suc, zero, ℕ, ◌++◌, ◌+◌,
}

-- `base_username`, then `f"{base_username}-{suffix}"` for the suffixes 1, 2, …
abbrev pub candidate : Text → ℕ → Text
candidate base zero = base
candidate base (suc k) = base ++ (codes "-" ++ decimal (suc k))

-- `while await self.users.get_by_username(username)`, from the suffix `k` on; one unit of fuel for each
-- round, and `none` where the fuel runs out
unfoldable pub free_username : ℕ → Text → ℕ → World → Option Text
free_username zero base k s = none
free_username (suc fuel) base k s =
    let rest = free_username fuel base (k + 1) s in
    if is_some (get_by_username (candidate base k) s) then rest else some (candidate base k)

-- Each round meets another user, so that one round more than there are users is enough.
unfoldable pub choose_username : Text → World → Option Text
unfolding free_username
choose_username base s = free_username (length s.users + 1) base 0 s
