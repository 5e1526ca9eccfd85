-- ===== src/Auth/Cleanup.antt =====
-- app/workers/tasks/cleanup.py: the purge of one-time codes and of refresh tokens, each a statement in its own
-- transaction, with the number of rows.
use repo_info_backend.Auth.Tables.{EmailOtp, RefreshToken, World, rollback}
use repo_info_backend.Database.Session.{Action, in_transaction, ok, pure, ◌>>=◌}
use repo_info_backend.Prelude.{Bool, count, filter, is_none, ltb, not, some, update, ℕ, ◌&&◌}

abbrev pub is_past : ℕ → EmailOtp → Bool
is_past now o = ltb o.expires_at now

-- `_cleanup_otps`
unfoldable pub cleanup_otps : ℕ → Action World ℕ
cleanup_otps now s = (
  ok (count (is_past now) s.otps),
  record s { db = record s.db { otps = filter (λ o. not (is_past now o)) s.otps } },
)

abbrev pub is_stale : ℕ → RefreshToken → Bool
is_stale now t = is_none t.revoked_at && ltb t.expires_at now

abbrev pub revoked_now : ℕ → RefreshToken → RefreshToken
revoked_now now t = record t { revoked_at = some now }

-- `_cleanup_expired_refresh`
unfoldable pub cleanup_refresh : ℕ → Action World ℕ
cleanup_refresh now s = (
  ok (count (is_stale now) s.refresh_tokens),
  record s {
    db = record s.db { refresh_tokens = update (is_stale now) (revoked_now now) s.refresh_tokens };
  },
)

-- `cleanup_expired_otps`: the numbers of the codes removed and of the tokens revoked
unfoldable pub cleanup_expired_otps : ℕ → Action World (ℕ × ℕ)
unfolding cleanup_otps cleanup_refresh in_transaction
cleanup_expired_otps now = do
  otps ← in_transaction rollback (cleanup_otps now)
  tokens ← in_transaction rollback (cleanup_refresh now)
  pure (otps, tokens)
