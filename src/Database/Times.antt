-- ===== src/Database/Times.antt =====
-- Python's `datetime` where the authentication service compares two of them: `_db_now` of app/services/auth_service.py,
-- and the columns that app/database/base.py maps to `DateTime(timezone=True)`.
use repo_info_backend.Core.Errors.{Exception}
use repo_info_backend.Core.Security.{Env}
use repo_info_backend.Database.Session.{Action, pure, throw}
use repo_info_backend.Prelude.{Bool, ltb, ℕ}

pub data DateTime : Type 0 where
  naive aware : ℕ → DateTime

-- `datetime.now(timezone.utc).replace(tzinfo=None)`
abbrev pub db_now : Env → DateTime
db_now env = DateTime.naive env.now

-- What a query loads from a column: the driver returns an aware time for `timestamp with time zone`.
abbrev pub loaded : ℕ → DateTime
loaded t = DateTime.aware t

-- can't compare offset-naive and offset-aware datetimes
abbrev pub type_error : Exception
type_error = Exception.other "TypeError"

-- `a < b`
abbrev pub is_before : {S : Type 0} → DateTime → DateTime → Action S Bool
is_before (DateTime.naive a) (DateTime.naive b) = pure (ltb a b)
is_before (DateTime.aware a) (DateTime.aware b) = pure (ltb a b)
is_before _ _ = throw type_error
