-- ===== src/Database/Session.antt =====
-- app/database/session.py: a service method runs in a session. What it has flushed stays in the
-- session's transaction after a raise, so the state comes back beside the exception too; `get_db`
-- then rolls back, while a route that returns has called `commit`.
use repo_info_backend.Core.Errors.{AppError, Exception}
use repo_info_backend.Prelude.{Bool, Option, false, none, some, true}

pub data Result {ℓ} (A : Type ℓ) : Type ℓ where
  ok : A → Result A
  err : Exception → Result A

abbrev pub Action : Type 0 → Type 0 → Type 0
Action S A = S → Result A × S

module _ {S A : Type 0} where
  abbrev pub pure : A → Action S A
  pure a s = (ok a, s)

  abbrev pub throw : Exception → Action S A
  throw e s = (err e, s)

  abbrev pub raise : AppError → Action S A
  raise e s = (err (Exception.app e), s)

  abbrev pub gets : (S → A) → Action S A
  gets f s = (ok (f s), s)

  -- `if x is None: raise e`
  abbrev pub or_raise : Option A → AppError → Action S A
  or_raise none e = raise e
  or_raise (some a) e = pure a

module _ {S : Type 0} where
  abbrev pub modify : (S → S) → Action S (Unit {0})
  modify f s = (ok tt, f s)

  -- `if c: raise e`
  abbrev pub raise_if : Bool → AppError → Action S (Unit {0})
  raise_if true e s = (err (Exception.app e), s)
  raise_if false e s = (ok tt, s)

module _ {S A B : Type 0} where
  abbrev pub continue : (A → Action S B) → Result A × S → Result B × S
  continue f (ok a, s) = f a s
  continue f (err e, s) = (err e, s)

  infixl 5 ◌>>=◌ ◌>>◌
  abbrev pub ◌>>=◌ : Action S A → (A → Action S B) → Action S B
  ◌>>=◌ m f s = continue f (m s)

  abbrev pub ◌>>◌ : Action S A → Action S B → Action S B
  m >> k = m >>= λ _. k

-- `restore old new` is the state after a rollback: the database as at the start of the transaction,
-- and what was done outside the database (mail, messages to a broker) left as it is.
module _ {S A : Type 0} (restore : S → S → S) where
  abbrev pub close : S → Result A × S → Result A × S
  close old (ok a, new) = (ok a, new)
  close old (err e, new) = (err e, restore old new)

  -- A route: the service method, then `commit`; `get_db` rolls back on any exception. The context
  -- manager `db_session_ctx` has the same outcomes.
  unfoldable pub in_transaction : Action S A → Action S A
  in_transaction m s = close s (m s)

-- What a success returns, seen through a function.
abbrev pub map_ok {ℓ κ} : {A : Type ℓ} {B : Type κ} → (A → B) → Result A → Result B
map_ok f (ok a) = ok (f a)
map_ok f (err e) = err e
