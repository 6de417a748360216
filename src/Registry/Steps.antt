-- ===== src/Registry/Steps.antt =====
-- The blocks of an open, each of which runs under the lock or with no shared state.
use chrondb.Base.{ℕ, Option, none, some, ok, err}
use chrondb.Error.{ChronDbError, DbResult}
use chrondb.Registry.{Key, Workers, find_worker, create_new_worker, register}

-- How far an open has come.
pub data Opening : Type 0 where
  looking creating : Opening
  registering : ℕ → Opening
  opened : ℕ → Opening
  failed : ChronDbError → Opening

unfoldable pub looked : Option ℕ × Workers → Opening × Workers
looked (some id, s) = (opened id, s)
looked (none, s) = (creating, s)

unfoldable pub created : DbResult ℕ × Workers → Opening × Workers
created (ok id, s) = (registering id, s)
created (err e, s) = (failed e, s)

-- The next block of an open of `k`, where a new thread would succeed.
unfoldable pub advance : Key → Opening → Workers → Opening × Workers
unfolding looked created
advance k looking s = looked (find_worker k s)
advance k creating s = created (create_new_worker k none (ok tt) s)
advance k (registering id) s = (opened id, register k id s)
advance k (opened id) s = (opened id, s)
advance k (failed e) s = (failed e, s)
