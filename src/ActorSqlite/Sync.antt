-- ===== src/ActorSqlite/Sync.antt =====
-- src/io/actor-sqlite.ts: `transactionSync`, nested and failing in any way, against snapshots.
pub mod Snapshots
use do_runtime.Common.{Bool, true, false, List, [], ◌∷◌, String, Result, ok, err}
use do_runtime.ActorSqlite.Sqlite.{Engine}
use do_runtime.ActorSqlite.{
  Failure, user_error, Actor, M, return, throw, ◌>>=◌, ◌>>◌, run_write, transaction_sync,
}

-- What a callback of `transactionSync` does: writes, and calls of `transactionSync`, whose failure
-- it may catch. It returns, returns a promise, or throws.
pub data Work (C : Type 0) : Type 0 where
  done promises throws : Work C
  writes : (C → C) → Bool → Work C → Work C
  syncs : Work C → Bool → Work C → Work C

pub data Ending : Type 0 where
  returned promised threw : Ending

-- The reference: a nested call that fails leaves the content as it was.
module _ {C : Type 0} where
  abbrev after_sync : Ending × C → Bool → C → (C → Ending × C) → Ending × C
  after_sync (returned, c') caught c k = k c'
  after_sync (_, c') true c k = k c
  after_sync (_, c') false c k = (threw, c)

  unfoldable pub exec : Work C → C → Ending × C
  exec done c = (returned, c)
  exec promises c = (promised, c)
  exec throws c = (threw, c)
  exec (writes f u rest) c = exec rest (f c)
  exec (syncs body caught rest) c = after_sync (exec body c) caught c (λ x. exec rest x)

abbrev pub ending_of : Result Failure Bool → Ending
ending_of (ok false) = returned
ending_of (ok true) = promised
ending_of (err x) = threw

module _ {S C : Type 0} (e : Engine S C) where
  abbrev pub attempt_on :
      Bool → Result Failure (Unit {0}) × Actor S → Result Failure (Unit {0}) × Actor S
  attempt_on true (r, a) = (ok tt, a)
  attempt_on false (r, a) = (r, a)

  abbrev attempt : Bool → M S (Unit {0}) → M S (Unit {0})
  attempt caught m a = attempt_on caught (m a)

  -- The callback, run by the actor.
  unfoldable pub perform : Work C → M S Bool
  perform done = return false
  perform promises = return true
  perform throws = throw (user_error "callback")
  perform (writes f u rest) = run_write e f u >> perform rest
  perform (syncs body caught rest) =
      attempt caught (transaction_sync e (perform body)) >> perform rest
