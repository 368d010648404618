-- ===== src/ActorSqlite.antt =====
-- src/io/actor-sqlite.ts: `ActorSqlite`, its transactions. A call may throw, and keeps what it has
-- changed when it does. An explicit transaction is called while it is the innermost one. The end of
-- the turn, which commits an implicit transaction, is `commit_turn`. The alarms are in child
-- modules.
pub mod Sqlite
pub mod Scheduling
pub mod Commits
pub mod Handler
pub mod Statements
pub mod Sync
pub mod Transactions
pub mod Programs
use do_runtime.Common.{
  ℕ, zero, suc, ◌+◌, ◌-◌, Bool, true, false, Option, none, some, List, [], ◌∷◌, String, ◌&&◌, ◌||◌,
  not, Result, ok, err, if◌then◌else◌,
}
use do_runtime.ActorSqlite.Sqlite.{
  Name, sync_savepoint, explicit_savepoint, Statement, begin_transaction, commit_transaction,
  rollback_transaction, savepoint, release, rollback_to, write, Engine,
}

pub data Failure : Type 0 where
  sql_failed critical_error no_transaction promise_returned child_is_open delete_all_in_transaction
        dropped_out_of_order scheduling_failed shut_down :
      Failure
  user_error : String → Failure

-- `ImplicitTxn`, while it is the current transaction, ...
pub record Implicit : Type 0 where
  pub committed : Bool
  pub some_write_confirmed : Bool

-- ... and `ExplicitTxn`.
pub record Explicit : Type 0 where
  pub depth : ℕ
  pub has_child : Bool
  pub committed : Bool
  pub dropped : Bool
  pub alarm_dirty : Bool
  pub some_write_confirmed : Bool

-- An explicit transaction stands before its parents.
pub data CurrentTxn : Type 0 where
  no_txn : CurrentTxn
  implicit : Implicit → CurrentTxn
  explicit : Explicit → List Explicit → CurrentTxn

-- `gate_locks` counts the locks of the output gate for writes that are confirmed.
pub record Actor (S : Type 0) : Type 0 where
  pub db : S
  pub broken : Option Failure
  pub gate_broken : Bool
  pub gate_locks : ℕ
  pub current : CurrentTxn
  pub have_deferred_delete : Bool
  pub sync_depth : ℕ

abbrev pub M : Type 0 → Type 0 → Type 0
M S A = Actor S → Result Failure A × Actor S

-- The flags of a nested transaction go to its parent.
abbrev pub inherit : Explicit → Explicit → Explicit
inherit t p = record p {
  alarm_dirty = t.alarm_dirty || p.alarm_dirty;
  some_write_confirmed = t.some_write_confirmed || p.some_write_confirmed;
}

-- The flags after a rollback are those of the parent.
abbrev pub reset_flags : Explicit → List Explicit → Explicit
reset_flags t [] = record t { alarm_dirty = false; some_write_confirmed = false }
reset_flags t (p ∷ ps) = record t {
  alarm_dirty = p.alarm_dirty;
  some_write_confirmed = p.some_write_confirmed;
}

abbrev pub leave : List Explicit → CurrentTxn
leave [] = no_txn
leave (p ∷ ps) = explicit (record p { has_child = false }) ps

abbrev pub dropped_implicit : CurrentTxn → CurrentTxn
dropped_implicit (implicit t) = no_txn
dropped_implicit c = c

module _ {S : Type 0} where
  abbrev pub return : {A : Type 0} → A → M S A
  return x a = (ok x, a)

  abbrev pub throw : {A : Type 0} → Failure → M S A
  throw x a = (err x, a)

  abbrev pub continue :
      {A B : Type 0} → Result Failure A × Actor S → (A → M S B) → Result Failure B × Actor S
  continue (ok x, a) f = f x a
  continue (err x, a) f = (err x, a)

  infixl 5 ◌>>=◌ ◌>>◌
  abbrev pub ◌>>=◌ : {A B : Type 0} → M S A → (A → M S B) → M S B
  ◌>>=◌ m f a = continue (m a) f

  abbrev pub ◌>>◌ : {B : Type 0} → M S (Unit {0}) → M S B → M S B
  m >> k = m >>= λ _. k

  abbrev pub set_current : CurrentTxn → M S (Unit {0})
  set_current c a = (ok tt, record a { current = c })

  abbrev pub refuse : Bool → Failure → M S (Unit {0})
  refuse true x = throw x
  refuse false x = return tt

  abbrev require_on : Option Failure → M S (Unit {0})
  require_on none = return tt
  require_on (some x) = throw x

  -- `requireNotBroken`.
  abbrev pub require_not_broken : M S (Unit {0})
  require_not_broken a = require_on a.broken a

  abbrev break_on : Option Failure → Failure → Actor S → Actor S
  break_on none x a = record a { broken = some x }
  break_on (some y) x a = a

  -- `shutdown`, and what `#taskFailed` does.
  abbrev pub shutdown : Failure → Actor S → Actor S
  shutdown x a = break_on a.broken x a

  abbrev critical_on : Option Failure → Actor S → Actor S
  critical_on none a = record a { broken = some critical_error; gate_broken = true }
  critical_on (some y) a = a

  -- `#onCriticalError`.
  abbrev pub on_critical_error : Bool → Actor S → Actor S
  on_critical_error false a = a
  on_critical_error true a = critical_on a.broken a

  -- The second half of `#onWrite`.
  abbrev pub note_write_on : CurrentTxn → Bool → M S (Unit {0})
  note_write_on no_txn allow_unconfirmed a = (err no_transaction, a)
  note_write_on (implicit t) allow_unconfirmed a =
      if not t.some_write_confirmed && not allow_unconfirmed
      then (
        ok tt,
        record a {
          current = implicit (record t { some_write_confirmed = true });
          gate_locks = suc a.gate_locks;
        },
      )
      else (ok tt, a)
  note_write_on (explicit t outer) allow_unconfirmed a =
      if not t.some_write_confirmed && not allow_unconfirmed
      then (ok tt, record a { current = explicit (record t { some_write_confirmed = true }) outer })
      else (ok tt, a)

  abbrev pub lower_depth : {A : Type 0} → Result Failure A × Actor S → Result Failure A × Actor S
  lower_depth (r, a) = (r, record a { sync_depth = a.sync_depth - 1 })

  abbrev pub rethrow :
      {A : Type 0} → Failure → Result Failure (Unit {0}) × Actor S → Result Failure A × Actor S
  rethrow x (ok _, a) = (err x, a)
  rethrow x (err y, a) = (err y, a)

  -- The flags of a nested transaction go to its parent, and the root transaction is signaled, with the gate locked for a write that is confirmed.
  abbrev pub committed_on : Explicit → List Explicit → M S (Unit {0})
  committed_on t (p ∷ ps) a =
      (ok tt, record a { current = explicit (record t { committed = true }) (inherit t p ∷ ps) })
  committed_on t [] a = (
    ok tt,
    record a {
      current = explicit (record t { committed = true }) [];
      have_deferred_delete = if t.alarm_dirty then false else a.have_deferred_delete;
      gate_locks = if t.some_write_confirmed then suc a.gate_locks else a.gate_locks;
    },
  )

  -- The state update of a drop, and then the failure of the rollback.
  abbrev pub left :
      Bool
      → List Explicit
      → Result Failure (Unit {0}) × Actor S
      → Result Failure (Unit {0}) × Actor S
  left true outer (r, a) = (err child_is_open, a)
  left false outer (r, a) = (r, record a { current = leave outer })

  -- A commit that failed breaks the output gate and the actor.
  abbrev pub guard_commit : Result Failure (Unit {0}) × Actor S → Actor S
  guard_commit (ok _, a) = a
  guard_commit (err x, a) = shutdown x (record a { gate_broken = true })

module _ {S C : Type 0} (e : Engine S C) where
  abbrev ran : Bool × S → M S (Unit {0})
  ran (true, s) a = (ok tt, record a { db = s })
  ran (false, s) a = (err sql_failed, on_critical_error (e.critical s) (record a { db = s }))

  -- `db.run`.
  abbrev pub run : Statement C → M S (Unit {0})
  run st a = ran (e.run st a.db) a

  -- `new ImplicitTxn`.
  abbrev start_on : CurrentTxn → M S (Unit {0})
  start_on no_txn = do
    run begin_transaction
    set_current (implicit (record { committed = false; some_write_confirmed = false }))
  start_on _ = return tt

  abbrev pub start_implicit : M S (Unit {0})
  start_implicit a = start_on a.current a

  abbrev note_write : Bool → M S (Unit {0})
  note_write allow_unconfirmed a = note_write_on a.current allow_unconfirmed a

  -- `#onWrite`.
  abbrev pub on_write : Bool → M S (Unit {0})
  on_write allow_unconfirmed = do require_not_broken; start_implicit; note_write allow_unconfirmed

  -- A write statement, which `SqliteDatabase` announces before it runs.
  abbrev pub run_write : (C → C) → Bool → M S (Unit {0})
  run_write f allow_unconfirmed = do on_write allow_unconfirmed; run (write f)

  abbrev refuse_critical : M S (Unit {0})
  refuse_critical a = refuse (e.critical a.db) critical_error a

  abbrev pub complete : ℕ → M S Bool → M S (Unit {0})
  complete depth callback = do
    is_thenable ← callback
    refuse is_thenable promise_returned
    refuse_critical
    run (release (sync_savepoint depth))

  abbrev pub undo : ℕ → M S (Unit {0})
  undo depth = do run (rollback_to (sync_savepoint depth)); run (release (sync_savepoint depth))

  abbrev pub roll_back_failure :
      ℕ → Result Failure (Unit {0}) × Actor S → Result Failure (Unit {0}) × Actor S
  roll_back_failure depth (ok _, a) = (ok tt, a)
  roll_back_failure depth (err x, a) =
      if e.critical a.db then (err x, a) else rethrow x (undo depth a)

  abbrev pub guarded : ℕ → M S Bool → M S (Unit {0})
  guarded depth callback a = roll_back_failure depth (complete depth callback a)

  abbrev pub in_savepoint : ℕ → M S Bool → M S (Unit {0})
  in_savepoint depth callback = do run (savepoint (sync_savepoint depth)); guarded depth callback

  abbrev pub deeper : M S Bool → M S (Unit {0})
  deeper callback a =
      lower_depth (in_savepoint a.sync_depth callback (record a { sync_depth = suc a.sync_depth }))

  -- `transactionSync`; the callback tells whether it returned a promise.
  abbrev pub transaction_sync : M S Bool → M S (Unit {0})
  transaction_sync callback = do on_write false; deeper callback
