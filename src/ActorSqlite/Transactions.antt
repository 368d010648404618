-- ===== src/ActorSqlite/Transactions.antt =====
-- src/io/actor-sqlite.ts: `ExplicitTxn`, the end of a turn, and what `deleteAll` does to an open
-- transaction.
use do_runtime.Common.{
  suc, Bool, true, false, List, [], ◌∷◌, ◌&&◌, not, is_some, Result, ok, err, if◌then◌else◌,
}
use do_runtime.ActorSqlite.Sqlite.{
  explicit_savepoint, commit_transaction, rollback_transaction, savepoint, release, rollback_to,
  Engine,
}
use do_runtime.ActorSqlite.{
  Failure, child_is_open, delete_all_in_transaction, dropped_out_of_order, scheduling_failed,
  Explicit, CurrentTxn, no_txn, implicit, explicit, Actor, M, return, throw, ◌>>◌, set_current,
  refuse, require_not_broken, rethrow, committed_on, reset_flags, left, dropped_implicit,
  guard_commit, run,
}

abbrev pub root : Explicit
root = record {
  depth = 0;
  has_child = false;
  committed = false;
  dropped = false;
  alarm_dirty = false;
  some_write_confirmed = false;
}

abbrev pub child_of : Explicit → Explicit
child_of t = record root {
  depth = suc t.depth;
  alarm_dirty = t.alarm_dirty;
  some_write_confirmed = t.some_write_confirmed;
}

-- `fails` tells whether the request to the scheduler throws at once.
module _ {S C : Type 0} (e : Engine S C) (fails : S → Bool) where
  abbrev pub opened : Explicit → List Explicit → M S (Unit {0})
  opened t outer = do set_current (explicit t outer); run e (savepoint (explicit_savepoint t.depth))

  abbrev commit_early : Bool → M S (Unit {0})
  commit_early true = return tt
  commit_early false = run e commit_transaction

  abbrev pub start_on : CurrentTxn → M S (Unit {0})
  start_on no_txn = opened root []
  start_on (implicit t) = do commit_early t.committed; opened root []
  start_on (explicit t outer) = do
    refuse t.has_child child_is_open
    opened (child_of t) (record t { has_child = true } ∷ outer)

  -- `startTransaction`, and `new ExplicitTxn`.
  abbrev pub start_transaction : M S (Unit {0})
  start_transaction = do require_not_broken; λ a. start_on a.current a

  -- A root transaction asks the scheduler first.
  abbrev precommit : List Explicit → M S (Unit {0})
  precommit [] a = refuse (fails a.db) scheduling_failed a
  precommit (p ∷ ps) a = return tt a

  abbrev pub commit_on : CurrentTxn → M S (Unit {0})
  commit_on (explicit t outer) = do
    require_not_broken
    refuse t.has_child child_is_open
    precommit outer
    run e (release (explicit_savepoint t.depth))
    committed_on t outer
  commit_on _ = throw dropped_out_of_order

  -- `commit` of the innermost transaction, ...
  abbrev pub commit : M S (Unit {0})
  commit a = commit_on a.current a

  -- `#rollbackImpl`, ...
  abbrev pub roll_back : Explicit → List Explicit → M S (Unit {0})
  roll_back t outer = do
    run e (rollback_to (explicit_savepoint t.depth))
    run e (release (explicit_savepoint t.depth))
    set_current (explicit (reset_flags t outer) outer)

  abbrev rollback_new : Bool → Explicit → List Explicit → M S (Unit {0})
  rollback_new true t outer = return tt
  rollback_new false t outer = do
    roll_back t outer
    set_current (explicit (record (reset_flags t outer) { committed = true }) outer)

  abbrev pub rollback_on : CurrentTxn → M S (Unit {0})
  rollback_on (explicit t outer) = do
    require_not_broken
    refuse t.has_child child_is_open
    rollback_new t.committed t outer
  rollback_on _ = throw dropped_out_of_order

  -- ... `rollback`, ...
  abbrev pub rollback : M S (Unit {0})
  rollback a = rollback_on a.current a

  abbrev roll_back_open : Bool → Explicit → List Explicit → M S (Unit {0})
  roll_back_open true t outer = roll_back t outer
  roll_back_open false t outer = return tt

  abbrev drop_new : Bool → Explicit → List Explicit → M S (Unit {0})
  drop_new true t outer a = (ok tt, a)
  drop_new false t outer a = left t.has_child outer (
      roll_back_open (not t.committed && not (is_some a.broken)) t outer
        (record a { current = explicit (record t { dropped = true }) outer }))

  abbrev pub drop_on : CurrentTxn → M S (Unit {0})
  drop_on (explicit t outer) = drop_new t.dropped t outer
  drop_on _ = return tt

  -- ... and `drop`.
  abbrev pub drop : M S (Unit {0})
  drop a = drop_on a.current a

  -- `ImplicitTxn.drop`, when it is not committed.
  abbrev pub drop_implicit : Bool → M S (Unit {0})
  drop_implicit true a = (ok tt, record a { current = dropped_implicit a.current })
  drop_implicit false a =
      if is_some a.broken
      then (ok tt, record a { current = dropped_implicit a.current })
      else run e rollback_transaction (record a { current = dropped_implicit a.current })

  abbrev pub turn_failed : Failure → Actor S → Result Failure (Unit {0}) × Actor S
  turn_failed x a = rethrow x (drop_implicit false a)

  abbrev pub turn_ended : Result Failure (Unit {0}) × Actor S → Result Failure (Unit {0}) × Actor S
  turn_ended (ok _, a) = drop_implicit true a
  turn_ended (err x, a) = turn_failed x a

  abbrev pub commit_work : M S (Unit {0})
  commit_work = do
    require_not_broken
    λ a. refuse (fails a.db) scheduling_failed a
    run e commit_transaction

  abbrev pub turn_on : CurrentTxn → Actor S → Actor S
  turn_on (implicit t) a = guard_commit (turn_ended (commit_work a))
  turn_on _ a = a

  -- The function that `#startImplicitTxn` runs at the end of the turn, up to `commitImpl`.
  abbrev pub commit_turn : Actor S → Actor S
  commit_turn a = turn_on a.current a

  abbrev pub close_on : CurrentTxn → M S (Unit {0})
  close_on no_txn = return tt
  close_on (implicit t) = do run e rollback_transaction; set_current no_txn
  close_on (explicit t outer) = throw delete_all_in_transaction

  -- `deleteAll` closes a transaction, or fails.
  abbrev pub close_for_delete_all : M S (Unit {0})
  close_for_delete_all = do require_not_broken; λ a. close_on a.current a
