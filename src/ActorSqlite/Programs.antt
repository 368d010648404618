-- ===== src/ActorSqlite/Programs.antt =====
-- src/io/actor-sqlite.ts: turns, explicit transactions and `transactionSync`, against snapshots.
pub mod Nested
pub mod Roots
use do_runtime.Common.{Bool, true, false, List, [], ◌∷◌, Result, ok, err, if◌then◌else◌}
use do_runtime.ActorSqlite.Sqlite.{Engine}
use do_runtime.ActorSqlite.{Failure, Actor, M, return, ◌>>=◌, ◌>>◌}
use do_runtime.ActorSqlite.Transactions.{start_transaction, commit, rollback, drop, commit_turn}
use do_runtime.ActorSqlite.Sync.{Work, exec, perform}

-- What an actor does: work without an await, an explicit transaction that is committed or rolled
-- back, and the end of a turn.
pub data Program (C : Type 0) : Type 0 where
  finish : Program C
  works : Work C → Program C → Program C
  transaction : Program C → Bool → Program C → Program C
  next_turn : Program C → Program C

-- The reference for the content, ...
unfoldable pub content_after : {C : Type 0} → Program C → C → C
content_after finish c = c
content_after (works w rest) c = content_after rest (exec w c).1
content_after (transaction body commits rest) c =
    content_after rest (if commits then content_after body c else c)
content_after (next_turn rest) c = content_after rest c

-- ... and for what a crash leaves, at the top: the content at the end of the last turn or
-- transaction.
unfoldable pub durable_after : {C : Type 0} → Program C → C → C → C
unfolding content_after
durable_after finish c d = d
durable_after (works w rest) c d = durable_after rest (exec w c).1 d
durable_after (transaction body commits rest) c d =
    let c' = if commits then content_after body c else c in durable_after rest c' c'
durable_after (next_turn rest) c d = durable_after rest c c

module _ {S C : Type 0} (e : Engine S C) (fails : S → Bool) where
  -- What the work throws is caught.
  abbrev pub caught : Result Failure Bool × Actor S → Result Failure (Unit {0}) × Actor S
  caught (r, a) = (ok tt, a)

  abbrev pub try_work : M S Bool → M S (Unit {0})
  try_work m a = caught (m a)

  abbrev pub close : Bool → M S (Unit {0})
  close true = commit e fails
  close false = rollback e fails

  abbrev pub end_turn : M S (Unit {0})
  end_turn a = (ok tt, commit_turn e fails a)

  unfoldable pub run_program : Program C → M S (Unit {0})
  run_program finish = return tt
  run_program (works w rest) = do try_work (perform e w); run_program rest
  run_program (transaction body commits rest) = do
    start_transaction e fails
    run_program body
    close commits
    drop e fails
    run_program rest
  run_program (next_turn rest) = do end_turn; run_program rest
