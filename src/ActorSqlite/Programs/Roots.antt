-- ===== src/ActorSqlite/Programs/Roots.antt =====
-- src/io/actor-sqlite.ts: turns and root transactions, and what a crash leaves.
pub mod Steps
use do_runtime.Common.{
  ℕ, suc, ◌≡◌, refl, ap, ◌∙◌, Bool, true, false, Option, none, some, [], ◌∷◌, Result, ok,
  if◌then◌else◌, arith,
}
use do_runtime.ActorSqlite.Sqlite.{
  Statement, explicit_savepoint, Mark, View, sqlite_step, savepoint, begin_transaction,
  commit_transaction, release, rollback_to, write, Engine,
}
use do_runtime.ActorSqlite.{
  Failure, Implicit, CurrentTxn, no_txn, implicit, explicit, Actor, M, ◌>>◌, continue, run,
  on_write, deeper,
}
use do_runtime.ActorSqlite.Transactions.{start_transaction, drop}
use do_runtime.ActorSqlite.Statements.{view_of, shape, live, run_lem}
use do_runtime.ActorSqlite.Sync.{
  Work, done, promises, throws, writes, syncs, attempt_on, perform, exec,
}
use do_runtime.ActorSqlite.Sync.Snapshots.{perform-IsCallback}
use do_runtime.ActorSqlite.Programs.{
  Program, finish, works, transaction, next_turn, content_after, durable_after, try_work, close,
  end_turn, run_program, caught,
}
use do_runtime.ActorSqlite.Programs.Nested.{txn, next_lem, inside_lem}
use do_runtime.ActorSqlite.Programs.Roots.Steps.{
  top, IsTopView, IsAtTop, works_lem, turn_lem, mark, start_lem, close_lem,
}

module _ {S C : Type 0} (e : Engine S C) (view : S → View C)
    (runs : (st : Statement C) (s : S) (v : View C)
      → sqlite_step st (view s) ≡ some v
      → (s' : S) × ((e.run st s ≡ (true, s')) × (view s' ≡ v)))
    (never_critical : (s : S) → e.critical s ≡ false) (fails : S → Bool)
    (never_fails : (s : S) → fails s ≡ false) (gb : Bool) (d : ℕ) where
  transaction_lem :
      (body : Program C) (commits : Bool) (t : Option Bool) (db : S) (n : ℕ) (hd : Bool) (c old : C)
      (rest : M S (Unit {0}))
      → IsTopView t c old (view db)
      → let c' = if commits then content_after body c else c in
        (db' : S) × ((n' : ℕ) × ((hd' : Bool) × ((t' : Option Bool) × (((start_transaction e fails
                      >> (run_program e fails body
                          >> (close e fails commits >> (drop e fails >> rest))))
                    (live gb hd db n (top t) d)
                  ≡ rest (live gb hd' db' n' (top t') d))
                × IsTopView t' c' c' (view db')))))
  transaction_lem body commits t db n hd c old rest v =
      let (db1, (started, v1)) =
        start_lem e view runs never_critical fails never_fails gb d t db n hd c old v in
      let (db2, (n2, (al2, (cf2, (inner, v2))))) =
        inside_lem e view runs never_critical fails gb hd c d body db1 n 0 false false [] c
          (mark e view runs never_critical fails never_fails gb d c) [] v1 in
      let (db3, (n3, (hd3, (t3, (closes, v3))))) =
        close_lem e view runs never_critical fails never_fails gb d commits db2 n2 hd al2 cf2 c
          (content_after body c) v2 in
      (
        db3,
        (
          n3,
          (
            hd3,
            (
              t3,
              (
                ap
                      (λ x. continue x (λ _.
                        run_program e fails body
                        >> (close e fails commits >> (drop e fails >> rest))))
                      started
                    ∙ next_lem (close e fails commits) (drop e fails) rest
                        (run_program e fails body
                          (live gb hd db1 n (explicit (txn 0 false false) []) d))
                        (live gb hd db2 n2 (explicit (txn 0 al2 cf2) []) d)
                        (live gb hd3 db3 n3 (top t3) d) inner closes,
                v3,
              ),
            ),
          ),
        ),
      )

  -- A program of work, turns and explicit transactions, nested to any depth, started at the top of
  -- an actor that is not broken, returns at the top, with a database whose content and whose durable
  -- content are those of the reference: a call of `transactionSync` that fails and a transaction
  -- that is rolled back leave the content as it was, and what a crash leaves changes only at the
  -- end of a turn and with a root transaction. The conditions: the engine runs statements as SQLite
  -- documents, without critical errors, and requests to the scheduler do not throw at once.
  pub run_program-IsAtTop :
      (p : Program C) (t : Option Bool) (db : S) (n : ℕ) (hd : Bool) (c old : C)
      → IsTopView t c old (view db)
      → IsAtTop e view runs never_critical fails never_fails gb d
          (run_program e fails p (live gb hd db n (top t) d))
          (content_after p c)
          (durable_after p c old)
  unfolding run_program content_after durable_after
  run_program-IsAtTop finish t db n hd c old v = (db, (n, (hd, (t, (refl, v)))))
  run_program-IsAtTop (works w rest) t db n hd c old v =
      let (db1, (n1, (hd1, (t1, (ran, v1))))) =
        works_lem e view runs never_critical fails never_fails gb d w t db n hd c old v in
      let (db2, (n2, (hd2, (t2, (goes, v2))))) =
        run_program-IsAtTop rest t1 db1 n1 hd1 (exec w c).1 old v1 in
      (
        db2,
        (n2, (hd2, (t2, (ap (λ x. continue x (λ _. run_program e fails rest)) ran ∙ goes, v2)))),
      )
  run_program-IsAtTop (next_turn rest) t db n hd c old v =
      let (db1, (n1, (hd1, (t1, (ran, v1))))) =
        turn_lem e view runs never_critical fails never_fails gb d t db n hd c old v in
      let (db2, (n2, (hd2, (t2, (goes, v2))))) = run_program-IsAtTop rest t1 db1 n1 hd1 c c v1 in
      (
        db2,
        (n2, (hd2, (t2, (ap (λ x. continue x (λ _. run_program e fails rest)) ran ∙ goes, v2)))),
      )
  run_program-IsAtTop (transaction body commits rest) t db n hd c old v =
      let c' = if commits then content_after body c else c in
      let (db1, (n1, (hd1, (t1, (ran, v1))))) =
        transaction_lem body commits t db n hd c old (run_program e fails rest) v in
      let (db2, (n2, (hd2, (t2, (goes, v2))))) = run_program-IsAtTop rest t1 db1 n1 hd1 c' c' v1 in
      (db2, (n2, (hd2, (t2, (ran ∙ goes, v2)))))
