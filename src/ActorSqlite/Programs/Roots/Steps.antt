-- ===== src/ActorSqlite/Programs/Roots/Steps.antt =====
-- src/io/actor-sqlite.ts: work at the top, the end of a turn, and the ends of a root transaction.
use do_runtime.Common.{
  ℕ, suc, ◌≡◌, refl, ap, ◌∙◌, Bool, true, false, Option, none, some, [], ◌∷◌, Result, ok,
  if◌then◌else◌, arith,
}
use do_runtime.ActorSqlite.Sqlite.{
  Statement, explicit_savepoint, Mark, View, sqlite_step, savepoint, begin_transaction,
  commit_transaction, release, rollback_to, write, Engine,
}
use do_runtime.ActorSqlite.{
  Failure, Implicit, CurrentTxn, no_txn, implicit, explicit, Actor, continue, run, on_write, deeper,
}
use do_runtime.ActorSqlite.Transactions.{start_transaction, drop}
use do_runtime.ActorSqlite.Statements.{view_of, shape, live, run_lem}
use do_runtime.ActorSqlite.Sync.{
  Work, done, promises, throws, writes, syncs, attempt_on, perform, exec,
}
use do_runtime.ActorSqlite.Sync.Snapshots.{perform-IsCallback}
use do_runtime.ActorSqlite.Programs.{try_work, close, end_turn, caught}
use do_runtime.ActorSqlite.Programs.Nested.{txn}

-- No transaction is open, or an implicit one, with the note of a write that is confirmed.
abbrev pub implicit_of : Bool → CurrentTxn
implicit_of confirmed = implicit (record { committed = false; some_write_confirmed = confirmed })

abbrev pub top : Option Bool → CurrentTxn
top none = no_txn
top (some confirmed) = implicit_of confirmed

-- What the database has then. Without a transaction all of it is durable.
abbrev pub IsTopView : {C : Type 0} → Option Bool → C → C → View C → Type 0
IsTopView none c d v = (v ≡ view_of c c false []) × (c ≡ d)
IsTopView (some confirmed) c d v = v ≡ view_of c d true []

abbrev is_implicit : CurrentTxn → Bool
is_implicit (implicit t) = true
is_implicit _ = false

abbrev implicit_in : CurrentTxn → Implicit → Implicit
implicit_in (implicit t) u = t
implicit_in _ u = u

abbrev confirmed_as : Bool → Implicit → Implicit
confirmed_as b t = record t { some_write_confirmed = b }

shape-implicit :
    (cur : CurrentTxn) (cf : Bool)
    → shape cur ≡ shape (implicit_of cf)
    → (cf' : Bool) × (cur ≡ implicit_of cf')
shape-implicit no_txn cf s = let impossible = ap is_implicit s in absurd (ground arith)
shape-implicit (explicit t outer) cf s = let impossible = ap is_implicit s in absurd (ground arith)
shape-implicit (implicit t) cf s = (
  t.some_write_confirmed,
  ap implicit (ap (confirmed_as t.some_write_confirmed) (ap (λ c. implicit_in c t) s)),
)

module _ {S C : Type 0} (e : Engine S C) (view : S → View C)
    (runs : (st : Statement C) (s : S) (v : View C)
      → sqlite_step st (view s) ≡ some v
      → (s' : S) × ((e.run st s ≡ (true, s')) × (view s' ≡ v)))
    (never_critical : (s : S) → e.critical s ≡ false) (fails : S → Bool)
    (never_fails : (s : S) → fails s ≡ false) (gb : Bool) (d : ℕ) where
  -- A step at the top has returned.
  abbrev pub IsAtTop : Result Failure (Unit {0}) × Actor S → C → C → Type 0
  IsAtTop x c old =
      (db : S) × ((n : ℕ) × ((hd : Bool) × ((t : Option Bool) × ((x
                ≡ (ok tt, live gb hd db n (top t) d))
              × IsTopView t c old (view db)))))

  -- Work in an implicit transaction, ...
  implicit_lem :
      (w : Work C) (db : S) (n : ℕ) (hd cf : Bool) (c old : C)
      → view db ≡ view_of c old true []
      → IsAtTop
          (try_work e fails (perform e w) (live gb hd db n (implicit_of cf) d))
          (exec w c).1
          old
  implicit_lem w db n hd cf c old v =
      let (r, (_, (db', (n', (cur', (ran, (v', s))))))) =
        perform-IsCallback e view runs never_critical gb hd old true w db n (implicit_of cf) d c []
          refl refl v in
      let (cf', same) = shape-implicit cur' cf s in
      (
        db',
        (
          n',
          (
            hd,
            (
              some cf',
              (ap (caught e fails) ran ∙ ap (λ x. (ok tt, live gb hd db' n' x d)) same, v'),
            ),
          ),
        ),
      )

  -- ... which the first write starts.
  begin_lem :
      (u : Bool) (db : S) (n : ℕ) (hd : Bool) (c : C)
      → view db ≡ view_of c c false []
      → (db' : S) × ((on_write e u (live gb hd db n no_txn d)
            ≡ on_write e u (live gb hd db' n (implicit_of false) d))
          × (view db' ≡ view_of c c true []))
  begin_lem u db n hd c v =
      let (db', (ran, v')) =
        run_lem e view runs begin_transaction (live gb hd db n no_txn d) (view_of c c true [])
          (ap (sqlite_step begin_transaction) v) in
      (db', (rw (ran), v'))

  pub works_lem :
      (w : Work C) (t : Option Bool) (db : S) (n : ℕ) (hd : Bool) (c old : C)
      → IsTopView t c old (view db)
      → IsAtTop (try_work e fails (perform e w) (live gb hd db n (top t) d)) (exec w c).1 old
  unfolding perform exec
  works_lem w (some cf) db n hd c old v = implicit_lem w db n hd cf c old v
  works_lem done none db n hd c old v = (db, (n, (hd, (none, (refl, v)))))
  works_lem promises none db n hd c old v = (db, (n, (hd, (none, (refl, v)))))
  works_lem throws none db n hd c old v = (db, (n, (hd, (none, (refl, v)))))
  works_lem (writes f u rest) none db n hd c old (v, l) =
      let (db0, (started, v0)) = begin_lem u db n hd c v in
      let (db', (n', (hd', (t', (ran, v'))))) =
        implicit_lem (writes f u rest) db0 n hd false c old
          (v0 ∙ ap (λ x. view_of c x true []) l) in
      (
        db',
        (
          n',
          (
            hd',
            (
              t',
              (
                ap
                      (λ x.
                        caught e fails
                          (continue (continue x (λ _. run e (write f))) (λ _. perform e rest)))
                      started
                    ∙ ran,
                v',
              ),
            ),
          ),
        ),
      )
  works_lem (syncs body cought rest) none db n hd c old (v, l) =
      let (db0, (started, v0)) = begin_lem false db n hd c v in
      let (db', (n', (hd', (t', (ran, v'))))) =
        implicit_lem (syncs body cought rest) db0 n hd false c old
          (v0 ∙ ap (λ x. view_of c x true []) l) in
      (
        db',
        (
          n',
          (
            hd',
            (
              t',
              (
                ap
                      (λ x. caught e fails (
                        continue (attempt_on e cought (continue x (λ _. deeper e (perform e body))))
                          (λ _. perform e rest)))
                      started
                    ∙ ran,
                v',
              ),
            ),
          ),
        ),
      )

  -- The end of a turn commits.
  pub turn_lem :
      (t : Option Bool) (db : S) (n : ℕ) (hd : Bool) (c old : C)
      → IsTopView t c old (view db)
      → IsAtTop (end_turn e fails (live gb hd db n (top t) d)) c c
  turn_lem none db n hd c old (v, l) = (db, (n, (hd, (none, (refl, (v, refl))))))
  turn_lem (some cf) db n hd c old v =
      let (db', (ran, v')) =
        run_lem e view runs commit_transaction (live gb hd db n (implicit_of cf) d)
          (view_of c c false []) (ap (sqlite_step commit_transaction) v) in
      (db', (n, (hd, (none, (rw (never_fails db, ran), (v', refl))))))

  -- A root transaction opens, ...
  abbrev pub mark : C → Mark C
  mark c = record { name = explicit_savepoint 0; saved = c }

  open_lem :
      (db : S) (n : ℕ) (hd : Bool) (c : C)
      → view db ≡ view_of c c false []
      → (db' : S) × ((run e
              (savepoint (explicit_savepoint 0))
              (live gb hd db n (explicit (txn 0 false false) []) d)
            ≡ (ok tt, live gb hd db' n (explicit (txn 0 false false) []) d))
          × (view db' ≡ view_of c c false (mark c ∷ [])))
  open_lem db n hd c v =
      run_lem e view runs (savepoint (explicit_savepoint 0))
        (live gb hd db n (explicit (txn 0 false false) []) d) (view_of c c false (mark c ∷ []))
        (ap (sqlite_step (savepoint (explicit_savepoint 0))) v)

  pub start_lem :
      (t : Option Bool) (db : S) (n : ℕ) (hd : Bool) (c old : C)
      → IsTopView t c old (view db)
      → (db' : S) × ((start_transaction e fails (live gb hd db n (top t) d)
            ≡ (ok tt, live gb hd db' n (explicit (txn 0 false false) []) d))
          × (view db' ≡ view_of c c false (mark c ∷ [])))
  start_lem none db n hd c old (v, l) = open_lem db n hd c v
  start_lem (some cf) db n hd c old v =
      let (db1, (ran, v1)) =
        run_lem e view runs commit_transaction (live gb hd db n (implicit_of cf) d)
          (view_of c c false []) (ap (sqlite_step commit_transaction) v) in
      let (db2, (opens, v2)) = open_lem db1 n hd c v1 in (db2, (rw (ran) opens, v2))

  -- ... and closes.
  pub close_lem :
      (commits : Bool) (db : S) (n : ℕ) (hd al cf : Bool) (c c' : C)
      → view db ≡ view_of c' c false (mark c ∷ [])
      → IsAtTop
          (continue
            (close e fails commits (live gb hd db n (explicit (txn 0 al cf) []) d))
            (λ _. drop e fails))
          (if commits then c' else c)
          (if commits then c' else c)
  close_lem true db n hd al cf c c' v =
      let (s, (ran, w)) =
        run_lem e view runs (release (explicit_savepoint 0))
          (live gb hd db n (explicit (txn 0 al cf) []) d) (view_of c' c' false [])
          (ap (sqlite_step (release (explicit_savepoint 0))) v) in
      (
        s,
        (
          if cf then suc n else n,
          (if al then false else hd, (none, (rw (never_fails db, ran), (w, refl)))),
        ),
      )
  close_lem false db n hd al cf c c' v =
      let (s, (ran, w)) =
        run_lem e view runs (rollback_to (explicit_savepoint 0))
          (live gb hd db n (explicit (txn 0 al cf) []) d) (view_of c c false (mark c ∷ []))
          (ap (sqlite_step (rollback_to (explicit_savepoint 0))) v) in
      let (s', (ran', w')) =
        run_lem e view runs (release (explicit_savepoint 0))
          (live gb hd s n (explicit (txn 0 al cf) []) d) (view_of c c false [])
          (ap (sqlite_step (release (explicit_savepoint 0))) w) in
      (s', (n, (hd, (none, (rw (ran, ran'), (w', refl))))))
