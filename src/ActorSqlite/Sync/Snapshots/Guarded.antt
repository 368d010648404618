-- ===== src/ActorSqlite/Sync/Snapshots/Guarded.antt =====
-- src/io/actor-sqlite.ts: the savepoint of transactionSync, and what guards it.
use do_runtime.Common.{
  ℕ, ◌≡◌, refl, ap, Bool, true, false, some, List, ◌∷◌, nat_beq, nat_beq_iff, Result, ok, err,
}
use do_runtime.ActorSqlite.Sqlite.{
  Statement, sync_savepoint, Mark, View, is_closed, sqlite_step, release, rollback_to, Engine,
}
use do_runtime.ActorSqlite.{
  Failure, promise_returned, CurrentTxn, Actor, M, roll_back_failure, guarded,
}
use do_runtime.ActorSqlite.Statements.{view_of, shape, commit_if_closed-open, live, run_lem}
use do_runtime.ActorSqlite.Sync.{Ending, returned, ending_of}

pub closed_cons :
    {C : Type 0} (b : Bool) (k : Mark C) (ms : List (Mark C)) → is_closed b (k ∷ ms) ≡ false
closed_cons true k ms = refl
closed_cons false k ms = refl

same_depth : (d : ℕ) → nat_beq d d ≡ true
same_depth d = (nat_beq_iff d d).1 refl

-- Whether a call of `transactionSync` returns, and the content behind it.
abbrev pub sync_result : {C : Type 0} → Ending × C → C → Bool × C
sync_result (returned, c') c = (true, c')
sync_result (_, c') c = (false, c)

abbrev pub is_ok : {A : Type 0} → Result Failure A → Bool
is_ok (ok _) = true
is_ok (err _) = false

module _ {S C : Type 0} (e : Engine S C) (view : S → View C)
    (runs : (st : Statement C) (s : S) (v : View C)
      → sqlite_step st (view s) ≡ some v
      → (s' : S) × ((e.run st s ≡ (true, s')) × (view s' ≡ v)))
    (never_critical : (s : S) → e.critical s ≡ false) (gb hd : Bool) (old : C) (b : Bool) where
  -- The actor has done something, with this result, content and savepoints.
  abbrev pub IsDone :
      {A : Type 0}
      → CurrentTxn
      → ℕ
      → List (Mark C)
      → Result Failure A × Actor S
      → Result Failure A
      → C
      → Type 0
  IsDone cur d ms x r c =
      (db' : S) × ((n' : ℕ) × ((cur' : CurrentTxn) × ((x ≡ (r, live gb hd db' n' cur' d))
            × ((view db' ≡ view_of c old b ms) × (shape cur' ≡ shape cur)))))

  abbrev pub mark : ℕ → C → Mark C
  mark d c = record { name = sync_savepoint d; saved = c }

  release_legal :
      (d : ℕ) (c c' : C) (ms : List (Mark C)) (db : S)
      → is_closed b ms ≡ false
      → view db ≡ view_of c' old b (mark d c ∷ ms)
      → sqlite_step (release (sync_savepoint d)) (view db) ≡ some (view_of c' old b ms)
  release_legal d c c' ms db h v =
      rw (v, same_depth d) (ap some (commit_if_closed-open c' old b ms (mark d c ∷ ms) h))

  rollback_legal :
      (d : ℕ) (c c' : C) (ms : List (Mark C)) (db : S)
      → view db ≡ view_of c' old b (mark d c ∷ ms)
      → sqlite_step (rollback_to (sync_savepoint d)) (view db)
        ≡ some (view_of c old b (mark d c ∷ ms))
  rollback_legal d c c' ms db v = rw (v, same_depth d)

  -- A failure within a savepoint.
  undo_lem :
      (x : Failure) (d k : ℕ) (c c' : C) (ms : List (Mark C)) (db : S) (n : ℕ) (cur : CurrentTxn)
      → is_closed b ms ≡ false
      → view db ≡ view_of c' old b (mark d c ∷ ms)
      → IsDone cur k ms (roll_back_failure e d (err x, live gb hd db n cur k)) (err x) c
  undo_lem x d k c c' ms db n cur h v =
      let (s, (ran, w)) =
        run_lem e view runs (rollback_to (sync_savepoint d)) (live gb hd db n cur k)
          (view_of c old b (mark d c ∷ ms)) (rollback_legal d c c' ms db v) in
      let (s', (ran', w')) =
        run_lem e view runs (release (sync_savepoint d)) (live gb hd s n cur k) (view_of c old b ms)
          (release_legal d c c ms s h w) in
      (s', (n, (cur, (rw (never_critical db, ran, ran'), (w', refl)))))

  -- The callback has ended with `r`.
  pub guarded_lem :
      (r : Result Failure Bool) (callback : M S Bool) (a : Actor S) (d k : ℕ) (c c' : C)
      (ms : List (Mark C)) (db : S) (n : ℕ) (cur : CurrentTxn)
      → callback a ≡ (r, live gb hd db n cur k)
      → is_closed b ms ≡ false
      → view db ≡ view_of c' old b (mark d c ∷ ms)
      → (r' : Result Failure (Unit {0})) × ((is_ok r' ≡ (sync_result (ending_of r, c') c).0)
          × IsDone cur k ms (guarded e d callback a) r' (sync_result (ending_of r, c') c).1)
  guarded_lem (ok false) callback a d k c c' ms db n cur q h v =
      let (s, (ran, w)) =
        run_lem e view runs (release (sync_savepoint d)) (live gb hd db n cur k)
          (view_of c' old b ms) (release_legal d c c' ms db h v) in
      (ok tt, (refl, (s, (n, (cur, (rw (q, never_critical db, ran), (w, refl)))))))
  guarded_lem (ok true) callback a d k c c' ms db n cur q h v =
      let (s, (n', (cur', (ran, w)))) = undo_lem promise_returned d k c c' ms db n cur h v in
      (err promise_returned, (refl, (s, (n', (cur', (rw (q) ran, w))))))
  guarded_lem (err x) callback a d k c c' ms db n cur q h v =
      let (s, (n', (cur', (ran, w)))) = undo_lem x d k c c' ms db n cur h v in
      (err x, (refl, (s, (n', (cur', (rw (q) ran, w))))))
