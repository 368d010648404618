-- ===== src/ActorSqlite/Sync/Snapshots.antt =====
-- src/io/actor-sqlite.ts: the savepoints of `transactionSync` implement the snapshots.
pub mod Guarded
use do_runtime.Common.{
  ℕ, suc, ◌-◌, ◌≡◌, refl, sym, ap, ◌∙◌, Bool, true, false, some, List, ◌∷◌, nat_beq, nat_beq_iff,
  Result, ok, err, arith,
}
use do_runtime.ActorSqlite.Sqlite.{
  Statement, sync_savepoint, Mark, View, is_closed, sqlite_step, savepoint, release, rollback_to,
  Engine,
}
use do_runtime.ActorSqlite.{
  Failure, user_error, promise_returned, CurrentTxn, Actor, M, run, on_write, transaction_sync,
  roll_back_failure, guarded, lower_depth, deeper, continue,
}
use do_runtime.ActorSqlite.Statements.{
  view_of, is_open, shape, open-shape, commit_if_closed-open, live, run_lem, note_lem, write_lem,
}
use do_runtime.ActorSqlite.Sync.{
  Work, done, promises, throws, writes, syncs, Ending, returned, promised, threw, after_sync, exec,
  ending_of, attempt_on, perform,
}
use do_runtime.ActorSqlite.Sync.Snapshots.Guarded.{
  closed_cons, sync_result, is_ok, IsDone, mark, guarded_lem,
}

module _ {S C : Type 0} (e : Engine S C) (view : S → View C)
    (runs : (st : Statement C) (s : S) (v : View C)
      → sqlite_step st (view s) ≡ some v
      → (s' : S) × ((e.run st s ≡ (true, s')) × (view s' ≡ v)))
    (never_critical : (s : S) → e.critical s ≡ false) (gb hd : Bool) (old : C) (b : Bool) where
  -- What a callback does to any actor with an open transaction.
  abbrev pub IsCallback : M S Bool → (C → Ending × C) → Type 0
  IsCallback callback f =
      (db : S) (n : ℕ) (cur : CurrentTxn) (d : ℕ) (c : C) (ms : List (Mark C))
      → is_open cur ≡ true
      → is_closed b ms ≡ false
      → view db ≡ view_of c old b ms
      → (r : Result Failure Bool) × ((ending_of r ≡ (f c).0)
          × IsDone e view runs never_critical gb hd old b cur d ms
              (callback (live gb hd db n cur d)) r (f c).1)

  depth_lem : (d : ℕ) → suc d - 1 ≡ d
  depth_lem d = omega arith

  joined :
      (callback : M S Bool) (db db1 db2 : S) (n n1 n2 : ℕ) (cur cur1 cur2 : CurrentTxn) (d : ℕ)
      (r : Result Failure (Unit {0}))
      → on_write e false (live gb hd db n cur d) ≡ (ok tt, live gb hd db n1 cur1 d)
      → run e (savepoint (sync_savepoint d)) (live gb hd db n1 cur1 (suc d))
        ≡ (ok tt, live gb hd db1 n1 cur1 (suc d))
      → guarded e d callback (live gb hd db1 n1 cur1 (suc d)) ≡ (r, live gb hd db2 n2 cur2 (suc d))
      → transaction_sync e callback (live gb hd db n cur d) ≡ (r, live gb hd db2 n2 cur2 d)
  joined callback db db1 db2 n n1 n2 cur cur1 cur2 d r noted marked guards =
      ap (λ x. continue x (λ _. deeper e callback)) noted
      ∙ ap (λ x. lower_depth (continue x (λ _. guarded e d callback))) marked
      ∙ ap lower_depth guards
      ∙ ap (λ k. (r, live gb hd db2 n2 cur2 k)) (depth_lem d)

  -- `transactionSync` of such a callback.
  sync_lem :
      (callback : M S Bool) (f : C → Ending × C)
      → IsCallback callback f
      → (db : S) (n : ℕ) (cur : CurrentTxn) (d : ℕ) (c : C) (ms : List (Mark C))
      → is_open cur ≡ true
      → is_closed b ms ≡ false
      → view db ≡ view_of c old b ms
      → (r : Result Failure (Unit {0})) × ((is_ok r ≡ (sync_result (f c) c).0)
          × IsDone e view runs never_critical gb hd old b cur d ms
              (transaction_sync e callback (live gb hd db n cur d))
              r
              (sync_result (f c) c).1)
  sync_lem callback f good db n cur d c ms o h v =
      let (n1, (cur1, (noted, s1))) = note_lem e view runs gb hd db n cur d false o in
      let o1 : is_open cur1 ≡ true = open-shape cur1 ∙ ap is_open s1 ∙ sym (open-shape cur) ∙ o in
      let (db1, (marked, v1)) =
        run_lem e view runs (savepoint (sync_savepoint d)) (live gb hd db n1 cur1 (suc d))
          (view_of c old b (mark e view runs never_critical gb hd old b d c ∷ ms))
          (ap (sqlite_step (savepoint (sync_savepoint d))) v) in
      let (r2, (same, (db2, (n2, (cur2, (called, (v2, s2))))))) =
        good db1 n1 cur1 (suc d) c (mark e view runs never_critical gb hd old b d c ∷ ms) o1
          (closed_cons b (mark e view runs never_critical gb hd old b d c) ms) v1 in
      let (r3, (fine, (db3, (n3, (cur3, (guards, (v3, s3))))))) =
        guarded_lem e view runs never_critical gb hd old b r2 callback
          (live gb hd db1 n1 cur1 (suc d)) d (suc d) c (f c).1 ms db2 n2 cur2 called h v2 in
      (
        r3,
        (
          fine ∙ ap (λ x. (sync_result (x, (f c).1) c).0) same,
          (
            db3,
            (
              n3,
              (
                cur3,
                (
                  joined callback db db1 db3 n n1 n3 cur cur1 cur3 d r3 noted marked guards,
                  (
                    v3 ∙ ap (λ x. view_of (sync_result (x, (f c).1) c).1 old b ms) same,
                    s3 ∙ s2 ∙ s1,
                  ),
                ),
              ),
            ),
          ),
        ),
      )

  -- The rest of the work behind a call that has ended.
  resumed :
      (t : Result Failure (Unit {0}) × Actor S) (caught : Bool) (rest : M S Bool)
      (g : C → Ending × C) (db : S) (n : ℕ) (cur cur' : CurrentTxn) (d : ℕ) (c : C)
      (ms : List (Mark C))
      → IsCallback rest g
      → attempt_on e caught t ≡ (ok tt, live gb hd db n cur' d)
      → is_open cur ≡ true
      → is_closed b ms ≡ false
      → view db ≡ view_of c old b ms
      → shape cur' ≡ shape cur
      → (r : Result Failure Bool) × ((ending_of r ≡ (g c).0)
          × IsDone e view runs never_critical gb hd old b cur d ms
              (continue (attempt_on e caught t) (λ _. rest))
              r
              (g c).1)
  resumed t caught rest g db n cur cur' d c ms good q o h v s =
      let o' : is_open cur' ≡ true = open-shape cur' ∙ ap is_open s ∙ sym (open-shape cur) ∙ o in
      let (r, (same, (db', (n', (cur2, (ran, (v', s'))))))) = good db n cur' d c ms o' h v in
      (r, (same, (db', (n', (cur2, (ap (λ x. continue x (λ _. rest)) q ∙ ran, (v', s' ∙ s)))))))

  after_lem :
      (x : Ending × C) (caught : Bool) (r : Result Failure (Unit {0})) (rest : M S Bool)
      (g : C → Ending × C) (t : Result Failure (Unit {0}) × Actor S) (cur : CurrentTxn) (d : ℕ)
      (c : C) (ms : List (Mark C))
      → IsCallback rest g
      → is_open cur ≡ true
      → is_closed b ms ≡ false
      → is_ok r ≡ (sync_result x c).0
      → IsDone e view runs never_critical gb hd old b cur d ms t r (sync_result x c).1
      → (r' : Result Failure Bool) × ((ending_of r' ≡ (after_sync x caught c g).0)
          × IsDone e view runs never_critical gb hd old b cur d ms
              (continue (attempt_on e caught t) (λ _. rest))
              r'
              (after_sync x caught c g).1)
  after_lem (returned, c') true r rest g t cur d c ms good o h k (db, (n, (cur', (q, (v, s))))) =
      resumed t true rest g db n cur cur' d c' ms good (ap (attempt_on e true) q) o h v s
  after_lem (returned, c') false (ok _) rest g t cur d c ms good o h k
        (db, (n, (cur', (q, (v, s))))) =
      resumed t false rest g db n cur cur' d c' ms good (ap (attempt_on e false) q) o h v s
  after_lem (returned, c') false (err z) rest g t cur d c ms good o h k y = absurd (ground arith)
  after_lem (promised, c') true r rest g t cur d c ms good o h k (db, (n, (cur', (q, (v, s))))) =
      resumed t true rest g db n cur cur' d c ms good (ap (attempt_on e true) q) o h v s
  after_lem (threw, c') true r rest g t cur d c ms good o h k (db, (n, (cur', (q, (v, s))))) =
      resumed t true rest g db n cur cur' d c ms good (ap (attempt_on e true) q) o h v s
  after_lem (promised, c') false (ok z) rest g t cur d c ms good o h k y = absurd (ground arith)
  after_lem (threw, c') false (ok z) rest g t cur d c ms good o h k y = absurd (ground arith)
  after_lem (promised, c') false (err z) rest g t cur d c ms good o h k
        (db, (n, (cur', (q, (v, s))))) =
      (err z, (refl, (db, (n, (cur', (rw (q), (v, s)))))))
  after_lem (threw, c') false (err z) rest g t cur d c ms good o h k
        (db, (n, (cur', (q, (v, s))))) =
      (err z, (refl, (db, (n, (cur', (rw (q), (v, s)))))))

  -- Every piece of work does to the database what the reference says.
  pub perform-IsCallback : (w : Work C) → IsCallback (perform e w) (exec w)
  unfolding perform exec
  perform-IsCallback done db n cur d c ms o h v =
      (ok false, (refl, (db, (n, (cur, (refl, (v, refl)))))))
  perform-IsCallback promises db n cur d c ms o h v =
      (ok true, (refl, (db, (n, (cur, (refl, (v, refl)))))))
  perform-IsCallback throws db n cur d c ms o h v =
      (err (user_error "callback"), (refl, (db, (n, (cur, (refl, (v, refl)))))))
  perform-IsCallback (writes f u rest) db n cur d c ms o h v =
      let (db1, (n1, (cur1, (ran, (v1, s1))))) =
        write_lem e view runs gb hd db n cur d u f c old b ms o h v in
      let o1 : is_open cur1 ≡ true = open-shape cur1 ∙ ap is_open s1 ∙ sym (open-shape cur) ∙ o in
      let (r, (same, (db2, (n2, (cur2, (goes, (v2, s2))))))) =
        perform-IsCallback rest db1 n1 cur1 d (f c) ms o1 h v1 in
      (
        r,
        (
          same,
          (
            db2,
            (n2, (cur2, (ap (λ x. continue x (λ _. perform e rest)) ran ∙ goes, (v2, s2 ∙ s1)))),
          ),
        ),
      )
  perform-IsCallback (syncs body caught rest) db n cur d c ms o h v =
      let (r, (k, y)) =
        sync_lem (perform e body) (exec body) (perform-IsCallback body) db n cur d c ms o h v in
      after_lem (exec body c) caught r (perform e rest) (exec rest)
        (transaction_sync e (perform e body) (live gb hd db n cur d)) cur d c ms
        (perform-IsCallback rest) o h k y

  -- `transactionSync` in an open transaction of an actor that is not broken, for a callback of
  -- writes and of nested calls that are caught or not: it returns just when the reference does, and
  -- the content is the reference's then, and what it was before otherwise, also when the callback
  -- returned a promise. The savepoints below, the depth and the transaction are as before, and so
  -- is what a crash leaves. The conditions: the engine runs statements as SQLite documents, without
  -- critical errors.
  pub transaction_sync-exec :
      (w : Work C) (db : S) (n : ℕ) (cur : CurrentTxn) (d : ℕ) (c : C) (ms : List (Mark C))
      → is_open cur ≡ true
      → is_closed b ms ≡ false
      → view db ≡ view_of c old b ms
      → (r : Result Failure (Unit {0})) × ((is_ok r ≡ (sync_result (exec w c) c).0)
          × IsDone e view runs never_critical gb hd old b cur d ms
              (transaction_sync e (perform e w) (live gb hd db n cur d))
              r
              (sync_result (exec w c) c).1)
  transaction_sync-exec w = sync_lem (perform e w) (exec w) (perform-IsCallback w)
