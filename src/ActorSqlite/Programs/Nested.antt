-- ===== src/ActorSqlite/Programs/Nested.antt =====
-- src/io/actor-sqlite.ts: what runs in an explicit transaction.
use do_runtime.Common.{
  ℕ, suc, ◌≡◌, refl, ap, ◌∙◌, Bool, true, false, some, List, [], ◌∷◌, ◌||◌, nat_beq, nat_beq_iff,
  Result, ok, err, if◌then◌else◌, arith,
}
use do_runtime.ActorSqlite.Sqlite.{
  Statement, explicit_savepoint, Mark, View, sqlite_step, savepoint, release, rollback_to, Engine,
}
use do_runtime.ActorSqlite.{
  Failure, Explicit, CurrentTxn, no_txn, implicit, explicit, Actor, M, ◌>>◌, continue,
}
use do_runtime.ActorSqlite.Transactions.{start_transaction, drop}
use do_runtime.ActorSqlite.Statements.{view_of, shape, live, run_lem}
use do_runtime.ActorSqlite.Sync.{Work, perform, exec}
use do_runtime.ActorSqlite.Sync.Snapshots.{perform-IsCallback}
use do_runtime.ActorSqlite.Programs.{
  Program, finish, works, transaction, next_turn, content_after, try_work, close, run_program,
  caught,
}

-- An innermost transaction that is neither committed nor dropped.
abbrev pub txn : ℕ → Bool → Bool → Explicit
txn k alarm confirmed = record {
  depth = k;
  has_child = false;
  committed = false;
  dropped = false;
  alarm_dirty = alarm;
  some_write_confirmed = confirmed;
}

abbrev top_of : CurrentTxn → Explicit → Explicit
top_of (explicit t outer) u = t
top_of _ u = u

abbrev outer_of : CurrentTxn → List Explicit
outer_of (explicit t outer) = outer
outer_of _ = []

abbrev is_explicit : CurrentTxn → Bool
is_explicit (explicit t outer) = true
is_explicit _ = false

abbrev confirmed_as : Bool → Explicit → Explicit
confirmed_as b t = record t { some_write_confirmed = b }

shape-explicit :
    (cur : CurrentTxn) (k : ℕ) (al cf : Bool) (outer : List Explicit)
    → shape cur ≡ shape (explicit (txn k al cf) outer)
    → (cf' : Bool) × (cur ≡ explicit (txn k al cf') outer)
shape-explicit no_txn k al cf outer s = let impossible = ap is_explicit s in absurd (ground arith)
shape-explicit (implicit t) k al cf outer s =
    let impossible = ap is_explicit s in absurd (ground arith)
shape-explicit (explicit t outer') k al cf outer s =
    let tops = ap (λ c. top_of c t) s in
    let same : t ≡ txn k al t.some_write_confirmed =
      ap (confirmed_as t.some_write_confirmed) tops in
    (t.some_write_confirmed, ap (explicit t) (ap outer_of s) ∙ ap (λ u. explicit u outer) same)

same_number : (k : ℕ) → nat_beq k k ≡ true
same_number k = (nat_beq_iff k k).1 refl

module _ {S : Type 0} (f g rest : M S (Unit {0})) where
  assoc :
      (y : Result Failure (Unit {0}) × Actor S)
      → continue y (λ _. λ z. continue (g z) (λ _. rest))
        ≡ continue (continue y (λ _. g)) (λ _. rest)
  assoc (ok _, z) = refl
  assoc (err _, z) = refl

  -- A call that returns, two more, and the rest.
  pub next_lem :
      (x : Result Failure (Unit {0}) × Actor S) (a b : Actor S)
      → x ≡ (ok tt, a)
      → continue (f a) (λ _. g) ≡ (ok tt, b)
      → continue x (λ _. λ y. continue (f y) (λ _. λ z. continue (g z) (λ _. rest))) ≡ rest b
  next_lem x a b p q =
      ap (λ y. continue y (λ _. λ z. continue (f z) (λ _. λ u. continue (g u) (λ _. rest)))) p
      ∙ assoc (f a)
      ∙ ap (λ y. continue y (λ _. rest)) q

module _ {S C : Type 0} (e : Engine S C) (view : S → View C)
    (runs : (st : Statement C) (s : S) (v : View C)
      → sqlite_step st (view s) ≡ some v
      → (s' : S) × ((e.run st s ≡ (true, s')) × (view s' ≡ v)))
    (never_critical : (s : S) → e.critical s ≡ false) (fails : S → Bool) (gb hd : Bool) (old : C)
    (d : ℕ) where
  abbrev mark : ℕ → C → Mark C
  mark k c = record { name = explicit_savepoint k; saved = c }

  -- In the innermost transaction `k`, with `m` and `ms` open.
  abbrev pub IsInside :
      ℕ → List Explicit → Mark C → List (Mark C) → Result Failure (Unit {0}) × Actor S → C → Type 0
  IsInside k outer m ms x c =
      (db' : S) × ((n' : ℕ) × ((al' : Bool) × ((cf' : Bool) × ((x
                ≡ (ok tt, live gb hd db' n' (explicit (txn k al' cf') outer) d))
              × (view db' ≡ view_of c old false (m ∷ ms))))))

  works_lem :
      (w : Work C) (db : S) (n k : ℕ) (al cf : Bool) (outer : List Explicit) (c : C) (m : Mark C)
      (ms : List (Mark C))
      → view db ≡ view_of c old false (m ∷ ms)
      → IsInside k outer m ms
          (try_work e fails (perform e w) (live gb hd db n (explicit (txn k al cf) outer) d))
          (exec w c).1
  works_lem w db n k al cf outer c m ms v =
      let (r, (_, (db', (n', (cur', (ran, (v', s))))))) =
        perform-IsCallback e view runs never_critical gb hd old false w db n
          (explicit (txn k al cf) outer) d c (m ∷ ms) refl refl v in
      let (cf', same) = shape-explicit cur' k al cf outer s in
      (
        db',
        (
          n',
          (
            al,
            (cf', (ap (caught e fails) ran ∙ ap (λ x. (ok tt, live gb hd db' n' x d)) same, v')),
          ),
        ),
      )

  -- A nested transaction opens, ...
  start_lem :
      (db : S) (n k : ℕ) (al cf : Bool) (outer : List Explicit) (c : C) (m : Mark C)
      (ms : List (Mark C))
      → view db ≡ view_of c old false (m ∷ ms)
      → (db' : S) × ((start_transaction e fails (live gb hd db n (explicit (txn k al cf) outer) d)
            ≡ (
              ok tt,
              live gb hd db' n
                  (explicit (txn (suc k) al cf) (record (txn k al cf) { has_child = true } ∷ outer))
                  d,
            ))
          × (view db' ≡ view_of c old false (mark (suc k) c ∷ (m ∷ ms))))
  start_lem db n k al cf outer c m ms v =
      run_lem e view runs (savepoint (explicit_savepoint (suc k)))
        (live gb hd db n
          (explicit (txn (suc k) al cf) (record (txn k al cf) { has_child = true } ∷ outer)) d)
        (view_of c old false (mark (suc k) c ∷ (m ∷ ms)))
        (ap (sqlite_step (savepoint (explicit_savepoint (suc k)))) v)

  release_legal :
      (k : ℕ) (c c' : C) (m : Mark C) (ms : List (Mark C)) (db : S)
      → view db ≡ view_of c' old false (mark k c ∷ (m ∷ ms))
      → sqlite_step (release (explicit_savepoint k)) (view db)
        ≡ some (view_of c' old false (m ∷ ms))
  release_legal k c c' m ms db v = rw (v, same_number k)

  rollback_legal :
      (k : ℕ) (c c' : C) (ms : List (Mark C)) (db : S)
      → view db ≡ view_of c' old false (mark k c ∷ ms)
      → sqlite_step (rollback_to (explicit_savepoint k)) (view db)
        ≡ some (view_of c old false (mark k c ∷ ms))
  rollback_legal k c c' ms db v = rw (v, same_number k)

  -- ... and closes.
  close_lem :
      (commits : Bool) (db : S) (n k : ℕ) (al cf al' cf' : Bool) (outer : List Explicit) (c c' : C)
      (m : Mark C) (ms : List (Mark C))
      → view db ≡ view_of c' old false (mark (suc k) c ∷ (m ∷ ms))
      → IsInside k outer m ms
          (continue
            (close e fails commits (
              live gb hd db n
                (explicit (txn (suc k) al' cf') (record (txn k al cf) { has_child = true } ∷ outer))
                d))
            (λ _. drop e fails))
          (if commits then c' else c)
  close_lem true db n k al cf al' cf' outer c c' m ms v =
      let (s, (ran, w)) =
        run_lem e view runs (release (explicit_savepoint (suc k)))
          (live gb hd db n
            (explicit (txn (suc k) al' cf') (record (txn k al cf) { has_child = true } ∷ outer)) d)
          (view_of c' old false (m ∷ ms)) (release_legal (suc k) c c' m ms db v) in
      (s, (n, (al' || al, (cf' || cf, (rw (ran), w)))))
  close_lem false db n k al cf al' cf' outer c c' m ms v =
      let cur =
        explicit (txn (suc k) al' cf') (record (txn k al cf) { has_child = true } ∷ outer) in
      let (s, (ran, w)) =
        run_lem e view runs (rollback_to (explicit_savepoint (suc k))) (live gb hd db n cur d)
          (view_of c old false (mark (suc k) c ∷ (m ∷ ms)))
          (rollback_legal (suc k) c c' (m ∷ ms) db v) in
      let (s', (ran', w')) =
        run_lem e view runs (release (explicit_savepoint (suc k))) (live gb hd s n cur d)
          (view_of c old false (m ∷ ms)) (release_legal (suc k) c c m ms s w) in
      (s', (n, (al, (cf, (rw (ran, ran'), w')))))

  pub inside_lem :
      (p : Program C) (db : S) (n k : ℕ) (al cf : Bool) (outer : List Explicit) (c : C) (m : Mark C)
      (ms : List (Mark C))
      → view db ≡ view_of c old false (m ∷ ms)
      → IsInside k outer m ms
          (run_program e fails p (live gb hd db n (explicit (txn k al cf) outer) d))
          (content_after p c)
  unfolding run_program content_after
  inside_lem finish db n k al cf outer c m ms v = (db, (n, (al, (cf, (refl, v)))))
  inside_lem (works w rest) db n k al cf outer c m ms v =
      let (db1, (n1, (al1, (cf1, (ran, v1))))) = works_lem w db n k al cf outer c m ms v in
      let (db2, (n2, (al2, (cf2, (goes, v2))))) =
        inside_lem rest db1 n1 k al1 cf1 outer (exec w c).1 m ms v1 in
      (
        db2,
        (n2, (al2, (cf2, (ap (λ x. continue x (λ _. run_program e fails rest)) ran ∙ goes, v2)))),
      )
  inside_lem (next_turn rest) db n k al cf outer c m ms v =
      inside_lem rest db n k al cf outer c m ms v
  inside_lem (transaction body commits rest) db n k al cf outer c m ms v =
      let (db1, (started, v1)) = start_lem db n k al cf outer c m ms v in
      let (db2, (n2, (al2, (cf2, (inner, v2))))) =
        inside_lem body db1 n (suc k) al cf (record (txn k al cf) { has_child = true } ∷ outer) c
          (mark (suc k) c) (m ∷ ms) v1 in
      let (db3, (n3, (al3, (cf3, (closes, v3))))) =
        close_lem commits db2 n2 k al cf al2 cf2 outer c (content_after body c) m ms v2 in
      let c3 = if commits then content_after body c else c in
      let (db4, (n4, (al4, (cf4, (goes, v4))))) =
        inside_lem rest db3 n3 k al3 cf3 outer c3 m ms v3 in
      (
        db4,
        (
          n4,
          (
            al4,
            (
              cf4,
              (
                ap
                      (λ x. continue x (λ _.
                        run_program e fails body
                        >> (close e fails commits >> (drop e fails >> run_program e fails rest))))
                      started
                    ∙ next_lem (close e fails commits) (drop e fails) (run_program e fails rest)
                        (run_program e fails body (
                          live gb hd db1 n
                            (explicit (txn (suc k) al cf)
                              (record (txn k al cf) { has_child = true } ∷ outer))
                            d))
                        (live gb hd db2 n2
                          (explicit (txn (suc k) al2 cf2)
                            (record (txn k al cf) { has_child = true } ∷ outer))
                          d)
                        (live gb hd db3 n3 (explicit (txn k al3 cf3) outer) d) inner closes
                    ∙ goes,
                v4,
              ),
            ),
          ),
        ),
      )
