-- ===== src/ActorSqlite/Statements.antt =====
-- src/io/actor-sqlite.ts: one statement, and one write, of an actor that is not broken.
use do_runtime.Common.{
  ℕ, suc, ◌≡◌, refl, ap, ◌∙◌, Bool, true, false, none, some, List, [], ◌∷◌, ◌&&◌, not, ok,
  Bool-cases, inl, inr, arith,
}
use do_runtime.ActorSqlite.Sqlite.{
  Statement, Mark, View, commit_if_closed, is_closed, sqlite_step, write, Engine,
}
use do_runtime.ActorSqlite.{CurrentTxn, no_txn, implicit, explicit, Actor, run, on_write, run_write}

abbrev pub view_of : {C : Type 0} → C → C → Bool → List (Mark C) → View C
view_of content durable begun marks = record {
  content = content;
  durable = durable;
  begun = begun;
  marks = marks;
}

abbrev pub is_open : CurrentTxn → Bool
is_open no_txn = false
is_open _ = true

-- The transaction without the note of a write that is confirmed.
abbrev pub shape : CurrentTxn → CurrentTxn
shape no_txn = no_txn
shape (implicit t) = implicit (record t { some_write_confirmed = false })
shape (explicit t outer) = explicit (record t { some_write_confirmed = false }) outer

pub open-shape : (c : CurrentTxn) → is_open c ≡ is_open (shape c)
open-shape no_txn = refl
open-shape (implicit t) = refl
open-shape (explicit t outer) = refl

pub commit_if_closed-open :
    {C : Type 0} (c d : C) (b : Bool) (ms ks : List (Mark C))
    → is_closed b ms ≡ false
    → commit_if_closed ms (view_of c d b ks) ≡ view_of c d b ms
commit_if_closed-open c d true [] ks e = refl
commit_if_closed-open c d false [] ks e = absurd (ground arith)
commit_if_closed-open c d b (k ∷ ms) ks e = refl

-- An actor that is not broken.
abbrev pub live : {S : Type 0} → Bool → Bool → S → ℕ → CurrentTxn → ℕ → Actor S
live gb hd db n cur d = record {
  db = db;
  broken = none;
  gate_broken = gb;
  gate_locks = n;
  current = cur;
  have_deferred_delete = hd;
  sync_depth = d;
}

module _ {S C : Type 0} (e : Engine S C) (view : S → View C)
    (runs : (st : Statement C) (s : S) (v : View C)
      → sqlite_step st (view s) ≡ some v
      → (s' : S) × ((e.run st s ≡ (true, s')) × (view s' ≡ v))) where
  pub run_lem :
      (st : Statement C) (a : Actor S) (v : View C)
      → sqlite_step st (view a.db) ≡ some v
      → (s' : S) × ((run e st a ≡ (ok tt, record a { db = s' })) × (view s' ≡ v))
  run_lem st a v h = let (s', (r, k)) = runs st a.db v h in (s', (rw (r), k))

  -- The note of a write in an open transaction.
  pub note_lem :
      (gb hd : Bool) (db : S) (n : ℕ) (cur : CurrentTxn) (d : ℕ) (u : Bool)
      → is_open cur ≡ true
      → (n' : ℕ) × ((cur' : CurrentTxn) × ((on_write e u (live gb hd db n cur d)
              ≡ (ok tt, live gb hd db n' cur' d))
            × (shape cur' ≡ shape cur)))
  note_lem gb hd db n no_txn d u o = absurd (ground arith)
  note_lem gb hd db n (implicit t) d u o = elim (Bool-cases (not t.some_write_confirmed && not u)) [
    | inl f ↦ (suc n, (implicit (record t { some_write_confirmed = true }), (rw (f), refl)))
    | inr f ↦ (n, (implicit t, (rw (f), refl)))
  ]
  note_lem gb hd db n (explicit t outer) d u o =
      elim (Bool-cases (not t.some_write_confirmed && not u)) [
        | inl f ↦ (n, (explicit (record t { some_write_confirmed = true }) outer, (rw (f), refl)))
        | inr f ↦ (n, (explicit t outer, (rw (f), refl)))
      ]

  -- A write in an open transaction.
  pub write_lem :
      (gb hd : Bool) (db : S) (n : ℕ) (cur : CurrentTxn) (d : ℕ) (u : Bool) (f : C → C) (c old : C)
      (b : Bool) (ms : List (Mark C))
      → is_open cur ≡ true
      → is_closed b ms ≡ false
      → view db ≡ view_of c old b ms
      → (db' : S) × ((n' : ℕ) × ((cur' : CurrentTxn) × ((run_write e f u (live gb hd db n cur d)
                ≡ (ok tt, live gb hd db' n' cur' d))
              × ((view db' ≡ view_of (f c) old b ms) × (shape cur' ≡ shape cur)))))
  write_lem gb hd db n cur d u f c old b ms o h v =
      let (n', (cur', (noted, s))) = note_lem gb hd db n cur d u o in
      let legal =
        ap (sqlite_step (write f)) v ∙ ap some (commit_if_closed-open (f c) old b ms ms h) in
      let (db', (ran, k)) =
        run_lem (write f) (live gb hd db n' cur' d) (view_of (f c) old b ms) legal in
      (db', (n', (cur', (rw (noted, ran), (k, s)))))
