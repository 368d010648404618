-- ===== src/ActorSqlite/Sqlite.antt =====
-- The statements that src/io/actor-sqlite.ts runs, and what SQLite documents of transactions and
-- savepoints. The engine itself is a parameter.
use do_runtime.Common.{
  ℕ, Bool, true, false, Option, none, some, List, [], ◌∷◌, nat_beq, if◌then◌else◌,
}

-- `_cf_sync_savepoint_${depth}` and `_cf_savepoint_${depth}`.
pub data Name : Type 0 where
  sync_savepoint explicit_savepoint : ℕ → Name

abbrev pub same_name : Name → Name → Bool
same_name (sync_savepoint m) (sync_savepoint n) = nat_beq m n
same_name (explicit_savepoint m) (explicit_savepoint n) = nat_beq m n
same_name _ _ = false

-- A write is any change of the content, the rows of all tables.
pub data Statement (C : Type 0) : Type 0 where
  begin_transaction commit_transaction rollback_transaction : Statement C
  savepoint release rollback_to : Name → Statement C
  write : (C → C) → Statement C

pub record Mark (C : Type 0) : Type 0 where
  pub name : Name
  pub saved : C

-- What SQLite has: the content, the content that a crash leaves, whether BEGIN has opened a
-- transaction, and the savepoints, the latest first.
pub record View (C : Type 0) : Type 0 where
  pub content : C
  pub durable : C
  pub begun : Bool
  pub marks : List (Mark C)

module _ {C : Type 0} where
  -- Outside of transactions, what is there is durable.
  abbrev pub commit_if_closed : List (Mark C) → View C → View C
  commit_if_closed [] v = record v {
    durable = if v.begun then v.durable else v.content;
    marks = [];
  }
  commit_if_closed (k ∷ ks) v = record v { marks = k ∷ ks }

  -- A savepoint goes with all later ones.
  abbrev pub after_mark : Name → List (Mark C) → Option (List (Mark C))
  after_mark n [] = none
  after_mark n (k ∷ ks) = if same_name n k.name then some ks else after_mark n ks

  abbrev pub from_mark : Name → List (Mark C) → Option (Mark C × List (Mark C))
  from_mark n [] = none
  from_mark n (k ∷ ks) = if same_name n k.name then some (k, ks) else from_mark n ks

  abbrev pub is_closed : Bool → List (Mark C) → Bool
  is_closed false [] = true
  is_closed _ _ = false

  abbrev release_on : Option (List (Mark C)) → View C → Option (View C)
  release_on none v = none
  release_on (some ks) v = some (commit_if_closed ks v)

  abbrev rollback_on : Option (Mark C × List (Mark C)) → View C → Option (View C)
  rollback_on none v = none
  rollback_on (some (k, ks)) v = some (record v { content = k.saved; marks = k ∷ ks })

  -- `none` is an error, such as a transaction within another.
  abbrev pub sqlite_step : Statement C → View C → Option (View C)
  sqlite_step begin_transaction v =
      if is_closed v.begun v.marks then some (record v { begun = true }) else none
  sqlite_step commit_transaction v =
      if is_closed v.begun v.marks
      then none
      else some (record v { durable = v.content; begun = false; marks = [] })
  sqlite_step rollback_transaction v =
      if is_closed v.begun v.marks
      then none
      else some (record v { content = v.durable; begun = false; marks = [] })
  sqlite_step (savepoint n) v =
      some (record v { marks = record { name = n; saved = v.content } ∷ v.marks })
  sqlite_step (release n) v = release_on (after_mark n v.marks) v
  sqlite_step (rollback_to n) v = rollback_on (from_mark n v.marks) v
  sqlite_step (write f) v = some (commit_if_closed v.marks (record v { content = f v.content }))

-- An engine: a statement succeeds or fails; and it may report that a critical error has rolled the
-- transaction back.
pub record Engine (S C : Type 0) : Type 0 where
  pub run : Statement C → S → Bool × S
  pub critical : S → Bool
