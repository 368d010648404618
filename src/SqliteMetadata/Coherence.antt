-- ===== src/SqliteMetadata/Coherence.antt =====
-- src/util/sqlite-metadata.ts: what the memory owes the table, also behind a rollback.
use mathlib.Core.Path.{subst}
use do_runtime.Common.{
  ℕ, ◌≡◌, refl, sym, ap, ◌∙◌, Bool, true, false, Option, none, some, List, [], ◌∷◌, ◌++◌, is_some,
  Bool-cases, inl, inr, arith,
}
use do_runtime.SqliteMetadata.{
  Rows, Memory, Callback, restore_cache, forget_table, run_callback, run_callbacks, Savepoint,
  Metadata, construct, register, alarm_of, begin_savepoint, released, release_savepoint,
  roll_back_on, roll_back_savepoint,
}

abbrev pub IsCached : Option (Option ℕ) → Option Rows → Type 0
IsCached none table = Unit
IsCached (some a) table = a ≡ alarm_of table

-- What the memory says of the rows is true.
pub record IsTrue (table : Option Rows) (m : Memory) : Type 0 where
  pub created : m.table_created ≡ is_some table
  pub cached : IsCached m.cache table

-- So it would be after a rollback to each open savepoint.
abbrev pub IsUndoable : List Savepoint → Memory → Type 0
IsUndoable [] m = Unit
IsUndoable (s ∷ ss) m =
    IsTrue s.saved (run_callbacks s.callbacks m) × IsUndoable ss (run_callbacks s.callbacks m)

abbrev pub restores : List Callback → Bool
restores [] = false
restores (restore_cache c ∷ cs) = true
restores (forget_table ∷ cs) = restores cs

-- Without a callback that restores the cache, the alarm has not changed since the savepoint.
abbrev pub IsStill : Option Rows → List Savepoint → Type 0
IsStill table [] = Unit
IsStill table (s ∷ ss) =
    (restores s.callbacks ≡ false → alarm_of s.saved ≡ alarm_of table) × IsStill s.saved ss

pub record IsCoherent (d : Metadata) : Type 0 where
  pub now : IsTrue d.table d.memory
  pub undone : IsUndoable d.savepoints d.memory
  pub still : IsStill d.table d.savepoints

run_callbacks-append :
    (cs ds : List Callback) (m : Memory)
    → run_callbacks (cs ++ ds) m ≡ run_callbacks ds (run_callbacks cs m)
run_callbacks-append [] ds m = refl
run_callbacks-append (c ∷ cs) ds m = run_callbacks-append cs ds (run_callback c m)

-- A callback that restores the cache makes it forget what was there, ...
restores-true :
    (cs : List Callback) (c : Option (Option ℕ)) (m : Memory)
    → restores cs ≡ true
    → run_callbacks cs (record m { cache = c }) ≡ run_callbacks cs m
restores-true [] c m e = absurd (ground arith)
restores-true (restore_cache x ∷ cs) c m e = refl
restores-true (forget_table ∷ cs) c m e = restores-true cs c (record m { table_created = false }) e

-- ... and without one the cache stays.
restores-false :
    (cs : List Callback) (c : Option (Option ℕ)) (m : Memory)
    → restores cs ≡ false
    → run_callbacks cs (record m { cache = c }) ≡ record (run_callbacks cs m) { cache = c }
restores-false [] c m e = refl
restores-false (restore_cache x ∷ cs) c m e = absurd (ground arith)
restores-false (forget_table ∷ cs) c m e =
    restores-false cs c (record m { table_created = false }) e

-- The cache may be filled from the table.
pub filled :
    (ss : List Savepoint) (table : Option Rows) (m : Memory)
    → IsStill table ss
    → IsUndoable ss m
    → IsUndoable ss (record m { cache = some (alarm_of table) })
filled [] table m st u = tt
filled (s ∷ ss) table m (same, st) (true_of, u) = elim (Bool-cases (restores s.callbacks)) [
  | inl e ↦
      subst (λ x. IsTrue s.saved x × IsUndoable ss x)
        (sym (restores-true s.callbacks (some (alarm_of table)) m e)) (true_of, u)
  | inr e ↦
      let m' = run_callbacks s.callbacks m in
      subst (λ x. IsTrue s.saved x × IsUndoable ss x)
        (sym (
          restores-false s.callbacks (some (alarm_of table)) m e
          ∙ ap (λ a. record m' { cache = some a }) (sym (same e))))
        (record { created = true_of.created; cached = refl }, filled ss s.saved m' st u)
]

-- A callback is registered that undoes a change of the memory.
pub registered :
    (c : Callback) (ss : List Savepoint) (m m' : Memory)
    → run_callback c m' ≡ m
    → IsUndoable ss m
    → IsUndoable (register c ss) m'
registered c [] m m' e u = tt
registered c (s ∷ ss) m m' e u =
    subst
      (λ x.
        IsTrue s.saved (run_callbacks s.callbacks x) × IsUndoable ss (run_callbacks s.callbacks x))
      (sym e) u

pub IsStill-register_forget :
    (ss : List Savepoint) (table table' : Option Rows)
    → alarm_of table ≡ alarm_of table'
    → IsStill table ss
    → IsStill table' (register forget_table ss)
IsStill-register_forget [] table table' e st = tt
IsStill-register_forget (s ∷ ss) table table' e (same, st) = (λ n. same n ∙ e, st)

pub IsStill-register_restore :
    (ss : List Savepoint) (c : Option (Option ℕ)) (table table' : Option Rows)
    → IsStill table ss
    → IsStill table' (register (restore_cache c) ss)
IsStill-register_restore [] c table table' st = tt
IsStill-register_restore (s ∷ ss) c table table' (same, st) = (λ n. absurd (ground arith), st)

pub IsStill-table :
    (ss : List Savepoint) (table table' : Option Rows)
    → alarm_of table ≡ alarm_of table'
    → IsStill table ss
    → IsStill table' ss
IsStill-table [] table table' e st = tt
IsStill-table (s ∷ ss) table table' e (same, st) = (λ n. same n ∙ e, st)

pub construct-IsCoherent : (table : Option Rows) → IsCoherent (construct table)
construct-IsCoherent table = record {
  now = record { created = refl; cached = tt };
  undone = tt;
  still = tt;
}

pub begin_savepoint-IsCoherent : (d : Metadata) → IsCoherent d → IsCoherent (begin_savepoint d)
begin_savepoint-IsCoherent d w = record {
  now = w.now;
  undone = (w.now, w.undone);
  still = (λ _. refl, w.still);
}

rolled :
    (ss : List Savepoint) (d : Metadata)
    → IsCoherent d
    → IsUndoable ss d.memory
    → IsStill d.table ss
    → IsCoherent (roll_back_on ss d)
rolled [] d w u st = w
rolled (s ∷ ss) d w u st = record { now = u.0; undone = u; still = (λ _. refl, st.1) }

pub roll_back_savepoint-IsCoherent :
    (d : Metadata) → IsCoherent d → IsCoherent (roll_back_savepoint d)
roll_back_savepoint-IsCoherent d w = rolled d.savepoints d w w.undone w.still

IsUndoable-released :
    (ss : List Savepoint) (m : Memory) → IsUndoable ss m → IsUndoable (released ss) m
IsUndoable-released [] m u = tt
IsUndoable-released (s ∷ []) m u = tt
IsUndoable-released (s ∷ t ∷ ss) m u =
    subst (λ x. IsTrue t.saved x × IsUndoable ss x)
      (sym (run_callbacks-append s.callbacks t.callbacks m)) u.1

restores-append :
    (cs ds : List Callback)
    → restores (cs ++ ds) ≡ false
    → (restores cs ≡ false) × (restores ds ≡ false)
restores-append [] ds e = (refl, e)
restores-append (restore_cache x ∷ cs) ds e = absurd (ground arith)
restores-append (forget_table ∷ cs) ds e = restores-append cs ds e

IsStill-released :
    (ss : List Savepoint) (table : Option Rows) → IsStill table ss → IsStill table (released ss)
IsStill-released [] table st = tt
IsStill-released (s ∷ []) table st = tt
IsStill-released (s ∷ t ∷ ss) table (same, (same', st)) =
    (λ e. let (a, b) = restores-append s.callbacks t.callbacks e in same' b ∙ same a, st)

pub release_savepoint-IsCoherent : (d : Metadata) → IsCoherent d → IsCoherent (release_savepoint d)
release_savepoint-IsCoherent d w = record {
  now = w.now;
  undone = IsUndoable-released d.savepoints d.memory w.undone;
  still = IsStill-released d.savepoints d.table w.still;
}
