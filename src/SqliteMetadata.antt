-- ===== src/SqliteMetadata.antt =====
-- src/util/sqlite-metadata.ts, `SqliteMetadata`, over the savepoints and rollback callbacks of
-- src/util/sqlite.ts. The rows are those of `_cf_METADATA`, if the table is there. A savepoint
-- keeps the rows that SQLite goes back to, and the callbacks that were registered above it, the
-- latest first. Savepoints end in the order of their nesting.
pub mod Coherence
pub mod Calls
use do_runtime.Common.{
  ℕ, Bool, true, false, Option, none, some, List, [], ◌∷◌, ◌++◌, nat_beq, ltb, if◌then◌else◌,
  is_some, Result, ok, err,
}

-- A missing row and a row of null read alike.
pub record Rows : Type 0 where
  pub alarm : Option ℕ
  pub bookmark : Option ℕ

abbrev pub no_rows : Rows
no_rows = record { alarm = none; bookmark = none }

pub record Memory : Type 0 where
  pub table_created : Bool
  pub cache : Option (Option ℕ)

-- The callbacks that the class registers.
pub data Callback : Type 0 where
  restore_cache : Option (Option ℕ) → Callback
  forget_table : Callback

abbrev pub run_callback : Callback → Memory → Memory
run_callback (restore_cache c) m = record m { cache = c }
run_callback forget_table m = record m { table_created = false }

abbrev pub run_callbacks : List Callback → Memory → Memory
run_callbacks [] m = m
run_callbacks (c ∷ cs) m = run_callbacks cs (run_callback c m)

pub record Savepoint : Type 0 where
  pub saved : Option Rows
  pub callbacks : List Callback

pub record Metadata : Type 0 where
  pub table : Option Rows
  pub memory : Memory
  pub savepoints : List Savepoint

pub data MetadataError : Type 0 where
  not_a_bookmark reset_in_transaction no_savepoint : MetadataError

-- The constructor; `hasCurrentSqliteTable` tells whether the table is there.
abbrev pub construct : Option Rows → Metadata
construct table = record {
  table = table;
  memory = record { table_created = is_some table; cache = none };
  savepoints = [];
}

-- `onRollback`: with nothing open, the callback is dropped.
abbrev pub register : Callback → List Savepoint → List Savepoint
register c [] = []
register c (s ∷ ss) = record s { callbacks = c ∷ s.callbacks } ∷ ss

-- `#ensureInitialized`.
abbrev pub initialize : Bool → Metadata → Metadata
initialize true d = d
initialize false d = record {
  table = some no_rows;
  memory = record d.memory { table_created = true };
  savepoints = register forget_table d.savepoints;
}

abbrev pub ensure_initialized : Metadata → Metadata
ensure_initialized d = initialize d.memory.table_created d

abbrev pub alarm_of : Option Rows → Option ℕ
alarm_of none = none
alarm_of (some rows) = rows.alarm

-- `#getAlarmUncached`.
abbrev pub get_alarm_uncached : Metadata → Option ℕ
get_alarm_uncached d = if d.memory.table_created then alarm_of d.table else none

abbrev pub cached_or : Option (Option ℕ) → Metadata → Option ℕ × Metadata
cached_or (some a) d = (a, d)
cached_or none d = (
  get_alarm_uncached d,
  record d { memory = record d.memory { cache = some (get_alarm_uncached d) } },
)

-- `getAlarm`.
abbrev pub get_alarm_time : Metadata → Option ℕ × Metadata
get_alarm_time d = cached_or d.memory.cache d

abbrev pub same_time : Option ℕ → Option ℕ → Bool
same_time none none = true
same_time (some a) (some b) = nat_beq a b
same_time _ _ = false

abbrev pub is_cached : Option (Option ℕ) → Option ℕ → Bool
is_cached none t = false
is_cached (some a) t = same_time a t

abbrev pub write_alarm_time : Option ℕ → Option Rows → Option Rows
write_alarm_time t none = none
write_alarm_time t (some rows) = some (record rows { alarm = t })

-- The write of `setAlarm`, with its callback and the cache that follows it.
abbrev pub store_alarm_time : Option ℕ → Option (Option ℕ) → Metadata → Metadata
store_alarm_time t cached d = record {
  table = write_alarm_time t d.table;
  memory = record d.memory { cache = some t };
  savepoints = register (restore_cache cached) d.savepoints;
}

-- `setAlarm`: whether the value changed.
abbrev pub set_alarm_time : Option ℕ → Metadata → Bool × Metadata
set_alarm_time t d =
    if is_cached d.memory.cache t
    then (false, d)
    else (true, store_alarm_time t d.memory.cache (ensure_initialized d))

abbrev pub max_safe_integer : ℕ
max_safe_integer = 9007199254740991

abbrev pub bookmark_of : Option Rows → Option ℕ
bookmark_of none = none
bookmark_of (some rows) = rows.bookmark

abbrev pub get_bookmark : Metadata → Option ℕ × Metadata
get_bookmark d = let d' = ensure_initialized d in (bookmark_of d'.table, d')

abbrev pub write_bookmark : ℕ → Option Rows → Option Rows
write_bookmark b none = none
write_bookmark b (some rows) = some (record rows { bookmark = some b })

abbrev pub set_bookmark : ℕ → Metadata → Result MetadataError Metadata
set_bookmark b d =
    if ltb max_safe_integer b
    then err not_a_bookmark
    else (let d' = ensure_initialized d in ok (record d' { table = write_bookmark b d'.table }))

-- `beforeSqliteReset`, and the reset.
abbrev pub reset_on : List Savepoint → Metadata → Result MetadataError Metadata
reset_on [] d = ok (record {
  table = none;
  memory = record { table_created = false; cache = none };
  savepoints = [];
})
reset_on (s ∷ ss) d = err reset_in_transaction

abbrev pub reset : Metadata → Result MetadataError Metadata
reset d = reset_on d.savepoints d

-- A savepoint is opened, ...
abbrev pub begin_savepoint : Metadata → Metadata
begin_savepoint d = record d {
  savepoints = record { saved = d.table; callbacks = [] } ∷ d.savepoints;
}

-- ... released, when its callbacks are the outer one's, or nobody's, ...
abbrev pub released : List Savepoint → List Savepoint
released [] = []
released (s ∷ []) = []
released (s ∷ t ∷ ss) = record t { callbacks = s.callbacks ++ t.callbacks } ∷ ss

abbrev pub release_savepoint : Metadata → Metadata
release_savepoint d = record d { savepoints = released d.savepoints }

-- ... or rolled back to, when it stays open.
abbrev pub roll_back_on : List Savepoint → Metadata → Metadata
roll_back_on [] d = d
roll_back_on (s ∷ ss) d = record {
  table = s.saved;
  memory = run_callbacks s.callbacks d.memory;
  savepoints = record s { callbacks = [] } ∷ ss;
}

abbrev pub roll_back_savepoint : Metadata → Metadata
roll_back_savepoint d = roll_back_on d.savepoints d
