-- ===== src/Examples/StorageVersionRuns.antt =====
-- Runs of src/util/sqlite-migrations.ts and src/util/sqlite-metadata.ts.
use do_runtime.Common.{
  ℕ, ◌+◌, ◌-◌, ◌≡◌, refl, ◌⊎◌, Bool, true, false, Option, none, some, List, [], ◌∷◌, not, ok,
}
use do_runtime.ActorSqlite.Sqlite.{Statement, View, is_closed, sqlite_step, Engine}
use do_runtime.ActorSqlite.Statements.{view_of}
use do_runtime.StorageVersion.{
  File, stamp, Action, rewrites, commits, throws, is_version, first_version, ensure_version,
}
use do_runtime.StorageVersion.Migration.{IsLeft, ensure_version-IsLeft}
use do_runtime.StorageVersion.Migration.Loop.{rows_after, are_clean, Ended}
use do_runtime.SqliteMetadata.{Rows, Metadata, construct, alarm_of, get_alarm_time, set_alarm_time}
use do_runtime.SqliteMetadata.Calls.{
  getting, beginning, rolling_back, setting, call, Reach, opened, called, Reach-alarm_of,
}

abbrev answer : Option (View (File ℕ)) → View (File ℕ) → Bool × View (File ℕ)
answer none v = (false, v)
answer (some w) v = (true, w)

abbrev file_engine : Engine (View (File ℕ)) (File ℕ)
file_engine = record { run = λ st v. answer (sqlite_step st v) v; critical = λ v. false }

abbrev is_in : View (File ℕ) → Bool
is_in v = not (is_closed v.begun v.marks)

abbrev file_runs :
    (st : Statement (File ℕ)) (s v : View (File ℕ))
    → sqlite_step st s ≡ some v
    → (s' : View (File ℕ)) × ((answer (sqlite_step st s) s ≡ (true, s')) × (s' ≡ v))
file_runs st s v e = (v, (rw (e), refl))

abbrev file_refuses :
    (st : Statement (File ℕ)) (s : View (File ℕ))
    → sqlite_step st s ≡ none
    → (s' : View (File ℕ)) × ((answer (sqlite_step st s) s ≡ (false, s')) × (s' ≡ s))
file_refuses st s e = (s, (rw (e), refl))

-- Two steps: the first rewrites, and the second rewrites and throws.
abbrev steps : List (List (Action ℕ))
steps = (rewrites (λ x. x + 1) ∷ []) ∷ (rewrites (λ x. x + 10) ∷ throws ∷ []) ∷ []

abbrev old_file : File ℕ
old_file = record { rows = 5; version = stamp 1 }

abbrev old_view : View (File ℕ)
old_view = view_of old_file old_file false []

upgrade_run :
    (ensure_version file_engine is_in (stamp 1) 2 steps old_view).1
    ≡ view_of
        (record { rows = 6; version = stamp 2 })
        (record { rows = 6; version = stamp 2 })
        false
        []
unfolding do_runtime.StorageVersion.migrate
upgrade_run = refl

failed_run : (ensure_version file_engine is_in (stamp 1) 3 steps old_view).1 ≡ old_view
unfolding do_runtime.StorageVersion.migrate
failed_run = refl

ensure_version-IsLeft_example :
    Ended file_engine is_in
      (λ v. v)
      file_runs
      file_refuses
      (λ s. refl)
      old_file
      (ensure_version file_engine is_in (stamp 1) 3 steps old_view)
      (λ r s'.
        ((is_version (stamp 1) 3 ≡ true) × ((r ≡ ok tt) × (s' ≡ old_view)))
        ⊎ IsLeft file_engine is_in
            (λ v. v)
            file_runs
            file_refuses
            (λ s. refl)
            old_file
            3
            (rows_after (3 - first_version (stamp 1)) steps (first_version (stamp 1)) 5)
            (are_clean steps)
            r
            s')
ensure_version-IsLeft_example =
    ensure_version-IsLeft file_engine is_in (λ v. v) file_runs file_refuses (λ s. refl) old_file 3
      steps old_view refl

-- The alarm is read, and set in a savepoint that is rolled back to.
abbrev old_rows : Option Rows
old_rows = some (record { alarm = some 3; bookmark = none })

abbrev rolled_back : Metadata
rolled_back =
    call rolling_back (call (setting (some 7)) (call beginning (call getting (construct old_rows))))

abbrev rolled_back-Reach : Reach rolled_back
rolled_back-Reach =
    called rolling_back _
      (called (setting (some 7)) _ (called beginning _ (called getting _ (opened old_rows))))

cache_run : (get_alarm_time rolled_back).0 ≡ some 3
cache_run = refl

Reach-alarm_of_example :
    ((get_alarm_time rolled_back).0 ≡ alarm_of rolled_back.table)
    × ((alarm_of (set_alarm_time (some 9) rolled_back).1.table ≡ some 9)
        × ((get_alarm_time (set_alarm_time (some 9) rolled_back).1).0 ≡ some 9))
Reach-alarm_of_example = Reach-alarm_of rolled_back rolled_back-Reach (some 9)
