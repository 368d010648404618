-- ===== src/StorageVersion.antt =====
-- src/util/sqlite-migrations.ts: the version of a database file, which an old file is brought to by
-- steps in one transaction. The engine is a parameter; a step is the list of what it does. A version
-- is a signed number.
pub mod Migration
use do_runtime.Common.{
  ℕ, zero, suc, ◌+◌, ◌-◌, max, Bool, true, false, Option, none, some, List, [], ◌∷◌, ◌||◌, ltb, leb,
  nat_beq, not, get_elem?, Result, ok, err, if◌then◌else◌,
}
use do_runtime.ActorSqlite.Sqlite.{
  Statement, begin_transaction, commit_transaction, rollback_transaction, write, Engine,
}

-- `negative n` is minus one minus `n`.
pub data Stamp : Type 0 where
  negative : ℕ → Stamp
  stamp : ℕ → Stamp

-- The rows, and `PRAGMA user_version`.
pub record File (R : Type 0) : Type 0 where
  pub rows : R
  pub version : Stamp

pub data Action (R : Type 0) : Type 0 where
  rewrites : (R → R) → Action R
  commits throws : Action R

pub data VersionError : Type 0 where
  bad_target newer in_open_transaction sql_failed step_failed : VersionError
  missing_step closed_transaction : ℕ → VersionError

abbrev pub is_version : Stamp → ℕ → Bool
is_version (negative n) current = false
is_version (stamp n) current = nat_beq n current

abbrev pub is_newer : Stamp → ℕ → Bool
is_newer (negative n) current = false
is_newer (stamp n) current = ltb current n

-- `Math.max(stored, 1)`.
abbrev pub first_version : Stamp → ℕ
first_version (negative n) = 1
first_version (stamp n) = max n 1

abbrev pub is_bad_target : ℕ → Bool
is_bad_target current = ltb current 1 || ltb 2147483647 current

abbrev pub write_rows : {R : Type 0} → (R → R) → File R → File R
write_rows f file = record file { rows = f file.rows }

abbrev pub write_version : {R : Type 0} → ℕ → File R → File R
write_version n file = record file { version = stamp n }

-- `requireImportableRuntimeStorage`, on the versions of the images.
abbrev pub require_importable : List Stamp → ℕ → Result VersionError (Unit {0})
require_importable [] current = ok tt
require_importable (v ∷ vs) current =
    if is_newer v current then err newer else require_importable vs current

-- A computation on the database, which keeps its changes when it throws.
abbrev pub T : Type 0 → Type 0
T S = S → Result VersionError (Unit {0}) × S

module _ {S : Type 0} where
  abbrev pub chain : Result VersionError (Unit {0}) × S → T S → Result VersionError (Unit {0}) × S
  chain (ok _, s) f = f s
  chain (err x, s) f = (err x, s)

module _ {S R : Type 0} (e : Engine S (File R)) (in_transaction : S → Bool) where
  abbrev pub ran : Bool × S → Result VersionError (Unit {0}) × S
  ran (true, s) = (ok tt, s)
  ran (false, s) = (err sql_failed, s)

  abbrev pub exec : Statement (File R) → T S
  exec st s = ran (e.run st s)

  abbrev pub run_action : Action R → T S
  run_action (rewrites f) s = exec (write (write_rows f)) s
  run_action commits s = exec commit_transaction s
  run_action throws s = (err step_failed, s)

  abbrev pub run_step : List (Action R) → T S
  run_step [] s = (ok tt, s)
  run_step (x ∷ xs) s = chain (run_action x s) (run_step xs)

  -- One turn of the loop.
  abbrev pub check_open : ℕ → T S
  check_open from s = if in_transaction s then (ok tt, s) else (err (closed_transaction from), s)

  abbrev pub migrate_one : Option (List (Action R)) → ℕ → T S
  migrate_one none from s = (err (missing_step from), s)
  migrate_one (some step) from s = chain (run_step step s) (check_open from)

  -- The loop, for the number of steps that are left.
  unfoldable pub migrate : ℕ → List (List (Action R)) → ℕ → T S
  migrate zero migrations from s = (ok tt, s)
  migrate (suc left) migrations from s =
      chain (migrate_one (get_elem? migrations (from - 1)) from s)
        (migrate left migrations (suc from))

  -- What is still open is rolled back.
  abbrev pub caught_on : Bool → VersionError → T S
  caught_on true x s = chain (exec rollback_transaction s) (λ s'. (err x, s'))
  caught_on false x s = (err x, s)

  abbrev pub caught : Result VersionError (Unit {0}) × S → Result VersionError (Unit {0}) × S
  caught (ok _, s) = (ok tt, s)
  caught (err x, s) = caught_on (in_transaction s) x s

  abbrev pub stamp_and_commit : ℕ → T S
  stamp_and_commit current s =
      chain (exec (write (write_version current)) s) (exec commit_transaction)

  abbrev pub upgrade : Stamp → ℕ → List (List (Action R)) → T S
  upgrade stored current migrations s =
      let from = first_version stored in
      chain (exec begin_transaction s) (λ s'.
        caught (chain (migrate (current - from) migrations from s') (stamp_and_commit current)))

  -- `ensureRuntimeStorageVersion`, with the version that the file has.
  abbrev pub ensure_version : Stamp → ℕ → List (List (Action R)) → T S
  ensure_version stored current migrations s =
      if is_bad_target current
      then (err bad_target, s)
      else (if is_version stored current
          then (ok tt, s)
          else (if is_newer stored current
              then (err newer, s)
              else (if in_transaction s
                  then (err in_open_transaction, s)
                  else upgrade stored current migrations s)))
