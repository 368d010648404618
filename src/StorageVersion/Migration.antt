-- ===== src/StorageVersion/Migration.antt =====
-- src/util/sqlite-migrations.ts: what an upgrade leaves in the file.
pub mod Loop
use mathlib.Core.Option.{some-injective}
use do_runtime.Common.{
  ℕ, zero, suc, ◌-◌, ◌≡◌, refl, ap, ◌∙◌, ◌⊎◌, inl, inr, Bool, true, false, Option, none, some, List,
  [], ◌∷◌, ◌&&◌, not, get_elem?, Result, ok, err, Bool-cases, arith,
}
use do_runtime.ActorSqlite.Sqlite.{
  Statement, View, is_closed, sqlite_step, begin_transaction, commit_transaction,
  rollback_transaction, write, Engine,
}
use do_runtime.ActorSqlite.Statements.{view_of}
use do_runtime.StorageVersion.{
  Stamp, stamp, File, Action, rewrites, commits, throws, VersionError, bad_target, newer,
  missing_step, closed_transaction, step_failed, sql_failed, is_version, is_newer, first_version,
  is_bad_target, write_rows, write_version, T, chain, run_step, check_open, migrate_one, migrate,
  caught, stamp_and_commit, upgrade, ensure_version,
}
use do_runtime.StorageVersion.Migration.Loop.{
  rows_after, are_clean, file_of, IsAt, Ended, open_tells, IsLoose-tells, IsLooped, IsLooped,
  loop_lem,
}

module _ {S R : Type 0} (e : Engine S (File R)) (in_transaction : S → Bool)
    (view : S → View (File R))
    (runs : (st : Statement (File R)) (s : S) (v : View (File R))
      → sqlite_step st (view s) ≡ some v
      → (s' : S) × ((e.run st s ≡ (true, s')) × (view s' ≡ v)))
    (refuses : (st : Statement (File R)) (s : S)
      → sqlite_step st (view s) ≡ none
      → (s' : S) × ((e.run st s ≡ (false, s')) × (view s' ≡ view s)))
    (tells : (s : S) → in_transaction s ≡ not (is_closed (view s).begun (view s).marks))
    (f : File R) where
  -- The file behind an upgrade to `current`, ...
  abbrev pub upgraded : ℕ → R → File R
  upgraded current y = record { rows = y; version = stamp current }

  -- ... and what an upgrade leaves: the new file, or the old version with an error, and then the old
  -- file unless a step has ended the transaction.
  abbrev pub IsLeft : ℕ → R → Bool → Result VersionError (Unit {0}) → S → Type 0
  IsLeft current y clean (ok _) s =
      view s ≡ view_of (upgraded current y) (upgraded current y) false []
  IsLeft current y clean (err _) s =
      (g : File R) × ((view s ≡ view_of g g false [])
        × ((g.version ≡ f.version) × (clean ≡ true → g ≡ f)))

  commit_lem :
      (current : ℕ) (y : R) (clean : Bool) (s : S)
      → IsAt e in_transaction view runs refuses tells f y s
      → Ended e in_transaction view runs refuses tells f
          (stamp_and_commit e in_transaction current s)
          (λ q s'.
            (q ≡ ok tt) × (view s' ≡ view_of (upgraded current y) (upgraded current y) false []))
  commit_lem current y clean s w =
      let (s1, (ran, w1)) =
        runs (write (write_version current)) s (view_of (upgraded current y) f true [])
          (ap (sqlite_step (write (write_version current))) w) in
      let (s2, (goes, w2)) =
        runs commit_transaction s1 (view_of (upgraded current y) (upgraded current y) false [])
          (ap (sqlite_step commit_transaction) w1) in
      (ok tt, (s2, (rw (ran, goes), (refl, w2))))

  caught_lem :
      (x : VersionError) (current : ℕ) (y : R) (clean : Bool) (s : S)
      → IsLooped e in_transaction view runs refuses tells f (err x) y clean s
      → Ended e in_transaction view runs refuses tells f
          (caught e in_transaction (err x, s))
          (IsLeft current y clean)
  caught_lem x current y clean s (inl (z, w)) =
      let (s1, (ran, w1)) =
        runs rollback_transaction s (view_of f f false [])
          (ap (sqlite_step rollback_transaction) w) in
      (
        err x,
        (
          s1,
          (
            rw (open_tells e in_transaction view runs refuses tells f z s w, ran),
            (f, (w1, (refl, λ _. refl))),
          ),
        ),
      )
  caught_lem x current y clean s (inr ((z, w), c)) = (
    err x,
    (
      s,
      (
        rw (IsLoose-tells e in_transaction view runs refuses tells f s (z, w)),
        (
          file_of e in_transaction view runs refuses tells f z,
          (w, (refl, λ t. absurd (ground arith))),
        ),
      ),
    ),
  )

  finish_lem :
      (t : Result VersionError (Unit {0}) × S) (q : Result VersionError (Unit {0})) (current : ℕ)
      (y : R) (clean : Bool) (s : S)
      → t ≡ (q, s)
      → IsLooped e in_transaction view runs refuses tells f q y clean s
      → Ended e in_transaction view runs refuses tells f
          (caught e in_transaction (chain t (stamp_and_commit e in_transaction current)))
          (IsLeft current y clean)
  finish_lem t (ok _) current y clean s p w =
      let (q, (s2, (goes, (is_ok, w2)))) = commit_lem current y clean s w in
      (ok tt, (s2, (rw (p, goes, is_ok), w2)))
  finish_lem t (err x) current y clean s p w =
      let (q, (s2, (goes, w2))) = caught_lem x current y clean s w in (q, (s2, (rw (p) goes, w2)))

  upgrade_lem :
      (stored : Stamp) (current : ℕ) (migrations : List (List (Action R))) (s : S)
      → view s ≡ view_of f f false []
      → Ended e in_transaction view runs refuses tells f
          (upgrade e in_transaction stored current migrations s)
          (IsLeft current
            (rows_after (current - first_version stored) migrations (first_version stored) f.rows)
            (are_clean migrations))
  upgrade_lem stored current migrations s w =
      let from = first_version stored in
      let (s1, (ran, w1)) =
        runs begin_transaction s (view_of f f true []) (ap (sqlite_step begin_transaction) w) in
      let (q, (s2, (goes, w2))) =
        loop_lem e in_transaction view runs refuses tells f (current - from) migrations from f.rows
          s1 w1 in
      let (q', (s3, (ends, w3))) =
        finish_lem (migrate e in_transaction (current - from) migrations from s1) q current
          (rows_after (current - from) migrations from f.rows) (are_clean migrations) s2 goes w2 in
      (q', (s3, (rw (ran) ends, w3)))

  refused :
      (x : VersionError) (current : ℕ) (y : R) (clean : Bool) (s : S)
      → view s ≡ view_of f f false []
      → IsLeft current y clean (err x) s
  refused x current y clean s w = (f, (w, (refl, λ _. refl)))

  -- The version of a database that is open in no transaction is checked, for any version, target and
  -- steps: the file has the version already and nothing is done; or it ends with the rows that the
  -- steps make and the new version, all durable; or there is an error, the file keeps its version,
  -- durably, and unless a step has ended the transaction it is the file that it was. No transaction
  -- is left open. The conditions: the engine runs and refuses statements as SQLite documents, and
  -- tells whether a transaction is open.
  pub ensure_version-IsLeft :
      (current : ℕ) (migrations : List (List (Action R))) (s : S)
      → view s ≡ view_of f f false []
      → Ended e in_transaction view runs refuses tells f
          (ensure_version e in_transaction f.version current migrations s)
          (λ r s'.
            ((is_version f.version current ≡ true) × ((r ≡ ok tt) × (s' ≡ s)))
            ⊎ IsLeft current
                (rows_after
                  (current - first_version f.version)
                  migrations
                  (first_version f.version)
                  f.rows)
                (are_clean migrations)
                r
                s')
  ensure_version-IsLeft current migrations s w =
      let y =
        rows_after (current - first_version f.version) migrations (first_version f.version)
          f.rows in
      let clean = are_clean migrations in
      let closed = tells s ∙ ap (λ v. not (is_closed v.begun v.marks)) w in
      elim (Bool-cases (is_bad_target current)) [
        | inl a ↦ rw (a) (err bad_target, (s, (refl, inr (refused bad_target current y clean s w))))
        | inr a ↦ elim (Bool-cases (is_version f.version current)) [
          | inl b ↦ rw (a, b) (ok tt, (s, (refl, inl (refl, (refl, refl)))))
          | inr b ↦ elim (Bool-cases (is_newer f.version current)) [
            | inl c ↦ rw (a, b, c) (err newer, (s, (refl, inr (refused newer current y clean s w))))
            | inr c ↦
                let (r, (s', (ran, left))) = upgrade_lem f.version current migrations s w in
                rw (a, b, c, closed) (r, (s', (ran, inr left)))
          ]
        ]
      ]
