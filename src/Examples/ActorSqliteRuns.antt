-- ===== src/Examples/ActorSqliteRuns.antt =====
-- Runs of src/io/actor-sqlite.ts.
use do_runtime.Common.{
  ℕ, ◌+◌, ◌≡◌, refl, Bool, true, false, Option, none, some, List, [], ◌∷◌, Result,
}
use do_runtime.ActorSqlite.Sqlite.{Statement, View, sqlite_step, Engine}
use do_runtime.ActorSqlite.{Failure, no_txn, transaction_sync}
use do_runtime.ActorSqlite.Statements.{view_of, live}
use do_runtime.ActorSqlite.Scheduling.{construct_alarms}
use do_runtime.ActorSqlite.Commits.{
  World, open_world, change_alarm, begin_commit, persist, finish_commit, grant_later, confirm_later,
  end_later,
}
use do_runtime.ActorSqlite.Commits.Steps
use do_runtime.ActorSqlite.Commits.Steps.{Reach, Step}
use do_runtime.ActorSqlite.Sync.{Work, done, throws, writes, syncs, perform, exec}
use do_runtime.ActorSqlite.Sync.Snapshots.{transaction_sync-exec}
use do_runtime.ActorSqlite.Sync.Snapshots.Guarded.{sync_result, is_ok, IsDone}
use do_runtime.ActorSqlite.Programs.{
  Program, finish, works, transaction, next_turn, run_program, content_after, durable_after,
}
use do_runtime.ActorSqlite.Programs.Roots.{run_program-IsAtTop}
use do_runtime.ActorSqlite.Programs.Roots.Steps.{IsAtTop, implicit_of}
use do_runtime.ActorSqlite.Handler.{
  Slot, HandlerCall, setting, failing, running, run_calls, arm_alarm_handler, get_alarm,
  maybe_delete_deferred_alarm,
}
use do_runtime.ActorSqlite.Handler.Runs.{left_behind, run_calls-left_behind}
use do_runtime.ActorSqlite.Commits.Cycle.{commit_cycle, settled, commit_cycle-change_alarm}

-- An engine that is what SQLite documents.
abbrev answer : {C : Type 0} → Option (View C) → View C → Bool × View C
answer none v = (false, v)
answer (some w) v = (true, w)

abbrev memory_engine : Engine (View ℕ) ℕ
memory_engine = record { run = λ st v. answer (sqlite_step st v) v; critical = λ v. false }

abbrev memory_runs :
    (st : Statement ℕ) (s v : View ℕ)
    → sqlite_step st s ≡ some v
    → (s' : View ℕ) × ((answer (sqlite_step st s) s ≡ (true, s')) × (s' ≡ v))
memory_runs st s v e = (v, (rw (e), refl))

-- A write, and a nested call that fails and is caught.
abbrev nested_work : Work ℕ
nested_work =
    writes (λ c. c + 1) false
      (syncs (writes (λ c. c + 10) false throws) true (writes (λ c. c + 100) true done))

exec_run : exec nested_work 0 ≡ exec (writes (λ c. c + 101) false done) 0
unfolding exec
exec_run = refl

transaction_sync-exec_example :
    (r : Result Failure (Unit {0})) × ((is_ok r ≡ (sync_result (exec nested_work 0) 0).0)
      × IsDone memory_engine
          (λ v. v)
          memory_runs
          (λ v. refl)
          false
          false
          0
          true
          (implicit_of false)
          0
          []
          (transaction_sync memory_engine
            (perform memory_engine nested_work)
            (live false false (view_of 0 0 true []) 0 (implicit_of false) 0))
          r
          (sync_result (exec nested_work 0) 0).1)
transaction_sync-exec_example =
    transaction_sync-exec memory_engine (λ v. v) memory_runs (λ v. refl) false false 0 true
      nested_work (view_of 0 0 true []) 0 (implicit_of false) 0 0 [] refl refl refl

-- A write, a transaction that is rolled back around one that is committed, and one more write.
abbrev nested_program : Program ℕ
nested_program = works (writes (λ c. c + 1) false done) (
    transaction (works nested_work (transaction (works nested_work finish) true (next_turn finish)))
      false (works (writes (λ c. c + 5) false done) finish))

content_run : content_after nested_program 0 ≡ 6
unfolding content_after exec
content_run = refl

durable_run : durable_after nested_program 0 0 ≡ 1
unfolding durable_after content_after exec
durable_run = refl

run_program-IsAtTop_example :
    IsAtTop memory_engine
      (λ v. v)
      memory_runs
      (λ v. refl)
      (λ v. false)
      (λ v. refl)
      false
      0
      (run_program memory_engine
        (λ v. false)
        nested_program
        (live false false (view_of 0 0 false []) 0 no_txn 0))
      (content_after nested_program 0)
      (durable_after nested_program 0 0)
run_program-IsAtTop_example =
    run_program-IsAtTop memory_engine (λ v. v) memory_runs (λ v. refl) (λ v. false) (λ v. refl)
      false 0 nested_program none (view_of 0 0 false []) 0 false 0 0 (refl, refl)

abbrev commit_of : ℕ → World → World
commit_of t w = persist (begin_commit (change_alarm (some t) w))

abbrev committed : (t : ℕ) (w : World) → Reach w → Reach (commit_of t w)
committed t w r =
    Steps.stepped _ _
      (Steps.stepped _ _ (Steps.stepped _ _ r (Steps.changing (some t) w)) (Steps.beginning _))
      (Steps.landing _)

-- The alarm moves from 10 to 15, and the scheduler follows.
abbrev moved_world : World
moved_world = grant_later (finish_commit (commit_of 15 (open_world (some 10))))

abbrev moved_world-Reach : Reach moved_world
moved_world-Reach =
    Steps.stepped _ _
      (Steps.stepped _ _ (committed 15 (open_world (some 10)) (Steps.opened (some 10)))
        (Steps.finishing _))
      (Steps.granting_later _)

-- It moves to 20, which is parked, and then to 17, for which the 20 is dropped.
abbrev dropped_world : World
dropped_world = end_later (confirm_later (commit_of 17 (finish_commit (commit_of 20 moved_world))))

abbrev dropped_world-Reach : Reach dropped_world
dropped_world-Reach =
    Steps.stepped _ _
      (Steps.stepped _ _
        (committed 17 _
          (Steps.stepped _ _ (committed 20 moved_world moved_world-Reach) (Steps.finishing _)))
        (Steps.confirming_later _))
      (Steps.ending_later _ (λ taken. absurd (cc)))

dropped_run :
    (dropped_world.held ≡ some 15)
    × ((dropped_world.persisted.alarm ≡ some 17) × (dropped_world.alarms.pending_later ≡ none))
dropped_run = (refl, (refl, refl))

-- A parked time that is not timely: 20 is parked behind the request for 15, the alarm becomes 17
-- and then 25, and 20 is taken when 17 is persisted and 25 in flight.
abbrev late_world : World
late_world = grant_later (
    end_later (
      confirm_later (
        grant_later (
          finish_commit (
            persist (
              begin_commit (
                change_alarm (some 25) (
                  begin_commit (
                    change_alarm (some 17) (
                      finish_commit (
                        persist (
                          begin_commit (
                            change_alarm (some 20) (
                              finish_commit (
                                persist (
                                  begin_commit
                                    (change_alarm (some 15) (open_world (some 10)))))))))))))))))))

late_run : late_world.held ∷ late_world.persisted.alarm ∷ [] ≡ some 20 ∷ some 17 ∷ []
late_run = refl

-- A commit that goes on while a transaction has set the alarm to 30, which is then rolled back.
abbrev rolled_back_world : World
rolled_back_world =
    let w = begin_commit (change_alarm (some 30) (open_world (some 10))) in
    grant_later (finish_commit (record (persist w) { stored = some 10 }))

rolled_back_run : rolled_back_world.held ∷ rolled_back_world.stored ∷ [] ≡ some 30 ∷ some 10 ∷ []
rolled_back_run = refl

commit_cycle-change_alarm_example :
    commit_cycle (
      change_alarm (some 7) (
        settled
          (some 10)
          (record { alarm = some 10; version = 3 })
          (some 10)
          false
          false
          (some 10)
          3))
    ≡ settled (some 7) (record { alarm = some 7; version = 4 }) (some 7) false false (some 7) 4
commit_cycle-change_alarm_example =
    commit_cycle-change_alarm (some 7) (some 10) (record { alarm = some 10; version = 3 }) (some 10)
      false false (some 10) 3

abbrev handler_calls : List HandlerCall
handler_calls = setting (some 50) ∷ failing ∷ []

run_calls-left_behind_example :
    (s : Slot) × ((arm_alarm_handler 5 6
          (record { stored = some 5; alarms = construct_alarms (some 5) })
        ≡ (running, s))
      × ((get_alarm false s ≡ none)
          × ((s.stored ≡ some 5)
              × (((maybe_delete_deferred_alarm false (run_calls handler_calls s)).stored
                    ≡ left_behind handler_calls (some 5))
                  × ((maybe_delete_deferred_alarm false
                        (run_calls handler_calls s)).alarms.in_alarm_handler
                      ≡ false)))))
run_calls-left_behind_example =
    run_calls-left_behind handler_calls 5 6 (construct_alarms (some 5)) refl
