-- ===== src/Examples/AlarmCoordinatorRuns.antt =====
-- src/browser/alarm-coordinator.ts: a wake is projected, fires, and the worker is stopped.
use do_runtime.Common.{refl, arith, true, false, none, some, []}
use do_runtime.AlarmCoordinator.{Projection, Disk, reconcile, run}
use do_runtime.AlarmCoordinator.Fire.{fire, found_or_new, IsAttempt, fire-IsAttempt}
use do_runtime.AlarmScheduler.Ladder.{alarm_retry_delay_ms}
use do_runtime.AlarmCoordinator.Crashes.{
  projecting, firing, Machine, called, cut, machine, Step, call, stop, start, fresh, step, IsAwake,
}
use do_runtime.AlarmCoordinator.Wakes.{Reach-IsAwake}

abbrev wake_at_5000 : Projection
wake_at_5000 = record { generation = 1; when = some 5000 }

abbrev empty : Disk
empty = record { journal = none; physical = none }

abbrev projected : Disk
projected = called 10 (projecting wake_at_5000) empty

-- The alarm fires, and the worker is stopped behind the first effect.
abbrev stopped : Disk
stopped = cut 1 5001 (firing [] 5000) projected

abbrev started : Machine
started = machine (run (reconcile 5600 stopped.journal) stopped) 5600 true

projects : Step (machine empty 0 true) (machine projected 10 true)
projects = call (projecting wake_at_5000) empty 0 10 (omega arith)

stops : Step (machine projected 10 true) (machine stopped 5001 false)
stops = stop 1 (firing [] 5000) projected 10 5001 (omega arith)

starts : Step (machine stopped 5001 false) started
starts = start stopped 5001 5600 (omega arith)

Reach-IsAwake_example : IsAwake started
Reach-IsAwake_example =
    Reach-IsAwake started
      (step (machine stopped 5001 false) started
        (step (machine projected 10 true) (machine stopped 5001 false)
          (step (machine empty 0 true) (machine projected 10 true) fresh projects) stops)
        starts)
      refl

fire-IsAttempt_example :
    IsAttempt [] 5001
      (found_or_new 5000 none)
      (record { generation = 0; retry_count = 1; wake = 7001 })
      (fire [] 5001 5000 none).effects
unfolding fire alarm_retry_delay_ms
fire-IsAttempt_example =
    fire-IsAttempt [] 5001 5000 none (record { generation = 0; retry_count = 1; wake = 7001 }) refl
