-- ===== src/AlarmCoordinator/Crashes.antt =====
-- src/browser/alarm-coordinator.ts: every order of calls, stops and starts of the worker.
use do_runtime.Common.{ℕ, ◌≤◌, max, Bool, true, false, Option, none, some, List, take}
use do_runtime.AlarmCoordinator.{
  Projection, Journal, Disk, Effect, run, project, reconcile, acknowledge, expected,
}
use do_runtime.AlarmCoordinator.Fire.{fire}

-- The operations that go through `#mutate`.
pub data Call : Type 0 where
  projecting : Projection → Call
  firing : List ℕ → ℕ → Call
  acknowledging : Projection → Call

abbrev pub effects_of : Call → ℕ → Option Journal → List Effect
effects_of (projecting p) now j = project p j
effects_of (firing active scheduled) now j = (fire active now scheduled j).effects
effects_of (acknowledging p) now j = acknowledge p j

-- The browser's alarm is gone when it fires.
abbrev pub before : Call → Disk → Disk
before (firing active scheduled) d = record d { physical = none }
before _ d = d

-- The worker is up between two operations, or down.
pub record Machine : Type 0 where
  pub disk : Disk
  pub clock : ℕ
  pub up : Bool

abbrev pub called : ℕ → Call → Disk → Disk
called now c d = run (effects_of c now d.journal) (before c d)

abbrev pub cut : ℕ → ℕ → Call → Disk → Disk
cut n now c d = run (take n (effects_of c now d.journal)) (before c d)

abbrev pub machine : Disk → ℕ → Bool → Machine
machine d now up = record { disk = d; clock = now; up = up }

-- An operation is done, or stopped behind `n` effects. A worker that starts reconciles, and may be
-- stopped at that too.
pub data Step : Machine → Machine → Type 0 where
  call :
      (c : Call) (d : Disk) (t now : ℕ)
      → t ≤ now
      → Step (machine d t true) (machine (called now c d) now true)
  stop :
      (n : ℕ) (c : Call) (d : Disk) (t now : ℕ)
      → t ≤ now
      → Step (machine d t true) (machine (cut n now c d) now false)
  stop_start :
      (n : ℕ) (d : Disk) (t now : ℕ)
      → t ≤ now
      → Step (machine d t false) (machine (run (take n (reconcile now d.journal)) d) now false)
  start :
      (d : Disk) (t now : ℕ)
      → t ≤ now
      → Step (machine d t false) (machine (run (reconcile now d.journal) d) now true)

pub data Reach : Machine → Type 0 where
  fresh : Reach (machine (record { journal = none; physical = none }) 0 true)
  step : (m m' : Machine) → Reach m → Step m m' → Reach m'

-- An alarm is armed at `w`, or by the present if `w` is past.
abbrev pub IsArmedBy : Option ℕ → ℕ → Option ℕ → Type 0
IsArmedBy none now physical = Unit
IsArmedBy (some w) now none = ⊥
IsArmedBy (some w) now (some t) = t ≤ max w now

abbrev pub IsAwakeAt : Option Journal → ℕ → Option ℕ → Type 0
IsAwakeAt none now physical = Unit
IsAwakeAt (some j) now physical = IsArmedBy (expected j) now physical

abbrev pub IsAwake : Machine → Type 0
IsAwake m = IsAwakeAt m.disk.journal m.clock m.disk.physical
