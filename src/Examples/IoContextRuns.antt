-- ===== src/Examples/IoContextRuns.antt =====
-- src/io/io-context.ts: an event runs and keeps a reference across an await.
use do_runtime.Common.{◌≡◌, ◌≢◌, refl, none, [], ◌∷◌, ok, nat_eq}
use do_runtime.InputGate.{
  Held, Heap, fresh_heap, granted, new_lock, release, release_lock, release_here, drop_lock,
  resolve, add_ref,
}
use do_runtime.InputGate.Sections.{now, wait, wait_here, wait_unless}
use do_runtime.InputGate.Rules.{IsSound}
use do_runtime.IoContext.{Context, open_context, run_event, run_held, checkpoint, drain}
use do_runtime.IoContext.Turns.{take_reference, act_all, slice, event, Reach, opened, next}
use do_runtime.IoContext.Checkpoints.{Ends}
use do_runtime.IoContext.Safety.{Reach-checkpoint, Reach-run_event}

-- An event is let in under lock 0, and its slice awaits with lock 1.
abbrev entered : Context
entered = (run_event (open_context fresh_heap 0)).1

abbrev awaits : Context
awaits = (run_held 0 (act_all (take_reference ∷ [])) entered).1

awaits-Reach : Reach awaits
unfolding wait_unless wait wait_here new_lock resolve
awaits-Reach = next (next opened event) (slice 0 (take_reference ∷ []) refl refl)

abbrev on_gate : Held
on_gate = record { gate = 0; keeper = none }

Reach-checkpoint_example :
    (h : Heap) × (checkpoint awaits ≡ (ok tt, record awaits { heap = h; locks = []; exits = [] }))
    × IsSound h
    × Ends awaits.exits awaits.heap h
Reach-checkpoint_example = Reach-checkpoint awaits-Reach

-- Its exit alone does not open the gate.
Reach-run_event_example : (run_event (checkpoint awaits).1).0 ≢ ok (now (granted 2))
unfolding wait_unless wait wait_here new_lock resolve act_all add_ref
Reach-run_event_example = Reach-run_event awaits-Reach 1 on_gate refl refl refl 2

-- The exit of the second slice does: the next event is let in under lock 2.
reopened :
    (run_event (checkpoint (run_held 1 (act_all []) (checkpoint awaits).1).1).1).0
    ≡ ok (now (granted 2))
unfolding wait_unless wait wait_here new_lock resolve act_all add_ref checkpoint drain release
    release_lock release_here drop_lock
reopened = refl
