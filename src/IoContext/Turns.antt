-- ===== src/IoContext/Turns.antt =====
-- The life of a context: slices, new events, checkpoints and aborts in any order.
use do_runtime.Common.{ℕ, Bool, ◌≡◌, true, false, List, [], ◌∷◌, String, Result, ok, err, nat_eq}
use do_runtime.InputGate.{fresh_heap}
use do_runtime.InputGate.Fresh.{is_live}
use do_runtime.IoContext.{
  ContextError, Context, Outcome, open_context, abort, acquire_activity, release_activity,
  get_input_lock, block_concurrency_while, and_then, run_held, settle_event, run_event, contains,
  checkpoint,
}

-- What the body of a slice does with its context.
pub data Action : Type 0 where
  take_reference : Action
  block : Action
  stop : String → Action
  throw : ContextError → Action

abbrev pub forget : Result ContextError ℕ × Context → Outcome
forget (ok l, c) = (ok tt, c)
forget (err x, c) = (err x, c)

abbrev pub act : Action → Context → Outcome
act take_reference c = forget (get_input_lock c)
act block c = block_concurrency_while c
act (stop e) c = (ok tt, abort e c)
act (throw x) c = (err x, c)

unfoldable pub act_all : List Action → Context → Outcome
act_all [] c = (ok tt, c)
act_all (a ∷ as') c = and_then (act a c) (λ x. act_all as' x)

-- A slice runs under a live lock that no slice of the batch has.
pub data Turn (c : Context) : Context → Type 0 where
  slice :
      (l : ℕ) (body : List Action)
      → is_live l c.heap ≡ true
      → contains l c.locks ≡ false
      → Turn c (run_held l (act_all body) c).1
  event : Turn c (run_event c).1
  settled : Turn c (settle_event c)
  leased : Turn c (acquire_activity c)
  returned : (held : Bool) → Turn c (release_activity held c).1
  stopped : (e : String) → Turn c (abort e c)
  turn_end : Turn c (checkpoint c).1

pub data Reach : Context → Type 0 where
  opened : Reach (open_context fresh_heap 0)
  next : {c c' : Context} → Reach c → Turn c c' → Reach c'
