-- ===== src/IoContext.antt =====
-- src/io/io-context.ts: the slices of an actor's context over the heap of its input gate. A slice runs
-- under a lock, which leaves the stack and is released at the end of the microtask checkpoint; an
-- await keeps a lock of its own, or takes a new one when it goes on. The body of a slice is a
-- function.
pub mod Turns
pub mod Kept
pub mod Actions
pub mod Batches
pub mod Safety
pub mod Checkpoints
use do_runtime.Common.{
  ℕ, zero, suc, ◌+◌, ◌-◌, Bool, true, false, Option, none, some, List, [], ◌∷◌, ◌++◌, String,
  nat_beq, if◌then◌else◌, Result, ok, err, is_some,
}
use do_runtime.InputGate.{GateError, Heap, release, add_ref, start_critical_section}
use do_runtime.InputGate.Sections.{Answer, wait_unless}

pub data ContextError : Type 0 where
  no_input_lock lost_lock : ContextError
  aborted_with : String → ContextError
  gate_error : GateError → ContextError

-- `locks` is the stack, the running slice first, and `exits` the batch of the next checkpoint.
pub record Context : Type 0 where
  pub heap : Heap
  pub gate : ℕ
  pub locks : List ℕ
  pub exits : List ℕ
  pub pending_events : ℕ
  pub activity_leases : ℕ
  pub aborted : Option String

abbrev pub open_context : Heap → ℕ → Context
open_context heap gate = record {
  heap = heap;
  gate = gate;
  locks = [];
  exits = [];
  pending_events = 0;
  activity_leases = 0;
  aborted = none;
}

abbrev pub Outcome : Type 0
Outcome = Result ContextError (Unit {0}) × Context

abbrev abort_on : Option String → String → Context → Context
abort_on none e c = record c { aborted = some e }
abort_on (some f) e c = c

-- `abort`; the first reason stays.
abbrev pub abort : String → Context → Context
abort e c = abort_on c.aborted e c

-- `hasCurrent`, and `acquireActivity` with its release, which remembers whether it is `held`.
abbrev pub has_current : Context → Bool
has_current c = elim c.locks [ [] ↦ false | _ ∷ _ ↦ true ]

abbrev pub acquire_activity : Context → Context
acquire_activity c = record c { activity_leases = suc c.activity_leases }

abbrev pub release_activity : Bool → Context → Bool × Context
release_activity false c = (false, c)
release_activity true c = (false, record c { activity_leases = c.activity_leases - 1 })

-- A call of the gate that must not throw is the gate's error if it does.
abbrev pub put_heap : Result GateError Heap → Context → Outcome
put_heap (ok heap) c = (ok tt, record c { heap = heap })
put_heap (err x) c = (err (gate_error x), c)

abbrev pub fail_with : ContextError → Outcome → Outcome
fail_with x (ok _, c) = (err x, c)
fail_with x (err y, c) = (err y, c)

abbrev pub release_of : ℕ → Context → Outcome
release_of l c = put_heap (release l c.heap) c

abbrev held_on : Result GateError Heap → Context → Result ContextError ℕ × Context
held_on (ok heap) c = (ok c.heap.next_lock, record c { heap = heap })
held_on (err x) c = (err (gate_error x), c)

-- `getInputLock`: a reference to the lock of the running slice.
abbrev pub get_on : List ℕ → Context → Result ContextError ℕ × Context
get_on [] c = (err no_input_lock, c)
get_on (l ∷ ls) c = held_on (add_ref l c.heap) c

abbrev pub get_input_lock : Context → Result ContextError ℕ × Context
get_input_lock c = get_on c.locks c

abbrev pub and_then : Outcome → (Context → Outcome) → Outcome
and_then (ok _, c) f = f c
and_then (err x, c) f = (err x, c)

-- The synchronous part of `blockConcurrencyWhile`: the new section, which is the gate with the next
-- number, begins to wait, and then the lock goes back.
abbrev pub started_on : Result GateError Heap → ℕ → ℕ → Context → Outcome
started_on (ok heap) s l c = release_of l (record c { heap = (wait_unless false s heap).1 })
started_on (err x) s l c = (err (gate_error x), c)

abbrev pub block_on : Result ContextError ℕ × Context → Outcome
block_on (ok l, c) = started_on (start_critical_section l c.heap) c.heap.next_gate l c
block_on (err x, c) = (err x, c)

abbrev pub block_concurrency_while : Context → Outcome
block_concurrency_while c = block_on (get_input_lock c)

-- The end of a slice's synchronous body: its exit joins the batch.
abbrev pub leave : ℕ → Outcome → Outcome
leave l (r, c) = (r, record c { exits = c.exits ++ l ∷ [] })

-- `#runImpl`, the synchronous part. A lock of another actor is on another heap, so `isFor` holds.
abbrev pub run_on : Option String → ℕ → (Context → Outcome) → Context → Outcome
run_on (some e) l body c = fail_with (aborted_with e) (release_of l c)
run_on none l body c = leave l (body (record c { locks = l ∷ c.locks }))

abbrev pub run_impl : ℕ → (Context → Outcome) → Context → Outcome
run_impl l body c = run_on c.aborted l body c

-- `run` with a lock that is held already: the event is pending until its promise settles, which is
-- `settle_event`.
abbrev pub run_held_on : Option String → ℕ → (Context → Outcome) → Context → Outcome
run_held_on (some e) l body c = fail_with (aborted_with e) (release_of l c)
run_held_on none l body c = run_impl l body (record c { pending_events = suc c.pending_events })

abbrev pub run_held : ℕ → (Context → Outcome) → Context → Outcome
run_held l body c = run_held_on c.aborted l body c

abbrev pub settle_event : Context → Context
settle_event c = record c { pending_events = c.pending_events - 1 }

abbrev waited : Answer × Heap → Context → Result ContextError Answer × Context
waited (x, heap) c = (ok x, record c { pending_events = suc c.pending_events; heap = heap })

abbrev wait_on : Option String → Context → Result ContextError Answer × Context
wait_on (some e) c = (err (aborted_with e), c)
wait_on none c = waited (wait_unless false c.gate c.heap) c

-- `run` of a new event, up to the answer of the gate.
abbrev pub run_event : Context → Result ContextError Answer × Context
run_event c = wait_on c.aborted c

abbrev pub contains : ℕ → List ℕ → Bool
contains l [] = false
contains l (k ∷ ks) = if nat_beq k l then true else contains l ks

abbrev pub remove : ℕ → List ℕ → List ℕ
remove l [] = []
remove l (k ∷ ks) = if nat_beq k l then ks else k ∷ remove l ks

-- `#exit`.
abbrev pub exit : ℕ → Context → Outcome
exit l c =
    if contains l c.locks
    then release_of l (record c { locks = remove l c.locks })
    else (err lost_lock, c)

abbrev pub first_failure : Result ContextError (Unit {0}) → Outcome → Outcome
first_failure (ok _) (r, c) = (r, c)
first_failure (err x) (r, c) = (err x, c)

-- The batch of `atCheckpointEnd`: every callback runs, and the first exception is thrown then.
abbrev pub then_drain : (Context → Outcome) → Outcome → Outcome
then_drain rest (r, c) = first_failure r (rest c)

unfoldable pub drain : List ℕ → Context → Outcome
drain [] c = (ok tt, c)
drain (l ∷ ls) c = then_drain (λ x. drain ls x) (exit l c)

-- The end of a checkpoint; what is scheduled in it is for the next one.
unfoldable pub checkpoint : Context → Outcome
unfolding drain
checkpoint c = drain c.exits (record c { exits = [] })
