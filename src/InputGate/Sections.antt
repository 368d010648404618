-- ===== src/InputGate/Sections.antt =====
-- src/io/io-gate.ts: `wait` of a gate and of a critical section, cancellation, breaking, and the
-- three ways a section ends.
use do_runtime.Common.{
  ℕ, zero, suc, ◌+◌, Bool, false, Option, none, some, List, [], ◌∷◌, ◌++◌, nat_beq, if◌then◌else◌,
  Result, ok, err, nat_eq,
}
use do_runtime.InputGate.{
  Reason, canceled, called_twice, deadlock, GateError, not_running, no_parent_lock, absent_waiter,
  SectionState, not_started, initial_wait, running, reparented, FirstWait, absent, queued, got,
  lost, Section, Gate, Held, Outcome, granted, rejected, Heap, update, target, new_lock, set_first,
  release,
}

-- What a call of `wait` returns: a promise settled at once, one that waits under its number, or
-- the promise of a section's first wait.
pub data Answer : Type 0 where
  now : Outcome → Answer
  later : ℕ → Answer
  first_wait : Answer

abbrev pub enqueue : ℕ → Heap → Answer × Heap
enqueue g h =
    let gate = h.gates g in
    (
      later h.next_waiter,
      record h {
        gates = update h.gates g (record gate { waiters = gate.waiters ++ h.next_waiter ∷ [] });
        next_waiter = h.next_waiter + 1;
      },
    )

-- `InputGate.wait`, behind the test of the signal.
unfoldable pub wait_here : ℕ → Heap → Answer × Heap
wait_here g h = elim ((h.gates g).broken) [
  | some e ↦ (now (rejected e), h)
  | none ↦
      if nat_beq (h.gates g).lock_count 0
      then (now (granted h.next_lock), new_lock g none h)
      else enqueue g h
]

unfoldable pub lose_children : Reason → List ℕ → Heap → Heap
lose_children e [] h = h
lose_children e (s ∷ ss) h = lose_children e ss (set_first s (lost e) h)

unfoldable pub lose_waiters : Reason → List ℕ → List (ℕ × Outcome) → List (ℕ × Outcome)
lose_waiters e [] settled = settled
lose_waiters e (w ∷ ws) settled = lose_waiters e ws ((w, rejected e) ∷ settled)

-- `setBroken`.
unfoldable pub set_broken : ℕ → Reason → Heap → Heap
set_broken g e h =
    let gate = h.gates g in
    lose_children e gate.waiting_children (record h {
      gates =
          update h.gates g (record gate { waiters = []; waiting_children = []; broken = some e });
      settled = lose_waiters e gate.waiters h.settled;
    })

abbrev pub set_section : ℕ → Section → Heap → Heap
set_section g sec h = record h { sections = update h.sections g (some sec) }

-- A section holds its parent lock and goes on as a gate of its own.
abbrev pub start_running : Bool → ℕ → Section → ℕ → Heap → Answer × Heap
start_running aborted g sec l h =
    let h' =
      set_section g (record sec { state = running; parent_lock = some l; first = absent }) h in
    if aborted then (now (rejected canceled), h') else wait_here g h'

abbrev pub queue_section : ℕ → Section → ℕ → Heap → Answer × Heap
queue_section g sec t h =
    let gate = h.gates t in
    (
      first_wait,
      set_section g (record sec { state = initial_wait; first = queued })
          (record h {
            gates =
                update h.gates t
                  (record gate { waiting_children = gate.waiting_children ++ g ∷ [] });
          }),
    )

-- The first `wait` of a section, up to its first `await`.
unfoldable pub begin_section : ℕ → Section → Heap → Answer × Heap
begin_section g sec h =
    let t = target h.sections sec.parent in
    elim ((h.gates t).broken) [
      | some e ↦
          (now (rejected e), set_broken g e (set_section g (record sec { state = initial_wait }) h))
      | none ↦
          if nat_beq (h.gates t).lock_count 0
          then start_running false g sec h.next_lock (new_lock t (some g) h)
          else queue_section g sec t h
    ]

abbrev pub wait_by : SectionState → (Heap → Answer × Heap) → ℕ → Section → Heap → Answer × Heap
wait_by not_started outer g sec h = begin_section g sec h
wait_by initial_wait outer g sec h = (now (rejected called_twice), h)
wait_by running outer g sec h = wait_here g h
wait_by reparented outer g sec h = outer h

-- `wait` as it is dispatched; a section that is done defers to its parent, which is older.
unfoldable pub wait : ℕ → ℕ → Heap → Answer × Heap
unfolding wait_here begin_section
wait zero g h = wait_here g h
wait (suc fuel) g h = elim (h.sections g) [
  | none ↦ wait_here g h
  | some sec ↦ wait_by sec.state (λ h'. wait fuel sec.parent h') g sec h
]

unfoldable pub wait_unless : Bool → ℕ → Heap → Answer × Heap
unfolding wait
wait_unless aborted g h = if aborted then (now (rejected canceled), h) else wait g g h

abbrev pub resume_by : FirstWait → Bool → ℕ → Section → Heap → Answer × Heap
resume_by (got l) aborted g sec h = start_running aborted g sec l h
resume_by (lost canceled) aborted g sec h =
    (now (rejected canceled), set_section g (record sec { first = absent }) h)
resume_by (lost e) aborted g sec h = (
  now (rejected e),
  set_broken g e (set_section g (record sec { state = running; first = absent }) h),
)
resume_by _ aborted g sec h = (first_wait, h)

-- The rest of the first `wait`, once its promise is settled; the signal may be aborted by then.
unfoldable pub resume : Bool → ℕ → Heap → Answer × Heap
resume aborted g h = elim (h.sections g) [
  | none ↦ (first_wait, h)
  | some sec ↦ resume_by sec.first aborted g sec h
]

unfoldable pub unlink : ℕ → List ℕ → Option (List ℕ)
unlink w [] = none
unlink w (v ∷ vs) =
    if nat_beq v w
    then some vs
    else elim (unlink w vs) [ none ↦ none | some rest ↦ some (v ∷ rest) ]

-- The abort of the signal of a wait that is queued on `g`.
unfoldable pub cancel_waiter : ℕ → ℕ → Heap → Result GateError Heap
unfolding unlink
cancel_waiter g w h = elim (unlink w (h.gates g).waiters) [
  | none ↦ err absent_waiter
  | some rest ↦ ok (record h {
    gates = update h.gates g (record (h.gates g) { waiters = rest });
    settled = (w, rejected canceled) ∷ h.settled;
  })
]

unfoldable pub cancel_first : ℕ → ℕ → Heap → Result GateError Heap
unfolding unlink
cancel_first g s h = elim (unlink s (h.gates g).waiting_children) [
  | none ↦ err absent_waiter
  | some rest ↦ ok (
      set_first s (lost canceled)
        (record h { gates = update h.gates g (record (h.gates g) { waiting_children = rest }) }))
]

-- The lock leaves its keeper.
unfoldable pub hand_out : ℕ → List (ℕ × Held) → List (ℕ × Held)
hand_out l [] = []
hand_out l ((k, r) ∷ ls) =
    if nat_beq k l then (k, record r { keeper = none }) ∷ ls else (k, r) ∷ hand_out l ls

-- What waits on the section and what is locked on it goes over to the outer gate, behind what
-- waits there.
abbrev pub merged : Gate → Gate → Gate
merged outer inner = record outer {
  lock_count = outer.lock_count + inner.lock_count;
  waiters = outer.waiters ++ inner.waiters;
  waiting_children = outer.waiting_children ++ inner.waiting_children;
}

abbrev pub emptied : Gate → Gate
emptied gate = record gate { lock_count = 0; waiters = []; waiting_children = [] }

abbrev pub finish : ℕ → Section → ℕ → Heap → Heap
finish g sec l h =
    let t = target h.sections sec.parent in
    record h {
      gates = update (update h.gates t (merged (h.gates t) (h.gates g))) g (emptied (h.gates g));
      sections = update h.sections g (some (record sec { state = reparented; parent_lock = none }));
      locks = hand_out l h.locks;
    }

abbrev pub finish_by : SectionState → Option ℕ → ℕ → Section → Heap → Result GateError (ℕ × Heap)
finish_by running none g sec h = err no_parent_lock
finish_by running (some l) g sec h = ok (l, finish g sec l h)
finish_by _ _ g sec h = err not_running

-- `succeeded`: the lock that it returns, and the heap behind it.
unfoldable pub succeeded : ℕ → Heap → Result GateError (ℕ × Heap)
unfolding hand_out
succeeded g h = elim (h.sections g) [
  | none ↦ err not_running
  | some sec ↦ finish_by sec.state sec.parent_lock g sec h
]

-- `failed`, from the section outwards.
unfoldable pub failed : ℕ → ℕ → Reason → Heap → Heap
failed zero g e h = set_broken g e h
failed (suc fuel) g e h = elim (h.sections g) [
  | none ↦ set_broken g e h
  | some sec ↦ elim ((h.gates g).broken) [
    | some _ ↦ h
    | none ↦ failed fuel sec.parent e (set_broken g e h)
  ]
]

abbrev pub fail_if_running : SectionState → ℕ → Heap → Heap
fail_if_running running g h = failed g g deadlock h
fail_if_running _ g h = h

abbrev pub give_back : Option ℕ → ℕ → Section → Heap → Result GateError Heap
give_back none g sec h = ok h
give_back (some l) g sec h = release l (set_section g (record sec { parent_lock = none }) h)

abbrev pub give_back_in : ℕ → Heap → Result GateError Heap
give_back_in g h = elim (h.sections g) [
  | none ↦ ok h
  | some sec ↦ give_back sec.parent_lock g sec h
]

-- `drop`: a section that still runs has failed; then its parent lock is released.
unfoldable pub drop_section : ℕ → Heap → Result GateError Heap
drop_section g h = elim (h.sections g) [
  | none ↦ ok h
  | some sec ↦ give_back_in g (fail_if_running sec.state g h)
]
