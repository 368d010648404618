-- ===== src/InputGate.antt =====
-- src/io/io-gate.ts, first half: `InputGate`, `Lock` and `CriticalSection`. Objects live on a heap:
-- a gate is a number, and a critical section is a gate that has an entry in `sections` too. A
-- promise that a call leaves open is a place in a queue; settling it is an entry of `settled`, or,
-- for the first wait of a section, the section's own `first`. The hooks, which only count, are not
-- modelled.
pub mod Sections
pub mod Chains
pub mod Tally
pub mod Rules
pub mod Locks
pub mod Release
pub mod Order
pub mod Waits
pub mod Endings
pub mod Breaking
pub mod Fresh
pub mod Growth
use do_runtime.Common.{
  ℕ, zero, suc, ◌+◌, ◌-◌, Bool, true, false, Option, none, some, List, [], ◌∷◌, ◌++◌, String,
  nat_beq, if◌then◌else◌, Result, ok, err, ◌>>=◌, lookup, nat_eq,
}

-- What a wait is rejected with, and what a gate is broken by.
pub data Reason : Type 0 where
  canceled : Reason
  called_twice : Reason
  deadlock : Reason
  exception : String → Reason

-- The errors that the gate raises about its own use.
pub data GateError : Type 0 where
  released_twice used_after_release none_outstanding reparented_holds_state not_running : GateError
  no_parent_lock absent_waiter : GateError

pub data SectionState : Type 0 where
  not_started initial_wait running reparented : SectionState

-- The promise of a section's first wait, as long as its coroutine has not gone on.
pub data FirstWait : Type 0 where
  absent : FirstWait
  queued : FirstWait
  got : ℕ → FirstWait
  lost : Reason → FirstWait

pub record Section : Type 0 where
  pub state : SectionState
  pub parent : ℕ
  pub parent_lock : Option ℕ
  pub first : FirstWait

-- `waiters` are promises, `waiting_children` are the sections whose first wait is queued here.
pub record Gate : Type 0 where
  pub lock_count : ℕ
  pub waiters : List ℕ
  pub waiting_children : List ℕ
  pub broken : Option Reason

-- A live lock: the gate that it was taken on, and the section that keeps it as its parent lock, if
-- one does. Nothing outside that section can reach it then.
pub record Held : Type 0 where
  pub gate : ℕ
  pub keeper : Option ℕ

pub data Outcome : Type 0 where
  granted : ℕ → Outcome
  rejected : Reason → Outcome

pub record Heap : Type 0 where
  pub gates : ℕ → Gate
  pub sections : ℕ → Option Section
  pub next_gate : ℕ
  pub locks : List (ℕ × Held)
  pub next_lock : ℕ
  pub next_waiter : ℕ
  pub settled : List (ℕ × Outcome)

abbrev pub update {ℓ} : {A : Type ℓ} → (ℕ → A) → ℕ → A → ℕ → A
update f g a x = if nat_beq g x then a else f x

abbrev pub open_gate : Gate
open_gate = record { lock_count = 0; waiters = []; waiting_children = []; broken = none }

-- One root gate.
abbrev pub fresh_heap : Heap
fresh_heap = record {
  gates = λ _. open_gate;
  sections = λ _. none;
  next_gate = 1;
  locks = [];
  next_lock = 0;
  next_waiter = 0;
  settled = [];
}

-- Where a section that has succeeded passes its business on to.
abbrev pub forward_of : Option Section → Option ℕ
forward_of none = none
forward_of (some s) = elim s.state [ reparented ↦ some s.parent | _ ↦ none ]

abbrev pub forward : (ℕ → Option Section) → ℕ → Option ℕ
forward sections g = forward_of (sections g)

-- `parentAsInputGate` walks up past sections that are done. A parent is older than its child, so
-- the number of the gate is fuel enough.
unfoldable pub resolve : ℕ → (ℕ → Option ℕ) → ℕ → ℕ
resolve zero link g = g
resolve (suc f) link g = elim (link g) [ none ↦ g | some p ↦ resolve f link p ]

abbrev pub target : (ℕ → Option Section) → ℕ → ℕ
target sections g = resolve g (forward sections) g

-- `new Lock(gate)`.
unfoldable pub new_lock : ℕ → Option ℕ → Heap → Heap
new_lock g keeper h =
    let t = target h.sections g in
    let gate = h.gates t in
    record h {
      gates = update h.gates t (record gate { lock_count = gate.lock_count + 1 });
      locks = (h.next_lock, record { gate = g; keeper = keeper }) ∷ h.locks;
      next_lock = h.next_lock + 1;
    }

abbrev pub put_first : Option Section → ℕ → FirstWait → Heap → Heap
put_first none s w h = h
put_first (some sec) s w h = record h {
  sections = update h.sections s (some (record sec { first = w }));
}

abbrev pub set_first : ℕ → FirstWait → Heap → Heap
set_first s w h = put_first (h.sections s) s w h

-- `fulfill(new Lock(this))` for a section that waits, and for a promise.
unfoldable pub fulfill_child : ℕ → ℕ → Heap → Heap
unfolding new_lock
fulfill_child g s h = set_first s (got h.next_lock) (new_lock g (some s) h)

unfoldable pub fulfill : ℕ → ℕ → Heap → Heap
unfolding new_lock
fulfill g w h = record (new_lock g none h) { settled = (w, granted h.next_lock) ∷ h.settled }

-- The end of `releaseLock`: the oldest waiting section, else the oldest waiter.
abbrev pub hand_over : ℕ → List ℕ → List ℕ → Heap → Heap
hand_over g (s ∷ children) waiters h =
    fulfill_child g s
      (record h { gates = update h.gates g (record (h.gates g) { waiting_children = children }) })
hand_over g [] (w ∷ waiters) h =
    fulfill g w (record h { gates = update h.gates g (record (h.gates g) { waiters = waiters }) })
hand_over g [] [] h = h

unfoldable pub release_here : ℕ → Heap → Result GateError Heap
unfolding fulfill_child fulfill
release_here g h =
    let gate = h.gates g in
    let h' = record h {
      gates = update h.gates g (record gate { lock_count = gate.lock_count - 1 });
    } in
    if nat_beq gate.lock_count 0
    then err none_outstanding
    else if nat_beq (gate.lock_count - 1) 0
    then ok (hand_over g gate.waiting_children gate.waiters h')
    else ok h'

abbrev is_empty {ℓ} : {A : Type ℓ} → List A → Bool
is_empty [] = true
is_empty (_ ∷ _) = false

abbrev pub holds_nothing : Gate → Bool
holds_nothing gate =
    if nat_beq gate.lock_count 0
    then (if is_empty gate.waiters then is_empty gate.waiting_children else false)
    else false

-- `releaseLock`: a section that is done passes it on to the gate that took it over.
unfoldable pub release_lock : ℕ → Heap → Result GateError Heap
release_lock g h = elim (forward h.sections g) [
  | none ↦ release_here g h
  | some p ↦
      if holds_nothing (h.gates g)
      then release_here (target h.sections p) h
      else err reparented_holds_state
]

unfoldable pub drop_lock : ℕ → List (ℕ × Held) → List (ℕ × Held)
drop_lock l [] = []
drop_lock l ((k, r) ∷ ls) = if nat_beq k l then ls else (k, r) ∷ drop_lock l ls

-- `Lock.release`.
unfoldable pub release : ℕ → Heap → Result GateError Heap
release l h = elim (lookup l h.locks) [
  | none ↦ err released_twice
  | some r ↦ release_lock r.gate (record h { locks = drop_lock l h.locks })
]

-- `Lock.addRef` and `Lock.startCriticalSection`; the new object is the one with the next number.
unfoldable pub add_ref : ℕ → Heap → Result GateError Heap
add_ref l h = elim (lookup l h.locks) [
  | none ↦ err used_after_release
  | some r ↦ ok (new_lock r.gate none h)
]

abbrev pub new_section : ℕ → Section
new_section parent = record {
  state = not_started;
  parent = parent;
  parent_lock = none;
  first = absent;
}

unfoldable pub start_critical_section : ℕ → Heap → Result GateError Heap
start_critical_section l h = elim (lookup l h.locks) [
  | none ↦ err used_after_release
  | some r ↦ ok (record h {
    sections = update h.sections h.next_gate (some (new_section r.gate));
    next_gate = h.next_gate + 1;
  })
]
