-- ===== src/InputGate/Locks.antt =====
-- `Lock`: taking, duplicating and releasing one.
use mathlib.Core.Path.{subst}
use do_runtime.Common.{
  ℕ, ◌+◌, ◌<◌, ◌≡◌, refl, sym, ◌∙◌, Option, none, some, List, [], ◌∷◌, arith, Option-cases, inl,
  inr, lookup, nat_eq, ok, All,
}
use do_runtime.InputGate.{
  FirstWait, Section, Gate, Held, Heap, update, forward_of, target, new_lock, set_first, add_ref,
  start_critical_section, new_section, fresh_heap,
}
use do_runtime.InputGate.Tally.{tally, tally-cons, All-lookup}
use do_runtime.InputGate.Rules.{IsTallied, IsIdle, IsSound, IsOn, target_same}

-- A change of the gates that keeps every count.
abbrev pub KeepsCounts : (ℕ → Gate) → (ℕ → Gate) → Type 0
KeepsCounts before after = (t : ℕ) → (after t).lock_count ≡ (before t).lock_count

-- `#parent` and what `parentAsInputGate` reads of a section stay.
abbrev pub KeepsPlace : Section → Section → Type 0
KeepsPlace before after =
    (after.parent ≡ before.parent) × (forward_of (some after) ≡ forward_of (some before))

pub set_section-IsTallied :
    (h : Heap) (g : ℕ) (s s' : Section)
    → h.sections g ≡ some s
    → KeepsPlace s s'
    → IsTallied h
    → IsTallied (record h { sections = update h.sections g (some s') })
set_section-IsTallied h g s s' is_s keeps w =
    let same : target (update h.sections g (some s')) ≡ target h.sections =
      target_same (update h.sections g (some s')) h.sections (λ x. ground (arith, keeps, is_s)) in
    record {
      counted = λ t. rw same (w.counted t);
      placed = λ x sec e. ground (arith, w.placed x sec, w.placed g s is_s, keeps.0);
      known = w.known;
    }

pub set_first-IsTallied :
    (h : Heap) (g : ℕ) (f : FirstWait) → IsTallied h → IsTallied (set_first g f h)
set_first-IsTallied h g f w = elim (Option-cases (h.sections g)) [
  | inl gone ↦ rw (gone, set_first) w
  | inr (s, is_s) ↦
      rw (is_s, set_first)
        (set_section-IsTallied h g s (record s { first = f }) is_s (refl, refl) w)
]

pub set_gates-IsTallied :
    (h : Heap) (gates : ℕ → Gate)
    → KeepsCounts h.gates gates
    → IsTallied h
    → IsTallied (record h { gates = gates })
set_gates-IsTallied h gates keeps w = record {
  counted = λ t. keeps t ∙ w.counted t;
  placed = w.placed;
  known = w.known;
}

pub new_lock-IsTallied :
    (g : ℕ) (k : Option ℕ) (h : Heap) → g < h.next_gate → IsTallied h → IsTallied (new_lock g k h)
unfolding new_lock
new_lock-IsTallied g k h exists w = record {
  counted = λ t. ground (
    arith,
    w.counted t,
    w.counted (target h.sections g),
    tally-cons (target h.sections) t h.next_lock (record { gate = g; keeper = k }) h.locks,
  );
  placed = w.placed;
  known = (exists, w.known);
}

pub new_lock-IsSound :
    (g : ℕ) (k : Option ℕ) (h : Heap) → g < h.next_gate → IsSound h → IsSound (new_lock g k h)
unfolding new_lock
new_lock-IsSound g k h exists w = record {
  tallied = new_lock-IsTallied g k h exists w.tallied;
  idle = λ t. ground (arith, w.idle t);
}

pub set_first-gates : (s : ℕ) (f : FirstWait) (h : Heap) → (set_first s f h).gates ≡ h.gates
set_first-gates s f h = elim (Option-cases (h.sections s)) [
  | inl gone ↦ rw (gone, set_first)
  | inr (sec, is_sec) ↦ rw (is_sec, set_first)
]

pub set_first-IsSound : (s : ℕ) (f : FirstWait) (h : Heap) → IsSound h → IsSound (set_first s f h)
set_first-IsSound s f h w = record {
  tallied = set_first-IsTallied h s f w.tallied;
  idle =
      λ t. subst (λ (gates : ℕ → Gate). IsIdle (gates t)) (sym (set_first-gates s f h)) (w.idle t);
}

pub add_ref-IsSound :
    (h : Heap) (l : ℕ) (r : Held)
    → lookup l h.locks ≡ some r
    → IsSound h
    → (h' : Heap) × (add_ref l h ≡ ok h') × IsSound h'
unfolding add_ref
add_ref-IsSound h l r live w = (
  new_lock r.gate none h,
  rw (live, add_ref),
  new_lock-IsSound r.gate none h (All-lookup (IsOn h.next_gate) l h.locks r w.tallied.known live).1
      w,
)

more-IsOn : (n : ℕ) (ls : List (ℕ × Held)) → All (IsOn n) ls → All (IsOn (n + 1)) ls
more-IsOn n [] h = tt
more-IsOn n (x ∷ ls) h = (omega (arith, h.0), more-IsOn n ls h.1)

no_section_yet : (h : Heap) → IsTallied h → h.sections h.next_gate ≡ none
no_section_yet h w = elim (Option-cases (h.sections h.next_gate)) [
  | inl free ↦ free
  | inr (s, is_s) ↦ absurd (omega (arith, w.placed h.next_gate s is_s))
]

-- A new critical section has a gate of its own, and no count changes.
pub start_critical_section-IsSound :
    (h : Heap) (l : ℕ) (r : Held)
    → lookup l h.locks ≡ some r
    → IsSound h
    → (h' : Heap) × (start_critical_section l h ≡ ok h') × IsSound h'
unfolding start_critical_section
start_critical_section-IsSound h l r live w =
    let exists : r.gate < h.next_gate =
      (All-lookup (IsOn h.next_gate) l h.locks r w.tallied.known live).1 in
    let free = no_section_yet h w.tallied in
    let sections : ℕ → Option Section = update h.sections h.next_gate (some (new_section r.gate)) in
    let same : target sections ≡ target h.sections =
      target_same sections h.sections (λ x. ground (arith, free)) in
    (
      record h { sections = sections; next_gate = h.next_gate + 1 },
      rw (live, start_critical_section),
      record {
        tallied = record {
          counted = λ t. rw same (w.tallied.counted t);
          placed = λ x sec e. ground (arith, w.tallied.placed x sec, exists);
          known = more-IsOn h.next_gate h.locks w.tallied.known;
        };
        idle = w.idle;
      },
    )

pub fresh_heap-IsSound : IsSound fresh_heap
unfolding tally
fresh_heap-IsSound = record {
  tallied = record { counted = λ t. refl; placed = λ g s e. absurd (cc e); known = tt };
  idle = λ t e. (refl, refl);
}
