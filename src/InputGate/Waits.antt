-- ===== src/InputGate/Waits.antt =====
-- `wait`: who is let in, who queues, and that the rules are kept.
use mathlib.Core.Path.{subst}
use do_runtime.Common.{
  ℕ, zero, suc, ◌<◌, ◌≡◌, ◌≢◌, refl, sym, ap, ◌∙◌, Bool, true, false, none, some, List, [], ◌∷◌,
  nat_beq, arith, Bool-cases, Option-cases, inl, inr, lookup, nat_eq,
}
use do_runtime.InputGate.{
  Reason, canceled, SectionState, not_started, initial_wait, running, reparented, FirstWait, absent,
  queued, got, lost, Section, Held, Heap, granted, forward_of, target, new_lock, set_first,
}
use do_runtime.InputGate.Sections.{
  Answer, now, wait_here, lose_children, set_broken, set_section, start_running, queue_section,
  begin_section, wait_by, wait, wait_unless, resume_by, resume,
}
use do_runtime.InputGate.Rules.{IsSound, IsRoot, target_le}
use do_runtime.InputGate.Locks.{
  KeepsPlace, set_section-IsTallied, set_first-IsSound, set_gates-IsTallied, new_lock-IsSound,
}
use do_runtime.InputGate.Release.{counted_pos}

pub set_section-IsSound :
    (h : Heap) (g : ℕ) (s s' : Section)
    → h.sections g ≡ some s
    → KeepsPlace s s'
    → IsSound h
    → IsSound (set_section g s' h)
set_section-IsSound h g s s' is_s keeps w = record {
  tallied = set_section-IsTallied h g s s' is_s keeps w.tallied;
  idle = w.idle;
}

wait_here-IsSound : (g : ℕ) (h : Heap) → g < h.next_gate → IsSound h → IsSound (wait_here g h).1
unfolding wait_here
wait_here-IsSound g h exists w = elim (Option-cases (h.gates g).broken) [
  | inr (e, is_e) ↦ rw (is_e, wait_here) w
  | inl whole ↦ elim (Bool-cases (nat_beq (h.gates g).lock_count 0)) [
    | inl free ↦ rw (whole, free, wait_here) (new_lock-IsSound g none h exists w)
    | inr taken ↦
        rw (whole, taken, wait_here)
          (record {
            tallied = record {
              counted = λ t. ground (arith, w.tallied.counted t);
              placed = w.tallied.placed;
              known = w.tallied.known;
            };
            idle = λ t. ground (arith, w.idle t);
          })
  ]
]

lose_children-IsSound :
    (e : Reason) (ss : List ℕ) (h : Heap) → IsSound h → IsSound (lose_children e ss h)
unfolding lose_children
lose_children-IsSound e [] h w = w
lose_children-IsSound e (s ∷ ss) h w =
    lose_children-IsSound e ss (set_first s (lost e) h) (set_first-IsSound s (lost e) h w)

pub set_broken-IsSound : (g : ℕ) (e : Reason) (h : Heap) → IsSound h → IsSound (set_broken g e h)
unfolding set_broken
set_broken-IsSound g e h w = lose_children-IsSound e (h.gates g).waiting_children _ (record {
  tallied = record {
    counted = λ t. ground (arith, w.tallied.counted t);
    placed = w.tallied.placed;
    known = w.tallied.known;
  };
  idle = λ t. ground (arith, w.idle t);
})

start_running-IsSound :
    (aborted : Bool) (g : ℕ) (s : Section) (l : ℕ) (h : Heap)
    → h.sections g ≡ some s
    → forward_of (some s) ≡ none
    → IsSound h
    → IsSound (start_running aborted g s l h).1
start_running-IsSound true g s l h is_s root w = set_section-IsSound h g s _ is_s (refl, sym root) w
start_running-IsSound false g s l h is_s root w =
    wait_here-IsSound g _ (w.tallied.placed g s is_s).1
      (set_section-IsSound h g s _ is_s (refl, sym root) w)

queue_section-IsSound :
    (g : ℕ) (s : Section) (t : ℕ) (h : Heap)
    → h.sections g ≡ some s
    → forward_of (some s) ≡ none
    → (h.gates t).lock_count ≢ 0
    → IsSound h
    → IsSound (queue_section g s t h).1
queue_section-IsSound g s t h is_s root taken w =
    set_section-IsSound _ g s _ is_s (refl, sym root)
      (record {
        tallied = set_gates-IsTallied h _ (λ x. ground arith) w.tallied;
        idle = λ x. ground (arith, w.idle x);
      })

begin_section-IsSound :
    (g : ℕ) (s : Section) (h : Heap)
    → h.sections g ≡ some s
    → forward_of (some s) ≡ none
    → IsSound h
    → IsSound (begin_section g s h).1
unfolding begin_section
begin_section-IsSound g s h is_s root w =
    let t : ℕ = target h.sections s.parent in
    elim (Option-cases (h.gates t).broken) [
      | inr (e, is_e) ↦
          rw (is_e, begin_section)
            (set_broken-IsSound g e _ (set_section-IsSound h g s _ is_s (refl, sym root) w))
      | inl whole ↦ elim (Bool-cases (nat_beq (h.gates t).lock_count 0)) [
        | inl free ↦
            rw (whole, free, begin_section)
              (start_running-IsSound false g s h.next_lock (new_lock t (some g) h)
                (unfold new_lock in is_s) root
                (new_lock-IsSound t (some g) h
                  (omega (arith, target_le h w.tallied s.parent, w.tallied.placed g s is_s)) w))
        | inr taken ↦
            rw (whole, taken, begin_section)
              (queue_section-IsSound g s t h is_s root (ground arith) w)
      ]
    ]

not_started-root : (s : Section) → s.state ≡ not_started → forward_of (some s) ≡ none
not_started-root s e = rw e

wait_by-IsSound :
    (state : SectionState) (outer : Heap → Answer × Heap) (g : ℕ) (s : Section) (h : Heap)
    → s.state ≡ state
    → h.sections g ≡ some s
    → IsSound h
    → IsSound (outer h).1
    → IsSound (wait_by state outer g s h).1
wait_by-IsSound not_started outer g s h e is_s w o =
    begin_section-IsSound g s h is_s (not_started-root s e) w
wait_by-IsSound initial_wait outer g s h e is_s w o = w
wait_by-IsSound running outer g s h e is_s w o =
    wait_here-IsSound g h (w.tallied.placed g s is_s).1 w
wait_by-IsSound reparented outer g s h e is_s w o = o

wait-IsSound : (fuel g : ℕ) (h : Heap) → g < h.next_gate → IsSound h → IsSound (wait fuel g h).1
unfolding wait
wait-IsSound zero g h exists w = wait_here-IsSound g h exists w
wait-IsSound (suc fuel) g h exists w = elim (Option-cases (h.sections g)) [
  | inl plain ↦ rw (plain, wait) (wait_here-IsSound g h exists w)
  | inr (s, is_s) ↦
      let up : s.parent < h.next_gate = omega (arith, w.tallied.placed g s is_s) in
      rw (is_s, wait)
        (wait_by-IsSound s.state (λ h'. wait fuel s.parent h') g s h refl is_s w
          (wait-IsSound fuel s.parent h up w))
]

-- `wait` keeps the rules on every branch: on a broken gate, on a free and on a held one, on a
-- section that starts, runs or is done, and when its signal has been aborted.
pub wait_unless-IsSound :
    (aborted : Bool) (g : ℕ) (h : Heap)
    → g < h.next_gate
    → IsSound h
    → IsSound (wait_unless aborted g h).1
unfolding wait_unless
wait_unless-IsSound true g h exists w = w
wait_unless-IsSound false g h exists w = wait-IsSound g g h exists w

resume_by-IsSound :
    (f : FirstWait) (aborted : Bool) (g : ℕ) (s : Section) (h : Heap)
    → h.sections g ≡ some s
    → forward_of (some s) ≡ none
    → IsSound h
    → IsSound (resume_by f aborted g s h).1
resume_by-IsSound absent aborted g s h is_s root w = w
resume_by-IsSound queued aborted g s h is_s root w = w
resume_by-IsSound (got l) aborted g s h is_s root w =
    start_running-IsSound aborted g s l h is_s root w
resume_by-IsSound (lost canceled) aborted g s h is_s root w =
    set_section-IsSound h g s _ is_s (refl, refl) w
resume_by-IsSound (lost e) aborted g s h is_s root w =
    set_broken-IsSound g e _ (set_section-IsSound h g s _ is_s (refl, sym root) w)

-- The rest of the first `wait` of a section that is not done keeps the rules, whether its promise
-- was fulfilled or rejected.
pub resume-IsSound :
    (aborted : Bool) (g : ℕ) (h : Heap) → IsRoot h g → IsSound h → IsSound (resume aborted g h).1
unfolding resume
resume-IsSound aborted g h root w = elim (Option-cases (h.sections g)) [
  | inl plain ↦ rw (plain, resume) w
  | inr (s, is_s) ↦
      rw (is_s, resume)
        (resume_by-IsSound s.first aborted g s h is_s (ap forward_of (sym is_s) ∙ root) w)
]

wait_here_blocked :
    (g : ℕ) (h : Heap) → 0 < (h.gates g).lock_count → (k : ℕ) → (wait_here g h).0 ≢ now (granted k)
unfolding wait_here
wait_here_blocked g h pos k e = ground arith

pub wait_plain : (f g : ℕ) (h : Heap) → h.sections g ≡ none → wait f g h ≡ wait_here g h
unfolding wait
wait_plain zero g h plain = refl
wait_plain (suc f) g h plain = rw (plain, wait)

-- While a lock ends at a gate that is no section, a `wait` there is not let in: it queues, or it is
-- rejected. So code under a lock, or a critical section that holds its parent lock, runs alone.
pub wait_blocked :
    (aborted : Bool) (g l : ℕ) (r : Held) (h : Heap)
    → IsSound h
    → h.sections g ≡ none
    → lookup l h.locks ≡ some r
    → target h.sections r.gate ≡ g
    → (k : ℕ) → (wait_unless aborted g h).0 ≢ now (granted k)
unfolding wait_unless
wait_blocked true g l r h w plain live ends k e = cc
wait_blocked false g l r h w plain live ends k e =
    let pos : 0 < (h.gates g).lock_count =
      subst (λ t. 0 < (h.gates t).lock_count) ends (counted_pos h l r live w) in
    wait_here_blocked g h pos k (sym (ap (λ x. x.0) (wait_plain g g h plain)) ∙ e)
