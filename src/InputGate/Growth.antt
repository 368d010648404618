-- ===== src/InputGate/Growth.antt =====
-- `wait` adds one lock at most, ends none, and leaves the tree of the gates as it is.
use do_runtime.Common.{
  ℕ, zero, suc, ◌≡◌, refl, sym, ap, ◌∙◌, Bool, true, false, none, some, List, [], ◌∷◌, nat_beq,
  arith, Bool-cases, Option-cases, inl, inr, nat_eq,
}
use do_runtime.InputGate.{
  Reason, SectionState, not_started, initial_wait, running, reparented, lost, Section, Heap, update,
  forward_of, target, new_lock, set_first,
}
use do_runtime.InputGate.Sections.{
  Answer, wait_here, lose_children, set_broken, set_section, start_running, queue_section,
  begin_section, wait_by, wait, wait_unless,
}
use do_runtime.InputGate.Rules.{target_same}
use do_runtime.InputGate.Fresh.{
  IsFresh, IsSameTree-trans, IsGrown, IsGrown-refl, new_lock-IsGrown, set_first-IsGrown,
}

IsGrown-trans : {h h' h'' : Heap} → IsGrown h h' → IsGrown h' h'' → IsGrown h h''
IsGrown-trans v w = record {
  fresh = w.fresh;
  kept = λ k lt. w.kept k (omega (arith, v.tree.newer)) ∙ v.kept k lt;
  tree = IsSameTree-trans v.tree w.tree;
}

wait_here-IsGrown : (g : ℕ) (h : Heap) → IsFresh h → IsGrown h (wait_here g h).1
unfolding wait_here
wait_here-IsGrown g h w = elim (Option-cases (h.gates g).broken) [
  | inr (e, is_e) ↦ rw (is_e, wait_here) (IsGrown-refl h w)
  | inl whole ↦ elim (Bool-cases (nat_beq (h.gates g).lock_count 0)) [
    | inl free ↦ rw (whole, free, wait_here) (new_lock-IsGrown g none h w)
    | inr taken ↦
        rw (whole, taken, wait_here)
          (record {
            fresh = w;
            kept = λ k lt. refl;
            tree = record { newer = omega arith; gates = refl; plain = λ x e. e; ends = refl };
          })
  ]
]

-- A change of a section that passes on to the same gate as before.
set_section-IsGrown :
    (g : ℕ) (s s' : Section) (h : Heap)
    → h.sections g ≡ some s
    → forward_of (some s') ≡ forward_of (some s)
    → IsFresh h
    → IsGrown h (set_section g s' h)
set_section-IsGrown g s s' h is_s same w = record {
  fresh = w;
  kept = λ k lt. refl;
  tree = record {
    newer = omega arith;
    gates = refl;
    plain = λ x e. ground arith;
    ends = target_same (update h.sections g (some s')) h.sections (λ x. ground (arith, is_s, same));
  };
}

lose_children-IsGrown :
    (e : Reason) (ss : List ℕ) (h : Heap) → IsFresh h → IsGrown h (lose_children e ss h)
unfolding lose_children
lose_children-IsGrown e [] h w = IsGrown-refl h w
lose_children-IsGrown e (s ∷ ss) h w =
    let first = set_first-IsGrown s (lost e) h h (IsGrown-refl h w) in
    IsGrown-trans first (lose_children-IsGrown e ss (set_first s (lost e) h) first.fresh)

set_gates-IsGrown :
    (h h' : Heap)
    → h'.locks ≡ h.locks
    → h'.next_lock ≡ h.next_lock
    → h'.next_gate ≡ h.next_gate
    → h'.sections ≡ h.sections
    → IsFresh h
    → IsGrown h h'
set_gates-IsGrown h h' locks next gates sections w = record {
  fresh = rw (locks, next) w;
  kept = λ k lt. rw locks refl;
  tree = record {
    newer = omega arith;
    gates = gates;
    plain = λ x e. rw sections e;
    ends = ap target sections;
  };
}

set_broken-IsGrown : (g : ℕ) (e : Reason) (h : Heap) → IsFresh h → IsGrown h (set_broken g e h)
unfolding set_broken
set_broken-IsGrown g e h w =
    IsGrown-trans (set_gates-IsGrown h _ refl refl refl refl w)
      (lose_children-IsGrown e (h.gates g).waiting_children _ w)

module _ (g : ℕ) (s : Section) (h : Heap) (is_s : h.sections g ≡ some s)
    (root : forward_of (some s) ≡ none) (w : IsFresh h) where
  start_running-IsGrown : (aborted : Bool) (l : ℕ) → IsGrown h (start_running aborted g s l h).1
  start_running-IsGrown true l = set_section-IsGrown g s _ h is_s (sym root) w
  start_running-IsGrown false l =
      let set = set_section-IsGrown g s _ h is_s (sym root) w in
      IsGrown-trans set (wait_here-IsGrown g _ w)

  queue_section-IsGrown : (t : ℕ) → IsGrown h (queue_section g s t h).1
  queue_section-IsGrown t =
      IsGrown-trans (set_gates-IsGrown h _ refl refl refl refl w)
        (set_section-IsGrown g s _ _ is_s (sym root) w)

module _ (g : ℕ) (s : Section) (h : Heap) (is_s : h.sections g ≡ some s)
    (root : forward_of (some s) ≡ none) (w : IsFresh h) where
  begin_section-IsGrown : IsGrown h (begin_section g s h).1
  unfolding begin_section
  begin_section-IsGrown =
      let t : ℕ = target h.sections s.parent in
      elim (Option-cases (h.gates t).broken) [
        | inr (e, is_e) ↦
            rw (is_e, begin_section)
              (IsGrown-trans (set_section-IsGrown g s _ h is_s (sym root) w)
                (set_broken-IsGrown g e _ w))
        | inl whole ↦ elim (Bool-cases (nat_beq (h.gates t).lock_count 0)) [
          | inl free ↦
              let new = new_lock-IsGrown t (some g) h w in
              rw (whole, free, begin_section)
                (IsGrown-trans new (
                  start_running-IsGrown g s (new_lock t (some g) h) (unfold new_lock in is_s) root
                    new.fresh false h.next_lock))
          | inr taken ↦ rw (whole, taken, begin_section) (queue_section-IsGrown g s h is_s root w t)
        ]
      ]

not_started-root : (s : Section) → s.state ≡ not_started → forward_of (some s) ≡ none
not_started-root s e = rw e

wait_by-IsGrown :
    (state : SectionState) (outer : Heap → Answer × Heap) (g : ℕ) (s : Section) (h : Heap)
    → s.state ≡ state
    → h.sections g ≡ some s
    → IsFresh h
    → IsGrown h (outer h).1
    → IsGrown h (wait_by state outer g s h).1
wait_by-IsGrown not_started outer g s h e is_s w o =
    begin_section-IsGrown g s h is_s (not_started-root s e) w
wait_by-IsGrown initial_wait outer g s h e is_s w o = IsGrown-refl h w
wait_by-IsGrown running outer g s h e is_s w o = wait_here-IsGrown g h w
wait_by-IsGrown reparented outer g s h e is_s w o = o

wait-IsGrown : (fuel g : ℕ) (h : Heap) → IsFresh h → IsGrown h (wait fuel g h).1
unfolding wait
wait-IsGrown zero g h w = wait_here-IsGrown g h w
wait-IsGrown (suc fuel) g h w = elim (Option-cases (h.sections g)) [
  | inl plain ↦ rw (plain, wait) (wait_here-IsGrown g h w)
  | inr (s, is_s) ↦
      rw (is_s, wait)
        (wait_by-IsGrown s.state (λ h'. wait fuel s.parent h') g s h refl is_s w
          (wait-IsGrown fuel s.parent h w))
]

pub wait_unless-IsGrown :
    (aborted : Bool) (g : ℕ) (h : Heap) → IsFresh h → IsGrown h (wait_unless aborted g h).1
unfolding wait_unless
wait_unless-IsGrown true g h w = IsGrown-refl h w
wait_unless-IsGrown false g h w = wait-IsGrown g g h w
