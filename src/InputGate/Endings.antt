-- ===== src/InputGate/Endings.antt =====
-- How a critical section ends: `succeeded`, `failed`, `drop`.
use mathlib.Core.Path.{subst, fun_ext}
use do_runtime.Common.{
  ℕ, zero, suc, ◌+◌, ◌++◌, ◌<◌, ◌≡◌, refl, sym, ap, ◌∙◌, true, Option, none, some, List, [], ◌∷◌,
  nat_beq, if◌then◌else◌, arith, Bool-cases, Option-cases, inl, inr, lookup, nat_eq, ok, All,
}
use do_runtime.InputGate.{
  deadlock, Reason, SectionState, Gate, running, reparented, FirstWait, lost, Section, Held, Heap,
  update, forward_of, forward, target, resolve, set_first,
}
use do_runtime.InputGate.Sections.{
  lose_children, lose_waiters, set_broken, set_section, hand_out, merged, finish, succeeded, failed,
  fail_if_running, give_back, give_back_in, drop_section,
}
use do_runtime.InputGate.Chains.{resolve-relinked, relinked}
use do_runtime.InputGate.Tally.{tally-hand_out, tally_moved}
use do_runtime.InputGate.Rules.{IsTallied, IsSound, IsOn, target_le, forward-IsOlder}
use do_runtime.InputGate.Release.{counted_pos, release-IsSound}
use do_runtime.InputGate.Waits.{set_section-IsSound, set_broken-IsSound}

pub failed-IsSound : (fuel g : ℕ) (e : Reason) (h : Heap) → IsSound h → IsSound (failed fuel g e h)
unfolding failed
failed-IsSound zero g e h w = set_broken-IsSound g e h w
failed-IsSound (suc fuel) g e h w = elim (Option-cases (h.sections g)) [
  | inl plain ↦ rw (plain, failed) (set_broken-IsSound g e h w)
  | inr (s, is_s) ↦ elim (Option-cases (h.gates g).broken) [
    | inr (x, is_x) ↦ rw (is_s, is_x, failed) w
    | inl whole ↦
        rw (is_s, whole, failed)
          (failed-IsSound fuel s.parent e (set_broken g e h) (set_broken-IsSound g e h w))
  ]
]

hand_out-IsOn : (n l : ℕ) (ls : List (ℕ × Held)) → All (IsOn n) ls → All (IsOn n) (hand_out l ls)
unfolding hand_out
hand_out-IsOn n l [] h = tt
hand_out-IsOn n l ((k, r) ∷ ls) h = elim (Bool-cases (nat_beq k l)) [
  | inl same ↦ rw same h
  | inr differ ↦ rw differ (h.0, hand_out-IsOn n l ls h.1)
]

module _ (h : Heap) (g l : ℕ) (s : Section) (is_s : h.sections g ≡ some s)
    (root : forward_of (some s) ≡ none) (w : IsSound h) where
  done : Section
  done = record s { state = reparented; parent_lock = none }

  links :
      (x : ℕ)
      → forward (update h.sections g (some done)) x ≡ relinked (forward h.sections) g s.parent x
  unfolding done relinked
  links x = ground arith

  target-done :
      (x : ℕ)
      → target (update h.sections g (some done)) x ≡ (
          if nat_beq (target h.sections x) g
          then target h.sections s.parent
          else target h.sections x)
  target-done x =
      ap {B = ℕ} (λ (f : ℕ → Option ℕ). resolve x f x) (fun_ext links)
      ∙ resolve-relinked (forward h.sections) (forward-IsOlder h w.tallied) g s.parent
          (w.tallied.placed g s is_s).0 x x (omega arith) (ap forward_of is_s ∙ root)

  finish-IsTallied : IsTallied (finish g s l h)
  unfolding done
  finish-IsTallied =
      let p : ℕ = target h.sections s.parent in
      let below : p < g =
        omega (arith, target_le h w.tallied s.parent, w.tallied.placed g s is_s) in
      record {
        counted = λ t. ground (
          arith,
          w.tallied.counted t,
          w.tallied.counted p,
          w.tallied.counted g,
          tally-hand_out (target (update h.sections g (some done))) t l h.locks,
          tally_moved (target h.sections) (target (update h.sections g (some done))) g p h.locks
              (omega arith) target-done t,
        );
        placed = λ x sec e. ground (arith, w.tallied.placed x sec, w.tallied.placed g s is_s);
        known = hand_out-IsOn h.next_gate l h.locks w.tallied.known;
      }

  finish-IsSound :
      (r : Held)
      → lookup l h.locks ≡ some r
      → target h.sections r.gate ≡ target h.sections s.parent
      → IsSound (finish g s l h)
  finish-IsSound r live outer = record {
    tallied = finish-IsTallied;
    idle = λ t.
        ground (
          arith,
          w.idle t,
          subst (λ x. 0 < (h.gates x).lock_count) outer (counted_pos h l r live w),
        );
  }

-- What the outer gate has behind the end of a section, written out.
pub record TakesOver (outer inner after : Gate) : Type 0 where
  pub counts : after.lock_count ≡ outer.lock_count + inner.lock_count
  pub waiting : after.waiters ≡ outer.waiters ++ inner.waiters
  pub children : after.waiting_children ≡ outer.waiting_children ++ inner.waiting_children
  pub state : after.broken ≡ outer.broken

-- `succeeded` on a section that runs and holds its parent lock returns that lock, adds the locks
-- of the section to those of the outer gate, puts its waiters and its waiting sections there, each
-- behind those that wait there, leaves its own gate empty, and keeps the rules.
pub succeeded-IsSound :
    (h : Heap) (g l : ℕ) (s : Section) (r : Held)
    → h.sections g ≡ some s
    → s.state ≡ running
    → s.parent_lock ≡ some l
    → lookup l h.locks ≡ some r
    → target h.sections r.gate ≡ target h.sections s.parent
    → IsSound h
    → (h' : Heap) × (succeeded g h ≡ ok (l, h'))
      × IsSound h'
      × TakesOver
          (h.gates (target h.sections s.parent))
          (h.gates g)
          (h'.gates (target h.sections s.parent))
      × ((h'.gates g).lock_count ≡ 0)
      × ((h'.gates g).waiters ≡ [])
      × ((h'.gates g).waiting_children ≡ [])
unfolding succeeded
succeeded-IsSound h g l s r is_s runs has live outer w =
    let below : target h.sections s.parent < g =
      omega (arith, target_le h w.tallied s.parent, w.tallied.placed g s is_s) in
    let joined : (finish g s l h).gates (target h.sections s.parent)
        ≡ merged (h.gates (target h.sections s.parent)) (h.gates g) =
      ground arith in
    (
      finish g s l h,
      rw (is_s, succeeded, runs, has),
      finish-IsSound h g l s is_s (rw runs) w r live outer,
      subst (TakesOver (h.gates (target h.sections s.parent)) (h.gates g)) (sym joined)
          (record { counts = refl; waiting = refl; children = refl; state = refl }),
      ground arith,
      ground arith,
      ground arith,
    )

-- Locks and parent locks stay where they are.
pub record KeepsLocks (before after : Heap) : Type 0 where
  pub locks : after.locks ≡ before.locks
  pub parents :
      (g : ℕ) (s : Section)
      → before.sections g ≡ some s
      → (s' : Section) × (after.sections g ≡ some s') × (s'.parent_lock ≡ s.parent_lock)

KeepsLocks-refl : (h : Heap) → KeepsLocks h h
KeepsLocks-refl h = record { locks = refl; parents = λ g s e. (s, e, refl) }

KeepsLocks-trans : {a b c : Heap} → KeepsLocks a b → KeepsLocks b c → KeepsLocks a c
KeepsLocks-trans k l = record {
  locks = l.locks ∙ k.locks;
  parents = λ g s e.
      let (s₁, e₁, p₁) = k.parents g s e in
      let (s₂, e₂, p₂) = l.parents g s₁ e₁ in (s₂, e₂, p₂ ∙ p₁);
}

set_first-KeepsLocks : (x : ℕ) (f : FirstWait) (h : Heap) → KeepsLocks h (set_first x f h)
set_first-KeepsLocks x f h = elim (Option-cases (h.sections x)) [
  | inl gone ↦ rw (gone, set_first) (KeepsLocks-refl h)
  | inr (q, is_q) ↦
      rw (is_q, set_first)
        (record {
          locks = refl;
          parents = λ g s e. elim (Bool-cases (nat_beq g x)) [
            | inl same ↦ (record q { first = f }, ground arith, parent_lock_of g same q is_q s e)
            | inr differ ↦ (s, ground arith, refl)
          ];
        })
]
  where
    parent_lock_of :
        (g : ℕ)
        → nat_beq g x ≡ true
        → (q : Section) → h.sections x ≡ some q
        → (s : Section) → h.sections g ≡ some s
        → q.parent_lock ≡ s.parent_lock
    parent_lock_of g same q is_q s e =
        let is_x : g ≡ x = ground arith in
        let one : some q ≡ some s = sym is_q ∙ subst (λ y. h.sections y ≡ some s) is_x e in
        ground arith

lose_children-KeepsLocks :
    (e : Reason) (ss : List ℕ) (h : Heap) → KeepsLocks h (lose_children e ss h)
unfolding lose_children
lose_children-KeepsLocks e [] h = KeepsLocks-refl h
lose_children-KeepsLocks e (x ∷ xs) h =
    KeepsLocks-trans (set_first-KeepsLocks x (lost e) h)
      (lose_children-KeepsLocks e xs (set_first x (lost e) h))

set_broken-KeepsLocks : (g : ℕ) (e : Reason) (h : Heap) → KeepsLocks h (set_broken g e h)
unfolding set_broken
set_broken-KeepsLocks g e h =
    let k = lose_children-KeepsLocks e (h.gates g).waiting_children (record h {
      gates =
          update h.gates g
            (record (h.gates g) { waiters = []; waiting_children = []; broken = some e });
      settled = lose_waiters e (h.gates g).waiters h.settled;
    }) in
    record { locks = k.locks; parents = k.parents }

failed-KeepsLocks : (fuel g : ℕ) (e : Reason) (h : Heap) → KeepsLocks h (failed fuel g e h)
unfolding failed
failed-KeepsLocks zero g e h = set_broken-KeepsLocks g e h
failed-KeepsLocks (suc fuel) g e h = elim (Option-cases (h.sections g)) [
  | inl plain ↦ rw (plain, failed) (set_broken-KeepsLocks g e h)
  | inr (s, is_s) ↦ elim (Option-cases (h.gates g).broken) [
    | inr (x, is_x) ↦ rw (is_s, is_x, failed) (KeepsLocks-refl h)
    | inl whole ↦
        rw (is_s, whole, failed)
          (KeepsLocks-trans (set_broken-KeepsLocks g e h)
            (failed-KeepsLocks fuel s.parent e (set_broken g e h)))
  ]
]

fail_if_running-KeepsLocks :
    (state : SectionState) (g : ℕ) (h : Heap) → KeepsLocks h (fail_if_running state g h)
fail_if_running-KeepsLocks running g h = failed-KeepsLocks g g deadlock h
fail_if_running-KeepsLocks _ g h = KeepsLocks-refl h

fail_if_running-IsSound :
    (state : SectionState) (g : ℕ) (h : Heap) → IsSound h → IsSound (fail_if_running state g h)
fail_if_running-IsSound running g h w = failed-IsSound g g deadlock h w
fail_if_running-IsSound _ g h w = w

give_back-IsSound :
    (o : Option ℕ) (g : ℕ) (s : Section) (h : Heap)
    → h.sections g ≡ some s
    → ((l : ℕ) → o ≡ some l → (r : Held) × (lookup l h.locks ≡ some r))
    → IsSound h
    → (h' : Heap) × (give_back o g s h ≡ ok h') × IsSound h'
give_back-IsSound none g s h is_s live w = (h, refl, w)
give_back-IsSound (some l) g s h is_s live w =
    let (r, at_l) = live l refl in
    release-IsSound (set_section g (record s { parent_lock = none }) h) l r at_l
      (set_section-IsSound h g s (record s { parent_lock = none }) is_s (refl, refl) w)

-- The parent lock that a section holds is live: nothing outside the section can release it.
abbrev pub HoldsParent : Heap → ℕ → Type 0
HoldsParent h g =
    (s : Section) (l : ℕ)
    → h.sections g ≡ some s
    → s.parent_lock ≡ some l
    → (r : Held) × (lookup l h.locks ≡ some r)

-- `drop` never throws, whatever state the section is in, and keeps the rules: a section that still
-- runs breaks its gate and every gate outside of it, and then gives its parent lock back.
pub drop_section-IsSound :
    (h : Heap) (g : ℕ)
    → IsSound h
    → HoldsParent h g
    → (h' : Heap) × (drop_section g h ≡ ok h') × IsSound h'
unfolding drop_section
drop_section-IsSound h g w kept = elim (Option-cases (h.sections g)) [
  | inl plain ↦ (h, rw (plain, drop_section), w)
  | inr (s, is_s) ↦
      let h₁ : Heap = fail_if_running s.state g h in
      let keeps = fail_if_running-KeepsLocks s.state g h in
      let (s', is_s', lock) = keeps.parents g s is_s in
      let (h', gives, sound) =
        give_back-IsSound s'.parent_lock g s' h₁ is_s'
          (λ l e.
            subst (λ ls. (r : Held) × (lookup l ls ≡ some r)) (sym keeps.locks)
              (kept s l is_s (sym lock ∙ e)))
          (fail_if_running-IsSound s.state g h w) in
      (h', rw (is_s, drop_section) (rw (is_s', give_back_in) gives), sound)
]
