-- ===== src/InputGate/Rules.antt =====
-- The rules that every call of a gate keeps.
use mathlib.Core.Path.{fun_ext}
use do_runtime.Common.{
  ℕ, zero, suc, ◌≤◌, ◌<◌, ◌≡◌, ap, Option, none, some, [], arith, Option-cases, inl, inr, nat_eq,
  All,
}
use do_runtime.InputGate.{Section, Gate, Held, Heap, forward_of, forward, target, resolve}
use do_runtime.InputGate.Chains.{IsOlder, resolve_le, resolve-ends, resolve_root, resolve_fuel}
use do_runtime.InputGate.Tally.{tally}

-- A lock on one of the first `n` gates.
abbrev pub IsOn : ℕ → ℕ × Held → Type 0
IsOn n x = x.1.gate < n

-- The count of a gate is the number of live locks that end at it, sections are younger than their
-- parents, and locks are on gates that exist.
pub record IsTallied (h : Heap) : Type 0 where
  pub counted : (t : ℕ) → (h.gates t).lock_count ≡ tally (target h.sections) t h.locks
  pub placed : (g : ℕ) (s : Section) → h.sections g ≡ some s → (s.parent < g) × (g < h.next_gate)
  pub known : All (IsOn h.next_gate) h.locks

-- Nobody waits at a gate that nobody holds.
abbrev pub IsIdle : Gate → Type 0
IsIdle gate = gate.lock_count ≡ 0 → (gate.waiters ≡ []) × (gate.waiting_children ≡ [])

pub record IsSound (h : Heap) : Type 0 where
  pub tallied : IsTallied h
  pub idle : (t : ℕ) → IsIdle (h.gates t)

-- A gate that takes locks itself.
abbrev pub IsRoot : Heap → ℕ → Type 0
IsRoot h g = forward h.sections g ≡ none

module _ (h : Heap) (w : IsTallied h) where
  pub forward-IsOlder : IsOlder (forward h.sections)
  forward-IsOlder g p up = elim (Option-cases (h.sections g)) [
    | inl root ↦ absurd (cc (ap forward_of root))
    | inr (s, is_s) ↦ ground (arith, w.placed g s, ap forward_of is_s)
  ]

  pub target_le : (g : ℕ) → target h.sections g ≤ g
  target_le g = resolve_le (forward h.sections) forward-IsOlder g g

  pub target-IsRoot : (g : ℕ) → IsRoot h (target h.sections g)
  target-IsRoot g = resolve-ends (forward h.sections) forward-IsOlder g g (omega arith)

  pub target_root : (g : ℕ) → IsRoot h g → target h.sections g ≡ g
  target_root g root = resolve_root (forward h.sections) forward-IsOlder g g root

  pub target-target : (g : ℕ) → target h.sections (target h.sections g) ≡ target h.sections g
  target-target g = target_root (target h.sections g) (target-IsRoot g)

  -- A section that is done ends where its parent does.
  pub target-forward :
      (g p : ℕ) → forward h.sections g ≡ some p → target h.sections g ≡ target h.sections p
  unfolding resolve
  target-forward zero p up = absurd (omega (arith, forward-IsOlder zero p up))
  target-forward (suc g) p up =
      rw (up, resolve)
        (resolve_fuel (forward h.sections) forward-IsOlder g p p
          (omega (arith, forward-IsOlder (suc g) p up)) (omega arith))

-- Sections that pass on to the same gates have the same ends.
pub target_same :
    (s s' : ℕ → Option Section) → ((x : ℕ) → forward s x ≡ forward s' x) → target s ≡ target s'
target_same s s' same = ap {B = ℕ → ℕ} (λ (f : ℕ → Option ℕ) (g : ℕ). resolve g f g) (fun_ext same)
