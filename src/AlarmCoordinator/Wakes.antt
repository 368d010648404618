-- ===== src/AlarmCoordinator/Wakes.antt =====
-- src/browser/alarm-coordinator.ts: no wake is lost, and no older projection returns.
mod Calls
use mathlib.Core.Path.{subst}
use do_runtime.Common.{
  ℕ, ◌≤◌, ◌≡◌, refl, sym, ◌∙◌, Bool, true, false, ◌&&◌, Option, none, some, List, [], ◌∷◌, nat_beq,
  ltb, Bool-cases, inl, inr, arith, take, All, All-take,
}
use do_runtime.AlarmCoordinator.{
  Projection, Delivery, Journal, Disk, Effect, save, create, clear, run_effect, run, same_when,
  replace_with, project_on, project, reconcile_on, reconcile, acknowledge, wake_or, expected,
}
use do_runtime.AlarmCoordinator.Fire.{found_or_new, tries_of, fire_at, fire, attempt_delay}
use do_runtime.AlarmCoordinator.Crashes.{
  Call, projecting, firing, acknowledging, effects_of, before, Machine, called, Step, call, stop,
  stop_start, start, Reach, fresh, step, IsArmedBy, IsAwakeAt, IsAwake,
}
use do_runtime.AlarmCoordinator.Wakes.Calls.{later-IsAwakeAt, called-IsAwakeOn, reconcile-IsAwakeOn}

abbrev IsAwakeIf : Bool → Machine → Type 0
IsAwakeIf true m = IsAwake m
IsAwakeIf false m = Unit

Step-IsAwakeIf : (m m' : Machine) → Step m m' → IsAwakeIf m.up m → IsAwakeIf m'.up m'
Step-IsAwakeIf _ _ (call c d t now le) h =
    called-IsAwakeOn c now d (later-IsAwakeAt d.journal t now d.physical le h)
Step-IsAwakeIf _ _ (stop n c d t now le) h = tt
Step-IsAwakeIf _ _ (stop_start n d t now le) h = tt
Step-IsAwakeIf _ _ (start d t now le) h = reconcile-IsAwakeOn now d.journal d refl

Reach-IsAwakeIf : (m : Machine) → Reach m → IsAwakeIf m.up m
Reach-IsAwakeIf _ fresh = tt
Reach-IsAwakeIf m (step before_m _ r s) = Step-IsAwakeIf before_m m s (Reach-IsAwakeIf before_m r)

-- In every order of projections, firings and acknowledgements, with stops of the worker behind any
-- effect and starts that reconcile, stopped or not: whenever the worker is between two operations,
-- the wake that the journal asks for has an alarm, no later than that wake or the present. If
-- nothing but stops interferes, no wake is lost.
pub Reach-IsAwake : (m : Machine) → Reach m → m.up ≡ true → IsAwake m
Reach-IsAwake m r up = subst (λ b. IsAwakeIf b m) up (Reach-IsAwakeIf m r)

abbrev pub generation_of : Option Journal → ℕ
generation_of none = 0
generation_of (some j) = j.projection.generation

-- The effect saves no generation below `g`.
abbrev pub IsNewer : ℕ → Effect → Type 0
IsNewer g (save j) = g ≤ j.projection.generation
IsNewer g (create t) = Unit
IsNewer g clear = Unit

run_newer :
    (g : ℕ) (es : List Effect) (d : Disk)
    → All (IsNewer g) es
    → g ≤ generation_of d.journal
    → g ≤ generation_of (run es d).journal
run_newer g [] d h k = k
run_newer g (save j ∷ es) d h k = run_newer g es (run_effect (save j) d) h.1 h.0
run_newer g (create t ∷ es) d h k = run_newer g es (run_effect (create t) d) h.1 k
run_newer g (clear ∷ es) d h k = run_newer g es (run_effect clear d) h.1 k

replaced-IsNewer :
    (g : ℕ) (when : Option ℕ) (p : ℕ)
    → g ≤ p
    → All (IsNewer g) (replace_with (record { generation = p; when = when }))
replaced-IsNewer g none p h = (h, (tt, tt))
replaced-IsNewer g (some t) p h = (h, (tt, tt))

project-IsNewer :
    (p : Projection) (j : Option Journal) → All (IsNewer (generation_of j)) (project p j)
unfolding project
project-IsNewer p none = replaced-IsNewer 0 p.when p.generation (omega arith)
project-IsNewer p (some j) = elim (Bool-cases (ltb p.generation j.projection.generation)) [
  | inl stale ↦ rw (stale, project) tt
  | inr newer ↦ rw (newer, project) (by_delivery j.delivery (ground arith))
]
  where
    by_delivery :
        (x : Option Delivery)
        → j.projection.generation ≤ p.generation
        → All (IsNewer j.projection.generation) (project_on x j.projection p)
    by_delivery none le = replaced-IsNewer j.projection.generation p.when p.generation le
    by_delivery (some x) le =
        elim (Bool-cases
          (nat_beq p.generation j.projection.generation && same_when p.when j.projection.when)) [
            | inl same ↦ rw (same, project_on) tt
            | inr differ ↦ rw (differ, project_on) (le, tt)
          ]

acknowledge-IsNewer :
    (p : Projection) (j : Option Journal) → All (IsNewer (generation_of j)) (acknowledge p j)
unfolding acknowledge
acknowledge-IsNewer p none = replaced-IsNewer 0 p.when p.generation (omega arith)
acknowledge-IsNewer p (some j) = elim (Bool-cases (ltb p.generation j.projection.generation)) [
  | inl stale ↦ rw (stale, acknowledge) tt
  | inr newer ↦
      rw (newer, acknowledge)
        (replaced-IsNewer j.projection.generation p.when p.generation (ground arith))
]

fire-IsNewer :
    (w : Option ℕ) (active : List ℕ) (now scheduled : ℕ) (o : Option Journal)
    → All
        (IsNewer (generation_of o))
        (fire_at w active now scheduled (found_or_new scheduled o)).effects
fire-IsNewer none active now scheduled o = tt
fire-IsNewer (some wake) active now scheduled o = elim (Bool-cases (ltb scheduled wake)) [
  | inl early ↦ rw (early, fire_at) (tt, tt)
  | inr due ↦
      let j : Journal = found_or_new scheduled o in
      let (delay, is_delay, _) = attempt_delay (tries_of j.delivery j.projection.generation) in
      rw (due, is_delay, fire_at) (tt, (found o, tt))
]
  where
    found :
        (o : Option Journal) → generation_of o ≤ (found_or_new scheduled o).projection.generation
    found none = omega arith
    found (some j) = omega arith

effects-IsNewer :
    (c : Call) (now : ℕ) (j : Option Journal) → All (IsNewer (generation_of j)) (effects_of c now j)
unfolding fire
effects-IsNewer (projecting p) now j = project-IsNewer p j
effects-IsNewer (firing active scheduled) now j =
    fire-IsNewer (expected (found_or_new scheduled j)) active now scheduled j
effects-IsNewer (acknowledging p) now j = acknowledge-IsNewer p j

reconcile-IsNewer :
    (now : ℕ) (j : Option Journal) → All (IsNewer (generation_of j)) (reconcile now j)
unfolding reconcile
reconcile-IsNewer now none = tt
reconcile-IsNewer now (some j) = by_parts j.delivery j.projection.when
  where
    by_parts :
        (x : Option Delivery) (when : Option ℕ)
        → All
            (IsNewer j.projection.generation)
            (reconcile_on x now (record { generation = j.projection.generation; when = when }))
    by_parts (some x) when = (tt, tt)
    by_parts none none = (tt, tt)
    by_parts none (some t) = (tt, tt)

before_journal : (c : Call) (d : Disk) → (before c d).journal ≡ d.journal
before_journal (projecting p) d = refl
before_journal (firing active scheduled) d = refl
before_journal (acknowledging p) d = refl

-- The generation in the journal never falls, wherever the worker is stopped: an older projection
-- does not come back over a newer one.
pub Step-generation_of :
    (m m' : Machine) → Step m m' → generation_of m.disk.journal ≤ generation_of m'.disk.journal
Step-generation_of _ _ (call c d t now le) =
    run_newer (generation_of d.journal) (effects_of c now d.journal) (before c d)
      (effects-IsNewer c now d.journal) (rw (before_journal c d) (omega arith))
Step-generation_of _ _ (stop n c d t now le) =
    run_newer (generation_of d.journal) (take n (effects_of c now d.journal)) (before c d)
      (All-take (IsNewer (generation_of d.journal)) n (effects_of c now d.journal)
        (effects-IsNewer c now d.journal))
      (rw (before_journal c d) (omega arith))
Step-generation_of _ _ (stop_start n d t now le) =
    run_newer (generation_of d.journal) (take n (reconcile now d.journal)) d
      (All-take (IsNewer (generation_of d.journal)) n (reconcile now d.journal)
        (reconcile-IsNewer now d.journal))
      (omega arith)
Step-generation_of _ _ (start d t now le) =
    run_newer (generation_of d.journal) (reconcile now d.journal) d
      (reconcile-IsNewer now d.journal) (omega arith)
