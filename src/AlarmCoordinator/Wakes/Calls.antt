-- ===== src/AlarmCoordinator/Wakes/Calls.antt =====
-- src/browser/alarm-coordinator.ts: the wake that a call leaves.
use mathlib.Core.Path.{subst}
use do_runtime.Common.{
  ℕ, ◌≤◌, ◌≡◌, refl, sym, ◌∙◌, ◌&&◌, Option, none, some, List, nat_beq, ltb, Bool-cases, inl, inr,
  arith,
}
use do_runtime.AlarmCoordinator.{
  Projection, Delivery, Journal, Disk, run, same_when, replace_with, project_on, project,
  reconcile_on, reconcile, acknowledge, wake_or, expected,
}
use do_runtime.AlarmCoordinator.Fire.{found_or_new, tries_of, fire_at, fire, attempt_delay}
use do_runtime.AlarmCoordinator.Crashes.{
  Call, projecting, firing, acknowledging, called, IsArmedBy, IsAwakeAt,
}

later-IsArmedBy :
    (w : Option ℕ) (t now : ℕ) (physical : Option ℕ)
    → t ≤ now
    → IsArmedBy w t physical
    → IsArmedBy w now physical
later-IsArmedBy none t now physical le h = tt
later-IsArmedBy (some w) t now none le h = absurd h
later-IsArmedBy (some w) t now (some x) le h = omega arith

pub later-IsAwakeAt :
    (j : Option Journal) (t now : ℕ) (physical : Option ℕ)
    → t ≤ now
    → IsAwakeAt j t physical
    → IsAwakeAt j now physical
later-IsAwakeAt none t now physical le h = tt
later-IsAwakeAt (some j) t now physical le h = later-IsArmedBy (expected j) t now physical le h

replaced-IsAwakeAt :
    (when : Option ℕ) (g now : ℕ) (d : Disk)
    → IsAwakeAt
        (run (replace_with (record { generation = g; when = when })) d).journal
        now
        (run (replace_with (record { generation = g; when = when })) d).physical
replaced-IsAwakeAt none g now d = tt
replaced-IsAwakeAt (some w) g now d = omega arith

-- What a call leaves on `d`.
abbrev pub IsAwakeOn : Disk → ℕ → Type 0
IsAwakeOn d now = IsAwakeAt d.journal now d.physical

armed_lem :
    (j : Journal) (now : ℕ) (d : Disk)
    → d.journal ≡ some j
    → IsAwakeOn d now
    → IsArmedBy (expected j) now d.physical
armed_lem j now d is_j h = subst (λ x. IsAwakeAt x now d.physical) is_j h

project_on-IsAwakeOn :
    (delivery : Option Delivery) (j : Journal) (p : Projection) (now : ℕ) (d : Disk)
    → j.delivery ≡ delivery
    → d.journal ≡ some j
    → IsAwakeOn d now
    → IsAwakeOn (run (project_on delivery j.projection p) d) now
project_on-IsAwakeOn none j p now d is_d is_j h = replaced-IsAwakeAt p.when p.generation now d
project_on-IsAwakeOn (some x) j p now d is_d is_j h =
    elim (Bool-cases
      (nat_beq p.generation j.projection.generation && same_when p.when j.projection.when)) [
        | inl same ↦ rw (same, project_on) h
        | inr differ ↦
            rw (differ, project_on)
              (subst (λ y. IsArmedBy (wake_or y j.projection.when) now d.physical) is_d
                (armed_lem j now d is_j h))
      ]

project-IsAwakeOn :
    (p : Projection) (now : ℕ) (j : Option Journal) (d : Disk)
    → d.journal ≡ j
    → IsAwakeOn d now
    → IsAwakeOn (run (project p j) d) now
unfolding project
project-IsAwakeOn p now none d is_j h = replaced-IsAwakeAt p.when p.generation now d
project-IsAwakeOn p now (some j) d is_j h =
    elim (Bool-cases (ltb p.generation j.projection.generation)) [
      | inl stale ↦ rw (stale, project) h
      | inr newer ↦ rw (newer, project) (project_on-IsAwakeOn j.delivery j p now d refl is_j h)
    ]

acknowledge-IsAwakeOn :
    (p : Projection) (now : ℕ) (j : Option Journal) (d : Disk)
    → IsAwakeOn d now
    → IsAwakeOn (run (acknowledge p j) d) now
unfolding acknowledge
acknowledge-IsAwakeOn p now none d h = replaced-IsAwakeAt p.when p.generation now d
acknowledge-IsAwakeOn p now (some j) d h =
    elim (Bool-cases (ltb p.generation j.projection.generation)) [
      | inl stale ↦ rw (stale, acknowledge) h
      | inr newer ↦ rw (newer, acknowledge) (replaced-IsAwakeAt p.when p.generation now d)
    ]

early-IsAwakeAt :
    (o : Option Journal) (wake now scheduled : ℕ)
    → expected (found_or_new scheduled o) ≡ some wake
    → IsAwakeAt o now (some wake)
early-IsAwakeAt none wake now scheduled is_wake = tt
early-IsAwakeAt (some j) wake now scheduled is_wake =
    subst (λ w. IsArmedBy w now (some wake)) (sym is_wake) (omega arith)

idle-IsAwakeAt :
    (o : Option Journal) (now scheduled : ℕ) (physical : Option ℕ)
    → expected (found_or_new scheduled o) ≡ none
    → IsAwakeAt o now physical
idle-IsAwakeAt none now scheduled physical h = tt
idle-IsAwakeAt (some j) now scheduled physical h = subst (λ w. IsArmedBy w now physical) (sym h) tt

-- A fired alarm leaves another one, or nothing is to come.
fire_at-IsAwakeOn :
    (w : Option ℕ) (active : List ℕ) (now scheduled : ℕ) (d : Disk)
    → expected (found_or_new scheduled d.journal) ≡ w
    → IsAwakeOn
        (run (fire_at w active now scheduled (found_or_new scheduled d.journal)).effects d)
        now
fire_at-IsAwakeOn none active now scheduled d is_w =
    idle-IsAwakeAt d.journal now scheduled d.physical is_w
fire_at-IsAwakeOn (some wake) active now scheduled d is_w = elim (Bool-cases (ltb scheduled wake)) [
  | inl early ↦ rw (early, fire_at) (early-IsAwakeAt d.journal wake now scheduled is_w)
  | inr due ↦
      let j : Journal = found_or_new scheduled d.journal in
      let (delay, is_delay, _) = attempt_delay (tries_of j.delivery j.projection.generation) in
      rw (due, is_delay, fire_at) (omega arith)
]

pub called-IsAwakeOn :
    (c : Call) (now : ℕ) (d : Disk) → IsAwakeOn d now → IsAwakeOn (called now c d) now
unfolding fire
called-IsAwakeOn (projecting p) now d h = project-IsAwakeOn p now d.journal d refl h
called-IsAwakeOn (firing active scheduled) now d h =
    fire_at-IsAwakeOn (expected (found_or_new scheduled d.journal)) active now scheduled
      (record d { physical = none }) refl
called-IsAwakeOn (acknowledging p) now d h = acknowledge-IsAwakeOn p now d.journal d h

reconcile_on-IsArmedBy :
    (delivery : Option Delivery) (when : Option ℕ) (g now : ℕ) (d : Disk)
    → IsArmedBy
        (wake_or delivery when)
        now
        (run (reconcile_on delivery now (record { generation = g; when = when })) d).physical
reconcile_on-IsArmedBy (some x) when g now d = omega arith
reconcile_on-IsArmedBy none none g now d = tt
reconcile_on-IsArmedBy none (some t) g now d = omega arith

reconcile_on-journal :
    (delivery : Option Delivery) (when : Option ℕ) (g now : ℕ) (d : Disk)
    → (run (reconcile_on delivery now (record { generation = g; when = when })) d).journal
      ≡ d.journal
reconcile_on-journal (some x) when g now d = refl
reconcile_on-journal none none g now d = refl
reconcile_on-journal none (some t) g now d = refl

pub reconcile-IsAwakeOn :
    (now : ℕ) (j : Option Journal) (d : Disk)
    → d.journal ≡ j
    → IsAwakeOn (run (reconcile now j) d) now
unfolding reconcile
reconcile-IsAwakeOn now none d is_j = subst (λ x. IsAwakeAt x now d.physical) (sym is_j) tt
reconcile-IsAwakeOn now (some j) d is_j =
    subst (λ x. IsAwakeAt x now (run (reconcile_on j.delivery now j.projection) d).physical)
      (sym (reconcile_on-journal j.delivery j.projection.when j.projection.generation now d ∙ is_j))
      (reconcile_on-IsArmedBy j.delivery j.projection.when j.projection.generation now d)
