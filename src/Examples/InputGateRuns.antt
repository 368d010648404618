-- ===== src/Examples/InputGateRuns.antt =====
-- src/io/io-gate.ts: a lock, a critical section and two promises that wait for it, step by step.
use mathlib.Core.Path.{subst}
use do_runtime.Common.{
  ℕ, ◌≡◌, ◌≢◌, ◌<◌, refl, sym, ◌∙◌, arith, false, none, some, [], ◌∷◌, Result, ok, err, lookup,
  nat_eq,
}
use do_runtime.InputGate.{
  lost, Heap, Held, Section, GateError, exception, granted, rejected, fresh_heap, running, absent,
  target, release, start_critical_section, new_lock, resolve, release_here, release_lock, drop_lock,
  fulfill_child,
}
use do_runtime.InputGate.Sections.{
  now, wait, wait_here, wait_unless, resume, begin_section, succeeded, drop_section, set_broken,
  lose_children,
}
use do_runtime.InputGate.Rules.{IsSound}
use do_runtime.InputGate.Locks.{fresh_heap-IsSound, start_critical_section-IsSound}
use do_runtime.InputGate.Release.{release-IsSound}
use do_runtime.InputGate.Waits.{wait_unless-IsSound, resume-IsSound, wait_blocked}
use do_runtime.InputGate.Endings.{TakesOver, succeeded-IsSound, drop_section-IsSound, HoldsParent}
use do_runtime.InputGate.Breaking.{Occurs, set_broken_lem}

abbrev heap_of : Result GateError Heap → Heap
heap_of (ok h) = h
heap_of (err e) = fresh_heap

kept : (x : Result GateError Heap) → ((h' : Heap) × (x ≡ ok h') × IsSound h') → IsSound (heap_of x)
kept x (h', is_ok, sound) = subst (λ r. IsSound (heap_of r)) (sym is_ok) sound

-- The root gate is locked, ...
abbrev locked : Heap
locked = (wait_unless false 0 fresh_heap).1

locked-IsSound : IsSound locked
locked-IsSound = wait_unless-IsSound false 0 fresh_heap (omega arith) fresh_heap-IsSound

abbrev on_root : Held
on_root = record { gate = 0; keeper = none }

locked_live : lookup 0 locked.locks ≡ some on_root
unfolding wait_unless wait wait_here new_lock resolve
locked_live = refl

release-IsSound_example : (h' : Heap) × (release 0 locked ≡ ok h') × IsSound h'
release-IsSound_example = release-IsSound locked 0 on_root locked_live locked-IsSound

wait_blocked_example : (wait_unless false 0 locked).0 ≢ now (granted 1)
unfolding wait_unless wait wait_here new_lock resolve
wait_blocked_example = wait_blocked false 0 0 on_root locked locked-IsSound refl locked_live refl 1

-- ... a promise waits, then a section that starts under the lock, ...
abbrev one_waits : Heap
one_waits = (wait_unless false 0 locked).1

one_waits-IsSound : IsSound one_waits
unfolding wait_unless wait wait_here new_lock resolve
one_waits-IsSound = wait_unless-IsSound false 0 locked (omega arith) locked-IsSound

abbrev started : Heap
started = heap_of (start_critical_section 0 one_waits)

one_waits_live : lookup 0 one_waits.locks ≡ some on_root
unfolding wait_unless wait wait_here new_lock resolve
one_waits_live = refl

started-IsSound : IsSound started
started-IsSound =
    kept (start_critical_section 0 one_waits)
      (start_critical_section-IsSound one_waits 0 on_root one_waits_live one_waits-IsSound)

abbrev two_wait : Heap
two_wait = (wait_unless false 1 started).1

started_exists : 1 < started.next_gate
unfolding wait_unless wait wait_here new_lock resolve start_critical_section
started_exists = omega arith

two_wait-IsSound : IsSound two_wait
two_wait-IsSound = wait_unless-IsSound false 1 started started_exists started-IsSound

set_broken_example :
    ((set_broken 0 (exception "x") two_wait).gates 0 ≡ record {
      lock_count = 1;
      waiters = [];
      waiting_children = [];
      broken = some (exception "x");
    })
    × ((p : ℕ)
        → Occurs p (0 ∷ [])
        → Occurs (p, rejected (exception "x")) (set_broken 0 (exception "x") two_wait).settled)
    × ((x : ℕ) (sec : Section)
        → Occurs x (1 ∷ [])
        → two_wait.sections x ≡ some sec
        → (set_broken 0 (exception "x") two_wait).sections x
          ≡ some (record sec { first = lost (exception "x") }))
    × (wait_unless false 0 (set_broken 0 (exception "x") two_wait)
        ≡ (now (rejected (exception "x")), set_broken 0 (exception "x") two_wait))
unfolding wait_unless wait wait_here begin_section new_lock start_critical_section resolve
    set_broken lose_children
set_broken_example = set_broken_lem 0 (exception "x") two_wait refl

-- The section goes on under its parent lock.
abbrev given : Heap
given = heap_of (release 0 two_wait)

two_wait_live : lookup 0 two_wait.locks ≡ some on_root
unfolding wait_unless wait wait_here begin_section new_lock start_critical_section resolve
two_wait_live = refl

given-IsSound : IsSound given
given-IsSound =
    kept (release 0 two_wait) (release-IsSound two_wait 0 on_root two_wait_live two_wait-IsSound)

resumed-IsSound : IsSound (resume false 1 given).1
unfolding wait_unless wait wait_here begin_section new_lock start_critical_section resolve release
    release_lock release_here drop_lock fulfill_child
resumed-IsSound = resume-IsSound false 1 given refl given-IsSound

abbrev inside : Heap
inside = (resume false 1 given).1

abbrev running_section : Section
running_section = record { state = running; parent = 0; parent_lock = some 1; first = absent }

abbrev by_section : Held
by_section = record { gate = 0; keeper = some 1 }

inside_section : inside.sections 1 ≡ some running_section
unfolding wait_unless wait wait_here begin_section new_lock start_critical_section resolve release
    release_lock release_here drop_lock fulfill_child resume
inside_section = refl

inside_live : lookup 1 inside.locks ≡ some by_section
unfolding wait_unless wait wait_here begin_section new_lock start_critical_section resolve release
    release_lock release_here drop_lock fulfill_child resume
inside_live = refl

succeeded-IsSound_example :
    (h' : Heap) × (succeeded 1 inside ≡ ok (1, h'))
    × IsSound h'
    × TakesOver
        (inside.gates (target inside.sections 0))
        (inside.gates 1)
        (h'.gates (target inside.sections 0))
    × ((h'.gates 1).lock_count ≡ 0)
    × ((h'.gates 1).waiters ≡ [])
    × ((h'.gates 1).waiting_children ≡ [])
unfolding resolve
succeeded-IsSound_example =
    succeeded-IsSound inside 1 1 running_section by_section inside_section refl refl inside_live
      refl resumed-IsSound

inside-HoldsParent : HoldsParent inside 1
inside-HoldsParent s l is_s is_l =
    let same : some running_section ≡ some s = sym inside_section ∙ is_s in
    let same_section : running_section ≡ s = cc in
    let same_lock : some 1 ≡ some l =
      subst (λ (x : Section). x.parent_lock ≡ some l) (sym same_section) is_l in
    let one : 1 ≡ l = cc in
    (by_section, subst (λ x. lookup x inside.locks ≡ some by_section) one inside_live)

drop_section-IsSound_example : (h' : Heap) × (drop_section 1 inside ≡ ok h') × IsSound h'
drop_section-IsSound_example = drop_section-IsSound inside 1 resumed-IsSound inside-HoldsParent
