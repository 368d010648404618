-- ===== src/Examples/OutputGateRuns.antt =====
-- src/io/io-gate.ts: two locks, of which the second fails first.
use do_runtime.Common.{◌≡◌, ◌≢◌, refl, List, [], ◌∷◌, length, take}
use do_runtime.OutputGate.{
  OutputGate, open_gate, standing, wait, pending, done, threw, lock_while, fail, succeed, set_link,
}
use do_runtime.OutputGate.Chain.{verdict}
use do_runtime.OutputGate.Uses.{Use, locking, succeeding, failing, use_all, IsSound}
use do_runtime.OutputGate.Promises.{use_all-IsSound, fresh-IsSound, wait_lem}

abbrev two_locks : OutputGate
two_locks = use_all (locking ∷ locking ∷ []) open_gate

abbrev later : List Use
later = failing 1 "late" ∷ locking ∷ failing 2 "other" ∷ succeeding 0 ∷ []

two_locks-IsSound : IsSound two_locks
two_locks-IsSound = use_all-IsSound (locking ∷ locking ∷ []) open_gate fresh-IsSound

-- The wait throws what its own locks threw.
two_locks_throw : standing (use_all later two_locks).links (wait two_locks) ≡ threw "late"
unfolding use_all lock_while fail succeed set_link standing
two_locks_throw = refl

wait_example :
    (standing (use_all later two_locks).links (wait two_locks)
      ≡ verdict done (take (length two_locks.links) (use_all later two_locks).links))
    × (standing two_locks.links (wait two_locks) ≢ pending
        → standing (use_all later two_locks).links (wait two_locks)
          ≡ standing two_locks.links (wait two_locks))
wait_example = wait_lem later two_locks two_locks-IsSound
