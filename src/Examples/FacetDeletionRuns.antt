-- ===== src/Examples/FacetDeletionRuns.antt =====
-- src/server/facet-deletion.ts and src/server/hibernation-mirror.ts on small inputs.
use do_runtime.Common.{
  ◌⊎◌, true, inl, ◌≡◌, refl, false, none, Result, ok, err, [], ◌∷◌, arith, nat_eq,
}
use do_runtime.FacetDeletion.{
  Receipt, Controller, DeletionError, delete_facet, record_deletion, upsert,
}
use do_runtime.FacetDeletion.Fence.{IsFenced, IsStarted, IsJoined, delete_facet_lem}
use do_runtime.FacetDeletion.Epochs.{
  capture, invalidate, is_current, use_all, capturing, invalidating, capture_stale,
}
use do_runtime.FacetDeletion.Epochs.{has}
use do_runtime.FacetDeletion.Queue.{
  DeletionQueue, run_serialized, queue_all, calling, wait_for, IsInOrder, wait_for_lem,
}
use do_runtime.HibernationMirror.{HibernationMirror, construct, snapshot}
use do_runtime.HibernationMirror.Restore.{
  IsKept, accepting, use_once, use_once-IsKept, construct-snapshot,
}

abbrev asked_once : Controller
asked_once = record { table = (7, 1) ∷ []; active = []; next_number = 0 }

abbrev controller_of : Result DeletionError Controller → Controller
controller_of (ok c) = c
controller_of (err e) = asked_once

-- The facet is deleted again while its first receipt is there.
abbrev asked_twice : Controller
asked_twice = controller_of (delete_facet 7 asked_once)

goes_on : delete_facet 7 asked_once ≡ ok asked_twice
unfolding delete_facet record_deletion upsert
goes_on = refl

delete_facet_example :
    (r : Receipt) × IsFenced r 7 asked_once.table asked_twice.table
    × (IsStarted r asked_once asked_twice ⊎ IsJoined r asked_once asked_twice)
delete_facet_example = delete_facet_lem 7 asked_once asked_twice (omega arith, tt) goes_on

-- Facet 3 is torn down with its parent, 1.
capture_stale_example :
    is_current 3 (capture 3 []).0 (
      use_all
        (capturing 3 ∷ [])
        (invalidate 1 (2 ∷ 3 ∷ []) (use_all (invalidating 2 [] ∷ []) (capture 3 []).1)))
    ≡ false
capture_stale_example =
    capture_stale 3 1 (2 ∷ 3 ∷ []) (invalidating 2 [] ∷ []) (capturing 3 ∷ []) [] refl

-- A deletion of 3 below 1 is queued, then 1 is called; the first one is still running later.
abbrev one_queued : DeletionQueue
one_queued = run_serialized (1 ∷ 3 ∷ []) (record { pending = []; next_number = 0 })

wait_for_example :
    IsInOrder 0
      (queue_all (calling (5 ∷ []) ∷ []) one_queued).pending
      (queue_all (calling (5 ∷ []) ∷ []) one_queued).next_number
    × (has 0 (wait_for 3 one_queued) ≡ true)
unfolding queue_all
wait_for_example =
    wait_for_lem (calling (5 ∷ []) ∷ []) one_queued 3 (record { number = 0; covered = 1 ∷ 3 ∷ [] })
      (omega arith, omega arith) (inl refl) (omega arith) refl

abbrev no_sockets : HibernationMirror
no_sockets = record { entries = []; auto_response_pair = none }

no_sockets-IsKept : IsKept no_sockets
no_sockets-IsKept = record { distinct = tt; own = tt }

abbrev one_socket : HibernationMirror
one_socket = use_once (accepting 4 ("chat" ∷ [])) no_sockets

one_socket-IsKept : IsKept one_socket
one_socket-IsKept = use_once-IsKept (accepting 4 ("chat" ∷ [])) no_sockets no_sockets-IsKept

construct-snapshot_example :
    construct (snapshot one_socket) one_socket.auto_response_pair ≡ one_socket
construct-snapshot_example = construct-snapshot one_socket one_socket-IsKept
