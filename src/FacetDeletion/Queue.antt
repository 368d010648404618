-- ===== src/FacetDeletion/Queue.antt =====
-- src/server/facet-deletion.ts: `SerializedSubtreeDeletionQueue`. An operation is the number of its
-- call; the first of those that are pending runs.
use mathlib.Core.Path.{subst}
use do_runtime.Common.{
  ℕ, suc, ◌+◌, ◌≤◌, ◌<◌, ◌≡◌, true, Option, none, some, List, [], ◌∷◌, ◌++◌, if◌then◌else◌, inl,
  inr, ◌⊎◌, arith,
}
use do_runtime.FacetDeletion.Epochs.{has}

pub record Pending : Type 0 where
  pub number : ℕ
  pub covered : List ℕ

pub record DeletionQueue : Type 0 where
  pub pending : List Pending
  pub next_number : ℕ

-- `run`: the operation is behind all that are pending.
abbrev pub run_serialized : List ℕ → DeletionQueue → DeletionQueue
run_serialized ids q = record {
  pending = q.pending ++ record { number = q.next_number; covered = ids } ∷ [];
  next_number = q.next_number + 1;
}

abbrev pub running_of : List Pending → Option ℕ
running_of [] = none
running_of (p ∷ ps) = some p.number

-- The operation that runs, if one does.
abbrev pub running : DeletionQueue → Option ℕ
running q = running_of q.pending

abbrev pub rest_of : List Pending → List Pending
rest_of [] = []
rest_of (p ∷ ps) = ps

-- It is over, or has failed; the next one runs.
abbrev pub settle_first : DeletionQueue → DeletionQueue
settle_first q = record q { pending = rest_of q.pending }

-- `waitFor`: the operations that are waited for.
unfoldable pub barriers : ℕ → List Pending → List ℕ
barriers id [] = []
barriers id (p ∷ ps) = if has id p.covered then p.number ∷ barriers id ps else barriers id ps

abbrev pub wait_for : ℕ → DeletionQueue → List ℕ
wait_for id q = barriers id q.pending

pub data QueueUse : Type 0 where
  calling : List ℕ → QueueUse
  settling : QueueUse

abbrev pub queue_once : QueueUse → DeletionQueue → DeletionQueue
queue_once (calling ids) q = run_serialized ids q
queue_once settling q = settle_first q

unfoldable pub queue_all : List QueueUse → DeletionQueue → DeletionQueue
queue_all [] q = q
queue_all (u ∷ us) q = queue_all us (queue_once u q)

abbrev pub IsIn : Pending → List Pending → Type 0
IsIn x [] = ⊥
IsIn x (p ∷ ps) = (x ≡ p) ⊎ IsIn x ps

-- The pending operations are in the order of their calls.
abbrev pub IsInOrder : ℕ → List Pending → ℕ → Type 0
IsInOrder low [] next = low ≤ next
IsInOrder low (p ∷ ps) next = (low ≤ p.number) × IsInOrder (suc p.number) ps next

pub IsInOrder-snoc :
    (low next : ℕ) (ps : List Pending) (ids : List ℕ)
    → IsInOrder low ps next
    → IsInOrder low (ps ++ record { number = next; covered = ids } ∷ []) (next + 1)
IsInOrder-snoc low next [] ids h = (h, omega arith)
IsInOrder-snoc low next (p ∷ ps) ids h = (h.0, IsInOrder-snoc (suc p.number) next ps ids h.1)

lower-IsInOrder :
    (low low' next : ℕ) (ps : List Pending)
    → low' ≤ low
    → IsInOrder low ps next
    → IsInOrder low' ps next
lower-IsInOrder low low' next [] le h = omega arith
lower-IsInOrder low low' next (p ∷ ps) le h = (omega (arith, h.0), h.1)

rest-IsInOrder :
    (next : ℕ) (ps : List Pending) → IsInOrder 0 ps next → IsInOrder 0 (rest_of ps) next
rest-IsInOrder next [] h = h
rest-IsInOrder next (p ∷ ps) h = lower-IsInOrder (suc p.number) 0 next ps (omega arith) h.1

queue_all-IsInOrder :
    (us : List QueueUse) (q : DeletionQueue)
    → IsInOrder 0 q.pending q.next_number
    → IsInOrder 0 (queue_all us q).pending (queue_all us q).next_number
unfolding queue_all
queue_all-IsInOrder [] q h = h
queue_all-IsInOrder (calling ids ∷ us) q h =
    queue_all-IsInOrder us (run_serialized ids q) (IsInOrder-snoc 0 q.next_number q.pending ids h)
queue_all-IsInOrder (settling ∷ us) q h =
    queue_all-IsInOrder us (settle_first q) (rest-IsInOrder q.next_number q.pending h)

snoc-IsIn : (x p : Pending) (ps : List Pending) → IsIn x (ps ++ p ∷ []) → IsIn x ps ⊎ (x ≡ p)
snoc-IsIn x p [] (inl e) = inr e
snoc-IsIn x p [] (inr never) = absurd never
snoc-IsIn x p (y ∷ ps) (inl e) = inl (inl e)
snoc-IsIn x p (y ∷ ps) (inr there) = elim (snoc-IsIn x p ps there) [
  | inl old ↦ inl (inr old)
  | inr new ↦ inr new
]

rest-IsIn : (x : Pending) (ps : List Pending) → IsIn x (rest_of ps) → IsIn x ps
rest-IsIn x [] h = h
rest-IsIn x (p ∷ ps) h = inr h

-- What is pending later was pending before, or was called since.
queue_all-IsIn :
    (us : List QueueUse) (q : DeletionQueue) (x : Pending)
    → IsIn x (queue_all us q).pending
    → IsIn x q.pending ⊎ (q.next_number ≤ x.number)
unfolding queue_all
queue_all-IsIn [] q x h = inl h
queue_all-IsIn (calling ids ∷ us) q x h = elim (queue_all-IsIn us (run_serialized ids q) x h) [
  | inl there ↦ elim (snoc-IsIn x _ q.pending there) [
    | inl old ↦ inl old
    | inr new ↦ inr (rw new (omega arith))
  ]
  | inr since ↦ inr (omega (arith, since))
]
queue_all-IsIn (settling ∷ us) q x h = elim (queue_all-IsIn us (settle_first q) x h) [
  | inl there ↦ inl (rest-IsIn x q.pending there)
  | inr since ↦ inr since
]

barriers-IsIn :
    (id : ℕ) (x : Pending) (ps : List Pending)
    → IsIn x ps
    → has id x.covered ≡ true
    → has x.number (barriers id ps) ≡ true
unfolding barriers
barriers-IsIn id x [] h covers = absurd h
barriers-IsIn id x (p ∷ ps) (inl e) covers =
    let same : has id p.covered ≡ true = subst (λ y. has id (y.covered) ≡ true) e covers in
    rw (same, e) (ground arith)
barriers-IsIn id x (p ∷ ps) (inr there) covers = ground (arith, barriers-IsIn id x ps there covers)

-- After any later calls and ends, the operations that are pending are in the order of their calls,
-- and one that covers `id` and was called before a `waitFor` of `id` is one of its barriers. So
-- once the barriers are over, none of those is left.
pub wait_for_lem :
    (us : List QueueUse) (q : DeletionQueue) (id : ℕ) (x : Pending)
    → IsInOrder 0 q.pending q.next_number
    → IsIn x (queue_all us q).pending
    → x.number < q.next_number
    → has id x.covered ≡ true
    → IsInOrder 0 (queue_all us q).pending (queue_all us q).next_number
      × (has x.number (wait_for id q) ≡ true)
wait_for_lem us q id x order there older covers = (
  queue_all-IsInOrder us q order,
  elim (queue_all-IsIn us q x there) [
    | inl was ↦ barriers-IsIn id x q.pending was covers
    | inr since ↦ absurd (omega (arith, since, older))
  ],
)
