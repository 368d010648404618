-- ===== src/ActorContainer/Facets/Stale.antt =====
-- src/server/actor-container.ts: a placement whose epoch is over never starts its facet.
pub mod Calm
use do_runtime.Common.{
  ℕ, ◌+◌, ◌≤◌, ◌<◌, ◌≡◌, refl, ap, ◌∙◌, Bool, true, false, Option, none, some, List, [], ◌∷◌, ◌++◌,
  String, nat_beq, if◌then◌else◌, Bool-cases, inl, inr, arith, lookup, string_eq, erase,
}
use do_runtime.InputGate.{update}
use do_runtime.FacetDeletion.Epochs.{epoch_of, is_current, use_once_le, invalidating}
use do_runtime.ActorContainer.Facets.{
  Entry, Operation, place, asked, stubbing, teardown, over, HostCall, start, abort, Manager,
  set_queue, call_host, begin, run_behind, run_operation, next_of, go_on, tear_down, abort_on,
  abort_facet, abort_each, abort_all, deleted_message, delete_subtree, delete_each,
  delete_all_descendants,
}
use do_runtime.ActorContainer.Facets.Places.{
  reject, set_handle, place_on, placed_of, resume_place, stub_of, settle_stub, is_entry, forget,
  broken,
}
use do_runtime.ActorContainer.Facets.Stale.Calm.{
  starts-other, IsStale, IsCalm, IsCalm-refl, IsCalm-trans, call_host-IsCalm, set_queue-IsCalm,
  run_behind-IsCalm, next_of-IsCalm,
}

-- An entry leaves the map and is torn down.
dropped-IsCalm :
    (name : String) (e : ℕ) (reason : String) (m : Manager)
    → IsCalm m (tear_down e reason (record m { facets = erase name m.facets }))
dropped-IsCalm name e reason m =
    let c =
      run_behind-IsCalm (m.operations (m.entries e).id) (m.entries e).id (teardown reason)
        (record m { facets = erase name m.facets }) in
    record {
      next_entry = c.next_entry;
      epochs = c.epochs;
      ids = c.ids;
      epoch = c.epoch;
      silent = c.silent;
    }

pub abort_on-IsCalm :
    (o : Option ℕ) (name reason : String) (m : Manager) → IsCalm m (abort_on o name reason m)
abort_on-IsCalm none name reason m = IsCalm-refl m
abort_on-IsCalm (some e) name reason m = dropped-IsCalm name e reason m

pub abort_each-IsCalm :
    (facets : List (String × ℕ)) (reason : String) (m : Manager)
    → IsCalm m (abort_each facets reason m)
unfolding abort_each
abort_each-IsCalm [] reason m = IsCalm-refl m
abort_each-IsCalm ((name, e) ∷ rest) reason m =
    let m' : Manager = tear_down e reason (record m { facets = erase name m.facets }) in
    IsCalm-trans m m' (abort_each rest reason m') (dropped-IsCalm name e reason m)
      (abort_each-IsCalm rest reason m')

pub delete_subtree-IsCalm :
    (id : ℕ) (subtree : List ℕ) (o : Option ℕ) (m : Manager)
    → IsCalm m (delete_subtree id subtree o m)
delete_subtree-IsCalm id subtree o m = record {
  next_entry = refl;
  epochs = λ k. use_once_le (invalidating id subtree) k m.epochs;
  ids = λ e. refl;
  epoch = λ e. refl;
  silent = λ e k stale. refl;
}

pub delete_each-IsCalm :
    (children : List (ℕ × List ℕ)) (m : Manager) → IsCalm m (delete_each children m)
unfolding delete_each
delete_each-IsCalm [] m = IsCalm-refl m
delete_each-IsCalm ((id, subtree) ∷ rest) m =
    let m' : Manager = delete_subtree id subtree none m in
    IsCalm-trans m m' (delete_each rest m') (delete_subtree-IsCalm id subtree none m)
      (delete_each-IsCalm rest m')

-- An entry is marked.
marked-IsCalm :
    (e : ℕ) (x : Entry) (m : Manager)
    → x.id ≡ (m.entries e).id
    → x.epoch ≡ (m.entries e).epoch
    → IsCalm m (record m { entries = update m.entries e x })
marked-IsCalm e x m same_id same_epoch = record {
  next_entry = refl;
  epochs = λ k. omega arith;
  ids = λ k. elim (Bool-cases (nat_beq e k)) [
    | inl same ↦
        let is_k : e ≡ k = ground arith in rw same (same_id ∙ ap (λ y. (m.entries y).id) is_k)
    | inr differ ↦ rw differ refl
  ];
  epoch = λ k. elim (Bool-cases (nat_beq e k)) [
    | inl same ↦
        let is_k : e ≡ k = ground arith in rw same (same_epoch ∙ ap (λ y. (m.entries y).epoch) is_k)
    | inr differ ↦ rw differ refl
  ];
  silent = λ i k stale. refl;
}

reject-IsCalm : (e : ℕ) (m : Manager) → IsCalm m (reject e m)
reject-IsCalm e m = marked-IsCalm e (record (m.entries e) { rejected = true }) m refl refl

place_on-IsCalm :
    (b : Bool) (e id : ℕ) (q : List Operation) (m : Manager)
    → (b ≡ true → IsStale e m → ⊥)
    → IsCalm m (place_on b e id q m)
place_on-IsCalm false e id q m fresh =
    set_queue-IsCalm id (over ∷ q) m (reject e m) (reject-IsCalm e m)
place_on-IsCalm true e id q m fresh =
    let m' : Manager = call_host id (start e) m in
    let called = call_host-IsCalm id (start e) m (λ i stale. elim (Bool-cases (nat_beq e i)) [
      | inl same ↦ let is_i : e ≡ i = ground arith in absurd (fresh refl (rw is_i stale))
      | inr differ ↦ starts-other i e (m.calls id) differ
    ]) in
    set_queue-IsCalm id (stubbing e ∷ q) m (set_handle e m') (
      IsCalm-trans m m' (set_handle e m') called
        (marked-IsCalm e (record (m.entries e) { handle = true }) m' refl refl))

current_lem :
    (rejected throws : Bool) (e : ℕ) (m : Manager)
    → (if rejected
        then false
        else if is_current (m.entries e).id (m.entries e).epoch m.epochs
        then (if throws then false else true)
        else false)
      ≡ true
    → epoch_of (m.entries e).id m.epochs ≡ (m.entries e).epoch
current_lem rejected throws e m goes = ground arith

placed_of-IsCalm :
    (queue : List Operation) (rejected throws : Bool) (id : ℕ) (m : Manager)
    → IsCalm m (placed_of queue rejected throws id m)
placed_of-IsCalm (asked e ∷ q) rejected throws id m =
    place_on-IsCalm _ e id q m
      (λ goes stale. let now = current_lem rejected throws e m goes in absurd (omega arith))
placed_of-IsCalm [] rejected throws id m = IsCalm-refl m
placed_of-IsCalm (place e ∷ q) rejected throws id m = IsCalm-refl m
placed_of-IsCalm (stubbing e ∷ q) rejected throws id m = IsCalm-refl m
placed_of-IsCalm (teardown r ∷ q) rejected throws id m = IsCalm-refl m
placed_of-IsCalm (over ∷ q) rejected throws id m = IsCalm-refl m

stub_of-IsCalm :
    (queue : List Operation) (resolved : Bool) (id : ℕ) (m : Manager)
    → IsCalm m (stub_of queue resolved id m)
stub_of-IsCalm (stubbing e ∷ q) true id m = set_queue-IsCalm id (over ∷ q) m m (IsCalm-refl m)
stub_of-IsCalm (stubbing e ∷ q) false id m =
    set_queue-IsCalm id (over ∷ q) m (reject e m) (reject-IsCalm e m)
stub_of-IsCalm [] resolved id m = IsCalm-refl m
stub_of-IsCalm (place e ∷ q) resolved id m = IsCalm-refl m
stub_of-IsCalm (asked e ∷ q) resolved id m = IsCalm-refl m
stub_of-IsCalm (teardown r ∷ q) resolved id m = IsCalm-refl m
stub_of-IsCalm (over ∷ q) resolved id m = IsCalm-refl m

pub resume_place-IsCalm :
    (rejected throws : Bool) (id : ℕ) (m : Manager) → IsCalm m (resume_place rejected throws id m)
resume_place-IsCalm rejected throws id m = placed_of-IsCalm (m.operations id) rejected throws id m

pub settle_stub-IsCalm :
    (resolved : Bool) (id : ℕ) (m : Manager) → IsCalm m (settle_stub resolved id m)
settle_stub-IsCalm resolved id m = stub_of-IsCalm (m.operations id) resolved id m

pub go_on-IsCalm : (id : ℕ) (m : Manager) → IsCalm m (go_on id m)
go_on-IsCalm id m = next_of-IsCalm (m.operations id) id m

pub abort_facet-IsCalm : (name reason : String) (m : Manager) → IsCalm m (abort_facet name reason m)
abort_facet-IsCalm name reason m = abort_on-IsCalm (lookup name m.facets) name reason m

pub delete_all_descendants-IsCalm :
    (children : List (ℕ × List ℕ)) (m : Manager) → IsCalm m (delete_all_descendants children m)
unfolding delete_all_descendants abort_all
delete_all_descendants-IsCalm children m =
    let m' : Manager = abort_each m.facets deleted_message m in
    IsCalm-trans m m' (delete_each children m') (abort_each-IsCalm m.facets deleted_message m)
      (delete_each-IsCalm children m')

pub forget-IsCalm : (e : ℕ) (m : Manager) → IsCalm m (forget e m)
forget-IsCalm e m = elim (Bool-cases (is_entry (lookup (m.entries e).name m.facets) e)) [
  | inl same ↦ rw same (record {
    next_entry = refl;
    epochs = λ k. omega arith;
    ids = λ k. refl;
    epoch = λ k. refl;
    silent = λ k i stale. refl;
  })
  | inr differ ↦ rw differ (IsCalm-refl m)
]

pub broken-IsCalm : (e : ℕ) (reason : String) (m : Manager) → IsCalm m (broken e reason m)
broken-IsCalm e reason m = elim (Bool-cases (is_entry (lookup (m.entries e).name m.facets) e)) [
  | inl same ↦ rw same (dropped-IsCalm (m.entries e).name e reason m)
  | inr differ ↦ rw differ (IsCalm-refl m)
]
