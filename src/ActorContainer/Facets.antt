-- ===== src/ActorContainer/Facets.antt =====
-- src/server/actor-container.ts: `FacetManagerImpl`, the facets of one actor, and the operations of
-- `ActorTree`, one queue for each id. An entry is a number, and a promise is its stage. The id of a
-- name is a function here; `ActorContainer.Tree` has it from the index.
pub mod Places
pub mod Marks
pub mod Queues
pub mod Entries
pub mod Kept
pub mod Starts
pub mod Stale
pub mod Silent
pub mod Safety
use do_runtime.Common.{
  ℕ, ◌+◌, Bool, true, false, Option, none, some, List, [], ◌∷◌, ◌++◌, String, nat_beq,
  if◌then◌else◌, lookup, insert, erase, nat_eq, string_eq, Result, ok, err,
}
use do_runtime.InputGate.{update}
use do_runtime.FacetDeletion.Epochs.{Epochs, capture, invalidate, is_current}

-- `name` and `epoch` are what `place` has captured, `handle` tells whether the host has given one. An
-- entry is `rejected` if `started` was, or the stub of the handle.
pub record Entry : Type 0 where
  pub id : ℕ
  pub name : String
  pub epoch : ℕ
  pub handle : Bool
  pub rejected : Bool

-- An operation of an id. `place` and `teardown` have not begun; `asked` waits for the start info
-- and the deletions, `stubbing` for the stub; `over` is done, with its promise still in the map.
pub data Operation : Type 0 where
  place asked stubbing : ℕ → Operation
  teardown : String → Operation
  over : Operation

-- The calls of the host.
pub data HostCall : Type 0 where
  start : ℕ → HostCall
  abort : String → HostCall

-- A call of `deleteSubtree`, with the ids that its barrier waits for, and the copy behind it.
pub record Deletion : Type 0 where
  pub root : ℕ
  pub barrier : List ℕ
  pub copy_from : Option ℕ

pub record Manager : Type 0 where
  pub facets : List (String × ℕ)
  pub entries : ℕ → Entry
  pub next_entry : ℕ
  pub epochs : Epochs
  pub operations : ℕ → List Operation
  pub calls : ℕ → List HostCall
  pub deletions : List Deletion

abbrev pub unused : Entry
unused = record { id = 0; name = ""; epoch = 0; handle = false; rejected = false }

abbrev pub new_manager : Manager
new_manager = record {
  facets = [];
  entries = λ _. unused;
  next_entry = 0;
  epochs = [];
  operations = λ _. [];
  calls = λ _. [];
  deletions = [];
}

abbrev pub set_queue : ℕ → List Operation → Manager → Manager
set_queue id q m = record m { operations = update m.operations id q }

abbrev pub call_host : ℕ → HostCall → Manager → Manager
call_host id x m = record m { calls = update m.calls id (m.calls id ++ x ∷ []) }

-- An operation begins, in front of those that wait for it.
abbrev pub begin : ℕ → Operation → List Operation → Manager → Manager
begin id (place e) q m = set_queue id (asked e ∷ q) m
begin id (teardown reason) q m = set_queue id (over ∷ q) (call_host id (abort reason) m)
begin id (asked e) q m = set_queue id (asked e ∷ q) m
begin id (stubbing e) q m = set_queue id (stubbing e ∷ q) m
begin id over q m = set_queue id (over ∷ q) m

-- `runOperation`.
abbrev pub run_behind : List Operation → ℕ → Operation → Manager → Manager
run_behind [] id op m = begin id op [] m
run_behind (x ∷ q) id op m = set_queue id (x ∷ q ++ op ∷ []) m

abbrev pub run_operation : ℕ → Operation → Manager → Manager
run_operation id op m = run_behind (m.operations id) id op m

-- The operation in front is done: the next one begins, or the map is cleared.
abbrev pub next_of : List Operation → ℕ → Manager → Manager
next_of (over ∷ []) id m = set_queue id [] m
next_of (over ∷ op ∷ q) id m = begin id op q m
next_of _ id m = m

abbrev pub go_on : ℕ → Manager → Manager
go_on id m = next_of (m.operations id) id m

-- `#teardown`.
abbrev pub tear_down : ℕ → String → Manager → Manager
tear_down e reason m = run_operation (m.entries e).id (teardown reason) m

-- `abortFacet`.
abbrev pub abort_on : Option ℕ → String → String → Manager → Manager
abort_on none name reason m = m
abort_on (some e) name reason m = tear_down e reason (record m { facets = erase name m.facets })

abbrev pub abort_facet : String → String → Manager → Manager
abort_facet name reason m = abort_on (lookup name m.facets) name reason m

-- `abortAll`, over the entries that the map has.
unfoldable pub abort_each : List (String × ℕ) → String → Manager → Manager
abort_each [] reason m = m
abort_each ((name, e) ∷ rest) reason m =
    abort_each rest reason (tear_down e reason (record m { facets = erase name m.facets }))

unfoldable pub abort_all : String → Manager → Manager
unfolding abort_each
abort_all reason m = abort_each m.facets reason m

abbrev pub deleted_message : String
deleted_message = "Facet was deleted."

-- `subtreeOperationBarrier`: the ids with an operation, as they are at the call.
abbrev pub is_busy : List Operation → Bool
is_busy [] = false
is_busy (_ ∷ _) = true

abbrev pub barrier : List ℕ → Manager → List ℕ
barrier [] m = []
barrier (id ∷ ids) m = if is_busy (m.operations id) then id ∷ barrier ids m else barrier ids m

-- The epochs of a subtree, and the call of `deleteSubtree`.
abbrev pub delete_subtree : ℕ → List ℕ → Option ℕ → Manager → Manager
delete_subtree id subtree copy_from m = record m {
  epochs = invalidate id subtree m.epochs;
  deletions =
      m.deletions
      ++ record { root = id; barrier = barrier (id ∷ subtree) m; copy_from = copy_from } ∷ [];
}

unfoldable pub delete_each : List (ℕ × List ℕ) → Manager → Manager
delete_each [] m = m
delete_each ((id, subtree) ∷ rest) m = delete_each rest (delete_subtree id subtree none m)

-- `deleteAllDescendants`, with the children of the actor's own id.
unfoldable pub delete_all_descendants : List (ℕ × List ℕ) → Manager → Manager
unfolding delete_each abort_all
delete_all_descendants children m = delete_each children (abort_all deleted_message m)

module _ (id_of : String → ℕ) where
  -- `getFacet` for a name that the map does not have.
  unfoldable pub new_facet : String → Manager → Manager
  new_facet name m =
      let id = id_of name in
      let e = m.next_entry in
      let entry : Entry = record {
        id = id;
        name = name;
        epoch = (capture id m.epochs).0;
        handle = false;
        rejected = false;
      } in
      let m' = record m {
        entries = update m.entries e entry;
        next_entry = e + 1;
        epochs = (capture id m.epochs).1;
      } in
      let m'' = run_operation id (place e) m' in record m'' { facets = insert name e m''.facets }

  abbrev pub get_on : Option ℕ → String → Manager → ℕ × Manager
  get_on (some e) name m = (e, m)
  get_on none name m = (m.next_entry, new_facet name m)

  abbrev pub get_facet : String → Manager → ℕ × Manager
  get_facet name m = get_on (lookup name m.facets) name m

  -- `deleteFacet`, with the ids below the facet.
  abbrev pub delete_facet : String → List ℕ → Manager → Manager
  delete_facet name subtree m =
      delete_subtree (id_of name) subtree none (abort_facet name deleted_message m)

  -- `cloneFacet`; `false` if it throws.
  abbrev pub clone_facet : String → String → List ℕ → Manager → Bool × Manager
  clone_facet src dst subtree m =
      let m' = abort_facet dst deleted_message m in
      if nat_beq (id_of src) (id_of dst)
      then (false, m')
      else (true, delete_subtree (id_of dst) subtree (some (id_of src)) m')
