-- ===== src/Examples/ActorContainerRuns.antt =====
-- src/server/actor-container.ts: a facet that is asked for, started, deleted and asked for again, and
-- an alarm that is delivered.
use Prim.Native.Char.{Char, code}
use text.Mathlib.TextEquality.{Char-path}
use mathlib.Core.Path.{ap₂}
use do_runtime.Common.{
  ℕ, ◌≡◌, refl, true, false, none, some, List, [], ◌∷◌, String, arith, lookup, string_eq, insert,
  erase,
}
use do_runtime.FacetIndex.{FacetTreeIndex, magic_number, blank, get_id, add}
use do_runtime.FacetIndex.Format.{IsWellFormed}
use do_runtime.Common.{to_le}
use do_runtime.ActorSqlite.Scheduling.{Alarms, construct_alarms}
use do_runtime.ActorContainer.{constructed, deliver_alarm}
use do_runtime.ActorContainer.Delivery.{Agrees, deliver_alarm-Agrees}
use do_runtime.FacetDeletion.Epochs.{capture, invalidate, bump_all}
use do_runtime.ActorContainer.Facets.{
  go_on, Manager, new_manager, start, abort, deleted_message, new_facet,
}
use do_runtime.ActorContainer.Facets.Places.{resume_place, settle_stub}
use do_runtime.ActorContainer.Facets.Marks.{IsExclusive}
use do_runtime.ActorContainer.Facets.Queues.{marks_made, marks_of}
use do_runtime.ActorContainer.Facets.Entries.{failed_in}
use do_runtime.ActorContainer.Facets.Safety.{goes_on, resumes, settles}
use do_runtime.ActorContainer.Tree.{Tree, get_facet_in, delete_facet_in}
use do_runtime.FacetIndex.Ids.{ask, use_once, use_all, use_all-IsWellFormed}
use do_runtime.FacetIndex.Children.{children, collect, sort_children, place, bytes_ltb}
use do_runtime.ActorContainer.Descendants.{descend, descendants, IsListed}
use do_runtime.ActorContainer.Deepest.{descendants-IsListed}
use do_runtime.ActorContainer.Tree.Runs.{asks_for, drops, goes, Run, opened, moved}
use do_runtime.FacetDeletion.Epochs.{is_current}
use do_runtime.ActorContainer.Facets.Stale.Calm.{starts}
use do_runtime.ActorContainer.Tree.Fence.{still, onward, Onward-starts}
use do_runtime.ActorContainer.Tree.Safety.{Run-IsExclusive, Run-holder}

-- A name as the codes of its characters.
spelled : String → List ℕ
spelled String.[] = []
spelled (String.◌∷◌ c s) = code c ∷ spelled s

unread : List ℕ → String
unread bytes = ""

spelled_injective : (a b : String) → spelled a ≡ spelled b → a ≡ b
unfolding spelled
spelled_injective String.[] String.[] e = refl
spelled_injective String.[] (String.◌∷◌ d t) e = absurd (ground arith)
spelled_injective (String.◌∷◌ c s) String.[] e = absurd (ground arith)
spelled_injective (String.◌∷◌ c s) (String.◌∷◌ d t) e =
    let same : code c ≡ code d = cc in
    let rest : spelled s ≡ spelled t = cc in
    ap₂ (λ (x : Char) (y : String). String.◌∷◌ x y) (Char-path c d same)
      (spelled_injective s t rest)

abbrev new_index : FacetTreeIndex String
new_index = record {
  file = record { bytes = to_le 8 magic_number; synced = to_le 8 magic_number };
  contents = blank;
}

new_index-IsWellFormed : IsWellFormed unread new_index
new_index-IsWellFormed = record { chain = tt; built = refl; content = refl }

abbrev fresh : Tree
fresh = record { index = new_index; manager = new_manager }

abbrev work_on : (Manager → Manager) → Tree → Tree
work_on f t = record { index = t.index; manager = f t.manager }

-- A facet is asked for and started, ...
abbrev started : Tree
started =
    work_on (settle_stub true 1)
      (work_on (resume_place false false 1) (get_facet_in spelled unread 0 "a" fresh).1)

started-Run : Run spelled unread 0 started
started-Run =
    moved
      (moved (moved (opened new_index new_index-IsWellFormed) (asks_for "a"))
        (goes (resumes false false 1)))
      (goes (settles true 1))

-- ... deleted, and asked for again.
abbrev deleted : Tree
deleted = work_on (go_on 1) (delete_facet_in spelled unread 0 "a" started).1

abbrev again : Tree
again = work_on (go_on 1) (get_facet_in spelled unread 0 "a" deleted).1

abbrev restarted : Tree
restarted =
    work_on (go_on 1) (work_on (settle_stub true 1) (work_on (resume_place false false 1) again))

restarted-Run : Run spelled unread 0 restarted
restarted-Run =
    let gone = moved (moved started-Run (drops "a")) (goes (goes_on 1)) in
    let asked = moved (moved gone (asks_for "a")) (goes (goes_on 1)) in
    moved (moved (moved asked (goes (resumes false false 1))) (goes (settles true 1)))
      (goes (goes_on 1))

restarted_calls : restarted.manager.calls 1 ≡ start 0 ∷ abort deleted_message ∷ start 1 ∷ []
unfolding spelled get_id add descendants descend children collect sort_children new_facet capture
    invalidate bump_all insert erase
restarted_calls = refl

Run-IsExclusive_example :
    IsExclusive (failed_in restarted.manager.entries) none (marks_made (restarted.manager.calls 1))
Run-IsExclusive_example = Run-IsExclusive spelled unread 0 spelled_injective restarted-Run 1

Run-holder_example : lookup (restarted.manager.entries 1).name restarted.manager.facets ≡ some 1
unfolding spelled get_id add descendants descend children collect sort_children new_facet capture
    invalidate bump_all insert erase marks_of marks_made
Run-holder_example = Run-holder spelled unread 0 spelled_injective restarted-Run 1 1 refl refl refl

-- A facet is deleted while its placement waits for its start info, which comes later.
abbrev waiting : Tree
waiting = (get_facet_in spelled unread 0 "a" fresh).1

abbrev fenced : Tree
fenced = (delete_facet_in spelled unread 0 "a" waiting).1

fenced-Run : Run spelled unread 0 fenced
fenced-Run = moved (moved (opened new_index new_index-IsWellFormed) (asks_for "a")) (drops "a")

abbrev resumed : Tree
resumed = work_on (resume_place false false 1) fenced

Onward-starts_example :
    (starts 0 (resumed.manager.calls 1) ≡ starts 0 (fenced.manager.calls 1))
    × (is_current
          (resumed.manager.entries 0).id
          (resumed.manager.entries 0).epoch
          resumed.manager.epochs
        ≡ false)
unfolding spelled get_id add descendants descend children collect sort_children new_facet capture
    invalidate bump_all insert erase
Onward-starts_example =
    Onward-starts spelled unread 0 fenced-Run (onward still (goes (resumes false false 1))) 0 1
      (omega arith) refl

-- "b" and "a" under the actor, and "c" under "b".
abbrev family : FacetTreeIndex String
family = use_all spelled unread (ask 0 "b" ∷ ask 0 "a" ∷ ask 1 "c" ∷ []) new_index

descendants-family : descendants family 0 ≡ some (2 ∷ 3 ∷ 1 ∷ [])
unfolding descendants descend children collect sort_children place bytes_ltb spelled use_all
    use_once get_id add insert
descendants-family = refl

descendants-IsListed_example :
    (out : List ℕ) × (descendants family 0 ≡ some out) × IsListed family 0 out
descendants-IsListed_example = descendants-IsListed unread family 0 (
    use_all-IsWellFormed spelled unread (ask 0 "b" ∷ ask 0 "a" ∷ ask 1 "c" ∷ []) new_index
      new_index-IsWellFormed)

abbrev alarms : Alarms
alarms = construct_alarms (some 5000)

-- The handler throws: the alarm stays for the retry.
deliver_alarm-Agrees_example : Agrees [] 5000 (
    deliver_alarm
      (constructed true)
      (record {
        calls = [];
        run_end = some (record { is_abort = false; retry = true; user_error = false });
        locks_end = none;
        storage_broken = false;
      })
      5000
      5001
      (record { stored = some 5000; alarms = alarms }))
deliver_alarm-Agrees_example =
    deliver_alarm-Agrees [] (some (record { is_abort = false; retry = true; user_error = false }))
      none 5000 5001 alarms refl
