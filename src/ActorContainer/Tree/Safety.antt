-- ===== src/ActorContainer/Tree/Safety.antt =====
-- src/server/actor-container.ts: what the host is told over the life of a tree.
use do_runtime.Common.{ℕ, ◌≡◌, false, none, some, List, [], String, lookup, string_eq}
use do_runtime.ActorContainer.Facets.Marks.{holder, IsExclusive}
use do_runtime.ActorContainer.Facets.Queues.{marks_of, marks_made}
use do_runtime.ActorContainer.Facets.Entries.{failed_in}
use do_runtime.ActorContainer.Facets.Safety.{Reach-IsExclusive, Reach-holder}
use do_runtime.ActorContainer.Tree.{Tree}
use do_runtime.ActorContainer.Tree.Runs.{Run, Run-IsRun}
use do_runtime.ActorContainer.Tree.Numbers.{id_at, id_at-HasId, id_at_injective}

module _ (encode : String → List ℕ) (decode : List ℕ → String) (self : ℕ)
    (encodes : (a b : String) → encode a ≡ encode b → a ≡ b) where
  -- The encoder tells names apart. In any order of the calls of an actor, the calls of `getId` by
  -- others, the settling of promises, failures and breakdowns, over a well-formed index that an
  -- earlier container may have left: between two starts of an id the host is told to tear the facet
  -- down, unless the earlier facet has been rejected, or its stub.
  pub Run-IsExclusive :
      {t : Tree}
      → Run encode decode self t
      → (id : ℕ) → IsExclusive (failed_in t.manager.entries) none (marks_made (t.manager.calls id))
  Run-IsExclusive {t} r id =
      let run = Run-IsRun encode decode self r in
      Reach-IsExclusive (id_at encode decode self t.index)
        (id_at_injective encode decode self encodes t.index run.well)
        (run.alone (id_at encode decode self t.index) (id_at-HasId encode decode self t.index)) id

  -- In the same orders, once the operations of an id have made their calls: a facet that was started
  -- there last, has not been torn down since and has not been rejected is the one in the map.
  pub Run-holder :
      {t : Tree}
      → Run encode decode self t
      → (id e : ℕ) → marks_of (t.manager.operations id) ≡ []
      → holder none (marks_made (t.manager.calls id)) ≡ some e
      → (t.manager.entries e).rejected ≡ false
      → lookup (t.manager.entries e).name t.manager.facets ≡ some e
  Run-holder {t} r id e quiet holds live =
      let run = Run-IsRun encode decode self r in
      (Reach-holder (id_at encode decode self t.index)
        (id_at_injective encode decode self encodes t.index run.well)
        (run.alone (id_at encode decode self t.index) (id_at-HasId encode decode self t.index)) id e
        quiet holds live).0
