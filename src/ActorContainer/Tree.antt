-- ===== src/ActorContainer/Tree.antt =====
-- src/server/actor-container.ts: the facets of one actor over the index of the tree that gives them
-- their ids, which the managers of the other actors use too.
pub mod Runs
pub mod Numbers
pub mod Safety
pub mod Fence
use do_runtime.Common.{
  ℕ, Option, none, some, List, String, lookup, map, string_eq, Result, ok, err, nat_beq,
  if◌then◌else◌,
}
use do_runtime.FacetIndex.{IndexError, FacetTreeIndex, get_id}
use do_runtime.FacetIndex.Children.{Child, children}
use do_runtime.ActorContainer.Descendants.{subtree_of}
use do_runtime.ActorContainer.Facets.{
  Manager, new_facet, delete_facet, delete_subtree, abort_facet, deleted_message,
  delete_all_descendants,
}

pub record Tree : Type 0 where
  pub index : FacetTreeIndex String
  pub manager : Manager

-- Why a call throws.
pub data FacetError : Type 0 where
  index_failed : IndexError → FacetError
  onto_itself : FacetError

-- `self` is the id of the actor.
module _ (encode : String → List ℕ) (decode : List ℕ → String) (self : ℕ) where
  abbrev id_in : String → FacetTreeIndex String → Result IndexError ℕ × FacetTreeIndex String
  id_in name ix = get_id encode decode self name ix

  -- `getFacet`: the entry.
  abbrev pub made_on :
      String → Manager → Result IndexError ℕ × FacetTreeIndex String → Result FacetError ℕ × Tree
  made_on name m (ok id, ix) =
      (ok m.next_entry, record { index = ix; manager = new_facet (λ _. id) name m })
  made_on name m (err x, ix) = (err (index_failed x), record { index = ix; manager = m })

  abbrev pub get_in : Option ℕ → String → Tree → Result FacetError ℕ × Tree
  get_in (some e) name t = (ok e, t)
  get_in none name t = made_on name t.manager (id_in name t.index)

  abbrev pub get_facet_in : String → Tree → Result FacetError ℕ × Tree
  get_facet_in name t = get_in (lookup name t.manager.facets) name t

  -- `deleteFacet`; if there is no id, the facet is aborted already.
  abbrev pub deleted_on :
      String
      → Manager
      → Result IndexError ℕ × FacetTreeIndex String
      → Result FacetError (Unit {0}) × Tree
  deleted_on name m (ok id, ix) =
      (ok tt, record { index = ix; manager = delete_facet (λ _. id) name (subtree_of ix id) m })
  deleted_on name m (err x, ix) =
      (err (index_failed x), record { index = ix; manager = abort_facet name deleted_message m })

  abbrev pub delete_facet_in : String → Tree → Result FacetError (Unit {0}) × Tree
  delete_facet_in name t = deleted_on name t.manager (id_in name t.index)

  -- `cloneFacet`.
  abbrev pub cloned_onto :
      ℕ
      → Manager
      → Result IndexError ℕ × FacetTreeIndex String
      → Result FacetError (Unit {0}) × Tree
  cloned_onto source m (err x, ix) = (err (index_failed x), record { index = ix; manager = m })
  cloned_onto source m (ok id, ix) =
      if nat_beq source id then (err onto_itself, record { index = ix; manager = m }) else (
        ok tt,
        record { index = ix; manager = delete_subtree id (subtree_of ix id) (some source) m },
      )

  abbrev pub cloned_from :
      String
      → Manager
      → Result IndexError ℕ × FacetTreeIndex String
      → Result FacetError (Unit {0}) × Tree
  cloned_from dst m (err x, ix) = (err (index_failed x), record { index = ix; manager = m })
  cloned_from dst m (ok source, ix) = cloned_onto source m (id_in dst ix)

  abbrev pub clone_facet_in : String → String → Tree → Result FacetError (Unit {0}) × Tree
  clone_facet_in src dst t =
      cloned_from dst (abort_facet dst deleted_message t.manager) (id_in src t.index)

  -- `deleteAllDescendants`, with the children of the actor and what is below them.
  abbrev each_of : FacetTreeIndex String → List (Child String) → List (ℕ × List ℕ)
  each_of ix cs = map (λ c. (c.id, subtree_of ix c.id)) cs

  abbrev pub delete_all_in : Tree → Tree
  delete_all_in t = record {
    index = t.index;
    manager = delete_all_descendants (each_of t.index (children self t.index)) t.manager;
  }
