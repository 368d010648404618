-- ===== src/ActorContainer/Tree/Runs.antt =====
-- src/server/actor-container.ts: what may happen to a tree, and that each of its runs is one of the
-- manager alone, with a fixed id for every name.
use do_runtime.Common.{
  ℕ, ◌+◌, ◌≡◌, refl, sym, ◌∙◌, Option, none, some, List, String, lookup, string_eq, Result, ok, err,
  nat_beq, inl, inr, nat_eq, Bool-cases,
}
use mathlib.Core.Path.{subst}
use do_runtime.FacetIndex.{IndexError, FacetTreeIndex, get_id}
use do_runtime.FacetIndex.Format.{IsWellFormed}
use do_runtime.FacetIndex.Ids.{
  HasId, get_id-HasId, use_once-HasId, use_once-IsWellFormed, use_once, ask,
}
use do_runtime.ActorContainer.Facets.{
  Manager, new_manager, new_facet, abort_facet, deleted_message, get_on, delete_facet,
}
use do_runtime.ActorContainer.Facets.Safety.{
  Work, aborts, deletes_all, gets, deletes, clones, works, made, next,
}
use do_runtime.ActorContainer.Facets.Safety as Alone
use do_runtime.ActorContainer.Descendants.{subtree_of}
use do_runtime.ActorContainer.Tree.{
  Tree, delete_all_in, get_in, made_on, get_facet_in, delete_facet_in, deleted_on, clone_facet_in,
  cloned_from, cloned_onto,
}

module _ (encode : String → List ℕ) (decode : List ℕ → String) (self : ℕ) where
  -- A call of the actor, work of its manager, or a call of `getId` by another manager.
  pub data Move (t : Tree) : Tree → Type 0 where
    asks_for : (name : String) → Move t (get_facet_in encode decode self name t).1
    drops : (name : String) → Move t (delete_facet_in encode decode self name t).1
    copies : (src dst : String) → Move t (clone_facet_in encode decode self src dst t).1
    drops_all : Move t (delete_all_in encode decode self t)
    goes : {m : Manager} → Work t.manager m → Move t (record { index = t.index; manager = m })
    elsewhere :
        (parent : ℕ) (name : String)
        → Move t
            (record { index = (get_id encode decode parent name t.index).1; manager = t.manager })

  -- A new container opens a file that an earlier one may have left.
  pub data Run : Tree → Type 0 where
    opened :
        (ix : FacetTreeIndex String)
        → IsWellFormed decode ix
        → Run (record { index = ix; manager = new_manager })
    moved : {t t' : Tree} → Run t → Move t t' → Run t'

  -- The function has the ids that the index has given.
  abbrev pub Agrees : (String → ℕ) → FacetTreeIndex String → Type 0
  Agrees id_of ix = (name : String) (i : ℕ) → HasId encode self name i ix → id_of name ≡ i + 1

  -- Behind a call of `getId` the index is well formed, and what agrees with it has agreed before.
  record IsLater (ix ix' : FacetTreeIndex String) : Type 0 where
    well : IsWellFormed decode ix'
    before : (id_of : String → ℕ) → Agrees id_of ix' → Agrees id_of ix

  same-IsLater : (ix : FacetTreeIndex String) → IsWellFormed decode ix → IsLater ix ix
  same-IsLater ix w = record { well = w; before = λ id_of h. h }

  get_id-IsLater :
      (parent : ℕ) (name : String) (ix : FacetTreeIndex String)
      → IsWellFormed decode ix
      → IsLater ix (get_id encode decode parent name ix).1
  unfolding use_once
  get_id-IsLater parent name ix w = record {
    well = use_once-IsWellFormed encode decode (ask parent name) ix w;
    before = λ id_of agrees other i has.
        agrees other i (use_once-HasId encode decode self other i (ask parent name) ix w has);
  }

  -- The id that a call has answered is that of the function.
  given :
      (id_of : String → ℕ) (name : String) (ix ix' : FacetTreeIndex String) (id : ℕ)
      → get_id encode decode self name ix ≡ (ok id, ix')
      → Agrees id_of ix'
      → id_of name ≡ id
  given id_of name ix ix' id answers agrees =
      let (i, is_id, has) = get_id-HasId encode decode self name ix id ix' answers in
      agrees name i has ∙ sym is_id

  abbrev Follows : Manager → Manager → FacetTreeIndex String → Type 0
  Follows m m' ix =
      (id_of : String → ℕ) → Agrees id_of ix → Alone.Reach id_of m → Alone.Reach id_of m'

  -- What a move does to the index and to the manager.
  record IsFollowed (ix : FacetTreeIndex String) (m : Manager) (t : Tree) : Type 0 where
    later : IsLater ix t.index
    follows : Follows m t.manager t.index

  answered :
      (name : String) (ix : FacetTreeIndex String) (x : Result IndexError ℕ × FacetTreeIndex String)
      → IsWellFormed decode ix
      → get_id encode decode self name ix ≡ x
      → IsLater ix x.1
  answered name ix x w is_x =
      subst (λ (y : Result IndexError ℕ × FacetTreeIndex String). IsLater ix y.1) is_x
        (get_id-IsLater self name ix w)

  made_on-IsFollowed :
      (name : String) (ix : FacetTreeIndex String) (m : Manager)
      (x : Result IndexError ℕ × FacetTreeIndex String)
      → IsWellFormed decode ix
      → lookup name m.facets ≡ none
      → get_id encode decode self name ix ≡ x
      → IsFollowed ix m (made_on encode decode self name m x).1
  unfolding new_facet
  made_on-IsFollowed name ix m (ok id, ix') w new is_x = record {
    later = answered name ix (ok id, ix') w is_x;
    follows = λ id_of agrees r.
        subst (λ k. Alone.Reach id_of (new_facet (λ _. k) name m))
          (given id_of name ix ix' id is_x agrees)
          (subst (λ o. Alone.Reach id_of (get_on id_of o name m).1) new (next r (gets name)));
  }
  made_on-IsFollowed name ix m (err x, ix') w new is_x = record {
    later = answered name ix (err x, ix') w is_x;
    follows = λ id_of agrees r. r;
  }

  get_in-IsFollowed :
      (o : Option ℕ) (name : String) (t : Tree)
      → IsWellFormed decode t.index
      → lookup name t.manager.facets ≡ o
      → IsFollowed t.index t.manager (get_in encode decode self o name t).1
  get_in-IsFollowed (some e) name t w is_o = record {
    later = same-IsLater t.index w;
    follows = λ id_of agrees r. r;
  }
  get_in-IsFollowed none name t w new =
      made_on-IsFollowed name t.index t.manager (get_id encode decode self name t.index) w new refl

  deleted_on-IsFollowed :
      (name : String) (ix : FacetTreeIndex String) (m : Manager)
      (x : Result IndexError ℕ × FacetTreeIndex String)
      → IsWellFormed decode ix
      → get_id encode decode self name ix ≡ x
      → IsFollowed ix m (deleted_on encode decode self name m x).1
  deleted_on-IsFollowed name ix m (ok id, ix') w is_x = record {
    later = answered name ix (ok id, ix') w is_x;
    follows = λ id_of agrees r.
        subst (λ k. Alone.Reach id_of (delete_facet (λ _. k) name (subtree_of ix' id) m))
          (given id_of name ix ix' id is_x agrees) (next r (deletes name (subtree_of ix' id)));
  }
  deleted_on-IsFollowed name ix m (err x, ix') w is_x = record {
    later = answered name ix (err x, ix') w is_x;
    follows = λ id_of agrees r. next r (works (aborts name deleted_message));
  }

  IsLater-trans :
      (ix ix' ix'' : FacetTreeIndex String) → IsLater ix ix' → IsLater ix' ix'' → IsLater ix ix''
  IsLater-trans ix ix' ix'' a b = record {
    well = b.well;
    before = λ id_of h. a.before id_of (b.before id_of h);
  }

  cloned_onto-IsFollowed :
      (src dst : String) (source : ℕ) (ix ix' : FacetTreeIndex String) (m : Manager)
      (x : Result IndexError ℕ × FacetTreeIndex String)
      → IsWellFormed decode ix
      → get_id encode decode self src ix ≡ (ok source, ix')
      → get_id encode decode self dst ix' ≡ x
      → IsFollowed ix m
          (cloned_onto encode decode self source (abort_facet dst deleted_message m) x).1
  cloned_onto-IsFollowed src dst source ix ix' m (err x, ix'') w is_source is_x =
      let first = answered src ix (ok source, ix') w is_source in
      record {
        later = IsLater-trans ix ix' ix'' first (answered dst ix' (err x, ix'') first.well is_x);
        follows = λ id_of agrees r. next r (works (aborts dst deleted_message));
      }
  cloned_onto-IsFollowed src dst source ix ix' m (ok id, ix'') w is_source is_x =
      let first = answered src ix (ok source, ix') w is_source in
      let second = answered dst ix' (ok id, ix'') first.well is_x in
      let later = IsLater-trans ix ix' ix'' first second in
      let there : (id_of : String → ℕ) → Agrees id_of ix'' → id_of src ≡ source =
        λ id_of agrees. given id_of src ix ix' source is_source (second.before id_of agrees) in
      let here : (id_of : String → ℕ) → Agrees id_of ix'' → id_of dst ≡ id =
        λ id_of agrees. given id_of dst ix' ix'' id is_x agrees in
      elim (Bool-cases (nat_beq source id)) [
        | inl same ↦ rw same (record {
          later = later;
          follows = λ id_of agrees r. next r (works (aborts dst deleted_message));
        })
        | inr differ ↦ rw differ (record {
          later = later;
          follows = λ id_of agrees r.
              let step = next r (clones src dst (subtree_of ix'' id)) in
              rw (there id_of agrees, here id_of agrees, differ) at step;
        })
      ]

  cloned_from-IsFollowed :
      (src dst : String) (ix : FacetTreeIndex String) (m : Manager)
      (x : Result IndexError ℕ × FacetTreeIndex String)
      → IsWellFormed decode ix
      → get_id encode decode self src ix ≡ x
      → IsFollowed ix m (cloned_from encode decode self dst (abort_facet dst deleted_message m) x).1
  cloned_from-IsFollowed src dst ix m (err x, ix') w is_x = record {
    later = answered src ix (err x, ix') w is_x;
    follows = λ id_of agrees r. next r (works (aborts dst deleted_message));
  }
  cloned_from-IsFollowed src dst ix m (ok source, ix') w is_x =
      cloned_onto-IsFollowed src dst source ix ix' m (get_id encode decode self dst ix') w is_x refl

  Move-IsFollowed :
      {t t' : Tree} → Move t t' → IsWellFormed decode t.index → IsFollowed t.index t.manager t'
  Move-IsFollowed {t} (asks_for name) w =
      get_in-IsFollowed (lookup name t.manager.facets) name t w refl
  Move-IsFollowed {t} (drops name) w =
      deleted_on-IsFollowed name t.index t.manager (get_id encode decode self name t.index) w refl
  Move-IsFollowed {t} (copies src dst) w =
      cloned_from-IsFollowed src dst t.index t.manager (get_id encode decode self src t.index) w
        refl
  Move-IsFollowed {t} drops_all w = record {
    later = same-IsLater t.index w;
    follows = λ id_of agrees r. next r (works (deletes_all _));
  }
  Move-IsFollowed {t} (goes x) w = record {
    later = same-IsLater t.index w;
    follows = λ id_of agrees r. next r (works x);
  }
  Move-IsFollowed {t} (elsewhere parent name) w = record {
    later = get_id-IsLater parent name t.index w;
    follows = λ id_of agrees r. r;
  }

  -- A run over an index.
  pub record IsRun (t : Tree) : Type 0 where
    pub well : IsWellFormed decode t.index
    pub alone : (id_of : String → ℕ) → Agrees id_of t.index → Alone.Reach id_of t.manager

  pub Run-IsRun : {t : Tree} → Run t → IsRun t
  Run-IsRun (opened ix w) = record { well = w; alone = λ id_of agrees. made }
  Run-IsRun (moved r x) =
      let before = Run-IsRun r in
      let f = Move-IsFollowed x before.well in
      record {
        well = f.later.well;
        alone = λ id_of agrees.
            f.follows id_of agrees (before.alone id_of (f.later.before id_of agrees));
      }
