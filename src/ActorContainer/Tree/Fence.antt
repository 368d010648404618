-- ===== src/ActorContainer/Tree/Fence.antt =====
-- src/server/actor-container.ts: a facet whose epoch is over is never started.
use do_runtime.Common.{
  ℕ, ◌<◌, ◌≡◌, refl, false, Option, none, some, List, String, nat_beq, Result, ok, err, Bool-cases,
  inl, inr, arith, lookup, string_eq,
}
use do_runtime.FacetIndex.{IndexError, FacetTreeIndex, get_id}
use do_runtime.FacetDeletion.Epochs.{is_current}
use do_runtime.ActorContainer.Facets.{
  Manager, abort_facet, delete_subtree, deleted_message, abort_all,
}
use do_runtime.ActorContainer.Facets.Safety.{
  Work, aborts, aborts_all, deletes_all, goes_on, resumes, settles, forgets, breaks,
}
use do_runtime.ActorContainer.Facets.Stale.{
  go_on-IsCalm, abort_facet-IsCalm, abort_each-IsCalm, delete_subtree-IsCalm,
  delete_all_descendants-IsCalm, resume_place-IsCalm, settle_stub-IsCalm, forget-IsCalm,
  broken-IsCalm,
}
use do_runtime.ActorContainer.Facets.Stale.Calm.{starts, IsStale, IsCalm, IsCalm-trans}
use do_runtime.ActorContainer.Facets.Silent.{
  AreCaptured, IsSilent, IsCalm-IsSilent, IsSilent-trans, new_facet-IsSilent,
}
use do_runtime.ActorContainer.Descendants.{subtree_of}
use do_runtime.ActorContainer.Tree.{Tree, made_on, get_in, deleted_on, cloned_onto, cloned_from}
use do_runtime.ActorContainer.Tree.Runs.{
  Move, asks_for, drops, copies, drops_all, goes, elsewhere, Run, opened, moved,
}

Work-IsCalm : (m m' : Manager) → Work m m' → IsCalm m m'
unfolding abort_all
Work-IsCalm m _ (aborts name reason) = abort_facet-IsCalm name reason m
Work-IsCalm m _ (aborts_all reason) = abort_each-IsCalm m.facets reason m
Work-IsCalm m _ (deletes_all children) = delete_all_descendants-IsCalm children m
Work-IsCalm m _ (goes_on id) = go_on-IsCalm id m
Work-IsCalm m _ (resumes rejected throws id) = resume_place-IsCalm rejected throws id m
Work-IsCalm m _ (settles resolved id) = settle_stub-IsCalm resolved id m
Work-IsCalm m _ (forgets e lost) = forget-IsCalm e m
Work-IsCalm m _ (breaks e reason there) = broken-IsCalm e reason m

same-IsSilent : (m : Manager) → IsSilent m m
same-IsSilent m = record {
  next_entry = omega arith;
  stale = λ e old s. s;
  silent = λ e k old s. refl;
  captured = λ w. w;
}

module _ (encode : String → List ℕ) (decode : List ℕ → String) (self : ℕ) where
  made_on-IsSilent :
      (name : String) (m : Manager) (x : Result IndexError ℕ × FacetTreeIndex String)
      → IsSilent m (made_on encode decode self name m x).1.manager
  made_on-IsSilent name m (ok id, ix) = new_facet-IsSilent (λ _. id) name m
  made_on-IsSilent name m (err x, ix) = same-IsSilent m

  get_in-IsSilent :
      (o : Option ℕ) (name : String) (t : Tree)
      → IsSilent t.manager (get_in encode decode self o name t).1.manager
  get_in-IsSilent (some e) name t = same-IsSilent t.manager
  get_in-IsSilent none name t =
      made_on-IsSilent name t.manager (get_id encode decode self name t.index)

  deleted_on-IsCalm :
      (name : String) (m : Manager) (x : Result IndexError ℕ × FacetTreeIndex String)
      → IsCalm m (deleted_on encode decode self name m x).1.manager
  deleted_on-IsCalm name m (ok id, ix) =
      let m' : Manager = abort_facet name deleted_message m in
      IsCalm-trans m m' (delete_subtree id (subtree_of ix id) none m')
        (abort_facet-IsCalm name deleted_message m)
        (delete_subtree-IsCalm id (subtree_of ix id) none m')
  deleted_on-IsCalm name m (err x, ix) = abort_facet-IsCalm name deleted_message m

  cloned_onto-IsCalm :
      (source : ℕ) (m m' : Manager) (x : Result IndexError ℕ × FacetTreeIndex String)
      → IsCalm m m'
      → IsCalm m (cloned_onto encode decode self source m' x).1.manager
  cloned_onto-IsCalm source m m' (err x, ix) c = c
  cloned_onto-IsCalm source m m' (ok id, ix) c = elim (Bool-cases (nat_beq source id)) [
    | inl same ↦ rw same c
    | inr differ ↦ rw differ (
        IsCalm-trans m m' (delete_subtree id (subtree_of ix id) (some source) m') c
          (delete_subtree-IsCalm id (subtree_of ix id) (some source) m'))
  ]

  cloned_from-IsCalm :
      (dst : String) (m m' : Manager) (x : Result IndexError ℕ × FacetTreeIndex String)
      → IsCalm m m'
      → IsCalm m (cloned_from encode decode self dst m' x).1.manager
  cloned_from-IsCalm dst m m' (err x, ix) c = c
  cloned_from-IsCalm dst m m' (ok source, ix) c =
      cloned_onto-IsCalm source m m' (get_id encode decode self dst ix) c

  Move-IsSilent : (t t' : Tree) → Move encode decode self t t' → IsSilent t.manager t'.manager
  Move-IsSilent t _ (asks_for name) = get_in-IsSilent (lookup name t.manager.facets) name t
  Move-IsSilent t _ (drops name) =
      IsCalm-IsSilent t.manager _
        (deleted_on-IsCalm name t.manager (get_id encode decode self name t.index))
  Move-IsSilent t _ (copies src dst) = IsCalm-IsSilent t.manager _ (
      cloned_from-IsCalm dst t.manager (abort_facet dst deleted_message t.manager)
        (get_id encode decode self src t.index) (abort_facet-IsCalm dst deleted_message t.manager))
  Move-IsSilent t _ drops_all =
      IsCalm-IsSilent t.manager _ (delete_all_descendants-IsCalm _ t.manager)
  Move-IsSilent t _ (goes x) = IsCalm-IsSilent t.manager _ (Work-IsCalm t.manager _ x)
  Move-IsSilent t _ (elsewhere parent name) = same-IsSilent t.manager

  Run-AreCaptured : (t : Tree) → Run encode decode self t → AreCaptured t.manager
  Run-AreCaptured _ (opened ix w) = λ e old. absurd (omega arith)
  Run-AreCaptured _ (moved {t} {t'} r x) = (Move-IsSilent t t' x).captured (Run-AreCaptured t r)

  -- What may come after a tree.
  pub data Onward (t : Tree) : Tree → Type 0 where
    still : Onward t t
    onward : {t' t'' : Tree} → Onward t t' → Move encode decode self t' t'' → Onward t t''

  Onward-IsSilent : (t t' : Tree) → Onward t t' → IsSilent t.manager t'.manager
  Onward-IsSilent t _ still = same-IsSilent t.manager
  Onward-IsSilent t _ (onward {t'} {t''} o x) =
      IsSilent-trans t.manager t'.manager t''.manager (Onward-IsSilent t t' o)
        (Move-IsSilent t' t'' x)

  -- In any order of the calls of an actor, the calls of `getId` by others, the settling of promises,
  -- failures and breakdowns: once the epoch of an entry is not current, as behind a delete or a clone
  -- that covers its id, the host is never told again to start it, wherever its placement stands, and
  -- the epoch is never current again.
  pub Onward-starts :
      {t t' : Tree}
      → Run encode decode self t
      → Onward t t'
      → (e k : ℕ) → e < t.manager.next_entry
      → is_current (t.manager.entries e).id (t.manager.entries e).epoch t.manager.epochs ≡ false
      → (starts e (t'.manager.calls k) ≡ starts e (t.manager.calls k))
        × (is_current (t'.manager.entries e).id (t'.manager.entries e).epoch t'.manager.epochs
            ≡ false)
  Onward-starts {t} {t'} r o e k old over =
      let known = Run-AreCaptured t r e old in
      let stale : IsStale e t.manager = ground arith in
      let s = Onward-IsSilent t t' o in
      let later = s.stale e old stale in (s.silent e k old stale, ground arith)
