-- ===== src/ActorContainer/Facets/Safety.antt =====
-- The life of a manager: calls of the actor, of the host and of the tree in any order.
use do_runtime.Common.{
  ℕ, ◌≡◌, refl, Bool, true, false, Option, none, some, List, [], ◌∷◌, String, nat_beq, Bool-cases,
  inl, inr, lookup, string_eq, append-nil,
}
use do_runtime.ActorContainer.Facets.{
  Manager, new_manager, go_on, abort_facet, abort_each, abort_all, deleted_message, delete_subtree,
  delete_each, delete_all_descendants, get_on, get_facet, delete_facet, clone_facet,
}
use do_runtime.ActorContainer.Facets.Places.{resume_place, settle_stub, forget, broken}
use do_runtime.ActorContainer.Facets.Marks.{holder, IsExclusive, append-IsExclusive}
use do_runtime.ActorContainer.Facets.Queues.{marks_of, marks_made}
use do_runtime.ActorContainer.Facets.Entries.{failed_in}
use do_runtime.ActorContainer.Facets.Kept.{
  IsTidy, go_on-IsTidy, abort_each-IsTidy, abort_facet-IsTidy, broken-IsTidy, forget-IsTidy,
  new_facet-IsTidy,
}
use do_runtime.ActorContainer.Facets.Starts.{resume_place-IsTidy, settle_stub-IsTidy}

-- One piece of the manager's code that asks for no id, with what it is told: the ids below a facet,
-- whether the start info was rejected and the host throws, and whether a stub was resolved.
-- `#forgetIfNeverRuns` goes on for an entry that is rejected, and `#monitorOnBroken` for one that has
-- a handle.
pub data Work (m : Manager) : Manager → Type 0 where
  aborts : (name reason : String) → Work m (abort_facet name reason m)
  aborts_all : (reason : String) → Work m (abort_all reason m)
  deletes_all : (children : List (ℕ × List ℕ)) → Work m (delete_all_descendants children m)
  goes_on : (id : ℕ) → Work m (go_on id m)
  resumes : (rejected throws : Bool) (id : ℕ) → Work m (resume_place rejected throws id m)
  settles : (resolved : Bool) (id : ℕ) → Work m (settle_stub resolved id m)
  forgets : (e : ℕ) → (m.entries e).rejected ≡ true → Work m (forget e m)
  breaks : (e : ℕ) (reason : String) → (m.entries e).handle ≡ true → Work m (broken e reason m)

-- One piece of the manager's code.
pub data Step (id_of : String → ℕ) (m : Manager) : Manager → Type 0 where
  gets : (name : String) → Step id_of m (get_facet id_of name m).1
  deletes : (name : String) (subtree : List ℕ) → Step id_of m (delete_facet id_of name subtree m)
  clones :
      (src dst : String) (subtree : List ℕ) → Step id_of m (clone_facet id_of src dst subtree m).1
  works : {m' : Manager} → Work m m' → Step id_of m m'

pub data Reach (id_of : String → ℕ) : Manager → Type 0 where
  made : Reach id_of new_manager
  next : {m m' : Manager} → Reach id_of m → Step id_of m m' → Reach id_of m'

module _ (id_of : String → ℕ) (apart : (a b : String) → id_of a ≡ id_of b → a ≡ b) where
  delete_subtree-IsTidy :
      (id : ℕ) (subtree : List ℕ) (o : Option ℕ) (m : Manager)
      → IsTidy id_of apart m
      → IsTidy id_of apart (delete_subtree id subtree o m)
  delete_subtree-IsTidy id subtree o m w = record { tidy = w.tidy; old = w.old }

  delete_each-IsTidy :
      (children : List (ℕ × List ℕ)) (m : Manager)
      → IsTidy id_of apart m
      → IsTidy id_of apart (delete_each children m)
  unfolding delete_each
  delete_each-IsTidy [] m w = w
  delete_each-IsTidy ((id, subtree) ∷ rest) m w =
      delete_each-IsTidy rest (delete_subtree id subtree none m)
        (delete_subtree-IsTidy id subtree none m w)

  get_on-IsTidy :
      (o : Option ℕ) (name : String) (m : Manager)
      → lookup name m.facets ≡ o
      → IsTidy id_of apart m
      → IsTidy id_of apart (get_on id_of o name m).1
  get_on-IsTidy (some e) name m is_o w = w
  get_on-IsTidy none name m is_o w = new_facet-IsTidy id_of apart m w name is_o

  clone_facet-IsTidy :
      (src dst : String) (subtree : List ℕ) (m : Manager)
      → IsTidy id_of apart m
      → IsTidy id_of apart (clone_facet id_of src dst subtree m).1
  clone_facet-IsTidy src dst subtree m w =
      let w' = abort_facet-IsTidy id_of apart dst deleted_message m w in
      elim (Bool-cases (nat_beq (id_of src) (id_of dst))) [
        | inl same ↦ rw same w'
        | inr differ ↦ rw differ (
            delete_subtree-IsTidy (id_of dst) subtree (some (id_of src))
              (abort_facet dst deleted_message m) w')
      ]

  new_manager-IsTidy : IsTidy id_of apart new_manager
  unfolding marks_of marks_made
  new_manager-IsTidy = record {
    tidy = record {
      distinct = tt;
      named = λ a e is_e. cc;
      fresh = λ e le. refl;
      exclusive = λ id. tt;
      current = λ id e is_e live. cc;
    };
    old = λ id. tt;
  }

  Work-IsTidy : {m m' : Manager} → Work m m' → IsTidy id_of apart m → IsTidy id_of apart m'
  unfolding abort_all delete_all_descendants
  Work-IsTidy {m} (aborts name reason) w = abort_facet-IsTidy id_of apart name reason m w
  Work-IsTidy {m} (aborts_all reason) w = abort_each-IsTidy id_of apart m.facets reason m refl w
  Work-IsTidy {m} (deletes_all children) w =
      delete_each-IsTidy children (abort_each m.facets deleted_message m)
        (abort_each-IsTidy id_of apart m.facets deleted_message m refl w)
  Work-IsTidy {m} (goes_on id) w = go_on-IsTidy id_of apart id m w
  Work-IsTidy {m} (resumes rejected throws id) w =
      resume_place-IsTidy id_of apart rejected throws id m w
  Work-IsTidy {m} (settles resolved id) w = settle_stub-IsTidy id_of apart resolved id m w
  Work-IsTidy {m} (forgets e lost) w = forget-IsTidy id_of apart e m lost w
  Work-IsTidy {m} (breaks e reason there) w = broken-IsTidy id_of apart e reason m w

  Step-IsTidy : {m m' : Manager} → Step id_of m m' → IsTidy id_of apart m → IsTidy id_of apart m'
  Step-IsTidy {m} (gets name) w = get_on-IsTidy (lookup name m.facets) name m refl w
  Step-IsTidy {m} (deletes name subtree) w =
      delete_subtree-IsTidy (id_of name) subtree none (abort_facet name deleted_message m)
        (abort_facet-IsTidy id_of apart name deleted_message m w)
  Step-IsTidy {m} (clones src dst subtree) w = clone_facet-IsTidy src dst subtree m w
  Step-IsTidy {m} (works x) w = Work-IsTidy x w

  pub Reach-IsTidy : {m : Manager} → Reach id_of m → IsTidy id_of apart m
  Reach-IsTidy made = new_manager-IsTidy
  Reach-IsTidy (next r s) = Step-IsTidy s (Reach-IsTidy r)

  -- In any order of the calls of an actor, the settling of promises, failures and breakdowns, with
  -- an id for each name: between two starts of an id the host is told to tear the facet down, unless
  -- the earlier facet has been rejected, or its stub.
  pub Reach-IsExclusive :
      {m : Manager}
      → Reach id_of m
      → (id : ℕ) → IsExclusive (failed_in m.entries) none (marks_made (m.calls id))
  Reach-IsExclusive {m} r id =
      (append-IsExclusive (failed_in m.entries) none (marks_made (m.calls id))
        (marks_of (m.operations id)) ((Reach-IsTidy r).tidy.exclusive id)).0

  -- In the same orders, once the operations of an id have made their calls: a facet that was started
  -- there last, has not been torn down since and has not been rejected is the one in the map.
  pub Reach-holder :
      {m : Manager}
      → Reach id_of m
      → (id e : ℕ) → marks_of (m.operations id) ≡ []
      → holder none (marks_made (m.calls id)) ≡ some e
      → (m.entries e).rejected ≡ false
      → (lookup (m.entries e).name m.facets ≡ some e) × (id_of (m.entries e).name ≡ id)
  Reach-holder {m} r id e quiet holds live =
      (Reach-IsTidy r).tidy.current id e (rw (quiet, append-nil) holds) live
