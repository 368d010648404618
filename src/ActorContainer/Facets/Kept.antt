-- ===== src/ActorContainer/Facets/Kept.antt =====
-- Every call of the manager keeps its map and the operations of the ids in step.
pub mod SameMap
use mathlib.Core.Path.{subst}
use do_runtime.Common.{
  ℕ, ◌+◌, ◌<◌, ◌≡◌, refl, sym, ap, ◌∙◌, Bool, true, false, Option, none, some, List, [], ◌∷◌, ◌++◌,
  String, nat_beq, if◌then◌else◌, lookup, insert, erase, nat_eq, string_eq, IsDistinct, beq_refl,
  Bool-cases, inl, inr, arith, All, All-append,
}
use do_runtime.InputGate.{update}
use do_runtime.FacetDeletion.Epochs.{capture}
use do_runtime.ActorContainer.Facets.{
  Entry, Operation, place, asked, stubbing, teardown, over, abort, Manager, set_queue, call_host,
  begin, run_behind, run_operation, next_of, go_on, tear_down, abort_on, abort_facet, abort_each,
  new_facet,
}
use do_runtime.ActorContainer.Facets.Places.{is_entry, forget, broken}
use do_runtime.ActorContainer.Facets.Queues.{trail, run_operation-Retraced, go_on-trail}
use do_runtime.ActorContainer.Facets.Entries.{
  IsTidyOn, IsTidyOn-retraced, IsTidyOn-torn, IsTidyOn-forgotten, IsTidyOn-added, failed_in,
}
use do_runtime.ActorContainer.Facets.Kept.SameMap.{
  IsOld, AreOld, IsSameMap, run_operation-IsSameMap, next_of-IsSameMap,
}

erase-none :
    (name : String) (list : List (String × ℕ)) → lookup name list ≡ none → erase name list ≡ list
unfolding erase
erase-none name [] free = refl
erase-none name ((j, e) ∷ list) free = ground (arith, erase-none name list)

IsOld-grown : (n : ℕ) (op : Operation) → IsOld n op → IsOld (n + 1) op
IsOld-grown n (place e) w = omega arith
IsOld-grown n (asked e) w = omega arith
IsOld-grown n (stubbing e) w = omega arith
IsOld-grown n (teardown reason) w = tt
IsOld-grown n over w = tt

grown : (n : ℕ) (q : List Operation) → All (IsOld n) q → All (IsOld (n + 1)) q
grown n [] w = tt
grown n (op ∷ q) w = (IsOld-grown n op w.0, grown n q w.1)

module _ (id_of : String → ℕ) (apart : (a b : String) → id_of a ≡ id_of b → a ≡ b) where
  pub record IsTidy (m : Manager) : Type 0 where
    pub tidy : IsTidyOn id_of apart m.facets m.entries m.next_entry (λ k. trail k m)
    pub old : AreOld m.next_entry m.operations

  module _ (m m' : Manager) (s : IsSameMap m m') (w : AreOld m.next_entry m.operations) where
    IsSameMap-IsTidy :
        IsTidyOn id_of apart m.facets m.entries m.next_entry (λ k. trail k m') → IsTidy m'
    IsSameMap-IsTidy t = record {
      tidy = rw (s.facets, s.entries, s.next_entry) t;
      old = rw (s.next_entry) (s.old w);
    }

  pub go_on-IsTidy : (id : ℕ) (m : Manager) → IsTidy m → IsTidy (go_on id m)
  go_on-IsTidy id m w =
      IsSameMap-IsTidy m (go_on id m) (next_of-IsSameMap (m.operations id) id m refl) w.old (
        IsTidyOn-retraced id_of apart m.facets m.entries m.next_entry (λ k. trail k m) w.tidy
          (λ k. trail k (go_on id m)) (go_on-trail id m))

  tear_down-IsTidy :
      (name : String) (e : ℕ) (reason : String) (m : Manager)
      → lookup name m.facets ≡ some e
      → IsTidy m
      → IsTidy (tear_down e reason (record m { facets = erase name m.facets }))
  tear_down-IsTidy name e reason m there w =
      let m' : Manager = record m { facets = erase name m.facets } in
      let id : ℕ = (m.entries e).id in
      let torn =
        IsTidyOn-torn id_of apart m.facets m.entries m.next_entry (λ k. trail k m) w.tidy name e
          there in
      IsSameMap-IsTidy m' (tear_down e reason m')
        (run_operation-IsSameMap id (teardown reason) m' tt) w.old
        (IsTidyOn-retraced id_of apart m'.facets m.entries m.next_entry _ torn
          (λ k. trail k (tear_down e reason m')) (run_operation-Retraced id (teardown reason) m'))

  tear_down-facets :
      (e : ℕ) (reason : String) (m : Manager) → (tear_down e reason m).facets ≡ m.facets
  tear_down-facets e reason m =
      (run_operation-IsSameMap (m.entries e).id (teardown reason) m tt).facets

  erase_first :
      (name : String) (e : ℕ) (rest : List (String × ℕ))
      → IsDistinct ((name, e) ∷ rest)
      → erase name ((name, e) ∷ rest) ≡ rest
  unfolding erase
  erase_first name e rest w = rw (beq_refl name) (erase-none name rest w.0)

  -- `abortAll`, over what the map has.
  pub abort_each-IsTidy :
      (list : List (String × ℕ)) (reason : String) (m : Manager)
      → m.facets ≡ list
      → IsTidy m
      → IsTidy (abort_each list reason m)
  unfolding abort_each
  abort_each-IsTidy [] reason m is_list w = w
  abort_each-IsTidy ((name, e) ∷ rest) reason m is_list w =
      let m' : Manager = record m { facets = erase name m.facets } in
      let there : lookup name m.facets ≡ some e = rw (is_list, beq_refl name) refl in
      let distinct : IsDistinct ((name, e) ∷ rest) = subst IsDistinct is_list w.tidy.distinct in
      abort_each-IsTidy rest reason (tear_down e reason m')
        (tear_down-facets e reason m' ∙ ap (erase name) is_list ∙ erase_first name e rest distinct)
        (tear_down-IsTidy name e reason m there w)

  abort_on-IsTidy :
      (o : Option ℕ) (name reason : String) (m : Manager)
      → lookup name m.facets ≡ o
      → IsTidy m
      → IsTidy (abort_on o name reason m)
  abort_on-IsTidy none name reason m is_o w = w
  abort_on-IsTidy (some e) name reason m is_o w = tear_down-IsTidy name e reason m is_o w

  pub abort_facet-IsTidy :
      (name reason : String) (m : Manager) → IsTidy m → IsTidy (abort_facet name reason m)
  abort_facet-IsTidy name reason m w = abort_on-IsTidy (lookup name m.facets) name reason m refl w

  is_entry_lem : (o : Option ℕ) (e : ℕ) → is_entry o e ≡ true → o ≡ some e
  is_entry_lem none e h = cc
  is_entry_lem (some x) e h = ground arith

  pub broken-IsTidy :
      (e : ℕ) (reason : String) (m : Manager) → IsTidy m → IsTidy (broken e reason m)
  broken-IsTidy e reason m w = elim (Bool-cases (is_entry (lookup (m.entries e).name m.facets) e)) [
    | inl mine ↦ rw mine (tear_down-IsTidy (m.entries e).name e reason m (is_entry_lem _ e mine) w)
    | inr other ↦ rw other w
  ]

  pub forget-IsTidy :
      (e : ℕ) (m : Manager) → failed_in m.entries e ≡ true → IsTidy m → IsTidy (forget e m)
  forget-IsTidy e m lost w = elim (Bool-cases (is_entry (lookup (m.entries e).name m.facets) e)) [
    | inl mine ↦ rw mine (record {
      tidy =
          IsTidyOn-forgotten id_of apart m.facets m.entries m.next_entry (λ k. trail k m) w.tidy
            (m.entries e).name e (is_entry_lem _ e mine) lost;
      old = w.old;
    })
    | inr other ↦ rw other w
  ]

  module _ (m : Manager) (w : IsTidy m) where
    -- `getFacet` for a name that is not in the map.
    pub new_facet-IsTidy :
        (name : String) → lookup name m.facets ≡ none → IsTidy (new_facet id_of name m)
    unfolding new_facet
    new_facet-IsTidy name free =
        let id : ℕ = id_of name in
        let e : ℕ = m.next_entry in
        let entry : Entry = record {
          id = id;
          name = name;
          epoch = (capture id m.epochs).0;
          handle = false;
          rejected = false;
        } in
        let m' : Manager = record m {
          entries = update m.entries e entry;
          next_entry = e + 1;
          epochs = (capture id m.epochs).1;
        } in
        let m'' : Manager = run_operation id (place e) m' in
        let s = run_operation-IsSameMap id (place e) m' (omega arith) in
        let added =
          IsTidyOn-added id_of apart m.facets m.entries e (λ k. trail k m) w.tidy name entry free
            refl refl refl in
        let traced =
          IsTidyOn-retraced id_of apart (insert name e m.facets) m'.entries (e + 1) _ added
            (λ k. trail k m'') (run_operation-Retraced id (place e) m') in
        record {
          tidy = rw (s.facets, s.entries, s.next_entry) traced;
          old = rw (s.next_entry) (s.old (λ k. grown e (m.operations k) (w.old k)));
        }
