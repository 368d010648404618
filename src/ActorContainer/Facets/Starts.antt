-- ===== src/ActorContainer/Facets/Starts.antt =====
-- What a placement does behind its awaits keeps the map and the operations in step.
use do_runtime.Common.{
  ℕ, ◌≡◌, refl, sym, Bool, true, false, List, [], ◌∷◌, ◌++◌, String, nat_beq, Bool-cases, inl, inr,
  arith, All, append_assoc,
}
use do_runtime.ActorContainer.Facets.{
  Operation, place, asked, stubbing, teardown, over, start, Manager, set_queue, call_host,
}
use do_runtime.ActorContainer.Facets.Places.{
  reject, set_handle, place_on, placed_of, resume_place, stub_of, settle_stub,
}
use do_runtime.ActorContainer.Facets.Marks.{held}
use do_runtime.ActorContainer.Facets.Queues.{trail, marks_of, marks_made, marks_made-append}
use do_runtime.ActorContainer.Facets.Entries.{IsTidyOn-retraced, IsTidyOn-handled, IsTidyOn-lost}
use do_runtime.ActorContainer.Facets.Kept.{IsTidy}
use do_runtime.ActorContainer.Facets.Kept.SameMap.{IsOld, set_queue-IsSameMap}

module _ (id_of : String → ℕ) (apart : (a b : String) → id_of a ≡ id_of b → a ≡ b) where
  module _ (e id : ℕ) (q : List Operation) (m : Manager) (is_q : m.operations id ≡ asked e ∷ q)
      (w : IsTidy id_of apart m) where
    known : All (IsOld m.next_entry) (asked e ∷ q)
    known = rw is_q at (w.old id)

    before : trail id m ≡ marks_made (m.calls id) ++ held e ∷ marks_of q
    unfolding marks_of
    before = rw is_q refl

    -- The host has started the facet.
    started-IsTidy : IsTidy id_of apart (place_on true e id q m)
    unfolding marks_of
    started-IsTidy =
        let m' : Manager = set_handle e (call_host id (start e) m) in
        let s = set_queue-IsSameMap id (stubbing e ∷ q) m' (λ v. known) in
        let same : (k : ℕ) → trail k (place_on true e id q m) ≡ trail k m = λ k. ground (
          arith,
          before,
          marks_made-append (m.calls id) (start e),
          append_assoc (marks_made (m.calls id)) (held e ∷ []) (marks_of q),
        ) in
        record {
          tidy =
              IsTidyOn-retraced id_of apart m.facets m'.entries m.next_entry (λ k. trail k m)
                (IsTidyOn-handled id_of apart m.facets m.entries m.next_entry (λ k. trail k m)
                  w.tidy e)
                (λ k. trail k (place_on true e id q m)) same;
          old = s.old w.old;
        }

    -- The placement has failed.
    lost-IsTidy : IsTidy id_of apart (place_on false e id q m)
    unfolding marks_of
    lost-IsTidy =
        let m' : Manager = reject e m in
        let s = set_queue-IsSameMap id (over ∷ q) m' (λ v. (tt, known.1)) in
        record {
          tidy =
              IsTidyOn-lost id_of apart m.facets m.entries m.next_entry (λ k. trail k m) w.tidy e
                (λ k. trail k (place_on false e id q m)) known.0
                (λ k. elim (Bool-cases (nat_beq id k)) [
                  | inl same ↦
                      let is_k : id ≡ k = ground arith in
                      inr (marks_made (m.calls id), marks_of q, rw (sym is_k) before, ground arith)
                  | inr differ ↦ inl (ground arith)
                ]);
          old = s.old w.old;
        }

    place_on-IsTidy : (b : Bool) → IsTidy id_of apart (place_on b e id q m)
    place_on-IsTidy true = started-IsTidy
    place_on-IsTidy false = lost-IsTidy

  placed_of-IsTidy :
      (q : List Operation) (rejected throws : Bool) (id : ℕ) (m : Manager)
      → m.operations id ≡ q
      → IsTidy id_of apart m
      → IsTidy id_of apart (placed_of q rejected throws id m)
  placed_of-IsTidy (asked e ∷ q) rejected throws id m is_q w = place_on-IsTidy e id q m is_q w _
  placed_of-IsTidy [] rejected throws id m is_q w = w
  placed_of-IsTidy (place e ∷ q) rejected throws id m is_q w = w
  placed_of-IsTidy (stubbing e ∷ q) rejected throws id m is_q w = w
  placed_of-IsTidy (teardown r ∷ q) rejected throws id m is_q w = w
  placed_of-IsTidy (over ∷ q) rejected throws id m is_q w = w

  pub resume_place-IsTidy :
      (rejected throws : Bool) (id : ℕ) (m : Manager)
      → IsTidy id_of apart m
      → IsTidy id_of apart (resume_place rejected throws id m)
  resume_place-IsTidy rejected throws id m w =
      placed_of-IsTidy (m.operations id) rejected throws id m refl w

  module _ (e id : ℕ) (q : List Operation) (m : Manager) (is_q : m.operations id ≡ stubbing e ∷ q)
      (w : IsTidy id_of apart m) where
    stub_known : All (IsOld m.next_entry) (stubbing e ∷ q)
    stub_known = rw is_q at (w.old id)

    same_trail : (k : ℕ) → trail k (set_queue id (over ∷ q) m) ≡ trail k m
    unfolding marks_of
    same_trail k =
        let was : trail id m ≡ marks_made (m.calls id) ++ marks_of q = rw is_q refl in
        ground (arith, was)

    stub_on-IsTidy : (resolved : Bool) → IsTidy id_of apart (stub_of (stubbing e ∷ q) resolved id m)
    stub_on-IsTidy true =
        let s = set_queue-IsSameMap id (over ∷ q) m (λ v. (tt, stub_known.1)) in
        record {
          tidy =
              IsTidyOn-retraced id_of apart m.facets m.entries m.next_entry (λ k. trail k m) w.tidy
                (λ k. trail k (set_queue id (over ∷ q) m)) same_trail;
          old = s.old w.old;
        }
    stub_on-IsTidy false =
        let s = set_queue-IsSameMap id (over ∷ q) (reject e m) (λ v. (tt, stub_known.1)) in
        record {
          tidy =
              IsTidyOn-lost id_of apart m.facets m.entries m.next_entry (λ k. trail k m) w.tidy e
                (λ k. trail k (set_queue id (over ∷ q) m)) stub_known.0 (λ k. inl (same_trail k));
          old = s.old w.old;
        }

  stub_of-IsTidy :
      (q : List Operation) (resolved : Bool) (id : ℕ) (m : Manager)
      → m.operations id ≡ q
      → IsTidy id_of apart m
      → IsTidy id_of apart (stub_of q resolved id m)
  stub_of-IsTidy (stubbing e ∷ q) resolved id m is_q w = stub_on-IsTidy e id q m is_q w resolved
  stub_of-IsTidy [] resolved id m is_q w = w
  stub_of-IsTidy (place e ∷ q) resolved id m is_q w = w
  stub_of-IsTidy (asked e ∷ q) resolved id m is_q w = w
  stub_of-IsTidy (teardown r ∷ q) resolved id m is_q w = w
  stub_of-IsTidy (over ∷ q) resolved id m is_q w = w

  pub settle_stub-IsTidy :
      (resolved : Bool) (id : ℕ) (m : Manager)
      → IsTidy id_of apart m
      → IsTidy id_of apart (settle_stub resolved id m)
  settle_stub-IsTidy resolved id m w = stub_of-IsTidy (m.operations id) resolved id m refl w
