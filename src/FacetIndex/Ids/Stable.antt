-- ===== src/FacetIndex/Ids/Stable.antt =====
-- Ids over the life of an index: any later calls and restarts leave them as they are, and no two
-- pairs have the same one.
pub mod Indexed
use do_runtime.Common.{
  ℕ, zero, suc, ◌+◌, ◌≤◌, ◌≡◌, refl, sym, ap, ◌∙◌, none, some, List, [], ◌∷◌, ◌++◌, length, lookup,
  child_eq, arith, Result, ok, err, Bool-cases, inl, inr, get_elem?, lookup-insert, length-append,
  child_beq_iff, child_beq, beq_refl,
}
use mathlib.Core.Path.{subst}
use do_runtime.FacetIndex.{
  IndexError, Entry, Contents, FacetTreeIndex, blank, add, open_index, get_id,
}
use do_runtime.FacetIndex.Format.{Chain, IsWellFormed, add_all}
use do_runtime.FacetIndex.Load.{open_index-IsWellFormed_reads}
use do_runtime.FacetIndex.Ids.Steps.{
  IsLegal, entry_of, extended, get_id-cases, get_id-found, get_id-IsWellFormed,
}
use do_runtime.FacetIndex.Ids.Stable.Indexed.{
  Use, ask, restart, answer-eq, answer-clash, key_of, IsWellFormed-IsIndexed,
}

module _ {Name : Type 0} (encode : Name → List ℕ) where
  pub record HasId (parent : ℕ) (name : Name) (i : ℕ) (ix : FacetTreeIndex Name) : Type 0 where
    pub legal : IsLegal encode parent name ix
    pub found : lookup (parent, encode name) ix.by_key ≡ some i

module _ {Name : Type 0} (encode : Name → List ℕ) (decode : List ℕ → Name) where
  abbrev kept : FacetTreeIndex Name → Result IndexError (FacetTreeIndex Name) → FacetTreeIndex Name
  kept ix (ok ix') = ix'
  kept ix (err x) = ix

  unfoldable pub use_once : Use Name → FacetTreeIndex Name → FacetTreeIndex Name
  use_once (ask parent name) ix = (get_id encode decode parent name ix).1
  use_once restart ix = kept ix (open_index encode decode ix.file)

  unfoldable pub use_all : List (Use Name) → FacetTreeIndex Name → FacetTreeIndex Name
  use_all [] ix = ix
  use_all (u ∷ us) ix = use_all us (use_once u ix)

  extended-HasId_self :
      (parent : ℕ) (name : Name) (ix : FacetTreeIndex Name)
      → IsLegal encode parent name ix
      → HasId encode parent name (length ix.entries) (extended encode decode parent name ix)
  unfolding add
  extended-HasId_self parent name ix l = record {
    legal = record {
      named = l.named;
      short = l.short;
      rooted =
          omega
            (arith, l.rooted, length-append ix.entries (entry_of encode decode parent name ∷ []));
    };
    found = rw (lookup-insert, beq_refl {K = ℕ × List ℕ} (parent, encode name));
  }

  extended-HasId :
      (parent : ℕ) (name : Name) (i q : ℕ) (other : Name) (ix : FacetTreeIndex Name)
      → HasId encode parent name i ix
      → lookup (q, encode other) ix.by_key ≡ none
      → HasId encode parent name i (extended encode decode q other ix)
  unfolding add
  extended-HasId parent name i q other ix h new = record {
    legal = record {
      named = h.legal.named;
      short = h.legal.short;
      rooted =
          omega
            (arith, h.legal.rooted, length-append ix.entries (entry_of encode decode q other ∷ []));
    };
    found = elim (Bool-cases (child_beq (q, encode other) (parent, encode name))) [
      | inl same ↦
          absurd (cc ((child_beq_iff (q, encode other) (parent, encode name)).0 same, new, h.found))
      | inr differ ↦ rw (lookup-insert, differ) h.found
    ];
  }

  pub get_id-HasId :
      (parent : ℕ) (name : Name) (ix : FacetTreeIndex Name) (id : ℕ) (ix' : FacetTreeIndex Name)
      → get_id encode decode parent name ix ≡ (ok id, ix')
      → (i : ℕ) × (id ≡ i + 1) × HasId encode parent name i ix'
  get_id-HasId parent name ix id ix' h = elim (get_id-cases encode decode parent name ix) [
    | inl (x, fails) ↦ absurd (answer-clash fails h)
    | inr (inl (i, l, known, finds)) ↦
        let (is_id, is_ix) = answer-eq finds h in
        (
          i,
          sym is_id,
          subst (HasId encode parent name i) is_ix (record { legal = l; found = known }),
        )
    | inr (inr (l, new, room, makes)) ↦
        let (is_id, is_ix) = answer-eq makes h in
        (
          length ix.entries,
          sym is_id,
          subst (HasId encode parent name (length ix.entries)) is_ix
              (extended-HasId_self parent name ix l),
        )
  ]

  pub use_once-IsWellFormed :
      (u : Use Name) (ix : FacetTreeIndex Name)
      → IsWellFormed decode ix
      → IsWellFormed decode (use_once u ix)
  unfolding use_once
  use_once-IsWellFormed (ask parent name) ix w = get_id-IsWellFormed encode decode parent name ix w
  use_once-IsWellFormed restart ix w =
      let (ix', opens, same, bytes) = open_index-IsWellFormed_reads encode decode ix w in
      rw (opens, kept)
        (record {
          chain = subst (λ c. Chain decode blank c.entries) (sym same) w.chain;
          built = rw same w.built;
          content = rw (same, bytes) w.content;
        })

  pub use_once-HasId :
      (parent : ℕ) (name : Name) (i : ℕ) (u : Use Name) (ix : FacetTreeIndex Name)
      → IsWellFormed decode ix
      → HasId encode parent name i ix
      → HasId encode parent name i (use_once u ix)
  unfolding use_once
  use_once-HasId parent name i (ask q other) ix w h = elim (get_id-cases encode decode q other ix) [
    | inl (x, fails) ↦ rw (fails, use_once) h
    | inr (inl (j, l, known, finds)) ↦ rw (finds, use_once) h
    | inr (inr (l, new, room, makes)) ↦
        rw (makes, use_once) (extended-HasId parent name i q other ix h new)
  ]
  use_once-HasId parent name i restart ix w h =
      let (ix', opens, same, bytes) = open_index-IsWellFormed_reads encode decode ix w in
      rw (opens, kept)
        (record {
          legal = record {
            named = h.legal.named;
            short = h.legal.short;
            rooted = subst (λ c. parent ≤ length c.entries) (sym same) h.legal.rooted;
          };
          found = rw same h.found;
        })

  use_all-HasId :
      (parent : ℕ) (name : Name) (i : ℕ) (us : List (Use Name)) (ix : FacetTreeIndex Name)
      → IsWellFormed decode ix
      → HasId encode parent name i ix
      → HasId encode parent name i (use_all us ix)
  unfolding use_all
  use_all-HasId parent name i [] ix w h = h
  use_all-HasId parent name i (u ∷ us) ix w h =
      use_all-HasId parent name i us (use_once u ix) (use_once-IsWellFormed u ix w)
        (use_once-HasId parent name i u ix w h)

  pub use_all-IsWellFormed :
      (us : List (Use Name)) (ix : FacetTreeIndex Name)
      → IsWellFormed decode ix
      → IsWellFormed decode (use_all us ix)
  unfolding use_all
  use_all-IsWellFormed [] ix w = w
  use_all-IsWellFormed (u ∷ us) ix w =
      use_all-IsWellFormed us (use_once u ix) (use_once-IsWellFormed u ix w)

  HasId-injective :
      (p q : ℕ) (n m : Name) (i : ℕ) (ix : FacetTreeIndex Name)
      → IsWellFormed decode ix
      → HasId encode p n i ix
      → HasId encode q m i ix
      → (p ≡ q) × (encode n ≡ encode m)
  HasId-injective p q n m i ix w h k =
      let indexed = IsWellFormed-IsIndexed decode ix w in
      let (e, e_at, e_is) = indexed (p, encode n) i h.found in
      let (f, f_at, f_is) = indexed (q, encode m) i k.found in
      let same : e ≡ f = cc in
      let keys : (p, encode n) ≡ (q, encode m) = sym e_is ∙ ap key_of same ∙ f_is in
      (ap (λ x. x.0) keys, ap (λ x. x.1) keys)

  -- Once a pair has an id, the id never changes: after any later calls, for any pairs, and any
  -- number of restarts that read the file again, a call for the pair succeeds with the same id and
  -- leaves the index alone.
  pub get_id_stable :
      (parent : ℕ) (name : Name) (id : ℕ) (us : List (Use Name)) (ix ix' : FacetTreeIndex Name)
      → IsWellFormed decode ix
      → get_id encode decode parent name ix ≡ (ok id, ix')
      → get_id encode decode parent name (use_all us ix') ≡ (ok id, use_all us ix')
  get_id_stable parent name id us ix ix' w h =
      let w' : IsWellFormed decode ix' =
        subst (IsWellFormed decode) (ap (λ p. p.1) h)
          (get_id-IsWellFormed encode decode parent name ix w) in
      let (i, is_id, has) = get_id-HasId parent name ix id ix' h in
      let later = use_all-HasId parent name i us ix' w' has in
      rw is_id (get_id-found encode decode parent name (use_all us ix') i later.legal later.found)

  -- No two facets share an id: if calls for two pairs answer the same id, whatever calls and
  -- restarts lie between, the parents are the same and the names are the same bytes.
  pub get_id_injective :
      (p q : ℕ) (n m : Name) (id : ℕ) (us : List (Use Name)) (ix ix₁ ix₂ : FacetTreeIndex Name)
      → IsWellFormed decode ix
      → get_id encode decode p n ix ≡ (ok id, ix₁)
      → get_id encode decode q m (use_all us ix₁) ≡ (ok id, ix₂)
      → (p ≡ q) × (encode n ≡ encode m)
  unfolding use_once
  get_id_injective p q n m id us ix ix₁ ix₂ w h k =
      let w₁ : IsWellFormed decode ix₁ =
        subst (IsWellFormed decode) (ap (λ t. t.1) h)
          (get_id-IsWellFormed encode decode p n ix w) in
      let w₂ = use_all-IsWellFormed us ix₁ w₁ in
      let (i, id_is_i, has_i) = get_id-HasId p n ix id ix₁ h in
      let (j, id_is_j, has_j) = get_id-HasId q m (use_all us ix₁) id ix₂ k in
      let later =
        use_once-HasId p n i (ask q m) (use_all us ix₁) w₂ (use_all-HasId p n i us ix₁ w₁ has_i) in
      let same : i ≡ j = omega arith in
      HasId-injective p q n m j ix₂
        (subst (IsWellFormed decode) (ap (λ t. t.1) k)
          (get_id-IsWellFormed encode decode q m (use_all us ix₁) w₂))
        (subst (λ t. HasId encode p n t ix₂) same
          (subst (HasId encode p n i) (ap (λ t. t.1) k) later))
        has_j
