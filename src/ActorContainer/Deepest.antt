-- ===== src/ActorContainer/Deepest.antt =====
-- src/server/actor-container.ts: `descendants` ends, whatever the index, and finds what is below.
use do_runtime.Common.{
  ℕ, zero, suc, ◌+◌, ◌≤◌, ◌<◌, ◌≡◌, ap, some, List, [], ◌∷◌, length, length-append, get_elem?,
  arith,
}
use do_runtime.FacetIndex.{Entry, Contents, FacetTreeIndex, blank, add}
use do_runtime.FacetIndex.Format.{IsWellFormed, Chain}
use do_runtime.FacetIndex.Children.{children}
use do_runtime.ActorContainer.Descendants.{
  descend, descendants, IsParent, IsListed, gather_lem, children-IsParent, IsGathered-IsListed,
}

pub get_elem?-lt :
    {A : Type 0} (es : List A) (i : ℕ) (e : A) → get_elem? es i ≡ some e → i < length es
get_elem?-lt [] i e h = absurd (ground arith)
get_elem?-lt (x ∷ es) zero e h = ground arith
get_elem?-lt (x ∷ es) (suc i) e h = let rest = get_elem?-lt es i e h in ground arith

module _ {Name : Type 0} (decode : List ℕ → Name) where
  -- An entry's parent has its id before.
  Chain-parent :
      (c : Contents Name) (es : List (Entry Name)) (i : ℕ) (e : Entry Name)
      → Chain decode c es
      → get_elem? es i ≡ some e
      → e.parent ≤ length c.entries + i
  unfolding add
  Chain-parent c [] i e h at_i = absurd (ground arith)
  Chain-parent c (x ∷ es) zero e h at_i =
      let here : x ≡ e = cc in omega (arith, h.0.rooted, ap (λ (y : Entry Name). y.parent) here)
  Chain-parent c (x ∷ es) (suc i) e h at_i =
      let later = Chain-parent (add x c) es i e h.1 at_i in
      let more = length-append c.entries (x ∷ []) in omega arith

  larger :
      (ix : FacetTreeIndex Name)
      → IsWellFormed decode ix
      → (a b : ℕ) → IsParent ix a b
      → (a < b) × (b ≤ length ix.entries)
  larger ix w a b (i, e, is_b, at_i, mine) =
      let before = Chain-parent blank ix.entries i e w.chain at_i in
      let room = get_elem?-lt ix.entries i e at_i in (omega arith, omega arith)

  descend_lem :
      (ix : FacetTreeIndex Name)
      → IsWellFormed decode ix
      → (fuel id : ℕ) → length ix.entries < fuel + id
      → 0 < fuel
      → (out : List ℕ) × (descend ix fuel id ≡ some out) × IsListed ix id out
  unfolding descend
  descend_lem ix w zero id enough some_fuel = absurd (omega arith)
  descend_lem ix w (suc fuel) id enough some_fuel =
      let (out, is_out, g) = gather_lem ix (descend ix fuel) (children id ix) (λ c there.
        let (up, down) = larger ix w id c.id (children-IsParent ix id c there) in
        descend_lem ix w fuel c.id (omega arith) (omega arith)) in
      (out, is_out, IsGathered-IsListed ix id out g)

  -- On a well-formed index `descendants` of any id ends. Its list has the ids below the id, at any
  -- depth, and no others, and before each stands all that is below that one.
  pub descendants-IsListed :
      (ix : FacetTreeIndex Name) (id : ℕ)
      → IsWellFormed decode ix
      → (out : List ℕ) × (descendants ix id ≡ some out) × IsListed ix id out
  unfolding descendants
  descendants-IsListed ix id w =
      descend_lem ix w (suc (length ix.entries)) id (omega arith) (omega arith)
