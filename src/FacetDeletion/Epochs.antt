-- ===== src/FacetDeletion/Epochs.antt =====
-- src/server/facet-deletion.ts: `FacetReferenceEpochs`.
use do_runtime.Common.{
  ℕ, ◌+◌, ◌≤◌, ◌<◌, ◌≡◌, refl, Bool, true, false, Option, none, some, List, [], ◌∷◌, nat_beq,
  if◌then◌else◌, lookup, insert, lookup-insert, nat_eq, Bool-cases, inl, inr, arith,
}

abbrev pub Epochs : Type 0
Epochs = List (ℕ × ℕ)

abbrev pub or_zero : Option ℕ → ℕ
or_zero none = 0
or_zero (some n) = n

abbrev pub epoch_of : ℕ → Epochs → ℕ
epoch_of id epochs = or_zero (lookup id epochs)

-- `capture`: the epoch to remember, which is stored too.
unfoldable pub capture : ℕ → Epochs → ℕ × Epochs
capture id epochs = (epoch_of id epochs, insert id (epoch_of id epochs) epochs)

abbrev pub has : ℕ → List ℕ → Bool
has id [] = false
has id (x ∷ xs) = if nat_beq x id then true else has id xs

abbrev pub bump : ℕ → Epochs → Epochs
bump id epochs = insert id (epoch_of id epochs + 1) epochs

-- The ids are a `Set`: one that is named again is not bumped again.
unfoldable pub bump_all : List ℕ → List ℕ → Epochs → Epochs
bump_all seen [] epochs = epochs
bump_all seen (id ∷ ids) epochs =
    bump_all (id ∷ seen) ids (if has id seen then epochs else bump id epochs)

unfoldable pub invalidate : ℕ → List ℕ → Epochs → Epochs
unfolding bump_all
invalidate root subtree epochs = bump_all [] (root ∷ subtree) epochs

abbrev pub is_current : ℕ → ℕ → Epochs → Bool
is_current id epoch epochs = nat_beq (epoch_of id epochs) epoch

pub data Use : Type 0 where
  capturing : ℕ → Use
  invalidating : ℕ → List ℕ → Use

abbrev pub use_once : Use → Epochs → Epochs
use_once (capturing id) epochs = (capture id epochs).1
use_once (invalidating root subtree) epochs = invalidate root subtree epochs

unfoldable pub use_all : List Use → Epochs → Epochs
use_all [] epochs = epochs
use_all (u ∷ us) epochs = use_all us (use_once u epochs)

bump_le : (id k : ℕ) (epochs : Epochs) → epoch_of k epochs ≤ epoch_of k (bump id epochs)
bump_le id k epochs = elim (Bool-cases (nat_beq id k)) [
  | inl same ↦ ground (arith, lookup-insert id k (epoch_of id epochs + 1) epochs)
  | inr differ ↦ ground (arith, lookup-insert id k (epoch_of id epochs + 1) epochs)
]

bump_all_le :
    (seen ids : List ℕ) (k : ℕ) (epochs : Epochs)
    → epoch_of k epochs ≤ epoch_of k (bump_all seen ids epochs)
unfolding bump_all
bump_all_le seen [] k epochs = omega arith
bump_all_le seen (id ∷ ids) k epochs = elim (Bool-cases (has id seen)) [
  | inl again ↦ rw again (bump_all_le (id ∷ seen) ids k epochs)
  | inr first ↦
      let le₁ = bump_le id k epochs in
      let le₂ = bump_all_le (id ∷ seen) ids k (bump id epochs) in rw first (omega (arith, le₁, le₂))
]

bump_lt : (id : ℕ) (epochs : Epochs) → epoch_of id epochs < epoch_of id (bump id epochs)
bump_lt id epochs = ground (arith, lookup-insert id id (epoch_of id epochs + 1) epochs)

bump_all_lt :
    (seen ids : List ℕ) (k : ℕ) (epochs : Epochs)
    → has k seen ≡ false
    → has k ids ≡ true
    → epoch_of k epochs < epoch_of k (bump_all seen ids epochs)
unfolding bump_all
bump_all_lt seen [] k epochs new there = absurd (cc)
bump_all_lt seen (id ∷ ids) k epochs new there = elim (Bool-cases (nat_beq id k)) [
  | inl same ↦
      let is_k : id ≡ k = ground (arith, same) in
      let le = bump_all_le (k ∷ seen) ids k (bump k epochs) in
      let lt = bump_lt k epochs in rw (is_k, new) (omega (arith, lt, le))
  | inr differ ↦ elim (Bool-cases (has id seen)) [
    | inl again ↦
        rw again (bump_all_lt (id ∷ seen) ids k epochs (rw (differ, new)) (rw differ at there))
    | inr first ↦
        let le = bump_le id k epochs in
        let lt =
          bump_all_lt (id ∷ seen) ids k (bump id epochs) (rw (differ, new)) (rw differ at there) in
        rw first (omega (arith, le, lt))
  ]
]

pub use_once_le :
    (u : Use) (k : ℕ) (epochs : Epochs) → epoch_of k epochs ≤ epoch_of k (use_once u epochs)
unfolding capture invalidate
use_once_le (capturing id) k epochs = elim (Bool-cases (nat_beq id k)) [
  | inl same ↦ ground (arith, lookup-insert id k (epoch_of id epochs) epochs)
  | inr differ ↦ ground (arith, lookup-insert id k (epoch_of id epochs) epochs)
]
use_once_le (invalidating root subtree) k epochs = bump_all_le [] (root ∷ subtree) k epochs

use_all_le :
    (us : List Use) (k : ℕ) (epochs : Epochs) → epoch_of k epochs ≤ epoch_of k (use_all us epochs)
unfolding use_all
use_all_le [] k epochs = omega arith
use_all_le (u ∷ us) k epochs =
    omega (arith, use_once_le u k epochs, use_all_le us k (use_once u epochs))

-- An epoch that was captured for a facet before an abort or a delete that covers the facet is
-- never current again, whatever is captured or invalidated before and after it.
pub capture_stale :
    (id root : ℕ) (subtree : List ℕ) (before after : List Use) (epochs : Epochs)
    → has id (root ∷ subtree) ≡ true
    → is_current id
        (capture id epochs).0
        (use_all after (invalidate root subtree (use_all before (capture id epochs).1)))
      ≡ false
unfolding capture invalidate
capture_stale id root subtree before after epochs covered =
    let e₁ : Epochs = (capture id epochs).1 in
    let e₂ : Epochs = use_all before e₁ in
    let e₃ : Epochs = bump_all [] (root ∷ subtree) e₂ in
    let le₁ = use_once_le (capturing id) id epochs in
    let le₂ = use_all_le before id e₁ in
    let lt = bump_all_lt [] (root ∷ subtree) id e₂ refl covered in
    let le₃ = use_all_le after id e₃ in ground (arith, le₁, le₂, lt, le₃)
