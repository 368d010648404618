-- ===== src/ActorContainer/Tree/Numbers.antt =====
-- src/server/actor-container.ts: the ids of an index as a number for every name.
use Prim.Native.Char.{Char, char, code}
use text.Mathlib.TextEquality.{Char-path}
use mathlib.Core.Path.{ap₂}
use do_runtime.Common.{
  ℕ, ◌+◌, ◌*◌, ◌<◌, ◌≡◌, refl, ap, Option, none, some, List, String, arith, length, lookup,
  child_eq, Option-cases, inl, inr,
}
use do_runtime.ActorContainer.Deepest.{get_elem?-lt}
use do_runtime.FacetIndex.{FacetTreeIndex}
use do_runtime.FacetIndex.Format.{IsWellFormed}
use do_runtime.FacetIndex.Ids.{HasId, IsWellFormed-IsIndexed}

-- Different names have different numbers.
pub number : String → ℕ
number String.[] = 0
number (String.◌∷◌ c s) = 1 + code c + 1114112 * number s

code_lt : (c : Char) → code c < 1114112
code_lt (char n scalar) = ground arith

number_injective : (a b : String) → number a ≡ number b → a ≡ b
unfolding number
number_injective String.[] String.[] e = refl
number_injective String.[] (String.◌∷◌ d t) e = absurd (omega arith)
number_injective (String.◌∷◌ c s) String.[] e = absurd (omega arith)
number_injective (String.◌∷◌ c s) (String.◌∷◌ d t) e =
    let same : code c ≡ code d = omega (arith, e, code_lt c, code_lt d) in
    let rest : number s ≡ number t = omega (arith, e, same) in
    ap₂ (λ (x : Char) (y : String). String.◌∷◌ x y) (Char-path c d same) (number_injective s t rest)

module _ (encode : String → List ℕ) (decode : List ℕ → String) (self : ℕ) where
  -- A name without an id has a number behind all ids.
  abbrev number_on : Option ℕ → ℕ → ℕ → ℕ
  number_on (some i) ids n = i + 1
  number_on none ids n = ids + 1 + n

  abbrev pub id_at : FacetTreeIndex String → String → ℕ
  id_at ix name = number_on (lookup (self, encode name) ix.by_key) (length ix.entries) (number name)

  pub id_at-HasId :
      (ix : FacetTreeIndex String) (name : String) (i : ℕ)
      → HasId encode self name i ix
      → id_at ix name ≡ i + 1
  id_at-HasId ix name i h = rw (h.found) (refl)

  pub id_at_injective :
      ((a b : String) → encode a ≡ encode b → a ≡ b)
      → (ix : FacetTreeIndex String) → IsWellFormed decode ix
      → (a b : String) → id_at ix a ≡ id_at ix b
      → a ≡ b
  id_at_injective encodes ix w a b same =
      let indexed = IsWellFormed-IsIndexed decode ix w in
      elim (Option-cases (lookup (self, encode a) ix.by_key)) [
        | inl no_a ↦ elim (Option-cases (lookup (self, encode b) ix.by_key)) [
          | inl no_b ↦
              let e : length ix.entries + 1 + number a ≡ length ix.entries + 1 + number b =
                rw (no_a, no_b) at same in
              number_injective a b (omega arith)
          | inr (j, is_j) ↦
              let (f, f_at, f_is) = indexed (self, encode b) j is_j in
              let low = get_elem?-lt ix.entries j f f_at in
              let e : length ix.entries + 1 + number a ≡ j + 1 = rw (no_a, is_j) at same in
              absurd (omega arith)
        ]
        | inr (i, is_i) ↦
            let (e, e_at, e_is) = indexed (self, encode a) i is_i in
            elim (Option-cases (lookup (self, encode b) ix.by_key)) [
              | inl no_b ↦
                  let low = get_elem?-lt ix.entries i e e_at in
                  let h : i + 1 ≡ length ix.entries + 1 + number b = rw (is_i, no_b) at same in
                  absurd (omega arith)
              | inr (j, is_j) ↦
                  let (f, f_at, f_is) = indexed (self, encode b) j is_j in
                  let h : i + 1 ≡ j + 1 = rw (is_i, is_j) at same in
                  let at : i ≡ j = omega arith in
                  let one : e ≡ f = cc in
                  let keys : ◌≡◌ {A = ℕ × List ℕ} (self, encode a) (self, encode b) = cc in
                  encodes a b (ap (λ x. x.1) keys)
            ]
      ]
