-- ===== src/FacetIndex/Ids/Stable/Indexed.antt =====
-- src/server/facet-tree-index.ts: what a call answers, and that the table finds the entries.
use do_runtime.Common.{
  ℕ, zero, suc, ◌≡◌, refl, sym, ap, ◌∙◌, some, List, [], ◌∷◌, ◌++◌, length, lookup, child_eq,
  Result, ok, err, Bool-cases, inl, inr, get_elem?, lookup-insert, child_beq_iff, child_beq,
}
use do_runtime.FacetIndex.{IndexError, Entry, Contents, FacetTreeIndex, blank, add}
use do_runtime.FacetIndex.Format.{IsWellFormed, add_all}

-- What happens to an index: a call of `getId`, or a restart that reads the file again.
pub data Use (Name : Type 0) : Type 0 where
  ask : ℕ → Name → Use Name
  restart : Use Name

pub answer-eq :
    {S : Type 0} {t : Result IndexError ℕ × S} {a b : ℕ} {s u : S}
    → t ≡ (ok a, s)
    → t ≡ (ok b, u)
    → (a ≡ b) × (s ≡ u)
answer-eq h k = (ok-injective (ap (λ p. p.0) (sym h ∙ k)), ap (λ p. p.1) (sym h ∙ k))
  where
    ok-injective : {c d : ℕ} → ◌≡◌ {A = Result IndexError ℕ} (ok c) (ok d) → c ≡ d
    ok-injective e = cc

pub answer-clash :
    {S : Type 0} {t : Result IndexError ℕ × S} {x : IndexError} {b : ℕ} {s u : S}
    → t ≡ (err x, s)
    → t ≡ (ok b, u)
    → ⊥
answer-clash h k = clash (ap (λ p. p.0) (sym h ∙ k))
  where
    clash : {y : IndexError} {d : ℕ} → ◌≡◌ {A = Result IndexError ℕ} (err y) (ok d) → ⊥
    clash e = cc

module _ {Name : Type 0} where
  abbrev pub key_of : Entry Name → ℕ × List ℕ
  key_of e = (e.parent, e.name_key)

  -- The table finds an entry at the place that it gives.
  abbrev pub IsIndexed : Contents Name → Type 0
  IsIndexed c =
      (k : ℕ × List ℕ) (i : ℕ)
      → lookup k c.by_key ≡ some i
      → (e : Entry Name) × (get_elem? c.entries i ≡ some e) × (key_of e ≡ k)

  get_elem?-snoc :
      (es : List (Entry Name)) (e : Entry Name) → get_elem? (es ++ e ∷ []) (length es) ≡ some e
  get_elem?-snoc [] e = refl
  get_elem?-snoc (x ∷ es) e = get_elem?-snoc es e

  get_elem?-append :
      (es fs : List (Entry Name)) (i : ℕ) (e : Entry Name)
      → get_elem? es i ≡ some e
      → get_elem? (es ++ fs) i ≡ some e
  get_elem?-append [] fs i e h = cc
  get_elem?-append (x ∷ es) fs zero e h = h
  get_elem?-append (x ∷ es) fs (suc i) e h = get_elem?-append es fs i e h

  add-IsIndexed : (e : Entry Name) (c : Contents Name) → IsIndexed c → IsIndexed (add e c)
  unfolding add
  add-IsIndexed e c h k i found = elim (Bool-cases (child_beq (key_of e) k)) [
    | inl same ↦
        let here : length c.entries ≡ i = cc (rw (lookup-insert, same) at found) in
        (e, rw (← here) (get_elem?-snoc c.entries e), (child_beq_iff (key_of e) k).0 same)
    | inr other ↦
        let (x, at_i, is_k) = h k i (rw (lookup-insert, other) at found) in
        (x, get_elem?-append c.entries (e ∷ []) i x at_i, is_k)
  ]

  add_all-IsIndexed :
      (es : List (Entry Name)) (c : Contents Name) → IsIndexed c → IsIndexed (add_all es c)
  add_all-IsIndexed [] c h = h
  add_all-IsIndexed (e ∷ es) c h = add_all-IsIndexed es (add e c) (add-IsIndexed e c h)

  pub IsWellFormed-IsIndexed :
      (decode : List ℕ → Name) (ix : FacetTreeIndex Name)
      → IsWellFormed decode ix
      → IsIndexed ix.contents
  IsWellFormed-IsIndexed decode ix w =
      rw (← w.built) (add_all-IsIndexed ix.entries blank (λ k i h. absurd (cc)))
