-- ===== src/ActorContainer/Descendants.antt =====
-- src/server/actor-container.ts: `descendants`, the ids below an id, the deepest first.
use do_runtime.Common.{
  ℕ, zero, suc, ◌+◌, ◌≡◌, refl, ap, ◌⊎◌, inl, inr, Option, some, none, List, [], ◌∷◌, ◌++◌, length,
  get_elem?, ◌↔◌, arith,
}
use do_runtime.FacetIndex.{Entry, FacetTreeIndex}
use do_runtime.FacetIndex.Children.{Child, In, children, children_lem}

-- `out.push` of what is below a child and of the child.
abbrev pub joined : ℕ → Option (List ℕ) → Option (List ℕ) → Option (List ℕ)
joined id (some inner) (some rest) = some (inner ++ id ∷ rest)
joined id _ _ = none

module _ {Name : Type 0} (ix : FacetTreeIndex Name) where
  -- The loop over the children.
  abbrev pub gather : (ℕ → Option (List ℕ)) → List (Child Name) → Option (List ℕ)
  gather descend [] = some []
  gather descend (c ∷ cs) = joined c.id (descend c.id) (gather descend cs)

  unfoldable pub descend : ℕ → ℕ → Option (List ℕ)
  descend zero id = none
  descend (suc fuel) id = gather (descend fuel) (children id ix)

  -- A child has a larger id than its parent, so no path is longer than the index.
  unfoldable pub descendants : ℕ → Option (List ℕ)
  unfolding descend
  descendants id = descend (suc (length ix.entries)) id

  -- `Deepest` shows that there is a list.
  abbrev pub listed : Option (List ℕ) → List ℕ
  listed none = []
  listed (some out) = out

  abbrev pub subtree_of : ℕ → List ℕ
  subtree_of id = listed (descendants id)

  abbrev pub IsParent : ℕ → ℕ → Type 0
  IsParent a b =
      (i : ℕ) × (e : Entry Name) × (b ≡ i + 1) × (get_elem? ix.entries i ≡ some e) × (e.parent ≡ a)

  pub data Under : ℕ → ℕ → Type 0 where
    child : {a d : ℕ} → IsParent a d → Under a d
    below : {a b d : ℕ} → IsParent a b → Under b d → Under a d

  -- What is below an id stands before it, or holds `P`.
  abbrev pub IsDeepestFirst : (ℕ → Type 0) → List ℕ → Type 0
  IsDeepestFirst P [] = Unit
  IsDeepestFirst P (x ∷ xs) = ((d : ℕ) → Under x d → P d) × IsDeepestFirst (λ d. (d ≡ x) ⊎ P d) xs

  -- The list of an id: what is below it and nothing else, the deepest first.
  pub record IsListed (id : ℕ) (out : List ℕ) : Type 0 where
    pub exact : (d : ℕ) → In d out ↔ Under id d
    pub deepest_first : IsDeepestFirst (λ _. ⊥) out

  pub record IsGathered (cs : List (Child Name)) (out : List ℕ) : Type 0 where
    pub sound : (d : ℕ) → In d out → (c : Child Name) × In c cs × ((d ≡ c.id) ⊎ Under c.id d)
    pub complete : (c : Child Name) → In c cs → (d : ℕ) → (d ≡ c.id) ⊎ Under c.id d → In d out
    pub deepest_first : IsDeepestFirst (λ _. ⊥) out

  weaker-IsDeepestFirst :
      (P Q : ℕ → Type 0) (xs : List ℕ)
      → ((d : ℕ) → P d → Q d)
      → IsDeepestFirst P xs
      → IsDeepestFirst Q xs
  weaker-IsDeepestFirst P Q [] h o = tt
  weaker-IsDeepestFirst P Q (x ∷ xs) h (first, rest) = (
    λ d u. h d (first d u),
    weaker-IsDeepestFirst (λ d. (d ≡ x) ⊎ P d) (λ d. (d ≡ x) ⊎ Q d) xs
        (λ d k. elim k [ inl e ↦ inl e | inr p ↦ inr (h d p) ]) rest,
  )

  append-IsDeepestFirst :
      (P : ℕ → Type 0) (xs ys : List ℕ)
      → IsDeepestFirst P xs
      → IsDeepestFirst (λ d. In d xs ⊎ P d) ys
      → IsDeepestFirst P (xs ++ ys)
  append-IsDeepestFirst P [] ys o k =
      weaker-IsDeepestFirst (λ d. ⊥ ⊎ P d) P ys (λ d k'. elim k' [ inl e ↦ absurd e | inr p ↦ p ]) k
  append-IsDeepestFirst P (x ∷ xs) ys (first, rest) k = (
    first,
    append-IsDeepestFirst (λ d. (d ≡ x) ⊎ P d) xs ys rest
        (weaker-IsDeepestFirst (λ d. ((d ≡ x) ⊎ In d xs) ⊎ P d) (λ d. In d xs ⊎ ((d ≡ x) ⊎ P d)) ys
          (λ d h. elim h [ inl (inl e) ↦ inr (inl e) | inl (inr i) ↦ inl i | inr p ↦ inr (inr p) ])
          k),
  )

  In-append : (d : ℕ) (xs ys : List ℕ) → In d (xs ++ ys) → In d xs ⊎ In d ys
  In-append d [] ys h = inr h
  In-append d (x ∷ xs) ys (inl e) = inl (inl e)
  In-append d (x ∷ xs) ys (inr h) = elim (In-append d xs ys h) [
    | inl i ↦ inl (inr i)
    | inr i ↦ inr i
  ]

  append-In : (d : ℕ) (xs ys : List ℕ) → In d xs ⊎ In d ys → In d (xs ++ ys)
  append-In d [] ys (inl h) = absurd h
  append-In d [] ys (inr h) = h
  append-In d (x ∷ xs) ys (inl (inl e)) = inl e
  append-In d (x ∷ xs) ys (inl (inr h)) = inr (append-In d xs ys (inl h))
  append-In d (x ∷ xs) ys (inr h) = inr (append-In d xs ys (inr h))

  joined-IsGathered :
      (c : Child Name) (cs : List (Child Name)) (inner rest : List ℕ)
      → IsListed c.id inner
      → IsGathered cs rest
      → IsGathered (c ∷ cs) (inner ++ c.id ∷ rest)
  joined-IsGathered c cs inner rest l g = record {
    sound = λ d h. elim (In-append d inner (c.id ∷ rest) h) [
      | inl i ↦ (c, inl refl, inr ((l.exact d).0 i))
      | inr (inl e) ↦ (c, inl refl, inl e)
      | inr (inr i) ↦ let (c', there, under) = g.sound d i in (c', inr there, under)
    ];
    complete = λ c' there d under. elim there [
      | inl e ↦
          let here : (d ≡ c.id) ⊎ Under c.id d = rw (ap (λ (x : Child Name). x.id) e) at under in
          elim here [
            | inl is_c ↦ append-In d inner (c.id ∷ rest) (inr (inl is_c))
            | inr u ↦ append-In d inner (c.id ∷ rest) (inl ((l.exact d).1 u))
          ]
      | inr later ↦ append-In d inner (c.id ∷ rest) (inr (inr (g.complete c' later d under)))
    ];
    deepest_first =
        append-IsDeepestFirst (λ _. ⊥) inner (c.id ∷ rest) l.deepest_first
          (
            (λ d u. inl ((l.exact d).1 u)),
            weaker-IsDeepestFirst (λ _. ⊥) (λ d. (d ≡ c.id) ⊎ (In d inner ⊎ ⊥)) rest
                (λ d e. absurd e) g.deepest_first,
          );
  }

  pub gather_lem :
      (f : ℕ → Option (List ℕ)) (cs : List (Child Name))
      → ((c : Child Name)
          → In c cs
          → (inner : List ℕ) × (f c.id ≡ some inner) × IsListed c.id inner)
      → (out : List ℕ) × (gather f cs ≡ some out) × IsGathered cs out
  gather_lem f [] h =
      ([], refl, record { sound = λ d e. absurd e; complete = λ c e. absurd e; deepest_first = tt })
  gather_lem f (c ∷ cs) h =
      let (inner, is_inner, l) = h c (inl refl) in
      let (rest, is_rest, g) = gather_lem f cs (λ c' i. h c' (inr i)) in
      (inner ++ c.id ∷ rest, rw (is_inner, is_rest), joined-IsGathered c cs inner rest l g)

  pub children-IsParent : (a : ℕ) (c : Child Name) → In c (children a ix) → IsParent a c.id
  children-IsParent a c h =
      let (i, is_id, at_i, mine) = ((children_lem a ix).1 c).0 h in
      (i, c.entry, omega arith, at_i, mine)

  IsParent-children :
      (a b : ℕ) → IsParent a b → (c : Child Name) × In c (children a ix) × (b ≡ c.id)
  IsParent-children a b (i, e, is_b, at_i, mine) =
      let c : Child Name = record { id = i + 1; entry = e } in
      (c, ((children_lem a ix).1 c).1 (i, omega arith, at_i, mine), is_b)

  pub IsGathered-IsListed :
      (id : ℕ) (out : List ℕ) → IsGathered (children id ix) out → IsListed id out
  IsGathered-IsListed id out g = record {
    exact = λ d. (
      λ h.
          let (c, there, under) = g.sound d h in
          let p = children-IsParent id c there in
          elim under [ inl e ↦ rw e (child p) | inr u ↦ below p u ],
      λ u. found d u,
    );
    deepest_first = g.deepest_first;
  }
    where
      found : (d : ℕ) → Under id d → In d out
      found d (child p) =
          let (c, there, is_c) = IsParent-children id d p in g.complete c there d (inl is_c)
      found d (below {b = b} p u) =
          let (c, there, is_c) = IsParent-children id b p in
          g.complete c there d (inr (rw is_c at u))
