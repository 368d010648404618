-- ===== src/FacetIndex/Children.antt =====
-- `forEachChild`: the children of a facet in the order of their names' bytes.
use do_runtime.Common.{
  ℕ, zero, suc, ◌+◌, ◌≡◌, refl, some, List, [], ◌∷◌, map, child_eq, arith, Bool, true, false, ltb,
  nat_beq, if◌then◌else◌, Bool-cases, ◌⊎◌, inl, inr, get_elem?, ◌↔◌, ◌&&◌,
}
use do_runtime.FacetIndex.{Entry, FacetTreeIndex}

-- JavaScript's `<` on strings of one code unit per byte.
unfoldable pub bytes_ltb : List ℕ → List ℕ → Bool
bytes_ltb [] [] = false
bytes_ltb [] (y ∷ ys) = true
bytes_ltb (x ∷ xs) [] = false
bytes_ltb (x ∷ xs) (y ∷ ys) = if ltb x y then true else nat_beq x y && bytes_ltb xs ys

pub record Child (Name : Type 0) : Type 0 where
  pub id : ℕ
  pub entry : Entry Name

module _ {Name : Type 0} where
  -- The loop that collects the children; `index` counts the entries gone by.
  unfoldable pub collect : ℕ → ℕ → List (Entry Name) → List (Child Name)
  collect parent index [] = []
  collect parent index (e ∷ es) =
      let rest = collect parent (index + 1) es in
      if nat_beq e.parent parent then record { id = index + 1; entry = e } ∷ rest else rest

  -- `sort` with the comparison of `forEachChild`. Siblings have different names, so every sort
  -- gives the same list; this is insertion.
  unfoldable pub place : Child Name → List (Child Name) → List (Child Name)
  place c [] = c ∷ []
  place c (d ∷ ds) =
      if bytes_ltb c.entry.name_key d.entry.name_key then c ∷ d ∷ ds else d ∷ place c ds

  unfoldable pub sort_children : List (Child Name) → List (Child Name)
  sort_children [] = []
  sort_children (c ∷ cs) = place c (sort_children cs)

  abbrev called : Child Name → ℕ × Name
  called c = (c.id, c.entry.name)

  unfoldable pub children : ℕ → FacetTreeIndex Name → List (Child Name)
  unfolding bytes_ltb collect place sort_children
  children parent ix = sort_children (collect parent 0 ix.entries)

  -- The arguments of the calls of `callback`, in their order.
  unfoldable pub for_each_child : ℕ → FacetTreeIndex Name → List (ℕ × Name)
  unfolding children
  for_each_child parent ix = map called (children parent ix)

abbrev pub In : {A : Type 0} → A → List A → Type 0
In x [] = ⊥
In x (y ∷ ys) = (x ≡ y) ⊎ In x ys

module _ {Name : Type 0} where
  -- Each name is not below the one before it.
  abbrev pub IsOrdered : List (Child Name) → Type 0
  IsOrdered [] = Unit
  IsOrdered (c ∷ []) = Unit
  IsOrdered (c ∷ d ∷ ds) =
      (bytes_ltb d.entry.name_key c.entry.name_key ≡ false) × IsOrdered (d ∷ ds)

bytes_ltb_asym : (xs ys : List ℕ) → bytes_ltb xs ys ≡ true → bytes_ltb ys xs ≡ false
unfolding bytes_ltb
bytes_ltb_asym [] [] h = refl
bytes_ltb_asym [] (y ∷ ys) h = refl
bytes_ltb_asym (x ∷ xs) [] h = cc
bytes_ltb_asym (x ∷ xs) (y ∷ ys) h = ground (arith, bytes_ltb_asym xs ys)

module _ {Name : Type 0} where
  place-IsOrdered :
      (c : Child Name) (ds : List (Child Name)) → IsOrdered ds → IsOrdered (place c ds)
  unfolding place
  place-IsOrdered c [] h = tt
  place-IsOrdered c (d ∷ []) h = elim (Bool-cases (bytes_ltb c.entry.name_key d.entry.name_key)) [
    | inl lt ↦ rw lt (bytes_ltb_asym _ _ lt, tt)
    | inr ge ↦ rw ge (ge, tt)
  ]
  place-IsOrdered c (d ∷ d' ∷ ds) h =
      elim (Bool-cases (bytes_ltb c.entry.name_key d.entry.name_key)) [
        | inl lt ↦ rw lt (bytes_ltb_asym _ _ lt, h)
        | inr ge ↦ elim (Bool-cases (bytes_ltb c.entry.name_key d'.entry.name_key)) [
          | inl lt' ↦ rw (ge, lt') (ge, (bytes_ltb_asym _ _ lt', h.1))
          | inr ge' ↦ rw (ge, ge') (h.0, rw ge' at (place-IsOrdered c (d' ∷ ds) h.1))
        ]
      ]

  sort_children-IsOrdered : (cs : List (Child Name)) → IsOrdered (sort_children cs)
  unfolding sort_children
  sort_children-IsOrdered [] = tt
  sort_children-IsOrdered (c ∷ cs) =
      place-IsOrdered c (sort_children cs) (sort_children-IsOrdered cs)

  In-place : (x c : Child Name) (ds : List (Child Name)) → In x (place c ds) → (x ≡ c) ⊎ In x ds
  unfolding place
  In-place x c [] h = h
  In-place x c (d ∷ ds) h = ground (arith, In-place x c ds)

  place-In : (x c : Child Name) (ds : List (Child Name)) → (x ≡ c) ⊎ In x ds → In x (place c ds)
  unfolding place
  place-In x c [] h = h
  place-In x c (d ∷ ds) h = ground (arith, place-In x c ds)

  In-sort_children : (x : Child Name) (cs : List (Child Name)) → In x (sort_children cs) → In x cs
  unfolding sort_children
  In-sort_children x [] h = h
  In-sort_children x (c ∷ cs) h = elim (In-place x c (sort_children cs) h) [
    | inl e ↦ inl e
    | inr k ↦ inr (In-sort_children x cs k)
  ]

  sort_children-In : (x : Child Name) (cs : List (Child Name)) → In x cs → In x (sort_children cs)
  unfolding sort_children
  sort_children-In x [] h = h
  sort_children-In x (c ∷ cs) (inl e) = place-In x c (sort_children cs) (inl e)
  sort_children-In x (c ∷ cs) (inr k) =
      place-In x c (sort_children cs) (inr (sort_children-In x cs k))

  -- The entry with this id, as a child of `parent`.
  abbrev pub IsChildAt : ℕ → ℕ → List (Entry Name) → Child Name → Type 0
  IsChildAt parent n es c =
      (i : ℕ) × (c.id ≡ n + i + 1) × (get_elem? es i ≡ some c.entry) × (c.entry.parent ≡ parent)

  -- Seen from one entry further on.
  IsChildAt-cons :
      (parent n : ℕ) (e : Entry Name) (es : List (Entry Name)) (c : Child Name)
      → IsChildAt parent (n + 1) es c
      → IsChildAt parent n (e ∷ es) c
  IsChildAt-cons parent n e es c (i, is_id, at_i, mine) = (suc i, omega arith, at_i, mine)

  collect_sound :
      (parent n : ℕ) (es : List (Entry Name)) (c : Child Name)
      → In c (collect parent n es)
      → IsChildAt parent n es c
  unfolding collect
  collect_sound parent n [] c h = absurd h
  collect_sound parent n (e ∷ es) c h = elim (Bool-cases (nat_beq e.parent parent)) [
    | inl mine ↦ elim (rw (mine, collect) at h) [
      | inl is_c ↦ (0, ground arith, ground arith, ground arith)
      | inr k ↦ IsChildAt-cons parent n e es c (collect_sound parent (n + 1) es c k)
    ]
    | inr other ↦
        IsChildAt-cons parent n e es c
          (collect_sound parent (n + 1) es c (rw (other, collect) at h))
  ]

  collect_complete :
      (parent n : ℕ) (es : List (Entry Name)) (c : Child Name) (i : ℕ)
      → c.id ≡ n + i + 1
      → get_elem? es i ≡ some c.entry
      → c.entry.parent ≡ parent
      → In c (collect parent n es)
  unfolding collect
  collect_complete parent n [] c i d h p = cc
  collect_complete parent n (e ∷ es) c zero d h p =
      let here : e ≡ c.entry = cc in
      let mine : nat_beq e.parent parent ≡ true = rw here (ground arith) in
      rw mine (inl (ground arith))
  collect_complete parent n (e ∷ es) c (suc i) d h p =
      let later = collect_complete parent (n + 1) es c i (omega arith) h p in
      elim (Bool-cases (nat_beq e.parent parent)) [
        | inl mine ↦ rw mine (inr later)
        | inr other ↦ rw other later
      ]

  -- The children that `forEachChild` reports for a facet are in the order of their names' bytes,
  -- and they are exactly the entries with that facet as parent, each under the id of its place.
  pub children_lem :
      (parent : ℕ) (ix : FacetTreeIndex Name)
      → IsOrdered (children parent ix)
        × ((c : Child Name) → In c (children parent ix) ↔ IsChildAt parent 0 ix.entries c)
  unfolding children
  children_lem parent ix = (
    sort_children-IsOrdered (collect parent 0 ix.entries),
    λ c. (
      λ h. collect_sound parent 0 ix.entries c (In-sort_children c (collect parent 0 ix.entries) h),
      λ (i, d, h, p).
          sort_children-In c (collect parent 0 ix.entries)
            (collect_complete parent 0 ix.entries c i d h p),
    ),
  )
