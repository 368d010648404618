-- ===== src/FacetIndex/Ids/Steps.antt =====
-- One call of `getId`: its branches, and that it keeps the index well formed.
use do_runtime.Common.{
  ℕ, ◌+◌, ◌-◌, ◌≤◌, ◌<◌, ◌≡◌, refl, ap, ◌∙◌, none, some, List, [], ◌∷◌, ◌++◌, append-nil, length,
  take, drop_past, lookup, child_eq, arith, ok, err, ltb, nat_beq, Bool-cases, ◌⊎◌, inl, inr,
  Option-cases,
}
use do_runtime.FacetIndex.{
  IndexError, max_id, IndexFile, write, datasync, Entry, FacetTreeIndex, blank, next_id, add,
  entry_data, found_or, get_id,
}
use do_runtime.FacetIndex.Format.{
  IsAcceptable, IsWellFormed, Chain-snoc, encode_all-snoc, add_all-snoc, offset_lem,
}

write_end :
    (f : IndexFile) (n : ℕ) (chunk : List ℕ)
    → n ≡ length f.bytes
    → (write n chunk f).bytes ≡ f.bytes ++ chunk
unfolding write
write_end f n chunk l =
    let no_gap : n - length f.bytes ≡ 0 = omega arith in
    rw (no_gap, drop_past (n + length chunk) f.bytes (omega arith), append-nil, l)
      (rw (take_all f.bytes))
  where
    take_all : (xs : List ℕ) → take (length xs) xs ≡ xs
    take_all [] = refl
    take_all (x ∷ xs) = ap (λ (t : List ℕ). x ∷ t) (take_all xs)

module _ {Name : Type 0} (encode : Name → List ℕ) where
  -- The facts under which `getId` looks its pair up.
  pub record IsLegal (parent : ℕ) (name : Name) (ix : FacetTreeIndex Name) : Type 0 where
    pub named : 0 < length (encode name)
    pub short : length (encode name) ≤ max_id
    pub rooted : parent ≤ length ix.entries

module _ {Name : Type 0} (encode : Name → List ℕ) (decode : List ℕ → Name) where
  abbrev pub entry_of : ℕ → Name → Entry Name
  entry_of parent name = record {
    parent = parent;
    name = decode (encode name);
    name_key = encode name;
  }

  abbrev pub extended : ℕ → Name → FacetTreeIndex Name → FacetTreeIndex Name
  extended parent name ix = record {
    file = datasync (write ix.offset (entry_data (entry_of parent name)) ix.file);
    contents = add (entry_of parent name) ix.contents;
  }

  pub get_id-found :
      (parent : ℕ) (name : Name) (ix : FacetTreeIndex Name) (i : ℕ)
      → IsLegal encode parent name ix
      → lookup (parent, encode name) ix.by_key ≡ some i
      → get_id encode decode parent name ix ≡ (ok (i + 1), ix)
  unfolding get_id
  get_id-found parent name ix i l h = rw (h, found_or) (ground arith)

  -- A call that succeeds has found its pair, or has added it; every other leaves the index alone.
  pub get_id-cases :
      (parent : ℕ) (name : Name) (ix : FacetTreeIndex Name)
      → ((x : IndexError) × (get_id encode decode parent name ix ≡ (err x, ix)))
        ⊎ ((i : ℕ) × IsLegal encode parent name ix
            × (lookup (parent, encode name) ix.by_key ≡ some i)
            × (get_id encode decode parent name ix ≡ (ok (i + 1), ix)))
        ⊎ (IsLegal encode parent name ix
            × (lookup (parent, encode name) ix.by_key ≡ none)
            × (next_id ix.contents ≤ max_id)
            × (get_id encode decode parent name ix
                ≡ (ok (length ix.entries + 1), extended parent name ix)))
  unfolding get_id
  get_id-cases parent name ix = elim (Bool-cases (nat_beq (length (encode name)) 0)) [
    | inl a ↦ inl (IndexError.empty_name, rw a)
    | inr a ↦ elim (Bool-cases (ltb max_id (length (encode name)))) [
      | inl b ↦ inl (IndexError.name_too_long, rw (a, b))
      | inr b ↦ elim (Bool-cases (ltb (length ix.entries) parent)) [
        | inl c ↦ inl (IndexError.invalid_parent, rw (a, b, c))
        | inr c ↦
            let legal : IsLegal encode parent name ix = ground arith in
            elim (Option-cases (lookup (parent, encode name) ix.by_key)) [
              | inr (i, known) ↦
                  inr (inl (i, legal, known, get_id-found parent name ix i legal known))
              | inl new ↦ elim (Bool-cases (ltb max_id (next_id ix.contents))) [
                | inl full ↦ inl (IndexError.too_many, rw (a, b, c, new, found_or, full))
                | inr room ↦ inr (inr (legal, new, ground arith, rw (a, b, c, new, found_or, room)))
              ]
            ]
      ]
    ]
  ]

  extended-IsWellFormed :
      (parent : ℕ) (name : Name) (ix : FacetTreeIndex Name)
      → IsWellFormed decode ix
      → IsLegal encode parent name ix
      → lookup (parent, encode name) ix.by_key ≡ none
      → next_id ix.contents ≤ max_id
      → IsWellFormed decode (extended parent name ix)
  unfolding datasync add
  extended-IsWellFormed parent name ix w l new room =
      let e = entry_of parent name in
      let fits : IsAcceptable decode ix.contents e = record {
        room = room;
        named = l.named;
        short = l.short;
        rooted = omega (arith, l.rooted);
        fresh = new;
        decoded = refl;
      } in
      record {
        chain = Chain-snoc decode blank ix.entries e w.chain (rw w.built fits);
        built = add_all-snoc blank ix.entries e ∙ ap (add e) w.built;
        content =
            write_end ix.file ix.offset (entry_data e) (offset_lem decode ix w)
            ∙ rw (w.content, encode_all-snoc ix.entries e);
      }

  -- Whatever it is asked, `getId` keeps the index well formed: in particular its file can be
  -- opened again.
  pub get_id-IsWellFormed :
      (parent : ℕ) (name : Name) (ix : FacetTreeIndex Name)
      → IsWellFormed decode ix
      → IsWellFormed decode (get_id encode decode parent name ix).1
  get_id-IsWellFormed parent name ix w = elim (get_id-cases parent name ix) [
    | inl (x, fails) ↦ rw fails w
    | inr (inl (i, l, known, finds)) ↦ rw finds w
    | inr (inr (l, new, room, makes)) ↦ rw makes (extended-IsWellFormed parent name ix w l new room)
  ]
