-- ===== src/FacetIndex/Format.antt =====
-- What a well-formed index is: its entries are acceptable one after another, its table is built
-- from them, and its file is the magic number followed by their encodings.
use do_runtime.Common.{
  ℕ, ◌+◌, ◌≤◌, ◌<◌, ◌≡◌, refl, ap, none, List, [], ◌∷◌, ◌++◌, append_assoc, append-nil, length,
  length-append, lookup, to_le, child_eq, arith,
}
use do_runtime.FacetIndex.{
  magic_number, max_id, entry_header_length, Entry, Contents, FacetTreeIndex, blank, next_id, add,
  entry_data,
}

module _ {Name : Type 0} where
  abbrev pub encode_all : List (Entry Name) → List ℕ
  encode_all [] = []
  encode_all (e ∷ es) = entry_data e ++ encode_all es

  abbrev pub add_all : List (Entry Name) → Contents Name → Contents Name
  add_all [] c = c
  add_all (e ∷ es) c = add_all es (add e c)

module _ {Name : Type 0} (decode : List ℕ → Name) where
  -- What the loop of the constructor demands of an entry.
  pub record IsAcceptable (c : Contents Name) (e : Entry Name) : Type 0 where
    pub room : next_id c ≤ max_id
    pub named : 0 < length e.name_key
    pub short : length e.name_key ≤ max_id
    pub rooted : e.parent < next_id c
    pub fresh : lookup (e.parent, e.name_key) c.by_key ≡ none
    pub decoded : e.name ≡ decode e.name_key

  abbrev pub Chain : Contents Name → List (Entry Name) → Type 0
  Chain c [] = Unit
  Chain c (e ∷ es) = IsAcceptable c e × Chain (add e c) es

  pub record IsWellFormed (ix : FacetTreeIndex Name) : Type 0 where
    pub chain : Chain blank ix.entries
    pub built : add_all ix.entries blank ≡ ix.contents
    pub content : ix.file.bytes ≡ to_le 8 magic_number ++ encode_all ix.entries

  pub Chain-snoc :
      (c : Contents Name) (es : List (Entry Name)) (e : Entry Name)
      → Chain c es
      → IsAcceptable (add_all es c) e
      → Chain c (es ++ e ∷ [])
  Chain-snoc c [] e h a = (a, tt)
  Chain-snoc c (x ∷ es) e h a = (h.0, Chain-snoc (add x c) es e h.1 a)

module _ {Name : Type 0} where
  pub add_all-snoc :
      (c : Contents Name) (es : List (Entry Name)) (e : Entry Name)
      → add_all (es ++ e ∷ []) c ≡ add e (add_all es c)
  add_all-snoc c [] e = refl
  add_all-snoc c (x ∷ es) e = add_all-snoc (add x c) es e

  pub encode_all-snoc :
      (es : List (Entry Name)) (e : Entry Name)
      → encode_all (es ++ e ∷ []) ≡ encode_all es ++ entry_data e
  encode_all-snoc [] e = append-nil (entry_data e)
  encode_all-snoc (x ∷ es) e = rw (encode_all-snoc es e, append_assoc)

  pub entries-add_all :
      (c : Contents Name) (es : List (Entry Name)) → (add_all es c).entries ≡ c.entries ++ es
  unfolding add
  entries-add_all c [] = rw append-nil
  entries-add_all c (e ∷ es) = rw (entries-add_all (add e c) es, append_assoc)

  pub length-entry_data :
      (e : Entry Name) → length (entry_data e) ≡ entry_header_length + length e.name_key
  unfolding entry_data
  length-entry_data e = omega arith

  pub offset-add :
      (e : Entry Name) (c : Contents Name)
      → (add e c).offset ≡ c.offset + (entry_header_length + length e.name_key)
  unfolding add
  offset-add e c = refl

  pub offset-add_all :
      (c : Contents Name) (es : List (Entry Name))
      → (add_all es c).offset ≡ c.offset + length (encode_all es)
  offset-add_all c [] = omega arith
  offset-add_all c (e ∷ es) = omega (
    arith,
    offset-add_all (add e c) es,
    length-append (entry_data e) (encode_all es),
    length-entry_data e,
    offset-add e c,
  )

  pub length-encode_all : (es : List (Entry Name)) → length es ≤ length (encode_all es)
  length-encode_all [] = omega arith
  length-encode_all (e ∷ es) = omega (
    arith,
    length-encode_all es,
    length-append (entry_data e) (encode_all es),
    length-entry_data e,
  )

module _ {Name : Type 0} (decode : List ℕ → Name) where
  -- The next entry goes to the end of the file.
  pub offset_lem :
      (ix : FacetTreeIndex Name) → IsWellFormed decode ix → ix.offset ≡ length ix.file.bytes
  offset_lem ix w = omega (
    arith,
    ap (λ (c : Contents Name). c.offset) w.built,
    offset-add_all blank ix.entries,
    ap (λ (l : List ℕ). length l) w.content,
  )
