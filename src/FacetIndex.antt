-- ===== src/FacetIndex.antt =====
-- src/server/facet-tree-index.ts: the append-only file that gives every (parent, name) pair of a
-- facet tree a stable small id. `TextEncoder` and `TextDecoder` are the parameters `encode` and
-- `decode`: nothing here depends on what they do.
pub mod Format
pub mod Load
pub mod Ids
pub mod Children
use do_runtime.Common.{
  ℕ, zero, suc, ◌+◌, ◌-◌, Bool, true, false, Option, none, some, List, [], ◌∷◌, ◌++◌, length, take,
  drop, replicate, ltb, leb, if◌then◌else◌, is_some, not, nat_beq, bytes_beq, lookup, insert, ◌||◌,
  Result, ok, err, to_le, from_le, child_eq,
}

-- What the index does with its file. `synced` is the content at the last `datasync`.
pub record IndexFile : Type 0 where
  pub bytes : List ℕ
  pub synced : List ℕ

-- A write past the end fills the gap with zeroes.
unfoldable pub write : ℕ → List ℕ → IndexFile → IndexFile
write offset chunk f = record f {
  bytes =
      take offset f.bytes
      ++ (replicate (offset - length f.bytes) 0 ++ (chunk ++ drop (offset + length chunk) f.bytes));
}

unfoldable pub truncate : ℕ → IndexFile → IndexFile
truncate size f = record f { bytes = take size f.bytes }

unfoldable pub datasync : IndexFile → IndexFile
datasync f = record f { synced = f.bytes }

abbrev pub magic_number : ℕ
magic_number = 0xc4cdce5bc5b0ef57

abbrev pub magic_length : ℕ
magic_length = 8

abbrev pub max_id : ℕ
max_id = 0xffff

abbrev pub entry_header_length : ℕ
entry_header_length = 4

-- `out_of_fuel` is the model's own; `Load.read_entries_total` says that it does not occur.
pub data IndexError : Type 0 where
  unknown_magic too_many empty_name name_too_long invalid_parent out_of_fuel : IndexError

pub record Entry (Name : Type 0) : Type 0 where
  pub parent : ℕ
  pub name : Name
  pub name_key : List ℕ

-- The fields `#offset`, `#entries` and `#byKey`.
pub record Contents (Name : Type 0) : Type 0 where
  pub offset : ℕ
  pub entries : List (Entry Name)
  pub by_key : List ((ℕ × List ℕ) × ℕ)

pub record FacetTreeIndex (Name : Type 0) : Type 0 where
  pub file : IndexFile
  pub contents : Contents Name
  pub open contents use *

module _ {Name : Type 0} where
  abbrev pub blank : Contents Name
  blank = record { offset = magic_length; entries = []; by_key = [] }

  abbrev pub next_id : Contents Name → ℕ
  next_id c = length c.entries + 1

  -- `#append`, with the step of `#offset` that both callers make beside it.
  unfoldable pub add : Entry Name → Contents Name → Contents Name
  add e c = record {
    offset = c.offset + (entry_header_length + length e.name_key);
    entries = c.entries ++ e ∷ [];
    by_key = insert (e.parent, e.name_key) (length c.entries) c.by_key;
  }

  -- An entry as `getId` lays it out: two 16-bit integers and the name.
  unfoldable pub entry_data : Entry Name → List ℕ
  entry_data e = to_le 2 e.parent ++ (to_le 2 (length e.name_key) ++ e.name_key)

-- One round of the constructor's loop: it ends, it throws, or it accepts an entry.
pub data Round (Name : Type 0) : Type 0 where
  stop : Round Name
  throw : IndexError → Round Name
  accept : Entry Name → List ℕ → Round Name

module _ {Name : Type 0} where
  -- Behind the loop: what it left unread is cut off the file.
  abbrev cut_tail :
      IndexFile → Result IndexError (Contents Name) → Result IndexError (FacetTreeIndex Name)
  cut_tail f (err e) = err e
  cut_tail f (ok c) = ok (record {
    file = if ltb c.offset (length f.bytes) then truncate c.offset f else f;
    contents = c;
  })

module _ {Name : Type 0} (encode : Name → List ℕ) (decode : List ℕ → Name) where
  -- The checks of the loop's body, and the name cut off the bytes behind the header.
  judge : Contents Name → ℕ → ℕ → List ℕ → Round Name
  judge c parent name_length tail =
      let name_key = take name_length tail in
      if ltb max_id (next_id c)
      then throw too_many
      else if nat_beq name_length 0 || (ltb (length tail) name_length || leb (next_id c) parent)
      then stop
      else if is_some (lookup (parent, name_key) c.by_key)
      then stop
      else accept (record { parent = parent; name = decode name_key; name_key = name_key })
          (drop name_length tail)

  -- The body of the loop, at the bytes from `#offset` on; fewer than four end it.
  unfoldable pub read_entry : Contents Name → List ℕ → Round Name
  unfolding judge
  read_entry c (p0 ∷ p1 ∷ l0 ∷ l1 ∷ tail) =
      judge c (from_le (p0 ∷ p1 ∷ [])) (from_le (l0 ∷ l1 ∷ [])) tail
  read_entry c _ = stop

  unfoldable pub read_entries : ℕ → Contents Name → List ℕ → Result IndexError (Contents Name)
  read_entries zero c rest = err out_of_fuel
  read_entries (suc fuel) c rest = elim (read_entry c rest) [
    | stop ↦ ok c
    | throw e ↦ err e
    | accept e rest' ↦ read_entries fuel (add e c) rest'
  ]

  -- The constructor. Every round takes at least five bytes, so the fuel lasts.
  unfoldable pub open_index : IndexFile → Result IndexError (FacetTreeIndex Name)
  open_index f =
      if leb (length f.bytes) magic_length
      then ok (record { file = datasync (write 0 (to_le 8 magic_number) f); contents = blank })
      else if not (nat_beq (from_le (take 8 f.bytes)) magic_number)
      then err unknown_magic
      else cut_tail f (read_entries (suc (length f.bytes)) blank (drop magic_length f.bytes))

  -- `getId` for a pair that is not there yet.
  create : ℕ → List ℕ → FacetTreeIndex Name → Result IndexError ℕ × FacetTreeIndex Name
  create parent name_key ix =
      let e : Entry Name = record {
        parent = parent;
        name = decode name_key;
        name_key = name_key;
      } in
      if ltb max_id (next_id ix.contents) then (err too_many, ix) else (
        ok (length ix.entries + 1),
        record {
          file = datasync (write ix.offset (entry_data e) ix.file);
          contents = add e ix.contents;
        },
      )

  abbrev found_or :
      Option ℕ → ℕ → List ℕ → FacetTreeIndex Name → Result IndexError ℕ × FacetTreeIndex Name
  found_or (some index) parent name_key ix = (ok (index + 1), ix)
  found_or none parent name_key ix = create parent name_key ix

  unfoldable pub get_id : ℕ → Name → FacetTreeIndex Name → Result IndexError ℕ × FacetTreeIndex Name
  unfolding create
  get_id parent name ix =
      let name_key = encode name in
      if nat_beq (length name_key) 0
      then (err empty_name, ix)
      else if ltb max_id (length name_key)
      then (err name_too_long, ix)
      else if ltb (length ix.entries) parent
      then (err invalid_parent, ix)
      else found_or (lookup (parent, name_key) ix.by_key) parent name_key ix
