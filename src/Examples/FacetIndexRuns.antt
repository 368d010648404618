-- ===== src/Examples/FacetIndexRuns.antt =====
-- src/server/facet-tree-index.ts on small files. Names are byte strings that encode themselves.
use do_runtime.Common.{
  ℕ, ◌≡◌, ◌≢◌, refl, ◌↔◌, List, [], ◌∷◌, ◌++◌, ok, err, take, to_le, arith, insert,
}
use do_runtime.FacetIndex.{
  IndexFile, unknown_magic, out_of_fuel, magic_number, Entry, FacetTreeIndex, blank, add,
  entry_data, read_entry, read_entries, open_index, get_id, write, truncate, datasync, empty_name,
  invalid_parent,
}
use do_runtime.FacetIndex.Format.{IsWellFormed, IsAcceptable}
use do_runtime.FacetIndex.Load.{
  IsReopened, read_entries_total, open_index-IsWellFormed_reads, open_index_torn,
  open_index-IsWellFormed,
}
use do_runtime.FacetIndex.Ids.{
  Use, ask, restart, use_once, use_all, use_all-IsWellFormed, get_id_stable, get_id_injective,
}
use do_runtime.FacetIndex.Children.{
  Child, In, IsOrdered, IsChildAt, children, children_lem, for_each_child,
}

abbrev Bytes : Type 0
Bytes = List ℕ

abbrev same : Bytes → Bytes
same bytes = bytes

abbrev new_file : IndexFile
new_file = record { bytes = to_le 8 magic_number; synced = to_le 8 magic_number }

abbrev new_index : FacetTreeIndex Bytes
new_index = record { file = new_file; contents = blank }

new_index-IsWellFormed : IsWellFormed same new_index
new_index-IsWellFormed = record { chain = tt; built = refl; content = refl }

-- "b" and "a" under the root, then "a" under the first of them.
abbrev three : List (Use Bytes)
three = ask 0 (98 ∷ []) ∷ ask 0 (97 ∷ []) ∷ ask 1 (97 ∷ []) ∷ []

abbrev family : FacetTreeIndex Bytes
family = use_all same same three new_index

three_ids :
    ((get_id same same 1 (97 ∷ []) family).0 ≡ ok 3)
    × ((get_id same same 0 (97 ∷ []) family).0 ≡ ok 2)
    × ((get_id same same 4 (97 ∷ []) family).0 ≡ err invalid_parent)
    × ((get_id same same 0 [] family).0 ≡ err empty_name)
unfolding use_all use_once get_id add write datasync entry_data insert open_index
three_ids = (refl, refl, refl, refl)

root_children : for_each_child 0 family ≡ (2, 97 ∷ []) ∷ (1, 98 ∷ []) ∷ []
unfolding use_all use_once get_id add write datasync entry_data insert open_index for_each_child
root_children = refl

foreign_file :
    open_index same same (record { bytes = 1 ∷ 2 ∷ 3 ∷ 4 ∷ 5 ∷ 6 ∷ 7 ∷ 8 ∷ 9 ∷ []; synced = [] })
    ≡ err unknown_magic
unfolding open_index
foreign_file = refl

abbrev one : FacetTreeIndex Bytes
one = use_all same same (ask 0 (98 ∷ []) ∷ []) new_index

one-IsWellFormed : IsWellFormed same one
one-IsWellFormed =
    use_all-IsWellFormed same same (ask 0 (98 ∷ []) ∷ []) new_index new_index-IsWellFormed

open_index-IsWellFormed_reads_example : IsReopened same same one one.file
open_index-IsWellFormed_reads_example = open_index-IsWellFormed_reads same same one one-IsWellFormed

-- A second child of the root, of which only five of six bytes reached the disk.
abbrev late : Entry Bytes
late = record { parent = 0; name = 99 ∷ 100 ∷ []; name_key = 99 ∷ 100 ∷ [] }

late-IsAcceptable : IsAcceptable same one.contents late
unfolding use_all use_once get_id add insert
late-IsAcceptable = record {
  room = omega arith;
  named = omega arith;
  short = omega arith;
  rooted = omega arith;
  fresh = refl;
  decoded = refl;
}

abbrev torn_file : IndexFile
torn_file = record { bytes = one.file.bytes ++ take 5 (entry_data late); synced = one.file.bytes }

open_index_torn_example : IsReopened same same one torn_file
open_index_torn_example =
    open_index_torn same same one torn_file late 5 one-IsWellFormed late-IsAcceptable
      (unfold entry_data in omega arith) refl

-- A file with one entry and two bytes of garbage, as it is after the opening.
abbrev messy : IndexFile
messy = record { bytes = to_le 8 magic_number ++ (0 ∷ 0 ∷ 1 ∷ 0 ∷ 98 ∷ 7 ∷ 7 ∷ []); synced = [] }

abbrev mended : FacetTreeIndex Bytes
mended = record {
  file = truncate 13 messy;
  contents = add (record { parent = 0; name = 98 ∷ []; name_key = 98 ∷ [] }) blank;
}

open_messy : open_index same same messy ≡ ok mended
unfolding open_index read_entries read_entry truncate add insert
open_messy = refl

open_index-IsWellFormed_example : IsWellFormed same mended
open_index-IsWellFormed_example =
    open_index-IsWellFormed same same messy mended (omega arith) open_messy

read_entries_total_example :
    read_entries same same 8 blank (0 ∷ 0 ∷ 1 ∷ 0 ∷ 98 ∷ 7 ∷ 7 ∷ []) ≢ err out_of_fuel
read_entries_total_example =
    read_entries_total same same 8 blank (0 ∷ 0 ∷ 1 ∷ 0 ∷ 98 ∷ 7 ∷ 7 ∷ []) (omega arith)

ask_b : get_id same same 0 (98 ∷ []) new_index ≡ (ok 1, one)
unfolding use_all use_once get_id
ask_b = refl

abbrev later_uses : List (Use Bytes)
later_uses = ask 0 (97 ∷ []) ∷ restart ∷ ask 1 (98 ∷ []) ∷ []

get_id_stable_example :
    get_id same same 0 (98 ∷ []) (use_all same same later_uses one)
    ≡ (ok 1, use_all same same later_uses one)
get_id_stable_example =
    get_id_stable same same 0 (98 ∷ []) 1 later_uses new_index one new_index-IsWellFormed ask_b

asked_again :
    get_id same same 0 (98 ∷ []) (use_all same same later_uses one)
    ≡ (ok 1, use_all same same later_uses one)
unfolding use_all use_once get_id add write datasync entry_data insert open_index read_entries
    read_entry truncate
asked_again = refl

get_id_injective_example : ◌≡◌ {A = ℕ} 0 0 × (same (98 ∷ []) ≡ same (98 ∷ []))
get_id_injective_example =
    get_id_injective same same 0 0 (98 ∷ []) (98 ∷ []) 1 later_uses new_index one
      (use_all same same later_uses one) new_index-IsWellFormed ask_b asked_again

children_lem_example :
    IsOrdered (children 0 family)
    × ((c : Child Bytes) → In c (children 0 family) ↔ IsChildAt 0 0 family.entries c)
children_lem_example = children_lem 0 family
