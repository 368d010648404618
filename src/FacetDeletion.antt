-- ===== src/FacetDeletion.antt =====
-- src/server/facet-deletion.ts: the receipts of deletions that were asked for, the controller that
-- carries them out, and the epochs that make old references stale. Facet ids are natural numbers;
-- the table is in the order of its primary key.
pub mod Rows
pub mod Fence
pub mod Epochs
pub mod Queue
use do_runtime.Common.{
  ℕ, zero, suc, ◌+◌, Bool, true, false, Option, none, some, List, [], ◌∷◌, nat_beq, ltb, leb, ◌&&◌,
  if◌then◌else◌, Result, ok, err, lookup, insert, erase, nat_eq,
}

pub record Receipt : Type 0 where
  pub id : ℕ
  pub generation : ℕ

pub data DeletionError : Type 0 where
  not_a_facet no_generation : DeletionError

abbrev pub Table : Type 0
Table = List (ℕ × ℕ)

-- `Number.MAX_SAFE_INTEGER`.
abbrev pub max_safe_integer : ℕ
max_safe_integer = 9007199254740991

-- The statement of `record`: the generation that it returns, and the table.
unfoldable pub upsert : ℕ → Table → ℕ × Table
upsert id [] = (1, (id, 1) ∷ [])
upsert id ((k, g) ∷ table) =
    let rest = upsert id table in
    if nat_beq k id
    then (g + 1, (k, g + 1) ∷ table)
    else if ltb id k
    then (1, (id, 1) ∷ (k, g) ∷ table)
    else (rest.0, (k, g) ∷ rest.1)

unfoldable pub record_deletion : ℕ → Table → Result DeletionError Receipt × Table
unfolding upsert
record_deletion id table =
    let written = upsert id table in
    if nat_beq id 0
    then (err not_a_facet, table)
    else if ltb max_safe_integer written.0
    then (err no_generation, written.1)
    else (ok (record { id = id; generation = written.0 }), written.1)

abbrev pub read : ℕ → Table → Option ℕ
read id table = lookup id table

-- `clear`: whether a row was deleted, and the table.
unfoldable pub clear : Receipt → Table → Bool × Table
clear r [] = (false, [])
clear r ((k, g) ∷ table) =
    let rest = clear r table in
    if nat_beq k r.id && nat_beq g r.generation then (true, table) else (rest.0, (k, g) ∷ rest.1)

-- An entry of `#active`: the attempt with its number, and the attempt that it waits for.
pub record Attempt : Type 0 where
  pub number : ℕ
  pub receipt : Receipt
  pub previous : Option ℕ

pub record Controller : Type 0 where
  pub table : Table
  pub active : List (ℕ × Attempt)
  pub next_number : ℕ

abbrev pub previous_of : Option Attempt → Option ℕ
previous_of none = none
previous_of (some a) = some a.number

abbrev pub covers : Option Attempt → Receipt → Bool
covers none r = false
covers (some a) r = leb r.generation a.receipt.generation

abbrev pub new_attempt : Receipt → Controller → Attempt
new_attempt r c = record {
  number = c.next_number;
  receipt = r;
  previous = previous_of (lookup r.id c.active);
}

-- `#run`: an attempt of this generation or a newer one covers the request.
unfoldable pub run_deletion : Receipt → Controller → Controller
run_deletion r c = if covers (lookup r.id c.active) r then c else record c {
  active = insert r.id (new_attempt r c) c.active;
  next_number = c.next_number + 1;
}

abbrev pub run_recorded :
    Result DeletionError Receipt × Table → Controller → Result DeletionError Controller
run_recorded (ok r, table) c = ok (run_deletion r (record c { table = table }))
run_recorded (err e, table) c = err e

-- `delete`.
unfoldable pub delete_facet : ℕ → Controller → Result DeletionError Controller
delete_facet id c = run_recorded (record_deletion id c.table) c

-- The subtree of an attempt is gone: its receipt is cleared, and then, a few microtasks later, its
-- entry, unless another one has taken its place.
abbrev pub deleted : Attempt → Controller → Controller
deleted a c = record c { table = (clear a.receipt c.table).1 }

abbrev pub is_entry : Option Attempt → Attempt → Bool
is_entry none a = false
is_entry (some b) a = nat_beq b.number a.number

abbrev pub clear_active : Attempt → Controller → Controller
clear_active a c =
    if is_entry (lookup a.receipt.id c.active) a
    then record c { active = erase a.receipt.id c.active }
    else c

-- `list`, in the order of the table.
unfoldable pub list_receipts : Table → List Receipt
list_receipts [] = []
list_receipts ((id, g) ∷ table) = record { id = id; generation = g } ∷ list_receipts table

abbrev pub flush_on : Option ℕ → ℕ → Controller → Controller
flush_on none id c = c
flush_on (some g) id c = run_deletion (record { id = id; generation = g }) c

-- One round of `flush`, up to its await.
abbrev pub flush_round : ℕ → Controller → Controller
flush_round id c = flush_on (read id c.table) id c

-- `recoverAll`: the first round of every flush.
unfoldable pub flush_all : List Receipt → Controller → Controller
flush_all [] c = c
flush_all (r ∷ rs) c = flush_all rs (flush_round r.id c)

abbrev pub recover_all : Controller → Controller
recover_all c = flush_all (list_receipts c.table) c
