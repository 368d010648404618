-- ===== src/FacetDeletion/Fence.antt =====
-- src/server/facet-deletion.ts: a receipt clears its own request only, and a request is covered.
use mathlib.Core.Path.{subst}
use do_runtime.Common.{
  Option, ◌⊎◌, ℕ, suc, ◌<◌, ◌≤◌, ◌≡◌, ◌≢◌, refl, sym, ap, ◌∙◌, true, false, none, some, nat_beq,
  ltb, leb, Result, ok, err, lookup, lookup-insert, nat_eq, beq_refl, Bool-cases, Option-cases, inl,
  inr, arith,
}
use do_runtime.FacetDeletion.{
  Receipt, DeletionError, max_safe_integer, Table, upsert, record_deletion, read, clear, Attempt,
  Controller, covers, run_deletion, run_recorded, delete_facet, previous_of, new_attempt,
}
use do_runtime.FacetDeletion.Rows.{
  IsFrom, or_zero, upsert-read, upsert-IsFrom, upsert-suc, upsert_rest, clear_other, clear_match,
}

-- What a receipt that was issued for `id` may rely on, where the table was `before`.
pub record IsFenced (r : Receipt) (id : ℕ) (before table : Table) : Type 0 where
  pub names : r.id ≡ id
  pub row : read id table ≡ some r.generation
  pub newer : r.generation ≡ suc (or_zero (read id before))
  pub rest : (k : ℕ) → k ≢ id → read k table ≡ read k before
  pub ordered : IsFrom 0 table
  pub older :
      (old : Receipt)
      → old.id ≡ id
      → old.generation ≤ or_zero (read id before)
      → clear old table ≡ (false, table)
  pub clears : ((clear r table).0 ≡ true) × (read id (clear r table).1 ≡ none)

upsert-IsFenced :
    (id : ℕ) (table : Table)
    → IsFrom 0 table
    → IsFenced (record { id = id; generation = (upsert id table).0 }) id table (upsert id table).1
upsert-IsFenced id table from =
    let row = upsert-read id 0 table from in
    let from' = upsert-IsFrom id 0 table (omega arith) from in
    let newer = upsert-suc id 0 table from in
    record {
      names = refl;
      row = row;
      newer = newer;
      rest = λ k other. upsert_rest id k table other;
      ordered = from';
      older = λ old same before.
          clear_other old (upsert id table).0 0 (upsert id table).1 from' (rw same row)
            (λ e. omega (arith, e, before, newer));
      clears =
          clear_match (record { id = id; generation = (upsert id table).0 }) 0 (upsert id table).1
            from' row;
    }

-- Recording a deletion makes the row that its receipt names, one generation newer than the row
-- before, and leaves every other row. A receipt of the same facet with the
-- generation of that row or an older one cannot clear the new row; its own clears it.
pub record_deletion-IsFenced :
    (id : ℕ) (table table' : Table) (r : Receipt)
    → IsFrom 0 table
    → record_deletion id table ≡ (ok r, table')
    → IsFenced r id table table'
unfolding record_deletion
record_deletion-IsFenced id table table' r from recorded = elim (Bool-cases (nat_beq id 0)) [
  | inl root ↦ let thrown = rw root at recorded in absurd (cc (ap (λ x. x.0) thrown))
  | inr facet ↦ elim (Bool-cases (ltb max_safe_integer (upsert id table).0)) [
    | inl unsafe ↦ let thrown = rw (facet, unsafe) at recorded in absurd (cc (ap (λ x. x.0) thrown))
    | inr safe ↦
        let written = rw (facet, safe) at recorded in
        let is_r : ok (record { id = id; generation = (upsert id table).0 }) ≡ ok r =
          ap (λ x. x.0) written in
        let same : record { id = id; generation = (upsert id table).0 } ≡ r = cc in
        let is_table : (upsert id table).1 ≡ table' = ap (λ x. x.1) written in
        subst (λ t. IsFenced r id table t) is_table
          (subst (λ x. IsFenced x id table (upsert id table).1) same
            (upsert-IsFenced id table from))
  ]
]

-- What an attempt waits for: the entry that it takes the place of.
abbrev pub IsBehind : Option ℕ → Option Attempt → Type 0
IsBehind none none = Unit
IsBehind none (some a) = ⊥
IsBehind (some n) none = ⊥
IsBehind (some n) (some a) = n ≡ a.number

-- The request gets an attempt of its own, behind the entry of its facet if there is one, which is of
-- an older generation.
pub record IsStarted (r : Receipt) (c c' : Controller) : Type 0 where
  pub attempt : Attempt
  pub entry : lookup r.id c'.active ≡ some attempt
  pub numbered : attempt.number ≡ c.next_number
  pub fresh : c'.next_number ≡ suc c.next_number
  pub uncovered :
      (a : Attempt) → lookup r.id c.active ≡ some a → a.receipt.generation < r.generation
  pub carries : attempt.receipt ≡ r
  pub behind : IsBehind attempt.previous (lookup r.id c.active)
  pub others : (k : ℕ) → k ≢ r.id → lookup k c'.active ≡ lookup k c.active

-- The request joins an attempt that is there; its receipt is not of an older generation.
pub record IsJoined (r : Receipt) (c c' : Controller) : Type 0 where
  pub attempt : Attempt
  pub entry : lookup r.id c.active ≡ some attempt
  pub covering : r.generation ≤ attempt.receipt.generation
  pub kept : c'.active ≡ c.active

previous_of-IsBehind : (x : Option Attempt) → IsBehind (previous_of x) x
previous_of-IsBehind none = tt
previous_of-IsBehind (some a) = refl

run_deletion-IsStarted :
    (r : Receipt) (table : Table) (c : Controller)
    → covers (lookup r.id c.active) r ≡ false
    → IsStarted r c (run_deletion r (record c { table = table }))
unfolding run_deletion
run_deletion-IsStarted r table c open_request =
    rw (open_request, run_deletion)
      (record {
        attempt = new_attempt r c;
        entry = lookup-insert r.id r.id (new_attempt r c) c.active ∙ rw (beq_refl r.id);
        numbered = refl;
        fresh = omega arith;
        uncovered = λ a is_a. ground (arith, rw is_a at open_request);
        carries = refl;
        behind = previous_of-IsBehind (lookup r.id c.active);
        others = λ k other.
            let apart : nat_beq r.id k ≡ false = ground (arith, other) in
            lookup-insert r.id k (new_attempt r c) c.active ∙ rw apart;
      })

-- A request starts an attempt, or joins the one that covers it.
run_deletion_lem :
    (r : Receipt) (table : Table) (c : Controller)
    → IsStarted r c (run_deletion r (record c { table = table }))
      ⊎ IsJoined r c (run_deletion r (record c { table = table }))
unfolding run_deletion
run_deletion_lem r table c = elim (Option-cases (lookup r.id c.active)) [
  | inl idle ↦ inl (run_deletion-IsStarted r table c (rw idle))
  | inr (a, is_a) ↦ elim (Bool-cases (leb r.generation a.receipt.generation)) [
    | inr older ↦ inl (run_deletion-IsStarted r table c (rw (is_a, older)))
    | inl covered ↦ inr (record {
      attempt = a;
      entry = is_a;
      covering = ground (arith, covered);
      kept = rw (is_a, covered, run_deletion);
    })
  ]
]

run_deletion-table : (r : Receipt) (c : Controller) → (run_deletion r c).table ≡ c.table
unfolding run_deletion
run_deletion-table r c = elim (Bool-cases (covers (lookup r.id c.active) r)) [
  | inl covered ↦ rw (covered, run_deletion)
  | inr open_request ↦ rw (open_request, run_deletion)
]

run_recorded_lem :
    (x : Result DeletionError Receipt × Table) (id : ℕ) (c c' : Controller)
    → ((r : Receipt) (table : Table) → x ≡ (ok r, table) → IsFenced r id c.table table)
    → run_recorded x c ≡ ok c'
    → (r : Receipt) × IsFenced r id c.table c'.table × (IsStarted r c c' ⊎ IsJoined r c c')
run_recorded_lem (err e, table) id c c' fenced ran = absurd (cc)
run_recorded_lem (ok r, table) id c c' fenced ran =
    let c₁ : Controller = record c { table = table } in
    let same : run_deletion r c₁ ≡ c' = cc in
    let there : IsFenced r id c.table (run_deletion r c₁).table =
      subst (λ t. IsFenced r id c.table t) (sym (run_deletion-table r c₁)) (fenced r table refl) in
    (
      r,
      subst (λ (x : Controller). IsFenced r id c.table x.table) same there,
      subst (λ x. IsStarted r c x ⊎ IsJoined r c x) same (run_deletion_lem r table c),
    )

-- A `delete` that does not throw, on a table in the order of its keys, has stored a receipt one
-- generation newer than the row of its facet before, and left every other row. A receipt of the
-- facet with the generation of that row or an older one cannot clear the new row, and the new one
-- clears it. If its facet has no entry of this generation or a newer one, the request has an
-- attempt of its own, with a new number and behind the entry that its facet had; else it joins that
-- entry, and the entries stay.
pub delete_facet_lem :
    (id : ℕ) (c c' : Controller)
    → IsFrom 0 c.table
    → delete_facet id c ≡ ok c'
    → (r : Receipt) × IsFenced r id c.table c'.table × (IsStarted r c c' ⊎ IsJoined r c c')
unfolding delete_facet
delete_facet_lem id c c' from ran =
    run_recorded_lem (record_deletion id c.table) id c c'
      (λ r table recorded. record_deletion-IsFenced id c.table table r from recorded) ran
